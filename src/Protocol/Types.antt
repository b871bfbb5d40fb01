-- ===== src/Protocol/Types.antt =====
-- Type bytes and frame types.
use reactos_luagent.Base.{ℕ, ◌≡◌, ◌↔◌, refl, some, arith}
use reactos_luagent.Frame.{
  FrameType, hello, ack, error, op, op_result, put_begin, put_chunk, put_end, get_begin, get_chunk,
  get_end, proc_spawn, stdin, stdout, stderr, exit, kill, ping, pong, type_code,
}
use reactos_luagent.Protocol.{frame_type_of}

code-frame_type_of : (n : ℕ) (t : FrameType) → frame_type_of n ≡ some t → type_code t ≡ n
unfolding frame_type_of type_code
code-frame_type_of n t e = ground arith

frame_type_of-code : (t : FrameType) → frame_type_of (type_code t) ≡ some t
unfolding frame_type_of type_code
frame_type_of-code hello = refl
frame_type_of-code ack = refl
frame_type_of-code error = refl
frame_type_of-code op = refl
frame_type_of-code op_result = refl
frame_type_of-code put_begin = refl
frame_type_of-code put_chunk = refl
frame_type_of-code put_end = refl
frame_type_of-code get_begin = refl
frame_type_of-code get_chunk = refl
frame_type_of-code get_end = refl
frame_type_of-code proc_spawn = refl
frame_type_of-code stdin = refl
frame_type_of-code stdout = refl
frame_type_of-code stderr = refl
frame_type_of-code exit = refl
frame_type_of-code kill = refl
frame_type_of-code ping = refl
frame_type_of-code pong = refl

-- `frame_type_of` finds a type exactly for the type bytes that an enumerator of `enum frame_type`
-- stands for, and it finds that enumerator.
pub frame_type_of_iff : (n : ℕ) (t : FrameType) → (frame_type_of n ≡ some t) ↔ (type_code t ≡ n)
frame_type_of_iff n t = (code-frame_type_of n t, λ e. rw (← e) (frame_type_of-code t))
