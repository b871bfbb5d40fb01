-- ===== src/Session/Refused.antt =====
-- When `session_send_frame` of src/session.c gives a frame to libuv, and what it leaves otherwise.
use reactos_luagent.Base.{
  ℕ, ◌+◌, ◌≡◌, refl, ◌∷◌, ◌++◌, Bool, true, false, not, ◌&&◌, ◌==◌, leb, Bytes, length, arith,
  is_zero,
}
use reactos_luagent.Libc.{to_u32}
use reactos_luagent.Frame.{
  FrameType, hello, ack, error, op, op_result, put_begin, put_chunk, put_end, get_begin, get_chunk,
  get_end, proc_spawn, stdin, stdout, stderr, exit, kill, ping, pong, type_code, frame_header_size,
  frame_encode_header, frame_validate_header, magic, write_u32le, max_frame_payload,
}
use reactos_luagent.Machine.{
  Os, State, success, failure, alloc, bytes_block, write_req_block, hrtime, ◌>>=◌, util_now_ms,
}
use reactos_luagent.Diag.{count_with}
use reactos_luagent.Session.{
  max_write_queue_bytes, session_send_frame, session_close, send_encoded, send_allocated,
  frame_header, send_buffer, uv_write,
}

type_code_nonzero : (t : FrameType) → (type_code t == 0) ≡ false
unfolding type_code
type_code_nonzero hello = refl
type_code_nonzero ack = refl
type_code_nonzero error = refl
type_code_nonzero op = refl
type_code_nonzero op_result = refl
type_code_nonzero put_begin = refl
type_code_nonzero put_chunk = refl
type_code_nonzero put_end = refl
type_code_nonzero get_begin = refl
type_code_nonzero get_chunk = refl
type_code_nonzero get_end = refl
type_code_nonzero proc_spawn = refl
type_code_nonzero stdin = refl
type_code_nonzero stdout = refl
type_code_nonzero stderr = refl
type_code_nonzero exit = refl
type_code_nonzero kill = refl
type_code_nonzero ping = refl
type_code_nonzero pong = refl

-- Nothing more is held by libuv or counted as pending.
pub record IsUnsent (s s' : State) : Type 0 where
  pub held : s'.in_flight ≡ s.in_flight
  pub counted : s'.session.pending_write_bytes ≡ s.session.pending_write_bytes

module _ (os : Os) (type : FrameType) (req_id : ℕ) (payload : Bytes) where
  -- The bytes of the frame.
  abbrev pub frame_bytes : Bytes
  frame_bytes =
      (magic ++ type_code type ∷ 0 ∷ (write_u32le req_id ++ write_u32le (to_u32 (length payload))))
      ++ payload

  -- The session is open, its queue has room, both allocations succeed, the payload is no longer than
  -- LUAGENT_MAX_FRAME_PAYLOAD, and libuv takes the write.
  abbrev pub can_send : State → Bool
  can_send s =
      let t1 = alloc write_req_block ∷ s.trace in
      let t2 = alloc (bytes_block (frame_header_size + length payload)) ∷ t1 in
      not s.session.closed
      && (leb (s.session.pending_write_bytes + frame_header_size + length payload)
            max_write_queue_bytes
          && (os.alloc_ok s.trace write_req_block
              && (os.alloc_ok t1 (bytes_block (frame_header_size + length payload))
                  && (leb (to_u32 (length payload)) max_frame_payload
                      && is_zero (os.tcp_write_result (hrtime ∷ t2) frame_bytes)))))

  pub session_send_frame_refused :
      (s : State)
      → (session_send_frame os type req_id payload s).0 ≡ failure
      → (can_send s ≡ false) × IsUnsent s (session_send_frame os type req_id payload s).1
  unfolding session_send_frame send_allocated send_encoded send_buffer session_close count_with
      util_now_ms uv_write ◌>>=◌ frame_encode_header frame_header frame_validate_header
  session_send_frame_refused s e = (
    ground (arith, type_code_nonzero type),
    record {
      held = ground (arith, type_code_nonzero type);
      counted = ground (arith, type_code_nonzero type);
    },
  )

  pub session_send_frame_sent :
      (s : State) → (session_send_frame os type req_id payload s).0 ≡ success → can_send s ≡ true
  unfolding session_send_frame send_allocated send_encoded send_buffer session_close count_with
      util_now_ms uv_write ◌>>=◌ frame_encode_header frame_header frame_validate_header
  session_send_frame_sent s e = ground (arith, type_code_nonzero type)
