-- ===== src/Tests/Wire.antt =====
-- The examples of the theorems on headers, texts and the stream of frames.
use reactos_luagent.Base.{
  ◌≡◌, refl, ◌≤◌, ◌⊎◌, inl, true, [], ◌∷◌, ◌++◌, Bytes, IsBytes, codes, length, take, some, arith,
}
use reactos_luagent.Frame.{
  FrameHeader, ok, frame_header_size, max_frame_payload, frame_encode_header, frame_decode_header,
  IsTyped, IsValid,
}
use reactos_luagent.Frame.Codec.{decode-encode, encode-decode}
use reactos_luagent.Libc.{strchr, decimal, digits_loop}
use reactos_luagent.Kv.Keys.{IsKey}
use reactos_luagent.Kv.Render.{Pair, IsLine, render, assoc, kv_copy-render}
use reactos_luagent.Kv.{kv_copy, line_matches}
use reactos_luagent.Kv.Lines.{fitting, firsts, find_value, lines, kv_copy-eq-lines}
use reactos_luagent.Machine.{State, Action, Rc, pure, success}
use reactos_luagent.Server.{frames_loop, read_cb, received}
use reactos_luagent.Server.Deframe.{resume, frames_loop-append}
use reactos_luagent.Server.Stream.{Frame, IsSendable, wires, run_frames, frames_loop-wires}
use reactos_luagent.Server.Oversized.{after_read, oversized_never_handled}
use reactos_luagent.Tests.{calm_os, idle_lua, new_state, new_session}

abbrev op_header : FrameHeader
op_header = record { type = 10; flags = 0; req_id = 513; length = 2 }

op_header-IsTyped : IsTyped op_header
op_header-IsTyped = record {
  type_u8 = omega arith;
  flags_u8 = omega arith;
  req_id_u32 = omega arith;
  length_u32 = omega arith;
}

op_header-IsValid : IsValid op_header
op_header-IsValid = record { length_bound = omega arith; type_nonzero = λ e. absurd (omega arith) }

-- The frame of the request `id`, with the payload "id".
abbrev op_bytes : Bytes
op_bytes = 82 ∷ 88 ∷ 83 ∷ 72 ∷ 10 ∷ 0 ∷ 1 ∷ 2 ∷ 0 ∷ 0 ∷ 2 ∷ 0 ∷ 0 ∷ 0 ∷ 105 ∷ 100 ∷ []

abbrev op_frame : Frame
op_frame = record { header = op_header; payload = 105 ∷ 100 ∷ [] }

op_frame-IsSendable : IsSendable op_frame
op_frame-IsSendable = record { typed = op_header-IsTyped; valid = op_header-IsValid; sized = refl }

op_bytes-decode : frame_decode_header op_bytes ≡ ok op_header
unfolding frame_decode_header
op_bytes-decode = refl

op_bytes-IsBytes : IsBytes op_bytes
op_bytes-IsBytes = omega arith

decode-encode_example :
    (out : Bytes) × (frame_encode_header frame_header_size op_header ≡ some out)
    × (length out ≡ frame_header_size)
    × IsBytes out
    × (frame_decode_header (out ++ 7 ∷ []) ≡ ok op_header)
decode-encode_example = decode-encode op_header (7 ∷ []) op_header-IsTyped op_header-IsValid

encode-decode_example :
    IsTyped op_header
    × IsValid op_header
    × (frame_encode_header frame_header_size op_header ≡ some (take frame_header_size op_bytes))
encode-decode_example = encode-decode op_bytes op_header op_bytes-IsBytes op_bytes-decode

abbrev text : Bytes
text = codes "path=\nsize=12\r\npath=C:/a"

kv_copy-eq-lines_example :
    kv_copy 512 text (codes "size") ≡ fitting 512 (firsts (find_value (codes "size") (lines text)))
kv_copy-eq-lines_example = kv_copy-eq-lines 512 text (codes "size")

-- What is copied: an empty value is passed over, and a carriage return ends one.
kv_copy-size : kv_copy 512 text (codes "size") ≡ some (codes "12")
unfolding kv_copy line_matches strchr
kv_copy-size = refl

kv_copy_number : kv_copy 64 text (codes "size") ≡ some (decimal 12)
unfolding kv_copy line_matches strchr decimal digits_loop
kv_copy_number = refl

kv_copy-path : kv_copy 512 text (codes "path") ≡ some (codes "C:/a")
unfolding kv_copy line_matches strchr
kv_copy-path = refl

abbrev accept_all : FrameHeader → Bytes → Action Rc
accept_all h payload = pure success

frames_loop-append_example :
    frames_loop accept_all (length (op_bytes ++ op_bytes)) (op_bytes ++ op_bytes) new_state
    ≡ resume accept_all
        (length (op_bytes ++ op_bytes))
        op_bytes
        (frames_loop accept_all (length op_bytes) op_bytes new_state)
frames_loop-append_example = frames_loop-append accept_all op_bytes op_bytes new_state

frames_loop-wires_example :
    frames_loop accept_all
      (length (wires (op_frame ∷ []) ++ 82 ∷ []))
      (wires (op_frame ∷ []) ++ 82 ∷ [])
      new_state
    ≡ (some (82 ∷ []), (run_frames accept_all (op_frame ∷ []) new_state).1)
frames_loop-wires_example =
    frames_loop-wires accept_all (op_frame ∷ []) (82 ∷ []) new_state (op_frame-IsSendable, tt)
      (inl (omega arith))

-- A PUT_CHUNK of 32768 bytes.
abbrev large_header : FrameHeader
large_header = record { type = 21; flags = 0; req_id = 1; length = 32768 }

abbrev large_start : Bytes
large_start = 82 ∷ 88 ∷ 83 ∷ 72 ∷ 21 ∷ 0 ∷ 1 ∷ 0 ∷ 0 ∷ 0 ∷ 0 ∷ 128 ∷ 0 ∷ 0 ∷ []

abbrev started : State
started = record new_state { session = record new_session { rx_buf = large_start } }

large_start-decode : frame_decode_header large_start ≡ ok large_header
unfolding frame_decode_header
large_start-decode = refl

oversized_never_handled_example :
    (32768 ≤ max_frame_payload)
    × (((read_cb calm_os idle_lua (received (1 ∷ [])) started).1.session.closed ≡ true)
        ⊎ ((read_cb calm_os idle_lua (received (1 ∷ [])) started
              ≡ (tt, after_read calm_os idle_lua (1 ∷ []) started))
            × (frame_decode_header (large_start ++ 1 ∷ []) ≡ ok large_header)))
oversized_never_handled_example =
    oversized_never_handled calm_os idle_lua large_header started (1 ∷ []) large_start-decode
      (omega arith) refl

-- A payload of two lines.
abbrev size_pair : Pair
size_pair = record { key = codes "size"; value = codes "12" }

abbrev path_pair : Pair
path_pair = record { key = codes "path"; value = codes "a" }

size_pair-IsLine : IsLine size_pair
size_pair-IsLine = record {
  key_ok = omega arith;
  key_line = omega arith;
  value_line = ground arith;
  nonempty = λ e. absurd (ground arith);
}

path_pair-IsLine : IsLine path_pair
path_pair-IsLine = record {
  key_ok = omega arith;
  key_line = omega arith;
  value_line = ground arith;
  nonempty = λ e. absurd (ground arith);
}

path-IsKey : IsKey (codes "path")
path-IsKey = omega arith

kv_copy-render_example :
    kv_copy 512 (render (size_pair ∷ path_pair ∷ [])) (codes "path")
    ≡ fitting 512 (assoc (codes "path") (size_pair ∷ path_pair ∷ []))
kv_copy-render_example =
    kv_copy-render 512 (codes "path") (size_pair ∷ path_pair ∷ []) path-IsKey
      (size_pair-IsLine, (path_pair-IsLine, tt))

-- Two arguments.
abbrev two_arguments : Bytes
two_arguments = codes "argv0=ls\nargv1=-l\n"
