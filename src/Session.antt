-- ===== src/Session.antt =====
-- src/session.c without the timers: sending frames, completed writes, closing.
pub mod Refused
pub mod Queue
pub mod Close
pub mod Sent
pub mod Start
pub mod Release
use reactos_luagent.Base.{
  [], Bool, ◌&&◌, ◌||◌, ◌==◌, ℕ, ◌+◌, ◌-◌, true, false, not, ltb, leb, if◌then◌else◌, List, ◌∷◌,
  ◌++◌, Bytes, String, codes, length, Option, none, some, is_zero,
}
use reactos_luagent.Libc.{to_u32, c_string}
use reactos_luagent.Frame.{
  FrameType, type_code, error, FrameHeader, frame_header_size, frame_encode_header,
}
use reactos_luagent.Machine.{
  Event, Session, ◌>>=◌, ◌>>◌, call, bytes_block, write_req_block, tcp_write, timer_stop, close,
  tcp_handle, timer_handle, Os, State, Action, Rc, success, failure, on_some, on_success, pure,
  get_session, modify, call_, when, allocate, util_now_ms,
}
use reactos_luagent.Diag.{session_disconnect, diag_count, diag_count_frame_tx}

-- LUAGENT_READ_CHUNK, LUAGENT_MAX_WRITE_QUEUE_BYTES, LUAGENT_SESSION_IDLE_MS,
-- LUAGENT_HEARTBEAT_IDLE_MS, LUAGENT_TRANSFER_IDLE_MS
abbrev pub read_chunk : ℕ
read_chunk = 4096

abbrev pub max_write_queue_bytes : ℕ
max_write_queue_bytes = 262144

abbrev pub session_idle_ms : ℕ
session_idle_ms = 15000

abbrev pub heartbeat_idle_ms : ℕ
heartbeat_idle_ms = 5000

abbrev pub transfer_idle_ms : ℕ
transfer_idle_ms = 20000

-- `util_snprintf` of a finished text into a buffer of `dst_size` bytes: `none` for -1.
unfoldable pub util_snprintf : ℕ → Bytes → Option Bytes
util_snprintf dst_size text = if ltb (length text) dst_size then some text else none

abbrev pub add_ref : Action Unit
add_ref = modify (λ s. record s { close_refs = s.close_refs + 1 })

unfoldable pub session_reset_buffer : Action Unit
session_reset_buffer = modify (λ s. record s { rx_buf = [] })

unfoldable pub session_close : Action Unit
session_close = do
  session ← get_session
  if session.closed then pure tt else do
    modify (λ s. record s { closed = true })
    diag_count session_disconnect
    when session.timer_started (do
      call_ timer_stop
      call_ (close timer_handle)
      modify (λ s. record s { timer_started = false }))
    add_ref
    call_ (close tcp_handle)

-- What `on_write_done` does for a request of `len` bytes. Whether it failed is only logged.
unfoldable pub on_write_done : ℕ → State → State
on_write_done len s =
    if leb len s.session.pending_write_bytes
    then record s {
      session = record s.session { pending_write_bytes = s.session.pending_write_bytes - len };
    }
    else s

-- libuv completes the requests of a stream in the order in which it took them.
unfoldable pub write_completed : State → State
write_completed s = elim s.in_flight [
  | [] ↦ s
  | len ∷ rest ↦ on_write_done len (record s { in_flight = rest })
]

-- The header of an outgoing frame. The length is cast to 32 bits.
unfoldable pub frame_header : FrameType → ℕ → Bytes → FrameHeader
frame_header type req_id payload = record {
  type = type_code type;
  flags = 0;
  req_id = req_id;
  length = to_u32 (length payload);
}

module _ (os : Os) where
  -- `uv_write` keeps the request until it is done, or refuses it.
  unfoldable pub uv_write : Bytes → Action Rc
  uv_write buf s =
      if is_zero (os.tcp_write_result s.trace buf)
      then (
        success,
        record s { trace = tcp_write buf ∷ s.trace; in_flight = s.in_flight ++ length buf ∷ [] },
      )
      else (failure, record s { trace = tcp_write buf ∷ s.trace })

  -- The end of `session_send_frame`, from the finished buffer on.
  unfoldable pub send_buffer : Bytes → Action Rc
  send_buffer buf = do
    diag_count_frame_tx (length buf)
    now ← util_now_ms os
    modify (λ s. record s { last_tx_ms = now })
    modify (λ s. record s { pending_write_bytes = s.pending_write_bytes + length buf })
    rc ← uv_write buf
    on_success rc
        (do
          modify (λ s. record s { pending_write_bytes = s.pending_write_bytes - length buf })
          pure failure)
        (pure success)

  -- From the encoded header on.
  unfoldable pub send_encoded : Bytes → Option Bytes → Action Rc
  send_encoded payload none = pure failure
  send_encoded payload (some head) = send_buffer (head ++ payload)

  -- Past the tests: the two allocations, the header, the write. A size is that of an object in
  -- memory, so that the sums of `size_t` do not wrap.
  unfoldable pub send_allocated : FrameType → ℕ → Bytes → Action Rc
  send_allocated type req_id payload = do
    have_req ← allocate os write_req_block
    have_buf ←
        (if have_req
          then allocate os (bytes_block (frame_header_size + length payload))
          else pure false)
    if not have_buf
        then pure failure
        else send_encoded payload
            (frame_encode_header frame_header_size (frame_header type req_id payload))

  unfoldable pub session_send_frame : FrameType → ℕ → Bytes → Action Rc
  session_send_frame type req_id payload = do
    session ← get_session
    if session.closed
        then pure failure
        else if ltb max_write_queue_bytes
            (session.pending_write_bytes + frame_header_size + length payload)
        then (do session_close; pure failure)
        else send_allocated type req_id payload

  -- `strlen` stops at a NUL.
  unfoldable pub session_send_text : FrameType → ℕ → Bytes → Action Rc
  session_send_text type req_id payload = session_send_frame type req_id (c_string payload)

  unfoldable pub session_send_error : ℕ → Bytes → Bytes → Action Rc
  session_send_error req_id code message =
      on_some (util_snprintf 512 (codes "code=" ++ (code ++ (codes "\nmessage=" ++ message))))
        (pure failure) λ payload. session_send_text error req_id payload

  -- An error reply, and the result -1 whether or not it was sent.
  abbrev pub reject : ℕ → String → String → Action Rc
  reject req_id code message = do
    session_send_error req_id (codes code) (codes message)
    pure failure
