-- ===== src/Server.antt =====
-- `read_cb` of src/server.c: what a client's bytes set off.
pub mod Deframe
pub mod Stream
pub mod Oversized
pub mod Kept
pub mod Run
pub mod Silent
pub mod Accept
pub mod Finalized
use reactos_luagent.Base.{
  ℕ, zero, suc, ◌+◌, Bool, ltb, if◌then◌else◌, Bytes, ◌++◌, length, take, drop, Option, none, some,
}
use reactos_luagent.Frame.{
  FrameHeader, FrameStatus, need_more, malformed, ok, frame_header_size, frame_decode_header,
}
use reactos_luagent.Machine.{
  Os, Session, State, Action, Rc, ◌>>=◌, ◌>>◌, on_some, on_success, pure, get_session, modify,
  util_now_ms,
}
use reactos_luagent.Diag.{diag_count_frame_rx, diag_count_parse_failure}
use reactos_luagent.Session.{read_chunk, session_close}
use reactos_luagent.Protocol.{Lua, protocol_handle_control}

-- `rx_cap`, as `on_new_connection` sets it.
abbrev pub rx_capacity : ℕ
rx_capacity = 16384

-- What libuv reports: bytes, nothing yet, or the end or an error.
pub data NRead : Type 0 where
  received : Bytes → NRead
  nothing ended : NRead

-- `frame_size`, where a header was decoded.
abbrev pub frame_size : FrameStatus → ℕ
frame_size (ok header) = frame_header_size + header.length
frame_size _ = 0

module _ (handle : FrameHeader → Bytes → Action Rc) where
  -- One round, on the header that was decoded; `more` is the rounds after the frame.
  unfoldable pub frame_round : Bytes → FrameStatus → Action (Option Bytes) → Action (Option Bytes)
  frame_round rest need_more more = pure (some rest)
  frame_round rest malformed more = do diag_count_parse_failure; session_close; pure none
  frame_round rest (ok header) more =
      if ltb (length rest) (frame_header_size + header.length) then pure (some rest) else do
        diag_count_frame_rx (frame_header_size + header.length)
        handle header (take header.length (drop frame_header_size rest))
        more

  -- The loop over the bytes that are not consumed yet, `rx_buf + offset`. No handler writes to
  -- `rx_buf`. It answers what is left, or `none` where it returned after a bad header. A round
  -- that goes on consumes 14 bytes or more, so that the length is fuel enough.
  unfoldable pub frames_loop : ℕ → Bytes → Action (Option Bytes)
  frames_loop zero rest = pure (some rest)
  frames_loop (suc fuel) rest =
      if ltb (length rest) frame_header_size
      then pure (some rest)
      else frame_round rest (frame_decode_header rest)
          (λ s. frames_loop fuel (drop (frame_size (frame_decode_header rest)) rest) s)

module _ (os : Os) (lua : Lua) where
  -- What is left moves to the front of the buffer.
  unfoldable pub consume : Action Unit
  consume = do
    session ← get_session
    left ←
        frames_loop (λ h payload. protocol_handle_control os lua h.type h.req_id payload)
          (length session.rx_buf) session.rx_buf
    on_some left (pure tt) λ rest. modify (λ s. record s { rx_buf = rest })

  unfoldable pub read_cb : NRead → Action Unit
  read_cb ended = session_close
  read_cb nothing = pure tt
  read_cb (received bytes) = do
    now ← util_now_ms os
    modify (λ s. record s { last_rx_ms = now })
    session ← get_session
    if ltb session.rx_cap (length session.rx_buf + length bytes)
        then session_close
        else do modify (λ s. record s { rx_buf = s.rx_buf ++ bytes }); consume
