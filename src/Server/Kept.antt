-- ===== src/Server/Kept.antt =====
-- The callbacks of a session keep an invariant, if the operations that change its view do and the
-- operations that are written in Lua do.
use reactos_luagent.Base.{ℕ, zero, suc, ltb, Bytes, Option, some, length}
use reactos_luagent.Frame.{
  FrameType, FrameHeader, FrameStatus, need_more, malformed, ok, frame_decode_header, put_chunk,
  put_end, op, put_begin, get_begin, proc_spawn, kill, frame_header_size,
}
use reactos_luagent.Machine.{Os, Action, Rc}
use reactos_luagent.Machine.Keeps.{Keeps, Keeps-if, Keeps-pure}
use reactos_luagent.Diag.{diag_count_parse_failure}
use reactos_luagent.Invariant.{View, Kept, IsInvariant, kept_rules}
use reactos_luagent.Session.{session_send_frame}
use reactos_luagent.Transfer.{upload_slot, transfer_abort_slot}
use reactos_luagent.Transfer.Kept.{check_timeout-Kept, get_begin-Kept}
use reactos_luagent.Proc.Kept.{kill-Kept, spawn-Kept, check_timeouts-Kept}
use reactos_luagent.Heartbeat.{send_ping, heartbeat_cb}
use reactos_luagent.Protocol.{
  Lua, lua_engine_dispatch, handle_op, handle_text, handle_frame, protocol_handle_control,
  frame_type_of,
}
use reactos_luagent.Server.{
  NRead, received, nothing, ended, frame_round, frames_loop, consume, read_cb,
}

module _ (os : Os) (F : View → Type 0)
    (sends : (os : Os) (type : FrameType) (req_id : ℕ) (payload : Bytes)
      → Keeps (Kept F) (session_send_frame os type req_id payload))
    (aborts : Keeps (Kept F) (transfer_abort_slot upload_slot)) where
  send_ping-Kept : Keeps (Kept F) (send_ping os)
  unfolding send_ping
  send_ping-Kept = search (kept_rules, sends) depth 30

  pub heartbeat-Kept : Keeps (Kept F) (heartbeat_cb os)
  unfolding heartbeat_cb
  heartbeat-Kept =
      search (kept_rules, send_ping-Kept, check_timeout-Kept F sends aborts, check_timeouts-Kept)
        depth 30

-- The loop, for any handler of a frame.
module _ (F : View → Type 0) (handle : FrameHeader → Bytes → Action Rc)
    (keeps : (h : FrameHeader) (payload : Bytes) → Keeps (Kept F) (handle h payload)) where
  parse_failure-Kept : Keeps (Kept F) diag_count_parse_failure
  unfolding diag_count_parse_failure
  parse_failure-Kept = record { at = λ s h. h }

  frame_round-Kept :
      (rest : Bytes) (status : FrameStatus) (more : Action (Option Bytes))
      → Keeps (Kept F) more
      → Keeps (Kept F) (frame_round handle rest status more)
  unfolding frame_round
  frame_round-Kept rest need_more more k = search kept_rules
  frame_round-Kept rest malformed more k = search (kept_rules, parse_failure-Kept) depth 30
  frame_round-Kept rest (ok header) more k = search (kept_rules, keeps) depth 30

  frames_loop-Kept : (fuel : ℕ) (rest : Bytes) → Keeps (Kept F) (frames_loop handle fuel rest)
  unfolding frames_loop
  frames_loop-Kept zero rest = search kept_rules
  frames_loop-Kept (suc fuel) rest =
      Keeps-if (ltb (length rest) frame_header_size) _ _ (Keeps-pure (some rest))
        (frame_round-Kept rest (frame_decode_header rest) _ (frames_loop-Kept fuel _))

module _ (os : Os) (F : View → Type 0) (inv : IsInvariant os F) (lua : Lua)
    (lua-Kept : (req_id : ℕ) (payload : Bytes) → Keeps (Kept F) (lua.pcall req_id payload)) where
  handle_op-Kept : (req_id : ℕ) (payload : Bytes) → Keeps (Kept F) (handle_op os lua req_id payload)
  unfolding handle_op lua_engine_dispatch
  handle_op-Kept req_id payload = search (kept_rules, inv.sends, lua-Kept) depth 30

  handle_text-Kept :
      (type : Option FrameType) (req_id : ℕ) (payload : Bytes)
      → Keeps (Kept F) (handle_text os lua type req_id payload)
  unfolding handle_text
  handle_text-Kept (some put_begin) req_id payload = inv.begins req_id payload
  handle_text-Kept (some get_begin) req_id payload = get_begin-Kept F inv.sends os req_id payload
  handle_text-Kept (some proc_spawn) req_id payload = spawn-Kept F inv.sends os req_id payload
  handle_text-Kept (some kill) req_id payload = kill-Kept F inv.sends os req_id payload
  handle_text-Kept (some op) req_id payload = handle_op-Kept req_id payload
  handle_text-Kept type req_id payload = search (kept_rules, inv.sends) depth 30

  handle_frame-Kept :
      (type : Option FrameType) (req_id : ℕ) (payload : Bytes)
      → Keeps (Kept F) (handle_frame os lua type req_id payload)
  unfolding handle_frame
  handle_frame-Kept (some put_chunk) req_id payload = inv.chunks req_id payload
  handle_frame-Kept (some put_end) req_id payload = inv.ends req_id
  handle_frame-Kept type req_id payload = search (kept_rules, inv.sends, handle_text-Kept) depth 30

  consume-Kept : Keeps (Kept F) (consume os lua)
  unfolding consume protocol_handle_control
  consume-Kept =
      search
        (
          kept_rules,
          frames_loop-Kept F
              (λ h payload. handle_frame os lua (frame_type_of h.type) h.req_id payload)
              (λ h payload. handle_frame-Kept (frame_type_of h.type) h.req_id payload),
        )
        depth 30

  pub client_read-Kept : (r : NRead) → Keeps (Kept F) (read_cb os lua r)
  unfolding read_cb
  client_read-Kept (received bytes) = search (kept_rules, consume-Kept, inv.hears) depth 30
  client_read-Kept nothing = search kept_rules
  client_read-Kept ended = search kept_rules
