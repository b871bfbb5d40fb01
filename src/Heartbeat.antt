-- ===== src/Heartbeat.antt =====
-- The timer of src/session.c: `heartbeat_cb`.
pub mod Idle
use reactos_luagent.Base.{ℕ, ◌-◌, Bool, ltb, leb, if◌then◌else◌, codes}
use reactos_luagent.Libc.{sub_u64}
use reactos_luagent.Frame.{ping}
use reactos_luagent.Machine.{
  Os, Session, State, Action, ◌>>=◌, ◌>>◌, pure, get_session, modify, when, util_now_ms, inc_u32,
}
use reactos_luagent.Diag.{heartbeat, diag_count}
use reactos_luagent.Session.{session_idle_ms, heartbeat_idle_ms, session_close, session_send_text}
use reactos_luagent.Transfer.{upload_slot, download_slot, transfer_check_timeout}
use reactos_luagent.Proc.{proc_check_timeouts}

module _ (os : Os) where
  -- The PING frame of an idle session, under the next request id.
  unfoldable pub send_ping : Action Unit
  send_ping = do
    diag_count heartbeat
    session ← get_session
    modify (λ s. record s { next_req_id = inc_u32 s.next_req_id })
    session_send_text os ping session.next_req_id (codes "status=ping")
    pure tt

  unfoldable pub heartbeat_cb : Action Unit
  heartbeat_cb = do
    now_ms ← util_now_ms os
    session ← get_session
    if session.closed
        then pure tt
        else if leb session_idle_ms (sub_u64 now_ms session.last_rx_ms)
        then session_close
        else do
          when (leb heartbeat_idle_ms (sub_u64 now_ms session.last_tx_ms)) send_ping
          transfer_check_timeout os upload_slot now_ms
          transfer_check_timeout os download_slot now_ms
          proc_check_timeouts now_ms
