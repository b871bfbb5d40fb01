-- ===== src/Session/Start.antt =====
-- The start of a session, in src/session.c.
use reactos_luagent.Base.{ℕ, true, false, not, if◌then◌else◌, [], ℤ, is_zero}
use reactos_luagent.Machine.{
  Os, Session, Counters, Action, ◌>>=◌, ◌>>◌, pure, modify, call, call_, util_now_ms, timer_init,
  timer_start, close, timer_handle,
}
use reactos_luagent.Session.{add_ref}
use reactos_luagent.Transfer.{reset_transfer}
use reactos_luagent.Proc.{reset_proc}

-- The counters after `memset`.
abbrev pub zero_counters : Counters
zero_counters = record {
  frames_rx = 0;
  frames_tx = 0;
  bytes_rx = 0;
  bytes_tx = 0;
  protocol_errors = 0;
  lua_op_failures = 0;
  transfer_starts = 0;
  transfer_completes = 0;
  transfer_aborts = 0;
  process_spawns = 0;
  process_exits = 0;
  process_timeouts = 0;
  session_disconnects = 0;
  heartbeat_events = 0;
  relay_opens = 0;
  relay_closes = 0;
}

-- A session that starts at a time.
abbrev pub started_at : ℕ → ℕ → Session
started_at session_id now = record {
  upload = reset_transfer;
  download = reset_transfer;
  proc = reset_proc;
  rx_buf = [];
  rx_cap = 0;
  pending_write_bytes = 0;
  last_rx_ms = now;
  last_tx_ms = now;
  session_id = session_id;
  counters = zero_counters;
  next_req_id = 1;
  next_proc_id = 1;
  close_refs = 0;
  timer_started = false;
  closed = false;
}

module _ (os : Os) where
  -- `session_id` is what `g_next_session_id` was.
  unfoldable pub session_init : ℕ → Action Unit
  session_init session_id = do now ← util_now_ms os; modify (λ s. started_at session_id now)

  -- The result of libuv, 0 for success.
  unfoldable pub session_start_timers : Action ℤ
  session_start_timers = do
    rc ← call timer_init (λ t. os.timer_init_result t)
    if not (is_zero rc) then pure rc else do
      add_ref
      modify (λ s. record s { timer_started = true })
      started ← call timer_start (λ t. os.timer_start_result t)
      if not (is_zero started) then (do call_ (close timer_handle); pure started) else pure started
