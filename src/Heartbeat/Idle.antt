-- ===== src/Heartbeat/Idle.antt =====
-- What the timer does to an idle session, and to a process that is overdue.
use reactos_luagent.Base.{
  ℕ, ◌+◌, ◌/◌, ◌^◌, ◌<◌, ◌≤◌, ◌≡◌, Bool, true, not, ◌&&◌, ◌||◌, ltb, leb, if◌then◌else◌, ◌∷◌, arith,
}
use reactos_luagent.Libc.{sub_u64}
use reactos_luagent.Machine.{Os, State, kill_timeout, kill_idle, process_kill, ◌>>=◌, util_now_ms}
use reactos_luagent.Diag.{count_with}
use reactos_luagent.Session.{session_idle_ms, session_close}
use reactos_luagent.Heartbeat.{heartbeat_cb}
use reactos_luagent.Proc.{proc_check_timeouts, timed_out}

-- If the clock, a `uint64_t`, shows 15 seconds or more since the last bytes of the client, then
-- after `heartbeat_cb` the session is closed.
pub heartbeat_closes_idle :
    (os : Os) (s : State)
    → s.session.last_rx_ms + session_idle_ms ≤ os.nanoseconds s.trace / 1000000
    → os.nanoseconds s.trace < 2 ^ 64
    → (heartbeat_cb os s).1.session.closed ≡ true
unfolding heartbeat_cb session_close count_with util_now_ms ◌>>=◌
heartbeat_closes_idle os s idle clock = ground arith

-- A limit that is set and passed.
abbrev pub is_over : ℕ → ℕ → ℕ → Bool
is_over limit now_ms since = ltb 0 limit && leb limit (sub_u64 now_ms since)

-- `proc_check_timeouts` kills the process exactly if it is active and has run for its timeout or
-- been silent for its idle timeout, a limit of 0 being none, and it notes which of the two, the
-- first before the second.
pub check_timeouts_kills :
    (now_ms : ℕ) (s : State)
    → ((proc_check_timeouts now_ms s).1.trace ≡ (
        if s.session.proc.active
          && (is_over s.session.proc.timeout_ms now_ms s.session.proc.started_ms
              || is_over s.session.proc.idle_timeout_ms now_ms s.session.proc.last_io_ms)
        then process_kill ∷ s.trace
        else s.trace))
      × ((proc_check_timeouts now_ms s).1.session.proc.kill_reason ≡ (
          if not s.session.proc.active
          then s.session.proc.kill_reason
          else if is_over s.session.proc.timeout_ms now_ms s.session.proc.started_ms
          then kill_timeout
          else if is_over s.session.proc.idle_timeout_ms now_ms s.session.proc.last_io_ms
          then kill_idle
          else s.session.proc.kill_reason))
unfolding proc_check_timeouts timed_out count_with ◌>>=◌
check_timeouts_kills now_ms s = ground arith
