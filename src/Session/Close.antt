-- ===== src/Session/Close.antt =====
-- `session_close` by its effect.
use reactos_luagent.Base.{◌≡◌, true, false, ◌∷◌, arith, ◌+◌, if◌then◌else◌}
use reactos_luagent.Machine.{State, close, tcp_handle, timer_handle, timer_stop, ◌>>=◌}
use reactos_luagent.Diag.{count_with}
use reactos_luagent.Session.{session_close}

-- After a call the session is closed.
pub closed-session_close : (s : State) → (session_close s).1.session.closed ≡ true
unfolding session_close count_with ◌>>=◌
closed-session_close s = ground arith

-- If a session is not closed, then `session_close` closes it: it closes its connection, which holds
-- a reference, and its timer if it runs, and a second call changes nothing.
pub session_close_once :
    (s : State)
    → s.session.closed ≡ false
    → ((session_close s).1.session.closed ≡ true)
      × ((session_close s).1.session.timer_started ≡ false)
      × ((session_close s).1.session.close_refs ≡ s.session.close_refs + 1)
      × ((session_close s).1.trace ≡ (
          if s.session.timer_started
          then close tcp_handle ∷ close timer_handle ∷ timer_stop ∷ s.trace
          else close tcp_handle ∷ s.trace))
      × (session_close (session_close s).1 ≡ (tt, (session_close s).1))
unfolding session_close count_with ◌>>=◌
session_close_once s h = ground arith
