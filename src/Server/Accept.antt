-- ===== src/Server/Accept.antt =====
-- `on_new_connection` of src/server.c.
use reactos_luagent.Base.{ℕ, ◌≡◌, Bool, true, false, not, if◌then◌else◌, [], ◌∷◌, is_zero, arith}
use reactos_luagent.Machine.{
  Os, State, Action, ◌>>=◌, ◌>>◌, pure, modify, call, util_now_ms, allocate, bytes_block, tcp_init,
  tcp_accept, timer_init, timer_start, timer_stop, read_start, close, tcp_handle, timer_handle,
}
use reactos_luagent.Diag.{count_with}
use reactos_luagent.Session.{session_close}
use reactos_luagent.Session.Queue.{Queued}
use reactos_luagent.Session.Start.{session_init, session_start_timers}
use reactos_luagent.Invariant.{Kept}
use reactos_luagent.Transfer.Stored.{UpTo}
use reactos_luagent.Server.{rx_capacity}

module _ (os : Os) where
  -- From the start of the timer on.
  unfoldable pub accept_timers : Action Unit
  accept_timers = do
    rc ← session_start_timers os
    if not (is_zero rc) then session_close else do
      reading ← call (read_start tcp_handle) (λ t. os.read_start_result t)
      if not (is_zero reading) then session_close else pure tt

  -- From the allocated session on. `false` where the session is freed again.
  unfoldable pub on_new_connection : ℕ → Action Bool
  on_new_connection session_id = do
    session_init os session_id
    modify (λ s. record s { rx_cap = rx_capacity })
    have_buf ← allocate os (bytes_block rx_capacity)
    if not have_buf then pure false else do
      rc ← call tcp_init (λ t. os.tcp_init_result t)
      if not (is_zero rc) then pure false else do
        accepted ← call tcp_accept (λ t. os.accept_result t)
        if not (is_zero accepted)
            then (do session_close; pure true)
            else (do accept_timers; pure true)

  -- If libuv holds no write for a session, then `on_new_connection` leaves one whose write queue
  -- and upload satisfy the two invariants of Server.Run, with a buffer of 16384 bytes, whether it
  -- is open, closed again or freed.
  pub on_new_connection_starts :
      (session_id : ℕ) (s : State)
      → s.in_flight ≡ []
      → Queued (on_new_connection session_id s).1
        × Kept (UpTo os) (on_new_connection session_id s).1
        × ((on_new_connection session_id s).1.session.rx_cap ≡ rx_capacity)
  unfolding on_new_connection accept_timers session_init session_start_timers session_close
      count_with util_now_ms ◌>>=◌
  on_new_connection_starts session_id s e = ground arith

  -- If a session is open and has no timer, the timer is initialised and it does not start, then the
  -- timer is closed twice, by `session_start_timers` and by `session_close`.
  pub timer_closed_twice :
      (s : State)
      → s.session.closed ≡ false
      → is_zero (os.timer_init_result s.trace) ≡ true
      → is_zero (os.timer_start_result (timer_init ∷ s.trace)) ≡ false
      → (accept_timers s).1.trace
        ≡ close tcp_handle
          ∷ close timer_handle
          ∷ timer_stop
          ∷ close timer_handle
          ∷ timer_start
          ∷ timer_init
          ∷ s.trace
  unfolding accept_timers session_start_timers session_close count_with ◌>>=◌
  timer_closed_twice s open_ works fails = ground arith
