-- ===== src/Server/Silent.antt =====
-- A client that is silent, over the callbacks of src/session.c and src/proc.c.
use reactos_luagent.Base.{
  ℕ, ◌+◌, ◌/◌, ◌^◌, ◌<◌, ◌≤◌, ◌≡◌, refl, sym, subst, Bool, true, false, List, [], ◌∷◌, All, arith,
}
use reactos_luagent.Frame.{stdout, stderr}
use reactos_luagent.Machine.{Os, State}
use reactos_luagent.Machine.Keeps.{Keeps}
use reactos_luagent.Invariant.{View, Kept, kept_rules}
use reactos_luagent.Session.{session_idle_ms, write_completed, on_write_done}
use reactos_luagent.Transfer.{upload_slot, transfer_abort_slot, transfer_reset, put_transfer}
use reactos_luagent.Transfer.Kept.{unlink_if_set-Kept}
use reactos_luagent.Transfer.Stored.{OfUpload, sends-OfUpload}
use reactos_luagent.Proc.Kept.{read_cb-Kept, exit_cb-Kept}
use reactos_luagent.Heartbeat.Idle.{heartbeat_closes_idle}
use reactos_luagent.Protocol.{Lua}
use reactos_luagent.Server.Kept.{heartbeat-Kept}
use reactos_luagent.Server.Run.{
  Callback, client_read, timer_fired, write_done, stdout_read, stderr_read, process_exited,
  run_callback, run_callbacks,
}

-- A callback other than bytes from the client.
abbrev pub is_silent : Callback → Bool
is_silent (client_read r) = false
is_silent timer_fired = true
is_silent write_done = true
is_silent (stdout_read r) = true
is_silent (stderr_read r) = true
is_silent (process_exited status) = true

module _ (os : Os) (lua : Lua) (heard : ℕ) where
  -- The last bytes of the client came at a time.
  abbrev Heard : View → Type 0
  Heard = OfUpload os (λ u content last_rx. last_rx ≡ heard)

  reset-Heard : Keeps (Kept Heard) (transfer_reset upload_slot)
  unfolding transfer_reset put_transfer
  reset-Heard = search kept_rules

  aborts-Heard : Keeps (Kept Heard) (transfer_abort_slot upload_slot)
  unfolding transfer_abort_slot
  aborts-Heard = search (kept_rules, unlink_if_set-Kept, reset-Heard) depth 30

  completes-Heard : (s : State) → Kept Heard s → Kept Heard (write_completed s)
  unfolding write_completed on_write_done
  completes-Heard s h = ground arith

  callback-Heard :
      (c : Callback) (s : State)
      → is_silent c ≡ true
      → Kept Heard s
      → Kept Heard (run_callback os lua c s)
  unfolding run_callback
  callback-Heard (client_read r) s quiet h = absurd (ground (arith, quiet))
  callback-Heard timer_fired s quiet h =
      (heartbeat-Kept os Heard (sends-OfUpload os (λ u content last_rx. last_rx ≡ heard))
          aborts-Heard).at
        s h
  callback-Heard write_done s quiet h = completes-Heard s h
  callback-Heard (stdout_read r) s quiet h =
      (read_cb-Kept Heard (sends-OfUpload os (λ u content last_rx. last_rx ≡ heard)) os stdout r).at
        s h
  callback-Heard (stderr_read r) s quiet h =
      (read_cb-Kept Heard (sends-OfUpload os (λ u content last_rx. last_rx ≡ heard)) os stderr r).at
        s h
  callback-Heard (process_exited status) s quiet h =
      (exit_cb-Kept Heard (sends-OfUpload os (λ u content last_rx. last_rx ≡ heard)) os status).at s
        h

  callbacks-Heard :
      (cs : List Callback) (s : State)
      → All (λ c. is_silent c ≡ true) cs
      → Kept Heard s
      → Kept Heard (run_callbacks os lua cs s)
  unfolding run_callbacks
  callbacks-Heard [] s quiet h = h
  callbacks-Heard (c ∷ cs) s (q, quiet) h =
      callbacks-Heard cs (run_callback os lua c s) quiet (callback-Heard c s q h)

-- If a session gets no more bytes from its client, but any other callbacks, and the clock, a `uint64_t`,
-- then shows 15 seconds or more since the last bytes, then the timer closes the session.
pub silent_closes :
    (os : Os) (lua : Lua) (cs : List Callback) (s : State)
    → All (λ c. is_silent c ≡ true) cs
    → s.session.last_rx_ms + session_idle_ms
      ≤ os.nanoseconds (run_callbacks os lua cs s).trace / 1000000
    → os.nanoseconds (run_callbacks os lua cs s).trace < 2 ^ 64
    → (run_callback os lua timer_fired (run_callbacks os lua cs s)).session.closed ≡ true
unfolding run_callback
silent_closes os lua cs s quiet idle clock =
    heartbeat_closes_idle os (run_callbacks os lua cs s)
      (subst
        (λ (n : ℕ).
          n + session_idle_ms ≤ os.nanoseconds (run_callbacks os lua cs s).trace / 1000000)
        (sym (callbacks-Heard os lua s.session.last_rx_ms cs s quiet refl)) idle)
      clock
