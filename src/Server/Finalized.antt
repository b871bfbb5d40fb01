-- ===== src/Server/Finalized.antt =====
-- The life of a process of a session, over the callbacks of the session: it is finalized once.
use reactos_luagent.Base.{ℕ, ◌≡◌, refl, Bool, true, false, List, [], ◌∷◌}
use reactos_luagent.Frame.{stdout, stderr}
use reactos_luagent.Machine.{Os, State}
use reactos_luagent.Proc.{bytes, nothing, ended}
use reactos_luagent.Proc.Closes.{
  proc_view, process_closes, stdout_closes, stderr_closes, write_completed-ViewKept,
  heartbeat-ViewKept,
}
use reactos_luagent.Proc.Life.{Done, Life, stdout_ends, stderr_ends, output-ViewKept, exits}
use reactos_luagent.Protocol.{Lua}
use reactos_luagent.Server.Run.{
  Callback, client_read, timer_fired, write_done, stdout_read, stderr_read, process_exited,
  run_callback, run_callbacks,
}

-- Callbacks that may come for a process up to its end: it exits once, each stream ends once and gives
-- output before, and the timer and completed writes come at any time. The client sends nothing.
abbrev pub Ending : Bool → Bool → Bool → List Callback → Type 0
Ending e o r [] = (e ≡ true) × (o ≡ true) × (r ≡ true)
Ending e o r (client_read got ∷ cs) = ⊥
Ending e o r (timer_fired ∷ cs) = Ending e o r cs
Ending e o r (write_done ∷ cs) = Ending e o r cs
Ending e o r (stdout_read ended ∷ cs) = (o ≡ false) × Ending e true r cs
Ending e o r (stdout_read got ∷ cs) = (o ≡ false) × Ending e o r cs
Ending e o r (stderr_read ended ∷ cs) = (r ≡ false) × Ending e o true cs
Ending e o r (stderr_read got ∷ cs) = (r ≡ false) × Ending e o r cs
Ending e o r (process_exited status ∷ cs) = (e ≡ false) × Ending true o r cs

module _ (os : Os) (lua : Lua) (process out err : ℕ) where
  Ending-Done :
      (cs : List Callback) (e o r : Bool) (s : State)
      → Ending e o r cs
      → Life process out err e o r (proc_view s)
      → Done process out err (proc_view (run_callbacks os lua cs s))
  unfolding run_callbacks run_callback
  Ending-Done [] e o r s (he, ho, hr) h = rw (he, ho, hr) at h
  Ending-Done (client_read got ∷ cs) e o r s p h = absurd p
  Ending-Done (timer_fired ∷ cs) e o r s p h =
      Ending-Done cs e o r _ p ((heartbeat-ViewKept (Life process out err e o r) os).at s h)
  Ending-Done (write_done ∷ cs) e o r s p h =
      Ending-Done cs e o r _ p (write_completed-ViewKept (Life process out err e o r) s h)
  Ending-Done (stdout_read ended ∷ cs) e o r s (ho, p) h =
      Ending-Done cs e true r _ p (stdout_ends process out err os e r s (rw ho at h))
  Ending-Done (stdout_read nothing ∷ cs) e o r s (ho, p) h = Ending-Done cs e o r _ p (
      (output-ViewKept process out err os (Life process out err e o r) stdout nothing (λ q. cc)).at
        s h)
  Ending-Done (stdout_read (bytes b) ∷ cs) e o r s (ho, p) h = Ending-Done cs e o r _ p (
      (output-ViewKept process out err os (Life process out err e o r) stdout (bytes b)
          (λ q. cc)).at
        s h)
  Ending-Done (stderr_read ended ∷ cs) e o r s (hr, p) h =
      Ending-Done cs e o true _ p (stderr_ends process out err os e o s (rw hr at h))
  Ending-Done (stderr_read nothing ∷ cs) e o r s (hr, p) h = Ending-Done cs e o r _ p (
      (output-ViewKept process out err os (Life process out err e o r) stderr nothing (λ q. cc)).at
        s h)
  Ending-Done (stderr_read (bytes b) ∷ cs) e o r s (hr, p) h = Ending-Done cs e o r _ p (
      (output-ViewKept process out err os (Life process out err e o r) stderr (bytes b)
          (λ q. cc)).at
        s h)
  Ending-Done (process_exited status ∷ cs) e o r s (he, p) h =
      Ending-Done cs true o r _ p ((exits process out err os o r status).at s (rw he at h))

-- If a process is active and its streams are open, and it exits and the streams end, once each and in
-- any order, with output, the timer and completed writes between and behind them, but nothing from the
-- client, then each of its three handles is closed once, and the flags of the process are cleared.
pub process_finalizes :
    (os : Os) (lua : Lua) (cs : List Callback) (s : State)
    → s.session.proc.active ≡ true
    → s.session.proc.stdout_closed ≡ false
    → s.session.proc.stderr_closed ≡ false
    → Ending false false false cs
    → Done
        (process_closes s.trace)
        (stdout_closes s.trace)
        (stderr_closes s.trace)
        (proc_view (run_callbacks os lua cs s))
process_finalizes os lua cs s active out err ends =
    Ending-Done os lua (process_closes s.trace) (stdout_closes s.trace) (stderr_closes s.trace) cs
      false false false s ends (active, out, err, refl, refl, refl)
