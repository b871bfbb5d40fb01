-- ===== src/Proc/Life.antt =====
-- The end of a process in src/proc.c: its exit and the ends of its two streams, in any order.
use reactos_luagent.Base.{ℕ, ◌+◌, ◌≡◌, ◌≢◌, refl, Bool, true, false, not, if◌then◌else◌, arith, ℤ}
use reactos_luagent.Frame.{FrameType, stdout, stderr}
use reactos_luagent.Machine.{modify, call_, Os, State, ◌>>=◌}
use reactos_luagent.Machine.Keeps.{Keeps, keeps_rules}
use reactos_luagent.Machine.Leads.{Leads, Leads-bind, Leads-then}
use reactos_luagent.Proc.{
  StreamRead, bytes, nothing, ended, proc_maybe_finalize, proc_read_cb, proc_exit_cb,
}
use reactos_luagent.Proc.Closes.{ProcView, ViewKept, proc_view, view_rules}

-- So many closes of the three handles were made before.
module _ (process out err : ℕ) where
  -- The process has exited, and the streams have ended, where a flag says so; not all three.
  abbrev Phase : Bool → Bool → Bool → ProcView → Type 0
  Phase exited out_ended err_ended v =
      (v.active ≡ not exited)
      × (v.out_closed ≡ out_ended)
      × (v.err_closed ≡ err_ended)
      × (v.process ≡ (if exited then process + 1 else process))
      × (v.out ≡ out)
      × (v.err ≡ err)

  -- All three are done: each handle was closed once more, and the process is reset.
  pub record Done (v : ProcView) : Type 0 where
    pub not_active : v.active ≡ false
    pub out_reset : v.out_closed ≡ false
    pub err_reset : v.err_closed ≡ false
    pub process_closed : v.process ≡ process + 1
    pub out_closed : v.out ≡ out + 1
    pub err_closed : v.err ≡ err + 1

  abbrev pub Life : Bool → Bool → Bool → ProcView → Type 0
  Life true true true v = Done v
  Life true true false v = Phase true true false v
  Life true false r v = Phase true false r v
  Life false o r v = Phase false o r v

  finalize-Life :
      (e o r : Bool) (s : State)
      → Phase e o r (proc_view s)
      → Life e o r (proc_view (proc_maybe_finalize s).1)
  unfolding proc_maybe_finalize ◌>>=◌
  finalize-Life true true true s h = ground arith
  finalize-Life true true false s h = ground arith
  finalize-Life true false r s h = ground arith
  finalize-Life false o r s h = ground arith

  module _ (os : Os) where
    pub stdout_ends :
        (e r : Bool) (s : State)
        → Life e false r (proc_view s)
        → Life e true r (proc_view (proc_read_cb os stdout ended s).1)
    unfolding proc_read_cb ◌>>=◌
    stdout_ends true r s h = finalize-Life true true r _ (ground arith)
    stdout_ends false r s h = finalize-Life false true r _ (ground arith)

    pub stderr_ends :
        (e o : Bool) (s : State)
        → Life e o false (proc_view s)
        → Life e o true (proc_view (proc_read_cb os stderr ended s).1)
    unfolding proc_read_cb ◌>>=◌
    stderr_ends true true s h = finalize-Life true true true _ (ground arith)
    stderr_ends true false s h = finalize-Life true false true _ (ground arith)
    stderr_ends false o s h = finalize-Life false o true _ (ground arith)

    -- Output of the process leaves it as it is.
    pub output-ViewKept :
        (G : ProcView → Type 0) (type : FrameType) (got : StreamRead)
        → (got ≢ ended)
        → Keeps (ViewKept G) (proc_read_cb os type got)
    unfolding proc_read_cb
    output-ViewKept G type (bytes buf) other = search view_rules depth 20
    output-ViewKept G type nothing other = search view_rules
    output-ViewKept G type ended other = absurd (other refl)

    abbrev Exiting : Bool → Bool → ProcView → Type 0
    Exiting o r v =
        (v.active ≡ false)
        × (v.out_closed ≡ o)
        × (v.err_closed ≡ r)
        × (v.process ≡ process)
        × (v.out ≡ out)
        × (v.err ≡ err)

    pub exits :
        (o r : Bool) (status : ℤ)
        → Leads (ViewKept (Life false o r)) (ViewKept (Life true o r)) (proc_exit_cb os status)
    unfolding proc_exit_cb
    exits o r status =
        Leads-bind _ _ (ViewKept (Exiting o r)) _ _
          (record { at = λ s h. unfold modify in ground arith })
          λ _. Leads-then _ _ _ _ (search keeps_rules) λ session.
            Leads-then _ _ _ _ (search view_rules) λ _.
              Leads-then _ _ _ _ (search view_rules depth 20) λ _.
                Leads-bind _ _ (ViewKept (Phase true o r)) _ _
                  (record { at = λ s h. unfold call_ in ground arith })
                  λ _. record { at = λ s h. finalize-Life true o r s h }
