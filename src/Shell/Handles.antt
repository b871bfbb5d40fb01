-- ===== src/Shell/Handles.antt =====
-- The handles that `run_cmd` of hello.c opens and closes.
use reactos_luagent.Base.{
  ℕ, ◌+◌, ◌≡◌, ap, if◌then◌else◌, Bool-cases, inl, inr, [], ◌∷◌, ◌++◌, Bytes, codes, length, ltb,
  arith, append_assoc, append-nil,
}
use reactos_luagent.Libc.{decimal}
use reactos_luagent.Shell.{
  Trace, Handle, read_end, write_end, nul, process, thread, drain, Event, create_pipe, open_nul,
  create_process, create_thread, close_handle, ◌>>=◌,
}
use reactos_luagent.Shell.Commands.{Windows, run_started, run_failed, run_cmd}

abbrev pub same : Handle → Handle → ℕ
same read_end read_end = 1
same write_end write_end = 1
same nul nul = 1
same process process = 1
same thread thread = 1
same drain drain = 1
same _ _ = 0

-- How often an event opens a handle, by the answer of Windows at that point, and closes it.
abbrev pub opened_by : Windows → Handle → Trace → Event → ℕ
opened_by w h past create_pipe = if w.pipe_ok past then same h read_end + same h write_end else 0
opened_by w h past open_nul = same h nul
opened_by w h past (create_process c) =
    if w.process_ok past c then same h process + same h thread else 0
opened_by w h past create_thread = if w.thread_ok past then same h drain else 0
opened_by w h past e = 0

abbrev pub closed_by : Handle → Event → ℕ
closed_by h (close_handle g) = same h g
closed_by h e = 0

unfoldable pub opened_from : Windows → Handle → Trace → Trace → ℕ
opened_from w h past [] = 0
opened_from w h past (e ∷ t) = opened_by w h past e + opened_from w h (past ++ (e ∷ [])) t

-- Over a whole trace.
unfoldable pub opened : Windows → Handle → Trace → ℕ
opened w h t = opened_from w h [] t

unfoldable pub closed : Handle → Trace → ℕ
closed h [] = 0
closed h (e ∷ t) = closed_by h e + closed h t

opened_from-snoc :
    (w : Windows) (h : Handle) (past t : Trace) (e : Event)
    → opened_from w h past (t ++ (e ∷ [])) ≡ opened_from w h past t + opened_by w h (past ++ t) e
unfolding opened_from
opened_from-snoc w h past [] e = omega (arith, ap (λ p. opened_by w h p e) (append-nil past))
opened_from-snoc w h past (x ∷ t) e = omega (
  arith,
  opened_from-snoc w h (past ++ (x ∷ [])) t e,
  ap (λ p. opened_by w h p e) (append_assoc past (x ∷ []) t),
)

opened-snoc :
    (w : Windows) (h : Handle) (t : Trace) (e : Event)
    → opened w h (t ++ (e ∷ [])) ≡ opened w h t + opened_by w h t e
unfolding opened
opened-snoc w h t e = opened_from-snoc w h [] t e

closed-snoc :
    (h : Handle) (t : Trace) (e : Event) → closed h (t ++ (e ∷ [])) ≡ closed h t + closed_by h e
unfolding closed
closed-snoc h [] e = omega arith
closed-snoc h (x ∷ t) e = omega (arith, closed-snoc h t e)

-- Handles that are opened and closed equally often, after an action as before it.
module _ (w : Windows) (h : Handle) where
  started :
      (t : Trace)
      → (opened w h (run_started w t).1
          + (closed h t
              + same h write_end
              + same h nul
              + same h process
              + same h thread
              + same h read_end))
        ≡ (opened w h t + closed h (run_started w t).1)
  unfolding run_started ◌>>=◌
  started t = grind (arith, opened-snoc, closed-snoc)

  failed :
      (line : Bytes) (t : Trace)
      → (opened w h (run_failed w line t).1
          + (closed h t + same h write_end + same h nul + same h read_end))
        ≡ (opened w h t + closed h (run_failed w line t).1)
  unfolding run_failed ◌>>=◌
  failed line t =
      elim (Bool-cases (
        ltb
          (length (
            codes "exec failed ("
            ++ (decimal (w.last_error t) ++ (codes "): " ++ (line ++ codes "\r\n")))))
          256)) [
            | inl fits ↦ rw fits (grind (arith, opened-snoc, closed-snoc))
            | inr long ↦ rw long (grind (arith, opened-snoc, closed-snoc))
          ]

  -- Whatever Windows answers, `run_cmd` closes each handle as often as it opens it, the NUL device
  -- also where it was not opened.
  pub run_cmd_closes :
      (line : Bytes) (t : Trace)
      → opened w h (run_cmd w line t).1 + closed h t ≡ opened w h t + closed h (run_cmd w line t).1
  unfolding run_cmd ◌>>=◌
  run_cmd_closes line t = grind (arith, opened-snoc, closed-snoc, started, failed)
