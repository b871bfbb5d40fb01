-- ===== src/Shell/Overread.antt =====
-- The message of `run_cmd` in hello.c for a long line that is no program.
use reactos_luagent.Base.{
  if◌then◌else◌, ℕ, ◌≤◌, ◌≡◌, refl, Bool, true, false, le→not-ltb, [], ◌∷◌, ◌++◌, Bytes, codes,
  length, length-append, arith,
}
use reactos_luagent.Libc.{decimal}
use reactos_luagent.Libc.Decimal.{decimal_not_empty}
use reactos_luagent.Shell.{
  Shell, Trace, create_pipe, open_nul, create_process, overread, close_handle, write_end, nul,
  read_end, ◌>>=◌,
}
use reactos_luagent.Shell.Commands.{Windows, run_failed, run_cmd}

if-shell :
    {A : Type 0} (b : Bool) (m n : Shell A) (t : Trace)
    → (if b then m else n) t ≡ (if b then m t else n t)
if-shell true m n t = refl
if-shell false m n t = refl

module _ (w : Windows) where
  abbrev message : ℕ → Bytes → Bytes
  message code line =
      codes "exec failed (" ++ (decimal code ++ (codes "): " ++ (line ++ codes "\r\n")))

  message_long : (code : ℕ) (line : Bytes) → 237 ≤ length line → 256 ≤ length (message code line)
  message_long code line long = omega (
    arith,
    length-append (decimal code) (codes "): " ++ (line ++ codes "\r\n")),
    length-append line (codes "\r\n"),
    decimal_not_empty code,
    long,
  )

  -- The trace before the second attempt, and before the message.
  abbrev pub tried : Bytes → Trace → Trace
  tried line t = t ++ (create_pipe ∷ []) ++ (open_nul ∷ []) ++ (create_process line ∷ [])

  failed_long :
      (line : Bytes) (t : Trace)
      → 237 ≤ length line
      → (run_failed w line t).1
        ≡ t
          ++ (overread ∷ [])
          ++ (close_handle write_end ∷ [])
          ++ (close_handle nul ∷ [])
          ++ (close_handle read_end ∷ [])
  unfolding run_failed ◌>>=◌
  failed_long line t long =
      rw
        (le→not-ltb (length (message (w.last_error t) line)) 256
          (message_long (w.last_error t) line long))
        refl

  -- If there is a pipe, and neither the line nor `cmd.exe` with it can be started, and the line has 237
  -- bytes or more, then the message does not fit its buffer of 256 bytes, gets no NUL, and is written
  -- from there past its end.
  pub run_cmd_overreads :
      (line : Bytes) (t : Trace)
      → w.pipe_ok t ≡ true
      → w.process_ok (t ++ (create_pipe ∷ []) ++ (open_nul ∷ [])) line ≡ false
      → w.process_ok (tried line t) (codes "cmd.exe /c " ++ line) ≡ false
      → 237 ≤ length line
      → (run_cmd w line t).1
        ≡ tried line t
          ++ (create_process (codes "cmd.exe /c " ++ line) ∷ [])
          ++ (overread ∷ [])
          ++ (close_handle write_end ∷ [])
          ++ (close_handle nul ∷ [])
          ++ (close_handle read_end ∷ [])
  unfolding run_cmd ◌>>=◌
  run_cmd_overreads line t piped direct shelled long = grind (arith, failed_long, if-shell)
