-- ===== src/Shell/Commands.antt =====
-- The commands of the serial shell of hello.c: the builtin ones, the start of a program, and the
-- loop over the lines.
use reactos_luagent.Base.{
  ℕ, zero, suc, ◌+◌, Bool, true, false, not, ◌&&◌, ◌||◌, ◌==◌, leb, ltb, if◌then◌else◌, [], ◌∷◌,
  ◌++◌, Bytes, codes, length, drop, Option, none, some,
}
use reactos_luagent.Libc.{c_string, decimal}
use reactos_luagent.Shell.{
  Trace, read_end, write_end, nul, process, thread, drain, overread, set_directory, get_directory,
  set_variable, create_pipe, open_nul, create_process, create_thread, wait_process, wait_thread,
  terminate_process, close_handle, Shell, pure, emit, ask, ◌>>=◌, ◌>>◌, when, tx_write, Input,
  ReadLine, read, waits, repl_readline,
}

-- The answers of Windows. `last_error` is GetLastError.
pub record Windows : Type 0 where
  pub directory_ok : Trace → Bytes → Bool
  pub directory : Trace → Option Bytes
  pub pipe_ok : Trace → Bool
  pub process_ok : Trace → Bytes → Bool
  pub thread_ok : Trace → Bool
  pub times_out : Trace → Bool
  pub last_error : Trace → ℕ

-- `tolower` in the C locale.
abbrev pub to_lower : ℕ → ℕ
to_lower c = if leb b'A' c && leb c b'Z' then c + 32 else c

-- `_stricmp(a, b) == 0`, and `_strnicmp(a, b, strlen(b)) == 0`.
unfoldable pub same_text : Bytes → Bytes → Bool
same_text [] [] = true
same_text [] (b ∷ bs) = false
same_text (a ∷ as_) [] = false
same_text (a ∷ as_) (b ∷ bs) = to_lower a == to_lower b && same_text as_ bs

unfoldable pub starts_with : Bytes → Bytes → Bool
starts_with line [] = true
starts_with [] (b ∷ bs) = false
starts_with (a ∷ as_) (b ∷ bs) = to_lower a == to_lower b && starts_with as_ bs

-- The text before the first `=` and the text behind it.
unfoldable pub split_at_eq : Bytes → Option (Bytes × Bytes)
split_at_eq [] = none
split_at_eq (c ∷ cs) =
    if c == b'='
    then some ([], cs)
    else elim (split_at_eq cs) [ none ↦ none | some (name, value) ↦ some (c ∷ name, value) ]

-- `_snprintf` into `n` bytes writes a NUL only where there is room for it.
abbrev pub tx_printed : ℕ → Bytes → Shell Unit
tx_printed n text = if ltb (length text) n then tx_write text else emit overread

module _ (w : Windows) where
  unfoldable pub handle_builtin : Bytes → Shell Bool
  unfolding same_text starts_with split_at_eq
  handle_builtin line =
      if starts_with line (codes "echo ")
      then (do tx_write (drop 5 line); tx_write (codes "\r\n"); pure true)
      else if same_text line (codes "echo")
      then (do tx_write (codes "\r\n"); pure true)
      else if starts_with line (codes "cd ")
      then (do
        moved ← ask (set_directory (drop 3 line)) (λ t. w.directory_ok t (drop 3 line))
        code ← (λ t. (w.last_error t, t))
        when (not moved) (tx_printed 256 (codes "cd failed (" ++ (decimal code ++ codes ")\r\n")))
        pure true)
      else if same_text line (codes "cd") || same_text line (codes "pwd")
      then (do
        cwd ← ask get_directory (λ t. w.directory t)
        elim cwd [ none ↦ pure tt | some path ↦ do tx_write path; tx_write (codes "\r\n") ]
        pure true)
      else if starts_with line (codes "set ")
      then (do
        elim (split_at_eq (drop 4 line)) [
          | none ↦ pure tt
          | some (name, value) ↦ emit (set_variable name value)
        ]
        pure true)
      else pure false

  -- From the started process on. `pipe_output` runs in the thread.
  unfoldable pub run_started : Shell Unit
  run_started = do
    emit (close_handle write_end)
    emit (close_handle nul)
    draining ← ask create_thread w.thread_ok
    late ← ask wait_process w.times_out
    when late (do tx_write (codes "\r\n[timeout - killed]\r\n"); emit terminate_process)
    when draining (do emit wait_thread; emit (close_handle drain))
    emit (close_handle process)
    emit (close_handle thread)
    emit (close_handle read_end)

  -- After both attempts failed.
  unfoldable pub run_failed : Bytes → Shell Unit
  run_failed line = do
    code ← (λ t. (w.last_error t, t))
    tx_printed 256
        (codes "exec failed (" ++ (decimal code ++ (codes "): " ++ (line ++ codes "\r\n"))))
    emit (close_handle write_end)
    emit (close_handle nul)
    emit (close_handle read_end)

  -- A line has at most 511 bytes, so that both commands fit their 600 bytes.
  unfoldable pub run_cmd : Bytes → Shell Unit
  run_cmd line = do
    piped ← ask create_pipe w.pipe_ok
    if not piped then tx_write (codes "CreatePipe failed\r\n") else do
      emit open_nul
      direct ← ask (create_process line) (λ t. w.process_ok t line)
      if direct then run_started else do
        let command = codes "cmd.exe /c " ++ line
        shelled ← ask (create_process command) (λ t. w.process_ok t command)
        if shelled then run_started else run_failed line

  -- A line that is not empty, with what comes after it.
  unfoldable pub run_line : Bytes → Shell Bool → Shell Bool
  run_line line more =
      if same_text line (codes "exit") || same_text line (codes "quit")
      then (do tx_write (codes "Bye!\r\n"); pure true)
      else do builtin ← handle_builtin line; when (not builtin) (run_cmd line); more

  -- After a line was read: an empty one is skipped.
  unfoldable pub after_read : ReadLine → (Input → Shell Bool) → Shell Bool
  after_read waits more = pure false
  after_read (read [] rest) more = more rest
  after_read (read (c ∷ cs) rest) more = run_line (c_string (c ∷ cs)) (more rest)

  -- The loop, which tells whether it came to its end or waits for input. Each round takes a byte of
  -- the input, so that its length and one are fuel enough.
  unfoldable pub repl_rounds : ℕ → Input → Shell Bool
  repl_rounds zero input = pure false
  repl_rounds (suc fuel) input = do
    tx_write (codes "$ ")
    got ← repl_readline 512 input
    after_read got (λ rest t. repl_rounds fuel rest t)

  unfoldable pub repl_loop : Input → Shell Bool
  repl_loop input = do
    tx_write (codes "\r\n=== ReactOS Serial Shell ===\r\n")
    repl_rounds (length input + 1) input
