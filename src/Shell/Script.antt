-- ===== src/Shell/Script.antt =====
-- A script on the serial line of hello.c: lines that end in carriage return and line feed, and `exit`.
use reactos_luagent.Base.{
  ℕ, zero, suc, ◌+◌, ◌*◌, ◌<◌, ◌≡◌, refl, sym, ap, ◌∙◌, Bool, true, false, lt→ltb, not, ◌||◌, List,
  [], ◌∷◌, ◌++◌, Bytes, All, codes, length, length-append, some, arith, append_assoc, append-nil,
}
use reactos_luagent.Libc.{c_string}
use reactos_luagent.Shell.{
  Trace, wrote, Shell, pure, ◌>>=◌, ◌>>◌, when, tx_write, tx_writebuf, Input, ReadLine, read, key,
  ends, types, unless_empty, readline_loop, repl_readline,
}
use reactos_luagent.Shell.Commands.{
  Windows, same_text, handle_builtin, run_cmd, run_line, after_read, repl_rounds, repl_loop,
}

-- A byte that is put into the line.
abbrev pub IsTyped : ℕ → Type 0
IsTyped c = (key c ≡ types) × (0 < c)

-- A line that a user may send: not empty, within the buffer, and no request to leave.
pub record IsLine (line : Bytes) : Type 0 where
  pub typed : All IsTyped line
  pub not_empty : 0 < length line
  pub fits : length line < 511
  pub stays : (same_text line (codes "exit") || same_text line (codes "quit")) ≡ false

abbrev pub keys : Bytes → Input → Input
keys [] rest = rest
keys (c ∷ cs) rest = some c ∷ keys cs rest

abbrev pub script : List Bytes → Input → Input
script [] rest = keys (codes "exit\r") rest
script (l ∷ ls) rest = keys l (some 13 ∷ some 10 ∷ script ls rest)

-- What a text that is typed shows, byte by byte.
unfoldable pub echo : Bytes → Shell Unit
echo [] = pure tt
echo (c ∷ cs) = do tx_writebuf (c ∷ []); echo cs

one_key :
    (c : ℕ) (line : Bytes) (rest : Input) (t : Trace)
    → key c ≡ types
    → length line < 511
    → readline_loop 512 line 0 (some c ∷ rest) t
      ≡ readline_loop 512 (line ++ (c ∷ [])) 0 rest (t ++ (wrote (c ∷ []) ∷ []))
unfolding readline_loop ◌>>=◌
one_key c line rest t h fits = rw (readline_loop, lt→ltb (length line) 511 fits, h) refl

-- The return key ends the line.
return_key :
    (c : ℕ) (line : Bytes) (rest : Input) (t : Trace)
    → key c ≡ ends
    → length line < 511
    → readline_loop 512 line 0 (some c ∷ rest) t
      ≡ (read line rest, (unless_empty line (tx_write (codes "\r\n")) t).1)
unfolding readline_loop ◌>>=◌
return_key c line rest t h fits = rw (readline_loop, lt→ltb (length line) 511 fits, h) refl

readline_typed :
    (text line : Bytes) (rest : Input) (t : Trace)
    → All IsTyped text
    → length line + length text < 511
    → readline_loop 512 line 0 (keys text rest) t
      ≡ readline_loop 512 (line ++ text) 0 rest (echo text t).1
unfolding echo ◌>>=◌
readline_typed [] line rest t typed fits =
    ap (λ l. readline_loop 512 l 0 rest t) (sym (append-nil line))
readline_typed (c ∷ cs) line rest t (h, hs) fits =
    one_key c line (keys cs rest) t h.0 (omega (arith, fits))
    ∙ readline_typed cs (line ++ (c ∷ [])) rest _ hs
        (omega (arith, fits, length-append line (c ∷ [])))
    ∙ ap (λ l. readline_loop 512 l 0 rest (echo (c ∷ cs) t).1) (append_assoc line (c ∷ []) cs)

-- A typed line is the C string that it spells.
c_string_typed : (line : Bytes) → All IsTyped line → c_string line ≡ line
unfolding c_string
c_string_typed [] h = refl
c_string_typed (c ∷ cs) (h, hs) = ground (arith, c_string_typed cs hs)

module _ (w : Windows) where
  -- What the shell does for a script: after each line there is one more prompt, for the line feed.
  unfoldable pub run_script : List Bytes → Shell Bool
  run_script [] = do
    tx_write (codes "$ ")
    echo (codes "exit")
    tx_write (codes "\r\n")
    tx_write (codes "Bye!\r\n")
    pure true
  run_script (l ∷ ls) = do
    tx_write (codes "$ ")
    echo l
    tx_write (codes "\r\n")
    builtin ← handle_builtin w l
    when (not builtin) (run_cmd w l)
    tx_write (codes "$ ")
    (λ t. run_script ls t)

  -- The trace after a prompt and a line.
  abbrev shown : Bytes → Trace → Trace
  shown line t = (tx_write (codes "\r\n") (echo line (t ++ (wrote (codes "$ ") ∷ []))).1).1

  -- A round on a line.
  round_line :
      (fuel : ℕ) (line : Bytes) (rest : Input) (t : Trace)
      → All IsTyped line
      → 0 < length line
      → length line < 511
      → repl_rounds w (suc fuel) (keys line (some 13 ∷ rest)) t
        ≡ run_line w line (λ u. repl_rounds w fuel rest u) (shown line t)
  unfolding repl_rounds after_read ◌>>=◌
  round_line fuel [] rest t typed some_bytes fits = absurd (omega arith)
  round_line fuel (c ∷ cs) rest t typed some_bytes fits =
      let t1 = t ++ (wrote (codes "$ ") ∷ []) in
      let t2 = shown (c ∷ cs) t in
      let whole : repl_readline 512 (keys (c ∷ cs) (some 13 ∷ rest)) t1 ≡ (read (c ∷ cs) rest, t2) =
        readline_typed (c ∷ cs) [] (some 13 ∷ rest) t1 typed (omega (arith, fits))
        ∙ return_key 13 (c ∷ cs) rest _ refl (omega (arith, fits)) in
      let more = λ (r : Input) (u : Trace). repl_rounds w fuel r u in
      ap (λ (r : ReadLine × Trace). after_read w r.0 more r.1) whole
      ∙ ap (λ l. run_line w l (more rest) t2) (c_string_typed (c ∷ cs) typed)

  -- A round on the line feed behind a line.
  round_empty :
      (fuel : ℕ) (rest : Input) (t : Trace)
      → repl_rounds w (suc fuel) (some 10 ∷ rest) t
        ≡ repl_rounds w fuel rest (t ++ (wrote (codes "$ ") ∷ []))
  unfolding repl_rounds after_read ◌>>=◌ readline_loop
  round_empty fuel rest t = refl

  line_stays :
      (line : Bytes) (more : Shell Bool) (t : Trace)
      → (same_text line (codes "exit") || same_text line (codes "quit")) ≡ false
      → run_line w line more t
        ≡ (do builtin ← handle_builtin w line; when (not builtin) (run_cmd w line); more) t
  unfolding run_line
  line_stays line more t h = rw (run_line, h) refl

  exit_leaves :
      (more : Shell Bool) (t : Trace)
      → run_line w (codes "exit") more t ≡ (true, t ++ (wrote (codes "Bye!\r\n") ∷ []))
  unfolding run_line same_text ◌>>=◌
  exit_leaves more t = refl

  exit-IsTyped : All IsTyped (codes "exit")
  exit-IsTyped =
      ((refl, omega arith), ((refl, omega arith), ((refl, omega arith), ((refl, omega arith), tt))))

  -- Each line has its two keys for the end.
  length-keys : (l : Bytes) (rest : Input) → length (keys l rest) ≡ length l + length rest
  length-keys [] rest = omega arith
  length-keys (c ∷ cs) rest = omega (arith, length-keys cs rest)

  length-script : (ls : List Bytes) (rest : Input) → 2 * length ls < length (script ls rest) + 1
  length-script [] rest = omega arith
  length-script (l ∷ ls) rest =
      omega (arith, length-keys l (some 13 ∷ some 10 ∷ script ls rest), length-script ls rest)

  rounds-script :
      (ls : List Bytes) (rest : Input) (fuel : ℕ) (t : Trace)
      → All IsLine ls
      → 2 * length ls < fuel
      → repl_rounds w fuel (script ls rest) t ≡ run_script ls t
  unfolding run_script ◌>>=◌
  rounds-script ls rest zero t h enough = absurd (omega arith)
  rounds-script [] rest (suc fuel) t h enough =
      round_line fuel (codes "exit") rest t exit-IsTyped (omega arith) (omega arith)
      ∙ exit_leaves (λ u. repl_rounds w fuel rest u) (shown (codes "exit") t)
  rounds-script (l ∷ ls) rest (suc zero) t h enough = absurd (omega arith)
  rounds-script (l ∷ ls) rest (suc (suc fuel)) t (h, hs) enough =
      let (builtin, t3) = handle_builtin w l (shown l t) in
      let (_, t4) = when (not builtin) (run_cmd w l) t3 in
      round_line (suc fuel) l (some 10 ∷ script ls rest) t h.typed h.not_empty h.fits
      ∙ line_stays l (λ u. repl_rounds w (suc fuel) (some 10 ∷ script ls rest) u) (shown l t)
          h.stays
      ∙ round_empty fuel (script ls rest) t4
      ∙ rounds-script ls rest fuel (t4 ++ (wrote (codes "$ ") ∷ [])) hs (omega (arith, enough))

  -- If each line of a script is not empty, of 1 to 510 typed bytes without a control key, and no `exit`
  -- or `quit`, then the loop, after its greeting, runs the lines in order, each once, with one more
  -- prompt behind each, leaves at `exit`, and reads no further; its fuel is enough.
  pub repl_runs_script :
      (ls : List Bytes) (rest : Input) (t : Trace)
      → All IsLine ls
      → repl_loop w (script ls rest) t
        ≡ run_script ls (t ++ (wrote (codes "\r\n=== ReactOS Serial Shell ===\r\n") ∷ []))
  unfolding repl_loop ◌>>=◌
  repl_runs_script ls rest t h =
      rounds-script ls rest (length (script ls rest) + 1) _ h (length-script ls rest)
