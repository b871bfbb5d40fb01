-- ===== src/Shell/Screen.antt =====
-- What `repl_readline` of hello.c shows while a line is typed and corrected.
use reactos_luagent.Base.{
  ℕ, ◌+◌, ◌-◌, ◌<◌, ◌≡◌, ◌≢◌, refl, sym, ◌∙◌, inl, inr, true, false, ltb, ltb→lt, Bool-cases, [],
  ◌∷◌, ◌++◌, Bytes, codes, length, length-append, length-take, none, some, arith, append-nil,
}
use reactos_luagent.Shell.{
  Trace, wrote, pure, emit, read_nothing, key, ends, erases, types, drop_last, unless_empty,
  tx_write, Input, ReadLine, read, waits, readline_loop, repl_readline, ◌>>=◌,
}
use reactos_luagent.Shell.Pipe.{terminal, terminal-append}
use reactos_luagent.Shell.Terminal.{
  screen, Shows, Shows-nothing, Shows-more, erased, nothing_shown, typed_shown, Key-cases, goes_on,
  types_on, returned,
}

-- No key of the input ends a line.
abbrev pub NoEnd : Input → Type 0
NoEnd [] = Unit
NoEnd (none ∷ rest) = NoEnd rest
NoEnd (some c ∷ rest) = (key c ≢ ends) × NoEnd rest

module _ (max : ℕ) where
  -- What a call of the loop gives: a line that fits the buffer with its NUL and that the screen shows; it
  -- waits only when no key of its input ends a line.
  abbrev pub Reads : Input → Bytes → Bytes → Trace → ReadLine → Trace → Type 0
  Reads input left line t (read line' rest) t' = (length line' < max) × Shows left line line' t t'
  Reads input left line t waits t' = NoEnd input

  Reads-more :
      (input rest : Input) (left line between first : Bytes) (t t' : Trace) (r : ReadLine × Trace)
      → terminal t' ≡ terminal t ++ first
      → screen (left ++ line) first ≡ left ++ between
      → (NoEnd rest → NoEnd input)
      → Reads rest left between t' r.0 r.1
      → Reads input left line t r.0 r.1
  Reads-more input rest left line between first t t' (waits, t'') shown moved no_end none_left =
      no_end none_left
  Reads-more input rest left line between first t t' (read line' input', t'') shown moved no_end
        (fits, shows') =
      (fits, Shows-more left line between line' first t t' t'' shown moved shows')

  -- One step of the loop.
  full :
      (input : Input) (line : Bytes) (ticks : ℕ) (t : Trace)
      → ltb (length line) (max - 1) ≡ false
      → readline_loop max line ticks input t ≡ (read line input, t)
  unfolding readline_loop pure
  full [] line ticks t h = rw (readline_loop, h) refl
  full (none ∷ rest) line ticks t h = rw (readline_loop, h) refl
  full (some c ∷ rest) line ticks t h = rw (readline_loop, h) refl

  no_key :
      (rest : Input) (line : Bytes) (ticks : ℕ) (t : Trace)
      → ltb (length line) (max - 1) ≡ true
      → readline_loop max line ticks (none ∷ rest) t
        ≡ readline_loop max line (ticks + 1) rest (read_nothing ticks t).1
  unfolding readline_loop ◌>>=◌
  no_key rest line ticks t h = rw (readline_loop, h) refl

  ends_key :
      (c : ℕ) (rest : Input) (line : Bytes) (ticks : ℕ) (t : Trace)
      → ltb (length line) (max - 1) ≡ true
      → key c ≡ ends
      → readline_loop max line ticks (some c ∷ rest) t
        ≡ (read line rest, (unless_empty line (tx_write (codes "\r\n")) t).1)
  unfolding readline_loop ◌>>=◌
  ends_key c rest line ticks t h k = rw (readline_loop, h, k) refl

  erases_key :
      (c : ℕ) (rest : Input) (line : Bytes) (ticks : ℕ) (t : Trace)
      → ltb (length line) (max - 1) ≡ true
      → key c ≡ erases
      → readline_loop max line ticks (some c ∷ rest) t
        ≡ readline_loop max
            (drop_last line)
            0
            rest
            (unless_empty line (tx_write (8 ∷ 32 ∷ 8 ∷ [])) t).1
  unfolding readline_loop ◌>>=◌
  erases_key c rest line ticks t h k = rw (readline_loop, h, k) refl

  types_key :
      (c : ℕ) (rest : Input) (line : Bytes) (ticks : ℕ) (t : Trace)
      → ltb (length line) (max - 1) ≡ true
      → key c ≡ types
      → readline_loop max line ticks (some c ∷ rest) t
        ≡ readline_loop max (line ++ (c ∷ [])) 0 rest (t ++ (wrote (c ∷ []) ∷ []))
  unfolding readline_loop ◌>>=◌
  types_key c rest line ticks t h k = rw (readline_loop, h, k) refl

  no_input :
      (line : Bytes) (ticks : ℕ) (t : Trace)
      → ltb (length line) (max - 1) ≡ true
      → readline_loop max line ticks [] t ≡ (waits, t)
  unfolding readline_loop pure
  no_input line ticks t h = rw (readline_loop, h) refl

  typed_fits :
      (line : Bytes) (c : ℕ) → ltb (length line) (max - 1) ≡ true → length (line ++ (c ∷ [])) < max
  typed_fits line c room =
      omega (arith, length-append line (c ∷ []), ltb→lt (length line) (max - 1) room)

  drop_last_fits : (line : Bytes) → length line < max → length (drop_last line) < max
  drop_last_fits line fits = omega (arith, length-take (length line - 1) line, fits)

  -- A key that erases: on an empty line it shows nothing.
  Reads-erased :
      (c : ℕ) (rest : Input) (left line : Bytes) (t : Trace) (r : ReadLine × Trace)
      → key c ≢ ends
      → let t' = (unless_empty line (tx_write (8 ∷ 32 ∷ 8 ∷ [])) t).1 in
        Reads rest left (drop_last line) t' r.0 r.1 → Reads (some c ∷ rest) left line t r.0 r.1
  Reads-erased c rest left [] t r goes_on reads =
      Reads-more (some c ∷ rest) rest left [] [] [] t t r (sym (append-nil (terminal t)))
        (unfold screen in refl) (λ none_left. (goes_on, none_left)) (unfold pure in reads)
  Reads-erased k rest left (c ∷ cs) t r goes_on reads =
      Reads-more (some k ∷ rest) rest left (c ∷ cs) (drop_last (c ∷ cs)) (8 ∷ 32 ∷ 8 ∷ []) t
        (t ++ (wrote (8 ∷ 32 ∷ 8 ∷ []) ∷ [])) r (terminal-append t (wrote (8 ∷ 32 ∷ 8 ∷ []) ∷ []))
        (erased left (c ∷ cs) (omega arith)) (λ none_left. (goes_on, none_left))
        (unfold emit in reads)

  shows :
      (input : Input) (line : Bytes) (ticks : ℕ) (t : Trace) (left : Bytes)
      → length line < max
      → let r = readline_loop max line ticks input t in Reads input left line t r.0 r.1
  shows [] line ticks t left fits = elim (Bool-cases (ltb (length line) (max - 1))) [
    | inr no_room ↦ rw (full [] line ticks t no_room) (fits, Shows-nothing left line t)
    | inl room ↦ rw (no_input line ticks t room) tt
  ]
  shows (none ∷ rest) line ticks t left fits = elim (Bool-cases (ltb (length line) (max - 1))) [
    | inr no_room ↦ rw (full (none ∷ rest) line ticks t no_room) (fits, Shows-nothing left line t)
    | inl room ↦ rw (no_key rest line ticks t room) (
        Reads-more (none ∷ rest) rest left line line [] t (read_nothing ticks t).1
          (readline_loop max line (ticks + 1) rest (read_nothing ticks t).1)
          (nothing_shown ticks t ∙ sym (append-nil (terminal t))) (unfold screen in refl)
          (λ none_left. none_left) (shows rest line (ticks + 1) (read_nothing ticks t).1 left fits))
  ]
  shows (some c ∷ rest) line ticks t left fits = elim (Bool-cases (ltb (length line) (max - 1))) [
    | inr no_room ↦ rw (full (some c ∷ rest) line ticks t no_room) (fits, Shows-nothing left line t)
    | inl room ↦ elim (Key-cases (key c)) [
      | inl e ↦ rw (ends_key c rest line ticks t room e) (fits, returned left line t)
      | inr (inl e) ↦ rw (erases_key c rest line ticks t room e) (
          Reads-erased c rest left line t
            (readline_loop max (drop_last line) 0 rest
              (unless_empty line (tx_write (8 ∷ 32 ∷ 8 ∷ [])) t).1)
            (λ e'. goes_on (sym e ∙ e'))
            (shows rest (drop_last line) 0 (unless_empty line (tx_write (8 ∷ 32 ∷ 8 ∷ [])) t).1 left
              (drop_last_fits line fits)))
      | inr (inr e) ↦ rw (types_key c rest line ticks t room e) (
          Reads-more (some c ∷ rest) rest left line (line ++ (c ∷ [])) (c ∷ []) t
            (t ++ (wrote (c ∷ []) ∷ []))
            (readline_loop max (line ++ (c ∷ [])) 0 rest (t ++ (wrote (c ∷ []) ∷ [])))
            (terminal-append t (wrote (c ∷ []) ∷ [])) (typed_shown left line c e)
            (λ none_left. ((λ e'. types_on (sym e ∙ e')), none_left))
            (shows rest (line ++ (c ∷ [])) 0 (t ++ (wrote (c ∷ []) ∷ [])) left
              (typed_fits line c room)))
    ]
  ]

-- With room in its buffer for one byte `repl_readline` returns a line that fits the buffer with its NUL,
-- unless it waits for more input, and then no key of the input ends a line. Behind what stood on the row
-- of a terminal on which each byte that is typed takes one column, what it writes shows that line, as it
-- was corrected with backspaces; it writes a return after it or none.
pub repl_readline_shows :
    (max : ℕ) (input : Input) (t : Trace) (left : Bytes)
    → 0 < max
    → let r = repl_readline max input t in Reads max input left [] t r.0 r.1
repl_readline_shows max input t left room = shows max input [] 0 t left room
