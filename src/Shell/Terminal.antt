-- ===== src/Shell/Terminal.antt =====
-- A terminal at the other end of hello.c, and what it shows of a line.
use reactos_luagent.Base.{
  ℕ, ◌+◌, ◌-◌, ◌%◌, ◌^◌, ◌<◌, ◌≡◌, ◌≢◌, refl, sym, ap, ◌∙◌, ◌⊎◌, inl, inr, false, Bool-cases, ◌==◌,
  if◌then◌else◌, [], ◌∷◌, ◌++◌, Bytes, codes, length, length-append, take, arith, append_assoc,
  append-nil, take-append, take-append_add,
}
use reactos_luagent.Shell.{
  debug, Trace, wrote, pure, emit, read_nothing, key, Key, ends, erases, types, drop_last,
  unless_empty, tx_write,
}
use reactos_luagent.Shell.Pipe.{terminal, terminal-append}

-- A terminal of one row: what stands left of the cursor. A backspace moves the cursor back, and any
-- other byte goes over what stands there.
unfoldable pub screen : Bytes → Bytes → Bytes
screen left [] = left
screen left (c ∷ cs) = screen (if c == 8 then drop_last left else left ++ (c ∷ [])) cs

screen-append : (left xs ys : Bytes) → screen left (xs ++ ys) ≡ screen (screen left xs) ys
unfolding screen
screen-append left [] ys = refl
screen-append left (c ∷ cs) ys =
    screen-append (if c == 8 then drop_last left else left ++ (c ∷ [])) cs ys

drop_last-snoc : (xs : Bytes) (c : ℕ) → drop_last (xs ++ (c ∷ [])) ≡ xs
drop_last-snoc xs c =
    ap (λ n. take n (xs ++ (c ∷ []))) (omega (arith, length-append xs (c ∷ [])))
    ∙ take-append (length xs) xs (c ∷ []) refl

drop_last-append :
    (left : Bytes) (line : Bytes)
    → 0 < length line
    → drop_last (left ++ line) ≡ left ++ drop_last line
drop_last-append left line some_bytes =
    ap (λ n. take n (left ++ line)) (omega (arith, length-append left line, some_bytes))
    ∙ take-append_add left line (length line - 1)

-- The row shows what stood before the line, and the line; a return that follows is not in it.
pub record Shows (left line line' : Bytes) (t t' : Trace) : Type 0 where
  pub echo : Bytes
  pub tail : Bytes
  pub written : terminal t' ≡ terminal t ++ (echo ++ tail)
  pub return : (tail ≡ []) ⊎ (tail ≡ codes "\r\n")
  pub on_screen : screen (left ++ line) echo ≡ left ++ line'

pub Shows-nothing : (left line : Bytes) (t : Trace) → Shows left line line t t
unfolding screen
Shows-nothing left line t = record {
  echo = [];
  tail = [];
  written = sym (append-nil (terminal t));
  return = inl refl;
  on_screen = refl;
}

-- One more key before.
pub Shows-more :
    (left line between line' first : Bytes) (t t' t'' : Trace)
    → terminal t' ≡ terminal t ++ first
    → screen (left ++ line) first ≡ left ++ between
    → Shows left between line' t' t''
    → Shows left line line' t t''
Shows-more left line between line' first t t' t'' shown moved rest = record {
  echo = first ++ rest.echo;
  tail = rest.tail;
  written =
      rest.written
      ∙ ap (λ w. w ++ (rest.echo ++ rest.tail)) shown
      ∙ append_assoc (terminal t) first (rest.echo ++ rest.tail)
      ∙ ap (λ w. terminal t ++ w) (sym (append_assoc first rest.echo rest.tail));
  return = rest.return;
  on_screen =
      screen-append (left ++ line) first rest.echo
      ∙ ap (λ s. screen s rest.echo) moved
      ∙ rest.on_screen;
}

-- A key erases the last byte on the screen as in the line.
pub erased :
    (left line : Bytes)
    → 0 < length line
    → screen (left ++ line) (8 ∷ 32 ∷ 8 ∷ []) ≡ left ++ drop_last line
unfolding screen
erased left line some_bytes =
    drop_last-snoc (drop_last (left ++ line)) 32 ∙ drop_last-append left line some_bytes

-- A round that reads nothing shows nothing.
pub nothing_shown : (ticks : ℕ) (t : Trace) → terminal (read_nothing ticks t).1 ≡ terminal t
unfolding read_nothing pure emit
nothing_shown ticks t = elim (Bool-cases ((ticks + 1) % 2 ^ 32 % 5 == 0)) [
  | inl told ↦ rw told (
      terminal-append t (debug (codes "serial-shell: waiting for input\n") ∷ [])
      ∙ append-nil (terminal t))
  | inr silent ↦ rw silent refl
]

-- A key that types is no backspace, and shows itself.
pub typed_shown :
    (left line : Bytes) (c : ℕ)
    → key c ≡ types
    → screen (left ++ line) (c ∷ []) ≡ left ++ (line ++ (c ∷ []))
unfolding screen
typed_shown left line c h =
    let other : (c == 8) ≡ false = ground arith in rw other (append_assoc left line (c ∷ []))

pub Key-cases : (k : Key) → (k ≡ ends) ⊎ ((k ≡ erases) ⊎ (k ≡ types))
Key-cases ends = inl refl
Key-cases erases = inr (inl refl)
Key-cases types = inr (inr refl)

pub goes_on : erases ≢ ends
goes_on e = ground arith

pub types_on : types ≢ ends
types_on e = ground arith

-- The end of a line.
pub returned :
    (left line : Bytes) (t : Trace)
    → Shows left line line t (unless_empty line (tx_write (codes "\r\n")) t).1
unfolding pure emit
returned left [] t = Shows-nothing left [] t
returned left (c ∷ cs) t = record {
  echo = [];
  tail = codes "\r\n";
  written = terminal-append t (wrote (codes "\r\n") ∷ []);
  return = inr refl;
  on_screen = unfold screen in refl;
}
