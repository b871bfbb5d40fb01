-- ===== src/Kv/Lines.antt =====
-- `kv_copy` against a reading of the payload line by line.
use reactos_luagent.Base.{
  ℕ, zero, suc, ◌+◌, ◌<◌, ◌≡◌, refl, ◌≢◌, ◌⊎◌, inl, inr, ap, ◌∙◌, true, false, ◌&&◌, ◌==◌, ltb,
  if◌then◌else◌, List, [], ◌∷◌, ◌++◌, Bytes, bytes_eq, length, get_or, take, drop, Option, none,
  some, arith, Bool-cases, length-append, take-append_le, drop-append_le, get_or-append,
}
use reactos_luagent.Libc.{strchr, strcspn}
use reactos_luagent.Kv.{line_length, line_matches, kv_value_loop, is_eol, kv_copy}

-- One more byte in front of the first line.
abbrev pub cons_first : ℕ → List Bytes → List Bytes
cons_first c [] = (c ∷ []) ∷ []
cons_first c (l ∷ ls) = (c ∷ l) ∷ ls

-- The lines of a text, without their newlines. A newline at the end opens no further line.
unfoldable pub lines : Bytes → List Bytes
lines [] = []
lines (c ∷ cs) = if c == b'\n' then [] ∷ lines cs else cons_first c (lines cs)

-- The value on a line: there is a key before the first byte `=` after it, and a value behind.
unfoldable pub entry : Bytes → Bytes → Option Bytes
entry key line =
    if ltb (length key + 1) (length line)
      && (bytes_eq (take (length key) line) key && get_or line (length key) 0 == b'=')
    then some (drop (length key + 1) line)
    else none

unfoldable pub find_value : Bytes → List Bytes → Option Bytes
find_value key [] = none
find_value key (l ∷ ls) = elim (entry key l) [ none ↦ find_value key ls | some v ↦ some v ]

-- A value ends at a carriage return too.
unfoldable pub first_line : Bytes → Bytes
unfolding strcspn
first_line v = take (strcspn is_eol v) v

unfoldable pub firsts : Option Bytes → Option Bytes
firsts none = none
firsts (some v) = some (first_line v)

before_newline : Bytes → Bytes
before_newline [] = []
before_newline (c ∷ cs) = if c == b'\n' then [] else c ∷ before_newline cs

-- A text is one line, or a line, a newline and the rest.
line_cases :
    (s : Bytes)
    → s ≢ []
    → ((strchr b'\n' s ≡ none) × (lines s ≡ s ∷ []))
      ⊎ ((l : Bytes) × (r : Bytes) × (strchr b'\n' s ≡ some (b'\n' ∷ r))
          × (s ≡ l ++ b'\n' ∷ r)
          × (lines s ≡ l ∷ lines r))
unfolding strchr lines
line_cases [] ne = absurd (ne refl)
line_cases (c ∷ []) ne = elim (Bool-cases (c == b'\n')) [
  | inl h ↦ inr ([], [], ground arith, ground arith, ground arith)
  | inr h ↦ inl (ground arith)
]
line_cases (c ∷ d ∷ cs) ne = elim (Bool-cases (c == b'\n')) [
  | inl h ↦ inr ([], d ∷ cs, ground arith, ground arith, ground arith)
  | inr h ↦ elim (line_cases (d ∷ cs) (λ e. cc)) [
    | inl (a, b) ↦ inl (rw h (a, rw b refl))
    | inr (l, r, a, b, e) ↦ inr (c ∷ l, r, rw h a, ap (λ t. c ∷ t) b, rw h (rw e refl))
  ]
]

first_line-append : (v r : Bytes) → first_line (v ++ b'\n' ∷ r) ≡ first_line v
unfolding first_line
first_line-append [] r = refl
first_line-append (c ∷ v) r = ground (arith, first_line-append v r)

line_length-last : (s : Bytes) → strchr b'\n' s ≡ none → line_length s ≡ length s
line_length-last s h = rw (h, line_length) refl

line_length-split :
    (l r : Bytes)
    → strchr b'\n' (l ++ b'\n' ∷ r) ≡ some (b'\n' ∷ r)
    → line_length (l ++ b'\n' ∷ r) ≡ length l
line_length-split l r h = rw (h, line_length) (omega (arith, length-append l (b'\n' ∷ r)))

-- The test on a text is the test on its first line, and so is the value that is found.
entry-split :
    (l r key : Bytes)
    → strchr b'\n' (l ++ b'\n' ∷ r) ≡ some (b'\n' ∷ r)
    → firsts (
        if line_matches (l ++ b'\n' ∷ r) key
        then some (drop (length key + 1) (l ++ b'\n' ∷ r))
        else none)
      ≡ firsts (entry key l)
unfolding line_matches entry firsts
entry-split l r key h =
    rw (line_length-split l r h) (elim (Bool-cases (ltb (length key + 1) (length l))) [
      | inl fits ↦ ground (
        arith,
        take-append_le (length key) l (b'\n' ∷ r),
        get_or-append l (b'\n' ∷ r) (length key) 0,
        drop-append_le (length key + 1) l (b'\n' ∷ r),
        first_line-append (drop (length key + 1) l) r,
      )
      | inr short ↦ rw short refl
    ])

entry_of_split :
    (s l r key : Bytes)
    → strchr b'\n' s ≡ some (b'\n' ∷ r)
    → s ≡ l ++ b'\n' ∷ r
    → firsts (if line_matches s key then some (drop (length key + 1) s) else none)
      ≡ firsts (entry key l)
entry_of_split s l r key at split = rw split (entry-split l r key (rw split at at))

entry-last :
    (s key : Bytes)
    → strchr b'\n' s ≡ none
    → (if line_matches s key then some (drop (length key + 1) s) else none) ≡ entry key s
unfolding line_matches entry
entry-last s key h = rw (line_length-last s h) refl

loop_found :
    (fuel : ℕ) (s key : Bytes)
    → s ≢ []
    → line_matches s key ≡ true
    → kv_value_loop (suc fuel) s key ≡ some (drop (length key + 1) s)
unfolding kv_value_loop
loop_found fuel [] key ne h = absurd (ne refl)
loop_found fuel (c ∷ cs) key ne h = rw h refl

loop_last :
    (fuel : ℕ) (s key : Bytes)
    → s ≢ []
    → line_matches s key ≡ false
    → strchr b'\n' s ≡ none
    → kv_value_loop (suc fuel) s key ≡ none
unfolding kv_value_loop
loop_last fuel [] key ne h e = absurd (ne refl)
loop_last fuel (c ∷ cs) key ne h e = ground arith

loop_next :
    (fuel : ℕ) (s key r : Bytes)
    → s ≢ []
    → line_matches s key ≡ false
    → strchr b'\n' s ≡ some (b'\n' ∷ r)
    → kv_value_loop (suc fuel) s key ≡ kv_value_loop fuel r key
unfolding kv_value_loop
loop_next fuel [] key r ne h e = absurd (ne refl)
loop_next fuel (c ∷ cs) key r ne h e = ground arith

find_value-cons :
    (key l : Bytes) (ls : List Bytes)
    → find_value key (l ∷ ls) ≡ (elim (entry key l) [ none ↦ find_value key ls | some v ↦ some v ])
unfolding find_value
find_value-cons key l ls = refl

-- One round of the loop is one line of the reading.
kv_value_loop-round :
    (fuel : ℕ) (s key : Bytes)
    → s ≢ []
    → ((r : Bytes)
        → length r < length s
        → firsts (kv_value_loop fuel r key) ≡ firsts (find_value key (lines r)))
    → firsts (kv_value_loop (suc fuel) s key) ≡ firsts (find_value key (lines s))
unfolding find_value firsts
kv_value_loop-round fuel s key ne ih = elim (line_cases s ne) [
  | inl (last, only) ↦ elim (Bool-cases (line_matches s key)) [
    | inl m ↦ rw (only, loop_found fuel s key ne m) (ground (arith, entry-last s key last))
    | inr m ↦ rw (only, loop_last fuel s key ne m last) (ground (arith, entry-last s key last))
  ]
  | inr (l, r, at, split, more) ↦ elim (Bool-cases (line_matches s key)) [
    | inl m ↦
        rw (more, loop_found fuel s key ne m) (ground (arith, entry_of_split s l r key at split))
    | inr m ↦
        rw (more, loop_next fuel s key r ne m at)
          (ground (
            arith,
            entry_of_split s l r key at split,
            ih r,
            length-append l (b'\n' ∷ r),
            ap length split,
          ))
  ]
]

kv_value_loop-lines :
    (fuel : ℕ) (s key : Bytes)
    → length s < fuel
    → firsts (kv_value_loop fuel s key) ≡ firsts (find_value key (lines s))
kv_value_loop-lines zero s key h = absurd (omega arith)
kv_value_loop-lines (suc fuel) [] key h = unfold lines kv_value_loop find_value in refl
kv_value_loop-lines (suc fuel) (c ∷ cs) key h =
    kv_value_loop-round fuel (c ∷ cs) key (λ e. cc)
      (λ r lt. kv_value_loop-lines fuel r key (omega arith))

length-first_line : (v : Bytes) → length (first_line v) ≡ strcspn is_eol v
unfolding first_line
length-first_line [] = refl
length-first_line (c ∷ v) = ground (arith, length-first_line v)

-- The buffer test of `kv_copy`.
unfoldable pub fitting : ℕ → Option Bytes → Option Bytes
fitting dst_size none = none
fitting dst_size (some t) = if ltb dst_size (length t + 1) then none else some t

copied :
    (dst_size : ℕ) (o : Option Bytes)
    → ◌≡◌ {A = Option Bytes}
        (elim o [
          | none ↦ none
          | some value ↦
              if ltb dst_size (strcspn is_eol value + 1)
              then none
              else some (take (strcspn is_eol value) value)
        ])
        (fitting dst_size (firsts o))
unfolding fitting firsts
copied dst_size none = refl
copied dst_size (some v) = rw (length-first_line v) (unfold first_line in refl)

-- `kv_copy` copies the value of the first line that has the key before `=` and something behind
-- it, up to a carriage return, and fails exactly if there is none or it does not fit the buffer.
-- The loop over the payload never runs out of fuel.
pub kv_copy-eq-lines :
    (dst_size : ℕ) (payload key : Bytes)
    → kv_copy dst_size payload key ≡ fitting dst_size (firsts (find_value key (lines payload)))
unfolding kv_copy
kv_copy-eq-lines dst_size payload key =
    copied dst_size (kv_value_loop (length payload + 1) payload key)
    ∙ ap (fitting dst_size) (kv_value_loop-lines (length payload + 1) payload key (omega arith))
