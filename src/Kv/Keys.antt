-- ===== src/Kv/Keys.antt =====
-- A line has one key.
use reactos_luagent.Base.{
  ℕ, zero, suc, ◌+◌, ◌<◌, ◌≤◌, ◌≡◌, ◌≢◌, refl, sym, ◌∙◌, ap, ◌⊎◌, inl, inr, Bool, true, false, ltb,
  List, [], ◌∷◌, Bytes, All, bytes_eq→≡, length, get_or, take, Option, none, some, arith,
  Bool-cases, ltb→lt, not-ltb→le, Bool-cases, ltb→lt, not-ltb→le,
}
use reactos_luagent.Kv.Lines.{lines, cons_first, entry, find_value}

abbrev pub is_some {ℓ} : {A : Type ℓ} → Option A → Bool
is_some none = false
is_some (some a) = true

-- No byte of a key is `=`.
abbrev pub IsKey : Bytes → Type 0
IsKey k = All (λ c. c ≢ b'=') k

entry-starts :
    (k l : Bytes)
    → is_some (entry k l) ≡ true
    → (length k < length l) × (take (length k) l ≡ k) × (get_or l (length k) 0 ≡ b'=')
unfolding entry
entry-starts k l e = ground (arith, bytes_eq→≡ (take (length k) l) k)

get_or-take : (n i : ℕ) (l : Bytes) → i < n → get_or (take n l) i 0 ≡ get_or l i 0
get_or-take zero i l h = absurd (omega arith)
get_or-take (suc n) i [] h = refl
get_or-take (suc n) zero (x ∷ l) h = refl
get_or-take (suc n) (suc i) (x ∷ l) h = get_or-take n i l (omega arith)

key-get_or : (k : Bytes) (i : ℕ) → IsKey k → i < length k → get_or k i 0 ≢ b'='
key-get_or [] i h lt = absurd (omega arith)
key-get_or (c ∷ k) zero h lt = h.0
key-get_or (c ∷ k) (suc i) h lt = key-get_or k i h.1 (omega arith)

-- The longer of two keys would have `=` where the shorter one ends.
not_longer :
    (k k' l : Bytes)
    → IsKey k'
    → is_some (entry k l) ≡ true
    → is_some (entry k' l) ≡ true
    → length k' ≤ length k
not_longer k k' l h e e' =
    let (long, start, mark) = entry-starts k l e in
    let (long', start', mark') = entry-starts k' l e' in
    elim (Bool-cases (ltb (length k) (length k'))) [
      | inl lt ↦ absurd (
          key-get_or k' (length k) h (ltb→lt _ _ lt) (
            ap (λ t. get_or t (length k) 0) (sym start')
            ∙ get_or-take (length k') (length k) l (ltb→lt _ _ lt)
            ∙ mark))
      | inr le ↦ not-ltb→le _ _ le
    ]

pub entry_unique :
    (k k' l : Bytes)
    → IsKey k
    → IsKey k'
    → is_some (entry k l) ≡ true
    → is_some (entry k' l) ≡ true
    → k ≡ k'
entry_unique k k' l h h' e e' =
    let same : length k ≡ length k' =
      omega (arith, not_longer k k' l h' e e', not_longer k' k l h e' e) in
    sym (entry-starts k l e).1 ∙ ap (λ n. take n l) same ∙ (entry-starts k' l e').1

length-cons_first : (c : ℕ) (ls : List Bytes) → length (cons_first c ls) ≤ 1 + length ls
length-cons_first c [] = omega arith
length-cons_first c (l ∷ ls) = omega arith

pub length-lines : (s : Bytes) → length (lines s) ≤ length s
unfolding lines
length-lines [] = omega arith
length-lines (c ∷ cs) = ground (arith, length-lines cs, length-cons_first c (lines cs))

pub find_value-split :
    (k l : Bytes) (ls : List Bytes)
    → is_some (find_value k (l ∷ ls)) ≡ true
    → (is_some (entry k l) ≡ true) ⊎ (is_some (find_value k ls) ≡ true)
unfolding find_value
find_value-split k l ls e = ground arith
