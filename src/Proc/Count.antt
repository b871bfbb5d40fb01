-- ===== src/Proc/Count.antt =====
-- Counting the arguments of a process ends.
use reactos_luagent.Base.{
  ℕ, zero, suc, ◌+◌, ◌<◌, ◌≤◌, ◌≡◌, ◌^◌, refl, sym, ◌∙◌, ap, inl, inr, true, List, [], ◌∷◌, ◌++◌,
  ltb, Bytes, All, codes, length, drop, Option, none, some, arith, Bool-cases, ltb→lt, not-ltb→le,
  Option-cases,
}
use reactos_luagent.Base.Tally.{tally, tally-le_add, tally-zero, tally-all, tally-le_one}
use reactos_luagent.Libc.{decimal, to_u32, strtoul, ullong_max}
use reactos_luagent.Libc.Decimal.{IsDigit, decimal-IsDigit, strtoul-decimal}
use reactos_luagent.Kv.Lines.{lines, entry, find_value, firsts, fitting, kv_copy-eq-lines}
use reactos_luagent.Kv.Keys.{is_some, IsKey, entry_unique, length-lines, find_value-split}
use reactos_luagent.Session.{util_snprintf}
use reactos_luagent.Proc.Args.{argv_key, argv_value, count_args}

-- The key of an argument, without the bound of its buffer.
abbrev key_text : ℕ → Bytes
key_text i = codes "argv" ++ decimal (to_u32 i)

digits-IsKey : (ds : Bytes) → All IsDigit ds → IsKey ds
digits-IsKey [] h = tt
digits-IsKey (d ∷ ds) h = (λ e. absurd (ground (arith, h.0)), digits-IsKey ds h.1)

key_text-IsKey : (i : ℕ) → IsKey (key_text i)
key_text-IsKey i =
    let rest = digits-IsKey (decimal (to_u32 i)) (decimal-IsDigit (to_u32 i)) in
    (
      λ e. absurd (omega arith),
      (λ e. absurd (omega arith), (λ e. absurd (omega arith), (λ e. absurd (omega arith), rest))),
    )

decimal-injective : (m n : ℕ) → m ≤ ullong_max → n ≤ ullong_max → decimal m ≡ decimal n → m ≡ n
decimal-injective m n hm hn e =
    let both = sym (strtoul-decimal m hm) ∙ ap (strtoul ullong_max) e ∙ strtoul-decimal n hn in
    ap (λ o. elim o as (λ x. ℕ) [ none ↦ 0 | some p ↦ p.0 ]) both

key_text-injective : (i j : ℕ) → i < 2 ^ 32 → j < 2 ^ 32 → key_text i ≡ key_text j → i ≡ j
key_text-injective i j hi hj e =
    let digits : decimal (to_u32 i) ≡ decimal (to_u32 j) = ap (drop 4) e in
    omega (arith, decimal-injective (to_u32 i) (to_u32 j) (omega arith) (omega arith) digits)

-- The lines that hold one of the first `n` arguments, at most one argument each.
tally-found :
    (n : ℕ) (ls : List Bytes)
    → n ≤ 2 ^ 32
    → tally (λ i. is_some (find_value (key_text i) ls)) n ≤ length ls
tally-found n [] h = omega (
  arith,
  tally-zero (λ i. is_some (find_value (key_text i) [])) n (λ i lt. unfold find_value in refl),
)
tally-found n (l ∷ ls) h =
    let one =
      tally-le_one (λ i. is_some (entry (key_text i) l)) n
        (λ i j hi hj ei ej.
          key_text-injective i j (omega arith) (omega arith) (
            entry_unique (key_text i) (key_text j) l (key_text-IsKey i) (key_text-IsKey j) ei
              ej)) in
    let split =
      tally-le_add (λ i. is_some (entry (key_text i) l)) (λ i. is_some (find_value (key_text i) ls))
        (λ i. is_some (find_value (key_text i) (l ∷ ls)))
        (λ i e. find_value-split (key_text i) l ls e) n in
    omega (arith, one, split, tally-found n ls h)

argv_value-found :
    (payload : Bytes) (i : ℕ)
    → is_some (argv_value payload i) ≡ true
    → is_some (find_value (key_text i) (lines payload)) ≡ true
unfolding argv_value argv_key util_snprintf fitting firsts
argv_value-found payload i e = ground (arith, kv_copy-eq-lines 512 payload (key_text i))

-- So many arguments need as many lines.
arguments_need_lines :
    (payload : Bytes) (n : ℕ)
    → n ≤ 2 ^ 32
    → ((i : ℕ) → i < n → is_some (argv_value payload i) ≡ true)
    → n ≤ length payload
arguments_need_lines payload n small all_found = omega (
  arith,
  tally-all (λ i. is_some (find_value (key_text i) (lines payload))) n
      (λ i lt. argv_value-found payload i (all_found i lt)),
  tally-found n (lines payload) small,
  length-lines payload,
)

-- One more argument.
one_more :
    (payload : Bytes) (count : ℕ) (v : Bytes)
    → argv_value payload count ≡ some v
    → ((i : ℕ) → i < count → is_some (argv_value payload i) ≡ true)
    → (i : ℕ) → i < count + 1
    → is_some (argv_value payload i) ≡ true
one_more payload count v e all_found i lt = elim (Bool-cases (ltb i count)) [
  | inl before ↦ all_found i (ltb→lt _ _ before)
  | inr last ↦ let same : i ≡ count = omega (arith, not-ltb→le _ _ last) in rw (same, e) refl
]

count_round :
    (fuel : ℕ) (payload : Bytes) (count : ℕ) (o : Option Bytes)
    → argv_value payload count ≡ o
    → count_args (suc fuel) payload count
      ≡ elim o as (λ x. ℕ) [ none ↦ count | some v ↦ count_args fuel payload (count + 1) ]
unfolding count_args
count_round fuel payload count o e =
    ap (λ x. elim x as (λ y. ℕ) [ none ↦ count | some v ↦ count_args fuel payload (count + 1) ]) e

count_ends :
    (fuel : ℕ) (payload : Bytes) (count : ℕ)
    → length payload < 2 ^ 32
    → count + fuel ≡ length payload + 1
    → ((i : ℕ) → i < count → is_some (argv_value payload i) ≡ true)
    → argv_value payload (count_args fuel payload count) ≡ none
count_ends zero payload count small enough all_found =
    absurd (omega (arith, arguments_need_lines payload count (omega arith) all_found))
count_ends (suc fuel) payload count small enough all_found =
    elim (Option-cases (argv_value payload count)) [
      | inl stop ↦ ap (argv_value payload) (count_round fuel payload count none stop) ∙ stop
      | inr (v, e) ↦
          ap (argv_value payload) (count_round fuel payload count (some v) e)
          ∙ (count_ends fuel payload (count + 1) small (omega arith)
              (one_more payload count v e all_found))
    ]

-- If the payload is shorter than 2 ^ 32, then the number of arguments that `proc_build_args` counts
-- is one at which no argument stands: the loop ended there, and not for want of fuel.
pub count_args_ends :
    (payload : Bytes)
    → length payload < 2 ^ 32
    → argv_value payload (count_args (length payload + 1) payload 0) ≡ none
count_args_ends payload small =
    count_ends (length payload + 1) payload 0 small (omega arith) (λ i lt. absurd (omega arith))
