-- ===== src/Kv/Render.antt =====
-- Payloads as a client writes them: a line `key=value` for each pair.
use reactos_luagent.Base.{
  ℕ, ◌+◌, ◌<◌, ◌≡◌, ◌≢◌, refl, sym, ◌∙◌, ap, inl, inr, true, false, if◌then◌else◌, List, [], ◌∷◌,
  ◌++◌, Bytes, All, bytes_eq, bytes_eq→≡, bytes_eq_refl, length, get_or, drop, length-append,
  take-append, drop-append, append_assoc, Option, none, some, arith, Bool-cases, Option-cases,
}
use reactos_luagent.Libc.{strcspn}
use reactos_luagent.Kv.{kv_copy, is_eol}
use reactos_luagent.Kv.Lines.{
  lines, entry, find_value, first_line, firsts, fitting, kv_copy-eq-lines,
}
use reactos_luagent.Kv.Keys.{is_some, IsKey, entry_unique}

pub record Pair : Type 0 where
  pub key : Bytes
  pub value : Bytes

-- A pair that fits on a line.
pub record IsLine (p : Pair) : Type 0 where
  pub key_ok : IsKey p.key
  pub key_line : All (λ c. c ≢ b'\n') p.key
  pub value_line : All (λ c. is_eol c ≡ false) p.value
  pub nonempty : p.value ≢ []

abbrev pub pair_text : Pair → Bytes
pair_text p = p.key ++ b'=' ∷ p.value

abbrev pub render : List Pair → Bytes
render [] = []
render (p ∷ ps) = pair_text p ++ b'\n' ∷ render ps

-- The value of the first pair with a key.
abbrev pub assoc : Bytes → List Pair → Option Bytes
assoc key [] = none
assoc key (p ∷ ps) = if bytes_eq p.key key then some p.value else assoc key ps

lines-append : (a r : Bytes) → All (λ c. c ≢ b'\n') a → lines (a ++ b'\n' ∷ r) ≡ a ∷ lines r
unfolding lines
lines-append [] r h = refl
lines-append (c ∷ a) r h = ground (arith, h.0, lines-append a r h.1)

first_line_whole : (v : Bytes) → All (λ c. is_eol c ≡ false) v → first_line v ≡ v
unfolding first_line strcspn
first_line_whole [] h = refl
first_line_whole (c ∷ v) h = ground (arith, first_line_whole v h.1)

values-lines : (v : Bytes) → All (λ c. is_eol c ≡ false) v → All (λ c. c ≢ b'\n') v
values-lines [] h = tt
values-lines (c ∷ v) h = (λ e. absurd (ground (arith, h.0)), values-lines v h.1)

All-append : (P : ℕ → Type 0) (a b : Bytes) → All P a → All P b → All P (a ++ b)
All-append P [] b ha hb = hb
All-append P (x ∷ a) b ha hb = (ha.0, All-append P a b ha.1 hb)

pair_text-line : (p : Pair) → IsLine p → All (λ c. c ≢ b'\n') (pair_text p)
pair_text-line p h =
    All-append (λ c. c ≢ b'\n') p.key (b'=' ∷ p.value) h.key_line
      (λ e. absurd (omega arith), values-lines p.value h.value_line)

get_or-append_one : (a : Bytes) (c : ℕ) (v : Bytes) → get_or (a ++ c ∷ v) (length a) 0 ≡ c
get_or-append_one [] c v = refl
get_or-append_one (x ∷ a) c v = get_or-append_one a c v

nonempty-length : (v : Bytes) → v ≢ [] → 0 < length v
nonempty-length [] h = absurd (h refl)
nonempty-length (c ∷ v) h = omega arith

drop-key : (k v : Bytes) → drop (length k + 1) (k ++ b'=' ∷ v) ≡ v
drop-key k v =
    ap (drop (length k + 1)) (sym (append_assoc k (b'=' ∷ []) v))
    ∙ drop-append (length k + 1) (k ++ b'=' ∷ []) v (length-append k (b'=' ∷ []))

entry-own : (p : Pair) → p.value ≢ [] → entry p.key (pair_text p) ≡ some p.value
unfolding entry
entry-own p ne = ground (
  arith,
  take-append (length p.key) p.key (b'=' ∷ p.value) refl,
  bytes_eq_refl p.key,
  get_or-append_one p.key b'=' p.value,
  drop-key p.key p.value,
  length-append p.key (b'=' ∷ p.value),
  nonempty-length p.value ne,
)

some-is_some : {A : Type 0} (o : Option A) (a : A) → o ≡ some a → is_some o ≡ true
some-is_some o a e = ap is_some e

entry-other :
    (key : Bytes) (p : Pair)
    → IsKey key
    → IsLine p
    → bytes_eq p.key key ≡ false
    → entry key (pair_text p) ≡ none
entry-other key p hk h differ = elim (Option-cases (entry key (pair_text p))) [
  | inl nothing ↦ nothing
  | inr (v, e) ↦
      let same =
        entry_unique p.key key (pair_text p) h.key_ok hk
          (some-is_some _ p.value (entry-own p h.nonempty)) (some-is_some _ v e) in
      absurd (ground (arith, bytes_eq_refl p.key, rw same at differ))
]

entry-same :
    (key : Bytes) (p : Pair) → IsLine p → p.key ≡ key → entry key (pair_text p) ≡ some p.value
entry-same key p h e = ap (λ k. entry k (pair_text p)) (sym e) ∙ entry-own p h.nonempty

find_value-step :
    (key l : Bytes) (ls : List Bytes) (o : Option Bytes)
    → entry key l ≡ o
    → find_value key (l ∷ ls)
      ≡ elim o as (λ x. Option Bytes) [ none ↦ find_value key ls | some v ↦ some v ]
unfolding find_value
find_value-step key l ls o e =
    ap (λ x. elim x as (λ y. Option Bytes) [ none ↦ find_value key ls | some v ↦ some v ]) e

find_value-render :
    (key : Bytes) (ps : List Pair)
    → IsKey key
    → All IsLine ps
    → find_value key (lines (render ps)) ≡ assoc key ps
find_value-render key [] hk h = unfold lines find_value in refl
find_value-render key (p ∷ ps) hk h =
    rw (lines-append (pair_text p) (render ps) (pair_text-line p h.0))
      (elim (Bool-cases (bytes_eq p.key key)) [
        | inl same ↦
            find_value-step key (pair_text p) (lines (render ps)) (some p.value)
              (entry-same key p h.0 (bytes_eq→≡ p.key key same))
            ∙ rw same refl
        | inr differ ↦
            find_value-step key (pair_text p) (lines (render ps)) none
              (entry-other key p hk h.0 differ)
            ∙ find_value-render key ps hk h.1
            ∙ rw differ refl
      ])

firsts-assoc : (key : Bytes) (ps : List Pair) → All IsLine ps → firsts (assoc key ps) ≡ assoc key ps
unfolding firsts
firsts-assoc key [] h = refl
firsts-assoc key (p ∷ ps) h =
    ground (arith, firsts-assoc key ps h.1, first_line_whole p.value h.0.value_line)

-- If a payload is written as one line `key=value` for each pair, no key has `=` or a newline in it
-- and no value is empty or has an end of line in it, then `kv_copy` finds for a key without `=` the
-- value of the first pair that has it, and fails if there is none or the buffer is too small.
pub kv_copy-render :
    (dst_size : ℕ) (key : Bytes) (ps : List Pair)
    → IsKey key
    → All IsLine ps
    → kv_copy dst_size (render ps) key ≡ fitting dst_size (assoc key ps)
kv_copy-render dst_size key ps hk h =
    kv_copy-eq-lines dst_size (render ps) key
    ∙ ap (λ o. fitting dst_size (firsts o)) (find_value-render key ps hk h)
    ∙ ap (fitting dst_size) (firsts-assoc key ps h)
