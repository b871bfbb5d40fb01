-- ===== src/Libc/Decimal.antt =====
-- `strtoull` reads back what `%llu` prints.
use reactos_luagent.Base.{
  ℕ, zero, suc, ◌+◌, ◌-◌, ◌*◌, ◌/◌, ◌%◌, ◌^◌, ◌<◌, ◌≤◌, ◌≡◌, refl, true, [], ◌∷◌, Bytes, All, some,
  arith, ◌∙◌, length, ◌≢◌,
}
use native.Mathlib.Nat.{pow-suc}
use reactos_luagent.Libc.{
  read_digits, unsigned_value, strtoul, digits_loop, decimal, is_digit, ullong_max,
}

abbrev pub IsDigit : ℕ → Type 0
IsDigit c = is_digit c ≡ true

read_digits-step :
    (acc c : ℕ) (cs : Bytes)
    → is_digit c ≡ true
    → read_digits acc (c ∷ cs) ≡ read_digits (acc * 10 + (c - 48)) cs
unfolding read_digits
read_digits-step acc c cs h = rw h

-- What `digits_loop` puts before `out` is read as `n`.
read_digits-digits_loop :
    (k n : ℕ) (out : Bytes)
    → n < 10 ^ suc k
    → read_digits 0 (digits_loop (suc k) n out) ≡ read_digits n out
unfolding digits_loop
read_digits-digits_loop zero n out h = ground (arith, pow-suc 10 0, read_digits-step 0 (48 + n) out)
read_digits-digits_loop (suc k) n out h = ground (
  arith,
  pow-suc 10 (suc k),
  read_digits-step 0 (48 + n) out,
  read_digits-digits_loop k (n / 10) ((48 + n % 10) ∷ out),
  read_digits-step (n / 10) (48 + n % 10) out,
)

digits_loop-IsDigit : (k n : ℕ) (out : Bytes) → All IsDigit out → All IsDigit (digits_loop k n out)
unfolding digits_loop
digits_loop-IsDigit zero n out h = h
digits_loop-IsDigit (suc k) n out h =
    ground (arith, digits_loop-IsDigit k (n / 10) ((48 + n % 10) ∷ out))

length-digits_loop : (k n : ℕ) (out : Bytes) → length (digits_loop k n out) ≤ k + length out
unfolding digits_loop
length-digits_loop zero n out = omega arith
length-digits_loop (suc k) n out =
    ground (arith, length-digits_loop k (n / 10) ((48 + n % 10) ∷ out))

digits_loop-ne-nil : (k n : ℕ) (out : Bytes) → out ≢ [] → digits_loop k n out ≢ []
unfolding digits_loop
digits_loop-ne-nil zero n out h = h
digits_loop-ne-nil (suc k) n out h =
    ground (arith, digits_loop-ne-nil k (n / 10) ((48 + n % 10) ∷ out))

digits_loop-suc-ne-nil : (k n : ℕ) → digits_loop (suc k) n [] ≢ []
unfolding digits_loop
digits_loop-suc-ne-nil k n =
    ground (arith, digits_loop-ne-nil k (n / 10) ((48 + n % 10) ∷ []) (λ e. cc))

-- Text of digits goes to the conversion as it is.
strtoul-digits :
    (max : ℕ) (s : Bytes) (v : ℕ)
    → All IsDigit s
    → s ≢ []
    → read_digits 0 s ≡ (v, [])
    → v ≤ max
    → strtoul max s ≡ some (v, [])
unfolding strtoul unsigned_value
strtoul-digits max [] v d ne r le = absurd (ne refl)
strtoul-digits max (c ∷ cs) v d ne r le = ground arith

pub decimal-IsDigit : (n : ℕ) → All IsDigit (decimal n)
unfolding decimal
decimal-IsDigit n = digits_loop-IsDigit 20 n [] tt

-- `strtoull` reads back what `%llu` prints, and takes all of it.
pub strtoul-decimal : (n : ℕ) → n ≤ ullong_max → strtoul ullong_max (decimal n) ≡ some (n, [])
unfolding decimal
strtoul-decimal n h =
    strtoul-digits ullong_max (digits_loop 20 n []) n (digits_loop-IsDigit 20 n [] tt)
      (digits_loop-suc-ne-nil 19 n)
      (read_digits-digits_loop 19 n [] (omega arith) ∙ unfold read_digits in refl) h

pub decimal_not_empty : (n : ℕ) → 0 < length (decimal n)
unfolding decimal
decimal_not_empty n = not_empty (digits_loop 20 n []) (digits_loop-suc-ne-nil 19 n)
  where
    not_empty : (xs : Bytes) → xs ≢ [] → 0 < length xs
    not_empty [] h = absurd (h refl)
    not_empty (x ∷ xs) h = omega arith
