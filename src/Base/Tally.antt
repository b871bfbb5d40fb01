-- ===== src/Base/Tally.antt =====
-- How many of the first numbers pass a test.
use reactos_luagent.Base.{
  ℕ, zero, suc, Bool, true, false, ◌≡◌, ◌≤◌, ◌<◌, ◌⊎◌, inl, inr, ◌+◌, if◌then◌else◌, arith,
  Bool-cases,
}

abbrev pub tally : (ℕ → Bool) → ℕ → ℕ
tally f zero = 0
tally f (suc n) = (if f n then 1 else 0) + tally f n

pub tally-le_add :
    (f g h : ℕ → Bool)
    → ((i : ℕ) → h i ≡ true → (f i ≡ true) ⊎ (g i ≡ true))
    → (n : ℕ) → tally h n ≤ tally f n + tally g n
tally-le_add f g h split zero = omega arith
tally-le_add f g h split (suc n) = ground (arith, tally-le_add f g h split n, split n)

pub tally-zero : (f : ℕ → Bool) (n : ℕ) → ((i : ℕ) → i < n → f i ≡ false) → tally f n ≡ 0
tally-zero f zero none_passes = omega arith
tally-zero f (suc n) none_passes =
    ground (arith, none_passes n, tally-zero f n (λ i h. none_passes i (omega arith)))

pub tally-all : (f : ℕ → Bool) (n : ℕ) → ((i : ℕ) → i < n → f i ≡ true) → tally f n ≡ n
tally-all f zero all_pass = omega arith
tally-all f (suc n) all_pass =
    ground (arith, all_pass n, tally-all f n (λ i h. all_pass i (omega arith)))

pub tally-le_one :
    (f : ℕ → Bool) (n : ℕ)
    → ((i j : ℕ) → i < n → j < n → f i ≡ true → f j ≡ true → i ≡ j)
    → tally f n ≤ 1
tally-le_one f zero unique = omega arith
tally-le_one f (suc n) unique = elim (Bool-cases (f n)) [
  | inl on ↦ ground (
    arith,
    tally-zero f n (λ i h. elim (Bool-cases (f i)) [
      | inl both ↦ absurd (omega (arith, unique i n (omega arith) (omega arith) both on))
      | inr off ↦ off
    ]),
  )
  | inr off ↦ ground (arith, tally-le_one f n (λ i j hi hj. unique i j (omega arith) (omega arith)))
]
