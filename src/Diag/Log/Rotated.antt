-- ===== src/Diag/Log/Rotated.antt =====
-- What a rotation of the log in src/diag.c does to the four files.
use reactos_luagent.Base.{
  ℕ, zero, suc, ◌<◌, ◌≤◌, ◌≡◌, refl, sym, ap, ◌∙◌, true, false, [], ◌∷◌, ◌++◌, Bytes, length, take,
  Option, none, some, arith, bytes_eq, bytes_eq_refl, append-nil, codes, length-append, ◌+◌,
}
use reactos_luagent.Libc.{decimal, digits_loop}
use reactos_luagent.Diag.Log.{Disk, Files, put_file, rename, rotate_loop, rotated_name, rotate_keep}

-- A file that exists can be renamed, over another one too.
pub record RenamesAll (files : Files) : Type 0 where
  pub renames : (d : Disk) (src dst : Bytes) → files.rename_ok d src dst ≡ true

-- Names that are longer by something are other names.
bytes_eq-append : (p a b : Bytes) → bytes_eq (p ++ a) (p ++ b) ≡ bytes_eq a b
bytes_eq-append [] a b = refl
bytes_eq-append (x ∷ p) a b = ground (arith, bytes_eq-append p a b)

take_short : (n : ℕ) (xs : Bytes) → length xs ≤ n → take n xs ≡ xs
take_short zero [] h = refl
take_short zero (x ∷ xs) h = absurd (omega arith)
take_short (suc n) [] h = refl
take_short (suc n) (x ∷ xs) h = ap (λ l. x ∷ l) (take_short n xs (omega arith))

-- The end of a rotated name, which for the log itself is empty.
abbrev pub ending : ℕ → Bytes
ending zero = []
ending (suc i) = codes "." ++ decimal (suc i)

name-ending :
    (path : Bytes) (i : ℕ)
    → length path + length (ending i) < 640
    → rotated_name path i ≡ path ++ ending i
unfolding rotated_name
name-ending path zero h = take_short 639 path (omega arith) ∙ sym (append-nil path)
name-ending path (suc i) h =
    take_short 639 (path ++ ending (suc i)) (omega (arith, length-append path (ending (suc i))))

pub name_zero : (path : Bytes) → length path < 512 → rotated_name path 0 ≡ path
unfolding rotated_name
name_zero path short = take_short 639 path (omega arith)

pub names_differ :
    (path : Bytes) (i j : ℕ)
    → length path < 512
    → length (ending i) < 8
    → length (ending j) < 8
    → bytes_eq (ending i) (ending j) ≡ false
    → bytes_eq (rotated_name path i) (rotated_name path j) ≡ false
names_differ path i j short hi hj differ =
    rw (name-ending path i (omega arith), name-ending path j (omega arith), bytes_eq-append) differ

-- The log is empty then, and the others have moved by one.
pub record Rotated (path : Bytes) (d d' : Disk) : Type 0 where
  pub log : d' path ≡ none
  pub first : d' (rotated_name path 1) ≡ d path
  pub second : d' (rotated_name path 2) ≡ d (rotated_name path 1)
  pub third :
      d' (rotated_name path 3)
      ≡ (elim (d (rotated_name path 2)) [ none ↦ d (rotated_name path 3) | some c ↦ some c ])

same_option : (a b : Option Bytes) → b ≡ none → (elim a [ none ↦ b | some c ↦ some c ]) ≡ a
same_option none b e = e
same_option (some c) b e = refl

module _ {files : Files} (all : RenamesAll files) where
  rename_source : (s t : Bytes) (d : Disk) → rename files s t d s ≡ none
  unfolding rename put_file
  rename_source s t d = ground (arith, all.renames d s t, bytes_eq_refl s)

  rename_target :
      (s t : Bytes) (d : Disk)
      → bytes_eq t s ≡ false
      → rename files s t d t ≡ (elim (d s) [ none ↦ d t | some c ↦ some c ])
  unfolding rename put_file
  rename_target s t d differ = ground (arith, all.renames d s t, bytes_eq_refl t)

  rename_other :
      (s t n : Bytes) (d : Disk)
      → bytes_eq n s ≡ false
      → bytes_eq n t ≡ false
      → rename files s t d n ≡ d n
  unfolding rename put_file
  rename_other s t n d hs ht = ground (arith, all.renames d s t)

  pub rotate-Rotated :
      (path : Bytes) (d : Disk)
      → length path < 512
      → Rotated path d (rotate_loop files rotate_keep path d)
  unfolding rotate_loop decimal digits_loop
  rotate-Rotated path d short =
      let name = rotated_name path in
      let zeroth = name_zero path short in
      let d3 = rename files (name 2) (name 3) d in
      let d2 = rename files (name 1) (name 2) d3 in
      let differ = λ (i j : ℕ). names_differ path i j short in
      let d20 = differ 2 0 (omega arith) (omega arith) refl in
      let d21 = differ 2 1 (omega arith) (omega arith) refl in
      let d30 = differ 3 0 (omega arith) (omega arith) refl in
      let d31 = differ 3 1 (omega arith) (omega arith) refl in
      let d32 = differ 3 2 (omega arith) (omega arith) refl in
      let d01 = differ 0 1 (omega arith) (omega arith) refl in
      let d02 = differ 0 2 (omega arith) (omega arith) refl in
      let d03 = differ 0 3 (omega arith) (omega arith) refl in
      let d10 = differ 1 0 (omega arith) (omega arith) refl in
      let d12 = differ 1 2 (omega arith) (omega arith) refl in
      let d13 = differ 1 3 (omega arith) (omega arith) refl in
      record {
        log =
            ap (rotate_loop files rotate_keep path d) (sym zeroth)
            ∙ rename_source (name 0) (name 1) d2;
        first =
            rename_target (name 0) (name 1) d2 d10
            ∙ same_option (d2 (name 0)) (d2 (name 1)) (rename_source (name 1) (name 2) d3)
            ∙ rename_other (name 1) (name 2) (name 0) d3 d01 d02
            ∙ rename_other (name 2) (name 3) (name 0) d d02 d03
            ∙ ap d zeroth;
        second =
            rename_other (name 0) (name 1) (name 2) d2 d20 d21
            ∙ rename_target (name 1) (name 2) d3 d21
            ∙ same_option (d3 (name 1)) (d3 (name 2)) (rename_source (name 2) (name 3) d)
            ∙ rename_other (name 2) (name 3) (name 1) d d12 d13;
        third =
            rename_other (name 0) (name 1) (name 3) d2 d30 d31
            ∙ rename_other (name 1) (name 2) (name 3) d3 d31 d32
            ∙ rename_target (name 2) (name 3) d d32;
      }
