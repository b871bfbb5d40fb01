-- ===== src/Portfwd/Listed/Middle.antt =====
-- Lists of distinct relays with one in the middle.
use reactos_luagent.Base.{ℕ, ◌==◌, ◌≡◌, false, List, [], ◌∷◌, ◌++◌, arith}
use reactos_luagent.Portfwd.Listed.Unlink.{Once, Without, remove}

pub Without-middle :
    (a r : ℕ) (xs ys : List ℕ)
    → Without r (xs ++ a ∷ ys)
    → ((a == r) ≡ false) × Without r (xs ++ ys)
Without-middle a r [] ys h = h
Without-middle a r (x ∷ xs) ys h = let (e, hs) = Without-middle a r xs ys h.1 in (e, (h.0, hs))

pub Once-middle : (a : ℕ) (xs ys : List ℕ) → Once (xs ++ a ∷ ys) → Without a ys × Once (xs ++ ys)
Once-middle a [] ys h = h
Once-middle a (x ∷ xs) ys h =
    let (e, hs) = Once-middle a xs ys h.1 in (e, ((Without-middle a x xs ys h.0).1, hs))

pub remove-middle :
    (a : ℕ) (xs ys : List ℕ) → Once (xs ++ a ∷ ys) → remove a (xs ++ a ∷ ys) ≡ xs ++ ys
remove-middle a [] ys once = ground arith
remove-middle a (x ∷ xs) ys once =
    ground (arith, remove-middle a xs ys once.1, (Without-middle a x xs ys once.0).0)
