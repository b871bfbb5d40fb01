-- ===== src/Portfwd/Listed/Unlink.antt =====
-- The list after `relay_remove`.
use reactos_luagent.Base.{
  ℕ, ◌==◌, ◌≡◌, refl, ◌∙◌, if◌then◌else◌, Bool, true, false, List, [], ◌∷◌, All, Option, none, some,
  arith, ==_iff, Bool-cases, inl, inr,
}
use reactos_luagent.Portfwd.{World, Conn, Cell, relay_cell, conn_cell, client_cell, freed}
use reactos_luagent.Portfwd.Engine.{Link, head_link, next_link}
use reactos_luagent.Portfwd.Listed.{
  Listed, links, set_link, next_at, unlink, relink, get_relay_next, Listed-some,
}

-- `r` is not in the list.
abbrev pub Without : ℕ → List ℕ → Type 0
Without r = All (λ b. (b == r) ≡ false)

-- No relay is in the list twice.
abbrev pub Once : List ℕ → Type 0
Once [] = Unit
Once (a ∷ xs) = Without a xs × Once xs

abbrev pub remove : ℕ → List ℕ → List ℕ
remove r [] = []
remove r (a ∷ xs) = if a == r then xs else a ∷ remove r xs

abbrev pub same_link : Link → Link → Bool
same_link head_link head_link = true
same_link head_link (next_link b) = false
same_link (next_link a) head_link = false
same_link (next_link a) (next_link b) = a == b

-- The link is none of those that the relays of the list hold.
abbrev pub Outside : Link → List ℕ → Type 0
Outside it = All (λ b. same_link (next_link b) it ≡ false)

pub head-Outside : (xs : List ℕ) → Outside head_link xs
head-Outside [] = tt
head-Outside (a ∷ xs) = (refl, head-Outside xs)

same_link_sym : (l m : Link) → same_link l m ≡ false → same_link m l ≡ false
same_link_sym head_link head_link h = h
same_link_sym head_link (next_link b) h = refl
same_link_sym (next_link a) head_link h = refl
same_link_sym (next_link a) (next_link b) h = ground arith

Outside-sym :
    (it : Link) (xs : List ℕ) → Outside it xs → All (λ b. same_link it (next_link b) ≡ false) xs
Outside-sym it [] h = tt
Outside-sym it (a ∷ xs) h = (same_link_sym (next_link a) it h.0, Outside-sym it xs h.1)

links-set_link_at :
    (it : Link) (p q : Option ℕ) (w : World)
    → links w it ≡ some q
    → links (set_link it p w) it ≡ some p
links-set_link_at head_link p q w h = refl
links-set_link_at (next_link a) p q w h = let (x, e, n) = get_relay_next w a q h in ground arith

links-set_link_other :
    (it l : Link) (p : Option ℕ) (w : World)
    → same_link l it ≡ false
    → links (set_link it p w) l ≡ links w l
links-set_link_other head_link head_link p w h = absurd (ground arith)
links-set_link_other head_link (next_link b) p w h = refl
links-set_link_other (next_link a) head_link p w h = refl
links-set_link_other (next_link a) (next_link b) p w h = ground arith

links-unlink_other :
    (it l : Link) (r : ℕ) (xs : List ℕ) (w : World)
    → same_link l it ≡ false
    → All (λ b. same_link l (next_link b) ≡ false) xs
    → links (unlink w it r xs) l ≡ links w l
links-unlink_other it l r [] w h hs = refl
links-unlink_other it l r (a ∷ xs) w h hs = ground (
  arith,
  links-set_link_other it l (next_at w r) w h,
  links-unlink_other (next_link a) l r xs w hs.0 hs.1,
)

-- Two views of the links agree from a link on.
pub Listed-agree :
    (f g : Link → Option (Option ℕ)) (it l : Link) (xs : List ℕ)
    → g l ≡ f it
    → All (λ b. g (next_link b) ≡ f (next_link b)) xs
    → Listed f it xs
    → Listed g l xs
Listed-agree f g it l [] e es h = e ∙ h
Listed-agree f g it l (a ∷ xs) e es h =
    (e ∙ h.0, Listed-agree f g (next_link a) (next_link a) xs es.0 es.1 h.1)

set_link-agree :
    (it : Link) (p : Option ℕ) (w : World) (xs : List ℕ)
    → Outside it xs
    → All (λ b. links (set_link it p w) (next_link b) ≡ links w (next_link b)) xs
set_link-agree it p w [] h = tt
set_link-agree it p w (a ∷ xs) h =
    (links-set_link_other it (next_link a) p w h.0, set_link-agree it p w xs h.1)

unlink_here :
    (r a : ℕ) (it : Link) (xs : List ℕ) (w : World)
    → a ≡ r
    → Listed (links w) it (a ∷ xs)
    → Outside it (a ∷ xs)
    → Listed (links (set_link it (next_at w r) w)) it xs
unlink_here r a it xs w e h out =
    let (p, n) = Listed-some (links w) (next_link a) xs h.1 in
    Listed-agree (links w) (links (set_link it (next_at w r) w)) (next_link a) it xs
      (links-set_link_at it (next_at w r) (some a) w h.0 ∙ ground arith)
      (set_link-agree it (next_at w r) w xs out.1) h.1

-- The list that `unlink` leaves has all but `r`.
pub unlink-Listed :
    (r : ℕ) (it : Link) (xs : List ℕ) (w : World)
    → Listed (links w) it xs
    → Once xs
    → Outside it xs
    → Listed (links (unlink w it r xs)) it (remove r xs)
unlink-Listed r it [] w h once out = h
unlink-Listed r it (a ∷ xs) w h once out =
    by_test (a == r) refl (unlink-Listed r (next_link a) xs w h.1 once.1 once.0)
  where
    by_test :
        (b : Bool)
        → (a == r) ≡ b
        → Listed (links (unlink w (next_link a) r xs)) (next_link a) (remove r xs)
        → Listed
            (links (if b then set_link it (next_at w r) w else unlink w (next_link a) r xs))
            it
            (if b then xs else a ∷ remove r xs)
    by_test true e rest = unlink_here r a it xs w ((==_iff a r).0 e) h out
    by_test false e rest = (
      links-unlink_other (next_link a) it r xs w (same_link_sym (next_link a) it out.0)
            (Outside-sym it xs out.1)
          ∙ h.0,
      rest,
    )

-- A cell but for its place in the list and for whether its connection is closing.
abbrev pub shape : Cell → Cell
shape (relay_cell r) = relay_cell (record r { next = none })
shape (conn_cell k) = conn_cell (record k { closing = false })
shape freed = freed
shape client_cell = client_cell

shape-relink : (p : Option ℕ) (c : Cell) → shape (relink p c) ≡ shape c
shape-relink p (relay_cell r) = refl
shape-relink p (conn_cell k) = refl
shape-relink p freed = refl
shape-relink p client_cell = refl

set_link-shape :
    (it : Link) (p : Option ℕ) (w : World) (b : ℕ)
    → shape ((set_link it p w).heap b) ≡ shape (w.heap b)
set_link-shape head_link p w b = refl
set_link-shape (next_link a) p w b = ground (arith, shape-relink p (w.heap b))

pub unlink-shape :
    (it : Link) (r : ℕ) (xs : List ℕ) (w : World) (b : ℕ)
    → shape ((unlink w it r xs).heap b) ≡ shape (w.heap b)
unlink-shape it r [] w b = refl
unlink-shape it r (a ∷ xs) w b =
    ground (arith, set_link-shape it (next_at w r) w b, unlink-shape (next_link a) r xs w b)

-- Links are in relays only.
set_link-conn :
    (it : Link) (p : Option ℕ) (w : World) (b : ℕ) (k : Conn)
    → w.heap b ≡ conn_cell k
    → (set_link it p w).heap b ≡ conn_cell k
set_link-conn head_link p w b k h = h
set_link-conn (next_link a) p w b k h = elim (Bool-cases (b == a)) [
  | inl here ↦ ground (arith, h, ==_iff b a)
  | inr there ↦ ground (arith, h)
]

pub unlink-conn :
    (it : Link) (r : ℕ) (xs : List ℕ) (w : World) (b : ℕ) (k : Conn)
    → w.heap b ≡ conn_cell k
    → (unlink w it r xs).heap b ≡ conn_cell k
unlink-conn it r [] w b k h = h
unlink-conn it r (a ∷ xs) w b k h =
    ground (arith, set_link-conn it (next_at w r) w b k h, unlink-conn (next_link a) r xs w b k h)

-- A world but for the relays and their list.
abbrev pub others : World → World
others w = record w { heap = λ b. freed; relays = none }

set_link-others : (it : Link) (p : Option ℕ) (w : World) → others (set_link it p w) ≡ others w
set_link-others head_link p w = refl
set_link-others (next_link a) p w = refl

pub unlink-others :
    (it : Link) (r : ℕ) (xs : List ℕ) (w : World) → others (unlink w it r xs) ≡ others w
unlink-others it r [] w = refl
unlink-others it r (a ∷ xs) w =
    ground (arith, set_link-others it (next_at w r) w, unlink-others (next_link a) r xs w)
