-- ===== src/Portfwd/Listed.antt =====
-- The list of relays that the pointers of src/portfwd.c make, and the run of `relay_remove` on it.
pub mod Unlink
pub mod Middle
use reactos_luagent.Base.{
  true, [], ℕ, zero, suc, ◌<◌, ◌==◌, ◌≡◌, refl, ap, sym, ◌∙◌, if◌then◌else◌, false, List, ◌∷◌,
  length, Option, none, some, arith, Bool-cases, ==_iff, inl, inr,
}
use reactos_luagent.Portfwd.{Relay, Cell, freed, client_cell, relay_cell, conn_cell, World, ok, put}
use reactos_luagent.Portfwd.Engine.{Link, head_link, next_link, read_link, write_link, relay_remove}

abbrev pub next_of : Cell → Option (Option ℕ)
next_of (relay_cell r) = some r.next
next_of freed = none
next_of client_cell = none
next_of (conn_cell k) = none

-- What stands at a link, if it is one of a relay that is allocated.
abbrev pub links : World → Link → Option (Option ℕ)
links w head_link = some w.relays
links w (next_link a) = next_of (w.heap a)

-- From a link on, the list has the relays at these addresses.
abbrev pub Listed : (Link → Option (Option ℕ)) → Link → List ℕ → Type 0
Listed f it [] = f it ≡ some none
Listed f it (a ∷ xs) = (f it ≡ some (some a)) × Listed f (next_link a) xs

abbrev pub relink : Option ℕ → Cell → Cell
relink p (relay_cell r) = relay_cell (record r { next = p })
relink p freed = freed
relink p client_cell = client_cell
relink p (conn_cell k) = conn_cell k

abbrev pub set_link : Link → Option ℕ → World → World
set_link head_link p w = record w { relays = p }
set_link (next_link a) p w = record w { heap = put w.heap a (relink p (w.heap a)) }

abbrev pub next_at : World → ℕ → Option ℕ
next_at w r = elim (next_of (w.heap r)) [ none ↦ none | some p ↦ p ]

-- What removing a relay from the list does.
abbrev pub unlink : World → Link → ℕ → List ℕ → World
unlink w it r [] = w
unlink w it r (a ∷ xs) = if a == r then set_link it (next_at w r) w else unlink w (next_link a) r xs

pub get_relay_next :
    (w : World) (a : ℕ) (p : Option ℕ)
    → next_of (w.heap a) ≡ some p
    → (x : Relay) × (w.heap a ≡ relay_cell x) × (x.next ≡ p)
get_relay_next w a p h = cell_next (w.heap a) refl h
  where
    cell_next :
        (c : Cell)
        → w.heap a ≡ c
        → next_of c ≡ some p
        → (x : Relay) × (w.heap a ≡ relay_cell x) × (x.next ≡ p)
    cell_next (relay_cell x) e h = (x, e, cc)
    cell_next freed e h = absurd (ground arith)
    cell_next client_cell e h = absurd (ground arith)
    cell_next (conn_cell k) e h = absurd (ground arith)

read_link_lem :
    (it : Link) (w : World) (p : Option ℕ) → links w it ≡ some p → read_link it w ≡ ok p w
read_link_lem head_link w p h = ground arith
read_link_lem (next_link a) w p h = let (x, e, n) = get_relay_next w a p h in ground arith

write_link_lem :
    (it : Link) (w : World) (p q : Option ℕ)
    → links w it ≡ some q
    → write_link it p w ≡ ok tt (set_link it p w)
write_link_lem head_link w p q h = refl
write_link_lem (next_link a) w p q h = let (x, e, n) = get_relay_next w a q h in ground arith

pub Listed-some :
    (f : Link → Option (Option ℕ)) (it : Link) (xs : List ℕ)
    → Listed f it xs
    → (p : Option ℕ) × (f it ≡ some p)
Listed-some f it [] h = (none, h)
Listed-some f it (a ∷ xs) h = (some a, h.0)

relay_remove_here :
    (fuel r : ℕ) (it : Link) (w : World) (p : Option ℕ)
    → links w it ≡ some (some r)
    → next_of (w.heap r) ≡ some p
    → relay_remove (suc fuel) it r w ≡ ok tt (set_link it (next_at w r) w)
unfolding relay_remove
relay_remove_here fuel r it w p h hp =
    let (x, e, n) = get_relay_next w r p hp in
    ground (arith, read_link_lem it w (some r) h, write_link_lem it w x.next (some r) h)

relay_remove_later :
    (fuel r a : ℕ) (it : Link) (w : World)
    → links w it ≡ some (some a)
    → (a == r) ≡ false
    → relay_remove (suc fuel) it r w ≡ relay_remove fuel (next_link a) r w
unfolding relay_remove
relay_remove_later fuel r a it w h other = ground (arith, read_link_lem it w (some a) h)

pub relay_remove_unlinks :
    (fuel r : ℕ) (it : Link) (xs : List ℕ) (w : World)
    → length xs < fuel
    → Listed (links w) it xs
    → relay_remove fuel it r w ≡ ok tt (unlink w it r xs)
unfolding relay_remove
relay_remove_unlinks zero r it xs w room h = absurd (omega arith)
relay_remove_unlinks (suc fuel) r it [] w room h = ground (arith, read_link_lem it w none h)
relay_remove_unlinks (suc fuel) r it (a ∷ xs) w room h = elim (Bool-cases (a == r)) [
  | inl here ↦
      let e = (==_iff a r).0 here in
      let (p, n) = Listed-some (links w) (next_link a) xs h.1 in
      relay_remove_here fuel r it w p (cc) (cc)
      ∙ ap (λ b. ok tt (if b then set_link it (next_at w r) w else unlink w (next_link a) r xs))
          (sym here)
  | inr later ↦
      relay_remove_later fuel r a it w h.0 later
      ∙ relay_remove_unlinks fuel r (next_link a) xs w (omega arith) h.1
      ∙ ap (λ b. ok tt (if b then set_link it (next_at w r) w else unlink w (next_link a) r xs))
          (sym later)
]
