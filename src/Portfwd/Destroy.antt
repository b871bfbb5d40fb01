-- ===== src/Portfwd/Destroy.antt =====
-- `relay_destroy` on a relay of the list.
use reactos_luagent.Base.{
  Bool, Bool-cases, inl, inr, ==_iff, All, ℕ, ◌<◌, ◌==◌, ◌≡◌, refl, ap, ◌∙◌, if◌then◌else◌, true,
  false, List, [], ◌∷◌, length, Option, none, some, arith,
}
use reactos_luagent.Portfwd.{
  Relay, Conn, relay_cell, conn_cell, World, RelayCall, close, listener, ok, put,
}
use reactos_luagent.Portfwd.Forward.Close.{close_handles, after_close, relay_close_lem, if-run}
use reactos_luagent.Portfwd.Engine.{Link, head_link, next_link, relay_detach, relay_destroy}
use reactos_luagent.Portfwd.Listed.{Listed, links, unlink, relay_remove_unlinks}
use reactos_luagent.Portfwd.Listed.Unlink.{
  Once, remove, head-Outside, Listed-agree, unlink-Listed, shape, unlink-shape, unlink-conn, others,
  unlink-others,
}

-- The connection of a relay, if it has one, is allocated.
abbrev pub ConnLive : World → Option ℕ → Type 0
ConnLive w none = Unit
ConnLive w (some c) = (k : Conn) × (w.heap c ≡ conn_cell k)

-- The relay after it was detached: closing and without a connection.
abbrev pub detached : Relay → Relay
detached x = record x { closing = true; conn = none }

-- The connection's cell and the calls after `relay_close`.
abbrev pub after_detach : (w : World) → ℕ → Relay → (conn : Option ℕ) → ConnLive w conn → World
after_detach w r x none live = record w {
  heap = put w.heap r (relay_cell (record x { closing = true }));
}
after_detach w r x (some c) (k, e) =
    let w' =
      after_close c k
        (record w { heap = put w.heap r (relay_cell (record x { closing = true })) }) in
    record w' { heap = put w'.heap r (relay_cell (detached x)) }

pub relay_detach_lem :
    (w : World) (r : ℕ) (x : Relay) (conn : Option ℕ) (live : ConnLive w conn)
    → w.heap r ≡ relay_cell x
    → relay_detach r conn w ≡ ok tt (after_detach w r x conn live)
unfolding relay_detach
relay_detach_lem w r x none live h = grind arith
relay_detach_lem w r x (some c) (k, e) h = grind (arith, relay_close_lem, if-run)

after_detach-links :
    (w : World) (r : ℕ) (x : Relay) (conn : Option ℕ) (live : ConnLive w conn)
    → w.heap r ≡ relay_cell x
    → (l : Link) → links (after_detach w r x conn live) l ≡ links w l
after_detach-links w r x none live h head_link = refl
after_detach-links w r x none live h (next_link b) = ground arith
after_detach-links w r x (some c) (k, e) h head_link = ground arith
after_detach-links w r x (some c) (k, e) h (next_link b) = ground arith

after_detach-shape :
    (w : World) (r : ℕ) (x : Relay) (conn : Option ℕ) (live : ConnLive w conn) (b : ℕ)
    → (b == r) ≡ false
    → shape ((after_detach w r x conn live).heap b) ≡ shape (w.heap b)
after_detach-shape w r x none live b h = ground arith
after_detach-shape w r x (some c) (k, e) b h = ground arith

after_detach-itself :
    (w : World) (r : ℕ) (x : Relay) (conn : Option ℕ) (live : ConnLive w conn)
    → conn ≡ x.conn
    → shape ((after_detach w r x conn live).heap r) ≡ shape (relay_cell (detached x))
after_detach-itself w r x none live h = ground arith
after_detach-itself w r x (some c) (k, e) h = ground arith

abbrev pub is_conn : Option ℕ → ℕ → Bool
is_conn none b = false
is_conn (some c) b = b == c

after_detach-conn :
    (w : World) (r : ℕ) (x : Relay) (conn : Option ℕ) (live : ConnLive w conn) (b : ℕ) (k : Conn)
    → w.heap r ≡ relay_cell x
    → is_conn conn b ≡ false
    → w.heap b ≡ conn_cell k
    → (after_detach w r x conn live).heap b ≡ conn_cell k
after_detach-conn w r x conn live b k h other e = elim (Bool-cases (b == r)) [
  | inl here ↦ absurd (ground (arith, h, e, (==_iff b r).0 here))
  | inr there ↦ elsewhere there conn live other
]
  where
    elsewhere :
        (b == r) ≡ false
        → (conn : Option ℕ) (live : ConnLive w conn) → is_conn conn b ≡ false
        → (after_detach w r x conn live).heap b ≡ conn_cell k
    elsewhere there none live other = ground (arith, there, e)
    elsewhere there (some c) (k', e') other = ground (arith, there, other, e)

-- The calls that close the connection.
abbrev pub conn_calls : (w : World) (conn : Option ℕ) → ConnLive w conn → List RelayCall
conn_calls w none live = w.calls
conn_calls w (some c) (k, e) = if k.closing then w.calls else close_handles c k w.calls

after_detach-others :
    (w : World) (r : ℕ) (x : Relay) (conn : Option ℕ) (live : ConnLive w conn)
    → others (after_detach w r x conn live) ≡ record (others w) { calls = conn_calls w conn live }
after_detach-others w r x none live = refl
after_detach-others w r x (some c) (k, e) = ground arith

abbrev pub after_destroy : (w : World) → ℕ → (x : Relay) → ConnLive w x.conn → List ℕ → World
after_destroy w r x live xs =
    let w' = unlink (after_detach w r x x.conn live) head_link r xs in
    record w' { calls = close (listener r) ∷ w'.calls }

after_detach-Listed :
    (w : World) (r : ℕ) (x : Relay) (live : ConnLive w x.conn) (xs : List ℕ)
    → w.heap r ≡ relay_cell x
    → Listed (links w) head_link xs
    → Listed (links (after_detach w r x x.conn live)) head_link xs
after_detach-Listed w r x live xs h listed =
    Listed-agree (links w) (links (after_detach w r x x.conn live)) head_link head_link xs
      (after_detach-links w r x x.conn live h head_link) (everywhere xs) listed
  where
    everywhere :
        (ys : List ℕ)
        → All (λ b. links (after_detach w r x x.conn live) (next_link b) ≡ links w (next_link b)) ys
    everywhere [] = tt
    everywhere (y ∷ ys) = (after_detach-links w r x x.conn live h (next_link y), everywhere ys)

pub relay_destroy_lem :
    (bound : ℕ) (w : World) (r : ℕ) (x : Relay) (live : ConnLive w x.conn) (xs : List ℕ)
    → w.heap r ≡ relay_cell x
    → x.closing ≡ false
    → Listed (links w) head_link xs
    → length xs < bound
    → relay_destroy bound r w ≡ ok tt (after_destroy w r x live xs)
unfolding relay_destroy
relay_destroy_lem bound w r x live xs h is_open listed room = grind (
  arith,
  if-run,
  relay_detach_lem w r x x.conn live h,
  relay_remove_unlinks bound r head_link xs (after_detach w r x x.conn live) room
      (after_detach-Listed w r x live xs h listed),
)

-- What `relay_destroy` leaves of a world `w` in which `r` is the relay `x` of the list `xs`.
pub record IsDestroyed (w : World) (r : ℕ) (x : Relay) (live : ConnLive w x.conn) (xs : List ℕ)
    (w' : World) : Type 0 where
  pub listed : Listed (links w') head_link (remove r xs)
  pub itself : shape (w'.heap r) ≡ shape (relay_cell (detached x))
  pub elsewhere : (b : ℕ) → (b == r) ≡ false → shape (w'.heap b) ≡ shape (w.heap b)
  pub connections :
      (b : ℕ) (k : Conn)
      → is_conn x.conn b ≡ false
      → w.heap b ≡ conn_cell k
      → w'.heap b ≡ conn_cell k
  pub calls :
      others w' ≡ record (others w) { calls = close (listener r) ∷ conn_calls w x.conn live }

pub after_destroy-IsDestroyed :
    (w : World) (r : ℕ) (x : Relay) (live : ConnLive w x.conn) (xs : List ℕ)
    → w.heap r ≡ relay_cell x
    → Listed (links w) head_link xs
    → Once xs
    → IsDestroyed w r x live xs (after_destroy w r x live xs)
after_destroy-IsDestroyed w r x live xs h listed once =
    let w1 = after_detach w r x x.conn live in
    record {
      listed =
          Listed-agree (links (unlink w1 head_link r xs)) (links (after_destroy w r x live xs))
            head_link head_link (remove r xs) refl (same (remove r xs))
            (unlink-Listed r head_link xs w1 (after_detach-Listed w r x live xs h listed) once
              (head-Outside xs));
      itself = unlink-shape head_link r xs w1 r ∙ after_detach-itself w r x x.conn live refl;
      elsewhere =
          λ b ne. unlink-shape head_link r xs w1 b ∙ after_detach-shape w r x x.conn live b ne;
      connections = λ b k other e.
          unlink-conn head_link r xs w1 b k (after_detach-conn w r x x.conn live b k h other e);
      calls =
          ap {A = World} (λ v. record v { calls = close (listener r) ∷ v.calls })
            (unlink-others head_link r xs w1 ∙ after_detach-others w r x x.conn live);
    }
  where
    same :
        (ys : List ℕ)
        → All
            (λ b.
              links (after_destroy w r x live xs) (next_link b)
              ≡ links (unlink (after_detach w r x x.conn live) head_link r xs) (next_link b))
            ys
    same [] = tt
    same (y ∷ ys) = (refl, same ys)
