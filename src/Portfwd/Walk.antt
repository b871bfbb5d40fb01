-- ===== src/Portfwd/Walk.antt =====
-- The walks over the list of relays in src/portfwd.c that close some of them.
pub mod Steps
pub mod Session
use reactos_luagent.Base.{
  true, [], ℕ, ◌==◌, ◌≡◌, refl, ap, sym, ◌∙◌, if◌then◌else◌, Bool, false, List, ◌∷◌, Option, none,
  some, arith, ==_iff, Bool-cases, inl, inr,
}
use reactos_luagent.Portfwd.{Relay, Conn, Cell, freed, client_cell, relay_cell, conn_cell, World}
use reactos_luagent.Portfwd.Listed.Unlink.{shape}
use reactos_luagent.Portfwd.Destroy.{ConnLive}

-- An open relay whose connection, if any, is allocated.
pub record IsOpen (w : World) (a : ℕ) : Type 0 where
  pub relay : Relay
  pub cell : w.heap a ≡ relay_cell relay
  pub not_closing : relay.closing ≡ false
  pub live : ConnLive w relay.conn

pub relay_of_shape :
    (c : Cell) (x : Relay)
    → shape c ≡ shape (relay_cell x)
    → (p : Option ℕ) × (c ≡ relay_cell (record x { next = p }))
relay_of_shape (relay_cell y) x h = (y.next, ground arith)
relay_of_shape freed x h = absurd (ground arith)
relay_of_shape client_cell x h = absurd (ground arith)
relay_of_shape (conn_cell k) x h = absurd (ground arith)

pub conn_of_shape :
    (c : Cell) (k : Conn)
    → shape c ≡ shape (conn_cell k)
    → (b : Bool) × (c ≡ conn_cell (record k { closing = b }))
conn_of_shape (conn_cell k') k h = (k'.closing, ground arith)
conn_of_shape freed x h = absurd (ground arith)
conn_of_shape client_cell x h = absurd (ground arith)
conn_of_shape (relay_cell k) x h = absurd (ground arith)

-- The cells are the same but for the relay at `r`.
abbrev pub SameBut : ℕ → World → World → Type 0
SameBut r w w' = (b : ℕ) → (b == r) ≡ false → shape (w'.heap b) ≡ shape (w.heap b)

SameBut-ConnLive :
    (r : ℕ) (w w' : World) (x : Relay) (conn : Option ℕ)
    → w.heap r ≡ relay_cell x
    → SameBut r w w'
    → ConnLive w conn
    → ConnLive w' conn
SameBut-ConnLive r w w' x none h same live = tt
SameBut-ConnLive r w w' x (some c) h same (k, e) = elim (Bool-cases (c == r)) [
  | inl here ↦ absurd (ground (arith, (==_iff c r).0 here))
  | inr there ↦
      let (b, e') = conn_of_shape (w'.heap c) k (same c there ∙ ap shape e) in
      (record k { closing = b }, e')
]

SameBut-IsOpen :
    (r : ℕ) (w w' : World) (x : Relay) (a : ℕ)
    → w.heap r ≡ relay_cell x
    → SameBut r w w'
    → (a == r) ≡ false
    → IsOpen w a
    → IsOpen w' a
SameBut-IsOpen r w w' x a h same ne o =
    let (p, e) = relay_of_shape (w'.heap a) o.relay (same a ne ∙ ap shape o.cell) in
    record {
      relay = record o.relay { next = p };
      cell = e;
      not_closing = o.not_closing;
      live = SameBut-ConnLive r w w' x o.relay.conn h same o.live;
    }

abbrev pub filter : (ℕ → Bool) → List ℕ → List ℕ
filter f [] = []
filter f (x ∷ xs) = if f x then x ∷ filter f xs else filter f xs

abbrev pub test_cell : (Relay → Bool) → Cell → Bool
test_cell chosen (relay_cell x) = chosen x
test_cell chosen freed = false
test_cell chosen client_cell = false
test_cell chosen (conn_cell k) = false

-- A test that does not look at the place in the list answers the same for cells of one shape.
pub test_cell-shape :
    (chosen : Relay → Bool)
    → ((x : Relay) (p : Option ℕ) → chosen (record x { next = p }) ≡ chosen x)
    → (c : Cell) → test_cell chosen (shape c) ≡ test_cell chosen c
test_cell-shape chosen stable (relay_cell x) = stable x none
test_cell-shape chosen stable freed = refl
test_cell-shape chosen stable client_cell = refl
test_cell-shape chosen stable (conn_cell k) = refl

pub chosen_at-shape :
    (chosen : Relay → Bool)
    → ((x : Relay) (p : Option ℕ) → chosen (record x { next = p }) ≡ chosen x)
    → (c d : Cell) → shape c ≡ shape d
    → test_cell chosen c ≡ test_cell chosen d
chosen_at-shape chosen stable c d h =
    sym (test_cell-shape chosen stable c)
    ∙ ap (test_cell chosen) h
    ∙ test_cell-shape chosen stable d

-- The test on a relay, by its address.
abbrev pub chosen_at : World → (Relay → Bool) → ℕ → Bool
chosen_at w chosen a = test_cell chosen (w.heap a)
