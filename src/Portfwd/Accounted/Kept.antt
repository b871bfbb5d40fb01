-- ===== src/Portfwd/Accounted/Kept.antt =====
-- The primitive commands keep the account.
use reactos_luagent.Base.{
  ◌⊎◌, ℕ, ◌+◌, ◌≤◌, ◌==◌, ◌≡◌, refl, ap, sym, subst, ◌∙◌, if◌then◌else◌, Bool, true, false, List,
  ◌∷◌, none, some, arith, ==_iff, inl, inr,
}
use reactos_luagent.Diag.{Counter}
use reactos_luagent.Portfwd.{
  Relay, Conn, Cell, freed, client_cell, relay_cell, conn_cell, WriteReq, Direction, to_outbound,
  to_inbound, World, RelayCall, malloc, ◌>>◌, Net, put, pure, set_conn, set_relay, store, free,
  free_cell, call, call_, allocate, calloc, modify, diag_count, as_relay, as_conn, and_then,
}
use reactos_luagent.Portfwd.Forward.{pending, portfwd_max_pending_bytes}
use reactos_luagent.Portfwd.Keeps.{Keeps, Leaves}
use reactos_luagent.Portfwd.Accounted.{IsAccounted, Accounted, outstanding}

pub call-Accounted : (net : Net) (e : RelayCall) → Keeps Accounted (call net e)
call-Accounted net e = record { at = λ w h. h }

pub call_-Accounted : (e : RelayCall) → Keeps Accounted (call_ e)
call_-Accounted e = record { at = λ w h. h }

pub allocate-Accounted : (net : Net) (e : RelayCall) → Keeps Accounted (allocate net e)
allocate-Accounted net e = record { at = λ w h. h }

pub diag_count-Accounted : (c : Counter) (owner : ℕ) → Keeps Accounted (diag_count c owner)
diag_count-Accounted c owner = record { at = λ w h. h }

pub put-cases :
    {A : Type 0} (f : ℕ → A) (a : ℕ) (x : A) (b : ℕ) (y : A)
    → put f a x b ≡ y
    → ((b ≡ a) × (x ≡ y)) ⊎ (((b == a) ≡ false) × (f b ≡ y))
put-cases f a x b y h = by_test (b == a) refl h
  where
    by_test :
        (t : Bool)
        → (b == a) ≡ t
        → (if t then x else f b) ≡ y
        → ((b ≡ a) × (x ≡ y)) ⊎ (((b == a) ≡ false) × (f b ≡ y))
    by_test true e h' = inl ((==_iff b a).0 e, h')
    by_test false e h' = inr (e, h')

-- What the account says of one cell.
abbrev pub CellAccounted : ℕ → List WriteReq → Cell → Type 0
CellAccounted a writes (conn_cell k) =
    (d : Direction)
    → (pending d k ≡ outstanding a d writes) × (pending d k ≤ portfwd_max_pending_bytes)
CellAccounted a writes freed = Unit
CellAccounted a writes client_cell = Unit
CellAccounted a writes (relay_cell r) = Unit

-- A cell at an address that is not new.
pub put-Accounted :
    (next : ℕ) (writes : List WriteReq) (heap : ℕ → Cell) (a : ℕ) (c : Cell)
    → IsAccounted heap next writes
    → (heap a ≡ freed → c ≡ freed)
    → CellAccounted a writes c
    → IsAccounted (put heap a c) next writes
put-Accounted next writes heap a c h old cell = record {
  new_freed = λ b le. ground (arith, h.new_freed b le, old);
  new_idle = h.new_idle;
  counted = λ b k e d. elim (put-cases heap a c b (conn_cell k) e) [
    | inl (here, e') ↦
        (subst (λ c'. CellAccounted a writes c') e' cell d).0
        ∙ ap (λ a'. outstanding a' d writes) (sym here)
    | inr (ne, there) ↦ h.counted b k there d
  ];
  bounded = λ b k e d. elim (put-cases heap a c b (conn_cell k) e) [
    | inl (here, e') ↦ (subst (λ c'. CellAccounted a writes c') e' cell d).1
    | inr (ne, there) ↦ h.bounded b k there d
  ];
}

pub set_relay-Accounted : (a : ℕ) (f : Relay → Relay) → Keeps Accounted (set_relay a f)
set_relay-Accounted a f = record { at = λ w h. of_cell (w.heap a) w refl h }
  where
    of_cell :
        (c : Cell) (w : World)
        → w.heap a ≡ c
        → Accounted w
        → Leaves Accounted (and_then (as_relay c w) (λ r. store a (relay_cell (f r))))
    of_cell (relay_cell r) w e h =
        put-Accounted w.next_addr w.writes w.heap a (relay_cell (f r)) h
          (λ z. absurd (ground arith)) tt
    of_cell freed w e h = tt
    of_cell client_cell w e h = tt
    of_cell (conn_cell k) w e h = tt

-- A change that leaves both counts.
pub set_conn-Accounted :
    (a : ℕ) (f : Conn → Conn)
    → ((k : Conn) → (f k).pending_to_outbound ≡ k.pending_to_outbound)
    → ((k : Conn) → (f k).pending_to_inbound ≡ k.pending_to_inbound)
    → Keeps Accounted (set_conn a f)
set_conn-Accounted a f out in_ = record { at = λ w h. of_cell (w.heap a) w refl h }
  where
    same : (k : Conn) (d : Direction) → pending d (f k) ≡ pending d k
    same k to_outbound = out k
    same k to_inbound = in_ k

    of_cell :
        (c : Cell) (w : World)
        → w.heap a ≡ c
        → Accounted w
        → Leaves Accounted (and_then (as_conn c w) (λ k. store a (conn_cell (f k))))
    of_cell (conn_cell k) w e h =
        put-Accounted w.next_addr w.writes w.heap a (conn_cell (f k)) h (λ z. absurd (ground arith))
          (λ d. (
            same k d ∙ h.counted a k e d,
            subst (λ n. n ≤ portfwd_max_pending_bytes) (sym (same k d)) (h.bounded a k e d),
          ))
    of_cell freed w e h = tt
    of_cell client_cell w e h = tt
    of_cell (relay_cell k) w e h = tt

pub free-Accounted : (a : ℕ) → Keeps Accounted (free a)
free-Accounted a = record { at = λ w h. of_cell (w.heap a) w h }
  where
    freed_now : (w : World) → Accounted w → Accounted (record w { heap = put w.heap a freed })
    freed_now w h = put-Accounted w.next_addr w.writes w.heap a freed h (λ z. refl) tt

    of_cell : (c : Cell) (w : World) → Accounted w → Leaves Accounted (free_cell c a w)
    of_cell (conn_cell k) w h = freed_now w h
    of_cell freed w h = tt
    of_cell client_cell w h = freed_now w h
    of_cell (relay_cell k) w h = freed_now w h

-- A new cell, whose counts are 0 if it is a connection.
calloc-IsAccounted :
    (next : ℕ) (writes : List WriteReq) (heap : ℕ → Cell) (c : Cell)
    → IsAccounted heap next writes
    → CellAccounted next writes c
    → IsAccounted (put heap next c) (next + 1) writes
calloc-IsAccounted next writes heap c h cell = record {
  new_freed = λ b le. ground (arith, h.new_freed b (omega arith));
  new_idle = λ b le d. h.new_idle b (omega arith) d;
  counted = λ b k e d. elim (put-cases heap next c b (conn_cell k) e) [
    | inl (here, e') ↦
        (subst (λ c'. CellAccounted next writes c') e' cell d).0
        ∙ ap (λ a'. outstanding a' d writes) (sym here)
    | inr (ne, there) ↦ h.counted b k there d
  ];
  bounded = λ b k e d. elim (put-cases heap next c b (conn_cell k) e) [
    | inl (here, e') ↦ (subst (λ c'. CellAccounted next writes c') e' cell d).1
    | inr (ne, there) ↦ h.bounded b k there d
  ];
}

pub calloc-Accounted :
    (net : Net) (c : Cell)
    → ((a : ℕ) (writes : List WriteReq)
        → ((d : Direction) → outstanding a d writes ≡ 0)
        → CellAccounted a writes c)
    → Keeps Accounted (calloc net c)
calloc-Accounted net c fits = record { at = λ w h. by_test (net.malloc_ok w.calls) w h }
  where
    by_test :
        (t : Bool) (w : World)
        → Accounted w
        → Leaves Accounted (
            (if t
                then (do
                  store w.next_addr c
                  modify (λ w'. record w' { next_addr = w.next_addr + 1 })
                  pure (some w.next_addr))
                else pure none)
              (record w { calls = malloc ∷ w.calls }))
    by_test true w h =
        calloc-IsAccounted w.next_addr w.writes w.heap c h
          (fits w.next_addr w.writes (λ d. h.new_idle w.next_addr (omega arith) d))
    by_test false w h = h
