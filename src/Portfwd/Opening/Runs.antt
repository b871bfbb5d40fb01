-- ===== src/Portfwd/Opening/Runs.antt =====
-- `portfwd_open` returns, and what it returns.
use reactos_luagent.Base.{
  ℕ, ◌==◌, ◌≡◌, refl, sym, subst, true, false, not, ◌||◌, List, ◌∷◌, Bytes, Option, none, some,
  arith, is_zero, Bool-cases, inl, inr,
}
use reactos_luagent.Machine.{inc_u32}
use reactos_luagent.Portfwd.{
  getsockname, RelayCall, strdup, malloc, Relay, freed, relay_cell, World, Net, Run, ok, and_then,
  ◌>>◌, put, listener, tcp_init, bind, listen, ip4_addr, free, free_cell,
}
use reactos_luagent.Portfwd.Engine.{
  RelayRc, relay_ok, uv_enomem, uv_eio, uv_einval, uv_eaddrinuse, uv_enoent,
}
use reactos_luagent.Portfwd.Open.{
  Opened, failed, open_failed, open_listed, open_listener, portfwd_open,
}
use reactos_luagent.Portfwd.Walk.Session.{IsEngine}
use reactos_luagent.Portfwd.Gives.{Gives, Gives-four, Gives-set_relay, Gives-run}
use reactos_luagent.Portfwd.Opening.Branches.{
  set_at, listed_at, open_listed_named, open_listed_unnamed, open_listener_lem, listen_name, filled,
  filled_world, portfwd_open_lem,
}
use reactos_luagent.Portfwd.Opening.{IsAround, IsEngine-kept, IsEngine-new}

-- What `portfwd_open` leaves from `w` by its result: on success the new relay is the first of the
-- list and has the next id, and else the list is as before.
abbrev pub Outcome : World → List ℕ → ℕ → RelayRc → ℕ → World → Type 0
Outcome w xs session relay_ok id w' =
    IsEngine w' (w.next_addr ∷ xs)
    × (id ≡ w.next_relay_id)
    × (w'.next_relay_id ≡ inc_u32 w.next_relay_id)
    × ((x : Relay) × (w'.heap w.next_addr ≡ relay_cell x)
        × (x.relay_id ≡ w.next_relay_id)
        × (x.owner ≡ session))
Outcome w xs session uv_enomem id w' = IsEngine w' xs
Outcome w xs session uv_eio id w' = IsEngine w' xs
Outcome w xs session uv_einval id w' = IsEngine w' xs
Outcome w xs session uv_eaddrinuse id w' = IsEngine w' xs
Outcome w xs session uv_enoent id w' = ⊥

abbrev pub OpenedWell : World → List ℕ → ℕ → Opened → World → Type 0
OpenedWell w xs session o w' = Outcome w xs session o.rc o.relay_id w'

-- A new relay of a session, open and without a connection.
abbrev IsNew : World → ℕ → Relay → Type 0
IsNew w session x =
    (x.owner ≡ session) × (x.relay_id ≡ w.next_relay_id) × (x.closing ≡ false) × (x.conn ≡ none)

-- The relay at the new address, not in the list yet.
abbrev Stage : World → Relay → World → Type 0
Stage w x v =
    ((b : ℕ) → (b == w.next_addr) ≡ false → v.heap b ≡ w.heap b)
    × (v.heap w.next_addr ≡ relay_cell x)
    × (v.relays ≡ w.relays)
    × (v.next_relay_id ≡ inc_u32 w.next_relay_id)

module _ (net : Net) (w : World) (xs : List ℕ) (session : ℕ) (engine : IsEngine w xs)
    (new : w.heap w.next_addr ≡ freed) where
  abbrev Q : Opened → World → Type 0
  Q = OpenedWell w xs session

  Stage-set : (x y : Relay) (v : World) → Stage w x v → Stage w y (set_at w v y)
  Stage-set x y v h = (λ b ne. ground (arith, ne, h.0 b ne), ground arith, h.2, h.3)

  around :
      (v : World)
      → ((b : ℕ) → (b == w.next_addr) ≡ false → v.heap b ≡ w.heap b)
      → IsAround w w.next_addr v
  around v same = record { new = new; same = same }

  kept :
      (v : World)
      → ((b : ℕ) → (b == w.next_addr) ≡ false → v.heap b ≡ w.heap b)
      → v.relays ≡ w.relays
      → IsEngine v xs
  kept v same head = IsEngine-kept w w.next_addr v (around v same) xs engine head

  open_failed-Gives :
      (x : Relay) (rc : RelayRc) (v : World)
      → Stage w x v
      → ((v' : World) → IsEngine v' xs → Q (failed rc) v')
      → Gives Q (open_failed net w.next_addr rc v)
  unfolding open_failed
  open_failed-Gives x rc v h q =
      let y : Relay = record x { closing = true } in
      let (same, cell, head, id) = Stage-set x y v h in
      Gives-set_relay Q v w.next_addr x (λ r. record r { closing = true }) _ h.1
        (q _ (kept _ same head))

  -- Both ways to free the relay.
  free-Gives :
      (x : Relay) (rc : RelayRc) (v : World)
      → Stage w x v
      → ((v' : World) → IsEngine v' xs → Q (failed rc) v')
      → Gives Q ((free w.next_addr >> ok (failed rc)) v)
  free-Gives x rc v h q =
      let freed_world : World = record v { heap = put v.heap w.next_addr freed } in
      subst (λ c. Gives Q (and_then (free_cell c w.next_addr v) (λ _. ok (failed rc)))) (sym h.1)
        (q freed_world (kept freed_world (λ b ne. ground (arith, ne, h.0 b ne)) h.2))

  -- The relay is the first of the list.
  listed_well :
      (x : Relay) (v : World)
      → IsNew w session x
      → x.next ≡ w.relays
      → ((b : ℕ) → (b == w.next_addr) ≡ false → v.heap b ≡ w.heap b)
      → v.heap w.next_addr ≡ relay_cell x
      → v.relays ≡ some w.next_addr
      → v.next_relay_id ≡ inc_u32 w.next_relay_id
      → Outcome w xs session relay_ok x.relay_id v
  listed_well x v n next same cell head id = (
    IsEngine-new w w.next_addr v (around v same) xs x engine cell next head n.2 n.3,
    n.1,
    id,
    (x, cell, n.1, n.0),
  )

  open_listed-Gives :
      (x : Relay) (v : World)
      → IsNew w session x
      → Stage w x v
      → Gives Q (open_listed net session w.next_addr v)
  open_listed-Gives x v n h =
      let y : Relay = record x { next = v.relays } in
      let v1 = set_at w v y in
      let s1 = Stage-set x y v h in
      let z : Relay = record y { listen_port = net.port v.calls } in
      let s2 = Stage-set y z v1 s1 in
      elim (Bool-cases (is_zero (net.result v.calls (getsockname (listener w.next_addr))))) [
        | inl e ↦
            subst (λ t. Gives Q t) (sym (open_listed_named net w session x v h.1 e))
              (listed_well z (set_at w (listed_at net w session v x) z) n h.2 s2.0 s2.1 refl h.3)
        | inr e ↦
            subst (λ t. Gives Q t) (sym (open_listed_unnamed net w session x v h.1 e))
              (listed_well y (listed_at net w session v x) n h.2 s1.0 s1.1 refl h.3)
      ]

  open_listener-Gives :
      (x : Relay) (v : World)
      → IsNew w session x
      → Stage w x v
      → Gives Q (open_listener net session w.next_addr v)
  open_listener-Gives x v n h =
      let y : Relay = record x { listener_data = some w.next_addr } in
      let s = Stage-set x y v h in
      let c1 = tcp_init (listener w.next_addr) ∷ v.calls in
      let c2 = ip4_addr x.listen_host x.listen_port ∷ c1 in
      let c3 = bind (listener w.next_addr) ∷ c2 in
      let c4 = listen (listener w.next_addr) ∷ c3 in
      let at : List RelayCall → World = λ calls. record (set_at w v y) { calls = calls } in
      subst (λ t. Gives Q t) (sym (open_listener_lem net w session x v h.1))
        (Gives-four Q (not (is_zero (net.result v.calls (tcp_init (listener w.next_addr)))))
          (not (is_zero (net.result c1 (ip4_addr x.listen_host x.listen_port))))
          (not (is_zero (net.result c2 (bind (listener w.next_addr)))))
          (not (is_zero (net.result c3 (listen (listener w.next_addr)))))
          ((free w.next_addr >> ok (failed uv_eio)) (record v { calls = c1 }))
          (open_failed net w.next_addr uv_einval (at c2))
          (open_failed net w.next_addr uv_eaddrinuse (at c3))
          (open_failed net w.next_addr uv_eio (at c4)) (open_listed net session w.next_addr (at c4))
          (free-Gives x uv_eio (record v { calls = c1 }) h (λ v' i. i))
          (open_failed-Gives y uv_einval (at c2) s (λ v' i. i))
          (open_failed-Gives y uv_eaddrinuse (at c3) s (λ v' i. i))
          (open_failed-Gives y uv_eio (at c4) s (λ v' i. i)) (open_listed-Gives y (at c4) n s))

  module _ (listen_host : Option Bytes) (listen_port : ℕ) (target_host : Option Bytes)
      (target_port : ℕ) where
    portfwd_open-Gives :
        Gives Q (portfwd_open net session listen_host listen_port target_host target_port w)
    portfwd_open-Gives =
        let n : IsNew w session
            (filled net w session listen_host listen_port target_host target_port) =
          (refl, refl, refl, refl) in
        let stage : Stage w (filled net w session listen_host listen_port target_host target_port)
            (filled_world net w session listen_host listen_port target_host target_port) =
          (λ b ne. ground (arith, ne), ground arith, refl, refl) in
        let early : Run Opened =
          (free w.next_addr >> ok (failed uv_enomem))
            (filled_world net w session listen_host listen_port target_host target_port) in
        let late : Run Opened =
          open_listener net session w.next_addr
            (filled_world net w session listen_host listen_port target_host target_port) in
        let late_run : Gives Q late =
          open_listener-Gives (filled net w session listen_host listen_port target_host target_port)
            (filled_world net w session listen_host listen_port target_host target_port) n stage in
        subst (λ t. Gives Q t)
          (sym (portfwd_open_lem net w session listen_host listen_port target_host target_port))
          (Gives-four Q (not (net.malloc_ok w.calls))
            (not (net.malloc_ok (malloc ∷ w.calls))
              || not (
                  net.malloc_ok (
                    strdup
                      (listen_name net w session listen_host listen_port target_host target_port)
                    ∷ malloc
                    ∷ w.calls)))
            false false (ok (failed uv_enomem) (record w { calls = malloc ∷ w.calls })) early late
            late late (kept (record w { calls = malloc ∷ w.calls }) (λ b ne. refl) refl)
            (free-Gives (filled net w session listen_host listen_port target_host target_port)
              uv_enomem (filled_world net w session listen_host listen_port target_host target_port)
              stage (λ v' i. i))
            late_run late_run late_run)

-- If each relay of the engine's list is open and once in it, and the next address is free, then
-- `portfwd_open` returns. On success the new relay, of this session, is the first of the list, with
-- the next id, which is counted up in 32 bits; on each failure the list has the same relays, still
-- open.
pub portfwd_open_opens :
    (net : Net) (w : World) (xs : List ℕ) (session : ℕ) (listen_host : Option Bytes)
    (listen_port : ℕ) (target_host : Option Bytes) (target_port : ℕ)
    → IsEngine w xs
    → w.heap w.next_addr ≡ freed
    → (o : Opened) × (w' : World) × (portfwd_open net session listen_host listen_port target_host
          target_port w
        ≡ ok o w')
      × OpenedWell w xs session o w'
portfwd_open_opens net w xs session listen_host listen_port target_host target_port engine new =
    Gives-run (OpenedWell w xs session) _ (
      portfwd_open-Gives net w xs session engine new listen_host listen_port target_host
        target_port)
