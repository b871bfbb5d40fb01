-- ===== src/Portfwd/Release.antt =====
-- The release of a relay and its connection: the close callbacks after `relay_destroy`, in the
-- orders in which libuv may call them.
use reactos_luagent.Base.{
  ℕ, ◌<◌, ◌==◌, ◌≡◌, refl, ap, sym, subst, ◌∙◌, Bool, true, false, List, length, Option, none, some,
  arith,
}
use reactos_luagent.Portfwd.{
  Relay, Conn, freed, relay_cell, conn_cell, World, Run, Cmd, ok, and_then, fault, put, ◌>>◌,
}
use reactos_luagent.Portfwd.Forward.{
  relay_close_cb, relay_maybe_free, inbound_side, outbound_side, mark_closed,
}
use reactos_luagent.Portfwd.Forward.Close.{if-run}
use reactos_luagent.Portfwd.Engine.{head_link, relay_destroy, relay_listener_closed_cb}
use reactos_luagent.Portfwd.Listed.{Listed, links}
use reactos_luagent.Portfwd.Listed.Unlink.{Once, shape}
use reactos_luagent.Portfwd.Destroy.{
  ConnLive, detached, after_destroy, relay_destroy_lem, after_destroy-IsDestroyed,
}
use reactos_luagent.Portfwd.Walk.{relay_of_shape, conn_of_shape}

-- A relay of the list with its connection, both open and each pointing at the other.
pub record IsConnected (w : World) (r c : ℕ) (x : Relay) (k : Conn) (xs : List ℕ) : Type 0 where
  pub listed : Listed (links w) head_link xs
  pub once : Once xs
  pub relay_there : w.heap r ≡ relay_cell x
  pub not_closing : x.closing ≡ false
  pub to_conn : x.conn ≡ some c
  pub listener_data : x.listener_data ≡ some r
  pub conn_there : w.heap c ≡ conn_cell k
  pub to_relay : k.relay ≡ some r
  pub inbound_data : k.inbound_data ≡ some c
  pub outbound_data : k.outbound_data ≡ some c
  pub inbound_open : k.inbound_closed ≡ false
  pub outbound_open : k.outbound_closed ≡ false

-- The callback of the listener frees the relay.
pub listener_closed_lem :
    (w : World) (r : ℕ) (x : Relay)
    → w.heap r ≡ relay_cell x
    → x.listener_data ≡ some r
    → relay_listener_closed_cb r w ≡ ok tt (record w { heap = put w.heap r freed })
unfolding relay_listener_closed_cb
listener_closed_lem w r x h d = grind arith

-- The first of the two close callbacks only marks its handle.
pub first_closed_lem :
    (w : World) (c : ℕ) (k : Conn)
    → w.heap c ≡ conn_cell k
    → k.outbound_data ≡ some c
    → k.inbound_closed ≡ false
    → relay_close_cb c outbound_side w
      ≡ ok tt (record w { heap = put w.heap c (conn_cell (mark_closed outbound_side k)) })
unfolding relay_close_cb relay_maybe_free
first_closed_lem w c k h d o = grind (arith, if-run)

-- The second frees the connection through its pointer to the relay.
pub second_closed_dangles :
    (w : World) (c r : ℕ) (k : Conn)
    → w.heap c ≡ conn_cell k
    → k.inbound_data ≡ some c
    → k.outbound_closed ≡ true
    → k.relay ≡ some r
    → w.heap r ≡ freed
    → relay_close_cb c inbound_side w ≡ fault
unfolding relay_close_cb relay_maybe_free
second_closed_dangles w c r k h d o p gone = grind (arith, if-run)

-- A command after one that returned.
and_then-ok :
    {A B : Type 0} {t : Run A} {a : A} {w : World} (n : Cmd B)
    → t ≡ ok a w
    → and_then t (λ _. n) ≡ n w
and_then-ok n h = ap (λ t. and_then t (λ _. n)) h

-- The second frees the connection, and clears the relay's pointer to it.
pub second_closed_frees :
    (w : World) (c r : ℕ) (x : Relay) (k : Conn)
    → w.heap c ≡ conn_cell k
    → k.inbound_data ≡ some c
    → k.outbound_closed ≡ true
    → k.relay ≡ some r
    → w.heap r ≡ relay_cell x
    → relay_close_cb c inbound_side w
      ≡ ok tt (record w {
        heap =
            put
              (put
                (put w.heap c (conn_cell (mark_closed inbound_side k)))
                r
                (relay_cell (record x { conn = none })))
              c
              freed;
      })
unfolding relay_close_cb relay_maybe_free
second_closed_frees w c r x k h d o p there = grind (arith, if-run)

module _ (bound : ℕ) (w : World) (r c : ℕ) (x : Relay) (k : Conn) (xs : List ℕ)
    (h : IsConnected w r c x k xs) (room : length xs < bound) where
  conn_live : ConnLive w x.conn
  conn_live = subst (λ o. ConnLive w o) (sym h.to_conn) (k, h.conn_there)

  -- What `relay_destroy` leaves in the two cells.
  destroyed_cells :
      (w' : World) × (relay_destroy bound r w ≡ ok tt w')
      × (p : Option ℕ) × (w'.heap r ≡ relay_cell (record (detached x) { next = p }))
      × (b : Bool) × (w'.heap c ≡ conn_cell (record k { closing = b }))
  destroyed_cells =
      let w' = after_destroy w r x conn_live xs in
      let d = after_destroy-IsDestroyed w r x conn_live xs h.relay_there h.listed h.once in
      let (p, e) = relay_of_shape (w'.heap r) (detached x) d.itself in
      let (b, f) = conn_of_shape (w'.heap c) k (d.elsewhere c apart ∙ ap shape h.conn_there) in
      (
        w',
        relay_destroy_lem bound w r x conn_live xs h.relay_there h.not_closing h.listed room,
        p,
        e,
        b,
        f,
      )
    where
      apart : (c == r) ≡ false
      apart = ground (arith, h.conn_there, h.relay_there)

  apart : (c == r) ≡ false
  apart = ground (arith, h.conn_there, h.relay_there)

  apart_sym : (r == c) ≡ false
  apart_sym = ground (arith, apart)

  -- If the listener's close callback runs first, then the close callbacks of the connection write
  -- to the relay that is freed.
  pub relay_destroy_dangles :
      (relay_destroy bound r
          >> relay_listener_closed_cb r
          >> relay_close_cb c outbound_side
          >> relay_close_cb c inbound_side)
        w
      ≡ fault
  relay_destroy_dangles =
      let (w1, e1, p, er, b, ec) = destroyed_cells in
      let k1 : Conn = record k { closing = b } in
      let w2 : World = record w1 { heap = put w1.heap r freed } in
      let w3 : World = record w2 {
        heap = put w2.heap c (conn_cell (mark_closed outbound_side k1));
      } in
      let c2 : w2.heap c ≡ conn_cell k1 = ground (arith, apart) in
      let r3 : w3.heap r ≡ freed = ground (arith, apart_sym) in
      let c3 : w3.heap c ≡ conn_cell (mark_closed outbound_side k1) = ground arith in
      let s1 =
        and_then-ok (relay_listener_closed_cb r) e1
        ∙ listener_closed_lem w1 r (record (detached x) { next = p }) er h.listener_data in
      let s2 =
        and_then-ok (relay_close_cb c outbound_side) s1
        ∙ first_closed_lem w2 c k1 c2 h.outbound_data h.inbound_open in
      and_then-ok (relay_close_cb c inbound_side) s2
      ∙ second_closed_dangles w3 c r (mark_closed outbound_side k1) c3 h.inbound_data refl
          h.to_relay r3

  -- If the close callbacks of the connection run before the listener's, then both are freed.
  pub relay_destroy_frees :
      (w' : World) × ((relay_destroy bound r
            >> relay_close_cb c outbound_side
            >> relay_close_cb c inbound_side
            >> relay_listener_closed_cb r)
          w
        ≡ ok tt w')
      × (w'.heap r ≡ freed)
      × (w'.heap c ≡ freed)
  relay_destroy_frees =
      let (w1, e1, p, er, b, ec) = destroyed_cells in
      let k1 : Conn = record k { closing = b } in
      let k2 = mark_closed outbound_side k1 in
      let x1 : Relay = record (detached x) { next = p } in
      let w2 : World = record w1 { heap = put w1.heap c (conn_cell k2) } in
      let w3 : World = record w2 {
        heap =
            put (put (put w2.heap c (conn_cell (mark_closed inbound_side k2))) r (relay_cell x1)) c
              freed;
      } in
      let c2 : w2.heap c ≡ conn_cell k2 = ground arith in
      let r2 : w2.heap r ≡ relay_cell x1 = ground (arith, apart_sym) in
      let r3 : w3.heap r ≡ relay_cell x1 = ground (arith, apart_sym) in
      let s1 =
        and_then-ok (relay_close_cb c outbound_side) e1
        ∙ first_closed_lem w1 c k1 ec h.outbound_data h.inbound_open in
      let s2 =
        and_then-ok (relay_close_cb c inbound_side) s1
        ∙ second_closed_frees w2 c r x1 k2 c2 h.inbound_data refl h.to_relay r2 in
      let s3 =
        and_then-ok (relay_listener_closed_cb r) s2
        ∙ listener_closed_lem w3 r x1 r3 h.listener_data in
      (record w3 { heap = put w3.heap r freed }, s3, ground arith, ground (arith, apart))
