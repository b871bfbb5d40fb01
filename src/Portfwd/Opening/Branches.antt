-- ===== src/Portfwd/Opening/Branches.antt =====
-- The runs of the parts of `portfwd_open`, branch by branch.
use reactos_luagent.Base.{
  ℕ, ◌+◌, ◌≡◌, true, false, not, ◌||◌, if◌then◌else◌, List, ◌∷◌, Bytes, Option, some, arith,
  is_zero, codes,
}
use reactos_luagent.Machine.{inc_u32}
use reactos_luagent.Diag.{bump, relay_open}
use reactos_luagent.Portfwd.Forward.Close.{if-run}
use reactos_luagent.Portfwd.{
  getsockname, RelayCall, strdup, malloc, Relay, relay_cell, World, Net, ok, ◌>>◌, put, listener,
  tcp_init, bind, listen, ip4_addr, free,
}
use reactos_luagent.Portfwd.Engine.{relay_ok, uv_enomem, uv_eio, uv_einval, uv_eaddrinuse}
use reactos_luagent.Portfwd.Open.{
  Opened, failed, open_failed, open_listed, open_listener, portfwd_open, host_or, zero_relay,
}

module _ (w : World) where
  -- The world after a change of the new relay.
  abbrev pub set_at : World → Relay → World
  set_at v x = record v { heap = put v.heap w.next_addr (relay_cell x) }

module _ (net : Net) (w : World) (session : ℕ) where
  -- The worlds after `open_listed`: with the port that the system chose, or as asked for.
  abbrev pub listed_at : World → Relay → World
  listed_at v x = record (set_at w v (record x { next = v.relays })) {
    relays = some w.next_addr;
    global = bump relay_open v.global;
    counters = put v.counters session (bump relay_open (v.counters session));
    calls = getsockname (listener w.next_addr) ∷ v.calls;
  }

  abbrev pub answer : Relay → Opened
  answer x = record { rc = relay_ok; relay_id = x.relay_id; actual_port = x.listen_port }

  pub open_listed_named :
      (x : Relay) (v : World)
      → v.heap w.next_addr ≡ relay_cell x
      → is_zero (net.result v.calls (getsockname (listener w.next_addr))) ≡ true
      → open_listed net session w.next_addr v
        ≡ ok (answer (record x { listen_port = net.port v.calls })) (
            set_at w (listed_at v x) (record x { next = v.relays; listen_port = net.port v.calls }))
  unfolding open_listed
  open_listed_named x v h e = grind (arith, if-run)

  pub open_listed_unnamed :
      (x : Relay) (v : World)
      → v.heap w.next_addr ≡ relay_cell x
      → is_zero (net.result v.calls (getsockname (listener w.next_addr))) ≡ false
      → open_listed net session w.next_addr v ≡ ok (answer x) (listed_at v x)
  unfolding open_listed
  open_listed_unnamed x v h e = grind (arith, if-run)

  pub open_listener_lem :
      (x : Relay) (v : World)
      → v.heap w.next_addr ≡ relay_cell x
      → let y : Relay = record x { listener_data = some w.next_addr } in
        let c1 = tcp_init (listener w.next_addr) ∷ v.calls in
        let c2 = ip4_addr x.listen_host x.listen_port ∷ c1 in
        let c3 = bind (listener w.next_addr) ∷ c2 in
        let c4 = listen (listener w.next_addr) ∷ c3 in
        let at : List RelayCall → World = λ calls. record (set_at w v y) { calls = calls } in
        open_listener net session w.next_addr v ≡ (
          if not (is_zero (net.result v.calls (tcp_init (listener w.next_addr))))
          then (free w.next_addr >> ok (failed uv_eio)) (record v { calls = c1 })
          else if not (is_zero (net.result c1 (ip4_addr x.listen_host x.listen_port)))
          then open_failed net w.next_addr uv_einval (at c2)
          else if not (is_zero (net.result c2 (bind (listener w.next_addr))))
          then open_failed net w.next_addr uv_eaddrinuse (at c3)
          else if not (is_zero (net.result c3 (listen (listener w.next_addr))))
          then open_failed net w.next_addr uv_eio (at c4)
          else open_listed net session w.next_addr (at c4))
  unfolding open_listener
  open_listener_lem x v h = grind (arith, if-run)

  module _ (listen_host : Option Bytes) (listen_port : ℕ) (target_host : Option Bytes)
      (target_port : ℕ) where
    abbrev pub listen_name : Bytes
    listen_name = host_or listen_host (codes "0.0.0.0")

    abbrev pub target_name : Bytes
    target_name = host_or target_host (codes "127.0.0.1")

    abbrev pub filled : Relay
    filled = record zero_relay {
      owner = session;
      relay_id = w.next_relay_id;
      listen_port = listen_port;
      target_port = target_port;
      listen_host = listen_name;
      target_host = target_name;
    }

    abbrev pub filled_world : World
    filled_world = record (set_at w w filled) {
      next_addr = w.next_addr + 1;
      next_relay_id = inc_u32 w.next_relay_id;
      calls = strdup target_name ∷ strdup listen_name ∷ malloc ∷ w.calls;
    }

    pub portfwd_open_lem :
        portfwd_open net session listen_host listen_port target_host target_port w ≡ (
          if not (net.malloc_ok w.calls)
          then ok (failed uv_enomem) (record w { calls = malloc ∷ w.calls })
          else if not (net.malloc_ok (malloc ∷ w.calls))
              || not (net.malloc_ok (strdup listen_name ∷ malloc ∷ w.calls))
          then (free w.next_addr >> ok (failed uv_enomem)) filled_world
          else open_listener net session w.next_addr filled_world)
    unfolding portfwd_open
    portfwd_open_lem = grind (arith, if-run)
