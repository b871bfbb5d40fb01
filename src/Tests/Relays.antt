-- ===== src/Tests/Relays.antt =====
-- The examples of the theorems on the relays of src/portfwd.c.
use reactos_luagent.Base.{◌≤◌, ◌≡◌, refl, arith, true, List, [], ◌∷◌, none, some, pos}
use reactos_luagent.Session.Start.{zero_counters}
use reactos_luagent.Portfwd.{
  Relay, Conn, freed, relay_cell, conn_cell, World, Run, ok, fault, out_of_fuel, Net, put, ◌>>◌,
  portfwd_engine_init, to_outbound,
}
use reactos_luagent.Portfwd.Forward.{
  inbound_side, outbound_side, relay_close_cb, portfwd_max_pending_bytes, relay_forward,
  relay_queue, relay_read_cb, relay_connect_cb,
}
use reactos_luagent.Portfwd.Engine.{
  relay_destroy, relay_listener_closed_cb, portfwd_close_session, portfwd_close, relay_ok,
}
use reactos_luagent.Portfwd.Open.{
  portfwd_open, Opened, zero_conn, zero_relay, open_listener, open_listed, relay_accept_cb,
  accept_connect,
}
use reactos_luagent.Portfwd.Walk.Session.{IsEngine, IsWalked, owned_at, portfwd_close_session_walks}
use reactos_luagent.Portfwd.Walk.{IsOpen}
use reactos_luagent.Portfwd.Release.{IsConnected, relay_destroy_dangles}
use reactos_luagent.Portfwd.Lookup.{portfwd_close_finds, close_counted}
use reactos_luagent.Portfwd.Opening.Runs.{portfwd_open_opens, OpenedWell}
use reactos_luagent.Portfwd.Destroy.{IsDestroyed}
use reactos_luagent.Portfwd.Accounted.{outstanding}
use reactos_luagent.Portfwd.Ordered.{read_chunks, written, read_chunks_ordered}
use reactos_luagent.Portfwd.Events.{
  RelayEvent, client_waits, target_connected, stream_read, port_opened, run_event, run_events,
  run_events-Accounted,
}

-- All calls succeed.
abbrev willing_net : Net
willing_net = record { malloc_ok = λ t. true; result = λ t e. pos 0; port = λ t. 4444 }

abbrev pub empty_world : World
empty_world = record {
  heap = λ a. freed;
  next_addr = 0;
  relays = none;
  next_relay_id = 0;
  writes = [];
  counters = λ s. zero_counters;
  global = zero_counters;
  calls = [];
}

-- Relay 1 of session 7, with a connection, and relay 2 of session 8, which is first.
abbrev pub first_relay : Relay
first_relay = record zero_relay { owner = 7; relay_id = 1; conn = some 2; listener_data = some 0 }

abbrev pub second_relay : Relay
second_relay = record zero_relay { owner = 8; relay_id = 2; next = some 0; listener_data = some 1 }

abbrev pub the_conn : Conn
the_conn = record zero_conn { relay = some 0; inbound_data = some 2; outbound_data = some 2 }

abbrev pub two_relays : World
two_relays = record empty_world {
  heap =
      put (put (put (λ a. freed) 0 (relay_cell first_relay)) 1 (relay_cell second_relay)) 2
        (conn_cell the_conn);
  next_addr = 3;
  relays = some 1;
  next_relay_id = 3;
}

pub two_relays-IsEngine : IsEngine two_relays (1 ∷ 0 ∷ [])
two_relays-IsEngine = record {
  listed = (refl, (refl, refl));
  once = ((refl, tt), (tt, tt));
  all_open = (
    record { relay = second_relay; cell = refl; not_closing = refl; live = tt },
    (record { relay = first_relay; cell = refl; not_closing = refl; live = (the_conn, refl) }, tt),
  );
}

two_relays-IsConnected : IsConnected two_relays 0 2 first_relay the_conn (1 ∷ 0 ∷ [])
two_relays-IsConnected = record {
  listed = (refl, (refl, refl));
  once = ((refl, tt), (tt, tt));
  relay_there = refl;
  not_closing = refl;
  to_conn = refl;
  listener_data = refl;
  conn_there = refl;
  to_relay = refl;
  inbound_data = refl;
  outbound_data = refl;
  inbound_open = refl;
  outbound_open = refl;
}

relay_destroy_dangles_example :
    (relay_destroy 5 0
        >> relay_listener_closed_cb 0
        >> relay_close_cb 2 outbound_side
        >> relay_close_cb 2 inbound_side)
      two_relays
    ≡ fault
relay_destroy_dangles_example =
    relay_destroy_dangles 5 two_relays 0 2 first_relay the_conn (1 ∷ 0 ∷ []) two_relays-IsConnected
      (omega arith)

portfwd_close_session_walks_example :
    (w' : World) × (portfwd_close_session 5 7 two_relays ≡ ok tt w')
    × IsWalked (owned_at two_relays 7) two_relays [] (1 ∷ 0 ∷ []) w'
portfwd_close_session_walks_example =
    portfwd_close_session_walks 5 7 two_relays (1 ∷ 0 ∷ []) two_relays-IsEngine (omega arith)

portfwd_close_finds_example :
    (o : IsOpen two_relays 0) × (w' : World) × (portfwd_close 5 1 two_relays ≡ ok relay_ok w')
    × IsDestroyed (close_counted o.relay.owner two_relays) 0 o.relay o.live (1 ∷ 0 ∷ []) w'
portfwd_close_finds_example =
    portfwd_close_finds 5 1 two_relays (1 ∷ 0 ∷ []) two_relays-IsEngine (omega arith)

portfwd_open_opens_example :
    (o : Opened) × (w' : World) × (portfwd_open willing_net 9 none 0 none 80 two_relays ≡ ok o w')
    × OpenedWell two_relays (1 ∷ 0 ∷ []) 9 o w'
portfwd_open_opens_example =
    portfwd_open_opens willing_net two_relays (1 ∷ 0 ∷ []) 9 none 0 none 80 two_relays-IsEngine refl

abbrev world_of : {A : Type 0} → Run A → World
world_of (ok a w) = w
world_of fault = empty_world
world_of out_of_fuel = empty_world

-- A port is opened, a client comes, the target answers, and the client sends three bytes.
abbrev three_bytes : List RelayEvent
three_bytes =
    port_opened 9 none 4444 none 80
    ∷ client_waits 0 (pos 0)
    ∷ target_connected 1 (pos 0)
    ∷ stream_read 1 inbound_side (some (1 ∷ 2 ∷ 3 ∷ []))
    ∷ []

unfoldable after_three : World
after_three = world_of (run_events willing_net 5 three_bytes (portfwd_engine_init empty_world))

after_three_run :
    run_events willing_net 5 three_bytes (portfwd_engine_init empty_world) ≡ ok tt after_three
unfolding after_three run_events run_event portfwd_open open_listener open_listed relay_accept_cb
    accept_connect relay_connect_cb relay_read_cb relay_forward relay_queue
after_three_run = refl

abbrev conn_after : Conn
conn_after = record zero_conn {
  relay = some 0;
  inbound_data = some 1;
  outbound_data = some 1;
  inbound_connected = true;
  outbound_connected = true;
  pending_to_outbound = 3;
}

conn_after_there : after_three.heap 1 ≡ conn_cell conn_after
unfolding after_three run_events run_event portfwd_open open_listener open_listed relay_accept_cb
    accept_connect relay_connect_cb relay_read_cb relay_forward relay_queue
conn_after_there = refl

run_events-Accounted_example :
    (3 ≡ outstanding 1 to_outbound after_three.writes) × (3 ≤ portfwd_max_pending_bytes)
run_events-Accounted_example =
    run_events-Accounted willing_net 5 empty_world (λ a. refl) refl three_bytes
      (tt, (tt, (tt, (omega arith, tt)))) after_three after_three_run 1 conn_after conn_after_there
      to_outbound

read_chunks_ordered_example :
    (w' : World) × (k' : Conn) × (read_chunks willing_net 2 inbound_side
        ((1 ∷ 2 ∷ []) ∷ (3 ∷ []) ∷ [])
        two_relays
      ≡ ok tt w')
    × (written 2 to_outbound w'.calls ≡ 1 ∷ 2 ∷ 3 ∷ [])
    × (w'.heap 2 ≡ conn_cell k')
    × (k'.pending_to_outbound ≡ 3)
read_chunks_ordered_example =
    read_chunks_ordered willing_net 2 inbound_side ((1 ∷ 2 ∷ []) ∷ (3 ∷ []) ∷ []) the_conn
      two_relays (refl, refl, refl, refl) (λ t. refl, λ t e. refl) (omega arith, (omega arith, tt))
      (omega arith)
