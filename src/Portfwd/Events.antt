-- ===== src/Portfwd/Events.antt =====
-- The calls of src/portfwd.c that libuv and the rest of the server make, in any order.
use reactos_luagent.Base.{
  arith, ℕ, ◌≤◌, ◌<◌, ◌^◌, ◌≡◌, subst, List, [], ◌∷◌, Bytes, length, Option, none, some, ℤ, All,
}
use reactos_luagent.Portfwd.{
  Conn, Direction, conn_cell, freed, World, Net, Cmd, ok, pure, ◌>>=◌, ◌>>◌, portfwd_engine_init,
}
use reactos_luagent.Portfwd.Forward.{
  Side, pending, portfwd_max_pending_bytes, relay_close_cb, relay_read_cb, relay_connect_cb,
  write_finished,
}
use reactos_luagent.Portfwd.Engine.{
  relay_listener_closed_cb, reject_closed_cb, portfwd_engine_close, portfwd_close_session,
  portfwd_close,
}
use reactos_luagent.Portfwd.Open.{portfwd_open, relay_accept_cb}
use reactos_luagent.Portfwd.Keeps.{Keeps, Leaves, keeps_rules}
use reactos_luagent.Portfwd.Accounted.{Accounted, outstanding}
use reactos_luagent.Portfwd.Accounted.Kept.{free-Accounted}
use reactos_luagent.Portfwd.Accounted.Forwarded.{
  relay_close_cb-Accounted, relay_connect_cb-Accounted,
}
use reactos_luagent.Portfwd.Accounted.Writes.{write_finished-Accounted}
use reactos_luagent.Portfwd.Accounted.Sends.{relay_read_cb-Accounted}
use reactos_luagent.Portfwd.Accounted.Relays.{
  relay_listener_closed_cb-Accounted, portfwd_engine_close-Accounted,
  portfwd_close_session-Accounted, portfwd_close-Accounted, portfwd_open-Accounted,
  relay_accept_cb-Accounted,
}

pub data RelayEvent : Type 0 where
  client_waits : ℕ → ℤ → RelayEvent
  target_connected : ℕ → ℤ → RelayEvent
  stream_read : ℕ → Side → Option Bytes → RelayEvent
  stream_written : ℕ → ℤ → RelayEvent
  conn_handle_closed : ℕ → Side → RelayEvent
  listener_closed reject_closed : ℕ → RelayEvent
  port_opened : ℕ → Option Bytes → ℕ → Option Bytes → ℕ → RelayEvent
  port_closed session_ended : ℕ → RelayEvent
  engine_ended : RelayEvent

module _ (net : Net) (bound : ℕ) where
  unfoldable pub run_event : RelayEvent → Cmd Unit
  run_event (client_waits relay status) = relay_accept_cb net relay status
  run_event (target_connected c status) = relay_connect_cb c status
  run_event (stream_read c side nread) = relay_read_cb net c side nread
  run_event (stream_written n status) = write_finished n status
  run_event (conn_handle_closed c side) = relay_close_cb c side
  run_event (listener_closed relay) = relay_listener_closed_cb relay
  run_event (reject_closed handle) = reject_closed_cb handle
  run_event (port_opened session listen_host listen_port target_host target_port) = do
    opened ← portfwd_open net session listen_host listen_port target_host target_port
    pure tt
  run_event (port_closed relay_id) = do rc ← portfwd_close bound relay_id; pure tt
  run_event (session_ended session) = portfwd_close_session bound session
  run_event engine_ended = portfwd_engine_close bound

  unfoldable pub run_events : List RelayEvent → Cmd Unit
  unfolding run_event
  run_events [] = pure tt
  run_events (e ∷ es) = do run_event e; run_events es

  -- A read has the bytes of a `ssize_t`.
  abbrev pub ReadFits : RelayEvent → Type 0
  ReadFits (stream_read c side (some bytes)) = length bytes < 2 ^ 63
  ReadFits (stream_read c side none) = Unit
  ReadFits (client_waits relay status) = Unit
  ReadFits (target_connected c status) = Unit
  ReadFits (stream_written n status) = Unit
  ReadFits (conn_handle_closed c side) = Unit
  ReadFits (listener_closed relay) = Unit
  ReadFits (reject_closed handle) = Unit
  ReadFits (port_opened session listen_host listen_port target_host target_port) = Unit
  ReadFits (port_closed relay_id) = Unit
  ReadFits (session_ended session) = Unit
  ReadFits engine_ended = Unit

  run_event-Accounted : (e : RelayEvent) → ReadFits e → Keeps Accounted (run_event e)
  unfolding run_event reject_closed_cb
  run_event-Accounted (client_waits relay status) h = relay_accept_cb-Accounted net relay status
  run_event-Accounted (target_connected c status) h = relay_connect_cb-Accounted c status
  run_event-Accounted (stream_read c side none) h =
      relay_read_cb-Accounted net c side none (λ bytes e. absurd (ground arith))
  run_event-Accounted (stream_read c side (some bytes)) h =
      relay_read_cb-Accounted net c side (some bytes) (λ bytes' e. ground (arith, h))
  run_event-Accounted (stream_written n status) h = write_finished-Accounted n status
  run_event-Accounted (conn_handle_closed c side) h = relay_close_cb-Accounted c side
  run_event-Accounted (listener_closed relay) h = relay_listener_closed_cb-Accounted relay
  run_event-Accounted (reject_closed handle) h = free-Accounted handle
  run_event-Accounted (port_opened session listen_host listen_port target_host target_port) h =
      search (keeps_rules, portfwd_open-Accounted) depth 30
  run_event-Accounted (port_closed relay_id) h =
      search (keeps_rules, portfwd_close-Accounted) depth 30
  run_event-Accounted (session_ended session) h = portfwd_close_session-Accounted bound session
  run_event-Accounted engine_ended h = portfwd_engine_close-Accounted bound

  pub run_events-Keeps : (es : List RelayEvent) → All ReadFits es → Keeps Accounted (run_events es)
  unfolding run_events
  run_events-Keeps [] h = search keeps_rules
  run_events-Keeps (e ∷ es) h =
      let first = run_event-Accounted e h.0 in
      let rest = run_events-Keeps es h.1 in search (keeps_rules, first, rest) depth 30

  -- If the calls run without a fault from an engine with no structs and no writes, then each
  -- connection counts as pending in a direction exactly the bytes of the writes that libuv holds
  -- for it there, and at most `PORTFWD_MAX_PENDING_BYTES`.
  pub run_events-Accounted :
      (w : World)
      → ((a : ℕ) → w.heap a ≡ freed)
      → w.writes ≡ []
      → (es : List RelayEvent) → All ReadFits es
      → (w' : World) → run_events es (portfwd_engine_init w) ≡ ok tt w'
      → (c : ℕ) (k : Conn) → w'.heap c ≡ conn_cell k
      → (d : Direction)
      → (pending d k ≡ outstanding c d w'.writes) × (pending d k ≤ portfwd_max_pending_bytes)
  run_events-Accounted w empty idle es fits w' run c k there d =
      let start : Accounted (portfwd_engine_init w) = record {
        new_freed = λ a le. empty a;
        new_idle = λ a le e. ground (arith, idle);
        counted = λ b k' e d'. absurd (ground (arith, empty b));
        bounded = λ b k' e d'. absurd (ground (arith, empty b));
      } in
      let h : Accounted w' =
        subst (λ t. Leaves Accounted t) run
          ((run_events-Keeps es fits).at (portfwd_engine_init w) start) in
      (h.counted c k there d, h.bounded c k there d)
