-- ===== src/Portfwd/Accounted/Relays.antt =====
-- Opening, accepting and closing keep the account.
use reactos_luagent.Base.{
  sym, ◌∙◌, arith, ℕ, zero, suc, ◌≡◌, refl, Bool, true, Bytes, Option, none, some, ℤ,
}
use reactos_luagent.Portfwd.{
  Relay, client_cell, relay_cell, conn_cell, Direction, to_outbound, to_inbound, calloc, Net,
  modify, set_conn,
}
use reactos_luagent.Portfwd.Engine.{
  Link, head_link, next_link, write_link, read_link, relay_remove, relay_detach, relay_destroy,
  relay_listener_closed_cb, destroy_loop, portfwd_engine_close, portfwd_close_session, close_loop,
  portfwd_close, RelayRc,
}
use reactos_luagent.Portfwd.Open.{
  zero_conn, zero_relay, open_failed, open_listed, open_listener, portfwd_open, accept_connect,
  accept_reject, relay_accept_cb,
}
use reactos_luagent.Portfwd.Keeps.{Keeps, keeps_rules, Keeps-get_relay, Keeps-bind, Keeps-pure}
use reactos_luagent.Portfwd.Accounted.{Accounted}
use reactos_luagent.Portfwd.Forward.{pending}
use reactos_luagent.Portfwd.Accounted.Kept.{
  call-Accounted, call_-Accounted, allocate-Accounted, calloc-Accounted, diag_count-Accounted,
  set_relay-Accounted, set_conn-Accounted, free-Accounted,
}
use reactos_luagent.Portfwd.Accounted.Forwarded.{relay_close-Accounted}

read_link-Accounted : (it : Link) → Keeps Accounted (read_link it)
read_link-Accounted head_link = record { at = λ w h. h }
read_link-Accounted (next_link a) = Keeps-bind _ _ (Keeps-get_relay a) (λ r. Keeps-pure r.next)

set_head-Accounted : (p : Option ℕ) → Keeps Accounted (modify (λ w. record w { relays = p }))
set_head-Accounted p = record { at = λ w h. h }

write_link-Accounted : (it : Link) (p : Option ℕ) → Keeps Accounted (write_link it p)
write_link-Accounted head_link p = set_head-Accounted p
write_link-Accounted (next_link a) p = set_relay-Accounted a _

ruleset relay_rules = (
  keeps_rules, read_link-Accounted, write_link-Accounted, call-Accounted, call_-Accounted,
  allocate-Accounted, diag_count-Accounted, set_relay-Accounted, free-Accounted,
  relay_close-Accounted, set_head-Accounted,
)

relay_remove-Accounted :
    (fuel : ℕ) (it : Link) (relay : ℕ) → Keeps Accounted (relay_remove fuel it relay)
unfolding relay_remove
relay_remove-Accounted zero it relay = search relay_rules
relay_remove-Accounted (suc fuel) it relay =
    search (relay_rules, relay_remove-Accounted fuel) depth 30

relay_detach-Accounted : (relay : ℕ) (conn : Option ℕ) → Keeps Accounted (relay_detach relay conn)
unfolding relay_detach
relay_detach-Accounted relay conn = search relay_rules depth 30

relay_destroy-Accounted : (bound relay : ℕ) → Keeps Accounted (relay_destroy bound relay)
unfolding relay_destroy
relay_destroy-Accounted bound relay =
    search (relay_rules, relay_detach-Accounted, relay_remove-Accounted) depth 30

pub relay_listener_closed_cb-Accounted :
    (holder : ℕ) → Keeps Accounted (relay_listener_closed_cb holder)
unfolding relay_listener_closed_cb
relay_listener_closed_cb-Accounted holder = search relay_rules depth 30

destroy_loop-Accounted :
    (bound fuel : ℕ) (chosen : Relay → Bool) (p : Option ℕ)
    → Keeps Accounted (destroy_loop bound fuel chosen p)
unfolding destroy_loop
destroy_loop-Accounted bound zero chosen p = search relay_rules
destroy_loop-Accounted bound (suc fuel) chosen none = search relay_rules
destroy_loop-Accounted bound (suc fuel) chosen (some relay) =
    search (relay_rules, relay_destroy-Accounted, destroy_loop-Accounted bound fuel) depth 30

pub portfwd_engine_close-Accounted : (bound : ℕ) → Keeps Accounted (portfwd_engine_close bound)
unfolding portfwd_engine_close
portfwd_engine_close-Accounted bound = search (relay_rules, destroy_loop-Accounted) depth 30

pub portfwd_close_session-Accounted :
    (bound session : ℕ) → Keeps Accounted (portfwd_close_session bound session)
unfolding portfwd_close_session
portfwd_close_session-Accounted bound session =
    search (relay_rules, destroy_loop-Accounted) depth 30

close_loop-Accounted :
    (bound fuel relay_id : ℕ) (p : Option ℕ) → Keeps Accounted (close_loop bound fuel relay_id p)
unfolding close_loop
close_loop-Accounted bound zero relay_id p = search relay_rules
close_loop-Accounted bound (suc fuel) relay_id none = search relay_rules
close_loop-Accounted bound (suc fuel) relay_id (some relay) =
    search (relay_rules, relay_destroy-Accounted, close_loop-Accounted bound fuel) depth 30

pub portfwd_close-Accounted : (bound relay_id : ℕ) → Keeps Accounted (portfwd_close bound relay_id)
unfolding portfwd_close
portfwd_close-Accounted bound relay_id = search (relay_rules, close_loop-Accounted) depth 30

module _ (net : Net) where
  relay-Accounted : Keeps Accounted (calloc net (relay_cell zero_relay))
  relay-Accounted = calloc-Accounted net (relay_cell zero_relay) (λ a writes idle. tt)

  client-Accounted : Keeps Accounted (calloc net client_cell)
  client-Accounted = calloc-Accounted net client_cell (λ a writes idle. tt)

  conn-Accounted : Keeps Accounted (calloc net (conn_cell zero_conn))
  conn-Accounted =
      calloc-Accounted net (conn_cell zero_conn)
        (λ a writes idle. λ d. (zero_pending d ∙ sym (idle d), ground (arith, zero_pending d)))
    where
      zero_pending : (d : Direction) → pending d zero_conn ≡ 0
      zero_pending to_outbound = refl
      zero_pending to_inbound = refl

  next_id-Accounted : (n : ℕ) → Keeps Accounted (modify (λ v. record v { next_relay_id = n }))
  next_id-Accounted n = record { at = λ w h. h }

  open_failed-Accounted : (relay : ℕ) (rc : RelayRc) → Keeps Accounted (open_failed net relay rc)
  unfolding open_failed
  open_failed-Accounted relay rc = search relay_rules depth 30

  open_listed-Accounted : (session relay : ℕ) → Keeps Accounted (open_listed net session relay)
  unfolding open_listed
  open_listed-Accounted session relay = search relay_rules depth 40

  open_listener-Accounted : (session relay : ℕ) → Keeps Accounted (open_listener net session relay)
  unfolding open_listener
  open_listener-Accounted session relay =
      search (relay_rules, open_failed-Accounted, open_listed-Accounted) depth 60

  pub portfwd_open-Accounted :
      (session : ℕ) (listen_host : Option Bytes) (listen_port : ℕ) (target_host : Option Bytes)
      (target_port : ℕ)
      → Keeps Accounted (portfwd_open net session listen_host listen_port target_host target_port)
  unfolding portfwd_open
  portfwd_open-Accounted session listen_host listen_port target_host target_port =
      search (relay_rules, relay-Accounted, next_id-Accounted, open_listener-Accounted) depth 60

  accept_connect-Accounted :
      (relay c : ℕ) (r : Relay) → Keeps Accounted (accept_connect net relay c r)
  unfolding accept_connect
  accept_connect-Accounted relay c r = search relay_rules depth 40

  accept_reject-Accounted : Keeps Accounted (accept_reject net)
  unfolding accept_reject
  accept_reject-Accounted = search (relay_rules, client-Accounted) depth 40

  to_relay-Accounted :
      (c relay : ℕ) → Keeps Accounted (set_conn c (λ x. record x { relay = some relay }))
  to_relay-Accounted c relay = set_conn-Accounted c _ (λ k. refl) (λ k. refl)

  data-Accounted :
      (c : ℕ)
      → Keeps Accounted (
          set_conn c (λ x. record x {
            inbound_data = some c;
            outbound_data = some c;
            inbound_connected = true;
          }))
  data-Accounted c = set_conn-Accounted c _ (λ k. refl) (λ k. refl)

  pub relay_accept_cb-Accounted :
      (holder : ℕ) (status : ℤ) → Keeps Accounted (relay_accept_cb net holder status)
  unfolding relay_accept_cb
  relay_accept_cb-Accounted holder status =
      search
        (
          relay_rules, conn-Accounted, to_relay-Accounted, data-Accounted, accept_connect-Accounted,
          accept_reject-Accounted,
        )
        depth 90
