-- ===== src/Portfwd/Engine.antt =====
-- The relays of src/portfwd.c: the engine's list of them, and how they open, accept and close.
use reactos_luagent.Base.{
  ℕ, zero, suc, ◌+◌, ◌==◌, if◌then◌else◌, Bool, true, false, List, [], ◌∷◌, Bytes, Option, none,
  some,
}
use reactos_luagent.Portfwd.{
  Relay, listener, close, Cmd, ok, no_fuel, pure, ◌>>=◌, ◌>>◌, and_then, on_null, when, get_world,
  get_relay, set_relay, free, diag_count_relay_close, call_, modify,
}
use reactos_luagent.Portfwd.Forward.{relay_close}

-- Where a pointer of the list stands: `&engine->relays`, or `&relay->next`.
pub data Link : Type 0 where
  head_link : Link
  next_link : ℕ → Link

abbrev pub read_link : Link → Cmd (Option ℕ)
read_link head_link w = ok w.relays w
read_link (next_link a) w = and_then (get_relay a w) (λ r. pure r.next)

abbrev pub write_link : Link → Option ℕ → Cmd Unit
write_link head_link p = modify (λ w. record w { relays = p })
write_link (next_link a) p = set_relay a (λ x. record x { next = p })

-- The loop, with a bound on its turns.
unfoldable pub relay_remove : ℕ → Link → ℕ → Cmd Unit
relay_remove zero it relay = no_fuel
relay_remove (suc fuel) it relay = do
  p ← read_link it
  on_null p (pure tt) λ a.
      if a == relay
      then (do r ← get_relay relay; write_link it r.next)
      else relay_remove fuel (next_link a) relay

-- The part of `relay_destroy` before the relay is removed from the list.
unfoldable pub relay_detach : ℕ → Option ℕ → Cmd Unit
unfolding relay_close
relay_detach relay conn = do
  set_relay relay (λ x. record x { closing = true })
  on_null conn (pure tt)
      (λ c. do relay_close (some c); set_relay relay (λ x. record x { conn = none }))

-- The handle is the listener of the relay at an address.
unfoldable pub relay_listener_closed_cb : ℕ → Cmd Unit
relay_listener_closed_cb holder = do
  h ← get_relay holder
  on_null h.listener_data (free holder) λ relay. do r ← get_relay relay; free relay

-- The handle is the one of a refused client, whose `data` is NULL.
unfoldable pub reject_closed_cb : ℕ → Cmd Unit
reject_closed_cb handle = free handle

-- What the functions of src/portfwd.h return: 0, or an error of libuv.
pub data RelayRc : Type 0 where
  relay_ok uv_enomem uv_eio uv_einval uv_eaddrinuse uv_enoent : RelayRc

-- No list has more than `bound` relays; a walk then takes at most `bound + 1` turns.
module _ (bound : ℕ) where
  -- `relay` is not NULL where it is called.
  unfoldable pub relay_destroy : ℕ → Cmd Unit
  unfolding relay_detach
  relay_destroy relay = do
    r ← get_relay relay
    if r.closing then pure tt else do
      relay_detach relay r.conn
      relay_remove bound head_link relay
      call_ (close (listener relay))

  -- The loop of `portfwd_engine_close`, where `chosen` is always true, and of
  -- `portfwd_close_session`.
  unfoldable pub destroy_loop : ℕ → (Relay → Bool) → Option ℕ → Cmd Unit
  unfolding relay_destroy
  destroy_loop zero chosen p = no_fuel
  destroy_loop (suc fuel) chosen none = pure tt
  destroy_loop (suc fuel) chosen (some relay) = do
    r ← get_relay relay
    when (chosen r) (relay_destroy relay)
    destroy_loop fuel chosen r.next

  unfoldable pub portfwd_engine_close : Cmd Unit
  unfolding destroy_loop
  portfwd_engine_close = do w ← get_world; destroy_loop (bound + 1) (λ r. true) w.relays

  unfoldable pub portfwd_close_session : ℕ → Cmd Unit
  unfolding destroy_loop
  portfwd_close_session session = do
    w ← get_world
    destroy_loop (bound + 1) (λ r. r.owner == session) w.relays

  unfoldable pub close_loop : ℕ → ℕ → Option ℕ → Cmd RelayRc
  unfolding relay_destroy
  close_loop zero relay_id p = no_fuel
  close_loop (suc fuel) relay_id none = pure uv_enoent
  close_loop (suc fuel) relay_id (some relay) = do
    r ← get_relay relay
    if r.relay_id == relay_id
        then (do diag_count_relay_close r.owner; relay_destroy relay; pure relay_ok)
        else close_loop fuel relay_id r.next

  unfoldable pub portfwd_close : ℕ → Cmd RelayRc
  unfolding close_loop
  portfwd_close relay_id = do w ← get_world; close_loop (bound + 1) relay_id w.relays

-- One row of the table for Lua.
pub record Row : Type 0 where
  pub relay_id : ℕ
  pub listen_host : Bytes
  pub listen_port : ℕ
  pub target_host : Bytes
  pub target_port : ℕ
  pub connected : Bool

abbrev pub row_of : Relay → Row
row_of r = record {
  relay_id = r.relay_id;
  listen_host = r.listen_host;
  listen_port = r.listen_port;
  target_host = r.target_host;
  target_port = r.target_port;
  connected = elim r.conn [ none ↦ false | some c ↦ true ];
}

abbrev pub owned_by : Option ℕ → Relay → Bool
owned_by none r = true
owned_by (some session) r = r.owner == session

-- The rows in the order of the list, which have the keys 1, 2, ...
unfoldable pub list_loop : ℕ → Option ℕ → Option ℕ → Cmd (List Row)
list_loop zero session p = no_fuel
list_loop (suc fuel) session none = pure []
list_loop (suc fuel) session (some relay) = do
  r ← get_relay relay
  rows ← list_loop fuel session r.next
  pure (if owned_by session r then row_of r ∷ rows else rows)

unfoldable pub portfwd_push_list : ℕ → Option ℕ → Cmd (List Row)
unfolding list_loop
portfwd_push_list bound session = do w ← get_world; list_loop (bound + 1) session w.relays
