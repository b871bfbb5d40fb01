-- ===== src/Portfwd/Open.antt =====
-- `portfwd_open` and `relay_accept_cb` of src/portfwd.c.
use reactos_luagent.Base.{
  ℕ, if◌then◌else◌, true, false, ◌||◌, not, [], Bytes, Option, none, some, ℤ, is_neg, is_zero,
  codes,
}
use reactos_luagent.Machine.{inc_u32}
use reactos_luagent.Portfwd.{
  Relay, Conn, relay_cell, conn_cell, client_cell, listener, inbound, outbound, reject_client,
  strdup, tcp_init, accept, close, bind, listen, getsockname, ip4_addr, connect, Net, Cmd, pure,
  ◌>>=◌, ◌>>◌, on_null, when, get_world, get_relay, set_relay, set_conn, free,
  diag_count_relay_open, call, call_, allocate, calloc, modify,
}
use reactos_luagent.Portfwd.Forward.{relay_close}
use reactos_luagent.Portfwd.Engine.{RelayRc, relay_ok, uv_enomem, uv_eio, uv_einval, uv_eaddrinuse}

abbrev pub host_or : Option Bytes → Bytes → Bytes
host_or none default = default
host_or (some host) default = host

-- A struct that `calloc` has zeroed.
abbrev pub zero_conn : Conn
zero_conn = record {
  relay = none;
  inbound_data = none;
  outbound_data = none;
  pending_to_inbound = 0;
  pending_to_outbound = 0;
  inbound_closed = false;
  outbound_closed = false;
  inbound_connected = false;
  outbound_connected = false;
  closing = false;
}

abbrev pub zero_relay : Relay
zero_relay = record {
  owner = 0;
  next = none;
  conn = none;
  listener_data = none;
  relay_id = 0;
  listen_port = 0;
  target_port = 0;
  closing = false;
  listen_host = [];
  target_host = [];
}

-- What an opened relay answers: its id and the port that it listens on.
pub record Opened : Type 0 where
  pub rc : RelayRc
  pub relay_id : ℕ
  pub actual_port : ℕ

abbrev pub failed : RelayRc → Opened
failed rc = record { rc = rc; relay_id = 0; actual_port = 0 }

module _ (net : Net) where
  -- `relay->closing = 1` and the close of a listener that is in no list.
  unfoldable pub open_failed : ℕ → RelayRc → Cmd Opened
  open_failed relay rc = do
    set_relay relay (λ x. record x { closing = true })
    call_ (close (listener relay))
    pure (failed rc)

  -- From the insertion into the list on.
  unfoldable pub open_listed : ℕ → ℕ → Cmd Opened
  open_listed session relay = do
    w ← get_world
    set_relay relay (λ x. record x { next = w.relays })
    modify (λ v. record v { relays = some relay })
    diag_count_relay_open session
    v ← get_world
    named ← call net (getsockname (listener relay))
    when (is_zero named) (set_relay relay (λ x. record x { listen_port = net.port v.calls }))
    r ← get_relay relay
    pure (record { rc = relay_ok; relay_id = r.relay_id; actual_port = r.listen_port })

  -- From `uv_tcp_init` on.
  unfoldable pub open_listener : ℕ → ℕ → Cmd Opened
  unfolding open_failed open_listed
  open_listener session relay = do
    init ← call net (tcp_init (listener relay))
    if not (is_zero init) then (do free relay; pure (failed uv_eio)) else do
      set_relay relay (λ x. record x { listener_data = some relay })
      r ← get_relay relay
      addr ← call net (ip4_addr r.listen_host r.listen_port)
      if not (is_zero addr) then open_failed relay uv_einval else do
        bound ← call net (bind (listener relay))
        if not (is_zero bound) then open_failed relay uv_eaddrinuse else do
          listening ← call net (listen (listener relay))
          if not (is_zero listening) then open_failed relay uv_eio else open_listed session relay

  unfoldable pub portfwd_open : ℕ → Option Bytes → ℕ → Option Bytes → ℕ → Cmd Opened
  unfolding open_listener
  portfwd_open session listen_host listen_port target_host target_port = do
    p ← calloc net (relay_cell zero_relay)
    on_null p (pure (failed uv_enomem)) λ relay. do
      w ← get_world
      modify (λ v. record v { next_relay_id = inc_u32 w.next_relay_id })
      set_relay relay (λ x. record x {
        owner = session;
        relay_id = w.next_relay_id;
        listen_port = listen_port;
        target_port = target_port;
        listen_host = host_or listen_host (codes "0.0.0.0");
        target_host = host_or target_host (codes "127.0.0.1");
      })
      listen_copied ← allocate net (strdup (host_or listen_host (codes "0.0.0.0")))
      target_copied ← allocate net (strdup (host_or target_host (codes "127.0.0.1")))
      if not listen_copied || not target_copied
          then (do free relay; pure (failed uv_enomem))
          else open_listener session relay

  -- `struct sockaddr_in target_addr` is the result of `uv_ip4_addr`.
  unfoldable pub accept_connect : ℕ → ℕ → Relay → Cmd Unit
  unfolding relay_close
  accept_connect relay c r = do
    addr ← call net (ip4_addr r.target_host r.target_port)
    if not (is_zero addr) then relay_close (some c) else do
      set_relay relay (λ x. record x { conn = some c })
      connecting ← call net (connect (outbound c) r.target_host r.target_port)
      when (not (is_zero connecting)) (relay_close (some c))

  -- A second client while the relay has a connection.
  unfoldable pub accept_reject : Cmd Unit
  accept_reject = do
    p ← calloc net client_cell
    on_null p (pure tt) λ client. do
      init ← call net (tcp_init (reject_client client))
      if not (is_zero init) then free client else do
        accepted ← call net (accept (reject_client client))
        if is_zero accepted then call_ (close (reject_client client)) else free client

  unfoldable pub relay_accept_cb : ℕ → ℤ → Cmd Unit
  unfolding accept_reject accept_connect
  relay_accept_cb holder status = do
    h ← get_relay holder
    on_null h.listener_data (pure tt) λ relay. do
      r ← get_relay relay
      if is_neg status || r.closing
          then pure tt
          else on_null r.conn
              (do
                p ← calloc net (conn_cell zero_conn)
                on_null p (pure tt) λ c. do
                  set_conn c (λ x. record x { relay = some relay })
                  first ← call net (tcp_init (inbound c))
                  if not (is_zero first) then free c else do
                    second ← call net (tcp_init (outbound c))
                    if not (is_zero second) then free c else do
                      set_conn c (λ x. record x {
                        inbound_data = some c;
                        outbound_data = some c;
                        inbound_connected = true;
                      })
                      accepted ← call net (accept (inbound c))
                      if not (is_zero accepted)
                          then (do call_ (close (inbound c)); call_ (close (outbound c)))
                          else accept_connect relay c r)
              (λ c. accept_reject)
