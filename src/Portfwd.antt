-- ===== src/Portfwd.antt =====
-- The structs of src/portfwd.c, the heap that they live in, and commands on it.
--
-- A struct that is allocated has an address and a cell of the heap; a freed or unknown address has
-- the cell `freed`, and reading, writing or freeing it is a fault. Copies of bytes (strings and
-- write buffers) have no address of their own. A new address was never used before, so that a
-- dangling pointer is always seen.
pub mod Forward
pub mod Engine
pub mod Open
pub mod Ordered
pub mod Gives
pub mod Opening
pub mod Lookup
pub mod Events
pub mod Keeps
pub mod Accounted
pub mod Release
pub mod Walk
pub mod Destroy
pub mod Listed
use reactos_luagent.Base.{
  true, false, [], ℕ, ◌+◌, ◌==◌, if◌then◌else◌, Bool, List, ◌∷◌, Bytes, Option, none, some, ℤ,
}
use reactos_luagent.Machine.{Counters}
use reactos_luagent.Diag.{Counter, bump, relay_open, relay_close}

-- `struct portfwd_relay`. The listener's `data` is set when the listener is initialised.
pub record Relay : Type 0 where
  pub owner : ℕ
  pub next : Option ℕ
  pub conn : Option ℕ
  pub listener_data : Option ℕ
  pub relay_id : ℕ
  pub listen_port : ℕ
  pub target_port : ℕ
  pub closing : Bool
  pub listen_host : Bytes
  pub target_host : Bytes

-- `struct relay_conn`. The `data` fields are those of its two handles.
pub record Conn : Type 0 where
  pub relay : Option ℕ
  pub inbound_data : Option ℕ
  pub outbound_data : Option ℕ
  pub pending_to_inbound : ℕ
  pub pending_to_outbound : ℕ
  pub inbound_closed : Bool
  pub outbound_closed : Bool
  pub inbound_connected : Bool
  pub outbound_connected : Bool
  pub closing : Bool

-- `client_cell` is the bare handle with which a second client is refused.
pub data Cell : Type 0 where
  freed client_cell : Cell
  relay_cell : Relay → Cell
  conn_cell : Conn → Cell

-- `direction`: 0 and 1.
pub data Direction : Type 0 where
  to_outbound to_inbound : Direction

-- `struct relay_write_req`
pub record WriteReq : Type 0 where
  pub conn : ℕ
  pub direction : Direction
  pub buf_len : ℕ

-- The handles, by the address of the struct that holds them.
pub data RelayHandle : Type 0 where
  listener inbound outbound reject_client : ℕ → RelayHandle

pub data RelayCall : Type 0 where
  malloc : RelayCall
  strdup : Bytes → RelayCall
  tcp_init accept close read_start bind listen getsockname : RelayHandle → RelayCall
  ip4_addr : Bytes → ℕ → RelayCall
  connect : RelayHandle → Bytes → ℕ → RelayCall
  write : RelayHandle → Bytes → RelayCall

-- What libuv and libc answer, given the earlier calls.
pub record Net : Type 0 where
  pub malloc_ok : List RelayCall → Bool
  pub result : List RelayCall → RelayCall → ℤ
  pub port : List RelayCall → ℕ

-- The relays of one Lua engine. `writes` are the requests that libuv holds, and `counters` those
-- of each session.
pub record World : Type 0 where
  pub heap : ℕ → Cell
  pub next_addr : ℕ
  pub relays : Option ℕ
  pub next_relay_id : ℕ
  pub writes : List WriteReq
  pub counters : ℕ → Counters
  pub global : Counters
  pub calls : List RelayCall

pub data Run (A : Type 0) : Type 0 where
  ok : A → World → Run A
  fault : Run A
  out_of_fuel : Run A

abbrev pub Cmd : Type 0 → Type 0
Cmd A = World → Run A

abbrev pub put : {A : Type 0} → (ℕ → A) → ℕ → A → ℕ → A
put f a x b = if b == a then x else f b

abbrev pub pure : {A : Type 0} → A → Cmd A
pure = ok

abbrev pub no_fuel : {A : Type 0} → Cmd A
no_fuel w = out_of_fuel

module _ {A B : Type 0} where
  abbrev pub and_then : Run A → (A → Cmd B) → Run B
  and_then (ok a w) k = k a w
  and_then fault k = fault
  and_then out_of_fuel k = out_of_fuel

  infixl 5 ◌>>=◌ ◌>>◌
  abbrev pub ◌>>=◌ : Cmd A → (A → Cmd B) → Cmd B
  m >>= k = λ w. and_then (m w) k

  abbrev pub ◌>>◌ : Cmd A → Cmd B → Cmd B
  m >> n = m >>= λ _. n

  -- What is done with a null pointer, and with an address.
  abbrev pub on_null : Option A → Cmd B → (A → Cmd B) → Cmd B
  on_null none m k = m
  on_null (some a) m k = k a

abbrev pub when : Bool → Cmd Unit → Cmd Unit
when c m = if c then m else pure tt

abbrev pub get_world : Cmd World
get_world w = ok w w

abbrev pub modify : (World → World) → Cmd Unit
modify f w = ok tt (f w)

abbrev pub store : ℕ → Cell → Cmd Unit
store a c = modify (λ w. record w { heap = put w.heap a c })

abbrev pub as_relay : Cell → Cmd Relay
as_relay (relay_cell r) w = ok r w
as_relay freed w = fault
as_relay client_cell w = fault
as_relay (conn_cell k) w = fault

abbrev pub as_conn : Cell → Cmd Conn
as_conn (conn_cell k) w = ok k w
as_conn freed w = fault
as_conn client_cell w = fault
as_conn (relay_cell r) w = fault

abbrev pub get_relay : ℕ → Cmd Relay
get_relay a w = as_relay (w.heap a) w

abbrev pub get_conn : ℕ → Cmd Conn
get_conn a w = as_conn (w.heap a) w

abbrev pub set_relay : ℕ → (Relay → Relay) → Cmd Unit
set_relay a f = do r ← get_relay a; store a (relay_cell (f r))

abbrev pub set_conn : ℕ → (Conn → Conn) → Cmd Unit
set_conn a f = do k ← get_conn a; store a (conn_cell (f k))

abbrev pub free_cell : Cell → ℕ → Cmd Unit
free_cell freed a w = fault
free_cell client_cell a w = store a freed w
free_cell (relay_cell r) a w = store a freed w
free_cell (conn_cell k) a w = store a freed w

abbrev pub free : ℕ → Cmd Unit
free a w = free_cell (w.heap a) a w

abbrev pub diag_count : Counter → ℕ → Cmd Unit
diag_count c owner = modify (λ w. record w {
  global = bump c w.global;
  counters = put w.counters owner (bump c (w.counters owner));
})

abbrev pub diag_count_relay_open : ℕ → Cmd Unit
diag_count_relay_open = diag_count relay_open

abbrev pub diag_count_relay_close : ℕ → Cmd Unit
diag_count_relay_close = diag_count relay_close

abbrev pub call_ : RelayCall → Cmd Unit
call_ e = modify (λ w. record w { calls = e ∷ w.calls })

abbrev pub portfwd_engine_init : World → World
portfwd_engine_init w = record w { relays = none; next_relay_id = 1 }

module _ (net : Net) where
  abbrev pub call : RelayCall → Cmd ℤ
  call e w = ok (net.result w.calls e) (record w { calls = e ∷ w.calls })

  -- A copy or buffer: whether the result is not NULL.
  abbrev pub allocate : RelayCall → Cmd Bool
  allocate e w = ok (net.malloc_ok w.calls) (record w { calls = e ∷ w.calls })

  -- `calloc` of a struct.
  abbrev pub calloc : Cell → Cmd (Option ℕ)
  calloc c = do
    w ← get_world
    there ← allocate malloc
    if there
        then (do
          store w.next_addr c
          modify (λ w'. record w' { next_addr = w.next_addr + 1 })
          pure (some w.next_addr))
        else pure none
