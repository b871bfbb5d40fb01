-- ===== src/Portfwd/Forward.antt =====
-- The connection of a relay in src/portfwd.c: its two handles, and the bytes forwarded between
-- them.
pub mod Close
use reactos_luagent.Base.{
  false, [], zero, suc, ℕ, ◌-◌, ◌%◌, ◌^◌, ◌==◌, ltb, leb, if◌then◌else◌, true, ◌&&◌, ◌||◌, not,
  List, ◌∷◌, Bytes, length, Option, none, some, ℤ, is_neg, is_zero,
}
use reactos_luagent.Libc.{add_u64, sub_u64}
use reactos_luagent.Portfwd.{
  ◌>>=◌, ◌>>◌, Conn, Direction, to_outbound, to_inbound, WriteReq, RelayHandle, inbound, outbound,
  malloc, close, read_start, write, Net, Cmd, pure, on_null, when, get_conn, set_conn, set_relay,
  free, call, call_, allocate, modify, get_world, get_world,
}

abbrev pub portfwd_max_pending_bytes : ℕ
portfwd_max_pending_bytes = 262144

unfoldable pub relay_maybe_free : ℕ → Cmd Unit
relay_maybe_free c = do
  k ← get_conn c
  if k.inbound_closed && k.outbound_closed
      then (do on_null k.relay (pure tt) (λ r. set_relay r (λ x. record x { conn = none })); free c)
      else pure tt

-- Which of the two handles of its struct a handle is.
pub data Side : Type 0 where
  inbound_side outbound_side : Side

abbrev pub handle_of : Side → ℕ → RelayHandle
handle_of inbound_side = inbound
handle_of outbound_side = outbound

abbrev pub data_of : Side → Conn → Option ℕ
data_of inbound_side k = k.inbound_data
data_of outbound_side k = k.outbound_data

-- `handle == &conn->inbound`, and the flag that is then set.
abbrev pub mark_closed : Side → Conn → Conn
mark_closed inbound_side k = record k { inbound_closed = true }
mark_closed outbound_side k = record k { outbound_closed = true }

-- The handle is the one on that side of the struct at `holder`.
unfoldable pub relay_close_cb : ℕ → Side → Cmd Unit
unfolding relay_maybe_free
relay_close_cb holder side = do
  h ← get_conn holder
  on_null (data_of side h) (pure tt)
      λ c. do when (c == holder) (set_conn c (mark_closed side)); relay_maybe_free c

unfoldable pub relay_close : Option ℕ → Cmd Unit
relay_close conn = on_null conn (pure tt) λ c. do
  k ← get_conn c
  if k.closing then pure tt else do
    set_conn c (λ x. record x { closing = true })
    when (not k.inbound_closed) (call_ (close (inbound c)))
    when (not k.outbound_closed) (call_ (close (outbound c)))

-- `*pending`
abbrev pub pending : Direction → Conn → ℕ
pending to_outbound k = k.pending_to_outbound
pending to_inbound k = k.pending_to_inbound

abbrev pub set_pending : Direction → ℕ → Conn → Conn
set_pending to_outbound n k = record k { pending_to_outbound = n }
set_pending to_inbound n k = record k { pending_to_inbound = n }

abbrev pub dst : Direction → ℕ → RelayHandle
dst to_outbound = outbound
dst to_inbound = inbound

unfoldable pub relay_write_cb : WriteReq → ℤ → Cmd Unit
unfolding relay_close
relay_write_cb req status = do
  k ← get_conn req.conn
  when (leb req.buf_len (pending req.direction k))
      (set_conn req.conn (set_pending req.direction (pending req.direction k - req.buf_len)))
  when (is_neg status) (relay_close (some req.conn))

-- A write that libuv holds, by its place, and the others.
abbrev pub take_write : ℕ → List WriteReq → Option (WriteReq × List WriteReq)
take_write n [] = none
take_write zero (req ∷ reqs) = some (req, reqs)
take_write (suc n) (req ∷ reqs) = elim (take_write n reqs) [
  | none ↦ none
  | some (found, rest) ↦ some (found, req ∷ rest)
]

-- libuv ends a write and calls `relay_write_cb`.
unfoldable pub write_finished : ℕ → ℤ → Cmd Unit
unfolding relay_write_cb
write_finished n status = do
  w ← get_world
  on_null (take_write n w.writes) (pure tt)
      λ found. do modify (λ v. record v { writes = found.1 }); relay_write_cb found.0 status

-- The direction that `stream == &conn->inbound` selects.
abbrev pub direction_of : ℕ → Side → Option ℕ → Direction
direction_of holder inbound_side none = to_inbound
direction_of holder inbound_side (some c) = if c == holder then to_outbound else to_inbound
direction_of holder outbound_side c = to_inbound

module _ (net : Net) where
  -- `uv_write`: libuv holds the request unless it answers an error.
  abbrev pub uv_write : WriteReq → Bytes → Cmd ℤ
  uv_write req bytes = do
    rc ← call net (write (dst req.direction req.conn) bytes)
    when (is_zero rc) (modify (λ w. record w { writes = req ∷ w.writes }))
    pure rc

  -- From the two allocations on.
  unfoldable pub relay_queue : ℕ → Direction → Bytes → Cmd Unit
  unfolding relay_close
  relay_queue c direction bytes = do
    set_conn c (λ x. set_pending direction (add_u64 (pending direction x) (length bytes)) x)
    rc ←
        uv_write (record { conn = c; direction = direction; buf_len = length bytes % 2 ^ 32 }) bytes
    when (not (is_zero rc)) (do
      set_conn c (λ x. set_pending direction (sub_u64 (pending direction x) (length bytes)) x)
      relay_close (some c))

  unfoldable pub relay_forward : Option ℕ → Direction → Bytes → Cmd Unit
  unfolding relay_close relay_queue
  relay_forward conn direction bytes = on_null conn (pure tt) λ c. do
    k ← get_conn c
    if k.closing || (length bytes == 0)
        then pure tt
        else if ltb portfwd_max_pending_bytes (add_u64 (pending direction k) (length bytes))
        then relay_close (some c)
        else do
          req_there ← allocate net malloc
          if not req_there then relay_close (some c) else do
            base_there ← allocate net malloc
            if not base_there then relay_close (some c) else relay_queue c direction bytes

  -- `nread` and the buffer: `none` for an error. A stream that is not the inbound handle of its
  -- `conn` forwards to the inbound one.
  unfoldable pub relay_read_cb : ℕ → Side → Option Bytes → Cmd Unit
  unfolding relay_close relay_forward
  relay_read_cb holder side nread = do
    h ← get_conn holder
    on_null nread (relay_close (data_of side h)) (λ bytes.
        if length bytes == 0
        then pure tt
        else relay_forward (data_of side h) (direction_of holder side (data_of side h)) bytes)

-- `req` is the `connect_req` of the struct at `holder`, whose `data` is that address.
unfoldable pub relay_connect_cb : ℕ → ℤ → Cmd Unit
unfolding relay_close
relay_connect_cb c status = if is_neg status then relay_close (some c) else do
  set_conn c (λ x. record x { outbound_connected = true })
  call_ (read_start (inbound c))
  call_ (read_start (outbound c))
