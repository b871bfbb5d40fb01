-- ===== src/Portfwd/Ordered.antt =====
-- What is read from one side of a connection is given to the other side, in order.
use reactos_luagent.Base.{
  ℕ, ◌+◌, ◌≤◌, ◌<◌, ◌==◌, ◌≡◌, refl, ap, sym, ◌∙◌, if◌then◌else◌, true, false, ◌&&◌, List, [], ◌∷◌,
  ◌++◌, append_assoc, append-nil, Bytes, length, length-append, Option, none, some, is_zero, arith,
  All,
}
use reactos_luagent.Libc.{add_u64}
use reactos_luagent.Portfwd.{
  Conn, conn_cell, Direction, to_outbound, to_inbound, RelayHandle, listener, inbound, outbound,
  reject_client, RelayCall, malloc, strdup, tcp_init, accept, close, read_start, bind, listen,
  getsockname, ip4_addr, connect, write, World, Net, Cmd, ok, pure, ◌>>◌, and_then,
}
use reactos_luagent.Portfwd.Forward.{
  Side, inbound_side, outbound_side, pending, set_pending, portfwd_max_pending_bytes, relay_read_cb,
  relay_forward, dst,
}
use reactos_luagent.Portfwd.Forward.Close.{if-run}
use reactos_luagent.Portfwd.Accounted.{same_direction}
use reactos_luagent.Portfwd.Accounted.Writes.{pending-set_same}
use reactos_luagent.Portfwd.Accounted.Sends.{relay_forward_lem, relay_queue_lem, queued}

abbrev pub side_of : RelayHandle → Option (ℕ × Direction)
side_of (outbound c) = some (c, to_outbound)
side_of (inbound c) = some (c, to_inbound)
side_of (listener r) = none
side_of (reject_client a) = none

abbrev pub bytes_for : ℕ → Direction → Bytes → Option (ℕ × Direction) → Bytes
bytes_for c d bytes none = []
bytes_for c d bytes (some (a, e)) = if (a == c) && same_direction e d then bytes else []

-- The bytes that were given to libuv for one side of a connection, in order.
abbrev pub written : ℕ → Direction → List RelayCall → Bytes
written c d [] = []
written c d (write handle bytes ∷ calls) = written c d calls ++ bytes_for c d bytes (side_of handle)
written c d (malloc ∷ calls) = written c d calls
written c d (strdup s ∷ calls) = written c d calls
written c d (tcp_init h ∷ calls) = written c d calls
written c d (accept h ∷ calls) = written c d calls
written c d (close h ∷ calls) = written c d calls
written c d (read_start h ∷ calls) = written c d calls
written c d (bind h ∷ calls) = written c d calls
written c d (listen h ∷ calls) = written c d calls
written c d (getsockname h ∷ calls) = written c d calls
written c d (ip4_addr host p ∷ calls) = written c d calls
written c d (connect h host p ∷ calls) = written c d calls

abbrev pub concat : List Bytes → Bytes
concat [] = []
concat (b ∷ bs) = b ++ concat bs

-- The direction of what is read from a side.
abbrev pub away_from : Side → Direction
away_from inbound_side = to_outbound
away_from outbound_side = to_inbound

module _ (net : Net) where
  -- The callback for one chunk after the other, read from one side.
  unfoldable pub read_chunks : ℕ → Side → List Bytes → Cmd Unit
  unfolding relay_read_cb
  read_chunks c side [] = pure tt
  read_chunks c side (b ∷ bs) = do relay_read_cb net c side (some b); read_chunks c side bs

  -- A connection that is not closing, with its handles set up.
  abbrev pub IsReady : ℕ → Conn → World → Type 0
  IsReady c k w =
      (w.heap c ≡ conn_cell k)
      × (k.closing ≡ false)
      × (k.inbound_data ≡ some c)
      × (k.outbound_data ≡ some c)

  -- Allocations and writes succeed.
  abbrev pub IsWilling : Type 0
  IsWilling =
      ((calls : List RelayCall) → net.malloc_ok calls ≡ true)
      × ((calls : List RelayCall) (e : RelayCall) → is_zero (net.result calls e) ≡ true)

  abbrev asked : World → World
  asked w = record w { calls = malloc ∷ malloc ∷ w.calls }

  forward_one :
      (c : ℕ) (d : Direction) (k : Conn) (b : Bytes) (w : World)
      → IsReady c k w
      → IsWilling
      → 0 < length b
      → pending d k + length b ≤ portfwd_max_pending_bytes
      → relay_forward net (some c) d b w ≡ ok tt (queued net c d b k (asked w))
  forward_one c d k b w r ws some_bytes room = grind (
    arith,
    relay_forward_lem net c d b k w r.0,
    relay_queue_lem net c d b k (asked w) r.0,
    ws.0 w.calls,
    ws.0 (malloc ∷ w.calls),
    ws.1 (asked w).calls (write (dst d c) b),
    r.1,
  )

  read_one :
      (c : ℕ) (side : Side) (k : Conn) (b : Bytes) (w : World)
      → IsReady c k w
      → 0 < length b
      → relay_read_cb net c side (some b) w ≡ relay_forward net (some c) (away_from side) b w
  unfolding relay_read_cb
  read_one c inbound_side k b w r some_bytes = grind (arith, if-run, r.0, r.2)
  read_one c outbound_side k b w r some_bytes = grind (arith, if-run, r.0, r.3)

  IsReady-next :
      (c : ℕ) (d : Direction) (k : Conn) (b : Bytes) (w : World)
      → IsReady c k w
      → IsReady c
          (set_pending d (add_u64 (pending d k) (length b)) k)
          (queued net c d b k (asked w))
  IsReady-next c to_outbound k b w r = (ground arith, r.1, r.2, r.3)
  IsReady-next c to_inbound k b w r = (ground arith, r.1, r.2, r.3)

  -- The new write is the last one for its side.
  written_next :
      (c : ℕ) (d : Direction) (k : Conn) (b : Bytes) (w : World)
      → written c d (queued net c d b k (asked w)).calls ≡ written c d w.calls ++ b
  written_next c to_outbound k b w = ground arith
  written_next c to_inbound k b w = ground arith

  -- If a connection is not closing, and allocations and writes succeed, and each chunk that is read
  -- from one side has at least a byte, and all of them have room in what may be pending for the
  -- other side, then the bytes given to libuv for the other side are those before and then the
  -- chunks, in order, and they count as pending.
  pub read_chunks_ordered :
      (c : ℕ) (side : Side) (bs : List Bytes) (k : Conn) (w : World)
      → IsReady c k w
      → IsWilling
      → All (λ b. 0 < length b) bs
      → pending (away_from side) k + length (concat bs) ≤ portfwd_max_pending_bytes
      → (w' : World) × (k' : Conn) × (read_chunks c side bs w ≡ ok tt w')
        × (written c (away_from side) w'.calls ≡ written c (away_from side) w.calls ++ concat bs)
        × (w'.heap c ≡ conn_cell k')
        × (pending (away_from side) k' ≡ pending (away_from side) k + length (concat bs))
  unfolding read_chunks
  read_chunks_ordered c side [] k w r ws fits room =
      (w, k, refl, sym (append-nil (written c (away_from side) w.calls)), r.0, omega arith)
  read_chunks_ordered c side (b ∷ bs) k w r ws fits room =
      let d = away_from side in
      let long = length-append b (concat bs) in
      let sum = add_u64 (pending d k) (length b) in
      let k1 = set_pending d sum k in
      let w1 = queued net c d b k (asked w) in
      let exact : pending d k1 ≡ pending d k + length b =
        pending-set_same d sum k ∙ ground (arith, long, room) in
      let (w', k', run, stream, there, counted) =
        read_chunks_ordered c side bs k1 w1 (IsReady-next c d k b w r) ws fits.1
          (omega (arith, long, exact, room)) in
      let first =
        read_one c side k b w r fits.0
        ∙ forward_one c d k b w r ws fits.0 (omega (arith, long, room)) in
      (
        w',
        k',
        ap (λ t. and_then t (λ _. read_chunks c side bs)) first ∙ run,
        stream
            ∙ ap (λ l. l ++ concat bs) (written_next c d k b w)
            ∙ append_assoc (written c d w.calls) b (concat bs),
        there,
        omega (arith, counted, exact, long),
      )
