-- ===== src/Portfwd/Accounted/Sends.antt =====
-- Forwarding bytes keeps the account.
use mathlib.Core.Path.{fun_ext}
use reactos_luagent.Base.{
  zero, suc, ◌||◌, ℕ, ◌+◌, ◌≤◌, ◌<◌, ◌%◌, ◌^◌, ◌==◌, ltb, ◌≡◌, refl, ap, sym, subst, ◌∙◌,
  if◌then◌else◌, false, not, List, ◌∷◌, Bytes, length, Option, none, some, is_zero, arith,
}
use reactos_luagent.Libc.{add_u64, sub_u64}
use reactos_luagent.Portfwd.{
  malloc, RelayCall, Conn, Cell, freed, client_cell, relay_cell, conn_cell, Direction, to_outbound,
  to_inbound, Run, World, Net, ok, put, as_conn, write, fault,
}
use reactos_luagent.Portfwd.Forward.{
  pending, set_pending, portfwd_max_pending_bytes, relay_close, relay_queue, relay_forward,
  relay_read_cb, dst, Side,
}
use reactos_luagent.Portfwd.Forward.Close.{if-run}
use reactos_luagent.Portfwd.Keeps.{Keeps, Leaves, Leaves-if, keeps_rules}
use reactos_luagent.Portfwd.Accounted.{IsAccounted, Accounted}
use reactos_luagent.Portfwd.Accounted.Forwarded.{relay_close-Accounted}
use reactos_luagent.Portfwd.Accounted.Writes.{
  set_pending-IsAccounted, pending-set_same, same_direction_refl,
}

put-put : {A : Type 0} (f : ℕ → A) (a : ℕ) (x y : A) → put (put f a x) a y ≡ put f a y
put-put f a x y = fun_ext λ b. ground arith

set_pending-set_pending :
    (d : Direction) (m n : ℕ) (k : Conn) → set_pending d n (set_pending d m k) ≡ set_pending d n k
set_pending-set_pending to_outbound m n k = refl
set_pending-set_pending to_inbound m n k = refl

abbrev pub mallocs : ℕ → List RelayCall → List RelayCall
mallocs zero calls = calls
mallocs (suc n) calls = malloc ∷ mallocs n calls

module _ (net : Net) (c : ℕ) (d : Direction) (bytes : Bytes) (k : Conn) (w : World) where
  abbrev pub sum : ℕ
  sum = add_u64 (pending d k) (length bytes)

  abbrev pub queued : World
  queued = record w {
    heap = put w.heap c (conn_cell (set_pending d sum k));
    calls = write (dst d c) bytes ∷ w.calls;
    writes = record { conn = c; direction = d; buf_len = length bytes % 2 ^ 32 } ∷ w.writes;
  }

  abbrev pub refused : World
  refused =
      let k' = set_pending d sum k in
      record w {
        heap =
            put (put w.heap c (conn_cell k')) c
              (conn_cell (set_pending d (sub_u64 (pending d k') (length bytes)) k'));
        calls = write (dst d c) bytes ∷ w.calls;
      }

  pub relay_queue_lem :
      w.heap c ≡ conn_cell k
      → relay_queue net c d bytes w ≡ (
          if is_zero (net.result w.calls (write (dst d c) bytes))
          then ok tt queued
          else relay_close (some c) refused)
  unfolding relay_queue
  relay_queue_lem h = grind (arith, if-run)

  queued-Accounted :
      Accounted w
      → w.heap c ≡ conn_cell k
      → pending d k + length bytes ≤ portfwd_max_pending_bytes
      → Accounted queued
  queued-Accounted h there room =
      set_pending-IsAccounted w.heap w.next_addr w.writes _ c k d sum h there
        (λ b e ne. ground arith) (ground (arith, h.counted c k there d, same_direction_refl d))
        (omega arith)

  refused-Accounted :
      Accounted w
      → w.heap c ≡ conn_cell k
      → pending d k + length bytes ≤ portfwd_max_pending_bytes
      → Accounted refused
  refused-Accounted h there room =
      let back : sub_u64 (pending d (set_pending d sum k)) (length bytes) ≡ pending d k =
        ground (arith, pending-set_same d sum k) in
      subst (λ f. IsAccounted f w.next_addr w.writes)
        (sym (
          put-put w.heap c (conn_cell (set_pending d sum k)) _
          ∙ ap (λ k'. put w.heap c (conn_cell k')) (set_pending-set_pending d sum _ k)))
        (set_pending-IsAccounted w.heap w.next_addr w.writes w.writes c k d _ h there
          (λ b e ne. refl) (sym (back ∙ h.counted c k there d)) (omega (arith, back)))

  relay_queue-Accounted :
      Accounted w
      → w.heap c ≡ conn_cell k
      → pending d k + length bytes ≤ portfwd_max_pending_bytes
      → Leaves Accounted (relay_queue net c d bytes w)
  relay_queue-Accounted h there room =
      subst (λ t. Leaves Accounted t) (sym (relay_queue_lem there))
        (Leaves-if Accounted (is_zero (net.result w.calls (write (dst d c) bytes))) (ok tt queued)
          (relay_close (some c) refused) (λ e. queued-Accounted h there room)
          (λ e. (relay_close-Accounted (some c)).at refused (refused-Accounted h there room)))

  abbrev pub after_mallocs : ℕ → World
  after_mallocs n = record w { calls = mallocs n w.calls }

  pub relay_forward_lem :
      w.heap c ≡ conn_cell k
      → relay_forward net (some c) d bytes w ≡ (
          if k.closing || (length bytes == 0)
          then ok tt w
          else if ltb portfwd_max_pending_bytes sum
          then relay_close (some c) w
          else if not (net.malloc_ok w.calls)
          then relay_close (some c) (after_mallocs 1)
          else if not (net.malloc_ok (malloc ∷ w.calls))
          then relay_close (some c) (after_mallocs 2)
          else relay_queue net c d bytes (after_mallocs 2))
  unfolding relay_forward
  relay_forward_lem h = grind (arith, if-run)

forward-Accounted :
    (net : Net) (c : ℕ) (d : Direction) (bytes : Bytes) (k : Conn) (w : World)
    → length bytes < 2 ^ 63
    → Accounted w
    → w.heap c ≡ conn_cell k
    → Leaves Accounted (relay_forward net (some c) d bytes w)
forward-Accounted net c d bytes k w small h there =
    let close : (n : ℕ)
        → Leaves Accounted (relay_close (some c) (record w { calls = mallocs n w.calls })) =
      λ n. (relay_close-Accounted (some c)).at _ h in
    let room : ltb portfwd_max_pending_bytes (add_u64 (pending d k) (length bytes)) ≡ false
        → pending d k + length bytes ≤ portfwd_max_pending_bytes =
      λ e. ground (arith, h.bounded c k there d) in
    let queue : Run Unit = relay_queue net c d bytes (record w { calls = mallocs 2 w.calls }) in
    let close_at : ℕ → Run Unit =
      λ n. relay_close (some c) (record w { calls = mallocs n w.calls }) in
    let base : Run Unit = if not (net.malloc_ok (malloc ∷ w.calls)) then close_at 2 else queue in
    let reqs : Run Unit = if not (net.malloc_ok w.calls) then close_at 1 else base in
    let bound = ltb portfwd_max_pending_bytes (add_u64 (pending d k) (length bytes)) in
    subst (λ t. Leaves Accounted t) (sym (relay_forward_lem net c d bytes k w there))
      (Leaves-if Accounted (k.closing || (length bytes == 0)) (ok tt w)
        (if bound then close_at 0 else reqs) (λ e. h)
        λ e.
          Leaves-if Accounted bound (close_at 0) reqs (λ e1. close 0)
            λ e1.
              Leaves-if Accounted (not (net.malloc_ok w.calls)) (close_at 1) base (λ e2. close 1)
                λ e2.
                  Leaves-if Accounted (not (net.malloc_ok (malloc ∷ w.calls))) (close_at 2) queue
                    (λ e3. close 2)
                    λ e3.
                      relay_queue-Accounted net c d bytes k (record w { calls = mallocs 2 w.calls })
                        h there (room e1))

forward_dangles :
    (net : Net) (c : ℕ) (d : Direction) (bytes : Bytes) (w : World)
    → as_conn (w.heap c) w ≡ fault
    → relay_forward net (some c) d bytes w ≡ fault
unfolding relay_forward
forward_dangles net c d bytes w h = grind arith

-- A connection that is freed faults; else the forwarded bytes are accounted for.
pub relay_forward-Accounted :
    (net : Net) (conn : Option ℕ) (d : Direction) (bytes : Bytes)
    → length bytes < 2 ^ 63
    → Keeps Accounted (relay_forward net conn d bytes)
unfolding relay_forward
relay_forward-Accounted net none d bytes small = record { at = λ w h. h }
relay_forward-Accounted net (some c) d bytes small = record {
  at = λ w h. of_cell w h (w.heap c) refl;
}
  where
    of_cell :
        (w : World)
        → Accounted w
        → (x : Cell) → w.heap c ≡ x
        → Leaves Accounted (relay_forward net (some c) d bytes w)
    of_cell w h (conn_cell k) e = forward-Accounted net c d bytes k w small h e
    of_cell w h freed e =
        subst (λ t. Leaves Accounted t)
          (sym (forward_dangles net c d bytes w (ap (λ x. as_conn x w) e))) tt
    of_cell w h client_cell e =
        subst (λ t. Leaves Accounted t)
          (sym (forward_dangles net c d bytes w (ap (λ x. as_conn x w) e))) tt
    of_cell w h (relay_cell r) e =
        subst (λ t. Leaves Accounted t)
          (sym (forward_dangles net c d bytes w (ap (λ x. as_conn x w) e))) tt

pub relay_read_cb-Accounted :
    (net : Net) (holder : ℕ) (side : Side) (nread : Option Bytes)
    → ((bytes : Bytes) → nread ≡ some bytes → length bytes < 2 ^ 63)
    → Keeps Accounted (relay_read_cb net holder side nread)
unfolding relay_read_cb
relay_read_cb-Accounted net holder side none small =
    search (keeps_rules, relay_close-Accounted) depth 30
relay_read_cb-Accounted net holder side (some bytes) small =
    let fits = small bytes refl in search (keeps_rules, relay_forward-Accounted, fits) depth 30
