-- ===== src/Portfwd/Accounted/Writes.antt =====
-- Starting and finishing a write keep the account.
use reactos_luagent.Base.{
  ℕ, zero, suc, ◌+◌, ◌-◌, ◌≤◌, ◌==◌, ◌≡◌, refl, ap, sym, subst, ◌∙◌, if◌then◌else◌, Bool, true,
  false, ◌&&◌, List, [], ◌∷◌, Option, none, some, ℤ, is_neg, arith, inl, inr,
}
use reactos_luagent.Portfwd.{
  Conn, Cell, freed, client_cell, relay_cell, conn_cell, WriteReq, Direction, to_outbound,
  to_inbound, World, put, pure, ◌>>◌, on_null, modify, fault, when, as_conn,
}
use reactos_luagent.Portfwd.Forward.{
  pending, set_pending, portfwd_max_pending_bytes, relay_close, relay_write_cb, take_write,
  write_finished,
}
use reactos_luagent.Portfwd.Forward.Close.{if-run}
use reactos_luagent.Portfwd.Keeps.{Keeps, Leaves, Keeps-if, Keeps-pure}
use reactos_luagent.Portfwd.Accounted.{IsAccounted, Accounted, outstanding, same_direction}
use reactos_luagent.Portfwd.Accounted.Kept.{put-cases, CellAccounted}
use reactos_luagent.Portfwd.Accounted.Forwarded.{relay_close-Accounted}

-- What one write counts for a connection and direction.
abbrev pub share : ℕ → Direction → WriteReq → ℕ
share c d req = if (c == req.conn) && same_direction d req.direction then req.buf_len else 0

take_write-outstanding :
    (n : ℕ) (reqs rest : List WriteReq) (req : WriteReq)
    → take_write n reqs ≡ some (req, rest)
    → (c : ℕ) (d : Direction) → outstanding c d reqs ≡ share c d req + outstanding c d rest
take_write-outstanding n [] rest req h c d = absurd (ground arith)
take_write-outstanding zero (r ∷ reqs) rest req h c d = ground arith
take_write-outstanding (suc n) (r ∷ reqs) rest req h c d =
    of_rest (take_write n reqs) refl h
      (λ rest' found e. take_write-outstanding n reqs rest' found e c d)
  where
    of_rest :
        (o : Option (WriteReq × List WriteReq))
        → take_write n reqs ≡ o
        → (elim o as (λ x. Option (WriteReq × List WriteReq)) [
          | none ↦ none
          | some (found, rest') ↦ some (found, r ∷ rest')
        ])
          ≡ some (req, rest)
        → ((rest' : List WriteReq) (found : WriteReq)
            → take_write n reqs ≡ some (found, rest')
            → outstanding c d reqs ≡ share c d found + outstanding c d rest')
        → outstanding c d (r ∷ reqs) ≡ share c d req + outstanding c d rest
    of_rest none e h' ih = absurd (ground arith)
    of_rest (some (found, rest')) e h' ih = ground (arith, ih rest' found e)

-- The pending bytes after a change of one direction.
pub pending-set_same : (d : Direction) (n : ℕ) (k : Conn) → pending d (set_pending d n k) ≡ n
pending-set_same to_outbound n k = refl
pending-set_same to_inbound n k = refl

pending-set_other :
    (d e : Direction) (n : ℕ) (k : Conn)
    → same_direction e d ≡ false
    → pending e (set_pending d n k) ≡ pending e k
pending-set_other to_outbound to_outbound n k h = absurd (ground arith)
pending-set_other to_outbound to_inbound n k h = refl
pending-set_other to_inbound to_outbound n k h = refl
pending-set_other to_inbound to_inbound n k h = absurd (ground arith)

pub same_direction_refl : (d : Direction) → same_direction d d ≡ true
same_direction_refl to_outbound = refl
same_direction_refl to_inbound = refl

same_direction→≡ : (d e : Direction) → same_direction d e ≡ true → d ≡ e
same_direction→≡ to_outbound to_outbound h = refl
same_direction→≡ to_inbound to_inbound h = refl
same_direction→≡ to_outbound to_inbound h = absurd (ground arith)
same_direction→≡ to_inbound to_outbound h = absurd (ground arith)

-- The account after the writes and the count of one connection in one direction changed alike.
pub set_pending-IsAccounted :
    (heap : ℕ → Cell) (next : ℕ) (writes writes' : List WriteReq) (c : ℕ) (k : Conn) (d : Direction)
    (n : ℕ)
    → IsAccounted heap next writes
    → heap c ≡ conn_cell k
    → ((b : ℕ) (e : Direction)
        → ((b == c) && same_direction e d) ≡ false
        → outstanding b e writes' ≡ outstanding b e writes)
    → outstanding c d writes' ≡ n
    → n ≤ portfwd_max_pending_bytes
    → IsAccounted (put heap c (conn_cell (set_pending d n k))) next writes'
set_pending-IsAccounted heap next writes writes' c k d n h there other this fits =
    let k' = set_pending d n k in
    let cell : (e : Direction)
        → (pending e k' ≡ outstanding c e writes') × (pending e k' ≤ portfwd_max_pending_bytes) =
      λ e. of_direction e (same_direction e d) refl in
    record {
      new_freed = λ b le. ground (arith, h.new_freed b le, there);
      new_idle = λ b le e. other b e (ground (arith, h.new_freed b le, there)) ∙ h.new_idle b le e;
      counted = λ b k1 e d1. elim (put-cases heap c (conn_cell k') b (conn_cell k1) e) [
        | inl (here, e') ↦
            (subst (λ c'. CellAccounted c writes' c') e' cell d1).0
            ∙ ap (λ a. outstanding a d1 writes') (sym here)
        | inr (ne, old) ↦ h.counted b k1 old d1 ∙ sym (other b d1 (ground (arith, ne)))
      ];
      bounded = λ b k1 e d1. elim (put-cases heap c (conn_cell k') b (conn_cell k1) e) [
        | inl (here, e') ↦ (subst (λ c'. CellAccounted c writes' c') e' cell d1).1
        | inr (ne, old) ↦ h.bounded b k1 old d1
      ];
    }
  where
    of_direction :
        (e : Direction) (t : Bool)
        → same_direction e d ≡ t
        → (pending e (set_pending d n k) ≡ outstanding c e writes')
          × (pending e (set_pending d n k) ≤ portfwd_max_pending_bytes)
    of_direction e true s =
        subst
          (λ e'.
            (pending e' (set_pending d n k) ≡ outstanding c e' writes')
            × (pending e' (set_pending d n k) ≤ portfwd_max_pending_bytes))
          (sym (same_direction→≡ e d s))
          (
            pending-set_same d n k ∙ sym this,
            subst (λ m. m ≤ portfwd_max_pending_bytes) (sym (pending-set_same d n k)) fits,
          )
    of_direction e false s = (
      pending-set_other d e n k s ∙ h.counted c k there e ∙ sym (other c e (ground arith)),
      subst (λ m. m ≤ portfwd_max_pending_bytes) (sym (pending-set_other d e n k s))
          (h.bounded c k there e),
    )

-- A finished write is taken off the count of its connection.
relay_write_cb_lem :
    (req : WriteReq) (status : ℤ) (k : Conn) (w : World)
    → w.heap req.conn ≡ conn_cell k
    → req.buf_len ≤ pending req.direction k
    → relay_write_cb req status w
      ≡ when (is_neg status) (relay_close (some req.conn)) (record w {
        heap =
            put w.heap req.conn
              (conn_cell (set_pending req.direction (pending req.direction k - req.buf_len) k));
      })
unfolding relay_write_cb
relay_write_cb_lem req status k w h le = grind (arith, if-run)

finished-Accounted :
    (w : World) (k : Conn) (req : WriteReq) (rest : List WriteReq)
    → Accounted w
    → w.heap req.conn ≡ conn_cell k
    → ((c : ℕ) (d : Direction) → outstanding c d w.writes ≡ share c d req + outstanding c d rest)
    → IsAccounted
        (put w.heap req.conn
          (conn_cell (set_pending req.direction (pending req.direction k - req.buf_len) k)))
        w.next_addr
        rest
finished-Accounted w k req rest h there split =
    let share_left : outstanding req.conn req.direction rest
        ≡ pending req.direction k - req.buf_len =
      ground (
        arith,
        split req.conn req.direction,
        h.counted req.conn k there req.direction,
        same_direction_refl req.direction,
      ) in
    set_pending-IsAccounted w.heap w.next_addr w.writes rest req.conn k req.direction
      (pending req.direction k - req.buf_len) h there (λ b e ne. ground (arith, split b e))
      (share_left) (omega (arith, h.bounded req.conn k there req.direction))

relay_write_cb_dangles :
    (req : WriteReq) (status : ℤ) (w : World)
    → as_conn (w.heap req.conn) w ≡ fault
    → relay_write_cb req status w ≡ fault
unfolding relay_write_cb
relay_write_cb_dangles req status w h = grind arith

pub write_finished-Accounted : (n : ℕ) (status : ℤ) → Keeps Accounted (write_finished n status)
unfolding write_finished
write_finished-Accounted n status = record { at = λ w h. of_write w h (take_write n w.writes) refl }
  where
    of_conn :
        (w : World) (h : Accounted w) (req : WriteReq) (rest : List WriteReq) (c : Cell)
        → w.heap req.conn ≡ c
        → ((c : ℕ) (d : Direction)
            → outstanding c d w.writes ≡ share c d req + outstanding c d rest)
        → Leaves Accounted (relay_write_cb req status (record w { writes = rest }))
    of_conn w h req rest (conn_cell k) e split =
        subst (λ t. Leaves Accounted t)
          (sym (
            relay_write_cb_lem req status k (record w { writes = rest }) e
              (ground (
                arith,
                split req.conn req.direction,
                h.counted req.conn k e req.direction,
                same_direction_refl req.direction,
              ))))
          ((Keeps-if (is_neg status) (relay_close (some req.conn)) (pure tt)
              (relay_close-Accounted (some req.conn)) (Keeps-pure tt)).at
            _ (finished-Accounted w k req rest h e split))
    of_conn w h req rest freed e split =
        subst (λ t. Leaves Accounted t)
          (sym (
            relay_write_cb_dangles req status (record w { writes = rest })
              (ap (λ c. as_conn c (record w { writes = rest })) e)))
          tt
    of_conn w h req rest client_cell e split =
        subst (λ t. Leaves Accounted t)
          (sym (
            relay_write_cb_dangles req status (record w { writes = rest })
              (ap (λ c. as_conn c (record w { writes = rest })) e)))
          tt
    of_conn w h req rest (relay_cell r) e split =
        subst (λ t. Leaves Accounted t)
          (sym (
            relay_write_cb_dangles req status (record w { writes = rest })
              (ap (λ c. as_conn c (record w { writes = rest })) e)))
          tt

    of_write :
        (w : World)
        → Accounted w
        → (o : Option (WriteReq × List WriteReq)) → take_write n w.writes ≡ o
        → Leaves Accounted (
            on_null o
              (pure tt)
              (λ found. do
                modify (λ v. record v { writes = found.1 })
                relay_write_cb found.0 status)
              w)
    of_write w h none e = h
    of_write w h (some (req, rest)) e =
        of_conn w h req rest (w.heap req.conn) refl (take_write-outstanding n w.writes rest req e)
