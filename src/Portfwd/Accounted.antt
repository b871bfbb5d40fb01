-- ===== src/Portfwd/Accounted.antt =====
-- The bytes that a connection counts as pending are those of the writes that libuv holds for it.
pub mod Kept
pub mod Forwarded
pub mod Writes
pub mod Relays
pub mod Sends
use reactos_luagent.Base.{
  [], ℕ, ◌+◌, ◌≤◌, ◌==◌, ◌≡◌, if◌then◌else◌, Bool, true, false, ◌&&◌, List, ◌∷◌,
}
use reactos_luagent.Portfwd.{
  Conn, Cell, freed, conn_cell, WriteReq, Direction, to_outbound, to_inbound, World,
}
use reactos_luagent.Portfwd.Forward.{pending, portfwd_max_pending_bytes}

abbrev pub same_direction : Direction → Direction → Bool
same_direction to_outbound to_outbound = true
same_direction to_outbound to_inbound = false
same_direction to_inbound to_outbound = false
same_direction to_inbound to_inbound = true

-- The bytes of the writes for a connection in one direction.
abbrev pub outstanding : ℕ → Direction → List WriteReq → ℕ
outstanding c d [] = 0
outstanding c d (req ∷ reqs) =
    (if (c == req.conn) && same_direction d req.direction then req.buf_len else 0)
    + outstanding c d reqs

-- What the heap and the writes have to do with each other, where addresses from `next` on are new.
pub record IsAccounted (heap : ℕ → Cell) (next : ℕ) (writes : List WriteReq) : Type 0 where
  pub new_freed : (a : ℕ) → next ≤ a → heap a ≡ freed
  pub new_idle : (a : ℕ) → next ≤ a → (d : Direction) → outstanding a d writes ≡ 0
  pub counted :
      (c : ℕ) (k : Conn)
      → heap c ≡ conn_cell k
      → (d : Direction) → pending d k ≡ outstanding c d writes
  pub bounded :
      (c : ℕ) (k : Conn)
      → heap c ≡ conn_cell k
      → (d : Direction) → pending d k ≤ portfwd_max_pending_bytes

abbrev pub Accounted : World → Type 0
Accounted w = IsAccounted w.heap w.next_addr w.writes
