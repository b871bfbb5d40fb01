-- ===== src/Client/Working.antt =====
-- What it means that a call of tests/host_client/client.c returns, and that its network works.
use reactos_luagent.Base.{
  ℕ, ◌^◌, ◌<◌, ◌≤◌, ◌≡◌, Bool, true, false, ◌∷◌, ◌++◌, Bytes, length, take, drop, arith,
}
use reactos_luagent.Frame.{read_u32le, write_u32le}
use reactos_luagent.Client.{
  Wire, Network, Result, ok, failed, Client, fail, bind, when, header, ◌>>=◌,
}

-- A call returns, with a value and a state for which `P` holds.
abbrev pub Returns : {A : Type 0} → (A → Wire → Type 0) → Result A → Type 0
Returns P (ok a w) = P a w
Returns P (failed w) = ⊥

Returns-bind :
    {A B : Type 0}
    → (P : A → Wire → Type 0) (Q : B → Wire → Type 0) (r : Result A) (f : A → Client B)
    → Returns P r
    → ((a : A) (w : Wire) → P a w → Returns Q (f a w))
    → Returns Q (bind r f)
unfolding bind
Returns-bind P Q (ok a w) f first second = second a w first
Returns-bind P Q (failed w) f first second = absurd first

pub Returns-then :
    {A B : Type 0}
    → (P : A → Wire → Type 0) (Q : B → Wire → Type 0) (w : Wire) (m : Client A) (f : A → Client B)
    → Returns P (m w)
    → ((a : A) (w' : Wire) → P a w' → Returns Q (f a w'))
    → Returns Q ((m >>= f) w)
unfolding ◌>>=◌
Returns-then P Q w m f first second = Returns-bind P Q (m w) f first second

-- `send` takes at least a byte, and `recv` gives some of the bytes of `answers` that it has not given.
pub record Works (net : Network) (answers : Bytes) : Type 0 where
  pub sends : (sent : Bytes) (c : ℕ) (cs : Bytes) → 0 < net.send sent (c ∷ cs)
  pub allocates : (received : Bytes) (n : ℕ) → net.calloc received n ≡ true
  pub answered :
      (received rest : Bytes) (n : ℕ)
      → received ++ rest ≡ answers
      → 0 < n
      → n ≤ length rest
      → (k : ℕ) × (0 < k) × (k ≤ n) × (net.recv received n ≡ take k rest)

pub check-Returns :
    (P : Unit → Wire → Type 0) (c : Bool) (w : Wire)
    → c ≡ false
    → P tt w
    → Returns P (when c fail w)
check-Returns P c w e h = rw e h

-- The fields of a header, read again.
pub header_length : (type id n : ℕ) → n < 2 ^ 32 → read_u32le (drop 10 (header type id n)) ≡ n
unfolding read_u32le write_u32le
header_length type id n h = omega arith

pub header_req_id : (type id n : ℕ) → id < 2 ^ 32 → read_u32le (drop 6 (header type id n)) ≡ id
unfolding read_u32le write_u32le
header_req_id type id n h = omega arith
