-- ===== src/Portfwd/Forward/Close.antt =====
-- `relay_close` by its effect.
use reactos_luagent.Base.{ℕ, ◌≡◌, refl, if◌then◌else◌, Bool, true, false, List, ◌∷◌, some, arith}
use reactos_luagent.Portfwd.{
  Conn, conn_cell, World, Cmd, RelayCall, close, inbound, outbound, ok, put, ◌>>=◌,
}
use reactos_luagent.Portfwd.Forward.{relay_close}

-- The closes of the handles that are not closed yet.
abbrev pub close_handles : ℕ → Conn → List RelayCall → List RelayCall
close_handles c k calls =
    let calls' = if k.inbound_closed then calls else close (inbound c) ∷ calls in
    if k.outbound_closed then calls' else close (outbound c) ∷ calls'

abbrev pub after_close : ℕ → Conn → World → World
after_close c k w = if k.closing then w else record w {
  heap = put w.heap c (conn_cell (record k { closing = true }));
  calls = close_handles c k w.calls;
}

-- A command chosen by a test, at a world.
pub if-run :
    {A : Type 0} (b : Bool) (m n : Cmd A) (w : World)
    → (if b then m else n) w ≡ (if b then m w else n w)
if-run true m n w = refl
if-run false m n w = refl

pub relay_close_lem :
    (c : ℕ) (k : Conn) (w : World)
    → w.heap c ≡ conn_cell k
    → relay_close (some c) w ≡ ok tt (after_close c k w)
unfolding relay_close
relay_close_lem c k w h = grind (arith, if-run)

-- A connection closes its handles once.
pub relay_close_once :
    (c : ℕ) (k : Conn) (w : World)
    → w.heap c ≡ conn_cell k
    → (relay_close (some c) >>= λ _. relay_close (some c)) w ≡ ok tt (after_close c k w)
unfolding relay_close
relay_close_once c k w h = grind (arith, if-run)
