-- ===== src/Portfwd/Keeps.antt =====
-- Invariants of commands, one rule for each way to build a command. A command that faults or runs
-- out of fuel leaves no world.
use reactos_luagent.Base.{◌≡◌, refl, ℕ, Bool, true, false, if◌then◌else◌, Option, none, some}
use reactos_luagent.Portfwd.{
  Cell, freed, client_cell, relay_cell, conn_cell, World, Run, ok, fault, out_of_fuel, no_fuel, Cmd,
  pure, and_then, ◌>>=◌, on_null, get_world, modify, get_relay, get_conn, as_relay, as_conn,
}

abbrev pub Leaves : {A : Type 0} → (World → Type 0) → Run A → Type 0
Leaves P (ok a w) = P w
Leaves P fault = Unit
Leaves P out_of_fuel = Unit

pub record Keeps {A : Type 0} (P : World → Type 0) (m : Cmd A) : Type 0 where
  pub at : (w : World) → P w → Leaves P (m w)

as_relay-Leaves : (P : World → Type 0) (c : Cell) (w : World) → P w → Leaves P (as_relay c w)
as_relay-Leaves P (relay_cell r) w h = h
as_relay-Leaves P freed w h = tt
as_relay-Leaves P client_cell w h = tt
as_relay-Leaves P (conn_cell k) w h = tt

as_conn-Leaves : (P : World → Type 0) (c : Cell) (w : World) → P w → Leaves P (as_conn c w)
as_conn-Leaves P (relay_cell r) w h = tt
as_conn-Leaves P freed w h = tt
as_conn-Leaves P client_cell w h = tt
as_conn-Leaves P (conn_cell k) w h = h

pub Leaves-if :
    {A : Type 0} (P : World → Type 0) (b : Bool) (t u : Run A)
    → (b ≡ true → Leaves P t)
    → (b ≡ false → Leaves P u)
    → Leaves P (if b then t else u)
Leaves-if P true t u kt ku = kt refl
Leaves-if P false t u kt ku = ku refl

module _ {P : World → Type 0} where
  pub Keeps-pure : {A : Type 0} (a : A) → Keeps P (pure a)
  Keeps-pure a = record { at = λ w h. h }

  pub Keeps-no_fuel : {A : Type 0} → Keeps P (no_fuel {A = A})
  Keeps-no_fuel = record { at = λ w h. tt }

  pub Leaves-and_then :
      {A B : Type 0} (t : Run A) (f : A → Cmd B)
      → Leaves P t
      → ((a : A) → Keeps P (f a))
      → Leaves P (and_then t f)
  Leaves-and_then (ok a w) f h k = (k a).at w h
  Leaves-and_then fault f h k = tt
  Leaves-and_then out_of_fuel f h k = tt

  pub Keeps-bind :
      {A B : Type 0} (m : Cmd A) (f : A → Cmd B)
      → Keeps P m
      → ((a : A) → Keeps P (f a))
      → Keeps P (m >>= f)
  Keeps-bind m f km kf = record { at = λ w h. Leaves-and_then (m w) f (km.at w h) kf }

  pub Keeps-if :
      {A : Type 0} (b : Bool) (m n : Cmd A) → Keeps P m → Keeps P n → Keeps P (if b then m else n)
  Keeps-if true m n km kn = km
  Keeps-if false m n km kn = kn

  pub Keeps-on_null :
      {A B : Type 0} (o : Option A) (m : Cmd B) (f : A → Cmd B)
      → Keeps P m
      → ((a : A) → Keeps P (f a))
      → Keeps P (on_null o m f)
  Keeps-on_null none m f km kf = km
  Keeps-on_null (some a) m f km kf = kf a

  pub Keeps-get_world : Keeps P get_world
  Keeps-get_world = record { at = λ w h. h }

  pub Keeps-modify : (f : World → World) → ((w : World) → P w → P (f w)) → Keeps P (modify f)
  Keeps-modify f k = record { at = k }

  pub Keeps-get_relay : (a : ℕ) → Keeps P (get_relay a)
  Keeps-get_relay a = record { at = λ w h. as_relay-Leaves _ (w.heap a) w h }

  pub Keeps-get_conn : (a : ℕ) → Keeps P (get_conn a)
  Keeps-get_conn a = record { at = λ w h. as_conn-Leaves _ (w.heap a) w h }

pub ruleset keeps_rules = (
  Keeps-pure, Keeps-no_fuel, Keeps-bind, Keeps-if, Keeps-on_null, Keeps-get_world, Keeps-get_relay,
  Keeps-get_conn,
)
