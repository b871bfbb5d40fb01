-- ===== src/Portfwd/Gives.antt =====
-- Commands that return, and what they return: one rule for each way to build a command.
use reactos_luagent.Base.{ℕ, ◌≡◌, refl, sym, subst, Bool, true, false, if◌then◌else◌}
use reactos_luagent.Portfwd.{
  when, Relay, relay_cell, World, Run, ok, fault, out_of_fuel, Cmd, and_then, put, get_relay,
  set_relay, as_relay, store,
}

-- The run returns, with a result and a world of which `Q` holds.
abbrev pub Gives : {A : Type 0} → (A → World → Type 0) → Run A → Type 0
Gives Q (ok a w) = Q a w
Gives Q fault = ⊥
Gives Q out_of_fuel = ⊥

pub Gives-run :
    {A : Type 0} (Q : A → World → Type 0) (t : Run A)
    → Gives Q t
    → (a : A) × (w : World) × (t ≡ ok a w) × Q a w
Gives-run Q (ok a w) h = (a, w, refl, h)
Gives-run Q fault h = absurd h
Gives-run Q out_of_fuel h = absurd h

module _ {A : Type 0} (Q : A → World → Type 0) (w : World) where
  pub Gives-if :
      (b : Bool) (m n : Cmd A)
      → (b ≡ true → Gives Q (m w))
      → (b ≡ false → Gives Q (n w))
      → Gives Q ((if b then m else n) w)
  Gives-if true m n km kn = km refl
  Gives-if false m n km kn = kn refl

  pub Gives-get_relay :
      (a : ℕ) (x : Relay) (k : Relay → Cmd A)
      → w.heap a ≡ relay_cell x
      → Gives Q (k x w)
      → Gives Q (and_then (get_relay a w) k)
  Gives-get_relay a x k h g = subst (λ c. Gives Q (and_then (as_relay c w) k)) (sym h) g

  pub Gives-set_relay :
      (a : ℕ) (x : Relay) (f : Relay → Relay) (k : Unit → Cmd A)
      → w.heap a ≡ relay_cell x
      → Gives Q (k tt (record w { heap = put w.heap a (relay_cell (f x)) }))
      → Gives Q (and_then (set_relay a f w) k)
  Gives-set_relay a x f k h g =
      subst (λ c. Gives Q (and_then (and_then (as_relay c w) (λ r. store a (relay_cell (f r)))) k))
        (sym h) g

  pub Gives-when :
      (b : Bool) (m : Cmd Unit) (k : Unit → Cmd A)
      → Gives Q (and_then (m w) k)
      → Gives Q (k tt w)
      → Gives Q (and_then (when b m w) k)
  Gives-when true m k km kn = km
  Gives-when false m k km kn = kn

module _ {A : Type 0} (Q : A → World → Type 0) where
  -- Four tests, one after the other.
  pub Gives-four :
      (b1 b2 b3 b4 : Bool) (t1 t2 t3 t4 t : Run A)
      → Gives Q t1
      → Gives Q t2
      → Gives Q t3
      → Gives Q t4
      → Gives Q t
      → Gives Q (if b1 then t1 else if b2 then t2 else if b3 then t3 else if b4 then t4 else t)
  Gives-four true b2 b3 b4 t1 t2 t3 t4 t h1 h2 h3 h4 h = h1
  Gives-four false true b3 b4 t1 t2 t3 t4 t h1 h2 h3 h4 h = h2
  Gives-four false false true b4 t1 t2 t3 t4 t h1 h2 h3 h4 h = h3
  Gives-four false false false true t1 t2 t3 t4 t h1 h2 h3 h4 h = h4
  Gives-four false false false false t1 t2 t3 t4 t h1 h2 h3 h4 h = h
