-- ===== src/Machine/Leads.antt =====
-- What an action does to a state that is known: from `P` to `Q`.
use reactos_luagent.Base.{◌≡◌, refl, Bool, true, false, if◌then◌else◌, ◌∷◌, Option, none, some}
use reactos_luagent.Machine.{
  State, Session, Event, Trace, Action, get_session, call, ◌>>=◌, on_some,
}
use reactos_luagent.Machine.Keeps.{Keeps}

-- From `P` the action `m` leads to `Q`.
pub record Leads {A : Type 0} (P Q : State → Type 0) (m : Action A) : Type 0 where
  pub at : (s : State) → P s → Q (m s).1

module _ {A : Type 0} (P Q : State → Type 0) where
  pub Leads-Keeps : (m : Action A) → ((s : State) → P s → Q s) → Keeps Q m → Leads P Q m
  Leads-Keeps m i k = record { at = λ s h. k.at s (i s h) }

  pub Leads-if :
      (b : Bool) (m n : Action A)
      → (b ≡ true → Leads P Q m)
      → (b ≡ false → Leads P Q n)
      → Leads P Q (if b then m else n)
  Leads-if true m n km kn = km refl
  Leads-if false m n km kn = kn refl

  pub Leads-option :
      {B : Type 0} (o : Option B) (m : Action A) (f : B → Action A)
      → Leads P Q m
      → ((b : B) → Leads P Q (f b))
      → Leads P Q (on_some o m f)
  Leads-option none m f km kf = km
  Leads-option (some b) m f km kf = kf b

  pub Leads-bind :
      {B : Type 0} (R : State → Type 0) (m : Action B) (f : B → Action A)
      → Leads P R m
      → ((b : B) → Leads R Q (f b))
      → Leads P Q (m >>= f)
  unfolding ◌>>=◌
  Leads-bind R m f km kf = record { at = λ s h. (kf (m s).0).at (m s).1 (km.at s h) }

  pub Leads-then :
      {B : Type 0} (m : Action B) (f : B → Action A)
      → Keeps P m
      → ((b : B) → Leads P Q (f b))
      → Leads P Q (m >>= f)
  unfolding ◌>>=◌
  Leads-then m f km kf = record { at = λ s h. (kf (m s).0).at (m s).1 (km.at s h) }

  -- The session that is read is that of the state.
  pub Leads-get_session :
      (f : Session → Action A)
      → ((s : State) → P s → Leads (λ s'. s' ≡ s) Q (f s.session))
      → Leads P Q (get_session >>= f)
  unfolding ◌>>=◌
  Leads-get_session f k = record { at = λ s h. (k s h).at s refl }

  -- The answer of a call is that for the trace before it.
  pub Leads-call :
      {B : Type 0} (e : Event) (answer : Trace → B) (f : B → Action A)
      → ((s : State)
          → P s
          → Leads (λ s'. s' ≡ record s { trace = e ∷ s.trace }) Q (f (answer s.trace)))
      → Leads P Q (call e answer >>= f)
  unfolding ◌>>=◌
  Leads-call e answer f k = record { at = λ s h. (k s h).at _ refl }
