-- ===== src/Machine/Keeps.antt =====
-- Invariants of actions, one rule for each way to build an action.
use reactos_luagent.Base.{◌≡◌, refl, Bool, true, false, if◌then◌else◌, Option, none, some, ◌∷◌}
use reactos_luagent.Machine.{
  State, Session, Event, Trace, Action, Rc, success, failure, pure, get_session, modify, call,
  call_, ◌>>=◌, on_some, on_success,
}

-- An action chosen by a test, at a state.
pub if-action :
    {A : Type 0} (b : Bool) (m n : Action A) (s : State)
    → (if b then m else n) s ≡ (if b then m s else n s)
if-action true m n s = refl
if-action false m n s = refl

-- `m` keeps `P`.
pub record Keeps {A : Type 0} (P : State → Type 0) (m : Action A) : Type 0 where
  pub at : (s : State) → P s → P (m s).1

module _ {P : State → Type 0} where
  pub Keeps-pure : {A : Type 0} (a : A) → Keeps P (pure a)
  unfolding pure
  Keeps-pure a = record { at = λ s h. h }

  pub Keeps-get_session : Keeps P get_session
  unfolding get_session
  Keeps-get_session = record { at = λ s h. h }

  pub Keeps-modify :
      (f : Session → Session)
      → ((s : State) → P s → P (record s { session = f s.session }))
      → Keeps P (modify f)
  unfolding modify
  Keeps-modify f k = record { at = k }

  pub Keeps-call :
      {A : Type 0} (e : Event) (answer : Trace → A)
      → ((s : State) → P s → P (record s { trace = e ∷ s.trace }))
      → Keeps P (call e answer)
  unfolding call
  Keeps-call e answer k = record { at = k }

  pub Keeps-call_ :
      (e : Event) → ((s : State) → P s → P (record s { trace = e ∷ s.trace })) → Keeps P (call_ e)
  unfolding call_
  Keeps-call_ e k = record { at = k }

  pub Keeps-bind :
      {A B : Type 0} (m : Action A) (f : A → Action B)
      → Keeps P m
      → ((a : A) → Keeps P (f a))
      → Keeps P (m >>= f)
  unfolding ◌>>=◌
  Keeps-bind m f km kf = record { at = λ s h. (kf (m s).0).at (m s).1 (km.at s h) }

  pub Keeps-if :
      {A : Type 0} (b : Bool) (m n : Action A)
      → Keeps P m
      → Keeps P n
      → Keeps P (if b then m else n)
  Keeps-if true m n km kn = km
  Keeps-if false m n km kn = kn

  pub Keeps-option :
      {A B : Type 0} (o : Option A) (m : Action B) (f : A → Action B)
      → Keeps P m
      → ((a : A) → Keeps P (f a))
      → Keeps P (on_some o m f)
  Keeps-option none m f km kf = km
  Keeps-option (some a) m f km kf = kf a

  pub Keeps-rc :
      {B : Type 0} (rc : Rc) (m n : Action B) → Keeps P m → Keeps P n → Keeps P (on_success rc m n)
  Keeps-rc failure m n km kn = km
  Keeps-rc success m n km kn = kn

pub ruleset keeps_rules = (
  Keeps-pure, Keeps-get_session, Keeps-modify, Keeps-call, Keeps-call_, Keeps-bind, Keeps-if,
  Keeps-option, Keeps-rc,
)
