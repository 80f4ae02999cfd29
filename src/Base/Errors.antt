-- ===== src/Base/Errors.antt =====
-- What a call that may raise leaves behind: its value, or the exception.
use mathlib.Core.Path.{◌≡◌, refl, ap}
use mathlib.Core.Logic.{◌⊎◌, inl, inr}
use mathlib.Core.Option.{Option, none, some}

pub data Result (Raised : Type 0) (Value : Type 0) : Type 0 where
  err : Raised → Result Raised Value
  ok : Value → Result Raised Value

module _ {Raised : Type 0} where
  infixl 5 ◌>>=◌
  abbrev pub ◌>>=◌ :
      {Value Next : Type 0}
      → Result Raised Value
      → (Value → Result Raised Next)
      → Result Raised Next
  err raised >>= go_on = err raised
  ok value >>= go_on = go_on value

  -- The value, or an exception where there is none.
  abbrev pub or_raise : {Value : Type 0} → Option Value → Raised → Result Raised Value
  or_raise (some value) raised = ok value
  or_raise none raised = err raised

  -- The two calls that a finished pair of calls consists of.
  pub >>=-eq-ok :
      {Value Next : Type 0} (call : Result Raised Value) (go_on : Value → Result Raised Next)
      {last : Next}
      → (call >>= go_on) ≡ ok last
      → (value : Value) × (call ≡ ok value) × (go_on value ≡ ok last)
  >>=-eq-ok (err raised) go_on ends = cc
  >>=-eq-ok (ok value) go_on ends = (value, refl, ends)

  pub or_raise-eq-ok :
      {Value : Type 0} (found : Option Value) (raised : Raised) {value : Value}
      → or_raise found raised ≡ ok value
      → found ≡ some value
  or_raise-eq-ok (some x) raised ends = cc
  or_raise-eq-ok none raised ends = cc

  -- How a call ended.
  pub Result-cases :
      {Value : Type 0} (call : Result Raised Value)
      → ((value : Value) × (call ≡ ok value)) ⊎ ((raised : Raised) × (call ≡ err raised))
  Result-cases (err raised) = inr (raised, refl)
  Result-cases (ok value) = inl (value, refl)

  abbrev returned_or : {Value : Type 0} → Value → Result Raised Value → Value
  returned_or other (err raised) = other
  returned_or other (ok value) = value

  pub ok_injective :
      {Value : Type 0} {x y : Value} → ◌≡◌ {A = Result Raised Value} (ok x) (ok y) → x ≡ y
  ok_injective {x = x} same = ap (returned_or x) same

  abbrev raised_or : {Value : Type 0} → Raised → Result Raised Value → Raised
  raised_or other (err raised) = raised
  raised_or other (ok value) = other

  pub err_injective :
      {Value : Type 0} {x y : Raised} → ◌≡◌ {A = Result Raised Value} (err x) (err y) → x ≡ y
  err_injective {x = x} same = ap (raised_or x) same

  -- What holds of the exception or of the value.
  abbrev pub OnEnd :
      {Value : Type 0} → (Raised → Type 0) → (Value → Type 0) → Result Raised Value → Type 0
  OnEnd E P (err raised) = E raised
  OnEnd E P (ok value) = P value

  pub OnEnd->>= :
      {Value Next : Type 0} (E : Raised → Type 0) (P : Value → Type 0) (Q : Next → Type 0)
      (call : Result Raised Value) (go_on : Value → Result Raised Next)
      → OnEnd E P call
      → ((value : Value) → P value → OnEnd E Q (go_on value))
      → OnEnd E Q (call >>= go_on)
  OnEnd->>= E P Q (err raised) go_on h k = h
  OnEnd->>= E P Q (ok value) go_on h k = k value h
