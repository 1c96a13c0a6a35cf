-- ===== src/Prelude/Outcome.antt =====
-- How a piece of Go code ends: with a value, in a run-time panic, or (only in the model) because
-- a loop's fuel is used up.
use mathlib.Core.Path.{◌≡◌, refl, subst}
use mathlib.Core.Bool.{Bool, true, false}
use mathlib.Core.Option.{Option, none, some}
use scalability_engineering.Prelude.Tests.{if◌then◌else◌}

pub data Run {ℓ} (A : Type ℓ) : Type ℓ where
  ok : A → Run A
  panic out_of_fuel : Run A

infixl 5 ◌>>=◌
abbrev pub ◌>>=◌ {ℓ κ} : {A : Type ℓ} {B : Type κ} → Run A → (A → Run B) → Run B
out_of_fuel >>= next = out_of_fuel
panic >>= next = panic
ok value >>= next = next value

-- An index expression: out of range it panics.
abbrev pub or_panic {ℓ} : {A : Type ℓ} → Option A → Run A
or_panic element = elim element [ none ↦ panic | some value ↦ ok value ]

-- The code ends with a value for which `Post` holds.
pub data Returns {ℓ κ} {A : Type ℓ} (Post : A → Type κ) : Run A → Type (ℓ ⊔ κ) where
  returns : {value : A} → Post value → Returns Post (ok value)

module _ {ℓ κ} {A : Type ℓ} {Post : A → Type κ} where
  pub Returns-inv : {run : Run A} → Returns Post run → (value : A) × (run ≡ ok value) × Post value
  Returns-inv (returns holds) = (_, refl, holds)

  pub Returns-option {κ'} :
      {B : Type κ'} {absent : Run A} {present : B → Run A} (element : Option B)
      → Returns Post absent
      → ((value : B) → Returns Post (present value))
      → Returns Post (elim element [ none ↦ absent | some value ↦ present value ])
  Returns-option none first second = first
  Returns-option (some value) first second = second value

  pub Returns-if :
      {run other : Run A} (test : Bool)
      → (test ≡ true → Returns Post run)
      → (test ≡ false → Returns Post other)
      → Returns Post (if test then run else other)
  Returns-if false first second = second refl
  Returns-if true first second = first refl

  pub Returns-map {κ'} :
      {Weaker : A → Type κ'} {run : Run A}
      → Returns Post run
      → ((value : A) → Post value → Weaker value)
      → Returns Weaker run
  Returns-map (returns holds) weaken = returns (weaken _ holds)

  pub Returns-bind {ℓ' κ'} :
      {B : Type ℓ'} {Q : B → Type κ'} {run : Run A} {next : A → Run B}
      → Returns Post run
      → ((value : A) → Post value → Returns Q (next value))
      → Returns Q (run >>= next)
  Returns-bind (returns holds) continue = continue _ holds

-- If the code ends with a value, `Post` holds for it.
pub data Allows {ℓ κ} {A : Type ℓ} (Post : A → Type κ) : Run A → Type (ℓ ⊔ κ) where
  allows : {value : A} → Post value → Allows Post (ok value)
  in_panic : Allows Post panic
  in_loop : Allows Post out_of_fuel

module _ {ℓ κ} {A : Type ℓ} {Post : A → Type κ} where
  pub Allows-inv : {run : Run A} {value : A} → Allows Post run → run ≡ ok value → Post value
  Allows-inv (allows holds) e = subst Post (ok_inj _ _ e) holds
    where
      ok_inj : (v w : A) → ok v ≡ ok w → v ≡ w
      ok_inj v w e = cc
  Allows-inv in_panic e = cc
  Allows-inv in_loop e = cc

  -- Whatever the first part ends with.
  pub Allows-after {ℓ'} :
      {B : Type ℓ'} {next : B → Run A} (run : Run B)
      → ((value : B) → Allows Post (next value))
      → Allows Post (run >>= next)
  Allows-after (ok value) continue = continue value
  Allows-after panic continue = in_panic
  Allows-after out_of_fuel continue = in_loop

  pub Allows-bind {ℓ' κ'} :
      {B : Type ℓ'} {Q : B → Type κ'} {run : Run B} {next : B → Run A}
      → Allows Q run
      → ((value : B) → Q value → Allows Post (next value))
      → Allows Post (run >>= next)
  Allows-bind (allows holds) continue = continue _ holds
  Allows-bind in_panic continue = in_panic
  Allows-bind in_loop continue = in_loop

  pub Allows-if :
      {run other : Run A} (test : Bool)
      → (test ≡ true → Allows Post run)
      → (test ≡ false → Allows Post other)
      → Allows Post (if test then run else other)
  Allows-if false first second = second refl
  Allows-if true first second = first refl

  pub Allows-map {κ'} :
      {Stronger : A → Type κ'} {run : Run A}
      → Allows Stronger run
      → ((value : A) → Stronger value → Post value)
      → Allows Post run
  Allows-map (allows holds) weaken = allows (weaken _ holds)
  Allows-map in_panic weaken = in_panic
  Allows-map in_loop weaken = in_loop

pub Returns-and {ℓ κ κ'} :
    {A : Type ℓ} {P : A → Type κ} {Q : A → Type κ'} {run : Run A}
    → Returns P run
    → Allows Q run
    → Returns (λ value. P value × Q value) run
Returns-and (returns p) (allows q) = returns (p, q)
