-- ===== src/Common/Outcome.antt =====
-- The result of code that may panic: a slice out of range ends what called the function too.
use mathlib.Core.Path.{◌≡◌}

pub data Outcome {ℓ} (A : Type ℓ) : Type ℓ where
  done : A → Outcome A
  panic : Outcome A

-- A panic ends what called the function too.
infixl 5 ◌>>=◌
abbrev pub ◌>>=◌ {ℓ κ} : {A : Type ℓ} {B : Type κ} → Outcome A → (A → Outcome B) → Outcome B
done a >>= f = f a
panic >>= f = panic

pub done-injective {ℓ} : {A : Type ℓ} {a b : A} → done a ≡ done b → a ≡ b
done-injective h = cc

-- A step that returns, and what follows it.
pub then-done {ℓ κ} :
    {A : Type ℓ} {B : Type κ} {o : Outcome A} {a : A} (f : A → Outcome B) {result : Outcome B}
    → o ≡ done a
    → f a ≡ result
    → (o >>= f) ≡ result
then-done f e h = rw e h
