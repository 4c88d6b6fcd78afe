-- ===== src/Prelude/Results.antt =====
-- Chains of calls that return a result, and what an `ok` at the end says of those before.
use mathlib.Core.Path.{◌≡◌, refl, ap}
use mathlib.Core.Logic.{◌⊎◌, inl, inr}
use mathlib.Core.Bool.{Bool, true, false}
use mathlib.Core.Option.{Option, none, some, some-injective, none-ne-some}
use contact_discovery_servic.Prelude.Tests.{if◌then◌else◌}
use contact_discovery_servic.Prelude.Monad.{Result, ok, err}

module _ {E A : Type 0} where
  abbrev value : Result E A → Option A
  value (ok a) = some a
  value (err e) = none

  pub err-ne-ok : (e : E) (a : A) → ¬ (◌≡◌ {A = Result E A} (err e) (ok a))
  err-ne-ok e a h = none-ne-some a (ap value h)

  pub ok-injective : (a b : A) → ◌≡◌ {A = Result E A} (ok a) (ok b) → a ≡ b
  ok-injective a b h = some-injective a b (ap value h)

  pub Result-cases : (r : Result E A) → ((a : A) × (r ≡ ok a)) ⊎ ((e : E) × (r ≡ err e))
  Result-cases (ok a) = inl (a, refl)
  Result-cases (err e) = inr (e, refl)

  -- A test that fails with an error was not met.
  pub if-ok :
      (b : Bool) (e : E) (r : Result E A) (a : A)
      → (if b then err e else r) ≡ ok a
      → (b ≡ false) × (r ≡ ok a)
  if-ok true e r a h = absurd (err-ne-ok e a h)
  if-ok false e r a h = (refl, h)

  abbrev pub ok_or : E → Option A → Result E A
  ok_or e none = err e
  ok_or e (some a) = ok a

module _ {E A B : Type 0} where
  -- The operator `?`, and the rest of the function.
  abbrev pub and_then : Result E A → (A → Result E B) → Result E B
  and_then (ok a) f = f a
  and_then (err e) f = err e

  pub and_then-ok :
      (r : Result E A) (f : A → Result E B) (b : B)
      → and_then r f ≡ ok b
      → (a : A) × (r ≡ ok a) × (f a ≡ ok b)
  and_then-ok (ok a) f b h = (a, refl, h)
  and_then-ok (err e) f b h = absurd (err-ne-ok e b h)
