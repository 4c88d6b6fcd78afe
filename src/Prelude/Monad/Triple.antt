-- ===== src/Prelude/Monad/Triple.antt =====
-- What an action makes true when it succeeds, and of the error when it fails.
use mathlib.Core.Bool.{Bool, true, false}
use mathlib.Core.Path.{◌≡◌, refl}
use native.Mathlib.Omega.{arith}
use contact_discovery_servic.Prelude.Monad.{
  Result, ok, err, M, pure, fail, fail_if, gets, modify, rest, ◌>>=◌,
}
use contact_discovery_servic.Prelude.Monad.Preserves.{Preserves}

abbrev pub OnOk : {E S A : Type 0} → (E → Type 0) → (A → S → Type 0) → Result E A × S → Type 0
OnOk X Q (ok a, s) = Q a s
OnOk X Q (err e, s) = X e

-- Any error may be returned; none is.
abbrev pub AnyError : {E : Type 0} → E → Type 0
AnyError e = Unit

abbrev pub NoError : {E : Type 0} → E → Type 0
NoError e = ⊥

-- From a state where `P` holds: an output and a state where `Q` holds, or an error where `X` does.
pub record Triple {E S A : Type 0} (X : E → Type 0) (P : S → Type 0) (m : M E S A)
    (Q : A → S → Type 0) : Type 0 where
  pub success : (s : S) → P s → OnOk X Q (m s)

module _ {E S : Type 0} {X : E → Type 0} where
  OnOk-rest :
      {A B : Type 0} {R : A → S → Type 0} {Q : B → S → Type 0} (r : Result E A × S)
      (f : A → M E S B)
      → OnOk X R r
      → ((a : A) → Triple X (R a) (f a) Q)
      → OnOk X Q (rest r.0 f r.1)
  OnOk-rest (ok a, s) f h hf = (hf a).success s h
  OnOk-rest (err e, s) f h hf = h

module _ {E S : Type 0} {X : E → Type 0} {P : S → Type 0} where
  pub Triple-modify :
      {Q : Unit {0} → S → Type 0} (f : S → S)
      → ((s : S) → P s → Q tt (f s))
      → Triple X P (modify {E = E} f) Q
  unfolding modify
  Triple-modify f h = record { success = h }

  pub Triple-gets :
      {A : Type 0} {Q : A → S → Type 0} (f : S → A)
      → ((s : S) → P s → Q (f s) s)
      → Triple X P (gets {E = E} f) Q
  unfolding gets
  Triple-gets f h = record { success = h }

  pub Triple-pure :
      {A : Type 0} {Q : A → S → Type 0} (a : A)
      → ((s : S) → P s → Q a s)
      → Triple X P (pure {E = E} a) Q
  unfolding pure
  Triple-pure a h = record { success = h }

  -- A check that passes.
  pub Triple-passes :
      {Q : Unit {0} → S → Type 0} (b : Bool) (e : E)
      → ((s : S) → P s → (b ≡ false) × Q tt s)
      → Triple X P (fail_if b e) Q
  unfolding fail_if
  Triple-passes true e h = record { success = λ s hs. absurd (ground (arith, h s hs)) }
  Triple-passes false e h = record { success = λ s hs. (h s hs).1 }

  -- A check that may fail.
  pub Triple-fail_if : (b : Bool) (e : E) → X e → Triple X P (fail_if b e) (λ u. P)
  unfolding fail_if
  Triple-fail_if true e h = record { success = λ s hs. h }
  Triple-fail_if false e h = record { success = λ s hs. hs }

  pub Triple-fail : {A : Type 0} {Q : A → S → Type 0} (e : E) → X e → Triple X P (fail e) Q
  unfolding fail
  Triple-fail e h = record { success = λ s hs. h }

  -- A fact that holds of no state in particular.
  pub Triple-fact :
      {A F : Type 0} {m : M E S A} {Q : A → S → Type 0}
      → (F → Triple X P m Q)
      → Triple X (λ s. P s × F) m Q
  Triple-fact h = record { success = λ s hs. (h hs.1).success s hs.0 }

  pub Triple-bind :
      {A B : Type 0} {R : A → S → Type 0} {Q : B → S → Type 0} (m : M E S A) (f : A → M E S B)
      → Triple X P m R
      → ((a : A) → Triple X (R a) (f a) Q)
      → Triple X P (m >>= f) Q
  unfolding ◌>>=◌
  Triple-bind m f hm hf = record { success = λ s h. OnOk-rest (m s) f (hm.success s h) hf }

module _ {E S : Type 0} where
  -- With no errors there is an output.
  pub OnOk-output :
      {A : Type 0} (Q : A → S → Type 0) (r : Result E A × S)
      → OnOk NoError Q r
      → (a : A) × (r.0 ≡ ok a) × Q a r.1
  OnOk-output Q (ok a, s) h = (a, refl, h)
  OnOk-output Q (err e, s) h = absurd h

  OnOk-always :
      (P : S → Type 0) {A : Type 0} (r : Result E A × S) → P r.1 → OnOk AnyError (λ a. P) r
  OnOk-always P (ok a, s) h = h
  OnOk-always P (err e, s) h = tt

  -- What an action preserves holds when it succeeds.
  pub Triple-Preserves :
      {P : S → Type 0} {A : Type 0} (m : M E S A) → Preserves P m → Triple AnyError P m (λ a. P)
  Triple-Preserves m h = record { success = λ s hs. OnOk-always _ (m s) (h.after s hs) }
