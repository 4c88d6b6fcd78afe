-- ===== src/Prelude/Monad/Ends.antt =====
-- What an action makes true in each way that it can end: `Q` of its output and the state when it
-- succeeds, `R` of the state when it returns an error.
use mathlib.Core.Bool.{Bool, true, false}
use mathlib.Core.Path.{◌≡◌, refl}
use contact_discovery_servic.Prelude.Monad.{
  Result, ok, err, M, pure, fail, fail_if, gets, modify, rest, ◌>>=◌,
}
use contact_discovery_servic.Prelude.Monad.Preserves.{Preserves}

abbrev pub Post : {E S A : Type 0} → (A → S → Type 0) → (S → Type 0) → Result E A × S → Type 0
Post Q R (ok a, s) = Q a s
Post Q R (err e, s) = R s

pub record Ends {E S A : Type 0} (P : S → Type 0) (m : M E S A) (Q : A → S → Type 0)
    (R : S → Type 0) : Type 0 where
  pub from : (s : S) → P s → Post Q R (m s)

module _ {E S : Type 0} (R : S → Type 0) where
  Post-rest :
      {A B : Type 0} {Q : A → S → Type 0} {T : B → S → Type 0} (r : Result E A × S)
      (f : A → M E S B)
      → Post Q R r
      → ((a : A) → Ends (Q a) (f a) T R)
      → Post T R (rest r.0 f r.1)
  Post-rest (ok a, s) f h hf = (hf a).from s h
  Post-rest (err e, s) f h hf = h

  Post-both :
      {A : Type 0} {P : S → Type 0} (r : Result E A × S)
      → P r.1
      → ((s : S) → P s → R s)
      → Post (λ a. P) R r
  Post-both (ok a, s) h hr = h
  Post-both (err e, s) h hr = hr s h

  Post-fails :
      {A : Type 0} (Q : A → S → Type 0) {R' : S → Type 0} (r : Result E A × S)
      → Post Q R' r
      → ((s : S) → R' s → R s)
      → Post Q R r
  Post-fails Q (ok a, s) h hr = h
  Post-fails Q (err e, s) h hr = hr s h

module _ {E S : Type 0} {P R : S → Type 0} where
  pub Ends-bind :
      {A B : Type 0} {Q : A → S → Type 0} {T : B → S → Type 0} (m : M E S A) (f : A → M E S B)
      → Ends P m Q R
      → ((a : A) → Ends (Q a) (f a) T R)
      → Ends P (m >>= f) T R
  unfolding ◌>>=◌
  Ends-bind m f hm hf = record { from = λ s h. Post-rest R (m s) f (hm.from s h) hf }

  pub Ends-pure :
      {A : Type 0} {Q : A → S → Type 0} (a : A)
      → ((s : S) → P s → Q a s)
      → Ends P (pure {E = E} a) Q R
  unfolding pure
  Ends-pure a h = record { from = h }

  pub Ends-gets :
      {A : Type 0} {Q : A → S → Type 0} (f : S → A)
      → ((s : S) → P s → Q (f s) s)
      → Ends P (gets {E = E} f) Q R
  unfolding gets
  Ends-gets f h = record { from = h }

  pub Ends-modify :
      {Q : Unit {0} → S → Type 0} (f : S → S)
      → ((s : S) → P s → Q tt (f s))
      → Ends P (modify {E = E} f) Q R
  unfolding modify
  Ends-modify f h = record { from = h }

  -- A check, whose outcome the rest may use.
  pub Ends-fail_if :
      {Q : Unit {0} → S → Type 0} (b : Bool) (e : E)
      → ((s : S) → P s → b ≡ true → R s)
      → ((s : S) → P s → b ≡ false → Q tt s)
      → Ends P (fail_if b e) Q R
  unfolding fail_if
  Ends-fail_if true e hr hq = record { from = λ s h. hr s h refl }
  Ends-fail_if false e hr hq = record { from = λ s h. hq s h refl }

  pub Ends-fails :
      {A : Type 0} {Q : A → S → Type 0} {R' : S → Type 0} (m : M E S A)
      → Ends P m Q R'
      → ((s : S) → R' s → R s)
      → Ends P m Q R
  Ends-fails m h hr = record { from = λ s hs. Post-fails R _ (m s) (h.from s hs) hr }

  pub Ends-fail :
      {A : Type 0} {Q : A → S → Type 0} (e : E) → ((s : S) → P s → R s) → Ends P (fail e) Q R
  unfolding fail
  Ends-fail e h = record { from = h }

  -- A fact that holds of no state in particular.
  pub Ends-fact :
      {A F : Type 0} {m : M E S A} {Q : A → S → Type 0}
      → (F → Ends P m Q R)
      → Ends (λ s. P s × F) m Q R
  Ends-fact h = record { from = λ s hs. (h hs.1).from s hs.0 }

  -- What an action preserves, and what follows from it if the action fails.
  pub Ends-Preserves :
      {A : Type 0} (m : M E S A) → Preserves P m → ((s : S) → P s → R s) → Ends P m (λ a. P) R
  Ends-Preserves m h hr = record { from = λ s hs. Post-both R (m s) (h.after s hs) hr }

module _ {E S A : Type 0} (P : S → Type 0) where
  Post-state : (r : Result E A × S) → Post (λ a. P) P r → P r.1
  Post-state (ok a, s) h = h
  Post-state (err e, s) h = h

module _ {E S A : Type 0} {P : S → Type 0} where
  pub Preserves-Ends : (m : M E S A) → Ends P m (λ a. P) P → Preserves P m
  Preserves-Ends m h = record { after = λ s hs. Post-state P (m s) (h.from s hs) }
