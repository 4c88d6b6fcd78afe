-- ===== src/Prelude/Monad/Preserves.antt =====
-- What an action leaves true of the state, whether it succeeds or returns an error: a rule for each
-- way to write one.
use mathlib.Core.Bool.{Bool, true, false}
use contact_discovery_servic.Prelude.Monad.{
  Result, ok, err, M, lift, pure, fail, fail_if, gets, modify, rest, ◌>>=◌,
}

pub record Preserves {E S A : Type 0} (P : S → Type 0) (m : M E S A) : Type 0 where
  pub after : (s : S) → P s → P (m s).1

module _ {E S : Type 0} {P : S → Type 0} where
  module _ {A : Type 0} where
    pub Preserves-lift : (r : Result E A) → Preserves P (lift {S = S} r)
    unfolding lift
    Preserves-lift r = record { after = λ s h. h }

    pub Preserves-pure : (a : A) → Preserves P (pure {E = E} a)
    unfolding pure
    Preserves-pure a = record { after = λ s h. h }

    pub Preserves-fail : (e : E) → Preserves P (fail {A = A} e)
    unfolding fail
    Preserves-fail e = record { after = λ s h. h }

    pub Preserves-gets : (f : S → A) → Preserves P (gets {E = E} f)
    unfolding gets
    Preserves-gets f = record { after = λ s h. h }

  pub Preserves-fail_if : (b : Bool) (e : E) → Preserves P (fail_if b e)
  unfolding fail_if
  Preserves-fail_if true e = record { after = λ s h. h }
  Preserves-fail_if false e = record { after = λ s h. h }

  pub Preserves-modify : (f : S → S) → ((s : S) → P s → P (f s)) → Preserves P (modify {E = E} f)
  unfolding modify
  Preserves-modify f h = record { after = h }

  after-rest :
      {A B : Type 0} (r : Result E A) (f : A → M E S B)
      → ((a : A) → Preserves P (f a))
      → (s : S) → P s
      → P (rest r f s).1
  after-rest (ok a) f hf s h = (hf a).after s h
  after-rest (err e) f hf s h = h

  pub Preserves-bind :
      {A B : Type 0} (m : M E S A) (f : A → M E S B)
      → Preserves P m
      → ((a : A) → Preserves P (f a))
      → Preserves P (m >>= f)
  unfolding ◌>>=◌
  Preserves-bind m f hm hf = record {
    after = λ s h. after-rest (m s).0 f hf (m s).1 (hm.after s h);
  }

  -- What the first call establishes and the rest preserves.
  pub bind-establishes :
      {A B : Type 0} (m : M E S A) (f : A → M E S B) (s : S)
      → P (m s).1
      → ((a : A) → Preserves P (f a))
      → P ((m >>= f) s).1
  unfolding ◌>>=◌
  bind-establishes m f s h hf = after-rest (m s).0 f hf (m s).1 h

pub ruleset preserves_rules = (
  Preserves-lift, Preserves-pure, Preserves-fail, Preserves-gets, Preserves-fail_if, Preserves-bind,
)
