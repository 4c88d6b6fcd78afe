-- ===== src/Prelude/Monad.antt =====
-- The state monad with an early return: what the C functions that return a status do. What was
-- written before an error stays written.
pub mod Preserves
pub mod Triple
pub mod Ends
use mathlib.Core.Path.{◌≡◌, refl}
use mathlib.Core.Bool.{Bool, true, false}

-- A status of `E`, or the outputs of a call that succeeded.
pub data Result (E : Type 0) (A : Type 0) : Type 0 where
  ok : A → Result E A
  err : E → Result E A

abbrev pub M : Type 0 → Type 0 → Type 0 → Type 0
M E S A = S → Result E A × S

module _ {E S : Type 0} where
  unfoldable pub lift : {A : Type 0} → Result E A → M E S A
  lift r s = (r, s)

  unfoldable pub pure : {A : Type 0} → A → M E S A
  pure a s = (ok a, s)

  unfoldable pub fail : {A : Type 0} → E → M E S A
  fail e s = (err e, s)

  -- `if (cond) return e;`
  unfoldable pub fail_if : Bool → E → M E S (Unit {0})
  fail_if true e s = (err e, s)
  fail_if false e s = (ok tt, s)

  unfoldable pub gets : {A : Type 0} → (S → A) → M E S A
  gets f s = (ok (f s), s)

  unfoldable pub modify : (S → S) → M E S (Unit {0})
  modify f s = (ok tt, f s)

module _ {E S A B : Type 0} where
  -- The rest of a function after a call that returned this.
  abbrev pub rest : Result E A → (A → M E S B) → M E S B
  rest (ok a) f s = f a s
  rest (err e) f s = (err e, s)

  infixl 5 ◌>>=◌
  -- Whoever opens this opens the actions above too.
  unfoldable pub ◌>>=◌ : M E S A → (A → M E S B) → M E S B
  unfolding lift pure fail fail_if gets modify
  ◌>>=◌ m f s = let (r, s') = m s in rest r f s'

  pub bind-ok :
      (m : M E S A) (f : A → M E S B) (s s' : S) (a : A) → m s ≡ (ok a, s') → (m >>= f) s ≡ f a s'
  unfolding ◌>>=◌
  bind-ok m f s s' a e = rw (e, ◌>>=◌)

  pub bind-err :
      (m : M E S A) (f : A → M E S B) (s s' : S) (x : E)
      → m s ≡ (err x, s')
      → (m >>= f) s ≡ (err x, s')
  unfolding ◌>>=◌
  bind-err m f s s' x e = rw (e, ◌>>=◌)

module _ {E S B : Type 0} where
  infixl 5 ◌>>◌
  abbrev pub ◌>>◌ : M E S (Unit {0}) → M E S B → M E S B
  m >> k = m >>= λ _. k
