-- ===== src/Prelude/Bits.antt =====
-- `bit_and` with the mask 2 ^ k - 1 is the remainder by 2 ^ k, and facts on bytes by evaluation.
use Prim.Native.Nat.{
  ℕ, zero, suc, ◌+◌, ◌-◌, ◌*◌, ◌/◌, ◌%◌, ◌^◌, ◌≤◌, ◌<◌, min, bit_and, digits, bit_and-bitwise,
}
use mathlib.Core.Path.{◌≡◌, ap, ◌∙◌}
use mathlib.Core.Bool.{Bool, true, ◌&&◌}
use native.Mathlib.Nat.{pow-suc, mod-lt, mod-eq_of_lt, div-add-mod', add-mul-mod_self_right}
use native.Mathlib.Omega.{arith}

-- A test that holds of every number under a bound.
unfoldable pub holds_under : (ℕ → Bool) → ℕ → Bool
holds_under p zero = true
holds_under p (suc bound) = holds_under p bound && p bound

pub holds_at : (p : ℕ → Bool) (bound i : ℕ) → holds_under p bound ≡ true → i < bound → p i ≡ true
unfolding holds_under
holds_at p zero i all below = absurd (omega arith)
holds_at p (suc bound) i all below = ground (arith, holds_at p bound i)

pub pow_pos : (k : ℕ) → 0 < 2 ^ k
pow_pos zero = omega arith
pow_pos (suc k) = omega (arith, pow_pos k, pow-suc 2 k)

-- The remainder by 2 * m from the remainder of the half by m.
mod_twice : (x m : ℕ) → 0 < m → x % (m * 2) ≡ (x / 2) % m * 2 + x % 2
mod_twice x m m_pos =
    let lower : ℕ = (x / 2) % m * 2 + x % 2 in
    let upper : ℕ = x / 2 / m in
    let parts : x ≡ lower + upper * (m * 2) = omega (arith, div-add-mod' (x / 2) m) in
    let fits : lower < m * 2 = omega (arith, mod-lt (x / 2) m_pos) in
    ap (λ y. y % (m * 2)) parts ∙ add-mul-mod_self_right lower upper (m * 2) ∙ mod-eq_of_lt fits

-- By recursion on the fuel with which `bit_and` goes through the digits.
mask-digits : (fuel k x : ℕ) → x ≤ fuel → digits (λ d. zero) min fuel x (2 ^ k - 1) ≡ x % 2 ^ k
mask-digits zero k zero enough = omega (arith, mod-eq_of_lt (pow_pos k))
mask-digits zero k (suc x) enough = absurd (omega arith)
mask-digits (suc fuel) k zero enough = omega (arith, mod-eq_of_lt (pow_pos k))
mask-digits (suc fuel) zero (suc x) enough =
    omega (arith, mask-digits fuel 0 (suc x / 2) (omega arith))
mask-digits (suc fuel) (suc k) (suc x) enough =
    let halved : (2 ^ k * 2 - 1) / 2 ≡ 2 ^ k - 1 = omega (arith, pow_pos k) in
    rw (pow-suc 2 k, halved, mask-digits fuel k (suc x / 2) (omega arith))
      (omega (arith, mod_twice (suc x) (2 ^ k) (pow_pos k), pow_pos k))

pub bit_and_mask : (k x : ℕ) → bit_and x (2 ^ k - 1) ≡ x % 2 ^ k
bit_and_mask k x = bit_and-bitwise x (2 ^ k - 1) ∙ mask-digits x k x (omega arith)
