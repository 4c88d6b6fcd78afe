-- ===== src/Prelude/Words.antt =====
-- `bit_or` and `bit_xor` at variables: with 0, of a number with itself, and when they are 0.
use Prim.Native.Nat.{
  ℕ, zero, suc, ◌-◌, ◌*◌, ◌/◌, ◌%◌, ◌^◌, ◌≤◌, ◌<◌, max, digits, differ, bit_and, bit_or, bit_xor,
  bit_or-bitwise, bit_xor-bitwise,
}
use mathlib.Core.Path.{◌≡◌, refl, ap, ◌∙◌}
use native.Mathlib.Nat.{pow-suc, mod-eq_of_lt}
use native.Mathlib.Omega.{arith}
use contact_discovery_servic.Prelude.Bits.{bit_and_mask}

-- Two digits differ in 0 only if they are one.
differ-zero : (x : ℕ) → differ x 0 ≡ x
differ-zero zero = refl
differ-zero (suc x) = refl

differ_self : (x : ℕ) → differ x x ≡ 0
differ_self zero = refl
differ_self (suc x) = differ_self x

same_digit : (x y : ℕ) → differ x y ≡ 0 → x ≡ y
same_digit zero y h = omega arith
same_digit (suc x) zero h = h
same_digit (suc x) (suc y) h = ap suc (same_digit x y h)

differ-le : (x y n : ℕ) → x ≤ n → y ≤ n → differ x y ≤ n
differ-le zero y n hx hy = hy
differ-le (suc x) zero n hx hy = hx
differ-le (suc x) (suc y) n hx hy = differ-le x y n (omega arith) (omega arith)

-- Each law by recursion on the fuel with which the digits are gone through.
or_zero : (fuel x : ℕ) → x ≤ fuel → digits (λ b. b) max fuel x 0 ≡ x
or_zero zero x h = omega arith
or_zero (suc fuel) zero h = refl
or_zero (suc fuel) (suc x) h = omega (arith, or_zero fuel (suc x / 2) (omega arith))

or_self : (fuel x : ℕ) → x ≤ fuel → digits (λ b. b) max fuel x x ≡ x
or_self zero x h = refl
or_self (suc fuel) zero h = refl
or_self (suc fuel) (suc x) h = omega (arith, or_self fuel (suc x / 2) (omega arith))

xor_zero : (fuel x : ℕ) → x ≤ fuel → digits (λ b. b) differ fuel x 0 ≡ x
xor_zero zero x h = omega arith
xor_zero (suc fuel) zero h = refl
xor_zero (suc fuel) (suc x) h =
    omega (arith, xor_zero fuel (suc x / 2) (omega arith), differ-zero (suc x % 2))

xor_self : (fuel x : ℕ) → x ≤ fuel → digits (λ b. b) differ fuel x x ≡ 0
xor_self zero x h = omega arith
xor_self (suc fuel) zero h = refl
xor_self (suc fuel) (suc x) h =
    omega (arith, xor_self fuel (suc x / 2) (omega arith), differ_self (suc x % 2))

xor_same : (fuel x y : ℕ) → x ≤ fuel → digits (λ b. b) differ fuel x y ≡ 0 → x ≡ y
xor_same zero x y h e = omega arith
xor_same (suc fuel) zero y h e = omega arith
xor_same (suc fuel) (suc x) y h e =
    let upper : suc x / 2 ≡ y / 2 = xor_same fuel (suc x / 2) (y / 2) (omega arith) (omega arith) in
    let lower : suc x % 2 ≡ y % 2 = same_digit (suc x % 2) (y % 2) (omega arith) in omega arith

xor_bound :
    (fuel k x y : ℕ) → x ≤ fuel → x < 2 ^ k → y < 2 ^ k → digits (λ b. b) differ fuel x y < 2 ^ k
xor_bound zero k x y h hx hy = hy
xor_bound (suc fuel) k zero y h hx hy = hy
xor_bound (suc fuel) zero (suc x) y h hx hy = absurd (omega arith)
xor_bound (suc fuel) (suc k) (suc x) y h hx hy =
    let double : 2 ^ suc k ≡ 2 ^ k * 2 = pow-suc 2 k in
    let upper = xor_bound fuel k (suc x / 2) (y / 2) (omega arith) (omega arith) (omega arith) in
    let lower = differ-le (suc x % 2) (y % 2) 1 (omega arith) (omega arith) in omega arith

pub zero-bit_or : (x : ℕ) → bit_or 0 x ≡ x
zero-bit_or x = bit_or-bitwise 0 x

pub bit_or-zero : (x : ℕ) → bit_or x 0 ≡ x
bit_or-zero x = bit_or-bitwise x 0 ∙ or_zero x x (omega arith)

pub bit_or_self : (x : ℕ) → bit_or x x ≡ x
bit_or_self x = bit_or-bitwise x x ∙ or_self x x (omega arith)

pub bit_xor-zero : (x : ℕ) → bit_xor x 0 ≡ x
bit_xor-zero x = bit_xor-bitwise x 0 ∙ xor_zero x x (omega arith)

pub bit_xor_self : (x : ℕ) → bit_xor x x ≡ 0
bit_xor_self x = bit_xor-bitwise x x ∙ xor_self x x (omega arith)

pub eq_of_bit_xor : (x y : ℕ) → bit_xor x y ≡ 0 → x ≡ y
eq_of_bit_xor x y h = xor_same x x y (omega arith) (omega (arith, bit_xor-bitwise x y))

pub bit_xor-lt : (k x y : ℕ) → x < 2 ^ k → y < 2 ^ k → bit_xor x y < 2 ^ k
bit_xor-lt k x y hx hy = omega (arith, bit_xor-bitwise x y, xor_bound x k x y (omega arith) hx hy)

-- A mask of all ones, and of none.
pub bit_and_ones : (x : ℕ) → x < 2 ^ 64 → bit_and x (2 ^ 64 - 1) ≡ x
bit_and_ones x h = bit_and_mask 64 x ∙ mod-eq_of_lt h

pub bit_and_none : (x : ℕ) → bit_and x 0 ≡ 0
bit_and_none x = omega (arith, bit_and_mask 0 x)
