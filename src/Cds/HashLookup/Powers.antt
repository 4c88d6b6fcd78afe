-- ===== src/Cds/HashLookup/Powers.antt =====
-- The number of slots: a power of two that is not below the number of phones.
use contact_discovery_servic.Prelude.{
  ℕ, zero, suc, ◌+◌, ◌^◌, ◌≤◌, ◌<◌, ◌≡◌, inl, inr, refl, leb, ◌==◌, ==_iff, true, Bool-cases, some,
  arith, holds_under, holds_at,
}
use contact_discovery_servic.Cds.HashTable.{trailing_zeros, trailing_zeros_within}
use contact_discovery_servic.Cds.HashLookup.{next_power_within, checked_next_power_of_two}

-- A search that has powers enough finds one.
next_power_found :
    (left k n bound : ℕ)
    → n ≤ 2 ^ bound
    → k ≤ bound
    → bound < k + left
    → (j : ℕ) × (j ≤ bound) × (n ≤ 2 ^ j) × (next_power_within left k n ≡ some (2 ^ j))
unfolding next_power_within
next_power_found zero k n bound h low high = absurd (omega arith)
next_power_found (suc left) k n bound h low high = elim (Bool-cases (leb n (2 ^ k))) [
  | inl fits ↦ (k, low, ground arith, rw (next_power_within, fits) refl)
  | inr more ↦ elim (Bool-cases (k == bound)) [
    | inl last ↦
        (let e : k ≡ bound = (==_iff k bound).0 last in
          let no_more : leb n (2 ^ k) ≡ true = rw e (ground arith) in absurd (ground arith))
    | inr earlier ↦
        (let (j, below, enough, found) =
            next_power_found left (suc k) n bound h (ground arith) (omega arith) in
          (j, below, enough, rw (next_power_within, more) found))
  ]
]

zeros_table : holds_under (λ j. trailing_zeros (2 ^ j) == j) 14 ≡ true
unfolding holds_under trailing_zeros_within
zeros_table = refl

pub trailing_zeros-power : (j : ℕ) → j ≤ 13 → trailing_zeros (2 ^ j) ≡ j
trailing_zeros-power j h = (==_iff _ _).0 (holds_at _ 14 j zeros_table (omega arith))

powers_table : holds_under (λ j. leb (2 ^ j) (2 ^ 13)) 14 ≡ true
unfolding holds_under
powers_table = refl

pub power_small : (j : ℕ) → j ≤ 13 → 2 ^ j ≤ 2 ^ 13
power_small j h =
    let e : leb (2 ^ j) (2 ^ 13) ≡ true = holds_at _ 14 j powers_table (omega arith) in ground arith

pub checked_next_power_of_two-small :
    (n : ℕ)
    → n ≤ 2 ^ 13
    → (j : ℕ) × (j ≤ 13) × (n ≤ 2 ^ j) × (checked_next_power_of_two n ≡ some (2 ^ j))
checked_next_power_of_two-small n h = next_power_found 64 0 n 13 h (omega arith) (omega arith)
