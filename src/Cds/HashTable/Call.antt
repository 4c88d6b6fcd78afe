-- ===== src/Cds/HashTable/Call.antt =====
-- The entry point cds_hash_lookup: what it answers.
use contact_discovery_servic.Prelude.{
  ℕ, ◌^◌, ◌≤◌, ◌<◌, ◌≡◌, ◌≢◌, ◌⊎◌, inl, inr, refl, ap, ap₂, ◌∙◌, leb, ==_iff, true, false,
  Bool-cases, List, map, length, All, Option, none, some, ok, err, arith, bit_and_mask, pow_pos,
  holds_under, holds_at,
}
use native.Mathlib.Nat.{mod-lt}
use contact_discovery_servic.Cds.HashKey.{Instructions, HashKey, hash, encrypt, generate}
use contact_discovery_servic.Cds.HashTable.{
  Entry, bad_parameter, rdrand_failed, lookup_all, trailing_zeros, is_power_of_two, cds_hash_lookup,
}
use contact_discovery_servic.Cds.HashTable.Answers.{directory_lookup}
use contact_discovery_servic.Cds.HashTable.Lookup.{Fits, lookup_all-directory}

orders_table : holds_under (λ i. leb (2 ^ i) (2 ^ 32)) 32 ≡ true
unfolding holds_under
orders_table = refl

order_small : (order : ℕ) → order < 32 → 2 ^ order ≤ 2 ^ 32
order_small order h =
    let e : leb (2 ^ order) (2 ^ 32) ≡ true = holds_at _ 32 order orders_table h in ground arith

hash-lt :
    {World : Type 0} (x : Instructions World) (k : HashKey x) (order q : ℕ)
    → hash x k order q < 2 ^ order
unfolding hash
hash-lt x k order q =
    let y = x.cvtsi128_si32 (encrypt x k q) in
    omega (arith, bit_and_mask order y, mod-lt y (pow_pos order))

module _ {World : Type 0} (x : Instructions World) (slot_count : ℕ) (ab_phones : List ℕ) where
  -- The number of slots is a power of two, of less than 32 bits.
  abbrev pub IsOrder : Type 0
  IsOrder = (trailing_zeros slot_count < 32) × (slot_count ≡ 2 ^ trailing_zeros slot_count)

  pub IsOrder-cases : IsOrder ⊎ (¬ IsOrder)
  IsOrder-cases = elim (Bool-cases (leb 32 (trailing_zeros slot_count))) [
    | inl large ↦ inr (λ o. absurd (ground (arith, o.0)))
    | inr fine ↦ elim (Bool-cases (is_power_of_two slot_count)) [
      | inl power ↦ inl (ground arith, (==_iff slot_count (2 ^ trailing_zeros slot_count)).0 power)
      | inr other ↦ inr (λ o. absurd (ground (arith, o.1)))
    ]
  ]

  pub call-bad :
      (entries : List Entry) (w : World)
      → ¬ IsOrder
      → cds_hash_lookup x entries slot_count ab_phones w ≡ (err bad_parameter, w)
  unfolding cds_hash_lookup
  call-bad entries w bad = elim (Bool-cases (leb 32 (trailing_zeros slot_count))) [
    | inl large ↦ rw large refl
    | inr fine ↦ elim (Bool-cases (is_power_of_two slot_count)) [
      | inl power ↦
          absurd (bad (ground arith, (==_iff slot_count (2 ^ trailing_zeros slot_count)).0 power))
      | inr other ↦ rw (fine, other) refl
    ]
  ]

  -- A good number of slots leaves the outcome to the key.
  pub call-good :
      (entries : List Entry) (w : World) (key : Option (HashKey x))
      → IsOrder
      → (generate x w).0 ≡ key
      → cds_hash_lookup x entries slot_count ab_phones w ≡ elim key [
        | none ↦ (err rdrand_failed, (generate x w).1)
        | some k ↦ (
          lookup_all (hash x k (trailing_zeros slot_count)) entries slot_count ab_phones,
          (generate x w).1,
        )
      ]
  unfolding cds_hash_lookup
  call-good entries w key (low, power) drawn =
      let small : leb 32 (trailing_zeros slot_count) ≡ false = ground arith in
      rw (small, (==_iff slot_count (2 ^ trailing_zeros slot_count)).1 power, drawn) refl

  -- With a good number of slots, a key, and at most twelve phones in each slot, every phone that
  -- is a word and not 0 is answered with the UUID of its last entry in the directory, and with
  -- zeros if it has none.
  pub cds_hash_lookup-directory :
      (entries : List Entry) (w w' : World) (k : HashKey x)
      → IsOrder
      → generate x w ≡ (some k, w')
      → length ab_phones < 2 ^ 32
      → All (λ p. p < 2 ^ 64) ab_phones
      → All (λ p. p ≢ 0) ab_phones
      → Fits (hash x k (trailing_zeros slot_count)) ab_phones slot_count
      → cds_hash_lookup x entries slot_count ab_phones w
        ≡ (ok (map (directory_lookup entries) ab_phones), w')
  cds_hash_lookup-directory entries w w' k o drawn room words nonzero fits =
      let order = trailing_zeros slot_count in
      call-good entries w (some k) o (ap (λ g. g.0) drawn)
      ∙ ap₂ (λ r v. (r, v))
          (lookup_all-directory (hash x k order) entries slot_count ab_phones
            (λ q. omega (arith, hash-lt x k order q, o.1))
            (omega (arith, order_small order o.0, o.1)) room words fits nonzero)
          (ap (λ g. g.1) drawn)
