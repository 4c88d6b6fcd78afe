-- ===== src/Cds/HashLookup/Lengths.antt =====
-- A lookup that succeeds has a result for every phone.
use contact_discovery_servic.Prelude.{
  ℕ, zero, suc, ◌≡◌, ◌⊎◌, inl, inr, refl, sym, ap, ◌∙◌, ltb, ◌==◌, ==_iff, Bool, true, false, not,
  if◌then◌else◌, Option, none, some, List, [], length, Result, ok, err, err-ne-ok, ok-injective,
  if-ok,
}
use contact_discovery_servic.Sgxsd.Types.{unexpected, invalid_parameter}
use contact_discovery_servic.Cds.HashKey.{Instructions, HashKey, hash, generate}
use contact_discovery_servic.Cds.HashTable.{
  Uuid, Entry, HashLookupError, bad_parameter, rdrand_failed, hash_table_overflow, any_overflow,
  lookup_all, trailing_zeros, cds_hash_lookup,
}
use contact_discovery_servic.Cds.HashTable.Lanes.{length-map}
use contact_discovery_servic.Cds.HashTable.Call.{IsOrder, IsOrder-cases, call-bad, call-good}
use contact_discovery_servic.Cds.HashLookup.{
  max_hash_table_size, bytes_per_uuid, saturating_mul, checked_next_power_of_two, attempt,
  lookup_sized, hash_lookup,
}
use contact_discovery_servic.Cds.HashLookup.Retries.{outcome}

-- The result of a test between two outcomes.
if-result :
    {R World : Type 0} (b : Bool) (p q : R × World) {r : R}
    → (if b then p else q).0 ≡ r
    → ((b ≡ true) × (p.0 ≡ r)) ⊎ ((b ≡ false) × (q.0 ≡ r))
if-result true p q h = inl (refl, h)
if-result false p q h = inr (refl, h)

lookup_all-length :
    (hash : ℕ → ℕ) (entries : List Entry) (n : ℕ) (phones : List ℕ) (uuids : List Uuid)
    → lookup_all hash entries n phones ≡ ok uuids
    → length uuids ≡ length phones
unfolding lookup_all
lookup_all-length hash entries n phones uuids e =
    let (fine, found) = if-ok (any_overflow hash phones 0 n) _ _ uuids e in
    ap length (sym (ok-injective _ uuids found)) ∙ length-map _ phones

module _ {World : Type 0} (x : Instructions World) (entries : List Entry) where
  cds_hash_lookup-length :
      (n : ℕ) (phones : List ℕ) (w : World) (uuids : List Uuid)
      → (cds_hash_lookup x entries n phones w).0 ≡ ok uuids
      → length uuids ≡ length phones
  cds_hash_lookup-length n phones w uuids e = elim (IsOrder-cases x n phones) [
    | inr bad ↦ absurd (
        err-ne-ok bad_parameter uuids (sym (ap (λ r. r.0) (call-bad x n phones entries w bad)) ∙ e))
    | inl o ↦ with_key o (generate x w).0 refl
  ]
    where
      with_key :
          IsOrder x n phones
          → (key : Option (HashKey x)) → (generate x w).0 ≡ key
          → length uuids ≡ length phones
      with_key o none drawn = absurd (
          err-ne-ok rdrand_failed uuids
            (sym (ap (λ r. r.0) (call-good x n phones entries w none o drawn)) ∙ e))
      with_key o (some k) drawn =
          lookup_all-length (hash x k (trailing_zeros n)) entries n phones uuids
            (sym (ap (λ r. r.0) (call-good x n phones entries w (some k) o drawn)) ∙ e)

  attempt-length :
      (left n : ℕ) (phones : List ℕ) (w : World) (uuids : List Uuid)
      → (attempt x entries left n phones w).0 ≡ ok uuids
      → length uuids ≡ length phones
  unfolding attempt
  attempt-length zero n phones w uuids e = absurd (err-ne-ok unexpected uuids e)
  attempt-length (suc left) n phones w uuids e =
      by_result (cds_hash_lookup x entries n phones w).0 refl
        (attempt-length left n phones (cds_hash_lookup x entries n phones w).1 uuids) e
    where
      by_result :
          (r : Result HashLookupError (List Uuid))
          → (cds_hash_lookup x entries n phones w).0 ≡ r
          → ((attempt x entries left n phones (cds_hash_lookup x entries n phones w).1).0 ≡ ok uuids
              → length uuids ≡ length phones)
          → (outcome x entries left n phones (r, (cds_hash_lookup x entries n phones w).1)).0
            ≡ ok uuids
          → length uuids ≡ length phones
      by_result (ok found) q later h =
          cds_hash_lookup-length n phones w uuids (q ∙ ap ok (ok-injective found uuids h))
      by_result (err bad_parameter) q later h = absurd (err-ne-ok unexpected uuids h)
      by_result (err rdrand_failed) q later h = absurd (err-ne-ok unexpected uuids h)
      by_result (err hash_table_overflow) q later h = later h

  lookup_sized-length :
      (size : Option ℕ) (phones : List ℕ) (results_size : ℕ) (w : World) (uuids : List Uuid)
      → (lookup_sized x entries size phones results_size w).0 ≡ ok uuids
      → length uuids ≡ length phones
  unfolding lookup_sized
  lookup_sized-length none phones results_size w uuids e =
      absurd (err-ne-ok invalid_parameter uuids e)
  lookup_sized-length (some n) phones results_size w uuids e =
      elim (if-result (ltb max_hash_table_size n) _ _ e) [
        | inl (large, h) ↦ absurd (err-ne-ok invalid_parameter uuids h)
        | inr (small, h) ↦ elim (if-result (length phones == 0) _ _ h) [
          | inl (none_left, k) ↦
              ap length (sym (ok-injective [] uuids k))
              ∙ sym ((==_iff (length phones) 0).0 none_left)
          | inr (some_left, k) ↦
              elim (if-result (not (results_size == saturating_mul (length phones) bytes_per_uuid))
                _ _ k) [
                  | inl (odd, l) ↦ absurd (err-ne-ok invalid_parameter uuids l)
                  | inr (sized, l) ↦ attempt-length 128 n phones w uuids l
                ]
        ]
      ]

  pub hash_lookup-length :
      (phones : List ℕ) (results_size : ℕ) (w : World) (uuids : List Uuid)
      → (hash_lookup x entries phones results_size w).0 ≡ ok uuids
      → length uuids ≡ length phones
  unfolding hash_lookup
  hash_lookup-length phones results_size w uuids e =
      lookup_sized-length (checked_next_power_of_two (length phones)) phones results_size w uuids e
