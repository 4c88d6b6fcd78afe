-- ===== src/Cds/HashLookup/Retries.antt =====
-- hash_lookup: attempts whose table overflows are made again, with a new key.
use contact_discovery_servic.Prelude.{
  ℕ, suc, ◌+◌, ◌*◌, ◌^◌, ◌≤◌, ◌<◌, ◌≡◌, ◌≢◌, ◌-◌, ==_iff, sym, ap, ◌∙◌, ltb, ◌==◌, true, false,
  some, List, map, length, All, Result, ok, err, arith,
}
use mathlib.Core.Option.{some-injective}
use contact_discovery_servic.Sgxsd.Types.{Status, unexpected}
use contact_discovery_servic.Cds.HashKey.{Instructions, HashKey, hash, generate}
use contact_discovery_servic.Cds.HashTable.{
  Uuid, Entry, HashLookupError, bad_parameter, rdrand_failed, hash_table_overflow, trailing_zeros,
  cds_hash_lookup,
}
use contact_discovery_servic.Cds.HashTable.Answers.{directory_lookup}
use contact_discovery_servic.Cds.HashTable.Lookup.{Fits}
use contact_discovery_servic.Cds.HashTable.Call.{IsOrder, cds_hash_lookup-directory}
use contact_discovery_servic.Cds.HashLookup.{
  max_hash_table_size, bytes_per_uuid, checked_next_power_of_two, saturating_mul, attempt,
  lookup_sized, hash_lookup,
}
use contact_discovery_servic.Cds.HashLookup.Powers.{
  trailing_zeros-power, power_small, checked_next_power_of_two-small,
}

module _ {World : Type 0} (x : Instructions World) (entries : List Entry) where
  -- So many attempts overflow, one after the other.
  pub data Overflowed (slot_count : ℕ) (phones : List ℕ) : ℕ → World → World → Type 0 where
    no_attempt : {w : World} → Overflowed slot_count phones 0 w w
    one_more :
        {n : ℕ} {w w' w'' : World}
        → cds_hash_lookup x entries slot_count phones w ≡ (err hash_table_overflow, w')
        → Overflowed slot_count phones n w' w''
        → Overflowed slot_count phones (suc n) w w''

  -- What an attempt comes to, of which so many are left after it.
  abbrev pub outcome :
      ℕ
      → ℕ
      → List ℕ
      → Result HashLookupError (List Uuid) × World
      → Result Status (List Uuid) × World
  outcome left slot_count phones p = elim p.0 [
    | ok uuids ↦ (ok uuids, p.1)
    | err bad_parameter ↦ (err unexpected, p.1)
    | err rdrand_failed ↦ (err unexpected, p.1)
    | err hash_table_overflow ↦ attempt x entries left slot_count phones p.1
  ]

  attempt-Overflowed :
      (slot_count : ℕ) (phones : List ℕ) (n left : ℕ) (w w' : World)
      → Overflowed slot_count phones n w w'
      → attempt x entries (n + left) slot_count phones w
        ≡ attempt x entries left slot_count phones w'
  unfolding attempt
  attempt-Overflowed slot_count phones n left w w' no_attempt =
      ap (λ m. attempt x entries m slot_count phones w) (omega arith)
  attempt-Overflowed slot_count phones n left w w' (one_more {n = m} {w' = v} e rest) =
      let more : suc m + left ≡ suc (m + left) = omega arith in
      ap (λ i. attempt x entries i slot_count phones w) more
      ∙ ap (outcome (m + left) slot_count phones) e
      ∙ attempt-Overflowed slot_count phones m left v w' rest

  attempt-ok :
      (slot_count : ℕ) (phones : List ℕ) (left : ℕ) (w w' : World) (uuids : List Uuid)
      → cds_hash_lookup x entries slot_count phones w ≡ (ok uuids, w')
      → attempt x entries (suc left) slot_count phones w ≡ (ok uuids, w')
  unfolding attempt
  attempt-ok slot_count phones left w w' uuids e = ap (outcome left slot_count phones) e

  -- If at most 127 attempts overflow, and the next one draws a key under which at most twelve phones
  -- fall into each slot, then the phones, 1 to 8192 of them, words and not 0, are answered from the
  -- directory.
  pub hash_lookup-directory :
      (phones : List ℕ) (n slot_count : ℕ) (w w' w'' : World) (k : HashKey x)
      → 0 < length phones
      → length phones ≤ max_hash_table_size
      → All (λ p. p < 2 ^ 64) phones
      → All (λ p. p ≢ 0) phones
      → checked_next_power_of_two (length phones) ≡ some slot_count
      → n < 128
      → Overflowed slot_count phones n w w'
      → generate x w' ≡ (some k, w'')
      → Fits (hash x k (trailing_zeros slot_count)) phones slot_count
      → hash_lookup x entries phones (length phones * bytes_per_uuid) w
        ≡ (ok (map (directory_lookup entries) phones), w'')
  unfolding hash_lookup lookup_sized
  hash_lookup-directory phones n slot_count w w' w'' k some_phone few words nonzero size tries
        overflowed drawn fits =
      let (j, low, enough, found) = checked_next_power_of_two-small (length phones) few in
      let count : slot_count ≡ 2 ^ j = some-injective slot_count (2 ^ j) (sym size ∙ found) in
      let order : trailing_zeros slot_count ≡ j =
        ap trailing_zeros count ∙ trailing_zeros-power j low in
      let is_order : IsOrder x slot_count phones =
        (omega arith, count ∙ ap (λ i. 2 ^ i) (sym order)) in
      let small : ltb max_hash_table_size slot_count ≡ false =
        rw count (ground (arith, power_small j low)) in
      let some_left : (length phones == 0) ≡ false = ground arith in
      let sized : (length phones * bytes_per_uuid == saturating_mul (length phones) bytes_per_uuid)
          ≡ true =
        (==_iff _ _).1 (omega arith) in
      let left : 128 ≡ n + suc (127 - n) = omega arith in
      rw (hash_lookup, size, lookup_sized, small, some_left, sized)
        (ap (λ m. attempt x entries m slot_count phones w) left
          ∙ attempt-Overflowed slot_count phones n (suc (127 - n)) w w' overflowed
          ∙ attempt-ok slot_count phones (127 - n) w' w'' (map (directory_lookup entries) phones) (
              cds_hash_lookup-directory x slot_count phones entries w' w'' k is_order drawn
                (omega arith) words nonzero fits))
