-- ===== src/Cds/HashLookup.antt =====
-- The function hash_lookup of enclave/cds_enclave/src/ffi/hash_lookup.rs, in a release build: there
-- a `debug_assert` does nothing.
pub mod Powers
pub mod Retries
pub mod Lengths
use contact_discovery_servic.Prelude.{
  ℕ, zero, suc, ◌*◌, ◌-◌, ◌^◌, min, ltb, leb, ◌==◌, true, false, not, if◌then◌else◌, Option, none,
  some, List, [], length, Result, ok, err,
}
use contact_discovery_servic.Sgxsd.Types.{Status, unexpected, invalid_parameter}
use contact_discovery_servic.Cds.HashKey.{Instructions}
use contact_discovery_servic.Cds.HashTable.{
  Uuid, Entry, HashLookupError, bad_parameter, rdrand_failed, hash_table_overflow, cds_hash_lookup,
}

-- `MAX_HASH_TABLE_SIZE`
abbrev pub max_hash_table_size : ℕ
max_hash_table_size = 8192

abbrev pub bytes_per_uuid : ℕ
bytes_per_uuid = 16

-- `saturating_mul` of a `usize`
abbrev pub saturating_mul : ℕ → ℕ → ℕ
saturating_mul a b = min (a * b) (2 ^ 64 - 1)

-- `checked_next_power_of_two` of a `usize`: the least of the 64 powers that is not below.
unfoldable pub next_power_within : ℕ → ℕ → ℕ → Option ℕ
next_power_within zero k n = none
next_power_within (suc left) k n = elim (leb n (2 ^ k)) [
  | true ↦ some (2 ^ k)
  | false ↦ next_power_within left (suc k) n
]

abbrev pub checked_next_power_of_two : ℕ → Option ℕ
checked_next_power_of_two n = next_power_within 64 0 n

module _ {World : Type 0} (x : Instructions World) (entries : List Entry) where
  -- The loop of attempts, of which so many are left: only an overflow leads to another.
  unfoldable pub attempt : ℕ → ℕ → List ℕ → World → Result Status (List Uuid) × World
  attempt zero slot_count query_phones w = (err unexpected, w)
  attempt (suc left) slot_count query_phones w =
      let (r, w') = cds_hash_lookup x entries slot_count query_phones w in
      elim r [
        | ok uuids ↦ (ok uuids, w')
        | err bad_parameter ↦ (err unexpected, w')
        | err rdrand_failed ↦ (err unexpected, w')
        | err hash_table_overflow ↦ attempt left slot_count query_phones w'
      ]

  -- The rest of hash_lookup, once it has the number of slots.
  unfoldable pub lookup_sized : Option ℕ → List ℕ → ℕ → World → Result Status (List Uuid) × World
  lookup_sized none query_phones results_size w = (err invalid_parameter, w)
  lookup_sized (some slot_count) query_phones results_size w =
      if ltb max_hash_table_size slot_count
      then (err invalid_parameter, w)
      else if length query_phones == 0
      then (ok [], w)
      else if not (results_size == saturating_mul (length query_phones) bytes_per_uuid)
      then (err invalid_parameter, w)
      else attempt 128 slot_count query_phones w

  -- Of the queried phones and the size of the results in bytes.
  unfoldable pub hash_lookup : List ℕ → ℕ → World → Result Status (List Uuid) × World
  hash_lookup query_phones results_size w =
      lookup_sized (checked_next_power_of_two (length query_phones)) query_phones results_size w
