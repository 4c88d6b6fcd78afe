-- ===== src/Directory.antt =====
-- The directory of the host, which the enclave goes through:
-- service/src/main/jni/cds_jni/src/directory_map_native/internal_buffers.rs, a hash table with linear
-- probing, in two arrays, with the phones and the UUIDs in big-endian order.
pub mod Scan
pub mod Table
pub mod Writes
pub mod Entries
pub mod Phones
pub mod Removal
pub mod Buffers
pub mod Counts
pub mod Copies
pub mod Rehash
pub mod Sound
pub mod Growth
pub mod Insert
pub mod Remove
pub mod Map
pub mod Publishing
use contact_discovery_servic.Prelude.{
  ℕ, zero, suc, ◌+◌, ◌-◌, ◌%◌, ◌^◌, ◌<◌, ◌≡◌, ◌==◌, ltb, leb, true, false, Bool, not, ◌||◌,
  if◌then◌else◌, Option, none, some, List, [], ◌∷◌, length, get_or, set, replicate,
}
use contact_discovery_servic.Cds.HashTable.{Uuid, zero_uuid}

-- `FREE_E164` and `DELETED_E164`
abbrev pub free_e164 : ℕ
free_e164 = 0

abbrev pub deleted_e164 : ℕ
deleted_e164 = 2 ^ 64 - 1

abbrev pub is_free : ℕ → Bool
is_free k = k == free_e164

abbrev pub is_open : ℕ → Bool
is_open k = k == free_e164 || k == deleted_e164

-- `u64::to_be` and `u64::from_be`: of words into words, inverse, and the same at zeros and at ones.
pub record ByteOrder : Type 0 where
  pub to_be : ℕ → ℕ
  pub from_be : ℕ → ℕ
  pub from_be-to_be : (x : ℕ) → x < 2 ^ 64 → from_be (to_be x) ≡ x
  pub to_be-from_be : (x : ℕ) → x < 2 ^ 64 → to_be (from_be x) ≡ x
  pub to_be-lt : (x : ℕ) → x < 2 ^ 64 → to_be x < 2 ^ 64
  pub from_be-lt : (x : ℕ) → x < 2 ^ 64 → from_be x < 2 ^ 64
  pub from_be-zero : from_be 0 ≡ 0
  pub from_be-ones : from_be deleted_e164 ≡ deleted_e164

-- What a probe of the table ends with: the slot of the phone, a slot at which the loop stops, the slot
-- where it began, or no more fuel.
pub data Probe : Type 0 where
  hit : ℕ → Probe
  gap : ℕ → Probe
  wrapped : Probe
  exhausted : Probe

-- `slot_index += 1; if slot_index == slot_count { slot_index = 0; }`
abbrev pub next_slot : ℕ → ℕ → ℕ
next_slot slot_count slot = if slot + 1 == slot_count then 0 else slot + 1

-- The loops of add_to_buffer and remove_from_buffer: from a slot, until a slot stops them, has the
-- phone, or is the last before the one where they began.
unfoldable pub scan : (ℕ → Bool) → List ℕ → ℕ → ℕ → ℕ → ℕ → Probe
scan stops e164s e164 begin zero slot = exhausted
scan stops e164s e164 begin (suc fuel) slot =
    let k = get_or e164s slot free_e164 in
    let next = next_slot (length e164s) slot in
    let rest = scan stops e164s e164 begin fuel next in
    if stops k
    then gap slot
    else if k == e164
    then hit slot
    else if next == begin
    then wrapped
    else rest

-- The two buffers, after the phone that was in the slot.
abbrev pub Added : Type 0
Added = ℕ × List ℕ × List Uuid

-- What remove_from_buffer does once its loop has ended.
unfoldable pub erase_at : List ℕ → List Uuid → Probe → Option (Bool × List ℕ × List Uuid)
erase_at e164s uuids (hit i) = some (true, set e164s i deleted_e164, set uuids i zero_uuid)
erase_at e164s uuids exhausted = none
erase_at e164s uuids _ = some (false, e164s, uuids)

module _ (o : ByteOrder) where
  abbrev pub big_endian : Uuid → Uuid
  big_endian u = record { data64_0 = o.to_be u.data64_0; data64_1 = o.to_be u.data64_1 }

  -- What add_to_buffer does once it has an open slot and has looked for the phone behind it.
  unfoldable pub write_at : List ℕ → List Uuid → ℕ → Uuid → ℕ → Probe → Option Added
  write_at e164s uuids e164 uuid slot (hit i) = some (o.from_be e164, e164s, set uuids i uuid)
  write_at e164s uuids e164 uuid slot exhausted = none
  write_at e164s uuids e164 uuid slot _ =
      some (o.from_be (get_or e164s slot free_e164), set e164s slot e164, set uuids slot uuid)

  -- What it does once its first loop has ended; the second begins at the open slot.
  unfoldable pub add_at : List ℕ → List Uuid → ℕ → Uuid → Probe → Option Added
  add_at e164s uuids e164 uuid (hit i) = some (o.from_be e164, e164s, set uuids i uuid)
  add_at e164s uuids e164 uuid (gap slot) =
      write_at e164s uuids e164 uuid slot (scan is_free e164s e164 slot (length e164s) slot)
  add_at e164s uuids e164 uuid _ = none

  -- `none` is a panic. The first loop stops at a free or a deleted slot.
  unfoldable pub add_to_buffer : List ℕ → List Uuid → ℕ → Uuid → Bool → Option Added
  add_to_buffer e164s uuids e164 uuid convert_uuid =
      let slot_count = length e164s in
      let raw = o.to_be e164 in
      let value = if convert_uuid then big_endian uuid else uuid in
      let slot = e164 % slot_count in
      if not (slot_count == length uuids) || slot_count == 0
      then none
      else add_at e164s uuids raw value (scan is_open e164s raw slot slot_count slot)

  unfoldable pub remove_from_buffer : List ℕ → List Uuid → ℕ → Option (Bool × List ℕ × List Uuid)
  remove_from_buffer e164s uuids e164 =
      let slot_count = length e164s in
      let raw = o.to_be e164 in
      let slot = e164 % slot_count in
      if not (slot_count == length uuids) || slot_count == 0
      then none
      else erase_at e164s uuids (scan is_free e164s raw slot slot_count slot)
