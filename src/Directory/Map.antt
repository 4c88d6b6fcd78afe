-- ===== src/Directory/Map.antt =====
-- DirectoryMap of service/src/main/jni/cds_jni/src/directory_map_native.rs: the buffers that are being
-- built, those that serve the enclave, and the commit from the ones to the others.
use contact_discovery_servic.Prelude.{
  ℕ, ◌-◌, ◌==◌, true, false, Bool, not, ◌||◌, if◌then◌else◌, Option, none, some, List, ◌++◌, length,
  take, replicate, Result, ok, err,
}
use contact_discovery_servic.Cds.HashTable.{Uuid, zero_uuid}
use contact_discovery_servic.Directory.{free_e164, ByteOrder}
use contact_discovery_servic.Directory.Buffers
use contact_discovery_servic.Directory.Buffers.{Floats, Buffers, BuffersError, unless_panic}

pub record DirectoryMap (F : Type 0) : Type 0 where
  pub dirty : Bool
  pub building : Buffers F
  pub serving : Buffers F

-- `Vec::resize` and `copy_from_slice`, which panics if the lengths differ.
abbrev pub resize : {A : Type 0} → List A → ℕ → A → List A
resize xs n x = take n xs ++ replicate (n - length xs) x

abbrev pub copy_from_slice : {A : Type 0} → List A → List A → Option (List A)
copy_from_slice xs ys = if length xs == length ys then some ys else none

-- copy_from of InternalBuffers, which cannot fail but by a panic.
unfoldable pub copy_from : {F : Type 0} → Buffers F → Buffers F → Option (Buffers F)
copy_from b src =
    let n = length src.e164s_buffer in
    let same = length b.e164s_buffer == n in
    let e164s = if same then b.e164s_buffer else resize b.e164s_buffer n free_e164 in
    let uuids = if same then b.uuids_buffer else resize b.uuids_buffer n zero_uuid in
    unless_panic (copy_from_slice e164s src.e164s_buffer) (λ e164s.
      unless_panic (copy_from_slice uuids src.uuids_buffer) (λ uuids. some (record {
        min_load_factor = src.min_load_factor;
        max_load_factor = src.max_load_factor;
        element_count = src.element_count;
        used_slot_count = src.used_slot_count;
        e164s_buffer = e164s;
        uuids_buffer = uuids;
      })))

-- The map is dirty once an insertion added a phone or a removal removed one.
abbrev pub mark : {E : Type 0} → Result E Bool → Bool → Bool
mark (ok changed) dirty = changed || dirty
mark (err e) dirty = dirty

module _ (o : ByteOrder) (f : Floats) where
  abbrev pub Outcome : Type 0
  Outcome = Option (Result (BuffersError f.F) Bool × DirectoryMap f.F)

  abbrev pub update :
      DirectoryMap f.F → Option (Result (BuffersError f.F) Bool × Buffers f.F) → Outcome
  update m x =
      unless_panic x (λ r. some (r.0, record m { dirty = mark r.0 m.dirty; building = r.1 }))

  unfoldable pub insert : DirectoryMap f.F → ℕ → Uuid → Outcome
  insert m e164 uuid = update m (Buffers.insert o f m.building e164 uuid)

  unfoldable pub remove : DirectoryMap f.F → ℕ → Outcome
  remove m e164 = update m (Buffers.remove o f m.building e164)

-- The buffers are swapped, and those that served are overwritten.
unfoldable pub commit : {F : Type 0} → DirectoryMap F → Option (Bool × DirectoryMap F)
commit m =
    let swapped =
      unless_panic (copy_from m.serving m.building)
        (λ b. some (true, record { dirty = false; building = b; serving = m.building })) in
    if not m.dirty then some (false, m) else swapped
