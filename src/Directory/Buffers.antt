-- ===== src/Directory/Buffers.antt =====
-- InternalBuffers of internal_buffers.rs: the table of phones with its counts and load factors, its
-- growth, and the insertion and removal of a phone.
use contact_discovery_servic.Prelude.{
  ℕ, ◌+◌, ◌-◌, ◌==◌, ltb, leb, true, false, Bool, not, ◌||◌, if◌then◌else◌, Option, none, some,
  List, [], ◌∷◌, length, replicate, Result, ok, err,
}
use contact_discovery_servic.Cds.HashTable.{Uuid, zero_uuid}
use contact_discovery_servic.Directory.{
  free_e164, deleted_e164, is_open, ByteOrder, add_to_buffer, remove_from_buffer,
}

-- The load factors, which are `f32`: `(n as f64 / x as f64) as usize` and `(n as f64 * x as f64) as
-- usize`.
pub record Floats : Type 1 where
  pub F : Type 0
  pub quotient : ℕ → F → ℕ
  pub product : ℕ → F → ℕ

-- InternalBuffersError, less what reading and writing fail with.
pub data BuffersError (F : Type 0) : Type 0 where
  invalid_e164 : ℕ → BuffersError F
  buffer_full : ℕ → ℕ → BuffersError F
  invalid_minimum_load_factor : F → BuffersError F
  invalid_maximum_load_factor : F → BuffersError F
  invalid_load_factor_tuple : F → F → BuffersError F

pub record Buffers (F : Type 0) : Type 0 where
  pub min_load_factor : F
  pub max_load_factor : F
  pub element_count : ℕ
  pub used_slot_count : ℕ
  pub e164s_buffer : List ℕ
  pub uuids_buffer : List Uuid

abbrev pub max : ℕ → ℕ → ℕ
max a b = if ltb a b then b else a

-- A call that may panic, and the rest.
abbrev pub unless_panic : {A B : Type 0} → Option A → (A → Option B) → Option B
unless_panic none f = none
unless_panic (some a) f = f a

abbrev pub Table : Type 0
Table = List ℕ × List Uuid × ℕ

module _ (o : ByteOrder) (f : Floats) where
  -- The loop of rehash, over the old buffers, with the new ones and the count of their used slots.
  unfoldable pub rehash_all : List ℕ → List Uuid → List ℕ → List Uuid → ℕ → Option Table
  rehash_all [] us new_e164s new_uuids used = some (new_e164s, new_uuids, used)
  rehash_all (k ∷ ks) [] new_e164s new_uuids used = none
  rehash_all (k ∷ ks) (u ∷ us) new_e164s new_uuids used =
      let e164 = o.from_be k in
      let skipped = rehash_all ks us new_e164s new_uuids used in
      let added =
        unless_panic (add_to_buffer o new_e164s new_uuids e164 u false)
          (λ r. rehash_all ks us r.1 r.2 (if r.0 == free_e164 then used + 1 else used)) in
      if is_open e164 then skipped else added

  unfoldable pub rehash : Buffers f.F → Option (Buffers f.F)
  rehash b =
      let slots = max (f.quotient b.element_count b.min_load_factor) (length b.e164s_buffer) in
      unless_panic
        (rehash_all b.e164s_buffer b.uuids_buffer (replicate slots free_e164)
          (replicate slots zero_uuid) 0)
        (λ t. some (record b { e164s_buffer = t.0; uuids_buffer = t.1; used_slot_count = t.2 }))

  -- What insert does with the table to which the phone was added.
  unfoldable pub finish_insert :
      Buffers f.F
      → ℕ
      → ℕ × List ℕ × List Uuid
      → Option (Result (BuffersError f.F) Bool × Buffers f.F)
  finish_insert b e164 (old, e164s, uuids) =
      let added = not (old == e164) in
      let b' = record b {
        e164s_buffer = e164s;
        uuids_buffer = uuids;
        used_slot_count = if old == free_e164 then b.used_slot_count + 1 else b.used_slot_count;
        element_count = if added then b.element_count + 1 else b.element_count;
      } in
      unless_panic
        (if leb (f.product (length e164s) b.max_load_factor) b'.used_slot_count
          then rehash b'
          else some b')
        (λ b''. some (ok added, b''))

  unfoldable pub insert :
      Buffers f.F → ℕ → Uuid → Option (Result (BuffersError f.F) Bool × Buffers f.F)
  insert b e164 uuid =
      let capacity = length b.e164s_buffer in
      if e164 == deleted_e164 || e164 == free_e164
      then some (err (invalid_e164 e164), b)
      else unless_panic (if b.element_count == capacity then rehash b else some b) (λ b'.
        if ltb capacity b'.element_count
        then some (err (buffer_full b'.element_count capacity), b')
        else unless_panic (add_to_buffer o b'.e164s_buffer b'.uuids_buffer e164 uuid true)
            (finish_insert b' e164))

  unfoldable pub remove : Buffers f.F → ℕ → Option (Result (BuffersError f.F) Bool × Buffers f.F)
  remove b e164 =
      if e164 == deleted_e164 || e164 == free_e164
      then some (err (invalid_e164 e164), b)
      else unless_panic (remove_from_buffer o b.e164s_buffer b.uuids_buffer e164) (λ r. some (
        ok r.0,
        record b {
          e164s_buffer = r.1;
          uuids_buffer = r.2;
          element_count = if r.0 then b.element_count - 1 else b.element_count;
        },
      ))
