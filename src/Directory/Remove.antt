-- ===== src/Directory/Remove.antt =====
-- remove of InternalBuffers.
use contact_discovery_servic.Prelude.{
  ℕ, ◌+◌, ◌-◌, ◌≡◌, ◌≢◌, ◌⊎◌, ◌↔◌, inl, inr, refl, sym, ap, ◌∙◌, ◌==◌, true, false, Bool, ◌||◌,
  if◌then◌else◌, Option, none, some, List, length, Result, ok, err, arith,
}
use contact_discovery_servic.Cds.HashTable.{Uuid}
use contact_discovery_servic.Directory.{free_e164, deleted_e164, is_open, ByteOrder}
use contact_discovery_servic.Directory.Table.{IsLive}
use contact_discovery_servic.Directory.Phones.{IsPhone, to_be-IsLive}
use contact_discovery_servic.Directory.Removal.{WasRemoved, remove_from_buffer-WasRemoved}
use contact_discovery_servic.Directory.Buffers.{Floats, Buffers, BuffersError, unless_panic, remove}
use contact_discovery_servic.Directory.Counts.{live_count, live_count-deleted}
use contact_discovery_servic.Directory.Copies.{set-IsWords}
use contact_discovery_servic.Directory.Sound.{IsSound, Has}

-- The phone has no UUID, every other phone has what it had, and the count and the answer say whether
-- the phone was there.
pub record Removes {F : Type 0} (b : Buffers F) (k : ℕ) (removed : Bool) (b' : Buffers F)
    : Type 0 where
  pub dropped : (u : Uuid) → ¬ Has b' k u
  pub others : (k' : ℕ) (u : Uuid) → IsLive k' → k' ≢ k → Has b' k' u ↔ Has b k' u
  pub counts :
      ((removed ≡ true) × ((u : Uuid) × Has b k u) × (b'.element_count + 1 ≡ b.element_count))
      ⊎ ((removed ≡ false) × ((u : Uuid) → ¬ Has b k u) × (b'.element_count ≡ b.element_count))

module _ (o : ByteOrder) (f : Floats) where
  -- The call succeeded, and removed the phone from sound buffers.
  abbrev pub HasRemoved :
      Buffers f.F → ℕ → Option (Result (BuffersError f.F) Bool × Buffers f.F) → Type 0
  HasRemoved b k none = ⊥
  HasRemoved b k (some (err e, b')) = ⊥
  HasRemoved b k (some (ok removed, b')) = IsSound o b' × Removes b k removed b'

  module _ (b : Buffers f.F) (sound : IsSound o b) (k : ℕ) (live : IsLive k) where
    counted_out :
        (r : Option (Bool × List ℕ × List Uuid))
        → WasRemoved o b.e164s_buffer b.uuids_buffer k r
        → HasRemoved b k (
            unless_panic r (λ r. some (
              ok r.0,
              record b {
                e164s_buffer = r.1;
                uuids_buffer = r.2;
                element_count = if r.0 then b.element_count - 1 else b.element_count;
              },
            )))
    counted_out none was = was
    counted_out (some (removed, e164s, uuids))
          (probed, inl (yes_removed, (i, lt, here, e), drops)) =
        let live_here = ap is_open here ∙ live in
        let n = live_count-deleted b.e164s_buffer i lt live_here in
        let same = ap live_count e in
        let count : (if removed then b.element_count - 1 else b.element_count) + 1
            ≡ b.element_count =
          ground (arith, n, sound.counted) in
        (
          record {
            probed = probed;
            sizes = omega (arith, drops.same_length, drops.same_uuids, sound.sizes);
            words = rw e (set-IsWords b.e164s_buffer i deleted_e164 lt sound.words (omega arith));
            counted = omega (arith, count, n, same, sound.counted);
            some_slot = omega (arith, drops.same_length, sound.some_slot);
          },
          record {
            dropped = drops.dropped;
            others = drops.others;
            counts = inl (yes_removed, (_, (i, lt, here, refl)), count);
          },
        )
    counted_out (some (removed, e164s, uuids)) (probed, inr (not_removed, absent, e, eu)) =
        let count : (if removed then b.element_count - 1 else b.element_count) ≡ b.element_count =
          ground arith in
        (
          record {
            probed = probed;
            sizes = ap length eu ∙ sound.sizes ∙ sym (ap length e);
            words = rw e sound.words;
            counted = count ∙ sound.counted ∙ sym (ap live_count e);
            some_slot = rw e sound.some_slot;
          },
          record {
            dropped = λ u. rw (e, eu) (absent u);
            others = λ k' u live' ne. rw (e, eu) (λ h. h, λ h. h);
            counts = inr (not_removed, absent, count);
          },
        )

  -- For sound buffers and a phone that is neither mark: remove does not panic and does not fail, and
  -- the buffers are sound again. The phone then has no UUID, and every other phone has what it had.
  -- remove returns true and counts one element less if the phone was there; if not, it returns false
  -- and the count is as it was.
  pub remove-HasRemoved :
      (b : Buffers f.F) (e164 : ℕ)
      → IsSound o b
      → IsPhone e164
      → HasRemoved b (o.to_be e164) (remove o f b e164)
  unfolding remove
  remove-HasRemoved b e164 sound h =
      let a_phone : (e164 == deleted_e164 || e164 == free_e164) ≡ false =
        ground (arith, h.not_free, h.not_deleted) in
      rw a_phone (
        counted_out b sound (o.to_be e164) (to_be-IsLive o e164 h) _ (
          remove_from_buffer-WasRemoved o b.e164s_buffer b.uuids_buffer e164 h sound.probed
            sound.sizes sound.some_slot))
