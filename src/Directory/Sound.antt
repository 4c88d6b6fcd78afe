-- ===== src/Directory/Sound.antt =====
-- What is true of the buffers between two operations, and what rehash keeps.
use contact_discovery_servic.Prelude.{
  ℕ, ◌≤◌, ◌<◌, ◌≡◌, ◌↔◌, inl, inr, refl, sym, ap, ◌∙◌, true, false, Option, none, some, length,
  replicate, get_or-replicate, length-replicate, arith,
}
use contact_discovery_servic.Cds.HashTable.{Uuid, zero_uuid}
use contact_discovery_servic.Directory.{free_e164, is_open, ByteOrder}
use contact_discovery_servic.Directory.Table.{IsLive, slot_of, IsProbed, empty-IsProbed}
use contact_discovery_servic.Directory.Entries.{Holds}
use contact_discovery_servic.Directory.Buffers.{Floats, Buffers, Table, max, unless_panic, rehash}
use contact_discovery_servic.Directory.Counts.{live_count, live_count-le, live_count-empty}
use contact_discovery_servic.Directory.Copies.{IsWords, Takes, HasTaken}
use contact_discovery_servic.Directory.Rehash.{rehash_all-HasTaken}

module _ (o : ByteOrder) where
  -- Every phone is where a probe finds it, in one slot only; the two arrays are of one length, not 0,
  -- their slots are words; and element_count is the number of phones.
  pub record IsSound {F : Type 0} (b : Buffers F) : Type 0 where
    pub probed : IsProbed o b.e164s_buffer
    pub sizes : length b.uuids_buffer ≡ length b.e164s_buffer
    pub words : IsWords b.e164s_buffer
    pub counted : b.element_count ≡ live_count b.e164s_buffer
    pub some_slot : 0 < length b.e164s_buffer

-- The UUID that the buffers have for a phone, both as they stand there.
abbrev pub Has : {F : Type 0} → Buffers F → ℕ → Uuid → Type 0
Has b k u = Holds b.e164s_buffer b.uuids_buffer k u

-- The same phones with the same UUIDs, in no fewer slots than so many.
pub record Keeps {F : Type 0} (b b' : Buffers F) (slots : ℕ) : Type 0 where
  pub same_element_count : b'.element_count ≡ b.element_count
  pub enough : slots ≤ length b'.e164s_buffer
  pub same : (k : ℕ) (u : Uuid) → IsLive k → Has b' k u ↔ Has b k u

module _ (o : ByteOrder) (f : Floats) where
  -- The buffers are as good as those that were given.
  abbrev pub IsKept : Buffers f.F → ℕ → Option (Buffers f.F) → Type 0
  IsKept b slots none = ⊥
  IsKept b slots (some b') = IsSound o b' × Keeps b b' slots

  module _ (b : Buffers f.F) (h : IsSound o b) (n : ℕ) (le : length b.e164s_buffer ≤ n) where
    free_slot : (i : ℕ) → slot_of (replicate n free_e164) i ≡ free_e164
    free_slot i = get_or-replicate n i free_e164

    fresh_Takes :
        Takes o b.e164s_buffer b.uuids_buffer (replicate n free_e164) (replicate n zero_uuid)
    fresh_Takes =
        let e = length-replicate n free_e164 in
        record {
          probed = empty-IsProbed o n;
          sizes = length-replicate n zero_uuid ∙ sym e;
          old_sizes = h.sizes;
          some_slot = omega (arith, e, h.some_slot, le);
          words = h.words;
          new_words = λ i lt. omega (arith, free_slot i);
          once = h.probed.once;
          clean = λ i lt open_slot. free_slot i;
          apart = λ i j ilt jlt live same.
              let closed : true ≡ false = ap is_open (sym (free_slot j) ∙ same) ∙ live in
              absurd (cc (closed));
          fits = omega (arith, e, live_count-empty n, live_count-le b.e164s_buffer, le);
        }

    -- A new table has nothing.
    fresh_empty :
        (k : ℕ) (u : Uuid) → IsLive k → ¬ Holds (replicate n free_e164) (replicate n zero_uuid) k u
    fresh_empty k u live (i, lt, e, eu) =
        let closed : true ≡ false = ap is_open (sym (free_slot i) ∙ e) ∙ live in
        absurd (cc (closed))

    copied_IsKept :
        (x : Option Table)
        → HasTaken o b.e164s_buffer b.uuids_buffer (replicate n free_e164) (replicate n zero_uuid) x
        → IsKept b n (
            unless_panic x (λ t.
              some (record b { e164s_buffer = t.0; uuids_buffer = t.1; used_slot_count = t.2 })))
    copied_IsKept none r = r
    copied_IsKept (some (e164s, uuids, used)) r =
        let e = length-replicate n free_e164 in
        (
          record {
            probed = r.probed;
            sizes = r.sizes;
            words = r.words;
            counted = omega (arith, h.counted, r.count, live_count-empty n);
            some_slot = omega (arith, r.same_length, e, h.some_slot, le);
          },
          record {
            same_element_count = refl;
            enough = omega (arith, r.same_length, e);
            same = λ k u live. (
              λ x. elim ((r.holds k u live).0 x) [
                | inl new ↦ absurd (fresh_empty k u live new)
                | inr old ↦ old
              ],
              λ old. (r.holds k u live).1 (inr old),
            );
          },
        )

  -- On sound buffers, rehash does not panic; what it leaves is sound, has the same phones with the
  -- same UUIDs, and has at least the slots that the minimum load factor asks for.
  pub rehash-IsKept :
      (b : Buffers f.F)
      → IsSound o b
      → IsKept b
          (max (f.quotient b.element_count b.min_load_factor) (length b.e164s_buffer))
          (rehash o f b)
  unfolding rehash
  rehash-IsKept b h =
      let n = max (f.quotient b.element_count b.min_load_factor) (length b.e164s_buffer) in
      copied_IsKept b h n (ground arith) _ (
        rehash_all-HasTaken o f b.e164s_buffer b.uuids_buffer _ _ 0
          (fresh_Takes b h n (ground arith)))
