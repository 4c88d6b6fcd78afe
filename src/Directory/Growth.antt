-- ===== src/Directory/Growth.antt =====
-- An insertion into the buffers of internal_buffers.rs, with a growth before it and one after it.
use contact_discovery_servic.Prelude.{
  ℕ, ◌+◌, ◌≤◌, ◌≡◌, ◌≢◌, ◌⊎◌, ◌↔◌, inl, inr, refl, true, false, Bool, if◌then◌else◌, Option, none,
  some, length, Result, ok, err, arith,
}
use contact_discovery_servic.Cds.HashTable.{Uuid}
use contact_discovery_servic.Directory.{ByteOrder}
use contact_discovery_servic.Directory.Table.{IsLive}
use contact_discovery_servic.Directory.Buffers.{
  Floats, Buffers, BuffersError, max, unless_panic, rehash,
}
use contact_discovery_servic.Directory.Sound.{IsSound, Has, Keeps, IsKept, rehash-IsKept}

-- The phone has the UUID and no other, every other phone has what it had, and the count and the answer
-- say whether the phone is new.
pub record Inserts {F : Type 0} (b : Buffers F) (k : ℕ) (v : Uuid) (added : Bool) (b' : Buffers F)
    : Type 0 where
  pub put : (u : Uuid) → Has b' k u ↔ (u ≡ v)
  pub others : (k' : ℕ) (u : Uuid) → IsLive k' → k' ≢ k → Has b' k' u ↔ Has b k' u
  pub counts :
      ((added ≡ true) × ((u : Uuid) → ¬ Has b k u) × (b'.element_count ≡ b.element_count + 1))
      ⊎ ((added ≡ false) × ((u : Uuid) × Has b k u) × (b'.element_count ≡ b.element_count))

module _ (o : ByteOrder) (f : Floats) where
  -- The call succeeded, and inserted the phone into sound buffers.
  abbrev pub WasInserted :
      Buffers f.F → ℕ → Uuid → Option (Result (BuffersError f.F) Bool × Buffers f.F) → Type 0
  WasInserted b k v none = ⊥
  WasInserted b k v (some (err e, b')) = ⊥
  WasInserted b k v (some (ok added, b')) = IsSound o b' × Inserts b k v added b'

  -- What keeps the phones before an insertion or after it.
  pub kept_before :
      (b b' b'' : Buffers f.F) (slots : ℕ) (k : ℕ) (v : Uuid) (added : Bool)
      → IsLive k
      → Keeps b b' slots
      → Inserts b' k v added b''
      → Inserts b k v added b''
  kept_before b b' b'' slots k v added live keeps i = record {
    put = i.put;
    others = λ k' u live' ne.
        let (to, from) = i.others k' u live' ne in
        let (to', from') = keeps.same k' u live' in (λ h. to' (to h), λ h. from (from' h));
    counts = elim i.counts [
      | inl (e, new, n) ↦
          inl (
            e,
            λ u h. new u ((keeps.same k u live).1 h),
            omega (arith, n, keeps.same_element_count),
          )
      | inr (e, (u, h), n) ↦
          inr (e, (u, (keeps.same k u live).0 h), omega (arith, n, keeps.same_element_count))
    ];
  }

  pub kept_after :
      (b b' b'' : Buffers f.F) (slots : ℕ) (k : ℕ) (v : Uuid) (added : Bool)
      → IsLive k
      → Inserts b k v added b'
      → Keeps b' b'' slots
      → Inserts b k v added b''
  kept_after b b' b'' slots k v added live i keeps = record {
    put = λ u.
        let (to, from) = i.put u in
        let (to', from') = keeps.same k u live in (λ h. to (to' h), λ e. from' (from e));
    others = λ k' u live' ne.
        let (to, from) = i.others k' u live' ne in
        let (to', from') = keeps.same k' u live' in (λ h. to (to' h), λ h. from' (from h));
    counts = elim i.counts [
      | inl (e, new, n) ↦ inl (e, new, omega (arith, n, keeps.same_element_count))
      | inr (e, held, n) ↦ inr (e, held, omega (arith, n, keeps.same_element_count))
    ];
  }

  pub kept_WasInserted :
      (b b' : Buffers f.F) (slots k : ℕ) (v : Uuid)
      (x : Option (Result (BuffersError f.F) Bool × Buffers f.F))
      → IsLive k
      → Keeps b b' slots
      → WasInserted b' k v x
      → WasInserted b k v x
  kept_WasInserted b b' slots k v none live keeps h = h
  kept_WasInserted b b' slots k v (some (err e, b'')) live keeps h = h
  kept_WasInserted b b' slots k v (some (ok added, b'')) live keeps (sound, i) =
      (sound, kept_before b b' b'' slots k v added live keeps i)

  -- The end of insert: a growth, and the answer.
  pub grown_WasInserted :
      (b b' : Buffers f.F) (slots k : ℕ) (v : Uuid) (added : Bool) (x : Option (Buffers f.F))
      → IsLive k
      → Inserts b k v added b'
      → IsKept o f b' slots x
      → WasInserted b k v (unless_panic x (λ b''. some (ok added, b'')))
  grown_WasInserted b b' slots k v added none live i h = h
  grown_WasInserted b b' slots k v added (some b'') live i (sound, keeps) =
      (sound, kept_after b b' b'' slots k v added live i keeps)

  pub fewer_IsKept :
      (b : Buffers f.F) (slots slots' : ℕ) (x : Option (Buffers f.F))
      → slots' ≤ slots
      → IsKept o f b slots x
      → IsKept o f b slots' x
  fewer_IsKept b slots slots' none le h = h
  fewer_IsKept b slots slots' (some b') le (sound, keeps) = (
    sound,
    record {
      same_element_count = keeps.same_element_count;
      enough = omega (arith, le, keeps.enough);
      same = keeps.same;
    },
  )

  -- A growth that is made or not.
  pub grown_IsKept :
      (b : Buffers f.F) (slots : ℕ) (c : Bool)
      → IsSound o b
      → (c ≡ true
          → slots ≤ max (f.quotient b.element_count b.min_load_factor) (length b.e164s_buffer))
      → (c ≡ false → slots ≤ length b.e164s_buffer)
      → IsKept o f b slots (if c then rehash o f b else some b)
  grown_IsKept b slots true sound h g =
      fewer_IsKept b _ slots _ (h refl) (rehash-IsKept o f b sound)
  grown_IsKept b slots false sound h g = (
    sound,
    record { same_element_count = refl; enough = g refl; same = λ k u live. (λ x. x, λ x. x) },
  )
