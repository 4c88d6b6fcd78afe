-- ===== src/Directory/Rehash.antt =====
-- rehash_all: the loop that copies the phones of a table into a new one.
use contact_discovery_servic.Prelude.{
  ℕ, suc, ◌<◌, ◌≡◌, inl, inr, refl, sym, ap, ◌∙◌, true, false, Option, none, some, List, [], ◌∷◌,
  length, set, length-set, arith,
}
use mathlib.Core.Path.{subst}
use contact_discovery_servic.Cds.HashTable.{Uuid}
use contact_discovery_servic.Directory.{is_open, ByteOrder, Added, add_to_buffer}
use contact_discovery_servic.Directory.Table.{IsLive, slot_of}
use contact_discovery_servic.Directory.Entries.{Holds}
use contact_discovery_servic.Directory.Phones.{Room, WasAdded, add_to_buffer-WasAdded}
use contact_discovery_servic.Directory.Copies.{
  Takes, Took, HasTaken, set-IsWords, either_HasTaken, from_be-IsPhone, is_open-from_be,
  set-IsClean, set-IsApart, holds_first, first_holds, holds_put,
}
use contact_discovery_servic.Directory.Buffers.{Floats, Table, unless_panic, rehash_all}
use contact_discovery_servic.Directory.Counts.{
  live_count, live_count-empty, live_count-open, live_count-live, some_open, live_count-set,
}

module _ (o : ByteOrder) (k : ℕ) (ks : List ℕ) (v : Uuid) (us : List Uuid) (nes : List ℕ)
    (nus : List Uuid) (t : Takes o (k ∷ ks) (v ∷ us) nes nus) where
  -- An open slot is skipped.
  skipped_Takes : is_open k ≡ true → Takes o ks us nes nus
  skipped_Takes e = record {
    probed = t.probed;
    sizes = t.sizes;
    old_sizes = omega (arith, t.old_sizes);
    some_slot = t.some_slot;
    words = λ i lt. t.words (suc i) (omega (arith, lt));
    new_words = t.new_words;
    once = λ i j ilt jlt live same.
        omega (arith, t.once (suc i) (suc j) (omega (arith, ilt)) (omega (arith, jlt)) live same);
    clean = t.clean;
    apart = λ i j ilt jlt live. t.apart (suc i) j (omega (arith, ilt)) jlt live;
    fits = omega (arith, t.fits, live_count-open k ks e);
  }

  skipped_Took :
      (nes' : List ℕ) (nus' : List Uuid)
      → is_open k ≡ true
      → Took o ks us nes nus nes' nus'
      → Took o (k ∷ ks) (v ∷ us) nes nus nes' nus'
  skipped_Took nes' nus' e r = record {
    probed = r.probed;
    same_length = r.same_length;
    sizes = r.sizes;
    words = r.words;
    count = omega (arith, r.count, live_count-open k ks e);
    holds = λ k' u live. (
      λ h. elim ((r.holds k' u live).0 h) [
        | inl old ↦ inl old
        | inr new ↦ inr (first_holds k ks v us k' u (inr new))
      ],
      λ h. elim h [
        | inl old ↦ (r.holds k' u live).1 (inl old)
        | inr new ↦ elim (holds_first k ks v us k' u new) [
          | inl (same, _) ↦
              (let closed : true ≡ false = sym e ∙ ap is_open same ∙ live in absurd (cc (closed)))
          | inr rest ↦ (r.holds k' u live).1 (inr rest)
        ]
      ],
    );
  }

  -- The phone is not yet in the new table.
  is_new : IsLive k → (u : Uuid) → ¬ Holds nes nus k u
  is_new live u (j, lt, e, eu) = t.apart 0 j (omega arith) lt live e

  module _ (live : IsLive k) (nes' : List ℕ) (nus' : List Uuid) (old : ℕ)
      (was : WasAdded o nes nus k v (some (old, nes', nus'))) where
    -- It went into a slot that was open.
    written : (s : ℕ) × (s < length nes) × (is_open (slot_of nes s) ≡ true) × (nes' ≡ set nes s k)
    written =
        let (_, _, how) = was in
        elim how [
          | inl (_, _, (u, h)) ↦ absurd (is_new live u h)
          | inr (s, lt, open_slot, _, e, _) ↦ (s, lt, open_slot, e)
        ]

    written_Takes : length nus' ≡ length nes' → Takes o ks us nes' nus'
    written_Takes sizes =
        let (s, lt, open_slot, e) = written in
        let (probed, _, _) = was in
        let same : length nes' ≡ length nes = ap length e ∙ length-set nes s k in
        record {
          probed = probed;
          sizes = sizes;
          old_sizes = omega (arith, t.old_sizes);
          some_slot = omega (arith, same, t.some_slot);
          words = λ i lt. t.words (suc i) (omega (arith, lt));
          new_words = rw e (set-IsWords nes s k lt t.new_words (t.words 0 (omega arith)));
          once = λ i j ilt jlt live same.
              omega
                (arith, t.once (suc i) (suc j) (omega (arith, ilt)) (omega (arith, jlt)) live same);
          clean = rw e (set-IsClean nes s k lt live t.clean);
          apart = rw e (
              set-IsApart nes s k lt ks (λ i j ilt jlt. t.apart (suc i) j (omega (arith, ilt)) jlt)
                (λ i ilt live' same.
                  absurd (
                    omega (arith, t.once 0 (suc i) (omega arith) (omega (arith, ilt)) live same))));
          fits = omega (
            arith,
            t.fits,
            same,
            ap live_count e,
            live_count-live k ks live,
            live_count-set nes s k lt open_slot live,
          );
        }

    written_Took :
        (nes'' : List ℕ) (nus'' : List Uuid)
        → Took o ks us nes' nus' nes'' nus''
        → Took o (k ∷ ks) (v ∷ us) nes nus nes'' nus''
    written_Took nes'' nus'' r =
        let (s, lt, open_slot, e) = written in
        let (_, puts, _) = was in
        let step = holds_put nes nus k v nes' nus' puts (is_new live) in
        record {
          probed = r.probed;
          same_length = r.same_length ∙ ap length e ∙ length-set nes s k;
          sizes = r.sizes;
          words = r.words;
          count = omega (
            arith,
            r.count,
            ap live_count e,
            live_count-live k ks live,
            live_count-set nes s k lt open_slot live,
          );
          holds = λ k' u live'. (
            λ h. elim ((r.holds k' u live').0 h) [
              | inl before ↦ elim ((step k' u live').0 before) [
                | inl old ↦ inl old
                | inr new ↦ inr (first_holds k ks v us k' u (inl new))
              ]
              | inr rest ↦ inr (first_holds k ks v us k' u (inr rest))
            ],
            λ h. (r.holds k' u live').1 (elim h [
              | inl old ↦ inl ((step k' u live').1 (inl old))
              | inr new ↦ elim (holds_first k ks v us k' u new) [
                | inl this ↦ inl ((step k' u live').1 (inr this))
                | inr rest ↦ inr rest
              ]
            ]),
          );
        }

    written_HasTaken :
        (x : Option Table) → HasTaken o ks us nes' nus' x → HasTaken o (k ∷ ks) (v ∷ us) nes nus x
    written_HasTaken none h = h
    written_HasTaken (some (nes'', nus'', used)) h = written_Took nes'' nus'' h

  skipped_HasTaken :
      is_open k ≡ true
      → (x : Option Table) → HasTaken o ks us nes nus x
      → HasTaken o (k ∷ ks) (v ∷ us) nes nus x
  skipped_HasTaken e none h = h
  skipped_HasTaken e (some (nes', nus', used)) h = skipped_Took nes' nus' e h

  added_HasTaken :
      (r : Option Added) (rest : Added → Option Table)
      → IsLive k
      → WasAdded o nes nus k v r
      → ((a : Added) → Takes o ks us a.1 a.2 → HasTaken o ks us a.1 a.2 (rest a))
      → HasTaken o (k ∷ ks) (v ∷ us) nes nus (unless_panic r rest)
  added_HasTaken none rest live was go = was
  added_HasTaken (some (old, nes', nus')) rest live was go =
      let (_, puts, _) = was in
      let sizes : length nus' ≡ length nes' =
        omega (arith, puts.same_length, puts.same_uuids, t.sizes) in
      written_HasTaken live nes' nus' old was _
        (go (old, nes', nus') (written_Takes live nes' nus' old was sizes))

  -- A slot that is open is left in the new table.
  new_Room : IsLive k → (k' : ℕ) → Room nes k'
  new_Room live k' =
      let (i, lt, e) = some_open nes (omega (arith, t.fits, live_count-live k ks live)) in
      (i, lt, inl e)

  added_WasAdded : IsLive k → WasAdded o nes nus k v (add_to_buffer o nes nus (o.from_be k) v false)
  added_WasAdded live =
      let word = t.words 0 (omega arith) in
      let raw = o.to_be-from_be k word in
      subst (λ x. WasAdded o nes nus x v (add_to_buffer o nes nus (o.from_be k) v false)) raw
        (add_to_buffer-WasAdded o nes nus (o.from_be k) (from_be-IsPhone o k word live) t.probed
          t.sizes t.some_slot v false (new_Room live _))

module _ (o : ByteOrder) (f : Floats) where
  -- The loop copies what it was given, and does not panic.
  pub rehash_all-HasTaken :
      (ks : List ℕ) (us : List Uuid) (nes : List ℕ) (nus : List Uuid) (used : ℕ)
      → Takes o ks us nes nus
      → HasTaken o ks us nes nus (rehash_all o f ks us nes nus used)
  unfolding rehash_all
  rehash_all-HasTaken [] us nes nus used t = record {
    probed = t.probed;
    same_length = refl;
    sizes = t.sizes;
    words = t.new_words;
    count = omega (arith, live_count-empty 0);
    holds = λ k u live. (
      λ h. inl h,
      λ h. elim h [ inl old ↦ old | inr (i, lt, _, _) ↦ absurd (omega (arith, lt)) ],
    );
  }
  rehash_all-HasTaken (k ∷ ks) [] nes nus used t = absurd (omega (arith, t.old_sizes))
  rehash_all-HasTaken (k ∷ ks) (v ∷ us) nes nus used t =
      let same = is_open-from_be o k (t.words 0 (omega arith)) in
      either_HasTaken o (k ∷ ks) (v ∷ us) nes nus (is_open (o.from_be k)) _ _
        (λ e. skipped_HasTaken o k ks v us nes nus t (sym same ∙ e) _ (
          rehash_all-HasTaken ks us nes nus used
            (skipped_Takes o k ks v us nes nus t (sym same ∙ e))))
        (λ e.
          added_HasTaken o k ks v us nes nus t _ _ (sym same ∙ e)
            (added_WasAdded o k ks v us nes nus t (sym same ∙ e))
            (λ a t'. rehash_all-HasTaken ks us a.1 a.2 _ t'))
