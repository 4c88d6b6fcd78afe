-- ===== src/Cds/HashTable/Lookup.antt =====
-- hash_lookup against the directory as a map.
use contact_discovery_servic.Prelude.{
  ℕ, zero, suc, ◌+◌, ◌^◌, ◌≤◌, ◌<◌, ◌≡◌, ◌≢◌, inl, inr, refl, sym, ap, ap₂, ◌∙◌, ltb, ◌==◌, ==_iff,
  false, Bool-cases, List, [], ◌∷◌, map, length, get_or, All, ok, arith, bit_or,
}
use mathlib.Core.Path.{subst}
use contact_discovery_servic.Cds.HashTable.{
  Uuid, zero_uuid, Entry, chain_phone_count, slot_values, chain_of, fill_slots, any_overflow,
  construct_hash, collect_result, collect_word, lookup_phone, zero_results, lookup_all,
}
use contact_discovery_servic.Cds.HashTable.Lanes.{Among, position}
use contact_discovery_servic.Cds.HashTable.Slots.{
  slot_values-length, slot_values-kept, slot_values-lt,
}
use contact_discovery_servic.Cds.HashTable.Answers.{
  directory_lookup, expected, IsAnswered, hash_phones-IsAnswered, zero_results-IsAnswered,
}
use contact_discovery_servic.Cds.HashTable.Construct.{construct_hash-hash_phones}
use contact_discovery_servic.Cds.HashTable.Unions.{Holds, bit_or-Holds, bit_or-left, bit_or-right}
use contact_discovery_servic.Cds.HashTable.Collected.{collect_result-Holds, collect_result-hit}

-- The union over the slots, of which some one has the word.
abbrev collected_at : (Uuid → ℕ) → ℕ → List (List ℕ) → List (List Uuid) → ℕ → ℕ
collected_at word p slots results j =
    collect_result word p (get_or slots j []) (get_or results j [])

module _ (word : Uuid → ℕ) (p w : ℕ) where
  collect_word-has :
      (slots : List (List ℕ)) (results : List (List Uuid)) (acc : ℕ)
      → length results ≡ length slots
      → ((j : ℕ) → j < length slots → Holds w (collected_at word p slots results j))
      → acc ≡ w
      → collect_word word p acc slots results ≡ w
  unfolding collect_word
  collect_word-has [] results acc same each e = e
  collect_word-has (vs ∷ slots) [] acc same each e = e
  collect_word-has (vs ∷ slots) (rs ∷ results) acc same each e =
      collect_word-has slots results (bit_or acc (collect_result word p vs rs)) (omega arith)
        (λ j h. each (suc j) (omega arith))
        (bit_or-left w acc (collect_result word p vs rs) e (each 0 (omega arith)))

  collect_word-one :
      (slots : List (List ℕ)) (results : List (List Uuid)) (acc i : ℕ)
      → length results ≡ length slots
      → ((j : ℕ) → j < length slots → Holds w (collected_at word p slots results j))
      → Holds w acc
      → i < length slots
      → collected_at word p slots results i ≡ w
      → collect_word word p acc slots results ≡ w
  unfolding collect_word
  collect_word-one [] results acc i same each held low e = absurd (omega arith)
  collect_word-one (vs ∷ slots) [] acc i same each held low e = absurd (omega arith)
  collect_word-one (vs ∷ slots) (rs ∷ results) acc zero same each held low e =
      collect_word-has slots results (bit_or acc (collect_result word p vs rs)) (omega arith)
        (λ j h. each (suc j) (omega arith))
        (bit_or-right w acc (collect_result word p vs rs) held e)
  collect_word-one (vs ∷ slots) (rs ∷ results) acc (suc i) same each held low e =
      collect_word-one slots results (bit_or acc (collect_result word p vs rs)) i (omega arith)
        (λ j h. each (suc j) (omega arith))
        (bit_or-Holds w acc (collect_result word p vs rs) held (each 0 (omega arith))) (omega arith)
        e

module _ (hash : ℕ → ℕ) (ab_phones : List ℕ) where
  length-fill_slots : (slot n : ℕ) → length (fill_slots hash ab_phones slot n) ≡ n
  unfolding fill_slots
  length-fill_slots slot zero = refl
  length-fill_slots slot (suc n) = ap suc (length-fill_slots (slot + 1) n)

  fill_slots-at :
      (slot n j : ℕ)
      → j < n
      → get_or (fill_slots hash ab_phones slot n) j []
        ≡ slot_values (chain_of hash ab_phones (slot + j))
  unfolding fill_slots
  fill_slots-at slot zero j h = absurd (omega arith)
  fill_slots-at slot (suc n) zero h =
      ap (λ i. slot_values (chain_of hash ab_phones i)) (omega arith)
  fill_slots-at slot (suc n) (suc j) h =
      fill_slots-at (slot + 1) n j (omega arith)
      ∙ ap (λ i. slot_values (chain_of hash ab_phones i)) (omega arith)

  -- No slot took more phones than it has lanes for.
  abbrev pub Fits : ℕ → Type 0
  Fits n = (slot : ℕ) → slot < n → (chain_of hash ab_phones slot).chain_idx ≤ 12

  any_overflow-fits :
      (slot n : ℕ)
      → ((i : ℕ) → slot ≤ i → i < slot + n → (chain_of hash ab_phones i).chain_idx ≤ 12)
      → any_overflow hash ab_phones slot n ≡ false
  unfolding any_overflow
  any_overflow-fits slot zero few = refl
  any_overflow-fits slot (suc n) few =
      let here : ltb chain_phone_count (chain_of hash ab_phones slot).chain_idx ≡ false =
        ground (arith, few slot (omega arith) (omega arith)) in
      rw here (any_overflow-fits (slot + 1) n (λ i low high. few i (omega arith) (omega arith)))

module _ (hash : ℕ → ℕ) (entries : List Entry) (n : ℕ) (ab_phones : List ℕ)
    (below : (q : ℕ) → hash q < n) (n_small : n ≤ 2 ^ 32) (room : length ab_phones < 2 ^ 32)
    (words : All (λ p. p < 2 ^ 64) ab_phones) (fits : Fits hash ab_phones n) where
  abbrev slots : List (List ℕ)
  slots = fill_slots hash ab_phones 0 n

  abbrev results : List (List Uuid)
  results = construct_hash hash (suc (length entries)) slots entries (zero_results n)

  entries_below : (es : List Entry) → All (λ (e : Entry). hash e.0 < n) es
  entries_below [] = tt
  entries_below (e ∷ es) = (below e.0, entries_below es)

  slot_at : (j : ℕ) → j < n → get_or slots j [] ≡ slot_values (chain_of hash ab_phones j)
  slot_at j h =
      fill_slots-at hash ab_phones 0 n j h
      ∙ ap (λ i. slot_values (chain_of hash ab_phones i)) (omega arith)

  results-IsAnswered : (p : ℕ) → IsAnswered hash slots p n (directory_lookup entries p) results
  results-IsAnswered p =
      subst (λ r. IsAnswered hash slots p n (directory_lookup entries p) r)
        (sym (
          construct_hash-hash_phones hash slots (suc (length entries)) entries (zero_results n)
            (omega arith)))
        (hash_phones-IsAnswered hash slots p n entries zero_uuid (zero_results n)
          (entries_below entries) (zero_results-IsAnswered hash slots p n))

  module _ (word : Uuid → ℕ) (word_zero : word zero_uuid ≡ 0) (p : ℕ) (nonzero : p ≢ 0) where
    abbrev goal : ℕ
    goal = word (directory_lookup entries p)

    slot_sized : (j : ℕ) → j < n → length (get_or slots j []) ≡ 16
    slot_sized j h =
        rw (slot_at j h)
          (slot_values-length hash j ab_phones (λ q. omega (arith, below q)) (omega arith) room)

    slot_words : (j : ℕ) → j < n → (i : ℕ) → i < 16 → get_or (get_or slots j []) i 0 < 2 ^ 64
    slot_words j h i low = rw (slot_at j h) (
        slot_values-lt hash j ab_phones (λ q. omega (arith, below q)) (omega arith) room words i
          low)

    slot_Holds : (j : ℕ) → j < n → Holds goal (collected_at word p slots results j)
    slot_Holds j h =
        let a = results-IsAnswered p in
        let held =
          collect_result-Holds word p (expected hash slots p j (directory_lookup entries p)) nonzero
            (get_or slots j []) (get_or results j []) (slot_sized j h) (a.sized j h)
            (slot_words j h) (a.agreed j h) in
        elim (Bool-cases (hash p == j)) [
          | inl here ↦
              subst (λ y. Holds (word y) (collected_at word p slots results j)) (rw here refl) held
          | inr other ↦
              (let zero_word : word (expected hash slots p j (directory_lookup entries p)) ≡ 0 =
                  rw other word_zero in
                elim held [ inl e ↦ inl e | inr e ↦ inl (e ∙ zero_word) ])
        ]

    slot_hit : Among p ab_phones → collected_at word p slots results (hash p) ≡ goal
    slot_hit known =
        let j = hash p in
        let h = below p in
        let a = results-IsAnswered p in
        let (k, low, v) =
          slot_values-kept hash j ab_phones (λ q. omega (arith, below q)) (omega (arith, below p))
            room p nonzero refl known (fits j h) in
        collect_result-hit word p (expected hash slots p j (directory_lookup entries p)) nonzero
          (get_or slots j []) (get_or results j []) (slot_sized j h) (a.sized j h) (slot_words j h)
          (a.agreed j h) k low (ap (λ vs. get_or vs (position k) 0) (slot_at j h) ∙ v)
        ∙ rw ((==_iff j j).1 refl) refl

    collect_word-lookup : Among p ab_phones → collect_word word p 0 slots results ≡ goal
    collect_word-lookup known =
        collect_word-one word p goal slots results 0 (hash p)
          ((results-IsAnswered p).counted ∙ sym (length-fill_slots hash ab_phones 0 n))
          (λ j h. slot_Holds j (omega (arith, length-fill_slots hash ab_phones 0 n))) (inl refl)
          (omega (arith, below p, length-fill_slots hash ab_phones 0 n)) (slot_hit known)

  lookup_phone-lookup :
      (p : ℕ)
      → p ≢ 0
      → Among p ab_phones
      → lookup_phone slots results p ≡ directory_lookup entries p
  unfolding lookup_phone
  lookup_phone-lookup p nonzero known =
      rw
        (
          collect_word-lookup (λ (u : Uuid). u.data64_0) refl p nonzero known,
          collect_word-lookup (λ (u : Uuid). u.data64_1) refl p nonzero known,
        )
        refl

  lookups :
      (ps : List ℕ)
      → All (λ p. p ≢ 0) ps
      → ((p : ℕ) → Among p ps → Among p ab_phones)
      → map (lookup_phone slots results) ps ≡ map (directory_lookup entries) ps
  lookups [] nz known = refl
  lookups (p ∷ ps) (now, nz) known =
      ap₂ (λ u us. u ∷ us) (lookup_phone-lookup p now (known p (inl refl)))
        (lookups ps nz (λ q h. known q (inr h)))

  -- For phones that are words and not 0, at most twelve of them in a slot, the table answers each
  -- phone with the UUID of its last entry in the directory, and with zeros if it has none.
  pub lookup_all-directory :
      All (λ p. p ≢ 0) ab_phones
      → lookup_all hash entries n ab_phones ≡ ok (map (directory_lookup entries) ab_phones)
  unfolding lookup_all
  lookup_all-directory nonzero =
      rw (any_overflow-fits hash ab_phones 0 n (λ i low high. fits i (omega arith)))
        (ap ok (lookups ab_phones nonzero (λ p h. h)))
