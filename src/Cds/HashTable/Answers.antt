-- ===== src/Cds/HashTable/Answers.antt =====
-- What the result table of hash_lookup holds once the directory was gone through.
use contact_discovery_servic.Prelude.{
  ℕ, zero, suc, ◌<◌, ◌≡◌, ◌≢◌, inl, inr, refl, sym, ap, ◌∙◌, ◌==◌, ==_iff, ==_of_ne, Bool-cases,
  if◌then◌else◌, List, [], ◌∷◌, length, get_or, set, replicate, length-set, get_or-set_self,
  get_or-set_ne, length-replicate, All, arith, bit_or-zero, bit_xor-zero,
}
use mathlib.Core.Path.{subst}
use contact_discovery_servic.Cds.HashTable.{
  Uuid, zero_uuid, Entry, dummy_mask, update_lane, update_slot, hash_phone, hash_phones,
  zero_results,
}

-- The last entry of a phone, or what was there before.
abbrev pub answer : ℕ → List Entry → Uuid → Uuid
answer p [] x = x
answer p (e ∷ entries) x = answer p entries (if e.0 == p then e.1 else x)

-- The directory as a map: the last entry counts, and a missing phone has the zero UUID.
abbrev pub directory_lookup : List Entry → ℕ → Uuid
directory_lookup entries p = answer p entries zero_uuid

-- The lanes for phones that hold the phone have the UUID.
abbrev pub Agrees : ℕ → Uuid → List ℕ → List ℕ → List Uuid → Type 0
Agrees p x [] values results = Unit
Agrees p x (d ∷ dummies) [] results = Unit
Agrees p x (d ∷ dummies) (v ∷ values) [] = Unit
Agrees p x (d ∷ dummies) (v ∷ values) (r ∷ results) =
    (d ≡ 0 → v ≡ p → r ≡ x) × Agrees p x dummies values results

-- One entry of the directory, in a lane and in a slot.
update_lane-other : (e : Entry) (d v : ℕ) (r : Uuid) → d ≡ 0 → e.0 ≢ v → update_lane e d v r ≡ r
update_lane-other e d v r z ne =
    rw (z, bit_or-zero e.0, ==_of_ne e.0 v ne, bit_xor-zero r.data64_0, bit_xor-zero r.data64_1)
      refl

update_lane-same : (e : Entry) (d v : ℕ) (r : Uuid) → d ≡ 0 → e.0 ≡ v → update_lane e d v r ≡ e.1
update_lane-same e d v r z same = rw (z, bit_or-zero e.0, (==_iff e.0 v).1 same) refl

update_slot-Agrees :
    (p : ℕ) (x y : Uuid) (e : Entry) (dummies values : List ℕ) (results : List Uuid)
    → (e.0 ≡ p → y ≡ e.1)
    → (e.0 ≢ p → y ≡ x)
    → Agrees p x dummies values results
    → Agrees p y dummies values (update_slot e dummies values results)
update_slot-Agrees p x y e [] values results hit miss a = a
update_slot-Agrees p x y e (d ∷ ds) [] results hit miss a = a
update_slot-Agrees p x y e (d ∷ ds) (v ∷ vs) [] hit miss a = a
update_slot-Agrees p x y e (d ∷ ds) (v ∷ vs) (r ∷ rs) hit miss (now, later) = (
  λ z here. elim (Bool-cases (e.0 == p)) [
    | inl same ↦
        (let q : e.0 ≡ p = (==_iff e.0 p).0 same in
          update_lane-same e d v r z (q ∙ sym here) ∙ sym (hit q))
    | inr other ↦
        (let q : e.0 ≢ p = λ i. absurd (ground arith) in
          update_lane-other e d v r z (λ i. q (i ∙ here)) ∙ now z here ∙ sym (miss q))
  ],
  update_slot-Agrees p x y e ds vs rs hit miss later,
)

update_slot-length :
    (e : Entry) (dummies values : List ℕ) (results : List Uuid)
    → length (update_slot e dummies values results) ≡ length results
update_slot-length e [] values results = refl
update_slot-length e (d ∷ ds) [] results = refl
update_slot-length e (d ∷ ds) (v ∷ vs) [] = refl
update_slot-length e (d ∷ ds) (v ∷ vs) (r ∷ rs) = ap suc (update_slot-length e ds vs rs)

zeros-Agrees :
    (p : ℕ) (n : ℕ) (dummies values : List ℕ)
    → Agrees p zero_uuid dummies values (replicate n zero_uuid)
zeros-Agrees p n [] values = tt
zeros-Agrees p n (d ∷ ds) [] = tt
zeros-Agrees p zero (d ∷ ds) (v ∷ vs) = tt
zeros-Agrees p (suc n) (d ∷ ds) (v ∷ vs) = (λ z here. refl, zeros-Agrees p n ds vs)

get_or-replicated : {A : Type 0} (n i : ℕ) (a d : A) → i < n → get_or (replicate n a) i d ≡ a
get_or-replicated zero i a d h = absurd (omega arith)
get_or-replicated (suc n) zero a d h = refl
get_or-replicated (suc n) (suc i) a d h = get_or-replicated n i a d (omega arith)

-- What holds of the written element and of the others holds of all.
at_set :
    (P : ℕ → List Uuid → Type 0) (results : List (List Uuid)) (i : ℕ) (u : List Uuid)
    → i < length results
    → P i u
    → ((j : ℕ) → i ≢ j → j < length results → P j (get_or results j []))
    → (j : ℕ) → j < length results
    → P j (get_or (set results i u) j [])
at_set P results i u low here others j h = elim (Bool-cases (i == j)) [
  | inl same ↦
      (let e : i ≡ j = (==_iff i j).0 same in
        subst (λ k. P k (get_or (set results i u) k [])) e
          (subst (P i) (sym (get_or-set_self results i u [] low)) here))
  | inr other ↦
      (let ne : i ≢ j = λ e. absurd (ground arith) in
        subst (P j) (sym (get_or-set_ne results i j u [] ne)) (others j ne h))
]

module _ (hash : ℕ → ℕ) (slots : List (List ℕ)) (p : ℕ) where
  -- What the lanes of a slot with this phone have, if its slot's have x.
  abbrev pub expected : ℕ → Uuid → Uuid
  expected slot x = if hash p == slot then x else zero_uuid

  -- A result table in which every slot agrees on the phone.
  pub record IsAnswered (slot_count : ℕ) (x : Uuid) (results : List (List Uuid)) : Type 0 where
    pub counted : length results ≡ slot_count
    pub sized : (j : ℕ) → j < slot_count → length (get_or results j []) ≡ 16
    pub agreed :
        (j : ℕ)
        → j < slot_count
        → Agrees p (expected j x) dummy_mask (get_or slots j []) (get_or results j [])

  expected-hit :
      (e : Entry) (x : Uuid) → e.0 ≡ p → expected (hash e.0) (if e.0 == p then e.1 else x) ≡ e.1
  expected-hit e x same =
      rw ((==_iff e.0 p).1 same, (==_iff (hash p) (hash e.0)).1 (ap hash (sym same))) refl

  expected-miss :
      (e : Entry) (x : Uuid) (j : ℕ)
      → e.0 ≢ p
      → expected j (if e.0 == p then e.1 else x) ≡ expected j x
  expected-miss e x j ne = rw (==_of_ne e.0 p ne) refl

  expected-elsewhere :
      (e : Entry) (x : Uuid) (j : ℕ)
      → hash e.0 ≢ j
      → expected j (if e.0 == p then e.1 else x) ≡ expected j x
  expected-elsewhere e x j ne = elim (Bool-cases (e.0 == p)) [
    | inl same ↦
        (let away : hash p ≢ j = λ i. ne (ap hash ((==_iff e.0 p).0 same) ∙ i) in
          rw (==_of_ne (hash p) j away) refl)
    | inr other ↦ rw other refl
  ]

  hash_phone-IsAnswered :
      (n : ℕ) (x : Uuid) (results : List (List Uuid)) (e : Entry)
      → hash e.0 < n
      → IsAnswered n x results
      → IsAnswered n (if e.0 == p then e.1 else x) (hash_phone hash slots results e)
  hash_phone-IsAnswered n x results e low a = record {
    counted = length-set results (hash e.0) updated ∙ a.counted;
    sized = λ j h.
        at_set (λ k r. length r ≡ 16) results (hash e.0) updated (omega (arith, a.counted))
          (update_slot-length e dummy_mask (get_or slots (hash e.0) [])
              (get_or results (hash e.0) [])
            ∙ a.sized (hash e.0) low)
          (λ k ne k_low. a.sized k (omega (arith, a.counted))) j (omega (arith, a.counted));
    agreed = λ j h.
        at_set
          (λ k r.
            Agrees p (expected k (if e.0 == p then e.1 else x)) dummy_mask (get_or slots k []) r)
          results (hash e.0) updated (omega (arith, a.counted))
          (update_slot-Agrees p (expected (hash e.0) x)
            (expected (hash e.0) (if e.0 == p then e.1 else x)) e dummy_mask
            (get_or slots (hash e.0) []) (get_or results (hash e.0) []) (expected-hit e x)
            (expected-miss e x (hash e.0)) (a.agreed (hash e.0) low))
          (λ k ne k_low.
            subst (λ y. Agrees p y dummy_mask (get_or slots k []) (get_or results k []))
              (sym (expected-elsewhere e x k ne)) (a.agreed k (omega (arith, a.counted))))
          j (omega (arith, a.counted));
  }
    where
      updated : List Uuid
      updated = update_slot e dummy_mask (get_or slots (hash e.0) []) (get_or results (hash e.0) [])

  pub hash_phones-IsAnswered :
      (n : ℕ) (entries : List Entry) (x : Uuid) (results : List (List Uuid))
      → All (λ e. hash e.0 < n) entries
      → IsAnswered n x results
      → IsAnswered n (answer p entries x) (hash_phones hash slots entries results)
  unfolding hash_phones
  hash_phones-IsAnswered n [] x results low a = a
  hash_phones-IsAnswered n (e ∷ entries) x results (now, low) a =
      hash_phones-IsAnswered n entries (if e.0 == p then e.1 else x)
        (hash_phone hash slots results e) low (hash_phone-IsAnswered n x results e now a)

  pub zero_results-IsAnswered : (n : ℕ) → IsAnswered n zero_uuid (zero_results n)
  zero_results-IsAnswered n = record {
    counted = length-replicate n (replicate 16 zero_uuid);
    sized = λ j h. rw (get_or-replicated n j (replicate 16 zero_uuid) [] h) refl;
    agreed = λ j h.
        rw (get_or-replicated n j (replicate 16 zero_uuid) [] h) (elim (Bool-cases (hash p == j)) [
          | inl here ↦ rw here (zeros-Agrees p 16 dummy_mask (get_or slots j []))
          | inr other ↦ rw other (zeros-Agrees p 16 dummy_mask (get_or slots j []))
        ]);
  }
