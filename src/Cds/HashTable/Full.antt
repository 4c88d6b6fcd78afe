-- ===== src/Cds/HashTable/Full.antt =====
-- A chain whose lanes have all taken a phone.
use contact_discovery_servic.Prelude.{
  ℕ, suc, ◌+◌, ◌%◌, ◌^◌, ◌≤◌, ◌<◌, ◌≡◌, inl, inr, refl, ap₂, ◌∙◌, false, Bool-cases, if◌then◌else◌,
  List, [], ◌∷◌, map, length, All, bit_and, bit_and_mask, arith,
}
use contact_discovery_servic.Cds.HashTable.{
  Lane, Chain, uint64_max, is_negative, blend_lane, step_lane, holds, slot_matches, insert_phone,
  insert_all, slot_values,
}

-- No lane is free, and none gets free when so many more phones are inserted.
abbrev pub Taken : ℕ → List Lane → Type 0
Taken n lanes = All (λ (l : Lane). l.mask + n < 2 ^ 63) lanes

module _ (phone insert : ℕ) (one : insert ≤ 1) where
  step_lane-held :
      (l : Lane) (n : ℕ)
      → l.mask + suc n < 2 ^ 63
      → blend_lane uint64_max (step_lane phone insert l) ≡ blend_lane uint64_max l
  step_lane-held l n h =
      let before : is_negative l.mask ≡ false = ground arith in
      let after : is_negative ((l.mask + insert) % 2 ^ 64) ≡ false = ground arith in
      rw (before, after) refl

  step-values :
      (lanes : List Lane) (n : ℕ)
      → Taken (suc n) lanes
      → map (blend_lane uint64_max) (map (step_lane phone insert) lanes)
        ≡ map (blend_lane uint64_max) lanes
  step-values [] n taken = refl
  step-values (l ∷ lanes) n (h, taken) =
      ap₂ (λ v vs. v ∷ vs) (step_lane-held l n h) (step-values lanes n taken)

  step-Taken :
      (lanes : List Lane) (n : ℕ)
      → Taken (suc n) lanes
      → Taken n (map (step_lane phone insert) lanes)
  step-Taken [] n taken = tt
  step-Taken (l ∷ lanes) n (h, taken) = (omega arith, step-Taken lanes n taken)

module _ (hash : ℕ → ℕ) (slot : ℕ) where
  -- Once every lane of a slot has taken a phone, what is written to the slot does not depend on the
  -- phones that follow, whether they fall into the slot or not, for as many phones as keep the masks
  -- under 2^63.
  pub insert_all-Taken :
      (phones : List ℕ) (chain : Chain)
      → Taken (length phones) chain.lanes
      → slot_values (insert_all hash slot phones chain) ≡ slot_values chain
  unfolding insert_all insert_phone
  insert_all-Taken [] chain taken = refl
  insert_all-Taken (p ∷ phones) chain taken =
      let insert = bit_and (slot_matches (hash p) slot) (if holds p chain.lanes then 0 else 1) in
      let one : insert ≤ 1 = elim (Bool-cases (holds p chain.lanes)) [
        | inl held ↦ rw held (omega (arith, bit_and_mask 0 (slot_matches (hash p) slot)))
        | inr free ↦ rw free (omega (arith, bit_and_mask 1 (slot_matches (hash p) slot)))
      ] in
      insert_all-Taken phones (insert_phone hash slot p chain)
        (step-Taken p insert one chain.lanes (length phones) taken)
      ∙ step-values p insert one chain.lanes (length phones) taken
