-- ===== src/Cds/HashTable/Slots.antt =====
-- What a slot of hash_lookup's table holds once the queried phones were gone through.
use contact_discovery_servic.Prelude.{
  ℕ, ◌+◌, ◌-◌, ◌^◌, ◌≤◌, ◌<◌, ◌≡◌, ◌≢◌, inl, inr, sym, ◌∙◌, false, Bool-cases, List, [], ◌∷◌,
  length, get_or, arith, bit_and_mask, All,
}
use mathlib.Core.Path.{subst}
use contact_discovery_servic.Cds.HashTable.{
  Chain, uint64_max, is_negative, blend_lane, holds, new_chain, slot_matches, insert_phone,
  insert_all, chain_of, slot_values,
}
use contact_discovery_servic.Cds.HashTable.Lanes.{
  Among, position, position-lt, lane, length-map, get_or-map, With, no_lane,
}
use contact_discovery_servic.Cds.HashTable.Chains.{IsChain, new_chain-IsChain, insert_phone-IsChain}

-- The phones of a list in addition to those seen before.
abbrev SeenAfter : List ℕ → (ℕ → Type 0) → ℕ → Type 0
SeenAfter [] seen = seen
SeenAfter (p ∷ ps) seen = SeenAfter ps (With p seen)

seen_before : (ps : List ℕ) (seen : ℕ → Type 0) (q : ℕ) → seen q → SeenAfter ps seen q
seen_before [] seen q h = h
seen_before (p ∷ ps) seen q h = seen_before ps (With p seen) q (inr h)

seen_listed : (ps : List ℕ) (seen : ℕ → Type 0) (q : ℕ) → Among q ps → SeenAfter ps seen q
seen_listed [] seen q h = absurd h
seen_listed (p ∷ ps) seen q (inl e) = seen_before ps (With p seen) q (inl e)
seen_listed (p ∷ ps) seen q (inr h) = seen_listed ps (With p seen) q h

-- What holds of the phones, and of all seen before, holds of all seen after.
seen_all :
    (P : ℕ → Type 0) (ps : List ℕ) (seen : ℕ → Type 0)
    → All P ps
    → ((q : ℕ) → seen q → P q)
    → (q : ℕ) → SeenAfter ps seen q
    → P q
seen_all P [] seen all before q h = before q h
seen_all P (p ∷ ps) seen (now, all) before q h =
    seen_all P ps (With p seen) all
      (λ r known. elim known [ inl e ↦ subst P (sym e) now | inr old ↦ before r old ]) q h

module _ (hash : ℕ → ℕ) (slot : ℕ) where
  -- One phone takes at most one place.
  insert_phone-le :
      (phone : ℕ) (chain : Chain)
      → (insert_phone hash slot phone chain).chain_idx ≤ chain.chain_idx + 1
  unfolding insert_phone
  insert_phone-le phone chain = elim (Bool-cases (holds phone chain.lanes)) [
    | inl held ↦ rw (held, bit_and_mask 0 (slot_matches (hash phone) slot)) (omega arith)
    | inr free ↦ rw (free, bit_and_mask 1 (slot_matches (hash phone) slot)) (omega arith)
  ]

  insert_all-IsChain :
      (phones : List ℕ) (seen : ℕ → Type 0) (chain : Chain)
      → ((q : ℕ) → hash q < 2 ^ 32)
      → slot < 2 ^ 32
      → chain.chain_idx + length phones < 2 ^ 32
      → IsChain hash slot seen chain
      → IsChain hash slot (SeenAfter phones seen) (insert_all hash slot phones chain)
  unfolding insert_all
  insert_all-IsChain [] seen chain small slot_small room c = c
  insert_all-IsChain (p ∷ ps) seen chain small slot_small room c =
      insert_all-IsChain ps (With p seen) (insert_phone hash slot p chain) small slot_small
        (omega (arith, insert_phone-le p chain))
        (insert_phone-IsChain hash slot seen chain p (small p) slot_small (omega arith) c)

  module _ (ab_phones : List ℕ) (small : (q : ℕ) → hash q < 2 ^ 32) (slot_small : slot < 2 ^ 32)
      (room : length ab_phones < 2 ^ 32) where
    chain_of-IsChain :
        IsChain hash slot (SeenAfter ab_phones (λ q. ⊥)) (chain_of hash ab_phones slot)
    chain_of-IsChain =
        insert_all-IsChain ab_phones (λ q. ⊥) new_chain small slot_small (omega arith)
          (new_chain-IsChain hash slot)

    pub slot_values-length : length (slot_values (chain_of hash ab_phones slot)) ≡ 16
    slot_values-length =
        length-map (blend_lane uint64_max) (chain_of hash ab_phones slot).lanes
        ∙ chain_of-IsChain.sized

    -- A lane of the slot, from a lane of the chain.
    slot_value :
        (j : ℕ)
        → j < 16
        → get_or (slot_values (chain_of hash ab_phones slot)) j 0
          ≡ blend_lane uint64_max (lane (chain_of hash ab_phones slot).lanes j)
    slot_value j h =
        get_or-map (blend_lane uint64_max) (chain_of hash ab_phones slot).lanes j no_lane 0
          (omega (arith, chain_of-IsChain.sized))

    -- A phone of the slot stands in one of its lanes for phones.
    pub slot_values-kept :
        (q : ℕ)
        → q ≢ 0
        → hash q ≡ slot
        → Among q ab_phones
        → (chain_of hash ab_phones slot).chain_idx ≤ 12
        → (k : ℕ) × (k < 12)
          × (get_or (slot_values (chain_of hash ab_phones slot)) (position k) 0 ≡ q)
    slot_values-kept q nz e known few =
        let c = chain_of-IsChain in
        let chain = chain_of hash ab_phones slot in
        let (k, low, v) = c.kept q nz e (seen_listed ab_phones (λ q. ⊥) q known) few in
        let m : (lane chain.lanes (position k)).mask ≡ chain.chain_idx - 1 - k =
          omega (arith, c.masks k (omega arith)) in
        let held : is_negative (lane chain.lanes (position k)).mask ≡ false = ground arith in
        (k, omega arith, slot_value (position k) (position-lt k (omega arith)) ∙ rw held v)

    -- Every lane fits a word.
    pub slot_values-lt :
        All (λ p. p < 2 ^ 64) ab_phones
        → (j : ℕ) → j < 16
        → get_or (slot_values (chain_of hash ab_phones slot)) j 0 < 2 ^ 64
    slot_values-lt words j h =
        let chain = chain_of hash ab_phones slot in
        rw (slot_value j h) (elim (Bool-cases (is_negative (lane chain.lanes j).mask)) [
          | inl free ↦ rw free (omega arith)
          | inr held ↦ rw held (elim (chain_of-IsChain.source j h) [
            | inl z ↦ omega arith
            | inr old ↦
                seen_all (λ p. p < 2 ^ 64) ab_phones (λ q. ⊥) words (λ q no. absurd no)
                  (lane chain.lanes j).value old
          ])
        ])
