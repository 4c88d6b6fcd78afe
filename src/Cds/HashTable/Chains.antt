-- ===== src/Cds/HashTable/Chains.antt =====
-- What a chain holds after the queried phones were gone through.
use contact_discovery_servic.Prelude.{
  ℕ, ◌+◌, ◌-◌, ◌%◌, ◌^◌, ◌≤◌, ◌<◌, ◌≡◌, ◌≢◌, ◌⊎◌, inl, inr, refl, sym, ap, ◌∙◌, ◌==◌, ==_iff, true,
  false, Bool-cases, List, map, length, arith, bit_and_none, holds_at,
}
use mathlib.Core.Path.{subst}
use native.Mathlib.Nat.{mod-eq_of_lt}
use contact_discovery_servic.Cds.HashTable.{
  Lane, Chain, uint64_max, is_negative, step_lane, holds, new_chain, slot_matches, insert_phone,
}
use contact_discovery_servic.Cds.HashTable.Lanes.{
  With, slot_matches-same, slot_matches-other, position, no_lane, lane, get_or-map, length-map,
  holds-lane, position-lt, masks_table, values_table, ne_of_==_false,
}

module _ (hash : ℕ → ℕ) (slot : ℕ) where
  -- The state of the loop over the queried phones, of which some were seen: the k-th taking lane is
  -- free while fewer than k + 1 phones are in; a seen phone of the slot is in a taken lane, unless
  -- there were too many; a lane holds nothing but seen phones.
  pub record IsChain (seen : ℕ → Type 0) (chain : Chain) : Type 0 where
    pub sized : length chain.lanes ≡ 16
    pub masks :
        (k : ℕ)
        → k < 12
        → (lane chain.lanes (position k)).mask ≡ (uint64_max - k + chain.chain_idx) % 2 ^ 64
    pub kept :
        (q : ℕ)
        → q ≢ 0
        → hash q ≡ slot
        → seen q
        → chain.chain_idx ≤ 12
        → (k : ℕ) × (k < chain.chain_idx) × ((lane chain.lanes (position k)).value ≡ q)
    pub source :
        (j : ℕ) → j < 16 → ((lane chain.lanes j).value ≡ 0) ⊎ seen (lane chain.lanes j).value

  pub new_chain-IsChain : IsChain (λ q. ⊥) new_chain
  new_chain-IsChain = record {
    sized = refl;
    masks = λ k h. (==_iff _ _).0 (holds_at _ 12 k masks_table h);
    kept = λ q nz e seen. absurd seen;
    source = λ j h. inl ((==_iff _ _).0 (holds_at _ 16 j values_table h));
  }

  -- A lane after a step, where the chain has a lane there.
  stepped :
      (phone insert : ℕ) (lanes : List Lane) (j : ℕ)
      → length lanes ≡ 16
      → j < 16
      → lane (map (step_lane phone insert) lanes) j ≡ step_lane phone insert (lane lanes j)
  stepped phone insert lanes j sized h =
      get_or-map (step_lane phone insert) lanes j no_lane no_lane (omega arith)

  -- A lane that has taken a phone keeps it, and so do its fellows.
  taken :
      (seen : ℕ → Type 0) (chain : Chain) (phone insert k : ℕ)
      → IsChain seen chain
      → k < 12
      → k < chain.chain_idx
      → chain.chain_idx ≤ 12
      → (lane (map (step_lane phone insert) chain.lanes) (position k)).value
        ≡ (lane chain.lanes (position k)).value
  taken seen chain phone insert k c h below few =
      let m : (lane chain.lanes (position k)).mask ≡ chain.chain_idx - 1 - k =
        omega (arith, c.masks k h) in
      let low : is_negative (lane chain.lanes (position k)).mask ≡ false = ground arith in
      ap (λ (l : Lane). l.value)
        (stepped phone insert chain.lanes (position k) c.sized (position-lt k h))
      ∙ rw low refl

  -- The next lane takes the phone.
  takes :
      (seen : ℕ → Type 0) (chain : Chain) (phone insert : ℕ)
      → IsChain seen chain
      → chain.chain_idx < 12
      → (lane (map (step_lane phone insert) chain.lanes) (position chain.chain_idx)).value ≡ phone
  takes seen chain phone insert c room =
      let k = chain.chain_idx in
      let m : (lane chain.lanes (position k)).mask ≡ uint64_max = omega (arith, c.masks k room) in
      let negative : is_negative (lane chain.lanes (position k)).mask ≡ true = ground arith in
      ap (λ (l : Lane). l.value)
        (stepped phone insert chain.lanes (position k) c.sized (position-lt k room))
      ∙ rw negative refl

  next_masks :
      (seen : ℕ → Type 0) (chain : Chain) (phone insert k : ℕ)
      → IsChain seen chain
      → k < 12
      → (lane (map (step_lane phone insert) chain.lanes) (position k)).mask
        ≡ (uint64_max - k + (chain.chain_idx + insert)) % 2 ^ 64
  next_masks seen chain phone insert k c h =
      ap (λ (l : Lane). l.mask)
        (stepped phone insert chain.lanes (position k) c.sized (position-lt k h))
      ∙ omega (arith, c.masks k h)

  next_source :
      (seen : ℕ → Type 0) (chain : Chain) (phone insert j : ℕ)
      → IsChain seen chain
      → j < 16
      → let l = lane (map (step_lane phone insert) chain.lanes) j in
        (l.value ≡ 0) ⊎ ((l.value ≡ phone) ⊎ seen l.value)
  next_source seen chain phone insert j c h =
      rw (stepped phone insert chain.lanes j c.sized h)
        (elim (Bool-cases (is_negative (lane chain.lanes j).mask)) [
          | inl free ↦ rw free (inr (inl refl))
          | inr held ↦ rw held (elim (c.source j h) [ inl e ↦ inl e | inr old ↦ inr (inr old) ])
        ])

  -- A step, given that the chain then holds the phone if it is the slot's.
  advance :
      (seen : ℕ → Type 0) (chain : Chain) (phone insert : ℕ)
      → IsChain seen chain
      → (phone ≢ 0
          → hash phone ≡ slot
          → chain.chain_idx + insert ≤ 12
          → (k : ℕ) × (k < chain.chain_idx + insert)
            × ((lane (map (step_lane phone insert) chain.lanes) (position k)).value ≡ phone))
      → IsChain (With phone seen) (record {
        lanes = map (step_lane phone insert) chain.lanes;
        chain_idx = chain.chain_idx + insert;
      })
  advance seen chain phone insert c here = record {
    sized = length-map (step_lane phone insert) chain.lanes ∙ c.sized;
    masks = λ k h. next_masks seen chain phone insert k c h;
    kept = λ q nz e known few. elim known [
      | inl same ↦
          (let (k, low, v) = here (λ z. nz (same ∙ z)) (ap hash (sym same) ∙ e) few in
            (k, low, v ∙ sym same))
      | inr old ↦
          (let (k, low, v) = c.kept q nz e old (omega arith) in
            (k, omega arith, taken seen chain phone insert k c (omega arith) low (omega arith) ∙ v))
    ];
    source = λ j h. next_source seen chain phone insert j c h;
  }

  -- A phone of the slot that some lane holds was seen, so it is in a taken lane.
  already :
      (seen : ℕ → Type 0) (chain : Chain) (phone : ℕ)
      → IsChain seen chain
      → holds phone chain.lanes ≡ true
      → phone ≢ 0
      → seen phone
  already seen chain phone c held nz =
      let (j, h, v) = holds-lane phone chain.lanes held in
      elim (c.source j (omega (arith, c.sized))) [
        | inl z ↦ absurd (nz (sym v ∙ z))
        | inr old ↦ subst seen v old
      ]

  pub insert_phone-IsChain :
      (seen : ℕ → Type 0) (chain : Chain) (phone : ℕ)
      → hash phone < 2 ^ 32
      → slot < 2 ^ 32
      → chain.chain_idx + 1 < 2 ^ 32
      → IsChain seen chain
      → IsChain (With phone seen) (insert_phone hash slot phone chain)
  unfolding insert_phone
  insert_phone-IsChain seen chain phone small slot_small room c =
      elim (Bool-cases (holds phone chain.lanes)) [
        | inl held ↦
            rw (held, bit_and_none (slot_matches (hash phone) slot), mod-eq_of_lt keeps)
              (advance seen chain phone 0 c (λ nz e few.
                let (k, low, v) =
                  c.kept phone nz e (already seen chain phone c held nz) (omega arith) in
                (k, omega arith, taken seen chain phone 0 k c (omega arith) low (omega arith) ∙ v)))
        | inr free ↦ elim (Bool-cases (hash phone == slot)) [
          | inl same ↦
              (let m : slot_matches (hash phone) slot ≡ 1 =
                  ap (λ b. slot_matches (hash phone) b) (sym ((==_iff _ _).0 same))
                  ∙ slot_matches-same (hash phone) in
                rw (free, m, mod-eq_of_lt room)
                  (advance seen chain phone 1 c (λ nz e few.
                    (chain.chain_idx, omega arith, takes seen chain phone 1 c (omega arith)))))
          | inr other ↦
              (let ne : hash phone ≢ slot = ne_of_==_false other in
                rw
                  (
                    free,
                    slot_matches-other (hash phone) slot small slot_small ne,
                    mod-eq_of_lt keeps,
                  )
                  (advance seen chain phone 0 c (λ nz e few. absurd (ne e))))
        ]
      ]
    where
      keeps : chain.chain_idx + 0 < 2 ^ 32
      keeps = omega arith
