-- ===== src/Cds/HashTable/Collected.antt =====
-- What hash_slot_collect_result takes out of a slot whose lanes agree on a phone.
use contact_discovery_servic.Prelude.{
  ℕ, zero, suc, ◌*◌, ◌^◌, ◌<◌, ◌≡◌, ◌≢◌, ◌⊎◌, inl, inr, refl, sym, ap, ◌∙◌, ◌==◌, ==_iff, ==_of_ne,
  true, Bool-cases, List, [], ◌∷◌, length, get_or, All, arith, bit_or, bit_and_ones, bit_and_none,
  holds_under, holds_at,
}
use mathlib.Core.Path.{subst}
use contact_discovery_servic.Cds.HashTable.{
  Uuid, uint64_max, pick, collect, collect_result, dummy_mask,
}
use contact_discovery_servic.Cds.HashTable.Lanes.{position, position-lt}
use contact_discovery_servic.Cds.HashTable.Answers.{Agrees}
use contact_discovery_servic.Cds.HashTable.Unions.{Holds, bit_or-Holds, bit_or-left, bit_or-right}

-- The dummy masks of some blocks.
abbrev dummies : ℕ → List ℕ
dummies zero = []
dummies (suc blocks) = uint64_max ∷ 0 ∷ 0 ∷ 0 ∷ dummies blocks

-- Some lane for phones has the phone.
abbrev Hit : ℕ → List ℕ → List ℕ → Type 0
Hit p [] values = ⊥
Hit p (d ∷ ds) [] = ⊥
Hit p (d ∷ ds) (v ∷ vs) = ((d ≡ 0) × (v ≡ p)) ⊎ Hit p ds vs

found_at :
    (p : ℕ) (ds vs : List ℕ) (j : ℕ)
    → j < length ds
    → j < length vs
    → get_or ds j 1 ≡ 0
    → get_or vs j 0 ≡ p
    → Hit p ds vs
found_at p [] vs j h hv d v = absurd (omega arith)
found_at p (d ∷ ds) [] j h hv z v = absurd (omega arith)
found_at p (d ∷ ds) (w ∷ vs) zero h hv z v = inl (z, v)
found_at p (d ∷ ds) (w ∷ vs) (suc j) h hv z v =
    inr (found_at p ds vs j (omega arith) (omega arith) z v)

-- Every lane is a word.
abbrev pub Words : List ℕ → Type 0
Words vs = All (λ v. v < 2 ^ 64) vs

all_below : (vs : List ℕ) → ((j : ℕ) → j < length vs → get_or vs j 0 < 2 ^ 64) → Words vs
all_below [] h = tt
all_below (v ∷ vs) h = (h 0 (omega arith), all_below vs (λ j low. h (suc j) (omega arith)))

-- A list with four elements more.
by_four :
    {A : Type 0} (P : List A → Type 0) (n : ℕ)
    → ((a b c d : A) (rest : List A) → length rest ≡ n → P (a ∷ b ∷ c ∷ d ∷ rest))
    → (xs : List A) → length xs ≡ suc (suc (suc (suc n)))
    → P xs
by_four P n step [] h = absurd (omega arith)
by_four P n step (a ∷ []) h = absurd (omega arith)
by_four P n step (a ∷ b ∷ []) h = absurd (omega arith)
by_four P n step (a ∷ b ∷ c ∷ []) h = absurd (omega arith)
by_four P n step (a ∷ b ∷ c ∷ d ∷ rest) h = step a b c d rest (omega arith)

phones_table : holds_under (λ k. get_or dummy_mask (position k) 1 == 0) 12 ≡ true
unfolding holds_under
phones_table = refl

position-phone : (k : ℕ) → k < 12 → get_or dummy_mask (position k) 1 ≡ 0
position-phone k h = (==_iff _ _).0 (holds_at _ 12 k phones_table h)

module _ (word : Uuid → ℕ) (p : ℕ) (x : Uuid) (nonzero : p ≢ 0) where
  -- A dummy lane is never picked, and a lane for phones only for the phone.
  pick-dummy : (v a w : ℕ) → pick p uint64_max v a w ≡ a
  pick-dummy v a w = rw (bit_and_none v, ==_of_ne p 0 nonzero) refl

  pick-hit :
      (v a : ℕ) (r : Uuid) → v < 2 ^ 64 → (v ≡ p → r ≡ x) → v ≡ p → pick p 0 v a (word r) ≡ word x
  pick-hit v a r h agrees e = rw (bit_and_ones v h, (==_iff p v).1 (sym e)) (ap word (agrees e))

  pick-same :
      (v a : ℕ) (r : Uuid)
      → v < 2 ^ 64
      → (v ≡ p → r ≡ x)
      → a ≡ word x
      → pick p 0 v a (word r) ≡ word x
  pick-same v a r h agrees e = rw (bit_and_ones v h) (elim (Bool-cases (p == v)) [
    | inl here ↦ rw here (ap word (agrees (sym ((==_iff p v).0 here))))
    | inr other ↦ rw other e
  ])

  pick-Holds :
      (v a : ℕ) (r : Uuid)
      → v < 2 ^ 64
      → (v ≡ p → r ≡ x)
      → Holds (word x) a
      → Holds (word x) (pick p 0 v a (word r))
  pick-Holds v a r h agrees held = rw (bit_and_ones v h) (elim (Bool-cases (p == v)) [
    | inl here ↦ rw here (inr (ap word (agrees (sym ((==_iff p v).0 here)))))
    | inr other ↦ rw other held
  ])

  -- Some accumulator has the word.
  abbrev Has : ℕ → ℕ → ℕ → ℕ → Type 0
  Has a0 a1 a2 a3 = (a0 ≡ word x) ⊎ ((a1 ≡ word x) ⊎ ((a2 ≡ word x) ⊎ (a3 ≡ word x)))

  -- The union of the accumulators.
  union-Holds :
      (a0 a1 a2 a3 : ℕ)
      → Holds (word x) a0
      → Holds (word x) a1
      → Holds (word x) a2
      → Holds (word x) a3
      → Holds (word x) (bit_or (bit_or (bit_or a0 a1) a2) a3)
  union-Holds a0 a1 a2 a3 h0 h1 h2 h3 =
      bit_or-Holds (word x) (bit_or (bit_or a0 a1) a2) a3
        (bit_or-Holds (word x) (bit_or a0 a1) a2 (bit_or-Holds (word x) a0 a1 h0 h1) h2) h3

  union-Has :
      (a0 a1 a2 a3 : ℕ)
      → Holds (word x) a0
      → Holds (word x) a1
      → Holds (word x) a2
      → Holds (word x) a3
      → Has a0 a1 a2 a3
      → bit_or (bit_or (bit_or a0 a1) a2) a3 ≡ word x
  union-Has a0 a1 a2 a3 h0 h1 h2 h3 (inl e) =
      bit_or-left (word x) (bit_or (bit_or a0 a1) a2) a3
        (bit_or-left (word x) (bit_or a0 a1) a2 (bit_or-left (word x) a0 a1 e h1) h2) h3
  union-Has a0 a1 a2 a3 h0 h1 h2 h3 (inr (inl e)) =
      bit_or-left (word x) (bit_or (bit_or a0 a1) a2) a3
        (bit_or-left (word x) (bit_or a0 a1) a2 (bit_or-right (word x) a0 a1 h0 e) h2) h3
  union-Has a0 a1 a2 a3 h0 h1 h2 h3 (inr (inr (inl e))) =
      bit_or-left (word x) (bit_or (bit_or a0 a1) a2) a3
        (bit_or-right (word x) (bit_or a0 a1) a2 (bit_or-Holds (word x) a0 a1 h0 h1) e) h3
  union-Has a0 a1 a2 a3 h0 h1 h2 h3 (inr (inr (inr e))) =
      bit_or-right (word x) (bit_or (bit_or a0 a1) a2) a3
        (bit_or-Holds (word x) (bit_or a0 a1) a2 (bit_or-Holds (word x) a0 a1 h0 h1) h2) e

  -- What is shown of the accumulators by recursion on the blocks.
  abbrev Collects : ℕ → List ℕ → List Uuid → Type 0
  Collects n vs rs =
      (a0 a1 a2 a3 : ℕ)
      → Words vs
      → Agrees p x (dummies n) vs rs
      → Holds (word x) a0
      → Holds (word x) a1
      → Holds (word x) a2
      → Holds (word x) a3
      → Holds (word x) (collect word p a0 a1 a2 a3 (dummies n) vs rs)
        × (Has a0 a1 a2 a3 ⊎ Hit p (dummies n) vs
            → collect word p a0 a1 a2 a3 (dummies n) vs rs ≡ word x)

  collect-Collects :
      (n : ℕ) (vs : List ℕ) (rs : List Uuid)
      → length vs ≡ n * 4
      → length rs ≡ n * 4
      → Collects n vs rs
  collect-Collects zero vs rs hv hr = λ a0 a1 a2 a3 ws ag h0 h1 h2 h3. (
    union-Holds a0 a1 a2 a3 h0 h1 h2 h3,
    λ some. elim some [
      | inl has ↦ union-Has a0 a1 a2 a3 h0 h1 h2 h3 has
      | inr none_left ↦ absurd none_left
    ],
  )
  collect-Collects (suc n) vs rs hv hr =
      by_four (λ ls. Collects (suc n) ls rs) (n * 4)
        (λ v0 v1 v2 v3 vs' lv.
          by_four (λ ls. Collects (suc n) (v0 ∷ v1 ∷ v2 ∷ v3 ∷ vs') ls) (n * 4)
            (λ r0 r1 r2 r3 rs' lr a0 a1 a2 a3 ws ag h0 h1 h2 h3.
              let (w0, (w1, (w2, (w3, ws')))) = ws in
              let (g0, (g1, (g2, (g3, ag')))) = ag in
              let rest =
                collect-Collects n vs' rs' lv lr (pick p uint64_max v0 a0 (word r0))
                  (pick p 0 v1 a1 (word r1)) (pick p 0 v2 a2 (word r2)) (pick p 0 v3 a3 (word r3))
                  ws' ag' (subst (Holds (word x)) (sym (pick-dummy v0 a0 (word r0))) h0)
                  (pick-Holds v1 a1 r1 w1 (g1 refl) h1) (pick-Holds v2 a2 r2 w2 (g2 refl) h2)
                  (pick-Holds v3 a3 r3 w3 (g3 refl) h3) in
              (
                rest.0,
                λ known. rest.1 (elim known [
                  | inl (inl e) ↦ inl (inl (pick-dummy v0 a0 (word r0) ∙ e))
                  | inl (inr (inl e)) ↦ inl (inr (inl (pick-same v1 a1 r1 w1 (g1 refl) e)))
                  | inl (inr (inr (inl e))) ↦
                      inl (inr (inr (inl (pick-same v2 a2 r2 w2 (g2 refl) e))))
                  | inl (inr (inr (inr e))) ↦
                      inl (inr (inr (inr (pick-same v3 a3 r3 w3 (g3 refl) e))))
                  | inr (inl (z, e)) ↦ absurd (omega arith)
                  | inr (inr (inl (z, e))) ↦ inl (inr (inl (pick-hit v1 a1 r1 w1 (g1 refl) e)))
                  | inr (inr (inr (inl (z, e)))) ↦
                      inl (inr (inr (inl (pick-hit v2 a2 r2 w2 (g2 refl) e))))
                  | inr (inr (inr (inr (inl (z, e))))) ↦
                      inl (inr (inr (inr (pick-hit v3 a3 r3 w3 (g3 refl) e))))
                  | inr (inr (inr (inr (inr later)))) ↦ inr later
                ]),
              ))
            rs (omega arith))
        vs (omega arith)

  module _ (values : List ℕ) (results : List Uuid) (values_sized : length values ≡ 16)
      (results_sized : length results ≡ 16) (words : (j : ℕ) → j < 16 → get_or values j 0 < 2 ^ 64)
      (agreed : Agrees p x dummy_mask values results) where
    collected :
        Holds (word x) (collect_result word p values results)
        × (Hit p dummy_mask values → collect_result word p values results ≡ word x)
    collected =
        let zeros : Holds (word x) 0 = inl refl in
        let (held, all) =
          collect-Collects 4 values results values_sized results_sized 0 0 0 0
            (all_below values (λ j h. words j (omega arith))) agreed zeros zeros zeros zeros in
        (held, λ hit. all (inr hit))

    -- What is collected is nothing or the phone's word, and the word if a lane has the phone.
    pub collect_result-Holds : Holds (word x) (collect_result word p values results)
    collect_result-Holds = collected.0

    pub collect_result-hit :
        (k : ℕ)
        → k < 12
        → get_or values (position k) 0 ≡ p
        → collect_result word p values results ≡ word x
    collect_result-hit k h e = collected.1 (
        found_at p dummy_mask values (position k) (position-lt k h) (omega (arith, position-lt k h))
          (position-phone k h) e)
