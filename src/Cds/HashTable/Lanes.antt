-- ===== src/Cds/HashTable/Lanes.antt =====
-- The lanes of a chain, and the branchless test for a slot.
use contact_discovery_servic.Prelude.{
  ℕ, zero, suc, ◌+◌, ◌-◌, ◌/◌, ◌%◌, ◌^◌, ◌<◌, ◌≡◌, ◌≢◌, ◌⊎◌, inl, inr, refl, sym, ap, ltb, ◌==◌,
  ==_iff, true, false, Bool-cases, List, [], ◌∷◌, map, length, get_or, arith, bit_xor, bit_xor_self,
  bit_xor-lt, eq_of_bit_xor, holds_under, holds_at,
}
use contact_discovery_servic.Cds.HashTable.{Lane, uint64_max, holds, new_chain, slot_matches}

-- A number stands in a list.
abbrev pub Among : ℕ → List ℕ → Type 0
Among x [] = ⊥
Among x (y ∷ ys) = (x ≡ y) ⊎ Among x ys

-- One more phone is seen.
abbrev pub With : ℕ → (ℕ → Type 0) → ℕ → Type 0
With phone seen q = (q ≡ phone) ⊎ seen q

-- The branchless test.
pub slot_matches-same : (a : ℕ) → slot_matches a a ≡ 1
unfolding slot_matches
slot_matches-same a = rw (bit_xor_self a) refl

pub slot_matches-other : (a b : ℕ) → a < 2 ^ 32 → b < 2 ^ 32 → a ≢ b → slot_matches a b ≡ 0
unfolding slot_matches
slot_matches-other a b ha hb ne =
    let small : bit_xor a b < 2 ^ 32 = bit_xor-lt 32 a b ha hb in
    let nonzero : bit_xor a b ≢ 0 = λ e. ne (eq_of_bit_xor a b e) in
    let upper : (bit_xor a b + uint64_max) % 2 ^ 64 / 2 ^ 32 ≡ 0 = omega arith in rw upper refl

-- The lane that takes the k-th phone.
abbrev pub position : ℕ → ℕ
position k = get_or (3 ∷ 2 ∷ 1 ∷ 7 ∷ 6 ∷ 5 ∷ 11 ∷ 10 ∷ 9 ∷ 15 ∷ 14 ∷ 13 ∷ []) k 0

abbrev pub no_lane : Lane
no_lane = record { value = 0; mask = 0 }

abbrev pub lane : List Lane → ℕ → Lane
lane lanes j = get_or lanes j no_lane

pub get_or-map :
    {A B : Type 0} (f : A → B) (xs : List A) (j : ℕ) (d : A) (e : B)
    → j < length xs
    → get_or (map f xs) j e ≡ f (get_or xs j d)
get_or-map f [] j d e h = absurd (omega arith)
get_or-map f (x ∷ xs) zero d e h = refl
get_or-map f (x ∷ xs) (suc j) d e h = get_or-map f xs j d e (omega arith)

pub length-map : {A B : Type 0} (f : A → B) (xs : List A) → length (map f xs) ≡ length xs
length-map f [] = refl
length-map f (x ∷ xs) = ap suc (length-map f xs)

pub holds-lane :
    (phone : ℕ) (lanes : List Lane)
    → holds phone lanes ≡ true
    → (j : ℕ) × (j < length lanes) × ((lane lanes j).value ≡ phone)
holds-lane phone [] h = absurd (ground arith)
holds-lane phone (l ∷ lanes) h = elim (Bool-cases (phone == l.value)) [
  | inl here ↦ (0, omega arith, sym ((==_iff phone l.value).0 here))
  | inr other ↦
      (let rest = holds-lane phone lanes (ground arith) in
        (suc rest.0, omega (arith, rest.1), rest.2))
]

pub positions_table : holds_under (λ k. ltb (position k) 16) 12 ≡ true
unfolding holds_under
positions_table = refl

pub position-lt : (k : ℕ) → k < 12 → position k < 16
position-lt k h =
    let e : ltb (position k) 16 ≡ true = holds_at _ 12 k positions_table h in ground arith

pub masks_table :
    holds_under (λ k. (lane new_chain.lanes (position k)).mask == (uint64_max - k + 0) % 2 ^ 64) 12
    ≡ true
unfolding holds_under
masks_table = refl

pub values_table : holds_under (λ j. (lane new_chain.lanes j).value == 0) 16 ≡ true
unfolding holds_under
values_table = refl

pub ne_of_==_false : {a b : ℕ} → (a == b) ≡ false → a ≢ b
ne_of_==_false h e = absurd (ground arith)
