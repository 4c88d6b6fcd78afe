-- ===== src/Directory/Copies.antt =====
-- What the loop of rehash in internal_buffers.rs needs of the tables, and what each of its steps keeps.
use contact_discovery_servic.Prelude.{
  ℕ, zero, suc, ◌+◌, ◌≤◌, ◌^◌, ◌<◌, ◌≡◌, ◌≢◌, ◌⊎◌, ◌↔◌, inl, inr, refl, sym, ap, ◌∙◌, true, false,
  Bool, Bool-cases, if◌then◌else◌, Option, none, some, List, ◌∷◌, length, set, length-set,
  get_or-set_self, get_or-set_ne, arith,
}
use native.Mathlib.Decide.{ℕ_discrete}
use mathlib.Core.Path.{subst}
use contact_discovery_servic.Cds.HashTable.{Uuid}
use contact_discovery_servic.Directory.{free_e164, deleted_e164, is_open, ByteOrder}
use contact_discovery_servic.Directory.Table.{IsLive, slot_of, IsProbed}
use contact_discovery_servic.Directory.Entries.{Holds, Puts}
use contact_discovery_servic.Directory.Phones.{IsPhone}
use contact_discovery_servic.Directory.Buffers.{Table}
use contact_discovery_servic.Directory.Counts.{live_count}

-- Every slot is a word.
abbrev pub IsWords : List ℕ → Type 0
IsWords ks = (i : ℕ) → i < length ks → slot_of ks i < 2 ^ 64

-- No phone is in two slots.
abbrev pub IsOnce : List ℕ → Type 0
IsOnce ks =
    (i j : ℕ)
    → i < length ks
    → j < length ks
    → IsLive (slot_of ks i)
    → slot_of ks i ≡ slot_of ks j
    → i ≡ j

-- No slot is marked as deleted.
abbrev pub IsClean : List ℕ → Type 0
IsClean ks = (i : ℕ) → i < length ks → is_open (slot_of ks i) ≡ true → slot_of ks i ≡ free_e164

abbrev pub IsApart : List ℕ → List ℕ → Type 0
IsApart ks nes =
    (i j : ℕ)
    → i < length ks
    → j < length nes
    → IsLive (slot_of ks i)
    → slot_of nes j ≢ slot_of ks i

module _ (o : ByteOrder) where
  -- A new table that the phones of a list still fit into.
  pub record Takes (ks : List ℕ) (us : List Uuid) (nes : List ℕ) (nus : List Uuid) : Type 0 where
    pub probed : IsProbed o nes
    pub sizes : length nus ≡ length nes
    pub old_sizes : length us ≡ length ks
    pub some_slot : 0 < length nes
    pub words : IsWords ks
    pub new_words : IsWords nes
    pub once : IsOnce ks
    pub clean : IsClean nes
    pub apart : IsApart ks nes
    pub fits : live_count ks + live_count nes ≤ length nes

  -- The new table with what was in it and what was in the list.
  pub record Took (ks : List ℕ) (us : List Uuid) (nes : List ℕ) (nus : List Uuid) (nes' : List ℕ)
      (nus' : List Uuid) : Type 0 where
    pub probed : IsProbed o nes'
    pub same_length : length nes' ≡ length nes
    pub sizes : length nus' ≡ length nes'
    pub words : IsWords nes'
    pub count : live_count nes' ≡ live_count nes + live_count ks
    pub holds :
        (k : ℕ) (u : Uuid) → IsLive k → Holds nes' nus' k u ↔ (Holds nes nus k u ⊎ Holds ks us k u)

  abbrev pub HasTaken : List ℕ → List Uuid → List ℕ → List Uuid → Option Table → Type 0
  HasTaken ks us nes nus none = ⊥
  HasTaken ks us nes nus (some (nes', nus', used)) = Took ks us nes nus nes' nus'

  pub either_HasTaken :
      (ks : List ℕ) (us : List Uuid) (nes : List ℕ) (nus : List Uuid) (c : Bool)
      (x y : Option Table)
      → (c ≡ true → HasTaken ks us nes nus x)
      → (c ≡ false → HasTaken ks us nes nus y)
      → HasTaken ks us nes nus (if c then x else y)
  either_HasTaken ks us nes nus true x y f g = f refl
  either_HasTaken ks us nes nus false x y f g = g refl

  -- A phone in a slot, as the number that add_to_buffer is called with.
  pub from_be-IsPhone : (k : ℕ) → k < 2 ^ 64 → IsLive k → IsPhone (o.from_be k)
  from_be-IsPhone k lt live = record {
    word = o.from_be-lt k lt;
    not_free = λ e. ground (
      arith,
      o.to_be-from_be k lt,
      ap o.to_be e,
      ap o.to_be o.from_be-zero,
      o.to_be-from_be 0 (omega arith),
    );
    not_deleted = λ e. ground (
      arith,
      o.to_be-from_be k lt,
      ap o.to_be e,
      ap o.to_be o.from_be-ones,
      o.to_be-from_be deleted_e164 (omega arith),
    );
  }

  -- The marks read the same in either order of bytes.
  pub is_open-from_be : (k : ℕ) → k < 2 ^ 64 → is_open (o.from_be k) ≡ is_open k
  is_open-from_be k lt = elim (Bool-cases (is_open k)) [
    | inl e ↦ ground (arith, o.from_be-zero, o.from_be-ones, ap o.from_be)
    | inr live ↦ (let h = from_be-IsPhone k lt live in ground (arith, h.not_free, h.not_deleted))
  ]

-- What a write of a phone into an open slot keeps.
module _ (nes : List ℕ) (s k : ℕ) (s-lt : s < length nes) where
  pub set-IsWords : IsWords nes → k < 2 ^ 64 → IsWords (set nes s k)
  set-IsWords words lt i ilt = elim (ℕ_discrete s i) [
    | yes e ↦ rw (← e, get_or-set_self nes s k free_e164 s-lt) lt
    | no ne ↦
        rw (get_or-set_ne nes s i k free_e164 ne) (words i (omega (arith, length-set nes s k)))
  ]

  pub set-IsClean : IsLive k → IsClean nes → IsClean (set nes s k)
  set-IsClean live clean i ilt open_slot = elim (ℕ_discrete s i) [
    | yes e ↦
        (let closed : true ≡ false =
            sym open_slot
            ∙ ap is_open
                (ap (slot_of (set nes s k)) (sym e) ∙ get_or-set_self nes s k free_e164 s-lt)
            ∙ live in
          absurd (cc (closed)))
    | no ne ↦
        (let other = get_or-set_ne nes s i k free_e164 ne in
          other
          ∙ clean i (omega (arith, length-set nes s k, ilt)) (sym (ap is_open other) ∙ open_slot))
  ]

  pub set-IsApart :
      (ks : List ℕ)
      → IsApart ks nes
      → ((i : ℕ) → i < length ks → IsLive (slot_of ks i) → k ≢ slot_of ks i)
      → IsApart ks (set nes s k)
  set-IsApart ks apart new i j ilt jlt live same = elim (ℕ_discrete s j) [
    | yes e ↦
        new i ilt live
          (sym (get_or-set_self nes s k free_e164 s-lt) ∙ ap (slot_of (set nes s k)) e ∙ same)
    | no ne ↦
        apart i j ilt (omega (arith, length-set nes s k, jlt)) live
          (sym (get_or-set_ne nes s j k free_e164 ne) ∙ same)
  ]

-- What a list holds: its first slot, and the rest.
pub holds_first :
    (k : ℕ) (ks : List ℕ) (v : Uuid) (us : List Uuid) (k' : ℕ) (u : Uuid)
    → Holds (k ∷ ks) (v ∷ us) k' u
    → ((k ≡ k') × (v ≡ u)) ⊎ Holds ks us k' u
holds_first k ks v us k' u (zero, lt, e, eu) = inl (e, eu)
holds_first k ks v us k' u (suc i, lt, e, eu) = inr (i, omega (arith, lt), e, eu)

pub first_holds :
    (k : ℕ) (ks : List ℕ) (v : Uuid) (us : List Uuid) (k' : ℕ) (u : Uuid)
    → ((k ≡ k') × (v ≡ u)) ⊎ Holds ks us k' u
    → Holds (k ∷ ks) (v ∷ us) k' u
first_holds k ks v us k' u (inl (e, eu)) = (0, omega arith, e, eu)
first_holds k ks v us k' u (inr (i, lt, e, eu)) = (suc i, omega (arith, lt), e, eu)

-- What a table holds once a new phone was put into it.
pub holds_put :
    (nes : List ℕ) (nus : List Uuid) (k : ℕ) (v : Uuid) (nes' : List ℕ) (nus' : List Uuid)
    → Puts nes nus k v nes' nus'
    → ((u : Uuid) → ¬ Holds nes nus k u)
    → (k' : ℕ) (u : Uuid) → IsLive k'
    → Holds nes' nus' k' u ↔ (Holds nes nus k' u ⊎ ((k ≡ k') × (v ≡ u)))
holds_put nes nus k v nes' nus' puts new k' u live = elim (ℕ_discrete k k') [
  | yes e ↦ (
    λ h. inr (e, sym ((puts.put u).0 (subst (λ x. Holds nes' nus' x u) (sym e) h))),
    λ h. elim h [
      | inl old ↦ absurd (new u (subst (λ x. Holds nes nus x u) (sym e) old))
      | inr (_, eu) ↦ subst (λ x. Holds nes' nus' x u) e ((puts.put u).1 (sym eu))
    ],
  )
  | no ne ↦
      (let (to, from) = puts.others k' u live (λ e. ne (sym e)) in
        (λ h. inl (to h), λ h. elim h [ inl old ↦ from old | inr (e, _) ↦ absurd (ne e) ]))
]
