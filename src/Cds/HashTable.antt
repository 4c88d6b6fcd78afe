-- ===== src/Cds/HashTable.antt =====
-- The function hash_lookup of enclave/cds_enclave/c_src/cds-enclave-hash.rs, and those that it calls.
-- An array of four 256-bit vectors is the list of its 16 lanes of 64 bits, the lowest first: each
-- instruction on such an array acts on every lane alike.
pub mod Lanes
pub mod Chains
pub mod Slots
pub mod Answers
pub mod Construct
pub mod Unions
pub mod Collected
pub mod Lookup
pub mod Call
pub mod Full
use contact_discovery_servic.Prelude.{
  ℕ, zero, suc, ◌+◌, ◌-◌, ◌*◌, ◌/◌, ◌%◌, ◌^◌, ltb, leb, ◌==◌, bit_and, bit_or, bit_xor, Bool, true,
  false, not, ◌&&◌, ◌||◌, if◌then◌else◌, List, [], ◌∷◌, ◌++◌, map, length, take, drop, get_or, set,
  replicate, Option, none, some, Result, ok, err,
}
use contact_discovery_servic.Cds.HashKey.{Instructions, hash, generate}

abbrev pub uint64_max : ℕ
uint64_max = 2 ^ 64 - 1

pub record Uuid : Type 0 where
  pub data64_0 : ℕ
  pub data64_1 : ℕ

abbrev pub zero_uuid : Uuid
zero_uuid = record { data64_0 = 0; data64_1 = 0 }

-- An entry of the directory: a phone and its UUID.
abbrev pub Entry : Type 0
Entry = ℕ × Uuid

pub data HashLookupError : Type 0 where
  bad_parameter rdrand_failed hash_table_overflow : HashLookupError

-- `CHAIN_PHONE_COUNT`
abbrev pub chain_phone_count : ℕ
chain_phone_count = 16

-- A lane of `chain_blocks`, and the same lane of `chain_block_masks`.
pub record Lane : Type 0 where
  pub value : ℕ
  pub mask : ℕ

-- `UINT64_MAX - n`
abbrev pub max_less : ℕ → ℕ
max_less n = uint64_max - n

-- `chain_block_masks`: minus one, minus two, and so on in the lanes that take phones.
abbrev pub chain_block_masks : List ℕ
chain_block_masks =
    0
    ∷ max_less 2
    ∷ max_less 1
    ∷ max_less 0
    ∷ 0
    ∷ max_less 5
    ∷ max_less 4
    ∷ max_less 3
    ∷ 0
    ∷ max_less 8
    ∷ max_less 7
    ∷ max_less 6
    ∷ 0
    ∷ max_less 11
    ∷ max_less 10
    ∷ max_less 9
    ∷ []

-- `chain_block_dummy_mask` and `chain_block_non_dummy_mask` for the four blocks.
abbrev pub dummy_mask : List ℕ
dummy_mask =
    uint64_max ∷ 0 ∷ 0 ∷ 0 ∷ uint64_max ∷ 0 ∷ 0 ∷ 0 ∷ uint64_max ∷ 0 ∷ 0 ∷ 0 ∷ uint64_max ∷ 0 ∷ 0
    ∷ 0 ∷ []

abbrev pub non_dummy : ℕ → ℕ
non_dummy dummy = max_less dummy

-- The sign bit of a lane.
abbrev pub is_negative : ℕ → Bool
is_negative m = leb (2 ^ 63) m

-- `_mm256_blendv_pd` and `_mm256_add_epi64` in one lane.
abbrev pub blend_lane : ℕ → Lane → ℕ
blend_lane x l = if is_negative l.mask then x else l.value

abbrev pub step_lane : ℕ → ℕ → Lane → Lane
step_lane phone should_insert l = record {
  value = blend_lane phone l;
  mask = (l.mask + should_insert) % 2 ^ 64;
}

-- Whether some lane holds the phone.
abbrev pub holds : ℕ → List Lane → Bool
holds phone [] = false
holds phone (l ∷ lanes) = (phone == l.value) || holds phone lanes

pub record Chain : Type 0 where
  pub lanes : List Lane
  pub chain_idx : ℕ

abbrev pub new_chain : Chain
new_chain = record {
  lanes = map (λ m. record { value = 0; mask = m }) chain_block_masks;
  chain_idx = 0;
}

-- The values that are written to a slot: free lanes get a dummy.
abbrev pub slot_values : Chain → List ℕ
slot_values chain = map (blend_lane uint64_max) chain.lanes

-- hash_phone_chain_block in one lane, for a directory entry's phone and UUID.
abbrev pub update_lane : Entry → ℕ → ℕ → Uuid → Uuid
update_lane (phone, uuid) dummy value result =
    if bit_or phone dummy == value then uuid else record {
      data64_0 = bit_xor result.data64_0 dummy;
      data64_1 = bit_xor result.data64_1 dummy;
    }

abbrev pub update_slot : Entry → List ℕ → List ℕ → List Uuid → List Uuid
update_slot e [] values results = results
update_slot e (d ∷ dummies) [] results = results
update_slot e (d ∷ dummies) (v ∷ values) [] = []
update_slot e (d ∷ dummies) (v ∷ values) (r ∷ results) =
    update_lane e d v r ∷ update_slot e dummies values results

-- `hash_slot_matches`, without a branch: the upper half of `(a ^ b) - 1`.
unfoldable pub slot_matches : ℕ → ℕ → ℕ
slot_matches a b = bit_and ((bit_xor a b + uint64_max) % 2 ^ 64 / 2 ^ 32) 1

module _ (hash : ℕ → ℕ) where
  -- The body of the loop over the queried phones.
  unfoldable pub insert_phone : ℕ → ℕ → Chain → Chain
  insert_phone slot phone chain =
      let not_in_chain = (if holds phone chain.lanes then 0 else 1) in
      let should_insert = bit_and (slot_matches (hash phone) slot) not_in_chain in
      record {
        lanes = map (step_lane phone should_insert) chain.lanes;
        chain_idx = (chain.chain_idx + should_insert) % 2 ^ 32;
      }

  unfoldable pub insert_all : ℕ → List ℕ → Chain → Chain
  insert_all slot [] chain = chain
  insert_all slot (phone ∷ phones) chain = insert_all slot phones (insert_phone slot phone chain)

  abbrev pub chain_of : List ℕ → ℕ → Chain
  chain_of ab_phones slot = insert_all slot ab_phones new_chain

  -- The slots from an index on, so many.
  unfoldable pub fill_slots : List ℕ → ℕ → ℕ → List (List ℕ)
  fill_slots ab_phones slot zero = []
  fill_slots ab_phones slot (suc n) =
      slot_values (chain_of ab_phones slot) ∷ fill_slots ab_phones (slot + 1) n

  -- `any_hash_slots_overflowed`
  unfoldable pub any_overflow : List ℕ → ℕ → ℕ → Bool
  any_overflow ab_phones slot zero = false
  any_overflow ab_phones slot (suc n) =
      ltb chain_phone_count (chain_of ab_phones slot).chain_idx
      || any_overflow ab_phones (slot + 1) n

  abbrev pub hash_phone : List (List ℕ) → List (List Uuid) → Entry → List (List Uuid)
  hash_phone slots results e =
      let i = hash e.0 in
      set results i (update_slot e dummy_mask (get_or slots i []) (get_or results i []))

  unfoldable pub hash_phones : List (List ℕ) → List Entry → List (List Uuid) → List (List Uuid)
  hash_phones slots [] results = results
  hash_phones slots (e ∷ entries) results = hash_phones slots entries (hash_phone slots results e)

  -- cds_contruct_hash: groups of four entries while more than twelve are left, then the others. The
  -- fuel bounds the number of groups.
  unfoldable pub construct_hash :
      ℕ → List (List ℕ) → List Entry → List (List Uuid) → List (List Uuid)
  construct_hash zero slots entries results = results
  construct_hash (suc fuel) slots entries results = elim (ltb 12 (length entries)) [
    | true ↦ construct_hash fuel slots (drop 4 entries) (hash_phones slots (take 4 entries) results)
    | false ↦ hash_phones slots entries results
  ]

-- hash_slot_collect_result: four accumulators, blended with each block in turn, and their union.
abbrev pub pick : ℕ → ℕ → ℕ → ℕ → ℕ → ℕ
pick phone dummy value acc word = if phone == bit_and value (non_dummy dummy) then word else acc

abbrev pub collect : (Uuid → ℕ) → ℕ → ℕ → ℕ → ℕ → ℕ → List ℕ → List ℕ → List Uuid → ℕ
collect word phone a0 a1 a2 a3 (d0 ∷ d1 ∷ d2 ∷ d3 ∷ ds) (v0 ∷ v1 ∷ v2 ∷ v3 ∷ vs)
      (r0 ∷ r1 ∷ r2 ∷ r3 ∷ rs) =
    collect word phone (pick phone d0 v0 a0 (word r0)) (pick phone d1 v1 a1 (word r1))
      (pick phone d2 v2 a2 (word r2)) (pick phone d3 v3 a3 (word r3)) ds vs rs
collect word phone a0 a1 a2 a3 ds vs rs = bit_or (bit_or (bit_or a0 a1) a2) a3

-- The words of the four zeros at first.
abbrev pub collect_result : (Uuid → ℕ) → ℕ → List ℕ → List Uuid → ℕ
collect_result word phone values results = collect word phone 0 0 0 0 dummy_mask values results

-- The union over the slots.
unfoldable pub collect_word : (Uuid → ℕ) → ℕ → ℕ → List (List ℕ) → List (List Uuid) → ℕ
collect_word word phone acc [] results = acc
collect_word word phone acc (values ∷ slots) [] = acc
collect_word word phone acc (values ∷ slots) (rs ∷ results) =
    collect_word word phone (bit_or acc (collect_result word phone values rs)) slots results

unfoldable pub lookup_phone : List (List ℕ) → List (List Uuid) → ℕ → Uuid
lookup_phone slots results phone = record {
  data64_0 = collect_word (λ (u : Uuid). u.data64_0) phone 0 slots results;
  data64_1 = collect_word (λ (u : Uuid). u.data64_1) phone 0 slots results;
}

-- Zeroed, as the caller hands it over.
abbrev pub zero_results : ℕ → List (List Uuid)
zero_results slot_count = replicate slot_count (replicate 16 zero_uuid)

module _ (hash : ℕ → ℕ) where
  -- hash_lookup once it has its key: the results of the queried phones, in order.
  unfoldable pub lookup_all : List Entry → ℕ → List ℕ → Result HashLookupError (List Uuid)
  lookup_all entries slot_count ab_phones =
      let slots = fill_slots hash ab_phones 0 slot_count in
      let results =
        construct_hash hash (suc (length entries)) slots entries (zero_results slot_count) in
      if any_overflow hash ab_phones 0 slot_count
      then err hash_table_overflow
      else ok (map (lookup_phone slots results) ab_phones)

-- `trailing_zeros` of a `usize`
unfoldable pub trailing_zeros_within : ℕ → ℕ → ℕ
trailing_zeros_within zero n = 0
trailing_zeros_within (suc bits) n = elim (n % 2 == 0) [
  | true ↦ suc (trailing_zeros_within bits (n / 2))
  | false ↦ 0
]

abbrev pub trailing_zeros : ℕ → ℕ
trailing_zeros n = trailing_zeros_within 64 n

abbrev pub is_power_of_two : ℕ → Bool
is_power_of_two n = n == 2 ^ trailing_zeros n

module _ {World : Type 0} (x : Instructions World) where
  unfoldable pub cds_hash_lookup :
      List Entry → ℕ → List ℕ → World → Result HashLookupError (List Uuid) × World
  cds_hash_lookup entries slot_count ab_phones w =
      let order = trailing_zeros slot_count in
      let (key, w') = generate x w in
      if leb 32 order || not (is_power_of_two slot_count)
      then (err bad_parameter, w)
      else elim key [
        | none ↦ (err rdrand_failed, w')
        | some k ↦ (lookup_all (hash x k order) entries slot_count ab_phones, w')
      ]
