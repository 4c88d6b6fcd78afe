-- ===== src/Examples/Lookup.antt =====
-- The hash table at small inputs.
use contact_discovery_servic.Prelude.{
  ◌^◌, ◌+◌, leb, true, holds_under, holds_at, some, arith, ℕ, ◌%◌, ◌≡◌, refl, List, [], ◌∷◌, ◌++◌,
  ok,
}
use contact_discovery_servic.Cds.HashKey.{
  Instructions, HashKey, expand_step128, expand, new_key, rounds, encrypt, hash, draw_key,
  generate_within, generate,
}
use contact_discovery_servic.Cds.HashTable.{
  Chain, slot_values, cds_hash_lookup, trailing_zeros_within, chain_of, zero_results, Uuid,
  zero_uuid, Entry, lookup_all, insert_phone, insert_all, fill_slots, any_overflow, hash_phones,
  construct_hash, collect_word, lookup_phone, slot_matches,
}
use contact_discovery_servic.Cds.HashTable.Full.{Taken, insert_all-Taken}
use contact_discovery_servic.Cds.HashTable.Lookup.{Fits}
use contact_discovery_servic.Cds.HashTable.Construct.{construct_hash-hash_phones}
use contact_discovery_servic.Cds.HashTable.Call.{cds_hash_lookup-directory}

abbrev pub uuid_of : ℕ → Uuid
uuid_of n = record { data64_0 = n; data64_1 = n }

-- Five phones in two slots, of which 3, 8 and 9 are in the directory, 3 twice.
lookup_small :
    lookup_all
      (λ phone. phone % 2)
      ((3, uuid_of 30)
        ∷ (8, uuid_of 80)
        ∷ (3, uuid_of 31)
        ∷ (9, uuid_of 90)
        ∷ (10, uuid_of 100)
        ∷ [])
      2
      (8 ∷ 3 ∷ 5 ∷ 9 ∷ 3 ∷ [])
    ≡ ok (uuid_of 80 ∷ uuid_of 31 ∷ zero_uuid ∷ uuid_of 90 ∷ uuid_of 31 ∷ [])
unfolding lookup_all insert_phone insert_all fill_slots any_overflow hash_phones construct_hash
    collect_word lookup_phone slot_matches
lookup_small = refl

-- The thirteenth phone of a slot is dropped, though the table does not count as overflowed.
lookup_thirteenth :
    lookup_all
      (λ phone. 0)
      ((13, uuid_of 7) ∷ [])
      1
      (1 ∷ 2 ∷ 3 ∷ 4 ∷ 5 ∷ 6 ∷ 7 ∷ 8 ∷ 9 ∷ 10 ∷ 11 ∷ 12 ∷ 13 ∷ [])
    ≡ ok (
        zero_uuid ∷ zero_uuid ∷ zero_uuid ∷ zero_uuid ∷ zero_uuid ∷ zero_uuid ∷ zero_uuid
        ∷ zero_uuid ∷ zero_uuid ∷ zero_uuid ∷ zero_uuid ∷ zero_uuid ∷ zero_uuid ∷ [])
unfolding lookup_all insert_phone insert_all fill_slots any_overflow hash_phones construct_hash
    collect_word lookup_phone slot_matches
lookup_thirteenth = refl

-- Vectors as numbers: a sum for the exclusive or, and rounds that change nothing. The random numbers
-- count up.
abbrev pub numbers : Instructions ℕ
numbers = record {
  Vector = ℕ;
  setzero = 0;
  set_epi64x = λ high low. low;
  cvtsi64_si128 = λ phone. phone;
  xor_si128 = λ a b. a + b;
  aesenc_si128 = λ a k. a;
  aesenclast_si128 = λ a k. a;
  aeskeygenassist_si128 = λ k constant. constant;
  slli_si128 = λ k bytes. 0;
  shuffle_epi32 = λ k order. 0;
  cvtsi128_si32 = λ a. a % 2 ^ 32;
  rdrand64_step = λ w. (some w, w + 1);
}

abbrev pub directory : List Entry
directory =
    (3, uuid_of 30) ∷ (8, uuid_of 80) ∷ (3, uuid_of 31) ∷ (9, uuid_of 90) ∷ (10, uuid_of 100) ∷ []

abbrev pub queried : List ℕ
queried = 8 ∷ 3 ∷ 5 ∷ 9 ∷ 3 ∷ []

abbrev pub key : HashKey numbers
key = new_key numbers 4 5

pub generated : generate numbers 4 ≡ (some key, 6)
unfolding generate generate_within draw_key
generated = refl

chains_table :
    holds_under (λ slot. leb (chain_of (hash numbers key 1) queried slot).chain_idx 12) 2 ≡ true
unfolding holds_under hash encrypt rounds new_key expand expand_step128 insert_all insert_phone
    slot_matches
chains_table = refl

fits : Fits (hash numbers key 1) queried 2
fits slot h =
    let e : leb (chain_of (hash numbers key 1) queried slot).chain_idx 12 ≡ true =
      holds_at _ 2 slot chains_table h in
    ground arith

order_one : trailing_zeros_within 64 2 ≡ 1
unfolding trailing_zeros_within
order_one = refl

cds_hash_lookup-directory_example :
    cds_hash_lookup numbers directory 2 queried 4
    ≡ (ok (uuid_of 80 ∷ uuid_of 31 ∷ zero_uuid ∷ uuid_of 90 ∷ uuid_of 31 ∷ []), 6)
unfolding trailing_zeros_within
cds_hash_lookup-directory_example =
    cds_hash_lookup-directory numbers 2 queried directory 4 6 key (omega arith, refl) generated
      (omega arith) (omega arith, (omega arith, (omega arith, (omega arith, (omega arith, tt)))))
      (
        λ e. absurd (omega arith),
        (
          λ e. absurd (omega arith),
          (λ e. absurd (omega arith), (λ e. absurd (omega arith), (λ e. absurd (omega arith), tt))),
        ),
      )
      fits

-- Fifteen entries: one group of four, and the others.
construct_hash-hash_phones_example :
    construct_hash
      (λ phone. phone % 2)
      16
      ((8 ∷ 10 ∷ []) ∷ (3 ∷ 5 ∷ []) ∷ [])
      (directory ++ directory ++ directory)
      (zero_results 2)
    ≡ hash_phones
        (λ phone. phone % 2)
        ((8 ∷ 10 ∷ []) ∷ (3 ∷ 5 ∷ []) ∷ [])
        (directory ++ directory ++ directory)
        (zero_results 2)
construct_hash-hash_phones_example =
    construct_hash-hash_phones (λ phone. phone % 2) ((8 ∷ 10 ∷ []) ∷ (3 ∷ 5 ∷ []) ∷ []) 16
      (directory ++ directory ++ directory) (zero_results 2) (omega arith)

abbrev twelve : Chain
twelve = chain_of (λ phone. 0) (1 ∷ 2 ∷ 3 ∷ 4 ∷ 5 ∷ 6 ∷ 7 ∷ 8 ∷ 9 ∷ 10 ∷ 11 ∷ 12 ∷ []) 0

twelve-Taken : Taken 1 twelve.lanes
unfolding insert_all insert_phone slot_matches
twelve-Taken = (
  omega arith,
  (
    omega arith,
    (
      omega arith,
      (
        omega arith,
        (
          omega arith,
          (
            omega arith,
            (
              omega arith,
              (
                omega arith,
                (
                  omega arith,
                  (
                    omega arith,
                    (
                      omega arith,
                      (omega arith, (omega arith, (omega arith, (omega arith, (omega arith, tt))))),
                    ),
                  ),
                ),
              ),
            ),
          ),
        ),
      ),
    ),
  ),
)

insert_all-Taken_example :
    slot_values (insert_all (λ phone. 0) 0 (13 ∷ []) twelve) ≡ slot_values twelve
insert_all-Taken_example = insert_all-Taken (λ phone. 0) 0 (13 ∷ []) twelve twelve-Taken
