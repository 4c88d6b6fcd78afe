-- ===== src/Cds/HashTable/Construct.antt =====
-- The loop of cds_contruct_hash against the plain one.
use contact_discovery_servic.Prelude.{
  ℕ, zero, suc, ◌<◌, ◌≡◌, inl, inr, refl, ◌∙◌, ltb, Bool-cases, List, [], ◌∷◌, length, take, drop,
  length-drop, arith,
}
use contact_discovery_servic.Cds.HashTable.{Uuid, Entry, hash_phone, hash_phones, construct_hash}

-- The groups of four take the entries in order.
module _ (hash : ℕ → ℕ) (slots : List (List ℕ)) where
  hash_phones-split :
      (n : ℕ) (entries : List Entry) (results : List (List Uuid))
      → hash_phones hash slots (drop n entries) (hash_phones hash slots (take n entries) results)
        ≡ hash_phones hash slots entries results
  unfolding hash_phones
  hash_phones-split zero entries results = refl
  hash_phones-split (suc n) [] results = refl
  hash_phones-split (suc n) (e ∷ entries) results =
      hash_phones-split n entries (hash_phone hash slots results e)

  -- cds_contruct_hash ends when it has as much fuel as there are entries, and then has gone through
  -- every entry once and in order.
  pub construct_hash-hash_phones :
      (fuel : ℕ) (entries : List Entry) (results : List (List Uuid))
      → length entries < fuel
      → construct_hash hash fuel slots entries results ≡ hash_phones hash slots entries results
  unfolding construct_hash
  construct_hash-hash_phones zero entries results h = absurd (omega arith)
  construct_hash-hash_phones (suc fuel) entries results h =
      elim (Bool-cases (ltb 12 (length entries))) [
        | inl more ↦
            (let many : 12 < length entries = ground arith in
              rw (construct_hash, more)
                (construct_hash-hash_phones fuel (drop 4 entries)
                    (hash_phones hash slots (take 4 entries) results)
                    (omega (arith, length-drop 4 entries))
                  ∙ hash_phones-split 4 entries results))
        | inr few ↦ rw (construct_hash, few) refl
      ]
