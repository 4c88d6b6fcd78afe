-- ===== src/Cds/Service/Answers.antt =====
-- What the server answers when it is stopped.
use contact_discovery_servic.Prelude.{
  ℕ, zero, suc, ◌*◌, ◌≤◌, ◌≡◌, refl, ap, ◌∙◌, ltb, Bool, false, if◌then◌else◌, some, List, [], ◌∷◌,
  ◌++◌, map, length, take, drop, length-append, length-drop, Result, ok, err, arith,
}
use contact_discovery_servic.Sgxsd.Types.{Status, is_success}
use contact_discovery_servic.Cds.HashKey.{Instructions}
use contact_discovery_servic.Cds.HashTable.{Uuid, Entry}
use contact_discovery_servic.Cds.HashTable.Answers.{directory_lookup}
use contact_discovery_servic.Cds.HashTable.Lanes.{length-map}
use contact_discovery_servic.Cds.HashLookup.{max_hash_table_size, bytes_per_uuid, hash_lookup}
use contact_discovery_servic.Cds.Service.{
  StopArgs, ServerState, Outcome, returned, Replies, flat_bytes, directory_of, lookup_chunks,
  drop_all, reply, reply_all, bad_stop, terminate,
}
use contact_discovery_servic.Cds.Service.Requests.{Query, pending_of, phones_of, Refines}

-- The part of a mapped list that belongs to a prefix, and the rest.
module _ (f : ℕ → Uuid) where
  take-mapped : (ps qs : List ℕ) → take (length ps) (map f (ps ++ qs)) ≡ map f ps
  take-mapped [] qs = refl
  take-mapped (p ∷ ps) qs = ap (λ us. f p ∷ us) (take-mapped ps qs)

  drop-mapped : (ps qs : List ℕ) → drop (length ps) (map f (ps ++ qs)) ≡ map f qs
  drop-mapped [] qs = refl
  drop-mapped (p ∷ ps) qs = drop-mapped ps qs

  map-take-drop : (n : ℕ) (ps : List ℕ) → map f (take n ps) ++ map f (drop n ps) ≡ map f ps
  map-take-drop zero ps = refl
  map-take-drop (suc n) [] = refl
  map-take-drop (suc n) (p ∷ ps) = ap (λ us. f p ∷ us) (map-take-drop n ps)

module _ {World : Type 0} (y : Replies World) where
  -- Every request is answered with the UUIDs of its own phones, in order; the first reply that fails
  -- ends this, and the requests after it are dropped.
  unfoldable pub answer_all : (ℕ → Uuid) → List Query → World → Outcome × World
  answer_all lookup [] w = (returned (ok tt), w)
  answer_all lookup (q ∷ queries) w =
      let (status, w') = reply y (flat_bytes (map lookup q.1)) q.0 w in
      let rest = answer_all lookup queries w' in
      if is_success status
      then rest
      else (returned (err status), drop_all y (map pending_of queries) w')

  reply_all-answer_all :
      (lookup : ℕ → Uuid) (queries : List Query) (w : World)
      → reply_all y (map pending_of queries) (map lookup (phones_of queries)) w
        ≡ answer_all lookup queries w
  unfolding reply_all answer_all
  reply_all-answer_all lookup [] w = refl
  reply_all-answer_all lookup (q ∷ queries) w =
      let enough : ltb (length (map lookup (phones_of (q ∷ queries)))) (length q.1) ≡ false =
        ground (
          arith,
          length-map lookup (phones_of (q ∷ queries)),
          length-append q.1 (phones_of queries),
        ) in
      let w' = (reply y (flat_bytes (map lookup q.1)) q.0 w).1 in
      rw
        (
          enough,
          take-mapped lookup q.1 (phones_of queries),
          drop-mapped lookup q.1 (phones_of queries),
          reply_all-answer_all lookup queries w',
        )
        refl

module _ {World : Type 0} (x : Instructions World) (entries : List Entry) where
  -- Every chunk of the phones is looked up as the directory says.
  pub data LookedUp : List ℕ → World → World → Type 0 where
    no_phones : {w : World} → LookedUp [] w w
    chunk :
        {p : ℕ} {phones : List ℕ} {w w' w'' : World}
        → (let first = take max_hash_table_size (p ∷ phones) in
            hash_lookup x entries first (length first * bytes_per_uuid) w
            ≡ (ok (map (directory_lookup entries) first), w'))
        → LookedUp (drop max_hash_table_size (p ∷ phones)) w' w''
        → LookedUp (p ∷ phones) w w''

  abbrev outcome_of :
      List Uuid → Result Status (List Uuid) × World → Result Status (List Uuid) × World
  outcome_of uuids rest = elim rest.0 [
    | err e ↦ (err e, rest.1)
    | ok more ↦ (ok (uuids ++ more), rest.1)
  ]

  -- What the loop comes to, from what is said of the first chunk.
  abbrev pub outcome :
      ℕ → List ℕ → Result Status (List Uuid) × World → Result Status (List Uuid) × World
  outcome left phones first =
      let (rest, w) = lookup_chunks x entries left phones first.1 in
      elim first.0 [
        | err e ↦ (err e, first.1)
        | ok uuids ↦ elim rest [ err e ↦ (err e, w) | ok more ↦ (ok (uuids ++ more), w) ]
      ]

  lookup_chunks-LookedUp :
      (left : ℕ) (phones : List ℕ) (w w' : World)
      → length phones ≤ left
      → LookedUp phones w w'
      → lookup_chunks x entries left phones w ≡ (ok (map (directory_lookup entries) phones), w')
  unfolding lookup_chunks
  lookup_chunks-LookedUp left phones w w' enough no_phones = refl
  lookup_chunks-LookedUp zero phones w w' enough (chunk e rest) = absurd (omega arith)
  lookup_chunks-LookedUp (suc left) phones w w' enough
        (chunk {p = p} {phones = ps} {w' = v} e rest) =
      let later = drop max_hash_table_size (p ∷ ps) in
      ap (outcome left later) e
      ∙ ap
          (λ (r : Result Status (List Uuid) × World).
            outcome_of (map (directory_lookup entries) (take max_hash_table_size (p ∷ ps))) r)
          (lookup_chunks-LookedUp left later v w'
            (omega (arith, length-drop max_hash_table_size (p ∷ ps))) rest)
      ∙ ap (λ us. (ok us, w'))
          (map-take-drop (directory_lookup entries) max_hash_table_size (p ∷ ps))

module _ {World : Type 0} (y : Replies World) (x : Instructions World)
    (sgx_is_outside_enclave : ℕ → ℕ → Bool) where
  -- Of a server that holds these requests, with arguments whose sizes and memory are right and
  -- phones whose lookups say what the directory says: every request is answered, in order, with the
  -- UUIDs of its own phones, up to the first reply that fails, and the others are dropped.
  pub terminate-answer_all :
      (queries : List Query) (args : StopArgs) (state : ServerState) (w w' : World)
      → Refines queries state
      → bad_stop y x sgx_is_outside_enclave args state.query_phones ≡ false
      → LookedUp x (directory_of args) (phones_of queries) w w'
      → terminate y x sgx_is_outside_enclave (some args) state w
        ≡ answer_all y (directory_lookup (directory_of args)) queries w'
  unfolding terminate
  terminate-answer_all queries args state w w' refines good looked_up =
      let found : lookup_chunks x (directory_of args) (length state.query_phones) state.query_phones
            w
          ≡ (ok (map (directory_lookup (directory_of args)) (phones_of queries)), w') =
        rw refines.same_phones (
          lookup_chunks-LookedUp x (directory_of args) (length (phones_of queries))
            (phones_of queries) w w' (omega arith) looked_up) in
      rw good (
        ap
          (λ (r : Result Status (List Uuid) × World). elim r.0 [
            | err e ↦ (returned (err e), drop_all y state.requests r.1)
            | ok uuids ↦ reply_all y state.requests uuids r.1
          ])
          found
        ∙ ap
            (λ rs.
              reply_all y rs (map (directory_lookup (directory_of args)) (phones_of queries)) w')
            refines.same_requests
        ∙ reply_all-answer_all y (directory_lookup (directory_of args)) queries w')
