-- ===== src/Cds/Service.antt =====
-- SgxsdServerState of enclave/cds_enclave/src/service/main.rs: the server that collects the phones of
-- its requests, and looks all of them up when it is stopped; with SgxsdMsgFrom of
-- enclave/sgxsd_ffi/src/ecalls.rs, the sender of a request. The buffer of the results, in which a
-- UUID has 16 bytes, is the list of the UUIDs.
pub mod Requests
pub mod Answers
pub mod Once
pub mod Session
use contact_discovery_servic.Prelude.{
  ℕ, zero, suc, ◌+◌, ◌-◌, ◌*◌, ◌/◌, ◌^◌, ltb, leb, ◌==◌, Bool, true, false, not, ◌||◌, ◌&&◌,
  is_none, if◌then◌else◌, Option, none, some, List, [], ◌∷◌, ◌++◌, map, length, take, drop, Result,
  ok, err,
}
use contact_discovery_servic.Sgxsd.Types.{
  Bytes, Status, success, unexpected, invalid_parameter, is_success, MsgFrom, encode_le,
}
use contact_discovery_servic.Sgxsd.Crypto.{Crypto}
use contact_discovery_servic.Edl.Frame.{Pointer}
use contact_discovery_servic.Cds.HashKey.{Instructions}
use contact_discovery_servic.Cds.HashTable.{Uuid, Entry}
use contact_discovery_servic.Cds.HashLookup.{max_hash_table_size, bytes_per_uuid, hash_lookup}
use contact_discovery_servic.Cds.Request.{CallArgs, bytes_per_phone, new_slice, decode_phone_list}

-- `cds_start_args_t`, less the field about rate limits, which nothing reads.
pub record StartArgs : Type 0 where
  pub max_query_phones : ℕ

-- `cds_stop_args_t`, with what stands at its pointers.
pub record StopArgs : Type 0 where
  pub in_phones : Pointer (List ℕ)
  pub in_phone_count : ℕ
  pub in_uuids : Pointer (List Uuid)

pub record PendingRequest : Type 0 where
  pub sender : MsgFrom
  pub request_phone_count : ℕ

-- `capacity` is that of the vector `query_phones`.
pub record ServerState : Type 0 where
  pub requests : List PendingRequest
  pub query_phones : List ℕ
  pub capacity : ℕ

-- How terminate ends: with a result, or with a panic, which stops the enclave; or it is undefined, if
-- it can read through NULL.
pub data Outcome : Type 0 where
  returned : Result Status (Unit {0}) → Outcome
  panicked : Outcome
  undefined : Outcome

-- sgxsd_enclave_server_reply, of a message and its sender, and sgxsd_enclave_server_noreply.
pub record Replies (World : Type 0) : Type 0 where
  pub server_reply : Bytes → MsgFrom → World → Status × World
  pub server_noreply : MsgFrom → World → Status × World

-- `init`, of the capacity that `Vec::with_capacity` gives.
unfoldable pub init : (ℕ → ℕ) → Option StartArgs → Result Status ServerState
init with_capacity none = err invalid_parameter
init with_capacity (some args) =
    ok (record { requests = []; query_phones = []; capacity = with_capacity args.max_query_phones })

module _ (c : Crypto) (sgx_is_outside_enclave : ℕ → ℕ → Bool) where
  unfoldable pub decode_request : ServerState → CallArgs → Bytes → Result Status (List ℕ)
  decode_request state args request_data =
      if (args.query_phone_count == 0)
        || ltb (state.capacity - length state.query_phones) args.query_phone_count
      then err invalid_parameter
      else decode_phone_list c sgx_is_outside_enclave args request_data

  -- A failed call's sender is forgotten, with no reply.
  unfoldable pub handle_call :
      Option CallArgs → Bytes → MsgFrom → ServerState → Result Status (Unit {0}) × ServerState
  handle_call none request_data sender state = (err invalid_parameter, state)
  handle_call (some args) request_data sender state =
      elim (decode_request state args request_data) [
        | err e ↦ (err e, state)
        | ok phones ↦ if leb (2 ^ 32) (length phones) then (err invalid_parameter, state) else (
          ok tt,
          record state {
            query_phones = state.query_phones ++ phones;
            requests =
                state.requests
                ++ (record { sender = sender; request_phone_count = length phones } ∷ []);
          },
        )
      ]

-- `checked_mul` of a `usize`
abbrev pub checked_mul : ℕ → ℕ → Option ℕ
checked_mul a b = if leb (2 ^ 64) (a * b) then none else some (a * b)

-- The message of a reply.
abbrev pub uuid_bytes : Uuid → Bytes
uuid_bytes u = encode_le 8 u.data64_0 ++ encode_le 8 u.data64_1

unfoldable pub flat_bytes : List Uuid → Bytes
flat_bytes [] = []
flat_bytes (u ∷ uuids) = uuid_bytes u ++ flat_bytes uuids

-- `InPhonesUuids`
abbrev pub zip_entries : List ℕ → List Uuid → List Entry
zip_entries [] uuids = []
zip_entries (p ∷ phones) [] = []
zip_entries (p ∷ phones) (u ∷ uuids) = (p, u) ∷ zip_entries phones uuids

abbrev pub directory_of : StopArgs → List Entry
directory_of args =
    zip_entries (take args.in_phone_count args.in_phones.target)
      (take args.in_phone_count args.in_uuids.target)

module _ {World : Type 0} (x : Instructions World) (entries : List Entry) where
  -- The loop over the chunks, of which there are at most so many: the results in order.
  unfoldable pub lookup_chunks : ℕ → List ℕ → World → Result Status (List Uuid) × World
  lookup_chunks left [] w = (ok [], w)
  lookup_chunks zero (p ∷ query_phones) w = (ok [], w)
  lookup_chunks (suc left) (p ∷ query_phones) w =
      let chunk = take max_hash_table_size (p ∷ query_phones) in
      let (r, w') = hash_lookup x entries chunk (length chunk * bytes_per_uuid) w in
      let (rest, w'') = lookup_chunks left (drop max_hash_table_size (p ∷ query_phones)) w' in
      elim r [
        | err e ↦ (err e, w')
        | ok uuids ↦ elim rest [ err e ↦ (err e, w'') | ok more ↦ (ok (uuids ++ more), w'') ]
      ]

module _ {World : Type 0} (y : Replies World) where
  -- The drop of a vector of requests.
  unfoldable pub drop_all : List PendingRequest → World → World
  drop_all [] w = w
  drop_all (request ∷ requests) w = drop_all requests (y.server_noreply request.sender w).1

  -- `SgxsdMsgFrom::reply`; a message that is too long drops the sender.
  unfoldable pub reply : Bytes → MsgFrom → World → Status × World
  reply msg sender w =
      if leb (2 ^ 32) (length msg)
      then (unexpected, (y.server_noreply sender w).1)
      else y.server_reply msg sender w

  -- The loop over the requests, with the results that remain.
  unfoldable pub reply_all : List PendingRequest → List Uuid → World → Outcome × World
  reply_all [] remaining w = (returned (ok tt), w)
  reply_all (request ∷ requests) remaining w =
      let count = request.request_phone_count in
      let (status, w') = reply (flat_bytes (take count remaining)) request.sender w in
      let rest = reply_all requests (drop count remaining) w' in
      if ltb (length remaining) count
      then (panicked, w)
      else if is_success status
      then rest
      else (returned (err status), drop_all requests w')

  module _ (x : Instructions World) (sgx_is_outside_enclave : ℕ → ℕ → Bool) where
    -- The sizes and the slices of the arguments, and the room for the results, are refused.
    abbrev pub bad_slice : {A : Type 0} → Pointer A → ℕ → ℕ → Bool
    bad_slice q count size = elim (checked_mul count size) [
      | none ↦ true
      | some bytes ↦ is_none (new_slice sgx_is_outside_enclave q bytes)
    ]

    abbrev pub bad_stop : StopArgs → List ℕ → Bool
    bad_stop args query_phones =
        bad_slice args.in_phones args.in_phone_count bytes_per_phone
        || bad_slice args.in_uuids args.in_phone_count bytes_per_uuid
        || is_none (checked_mul (length query_phones) bytes_per_uuid)

    -- The lookups go through the directory, and a pointer of it is NULL, which new_slice takes as an
    -- empty slice whatever the size.
    abbrev pub reads_null : Option StopArgs → List ℕ → Bool
    reads_null none query_phones = false
    reads_null (some args) query_phones =
        not (bad_stop args query_phones)
        && not (length query_phones == 0)
        && not (args.in_phone_count == 0)
        && ((args.in_phones.address == 0) || (args.in_uuids.address == 0))

    -- The body of terminate, where it reads what stands at the pointers of its arguments, and before
    -- its phones are dropped. What is returned early drops the requests.
    unfoldable pub terminate : Option StopArgs → ServerState → World → Outcome × World
    terminate none state w = (returned (err invalid_parameter), drop_all state.requests w)
    terminate (some args) state w =
        if bad_stop args state.query_phones
        then (returned (err invalid_parameter), drop_all state.requests w)
        else (let (results, w') =
              lookup_chunks x (directory_of args) (length state.query_phones) state.query_phones
                w in
            elim results [
              | err e ↦ (returned (err e), drop_all state.requests w')
              | ok uuids ↦ reply_all state.requests uuids w'
            ])

    -- The drop of PhoneList, of so many bytes: a memset_s that fails is a panic.
    abbrev pub drop_phones : (ℕ → Bool) → List ℕ → Outcome → Outcome
    drop_phones memset_s query_phones outcome =
        if memset_s (length query_phones * bytes_per_phone) then panicked else outcome

    -- `terminate`, which drops the phones at its end, however it ends. `memset_s` tells of a number of
    -- bytes whether clearing them fails.
    unfoldable pub terminate_self :
        (ℕ → Bool) → Option StopArgs → ServerState → World → Outcome × World
    terminate_self memset_s args state w =
        let (outcome, w') = terminate args state w in
        if reads_null args state.query_phones
        then (undefined, w)
        else (drop_phones memset_s state.query_phones outcome, w')
