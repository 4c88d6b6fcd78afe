-- ===== src/Examples/Service.antt =====
-- The service, with the toy cryptography, and numbers for vectors and for the world.
use contact_discovery_servic.Prelude.{
  none, ℕ, ◌+◌, ◌≡◌, ◌⊎◌, refl, leb, Bool, true, some, List, [], ◌∷◌, ◌++◌, map, replicate, ok, err,
  holds_under, holds_at, arith,
}
use contact_discovery_servic.Sgxsd.Types.{Bytes, Status, success, MsgFrom}
use contact_discovery_servic.Cds.HashKey.{hash, expand_step128, expand, new_key, rounds, encrypt}
use contact_discovery_servic.Cds.HashTable.{
  trailing_zeros_within, chain_of, insert_all, insert_phone, slot_matches,
}
use contact_discovery_servic.Cds.HashTable.Answers.{directory_lookup}
use contact_discovery_servic.Cds.HashTable.Lookup.{Fits}
use contact_discovery_servic.Cds.HashLookup.{next_power_within, hash_lookup}
use contact_discovery_servic.Cds.HashLookup.Retries.{no_attempt, hash_lookup-directory}
use contact_discovery_servic.Cds.Request.{CallArgs, decode_phone_list, new_slice}
use contact_discovery_servic.Cds.Request.RoundTrip.{
  swap_bytes, client_query, decode_phone_list-client_query, query_of, decode_phone_list-query_of,
}
use contact_discovery_servic.Cds.Service.{
  StopArgs, ServerState, Replies, directory_of, handle_call, terminate, init, decode_request,
}
use contact_discovery_servic.Cds.Service.Requests.{Query, Refines, pending_of, handle_call-Refines}
use contact_discovery_servic.Cds.Service.Answers.{
  answer_all, no_phones, chunk, terminate-answer_all,
}
use contact_discovery_servic.Cds.Service.Session.{
  Call, handle, run_calls, Collected, no_call, refused, accepted, session-answer_all,
}
use contact_discovery_servic.Examples.Toy.{toy_crypto, toy_laws}
use contact_discovery_servic.Examples.Lookup.{numbers, key, generated, uuid_of, queried, directory}

slots_five : next_power_within 64 0 5 ≡ some 8
unfolding next_power_within
slots_five = refl

order_three : trailing_zeros_within 64 8 ≡ 3
unfolding trailing_zeros_within
order_three = refl

chains_table :
    holds_under (λ slot. leb (chain_of (hash numbers key 3) queried slot).chain_idx 12) 8 ≡ true
unfolding holds_under hash encrypt rounds new_key expand expand_step128 insert_all insert_phone
    slot_matches
chains_table = refl

fits : Fits (hash numbers key 3) queried 8
fits slot h =
    let e : leb (chain_of (hash numbers key 3) queried slot).chain_idx 12 ≡ true =
      holds_at _ 8 slot chains_table h in
    ground arith

hash_lookup-directory_example :
    hash_lookup numbers directory queried 80 4 ≡ (ok (map (directory_lookup directory) queried), 6)
unfolding trailing_zeros_within
hash_lookup-directory_example =
    hash_lookup-directory numbers directory queried 0 8 4 4 6 key (omega arith) (omega arith)
      (omega arith, (omega arith, (omega arith, (omega arith, (omega arith, tt)))))
      (
        λ e. absurd (omega arith),
        (
          λ e. absurd (omega arith),
          (λ e. absurd (omega arith), (λ e. absurd (omega arith), (λ e. absurd (omega arith), tt))),
        ),
      )
      slots_five (omega arith) no_attempt generated fits

-- A client's request for its phones, at address 4096.
abbrev outside : ℕ → ℕ → Bool
outside address size = true

abbrev request_key : Bytes
request_key = replicate 32 2

abbrev query : CallArgs
query = query_of toy_crypto request_key (replicate 32 1) (replicate 12 3) queried 4096

query_of_example : decode_phone_list toy_crypto outside query request_key ≡ ok queried
query_of_example =
    decode_phone_list-query_of toy_crypto toy_laws request_key (replicate 32 1) (replicate 12 3)
      queried 4096 refl refl
      (omega arith, (omega arith, (omega arith, (omega arith, (omega arith, tt))))) (omega arith)
      outside (λ e. absurd (omega arith)) refl (omega arith)

decode_phone_list-client_query_example :
    decode_phone_list toy_crypto outside
      (client_query toy_crypto request_key (replicate 32 1) (replicate 12 3) queried 4096)
      request_key
    ≡ ok (map swap_bytes queried)
decode_phone_list-client_query_example =
    decode_phone_list-client_query toy_crypto toy_laws request_key (replicate 32 1) (replicate 12 3)
      queried 4096 refl refl (omega arith) outside (λ e. absurd (omega arith)) refl (omega arith)

abbrev sender : MsgFrom
sender = record { valid = true; tag = 7; server_key = replicate 32 4 }

-- Before the call, another request was collected.
abbrev queries : List Query
queries = (sender, 5 ∷ 6 ∷ []) ∷ []

abbrev state : ServerState
state = record { requests = map pending_of queries; query_phones = 5 ∷ 6 ∷ []; capacity = 100 }

state-Refines : Refines queries state
state-Refines = record { same_requests = refl; same_phones = refl; fits = omega arith }

handle_call-Refines_example :
    let after = handle_call toy_crypto outside (some query) request_key sender state in
    ((e : Status) × (after ≡ (err e, state)))
    ⊎ ((phones : List ℕ) × (decode_phone_list toy_crypto outside query request_key ≡ ok phones)
        × (after.0 ≡ ok tt)
        × Refines (queries ++ ((sender, phones) ∷ [])) after.1)
handle_call-Refines_example =
    handle_call-Refines toy_crypto outside toy_laws queries state state-Refines request_key sender
      (some query)

-- Replies and dropped senders are counted in the world.
abbrev counting : Replies ℕ
counting = record {
  server_reply = λ msg m w. (success, w + 100);
  server_noreply = λ m w. (success, w + 1);
}

abbrev asked : List Query
asked = (sender, 8 ∷ 3 ∷ []) ∷ (sender, 5 ∷ 9 ∷ 3 ∷ []) ∷ []

abbrev asked_state : ServerState
asked_state = record { requests = map pending_of asked; query_phones = queried; capacity = 5 }

asked-Refines : Refines asked asked_state
asked-Refines = record { same_requests = refl; same_phones = refl; fits = omega arith }

abbrev stop_args : StopArgs
stop_args = record {
  in_phones = record { address = 8192; target = 3 ∷ 8 ∷ 3 ∷ 9 ∷ 10 ∷ [] };
  in_phone_count = 5;
  in_uuids = record {
    address = 16384;
    target = uuid_of 30 ∷ uuid_of 80 ∷ uuid_of 31 ∷ uuid_of 90 ∷ uuid_of 100 ∷ [];
  };
}

terminate-answer_all_example :
    terminate counting numbers outside (some stop_args) asked_state 4
    ≡ answer_all counting (directory_lookup (directory_of stop_args)) asked 6
unfolding new_slice
terminate-answer_all_example =
    terminate-answer_all counting numbers outside asked stop_args asked_state 4 6 asked-Refines refl
      (chunk hash_lookup-directory_example no_phones)

-- A call without arguments, and one with the client's request.
abbrev calls : List Call
calls =
    record { args = none; request_data = []; sender = sender }
    ∷ record { args = some query; request_data = request_key; sender = sender }
    ∷ []

abbrev started : ServerState
started = record { requests = []; query_phones = []; capacity = 100 }

accepted_call :
    (handle toy_crypto outside
      (record { args = some query; request_data = request_key; sender = sender })
      started).0
    ≡ ok tt
unfolding handle_call decode_request
accepted_call = rw (handle_call, decode_request, query_of_example) refl

calls-Collected : Collected toy_crypto outside calls started ((sender, queried) ∷ [])
unfolding handle_call
calls-Collected = refused refl (accepted accepted_call query_of_example no_call)

session-answer_all_example :
    terminate counting numbers outside
      (some stop_args)
      (run_calls toy_crypto outside calls started)
      4
    ≡ answer_all counting (directory_lookup (directory_of stop_args)) ((sender, queried) ∷ []) 6
unfolding init new_slice
session-answer_all_example =
    session-answer_all toy_crypto outside toy_laws counting numbers (λ n. n)
      (some (record { max_query_phones = 100 })) started calls ((sender, queried) ∷ []) stop_args 4
      6 refl calls-Collected refl (chunk hash_lookup-directory_example no_phones)
