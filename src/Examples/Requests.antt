-- ===== src/Examples/Requests.antt =====
-- The table of pending requests and the servers' calls, at the toy state.
use contact_discovery_servic.Prelude.{
  ℕ, ◌≡◌, ◌≢◌, Option, refl, arith, none, some, List, [], ◌∷◌, ◌++◌, replicate, ok, err,
}
use contact_discovery_servic.Sgxsd.Types.{
  PendingRequest, pending_request_not_found, invalid_state, PendingRequestId, MsgHeader,
}
use contact_discovery_servic.Sgxsd.Pending.{insert_entry, take_entry, decrypt_id}
use contact_discovery_servic.Sgxsd.Pending.Table.{
  IsTable, stored, stored-insert_entry, stored-take_entry,
}
use contact_discovery_servic.Sgxsd.Pending.History.{
  Op, add, take, run, InWindow, stored-run, run-InWindow, fresh-InWindow,
}
use contact_discovery_servic.Sgxsd.Node.{zero_request}
use contact_discovery_servic.Sgxsd.State.{Enclave, zero_desc}
use contact_discovery_servic.Sgxsd.Servers.{desc, server_call, server_stop}
use contact_discovery_servic.Sgxsd.Servers.Lifecycle.{server_stop_closes}
use contact_discovery_servic.Sgxsd.Servers.Replay.{server_call_once}
use contact_discovery_servic.Sgxsd.Servers.Delivery.{expected, server_call-expected}
use contact_discovery_servic.Sgxsd.AesGcm.{aes_gcm_decrypt, aes_gcm_run}
use contact_discovery_servic.Examples.Toy.{
  checksum, toy_laws, toy_crypto, toy_platform, toy_server, toy_state, toy_prk,
}

pub toy-IsTable : IsTable toy_state
toy-IsTable = record { sized = refl; small = omega arith }

abbrev new_request : PendingRequest
new_request = record { id_val = 0; hkdf_prk = 6 ∷ [] }

-- Adding request 4 evicts request 2, which shares its entry, and keeps request 3.
insert_entry_keeps : stored (insert_entry new_request toy_state).1 3 ≡ some toy_prk
unfolding stored
insert_entry_keeps = (stored-insert_entry toy_state new_request 3 toy-IsTable).1

stored-insert_entry_example :
    ((insert_entry new_request toy_state).0 ≡ ok 4)
    × (stored (insert_entry new_request toy_state).1 2 ≡ none)
stored-insert_entry_example = stored-insert_entry toy_state new_request 2 toy-IsTable

stored-take_entry_example : stored (take_entry 3 toy_state).1 3 ≡ none
stored-take_entry_example = stored-take_entry toy_state 3 3 toy-IsTable (omega arith)

stored-run_example : stored (run toy_state (take 2 ∷ add new_request ∷ [])) 3 ≡ some toy_prk
unfolding stored
stored-run_example =
    stored-run (take 2 ∷ add new_request ∷ []) toy_state 3 toy_prk toy-IsTable (omega arith) refl
      (omega arith) (refl, (refl, tt)) (omega arith) (omega arith)

-- An empty table of two entries.
abbrev empty_state : Enclave toy_platform toy_server
empty_state = record toy_state {
  pending_requests = zero_request ∷ zero_request ∷ [];
  last_pending_request_id_val = 0;
}

abbrev history : List Op
history = add new_request ∷ take 1 ∷ add new_request ∷ add new_request ∷ []

run-InWindow_example : IsTable (run empty_state history) × InWindow (run empty_state history)
run-InWindow_example =
    run-InWindow history empty_state (record { sized = refl; small = omega arith }) (omega arith)
      (fresh-InWindow 2 empty_state refl)

abbrev pub request_3 : PendingRequestId
request_3 = record {
  body = 4 ∷ replicate 7 1;
  iv = replicate 12 0;
  mac = checksum (replicate 32 4 ++ replicate 12 0 ++ (4 ∷ replicate 7 1));
}

abbrev pub call_header : MsgHeader
call_header = record { iv = replicate 12 1; mac = replicate 16 0; pending_request_id = request_3 }

request_3-decrypts : decrypt_id toy_crypto toy_state.pending_request_id_key request_3 ≡ ok 3
unfolding decrypt_id aes_gcm_decrypt aes_gcm_run
request_3-decrypts = refl

toy_stored : stored toy_state 3 ≡ some toy_prk
unfolding stored
toy_stored = refl

-- The message is not authentic; its request is used up all the same.
server_call_once_example :
    let first =
      server_call toy_crypto toy_platform toy_server none
        (some call_header)
        (some 100)
        3
        0
        1
        toy_state in
    (stored first.1 3 ≡ none)
    × ((server_call toy_crypto toy_platform toy_server none
          (some call_header)
          (some 100)
          3
          0
          1
          first.1).0
        ≡ err pending_request_not_found)
server_call_once_example =
    server_call_once toy_crypto toy_platform toy_server request_3 3 1 toy_state none none
      (replicate 12 1) (replicate 16 0) (replicate 12 1) (replicate 16 0) 100 3 0 100 3 0
      toy-IsTable (omega arith) request_3-decrypts refl (omega arith) refl (omega arith)
      (omega arith)

-- The same call, by what the server is given.
server_call-expected_example :
    (server_call toy_crypto toy_platform toy_server none
      (some call_header)
      (some 100)
      3
      0
      1
      toy_state).0
    ≡ expected toy_crypto toy_platform toy_server none call_header 100 0 toy_prk toy_state.host
        (some 0)
server_call-expected_example =
    server_call-expected toy_crypto toy_platform toy_server toy_laws none call_header 100 0 1 3
      toy_prk toy_state refl request_3-decrypts toy_stored refl (omega arith) refl (omega arith)
      (omega arith)

server_stop_closes_example :
    let after = (server_stop toy_crypto toy_platform toy_server none 1 toy_state).1 in
    (desc 1 after ≡ zero_desc)
    × ((other : ℕ) → 1 ≢ other → desc other after ≡ desc other toy_state)
    × ((call : Option (Unit {0})) (header : Option MsgHeader) (msg_data : Option ℕ) (n tag : ℕ)
        → (server_call toy_crypto toy_platform toy_server call header msg_data n tag 1 after).0
          ≡ err invalid_state)
server_stop_closes_example =
    server_stop_closes toy_crypto toy_platform toy_server none 1 toy_state refl (omega arith) refl
