-- ===== src/Examples/Sessions.antt =====
-- Initialization, negotiation and replies, at the toy state.
use contact_discovery_servic.Prelude.{
  ℕ, true, ◌%◌, ◌≡◌, ◌≢◌, refl, ap, false, Option, some, [], ◌∷◌, arith, length-replicate,
  replicate, ok, err,
}
use contact_discovery_servic.Sgxsd.Types.{
  Bytes, invalid_state, MsgBuf, MsgFrom, NegotiationRequest, NegotiationResponse, NodeInitArgs,
}
use contact_discovery_servic.Sgxsd.AesGcm.RoundTrip.{seal, unseal}
use contact_discovery_servic.Sgxsd.State.{Enclave}
use contact_discovery_servic.Sgxsd.Node.{node_init}
use contact_discovery_servic.Sgxsd.Node.Ready.{IsReady, node_init-IsReady}
use contact_discovery_servic.Sgxsd.Negotiate.{negotiate_request}
use contact_discovery_servic.Sgxsd.Negotiate.Steps.{Commutes, public, RandomWorks}
use contact_discovery_servic.Sgxsd.Negotiate.Agreement.{IsShared, negotiate_request-IsShared}
use contact_discovery_servic.Sgxsd.Reply.{store, encrypt_reply, server_reply}
use contact_discovery_servic.Sgxsd.Platform.{Host}
use contact_discovery_servic.Sgxsd.Reply.Sealing.{
  IsOdd, send_sealed, server_reply-seal, encrypt_reply-unseal,
}
use contact_discovery_servic.Edl.Ecalls.{zero_response}
use contact_discovery_servic.Examples.Toy.{
  toy_crypto, toy_laws, toy_platform, toy_server, toy_state,
}
use contact_discovery_servic.Examples.Requests.{toy-IsTable, request_3}

toy_Commutes : Commutes toy_crypto
toy_Commutes a b = ap (λ x. x ∷ replicate 31 0) (omega arith)

toy_RandomWorks : RandomWorks toy_crypto toy_platform toy_server
toy_RandomWorks n w = (refl, length-replicate n (w % 256))

abbrev client_privkey : Bytes
client_privkey = 5 ∷ replicate 31 0

abbrev client_request : NegotiationRequest
client_request = record { client_pubkey = public toy_crypto client_privkey }

negotiate_request-IsShared_example :
    let (r, s') =
      negotiate_request toy_crypto toy_platform toy_server
        (some client_request)
        (some zero_response)
        toy_state in
    (resp : NegotiationResponse) × (r ≡ ok resp)
    × IsShared toy_crypto toy_platform toy_server toy_laws toy_RandomWorks client_privkey resp s'
negotiate_request-IsShared_example =
    negotiate_request-IsShared toy_crypto toy_platform toy_server toy_laws toy_RandomWorks
      client_privkey zero_response toy_state toy_Commutes refl refl toy-IsTable refl

-- The node before its initialization.
abbrev cold_state : Enclave toy_platform toy_server
cold_state = record toy_state {
  node_initialized = false;
  pending_requests = [];
  pending_requests_table_order = 0;
}

abbrev order_3 : NodeInitArgs
order_3 = record { pending_requests_table_order = 3 }

node_init-IsReady_example :
    let (r, s') = node_init toy_crypto toy_platform toy_server (some order_3) cold_state in
    (r ≡ ok tt)
    × IsReady toy_crypto toy_platform toy_server tt s'
    × ((again : Option NodeInitArgs)
        → (node_init toy_crypto toy_platform toy_server again s').0 ≡ err invalid_state)
node_init-IsReady_example =
    node_init-IsReady toy_crypto toy_platform toy_server (λ n w. refl) order_3 cold_state
      (omega arith) refl refl (λ w. refl) refl

abbrev reply_buf : MsgBuf
reply_buf = record { buffer = some 100; size = 3 }

encrypt_reply-unseal_example :
    let (r, h) =
      encrypt_reply toy_crypto toy_platform
        (replicate 32 3)
        (1 ∷ replicate 11 0)
        reply_buf
        toy_state.host in
    (mac : Bytes) × (r ≡ ok mac)
    × (unseal toy_crypto (replicate 32 3) (1 ∷ replicate 11 0) [] (h.mem 100) mac
        ≡ some (9 ∷ 8 ∷ 7 ∷ []))
encrypt_reply-unseal_example =
    encrypt_reply-unseal toy_crypto toy_platform toy_laws (replicate 32 3) (1 ∷ replicate 11 0) 100
      toy_state.host

abbrev toy_from : MsgFrom
toy_from = record { valid = true; tag = 7; server_key = replicate 32 3 }

server_reply-seal_example :
    let (r, from', h') =
      server_reply toy_crypto toy_platform request_3 reply_buf (some toy_from) toy_state.host in
    (iv : Bytes) × IsOdd toy_crypto toy_platform toy_laws (replicate 12 1) iv
    × (let (ct, mac) = seal toy_crypto (replicate 32 3) iv [] (9 ∷ 8 ∷ 7 ∷ []) in
        let sealed : Host ℕ = record {
          world = 2;
          mem = store toy_state.host.mem (some 100) (some ct);
        } in
        let (sent, after) =
          send_sealed toy_crypto toy_platform toy_laws request_3 iv mac 100 toy_from ct sealed in
        (r ≡ sent) × (h'.world ≡ after.world))
    × (from' ≡ some (record { valid = false; tag = 0; server_key = replicate 32 0 }))
    × (h'.mem 100 ≡ 0 ∷ 0 ∷ 0 ∷ [])
    × ((a : ℕ) → a ≢ 100 → h'.mem a ≡ toy_state.host.mem a)
server_reply-seal_example =
    server_reply-seal toy_crypto toy_platform toy_laws request_3 100 toy_from toy_state.host refl
      refl (omega arith) (omega arith)
