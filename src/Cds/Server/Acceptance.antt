-- ===== src/Cds/Server/Acceptance.antt =====
-- A client's request, through sgxsd_enclave_server_call to the service.
use contact_discovery_servic.Prelude.{
  ℕ, ◌+◌, ◌-◌, ◌^◌, ◌≤◌, ◌<◌, ◌≡◌, ◌≢◌, refl, ap, ◌∙◌, ltb, leb, ◌==◌, ==_iff, true, false, some,
  List, length, length-append, take_all, All, ok, arith,
}
use contact_discovery_servic.Sgxsd.Types.{
  Bytes, success, MsgHeader, MsgBuf, MsgFrom, id_bytes, key_size,
}
use contact_discovery_servic.Sgxsd.Crypto.{Crypto, Laws}
use contact_discovery_servic.Sgxsd.AesGcm.RoundTrip.{seal, unseal, unseal-seal, length-seal}
use contact_discovery_servic.Sgxsd.Sha256.Rfc.{rfc5869}
use contact_discovery_servic.Sgxsd.Platform.{Platform, Host}
use contact_discovery_servic.Sgxsd.State.{max_servers, Enclave}
use contact_discovery_servic.Sgxsd.Pending.{decrypt_id}
use contact_discovery_servic.Sgxsd.Pending.Table.{stored}
use contact_discovery_servic.Sgxsd.Negotiate.{pending_request_id_size}
use contact_discovery_servic.Sgxsd.Reply.{store}
use contact_discovery_servic.Sgxsd.Servers.{desc, server_call, status_result}
use contact_discovery_servic.Sgxsd.Servers.Delivery.{outcome, expected, server_call-expected}
use contact_discovery_servic.Cds.Request.{CallArgs, commitment_nonce_size, decode_phone_list}
use contact_discovery_servic.Cds.Request.RoundTrip.{
  plain, encode_phones, length-encode_phones, query_of, decode_phone_list-query_of,
}
use contact_discovery_servic.Cds.Service.{ServerState, decode_request, handle_call}
use contact_discovery_servic.Cds.Server.{
  Runtime, cds_server, message_bytes, enclave_server_handle_call,
}

module _ (c : Crypto) (laws : Laws c) (p : Platform) (t : Runtime p) where
  -- The service takes a request that decodes and whose phones fit.
  handle_call-fits :
      (args : CallArgs) (msg : MsgBuf) (sender : MsgFrom) (state : ServerState) (h : Host p.World)
      (phones : List ℕ)
      → decode_phone_list c p.sgx_is_outside_enclave args (message_bytes h.mem msg) ≡ ok phones
      → args.query_phone_count ≡ length phones
      → 0 < length phones
      → length phones < 2 ^ 32
      → length state.query_phones + length phones ≤ state.capacity
      → (enclave_server_handle_call c p t (some args) msg sender (some state) h).0 ≡ success
  unfolding enclave_server_handle_call handle_call decode_request
  handle_call-fits args msg sender state h phones decoded counted some_phone few room =
      let asked : (args.query_phone_count == 0) ≡ false = ground arith in
      let fits : ltb (state.capacity - length state.query_phones) args.query_phone_count ≡ false =
        ground arith in
      let short : leb (2 ^ 32) (length phones) ≡ false = ground arith in
      rw (handle_call, decode_request, asked, fits, decoded, short) refl

  module _ (key nonce iv : Bytes) (phones : List ℕ) (query_address : ℕ)
      (key_sized : length key ≡ key_size) (nonce_sized : length nonce ≡ commitment_nonce_size)
      (words : All (λ q. q < 2 ^ 64) phones) (small : length (plain c nonce phones) < 2 ^ 32)
      (somewhere : query_address ≢ 0)
      (allowed : p.sgx_is_outside_enclave query_address (length (plain c nonce phones)) ≡ true)
      (no_wrap : query_address + length (plain c nonce phones) < 2 ^ 64)
      (some_phone : 0 < length phones) where
    phones_short : length phones < 2 ^ 32
    phones_short =
        omega (arith, length-append nonce (encode_phones phones), length-encode_phones phones)

    abbrev query : CallArgs
    query = query_of c key nonce iv phones query_address

    key_opened :
        (header : MsgHeader) (address tag : ℕ) (prk : Bytes) (h : Host p.World)
        (state : ServerState)
        → length state.query_phones + length phones ≤ state.capacity
        → (h.mem address, header.mac)
          ≡ seal c (rfc5869 c prk 1) header.iv (id_bytes header.pending_request_id) key
        → expected c p (cds_server c p t) (some query) header address tag prk h (some state) ≡ ok tt
    unfolding expected outcome
    key_opened header address tag prk h state room sealed =
        let aad = id_bytes header.pending_request_id in
        let opened : unseal c (rfc5869 c prk 1) header.iv aad (h.mem address) header.mac
            ≡ some key =
          ap (λ (s : Bytes × Bytes). unseal c (rfc5869 c prk 1) header.iv aad s.0 s.1) sealed
          ∙ unseal-seal c laws (rfc5869 c prk 1) header.iv aad key in
        let msg : MsgBuf = record { buffer = some address; size = length (h.mem address) } in
        let sender : MsgFrom = record { valid = true; tag = tag; server_key = rfc5869 c prk 2 } in
        let at : Host p.World = record h { mem = store h.mem (some address) (some key) } in
        let sized : length (h.mem address) ≡ length key =
          ap (λ (s : Bytes × Bytes). length s.0) sealed
          ∙ length-seal c laws (rfc5869 c prk 1) header.iv aad key in
        let read : message_bytes at.mem msg ≡ key =
          rw (sized, (==_iff address address).1 refl) (take_all (length key) key (omega arith)) in
        let decoded : decode_phone_list c p.sgx_is_outside_enclave query (message_bytes at.mem msg)
            ≡ ok phones =
          ap (decode_phone_list c p.sgx_is_outside_enclave query) read
          ∙ decode_phone_list-query_of c laws key nonce iv phones query_address key_sized
              nonce_sized words small p.sgx_is_outside_enclave somewhere allowed no_wrap in
        ap (outcome c p (cds_server c p t) (some query) msg sender (some state) h) opened
        ∙ ap status_result (
            handle_call-fits query msg sender state at phones decoded refl some_phone
              (omega (arith, phones_short)) room)

    -- An initialized node runs the service in a server, whose state has room for the phones, and a
    -- pseudo-random key is stored under the ID to which a request ID of the right length decrypts. A
    -- client seals its query key of 32 bytes under T(1) of RFC 5869, with the request ID as
    -- additional data, and asks for some phones that are words, with a nonce of 32 bytes and a query
    -- of less than 2^32 bytes that stands outside the enclave, not at NULL, and does not wrap: then
    -- sgxsd_enclave_server_call succeeds, under the laws of the cryptography.
    pub server_call-query_of :
        (header : MsgHeader) (address tag handle id : ℕ) (prk : Bytes)
        (s : Enclave p (cds_server c p t)) (state : ServerState)
        → length (id_bytes header.pending_request_id) ≡ pending_request_id_size
        → decrypt_id c s.pending_request_id_key header.pending_request_id ≡ ok id
        → stored s id ≡ some prk
        → s.node_initialized ≡ true
        → handle < max_servers
        → (desc handle s).valid ≡ true
        → (desc handle s).p_state ≡ some state
        → length state.query_phones + length phones ≤ state.capacity
        → (s.host.mem address, header.mac)
          ≡ seal c (rfc5869 c prk 1) header.iv (id_bytes header.pending_request_id) key
        → (server_call c p
            (cds_server c p t)
            (some query)
            (some header)
            (some address)
            (length (s.host.mem address))
            tag
            handle
            s).0
          ≡ ok tt
    server_call-query_of header address tag handle id prk s state aad e h init bound valid held room
          sealed =
        let sized : length (s.host.mem address) ≡ length key =
          ap (λ (r : Bytes × Bytes). length r.0) sealed
          ∙ length-seal c laws (rfc5869 c prk 1) header.iv (id_bytes header.pending_request_id)
              key in
        server_call-expected c p (cds_server c p t) laws (some query) header address tag handle id
          prk s aad e h init bound valid (λ z. absurd (omega arith)) (omega arith)
        ∙ ap (expected c p (cds_server c p t) (some query) header address tag prk s.host) held
        ∙ key_opened header address tag prk s.host state room sealed
