-- ===== src/Sgxsd/Servers/Delivery.antt =====
-- What a server is given by sgxsd_enclave_server_call.
use contact_discovery_servic.Prelude.{
  ℕ, ◌^◌, ◌<◌, ◌≡◌, ◌≢◌, refl, ap, ap₂, sym, ◌∙◌, true, Option, none, some, List, get_or, length,
  replicate, arith, ok, err, Result, rest, ◌>>=◌, bind-ok,
}
use native.Mathlib.Nat.{mod-eq_of_lt}
use contact_discovery_servic.Sgxsd.Types.{
  Bytes, Status, mac_mismatch, PendingRequest, PendingRequestId, MsgHeader, MsgBuf, MsgFrom,
  id_bytes, key_size,
}
use contact_discovery_servic.Sgxsd.Crypto.{Crypto, Laws}
use contact_discovery_servic.Sgxsd.AesGcm.{GcmResult, contents, aes_gcm_decrypt}
use contact_discovery_servic.Sgxsd.AesGcm.RoundTrip.{unseal, unsealed, aes_gcm_decrypt-unseal}
use contact_discovery_servic.Sgxsd.Sha256.Rfc.{rfc5869, derive_request_keys-rfc5869}
use contact_discovery_servic.Sgxsd.Platform.{Platform, Server, Host}
use contact_discovery_servic.Sgxsd.State.{
  Lock, acquire, max_servers, zero_desc, Enclave, with_lock, ServerStateDesc,
}
use contact_discovery_servic.Sgxsd.Pending.{decrypt_id, take_entry, remove_pending_request}
use contact_discovery_servic.Sgxsd.Pending.Table.{stored, take_entry-stored, answer}
use contact_discovery_servic.Sgxsd.Negotiate.{pending_request_id_size}
use contact_discovery_servic.Sgxsd.Reply.{store}
use contact_discovery_servic.Sgxsd.Servers.Descs.{valid-acquire_desc, p_state-acquire_desc}
use contact_discovery_servic.Sgxsd.Servers.Guards.{
  check_valid-bind, check_handle-bind, non_null-bind, message-bind,
}
use contact_discovery_servic.Sgxsd.Servers.{
  decrypt_status, desc, with_desc, acquire_desc, status_result, decrypt_message, handle_call,
  server_call_locked, server_call, deliver,
}

module _ (c : Crypto) (p : Platform) (v : Server p) where
  -- The callback's status for a message that was opened; without one, it is not called.
  unfoldable pub outcome :
      Option v.CallArgs
      → MsgBuf
      → MsgFrom
      → Option v.ServerState
      → Host p.World
      → Option Bytes
      → Result Status (Unit {0})
  outcome args msg from p_state host none = err mac_mismatch
  outcome args msg from p_state host (some plain) =
      status_result
        (v.server_handle_call args msg from p_state
          (record host { mem = store host.mem msg.buffer (some plain) })).0

  -- What a call for a request with this pseudo-random key returns: the message that stands at an
  -- address is opened under T(1), with its request ID as additional data, and given to the server
  -- with T(2) as the key for the reply.
  unfoldable pub expected :
      Option v.CallArgs
      → MsgHeader
      → ℕ
      → ℕ
      → Bytes
      → Host p.World
      → Option v.ServerState
      → Result Status (Unit {0})
  expected args header address tag prk host p_state =
      let ct = host.mem address in
      outcome args (record { buffer = some address; size = length ct })
        (record { valid = true; tag = tag; server_key = rfc5869 c prk 2 }) p_state host
        (unseal c (rfc5869 c prk 1) header.iv (id_bytes header.pending_request_id) ct header.mac)

  module _ (l : Laws c) where
    -- What is left of a call when its message was decrypted with this result.
    abbrev delivered :
        Option v.CallArgs
        → MsgBuf
        → MsgFrom
        → ℕ
        → ℕ
        → Enclave p v
        → GcmResult
        → Result Status (Unit {0})
    delivered args msg from address handle s g =
        (rest (decrypt_status c p v g.status) (λ _. handle_call c p v args msg from handle)
          (record s { host = record (s.host) { mem = store s.host.mem (some address) g.dst } })).0

    delivered-outcome :
        (args : Option v.CallArgs) (from : MsgFrom) (address n handle : ℕ) (s : Enclave p v)
        (mac : Bytes) (o : Option Bytes)
        → let msg : MsgBuf = record { buffer = some address; size = n } in
          delivered args msg from address handle s (unsealed c o n mac)
          ≡ outcome args msg from (desc handle s).p_state s.host o
    unfolding handle_call outcome
    delivered-outcome args from address n handle s mac none = refl
    delivered-outcome args from address n handle s mac (some plain) = refl

    opened :
        (key iv aad ct mac : Bytes)
        → length aad ≡ pending_request_id_size
        → aes_gcm_decrypt c
            (some key)
            (some ct)
            (length ct)
            (some ct)
            (some iv)
            (some aad)
            pending_request_id_size
            (some mac)
          ≡ unsealed c (unseal c key iv aad ct mac) (length ct) mac
    opened key iv aad ct mac h =
        ap
          (λ n.
            aes_gcm_decrypt c (some key) (some ct) (length ct) (some ct) (some iv) (some aad) n
              (some mac))
          (sym h)
        ∙ aes_gcm_decrypt-unseal c l key iv aad ct mac ct refl

    deliver-outcome :
        (args : Option v.CallArgs) (header : MsgHeader) (address tag handle : ℕ)
        (r : PendingRequest) (s : Enclave p v)
        → length (id_bytes header.pending_request_id) ≡ pending_request_id_size
        → (deliver c p v args header address (length (s.host.mem address)) tag handle r s).0
          ≡ expected args header address tag r.hkdf_prk s.host (desc handle s).p_state
    unfolding expected deliver decrypt_message ◌>>=◌
    deliver-outcome args header address tag handle r s aad =
        let ct = s.host.mem address in
        let keys =
          derive_request_keys-rfc5869 c l r (replicate key_size 0) (replicate key_size 0) in
        let from : Bytes → MsgFrom = λ key. record { valid = true; tag = tag; server_key = key } in
        let msg : MsgBuf = record { buffer = some address; size = length ct } in
        let key = rfc5869 c r.hkdf_prk 1 in
        ap
          (λ (ks : Option Bytes × Option Bytes).
            delivered args msg (from (contents ks.1)) address handle s (
              aes_gcm_decrypt c (some (contents ks.0)) (some ct) (length ct) (some ct)
                (some header.iv) (some (id_bytes header.pending_request_id)) pending_request_id_size
                (some header.mac)))
          keys
        ∙ ap (delivered args msg (from (rfc5869 c r.hkdf_prk 2)) address handle s)
            (opened key header.iv (id_bytes header.pending_request_id) ct header.mac aad)
        ∙ delivered-outcome args (from (rfc5869 c r.hkdf_prk 2)) address (length ct) handle s
            header.mac (unseal c key header.iv (id_bytes header.pending_request_id) ct header.mac)

    -- The removal changes neither the buffers, nor the servers.
    take_entry-rest :
        (id : ℕ) (s : Enclave p v)
        → ((take_entry id s).1.host ≡ s.host)
          × ((take_entry id s).1.server_states ≡ s.server_states)
    unfolding take_entry
    take_entry-rest id s = ground arith

    remove-stored :
        (pid : PendingRequestId) (id : ℕ) (prk : Bytes) (s : Enclave p v)
        → decrypt_id c s.pending_request_id_key pid ≡ ok id
        → stored s id ≡ some prk
        → let (r, s') = remove_pending_request c p v pid s in
          (r ≡ ok (record { id_val = id; hkdf_prk = prk }))
          × (s'.host ≡ s.host)
          × (s'.server_states ≡ s.server_states)
    unfolding remove_pending_request ◌>>=◌ with_lock stored
    remove-stored pid id prk s e h =
        let locked : Enclave p v = record s { locks = acquire Lock.pending_requests s.locks } in
        rw e (
          take_entry-stored locked id ∙ ap (answer id) h,
          (take_entry-rest id locked).0,
          (take_entry-rest id locked).1,
        )

    server_call_locked-expected :
        (args : Option v.CallArgs) (header : MsgHeader) (address tag handle id : ℕ) (prk : Bytes)
        (s : Enclave p v)
        → length (id_bytes header.pending_request_id) ≡ pending_request_id_size
        → decrypt_id c s.pending_request_id_key header.pending_request_id ≡ ok id
        → stored s id ≡ some prk
        → (desc handle s).valid ≡ true
        → let n = length (s.host.mem address) in
          n ≢ 0
          → n < 2 ^ 32
          → (server_call_locked c p v args (some header) (some address) n tag handle s).0
            ≡ expected args header address tag prk s.host (desc handle s).p_state
    unfolding server_call_locked
    server_call_locked-expected args header address tag handle id prk s aad e h valid ne small =
        let pid = header.pending_request_id in
        let n = length (s.host.mem address) in
        let s2 = (remove_pending_request c p v pid s).1 in
        let (got, same_host, same_servers) = remove-stored pid id prk s e h in
        let r : PendingRequest = record { id_val = id; hkdf_prk = prk } in
        let removed : remove_pending_request c p v pid s ≡ (ok r, s2) = ap (λ x. (x, s2)) got in
        rw
          (
            check_valid-bind handle _ s valid,
            non_null-bind header _ s,
            message-bind c p v address n _ s ne,
            bind-ok (remove_pending_request c p v pid) _ s s2 r removed,
            mod-eq_of_lt small,
          )
          (ap
              (λ (host : Host p.World).
                (deliver c p v args header address (length (host.mem address)) tag handle r s2).0)
              (sym same_host)
            ∙ deliver-outcome args header address tag handle r s2 aad
            ∙ ap₂
                (λ (host : Host p.World) (ds : List (ServerStateDesc v.ServerState)).
                  expected args header address tag prk host (get_or ds handle zero_desc).p_state)
                same_host same_servers)

    -- For a request ID of the right length that decrypts to an ID under which a pseudo-random key is
    -- stored, an initialized node, a running server, and a message of 1 to 2^32 - 1 bytes:
    -- sgxsd_enclave_server_call returns what the server's callback returns for the message opened
    -- under T(1) of RFC 5869, with the request ID as additional data, and with T(2) for the reply; if
    -- the message does not open it returns SGX_ERROR_MAC_MISMATCH.
    -- This is under the laws of the cryptography.
    pub server_call-expected :
        (args : Option v.CallArgs) (header : MsgHeader) (address tag handle id : ℕ) (prk : Bytes)
        (s : Enclave p v)
        → length (id_bytes header.pending_request_id) ≡ pending_request_id_size
        → decrypt_id c s.pending_request_id_key header.pending_request_id ≡ ok id
        → stored s id ≡ some prk
        → s.node_initialized ≡ true
        → handle < max_servers
        → (desc handle s).valid ≡ true
        → let n = length (s.host.mem address) in
          n ≢ 0
          → n < 2 ^ 32
          → (server_call c p v args (some header) (some address) n tag handle s).0
            ≡ expected args header address tag prk s.host (desc handle s).p_state
    unfolding server_call with_desc stored
    server_call-expected args header address tag handle id prk s aad e h init bound valid ne small =
        rw (check_handle-bind handle _ s init bound) (
          server_call_locked-expected args header address tag handle id prk (acquire_desc handle s)
            aad e h (valid-acquire_desc handle s valid) ne small
          ∙ ap (expected args header address tag prk s.host) (p_state-acquire_desc handle s valid))
