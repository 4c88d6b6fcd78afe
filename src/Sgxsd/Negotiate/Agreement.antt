-- ===== src/Sgxsd/Negotiate/Agreement.antt =====
-- What the client and the enclave share after sgxsd_enclave_negotiate_request.
use contact_discovery_servic.Prelude.{
  ◌≡◌, sym, ap, ◌∙◌, not, true, none, some, [], length, replicate, ok, lift, pure, gets, ◌>>=◌,
}
use contact_discovery_servic.Prelude.Monad.Triple.{
  NoError, OnOk-output, Triple, Triple-bind, Triple-fact, Triple-gets, Triple-passes,
}
use contact_discovery_servic.Sgxsd.Types.{
  Bytes, KeyPair, PendingRequest, PendingRequestId, NegotiationRequest, NegotiationResponse,
  EncryptedId, id_bytes, key_size,
}
use contact_discovery_servic.Sgxsd.Crypto.{Crypto, Laws}
use contact_discovery_servic.Sgxsd.AesGcm.{aes_gcm_encrypt, contents}
use contact_discovery_servic.Sgxsd.AesGcm.RoundTrip.{
  seal, unseal, unseal-seal, aes_gcm_encrypt_null_aad,
}
use contact_discovery_servic.Sgxsd.Sha256.{derive_request_keys}
use contact_discovery_servic.Sgxsd.Sha256.Rfc.{rfc5869, derive_request_keys_null}
use contact_discovery_servic.Sgxsd.Platform.{Platform, Server}
use contact_discovery_servic.Sgxsd.State.{Lock, Enclave, EnclaveM, with_lock}
use contact_discovery_servic.Sgxsd.Pending.{add_pending_request}
use contact_discovery_servic.Sgxsd.Pending.Table.{IsTable, stored}
use contact_discovery_servic.Sgxsd.Reply.{non_null}
use contact_discovery_servic.Sgxsd.Negotiate.Steps.{
  client_prk, public, IsPair, Commutes, request_prk-client_prk, IsKeyed, RandomWorks, IsAdded,
  generated, added,
}
use contact_discovery_servic.Sgxsd.Negotiate.{
  pending_request_id_size, zero_iv, local_id, local_key, request_prk, encrypt_response_id,
  negotiate_request,
}

module _ (c : Crypto) (p : Platform) (v : Server p) where
  module _ (l : Laws c) (works : RandomWorks c p v) where
    -- The response's encrypted ID opens under the key with which it was encrypted.
    response_id :
        (key : Bytes) (pid : PendingRequestId) (old : EncryptedId)
        → length (id_bytes pid) ≡ pending_request_id_size
        → length old.body ≡ pending_request_id_size
        → (e : EncryptedId) × (encrypt_response_id c key pid old ≡ ok e)
          × (unseal c key e.iv [] e.body e.mac ≡ some (id_bytes pid))
    unfolding encrypt_response_id
    response_id key pid old h h_old =
        let (ct, mac) = seal c key zero_iv [] (id_bytes pid) in
        let sealed =
          ap
            (λ n.
              aes_gcm_encrypt c (some key) (some (id_bytes pid)) n (some old.body) (some zero_iv)
                none 0 (some old.mac))
            (sym h)
          ∙ aes_gcm_encrypt_null_aad c l key zero_iv (id_bytes pid) old.mac old.body
              (h_old ∙ sym h) in
        (
          record { body = ct; iv = zero_iv; mac = mac },
          rw sealed,
          unseal-seal c l key zero_iv [] (id_bytes pid),
        )

    -- What a client with this private key finds: from the public keys of a response it computes a
    -- pseudo-random key, under T(2) of it and the IV of the response the encrypted ID of the response
    -- opens to a request ID, and under that ID the enclave holds the same pseudo-random key.
    abbrev pub IsShared : Bytes → NegotiationResponse → Enclave p v → Type 0
    IsShared a resp s =
        let prk =
          client_prk c a (public c a) resp.server_ephemeral_pubkey resp.server_static_pubkey in
        let e = resp.encrypted_pending_request_id in
        (pid : PendingRequestId) × (unseal c (rfc5869 c prk 2) e.iv [] e.body e.mac
          ≡ some (id_bytes pid))
        × IsAdded c p v prk pid s

    responded :
        (a : Bytes) (ephemeral static : KeyPair) (old : EncryptedId) (prk : Bytes)
        (pid : PendingRequestId)
        → length old.body ≡ pending_request_id_size
        → prk ≡ client_prk c a (public c a) ephemeral.pubkey static.pubkey
        → Triple NoError
            (IsAdded c p v prk pid)
            (lift (encrypt_response_id c (rfc5869 c prk 2) pid old) >>= (λ encrypted. pure (record {
              server_static_pubkey = static.pubkey;
              server_ephemeral_pubkey = ephemeral.pubkey;
              encrypted_pending_request_id = encrypted;
            })))
            (IsShared a)
    unfolding ◌>>=◌ stored
    responded a ephemeral static old prk pid h_old same = record {
      success = λ s h.
          let (e, answered, opens) = response_id (rfc5869 c prk 2) pid old (h.3) h_old in
          rw answered (
            pid,
            ap (λ k. unseal c (rfc5869 c k 2) e.iv [] e.body e.mac) (sym same) ∙ opens,
            (h.0, h.1, h.2 ∙ ap some same, h.3),
          );
    }

    static_keys :
        (k : KeyPair)
        → Triple NoError
            (λ s. (IsKeyed c p v) s × IsPair c k)
            (with_lock p v Lock.dh_keypair (gets (λ s. s.dh_keypair)))
            (λ st s. (IsKeyed c p v) s × (IsPair c k × IsPair c st))
    unfolding with_lock gets
    static_keys k = record { success = λ s h. (h.0, (h.1, h.0.2)) }

    shared :
        (a : Bytes) (ephemeral static : KeyPair) (old : EncryptedId)
        → Commutes c
        → length old.body ≡ pending_request_id_size
        → IsPair c ephemeral × IsPair c static
        → let prk = request_prk c ephemeral static (public c a) in
          let r : PendingRequest = record { id_val = 0; hkdf_prk = prk } in
          Triple NoError
            (IsKeyed c p v)
            (add_pending_request c p v local_id r >>= (λ pid.
              lift (
                encrypt_response_id c (contents (derive_request_keys c r none local_key).1) pid old)
              >>= (λ encrypted. pure (record {
                server_static_pubkey = static.pubkey;
                server_ephemeral_pubkey = ephemeral.pubkey;
                encrypted_pending_request_id = encrypted;
              }))))
            (IsShared a)
    shared a ephemeral static old dh h_old pairs =
        let prk = request_prk c ephemeral static (public c a) in
        let r : PendingRequest = record { id_val = 0; hkdf_prk = prk } in
        rw (derive_request_keys_null c l r (replicate key_size 0)) (
          Triple-bind _ _ (added c p v l works r) (λ pid.
            responded a ephemeral static old prk pid h_old
              (request_prk-client_prk c ephemeral static a dh (pairs.0) (pairs.1))))

    after_non_null :
        {A B : Type 0} {P : Enclave p v → Type 0} {Q : B → Enclave p v → Type 0} (x : A)
        (f : A → EnclaveM p v B)
        → Triple NoError P (f x) Q
        → Triple NoError P (non_null (some x) >>= f) Q
    unfolding non_null ◌>>=◌
    after_non_null x f h = record { success = h.success }

    pub negotiated :
        (a : Bytes) (response : NegotiationResponse)
        → Commutes c
        → length response.encrypted_pending_request_id.body ≡ pending_request_id_size
        → Triple NoError
            (IsKeyed c p v)
            (negotiate_request c p v (some (record { client_pubkey = public c a })) (some response))
            (IsShared a)
    unfolding negotiate_request
    negotiated a response dh h_old =
        Triple-bind {R = λ b s. (IsKeyed c p v) s × (b ≡ true)} _ _
          (Triple-gets _ (λ s h. (h, h.3)))
          (λ initialized.
            Triple-bind {R = λ u. (IsKeyed c p v)} _ _
              (Triple-passes _ _ (λ s h. (ap not (h.1), h.0)))
              (λ u. after_non_null _ _ (
                after_non_null _ _ (
                  Triple-bind _ _ (generated c p v works) (λ ephemeral.
                    Triple-bind _ _ (static_keys ephemeral) (λ static. Triple-fact (
                      shared a ephemeral static response.encrypted_pending_request_id dh
                        h_old)))))))

    -- For a client whose public key belongs to its private key `a`, server keys that are a pair, an
    -- initialized node, a table of the right size, a Diffie-Hellman function that commutes, an
    -- sgx_read_rand that succeeds with as many bytes as it is asked for, and a response struct whose
    -- encrypted ID has room for an ID: sgxsd_enclave_negotiate_request succeeds, and from the response
    -- the client computes the pseudo-random key that the enclave has stored, under a request ID to
    -- which the response's encrypted ID opens with T(2) of that key and the response's IV.
    -- This is under the laws of the cryptography.
    pub negotiate_request-IsShared :
        (a : Bytes) (response : NegotiationResponse) (s : Enclave p v)
        → Commutes c
        → length response.encrypted_pending_request_id.body ≡ pending_request_id_size
        → s.node_initialized ≡ true
        → IsTable s
        → IsPair c s.dh_keypair
        → let request : NegotiationRequest = record { client_pubkey = public c a } in
          let (r, s') = negotiate_request c p v (some request) (some response) s in
          (resp : NegotiationResponse) × (r ≡ ok resp) × IsShared a resp s'
    negotiate_request-IsShared a response s dh h_old init t pair =
        OnOk-output (IsShared a)
          (negotiate_request c p v (some (record { client_pubkey = public c a })) (some response) s)
          ((negotiated a response dh h_old).success s (t.sized, t.small, pair, init))
