-- ===== src/Sgxsd/Negotiate/Steps.antt =====
-- The steps of sgxsd_enclave_negotiate_request before its response: the pseudo-random key, the key
-- pairs, the pending request.
use contact_discovery_servic.Prelude.{
  ℕ, ◌+◌, ◌%◌, ◌^◌, ◌≤◌, ◌<◌, ◌≡◌, refl, ◌∙◌, ◌==◌, ==_iff, true, some, [], ◌∷◌, arith, length, ok,
  lift, gets, ◌>>=◌,
}
use native.Mathlib.Nat.{mod-lt}
use contact_discovery_servic.Prelude.Monad.Triple.{NoError, Triple, Triple-bind, Triple-pure}
use contact_discovery_servic.Sgxsd.Types.{
  Bytes, KeyPair, PendingRequest, PendingRequestId, id_bytes, success, iv_size, curve25519_key_size,
}
use contact_discovery_servic.Sgxsd.Crypto.{Crypto, Laws}
use contact_discovery_servic.Sgxsd.Sha256.{sha256, hmac_sha256}
use contact_discovery_servic.Sgxsd.Platform.{Platform, Server}
use contact_discovery_servic.Sgxsd.State.{Lock, acquire, Enclave, with_lock, rand}
use contact_discovery_servic.Sgxsd.Keys.{
  basepoint, mix_rand, read_rand, generate_curve25519_keypair,
}
use contact_discovery_servic.Sgxsd.Pending.{
  insert_entry, encrypt_id, decrypt_id, add_pending_request,
}
use contact_discovery_servic.Sgxsd.Pending.Table.{stored, stored-insert_entry}
use contact_discovery_servic.Sgxsd.Pending.Ids.{
  encrypt_id-sealed_id, decrypt_id-sealed_id, length-id_bytes,
}
use contact_discovery_servic.Sgxsd.Negotiate.{pending_request_id_size, local_id, request_prk}

module _ (c : Crypto) where
  -- The pseudo-random key as the client computes it, from its private key and the server's two public
  -- keys.
  unfoldable pub client_prk : Bytes → Bytes → Bytes → Bytes → Bytes
  client_prk client_privkey client_pubkey ephemeral_pubkey static_pubkey =
      let ephemeral_dh_key = c.curve25519_donna client_privkey ephemeral_pubkey in
      let static_dh_key = c.curve25519_donna client_privkey static_pubkey in
      let hkdf_salt = sha256 c (client_pubkey ∷ ephemeral_pubkey ∷ static_pubkey ∷ []) in
      hmac_sha256 c hkdf_salt (ephemeral_dh_key ∷ static_dh_key ∷ [])

  -- The public key of a private one; a pair of keys; the law of Diffie and Hellman.
  abbrev pub public : Bytes → Bytes
  public privkey = c.curve25519_donna privkey basepoint

  abbrev pub IsPair : KeyPair → Type 0
  IsPair k = k.pubkey ≡ public k.privkey

  abbrev pub Commutes : Type 0
  Commutes = (a b : Bytes) → c.curve25519_donna a (public b) ≡ c.curve25519_donna b (public a)

  pub request_prk-client_prk :
      (ephemeral static : KeyPair) (a : Bytes)
      → Commutes
      → IsPair ephemeral
      → IsPair static
      → request_prk c ephemeral static (public a)
        ≡ client_prk a (public a) ephemeral.pubkey static.pubkey
  unfolding request_prk client_prk
  request_prk-client_prk ephemeral static a dh e s =
      rw (e, s, dh ephemeral.privkey a, dh static.privkey a)

module _ (c : Crypto) (p : Platform) (v : Server p) where
  -- The table is right, the server's static keys are a pair, and the node is initialized.
  abbrev pub IsKeyed : Enclave p v → Type 0
  IsKeyed s =
      (length s.pending_requests ≡ 2 ^ s.pending_requests_table_order)
      × (s.pending_requests_table_order ≤ 63)
      × IsPair c s.dh_keypair
      × (s.node_initialized ≡ true)

  -- `sgx_read_rand` succeeds and gives as many bytes as it is asked for.
  abbrev pub RandomWorks : Type 0
  RandomWorks =
      (n : ℕ) (w : p.World)
      → ((p.sgx_read_rand n w).0 ≡ success) × (length (p.sgx_read_rand n w).1 ≡ n)

  -- Under the ID that a request got, its pseudo-random key is stored.
  abbrev pub IsAdded : Bytes → PendingRequestId → Enclave p v → Type 0
  IsAdded prk pid s =
      (id : ℕ) × (decrypt_id c s.pending_request_id_key pid ≡ ok id)
      × (stored s id ≡ some prk)
      × (length (id_bytes pid) ≡ pending_request_id_size)

  -- A request that was just put into the table under an ID.
  abbrev pub IsInserted : Bytes → ℕ → Enclave p v → Type 0
  IsInserted prk id s = (id < 2 ^ 64) × (stored s id ≡ some prk)

  pub inserted :
      (r : PendingRequest)
      → Triple NoError IsKeyed
          (with_lock p v Lock.pending_requests (insert_entry r))
          (IsInserted r.hkdf_prk)
  unfolding with_lock stored insert_entry
  inserted r = record {
    success = λ s h.
        let locked : Enclave p v = record s { locks = acquire Lock.pending_requests s.locks } in
        let id : ℕ = (s.last_pending_request_id_val + 1) % 2 ^ 64 in
        let self : (id == id) ≡ true = (==_iff id id).1 refl in
        (
          mod-lt (s.last_pending_request_id_val + 1) (omega arith),
          (stored-insert_entry locked r id (record { sized = h.0; small = h.1 })).1 ∙ rw self,
        );
  }

  module _ (works : RandomWorks) where
    rand_keeps : (n : ℕ) → Triple NoError IsKeyed (rand p v n) (λ x. IsKeyed)
    unfolding rand
    rand_keeps n = record { success = λ s h. rw ((works n s.host.world).0) h }

    mix_rand_keeps :
        (k : Lock) (x : Bytes)
        → Triple NoError IsKeyed (with_lock p v k (mix_rand c p v x)) (λ y. IsKeyed)
    unfolding with_lock mix_rand
    mix_rand_keeps k x = record { success = λ s h. h }

    pub generated :
        Triple NoError IsKeyed (generate_curve25519_keypair c p v) (λ k s. IsKeyed s × IsPair c k)
    unfolding generate_curve25519_keypair read_rand
    generated =
        Triple-bind (read_rand c p v) _
          (Triple-bind _ _ (rand_keeps curve25519_key_size) (λ x. mix_rand_keeps Lock.read_rand x))
          (λ x. Triple-pure _ (λ s h. (h, refl)))

    random_iv :
        (prk : Bytes) (id : ℕ)
        → Triple NoError
            (IsInserted prk id)
            (rand p v iv_size)
            (λ iv s. IsInserted prk id s × (length iv ≡ iv_size))
    unfolding rand stored
    random_iv prk id = record {
      success = λ s h. rw ((works iv_size s.host.world).0) (h, (works iv_size s.host.world).1);
    }

  module _ (l : Laws c) (works : RandomWorks) where
    encrypted :
        (prk : Bytes) (id : ℕ) (iv : Bytes)
        → Triple NoError
            (λ s. IsInserted prk id s × (length iv ≡ iv_size))
            (gets (λ s. s.pending_request_id_key)
              >>= (λ key. lift (encrypt_id c key local_id iv id)))
            (IsAdded prk)
    unfolding ◌>>=◌ stored
    encrypted prk id iv = record {
      success = λ s h. rw (encrypt_id-sealed_id c l s.pending_request_id_key iv local_id id refl) (
        id,
        decrypt_id-sealed_id c l s.pending_request_id_key iv id (h.0.0),
        h.0.1,
        length-id_bytes c l s.pending_request_id_key iv id (h.1),
      );
    }

    pub added :
        (r : PendingRequest)
        → Triple NoError IsKeyed (add_pending_request c p v local_id r) (IsAdded r.hkdf_prk)
    unfolding add_pending_request
    added r =
        Triple-bind _ _ (inserted r)
          (λ id. Triple-bind _ _ (random_iv works r.hkdf_prk id) (λ iv. encrypted r.hkdf_prk id iv))
