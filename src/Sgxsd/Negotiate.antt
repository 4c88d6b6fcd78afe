-- ===== src/Sgxsd/Negotiate.antt =====
-- sgxsd_enclave_negotiate_request of enclave/c_src/sgxsd-enclave.c.
pub mod Agreement
pub mod Steps
use contact_discovery_servic.Prelude.{
  ℕ, not, if◌then◌else◌, Option, none, some, [], ◌∷◌, replicate, ok, err, Result, lift, pure,
  fail_if, gets, ◌>>=◌, ◌>>◌,
}
use contact_discovery_servic.Sgxsd.Types.{
  Bytes, Status, unexpected, invalid_state, is_success, KeyPair, PendingRequest, PendingRequestId,
  NegotiationRequest, NegotiationResponse, EncryptedId, id_bytes, iv_size, mac_size, key_size,
}
use contact_discovery_servic.Sgxsd.Crypto.{Crypto}
use contact_discovery_servic.Sgxsd.AesGcm.{contents, aes_gcm_encrypt}
use contact_discovery_servic.Sgxsd.Sha256.{sha256, hmac_sha256, derive_request_keys}
use contact_discovery_servic.Sgxsd.Platform.{Platform, Server}
use contact_discovery_servic.Sgxsd.State.{Lock, EnclaveM, with_lock}
use contact_discovery_servic.Sgxsd.Keys.{generate_curve25519_keypair}
use contact_discovery_servic.Sgxsd.Pending.{id_size, add_pending_request}
use contact_discovery_servic.Sgxsd.Reply.{non_null}

-- `sizeof(sgxsd_pending_request_id_t)`
abbrev pub pending_request_id_size : ℕ
pending_request_id_size = 36

abbrev pub zero_iv : Bytes
zero_iv = replicate iv_size 0

-- A local key, and a local ID: what they hold before they are written is not read.
abbrev pub local_key : Option Bytes
local_key = some (replicate key_size 0)

abbrev pub local_id : PendingRequestId
local_id = record {
  body = replicate id_size 0;
  iv = replicate iv_size 0;
  mac = replicate mac_size 0;
}

module _ (c : Crypto) where
  -- The pseudo-random key, from the server's two key pairs and the client's public key.
  unfoldable pub request_prk : KeyPair → KeyPair → Bytes → Bytes
  request_prk server_ephemeral server_static client_pubkey =
      let ephemeral_dh_key = c.curve25519_donna server_ephemeral.privkey client_pubkey in
      let static_dh_key = c.curve25519_donna server_static.privkey client_pubkey in
      let hkdf_salt =
        sha256 c (client_pubkey ∷ server_ephemeral.pubkey ∷ server_static.pubkey ∷ []) in
      hmac_sha256 c hkdf_salt (ephemeral_dh_key ∷ static_dh_key ∷ [])

  -- The request ID under the server's sending key, over what the response held.
  unfoldable pub encrypt_response_id :
      Bytes → PendingRequestId → EncryptedId → Result Status EncryptedId
  encrypt_response_id key id old =
      let r =
        aes_gcm_encrypt c (some key) (some (id_bytes id)) pending_request_id_size (some old.body)
          (some zero_iv) none 0 (some old.mac) in
      if is_success r.status
      then ok (record { body = contents r.dst; iv = zero_iv; mac = contents r.mac })
      else err unexpected

module _ (c : Crypto) (p : Platform) (v : Server p) where
  -- The response is that of a success. An error leaves in `*p_response` at most the IV, as zeros.
  unfoldable pub negotiate_request :
      Option NegotiationRequest → Option NegotiationResponse → EnclaveM p v NegotiationResponse
  negotiate_request p_request p_response = do
    initialized ← gets (λ s. s.node_initialized)
    fail_if (not initialized) invalid_state
    request ← non_null p_request
    response ← non_null p_response
    server_ephemeral ← generate_curve25519_keypair c p v
    server_static ← with_lock p v Lock.dh_keypair (gets (λ s. s.dh_keypair))
    let prk = request_prk c server_ephemeral server_static request.client_pubkey
    let pending_request : PendingRequest = record { id_val = 0; hkdf_prk = prk }
    let keys = derive_request_keys c pending_request none local_key
    pending_request_id ← add_pending_request c p v local_id pending_request
    encrypted ← lift (
        encrypt_response_id c (contents keys.1) pending_request_id
          response.encrypted_pending_request_id)
    pure (record {
      server_static_pubkey = server_static.pubkey;
      server_ephemeral_pubkey = server_ephemeral.pubkey;
      encrypted_pending_request_id = encrypted;
    })
