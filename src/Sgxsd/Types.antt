-- ===== src/Sgxsd/Types.antt =====
-- The types and constants of enclave/include/sgxsd.h and enclave/include/sgxsd-enclave.h.
-- A `uint8_t` array is the list of its bytes.
use contact_discovery_servic.Prelude.{
  ℕ, zero, suc, ◌+◌, ◌*◌, ◌/◌, ◌%◌, Bool, true, false, Option, List, [], ◌∷◌, ◌++◌,
}

abbrev pub Bytes : Type 0
Bytes = List ℕ

abbrev pub iv_size : ℕ
iv_size = 12

abbrev pub mac_size : ℕ
mac_size = 16

abbrev pub key_size : ℕ
key_size = 32

abbrev pub curve25519_key_size : ℕ
curve25519_key_size = 32

abbrev pub hash_size : ℕ
hash_size = 32

-- `sgx_status_t`: the codes that the file names, and any other that a callee returns.
pub data Status : Type 0 where
  success unexpected invalid_parameter out_of_memory invalid_state mac_mismatch : Status
  pending_request_not_found : Status
  other : ℕ → Status

abbrev pub is_success : Status → Bool
is_success success = true
is_success _ = false

-- A `uint64_t` in memory, lowest byte first.
abbrev pub encode_le : ℕ → ℕ → Bytes
encode_le zero x = []
encode_le (suc n) x = x % 256 ∷ encode_le n (x / 256)

abbrev pub decode_le : Bytes → ℕ
decode_le [] = 0
decode_le (b ∷ bs) = b + 256 * decode_le bs

pub record KeyPair : Type 0 where
  pub privkey : Bytes
  pub pubkey : Bytes

pub record PendingRequest : Type 0 where
  pub id_val : ℕ
  pub hkdf_prk : Bytes

-- `body` is the field `data`.
pub record PendingRequestId : Type 0 where
  pub body : Bytes
  pub iv : Bytes
  pub mac : Bytes

pub record NegotiationRequest : Type 0 where
  pub client_pubkey : Bytes

pub record EncryptedId : Type 0 where
  pub body : Bytes
  pub iv : Bytes
  pub mac : Bytes

pub record NegotiationResponse : Type 0 where
  pub server_static_pubkey : Bytes
  pub server_ephemeral_pubkey : Bytes
  pub encrypted_pending_request_id : EncryptedId

pub record MsgHeader : Type 0 where
  pub iv : Bytes
  pub mac : Bytes
  pub pending_request_id : PendingRequestId

pub record NodeInitArgs : Type 0 where
  pub pending_requests_table_order : ℕ

-- `buffer` is the pointer `data`, with `none` for NULL.
pub record MsgBuf : Type 0 where
  pub buffer : Option ℕ
  pub size : ℕ

pub record MsgFrom : Type 0 where
  pub valid : Bool
  pub tag : ℕ
  pub server_key : Bytes

-- The bytes of a `sgxsd_pending_request_id_t` in memory: its fields in order, with no padding.
abbrev pub id_bytes : PendingRequestId → Bytes
id_bytes p = p.body ++ p.iv ++ p.mac
