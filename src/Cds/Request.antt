-- ===== src/Cds/Request.antt =====
-- The decoding of a request, in enclave/cds_enclave/src/service/main.rs, with the structs of
-- enclave/include/cds.h and what it calls of enclave/sgx_ffi/src/untrusted_slice.rs and
-- enclave/sgxsd_ffi/src/lib.rs.
pub mod Decoding
pub mod RoundTrip
use contact_discovery_servic.Prelude.{
  ℕ, zero, suc, ◌+◌, ◌-◌, ◌/◌, ◌%◌, ◌^◌, ltb, leb, ◌==◌, Bool, true, false, not, ◌&&◌, ◌||◌,
  is_none, if◌then◌else◌, Option, none, some, List, [], ◌∷◌, length, take, drop, Result, ok, err,
  ok_or, and_then,
}
use contact_discovery_servic.Sgxsd.Types.{
  Bytes, Status, invalid_parameter, other, is_success, key_size, decode_le,
}
use contact_discovery_servic.Sgxsd.Crypto.{Crypto}
use contact_discovery_servic.Sgxsd.AesGcm.{GcmResult, contents, aes_gcm_decrypt}
use contact_discovery_servic.Edl.Frame.{Pointer}

-- `cds_status_code_t`
abbrev pub invalid_request_size : Status
invalid_request_size = other 0x20001

abbrev pub query_commitment_mismatch : Status
query_commitment_mismatch = other 0x20002

abbrev pub bytes_per_phone : ℕ
bytes_per_phone = 8

abbrev pub commitment_nonce_size : ℕ
commitment_nonce_size = 32

-- `buffer` is the field `data`. A pointer comes with what stands there; the address of NULL is 0.
pub record EncryptedMsg : Type 0 where
  pub iv : Bytes
  pub mac : Bytes
  pub size : ℕ
  pub buffer : Pointer Bytes

-- The arguments of a call, less the three about rate limits, which nothing reads.
pub record CallArgs : Type 0 where
  pub query_phone_count : ℕ
  pub query : EncryptedMsg
  pub query_commitment : Bytes

-- `UntrustedSlice`, of what stands there and a size in bytes.
pub data UntrustedSlice (A : Type 0) : Type 0 where
  non_empty : Pointer A → ℕ → UntrustedSlice A
  empty : UntrustedSlice A

-- `UntrustedSlice::new`, with `none` for an error: of the test for memory outside the enclave.
unfoldable pub new_slice : {A : Type 0} → (ℕ → ℕ → Bool) → Pointer A → ℕ → Option (UntrustedSlice A)
new_slice sgx_is_outside_enclave q size =
    if (size == 0) || (q.address == 0)
    then some empty
    else if not (sgx_is_outside_enclave q.address size)
    then none
    else if ltb ((q.address + size) % 2 ^ 64) q.address
    then none
    else some (non_empty q size)

unfoldable pub read_bytes : UntrustedSlice Bytes → ℕ → Option Bytes
read_bytes (non_empty q size) read_count =
    if leb read_count size then some (take read_count q.target) else none
read_bytes empty read_count = if read_count == 0 then some [] else none

-- `RequestPhoneList`: the phones behind the nonce, of eight bytes each.
unfoldable pub decode_phones : Bytes → List ℕ
decode_phones (b0 ∷ b1 ∷ b2 ∷ b3 ∷ b4 ∷ b5 ∷ b6 ∷ b7 ∷ bytes) =
    decode_le (b0 ∷ b1 ∷ b2 ∷ b3 ∷ b4 ∷ b5 ∷ b6 ∷ b7 ∷ []) ∷ decode_phones bytes
decode_phones _ = []

abbrev pub request_phones : Bytes → List ℕ
request_phones bytes = decode_phones (drop commitment_nonce_size bytes)

-- Equality of byte arrays.
abbrev pub same_bytes : Bytes → Bytes → Bool
same_bytes [] [] = true
same_bytes [] (b ∷ bs) = false
same_bytes (a ∷ rest) [] = false
same_bytes (a ∷ rest) (b ∷ bs) = (a == b) && same_bytes rest bs

module _ (c : Crypto) where
  -- `AesGcmKey::new` and `AesGcmKey::decrypt`, without additional data.
  unfoldable pub decrypt_query : Bytes → EncryptedMsg → Bytes → Result Status Bytes
  decrypt_query key query bytes =
      if not (length key == key_size)
      then err invalid_parameter
      else if leb (2 ^ 32) (length bytes)
      then err invalid_parameter
      else (let r =
            aes_gcm_decrypt c (some key) (some bytes) (length bytes) (some bytes) (some query.iv)
              (some []) 0 (some query.mac) in
          if is_success r.status then ok (contents r.dst) else err r.status)

  unfoldable pub verify_commitment : Bytes → Bytes → Result Status (Unit {0})
  verify_commitment bytes expected_commitment =
      if same_bytes (c.sha256_out (c.sha256_update c.sha256_init bytes)) expected_commitment
      then ok tt
      else err query_commitment_mismatch

  -- The sizes of the key and of the query are refused.
  abbrev pub bad_sizes : CallArgs → Bytes → Bytes → Bool
  bad_sizes args request_data bytes =
      let query_phones_data_len = length bytes - commitment_nonce_size in
      not (length request_data == key_size)
      || not (query_phones_data_len % bytes_per_phone == 0)
      || not (query_phones_data_len / bytes_per_phone == args.query_phone_count)

  -- The rest of decode_phone_list, once the query was read.
  unfoldable pub decode_bytes : CallArgs → Bytes → Bytes → Result Status (List ℕ)
  decode_bytes args request_data bytes =
      if ltb (length bytes) commitment_nonce_size
      then err invalid_request_size
      else if bad_sizes args request_data bytes
      then err invalid_request_size
      else and_then (decrypt_query request_data args.query bytes) (λ opened.
        and_then (verify_commitment opened args.query_commitment) (λ _. ok (request_phones opened)))

  module _ (sgx_is_outside_enclave : ℕ → ℕ → Bool) where
    unfoldable pub decode_phone_list : CallArgs → Bytes → Result Status (List ℕ)
    decode_phone_list args request_data =
        let query = args.query in
        and_then
          (ok_or invalid_parameter (new_slice sgx_is_outside_enclave query.buffer query.size))
          (λ query_data_slice.
            and_then (ok_or invalid_parameter (read_bytes query_data_slice query.size))
              (λ bytes. decode_bytes args request_data bytes))
