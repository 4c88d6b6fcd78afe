-- ===== src/Sgxsd/Pending.antt =====
-- The table of pending requests of enclave/c_src/sgxsd-enclave.c:
-- sgxsd_enclave_add_pending_request, sgxsd_enclave_get_pending_request and
-- sgxsd_enclave_remove_pending_request.
pub mod Table
pub mod History
pub mod Ids
use contact_discovery_servic.Prelude.{
  ℕ, ◌+◌, ◌-◌, ◌%◌, ◌^◌, bit_and, ◌==◌, not, if◌then◌else◌, Option, none, some, get_or, set, M, ok,
  err, Result, lift, gets, ◌>>=◌, ◌>>◌,
}
use contact_discovery_servic.Sgxsd.Types.{
  Bytes, Status, unexpected, pending_request_not_found, is_success, PendingRequest,
  PendingRequestId, encode_le, decode_le, iv_size,
}
use contact_discovery_servic.Sgxsd.Crypto.{Crypto}
use contact_discovery_servic.Sgxsd.AesGcm.{GcmResult, contents, aes_gcm_encrypt, aes_gcm_decrypt}
use contact_discovery_servic.Sgxsd.Platform.{Platform, Server}
use contact_discovery_servic.Sgxsd.State.{Lock, State, Enclave, EnclaveM, with_lock, rand}
use contact_discovery_servic.Sgxsd.Node.{zero_request}

-- `sizeof(uint64_t)`
abbrev pub id_size : ℕ
id_size = 8

module _ {W S : Type 0} where
  -- `pending_request_count_mask`
  abbrev pub count_mask : State W S → ℕ
  count_mask s = 2 ^ s.pending_requests_table_order - 1

  -- The index of an ID's entry.
  abbrev pub slot : State W S → ℕ → ℕ
  slot s id = bit_and id (count_mask s)

  abbrev pub entry : State W S → ℕ → PendingRequest
  entry s id = get_or s.pending_requests (slot s id) zero_request

  -- The critical section of sgxsd_enclave_add_pending_request. The ID is a `uint64_t`.
  unfoldable pub insert_entry : PendingRequest → M Status (State W S) ℕ
  insert_entry r s =
      let id = (s.last_pending_request_id_val + 1) % 2 ^ 64 in
      let new = record r { id_val = id } in
      (
        ok id,
        record s {
          last_pending_request_id_val = id;
          pending_requests = set s.pending_requests (slot s id) new;
        },
      )

  -- The critical section of sgxsd_enclave_get_pending_request.
  unfoldable pub get_entry : ℕ → M Status (State W S) PendingRequest
  get_entry id s =
      if (entry s id).id_val == id then (ok (entry s id), s) else (err pending_request_not_found, s)

  -- The critical section of sgxsd_enclave_remove_pending_request.
  unfoldable pub take_entry : ℕ → M Status (State W S) PendingRequest
  take_entry id s =
      if (entry s id).id_val == id
      then (
        ok (entry s id),
        record s { pending_requests = set s.pending_requests (slot s id) zero_request },
      )
      else (err pending_request_not_found, s)

module _ (c : Crypto) where
  -- `out` is what the out parameter held before.
  unfoldable pub encrypt_id : Bytes → PendingRequestId → Bytes → ℕ → Result Status PendingRequestId
  encrypt_id key out iv id =
      let r =
        aes_gcm_encrypt c (some key) (some (encode_le id_size id)) id_size (some out.body) (some iv)
          none 0 (some out.mac) in
      if is_success r.status
      then ok (record { body = contents r.dst; iv = iv; mac = contents r.mac })
      else err unexpected

  unfoldable pub decrypt_id : Bytes → PendingRequestId → Result Status ℕ
  decrypt_id key id =
      let r =
        aes_gcm_decrypt c (some key) (some id.body) id_size (some (encode_le id_size 0))
          (some id.iv) none 0 (some id.mac) in
      if is_success r.status then ok (decode_le (contents r.dst)) else err r.status

module _ (c : Crypto) (p : Platform) (v : Server p) where
  unfoldable pub add_pending_request :
      PendingRequestId → PendingRequest → EnclaveM p v PendingRequestId
  add_pending_request out r = do
    id ← with_lock p v Lock.pending_requests (insert_entry r)
    iv ← rand p v iv_size
    key ← gets (λ s. s.pending_request_id_key)
    lift (encrypt_id c key out iv id)

  unfoldable pub get_pending_request : PendingRequestId → EnclaveM p v PendingRequest
  get_pending_request p_id = do
    key ← gets (λ s. s.pending_request_id_key)
    id ← lift (decrypt_id c key p_id)
    with_lock p v Lock.pending_requests (get_entry id)

  unfoldable pub remove_pending_request : PendingRequestId → EnclaveM p v PendingRequest
  remove_pending_request p_id = do
    key ← gets (λ s. s.pending_request_id_key)
    id ← lift (decrypt_id c key p_id)
    with_lock p v Lock.pending_requests (take_entry id)
