-- ===== src/Sgxsd/Servers.antt =====
-- The servers of enclave/c_src/sgxsd-enclave.c: sgxsd_enclave_server_start,
-- sgxsd_enclave_server_call, sgxsd_enclave_server_stop, sgxsd_enclave_ratelimit_fingerprint, each
-- with its function under the server's lock.
pub mod Delivery
pub mod Descs
pub mod Guards
pub mod Lifecycle
pub mod Replay
use contact_discovery_servic.Prelude.{
  ℕ, ◌%◌, ◌^◌, leb, ◌==◌, Bool, true, false, not, ◌||◌, if◌then◌else◌, is_none, Option, none, some,
  get_or, set, replicate, M, ok, err, Result, pure, fail, fail_if, gets, modify, ◌>>=◌, ◌>>◌,
}
use contact_discovery_servic.Sgxsd.Types.{
  Bytes, Status, success, unexpected, invalid_parameter, invalid_state, is_success, PendingRequest,
  PendingRequestId, MsgHeader, MsgBuf, MsgFrom, id_bytes,
}
use contact_discovery_servic.Sgxsd.Crypto.{Crypto}
use contact_discovery_servic.Sgxsd.AesGcm.{GcmResult, contents, aes_gcm_decrypt}
use contact_discovery_servic.Sgxsd.Sha256.{derive_request_keys}
use contact_discovery_servic.Sgxsd.Platform.{Platform, Server, Host}
use contact_discovery_servic.Sgxsd.State.{
  State, ServerStateDesc, zero_desc, max_servers, Enclave, EnclaveM,
}
use contact_discovery_servic.Sgxsd.Pending.{get_pending_request, remove_pending_request}
use contact_discovery_servic.Sgxsd.Negotiate.{pending_request_id_size, local_key}
use contact_discovery_servic.Sgxsd.Reply.{non_null, store, erase}

-- A callback's status as a result.
abbrev pub status_result : Status → Result Status (Unit {0})
status_result success = ok tt
status_result status = err status

module _ {W S : Type 0} where
  abbrev pub desc : ℕ → State W S → ServerStateDesc S
  desc handle s = get_or s.server_states handle zero_desc

  abbrev pub set_desc : ℕ → ServerStateDesc S → State W S → State W S
  set_desc handle d s = record s { server_states = set s.server_states handle d }

  abbrev pub acquire_desc : ℕ → State W S → State W S
  acquire_desc handle s =
      let d = desc handle s in
      record (set_desc handle (record d { lock = true }) s) {
        locks = record (s.locks) { stuck = s.locks.stuck || d.lock };
      }

  abbrev pub release_desc : ℕ → State W S → State W S
  release_desc handle s = set_desc handle (record (desc handle s) { lock = false }) s

  -- A body between `sgxsd_spin_lock(&p_state_desc->lock)` and the unlock.
  unfoldable pub with_desc : {A : Type 0} → ℕ → M Status (State W S) A → M Status (State W S) A
  with_desc handle m s = let (r, s') = m (acquire_desc handle s) in (r, release_desc handle s')

  -- The checks with which the four entry points begin.
  unfoldable pub check_handle : ℕ → M Status (State W S) (Unit {0})
  check_handle handle = do
    initialized ← gets (λ s. s.node_initialized)
    fail_if (not initialized) invalid_state
    fail_if (leb max_servers handle) invalid_parameter

  unfoldable pub check_valid : ℕ → M Status (State W S) (Unit {0})
  check_valid handle = do d ← gets (desc handle); fail_if (not d.valid) invalid_state

module _ (c : Crypto) (p : Platform) (v : Server p) where
  -- The callback writes `p_state_desc->p_state` whatever it returns.
  unfoldable pub server_start_locked : Option v.InitArgs → ℕ → EnclaveM p v (Unit {0})
  server_start_locked p_args handle s =
      let d = desc handle s in
      let (status, p_state, host) = v.server_init p_args d.p_state s.host in
      let d' = record d { valid = d.valid || is_success status; p_state = p_state } in
      if d.valid
      then (err invalid_state, s)
      else (status_result status, record (set_desc handle d' s) { host = host })

  unfoldable pub server_start : Option v.InitArgs → ℕ → EnclaveM p v (Unit {0})
  server_start p_args handle = do
    check_handle handle
    with_desc handle (server_start_locked p_args handle)

  -- `msg_data == NULL || msg_data_size == 0` is refused.
  unfoldable pub message : Option ℕ → ℕ → EnclaveM p v ℕ
  message none n = fail invalid_parameter
  message (some address) n = do fail_if (n == 0) invalid_parameter; pure address

  -- What a failed decryption is reported as.
  abbrev pub decrypt_status : Status → Result Status (Unit {0})
  decrypt_status success = ok tt
  decrypt_status invalid_parameter = err unexpected
  decrypt_status other_status = err other_status

  -- The callback, which may change the server's state, and the erasure of the message.
  unfoldable pub handle_call : Option v.CallArgs → MsgBuf → MsgFrom → ℕ → EnclaveM p v (Unit {0})
  handle_call p_args msg from handle s =
      let d = desc handle s in
      let (status, p_state, host) = v.server_handle_call p_args msg from d.p_state s.host in
      (
        status_result status,
        record (set_desc handle (record d { p_state = p_state }) s) {
          host = record host { mem = erase host.mem msg };
        },
      )

  unfoldable pub create_fingerprint :
      Option Bytes
      → Option v.CallArgs
      → MsgBuf
      → MsgFrom
      → Option Bytes
      → ℕ
      → EnclaveM p v (Option Bytes)
  create_fingerprint fingerprint_key call_args msg from fingerprint fingerprint_size s =
      let (status, fingerprint', host) =
        v.create_ratelimit_fingerprint fingerprint_key call_args msg from fingerprint
          fingerprint_size s.host in
      (
        if is_success status then ok fingerprint' else err status,
        record s { host = record host { mem = erase host.mem msg } },
      )

  unfoldable pub terminate : Option v.StopArgs → Option v.ServerState → EnclaveM p v (Unit {0})
  terminate p_args p_state s =
      let (status, host) = v.server_terminate p_args p_state s.host in
      (status_result status, record s { host = host })

  -- The two keys of a request; the copy of the request is then erased.
  abbrev pub client_key : PendingRequest → Bytes
  client_key r = contents (derive_request_keys c r local_key local_key).0

  abbrev pub server_key : PendingRequest → Bytes
  server_key r = contents (derive_request_keys c r local_key local_key).1

  -- The message of `n` bytes is decrypted in place, with the request ID as additional data.
  unfoldable pub decrypt_message : Bytes → MsgHeader → ℕ → ℕ → EnclaveM p v (Unit {0})
  decrypt_message key header address n s =
      let cell = some (s.host.mem address) in
      let r =
        aes_gcm_decrypt c (some key) cell n cell (some header.iv)
          (some (id_bytes header.pending_request_id)) pending_request_id_size (some header.mac) in
      let host = record (s.host) { mem = store s.host.mem (some address) r.dst } in
      (decrypt_status r.status, record s { host = host })

  -- sgxsd_enclave_server_call_locked once it has the request. Sizes are now `uint32_t`.
  unfoldable pub deliver :
      Option v.CallArgs → MsgHeader → ℕ → ℕ → ℕ → ℕ → PendingRequest → EnclaveM p v (Unit {0})
  deliver p_args header address n tag handle request = do
    decrypt_message (client_key request) header address n
    let from : MsgFrom = record { valid = true; tag = tag; server_key = server_key request }
    handle_call p_args (record { buffer = some address; size = n }) from handle

  unfoldable pub server_call_locked :
      Option v.CallArgs → Option MsgHeader → Option ℕ → ℕ → ℕ → ℕ → EnclaveM p v (Unit {0})
  server_call_locked p_args p_msg_header msg_data msg_data_size tag handle = do
    check_valid handle
    header ← non_null p_msg_header
    address ← message msg_data msg_data_size
    request ← remove_pending_request c p v header.pending_request_id
    deliver p_args header address (msg_data_size % 2 ^ 32) tag handle request

  unfoldable pub server_call :
      Option v.CallArgs → Option MsgHeader → Option ℕ → ℕ → ℕ → ℕ → EnclaveM p v (Unit {0})
  server_call p_args p_msg_header msg_data msg_data_size tag handle = do
    check_handle handle
    with_desc handle (server_call_locked p_args p_msg_header msg_data msg_data_size tag handle)

  -- The descriptor, lock included, is zeroed before the server's last callback.
  unfoldable pub server_stop_locked : Option v.StopArgs → ℕ → EnclaveM p v (Unit {0})
  server_stop_locked p_args handle = do
    check_valid handle
    d ← gets (desc handle)
    modify (set_desc handle zero_desc)
    terminate p_args d.p_state

  unfoldable pub server_stop : Option v.StopArgs → ℕ → EnclaveM p v (Unit {0})
  server_stop p_args handle = do
    check_handle handle
    with_desc handle (server_stop_locked p_args handle)

  unfoldable pub ratelimit_fingerprint_locked :
      Option Bytes
      → Option v.CallArgs
      → Option MsgHeader
      → Option ℕ
      → ℕ
      → ℕ
      → ℕ
      → Option Bytes
      → ℕ
      → EnclaveM p v (Option Bytes)
  ratelimit_fingerprint_locked fingerprint_key call_args p_msg_header msg_data msg_data_size tag
        handle fingerprint fingerprint_size =
      do
        check_valid handle
        header ← non_null p_msg_header
        address ← message msg_data msg_data_size
        request ← get_pending_request c p v header.pending_request_id
        let n = msg_data_size % 2 ^ 32
        decrypt_message (client_key request) header address n
        let from : MsgFrom = record { valid = true; tag = tag; server_key = server_key request }
        create_fingerprint fingerprint_key call_args (record { buffer = some address; size = n })
            from fingerprint fingerprint_size

  unfoldable pub ratelimit_fingerprint :
      Option Bytes
      → Option v.CallArgs
      → Option MsgHeader
      → Option ℕ
      → ℕ
      → ℕ
      → ℕ
      → Option Bytes
      → ℕ
      → EnclaveM p v (Option Bytes)
  ratelimit_fingerprint fingerprint_key call_args p_msg_header msg_data msg_data_size tag handle
        fingerprint fingerprint_size =
      do
        check_handle handle
        with_desc handle (
            ratelimit_fingerprint_locked fingerprint_key call_args p_msg_header msg_data
              msg_data_size tag handle fingerprint fingerprint_size)
