-- ===== src/Cds/Server.antt =====
-- The service as the server of the enclave: the module external of
-- enclave/cds_enclave/src/lib.rs, over the functions of enclave/sgxsd_ffi/src/ecalls.rs.
pub mod Acceptance
use contact_discovery_servic.Prelude.{
  ℕ, Bool, zero, suc, ◌+◌, leb, ◌==◌, if◌then◌else◌, Option, none, some, List, [], ◌∷◌, length,
  take, set, get_or, Result, ok, err,
}
use contact_discovery_servic.Sgxsd.Types.{
  Bytes, Status, success, invalid_parameter, PendingRequestId, MsgBuf, MsgFrom, encode_le,
}
use contact_discovery_servic.Sgxsd.Crypto.{Crypto}
use contact_discovery_servic.Sgxsd.Platform.{Platform, Host, Server}
use contact_discovery_servic.Sgxsd.Reply.{store, server_reply, server_noreply}
use contact_discovery_servic.Cds.HashKey.{Instructions}
use contact_discovery_servic.Cds.Request.{CallArgs, decode_phone_list}
use contact_discovery_servic.Cds.Service.{
  StartArgs, StopArgs, ServerState, Outcome, returned, panicked, undefined, Replies, init,
  handle_call, terminate_self,
}

abbrev pub code_of : {A : Type 0} → Result Status A → Status
code_of (ok a) = success
code_of (err e) = e

-- `ECallSlice`
abbrev pub message_bytes : (ℕ → Bytes) → MsgBuf → Bytes
message_bytes mem msg = elim msg.buffer [ none ↦ [] | some address ↦ take msg.size (mem address) ]

-- The fingerprint of each phone is the first byte of its HMAC, which BearSSL computes.
unfoldable pub write_fingerprint : (Bytes → Bytes) → ℕ → ℕ → List ℕ → Bytes → Status × Bytes
write_fingerprint hmac i fingerprint_size [] fingerprint = (success, fingerprint)
write_fingerprint hmac i fingerprint_size (phone ∷ phones) fingerprint =
    let byte = get_or (hmac (encode_le 8 phone)) 0 0 in
    let rest = write_fingerprint hmac (i + 1) fingerprint_size phones (set fingerprint i byte) in
    if leb fingerprint_size i then (invalid_parameter, fingerprint) else rest

-- What the server takes besides the platform: the instructions, the capacity that a vector gets, the
-- HMAC of a key and a message, where the message of a reply stands, what the local header of a reply
-- holds at first, whether memset_s fails for a number of bytes, and what a read through NULL and a
-- panic do.
pub record Runtime (p : Platform) : Type 1 where
  pub instructions : Instructions (Host p.World)
  pub with_capacity : ℕ → ℕ
  pub hmac_sha256 : Bytes → Bytes → Bytes
  pub reply_address : ℕ
  pub stack : PendingRequestId
  pub memset_s : ℕ → Bool
  pub fault : Host p.World → Status × Host p.World

module _ (c : Crypto) (p : Platform) (t : Runtime p) where
  abbrev pub enclave_replies : Replies (Host p.World)
  enclave_replies = record {
    server_reply = λ msg sender h.
        let at : Host p.World = record h { mem = store h.mem (some t.reply_address) (some msg) } in
        let (r, from, h') =
          server_reply c p t.stack (record { buffer = some t.reply_address; size = length msg })
            (some sender) at in
        (code_of r, h');
    server_noreply =
        λ sender h. let (r, from, h') = server_noreply c p (some sender) h in (code_of r, h');
  }

  -- A state that could not be made leaves what was there.
  unfoldable pub enclave_server_init :
      Option StartArgs
      → Option ServerState
      → Host p.World
      → Status × Option ServerState × Host p.World
  enclave_server_init args before h = elim (init t.with_capacity args) [
    | ok state ↦ (success, some state, h)
    | err e ↦ (e, before, h)
  ]

  -- The server's own copy of the sender is kept or forgotten; the caller's has no use any more.
  unfoldable pub enclave_server_handle_call :
      Option CallArgs
      → MsgBuf
      → MsgFrom
      → Option ServerState
      → Host p.World
      → Status × Option ServerState × Host p.World
  enclave_server_handle_call args msg sender none h = let (e, h') = t.fault h in (e, none, h')
  enclave_server_handle_call args msg sender (some state) h =
      let (r, state') =
        handle_call c p.sgx_is_outside_enclave args (message_bytes h.mem msg) sender state in
      (code_of r, some state', h)

  unfoldable pub enclave_server_terminate :
      Option StopArgs → Option ServerState → Host p.World → Status × Host p.World
  enclave_server_terminate args none h = t.fault h
  enclave_server_terminate args (some state) h =
      let (outcome, h') =
        terminate_self enclave_replies t.instructions p.sgx_is_outside_enclave t.memset_s args state
          h in
      elim outcome [ returned r ↦ (code_of r, h') | panicked ↦ t.fault h' | undefined ↦ t.fault h' ]

  unfoldable pub enclave_create_fingerprint :
      Option Bytes
      → Option CallArgs
      → MsgBuf
      → MsgFrom
      → Option Bytes
      → ℕ
      → Host p.World
      → Status × Option Bytes × Host p.World
  enclave_create_fingerprint (some key) (some args) msg sender (some fingerprint) size h =
      elim (decode_phone_list c p.sgx_is_outside_enclave args (message_bytes h.mem msg)) [
        | err e ↦ (e, some fingerprint, h)
        | ok phones ↦
            (let (status, bytes) =
                write_fingerprint (t.hmac_sha256 key) 0 size phones fingerprint in
              (status, some bytes, h))
      ]
  enclave_create_fingerprint key args msg sender fingerprint size h =
      let (e, h') = t.fault h in (e, fingerprint, h')

  abbrev pub cds_server : Server p
  cds_server = record {
    ServerState = ServerState;
    InitArgs = StartArgs;
    CallArgs = CallArgs;
    StopArgs = StopArgs;
    server_init = enclave_server_init;
    server_handle_call = enclave_server_handle_call;
    server_terminate = enclave_server_terminate;
    create_ratelimit_fingerprint = enclave_create_fingerprint;
  }
