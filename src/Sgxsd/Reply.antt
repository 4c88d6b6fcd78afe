-- ===== src/Sgxsd/Reply.antt =====
-- sgxsd_enclave_server_reply and sgxsd_enclave_server_noreply of enclave/c_src/sgxsd-enclave.c,
-- which a server's callbacks call. They touch the buffers and the world only.
pub mod Sealing
use contact_discovery_servic.Prelude.{
  ℕ, bit_or, ◌==◌, false, not, ◌&&◌, if◌then◌else◌, is_none, Option, none, some, get_or, set,
  replicate, Result, M, ok, err, fail_if, ◌>>=◌, ◌>>◌,
}
use contact_discovery_servic.Sgxsd.Types.{
  Bytes, Status, unexpected, invalid_parameter, invalid_state, is_success, PendingRequestId,
  MsgHeader, MsgBuf, MsgFrom, iv_size, mac_size, key_size,
}
use contact_discovery_servic.Sgxsd.Crypto.{Crypto}
use contact_discovery_servic.Sgxsd.AesGcm.{contents, overwrite, aes_gcm_encrypt}
use contact_discovery_servic.Sgxsd.Platform.{Platform, Host}
use contact_discovery_servic.Edl.Ocall.{HostM, set_world, ocall_reply}

-- A buffer's content, `none` for NULL.
abbrev pub content : (ℕ → Bytes) → Option ℕ → Option Bytes
content mem none = none
content mem (some address) = some (mem address)

-- The memory with new content in a buffer.
abbrev pub store : (ℕ → Bytes) → Option ℕ → Option Bytes → ℕ → Bytes
store mem (some address) (some bytes) a = if a == address then bytes else mem a
store mem none new a = mem a
store mem (some address) none a = mem a

-- `memset_s(buf.data, buf.size, 0, buf.size)`, unless `buf.data` is NULL
abbrev pub erase : (ℕ → Bytes) → MsgBuf → ℕ → Bytes
erase mem buf = store mem buf.buffer (overwrite (replicate buf.size 0) (content mem buf.buffer))

-- `memset_s(p_from, sizeof(*p_from), 0, sizeof(*p_from))`
abbrev pub erased_from : MsgFrom
erased_from = record { valid = false; tag = 0; server_key = replicate key_size 0 }

unfoldable pub non_null : {S : Type 0} {A : Type 0} → Option A → M Status S A
non_null none s = (err invalid_parameter, s)
non_null (some a) s = (ok a, s)

-- `reply_header.iv.data[0] |= 1;`
abbrev pub odd_iv : Bytes → Bytes
odd_iv iv = set iv 0 (bit_or (get_or iv 0 0) 1)

module _ (c : Crypto) (p : Platform) where
  unfoldable pub host_rand : ℕ → HostM p Bytes
  host_rand n h =
      let (status, bytes, w) = p.sgx_read_rand n h.world in
      (if is_success status then ok bytes else err status, set_world p w h)

  -- The reply is encrypted in place. The value is its tag.
  unfoldable pub encrypt_reply : Bytes → Bytes → MsgBuf → HostM p Bytes
  encrypt_reply key iv buf h =
      let plain = content h.mem buf.buffer in
      let r =
        aes_gcm_encrypt c (some key) plain buf.size plain (some iv) none 0
          (some (replicate mac_size 0)) in
      (
        if is_success r.status then ok (contents r.mac) else err unexpected,
        record h { mem = store h.mem buf.buffer r.dst },
      )

  -- `stack` is what the local `reply_header` holds in `pending_request_id`, which is not written.
  unfoldable pub server_reply_noerase :
      PendingRequestId → MsgBuf → Option MsgFrom → HostM p (Unit {0})
  server_reply_noerase stack buf p_from = do
    from ← non_null p_from
    fail_if (not from.valid) invalid_state
    fail_if (is_none buf.buffer && not (buf.size == 0)) invalid_parameter
    random ← host_rand iv_size
    let iv = odd_iv random
    mac ← encrypt_reply from.server_key iv buf
    let header : MsgHeader = record { iv = iv; mac = mac; pending_request_id = stack }
    retval ← ocall_reply p (some header) buf.buffer buf.size from.tag
    fail_if (not (is_success retval)) retval

  -- The result, what is then behind `p_from`, and the buffers and the world.
  unfoldable pub server_reply :
      PendingRequestId
      → MsgBuf
      → Option MsgFrom
      → Host p.World
      → Result Status (Unit {0}) × Option MsgFrom × Host p.World
  server_reply stack buf p_from h =
      let (res, h') = server_reply_noerase stack buf p_from h in
      (res, if is_none p_from then none else some erased_from, record h' { mem = erase h'.mem buf })

  unfoldable pub send_nothing : MsgFrom → HostM p (Unit {0})
  send_nothing from = do
    retval ← ocall_reply p none none 0 from.tag
    fail_if (not (is_success retval)) retval

  -- The checks of sgxsd_enclave_server_noreply come before it erases.
  unfoldable pub server_noreply :
      Option MsgFrom → Host p.World → Result Status (Unit {0}) × Option MsgFrom × Host p.World
  server_noreply none h = (err invalid_parameter, none, h)
  server_noreply (some from) h =
      if not from.valid
      then (err invalid_state, some from, h)
      else (let (res, h') = send_nothing from h in (res, some erased_from, h'))
