-- ===== src/Edl/Ocall.antt =====
-- sgxsd_ocall_reply of enclave/include/cds_enclave_t.c: a reply is copied out of the enclave.
pub mod Frames
use contact_discovery_servic.Prelude.{
  ℕ, ◌+◌, ◌-◌, ◌%◌, ◌^◌, ltb, Bool, false, not, if◌then◌else◌, is_none, Option, none, some, take, M,
  ok, err, fail_if, gets, ◌>>=◌, ◌>>◌,
}
use contact_discovery_servic.Sgxsd.Types.{
  Bytes, Status, unexpected, invalid_parameter, is_success, MsgHeader,
}
use contact_discovery_servic.Sgxsd.Platform.{Platform, Host, OcallReply}

-- `sizeof(ms_sgxsd_ocall_reply_t)`
abbrev pub frame_size : ℕ
frame_size = 40

-- `sizeof(sgxsd_msg_header_t)`
abbrev pub header_size : ℕ
header_size = 64

-- The room for an argument that may be NULL.
abbrev pub room {ℓ} : {A : Type ℓ} → Option A → ℕ → ℕ
room none n = 0
room (some a) n = n

-- `ADD_ASSIGN_OVERFLOW`: the sum as a `size_t`, and whether it wrapped.
abbrev pub add_size : ℕ → ℕ → ℕ
add_size a b = (a + b) % 2 ^ 64

abbrev pub overflows : ℕ → ℕ → Bool
overflows a b = ltb (add_size a b) b

module _ (p : Platform) where
  abbrev pub HostM : Type 0 → Type 0
  HostM A = M Status (Host p.World) A

  -- `CHECK_ENCLAVE_POINTER`
  abbrev pub outside : Option ℕ → ℕ → Bool
  outside none n = false
  outside (some address) n = not (p.sgx_is_within_enclave address n)

  abbrev pub set_world : p.World → Host p.World → Host p.World
  set_world w h = record { world = w; mem = h.mem }

  -- `sgx_ocalloc`, with `sgx_ocfree` if it fails. The value is what the new frame holds.
  unfoldable pub alloc_frame : ℕ → HostM OcallReply
  alloc_frame n h =
      let (allocated, w) = p.sgx_ocalloc n h.world in
      if allocated
      then (ok (p.new_frame w), set_world w h)
      else (err unexpected, set_world (p.sgx_ocfree w) h)

  -- `memcpy_s` of an argument into the frame, which has so much room left; `sgx_ocfree` if it fails.
  -- For NULL the pointer in the frame is set to NULL. The value is the frame, as `write` changed it.
  unfoldable pub copy_to_frame :
      {A : Type 0}
      → (Option A → OcallReply → OcallReply)
      → Option A
      → ℕ
      → ℕ
      → OcallReply
      → HostM OcallReply
  copy_to_frame write none left n frame h = (ok (write none frame), h)
  copy_to_frame write (some a) left n frame h =
      if p.memcpy_s left n
      then (err unexpected, set_world (p.sgx_ocfree h.world) h)
      else (ok (write (some a) frame), h)

  -- `sgx_ocall`, then `sgx_ocfree`. The value is `*retval`, which is set only on success.
  unfoldable pub send : OcallReply → HostM Status
  send ms h =
      let (status, retval, w) = p.sgx_ocall ms h.world in
      (if is_success status then ok retval else err status, set_world (p.sgx_ocfree w) h)

  -- What a pointer to so many bytes of reply data stands for.
  abbrev pub data_at : Host p.World → Option ℕ → ℕ → Option Bytes
  data_at h none n = none
  data_at h (some address) n = some (take n (h.mem address))

  -- The address of the header is that of its caller's local, `none` for NULL.
  unfoldable pub ocall_reply : Option MsgHeader → Option ℕ → ℕ → ℕ → HostM Status
  ocall_reply header reply_data size tag = do
    let header_address = (if is_none header then none else some p.reply_header_address)
    fail_if (outside header_address header_size) invalid_parameter
    fail_if (outside reply_data size) invalid_parameter
    let with_header_size = add_size frame_size (room header header_size)
    fail_if (overflows frame_size (room header header_size)) invalid_parameter
    let total = add_size with_header_size (room reply_data size)
    fail_if (overflows with_header_size (room reply_data size)) invalid_parameter
    frame ← alloc_frame total
    let left = total - frame_size
    with_header ← copy_to_frame (λ a f. record f { reply_header = a }) header left header_size frame
    bytes ← gets (λ h. data_at h reply_data size)
    with_data ←
        copy_to_frame (λ a f. record f { reply_data = a }) bytes (left - room header header_size)
          size with_header
    send (record with_data { reply_data_size = size; msg_tag = tag })
