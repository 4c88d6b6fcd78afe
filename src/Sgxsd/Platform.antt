-- ===== src/Sgxsd/Platform.antt =====
-- What the enclave calls and src/ does not hold, or holds behind an interface: the functions of the
-- SGX SDK and of the C library, and the callbacks of a server (enclave/include/sgxsd-enclave.h).
use contact_discovery_servic.Prelude.{ℕ, Bool, Option}
use contact_discovery_servic.Sgxsd.Types.{Bytes, Status, MsgHeader, MsgBuf, MsgFrom}

-- `ms_sgxsd_ocall_reply_t` of enclave/include/cds_enclave_t.c, less the return value.
pub record OcallReply : Type 0 where
  pub reply_header : Option MsgHeader
  pub reply_data : Option Bytes
  pub reply_data_size : ℕ
  pub msg_tag : ℕ

-- `World` is all that these functions read and change outside the enclave's variables.
pub record Platform : Type 1 where
  pub World : Type 0
  pub sgx_read_rand : ℕ → World → Status × Bytes × World
  -- of an address and a size
  pub sgx_is_outside_enclave : ℕ → ℕ → Bool
  pub sgx_is_within_enclave : ℕ → ℕ → Bool
  -- of the target and the report data
  pub sgx_create_report : Bytes → Bytes → World → Status × Bytes × World
  -- false for NULL
  pub calloc : ℕ → ℕ → World → Bool × World
  -- an address, or none for NULL
  pub malloc : ℕ → World → Option ℕ × World
  pub free : ℕ → World → World
  pub sgx_ocalloc : ℕ → World → Bool × World
  -- what the memory holds that it gives
  pub new_frame : World → OcallReply
  pub sgx_ocfree : World → World
  -- `sgx_ocall(0, ms)`: its own status and `ms->ms_retval`
  pub sgx_ocall : OcallReply → World → Status × Status × World
  -- Whether a copy of so many bytes to a destination of such a size fails.
  pub memcpy_s : ℕ → ℕ → Bool
  -- Where the local `reply_header` of sgxsd_enclave_server_reply_noerase stands.
  pub reply_header_address : ℕ

-- The part of a state that the callbacks share with the file: the buffers by their addresses, and
-- the world.
pub record Host (World : Type 0) : Type 0 where
  pub world : World
  pub mem : ℕ → Bytes

-- sgxsd_enclave_server_{init,handle_call,terminate} and sgxsd_enclave_create_ratelimit_fingerprint.
pub record Server (p : Platform) : Type 1 where
  pub ServerState : Type 0
  pub InitArgs : Type 0
  pub CallArgs : Type 0
  pub StopArgs : Type 0
  pub server_init :
      Option InitArgs
      → Option ServerState
      → Host p.World
      → Status × Option ServerState × Host p.World
  pub server_handle_call :
      Option CallArgs
      → MsgBuf
      → MsgFrom
      → Option ServerState
      → Host p.World
      → Status × Option ServerState × Host p.World
  pub server_terminate : Option StopArgs → Option ServerState → Host p.World → Status × Host p.World
  -- of the fingerprint key, the arguments, the message, its sender, the fingerprint and its size
  pub create_ratelimit_fingerprint :
      Option Bytes
      → Option CallArgs
      → MsgBuf
      → MsgFrom
      → Option Bytes
      → ℕ
      → Host p.World
      → Status × Option Bytes × Host p.World
