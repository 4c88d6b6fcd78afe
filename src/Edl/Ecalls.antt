-- ===== src/Edl/Ecalls.antt =====
-- The eight ecalls of enclave/include/cds_enclave_t.c and their table.
pub mod Pointers
pub mod Blocks
use contact_discovery_servic.Prelude.{
  ℕ, not, is_none, Option, none, some, [], ◌∷◌, replicate, pure, ◌>>=◌, ◌>>◌,
}
use contact_discovery_servic.Sgxsd.Types.{
  Bytes, MsgHeader, NodeInitArgs, NegotiationRequest, NegotiationResponse, key_size, iv_size,
  mac_size,
}
use contact_discovery_servic.Sgxsd.Crypto.{Crypto}
use contact_discovery_servic.Sgxsd.Platform.{Platform, Server}
use contact_discovery_servic.Sgxsd.State.{EnclaveM}
use contact_discovery_servic.Sgxsd.Keys.{get_next_report, set_current_quote}
use contact_discovery_servic.Sgxsd.Node.{node_init}
use contact_discovery_servic.Sgxsd.Negotiate.{negotiate_request, pending_request_id_size}
use contact_discovery_servic.Sgxsd.Servers.{server_start, server_call, server_stop}
use contact_discovery_servic.Edl.Frame.{
  Pointer, address_of, Output, report, response, fingerprint, BridgeM, check_ref, check_unique,
  copy_in, copy_message, room_out, call, copy_out, output_of, until_err,
}

-- Sizes in bytes, on a 64-bit machine: of the `ms_` structs, and of what their pointers point to.
abbrev pub node_init_ms_size : ℕ
node_init_ms_size = 16

abbrev pub get_next_report_ms_size : ℕ
get_next_report_ms_size = 528

abbrev pub set_current_quote_ms_size : ℕ
set_current_quote_ms_size = 4

abbrev pub negotiate_request_ms_size : ℕ
negotiate_request_ms_size = 24

abbrev pub server_start_ms_size : ℕ
server_start_ms_size = 24

abbrev pub server_call_ms_size : ℕ
server_call_ms_size = 56

abbrev pub server_stop_ms_size : ℕ
server_stop_ms_size = 24

abbrev pub ratelimit_fingerprint_ms_size : ℕ
ratelimit_fingerprint_ms_size = 64

abbrev pub node_init_args_size : ℕ
node_init_args_size = 1

abbrev pub report_size : ℕ
report_size = 432

abbrev pub negotiation_request_size : ℕ
negotiation_request_size = 32

abbrev pub negotiation_response_size : ℕ
negotiation_response_size = 128

abbrev pub init_args_size : ℕ
init_args_size = 8

abbrev pub call_args_size : ℕ
call_args_size = 104

abbrev pub terminate_args_size : ℕ
terminate_args_size = 24

abbrev pub msg_header_size : ℕ
msg_header_size = 64

abbrev pub fingerprint_size : ℕ
fingerprint_size = 1

-- A report, a response and a fingerprint whose bytes are zeros.
abbrev pub zero_report : Bytes
zero_report = replicate report_size 0

abbrev pub zero_response : NegotiationResponse
zero_response = record {
  server_static_pubkey = replicate key_size 0;
  server_ephemeral_pubkey = replicate key_size 0;
  encrypted_pending_request_id = record {
    body = replicate pending_request_id_size 0;
    iv = replicate iv_size 0;
    mac = replicate mac_size 0;
  };
}

abbrev pub zero_fingerprint : Bytes
zero_fingerprint = replicate fingerprint_size 0

-- The fields of a `ms_` struct, less the return value.
pub record ServerCallMs (A : Type 0) : Type 0 where
  pub ms_p_args : Option (Pointer A)
  pub ms_msg_header : Option (Pointer MsgHeader)
  pub ms_msg_data : Option (Pointer Bytes)
  pub ms_msg_size : ℕ
  pub ms_msg_tag : ℕ
  pub ms_state_handle : ℕ

pub record FingerprintMs : Type 0 where
  pub ms_fingerprint_key : Option (Pointer Bytes)
  pub ms_msg_header : Option (Pointer MsgHeader)
  pub ms_msg_data : Option (Pointer Bytes)
  pub ms_msg_data_size : ℕ
  pub ms_msg_tag : ℕ
  pub ms_fingerprint : Option ℕ
  pub ms_fingerprint_size : ℕ

-- An entry of the ecall table, with the fields of its `ms_` struct.
pub data Ecall (p : Platform) (v : Server p) : Type 0 where
  to_node_init : Option (Pointer NodeInitArgs) → Ecall p v
  to_get_next_report : Bytes → Option ℕ → Ecall p v
  to_set_current_quote : Ecall p v
  to_negotiate_request : Option (Pointer NegotiationRequest) → Option ℕ → Ecall p v
  to_server_start : Option (Pointer v.InitArgs) → ℕ → Ecall p v
  to_server_call : ServerCallMs v.CallArgs → Ecall p v
  to_server_stop : Option (Pointer v.StopArgs) → ℕ → Ecall p v
  to_ratelimit_fingerprint : FingerprintMs → Ecall p v

module _ (c : Crypto) (p : Platform) (v : Server p) where
  unfoldable pub sgx_node_init : Option ℕ → Option (Pointer NodeInitArgs) → BridgeM p v (Unit {0})
  sgx_node_init pms ms_p_args = do
    check_ref p v pms node_init_ms_size
    check_unique p v (address_of ms_p_args) node_init_args_size
    until_err p v (0 ∷ []) (do
      p_args ← copy_in p v 0 ms_p_args node_init_args_size
      _ ← call p v (node_init c p v p_args)
      pure tt)

  unfoldable pub sgx_get_next_report : Option ℕ → Bytes → Option ℕ → BridgeM p v (Unit {0})
  sgx_get_next_report pms ms_qe_target_info ms_p_report = do
    check_ref p v pms get_next_report_ms_size
    check_unique p v ms_p_report report_size
    until_err p v (0 ∷ []) (do
      p_report ← room_out p v 0 ms_p_report report_size zero_report
      r ← call p v (get_next_report c p v ms_qe_target_info (not (is_none p_report)))
      copy_out p v ms_p_report report_size (output_of report r))

  unfoldable pub sgx_set_current_quote : Option ℕ → BridgeM p v (Unit {0})
  sgx_set_current_quote pms = do
    check_ref p v pms set_current_quote_ms_size
    _ ← call p v (set_current_quote c p v)
    pure tt

  unfoldable pub sgx_negotiate_request :
      Option ℕ → Option (Pointer NegotiationRequest) → Option ℕ → BridgeM p v (Unit {0})
  sgx_negotiate_request pms ms_p_request ms_p_response = do
    check_ref p v pms negotiate_request_ms_size
    check_unique p v (address_of ms_p_request) negotiation_request_size
    check_unique p v ms_p_response negotiation_response_size
    until_err p v (0 ∷ 1 ∷ []) (do
      p_request ← copy_in p v 0 ms_p_request negotiation_request_size
      p_response ← room_out p v 1 ms_p_response negotiation_response_size zero_response
      r ← call p v (negotiate_request c p v p_request p_response)
      copy_out p v ms_p_response negotiation_response_size (output_of response r))

  unfoldable pub sgx_server_start :
      Option ℕ → Option (Pointer v.InitArgs) → ℕ → BridgeM p v (Unit {0})
  sgx_server_start pms ms_p_args ms_state_handle = do
    check_ref p v pms server_start_ms_size
    check_unique p v (address_of ms_p_args) init_args_size
    until_err p v (0 ∷ []) (do
      p_args ← copy_in p v 0 ms_p_args init_args_size
      _ ← call p v (server_start c p v p_args ms_state_handle)
      pure tt)

  unfoldable pub sgx_server_call : Option ℕ → ServerCallMs v.CallArgs → BridgeM p v (Unit {0})
  sgx_server_call pms ms = do
    check_ref p v pms server_call_ms_size
    check_unique p v (address_of (ms.ms_p_args)) call_args_size
    check_unique p v (address_of (ms.ms_msg_header)) msg_header_size
    check_unique p v (address_of (ms.ms_msg_data)) (ms.ms_msg_size)
    until_err p v (0 ∷ 1 ∷ 2 ∷ []) (do
      p_args ← copy_in p v 0 (ms.ms_p_args) call_args_size
      msg_header ← copy_in p v 1 (ms.ms_msg_header) msg_header_size
      msg_data ← copy_message p v 2 (ms.ms_msg_data) (ms.ms_msg_size)
      _ ← call p v (
          server_call c p v p_args msg_header msg_data (ms.ms_msg_size) (ms.ms_msg_tag)
            (ms.ms_state_handle))
      pure tt)

  unfoldable pub sgx_server_stop :
      Option ℕ → Option (Pointer v.StopArgs) → ℕ → BridgeM p v (Unit {0})
  sgx_server_stop pms ms_p_args ms_state_handle = do
    check_ref p v pms server_stop_ms_size
    check_unique p v (address_of ms_p_args) terminate_args_size
    until_err p v (0 ∷ []) (do
      p_args ← copy_in p v 0 ms_p_args terminate_args_size
      _ ← call p v (server_stop c p v p_args ms_state_handle)
      pure tt)

-- What cds_enclave_t.h declares as sgxsd_enclave_ratelimit_fingerprint: a function of the key, the
-- header, the message, its size and tag, the fingerprint and its size. The function that the enclave
-- defines under this name has two parameters more, so what the call does is not that function's.
abbrev pub Declared : (p : Platform) → Server p → Type 0
Declared p v =
    Option Bytes → Option MsgHeader → Option ℕ → ℕ → ℕ → Option Bytes → ℕ → EnclaveM p v Bytes

module _ (c : Crypto) (p : Platform) (v : Server p) (declared : Declared p v) where
  unfoldable pub sgx_ratelimit_fingerprint : Option ℕ → FingerprintMs → BridgeM p v (Unit {0})
  sgx_ratelimit_fingerprint pms ms = do
    check_ref p v pms ratelimit_fingerprint_ms_size
    check_unique p v (address_of (ms.ms_fingerprint_key)) key_size
    check_unique p v (address_of (ms.ms_msg_header)) msg_header_size
    check_unique p v (address_of (ms.ms_msg_data)) (ms.ms_msg_data_size)
    check_unique p v (ms.ms_fingerprint) fingerprint_size
    until_err p v (0 ∷ 1 ∷ 2 ∷ 3 ∷ []) (do
      fingerprint_key ← copy_in p v 0 (ms.ms_fingerprint_key) key_size
      msg_header ← copy_in p v 1 (ms.ms_msg_header) msg_header_size
      msg_data ← copy_message p v 2 (ms.ms_msg_data) (ms.ms_msg_data_size)
      out ← room_out p v 3 (ms.ms_fingerprint) fingerprint_size zero_fingerprint
      r ← call p v (
          declared fingerprint_key msg_header msg_data (ms.ms_msg_data_size) (ms.ms_msg_tag) out
            (ms.ms_fingerprint_size))
      copy_out p v (ms.ms_fingerprint) fingerprint_size (output_of fingerprint r))

  -- `g_ecall_table`
  unfoldable pub ecall : Option ℕ → Ecall p v → BridgeM p v (Unit {0})
  ecall pms (to_node_init p_args) = sgx_node_init c p v pms p_args
  ecall pms (to_get_next_report target p_report) = sgx_get_next_report c p v pms target p_report
  ecall pms to_set_current_quote = sgx_set_current_quote c p v pms
  ecall pms (to_negotiate_request p_request p_response) =
      sgx_negotiate_request c p v pms p_request p_response
  ecall pms (to_server_start p_args handle) = sgx_server_start c p v pms p_args handle
  ecall pms (to_server_call ms) = sgx_server_call c p v pms ms
  ecall pms (to_server_stop p_args handle) = sgx_server_stop c p v pms p_args handle
  ecall pms (to_ratelimit_fingerprint ms) = sgx_ratelimit_fingerprint pms ms
