-- ===== src/Edl/Untrusted.antt =====
-- The untrusted side of the bridge, enclave/include/cds_enclave_u.c: the functions by which the host
-- calls the enclave, and the table of the one function by which the enclave calls the host.
pub mod Steps
pub mod Transparent
use contact_discovery_servic.Prelude.{
  ℕ, ◌≡◌, List, [], ◌∷◌, Bool, true, false, if◌then◌else◌, Option, none, some, Result, ok, err,
}
use contact_discovery_servic.Sgxsd.Types.{
  Bytes, Status, success, is_success, MsgHeader, NodeInitArgs, NegotiationRequest,
}
use contact_discovery_servic.Sgxsd.Crypto.{Crypto}
use contact_discovery_servic.Sgxsd.Platform.{Platform, Server, OcallReply}
use contact_discovery_servic.Edl.Frame.{Pointer, Frame, FrameOf, status_of}
use contact_discovery_servic.Edl.Ecalls.{
  Ecall, Declared, ServerCallMs, FingerprintMs, to_node_init, to_get_next_report,
  to_set_current_quote, to_negotiate_request, to_server_start, to_server_call, to_server_stop,
  to_ratelimit_fingerprint, ecall,
}

-- A function of the host, from what the `ms_` struct of an ocall holds to its own status, the
-- `ms_retval` that it leaves there, and the world.
abbrev pub Ocall : Platform → Type 0
Ocall p = OcallReply → p.World → Status × Status × p.World

-- `ocall_table_cds_enclave`
pub record OcallTable (p : Platform) : Type 0 where
  pub nr_ocall : ℕ
  pub table : List (Ocall p)

module _ (p : Platform) (host_reply : OcallReply → p.World → Status × p.World) where
  -- With the host's sgxsd_ocall_reply as a parameter.
  unfoldable pub cds_enclave_sgxsd_ocall_reply : Ocall p
  cds_enclave_sgxsd_ocall_reply ms w =
      let (ms_retval, w') = host_reply ms w in (success, ms_retval, w')

  unfoldable pub ocall_table : OcallTable p
  ocall_table = record { nr_ocall = 1; table = cds_enclave_sgxsd_ocall_reply ∷ [] }

-- `sgx_ecall` of the SDK: of the enclave's ID, an index, the table of ocalls, the address of the
-- `ms_` struct and what it holds; and where that struct stands on the host's stack.
pub record Runtime (p : Platform) (v : Server p) : Type 0 where
  pub sgx_ecall : ℕ → ℕ → OcallTable p → Option ℕ → Ecall p v → FrameOf p v → Status × FrameOf p v
  pub ms_address : ℕ

-- What stands at `retval`, if it is not NULL, with `none` for what nobody wrote.
abbrev pub Retval : Type 0
Retval = Option (Option Status)

abbrev pub write_retval : Option Status → Retval → Retval
write_retval ms_retval none = none
write_retval ms_retval (some old) = some ms_retval

-- A fresh `ms_` struct.
abbrev pub fresh_ms : {W S : Type 0} → Frame W S → Frame W S
fresh_ms f = record f { ms_retval = none; output = none }

module _ (p : Platform) (v : Server p) (host_reply : OcallReply → p.World → Status × p.World)
    (r : Runtime p v) where
  abbrev pub HostCall : Type 0
  HostCall = FrameOf p v → Status × Retval × FrameOf p v

  -- What the functions share: the call and the copy of its return value.
  unfoldable pub call_enclave : ℕ → ℕ → Retval → Ecall p v → HostCall
  unfolding ocall_table
  call_enclave eid index retval ms f =
      let table = ocall_table p host_reply in
      let (status, f') = r.sgx_ecall eid index table (some r.ms_address) ms (fresh_ms f) in
      (status, if is_success status then write_retval f'.ms_retval retval else retval, f')

  unfoldable pub enclave_node_init : ℕ → Retval → Option (Pointer NodeInitArgs) → HostCall
  enclave_node_init eid retval p_args = call_enclave eid 0 retval (to_node_init p_args)

  unfoldable pub enclave_get_next_report : ℕ → Retval → Bytes → Option ℕ → HostCall
  enclave_get_next_report eid retval qe_target_info p_report =
      call_enclave eid 1 retval (to_get_next_report qe_target_info p_report)

  unfoldable pub enclave_set_current_quote : ℕ → Retval → HostCall
  enclave_set_current_quote eid retval = call_enclave eid 2 retval to_set_current_quote

  unfoldable pub enclave_negotiate_request :
      ℕ → Retval → Option (Pointer NegotiationRequest) → Option ℕ → HostCall
  enclave_negotiate_request eid retval p_request p_response =
      call_enclave eid 3 retval (to_negotiate_request p_request p_response)

  unfoldable pub enclave_server_start : ℕ → Retval → Option (Pointer v.InitArgs) → ℕ → HostCall
  enclave_server_start eid retval p_args state_handle =
      call_enclave eid 4 retval (to_server_start p_args state_handle)

  unfoldable pub enclave_server_call :
      ℕ
      → Retval
      → Option (Pointer v.CallArgs)
      → Option (Pointer MsgHeader)
      → Option (Pointer Bytes)
      → ℕ
      → ℕ
      → ℕ
      → HostCall
  enclave_server_call eid retval p_args msg_header msg_data msg_size msg_tag state_handle =
      let ms : ServerCallMs v.CallArgs = record {
        ms_p_args = p_args;
        ms_msg_header = msg_header;
        ms_msg_data = msg_data;
        ms_msg_size = msg_size;
        ms_msg_tag = msg_tag;
        ms_state_handle = state_handle;
      } in
      call_enclave eid 5 retval (to_server_call ms)

  unfoldable pub enclave_server_stop : ℕ → Retval → Option (Pointer v.StopArgs) → ℕ → HostCall
  enclave_server_stop eid retval p_args state_handle =
      call_enclave eid 6 retval (to_server_stop p_args state_handle)

  unfoldable pub enclave_ratelimit_fingerprint :
      ℕ
      → Retval
      → Option (Pointer Bytes)
      → Option (Pointer MsgHeader)
      → Option (Pointer Bytes)
      → ℕ
      → ℕ
      → Option ℕ
      → ℕ
      → HostCall
  enclave_ratelimit_fingerprint eid retval fingerprint_key msg_header msg_data msg_data_size msg_tag
        fingerprint fingerprint_size =
      let ms : FingerprintMs = record {
        ms_fingerprint_key = fingerprint_key;
        ms_msg_header = msg_header;
        ms_msg_data = msg_data;
        ms_msg_data_size = msg_data_size;
        ms_msg_tag = msg_tag;
        ms_fingerprint = fingerprint;
        ms_fingerprint_size = fingerprint_size;
      } in
      call_enclave eid 7 retval (to_ratelimit_fingerprint ms)

  -- The function by which the host makes an ecall, and its arguments.
  unfoldable pub host_ecall : ℕ → Retval → Ecall p v → HostCall
  host_ecall eid retval (to_node_init p_args) = enclave_node_init eid retval p_args
  host_ecall eid retval (to_get_next_report target p_report) =
      enclave_get_next_report eid retval target p_report
  host_ecall eid retval to_set_current_quote = enclave_set_current_quote eid retval
  host_ecall eid retval (to_negotiate_request p_request p_response) =
      enclave_negotiate_request eid retval p_request p_response
  host_ecall eid retval (to_server_start p_args handle) =
      enclave_server_start eid retval p_args handle
  host_ecall eid retval (to_server_call ms) =
      enclave_server_call eid retval ms.ms_p_args ms.ms_msg_header ms.ms_msg_data ms.ms_msg_size
        ms.ms_msg_tag ms.ms_state_handle
  host_ecall eid retval (to_server_stop p_args handle) =
      enclave_server_stop eid retval p_args handle
  host_ecall eid retval (to_ratelimit_fingerprint ms) =
      enclave_ratelimit_fingerprint eid retval ms.ms_fingerprint_key ms.ms_msg_header ms.ms_msg_data
        ms.ms_msg_data_size ms.ms_msg_tag ms.ms_fingerprint ms.ms_fingerprint_size

module _ (p : Platform) (v : Server p) where
  -- Where the function that takes such a struct stands in `g_ecall_table`.
  unfoldable pub ecall_index : Ecall p v → ℕ
  ecall_index (to_node_init _) = 0
  ecall_index (to_get_next_report _ _) = 1
  ecall_index to_set_current_quote = 2
  ecall_index (to_negotiate_request _ _) = 3
  ecall_index (to_server_start _ _) = 4
  ecall_index (to_server_call _) = 5
  ecall_index (to_server_stop _ _) = 6
  ecall_index (to_ratelimit_fingerprint _) = 7

module _ (c : Crypto) (p : Platform) (v : Server p) (declared : Declared p v) where
  -- The SDK runs the entry of `g_ecall_table` with the index that it is given, on the struct that it
  -- is given, and returns the status of that entry.
  pub record Dispatches (r : Runtime p v) : Type 0 where
    pub runs :
        (eid index : ℕ) (table : OcallTable p) (pms : Option ℕ) (e : Ecall p v) (f : FrameOf p v)
        → index ≡ ecall_index p v e
        → let after = ecall c p v declared pms e f in
          r.sgx_ecall eid index table pms e f ≡ (status_of after.0, after.1)
