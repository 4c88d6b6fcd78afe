-- ===== src/Examples/Bridging.antt =====
-- Calls from the host at the toy state.
use contact_discovery_servic.Prelude.{
  ℕ, ◌+◌, ◌==◌, if◌then◌else◌, ◌≡◌, refl, some, none, arith, ◌>>=◌,
}
use contact_discovery_servic.Sgxsd.Types.{Status, success, unexpected}
use contact_discovery_servic.Sgxsd.State.{with_lock}
use contact_discovery_servic.Sgxsd.Keys.{set_current_quote}
use contact_discovery_servic.Sgxsd.Platform.{OcallReply}
use contact_discovery_servic.Edl.Frame.{status_of, check_ref, call}
use contact_discovery_servic.Edl.Ecalls.{to_set_current_quote, ecall, sgx_set_current_quote}
use contact_discovery_servic.Edl.Untrusted.{
  Runtime, Dispatches, ecall_index, host_ecall, call_enclave, enclave_set_current_quote,
}
use contact_discovery_servic.Edl.Untrusted.Transparent.{Answered, host_ecall-function}
use contact_discovery_servic.Examples.Toy.{toy_crypto, toy_platform, toy_server, toy_state}
use contact_discovery_servic.Examples.Bridge.{toy_declared, toy_frame, good_call}

-- An SDK that refuses an index that is not the one of the struct.
abbrev toy_runtime : Runtime toy_platform toy_server
toy_runtime = record {
  sgx_ecall = λ eid index table pms e f.
      let after = ecall toy_crypto toy_platform toy_server toy_declared pms e f in
      if index == ecall_index toy_platform toy_server e
      then (status_of after.0, after.1)
      else (unexpected, f);
  ms_address = 1024;
}

toy_Dispatches : Dispatches toy_crypto toy_platform toy_server toy_declared toy_runtime
toy_Dispatches = record { runs = λ eid index table pms e f same. ground arith }

abbrev toy_reply : OcallReply → ℕ → Status × ℕ
toy_reply ms w = (success, w + 1)

host_ecall-function_example :
    Answered toy_crypto toy_platform toy_server toy_declared
      (some none)
      good_call
      toy_state
      (host_ecall toy_platform toy_server toy_reply toy_runtime 1 (some none) good_call toy_frame)
host_ecall-function_example =
    host_ecall-function toy_crypto toy_platform toy_server toy_declared toy_reply toy_runtime
      toy_Dispatches 1 (some none) good_call toy_frame

-- A rotation of the keys gets through.
rotation_status :
    let after =
      host_ecall toy_platform toy_server toy_reply toy_runtime 1
        (some none)
        to_set_current_quote
        toy_frame in
    (after.0 ≡ success) × (after.1 ≡ some (some success))
unfolding host_ecall enclave_set_current_quote call_enclave ecall ecall_index sgx_set_current_quote
    check_ref call set_current_quote with_lock ◌>>=◌
rotation_status = (refl, refl)
