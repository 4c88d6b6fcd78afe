-- ===== src/Edl/Untrusted/Transparent.antt =====
-- What the host gets of an ecall that the bridge does not refuse: the function's own run.
use contact_discovery_servic.Prelude.{
  ℕ, zero, suc, ◌≡◌, ◌≢◌, refl, sym, ap, not, is_none, Option, none, some, Result, ok, err,
  if◌then◌else◌,
}
use contact_discovery_servic.Prelude.Monad.Triple.{Triple, OnOk, Triple-pure}
use contact_discovery_servic.Sgxsd.Types.{Bytes, Status, success, is_success}
use contact_discovery_servic.Sgxsd.Crypto.{Crypto}
use contact_discovery_servic.Sgxsd.Platform.{Platform, Server, OcallReply}
use contact_discovery_servic.Sgxsd.State.{Enclave, set_world}
use contact_discovery_servic.Sgxsd.Keys.{get_next_report, set_current_quote}
use contact_discovery_servic.Sgxsd.Node.{node_init}
use contact_discovery_servic.Sgxsd.Negotiate.{negotiate_request}
use contact_discovery_servic.Sgxsd.Servers.{server_start, server_call, server_stop}
use contact_discovery_servic.Edl.Frame.{Pointer, FrameOf, status_of}
use contact_discovery_servic.Edl.Ecalls.{
  Ecall, Declared, to_node_init, to_get_next_report, to_set_current_quote, to_negotiate_request,
  to_server_start, to_server_call, to_server_stop, to_ratelimit_fingerprint, ecall, sgx_node_init,
  sgx_get_next_report, sgx_set_current_quote, sgx_negotiate_request, sgx_server_start,
  sgx_server_call, sgx_server_stop, sgx_ratelimit_fingerprint, zero_response, zero_fingerprint,
  zero_report,
}
use contact_discovery_servic.Edl.Untrusted.Steps.{
  IsFailure, target_of, room_of, with_message, status_run, At, Ran, check_ref-At, check_unique-At,
  checked, copy_in-At, room_out-At, message_copied, given, copy_out-Ran, until_err-Ran, returned,
}
use contact_discovery_servic.Edl.Untrusted.{
  Runtime, Dispatches, Retval, write_retval, fresh_ms, call_enclave, host_ecall, ecall_index,
  enclave_node_init, enclave_get_next_report, enclave_set_current_quote, enclave_negotiate_request,
  enclave_server_start, enclave_server_call, enclave_server_stop, enclave_ratelimit_fingerprint,
}

module _ (c : Crypto) (p : Platform) (v : Server p) (declared : Declared p v) where
  -- The function of sgxsd-enclave.c behind an ecall, on what the host's pointers point to; its message
  -- stands at an address of the enclave's.
  abbrev pub function : Ecall p v → ℕ → Enclave p v → Status × Enclave p v
  function (to_node_init args) a s = status_run p v (node_init c p v (target_of args) s)
  function (to_get_next_report target out) a s =
      status_run p v (get_next_report c p v target (not (is_none (room_of out zero_report))) s)
  function to_set_current_quote a s = status_run p v (set_current_quote c p v s)
  function (to_negotiate_request q out) a s =
      status_run p v (negotiate_request c p v (target_of q) (room_of out zero_response) s)
  function (to_server_start args handle) a s =
      status_run p v (server_start c p v (target_of args) handle s)
  function (to_server_call ms) a s =
      let (msg, t) = with_message p v ms.ms_msg_data ms.ms_msg_size a s in
      status_run p v (
        server_call c p v (target_of ms.ms_p_args) (target_of ms.ms_msg_header) msg ms.ms_msg_size
          ms.ms_msg_tag ms.ms_state_handle t)
  function (to_server_stop args handle) a s =
      status_run p v (server_stop c p v (target_of args) handle s)
  function (to_ratelimit_fingerprint ms) a s =
      let (msg, t) = with_message p v ms.ms_msg_data ms.ms_msg_data_size a s in
      status_run p v (
        declared (target_of ms.ms_fingerprint_key) (target_of ms.ms_msg_header) msg
          ms.ms_msg_data_size ms.ms_msg_tag (room_of ms.ms_fingerprint zero_fingerprint)
          ms.ms_fingerprint_size t)

  with_message-set_world :
      (q : Option (Pointer Bytes)) (n a : ℕ) (w : p.World) (s : Enclave p v)
      → let (msg, t) = with_message p v q n a s in
        with_message p v q n a (set_world p v w s) ≡ (msg, set_world p v w t)
  with_message-set_world none n a w s = refl
  with_message-set_world (some q) zero a w s = refl
  with_message-set_world (some q) (suc n) a w s = refl

  ecall-Ran :
      (pms : Option ℕ) (e : Ecall p v) (s : Enclave p v)
      → Triple IsFailure (At p v s) (ecall c p v declared pms e) (λ u. Ran p v (function e) s)
  unfolding ecall sgx_node_init sgx_get_next_report sgx_set_current_quote sgx_negotiate_request
      sgx_server_start sgx_server_call sgx_server_stop sgx_ratelimit_fingerprint
  ecall-Ran pms (to_node_init args) s =
      let g = function (to_node_init args) in
      checked p v s _ (check_ref-At p v s pms _) (
        checked p v s _ (check_unique-At p v s _ _) (
          until_err-Ran p v g s _ _ (
            given p v s _ _ (copy_in-At p v s _ args _)
              (returned p v g s _ s 0 _ (λ w. refl) (λ r. Triple-pure _ (λ f h. h))))))
  ecall-Ran pms (to_get_next_report target out) s =
      let g = function (to_get_next_report target out) in
      checked p v s _ (check_ref-At p v s pms _) (
        checked p v s _ (check_unique-At p v s _ _) (
          until_err-Ran p v g s _ _ (
            given p v s _ _ (room_out-At p v s _ out _ _)
              (returned p v g s _ s 0 _ (λ w. refl) (λ r. copy_out-Ran p v g s _ _ _)))))
  ecall-Ran pms to_set_current_quote s =
      let g = function to_set_current_quote in
      checked p v s _ (check_ref-At p v s pms _)
        (returned p v g s _ s 0 _ (λ w. refl) (λ r. Triple-pure _ (λ f h. h)))
  ecall-Ran pms (to_negotiate_request q out) s =
      let g = function (to_negotiate_request q out) in
      checked p v s _ (check_ref-At p v s pms _) (
        checked p v s _ (check_unique-At p v s _ _) (
          checked p v s _ (check_unique-At p v s _ _) (
            until_err-Ran p v g s _ _ (
              given p v s _ _ (copy_in-At p v s _ q _) (
                given p v s _ _ (room_out-At p v s _ out _ _)
                  (returned p v g s _ s 0 _ (λ w. refl) (λ r. copy_out-Ran p v g s _ _ _)))))))
  ecall-Ran pms (to_server_start args handle) s =
      let g = function (to_server_start args handle) in
      checked p v s _ (check_ref-At p v s pms _) (
        checked p v s _ (check_unique-At p v s _ _) (
          until_err-Ran p v g s _ _ (
            given p v s _ _ (copy_in-At p v s _ args _)
              (returned p v g s _ s 0 _ (λ w. refl) (λ r. Triple-pure _ (λ f h. h))))))
  ecall-Ran pms (to_server_call ms) s =
      let g = function (to_server_call ms) in
      let q = ms.ms_msg_data in
      let n = ms.ms_msg_size in
      let args = target_of ms.ms_p_args in
      let header = target_of ms.ms_msg_header in
      let run : Option ℕ × Enclave p v → Status × Enclave p v = λ m.
        status_run p v (server_call c p v args header m.0 n ms.ms_msg_tag ms.ms_state_handle m.1) in
      checked p v s _ (check_ref-At p v s pms _) (
        checked p v s _ (check_unique-At p v s _ _) (
          checked p v s _ (check_unique-At p v s _ _) (
            checked p v s _ (check_unique-At p v s _ _) (
              until_err-Ran p v g s _ _ (
                given p v s _ _ (copy_in-At p v s _ ms.ms_p_args _) (
                  given p v s _ _ (copy_in-At p v s _ ms.ms_msg_header _) (
                    message_copied p v s _ q n _ (λ a.
                      returned p v g s _ (with_message p v q n a s).1 a _
                        (λ w. sym (ap run (with_message-set_world q n a w s)))
                        (λ r. Triple-pure _ (λ f h. h))))))))))
  ecall-Ran pms (to_server_stop args handle) s =
      let g = function (to_server_stop args handle) in
      checked p v s _ (check_ref-At p v s pms _) (
        checked p v s _ (check_unique-At p v s _ _) (
          until_err-Ran p v g s _ _ (
            given p v s _ _ (copy_in-At p v s _ args _)
              (returned p v g s _ s 0 _ (λ w. refl) (λ r. Triple-pure _ (λ f h. h))))))
  ecall-Ran pms (to_ratelimit_fingerprint ms) s =
      let g = function (to_ratelimit_fingerprint ms) in
      let q = ms.ms_msg_data in
      let n = ms.ms_msg_data_size in
      let key = target_of ms.ms_fingerprint_key in
      let header = target_of ms.ms_msg_header in
      let out = room_of ms.ms_fingerprint zero_fingerprint in
      let run : Option ℕ × Enclave p v → Status × Enclave p v = λ m.
        status_run p v (declared key header m.0 n ms.ms_msg_tag out ms.ms_fingerprint_size m.1) in
      checked p v s _ (check_ref-At p v s pms _) (
        checked p v s _ (check_unique-At p v s _ _) (
          checked p v s _ (check_unique-At p v s _ _) (
            checked p v s _ (check_unique-At p v s _ _) (
              checked p v s _ (check_unique-At p v s _ _) (
                until_err-Ran p v g s _ _ (
                  given p v s _ _ (copy_in-At p v s _ ms.ms_fingerprint_key _) (
                    given p v s _ _ (copy_in-At p v s _ ms.ms_msg_header _) (
                      message_copied p v s _ q n _ (λ a.
                        given p v (with_message p v q n a s).1 _ _
                          (room_out-At p v (with_message p v q n a s).1 _ _ _ _)
                          (returned p v g s _ (with_message p v q n a s).1 a _
                            (λ w. sym (ap run (with_message-set_world q n a w s)))
                            (λ r. copy_out-Ran p v g s _ _ _)))))))))))

  -- What the host then finds at `retval` and in the enclave.
  abbrev pub Answered : Retval → Ecall p v → Enclave p v → Status × Retval × FrameOf p v → Type 0
  Answered retval e s (status, retval', after) =
      (status ≡ success
        → (a : ℕ) × (w : p.World) × (w' : p.World) × (retval'
            ≡ write_retval (some (function e a (set_world p v w s)).0) retval)
          × (after.enclave ≡ set_world p v w' (function e a (set_world p v w s)).1))
      × (status ≢ success → retval' ≡ retval)

  answered :
      (retval : Retval) (e : Ecall p v) (s : Enclave p v)
      (res : Result Status (Unit {0}) × FrameOf p v)
      → OnOk IsFailure (λ u. Ran p v (function e) s) res
      → let status = status_of res.0 in
        Answered retval e s
          (status, if is_success status then write_retval res.1.ms_retval retval else retval, res.1)
  answered retval e s (ok u, after) h =
      (λ _. (h.0, h.1, h.2, ap (λ m. write_retval m retval) h.3, h.4), λ ne. absurd (ne refl))
  answered retval e s (err x, after) h = rw h (λ eq. absurd (cc (h)), λ _. refl)

  module _ (host_reply : OcallReply → p.World → Status × p.World) (r : Runtime p v)
      (d : Dispatches c p v declared r) where
    -- Every wrapper passes its own index.
    host_ecall_lem :
        (eid : ℕ) (retval : Retval) (e : Ecall p v) (f : FrameOf p v)
        → let (res, after) = ecall c p v declared (some r.ms_address) e (fresh_ms f) in
          let status = status_of res in
          host_ecall p v host_reply r eid retval e f ≡ (
            status,
            if is_success status then write_retval after.ms_retval retval else retval,
            after,
          )
    unfolding host_ecall call_enclave ecall_index enclave_node_init enclave_get_next_report
        enclave_set_current_quote enclave_negotiate_request enclave_server_start enclave_server_call
        enclave_server_stop enclave_ratelimit_fingerprint
    host_ecall_lem eid retval (to_node_init args) f = rw (d.runs eid 0 _ _ _ _ refl)
    host_ecall_lem eid retval (to_get_next_report t out) f = rw (d.runs eid 1 _ _ _ _ refl)
    host_ecall_lem eid retval to_set_current_quote f = rw (d.runs eid 2 _ _ _ _ refl)
    host_ecall_lem eid retval (to_negotiate_request q out) f = rw (d.runs eid 3 _ _ _ _ refl)
    host_ecall_lem eid retval (to_server_start args h) f = rw (d.runs eid 4 _ _ _ _ refl)
    host_ecall_lem eid retval (to_server_call ms) f = rw (d.runs eid 5 _ _ _ _ refl)
    host_ecall_lem eid retval (to_server_stop args h) f = rw (d.runs eid 6 _ _ _ _ refl)
    host_ecall_lem eid retval (to_ratelimit_fingerprint ms) f = rw (d.runs eid 7 _ _ _ _ refl)

    -- If the SDK runs the entry of the ecall table with the index that it is given: a function by which
    -- the host makes an ecall returns SGX_SUCCESS only if the enclave's function ran on what the host's
    -- pointers point to, in the enclave as it was but for the world; then `*retval` is the status that
    -- it returned, unless `retval` is NULL, and the enclave is as it left it but for the world.
    -- Otherwise `*retval` is as it was.
    pub host_ecall-function :
        (eid : ℕ) (retval : Retval) (e : Ecall p v) (f : FrameOf p v)
        → Answered retval e f.enclave (host_ecall p v host_reply r eid retval e f)
    host_ecall-function eid retval e f = rw (host_ecall_lem eid retval e f) (
        answered retval e f.enclave _ (
          (ecall-Ran (some r.ms_address) e f.enclave).success (fresh_ms f)
            (f.enclave.host.world, refl)))
