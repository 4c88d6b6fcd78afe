-- ===== src/Edl/Ecalls/Pointers.antt =====
-- The pointers that an ecall takes from its caller.
use contact_discovery_servic.Prelude.{
  ℕ, ◌≡◌, refl, true, false, Bool, not, ◌||◌, is_none, Option, none, some, List, [], ◌∷◌, arith,
  err, fail_if, ◌>>=◌,
}
use contact_discovery_servic.Sgxsd.Types.{invalid_parameter, key_size}
use contact_discovery_servic.Sgxsd.Crypto.{Crypto}
use contact_discovery_servic.Sgxsd.Platform.{Platform, Server}
use contact_discovery_servic.Edl.Frame.{address_of, FrameOf, BridgeM, check_ref, check_unique}
use contact_discovery_servic.Edl.Ecalls.{
  Ecall, Declared, to_node_init, to_get_next_report, to_set_current_quote, to_negotiate_request,
  to_server_start, to_server_call, to_server_stop, to_ratelimit_fingerprint, ecall, sgx_node_init,
  sgx_get_next_report, sgx_set_current_quote, sgx_negotiate_request, sgx_server_start,
  sgx_server_call, sgx_server_stop, sgx_ratelimit_fingerprint, node_init_ms_size,
  get_next_report_ms_size, set_current_quote_ms_size, negotiate_request_ms_size,
  server_start_ms_size, server_call_ms_size, server_stop_ms_size, ratelimit_fingerprint_ms_size,
  node_init_args_size, report_size, negotiation_request_size, negotiation_response_size,
  init_args_size, call_args_size, terminate_args_size, msg_header_size, fingerprint_size,
}

module _ (p : Platform) (v : Server p) where
  -- The size of the `ms_` struct, and the pointers in it with the sizes of what they point to.
  abbrev pub ms_size : Ecall p v → ℕ
  ms_size (to_node_init _) = node_init_ms_size
  ms_size (to_get_next_report _ _) = get_next_report_ms_size
  ms_size to_set_current_quote = set_current_quote_ms_size
  ms_size (to_negotiate_request _ _) = negotiate_request_ms_size
  ms_size (to_server_start _ _) = server_start_ms_size
  ms_size (to_server_call _) = server_call_ms_size
  ms_size (to_server_stop _ _) = server_stop_ms_size
  ms_size (to_ratelimit_fingerprint _) = ratelimit_fingerprint_ms_size

  abbrev pub pointers : Ecall p v → List (Option ℕ × ℕ)
  pointers (to_node_init args) = (address_of args, node_init_args_size) ∷ []
  pointers (to_get_next_report _ out) = (out, report_size) ∷ []
  pointers to_set_current_quote = []
  pointers (to_negotiate_request q out) =
      (address_of q, negotiation_request_size) ∷ (out, negotiation_response_size) ∷ []
  pointers (to_server_start args _) = (address_of args, init_args_size) ∷ []
  pointers (to_server_call ms) =
      (address_of (ms.ms_p_args), call_args_size)
      ∷ (address_of (ms.ms_msg_header), msg_header_size)
      ∷ (address_of (ms.ms_msg_data), ms.ms_msg_size)
      ∷ []
  pointers (to_server_stop args _) = (address_of args, terminate_args_size) ∷ []
  pointers (to_ratelimit_fingerprint ms) =
      (address_of (ms.ms_fingerprint_key), key_size)
      ∷ (address_of (ms.ms_msg_header), msg_header_size)
      ∷ (address_of (ms.ms_msg_data), ms.ms_msg_data_size)
      ∷ (ms.ms_fingerprint, fingerprint_size)
      ∷ []

  -- Whether a pointer that is not NULL reaches into the enclave, and whether one of a list does.
  abbrev pub inside : Option ℕ → ℕ → Bool
  inside none n = false
  inside (some a) n = not (p.sgx_is_outside_enclave a n)

  abbrev pub any_inside : List (Option ℕ × ℕ) → Bool
  any_inside [] = false
  any_inside ((a, n) ∷ rest) = inside a n || any_inside rest

  abbrev Refused : BridgeM p v (Unit {0}) → FrameOf p v → Type 0
  Refused m f = m f ≡ (err invalid_parameter, f)

  fail_if-Refused :
      (b rest : Bool) (k : Unit {0} → BridgeM p v (Unit {0})) (f : FrameOf p v)
      → (b || rest) ≡ true
      → (rest ≡ true → Refused (k tt) f)
      → Refused (fail_if b invalid_parameter >>= k) f
  unfolding ◌>>=◌
  fail_if-Refused true rest k f h hk = refl
  fail_if-Refused false rest k f h hk = hk h

  check_ref-Refused :
      (a : Option ℕ) (n : ℕ) (rest : Bool) (k : Unit {0} → BridgeM p v (Unit {0})) (f : FrameOf p v)
      → (is_none a || (inside a n || rest)) ≡ true
      → (rest ≡ true → Refused (k tt) f)
      → Refused (check_ref p v a n >>= k) f
  unfolding check_ref ◌>>=◌
  check_ref-Refused none n rest k f h hk = refl
  check_ref-Refused (some a) n rest k f h hk = fail_if-Refused _ rest k f h hk

  check_unique-Refused :
      (a : Option ℕ) (n : ℕ) (rest : Bool) (k : Unit {0} → BridgeM p v (Unit {0})) (f : FrameOf p v)
      → (inside a n || rest) ≡ true
      → (rest ≡ true → Refused (k tt) f)
      → Refused (check_unique p v a n >>= k) f
  unfolding check_unique ◌>>=◌
  check_unique-Refused none n rest k f h hk = hk h
  check_unique-Refused (some a) n rest k f h hk = fail_if-Refused _ rest k f h hk

module _ (c : Crypto) (p : Platform) (v : Server p) (declared : Declared p v) where
  -- If the pointer to the `ms_` struct of an ecall is NULL, or the struct or what one of its pointers
  -- points to is not all outside the enclave, then the ecall returns SGX_ERROR_INVALID_PARAMETER and
  -- changes nothing.
  pub ecall_refuses :
      (pms : Option ℕ) (e : Ecall p v) (f : FrameOf p v)
      → (is_none pms || any_inside p v ((pms, ms_size p v e) ∷ pointers p v e)) ≡ true
      → ecall c p v declared pms e f ≡ (err invalid_parameter, f)
  unfolding ecall sgx_node_init sgx_get_next_report sgx_set_current_quote sgx_negotiate_request
      sgx_server_start sgx_server_call sgx_server_stop sgx_ratelimit_fingerprint
  ecall_refuses pms (to_node_init args) f h =
      check_ref-Refused p v pms _ _ _ f h
        (λ h. check_unique-Refused p v _ _ _ _ f h (λ h. absurd (ground arith)))
  ecall_refuses pms (to_get_next_report target out) f h =
      check_ref-Refused p v pms _ _ _ f h
        (λ h. check_unique-Refused p v _ _ _ _ f h (λ h. absurd (ground arith)))
  ecall_refuses pms to_set_current_quote f h =
      check_ref-Refused p v pms _ _ _ f h (λ h. absurd (ground arith))
  ecall_refuses pms (to_negotiate_request q out) f h = check_ref-Refused p v pms _ _ _ f h (λ h.
      check_unique-Refused p v _ _ _ _ f h
        (λ h. check_unique-Refused p v _ _ _ _ f h (λ h. absurd (ground arith))))
  ecall_refuses pms (to_server_start args handle) f h =
      check_ref-Refused p v pms _ _ _ f h
        (λ h. check_unique-Refused p v _ _ _ _ f h (λ h. absurd (ground arith)))
  ecall_refuses pms (to_server_call ms) f h = check_ref-Refused p v pms _ _ _ f h (λ h.
      check_unique-Refused p v _ _ _ _ f h (λ h.
        check_unique-Refused p v _ _ _ _ f h
          (λ h. check_unique-Refused p v _ _ _ _ f h (λ h. absurd (ground arith)))))
  ecall_refuses pms (to_server_stop args handle) f h =
      check_ref-Refused p v pms _ _ _ f h
        (λ h. check_unique-Refused p v _ _ _ _ f h (λ h. absurd (ground arith)))
  ecall_refuses pms (to_ratelimit_fingerprint ms) f h = check_ref-Refused p v pms _ _ _ f h (λ h.
      check_unique-Refused p v _ _ _ _ f h (λ h. check_unique-Refused p v _ _ _ _ f h (λ h.
        check_unique-Refused p v _ _ _ _ f h
          (λ h. check_unique-Refused p v _ _ _ _ f h (λ h. absurd (ground arith))))))
