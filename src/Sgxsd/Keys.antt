-- ===== src/Sgxsd/Keys.antt =====
-- Random numbers and Diffie-Hellman keys of enclave/c_src/sgxsd-enclave.c: sgxsd_enclave_read_rand,
-- sgxsd_enclave_generate_curve25519_keypair, sgxsd_enclave_get_next_report,
-- sgxsd_enclave_set_current_quote.
use contact_discovery_servic.Prelude.{
  ℕ, ◌-◌, bit_and, bit_or, Bool, not, if◌then◌else◌, [], ◌∷◌, ◌++◌, length, get_or, set, replicate,
  ok, err, pure, fail_if, gets, modify, ◌>>=◌, ◌>>◌,
}
use contact_discovery_servic.Sgxsd.Types.{
  Bytes, KeyPair, invalid_state, invalid_parameter, is_success, curve25519_key_size,
}
use contact_discovery_servic.Sgxsd.Crypto.{Crypto}
use contact_discovery_servic.Sgxsd.Sha256.{hkdf_start, hmac_sha256, ra_hkdf_round}
use contact_discovery_servic.Sgxsd.Platform.{Platform, Server}
use contact_discovery_servic.Sgxsd.State.{Lock, EnclaveM, set_world, with_lock, rand}

-- `privkey.x[0] &= 248; privkey.x[31] &= 127; privkey.x[31] |= 64;`
pub clamp : Bytes → Bytes
clamp x =
    let x = set x 0 (bit_and (get_or x 0 0) 248) in
    let x = set x 31 (bit_and (get_or x 31 0) 127) in set x 31 (bit_or (get_or x 31 0) 64)

abbrev pub basepoint : Bytes
basepoint = 9 ∷ replicate 31 0

-- The size of `sgx_report_data_t.d`.
abbrev pub report_data_size : ℕ
report_data_size = 64

module _ (c : Crypto) (p : Platform) (v : Server p) where
  -- The critical section of sgxsd_enclave_read_rand.
  unfoldable pub mix_rand : Bytes → EnclaveM p v Bytes
  mix_rand x s =
      let prk = hmac_sha256 c s.read_rand_state (x ∷ []) in
      let t_1 = ra_hkdf_round c prk hkdf_start in
      let t_2 = ra_hkdf_round c prk t_1 in (ok t_2.t_n, record s { read_rand_state = t_1.t_n })

  unfoldable pub read_rand : EnclaveM p v Bytes
  read_rand = do x ← rand p v curve25519_key_size; with_lock p v Lock.read_rand (mix_rand x)

  unfoldable pub generate_curve25519_keypair : EnclaveM p v KeyPair
  generate_curve25519_keypair = do
    x ← read_rand
    let privkey = clamp x
    pure (record { privkey = privkey; pubkey = c.curve25519_donna privkey basepoint })

  -- `sgx_create_report` with the check of its status
  unfoldable pub create_report : Bytes → Bytes → EnclaveM p v Bytes
  create_report qe_target_info report_data s =
      let (status, report, w) = p.sgx_create_report qe_target_info report_data s.host.world in
      (if is_success status then ok report else err status, set_world p v w s)

  -- `report_pointer` says that `p_report` is not NULL; the report is what it then points to.
  unfoldable pub get_next_report : Bytes → Bool → EnclaveM p v Bytes
  get_next_report qe_target_info report_pointer = do
    initialized ← gets (λ s. s.node_initialized)
    fail_if (not initialized) invalid_state
    fail_if (not report_pointer) invalid_parameter
    new_dh_keypair ← generate_curve25519_keypair
    let unused = report_data_size - length new_dh_keypair.pubkey
    let report_data = new_dh_keypair.pubkey ++ replicate unused 0
    report ← create_report qe_target_info report_data
    with_lock p v Lock.dh_keypair (modify (λ s. record s { new_dh_keypair = new_dh_keypair }))
    pure report

  unfoldable pub set_current_quote : EnclaveM p v (Unit {0})
  set_current_quote = do
    initialized ← gets (λ s. s.node_initialized)
    fail_if (not initialized) invalid_state
    with_lock p v Lock.dh_keypair (modify (λ s. record s { dh_keypair = s.new_dh_keypair }))
