-- ===== src/Sgxsd/Node.antt =====
-- sgxsd_enclave_node_init and sgxsd_enclave_node_init_locked of enclave/c_src/sgxsd-enclave.c.
pub mod Ready
use contact_discovery_servic.Prelude.{
  ℕ, ◌-◌, ◌^◌, ltb, not, if◌then◌else◌, Option, none, some, [], replicate, ok, err, pure, fail,
  fail_if, gets, modify, ◌>>=◌, ◌>>◌, true,
}
use contact_discovery_servic.Sgxsd.Types.{
  unexpected, invalid_parameter, invalid_state, out_of_memory, NodeInitArgs, PendingRequest,
  key_size, hash_size,
}
use contact_discovery_servic.Sgxsd.Crypto.{Crypto}
use contact_discovery_servic.Sgxsd.Platform.{Platform, Server}
use contact_discovery_servic.Sgxsd.State.{Lock, EnclaveM, set_world, with_lock, rand}
use contact_discovery_servic.Sgxsd.Keys.{generate_curve25519_keypair}

-- `UINTPTR_MAX`
abbrev pub uintptr_max : ℕ
uintptr_max = 2 ^ 64 - 1

-- `sizeof(uint64_t) * 8 - 1`
abbrev pub max_table_order : ℕ
max_table_order = 63

-- `sizeof(sgxsd_pending_request_t)`
abbrev pub pending_request_size : ℕ
pending_request_size = 40

-- An entry of memory that `calloc` or `memset_s` zeroed.
abbrev pub zero_request : PendingRequest
zero_request = record { id_val = 0; hkdf_prk = replicate hash_size 0 }

module _ (c : Crypto) (p : Platform) (v : Server p) where
  -- The parameters' checks.
  unfoldable pub order_of : Option NodeInitArgs → EnclaveM p v ℕ
  order_of none = fail invalid_parameter
  order_of (some a) = do
    fail_if (ltb max_table_order a.pending_requests_table_order) invalid_parameter
    pure a.pending_requests_table_order

  -- The table's order is stored before the table is allocated.
  unfoldable pub allocate_table : ℕ → EnclaveM p v (Unit {0})
  allocate_table order s =
      let (allocated, w) = p.calloc (2 ^ order) pending_request_size s.host.world in
      let s' = record (set_world p v w s) { pending_requests_table_order = order } in
      if allocated
      then (ok tt, record s' { pending_requests = replicate (2 ^ order) zero_request })
      else (err out_of_memory, record s' { pending_requests = [] })

  -- A key pair is written once it is whole; what a failed generator leaves in it is left out.
  unfoldable pub init_keys : EnclaveM p v (Unit {0})
  init_keys = do
    dh_keypair ← generate_curve25519_keypair c p v
    modify (λ s. record s { dh_keypair = dh_keypair })
    new_dh_keypair ← generate_curve25519_keypair c p v
    modify (λ s. record s { new_dh_keypair = new_dh_keypair })
    key ← rand p v key_size
    modify (λ s. record s { pending_request_id_key = key })

  unfoldable pub node_init_locked : Option NodeInitArgs → EnclaveM p v (Unit {0})
  node_init_locked p_args = do
    initialized ← gets (λ s. s.node_initialized)
    fail_if initialized invalid_state
    fail_if (not (p.sgx_is_outside_enclave 0 0)) unexpected
    fail_if (not (p.sgx_is_outside_enclave uintptr_max 0)) unexpected
    order ← order_of p_args
    init_keys
    allocate_table order
    modify (λ s. record s { node_initialized = true })

  unfoldable pub node_init : Option NodeInitArgs → EnclaveM p v (Unit {0})
  node_init p_args = with_lock p v Lock.node_init (node_init_locked p_args)
