-- ===== src/Sgxsd/State.antt =====
-- The static variables of enclave/c_src/sgxsd-enclave.c, its spin locks, and the monad in which
-- its functions are written.
use contact_discovery_servic.Prelude.{
  ℕ, Bool, true, false, ◌||◌, if◌then◌else◌, Option, none, List, M, ok, err,
}
use contact_discovery_servic.Sgxsd.Types.{Bytes, Status, KeyPair, PendingRequest, is_success}
use contact_discovery_servic.Sgxsd.Platform.{Platform, Host, Server}

-- The four locks that are static variables of their own.
pub data Lock : Type 0 where
  node_init read_rand dh_keypair pending_requests : Lock

-- `stuck` records that a lock was taken while it was held: in one thread, a spin without end.
pub record Locks : Type 0 where
  pub node_init_lock : Bool
  pub read_rand_lock : Bool
  pub dh_keypair_lock : Bool
  pub pending_requests_lock : Bool
  pub stuck : Bool

abbrev pub held : Lock → Locks → Bool
held node_init l = l.node_init_lock
held read_rand l = l.read_rand_lock
held dh_keypair l = l.dh_keypair_lock
held pending_requests l = l.pending_requests_lock

abbrev pub set_lock : Lock → Bool → Locks → Locks
set_lock node_init b l = record l { node_init_lock = b }
set_lock read_rand b l = record l { read_rand_lock = b }
set_lock dh_keypair b l = record l { dh_keypair_lock = b }
set_lock pending_requests b l = record l { pending_requests_lock = b }

abbrev pub acquire : Lock → Locks → Locks
acquire k l = set_lock k true (record l { stuck = l.stuck || held k l })

abbrev pub release : Lock → Locks → Locks
release k l = set_lock k false l

-- `sgxsd_server_state_desc_t`
pub record ServerStateDesc (S : Type 0) : Type 0 where
  pub valid : Bool
  pub lock : Bool
  pub p_state : Option S

-- The names are the variables', less `g_sgxsd_enclave_`.
pub record State (W S : Type 0) : Type 0 where
  pub host : Host W
  pub locks : Locks
  pub node_initialized : Bool
  pub read_rand_state : Bytes
  pub dh_keypair : KeyPair
  pub new_dh_keypair : KeyPair
  pub pending_requests : List PendingRequest
  pub pending_requests_table_order : ℕ
  pub last_pending_request_id_val : ℕ
  pub pending_request_id_key : Bytes
  pub server_states : List (ServerStateDesc S)

abbrev pub max_servers : ℕ
max_servers = 256

abbrev pub zero_desc : {S : Type 0} → ServerStateDesc S
zero_desc = record { valid = false; lock = false; p_state = none }

module _ (p : Platform) (v : Server p) where
  abbrev pub Enclave : Type 0
  Enclave = State p.World v.ServerState

  abbrev pub EnclaveM : Type 0 → Type 0
  EnclaveM A = M Status Enclave A

  abbrev pub set_world : p.World → Enclave → Enclave
  set_world w s = record s { host = record { world = w; mem = s.host.mem } }

  -- A critical section: `sgxsd_spin_lock`, the body, `sgxsd_spin_unlock` on every path.
  unfoldable pub with_lock : {A : Type 0} → Lock → EnclaveM A → EnclaveM A
  with_lock k m s =
      let (r, s') = m (record s { locks = acquire k s.locks }) in
      (r, record s' { locks = release k s'.locks })

  -- `sgx_read_rand` of so many bytes, with the check of its status
  unfoldable pub rand : ℕ → EnclaveM Bytes
  rand n s =
      let (status, bytes, w) = p.sgx_read_rand n s.host.world in
      (if is_success status then ok bytes else err status, set_world w s)
