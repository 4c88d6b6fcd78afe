-- ===== src/Sgxsd/Reachable.antt =====
-- The states that the entry points of enclave/c_src/sgxsd-enclave.c reach, one after the other, from
-- the static variables as the enclave is loaded.
pub mod Sections
pub mod Steps
pub mod Callbacks
pub mod Init
pub mod Soundness
use contact_discovery_servic.Prelude.{
  ℕ, ◌^◌, ◌≤◌, ◌≡◌, ◌≢◌, true, false, Bool, Option, none, some, List, [], replicate, length,
}
use contact_discovery_servic.Sgxsd.Types.{
  Bytes, KeyPair, PendingRequest, MsgHeader, NodeInitArgs, NegotiationRequest, NegotiationResponse,
  key_size, curve25519_key_size, hash_size,
}
use contact_discovery_servic.Sgxsd.Crypto.{Crypto}
use contact_discovery_servic.Sgxsd.Platform.{Platform, Server, Host}
use contact_discovery_servic.Sgxsd.State.{Locks, Enclave, zero_desc, max_servers}
use contact_discovery_servic.Sgxsd.Keys.{get_next_report, set_current_quote}
use contact_discovery_servic.Sgxsd.Node.{node_init}
use contact_discovery_servic.Sgxsd.Negotiate.{negotiate_request}
use contact_discovery_servic.Sgxsd.Negotiate.Steps.{IsPair}
use contact_discovery_servic.Sgxsd.Servers.{
  desc, server_start, server_call, server_stop, ratelimit_fingerprint,
}

abbrev pub unlocked : Locks
unlocked = record {
  node_init_lock = false;
  read_rand_lock = false;
  dh_keypair_lock = false;
  pending_requests_lock = false;
  stuck = false;
}

abbrev pub zero_keys : KeyPair
zero_keys = record {
  privkey = replicate curve25519_key_size 0;
  pubkey = replicate curve25519_key_size 0;
}

module _ (p : Platform) (v : Server p) where
  -- The static variables of the file, and any host.
  abbrev pub loaded : Host p.World → Enclave p v
  loaded host = record {
    host = host;
    locks = unlocked;
    node_initialized = false;
    read_rand_state = replicate hash_size 0;
    dh_keypair = zero_keys;
    new_dh_keypair = zero_keys;
    pending_requests = [];
    pending_requests_table_order = 0;
    last_pending_request_id_val = 0;
    pending_request_id_key = replicate key_size 0;
    server_states = replicate max_servers zero_desc;
  }

module _ (c : Crypto) (p : Platform) (v : Server p) where
  -- A call of an entry point with any arguments, whatever it returns; or the host does something else,
  -- which changes the world and the memory, and none of the variables.
  pub data Step (s : Enclave p v) : Enclave p v → Type 0 where
    to_node_init : (args : Option NodeInitArgs) → Step s (node_init c p v args s).1
    to_get_next_report :
        (target : Bytes) (pointer : Bool) → Step s (get_next_report c p v target pointer s).1
    to_set_current_quote : Step s (set_current_quote c p v s).1
    to_negotiate_request :
        (q : Option NegotiationRequest) (out : Option NegotiationResponse)
        → Step s (negotiate_request c p v q out s).1
    to_server_start :
        (args : Option v.InitArgs) (handle : ℕ) → Step s (server_start c p v args handle s).1
    to_server_call :
        (args : Option v.CallArgs) (header : Option MsgHeader) (msg : Option ℕ) (n tag handle : ℕ)
        → Step s (server_call c p v args header msg n tag handle s).1
    to_server_stop :
        (args : Option v.StopArgs) (handle : ℕ) → Step s (server_stop c p v args handle s).1
    to_fingerprint :
        (key : Option Bytes) (args : Option v.CallArgs) (header : Option MsgHeader) (msg : Option ℕ)
        (n tag handle : ℕ) (out : Option Bytes) (size : ℕ)
        → Step s (ratelimit_fingerprint c p v key args header msg n tag handle out size s).1
    elsewhere : (host : Host p.World) → Step s (record s { host = host })

  pub data Reach : Enclave p v → Type 0 where
    start : (host : Host p.World) → Reach (loaded p v host)
    next : {s t : Enclave p v} → Reach s → Step s t → Reach t

  -- No lock is held and none was taken while it was held. The descriptors are those of the array. If
  -- the node is initialized, then the table has the size of its order, which is one that node_init
  -- accepts, and the keys are pairs.
  pub record IsSound (s : Enclave p v) : Type 0 where
    pub locks_free : s.locks ≡ unlocked
    pub descs_free : (i : ℕ) → (desc i s).lock ≡ false
    pub servers : length s.server_states ≡ max_servers
    pub sized :
        s.node_initialized ≡ true → length s.pending_requests ≡ 2 ^ s.pending_requests_table_order
    pub small : s.node_initialized ≡ true → s.pending_requests_table_order ≤ 63
    pub paired : s.node_initialized ≡ true → IsPair c s.dh_keypair
    pub new_paired : s.node_initialized ≡ true → IsPair c s.new_dh_keypair
