-- ===== src/Examples/Toy.antt =====
-- A cryptography that satisfies the laws, a platform and a server, all computable.
use contact_discovery_servic.Prelude.{
  ℕ, zero, suc, ◌+◌, ◌*◌, ◌%◌, leb, ◌≡◌, refl, ap, ◌↔◌, ◌==◌, if◌then◌else◌, Bool, true, false,
  ◌&&◌, ◌||◌, none, some, [], ◌∷◌, ◌++◌, append_assoc, arith, length, length-append, length-take,
  take, get_or, replicate,
}
use contact_discovery_servic.Sgxsd.State.{Enclave, Locks, zero_desc}
use contact_discovery_servic.Sgxsd.Types.{KeyPair, Bytes, success}
use contact_discovery_servic.Sgxsd.Crypto.{Crypto, Laws}
use contact_discovery_servic.Sgxsd.Platform.{Platform, Server}

abbrev pub bytes_eq : Bytes → Bytes → Bool
bytes_eq [] [] = true
bytes_eq [] (b ∷ bs) = false
bytes_eq (a ∷ as') [] = false
bytes_eq (a ∷ as') (b ∷ bs) = (a == b) && bytes_eq as' bs

bytes_eq_iff : (a b : Bytes) → (bytes_eq a b ≡ true) ↔ (a ≡ b)
bytes_eq_iff [] [] = ground arith
bytes_eq_iff [] (b ∷ bs) = ground arith
bytes_eq_iff (a ∷ as') [] = ground arith
bytes_eq_iff (a ∷ as') (b ∷ bs) = ground (arith, bytes_eq_iff as' bs)

-- Each byte is moved by 1 up or down, modulo 256.
abbrev pub rotate : Bool → Bytes → Bytes
rotate e [] = []
rotate true (b ∷ bs) = suc b ∷ rotate true bs
rotate false (zero ∷ bs) = 0 ∷ rotate false bs
rotate false (suc b ∷ bs) = b ∷ rotate false bs

abbrev pub sum : Bytes → ℕ
sum [] = 0
sum (b ∷ bs) = b + 2 * sum bs

-- The tag depends on the whole context.
abbrev pub checksum : Bytes → Bytes
checksum x = sum x ∷ replicate 15 0

-- The first 32 bytes, filled up with zeros.
abbrev pub digest : Bytes → Bytes
digest x = take 32 (sum x ∷ x ++ replicate 32 0)

rotate_inverse : (d : Bytes) → rotate false (rotate true d) ≡ d
rotate_inverse [] = refl
rotate_inverse (b ∷ d) = ap (λ r. b ∷ r) (rotate_inverse d)

length-rotate : (e : Bool) (d : Bytes) → length (rotate e d) ≡ length d
length-rotate e [] = refl
length-rotate true (b ∷ d) = ap suc (length-rotate true d)
length-rotate false (zero ∷ d) = ap suc (length-rotate false d)
length-rotate false (suc b ∷ d) = ap suc (length-rotate false d)

length-digest : (x : Bytes) → length (digest x) ≡ 32
length-digest x =
    omega (arith, length-take 32 (sum x ∷ x ++ replicate 32 0), length-append x (replicate 32 0))

abbrev pub toy_crypto : Crypto
toy_crypto = record {
  ShaContext = Bytes;
  sha256_init = [];
  sha256_update = λ x d. x ++ d;
  sha256_out = digest;
  GcmContext = Bytes;
  gcm_init = λ key. key;
  gcm_reset = λ x iv. x ++ iv;
  gcm_aad_inject = λ x aad. x ++ aad;
  gcm_flip = λ x. x;
  gcm_run = λ e x d. (x ++ (if e then rotate true d else d), rotate e d);
  gcm_get_tag = checksum;
  gcm_check_tag = λ x t. bytes_eq (checksum x) t;
  curve25519_donna = λ a b. (get_or a 0 0 + get_or b 0 0) % 256 ∷ replicate 31 0;
}

pub toy_laws : Laws toy_crypto
toy_laws = record {
  update-update = λ x a b. append_assoc x a b;
  length-out = length-digest;
  run_inverse = λ x d. rotate_inverse d;
  run_tag = λ x d. refl;
  length-run = λ e x d. length-rotate e d;
  check_tag_iff = λ x t. bytes_eq_iff (checksum x) t;
  length-tag = λ x. refl;
}

-- The world counts the calls.
abbrev pub toy_platform : Platform
toy_platform = record {
  World = ℕ;
  sgx_read_rand = λ n w. (success, replicate n (w % 256), w + 1);
  sgx_is_outside_enclave = λ address n. leb (address + n) 4000 || leb 8000 address;
  sgx_is_within_enclave = λ address n. true;
  sgx_create_report = λ target report_data w. (success, report_data, w + 1);
  calloc = λ n size w. (leb n 1024, w + 1);
  malloc = λ n w. (if leb n 4096 then some (200 + w) else none, w + 1);
  free = λ address w. w + 1;
  sgx_ocalloc = λ n w. (leb n 4096, w + 1);
  new_frame = λ w. record {
    reply_header = none;
    reply_data = some (w ∷ []);
    reply_data_size = w;
    msg_tag = w;
  };
  sgx_ocfree = λ w. w + 1;
  sgx_ocall = λ ms w. (success, success, w + 1);
  memcpy_s = λ room n. if leb n room then false else true;
  reply_header_address = 4096;
}

-- A server that counts its calls.
abbrev pub toy_server : Server toy_platform
toy_server = record {
  ServerState = ℕ;
  InitArgs = Unit {0};
  CallArgs = Unit {0};
  StopArgs = Unit {0};
  server_init = λ args p_state host. (success, some 0, host);
  server_handle_call = λ args msg from p_state host. (success, some 1, host);
  server_terminate = λ args p_state host. (success, host);
  create_ratelimit_fingerprint = λ key args msg from fingerprint n host. (success, key, host);
}

abbrev pub toy_keys : KeyPair
toy_keys = record { privkey = 7 ∷ replicate 31 0; pubkey = 16 ∷ replicate 31 0 }

abbrev pub free_locks : Locks
free_locks = record {
  node_init_lock = false;
  read_rand_lock = false;
  dh_keypair_lock = false;
  pending_requests_lock = false;
  stuck = false;
}

abbrev pub toy_prk : Bytes
toy_prk = 5 ∷ replicate 31 0

-- An initialized node: a table of two entries with request 3 in the second, and two servers, the
-- second running.
abbrev pub toy_state : Enclave toy_platform toy_server
toy_state = record {
  host = record { world = 1; mem = λ a. 9 ∷ 8 ∷ 7 ∷ [] };
  locks = free_locks;
  node_initialized = true;
  read_rand_state = replicate 32 0;
  dh_keypair = toy_keys;
  new_dh_keypair = toy_keys;
  pending_requests =
      record { id_val = 2; hkdf_prk = replicate 32 1 }
      ∷ record { id_val = 3; hkdf_prk = toy_prk }
      ∷ [];
  pending_requests_table_order = 1;
  last_pending_request_id_val = 3;
  pending_request_id_key = replicate 32 4;
  server_states = zero_desc ∷ record { valid = true; lock = false; p_state = some 0 } ∷ [];
}
