-- ===== src/Examples/Acceptance.antt =====
-- The enclave with the service as its server, at the toy platform.
use contact_discovery_servic.Prelude.{
  ℕ, ◌+◌, ◌≡◌, refl, arith, true, false, some, [], ◌∷◌, replicate, length, ok,
}
use contact_discovery_servic.Sgxsd.Types.{Bytes, MsgHeader, id_bytes}
use contact_discovery_servic.Sgxsd.AesGcm.{aes_gcm_decrypt, aes_gcm_run}
use contact_discovery_servic.Sgxsd.AesGcm.RoundTrip.{seal}
use contact_discovery_servic.Sgxsd.Sha256.Rfc.{rfc5869}
use contact_discovery_servic.Sgxsd.State.{Enclave, zero_desc}
use contact_discovery_servic.Sgxsd.Pending.{decrypt_id}
use contact_discovery_servic.Sgxsd.Pending.Table.{stored}
use contact_discovery_servic.Sgxsd.Servers.{server_call}
use contact_discovery_servic.Cds.Request.{CallArgs}
use contact_discovery_servic.Cds.Request.RoundTrip.{query_of}
use contact_discovery_servic.Cds.Service.{ServerState}
use contact_discovery_servic.Cds.Server.{Runtime, cds_server}
use contact_discovery_servic.Cds.Server.Acceptance.{server_call-query_of}
use contact_discovery_servic.Sgxsd.Types.{success}
use contact_discovery_servic.Examples.Toy.{
  toy_crypto, toy_laws, toy_platform, toy_prk, toy_keys, free_locks,
}
use contact_discovery_servic.Examples.Requests.{request_3}
use contact_discovery_servic.Examples.Lookup.{numbers, queried}

abbrev toy_runtime : Runtime toy_platform
toy_runtime = record {
  instructions = record {
    Vector = ℕ;
    setzero = 0;
    set_epi64x = numbers.set_epi64x;
    cvtsi64_si128 = numbers.cvtsi64_si128;
    xor_si128 = numbers.xor_si128;
    aesenc_si128 = numbers.aesenc_si128;
    aesenclast_si128 = numbers.aesenclast_si128;
    aeskeygenassist_si128 = numbers.aeskeygenassist_si128;
    slli_si128 = numbers.slli_si128;
    shuffle_epi32 = numbers.shuffle_epi32;
    cvtsi128_si32 = numbers.cvtsi128_si32;
    rdrand64_step = λ h. (some h.world, record h { world = h.world + 1 });
  };
  with_capacity = λ n. n;
  hmac_sha256 = λ key msg. key;
  reply_address = 300;
  memset_s = λ n. false;
  stack = request_3;
  fault = λ h. (success, h);
}

abbrev query_key : Bytes
query_key = replicate 32 2

-- The client's message and its tag.
abbrev sealed : Bytes × Bytes
sealed =
    seal toy_crypto (rfc5869 toy_crypto toy_prk 1) (replicate 12 1) (id_bytes request_3) query_key

abbrev header : MsgHeader
header = record { iv = replicate 12 1; mac = sealed.1; pending_request_id = request_3 }

abbrev query : CallArgs
query = query_of toy_crypto query_key (replicate 32 1) (replicate 12 3) queried 8192

abbrev started : ServerState
started = record { requests = []; query_phones = []; capacity = 5 }

-- Server 1 runs the service.
abbrev cds_state : Enclave toy_platform (cds_server toy_crypto toy_platform toy_runtime)
cds_state = record {
  host = record { world = 1; mem = λ a. sealed.0 };
  locks = free_locks;
  node_initialized = true;
  read_rand_state = replicate 32 0;
  dh_keypair = toy_keys;
  new_dh_keypair = toy_keys;
  pending_requests =
      record { id_val = 2; hkdf_prk = replicate 32 1 }
      ∷ record { id_val = 3; hkdf_prk = toy_prk }
      ∷ [];
  pending_requests_table_order = 1;
  last_pending_request_id_val = 3;
  pending_request_id_key = replicate 32 4;
  server_states = zero_desc ∷ record { valid = true; lock = false; p_state = some started } ∷ [];
}

request_3-decrypts : decrypt_id toy_crypto (replicate 32 4) request_3 ≡ ok 3
unfolding decrypt_id aes_gcm_decrypt aes_gcm_run
request_3-decrypts = refl

cds_stored : stored cds_state 3 ≡ some toy_prk
unfolding stored
cds_stored = refl

server_call-query_of_example :
    (server_call toy_crypto toy_platform
      (cds_server toy_crypto toy_platform toy_runtime)
      (some query)
      (some header)
      (some 100)
      (length sealed.0)
      0
      1
      cds_state).0
    ≡ ok tt
server_call-query_of_example =
    server_call-query_of toy_crypto toy_laws toy_platform toy_runtime query_key (replicate 32 1)
      (replicate 12 3) queried 8192 refl refl
      (omega arith, (omega arith, (omega arith, (omega arith, (omega arith, tt))))) (omega arith)
      (λ e. absurd (omega arith)) refl (omega arith) (omega arith) header 100 0 1 3 toy_prk
      cds_state started refl request_3-decrypts cds_stored refl (omega arith) refl refl
      (omega arith) refl
