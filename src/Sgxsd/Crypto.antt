-- ===== src/Sgxsd/Crypto.antt =====
-- The third-party cryptography that the file calls: BearSSL's SHA-256 and AES-GCM, and
-- curve25519-donna. `Laws` is what their headers document and the theorems use.
use contact_discovery_servic.Prelude.{◌≡◌, ◌↔◌, Bool, true, false, ◌++◌, length}
use contact_discovery_servic.Sgxsd.Types.{Bytes, mac_size, hash_size}

pub record Crypto : Type 1 where
  pub ShaContext : Type 0
  pub sha256_init : ShaContext
  pub sha256_update : ShaContext → Bytes → ShaContext
  pub sha256_out : ShaContext → Bytes
  pub GcmContext : Type 0
  -- `br_aes_x86ni_ctr_init` with the key, then `br_gcm_init`
  pub gcm_init : Bytes → GcmContext
  pub gcm_reset : GcmContext → Bytes → GcmContext
  pub gcm_aad_inject : GcmContext → Bytes → GcmContext
  pub gcm_flip : GcmContext → GcmContext
  -- `br_gcm_run` works in place: the new context and what the buffer then holds
  pub gcm_run : Bool → GcmContext → Bytes → GcmContext × Bytes
  pub gcm_get_tag : GcmContext → Bytes
  pub gcm_check_tag : GcmContext → Bytes → Bool
  -- `curve25519_donna(out, secret, basepoint)` as a function of its inputs
  pub curve25519_donna : Bytes → Bytes → Bytes

pub record Laws (c : Crypto) : Type 0 where
  -- Updating twice hashes the concatenation.
  pub update-update :
      (x : c.ShaContext) (a b : Bytes)
      → c.sha256_update (c.sha256_update x a) b ≡ c.sha256_update x (a ++ b)
  pub length-out : (x : c.ShaContext) → length (c.sha256_out x) ≡ hash_size
  -- Decryption undoes encryption from the same context, and ends with the same tag.
  pub run_inverse :
      (x : c.GcmContext) (d : Bytes) → (c.gcm_run false x (c.gcm_run true x d).1).1 ≡ d
  pub run_tag :
      (x : c.GcmContext) (d : Bytes)
      → c.gcm_get_tag (c.gcm_run false x (c.gcm_run true x d).1).0
        ≡ c.gcm_get_tag (c.gcm_run true x d).0
  pub length-run : (e : Bool) (x : c.GcmContext) (d : Bytes) → length (c.gcm_run e x d).1 ≡ length d
  pub check_tag_iff :
      (x : c.GcmContext) (t : Bytes) → (c.gcm_check_tag x t ≡ true) ↔ (c.gcm_get_tag x ≡ t)
  pub length-tag : (x : c.GcmContext) → length (c.gcm_get_tag x) ≡ mac_size
