-- ===== src/Sgxsd/Sha256.antt =====
-- sgxsd_enclave_sha256, sgxsd_enclave_hmac_sha256, sgxsd_enclave_ra_hkdf_round and
-- sgxsd_enclave_derive_request_keys of enclave/c_src/sgxsd-enclave.c. A `sgxsd_sha256_buf_t` is
-- the bytes that it points to.
pub mod Rfc
use contact_discovery_servic.Prelude.{
  ℕ, ◌+◌, ◌%◌, bit_xor, ltb, ◌==◌, if◌then◌else◌, Option, none, some, List, [], ◌∷◌, ◌++◌, length,
  take, replicate,
}
use contact_discovery_servic.Sgxsd.Types.{Bytes, PendingRequest, key_size, hash_size}
use contact_discovery_servic.Sgxsd.Crypto.{Crypto}

abbrev pub block_size : ℕ
block_size = 64

-- `for (key_idx...) pad[key_idx] ^= key_bytes[key_idx];`, the part of the loop behind a prefix
pub xor_into : Bytes → Bytes → Bytes
xor_into [] key = []
xor_into (p ∷ pad) [] = p ∷ pad
xor_into (p ∷ pad) (k ∷ key) = bit_xor p k ∷ xor_into pad key

-- `sgxsd_ra_hkdf_buf_t`
pub record HkdfBuf : Type 0 where
  pub t_n : Bytes
  pub n : ℕ

-- `{ .n = 0 }`
abbrev pub hkdf_start : HkdfBuf
hkdf_start = record { t_n = replicate hash_size 0; n = 0 }

-- A `memmove` into a key, unless the pointer is NULL.
abbrev pub put_key : Option Bytes → Bytes → Option Bytes
put_key none t = none
put_key (some old) t = some (take key_size t)

module _ (c : Crypto) where
  open c use {ShaContext, sha256_init, sha256_update, sha256_out}

  pub update_all : ShaContext → List Bytes → ShaContext
  update_all x [] = x
  update_all x (b ∷ bufs) = update_all (sha256_update x b) bufs

  pub sha256 : List Bytes → Bytes
  sha256 bufs = sha256_out (update_all sha256_init bufs)

  -- The first buffer is the key.
  pub hmac_sha256 : Bytes → List Bytes → Bytes
  hmac_sha256 key bufs =
      let k = if ltb block_size (length key) then sha256 (key ∷ []) else key in
      let i_key_pad = xor_into (replicate block_size 0x36) k in
      let o_key_pad = xor_into (replicate block_size 0x5c) k in
      sha256 (o_key_pad ∷ sha256 (i_key_pad ∷ bufs) ∷ [])

  -- `buf->n` is a `uint8_t`.
  pub ra_hkdf_round : Bytes → HkdfBuf → HkdfBuf
  ra_hkdf_round prk buf =
      let n = (buf.n + 1) % 256 in
      let hmac_data = if n == 1 then n ∷ [] else buf.t_n ++ n ∷ [] in
      record { t_n = hmac_sha256 prk (hmac_data ∷ []); n = n }

  -- The two keys after the call, each from the key before it, or NULL.
  pub derive_request_keys :
      PendingRequest → Option Bytes → Option Bytes → Option Bytes × Option Bytes
  derive_request_keys r client_key server_key =
      let t_1 = ra_hkdf_round r.hkdf_prk hkdf_start in
      let t_2 = ra_hkdf_round r.hkdf_prk t_1 in
      (put_key client_key t_1.t_n, put_key server_key t_2.t_n)
