-- ===== src/Sgxsd/Pending/Ids.antt =====
-- The encryption of request IDs: what add_pending_request hands out, the lookups read back.
use contact_discovery_servic.Prelude.{
  ℕ, zero, suc, ◌+◌, ◌/◌, ◌^◌, ◌<◌, ◌≡◌, sym, ap, ◌∙◌, none, some, [], arith, length, ◌++◌,
  length-append, ok,
}
use contact_discovery_servic.Sgxsd.Types.{
  Bytes, PendingRequestId, encode_le, decode_le, id_bytes, iv_size, mac_size,
}
use contact_discovery_servic.Sgxsd.Crypto.{Crypto, Laws}
use contact_discovery_servic.Sgxsd.AesGcm.{aes_gcm_decrypt}
use contact_discovery_servic.Sgxsd.AesGcm.RoundTrip.{
  seal, unsealed, unseal-seal, length-seal, aes_gcm_encrypt_null_aad, aes_gcm_decrypt_null_aad,
}
use contact_discovery_servic.Sgxsd.Pending.{id_size, encrypt_id, decrypt_id}
use native.Mathlib.Nat.{pow-suc}

-- The lowest bytes of a number, read back.
decode-encode : (n x : ℕ) → x < 256 ^ n → decode_le (encode_le n x) ≡ x
decode-encode zero x h = omega arith
decode-encode (suc n) x h = omega (arith, decode-encode n (x / 256) (omega (arith, pow-suc 256 n)))

length-three : (a b d : Bytes) → length (a ++ b ++ d) ≡ length a + (length b + length d)
length-three a b d = omega (arith, length-append (a ++ b) d, length-append a b)

module _ (c : Crypto) (l : Laws c) where
  -- The ID's encryption as a value.
  abbrev pub sealed_id : Bytes → Bytes → ℕ → PendingRequestId
  sealed_id key iv id =
      let (ct, mac) = seal c key iv [] (encode_le id_size id) in
      record { body = ct; iv = iv; mac = mac }

  pub encrypt_id-sealed_id :
      (key iv : Bytes) (out : PendingRequestId) (id : ℕ)
      → length out.body ≡ id_size
      → encrypt_id c key out iv id ≡ ok (sealed_id key iv id)
  unfolding encrypt_id
  encrypt_id-sealed_id key iv out id h =
      rw (aes_gcm_encrypt_null_aad c l key iv (encode_le id_size id) out.mac out.body h)

  pub decrypt_id-sealed_id :
      (key iv : Bytes) (id : ℕ) → id < 2 ^ 64 → decrypt_id c key (sealed_id key iv id) ≡ ok id
  unfolding decrypt_id
  decrypt_id-sealed_id key iv id h =
      let plain : Bytes = encode_le id_size id in
      let (ct, mac) = seal c key iv [] plain in
      let n : length ct ≡ id_size = length-seal c l key iv [] plain in
      let opened =
        ap
          (λ k.
            aes_gcm_decrypt c (some key) (some ct) k (some (encode_le id_size 0)) (some iv) none 0
              (some mac))
          (sym n)
        ∙ aes_gcm_decrypt_null_aad c l key iv ct mac (encode_le id_size 0) (sym n)
        ∙ ap (λ o. unsealed c o (length ct) mac) (unseal-seal c l key iv [] plain) in
      rw opened (ap ok (decode-encode id_size id h))

  length-mac : (key iv plain : Bytes) → length (seal c key iv [] plain).1 ≡ mac_size
  unfolding seal
  length-mac key iv plain = l.length-tag _

  pub length-id_bytes :
      (key iv : Bytes) (id : ℕ) → length iv ≡ iv_size → length (id_bytes (sealed_id key iv id)) ≡ 36
  length-id_bytes key iv id h =
      let ct : Bytes = (seal c key iv [] (encode_le id_size id)).0 in
      let mac : Bytes = (seal c key iv [] (encode_le id_size id)).1 in
      let ct_size : length ct ≡ 8 = length-seal c l key iv [] (encode_le id_size id) in
      let mac_is : length mac ≡ 16 = length-mac key iv (encode_le id_size id) in
      length-three ct iv mac ∙ omega (arith, ct_size, mac_is, h)
