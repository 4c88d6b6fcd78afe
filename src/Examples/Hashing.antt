-- ===== src/Examples/Hashing.antt =====
-- The cryptographic helpers, at the toy cryptography.
use contact_discovery_servic.Prelude.{◌≡◌, refl, arith, some, [], ◌∷◌, replicate}
use contact_discovery_servic.Sgxsd.Types.{Bytes, PendingRequest, success}
use contact_discovery_servic.Sgxsd.AesGcm.{GcmResult, aes_gcm_encrypt, aes_gcm_decrypt}
use contact_discovery_servic.Sgxsd.AesGcm.RoundTrip.{aes_gcm_decrypt-encrypt}
use contact_discovery_servic.Sgxsd.Sha256.{hmac_sha256, derive_request_keys, hkdf_start}
use contact_discovery_servic.Sgxsd.Sha256.Rfc.{
  rfc2104, rfc5869, rounds, hmac_sha256-rfc2104, rounds-rfc5869, derive_request_keys-rfc5869,
}
use contact_discovery_servic.Examples.Toy.{toy_crypto, toy_laws, toy_prk}

abbrev key : Bytes
key = replicate 32 2

abbrev iv : Bytes
iv = replicate 12 3

abbrev encrypted : GcmResult
encrypted =
    aes_gcm_encrypt toy_crypto (some key) (some (1 ∷ 2 ∷ [])) 2 (some (0 ∷ 0 ∷ [])) (some iv)
      (some (6 ∷ [])) 1 (some (replicate 16 0))

aes_gcm_decrypt-encrypt_example :
    aes_gcm_decrypt toy_crypto
      (some key)
      encrypted.dst
      2
      (some (0 ∷ 5 ∷ []))
      (some iv)
      (some (6 ∷ []))
      1
      encrypted.mac
    ≡ record { status = success; dst = some (1 ∷ 2 ∷ []); mac = encrypted.mac }
aes_gcm_decrypt-encrypt_example =
    aes_gcm_decrypt-encrypt toy_crypto toy_laws key iv (6 ∷ []) (1 ∷ 2 ∷ []) (0 ∷ 0 ∷ [])
      (0 ∷ 5 ∷ []) (replicate 16 0) refl refl

hmac_sha256-rfc2104_example :
    hmac_sha256 toy_crypto (replicate 70 1) ((4 ∷ []) ∷ (5 ∷ []) ∷ [])
    ≡ rfc2104 toy_crypto (replicate 70 1) (4 ∷ 5 ∷ [])
hmac_sha256-rfc2104_example =
    hmac_sha256-rfc2104 toy_crypto toy_laws (replicate 70 1) (4 ∷ []) ((5 ∷ []) ∷ [])

rounds-rfc5869_example :
    rounds toy_crypto toy_prk 2 hkdf_start ≡ record { t_n = rfc5869 toy_crypto toy_prk 2; n = 2 }
rounds-rfc5869_example = rounds-rfc5869 toy_crypto toy_laws toy_prk 1 (omega arith)

abbrev request : PendingRequest
request = record { id_val = 1; hkdf_prk = toy_prk }

derive_request_keys-rfc5869_example :
    derive_request_keys toy_crypto request (some key) (some [])
    ≡ (some (rfc5869 toy_crypto toy_prk 1), some (rfc5869 toy_crypto toy_prk 2))
derive_request_keys-rfc5869_example = derive_request_keys-rfc5869 toy_crypto toy_laws request key []
