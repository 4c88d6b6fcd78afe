-- ===== src/Sgxsd/AesGcm/RoundTrip.antt =====
-- What the callers of sgxsd_aes_gcm_run rely on: it is authenticated encryption.
use contact_discovery_servic.Prelude.{
  ℕ, ◌≡◌, refl, sym, ◌∙◌, inl, inr, Bool, true, false, if◌then◌else◌, Option, none, some, [], ◌∷◌,
  ◌++◌, append-nil, arith, length, length-replicate, drop, replicate, Bool-cases, take_all,
  drop_all,
}
use contact_discovery_servic.Sgxsd.Types.{Bytes, success, mac_mismatch}
use contact_discovery_servic.Sgxsd.Crypto.{Crypto, Laws}
use contact_discovery_servic.Sgxsd.AesGcm.{
  GcmResult, start, transform, aes_gcm_run, aes_gcm_encrypt, aes_gcm_decrypt,
}

-- A write over the whole buffer.
pub overwrite_all : (new old : Bytes) → length new ≡ length old → new ++ drop (length new) old ≡ new
overwrite_all new old h = rw (drop_all (length new) old (omega arith), append-nil)

module _ (c : Crypto) where
  -- Encryption of a whole message: the ciphertext and the tag.
  unfoldable pub seal : Bytes → Bytes → Bytes → Bytes → Bytes × Bytes
  seal key iv aad p =
      let (x, ct) = transform c true (start c key iv aad (length aad)) p (length p) in
      (ct, c.gcm_get_tag x)

  -- Decryption of a whole message, if its tag is right.
  unfoldable pub unseal : Bytes → Bytes → Bytes → Bytes → Bytes → Option Bytes
  unseal key iv aad ct tag =
      let (x, p) = transform c false (start c key iv aad (length aad)) ct (length ct) in
      if c.gcm_check_tag x tag then some p else none

  -- What decryption into a buffer of the message's length returns.
  abbrev pub unsealed : Option Bytes → ℕ → Bytes → GcmResult
  unsealed (some p) n mac = record { status = success; dst = some p; mac = some mac }
  unsealed none n mac = record { status = mac_mismatch; dst = some (replicate n 0); mac = some mac }

  module _ (l : Laws c) where
    pub length-transform :
        (e : Bool) (x : c.GcmContext) (d : Bytes)
        → length (transform c e x d (length d)).1 ≡ length d
    length-transform e x [] = refl
    length-transform e x (b ∷ d) = ground (arith, l.length-run e x (b ∷ d))

    -- Unsealing what was sealed under the same key, IV and additional data gives the message.
    pub unseal-seal :
        (key iv aad p : Bytes)
        → unseal key iv aad (seal key iv aad p).0 (seal key iv aad p).1 ≡ some p
    unfolding seal unseal
    unseal-seal key iv aad [] =
        let x = start c key iv aad (length aad) in
        ground (arith, l.check_tag_iff x (c.gcm_get_tag x))
    unseal-seal key iv aad (b ∷ p) =
        let x = start c key iv aad (length aad) in
        let (y, ct) = c.gcm_run true x (b ∷ p) in
        ground (
          arith,
          l.length-run true x (b ∷ p),
          l.run_inverse x (b ∷ p),
          l.run_tag x (b ∷ p),
          l.check_tag_iff (c.gcm_run false x ct).0 (c.gcm_get_tag y),
        )

    pub aes_gcm_decrypt-unseal :
        (key iv aad ct mac d : Bytes)
        → length d ≡ length ct
        → aes_gcm_decrypt c
            (some key)
            (some ct)
            (length ct)
            (some d)
            (some iv)
            (some aad)
            (length aad)
            (some mac)
          ≡ unsealed (unseal key iv aad ct mac) (length ct) mac
    unfolding aes_gcm_decrypt aes_gcm_run unseal
    aes_gcm_decrypt-unseal key iv aad ct mac d h =
        let (x, p) = transform c false (start c key iv aad (length aad)) ct (length ct) in
        let n = length-transform false (start c key iv aad (length aad)) ct in
        let zeroed =
          overwrite_all (replicate (length ct) 0) p (length-replicate (length ct) 0 ∙ sym n) in
        rw (take_all (length ct) ct (omega arith), overwrite_all p d (n ∙ sym h), zeroed)
          (elim (Bool-cases (c.gcm_check_tag x mac)) [
            | inl right ↦ rw right
            | inr wrong ↦ rw wrong
          ])

    -- The same for encryption: what `seal` gives.
    pub aes_gcm_encrypt-seal :
        (key iv aad p mac d : Bytes)
        → length d ≡ length p
        → aes_gcm_encrypt c
            (some key)
            (some p)
            (length p)
            (some d)
            (some iv)
            (some aad)
            (length aad)
            (some mac)
          ≡ record {
            status = success;
            dst = some (seal key iv aad p).0;
            mac = some (seal key iv aad p).1;
          }
    unfolding aes_gcm_encrypt aes_gcm_run seal
    aes_gcm_encrypt-seal key iv aad p mac d h =
        let (x, ct) = transform c true (start c key iv aad (length aad)) p (length p) in
        let n = length-transform true (start c key iv aad (length aad)) p in
        rw (take_all (length p) p (omega arith), overwrite_all ct d (n ∙ sym h))

    -- A NULL pointer to no additional data counts as empty.
    pub aes_gcm_decrypt_null_aad :
        (key iv ct mac d : Bytes)
        → length d ≡ length ct
        → aes_gcm_decrypt c (some key) (some ct) (length ct) (some d) (some iv) none 0 (some mac)
          ≡ unsealed (unseal key iv [] ct mac) (length ct) mac
    unfolding aes_gcm_decrypt aes_gcm_run
    aes_gcm_decrypt_null_aad key iv ct mac d h = aes_gcm_decrypt-unseal key iv [] ct mac d h

    pub aes_gcm_encrypt_null_aad :
        (key iv p mac d : Bytes)
        → length d ≡ length p
        → aes_gcm_encrypt c (some key) (some p) (length p) (some d) (some iv) none 0 (some mac)
          ≡ record {
            status = success;
            dst = some (seal key iv [] p).0;
            mac = some (seal key iv [] p).1;
          }
    unfolding aes_gcm_encrypt aes_gcm_run
    aes_gcm_encrypt_null_aad key iv p mac d h = aes_gcm_encrypt-seal key iv [] p mac d h

    pub length-seal : (key iv aad p : Bytes) → length (seal key iv aad p).0 ≡ length p
    unfolding seal
    length-seal key iv aad p = length-transform true (start c key iv aad (length aad)) p

    -- For every key, IV, additional data and message (of any length, none included), and whatever
    -- the two buffers and the tag held before: what sgxsd_aes_gcm_encrypt wrote,
    -- sgxsd_aes_gcm_decrypt takes back to the message, with SGX_SUCCESS and the tag unchanged.
    -- This is under the laws of the cryptography.
    pub aes_gcm_decrypt-encrypt :
        (key iv aad p d d' t : Bytes)
        → length d ≡ length p
        → length d' ≡ length p
        → let e =
            aes_gcm_encrypt c
              (some key)
              (some p)
              (length p)
              (some d)
              (some iv)
              (some aad)
              (length aad)
              (some t) in
          aes_gcm_decrypt c
            (some key)
            e.dst
            (length p)
            (some d')
            (some iv)
            (some aad)
            (length aad)
            e.mac
          ≡ record { status = success; dst = some p; mac = e.mac }
    aes_gcm_decrypt-encrypt key iv aad p d d' t h h' =
        let n = length-seal key iv aad p in
        rw (
          aes_gcm_encrypt-seal key iv aad p t d h,
          ← n,
          aes_gcm_decrypt-unseal key iv aad (seal key iv aad p).0 (seal key iv aad p).1 d'
              (h' ∙ sym n),
          unseal-seal key iv aad p,
        )
