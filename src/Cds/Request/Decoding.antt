-- ===== src/Cds/Request/Decoding.antt =====
-- A request that is decoded has as many phones as its arguments say.
use contact_discovery_servic.Prelude.{
  ℕ, ◌/◌, ◌^◌, ◌<◌, ◌≡◌, inl, inr, refl, sym, ap, ◌∙◌, ltb, leb, ◌==◌, ==_iff, Bool, false,
  Bool-cases, not, if◌then◌else◌, Option, none, some, List, [], ◌∷◌, length, drop, length-drop,
  Result, ok, err, err-ne-ok, ok-injective, if-ok, and_then-ok, ok_or, arith,
}
use mathlib.Core.Option.{some-injective, none-ne-some}
use contact_discovery_servic.Sgxsd.Types.{
  Bytes, Status, invalid_parameter, mac_mismatch, is_success, key_size,
}
use contact_discovery_servic.Sgxsd.Crypto.{Crypto, Laws}
use contact_discovery_servic.Sgxsd.AesGcm.{contents, start, transform}
use contact_discovery_servic.Sgxsd.AesGcm.RoundTrip.{
  unseal, unsealed, length-transform, aes_gcm_decrypt-unseal,
}
use contact_discovery_servic.Cds.Request.{
  CallArgs, EncryptedMsg, commitment_nonce_size, decode_phones, request_phones, decrypt_query,
  verify_commitment, bad_sizes, decode_bytes, decode_phone_list, new_slice, read_bytes,
}

pub length-decode_phones : (bytes : Bytes) → length (decode_phones bytes) ≡ length bytes / 8
unfolding decode_phones
length-decode_phones [] = refl
length-decode_phones (b0 ∷ []) = refl
length-decode_phones (b0 ∷ b1 ∷ []) = refl
length-decode_phones (b0 ∷ b1 ∷ b2 ∷ []) = refl
length-decode_phones (b0 ∷ b1 ∷ b2 ∷ b3 ∷ []) = refl
length-decode_phones (b0 ∷ b1 ∷ b2 ∷ b3 ∷ b4 ∷ []) = refl
length-decode_phones (b0 ∷ b1 ∷ b2 ∷ b3 ∷ b4 ∷ b5 ∷ []) = refl
length-decode_phones (b0 ∷ b1 ∷ b2 ∷ b3 ∷ b4 ∷ b5 ∷ b6 ∷ []) = refl
length-decode_phones (b0 ∷ b1 ∷ b2 ∷ b3 ∷ b4 ∷ b5 ∷ b6 ∷ b7 ∷ bytes) =
    omega (arith, length-decode_phones bytes)

-- The outcome of a decryption.
abbrev pub opened_or : Option Bytes → Result Status Bytes
opened_or none = err mac_mismatch
opened_or (some bytes) = ok bytes

module _ (c : Crypto) (laws : Laws c) where
  pub decrypt_query-unseal :
      (key : Bytes) (query : EncryptedMsg) (bytes : Bytes)
      → length key ≡ key_size
      → length bytes < 2 ^ 32
      → decrypt_query c key query bytes ≡ opened_or (unseal c key query.iv [] bytes query.mac)
  unfolding decrypt_query
  decrypt_query-unseal key query bytes sized small =
      let whole : leb (2 ^ 32) (length bytes) ≡ false = ground arith in
      rw
        (
          (==_iff (length key) key_size).1 sized,
          whole,
          aes_gcm_decrypt-unseal c laws key query.iv [] bytes query.mac bytes refl,
        )
        (either (unseal c key query.iv [] bytes query.mac))
    where
      either :
          (o : Option Bytes)
          → (if is_success (unsealed c o (length bytes) query.mac).status
              then ok (contents (unsealed c o (length bytes) query.mac).dst)
              else err (unsealed c o (length bytes) query.mac).status)
            ≡ opened_or o
      either none = refl
      either (some opened) = refl

  length-unseal :
      (key iv aad ct tag p : Bytes) → unseal c key iv aad ct tag ≡ some p → length p ≡ length ct
  unfolding unseal
  length-unseal key iv aad ct tag p e =
      let (x, q) = transform c false (start c key iv aad (length aad)) ct (length ct) in
      let sized : length q ≡ length ct =
        length-transform c laws false (start c key iv aad (length aad)) ct in
      elim (Bool-cases (c.gcm_check_tag x tag)) [
        | inl right ↦
            (let found : unseal c key iv aad ct tag ≡ some q = rw (unseal, right) refl in
              ap length (some-injective p q (sym e ∙ found)) ∙ sized)
        | inr wrong ↦
            (let missed : unseal c key iv aad ct tag ≡ none = rw (unseal, wrong) refl in
              absurd (none-ne-some p (sym missed ∙ e)))
      ]

  opened-ok : (o : Option Bytes) (bytes : Bytes) → opened_or o ≡ ok bytes → o ≡ some bytes
  opened-ok none bytes h = absurd (err-ne-ok mac_mismatch bytes h)
  opened-ok (some opened) bytes h = ap some (ok-injective opened bytes h)

  -- A query that is opened keeps its length.
  length-decrypt_query :
      (key : Bytes) (query : EncryptedMsg) (bytes opened : Bytes)
      → decrypt_query c key query bytes ≡ ok opened
      → length opened ≡ length bytes
  unfolding decrypt_query
  length-decrypt_query key query bytes opened e =
      let (sized, after) = if-ok (not (length key == key_size)) _ _ opened e in
      let (small, rest) = if-ok (leb (2 ^ 32) (length bytes)) _ _ opened after in
      length-unseal key query.iv [] bytes query.mac opened (
        opened-ok (unseal c key query.iv [] bytes query.mac) opened
          (sym (decrypt_query-unseal key query bytes (ground arith) (ground arith)) ∙ e))

  decode_bytes-length :
      (args : CallArgs) (request_data bytes : Bytes) (phones : List ℕ)
      → decode_bytes c args request_data bytes ≡ ok phones
      → length phones ≡ args.query_phone_count
  unfolding decode_bytes
  decode_bytes-length args request_data bytes phones e =
      let (long, after) = if-ok (ltb (length bytes) commitment_nonce_size) _ _ phones e in
      let (sizes, rest) = if-ok (bad_sizes c args request_data bytes) _ _ phones after in
      let (opened, decrypted, verified) =
        and_then-ok (decrypt_query c request_data args.query bytes) _ phones rest in
      let (u, same, listed) =
        and_then-ok (verify_commitment c opened args.query_commitment) _ phones verified in
      ap length (sym (ok-injective (request_phones opened) phones listed))
      ∙ length-decode_phones (drop commitment_nonce_size opened)
      ∙ ground (
        arith,
        length-decrypt_query request_data args.query bytes opened decrypted,
        length-drop commitment_nonce_size opened,
      )

  -- A request that is decoded has as many phones as its arguments say.
  pub decode_phone_list-length :
      (sgx_is_outside_enclave : ℕ → ℕ → Bool) (args : CallArgs) (request_data : Bytes)
      (phones : List ℕ)
      → decode_phone_list c sgx_is_outside_enclave args request_data ≡ ok phones
      → length phones ≡ args.query_phone_count
  unfolding decode_phone_list
  decode_phone_list-length outside args request_data phones e =
      let (slice, allowed, after) =
        and_then-ok (ok_or invalid_parameter (new_slice outside args.query.buffer args.query.size))
          _ phones e in
      let (bytes, read, rest) =
        and_then-ok (ok_or invalid_parameter (read_bytes slice args.query.size)) _ phones after in
      decode_bytes-length args request_data bytes phones rest
