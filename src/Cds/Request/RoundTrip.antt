-- ===== src/Cds/Request/RoundTrip.antt =====
-- A request as a client makes it, and what the service decodes.
use contact_discovery_servic.Prelude.{
  ℕ, suc, ◌+◌, ◌-◌, ◌*◌, ◌/◌, ◌%◌, ◌^◌, ◌<◌, ◌≡◌, ◌≢◌, refl, sym, map, ap, ap₂, ◌∙◌, ltb, leb, ◌==◌,
  ==_iff, ==_of_ne, Bool, true, false, List, [], ◌∷◌, ◌++◌, length, drop, length-append, take_all,
  drop-append, All, ok, arith,
}
use mathlib.Core.Path.{subst}
use contact_discovery_servic.Sgxsd.Types.{Bytes, key_size, encode_le, decode_le}
use contact_discovery_servic.Sgxsd.Crypto.{Crypto, Laws}
use contact_discovery_servic.Sgxsd.AesGcm.RoundTrip.{seal, unseal-seal, length-seal}
use contact_discovery_servic.Cds.Request.{
  CallArgs, commitment_nonce_size, bytes_per_phone, same_bytes, decode_phones, request_phones,
  decrypt_query, verify_commitment, decode_bytes, decode_phone_list, new_slice, read_bytes,
}
use contact_discovery_servic.Cds.Request.Decoding.{opened_or, decrypt_query-unseal}

-- The phones one after the other, lowest byte first.
abbrev pub encode_phones : List ℕ → Bytes
encode_phones [] = []
encode_phones (p ∷ phones) = encode_le 8 p ++ encode_phones phones

decode_phones-encode :
    (phones : List ℕ) → All (λ p. p < 2 ^ 64) phones → decode_phones (encode_phones phones) ≡ phones
unfolding decode_phones
decode_phones-encode [] words = refl
decode_phones-encode (p ∷ phones) (word, words) =
    ap₂ (λ q qs. q ∷ qs) (omega arith) (decode_phones-encode phones words)

pub length-encode_phones : (phones : List ℕ) → length (encode_phones phones) ≡ length phones * 8
length-encode_phones [] = refl
length-encode_phones (p ∷ phones) = omega (arith, length-encode_phones phones)

same_bytes_refl : (bytes : Bytes) → same_bytes bytes bytes ≡ true
same_bytes_refl [] = refl
same_bytes_refl (b ∷ bytes) = rw ((==_iff b b).1 refl) (same_bytes_refl bytes)

-- `write_u64::<BigEndian>`
abbrev pub encode_be : ℕ → Bytes
encode_be p =
    p / 2 ^ 56 % 256
    ∷ p / 2 ^ 48 % 256
    ∷ p / 2 ^ 40 % 256
    ∷ p / 2 ^ 32 % 256
    ∷ p / 2 ^ 24 % 256
    ∷ p / 2 ^ 16 % 256
    ∷ p / 2 ^ 8 % 256
    ∷ p % 256
    ∷ []

-- `be_phone_data` of `discovery_request` in client/cds_client/src/lib.rs
abbrev pub be_phones : List ℕ → Bytes
be_phones [] = []
be_phones (p ∷ phones) = encode_be p ++ be_phones phones

-- The word that a little-endian machine reads where the client wrote the phone.
abbrev pub swap_bytes : ℕ → ℕ
swap_bytes p = decode_le (encode_be p)

encode_le-decode_le :
    (bytes : Bytes) → All (λ b. b < 256) bytes → encode_le (length bytes) (decode_le bytes) ≡ bytes
encode_le-decode_le [] small = refl
encode_le-decode_le (b ∷ bytes) (here, small) =
    let rest : (b + 256 * decode_le bytes) / 256 ≡ decode_le bytes = omega arith in
    ap₂ (λ q qs. q ∷ qs) (omega arith)
      (ap (encode_le (length bytes)) rest ∙ encode_le-decode_le bytes small)

digits : (p : ℕ) → All (λ b. b < 256) (encode_be p)
digits p = (
  omega arith,
  (
    omega arith,
    (omega arith, (omega arith, (omega arith, (omega arith, (omega arith, (omega arith, tt)))))),
  ),
)

be_phones-encode : (phones : List ℕ) → be_phones phones ≡ encode_phones (map swap_bytes phones)
be_phones-encode [] = refl
be_phones-encode (p ∷ phones) =
    ap₂ (λ bs rest. bs ++ rest) (sym (encode_le-decode_le (encode_be p) (digits p)))
      (be_phones-encode phones)

length-swapped : (phones : List ℕ) → length (map swap_bytes phones) ≡ length phones
length-swapped [] = refl
length-swapped (p ∷ phones) = ap suc (length-swapped phones)

swapped_words : (phones : List ℕ) → All (λ p. p < 2 ^ 64) (map swap_bytes phones)
swapped_words [] = tt
swapped_words (p ∷ phones) = (omega arith, swapped_words phones)

module _ (c : Crypto) where
  abbrev pub plain : Bytes → List ℕ → Bytes
  plain nonce phones = nonce ++ encode_phones phones

  -- A query for the phones that the service reads, of its key, its nonce, an IV, its phones, and where the query stands.
  abbrev pub query_of : Bytes → Bytes → Bytes → List ℕ → ℕ → CallArgs
  query_of key nonce iv phones address =
      let (ct, tag) = seal c key iv [] (plain nonce phones) in
      record {
        query_phone_count = length phones;
        query = record {
          iv = iv;
          mac = tag;
          size = length ct;
          buffer = record { address = address; target = ct };
        };
        query_commitment = c.sha256_out (c.sha256_update c.sha256_init (plain nonce phones));
      }

  module _ (laws : Laws c) (key nonce iv : Bytes) (phones : List ℕ) (address : ℕ)
      (key_sized : length key ≡ key_size) (nonce_sized : length nonce ≡ commitment_nonce_size)
      (words : All (λ p. p < 2 ^ 64) phones) (small : length (plain nonce phones) < 2 ^ 32) where
    sealed_length : length (seal c key iv [] (plain nonce phones)).0 ≡ 32 + length phones * 8
    sealed_length =
        length-seal c laws key iv [] (plain nonce phones)
        ∙ length-append nonce (encode_phones phones)
        ∙ omega (arith, length-encode_phones phones)

    query_opens :
        decrypt_query c key
          (query_of key nonce iv phones address).query
          (seal c key iv [] (plain nonce phones)).0
        ≡ ok (plain nonce phones)
    query_opens =
        decrypt_query-unseal c laws key (query_of key nonce iv phones address).query
          (seal c key iv [] (plain nonce phones)).0 key_sized
          (omega (arith, length-seal c laws key iv [] (plain nonce phones)))
        ∙ ap opened_or (unseal-seal c laws key iv [] (plain nonce phones))

    phones_listed : request_phones (plain nonce phones) ≡ phones
    phones_listed =
        ap decode_phones (
          subst (λ n. drop n (plain nonce phones) ≡ encode_phones phones) nonce_sized
            (drop-append nonce (encode_phones phones)))
        ∙ decode_phones-encode phones words

    bytes_decoded :
        decode_bytes c
          (query_of key nonce iv phones address)
          key
          (seal c key iv [] (plain nonce phones)).0
        ≡ ok phones
    unfolding decode_bytes verify_commitment
    bytes_decoded =
        let ct = (seal c key iv [] (plain nonce phones)).0 in
        let long : ltb (length ct) commitment_nonce_size ≡ false = ground (arith, sealed_length) in
        let whole : ((length ct - commitment_nonce_size) % bytes_per_phone == 0) ≡ true =
          (==_iff _ _).1 (omega (arith, sealed_length)) in
        let counted : ((length ct - commitment_nonce_size) / bytes_per_phone == length phones)
            ≡ true =
          (==_iff _ _).1 (omega (arith, sealed_length)) in
        let hash = c.sha256_out (c.sha256_update c.sha256_init (plain nonce phones)) in
        rw
          (
            long,
            (==_iff (length key) key_size).1 key_sized,
            whole,
            counted,
            query_opens,
            same_bytes_refl hash,
          )
          (ap ok phones_listed)

    -- A query of less than 2^32 bytes, with a key and a nonce of 32 bytes, for phones that are words,
    -- which stands outside the enclave, not at NULL, and does not wrap, is decoded to its phones.
    pub decode_phone_list-query_of :
        (sgx_is_outside_enclave : ℕ → ℕ → Bool)
        → address ≢ 0
        → sgx_is_outside_enclave address (length (plain nonce phones)) ≡ true
        → address + length (plain nonce phones) < 2 ^ 64
        → decode_phone_list c sgx_is_outside_enclave (query_of key nonce iv phones address) key
          ≡ ok phones
    unfolding decode_phone_list new_slice read_bytes
    decode_phone_list-query_of outside somewhere allowed fits =
        let ct = (seal c key iv [] (plain nonce phones)).0 in
        let sized : length ct ≡ length (plain nonce phones) =
          length-seal c laws key iv [] (plain nonce phones) in
        let some_bytes : (length ct == 0) ≡ false = ground (arith, sealed_length) in
        let outside_enclave : outside address (length ct) ≡ true =
          ap (outside address) sized ∙ allowed in
        let no_wrap : ltb ((address + length ct) % 2 ^ 64) address ≡ false = ground arith in
        let all : leb (length ct) (length ct) ≡ true = ground arith in
        rw
          (
            some_bytes,
            ==_of_ne address 0 somewhere,
            outside_enclave,
            no_wrap,
            all,
            take_all (length ct) ct (omega arith),
          )
          bytes_decoded

  -- The query of `discovery_request` in client/cds_client/src/lib.rs, of its key, its nonce, an IV and
  -- its phones, at the address to which the host copies it.
  abbrev pub client_query : Bytes → Bytes → Bytes → List ℕ → ℕ → CallArgs
  client_query key nonce iv phones address =
      let query_data = nonce ++ be_phones phones in
      let (ct, tag) = seal c key iv [] query_data in
      record {
        query_phone_count = length phones;
        query = record {
          iv = iv;
          mac = tag;
          size = length ct;
          buffer = record { address = address; target = ct };
        };
        query_commitment = c.sha256_out (c.sha256_update c.sha256_init query_data);
      }

  client_query-query_of :
      (key nonce iv : Bytes) (phones : List ℕ) (address : ℕ)
      → client_query key nonce iv phones address
        ≡ query_of key nonce iv (map swap_bytes phones) address
  client_query-query_of key nonce iv phones address =
      rw (be_phones-encode phones, length-swapped phones) refl

  -- The repository's client seals a query under a key of 32 bytes, with a nonce of 32 bytes and any
  -- phones, each as eight bytes, highest first. If the query has less than 2^32 bytes and stands
  -- outside the enclave, not at NULL, and does not wrap, the service decodes it to as many words, in
  -- the same order: each is the client's phone with its eight bytes reversed. This is under the laws of
  -- the cryptography.
  pub decode_phone_list-client_query :
      (laws : Laws c) (key nonce iv : Bytes) (phones : List ℕ) (address : ℕ)
      → length key ≡ key_size
      → length nonce ≡ commitment_nonce_size
      → length (nonce ++ be_phones phones) < 2 ^ 32
      → (sgx_is_outside_enclave : ℕ → ℕ → Bool) → address ≢ 0
      → sgx_is_outside_enclave address (length (nonce ++ be_phones phones)) ≡ true
      → address + length (nonce ++ be_phones phones) < 2 ^ 64
      → decode_phone_list c sgx_is_outside_enclave (client_query key nonce iv phones address) key
        ≡ ok (map swap_bytes phones)
  decode_phone_list-client_query laws key nonce iv phones address keyed nonced small outside
        somewhere allowed fits =
      let same = ap (λ bs. length (nonce ++ bs)) (be_phones-encode phones) in
      ap (λ args. decode_phone_list c outside args key)
        (client_query-query_of key nonce iv phones address)
      ∙ decode_phone_list-query_of laws key nonce iv (map swap_bytes phones) address keyed nonced
          (swapped_words phones) (omega (arith, same)) outside somewhere
          (ap (outside address) (sym same) ∙ allowed) (omega (arith, same))
