-- ===== src/Sgxsd/Sha256/Rfc.antt =====
-- The hashing helpers against RFC 2104 (HMAC) and RFC 5869 (HKDF-Expand with empty info).
use contact_discovery_servic.Prelude.{
  ℕ, zero, suc, ◌+◌, ◌-◌, ◌%◌, ◌≤◌, ◌≡◌, refl, sym, ap, ap₂, ◌∙◌, inl, inr, ◌==◌, false, bit_xor,
  ltb, if◌then◌else◌, Option, none, some, List, [], ◌∷◌, ◌++◌, append-nil, append_assoc, arith,
  length, take, take_all, replicate, Bool-cases,
}
use contact_discovery_servic.Sgxsd.Types.{Bytes, PendingRequest, key_size, hash_size}
use contact_discovery_servic.Sgxsd.Crypto.{Crypto, Laws}
use contact_discovery_servic.Sgxsd.Sha256.{
  xor_into, block_size, HkdfBuf, hkdf_start, update_all, sha256, hmac_sha256, ra_hkdf_round,
  derive_request_keys,
}

abbrev pub concat : List Bytes → Bytes
concat [] = []
concat (b ∷ bs) = b ++ concat bs

-- The exclusive or of two strings of one length.
abbrev pub xor_bytes : Bytes → Bytes → Bytes
xor_bytes [] bs = []
xor_bytes (a ∷ as') [] = []
xor_bytes (a ∷ as') (b ∷ bs) = bit_xor a b ∷ xor_bytes as' bs

-- K filled up with zeros to the block.
abbrev pub padded : Bytes → Bytes
padded key = key ++ replicate (block_size - length key) 0

xor_bytes-zeros :
    (n v : ℕ) → bit_xor v 0 ≡ v → xor_bytes (replicate n v) (replicate n 0) ≡ replicate n v
xor_bytes-zeros zero v e = refl
xor_bytes-zeros (suc n) v e = ap₂ ◌∷◌ e (xor_bytes-zeros n v e)

xor_into-padded :
    (n v : ℕ) (key : Bytes)
    → length key ≤ n
    → bit_xor v 0 ≡ v
    → xor_into (replicate n v) key ≡ xor_bytes (replicate n v) (key ++ replicate (n - length key) 0)
unfolding xor_into
xor_into-padded zero v key h e = refl
xor_into-padded (suc n) v [] h e =
    let whole : suc n - 0 ≡ suc n = omega arith in rw whole (sym (xor_bytes-zeros (suc n) v e))
xor_into-padded (suc n) v (k ∷ key) h e =
    let rest : suc n - suc (length key) ≡ n - length key = omega arith in
    rw rest (ap (λ r. bit_xor v k ∷ r) (xor_into-padded n v key (omega arith) e))

module _ (c : Crypto) where
  -- The hash of one string.
  abbrev pub hash : Bytes → Bytes
  hash m = c.sha256_out (c.sha256_update c.sha256_init m)

  unfoldable pub rfc2104 : Bytes → Bytes → Bytes
  rfc2104 key text =
      let k = padded (if ltb block_size (length key) then hash key else key) in
      hash (
        xor_bytes (replicate block_size 0x5c) k
        ++ hash (xor_bytes (replicate block_size 0x36) k ++ text))

  -- T(i) of RFC 5869, with no info.
  unfoldable pub rfc5869 : Bytes → ℕ → Bytes
  rfc5869 prk zero = []
  rfc5869 prk (suc i) = rfc2104 prk (rfc5869 prk i ++ suc i ∷ [])

  abbrev pub rounds : Bytes → ℕ → HkdfBuf → HkdfBuf
  rounds prk zero buf = buf
  rounds prk (suc i) buf = ra_hkdf_round c prk (rounds prk i buf)

  module _ (l : Laws c) where
    update_all-concat :
        (x : c.ShaContext) (b : Bytes) (bufs : List Bytes)
        → update_all c x (b ∷ bufs) ≡ c.sha256_update x (b ++ concat bufs)
    unfolding update_all
    update_all-concat x b [] = rw append-nil
    update_all-concat x b (b' ∷ bufs) = rw (l.update-update x b b') (
        update_all-concat x (b ++ b') bufs
        ∙ ap (c.sha256_update x) (append_assoc b b' (concat bufs)))

    -- The hash of one or more buffers is the hash of their concatenation.
    pub sha256-concat :
        (b : Bytes) (bufs : List Bytes) → sha256 c (b ∷ bufs) ≡ hash (b ++ concat bufs)
    unfolding sha256
    sha256-concat b bufs = ap c.sha256_out (update_all-concat c.sha256_init b bufs)

    -- Both passes, with a key of at most a block.
    hmac_block :
        (k b : Bytes) (bufs : List Bytes)
        → length k ≤ block_size
        → sha256 c (
            xor_into (replicate block_size 0x5c) k
            ∷ sha256 c (xor_into (replicate block_size 0x36) k ∷ b ∷ bufs)
            ∷ [])
          ≡ hash (
              xor_bytes (replicate block_size 0x5c) (padded k)
              ++ hash (xor_bytes (replicate block_size 0x36) (padded k) ++ (b ++ concat bufs)))
    hmac_block k b bufs h =
        sha256-concat outer (inner ∷ [])
        ∙ ap₂ (λ o t. hash (o ++ t)) outer_lem (append-nil inner ∙ inner_lem)
      where
        outer : Bytes
        outer = xor_into (replicate block_size 0x5c) k

        inner : Bytes
        inner = sha256 c (xor_into (replicate block_size 0x36) k ∷ b ∷ bufs)

        outer_lem : outer ≡ xor_bytes (replicate block_size 0x5c) (padded k)
        outer_lem = xor_into-padded block_size 0x5c k h refl

        inner_lem :
            inner ≡ hash (xor_bytes (replicate block_size 0x36) (padded k) ++ (b ++ concat bufs))
        inner_lem =
            sha256-concat (xor_into (replicate block_size 0x36) k) (b ∷ bufs)
            ∙ ap (λ t. hash (t ++ (b ++ concat bufs))) (xor_into-padded block_size 0x36 k h refl)

    -- For every key, shorter or longer than a block, and every message in one or more buffers, the
    -- result is the HMAC of RFC 2104 over the concatenated message.
    -- This is under the laws of the cryptography.
    pub hmac_sha256-rfc2104 :
        (key b : Bytes) (bufs : List Bytes)
        → hmac_sha256 c key (b ∷ bufs) ≡ rfc2104 key (b ++ concat bufs)
    unfolding hmac_sha256 rfc2104
    hmac_sha256-rfc2104 key b bufs = elim (Bool-cases (ltb block_size (length key))) [
      | inl long ↦
          rw (long, sha256-concat key [], append-nil key)
            (hmac_block (hash key) b bufs
              (omega (arith, l.length-out (c.sha256_update c.sha256_init key))))
      | inr short ↦ rw short (hmac_block key b bufs (ground arith))
    ]

    round_first :
        (prk t : Bytes)
        → ra_hkdf_round c prk (record { t_n = t; n = 0 })
          ≡ record { t_n = rfc2104 prk (1 ∷ []); n = 1 }
    unfolding ra_hkdf_round
    round_first prk t =
        let counted : Bytes → HkdfBuf = λ t'. record { t_n = t'; n = 1 } in
        ap counted (hmac_sha256-rfc2104 prk (1 ∷ []) [])

    round_next :
        (prk t : Bytes) (i : ℕ)
        → suc (suc i) ≤ 255
        → ra_hkdf_round c prk (record { t_n = t; n = suc i })
          ≡ record { t_n = rfc2104 prk (t ++ suc (suc i) ∷ []); n = suc (suc i) }
    unfolding ra_hkdf_round
    round_next prk t i h =
        let counted : (suc i + 1) % 256 ≡ suc (suc i) = omega arith in
        let later : (suc (suc i) == 1) ≡ false = ground arith in
        let next : Bytes → HkdfBuf = λ t'. record { t_n = t'; n = suc (suc i) } in
        rw (counted, later)
          (ap next (
            hmac_sha256-rfc2104 prk (t ++ suc (suc i) ∷ []) []
            ∙ ap (rfc2104 prk) (append-nil (t ++ suc (suc i) ∷ []))))

    -- From the zeroed buffer, after i rounds, up to the 255 that the counter's byte allows: the
    -- output is HKDF-Expand's T(i), and the counter is i.
    -- This is under the laws of the cryptography.
    pub rounds-rfc5869 :
        (prk : Bytes) (i : ℕ)
        → suc i ≤ 255
        → rounds prk (suc i) hkdf_start ≡ record { t_n = rfc5869 prk (suc i); n = suc i }
    unfolding rfc5869
    rounds-rfc5869 prk zero h = round_first prk (replicate hash_size 0)
    rounds-rfc5869 prk (suc i) h =
        ap (ra_hkdf_round c prk) (rounds-rfc5869 prk i (omega arith))
        ∙ round_next prk (rfc5869 prk (suc i)) i h

    pub length-rfc5869 : (prk : Bytes) (i : ℕ) → length (rfc5869 prk (suc i)) ≡ hash_size
    unfolding rfc5869 rfc2104
    length-rfc5869 prk i = l.length-out _

    take_key : (prk : Bytes) (i : ℕ) → take key_size (rfc5869 prk (suc i)) ≡ rfc5869 prk (suc i)
    take_key prk i = take_all key_size (rfc5869 prk (suc i)) (omega (arith, length-rfc5869 prk i))

    -- The client's sending key is T(1) and the server's is T(2) of the request's pseudo-random
    -- key, 32 bytes each, whatever the buffers held before.
    -- This is under the laws of the cryptography.
    pub derive_request_keys-rfc5869 :
        (r : PendingRequest) (client server : Bytes)
        → derive_request_keys c r (some client) (some server)
          ≡ (some (rfc5869 r.hkdf_prk 1), some (rfc5869 r.hkdf_prk 2))
    unfolding derive_request_keys
    derive_request_keys-rfc5869 r client server =
        let keys : HkdfBuf → HkdfBuf → Option Bytes × Option Bytes =
          λ a b. (some (take key_size a.t_n), some (take key_size b.t_n)) in
        let whole : Bytes → Bytes → Option Bytes × Option Bytes = λ a b. (some a, some b) in
        ap₂ keys (rounds-rfc5869 r.hkdf_prk 0 (omega arith))
          (rounds-rfc5869 r.hkdf_prk 1 (omega arith))
        ∙ ap₂ whole (take_key r.hkdf_prk 0) (take_key r.hkdf_prk 1)

    -- A NULL pointer for the client's key leaves the server's as it is.
    pub derive_request_keys_null :
        (r : PendingRequest) (server : Bytes)
        → derive_request_keys c r none (some server) ≡ (none, some (rfc5869 r.hkdf_prk 2))
    unfolding derive_request_keys
    derive_request_keys_null r server =
        let key : HkdfBuf → Option Bytes × Option Bytes = λ b. (none, some (take key_size b.t_n)) in
        let whole : Bytes → Option Bytes × Option Bytes = λ b. (none, some b) in
        ap key (rounds-rfc5869 r.hkdf_prk 1 (omega arith)) ∙ ap whole (take_key r.hkdf_prk 1)
