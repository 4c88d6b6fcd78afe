-- ===== src/Cds/HashKey.antt =====
-- The module hash_key of enclave/cds_enclave/c_src/cds-enclave-hash.rs: AES as a keyed hash.
use contact_discovery_servic.Prelude.{
  ℕ, zero, suc, ◌-◌, ◌^◌, bit_and, Option, none, some, List, [], ◌∷◌,
}

-- The instructions on 128-bit vectors that the hash is made of, and `_rdrand64_step`, which gives a
-- number, or none when it reports a failure.
pub record Instructions (World : Type 0) : Type 1 where
  pub Vector : Type 0
  pub setzero : Vector
  pub set_epi64x : ℕ → ℕ → Vector
  pub cvtsi64_si128 : ℕ → Vector
  pub xor_si128 : Vector → Vector → Vector
  pub aesenc_si128 : Vector → Vector → Vector
  pub aesenclast_si128 : Vector → Vector → Vector
  pub aeskeygenassist_si128 : Vector → ℕ → Vector
  pub slli_si128 : Vector → ℕ → Vector
  pub shuffle_epi32 : Vector → ℕ → Vector
  -- the low 32 bits
  pub cvtsi128_si32 : Vector → ℕ
  pub rdrand64_step : World → Option ℕ × World

module _ {World : Type 0} (x : Instructions World) where
  -- `sk`
  abbrev pub HashKey : Type 0
  HashKey = List (x.Vector)

  unfoldable pub expand_step128 : x.Vector → x.Vector → x.Vector
  expand_step128 k k2 =
      let k = x.xor_si128 k (x.slli_si128 k 4) in
      let k = x.xor_si128 k (x.slli_si128 k 4) in
      let k = x.xor_si128 k (x.slli_si128 k 4) in x.xor_si128 k (x.shuffle_epi32 k2 0xff)

  -- The keys of the rounds, each from the one before and the round's constant.
  unfoldable pub expand : x.Vector → List ℕ → HashKey
  expand sk [] = []
  expand sk (constant ∷ constants) =
      let next = expand_step128 sk (x.aeskeygenassist_si128 sk constant) in
      next ∷ expand next constants

  abbrev pub round_constants : List ℕ
  round_constants = 0x01 ∷ 0x02 ∷ 0x04 ∷ 0x08 ∷ 0x10 ∷ 0x20 ∷ 0x40 ∷ 0x80 ∷ 0x1b ∷ 0x36 ∷ []

  unfoldable pub new_key : ℕ → ℕ → HashKey
  new_key hash_key_1 hash_key_2 =
      let sk = x.set_epi64x hash_key_1 hash_key_2 in sk ∷ expand sk round_constants

  -- The rounds: the last key goes into the last one.
  unfoldable pub rounds : x.Vector → HashKey → x.Vector
  rounds hash [] = hash
  rounds hash (sk ∷ []) = x.aesenclast_si128 hash sk
  rounds hash (sk ∷ next ∷ rest) = rounds (x.aesenc_si128 hash sk) (next ∷ rest)

  unfoldable pub encrypt : HashKey → ℕ → x.Vector
  encrypt [] phone = x.cvtsi64_si128 phone
  encrypt (sk ∷ rest) phone = rounds (x.xor_si128 (x.cvtsi64_si128 phone) sk) rest

  -- A slot of a table of `2 ^ hash_table_order` slots.
  unfoldable pub hash : HashKey → ℕ → ℕ → ℕ
  hash key hash_table_order phone =
      bit_and (x.cvtsi128_si32 (encrypt key phone)) (2 ^ hash_table_order - 1)

  -- Two random numbers, of which the second is not asked for if the first fails.
  unfoldable pub draw_key : World → Option HashKey × World
  draw_key w =
      let (first, w') = x.rdrand64_step w in
      let (second, w'') = x.rdrand64_step w' in
      elim first [
        | none ↦ (none, w')
        | some a ↦ elim second [ none ↦ (none, w'') | some b ↦ (some (new_key a b), w'') ]
      ]

  -- So many attempts are left.
  unfoldable pub generate_within : ℕ → World → Option HashKey × World
  generate_within zero w = (none, w)
  generate_within (suc attempts) w =
      let (key, w') = draw_key w in
      elim key [ some k ↦ (some k, w') | none ↦ generate_within attempts w' ]

  unfoldable pub generate : World → Option HashKey × World
  generate w = generate_within 10 w
