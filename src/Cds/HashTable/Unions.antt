-- ===== src/Cds/HashTable/Unions.antt =====
-- The union of accumulators that are empty or have one word.
use contact_discovery_servic.Prelude.{
  ℕ, ◌≡◌, ◌⊎◌, inl, inr, bit_or, bit_or-zero, bit_or_self, zero-bit_or,
}

-- An accumulator is empty, or has the word.
abbrev pub Holds : ℕ → ℕ → Type 0
Holds w a = (a ≡ 0) ⊎ (a ≡ w)

pub bit_or-Holds : (w a b : ℕ) → Holds w a → Holds w b → Holds w (bit_or a b)
bit_or-Holds w a b (inl e) (inl f) = inl (rw (e, f) (zero-bit_or 0))
bit_or-Holds w a b (inl e) (inr f) = inr (rw (e, f) (zero-bit_or w))
bit_or-Holds w a b (inr e) (inl f) = inr (rw (e, f) (bit_or-zero w))
bit_or-Holds w a b (inr e) (inr f) = inr (rw (e, f) (bit_or_self w))

pub bit_or-left : (w a b : ℕ) → a ≡ w → Holds w b → bit_or a b ≡ w
bit_or-left w a b e (inl f) = rw (e, f) (bit_or-zero w)
bit_or-left w a b e (inr f) = rw (e, f) (bit_or_self w)

pub bit_or-right : (w a b : ℕ) → Holds w a → b ≡ w → bit_or a b ≡ w
bit_or-right w a b (inl e) f = rw (e, f) (zero-bit_or w)
bit_or-right w a b (inr e) f = rw (e, f) (bit_or_self w)
