-- ===== src/Directory/Counts.antt =====
-- How many slots of internal_buffers.rs have a phone.
use contact_discovery_servic.Prelude.{
  ℕ, zero, suc, ◌+◌, ◌≤◌, ◌<◌, ◌≡◌, refl, true, Bool-cases, inl, inr, if◌then◌else◌, List, [], ◌∷◌,
  length, set, replicate, arith,
}
use contact_discovery_servic.Directory.{free_e164, deleted_e164, is_open}
use contact_discovery_servic.Directory.Table.{IsLive, slot_of}

unfoldable pub live_count : List ℕ → ℕ
live_count [] = 0
live_count (k ∷ ks) = (if is_open k then 0 else 1) + live_count ks

-- With fewer phones than slots there is an open slot.
pub some_open :
    (ks : List ℕ)
    → live_count ks < length ks
    → (i : ℕ) × (i < length ks) × (is_open (slot_of ks i) ≡ true)
unfolding live_count
some_open [] h = absurd (omega arith)
some_open (k ∷ ks) h = elim (Bool-cases (is_open k)) [
  | inl e ↦ (0, omega arith, e)
  | inr e ↦ (let (i, lt, h') = some_open ks (ground arith) in (suc i, omega (arith, lt), h'))
]

pub live_count-open : (k : ℕ) (ks : List ℕ) → is_open k ≡ true → live_count (k ∷ ks) ≡ live_count ks
unfolding live_count
live_count-open k ks e = rw e (omega arith)

pub live_count-live : (k : ℕ) (ks : List ℕ) → IsLive k → live_count (k ∷ ks) ≡ live_count ks + 1
unfolding live_count
live_count-live k ks e = rw e (omega arith)

pub live_count-le : (ks : List ℕ) → live_count ks ≤ length ks
unfolding live_count
live_count-le [] = omega arith
live_count-le (k ∷ ks) = ground (arith, live_count-le ks)

pub live_count-set :
    (ks : List ℕ) (s x : ℕ)
    → s < length ks
    → is_open (slot_of ks s) ≡ true
    → IsLive x
    → live_count (set ks s x) ≡ live_count ks + 1
unfolding live_count
live_count-set [] s x lt h live = absurd (omega (arith, lt))
live_count-set (k ∷ ks) zero x lt h live = rw (h, live) (omega arith)
live_count-set (k ∷ ks) (suc s) x lt h live =
    omega (arith, live_count-set ks s x (omega arith) h live)

pub live_count-deleted :
    (ks : List ℕ) (s : ℕ)
    → s < length ks
    → IsLive (slot_of ks s)
    → live_count (set ks s deleted_e164) + 1 ≡ live_count ks
unfolding live_count
live_count-deleted [] s lt live = absurd (omega (arith, lt))
live_count-deleted (k ∷ ks) zero lt live = rw live (omega arith)
live_count-deleted (k ∷ ks) (suc s) lt live =
    omega (arith, live_count-deleted ks s (omega arith) live)

pub live_count-empty : (n : ℕ) → live_count (replicate n free_e164) ≡ 0
unfolding live_count
live_count-empty zero = refl
live_count-empty (suc n) = omega (arith, live_count-empty n)
