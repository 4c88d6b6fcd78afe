-- ===== src/Directory/Table.antt =====
-- The table of phones as a map: what its slots hold, and what a probe finds in it.
use contact_discovery_servic.Prelude.{
  ℕ, ◌%◌, ◌<◌, ◌≡◌, ◌≢◌, sym, ap, ◌∙◌, true, false, List, length, get_or, replicate,
  get_or-replicate, arith,
}
use mathlib.Core.Path.{subst}
use native.Mathlib.Nat.{mod-lt}
use contact_discovery_servic.Directory.{
  free_e164, is_free, is_open, ByteOrder, Probe, hit, gap, wrapped, exhausted,
}
use contact_discovery_servic.Directory.Scan.{after, at, Says}

-- A slot that holds a phone.
abbrev pub IsLive : ℕ → Type 0
IsLive k = is_open k ≡ false

abbrev pub slot_of : List ℕ → ℕ → ℕ
slot_of e164s i = get_or e164s i free_e164

module _ (o : ByteOrder) where
  -- Where the probe for what stands in a slot begins.
  abbrev pub home : List ℕ → ℕ → ℕ
  home e164s k = o.from_be k % length e164s

  -- The phone in a slot is so many steps after its home, and no slot in between is free.
  abbrev pub Reached : List ℕ → ℕ → ℕ → ℕ → Type 0
  Reached e164s k i d =
      (d < length e164s)
      × (i ≡ after (length e164s) (home e164s k) d)
      × ((j : ℕ) → j < d → at e164s (home e164s k) j ≢ free_e164)

  -- Every phone is where a probe finds it, and in one slot only.
  pub record IsProbed (e164s : List ℕ) : Type 0 where
    pub reached :
        (i : ℕ)
        → i < length e164s
        → IsLive (slot_of e164s i)
        → (d : ℕ) × Reached e164s (slot_of e164s i) i d
    pub once :
        (i j : ℕ)
        → i < length e164s
        → j < length e164s
        → IsLive (slot_of e164s i)
        → slot_of e164s i ≡ slot_of e164s j
        → i ≡ j

  -- A table with nothing in it.
  pub empty-IsProbed : (n : ℕ) → IsProbed (replicate n free_e164)
  empty-IsProbed n =
      let vain : (i : ℕ) → ¬ IsLive (slot_of (replicate n free_e164) i) = λ i live.
        let closed : true ≡ false = sym (ap is_open (get_or-replicate n i free_e164)) ∙ live in
        absurd (cc (closed)) in
      record {
        reached = λ i lt live. absurd (vain i live);
        once = λ i j ilt jlt live e. absurd (vain i live);
      }

  pub home-lt : (e164s : List ℕ) (k : ℕ) → 0 < length e164s → home e164s k < length e164s
  home-lt e164s k pos = mod-lt (o.from_be k) pos

  -- A live phone that stands in a slot, from its home.
  pub located :
      (e164s : List ℕ) (k i : ℕ)
      → IsProbed e164s
      → IsLive k
      → i < length e164s
      → slot_of e164s i ≡ k
      → (d : ℕ) × Reached e164s k i d
  located e164s k i t live lt here =
      subst (λ x. (d : ℕ) × Reached e164s x i d) (here) (t.reached i lt (ap is_open here ∙ live))

  -- A live phone that stands in the table is hit by a probe that only a free slot stops.
  pub found :
      (e164s : List ℕ) (k i : ℕ) (r : Probe)
      → IsProbed e164s
      → 0 < length e164s
      → IsLive k
      → i < length e164s
      → slot_of e164s i ≡ k
      → Says is_free e164s k (home e164s k) r
      → r ≡ hit i
  found e164s k i (hit j) t pos live lt here (m, (mlt, e, passed), same, goes) =
      let inside : j < length e164s = ground (arith, home-lt e164s k pos) in
      ap hit (
        t.once j i inside lt (ap is_open (ap (slot_of e164s) e ∙ same) ∙ live)
          (ap (slot_of e164s) e ∙ same ∙ sym here))
  found e164s k i (gap j) t pos live lt here (m, (mlt, e, passed), stop) =
      let (d, (dlt, e', path)) = located e164s k i t live lt here in
      absurd (ground (arith, passed d, path m, ap (slot_of e164s) e'))
  found e164s k i wrapped t pos live lt here passed =
      let (d, (dlt, e', path)) = located e164s k i t live lt here in
      absurd ((passed d dlt).1 (sym (ap (slot_of e164s) e') ∙ here))
  found e164s k i exhausted t pos live lt here says = absurd says
