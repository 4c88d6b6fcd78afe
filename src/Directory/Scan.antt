-- ===== src/Directory/Scan.antt =====
-- What a probe of the table says of the slots that it passed.
use contact_discovery_servic.Prelude.{
  ℕ, zero, suc, ◌+◌, ◌-◌, ◌<◌, ◌≡◌, ◌≢◌, refl, ◌==◌, ==_iff, ltb, true, false, Bool, Bool-cases,
  inl, inr, if◌then◌else◌, List, length, get_or, arith,
}
use mathlib.Core.Path.{subst}
use native.Mathlib.Decide.{ℕ_discrete}
use contact_discovery_servic.Directory.{
  free_e164, Probe, hit, gap, wrapped, exhausted, next_slot, scan,
}

-- The slot so many steps after another.
abbrev pub after : ℕ → ℕ → ℕ → ℕ
after n begin k = if ltb (begin + k) n then begin + k else begin + k - n

-- What stands so many steps after a slot.
abbrev pub at : List ℕ → ℕ → ℕ → ℕ
at e164s begin k = get_or e164s (after (length e164s) begin k) free_e164

module _ (stops : ℕ → Bool) (e164s : List ℕ) (e164 : ℕ) (begin : ℕ) where
  -- So many slots were passed.
  abbrev pub Passed : ℕ → Type 0
  Passed m = (j : ℕ) → j < m → (stops (at e164s begin j) ≡ false) × (at e164s begin j ≢ e164)

  abbrev pub Ended : ℕ → ℕ → Type 0
  Ended i m = (m < length e164s) × (i ≡ after (length e164s) begin m) × Passed m

  abbrev pub Says : Probe → Type 0
  Says (hit i) =
      (m : ℕ) × Ended i m × (at e164s begin m ≡ e164) × (stops (at e164s begin m) ≡ false)
  Says (gap i) = (m : ℕ) × Ended i m × (stops (at e164s begin m) ≡ true)
  Says wrapped = Passed (length e164s)
  Says exhausted = ⊥

  Passed-one :
      (m : ℕ)
      → Passed m
      → stops (at e164s begin m) ≡ false
      → at e164s begin m ≢ e164
      → Passed (suc m)
  Passed-one m h goes ne j lt = elim (ℕ_discrete j m) [
    | yes e ↦ rw e (goes, ne)
    | no other ↦ h j (omega arith)
  ]

  scan-Says :
      (fuel m : ℕ)
      → begin < length e164s
      → fuel + m ≡ length e164s
      → m < length e164s
      → Passed m
      → Says (scan stops e164s e164 begin fuel (after (length e164s) begin m))
  unfolding scan
  scan-Says zero m b e lt h = absurd (omega arith)
  scan-Says (suc fuel) m b e lt h =
      let n = length e164s in
      let next : next_slot n (after n begin m) ≡ after n begin (suc m) = ground arith in
      elim (Bool-cases (stops (at e164s begin m))) [
        | inl stop ↦ rw stop (m, (lt, refl, h), stop)
        | inr goes ↦ elim (Bool-cases (at e164s begin m == e164)) [
          | inl same ↦
              rw (goes, same) (m, (lt, refl, h), (==_iff (at e164s begin m) e164).0 same, goes)
          | inr other ↦
              let more = Passed-one m h goes (λ q. absurd (ground (arith, q))) in
              elim (Bool-cases (after n begin (suc m) == begin)) [
                | inl last ↦
                    let full : suc m ≡ n = ground arith in
                    rw (goes, other, next, last) (λ j lt. more j (omega arith))
                | inr on ↦
                    rw (goes, other, next, on)
                      (scan-Says fuel (suc m) b (omega arith) (ground arith) more)
              ]
        ]
      ]

  -- A probe with as much fuel as there are slots ends, and says what it passed.
  pub scan_ends : begin < length e164s → Says (scan stops e164s e164 begin (length e164s) begin)
  scan_ends b =
      let n = length e164s in
      let same : after n begin 0 ≡ begin = ground arith in
      subst (λ i. Says (scan stops e164s e164 begin n i)) (same)
        (scan-Says n 0 b (omega arith) (omega arith) (λ j lt. absurd (omega arith)))
