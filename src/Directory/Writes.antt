-- ===== src/Directory/Writes.antt =====
-- What a write to a slot leaves of the table.
use contact_discovery_servic.Prelude.{
  ℕ, ◌<◌, ◌≡◌, ◌≢◌, sym, ap, ◌∙◌, true, false, List, length, set, length-set, get_or-set_self,
  get_or-set_ne, arith,
}
use mathlib.Core.Path.{subst}
use native.Mathlib.Decide.{ℕ_discrete}
use contact_discovery_servic.Directory.{free_e164, deleted_e164, is_open, ByteOrder}
use contact_discovery_servic.Directory.Scan.{after}
use contact_discovery_servic.Directory.Table.{IsLive, slot_of, home, Reached, IsProbed}

module _ (o : ByteOrder) (e164s : List ℕ) (s x : ℕ) (s-lt : s < length e164s) where
  -- A write of what is not the mark of a free slot frees no slot.
  still_taken :
      (i : ℕ) → x ≢ free_e164 → slot_of e164s i ≢ free_e164 → slot_of (set e164s s x) i ≢ free_e164
  still_taken i nx ni = elim (ℕ_discrete s i) [
    | yes e ↦ rw (← e, get_or-set_self e164s s x free_e164 s-lt) nx
    | no ne ↦ rw (get_or-set_ne e164s s i x free_e164 ne) ni
  ]

  -- So a phone is still where a probe finds it.
  still-Reached :
      (k i d : ℕ) → x ≢ free_e164 → Reached o e164s k i d → Reached o (set e164s s x) k i d
  still-Reached k i d nx (dlt, e, path) =
      let same = length-set e164s s x in
      (
        rw same dlt,
        rw same e,
        λ j lt. rw same (still_taken (after (length e164s) (home o e164s k) j) nx (path j lt)),
      )

  pub other_slot : (i : ℕ) → s ≢ i → slot_of (set e164s s x) i ≡ slot_of e164s i
  other_slot i ne = get_or-set_ne e164s s i x free_e164 ne

  pub this_slot : slot_of (set e164s s x) s ≡ x
  this_slot = get_or-set_self e164s s x free_e164 s-lt

  -- The slots but this one are as they were.
  kept :
      (i : ℕ)
      → IsProbed o e164s
      → x ≢ free_e164
      → s ≢ i
      → i < length (set e164s s x)
      → IsLive (slot_of (set e164s s x) i)
      → (d : ℕ) × Reached o (set e164s s x) (slot_of (set e164s s x) i) i d
  kept i t nx ne lt live =
      let (d, r) =
        t.reached i (omega (arith, lt, length-set e164s s x))
          (sym (ap is_open (other_slot i ne)) ∙ live) in
      (
        d,
        subst (λ y. Reached o (set e164s s x) y i d) (sym (other_slot i ne))
            (still-Reached (slot_of e164s i) i d nx r),
      )

  -- A new phone, where its probe stopped.
  pub written-IsProbed :
      (m : ℕ)
      → IsProbed o e164s
      → IsLive x
      → ((i : ℕ) → i < length e164s → slot_of e164s i ≢ x)
      → Reached o e164s x s m
      → IsProbed o (set e164s s x)
  written-IsProbed m t live new here =
      let nx : x ≢ free_e164 = λ e. absurd (ground arith) in
      let same = length-set e164s s x in
      let old : (i : ℕ) → i < length (set e164s s x) → i < length e164s =
        λ i lt. omega (arith, same, lt) in
      let at_s : (d : ℕ) × Reached o (set e164s s x) (slot_of (set e164s s x) s) s d =
        (m, rw this_slot (still-Reached x s m nx here)) in
      record {
        reached = λ i lt live'. elim (ℕ_discrete s i) [
          | yes e ↦
              subst (λ i. (d : ℕ) × Reached o (set e164s s x) (slot_of (set e164s s x) i) i d) (e)
                at_s
          | no ne ↦ kept i t nx ne lt live'
        ];
        once = λ i j ilt jlt live' e. elim (ℕ_discrete s i) [
          | yes p ↦ elim (ℕ_discrete s j) [
            | yes q ↦ sym p ∙ q
            | no q ↦ absurd (
                new j (old j jlt)
                  (sym (other_slot j q) ∙ sym e ∙ sym (ap (slot_of (set e164s s x)) p) ∙ this_slot))
          ]
          | no p ↦ elim (ℕ_discrete s j) [
            | yes q ↦ absurd (
                new i (old i ilt)
                  (sym (other_slot i p) ∙ e ∙ sym (ap (slot_of (set e164s s x)) q) ∙ this_slot))
            | no q ↦
                t.once i j (old i ilt) (old j jlt) (sym (ap is_open (other_slot i p)) ∙ live')
                  (sym (other_slot i p) ∙ e ∙ other_slot j q)
          ]
        ];
      }

module _ (o : ByteOrder) (e164s : List ℕ) (s : ℕ) (s-lt : s < length e164s) where
  -- The mark of a deleted slot.
  pub deleted-IsProbed : IsProbed o e164s → IsProbed o (set e164s s deleted_e164)
  deleted-IsProbed t =
      let x = deleted_e164 in
      let nx : x ≢ free_e164 = λ e. absurd (omega (arith, e)) in
      let same = length-set e164s s x in
      let gone : (i : ℕ) → IsLive (slot_of (set e164s s x) i) → s ≢ i = λ i live e.
        let here = sym (ap (slot_of (set e164s s x)) e) ∙ this_slot o e164s s x s-lt in
        let closed : true ≡ false = sym (ap is_open here) ∙ live in absurd (cc (closed)) in
      let old : (i : ℕ) → i < length (set e164s s x) → i < length e164s =
        λ i lt. omega (arith, same, lt) in
      let other : (i : ℕ) → s ≢ i → slot_of (set e164s s x) i ≡ slot_of e164s i =
        other_slot o e164s s x s-lt in
      record {
        reached = λ i lt live. kept o e164s s x s-lt i t nx (gone i live) lt live;
        once = λ i j ilt jlt live e.
            let p = gone i live in
            let q = gone j (sym (ap is_open e) ∙ live) in
            t.once i j (old i ilt) (old j jlt) (sym (ap is_open (other i p)) ∙ live)
              (sym (other i p) ∙ e ∙ other j q);
      }
