-- ===== src/Directory/Entries.antt =====
-- What the table of phones holds, before and after a write to it.
use contact_discovery_servic.Prelude.{
  ℕ, ◌<◌, ◌≡◌, ◌≢◌, ◌↔◌, refl, sym, ap, ◌∙◌, true, false, List, length, get_or, set, length-set,
  get_or-set_self, get_or-set_ne, arith,
}
use native.Mathlib.Decide.{ℕ_discrete}
use contact_discovery_servic.Cds.HashTable.{Uuid, zero_uuid}
use contact_discovery_servic.Directory.{deleted_e164, is_open, ByteOrder}
use contact_discovery_servic.Directory.Table.{IsLive, slot_of, IsProbed}
use contact_discovery_servic.Directory.Writes.{this_slot, other_slot}

-- The phone, as it stands in memory, is in the table with this UUID.
abbrev pub Holds : List ℕ → List Uuid → ℕ → Uuid → Type 0
Holds e164s uuids k u =
    (i : ℕ) × (i < length e164s) × (slot_of e164s i ≡ k) × (get_or uuids i zero_uuid ≡ u)

-- The table afterwards has this UUID for the phone, and none for the others but what they had.
pub record Puts (e164s : List ℕ) (uuids : List Uuid) (k : ℕ) (v : Uuid) (e164s' : List ℕ)
    (uuids' : List Uuid) : Type 0 where
  pub same_length : length e164s' ≡ length e164s
  pub same_uuids : length uuids' ≡ length uuids
  pub put : (u : Uuid) → Holds e164s' uuids' k u ↔ (u ≡ v)
  pub others :
      (k' : ℕ) (u : Uuid) → IsLive k' → k' ≢ k → Holds e164s' uuids' k' u ↔ Holds e164s uuids k' u

module _ (o : ByteOrder) (e164s : List ℕ) (uuids : List Uuid) (s k : ℕ) (v : Uuid)
    (t : IsProbed o e164s) (sizes : length uuids ≡ length e164s) (s-lt : s < length e164s)
    (live : IsLive k) where
  this_uuid : get_or (set uuids s v) s zero_uuid ≡ v
  this_uuid = get_or-set_self uuids s v zero_uuid (omega (arith, sizes, s-lt))

  other_uuid : (i : ℕ) → s ≢ i → get_or (set uuids s v) i zero_uuid ≡ get_or uuids i zero_uuid
  other_uuid i ne = get_or-set_ne uuids s i v zero_uuid ne

  -- A phone that has a slot gets another UUID.
  pub overwritten-Puts : slot_of e164s s ≡ k → Puts e164s uuids k v e164s (set uuids s v)
  overwritten-Puts here =
      let apart : (i k' : ℕ) → slot_of e164s i ≡ k' → k' ≢ k → s ≢ i =
        λ i k' e ne same. ne (sym e ∙ sym (ap (slot_of e164s) same) ∙ here) in
      record {
        same_length = refl;
        same_uuids = length-set uuids s v;
        put = λ u. (
          λ h.
              let (i, lt, e, eu) = h in
              let same : s ≡ i = t.once s i s-lt lt (ap is_open here ∙ live) (here ∙ sym e) in
              sym eu ∙ sym (ap (λ i. get_or (set uuids s v) i zero_uuid) same) ∙ this_uuid,
          λ e. (s, s-lt, here, this_uuid ∙ sym e),
        );
        others = λ k' u live' ne. (
          λ h. let (i, lt, e, eu) = h in (i, lt, e, sym (other_uuid i (apart i k' e ne)) ∙ eu),
          λ h. let (i, lt, e, eu) = h in (i, lt, e, other_uuid i (apart i k' e ne) ∙ eu),
        );
      }

  -- A phone that is new gets an open slot.
  pub written-Puts :
      is_open (slot_of e164s s) ≡ true
      → ((i : ℕ) → i < length e164s → slot_of e164s i ≢ k)
      → Puts e164s uuids k v (set e164s s k) (set uuids s v)
  written-Puts open_slot new =
      let same = length-set e164s s k in
      let this : slot_of (set e164s s k) s ≡ k = this_slot o e164s s k s-lt in
      let other : (i : ℕ) → s ≢ i → slot_of (set e164s s k) i ≡ slot_of e164s i =
        other_slot o e164s s k s-lt in
      record {
        same_length = same;
        same_uuids = length-set uuids s v;
        put = λ u. (
          λ h.
              let (i, lt, e, eu) = h in
              elim (ℕ_discrete s i) [
                | yes p ↦ sym eu ∙ sym (ap (λ i. get_or (set uuids s v) i zero_uuid) p) ∙ this_uuid
                | no p ↦ absurd (new i (omega (arith, same, lt)) (sym (other i p) ∙ e))
              ],
          λ e. (s, omega (arith, same, s-lt), this, this_uuid ∙ sym e),
        );
        others = λ k' u live' ne. (
          λ h.
              let (i, lt, e, eu) = h in
              let p : s ≢ i = λ p. ne (sym e ∙ sym (ap (slot_of (set e164s s k)) p) ∙ this) in
              (i, omega (arith, same, lt), sym (other i p) ∙ e, sym (other_uuid i p) ∙ eu),
          λ h.
              let (i, lt, e, eu) = h in
              let p : s ≢ i = λ p.
                let closed : true ≡ false =
                  sym open_slot ∙ ap is_open (ap (slot_of e164s) p ∙ e) ∙ live' in
                absurd (cc (closed)) in
              (i, omega (arith, same, lt), other i p ∙ e, other_uuid i p ∙ eu),
        );
      }

-- The table afterwards has no UUID for the phone, and for the others what they had.
pub record Drops (e164s : List ℕ) (uuids : List Uuid) (k : ℕ) (e164s' : List ℕ) (uuids' : List Uuid)
    : Type 0 where
  pub same_length : length e164s' ≡ length e164s
  pub same_uuids : length uuids' ≡ length uuids
  pub dropped : (u : Uuid) → ¬ Holds e164s' uuids' k u
  pub others :
      (k' : ℕ) (u : Uuid) → IsLive k' → k' ≢ k → Holds e164s' uuids' k' u ↔ Holds e164s uuids k' u

module _ (o : ByteOrder) (e164s : List ℕ) (uuids : List Uuid) (s k : ℕ) (t : IsProbed o e164s)
    (s-lt : s < length e164s) (live : IsLive k) where
  pub deleted-Drops :
      slot_of e164s s ≡ k → Drops e164s uuids k (set e164s s deleted_e164) (set uuids s zero_uuid)
  deleted-Drops here =
      let same = length-set e164s s deleted_e164 in
      let this : slot_of (set e164s s deleted_e164) s ≡ deleted_e164 =
        this_slot o e164s s deleted_e164 s-lt in
      let other : (i : ℕ) → s ≢ i → slot_of (set e164s s deleted_e164) i ≡ slot_of e164s i =
        other_slot o e164s s deleted_e164 s-lt in
      let apart : (i k' : ℕ) → slot_of (set e164s s deleted_e164) i ≡ k' → IsLive k' → s ≢ i =
        λ i k' e live' p.
          let closed : true ≡ false =
            ap is_open (sym this ∙ ap (slot_of (set e164s s deleted_e164)) p ∙ e) ∙ live' in
          absurd (cc (closed)) in
      record {
        same_length = same;
        same_uuids = length-set uuids s zero_uuid;
        dropped = λ u h.
            let (i, lt, e, eu) = h in
            let p = apart i k e live in
            p (
              t.once s i s-lt (omega (arith, same, lt)) (ap is_open here ∙ live)
                (here ∙ sym e ∙ other i p));
        others = λ k' u live' ne. (
          λ h.
              let (i, lt, e, eu) = h in
              let p = apart i k' e live' in
              (
                i,
                omega (arith, same, lt),
                sym (other i p) ∙ e,
                sym (get_or-set_ne uuids s i zero_uuid zero_uuid p) ∙ eu,
              ),
          λ h.
              let (i, lt, e, eu) = h in
              let p : s ≢ i = λ p. ne (sym e ∙ sym (ap (slot_of e164s) p) ∙ here) in
              (
                i,
                omega (arith, same, lt),
                other i p ∙ e,
                get_or-set_ne uuids s i zero_uuid zero_uuid p ∙ eu,
              ),
        );
      }
