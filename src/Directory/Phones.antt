-- ===== src/Directory/Phones.antt =====
-- add_to_buffer and remove_from_buffer on a table in which every phone is where a probe finds it.
use contact_discovery_servic.Prelude.{
  ℕ, ◌+◌, ◌-◌, ◌%◌, ◌^◌, ◌<◌, ◌≡◌, ◌≢◌, ◌⊎◌, inl, inr, refl, sym, ap, ◌∙◌, ◌==◌, ==_iff, leb, ltb,
  true, false, Bool, Bool-cases, not, ◌||◌, if◌then◌else◌, Option, none, some, List, length, get_or,
  set, arith,
}
use contact_discovery_servic.Cds.HashTable.{Uuid, zero_uuid}
use contact_discovery_servic.Directory.{
  free_e164, deleted_e164, is_free, is_open, ByteOrder, Probe, hit, gap, wrapped, exhausted,
  big_endian, Added, write_at, add_at, add_to_buffer,
}
use contact_discovery_servic.Directory.Scan.{after, at, Ended, Says, scan_ends}
use contact_discovery_servic.Directory.Table.{
  IsLive, slot_of, home, home-lt, Reached, IsProbed, located,
}
use contact_discovery_servic.Directory.Writes.{written-IsProbed}
use contact_discovery_servic.Directory.Entries.{Holds, Puts, overwritten-Puts, written-Puts}

-- A phone that may be inserted.
pub record IsPhone (e164 : ℕ) : Type 0 where
  pub word : e164 < 2 ^ 64
  pub not_free : e164 ≢ free_e164
  pub not_deleted : e164 ≢ deleted_e164

module _ (o : ByteOrder) where
  pub to_be-IsLive : (e164 : ℕ) → IsPhone e164 → IsLive (o.to_be e164)
  to_be-IsLive e164 h =
      let back = o.from_be-to_be e164 h.word in
      elim (Bool-cases (is_open (o.to_be e164))) [
        | inl e ↦ absurd (
            ground (arith, ap o.from_be, o.from_be-zero, o.from_be-ones, h.not_free, h.not_deleted))
        | inr e ↦ e
      ]

-- Every slot is so many steps after another.
pub offset : (n begin i : ℕ) → begin < n → i < n → (j : ℕ) × (j < n) × (after n begin j ≡ i)
offset n begin i b lt =
    (if leb begin i then i - begin else i + n - begin, ground arith, ground arith)

-- Steps after steps.
further :
    (n begin m j d : ℕ)
    → begin < n
    → d < n
    → m + j ≡ d
    → after n (after n begin m) j ≡ after n begin d
further n begin m j d b dlt e = ground arith

-- There is room: some slot is open, or has the phone.
abbrev pub Room : List ℕ → ℕ → Type 0
Room e164s k =
    (i : ℕ) × (i < length e164s) × ((is_open (slot_of e164s i) ≡ true) ⊎ (slot_of e164s i ≡ k))

module _ (o : ByteOrder) (e164s : List ℕ) (uuids : List Uuid) (k : ℕ) (v : Uuid) where
  -- The phone was in the table, and has another UUID; or it was not, and stands in a slot that was
  -- open.
  abbrev pub WasAdded : Option Added → Type 0
  WasAdded none = ⊥
  WasAdded (some (old, e164s', uuids')) =
      IsProbed o e164s'
      × Puts e164s uuids k v e164s' uuids'
      × (((old ≡ o.from_be k) × (e164s' ≡ e164s) × ((u : Uuid) × Holds e164s uuids k u))
          ⊎ ((s : ℕ) × (s < length e164s)
              × (is_open (slot_of e164s s) ≡ true)
              × (old ≡ o.from_be (slot_of e164s s))
              × (e164s' ≡ set e164s s k)
              × ((i : ℕ) → i < length e164s → slot_of e164s i ≢ k)))

module _ (o : ByteOrder) (e164s : List ℕ) (uuids : List Uuid) (k : ℕ) (v : Uuid)
    (t : IsProbed o e164s) (sizes : length uuids ≡ length e164s) (live : IsLive k)
    (pos : 0 < length e164s) where
  -- Behind the open slot where the first loop stops, the second finds the phone if it is there.
  absent :
      (slot m : ℕ) (r : Probe)
      → Ended is_open e164s k (home o e164s k) slot m
      → is_open (slot_of e164s slot) ≡ true
      → Says is_free e164s k slot r
      → ((i : ℕ) → r ≢ hit i)
      → (i : ℕ) → i < length e164s
      → slot_of e164s i ≢ k
  absent slot m (hit j) ended open_slot says no_hit i lt here = no_hit j refl
  absent slot m (gap g) (mlt, e, passed) open_slot (m', (mlt', e', passed'), stop) no_hit i lt
        here =
      let (d, (dlt, ei, path)) = located o e164s k i t live lt here in
      let n = length e164s in
      let h = home o e164s k in
      let at_d : at e164s h d ≡ k = sym (ap (slot_of e164s) ei) ∙ here in
      let behind : (j x : ℕ) → x < n → m + j ≡ x → at e164s slot j ≡ at e164s h x = λ j x xlt q.
        ap (λ s. at e164s s j) e
        ∙ ap (slot_of e164s) (further n h m j x (home-lt o e164s k pos) xlt q) in
      elim (Bool-cases (ltb d m)) [
        | inl before ↦ (passed d (ground arith)).1 at_d
        | inr later ↦ elim (Bool-cases (ltb (d - m) m')) [
          | inl sooner ↦
              (passed' (d - m) (ground arith)).1 (behind (d - m) d dlt (ground arith) ∙ at_d)
          | inr beyond ↦ elim (Bool-cases (m + m' == d)) [
            | inl same ↦
                let q = behind m' d dlt ((==_iff (m + m') d).0 same) ∙ at_d in
                absurd (ground (arith, q))
            | inr short ↦
                path (m + m') (ground arith)
                  (sym (behind m' (m + m') (ground arith) refl) ∙ (==_iff _ free_e164).0 stop)
          ]
        ]
      ]
  absent slot m wrapped (mlt, e, passed) open_slot passed' no_hit i lt here =
      let (d, (dlt, ei, path)) = located o e164s k i t live lt here in
      let n = length e164s in
      let h = home o e164s k in
      let at_d : at e164s h d ≡ k = sym (ap (slot_of e164s) ei) ∙ here in
      elim (Bool-cases (ltb d m)) [
        | inl before ↦ (passed d (ground arith)).1 at_d
        | inr later ↦ (passed' (d - m) (ground arith)).1 (
            ap (λ s. at e164s s (d - m)) e
            ∙ ap (slot_of e164s)
                (further n h m (d - m) d (home-lt o e164s k pos) dlt (ground arith))
            ∙ at_d)
      ]
  absent slot m exhausted ended open_slot says no_hit i lt here = says

  -- The slot where the first loop stopped is where a probe finds the phone.
  open_Reached :
      (slot m : ℕ) → Ended is_open e164s k (home o e164s k) slot m → Reached o e164s k slot m
  open_Reached slot m (mlt, e, passed) = (mlt, e, λ j lt free. absurd (ground (arith, passed j lt)))

  replaced :
      (i : ℕ)
      → i < length e164s
      → slot_of e164s i ≡ k
      → WasAdded o e164s uuids k v (some (o.from_be k, e164s, set uuids i v))
  replaced i lt here = (
    t,
    overwritten-Puts o e164s uuids i k v t sizes lt live here,
    inl (refl, refl, (get_or uuids i zero_uuid, (i, lt, here, refl))),
  )

  written :
      (slot m : ℕ)
      → Ended is_open e164s k (home o e164s k) slot m
      → is_open (slot_of e164s slot) ≡ true
      → ((i : ℕ) → i < length e164s → slot_of e164s i ≢ k)
      → WasAdded o e164s uuids k v
          (some (o.from_be (slot_of e164s slot), set e164s slot k, set uuids slot v))
  written slot m ended open_slot new =
      let lt : slot < length e164s = ground (arith, home-lt o e164s k pos, ended.0, ended.1) in
      (
        written-IsProbed o e164s slot k lt m t live new (open_Reached slot m ended),
        written-Puts o e164s uuids slot k v t sizes lt live open_slot new,
        inr (slot, lt, open_slot, refl, refl, new),
      )

  hit_slot :
      (stops : ℕ → Bool) (begin i m : ℕ)
      → begin < length e164s
      → Ended stops e164s k begin i m
      → at e164s begin m ≡ k
      → (i < length e164s) × (slot_of e164s i ≡ k)
  hit_slot stops begin i m b (mlt, e, passed) same = (ground arith, ap (slot_of e164s) e ∙ same)

  write_at-WasAdded :
      (slot m : ℕ) (r : Probe)
      → Ended is_open e164s k (home o e164s k) slot m
      → is_open (slot_of e164s slot) ≡ true
      → Says is_free e164s k slot r
      → WasAdded o e164s uuids k v (write_at o e164s uuids k v slot r)
  unfolding write_at
  write_at-WasAdded slot m (hit i) ended open_slot (m', ended', same, goes) =
      let lt : slot < length e164s = ground (arith, home-lt o e164s k pos, ended.0, ended.1) in
      let (inside, here) = hit_slot is_free slot i m' lt ended' same in replaced i inside here
  write_at-WasAdded slot m (gap g) ended open_slot says =
      written slot m ended open_slot
        (absent slot m (gap g) ended open_slot says (λ i e. absurd (ground arith)))
  write_at-WasAdded slot m wrapped ended open_slot says =
      written slot m ended open_slot
        (absent slot m wrapped ended open_slot says (λ i e. absurd (ground arith)))
  write_at-WasAdded slot m exhausted ended open_slot says = says

  add_at-WasAdded :
      (r : Probe)
      → Room e164s k
      → Says is_open e164s k (home o e164s k) r
      → WasAdded o e164s uuids k v (add_at o e164s uuids k v r)
  unfolding add_at
  add_at-WasAdded (hit i) room (m, ended, same, goes) =
      let (inside, here) =
        hit_slot is_open (home o e164s k) i m (home-lt o e164s k pos) ended same in
      replaced i inside here
  add_at-WasAdded (gap slot) room (m, ended, stop) =
      let lt : slot < length e164s = ground (arith, home-lt o e164s k pos, ended.0, ended.1) in
      write_at-WasAdded slot m _ ended (ap (λ s. is_open (slot_of e164s s)) ended.1 ∙ stop)
        (scan_ends is_free e164s k slot lt)
  add_at-WasAdded wrapped (i, lt, why) passed =
      let (j, jlt, e) = offset (length e164s) (home o e164s k) i (home-lt o e164s k pos) lt in
      let (goes, ne) = passed j jlt in
      let here = ap (slot_of e164s) e in
      elim why [
        | inl open_slot ↦
            (let closed : false ≡ true = sym goes ∙ ap is_open here ∙ open_slot in
              absurd (cc (closed)))
        | inr same ↦ absurd (ne (here ∙ same))
      ]
  add_at-WasAdded exhausted room says = absurd says

module _ (o : ByteOrder) (e164s : List ℕ) (uuids : List Uuid) (e164 : ℕ) (h : IsPhone e164)
    (t : IsProbed o e164s) (sizes : length uuids ≡ length e164s) (pos : 0 < length e164s) where
  sized : (not (length e164s == length uuids) || length e164s == 0) ≡ false
  sized = ground arith

  begins : e164 % length e164s ≡ home o e164s (o.to_be e164)
  begins = ap (λ x. x % length e164s) (sym (o.from_be-to_be e164 h.word))

  -- For a phone that is neither mark, and a table of at least one slot in which every phone is where a
  -- probe finds it and in one slot only, with a slot that is open or has the phone: add_to_buffer does
  -- not panic, and its loops end; the phone then has the UUID and no other, every other phone has what
  -- it had, and every phone is again where a probe finds it. If the phone was in the table, it is what
  -- is returned and no slot changes hands; if not, the phone went to a slot that was open, and what
  -- stood there is returned.
  pub add_to_buffer-WasAdded :
      (uuid : Uuid) (convert : Bool)
      → Room e164s (o.to_be e164)
      → let v = if convert then big_endian o uuid else uuid in
        WasAdded o e164s uuids (o.to_be e164) v (add_to_buffer o e164s uuids e164 uuid convert)
  unfolding add_to_buffer
  add_to_buffer-WasAdded uuid convert room =
      let live = to_be-IsLive o e164 h in
      let v = if convert then big_endian o uuid else uuid in
      rw (sized, begins)
        (add_at-WasAdded o e164s uuids (o.to_be e164) v t sizes live pos _ room (
          scan_ends is_open e164s (o.to_be e164) (home o e164s (o.to_be e164))
            (home-lt o e164s (o.to_be e164) pos)))
