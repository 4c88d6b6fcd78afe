-- ===== src/Directory/Removal.antt =====
-- remove_from_buffer on a table in which every phone is where a probe finds it.
use contact_discovery_servic.Prelude.{
  ℕ, ◌%◌, ◌<◌, ◌≡◌, ◌≢◌, ◌⊎◌, inl, inr, refl, sym, ap, ◌∙◌, ◌==◌, true, false, Bool, not, ◌||◌,
  Option, none, some, List, length, set, arith,
}
use contact_discovery_servic.Cds.HashTable.{Uuid}
use contact_discovery_servic.Directory.{
  deleted_e164, is_free, ByteOrder, Probe, hit, gap, wrapped, exhausted, erase_at,
  remove_from_buffer,
}
use contact_discovery_servic.Directory.Scan.{Says, scan_ends}
use contact_discovery_servic.Directory.Table.{IsLive, slot_of, home, home-lt, IsProbed, found}
use contact_discovery_servic.Directory.Writes.{deleted-IsProbed}
use contact_discovery_servic.Directory.Entries.{Holds, Drops, deleted-Drops}
use contact_discovery_servic.Directory.Phones.{IsPhone, to_be-IsLive}

module _ (o : ByteOrder) (e164s : List ℕ) (uuids : List Uuid) (k : ℕ) where
  -- The phone was in the table and is not any more, or it was not and nothing changed.
  abbrev pub WasRemoved : Option (Bool × List ℕ × List Uuid) → Type 0
  WasRemoved none = ⊥
  WasRemoved (some (removed, e164s', uuids')) =
      IsProbed o e164s'
      × (((removed ≡ true)
            × ((i : ℕ) × (i < length e164s)
                × (slot_of e164s i ≡ k)
                × (e164s' ≡ set e164s i deleted_e164))
            × Drops e164s uuids k e164s' uuids')
          ⊎ ((removed ≡ false)
              × ((u : Uuid) → ¬ Holds e164s uuids k u)
              × (e164s' ≡ e164s)
              × (uuids' ≡ uuids)))

module _ (o : ByteOrder) (e164s : List ℕ) (uuids : List Uuid) (k : ℕ) (t : IsProbed o e164s)
    (live : IsLive k) (pos : 0 < length e164s) where
  missed :
      (r : Probe)
      → Says is_free e164s k (home o e164s k) r
      → ((i : ℕ) → r ≢ hit i)
      → (u : Uuid) → ¬ Holds e164s uuids k u
  missed r says no_hit u (i, lt, here, eu) = no_hit i (found o e164s k i r t pos live lt here says)

  erase_at-WasRemoved :
      (r : Probe)
      → Says is_free e164s k (home o e164s k) r
      → WasRemoved o e164s uuids k (erase_at e164s uuids r)
  unfolding erase_at
  erase_at-WasRemoved (hit i) (m, (mlt, e, passed), same, goes) =
      let lt : i < length e164s = ground (arith, home-lt o e164s k pos) in
      let here = ap (slot_of e164s) e ∙ same in
      (
        deleted-IsProbed o e164s i lt t,
        inl (refl, (i, lt, here, refl), deleted-Drops o e164s uuids i k t lt live here),
      )
  erase_at-WasRemoved (gap i) says =
      (t, inr (refl, missed (gap i) says (λ i e. absurd (ground arith)), refl, refl))
  erase_at-WasRemoved wrapped says =
      (t, inr (refl, missed wrapped says (λ i e. absurd (ground arith)), refl, refl))
  erase_at-WasRemoved exhausted says = says

module _ (o : ByteOrder) (e164s : List ℕ) (uuids : List Uuid) (e164 : ℕ) (h : IsPhone e164)
    (t : IsProbed o e164s) (sizes : length uuids ≡ length e164s) (pos : 0 < length e164s) where
  -- For a phone that is neither mark, and a table of at least one slot in which every phone is where a
  -- probe finds it and in one slot only: remove_from_buffer does not panic, and its loop ends. If the
  -- phone was in the table, it returns true, a slot of the phone is marked as deleted, the phone has no
  -- UUID any more, and every other phone has what it had; if not, it returns false and changes nothing. Every phone is again where a probe finds
  -- it.
  pub remove_from_buffer-WasRemoved :
      WasRemoved o e164s uuids (o.to_be e164) (remove_from_buffer o e164s uuids e164)
  unfolding remove_from_buffer
  remove_from_buffer-WasRemoved =
      let raw = o.to_be e164 in
      let sized : (not (length e164s == length uuids) || length e164s == 0) ≡ false =
        ground arith in
      let begins : e164 % length e164s ≡ home o e164s raw =
        ap (λ x. x % length e164s) (sym (o.from_be-to_be e164 h.word)) in
      rw (sized, begins)
        (erase_at-WasRemoved o e164s uuids raw t (to_be-IsLive o e164 h) pos _
          (scan_ends is_free e164s raw (home o e164s raw) (home-lt o e164s raw pos)))
