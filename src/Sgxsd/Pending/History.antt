-- ===== src/Sgxsd/Pending/History.antt =====
-- How long a pending request can be found: histories of additions and removals.
use contact_discovery_servic.Prelude.{
  ℕ, ◌+◌, ◌-◌, ◌%◌, ◌^◌, ◌≤◌, ◌<◌, ◌≡◌, ◌≢◌, refl, ◌⊎◌, pow_pos, Bool, true, false, ◌==◌, ==_iff,
  ==_of_ne, if◌then◌else◌, ap, ◌∙◌, inl, none, some, List, [], ◌∷◌, arith, All, get_or,
  get_or-replicate, replicate,
}
use contact_discovery_servic.Sgxsd.Types.{Bytes, PendingRequest}
use contact_discovery_servic.Sgxsd.State.{State}
use contact_discovery_servic.Sgxsd.Node.{zero_request}
use contact_discovery_servic.Sgxsd.Pending.{slot, insert_entry, take_entry}
use contact_discovery_servic.Sgxsd.Pending.Table.{
  IsTable, stored, shares, insert_entry-IsTable, take_entry-IsTable, stored-insert_entry,
  stored-take_entry,
}
use native.Mathlib.Decide.{dec_lt}
use native.Mathlib.Nat.{mod-lt, mod-add-mod, mod-eq_of_lt, mod-eq-sub-mod, add-mod_right}

-- The critical sections that write the table.
pub data Op : Type 0 where
  add : PendingRequest → Op
  take : ℕ → Op

abbrev pub adds : List Op → ℕ
adds [] = 0
adds (add r ∷ ops) = adds ops + 1
adds (take id ∷ ops) = adds ops

abbrev pub is_take : ℕ → Op → Bool
is_take j (add r) = false
is_take j (take id) = id == j

-- Fewer steps than the table's size never lead back to the same entry.
add-mod-ne : (p j d : ℕ) → 0 < d → d < p → (j + d) % p ≢ j % p
add-mod-ne p j d h k e = elim (dec_lt (j % p + d) p) [
  | yes low ↦ omega (arith, mod-add-mod j p d, mod-eq_of_lt low)
  | no high ↦ omega (
    arith,
    mod-add-mod j p d,
    mod-lt j {m = p} (omega arith),
    mod-eq-sub-mod {n = j % p + d} {m = p} (omega arith),
    mod-eq_of_lt {n = j % p + d - p} {m = p} (omega (arith, mod-lt j {m = p} (omega arith))),
  )
]

module _ {W S : Type 0} where
  unfoldable pub step : State W S → Op → State W S
  step s (add r) = (insert_entry r s).1
  step s (take id) = (take_entry id s).1

  unfoldable pub run : State W S → List Op → State W S
  run s [] = s
  run s (op ∷ ops) = run (step s op) ops

  abbrev pub size : State W S → ℕ
  size s = 2 ^ s.pending_requests_table_order

  abbrev pub last : State W S → ℕ
  last s = s.last_pending_request_id_val

  step-IsTable : (s : State W S) (op : Op) → IsTable s → IsTable (step s op)
  unfolding step
  step-IsTable s (add r) t = insert_entry-IsTable s r t
  step-IsTable s (take id) t = take_entry-IsTable s id t

  last-add :
      (s : State W S) (r : PendingRequest)
      → last s + 1 < 2 ^ 64
      → last (step s (add r)) ≡ last s + 1
  unfolding step insert_entry
  last-add s r h = let small : (last s + 1) % 2 ^ 64 ≡ last s + 1 = mod-eq_of_lt h in small

  size-step : (s : State W S) (op : Op) → size (step s op) ≡ size s
  unfolding step insert_entry take_entry
  size-step s (add r) = refl
  size-step s (take id) = ground arith

  last-take : (s : State W S) (id : ℕ) → last (step s (take id)) ≡ last s
  unfolding step take_entry
  last-take s id = ground arith

  -- The two steps, as far as the counter does not wrap.
  stored-add :
      (s : State W S) (r : PendingRequest) (j : ℕ)
      → IsTable s
      → last s + 1 < 2 ^ 64
      → stored (step s (add r)) j ≡ (
          if last s + 1 == j
          then some r.hkdf_prk
          else if shares s (last s + 1) j
          then none
          else stored s j)
  unfolding step
  stored-add s r j t h =
      let small : (last s + 1) % 2 ^ 64 ≡ last s + 1 = mod-eq_of_lt h in
      rw small at ((stored-insert_entry s r j t).1)

  stored-take :
      (s : State W S) (id j : ℕ)
      → IsTable s
      → j ≢ 0
      → stored (step s (take id)) j ≡ (if id == j then none else stored s j)
  unfolding step
  stored-take s id j t nz = stored-take_entry s id j t nz

  -- The next ID has an entry of its own, unless it is a whole table further on.
  shares-next :
      (s : State W S) (j : ℕ)
      → j ≤ last s
      → last s + 1 - j < size s
      → shares s (last s + 1) j ≡ false
  shares-next s j le near =
      let apart : last s + 1 ≡ j + (last s + 1 - j) = omega arith in
      rw apart (==_of_ne _ _ (add-mod-ne (size s) j (last s + 1 - j) (omega arith) near))

  -- A request stays as it was added while it is not removed, and fewer requests than the table has
  -- entries were added since; the counter does not wrap.
  pub stored-run :
      (ops : List Op) (s : State W S) (j : ℕ) (prk : Bytes)
      → IsTable s
      → j ≢ 0
      → stored s j ≡ some prk
      → j ≤ last s
      → All (λ op. is_take j op ≡ false) ops
      → last s - j + adds ops < size s
      → last s + adds ops < 2 ^ 64
      → stored (run s ops) j ≡ some prk
  unfolding run
  stored-run [] s j prk t nz e le no_take room wrap = e
  stored-run (add r ∷ ops) s j prk t nz e le no_take room wrap =
      stored-run ops (step s (add r)) j prk (step-IsTable s (add r) t) nz
        (rw (stored-add s r j t (omega arith), shares-next s j le (omega arith)) (ground arith))
        (omega (arith, last-add s r (omega arith))) no_take.1
        (rw (size-step s (add r), last-add s r (omega arith)) (omega arith))
        (omega (arith, last-add s r (omega arith)))
  stored-run (take id ∷ ops) s j prk t nz e le no_take room wrap =
      stored-run ops (step s (take id)) j prk (step-IsTable s (take id) t) nz
        (rw (stored-take s id j t nz, no_take.0) e) (omega (arith, last-take s id)) no_take.1
        (rw (size-step s (take id), last-take s id) room) (omega (arith, last-take s id))

  -- Every request that is stored is among the last ones that the table has entries for.
  abbrev pub InWindow : State W S → Type 0
  InWindow s = (j : ℕ) → j ≢ 0 → (stored s j ≡ none) ⊎ ((j ≤ last s) × (last s - j < size s))

  -- An ID a whole table back shares the next entry.
  shares_window : (s : State W S) (j : ℕ) → last s + 1 ≡ j + size s → shares s (last s + 1) j ≡ true
  shares_window s j e = rw e ((==_iff _ _).1 (add-mod_right j (size s)))

  add-InWindow :
      (s : State W S) (r : PendingRequest)
      → IsTable s
      → last s + 1 < 2 ^ 64
      → InWindow s
      → InWindow (step s (add r))
  add-InWindow s r t wrap w j nz = ground (
    arith,
    w j nz,
    stored-add s r j t,
    size-step s (add r),
    last-add s r,
    shares_window s j,
    pow_pos s.pending_requests_table_order,
  )

  take-InWindow : (s : State W S) (id : ℕ) → IsTable s → InWindow s → InWindow (step s (take id))
  take-InWindow s id t w j nz =
      ground (arith, w j nz, stored-take s id j t nz, size-step s (take id), last-take s id)

  -- From a table of the right size in which every request that is stored under an ID other than 0 is
  -- among the last ones issued that the table has entries for: any history of additions and removals
  -- leaves such a table, as long as the ID counter does not wrap.
  pub run-InWindow :
      (ops : List Op) (s : State W S)
      → IsTable s
      → last s + adds ops < 2 ^ 64
      → InWindow s
      → IsTable (run s ops) × InWindow (run s ops)
  unfolding run
  run-InWindow [] s t wrap w = (t, w)
  run-InWindow (add r ∷ ops) s t wrap w =
      run-InWindow ops (step s (add r)) (step-IsTable s (add r) t)
        (omega (arith, last-add s r (omega arith))) (add-InWindow s r t (omega arith) w)
  run-InWindow (take id ∷ ops) s t wrap w =
      run-InWindow ops (step s (take id)) (step-IsTable s (take id) t)
        (omega (arith, last-take s id)) (take-InWindow s id t w)

  -- A table that calloc zeroed holds no request.
  pub fresh-InWindow :
      (n : ℕ) (s : State W S) → s.pending_requests ≡ replicate n zero_request → InWindow s
  unfolding stored
  fresh-InWindow n s e j nz =
      let zeroed =
        ap (λ t. get_or t (slot s j) zero_request) e ∙ get_or-replicate n (slot s j) zero_request in
      inl (rw zeroed (ground arith))
