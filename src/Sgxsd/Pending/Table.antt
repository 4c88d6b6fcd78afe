-- ===== src/Sgxsd/Pending/Table.antt =====
-- The table of pending requests as a map from IDs to requests, with eviction.
use contact_discovery_servic.Prelude.{
  ℕ, ◌+◌, ◌%◌, ◌^◌, ◌≤◌, ◌<◌, ◌≡◌, ◌≢◌, refl, ◌∙◌, bit_and_mask, pow_pos, Bool, true, ◌==◌, ==_iff,
  if◌then◌else◌, Option, none, some, arith, length, length-set, get_or-set, ok, err, Result,
}
use contact_discovery_servic.Sgxsd.Types.{Bytes, Status, PendingRequest, pending_request_not_found}
use contact_discovery_servic.Sgxsd.State.{State}
use contact_discovery_servic.Sgxsd.Node.{zero_request}
use contact_discovery_servic.Sgxsd.Pending.{slot, entry, insert_entry, get_entry, take_entry}
use native.Mathlib.Nat.{mod-lt}

-- The answer to a lookup of an ID under which this is stored.
abbrev pub answer : ℕ → Option Bytes → Result Status PendingRequest
answer id (some prk) = ok (record { id_val = id; hkdf_prk = prk })
answer id none = err pending_request_not_found

module _ {W S : Type 0} where
  -- The table has the size of its order, and its order is one that node_init accepts.
  pub record IsTable (s : State W S) : Type 0 where
    pub sized : length s.pending_requests ≡ 2 ^ s.pending_requests_table_order
    pub small : s.pending_requests_table_order ≤ 63

  -- The abstract view: the request that is stored under an ID.
  unfoldable pub stored : State W S → ℕ → Option Bytes
  stored s id = if (entry s id).id_val == id then some (entry s id).hkdf_prk else none

  -- Two IDs that share an entry.
  abbrev pub shares : State W S → ℕ → ℕ → Bool
  shares s i j = i % 2 ^ s.pending_requests_table_order == j % 2 ^ s.pending_requests_table_order

  -- Each access is inside the table: the mask is a remainder by the table's size.
  pub slot-lt-length : (s : State W S) (id : ℕ) → IsTable s → slot s id < length s.pending_requests
  slot-lt-length s id t =
      let order = s.pending_requests_table_order in
      omega (arith, bit_and_mask order id, mod-lt id (pow_pos order))

  pub insert_entry-IsTable :
      (s : State W S) (r : PendingRequest) → IsTable s → IsTable (insert_entry r s).1
  unfolding insert_entry
  insert_entry-IsTable s r t =
      let id = (s.last_pending_request_id_val + 1) % 2 ^ 64 in
      ground (arith, length-set s.pending_requests (slot s id) (record r { id_val = id }))

  pub take_entry-IsTable : (s : State W S) (id : ℕ) → IsTable s → IsTable (take_entry id s).1
  unfolding take_entry
  take_entry-IsTable s id t = ground (arith, length-set s.pending_requests (slot s id) zero_request)

  -- Adding a request stores it under the next ID and evicts the one ID before it that shares its
  -- entry; every other ID keeps what it had.
  pub stored-insert_entry :
      (s : State W S) (r : PendingRequest) (j : ℕ)
      → IsTable s
      → let new = (s.last_pending_request_id_val + 1) % 2 ^ 64 in
        ((insert_entry r s).0 ≡ ok new)
        × (stored (insert_entry r s).1 j
            ≡ (if new == j then some r.hkdf_prk else if shares s new j then none else stored s j))
  unfolding stored insert_entry
  stored-insert_entry s r j t = (
    refl,
    ground (
      arith,
      get_or-set s.pending_requests (slot s id) (slot s j) (record r { id_val = id }) zero_request
          (slot-lt-length s id t),
      bit_and_mask s.pending_requests_table_order id,
      bit_and_mask s.pending_requests_table_order j,
    ),
  )
    where
      id : ℕ
      id = (s.last_pending_request_id_val + 1) % 2 ^ 64

  -- A lookup that keeps the entry answers by what is stored, and changes nothing.
  pub get_entry-stored : (s : State W S) (id : ℕ) → get_entry id s ≡ (answer id (stored s id), s)
  unfolding get_entry stored
  get_entry-stored s id = ground arith

  -- So does the lookup that removes the entry.
  pub take_entry-stored : (s : State W S) (id : ℕ) → (take_entry id s).0 ≡ answer id (stored s id)
  unfolding take_entry stored
  take_entry-stored s id = ground arith

  -- Removing an ID leaves nothing under it, and every other ID keeps what it had. (ID 0 is never
  -- issued before the counter wraps; it stands for an empty entry.)
  pub stored-take_entry :
      (s : State W S) (id j : ℕ)
      → IsTable s
      → j ≢ 0
      → stored (take_entry id s).1 j ≡ (if id == j then none else stored s j)
  unfolding stored take_entry
  stored-take_entry s id j t h = ground (
    arith,
    get_or-set s.pending_requests (slot s id) (slot s j) zero_request zero_request
        (slot-lt-length s id t),
  )

  pub take_entry_removes :
      (s : State W S) (id : ℕ) → IsTable s → id ≢ 0 → stored (take_entry id s).1 id ≡ none
  take_entry_removes s id t nz =
      let self : (id == id) ≡ true = (==_iff id id).1 refl in
      stored-take_entry s id id t nz ∙ rw self
