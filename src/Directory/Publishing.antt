-- ===== src/Directory/Publishing.antt =====
-- What DirectoryMap publishes by an insertion and a commit.
use contact_discovery_servic.Prelude.{
  ℕ, ◌≡◌, true, false, Bool, Option, none, some, length, ok, err,
}
use contact_discovery_servic.Cds.HashTable.{Uuid}
use contact_discovery_servic.Directory.{ByteOrder}
use contact_discovery_servic.Directory.Buffers.{Floats, Buffers}
use contact_discovery_servic.Directory.Map.{DirectoryMap, Outcome, commit}
use contact_discovery_servic.Directory.Sound.{IsSound}
use contact_discovery_servic.Directory.Growth.{Inserts}

-- The arrays of the buffers are of one length.
abbrev pub IsPaired : {F : Type 0} → Buffers F → Type 0
IsPaired b = length b.uuids_buffer ≡ length b.e164s_buffer

module _ (o : ByteOrder) (f : Floats) where
  -- What a commit after an insertion does: it publishes the phone if it was added, and nothing if not.
  abbrev pub IsPublished :
      DirectoryMap f.F → ℕ → Uuid → Bool → Option (Bool × DirectoryMap f.F) → Type 0
  IsPublished m k v added none = ⊥
  IsPublished m k v true (some (committed, m')) =
      (committed ≡ true)
      × (m'.dirty ≡ false)
      × IsSound o m'.serving
      × (m'.building ≡ m'.serving)
      × Inserts m.building k v true m'.serving
  IsPublished m k v false (some (committed, m')) =
      (committed ≡ false)
      × (m'.dirty ≡ false)
      × IsSound o m'.building
      × (m'.serving ≡ m.serving)
      × Inserts m.building k v false m'.building

  -- The insertion succeeds, and then the commit.
  abbrev pub Publishes : DirectoryMap f.F → ℕ → Uuid → Outcome o f → Type 0
  Publishes m k v none = ⊥
  Publishes m k v (some (err e, m')) = ⊥
  Publishes m k v (some (ok added, m')) = IsPublished m k v added (commit m')
