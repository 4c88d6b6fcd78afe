-- ===== src/Examples/Directories.antt =====
-- Small tables of phones.
use contact_discovery_servic.Prelude.{
  ℕ, ◌+◌, ◌*◌, ◌/◌, ◌<◌, ◌≡◌, ◌≢◌, List, ok, zero, suc, refl, inl, false, true, some, [], ◌∷◌,
  arith,
}
use contact_discovery_servic.Cds.HashTable.{Uuid, zero_uuid}
use contact_discovery_servic.Directory.{
  ByteOrder, deleted_e164, scan, add_to_buffer, add_at, write_at, remove_from_buffer, erase_at,
}
use contact_discovery_servic.Directory.Scan.{at}
use contact_discovery_servic.Directory.Table.{slot_of, IsProbed, empty-IsProbed}
use contact_discovery_servic.Directory.Writes.{written-IsProbed, deleted-IsProbed}
use contact_discovery_servic.Directory.Phones.{IsPhone, WasAdded, add_to_buffer-WasAdded}
use contact_discovery_servic.Directory.Buffers.{
  Floats, Buffers, insert, rehash, rehash_all, finish_insert, remove,
}
use contact_discovery_servic.Directory.Counts.{live_count}
use contact_discovery_servic.Directory.Copies.{IsWords}
use contact_discovery_servic.Directory.Sound.{IsSound}
use contact_discovery_servic.Directory.Remove.{HasRemoved, remove-HasRemoved}
use contact_discovery_servic.Directory.Map
use contact_discovery_servic.Directory.Map.{DirectoryMap}
use contact_discovery_servic.Directory.Removal.{WasRemoved, remove_from_buffer-WasRemoved}

-- A machine whose own order is big-endian.
abbrev plain : ByteOrder
plain = record {
  to_be = λ x. x;
  from_be = λ x. x;
  from_be-to_be = λ x h. refl;
  to_be-from_be = λ x h. refl;
  to_be-lt = λ x h. h;
  from_be-lt = λ x h. h;
  from_be-zero = refl;
  from_be-ones = refl;
}

abbrev uuid_of : ℕ → Uuid
uuid_of n = record { data64_0 = n; data64_1 = n + 1 }

-- Three slots: a deleted one where phones 3, 6 and 9 belong, phone 6 behind it, and a free one.
abbrev e164s : List ℕ
e164s = deleted_e164 ∷ 6 ∷ 0 ∷ []

abbrev uuids : List Uuid
uuids = zero_uuid ∷ uuid_of 60 ∷ zero_uuid ∷ []

not_three : (i : ℕ) → i < 3 → slot_of (0 ∷ 0 ∷ 0 ∷ []) i ≢ 3
not_three zero lt e = omega (arith, e)
not_three (suc zero) lt e = omega (arith, e)
not_three (suc (suc zero)) lt e = omega (arith, e)
not_three (suc (suc (suc i))) lt e = omega (arith, lt)

not_six : (i : ℕ) → i < 3 → slot_of (3 ∷ 0 ∷ 0 ∷ []) i ≢ 6
not_six zero lt e = omega (arith, e)
not_six (suc zero) lt e = omega (arith, e)
not_six (suc (suc zero)) lt e = omega (arith, e)
not_six (suc (suc (suc i))) lt e = omega (arith, lt)

behind_three : (j : ℕ) → j < 1 → at (3 ∷ 0 ∷ 0 ∷ []) 0 j ≢ 0
behind_three zero lt e = omega (arith, e)
behind_three (suc j) lt e = omega (arith, lt)

first-IsProbed : IsProbed plain (3 ∷ 0 ∷ 0 ∷ [])
first-IsProbed =
    written-IsProbed plain (0 ∷ 0 ∷ 0 ∷ []) 0 3 (omega arith) 0 (empty-IsProbed plain 3) refl
      not_three (omega arith, refl, λ j lt. absurd (omega arith))

second-IsProbed : IsProbed plain (3 ∷ 6 ∷ 0 ∷ [])
second-IsProbed =
    written-IsProbed plain (3 ∷ 0 ∷ 0 ∷ []) 1 6 (omega arith) 1 first-IsProbed refl not_six
      (omega arith, refl, behind_three)

e164s-IsProbed : IsProbed plain e164s
e164s-IsProbed = deleted-IsProbed plain (3 ∷ 6 ∷ 0 ∷ []) 0 (omega arith) second-IsProbed

six-IsPhone : IsPhone 6
six-IsPhone = record {
  word = omega arith;
  not_free = λ e. omega (arith, e);
  not_deleted = λ e. omega (arith, e);
}

-- Phone 6 is found behind the deleted slot, and keeps its own.
add_to_buffer-WasAdded_example :
    WasAdded plain e164s uuids 6 (uuid_of 61) (add_to_buffer plain e164s uuids 6 (uuid_of 61) false)
add_to_buffer-WasAdded_example =
    add_to_buffer-WasAdded plain e164s uuids 6 six-IsPhone e164s-IsProbed refl (omega arith)
      (uuid_of 61) false (0, omega arith, inl refl)

add_six :
    add_to_buffer plain e164s uuids 6 (uuid_of 61) false
    ≡ some (6, e164s, zero_uuid ∷ uuid_of 61 ∷ zero_uuid ∷ [])
unfolding add_to_buffer add_at write_at scan
add_six = refl

-- Phone 9 goes to the deleted slot.
add_nine :
    add_to_buffer plain e164s uuids 9 (uuid_of 90) false
    ≡ some (deleted_e164, 9 ∷ 6 ∷ 0 ∷ [], uuid_of 90 ∷ uuid_of 60 ∷ zero_uuid ∷ [])
unfolding add_to_buffer add_at write_at scan
add_nine = refl

remove_from_buffer-WasRemoved_example :
    WasRemoved plain e164s uuids 6 (remove_from_buffer plain e164s uuids 6)
remove_from_buffer-WasRemoved_example =
    remove_from_buffer-WasRemoved plain e164s uuids 6 six-IsPhone e164s-IsProbed refl (omega arith)

remove_six :
    remove_from_buffer plain e164s uuids 6
    ≡ some (true, deleted_e164 ∷ deleted_e164 ∷ 0 ∷ [], zero_uuid ∷ zero_uuid ∷ zero_uuid ∷ [])
unfolding remove_from_buffer erase_at scan
remove_six = refl

-- Load factors in percent.
abbrev percents : Floats
percents = record { F = ℕ; quotient = λ n x. n * 100 / x; product = λ n x. n * x / 100 }

-- A table of one slot, with a phone in it.
abbrev one_slot : Buffers ℕ
one_slot = record {
  min_load_factor = 50;
  max_load_factor = 90;
  element_count = 1;
  used_slot_count = 1;
  e164s_buffer = 3 ∷ [];
  uuids_buffer = uuid_of 30 ∷ [];
}

not_three_yet : (i : ℕ) → i < 1 → slot_of (0 ∷ []) i ≢ 3
not_three_yet zero lt e = omega (arith, e)
not_three_yet (suc i) lt e = omega (arith, lt)

one_slot-IsWords : IsWords (3 ∷ [])
one_slot-IsWords zero lt = omega arith
one_slot-IsWords (suc i) lt = absurd (omega (arith, lt))

one_slot-IsSound : IsSound plain one_slot
unfolding live_count
one_slot-IsSound = record {
  probed =
      written-IsProbed plain (0 ∷ []) 0 3 (omega arith) 0 (empty-IsProbed plain 1) refl
        not_three_yet (omega arith, refl, λ j lt. absurd (omega arith));
  sizes = refl;
  words = one_slot-IsWords;
  counted = refl;
  some_slot = omega arith;
}

three-IsPhone : IsPhone 3
three-IsPhone = record {
  word = omega arith;
  not_free = λ e. omega (arith, e);
  not_deleted = λ e. omega (arith, e);
}

grown : Buffers ℕ
grown = record {
  min_load_factor = 50;
  max_load_factor = 90;
  element_count = 2;
  used_slot_count = 2;
  e164s_buffer = 4 ∷ 0 ∷ 0 ∷ 3 ∷ [];
  uuids_buffer = uuid_of 40 ∷ zero_uuid ∷ zero_uuid ∷ uuid_of 30 ∷ [];
}

insert_four : insert plain percents one_slot 4 (uuid_of 40) ≡ some (ok true, grown)
unfolding insert rehash rehash_all finish_insert add_to_buffer add_at write_at scan grown
insert_four = refl

remove-HasRemoved_example : HasRemoved plain percents one_slot 3 (remove plain percents one_slot 3)
remove-HasRemoved_example =
    remove-HasRemoved plain percents one_slot 3 one_slot-IsSound three-IsPhone

abbrev one_map : DirectoryMap ℕ
one_map = record { dirty = false; building = one_slot; serving = one_slot }

-- A new UUID for phone 3 is not committed.
published_three :
    Map.insert plain percents one_map 3 (uuid_of 31)
    ≡ some (
      ok false,
      record one_map {
        building = record one_slot {
          e164s_buffer = 0 ∷ 3 ∷ [];
          uuids_buffer = zero_uuid ∷ uuid_of 31 ∷ [];
        };
      },
    )
unfolding Map.insert insert rehash rehash_all finish_insert add_to_buffer add_at write_at scan
published_three = refl
