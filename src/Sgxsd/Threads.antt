-- ===== src/Sgxsd/Threads.antt =====
-- Threads that call the entry points of one server of enclave/c_src/sgxsd-enclave.c at the same time:
-- sgxsd_enclave_server_start, sgxsd_enclave_server_call, sgxsd_enclave_server_stop and
-- sgxsd_enclave_ratelimit_fingerprint, from the spin lock of the descriptor to its unlock. A call that
-- is refused before the lock is no move, and so is what a thread does in a callback.
pub mod Exclusion
pub mod Overlap
use contact_discovery_servic.Prelude.{
  ℕ, ◌==◌, ◌≡◌, ◌≢◌, true, false, Bool, not, if◌then◌else◌, Option,
}
use contact_discovery_servic.Sgxsd.State.{ServerStateDesc, zero_desc}

pub data Call : Type 0 where
  start call stop fingerprint : Call

-- A start is refused if the server runs, and the others if it does not.
abbrev pub wants_valid : Call → Bool
wants_valid start = false
wants_valid _ = true

-- Where a thread stands.
pub data Pc : Type 0 where
  outside : Pc
  spinning : Call → Pc  -- in `sgxsd_spin_lock`
  locked : Call → Pc  -- at the start of the function under the lock
  in_callback : Call → Pc
  leaving : Pc  -- before `sgxsd_spin_unlock`

abbrev pub inside : Pc → Bool
inside outside = false
inside (spinning _) = false
inside _ = true

module _ (S : Type 0) where
  -- A move of one thread, on the descriptor. `stops` says whether a stop may find the server running.
  pub data Move (stops : Bool) (d : ServerStateDesc S) : Pc → ServerStateDesc S → Pc → Type 0 where
    arrive : (k : Call) → Move stops d outside d (spinning k)
    wait : {k : Call} → d.lock ≡ true → Move stops d (spinning k) d (spinning k)
    enter :
        {k : Call}
        → d.lock ≡ false
        → Move stops d (spinning k) (record d { lock = true }) (locked k)
    refuse : {k : Call} → d.valid ≡ not (wants_valid k) → Move stops d (locked k) d leaving
    -- a call whose header or message is refused, or whose request is not found or does not decrypt
    give_up :
        {k : Call}
        → d.valid ≡ wants_valid k
        → k ≢ start
        → k ≢ stop
        → Move stops d (locked k) d leaving
    begin_callback :
        {k : Call} → d.valid ≡ wants_valid k → k ≢ stop → Move stops d (locked k) d (in_callback k)
    -- the descriptor is zeroed before the callback
    begin_stop :
        {k : Call}
        → k ≡ stop
        → d.valid ≡ true
        → stops ≡ true
        → Move stops d (locked k) zero_desc (in_callback k)
    -- `valid` is set if the callback succeeded
    end_start :
        {k : Call} (p_state : Option S) (succeeded : Bool)
        → k ≡ start
        → Move stops d
            (in_callback k)
            (record d { valid = if succeeded then true else d.valid; p_state = p_state })
            leaving
    end_call :
        {k : Call} (p_state : Option S)
        → k ≡ call
        → Move stops d (in_callback k) (record d { p_state = p_state }) leaving
    end_callback : {k : Call} → k ≢ start → k ≢ call → Move stops d (in_callback k) d leaving
    leave : Move stops d leaving (record d { lock = false }) outside

  pub record System : Type 0 where
    pub desc : ServerStateDesc S
    pub pc : ℕ → Pc

  abbrev pub update : (ℕ → Pc) → ℕ → Pc → ℕ → Pc
  update f i p j = if i == j then p else f j

  pub data Step (stops : Bool) (s : System) : System → Type 0 where
    pick :
        (i : ℕ) {d : ServerStateDesc S} {p : Pc}
        → Move stops s.desc (s.pc i) d p
        → Step stops s (record { desc = d; pc = update s.pc i p })

  abbrev pub idle : System
  idle = record { desc = zero_desc; pc = λ i. outside }

  pub data Reach (stops : Bool) : System → Type 0 where
    here : Reach stops idle
    next : {s t : System} → Reach stops s → Step stops s t → Reach stops t
