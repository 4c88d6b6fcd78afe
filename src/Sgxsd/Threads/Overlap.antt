-- ===== src/Sgxsd/Threads/Overlap.antt =====
-- A stop lets two threads into a server at once.
use contact_discovery_servic.Prelude.{ℕ, ◌≡◌, ◌≢◌, refl, true, some, arith}
use contact_discovery_servic.Sgxsd.State.{ServerStateDesc}
use contact_discovery_servic.Sgxsd.Threads.{
  start, call, stop, Pc, in_callback, Move, arrive, enter, begin_callback, begin_stop, end_start,
  end_callback, leave, System, update, pick, Reach, here, next,
}

start-ne-stop : start ≢ stop
start-ne-stop e = ground arith

call-ne-stop : call ≢ stop
call-ne-stop e = ground arith

stop-ne-start : stop ≢ start
stop-ne-start e = ground arith

stop-ne-call : stop ≢ call
stop-ne-call e = ground arith

module _ (S : Type 0) where
  moved :
      {s : System S} {d : ServerStateDesc S} {p : Pc} (i : ℕ)
      → Reach S true s
      → Move S true s.desc (s.pc i) d p
      → Reach S true (record { desc = d; pc = update S s.pc i p })
  moved i r m = next r (pick i m)

  -- Threads 0 to 4 go to the same server: 0 starts it, 1 stops it and is in its callback, 2 starts it
  -- again, with this state, and 3 is in a call; then the stop returns and unlocks, and 4 calls.
  abbrev pub Together : S → Type 0
  Together x =
      (s : System S) × Reach S true s
      × (s.pc 3 ≡ in_callback call)
      × (s.pc 4 ≡ in_callback call)
      × (s.desc.p_state ≡ some x)

  -- For any state of a server, threads can reach, by moves in some order from a server that does not
  -- run, a state in which two of them are in the callback of sgxsd_enclave_server_call on it at once,
  -- where a stop found the server running.
  pub overlap : (x : S) → Together x
  overlap x =
      let ready = moved 0 (moved 0 here (arrive start)) (enter refl) in
      let starting = moved 0 ready (begin_callback refl start-ne-stop) in
      let started = moved 0 (moved 0 starting (end_start (some x) true refl)) leave in
      let at_stop = moved 1 (moved 1 started (arrive stop)) (enter refl) in
      let stopping = moved 1 at_stop (begin_stop refl refl refl) in
      let again = moved 2 (moved 2 stopping (arrive start)) (enter refl) in
      let restarting = moved 2 again (begin_callback refl start-ne-stop) in
      let restarted = moved 2 (moved 2 restarting (end_start (some x) true refl)) leave in
      let at_call = moved 3 (moved 3 restarted (arrive call)) (enter refl) in
      let calling = moved 3 at_call (begin_callback refl call-ne-stop) in
      let stopped = moved 1 (moved 1 calling (end_callback stop-ne-start stop-ne-call)) leave in
      let at_call' = moved 4 (moved 4 stopped (arrive call)) (enter refl) in
      (_, moved 4 at_call' (begin_callback refl call-ne-stop), refl, refl, refl)
