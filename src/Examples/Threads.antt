-- ===== src/Examples/Threads.antt =====
-- Reachable states of the toy node, and threads at a server of it.
use contact_discovery_servic.Prelude.{ℕ, refl, true, false, none, some, [], arith}
use contact_discovery_servic.Sgxsd.Types.{NodeInitArgs}
use contact_discovery_servic.Sgxsd.Platform.{Host}
use contact_discovery_servic.Sgxsd.State.{Enclave}
use contact_discovery_servic.Sgxsd.Node.{node_init}
use contact_discovery_servic.Sgxsd.Servers.{server_start, server_stop}
use contact_discovery_servic.Sgxsd.Reachable.{
  loaded, to_node_init, to_server_start, to_server_stop, Reach, start, next, IsSound,
}
use contact_discovery_servic.Sgxsd.Reachable.Soundness.{Reach-IsSound}
use contact_discovery_servic.Sgxsd.Threads
use contact_discovery_servic.Sgxsd.Threads.{System, Call}
use contact_discovery_servic.Sgxsd.Threads.Exclusion.{IsExclusive, Reach-IsExclusive}
use contact_discovery_servic.Sgxsd.Threads.Overlap.{Together, overlap}
use contact_discovery_servic.Examples.Toy.{toy_crypto, toy_platform, toy_server}

abbrev toy_host : Host ℕ
toy_host = record { world = 1; mem = λ a. [] }

abbrev toy_args : NodeInitArgs
toy_args = record { pending_requests_table_order = 2 }

-- A node that is initialized, and a server of it that is started and stopped.
abbrev initialized : Enclave toy_platform toy_server
initialized =
    (node_init toy_crypto toy_platform toy_server (some toy_args)
      (loaded toy_platform toy_server toy_host)).1

abbrev served : Enclave toy_platform toy_server
served = (server_start toy_crypto toy_platform toy_server (some tt) 7 initialized).1

abbrev stopped : Enclave toy_platform toy_server
stopped = (server_stop toy_crypto toy_platform toy_server (some tt) 7 served).1

stopped_Reach : Reach toy_crypto toy_platform toy_server stopped
stopped_Reach =
    next (next (next (start toy_host) (to_node_init (some toy_args))) (to_server_start (some tt) 7))
      (to_server_stop (some tt) 7)

Reach-IsSound_example : IsSound toy_crypto toy_platform toy_server stopped
Reach-IsSound_example = Reach-IsSound toy_crypto toy_platform toy_server stopped_Reach

-- One thread in a callback of a start, and another that waits for the lock.
abbrev contended : System ℕ
contended = record {
  desc = record { valid = false; lock = true; p_state = none };
  pc =
      Threads.update ℕ
        (Threads.update ℕ
          (Threads.update ℕ
            (Threads.update ℕ (λ i. Threads.outside) 0 (Threads.spinning Call.start)) 1
            (Threads.spinning Call.call))
          0 (Threads.locked Call.start))
        0 (Threads.in_callback Call.start);
}

contended_Reach : Threads.Reach ℕ false contended
contended_Reach =
    Threads.next
      (Threads.next
        (Threads.next (Threads.next Threads.here (Threads.pick 0 (Threads.arrive Call.start)))
          (Threads.pick 1 (Threads.arrive Call.call)))
        (Threads.pick 0 (Threads.enter refl)))
      (Threads.pick 0 (Threads.begin_callback refl (λ e. ground arith)))

Reach-IsExclusive_example : IsExclusive ℕ contended
Reach-IsExclusive_example = Reach-IsExclusive ℕ contended_Reach

overlap_example : Together ℕ 5
overlap_example = overlap ℕ 5
