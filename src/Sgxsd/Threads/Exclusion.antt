-- ===== src/Sgxsd/Threads/Exclusion.antt =====
-- The lock of a server keeps threads apart, as long as no stop finds it running.
use contact_discovery_servic.Prelude.{ℕ, ◌≡◌, ◌⊎◌, inl, inr, refl, sym, ap, ◌∙◌, true, false, arith}
use contact_discovery_servic.Sgxsd.State.{ServerStateDesc}
use contact_discovery_servic.Sgxsd.Threads.{
  Pc, inside, Move, arrive, wait, enter, refuse, give_up, begin_callback, begin_stop, end_start,
  end_call, end_callback, leave, System, update, Step, pick, Reach, here, next,
}

module _ (S : Type 0) where
  -- What a move does to the lock and to where the thread stands.
  Effect : ServerStateDesc S → Pc → ServerStateDesc S → Pc → Type 0
  Effect d p d' p' =
      ((inside p' ≡ inside p) × (d'.lock ≡ d.lock))
      ⊎ (((d.lock ≡ false) × (d'.lock ≡ true) × (inside p' ≡ true))
          ⊎ ((d'.lock ≡ false) × (inside p ≡ true) × (inside p' ≡ false)))

  effect : {d d' : ServerStateDesc S} {p p' : Pc} → Move S false d p d' p' → Effect d p d' p'
  unfolding Effect
  effect (arrive k) = inl (refl, refl)
  effect (wait h) = inl (refl, refl)
  effect (enter h) = inr (inl (h, refl, refl))
  effect (refuse h) = inl (refl, refl)
  effect (give_up h ns np) = inl (refl, refl)
  effect (begin_callback h np) = inl (refl, refl)
  effect (begin_stop e h no_stops) = absurd (cc (no_stops))
  effect (end_start p_state ok e) = inl (refl, refl)
  effect (end_call p_state e) = inl (refl, refl)
  effect (end_callback ns nc) = inl (refl, refl)
  effect leave = inr (inr (refl, refl, refl))

  -- Two threads inside are one; while the lock is free none is inside, and while it is held one is.
  pub record IsExclusive (s : System S) : Type 0 where
    pub unique : (i j : ℕ) → inside (s.pc i) ≡ true → inside (s.pc j) ≡ true → i ≡ j
    pub free : s.desc.lock ≡ false → (i : ℕ) → inside (s.pc i) ≡ false
    pub held : s.desc.lock ≡ true → (i : ℕ) × (inside (s.pc i) ≡ true)

  module _ (s : System S) (i : ℕ) (p : Pc) (h : IsExclusive s) where
    -- A thread that stays where it was, with respect to the lock.
    stays : inside p ≡ inside (s.pc i) → (a : ℕ) → inside (update S s.pc i p a) ≡ inside (s.pc a)
    stays e a = ground (arith, ap s.pc)

    -- A thread that comes in while the lock is free is alone.
    alone : s.desc.lock ≡ false → (a : ℕ) → inside (update S s.pc i p a) ≡ true → a ≡ i
    alone e a in_a = ground (arith, h.free e a)

    -- A thread that leaves was the only one.
    nobody :
        inside (s.pc i) ≡ true → inside p ≡ false → (a : ℕ) → inside (update S s.pc i p a) ≡ false
    nobody in_i out a = ground (arith, h.unique a i)

  stepped :
      (s : System S) (i : ℕ) (d : ServerStateDesc S) (p : Pc)
      → IsExclusive s
      → Effect s.desc (s.pc i) d p
      → IsExclusive (record { desc = d; pc = update S s.pc i p })
  unfolding Effect
  stepped s i d p h (inl (same, lock)) = record {
    unique = λ a b in_a in_b.
        h.unique a b (sym (stays s i p h same a) ∙ in_a) (sym (stays s i p h same b) ∙ in_b);
    free = λ e a. stays s i p h same a ∙ h.free (sym lock ∙ e) a;
    held = λ e. let (a, in_a) = h.held (sym lock ∙ e) in (a, stays s i p h same a ∙ in_a);
  }
  stepped s i d p h (inr (inl (was_free, is_held, in_p))) = record {
    unique = λ a b in_a in_b. alone s i p h was_free a in_a ∙ sym (alone s i p h was_free b in_b);
    free = λ e a. absurd (cc (e, is_held));
    held = λ e. (i, ground arith);
  }
  stepped s i d p h (inr (inr (is_free, in_i, out))) = record {
    unique = λ a b in_a in_b. absurd (cc (in_a, nobody s i p h in_i out a));
    free = λ e a. nobody s i p h in_i out a;
    held = λ e. absurd (cc (e, is_free));
  }

  Step-IsExclusive : {s t : System S} → Step S false s t → IsExclusive s → IsExclusive t
  Step-IsExclusive {s} (pick i {d} {p} m) h = stepped s i d p h (effect m)

  -- In every state that threads reach by moves in any order, from a server that does not run and no
  -- thread under way, as long as no stop finds the server running: at most one thread is between the
  -- lock of the server and its unlock; none is while the lock is free, and one is while it is held.
  pub Reach-IsExclusive : {s : System S} → Reach S false s → IsExclusive s
  Reach-IsExclusive here = record {
    unique = λ a b in_a in_b. absurd (cc (in_a));
    free = λ e a. refl;
    held = λ e. absurd (cc (e));
  }
  Reach-IsExclusive (next r st) = Step-IsExclusive st (Reach-IsExclusive r)
