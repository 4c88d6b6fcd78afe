-- ===== src/Edl/Ecalls/Blocks.antt =====
-- The blocks that an ecall allocates for its arguments.
use contact_discovery_servic.Prelude.{
  ℕ, zero, suc, ◌+◌, ◌≤◌, ◌≡◌, ◌==◌, ==_iff, refl, sym, ap, ◌∙◌, inl, inr, Bool, false, Bool-cases,
  if◌then◌else◌, Option, none, some, List, [], ◌∷◌, arith, Result, ok, err, fail_if, pure, ◌>>=◌,
}
use contact_discovery_servic.Prelude.Monad.Ends.{
  Ends, Post, Ends-bind, Ends-pure, Ends-modify, Ends-fail_if,
}
use contact_discovery_servic.Prelude.Monad.Preserves.{Preserves, Preserves-bind, preserves_rules}
use contact_discovery_servic.Sgxsd.Types.{Bytes, Status}
use contact_discovery_servic.Sgxsd.Crypto.{Crypto}
use contact_discovery_servic.Sgxsd.Platform.{Platform, Server}
use contact_discovery_servic.Sgxsd.State.{EnclaveM}
use contact_discovery_servic.Edl.Frame.{
  Pointer, Output, FrameOf, one_at, assign, BridgeM, check_ref, check_unique, malloc, keep_block,
  copy_in, copy_message, room_out, call, copy_out, free_held, free_all, until_err,
}
use contact_discovery_servic.Edl.Ecalls.{
  Ecall, Declared, to_node_init, to_get_next_report, to_set_current_quote, to_negotiate_request,
  to_server_start, to_server_call, to_server_stop, to_ratelimit_fingerprint, ecall, sgx_node_init,
  sgx_get_next_report, sgx_set_current_quote, sgx_negotiate_request, sgx_server_start,
  sgx_server_call, sgx_server_stop, sgx_ratelimit_fingerprint,
}

-- How many blocks at an address the locals of a list hold.
abbrev held : Option ℕ → ℕ → ℕ
held none x = 0
held (some a) x = one_at a x

abbrev total : List ℕ → (ℕ → Option ℕ) → ℕ → ℕ
total [] locals x = 0
total (l ∷ ls) locals x = held (locals l) x + total ls locals x

-- How often a local stands in a list.
abbrev times : ℕ → List ℕ → ℕ
times l [] = 0
times l (m ∷ ls) = if m == l then 1 + times l ls else times l ls

-- An assignment to a local that is not in the list, or once and without a block.
total-other :
    (ls : List ℕ) (locals : ℕ → Option ℕ) (l : ℕ) (b : Option ℕ) (x : ℕ)
    → times l ls ≡ 0
    → total ls (assign l b locals) x ≡ total ls locals x
total-other [] locals l b x h = refl
total-other (m ∷ ls) locals l b x h = elim (Bool-cases (m == l)) [
  | inl same ↦
      (let more : times l (m ∷ ls) ≡ 1 + times l ls = rw same refl in
        absurd (omega (arith, h, more)))
  | inr other ↦
      (let fewer : times l (m ∷ ls) ≡ times l ls = rw other refl in
        rw other (omega (arith, total-other ls locals l b x (sym fewer ∙ h))))
]

total-assign :
    (ls : List ℕ) (locals : ℕ → Option ℕ) (l : ℕ) (b : Option ℕ) (x : ℕ)
    → times l ls ≡ 1
    → locals l ≡ none
    → total ls (assign l b locals) x ≡ total ls locals x + held b x
total-assign [] locals l b x h empty = absurd (omega (arith, h))
total-assign (m ∷ ls) locals l b x h empty = elim (Bool-cases (m == l)) [
  | inl same ↦
      (let more : times l (m ∷ ls) ≡ 1 + times l ls = rw same refl in
        let here : held (locals m) x ≡ 0 =
          ap (λ i. held (locals i) x) ((==_iff m l).0 same) ∙ ap (λ o. held o x) empty in
        rw same (omega (arith, here, total-other ls locals l b x (omega (arith, h, more)))))
  | inr other ↦
      (let fewer : times l (m ∷ ls) ≡ times l ls = rw other refl in
        rw other (omega (arith, total-assign ls locals l b x (sym fewer ∙ h) empty)))
]

module _ (p : Platform) (v : Server p) (before : ℕ → ℕ) where
  -- The live blocks are those from before and those of the locals in a list.
  abbrev Owned : List ℕ → FrameOf p v → Type 0
  Owned ls f = (x : ℕ) → f.live x ≡ before x + total ls f.locals x

  -- And no local from this one on has a block.
  abbrev Unused : List ℕ → ℕ → FrameOf p v → Type 0
  Unused ls l f = Owned ls f × ((i : ℕ) → l ≤ i → f.locals i ≡ none)

  -- Between ecalls.
  abbrev pub Settled : FrameOf p v → Type 0
  Settled f = ((i : ℕ) → f.locals i ≡ none) × ((x : ℕ) → f.live x ≡ before x)

  later : (ls : List ℕ) (l : ℕ) (f : FrameOf p v) → Unused ls l f → Unused ls (suc l) f
  later ls l f h = (h.0, λ i le. h.1 i (omega (arith, le)))

  assigned :
      (l i : ℕ) (b : Option ℕ) (locals : ℕ → Option ℕ) → suc l ≤ i → assign l b locals i ≡ locals i
  assigned l i b locals le = let other : (i == l) ≡ false = ground arith in rw other refl

  keep_block-Unused :
      (ls : List ℕ) (l : ℕ) (block : Option ℕ) (f : FrameOf p v)
      → times l ls ≡ 1
      → Unused ls l f
      → Post (λ a. Unused ls (suc l)) (Owned ls) (keep_block p v l block f)
  keep_block-Unused ls l none f once h =
      λ x. omega (arith, h.0 x, total-assign ls f.locals l none x once (h.1 l (omega arith)))
  keep_block-Unused ls l (some a) f once h = (
    λ x. omega (arith, h.0 x, total-assign ls f.locals l (some a) x once (h.1 l (omega arith))),
    λ i le. assigned l i (some a) f.locals le ∙ h.1 i (omega (arith, le)),
  )

  module _ (ls : List ℕ) (l : ℕ) (once : times l ls ≡ 1) where
    malloc-Unused :
        (n : ℕ) → Ends (Unused ls l) (malloc p v l n) (λ a. Unused ls (suc l)) (Owned ls)
    unfolding malloc
    malloc-Unused n = record { from = λ f h. keep_block-Unused ls l _ _ once h }

    checked :
        (b : Bool) (e : Status)
        → Ends (Unused ls (suc l)) (fail_if b e) (λ u. Unused ls (suc l)) (Owned ls)
    checked b e = Ends-fail_if b e (λ f h failed. h.0) (λ f h fine. h)

    copy_in-Unused :
        {T : Type 0} (q : Option (Pointer T)) (n : ℕ)
        → Ends (Unused ls l) (copy_in p v l q n) (λ a. Unused ls (suc l)) (Owned ls)
    unfolding copy_in
    copy_in-Unused none n = Ends-pure _ (later ls l)
    copy_in-Unused (some q) n =
        Ends-bind _ _ (malloc-Unused n)
          (λ a. Ends-bind _ _ (checked _ _) (λ u. Ends-pure _ (λ f h. h)))

    copy_message-Unused :
        (q : Option (Pointer Bytes)) (n : ℕ)
        → Ends (Unused ls l) (copy_message p v l q n) (λ a. Unused ls (suc l)) (Owned ls)
    unfolding copy_message
    copy_message-Unused none n = Ends-pure _ (later ls l)
    copy_message-Unused (some q) zero = Ends-pure _ (later ls l)
    copy_message-Unused (some q) (suc n) = Ends-bind _ _ (malloc-Unused (suc n)) (λ a.
        Ends-bind _ _ (checked _ _) (λ u.
          Ends-bind {Q = λ w. Unused ls (suc l)} _ _ (Ends-modify _ (λ f h. h))
            (λ w. Ends-pure _ (λ f h. h))))

    room_out-Unused :
        {T : Type 0} (q : Option ℕ) (n : ℕ) (zeroed : T)
        → Ends (Unused ls l) (room_out p v l q n zeroed) (λ a. Unused ls (suc l)) (Owned ls)
    unfolding room_out
    room_out-Unused none n zeroed = Ends-pure _ (later ls l)
    room_out-Unused (some q) n zeroed =
        Ends-bind _ _ (malloc-Unused n) (λ a. Ends-pure _ (λ f h. h))

  call-Unused :
      {A : Type 0} (ls : List ℕ) (l : ℕ) (m : EnclaveM p v A)
      → Ends (Unused ls l) (call p v m) (λ r. Unused ls l) (Owned ls)
  unfolding call
  call-Unused ls l m = record { from = λ f h. h }

  copy_out-Unused :
      (ls : List ℕ) (l : ℕ) (q : Option ℕ) (n : ℕ) (o : Option Output)
      → Ends (Unused ls l) (copy_out p v q n o) (λ u. Unused ls l) (Owned ls)
  unfolding copy_out
  copy_out-Unused ls l none n o = Ends-pure _ (λ f h. h)
  copy_out-Unused ls l (some q) n o =
      Ends-bind {Q = λ u. Unused ls l} _ _ (Ends-fail_if _ _ (λ f h failed. h.0) (λ f h fine. h))
        (λ u. Ends-modify _ (λ f h. h))

  check_ref-Settled : (q : Option ℕ) (n : ℕ) → Preserves Settled (check_ref p v q n)
  unfolding check_ref
  check_ref-Settled none n = search preserves_rules
  check_ref-Settled (some a) n = search preserves_rules

  check_unique-Settled : (q : Option ℕ) (n : ℕ) → Preserves Settled (check_unique p v q n)
  unfolding check_unique
  check_unique-Settled none n = search preserves_rules
  check_unique-Settled (some a) n = search preserves_rules

  call-Settled : {A : Type 0} (m : EnclaveM p v A) → Preserves Settled (call p v m)
  unfolding call
  call-Settled m = record { after = λ s h. h }

  free_held-live :
      (b : Option ℕ) (f : FrameOf p v) (x rest : ℕ)
      → f.live x ≡ before x + (held b x + rest)
      → (free_held p v b f).live x ≡ before x + rest
  free_held-live none f x rest h = omega (arith, h)
  free_held-live (some a) f x rest h = omega (arith, h)

  free_held-locals : (b : Option ℕ) (f : FrameOf p v) → (free_held p v b f).locals ≡ f.locals
  free_held-locals none f = refl
  free_held-locals (some a) f = refl

  free_all-live :
      (ls : List ℕ) (f : FrameOf p v) → Owned ls f → (x : ℕ) → (free_all p v ls f).live x ≡ before x
  unfolding free_all
  free_all-live [] f h x = omega (arith, h x)
  free_all-live (l ∷ ls) f h y =
      let f' = free_held p v (f.locals l) f in
      free_all-live ls f'
        (λ x.
          free_held-live (f.locals l) f x (total ls f.locals x) (h x)
          ∙ ap (λ locals. before x + total ls locals x) (sym (free_held-locals (f.locals l) f)))
        y

  total-none :
      (ls : List ℕ) (locals : ℕ → Option ℕ) (x : ℕ)
      → ((i : ℕ) → locals i ≡ none)
      → total ls locals x ≡ 0
  total-none [] locals x h = refl
  total-none (l ∷ ls) locals x h = omega (arith, ap (λ o. held o x) (h l), total-none ls locals x h)

  Post-Owned :
      (ls : List ℕ) (l : ℕ) (r : Result Status (Unit {0}) × FrameOf p v)
      → Post (λ u. Unused ls l) (Owned ls) r
      → Owned ls r.1
  Post-Owned ls l (ok u, f) h = h.0
  Post-Owned ls l (err e, f) h = h

  until_err-Settled :
      (ls : List ℕ) (l : ℕ) (m : BridgeM p v (Unit {0}))
      → Ends (Unused ls 0) m (λ u. Unused ls l) (Owned ls)
      → Preserves Settled (until_err p v ls m)
  unfolding until_err
  until_err-Settled ls l m hm = record {
    after = λ s h. (
      λ i. refl,
      free_all-live ls (m s).1 (
          Post-Owned ls l (m s)
            (hm.from s ((λ x. omega (arith, h.1 x, total-none ls s.locals x h.0)), λ i le. h.0 i))),
    );
  }

  -- A body that only has arguments to copy in, and one that has a result to copy out.
  returns :
      (ls : List ℕ) (l : ℕ) {A : Type 0} (m : EnclaveM p v A)
      → Ends (Unused ls l) (call p v m >>= (λ r. pure tt)) (λ u. Unused ls l) (Owned ls)
  returns ls l m = Ends-bind _ _ (call-Unused ls l m) (λ r. Ends-pure _ (λ f h. h))

  copies_out :
      (ls : List ℕ) (l : ℕ) {A : Type 0} (m : EnclaveM p v A) (q : Option ℕ) (n : ℕ)
      (o : Option A → Option Output)
      → Ends
          (Unused ls l)
          (call p v m >>= (λ r. copy_out p v q n (o r)))
          (λ u. Unused ls l)
          (Owned ls)
  copies_out ls l m q n o = Ends-bind _ _ (call-Unused ls l m) (λ r. copy_out-Unused ls l q n (o r))

  -- The checks of pointers before a body.
  with_ref :
      (q : Option ℕ) (n : ℕ) (m : BridgeM p v (Unit {0}))
      → Preserves Settled m
      → Preserves Settled (check_ref p v q n >>= (λ u. m))
  with_ref q n m h = Preserves-bind _ _ (check_ref-Settled q n) (λ u. h)

  with_unique :
      (q : Option ℕ) (n : ℕ) (m : BridgeM p v (Unit {0}))
      → Preserves Settled m
      → Preserves Settled (check_unique p v q n >>= (λ u. m))
  with_unique q n m h = Preserves-bind _ _ (check_unique-Settled q n) (λ u. h)

module _ (c : Crypto) (p : Platform) (v : Server p) (declared : Declared p v) where
  settled :
      (before : ℕ → ℕ) (pms : Option ℕ) (e : Ecall p v)
      → Preserves (Settled p v before) (ecall c p v declared pms e)
  unfolding ecall sgx_node_init sgx_get_next_report sgx_set_current_quote sgx_negotiate_request
      sgx_server_start sgx_server_call sgx_server_stop sgx_ratelimit_fingerprint
  settled before pms (to_node_init q) =
      let ls = 0 ∷ [] in
      with_ref p v before pms _ _ (
        with_unique p v before _ _ _ (
          until_err-Settled p v before ls 1 _ (
            Ends-bind _ _ (copy_in-Unused p v before ls 0 refl q _)
              (λ a. returns p v before ls 1 _))))
  settled before pms (to_get_next_report target q) =
      let ls = 0 ∷ [] in
      with_ref p v before pms _ _ (
        with_unique p v before _ _ _ (
          until_err-Settled p v before ls 1 _ (
            Ends-bind _ _ (room_out-Unused p v before ls 0 refl q _ _)
              (λ a. copies_out p v before ls 1 _ q _ _))))
  settled before pms to_set_current_quote =
      with_ref p v before pms _ _
        (Preserves-bind _ _ (call-Settled p v before _) (λ r. search preserves_rules))
  settled before pms (to_negotiate_request q q') =
      let ls = 0 ∷ 1 ∷ [] in
      with_ref p v before pms _ _ (
        with_unique p v before _ _ _ (
          with_unique p v before _ _ _ (
            until_err-Settled p v before ls 2 _ (
              Ends-bind _ _ (copy_in-Unused p v before ls 0 refl q _) (λ a.
                Ends-bind _ _ (room_out-Unused p v before ls 1 refl q' _ _)
                  (λ b. copies_out p v before ls 2 _ q' _ _))))))
  settled before pms (to_server_start q handle) =
      let ls = 0 ∷ [] in
      with_ref p v before pms _ _ (
        with_unique p v before _ _ _ (
          until_err-Settled p v before ls 1 _ (
            Ends-bind _ _ (copy_in-Unused p v before ls 0 refl q _)
              (λ a. returns p v before ls 1 _))))
  settled before pms (to_server_call ms) =
      let ls = 0 ∷ 1 ∷ 2 ∷ [] in
      with_ref p v before pms _ _ (
        with_unique p v before _ _ _ (
          with_unique p v before _ _ _ (
            with_unique p v before _ _ _ (
              until_err-Settled p v before ls 3 _ (
                Ends-bind _ _ (copy_in-Unused p v before ls 0 refl ms.ms_p_args _) (λ a.
                  Ends-bind _ _ (copy_in-Unused p v before ls 1 refl ms.ms_msg_header _) (λ b.
                    Ends-bind _ _ (copy_message-Unused p v before ls 2 refl ms.ms_msg_data _)
                      (λ d. returns p v before ls 3 _))))))))
  settled before pms (to_server_stop q handle) =
      let ls = 0 ∷ [] in
      with_ref p v before pms _ _ (
        with_unique p v before _ _ _ (
          until_err-Settled p v before ls 1 _ (
            Ends-bind _ _ (copy_in-Unused p v before ls 0 refl q _)
              (λ a. returns p v before ls 1 _))))
  settled before pms (to_ratelimit_fingerprint ms) =
      let ls = 0 ∷ 1 ∷ 2 ∷ 3 ∷ [] in
      with_ref p v before pms _ _ (
        with_unique p v before _ _ _ (
          with_unique p v before _ _ _ (
            with_unique p v before _ _ _ (
              with_unique p v before _ _ _ (
                until_err-Settled p v before ls 4 _ (
                  Ends-bind _ _ (copy_in-Unused p v before ls 0 refl ms.ms_fingerprint_key _) (λ a.
                    Ends-bind _ _ (copy_in-Unused p v before ls 1 refl ms.ms_msg_header _) (λ b.
                      Ends-bind _ _ (copy_message-Unused p v before ls 2 refl ms.ms_msg_data _)
                        (λ d.
                          Ends-bind _ _ (room_out-Unused p v before ls 3 refl ms.ms_fingerprint _ _)
                            (λ g. copies_out p v before ls 4 _ ms.ms_fingerprint _ _))))))))))

  -- Between ecalls no local holds a block. Then after any ecall, whatever it returns and wherever it
  -- leaves for its label `err`, no local holds a block, and at each address as many blocks are
  -- allocated and not freed as before: an ecall frees what it allocates for its arguments, once, and
  -- nothing else.
  pub ecall_frees :
      (pms : Option ℕ) (e : Ecall p v) (f : FrameOf p v)
      → ((i : ℕ) → f.locals i ≡ none)
      → ((i : ℕ) → (ecall c p v declared pms e f).1.locals i ≡ none)
        × ((x : ℕ) → (ecall c p v declared pms e f).1.live x ≡ f.live x)
  ecall_frees pms e f h = (settled f.live pms e).after f (h, λ x. refl)
