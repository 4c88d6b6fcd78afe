-- ===== src/Sgxsd/Reply/Sealing.antt =====
-- The encryption of replies: the IV is not the one of the negotiation, and the client can open them.
use contact_discovery_servic.Prelude.{
  ℕ, ◌%◌, ◌<◌, ◌≡◌, ◌≢◌, refl, ap, bit_or, ◌==◌, ==_iff, holds_under, holds_at, true, false, not,
  fail_if, ◌>>=◌, Bool-cases, inl, inr, ◌∙◌, ◌++◌, append-nil, drop, drop_all, length-replicate,
  Option, none, ==_of_ne, some, [], ◌∷◌, arith, length, get_or, replicate, ok,
}
use contact_discovery_servic.Prelude.Monad.Preserves.{
  Preserves, Preserves-bind, Preserves-fail_if, preserves_rules,
}
use contact_discovery_servic.Sgxsd.Types.{
  Bytes, MsgBuf, MsgFrom, MsgHeader, PendingRequestId, success, is_success, iv_size, mac_size,
  key_size,
}
use contact_discovery_servic.Sgxsd.Crypto.{Crypto, Laws}
use contact_discovery_servic.Sgxsd.AesGcm.{overwrite}
use contact_discovery_servic.Sgxsd.AesGcm.RoundTrip.{
  seal, unseal, length-seal, unseal-seal, aes_gcm_encrypt_null_aad,
}
use contact_discovery_servic.Sgxsd.Platform.{Platform, Host, OcallReply}
use contact_discovery_servic.Sgxsd.Negotiate.{zero_iv}
use contact_discovery_servic.Edl.Ocall.{HostM, ocall_reply, alloc_frame, copy_to_frame, send}
use contact_discovery_servic.Sgxsd.Reply.{
  odd_iv, store, erase, erased_from, non_null, host_rand, encrypt_reply, server_reply_noerase,
  server_reply,
}

low_bit_table : holds_under (λ b. bit_or b 1 % 2 == 1) 256 ≡ true
unfolding holds_under
low_bit_table = refl

low_bit : (b : ℕ) → b < 256 → bit_or b 1 % 2 ≡ 1
low_bit b h = (==_iff _ 1).0 (holds_at _ 256 b low_bit_table h)

-- A reply's IV is never the zero IV under which the same key encrypted the request ID: its first byte
-- is odd, whatever bytes the random number generator gave.
pub odd_iv-zero_iv : (b : ℕ) (rest : Bytes) → b < 256 → odd_iv (b ∷ rest) ≢ zero_iv
odd_iv-zero_iv b rest h e =
    let first : bit_or b 1 ≡ 0 = ap (λ iv. get_or iv 0 0) e in
    absurd (omega (arith, low_bit b h, ap (λ x. x % 2) first))

store_self :
    (mem : ℕ → Bytes) (address : ℕ) (bytes : Bytes)
    → store mem (some address) (some bytes) address ≡ bytes
store_self mem address bytes =
    let here : (address == address) ≡ true = (==_iff address address).1 refl in rw here refl

store_other :
    (mem : ℕ → Bytes) (address a : ℕ) (new : Option Bytes)
    → a ≢ address
    → store mem (some address) new a ≡ mem a
store_other mem address a none ne = refl
store_other mem address a (some bytes) ne = rw (==_of_ne a address ne) refl

module _ (p : Platform) (m : ℕ → Bytes) where
  abbrev Same : Host p.World → Type 0
  Same h = h.mem ≡ m

  alloc_frame-mem : (n : ℕ) → Preserves Same (alloc_frame p n)
  unfolding alloc_frame
  alloc_frame-mem n = record {
    after = λ h e. elim (Bool-cases ((p.sgx_ocalloc n h.world).0)) [
      | inl yes_allocated ↦ rw yes_allocated e
      | inr no_room ↦ rw no_room e
    ];
  }

  copy_to_frame-mem :
      {A : Type 0} (write : Option A → OcallReply → OcallReply) (a : Option A) (left n : ℕ)
      (frame : OcallReply)
      → Preserves Same (copy_to_frame p write a left n frame)
  unfolding copy_to_frame
  copy_to_frame-mem write none left n frame = record { after = λ h e. e }
  copy_to_frame-mem write (some a) left n frame = record {
    after = λ h e. elim (Bool-cases (p.memcpy_s left n)) [
      | inl failed ↦ rw failed e
      | inr copied ↦ rw copied e
    ];
  }

  send-mem : (ms : OcallReply) → Preserves Same (send p ms)
  unfolding send
  send-mem ms = record { after = λ h e. e }

module _ (c : Crypto) (p : Platform) (l : Laws c) where
  -- For a buffer that its message fills: the encryption of a reply succeeds, and what it leaves in the
  -- buffer opens under the same key and IV, with the tag that it returns, to the message.
  -- This is under the laws of the cryptography.
  pub encrypt_reply-unseal :
      (key iv : Bytes) (address : ℕ) (h : Host p.World)
      → let plain = h.mem address in
        let buf : MsgBuf = record { buffer = some address; size = length plain } in
        let (r, h') = encrypt_reply c p key iv buf h in
        (mac : Bytes) × (r ≡ ok mac) × (unseal c key iv [] (h'.mem address) mac ≡ some plain)
  unfolding encrypt_reply
  encrypt_reply-unseal key iv address h =
      let plain = h.mem address in
      let here : (address == address) ≡ true = (==_iff address address).1 refl in
      (
        (seal c key iv [] plain).1,
        rw (aes_gcm_encrypt_null_aad c l key iv plain (replicate mac_size 0) plain refl),
        rw (aes_gcm_encrypt_null_aad c l key iv plain (replicate mac_size 0) plain refl, here)
            (unseal-seal c l key iv [] plain),
      )

  -- The ocall of a sealed reply.
  abbrev pub send_sealed :
      PendingRequestId → Bytes → Bytes → ℕ → MsgFrom → Bytes → HostM p (Unit {0})
  send_sealed stack iv mac address from ct =
      let header : MsgHeader = record { iv = iv; mac = mac; pending_request_id = stack } in
      ocall_reply p (some header) (some address) (length ct) from.tag
      >>= (λ retval. fail_if (not (is_success retval)) retval)

  server_reply-send_sealed :
      (stack : PendingRequestId) (address : ℕ) (from : MsgFrom) (h : Host p.World)
      → from.valid ≡ true
      → (p.sgx_read_rand iv_size h.world).0 ≡ success
      → let plain = h.mem address in
        let buf : MsgBuf = record { buffer = some address; size = length plain } in
        let (status, random, w) = p.sgx_read_rand iv_size h.world in
        let iv = odd_iv random in
        let (ct, mac) = seal c from.server_key iv [] plain in
        let sealed : Host p.World = record {
          world = w;
          mem = store h.mem (some address) (some ct);
        } in
        let (r, h') = send_sealed stack iv mac address from ct sealed in
        server_reply c p stack buf (some from) h
        ≡ (r, some erased_from, record h' { mem = erase h'.mem buf })
  unfolding server_reply server_reply_noerase encrypt_reply host_rand non_null ◌>>=◌
  server_reply-send_sealed stack address from h valid random =
      let plain = h.mem address in
      let iv = odd_iv (p.sgx_read_rand iv_size h.world).1 in
      rw (
        valid,
        random,
        aes_gcm_encrypt_null_aad c l from.server_key iv plain (replicate mac_size 0) plain refl,
        length-seal c l from.server_key iv [] plain,
      )

  -- An ocall of a reply writes no buffer.
  keeps_mem :
      (m : ℕ → Bytes) (header : Option MsgHeader) (reply_data : Option ℕ) (size tag : ℕ)
      → Preserves (λ h. h.mem ≡ m) (ocall_reply p header reply_data size tag)
  unfolding ocall_reply
  keeps_mem m header reply_data size tag =
      search (preserves_rules, alloc_frame-mem, copy_to_frame-mem, send-mem) depth 30

  send_sealed-mem :
      (stack : PendingRequestId) (iv mac : Bytes) (address : ℕ) (from : MsgFrom) (ct : Bytes)
      (h : Host p.World)
      → (send_sealed stack iv mac address from ct h).1.mem ≡ h.mem
  send_sealed-mem stack iv mac address from ct h =
      (Preserves-bind {P = λ s. s.mem ≡ h.mem} _ _ (keeps_mem h.mem _ _ _ _)
          (λ r. Preserves-fail_if _ _)).after
        h refl

  -- The reply's IV: odd, and random but for that bit.
  abbrev pub IsOdd : Bytes → Bytes → Type 0
  IsOdd random iv = (get_or iv 0 0 % 2 ≡ 1) × (drop 1 iv ≡ drop 1 random) × (iv ≢ zero_iv)

  odd_iv-IsOdd :
      (random : Bytes) → 0 < length random → get_or random 0 0 < 256 → IsOdd random (odd_iv random)
  odd_iv-IsOdd [] some_byte small = absurd (omega (arith, some_byte))
  odd_iv-IsOdd (b ∷ rest) some_byte small = (low_bit b small, refl, odd_iv-zero_iv b rest small)

  erased_mem :
      (mem : ℕ → Bytes) (address n : ℕ)
      → length (mem address) ≡ n
      → erase mem (record { buffer = some address; size = n }) address ≡ replicate n 0
  erased_mem mem address n sized =
      let zeros = replicate n 0 in
      store_self mem address (zeros ++ drop (length zeros) (mem address))
      ∙ ap (λ rest. zeros ++ rest)
          (drop_all (length zeros) (mem address)
            (omega (arith, sized, length-replicate {A = ℕ} n 0)))
      ∙ append-nil zeros

  -- For a valid sender, a buffer that its message fills, and random numbers that are available, of
  -- which the first is a byte: there is an IV that is odd, has the random bytes but for that bit, and
  -- is not the zero IV under which a negotiation encrypts an ID. sgxsd_enclave_server_reply hands to
  -- sgxsd_ocall_reply the message as sealed under the sender's reply key and this IV, and returns what
  -- that returns. The sender is then not valid, and has the tag 0 and a key of zeros; the buffer has
  -- as many zeros as it had bytes, and every other buffer is as it was.
  -- This is under the laws of the cryptography.
  pub server_reply-seal :
      (stack : PendingRequestId) (address : ℕ) (from : MsgFrom) (h : Host p.World)
      → from.valid ≡ true
      → (p.sgx_read_rand iv_size h.world).0 ≡ success
      → 0 < length (p.sgx_read_rand iv_size h.world).1
      → get_or (p.sgx_read_rand iv_size h.world).1 0 0 < 256
      → let plain = h.mem address in
        let buf : MsgBuf = record { buffer = some address; size = length plain } in
        let (status, random, w) = p.sgx_read_rand iv_size h.world in
        let (r, from', h') = server_reply c p stack buf (some from) h in
        (iv : Bytes) × IsOdd random iv
        × (let (ct, mac) = seal c from.server_key iv [] plain in
            let sealed : Host p.World = record {
              world = w;
              mem = store h.mem (some address) (some ct);
            } in
            let (sent, after) = send_sealed stack iv mac address from ct sealed in
            (r ≡ sent) × (h'.world ≡ after.world))
        × (from' ≡ some (record { valid = false; tag = 0; server_key = replicate key_size 0 }))
        × (h'.mem address ≡ replicate (length plain) 0)
        × ((a : ℕ) → a ≢ address → h'.mem a ≡ h.mem a)
  server_reply-seal stack address from h valid random some_byte small =
      let e = server_reply-send_sealed stack address from h valid random in
      let (status, bytes, w) = p.sgx_read_rand iv_size h.world in
      let iv = odd_iv bytes in
      let (ct, mac) = seal c from.server_key iv [] (h.mem address) in
      let sealed : Host p.World = record {
        world = w;
        mem = store h.mem (some address) (some ct);
      } in
      let after = (send_sealed stack iv mac address from ct sealed).1 in
      let kept = send_sealed-mem stack iv mac address from ct sealed in
      (
        iv,
        odd_iv-IsOdd bytes some_byte small,
        (ap (λ x. x.0) e, ap (λ x. x.2.world) e),
        ap (λ x. x.1) e,
        ap (λ x. x.2.mem address) e
            ∙ erased_mem after.mem address (length (h.mem address)) (
                ap length (ap (λ mem. mem address) kept ∙ store_self h.mem address ct)
                ∙ length-seal c l from.server_key iv [] (h.mem address)),
        λ a ne.
            ap (λ x. x.2.mem a) e
            ∙ store_other after.mem address a
                (overwrite (replicate (length (h.mem address)) 0) (some (after.mem address))) ne
            ∙ ap (λ mem. mem a) kept
            ∙ store_other h.mem address a (some ct) ne,
      )
