-- ===== src/Edl/Ocall/Frames.antt =====
-- sgxsd_ocall_reply on every branch: what it refuses, and what leaves the enclave.
use contact_discovery_servic.Prelude.{
  ℕ, ◌+◌, ◌-◌, ◌%◌, ◌^◌, ◌≤◌, ◌<◌, ◌≡◌, ◌⊎◌, inl, inr, refl, sym, ap, ◌∙◌, ltb, true, false,
  Bool-cases, is_none, if◌then◌else◌, not, Option, none, some, arith, Result, ok, err, ◌>>=◌,
}
use native.Mathlib.Decide.{dec_lt}
use native.Mathlib.Nat.{mod-eq_of_lt}
use contact_discovery_servic.Sgxsd.Types.{Status, MsgHeader, invalid_parameter, unexpected}
use contact_discovery_servic.Sgxsd.Platform.{Platform, Host, OcallReply}
use contact_discovery_servic.Edl.Ocall.{
  add_size, overflows, room, outside, data_at, set_world, alloc_frame, copy_to_frame, send,
  ocall_reply,
}

module _ (p : Platform) where
  -- `memcpy_s` fails only if the destination is too small.
  abbrev pub Copies : Type 0
  Copies = (room n : ℕ) → n ≤ room → p.memcpy_s room n ≡ false

  -- So many bytes at a pointer, if it is not NULL, are all in the enclave.
  abbrev pub IsInside : Option ℕ → ℕ → Type 0
  IsInside none n = Unit {0}
  IsInside (some address) n = p.sgx_is_within_enclave address n ≡ true

  abbrev pub header_address : Option MsgHeader → Option ℕ
  header_address header = if is_none header then none else some p.reply_header_address

  -- The bytes of the frame: 40 of it, and the header and the data if they are there.
  abbrev pub bytes_needed : Option MsgHeader → Option ℕ → ℕ → ℕ
  bytes_needed header reply_data size = 40 + room header 64 + room reply_data size

  abbrev pub IsAccepted : Option MsgHeader → Option ℕ → ℕ → Type 0
  IsAccepted header reply_data size =
      IsInside (header_address header) 64
      × IsInside reply_data size
      × (bytes_needed header reply_data size < 2 ^ 64)

  -- Refused, with nothing done; without room outside; or sent, with the header and exactly so many
  -- bytes of the data.
  abbrev pub IsConfined :
      Option MsgHeader
      → Option ℕ
      → ℕ
      → ℕ
      → Host p.World
      → Result Status Status × Host p.World
      → Type 0
  IsConfined header reply_data size tag h after =
      let (allocated, w) = p.sgx_ocalloc (bytes_needed header reply_data size) h.world in
      (¬ IsAccepted header reply_data size × (after ≡ (err invalid_parameter, h)))
      ⊎ (IsAccepted header reply_data size
          × (allocated ≡ false)
          × (after ≡ (err unexpected, set_world p (p.sgx_ocfree w) h)))
      ⊎ (IsAccepted header reply_data size
          × (allocated ≡ true)
          × (after
              ≡ send p
                  (record {
                    reply_header = header;
                    reply_data = data_at p h reply_data size;
                    reply_data_size = size;
                    msg_tag = tag;
                  })
                  (set_world p w h)))

  IsInside-cases :
      (q : Option ℕ) (n : ℕ)
      → (IsInside q n × (outside p q n ≡ false)) ⊎ (¬ IsInside q n × (outside p q n ≡ true))
  IsInside-cases none n = inl (tt, refl)
  IsInside-cases (some a) n = elim (Bool-cases (p.sgx_is_within_enclave a n)) [
    | inl e ↦ inl (e, ap not e)
    | inr e ↦ inr (λ e'. absurd (let closed : true ≡ false = sym e' ∙ e in cc (closed)), ap not e)
  ]

  room-le : {A : Type 0} (a : Option A) (n : ℕ) → room a n ≤ n
  room-le none n = omega arith
  room-le (some a) n = omega arith

  room-data_at : (h : Host p.World) (q : Option ℕ) (n : ℕ) → room (data_at p h q n) n ≡ room q n
  room-data_at h none n = refl
  room-data_at h (some a) n = refl

  copied :
      {A : Type 0} (write : Option A → OcallReply → OcallReply) (a : Option A) (left n : ℕ)
      (frame : OcallReply) (h : Host p.World)
      → Copies
      → room a n ≤ left
      → copy_to_frame p write a left n frame h ≡ (ok (write a frame), h)
  unfolding copy_to_frame
  copied write none left n frame h copies le = refl
  copied write (some a) left n frame h copies le = rw (copies left n le) refl

  not_over : (a b : ℕ) → a + b < 2 ^ 64 → overflows a b ≡ false
  not_over a b h = let e : (a + b) % 2 ^ 64 ≡ a + b = mod-eq_of_lt h in ground (arith, e)

  wraps : (a b : ℕ) → a < 2 ^ 64 → b < 2 ^ 64 → 2 ^ 64 ≤ a + b → overflows a b ≡ true
  wraps a b ha hb over =
      let rest : (a + b) % 2 ^ 64 ≡ a + b - 2 ^ 64 = omega arith in
      ap (λ t. ltb t b) rest ∙ ground arith

  module _ (header : Option MsgHeader) (reply_data : Option ℕ) (size tag : ℕ) (h : Host p.World)
      (copies : Copies) (small : size < 2 ^ 64)
      (h_in : outside p (header_address header) 64 ≡ false)
      (d_in : outside p reply_data size ≡ false) where
    with_header : add_size 40 (room header 64) ≡ 40 + room header 64
    with_header = mod-eq_of_lt (omega (arith, room-le header 64))

    first : ltb (40 + room header 64) (room header 64) ≡ false
    first = ground arith

    too_long :
        2 ^ 64 ≤ bytes_needed header reply_data size
        → ocall_reply p header reply_data size tag h ≡ (err invalid_parameter, h)
    unfolding ocall_reply ◌>>=◌
    too_long over =
        let over' : overflows (40 + room header 64) (room reply_data size) ≡ true =
          wraps (40 + room header 64) (room reply_data size) (omega (arith, room-le header 64))
            (omega (arith, room-le reply_data size)) over in
        rw (h_in, d_in, with_header, first, over') refl

    module _ (fits : bytes_needed header reply_data size < 2 ^ 64) where
      total :
          add_size (40 + room header 64) (room reply_data size)
          ≡ bytes_needed header reply_data size
      total = mod-eq_of_lt fits

      second : ltb (bytes_needed header reply_data size) (room reply_data size) ≡ false
      second = ground arith

      no_room :
          (p.sgx_ocalloc (bytes_needed header reply_data size) h.world).0 ≡ false
          → let w = (p.sgx_ocalloc (bytes_needed header reply_data size) h.world).1 in
            ocall_reply p header reply_data size tag h
            ≡ (err unexpected, set_world p (p.sgx_ocfree w) h)
      unfolding ocall_reply alloc_frame ◌>>=◌
      no_room e = rw (h_in, d_in, with_header, first, total, second, e) refl

      sent :
          (p.sgx_ocalloc (bytes_needed header reply_data size) h.world).0 ≡ true
          → let w = (p.sgx_ocalloc (bytes_needed header reply_data size) h.world).1 in
            ocall_reply p header reply_data size tag h
            ≡ send p
                (record {
                  reply_header = header;
                  reply_data = data_at p h reply_data size;
                  reply_data_size = size;
                  msg_tag = tag;
                })
                (set_world p w h)
      unfolding ocall_reply alloc_frame ◌>>=◌
      sent e =
          let n = bytes_needed header reply_data size in
          let h' = set_world p (p.sgx_ocalloc n h.world).1 h in
          let frame = p.new_frame (p.sgx_ocalloc n h.world).1 in
          rw
            (
              h_in,
              d_in,
              with_header,
              first,
              total,
              second,
              e,
              copied (λ a f. record f { reply_header = a }) header (n - 40) 64 frame h' copies
                  (omega arith),
              copied (λ a f. record f { reply_data = a }) (data_at p h reply_data size)
                  (n - 40 - room header 64) size (record frame { reply_header = header }) h' copies
                  (omega (arith, room-data_at h reply_data size)),
            )
            refl

  -- For a size that is a `size_t`, and a memcpy_s that fails only if the destination is too small, one
  -- of three things happens. If the header or the data, if they are there, are not all inside the
  -- enclave, or do not fit with the frame into 2 ^ 64 bytes: SGX_ERROR_INVALID_PARAMETER is returned
  -- and nothing is done. Otherwise, if sgx_ocalloc has no room: SGX_ERROR_UNEXPECTED is returned, and
  -- the frame is freed. Otherwise the ocall is made, with the header, exactly so many bytes of the
  -- data, their number and the tag.
  pub ocall_reply-IsConfined :
      (header : Option MsgHeader) (reply_data : Option ℕ) (size tag : ℕ) (h : Host p.World)
      → Copies
      → size < 2 ^ 64
      → IsConfined header reply_data size tag h (ocall_reply p header reply_data size tag h)
  unfolding ocall_reply ◌>>=◌
  ocall_reply-IsConfined header reply_data size tag h copies small =
      elim (IsInside-cases (header_address header) 64) [
        | inr (no_header, e) ↦ inl (λ a. no_header a.0, rw e refl)
        | inl (a_header, e) ↦ elim (IsInside-cases reply_data size) [
          | inr (no_data, e') ↦ inl (λ a. no_data a.1, rw (e, e') refl)
          | inl (some_data, e') ↦ elim (dec_lt (bytes_needed header reply_data size) (2 ^ 64)) [
            | no big ↦ inl (
              λ a. big a.2,
              too_long header reply_data size tag h copies small e e' (omega (arith, big)),
            )
            | yes fits ↦
                elim (Bool-cases
                  ((p.sgx_ocalloc (bytes_needed header reply_data size) h.world).0)) [
                    | inl room_there ↦ inr (
                        inr (
                          (a_header, some_data, fits),
                          room_there,
                          sent header reply_data size tag h copies small e e' fits room_there,
                        ))
                    | inr none_there ↦ inr (
                        inl (
                          (a_header, some_data, fits),
                          none_there,
                          no_room header reply_data size tag h copies small e e' fits none_there,
                        ))
                  ]
          ]
        ]
      ]
