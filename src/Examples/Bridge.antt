-- ===== src/Examples/Bridge.antt =====
-- Ecalls at the toy state.
use contact_discovery_servic.Prelude.{
  ◌>>=◌, ℕ, arith, ◌≡◌, refl, none, some, [], ◌∷◌, replicate, err,
}
use contact_discovery_servic.Sgxsd.Types.{invalid_parameter}
use contact_discovery_servic.Edl.Frame.{FrameOf}
use contact_discovery_servic.Edl.Ecalls.{
  Ecall, Declared, to_server_call, to_negotiate_request, ecall,
}
use contact_discovery_servic.Edl.Ocall.{send, ocall_reply, alloc_frame, copy_to_frame}
use contact_discovery_servic.Edl.Ocall.Frames.{Copies, IsConfined, ocall_reply-IsConfined}
use contact_discovery_servic.Edl.Ecalls.Pointers.{ecall_refuses}
use contact_discovery_servic.Edl.Ecalls.Blocks.{ecall_frees}
use contact_discovery_servic.Examples.Toy.{toy_crypto, toy_platform, toy_server, toy_state}
use contact_discovery_servic.Examples.Requests.{call_header}

abbrev pub toy_declared : Declared toy_platform toy_server
toy_declared = λ key header msg n tag out size s. (err invalid_parameter, s)

abbrev pub toy_frame : FrameOf toy_platform toy_server
toy_frame = record {
  enclave = toy_state;
  locals = λ i. none;
  live = λ x. 0;
  ms_retval = none;
  output = none;
}

-- A call of the running server, with a message of three bytes.
abbrev pub good_call : Ecall toy_platform toy_server
good_call = to_server_call (record {
  ms_p_args = some (record { address = 16; target = tt });
  ms_msg_header = some (record { address = 32; target = call_header });
  ms_msg_data = some (record { address = 128; target = 9 ∷ 8 ∷ 7 ∷ [] });
  ms_msg_size = 3;
  ms_msg_tag = 0;
  ms_state_handle = 1;
})

ecall_frees_example :
    let f =
      (ecall toy_crypto toy_platform toy_server toy_declared (some 1024) good_call toy_frame).1 in
    ((i : ℕ) → f.locals i ≡ none) × ((x : ℕ) → f.live x ≡ 0)
ecall_frees_example =
    ecall_frees toy_crypto toy_platform toy_server toy_declared (some 1024) good_call toy_frame
      (λ i. refl)

-- A response that the caller wants written inside the enclave.
abbrev bad_call : Ecall toy_platform toy_server
bad_call =
    to_negotiate_request
      (some (record { address = 16; target = record { client_pubkey = replicate 32 1 } }))
      (some 5000)

ecall_refuses_example :
    ecall toy_crypto toy_platform toy_server toy_declared (some 1024) bad_call toy_frame
    ≡ (err invalid_parameter, toy_frame)
ecall_refuses_example =
    ecall_refuses toy_crypto toy_platform toy_server toy_declared (some 1024) bad_call toy_frame
      refl

toy_Copies : Copies toy_platform
toy_Copies room n h = ground arith

ocall_reply-IsConfined_example :
    IsConfined toy_platform
      (some call_header)
      (some 100)
      2
      7
      toy_state.host
      (ocall_reply toy_platform (some call_header) (some 100) 2 7 toy_state.host)
ocall_reply-IsConfined_example =
    ocall_reply-IsConfined toy_platform (some call_header) (some 100) 2 7 toy_state.host toy_Copies
      (omega arith)

-- Two bytes of the three at the address are sent.
sent_two :
    ocall_reply toy_platform (some call_header) (some 100) 2 7 toy_state.host
    ≡ send toy_platform
        (record {
          reply_header = some call_header;
          reply_data = some (9 ∷ 8 ∷ []);
          reply_data_size = 2;
          msg_tag = 7;
        })
        (record { world = 2; mem = toy_state.host.mem })
unfolding ocall_reply alloc_frame copy_to_frame ◌>>=◌
sent_two = refl
