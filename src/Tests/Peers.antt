-- ===== src/Tests/Peers.antt =====
-- Witnesses for two machines that talk to one another, and for the example program.
use rasta_s.Prelude.{◌>>=◌, ◌≡◌, refl, arith, List, [], ◌∷◌, ◌++◌, replicate, ok}
use rasta_s.Pdu.Types.{
  zero_pdu, at, retransmission_request, disconnection_request, fail_retransmission,
  no_detailed_reason, timeout_incoming_msg,
}
use rasta_s.Pdu.Build.{disc_req_payload}
use rasta_s.Sm.Types.{
  Frame, iscdisp_send_spdu, Context, client, server, up, up_handler, closed, recv_data, th_elapsed,
}
use rasta_s.Sm.Machine.{sm_handle_event}
use rasta_s.Sm.Emit.{frame_of}
use rasta_s.Sm.Runs.{Step}
use rasta_s.Sm.Bounded.{IsBounded, InBounds, Keeps}
use rasta_s.Sm.Ranges.{sm_handle_event-Keeps}
use rasta_s.Sm.Delivery.{Delivers, sm_handle_event-Delivers}
use rasta_s.Sm.Says.{beat, message, speak}
use rasta_s.Sm.Talk.{Talker, spoken}
use rasta_s.Sm.Conversation.{heard, Paired, Continues}
use rasta_s.Sm.Unverified.{arrive-unverified}
use rasta_s.Sm.Arrive.{arrive}
use rasta_s.Pdu.Wire.{header}
use rasta_s.Sm.Dialogue.{Turn, first, second, payloads, converse, converse-Paired}
use rasta_s.Sm.Farewell.{silence, asked, leave, leave-Left, Left}
use rasta_s.Sm.Loss.{lose, miss, miss-closed}
use rasta_s.Sm.Sessions.{Visit, Idle, by_first, by_second, visits, all_payloads, visits-payloads}
use rasta_s.SafeCom.Types.{Memory, sms_at, std_ok}
use rasta_s.SafeCom.Impl.{safe_com_send_data, element}
use rasta_s.SafeCom.Speaks.{safe_com_send_data-spoken}
use rasta_s.SafeCom.Array.{Ran, Located, entered}
use rasta_s.SafeCom.Instances.{System}
use rasta_s.Program.{
  main, main-Step, main_vtable, opening_reaction, ready_machine, server_argument, role_of,
}
use rasta_s.Program.Peers.{ready_machine-Idle, visits-ready_machine}
use rasta_s.Tests.Instances.{before}
use rasta_s.Tests.Fixtures.{bench, bench-IsSized, vtable, machine, hello, context, quiet_io}

open_side-IsBounded : IsBounded (machine client up up_handler)
open_side-IsBounded = omega arith

open_side-InBounds : InBounds (context client up up_handler hello)
open_side-InBounds = record { self_bounded = open_side-IsBounded; pdu_range = omega arith }

sm_handle_event-Keeps_example :
    Keeps (sm_handle_event bench recv_data (context client up up_handler hello))
sm_handle_event-Keeps_example =
    sm_handle_event-Keeps bench recv_data (context client up up_handler hello) open_side-InBounds

sm_handle_event-Delivers_example :
    (c' : Context) × (sm_handle_event bench th_elapsed (context client up up_handler hello) ≡ ok c')
    × InBounds c'
    × Delivers bench vtable bench-IsSized (context client up up_handler hello) c'
sm_handle_event-Delivers_example =
    sm_handle_event-Delivers bench vtable bench-IsSized th_elapsed
      (context client up up_handler hello)
      (record { clocked = refl; connected = refl; code_shows = omega arith; buffer_size = refl })
      refl tt open_side-InBounds

-- Two open sides, each of which expects the other's next number.
abbrev pub one_side : Context
one_side = context client up up_handler zero_pdu

abbrev pub other_side : Context
other_side = record one_side { self = record (machine server up up_handler) { snr = 6; snt = 7 } }

pub one_side-Talker : Talker vtable one_side
one_side-Talker = record {
  clocked = refl;
  connected = refl;
  buffer_size = refl;
  is_up = refl;
  stored = refl;
  bounded = open_side-IsBounded;
  patient = omega arith;
}

pub sides-Paired : Paired vtable vtable one_side other_side
sides-Paired = record {
  first = one_side-Talker;
  second = record {
    clocked = refl;
    connected = refl;
    buffer_size = refl;
    is_up = refl;
    stored = refl;
    bounded = omega arith;
    patient = omega arith;
  };
  first_next = refl;
  second_next = refl;
  same_confirmed = refl;
}

abbrev open_memory : Memory
open_memory = record {
  sms = sms_at 3;
  arrays = λ a. one_side.self ∷ [];
  io = quiet_io;
  received = [];
}

safe_com_send_data-spoken_example :
    (m' : Memory) × (safe_com_send_data bench 0 2 (b'h' ∷ b'i' ∷ []) open_memory ≡ ok (std_ok, m'))
    × Ran open_memory 3 0 (spoken bench vtable (message (b'h' ∷ b'i' ∷ [])) one_side) m'
unfolding element
safe_com_send_data-spoken_example =
    safe_com_send_data-spoken bench vtable bench-IsSized open_memory 3 0 (one_side.self)
      (record { current = refl; stored = refl }) (b'h' ∷ b'i' ∷ []) one_side-Talker (omega arith)

-- The message "hi" with a made-up safety code.
abbrev made_up : Frame
made_up = record {
  callback = iscdisp_send_spdu;
  node_id = 0;
  spdu_len = 38;
  bytes = header hello ++ ((b'h' ∷ b'i' ∷ []) ++ replicate 8 7);
}

arrive-unverified_example :
    (b' : Context) × (arrive bench recv_data made_up one_side ≡ ok b')
    × (b'.self.state ≡ up)
    × (b'.self.snr ≡ 9)
    × (heard bench b' ≡ b'h' ∷ b'i' ∷ [])
    × (b'.io.sent ≡ [])
arrive-unverified_example =
    arrive-unverified bench vtable recv_data made_up hello (b'h' ∷ b'i' ∷ []) (replicate 8 7)
      one_side one_side-Talker tt
      (record {
        in_range = omega arith;
        fixed = omega arith;
        bytes_are = refl;
        length_is = refl;
        payload_length = refl;
        code_length = refl;
      })
      refl (omega arith)

abbrev turns : List Turn
turns = first (message (b'h' ∷ b'i' ∷ [])) ∷ second beat ∷ first beat ∷ []

converse-Paired_example :
    (a' : Context) × (b' : Context) × (converse bench bench turns one_side other_side
      ≡ ok (a', b', payloads turns))
    × Paired vtable vtable a' b'
    × Continues one_side a'
    × Continues other_side b'
converse-Paired_example =
    converse-Paired bench bench vtable vtable bench-IsSized bench-IsSized turns one_side other_side
      sides-Paired (omega arith)

leave-Left_example :
    (a' : Context) × (b' : Context) × (leave bench bench silence one_side other_side ≡ ok (a', b'))
    × Left vtable one_side a'
    × Left vtable other_side b'
    × (a'.io.sent ≡ frame_of bench vtable a' ∷ [])
    × (a'.pdu.message_type ≡ disconnection_request)
    × (a'.pdu.payload ≡ at (disc_req_payload timeout_incoming_msg no_detailed_reason))
    × (b'.io.sent ≡ [])
leave-Left_example =
    leave-Left bench bench vtable vtable bench-IsSized bench-IsSized silence one_side other_side
      sides-Paired

miss-closed_example :
    (a' : Context) × (b' : Context) × (request : Context) × (miss bench bench
        (message (b'h' ∷ []) ∷ [])
        beat
        one_side
        other_side
      ≡ ok (a', b'))
    × (a'.self.state ≡ closed)
    × (b'.self.state ≡ closed)
    × (b'.io.sent ≡ frame_of bench vtable request ∷ [])
    × (request.pdu.message_type ≡ retransmission_request)
    × (before : Context) × ((lose bench (message (b'h' ∷ []) ∷ []) one_side >>= speak bench beat)
        ≡ ok before)
    × (a'.io.sent ≡ frame_of bench vtable a' ∷ before.io.sent)
    × (a'.pdu.message_type ≡ disconnection_request)
    × (a'.pdu.payload ≡ at (disc_req_payload fail_retransmission no_detailed_reason))
miss-closed_example =
    miss-closed bench bench vtable vtable bench-IsSized bench-IsSized (message (b'h' ∷ []) ∷ [])
      beat one_side other_side sides-Paired (omega arith, tt) tt (omega arith) (omega arith)

abbrev two_visits : List Visit
two_visits =
    record { turns = turns; ending = by_first asked }
    ∷ record { turns = []; ending = by_second silence }
    ∷ []

visits-payloads_example :
    (c' : Context) × (s' : Context) × (visits bench bench two_visits
        (entered (ready_machine client) quiet_io)
        (entered (ready_machine server) quiet_io)
      ≡ ok (c', s', all_payloads two_visits))
    × Idle main_vtable client c'
    × Idle main_vtable server s'
visits-payloads_example =
    visits-payloads bench bench main_vtable main_vtable bench-IsSized bench-IsSized two_visits
      (entered (ready_machine client) quiet_io) (entered (ready_machine server) quiet_io)
      (ready_machine-Idle client quiet_io refl) (ready_machine-Idle server quiet_io refl)
      (omega arith)

visits-ready_machine_example :
    (c : Context) × (s : Context) × (visits bench bench two_visits
        (entered (ready_machine client) quiet_io)
        (entered (ready_machine server) quiet_io)
      ≡ ok (c, s, all_payloads two_visits))
    × (c.self.state ≡ closed)
    × (s.self.state ≡ closed)
visits-ready_machine_example =
    visits-ready_machine bench bench two_visits quiet_io quiet_io bench-IsSized bench-IsSized refl
      refl (omega arith)

main-Step_example :
    (s' : System) × (c : Context) × (main bench ((b'x' ∷ []) ∷ server_argument ∷ []) 1 before
      ≡ ok (0, s'))
    × Located s'.memory 1 0 c.self
    × Step bench main_vtable
        (entered (ready_machine (role_of ((b'x' ∷ []) ∷ server_argument ∷ []))) quiet_io)
        (opening_reaction (role_of ((b'x' ∷ []) ∷ server_argument ∷ []))).0
        (opening_reaction (role_of ((b'x' ∷ []) ∷ server_argument ∷ []))).1
        c
    × (s'.memory.io ≡ c.io)
    × (s'.sic ≡ before.sic)
main-Step_example =
    main-Step bench bench-IsSized ((b'x' ∷ []) ∷ server_argument ∷ []) 1 before refl refl
