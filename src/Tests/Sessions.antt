-- ===== src/Tests/Sessions.antt =====
-- Witnesses and runs of several events, and of a client and a server.
use rasta_s.Prelude.{
  ◌+◌, ◌≡◌, ◌↔◌, refl, arith, List, [], ◌∷◌, ok, err, out_of_bounds, ◌++◌, replicate, ◌≤◌, length,
  drop,
}
use rasta_s.Pdu.Types.{Pdu, zero_pdu, at}
use rasta_s.Pdu.Bytes.{u32}
use rasta_s.Sm.Types.{
  iscdisp_send_spdu, Context, Frame, client, server, closed, closed_handler, down, down_handler, up,
  up_handler, recv_hb, recv_data, open_conn, close_conn, recv_conn_req, recv_conn_resp,
}
use rasta_s.Sm.Machine.{sm_handle_event}
use rasta_s.Sm.Emit.{Ready}
use rasta_s.Sm.Refine.Machine.{InSync}
use rasta_s.Sm.Session.{handed, Input, Within, presupposed, events_after, run, run-Within}
use rasta_s.Sm.Sequences.{Follows}
use rasta_s.Sm.InOrder.{run-Follows}
use rasta_s.Sm.Arrive.{arrive}
use rasta_s.Sm.Link.{open-reaches_up}
use rasta_s.Pdu.Codec.{payload_length_of, deserialize_pdu}
use rasta_s.Pdu.Wire.{header}
use rasta_s.Sm.Malformed.{arrive-malformed}
use rasta_s.Tests.Fixtures.{bench, bench-IsSized, vtable, hello, context}

abbrev closed_client : Context
closed_client = context client closed closed_handler zero_pdu

closed_client-Ready : Ready bench vtable closed_client
closed_client-Ready = record {
  clocked = refl;
  connected = refl;
  code_shows = tt;
  buffer_size = refl;
}

abbrev waiting_server : Context
waiting_server = context server down down_handler zero_pdu

waiting_server-Ready : Ready bench vtable waiting_server
waiting_server-Ready = record {
  clocked = refl;
  connected = refl;
  code_shows = tt;
  buffer_size = refl;
}

abbrev open_server : Context
open_server = context server up up_handler zero_pdu

open_server-Ready : Ready bench vtable open_server
open_server-Ready = record { clocked = refl; connected = refl; code_shows = tt; buffer_size = refl }

abbrev openings : List Input
openings =
    record { event = open_conn; pdu = zero_pdu }
    ∷ record {
      event = recv_conn_resp;
      pdu = record hello { payload = at (48 ∷ 51 ∷ 48 ∷ 49 ∷ []) };
    }
    ∷ record { event = close_conn; pdu = zero_pdu }
    ∷ []

run-Within_example :
    (c' : Context) × (run bench openings closed_client ≡ ok c')
    × Ready bench vtable c'
    × InSync c'
    × (c'.self.role ≡ client)
    × Within (presupposed client c'.self.state) (events_after [] openings)
run-Within_example =
    run-Within bench vtable bench-IsSized openings closed_client [] closed_client-Ready refl
      (tt, tt, (omega arith, omega arith, (tt, tt, tt))) Within.nothing

abbrev greetings : List Input
greetings =
    record { event = recv_data; pdu = hello }
    ∷ record { event = recv_hb; pdu = record hello { sequence_number = 9 } }
    ∷ []

run-Follows_example :
    (c' : Context) × (run bench greetings open_server ≡ ok c')
    × ((c'.self.state ≡ up) ↔ Follows 30 8 2 greetings)
run-Follows_example =
    run-Follows bench vtable bench-IsSized greetings open_server open_server-Ready refl
      (tt, omega arith, (tt, omega arith, tt)) refl

open-reaches_up_example :
    (c' : Context) × (s' : Context) × (c'' : Context) × (s'' : Context) × (f : Frame) × (g : Frame)
    × (h : Frame) × (sm_handle_event bench open_conn closed_client ≡ ok c')
    × (c'.io.sent ≡ f ∷ [])
    × (arrive bench recv_conn_req f waiting_server ≡ ok s')
    × (s'.io.sent ≡ g ∷ [])
    × (arrive bench recv_conn_resp g c' ≡ ok c'')
    × (c''.io.sent ≡ h ∷ c'.io.sent)
    × (arrive bench recv_hb h s' ≡ ok s'')
    × (c''.self.state ≡ up)
    × (s''.self.state ≡ up)
    × (s''.self.snr ≡ u32 (c''.self.snt + 1))
    × (c''.self.snr ≡ u32 (s''.self.snt + 1))
open-reaches_up_example =
    open-reaches_up bench bench vtable vtable bench-IsSized bench-IsSized closed_client
      waiting_server closed_client-Ready waiting_server-Ready refl refl refl refl (omega arith)
      (omega arith)

-- A heartbeat that claims a length of 4.
abbrev short_hello : Pdu
short_hello = record hello { message_length = 4 }

abbrev carrier : Frame
carrier = record { callback = iscdisp_send_spdu; node_id = 0; spdu_len = 36; bytes = [] }

arrive-malformed_example :
    (q : Pdu) × (deserialize_pdu (header short_hello ++ replicate 8 0) 36 zero_pdu ≡ ok q)
    × (length (header short_hello ++ replicate 8 0) ≤ 28 + payload_length_of 4)
    × (q.safety_code ≡ at (drop (28 + payload_length_of 4) (header short_hello ++ replicate 8 0)))
    × (q.safety_code ≡ at [])
    × (sm_handle_event bench recv_conn_req (handed q open_server) ≡ err out_of_bounds)
    × (arrive bench recv_conn_req
          (record carrier { bytes = header short_hello ++ replicate 8 0 })
          open_server
        ≡ err out_of_bounds)
arrive-malformed_example =
    arrive-malformed bench recv_conn_req short_hello (replicate 8 0) carrier open_server
      bench-IsSized
      (record {
        length_range = omega arith;
        type_range = omega arith;
        receiver_range = omega arith;
        sender_range = omega arith;
        sequence_range = omega arith;
        confirmed_sequence_range = omega arith;
        timestamp_range = omega arith;
        confirmed_timestamp_range = omega arith;
      })
      (omega arith) (omega arith) (omega arith) tt refl refl
