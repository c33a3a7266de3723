-- ===== src/Tests/Channel.antt =====
-- Witnesses for two machines on a link that loses, repeats and reorders packets, and for the
-- phase of retransmission.
use rasta_s.Prelude.{ℕ, ◌≡◌, ◌↔◌, ◌⊎◌, refl, arith, List, [], ◌∷◌, map, ok}
use rasta_s.Pdu.Types.{zero_pdu, at}
use rasta_s.SafeCom.Ordered.{Task, handles, submits, attempts, Numbered}
use rasta_s.SafeCom.Numbers.{attempts-Numbered}
use rasta_s.Sm.Reply.{Steady}
use rasta_s.Sm.Types.{
  Context, Frame, client, server, closed, closed_handler, open_conn, recv_conn_resp, up, retr_req,
  retr_run, retr_req_handler, recv_hb, recv_data, recv_retr_data,
}
use rasta_s.Sm.Session.{Input, run}
use rasta_s.Sm.Sequences.{Follows, Completes}
use rasta_s.Sm.Recovery.{around, run-Recovers}
use rasta_s.Sm.Says.{Says, beat, message, said}
use rasta_s.Sm.Packets.{Packet, utter}
use rasta_s.Sm.Bringing.{deliver, InTurn, Begins}
use rasta_s.Sm.Channel.{deliver-Begins}
use rasta_s.Tests.Fixtures.{bench, bench-IsSized, vtable, hello, context}
use rasta_s.Tests.Peers.{one_side, other_side, sides-Paired}

abbrev three : List Says
three = message (b'h' ∷ b'i' ∷ []) ∷ beat ∷ message (b'x' ∷ []) ∷ []

-- The second packet comes twice.
abbrev repeated : List ℕ
repeated = 0 ∷ 7 ∷ 1 ∷ 1 ∷ 2 ∷ []

deliver-Begins_example :
    (a' : Context) × (b' : Context) × (packets : List Packet) × (taken : List (List ℕ)) × (utter
        bench three one_side
      ≡ ok (a', packets))
    × (deliver bench packets repeated other_side ≡ ok (b', taken))
    × Begins taken (map said three)
    × ((b'.self.state ≡ up) ↔ InTurn 3 0 repeated)
deliver-Begins_example =
    deliver-Begins bench bench vtable vtable bench-IsSized bench-IsSized three repeated one_side
      other_side sides-Paired (omega arith) (omega arith)

abbrev waiting_machine : Context
waiting_machine = context server retr_req retr_req_handler zero_pdu

-- A message that comes too early, and two that were lost before it.
abbrev early : List Input
early = record { event = recv_data; pdu = record hello { sequence_number = 10 } } ∷ []

abbrev late : List Input
late =
    record { event = recv_retr_data; pdu = hello }
    ∷ record { event = recv_hb; pdu = record hello { sequence_number = 9 } }
    ∷ []

run-Recovers_example :
    (c' : Context) × (run bench (around early zero_pdu late) waiting_machine ≡ ok c')
    × ((c'.self.state ≡ up) ↔ (Follows 30 8 2 late × Completes retr_run late))
run-Recovers_example =
    run-Recovers bench vtable bench-IsSized late zero_pdu tt
      (tt, omega arith, (tt, omega arith, tt)) early waiting_machine
      (record { clocked = refl; connected = refl; code_shows = tt; buffer_size = refl }) refl refl
      (tt, omega arith, tt)

-- A closed client is opened, gets its response, and sends data twice.
abbrev tasks : List Task
tasks =
    handles (record { event = open_conn; pdu = zero_pdu })
    ∷ handles (record {
      event = recv_conn_resp;
      pdu = record hello { payload = at (48 ∷ 51 ∷ 48 ∷ 49 ∷ []) };
    })
    ∷ submits (b'h' ∷ b'i' ∷ [])
    ∷ submits (b'x' ∷ [])
    ∷ []

abbrev closed_client : Context
closed_client = context client closed closed_handler zero_pdu

attempts-Numbered_example :
    (c' : Context) × (frames : List Frame) × (attempts bench tasks [] closed_client
      ≡ ok (c', frames))
    × Steady vtable c'
    × ((c'.self.state ≡ closed) ⊎ Numbered bench vtable bench-IsSized c'.self.snt frames)
attempts-Numbered_example =
    attempts-Numbered bench vtable bench-IsSized tasks closed_client
      (record {
        clocked = refl;
        connected = refl;
        buffer_size = refl;
        in_sync = refl;
        bounded = omega arith;
      })
      (
        ((λ e. cc), tt, tt, omega arith),
        (((λ e. cc), omega arith, omega arith, omega arith), (omega arith, (omega arith, tt))),
      )
