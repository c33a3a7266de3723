-- ===== src/Callbacks.antt =====
-- The callbacks for received messages of the unit tests (test/test_rass_functionality), which hand
-- what they get to the state machine, behind the interface.
pub mod Opening
pub mod Handshake
use rasta_s.Prelude.{ℕ, ◌==◌, if◌then◌else◌, List, Option, none, some, Result, ok, ◌>>=◌}
use rasta_s.Platform.{Platform}
use rasta_s.Pdu.Types.{
  Pdu, zero_pdu, MessageType, connection_request, connection_response, heartbeat,
}
use rasta_s.Pdu.Codec.{deserialize_pdu}
use rasta_s.Sm.Types.{Context, Event, recv_conn_req, recv_conn_resp, recv_hb, Frame}
use rasta_s.Sm.Machine.{sm_handle_event}
use rasta_s.Sm.Session.{handed}
use rasta_s.Sm.Arrive.{newest}
use rasta_s.SafeCom.Types.{StdRet, std_ok, Memory, sms_at, Receiver}
use rasta_s.SafeCom.Impl.{run_at}
use rasta_s.SafeCom.Instances.{System, rass_receive_spdu, rass_open_connection}

-- The event of a message of the client, and of the server.
abbrev pub server_event : MessageType → Option Event
server_event kind =
    if kind == connection_request
    then some recv_conn_req
    else (if kind == heartbeat then some recv_hb else none)

abbrev pub client_event : MessageType → Option Event
client_event kind = if kind == connection_response then some recv_conn_resp else none

-- `Sm_HandleEvent(&sms[msgId], ..., &pdu);`, with the array of the test at its address.
unfoldable pub raise : Platform → ℕ → ℕ → Pdu → Option Event → Memory → Result (StdRet × Memory)
raise plat address msg_id p none m = ok (std_ok, m)
raise plat address msg_id p (some e) m =
    run_at (sms_at address) msg_id (λ c. sm_handle_event plat e (handed p c)) m

-- `My_ReceiveSpdu` of the tests of a server.
unfoldable pub server_receive_spdu : Platform → ℕ → Receiver
server_receive_spdu plat address msg_id msg_len msg_data m =
    deserialize_pdu msg_data msg_len zero_pdu >>= λ p.
    raise plat address msg_id p (server_event p.message_type) m

-- `My_ReceiveSpdu` of the tests of a client.
unfoldable pub client_receive_spdu : Platform → ℕ → Receiver
client_receive_spdu plat address msg_id msg_len msg_data m =
    deserialize_pdu msg_data msg_len zero_pdu >>= λ p.
    raise plat address msg_id p (client_event p.message_type) m

-- `Rass_ReceiveSpdu` of a frame, where the callback of the instance is a function of the tests.
unfoldable pub receives : Receiver → ℕ → Frame → System → Result System
receives receiver node f s = do
  (ret, s') ← rass_receive_spdu (λ callback. receiver) node f.spdu_len (some f.bytes) s
  ok s'

-- A server and a client open their connections, and the frames of each go to the other.
unfoldable pub open_both :
    Platform → Platform → ℕ → ℕ → ℕ → ℕ → System → System → Result (System × System)
open_both here there address i address' j client_side server_side = do
  (ret, listening) ← rass_open_connection there j server_side
  (ret', waiting) ← rass_open_connection here i client_side
  request ← newest waiting.memory.io.sent
  answering ← receives (server_receive_spdu there address') j request listening
  response ← newest answering.memory.io.sent
  client_open ← receives (client_receive_spdu here address) i response waiting
  confirmation ← newest client_open.memory.io.sent
  server_open ← receives (server_receive_spdu there address') j confirmation answering
  ok (client_open, server_open)
