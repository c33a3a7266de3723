-- ===== src/Sm/Table.antt =====
-- The transition table of a connection, apart from the code: what an event leads to and what is
-- sent, by the state, the role and three observations of the PDU.
use rasta_s.Prelude.{Bool, if◌then◌else◌}
use rasta_s.Pdu.Types.{
  Pointer, null, at, MessageType, connection_request, connection_response, retransmission_request,
  disconnection_request, heartbeat, DiscReasonType, user_request, not_expected_recv_msg_type,
  seq_nbr_err_for_connection, timeout_incoming_msg, state_service_not_allowed,
  protocol_version_error, fail_retransmission, seq_err, no_detailed_reason,
}
use rasta_s.Pdu.Build.{conn_req_payload, conn_resp_payload, disc_req_payload}
use rasta_s.Sm.Types.{
  State, closed, down, start, up, retr_req, retr_run, Event, th_elapsed, ti_elapsed, open_conn,
  close_conn, send_data, recv_conn_req, recv_conn_resp, recv_retr_req, recv_retr_resp,
  recv_disc_req, recv_hb, recv_data, recv_retr_data, SmRole, client, server,
}

-- Nothing, nothing with a new send sequence number drawn, a new message with its payload, or the
-- PDU of the caller as it is.
pub data Output : Type 0 where
  silent draws : Output
  sends : MessageType → Pointer → Output
  forwards : Output

pub record Observation : Type 0 where
  pub role : SmRole
  pub version_ok : Bool
  pub in_sequence : Bool
  pub in_time : Bool

abbrev pub Reaction : Type 0
Reaction = State × Output

abbrev pub disconnects : DiscReasonType → Reaction
disconnects reason =
    (closed, sends disconnection_request (at (disc_req_payload reason no_detailed_reason)))

abbrev pub by_role : SmRole → Reaction → Reaction → Reaction
by_role client a b = a
by_role server a b = b

-- A heartbeat or data message in an open connection.
abbrev pub message_reaction : State → Observation → Reaction
message_reaction next o =
    if o.in_sequence
    then (if o.in_time then (next, silent) else disconnects seq_err)
    else (retr_req, sends retransmission_request null)

abbrev pub react : State → Event → Observation → Reaction
react closed open_conn o =
    by_role o.role (start, sends connection_request (at conn_req_payload)) (down, draws)
react down open_conn o = (closed, silent)
react down close_conn o = (closed, silent)
react down send_data o = (closed, silent)
react down recv_conn_req o =
    if o.version_ok
    then (start, sends connection_response (at conn_resp_payload))
    else disconnects protocol_version_error
react start open_conn o = disconnects state_service_not_allowed
react start send_data o = disconnects state_service_not_allowed
react start close_conn o = disconnects user_request
react start recv_disc_req o = (closed, silent)
react start recv_conn_resp o =
    by_role o.role
      (if o.version_ok then (up, sends heartbeat null) else disconnects protocol_version_error)
      (disconnects not_expected_recv_msg_type)
react start recv_hb o = by_role o.role (disconnects not_expected_recv_msg_type) (
    if o.in_sequence
    then (if o.in_time then (up, silent) else disconnects seq_err)
    else disconnects seq_nbr_err_for_connection)
react start th_elapsed o = (start, sends heartbeat null)
react start ti_elapsed o = disconnects timeout_incoming_msg
react start _ o = disconnects not_expected_recv_msg_type
react up open_conn o = disconnects state_service_not_allowed
react up close_conn o = disconnects user_request
react up send_data o = (up, forwards)
react up recv_disc_req o = (closed, silent)
react up recv_retr_req o = disconnects fail_retransmission
react up recv_hb o = message_reaction up o
react up recv_data o = message_reaction up o
react up th_elapsed o = (up, sends heartbeat null)
react up ti_elapsed o = disconnects timeout_incoming_msg
react up _ o = disconnects not_expected_recv_msg_type
react retr_req open_conn o = disconnects state_service_not_allowed
react retr_req close_conn o = disconnects user_request
react retr_req send_data o = (retr_req, forwards)
react retr_req recv_conn_req o = disconnects not_expected_recv_msg_type
react retr_req recv_conn_resp o = disconnects not_expected_recv_msg_type
react retr_req recv_disc_req o = (closed, silent)
react retr_req recv_retr_req o = disconnects fail_retransmission
react retr_req recv_retr_resp o = (retr_run, silent)
react retr_req th_elapsed o = (retr_req, sends heartbeat null)
react retr_run open_conn o = disconnects state_service_not_allowed
react retr_run close_conn o = disconnects user_request
react retr_run send_data o = (retr_run, forwards)
react retr_run recv_disc_req o = (closed, silent)
react retr_run recv_retr_req o =
    if o.in_sequence
    then disconnects not_expected_recv_msg_type
    else disconnects fail_retransmission
react retr_run recv_hb o = message_reaction up o
react retr_run recv_data o = message_reaction up o
react retr_run recv_retr_data o = message_reaction retr_run o
react retr_run th_elapsed o = (retr_run, sends heartbeat null)
react retr_run ti_elapsed o = disconnects timeout_incoming_msg
react retr_run _ o = disconnects not_expected_recv_msg_type
react _ ti_elapsed o = disconnects timeout_incoming_msg
react s _ o = (s, silent)
