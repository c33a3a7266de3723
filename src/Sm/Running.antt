-- ===== src/Sm/Running.antt =====
-- safecom/src/sm.c: the handlers of an open connection, in the order of the source.
use rasta_s.Prelude.{Result, ok, if◌then◌else◌}
use rasta_s.Platform.{Platform}
use rasta_s.Pdu.Types.{
  user_request, not_expected_recv_msg_type, state_service_not_allowed, fail_retransmission, seq_err,
}
use rasta_s.Sm.Types.{
  Context, State, up, retr_req, retr_run, Event, open_conn, close_conn, send_data, recv_conn_req,
  recv_conn_resp, recv_retr_req, recv_retr_resp, recv_disc_req, recv_hb, recv_data, recv_retr_data,
}
use rasta_s.Sm.Checks.{
  unconfirmed_payload_available, close_connection, process_regular_receipt, update_monitoring,
}
use rasta_s.Sm.Transmit.{transmit, send_retr_req}
use rasta_s.Sm.Handlers.{set_state, set_csr, sn_in_seq, cts_in_seq, close_with, receive_regular}

module _ (plat : Platform) where
  -- A receipt that leaves the state alone.
  unfoldable pub receive_up : Context → Result Context
  receive_up c = update_monitoring plat (process_regular_receipt c)

  -- Out of sequence: ask for a retransmission.
  unfoldable pub request_retransmission : Context → Result Context
  request_retransmission c = send_retr_req plat (set_state retr_req c)

  unfoldable pub up_message : Context → Result Context
  up_message c =
      if sn_in_seq c
      then (if cts_in_seq c then receive_up c else close_with plat seq_err c)
      else request_retransmission c

  unfoldable pub up_retr_req : Context → Result Context
  up_retr_req c =
      if sn_in_seq c
      then (if unconfirmed_payload_available
          then receive_up c
          else close_with plat fail_retransmission c)
      else (if unconfirmed_payload_available
          then ok (set_state retr_req (set_csr c.pdu.confirmed_sequence_number c))
          else close_with plat fail_retransmission c)

  unfoldable pub handle_up : Event → Context → Result Context
  handle_up open_conn c = close_with plat state_service_not_allowed c
  handle_up close_conn c = close_with plat user_request c
  handle_up send_data c = transmit plat c
  handle_up recv_conn_req c = close_with plat not_expected_recv_msg_type c
  handle_up recv_conn_resp c = close_with plat not_expected_recv_msg_type c
  handle_up recv_retr_resp c = close_with plat not_expected_recv_msg_type c
  handle_up recv_retr_data c = close_with plat not_expected_recv_msg_type c
  handle_up recv_disc_req c = ok (close_connection c)
  handle_up recv_retr_req c = up_retr_req c
  handle_up recv_hb c = up_message c
  handle_up recv_data c = up_message c
  handle_up _ c = ok c

  unfoldable pub waiting_retr_req : Context → Result Context
  waiting_retr_req c =
      if sn_in_seq c
      then (if unconfirmed_payload_available
          then receive_up c
          else close_with plat fail_retransmission c)
      else (if unconfirmed_payload_available
          then ok (set_csr c.pdu.confirmed_sequence_number c)
          else close_with plat fail_retransmission c)

  unfoldable pub handle_retr_req : Event → Context → Result Context
  handle_retr_req open_conn c = close_with plat state_service_not_allowed c
  handle_retr_req close_conn c = close_with plat user_request c
  handle_retr_req recv_conn_req c = close_with plat not_expected_recv_msg_type c
  handle_retr_req recv_conn_resp c = close_with plat not_expected_recv_msg_type c
  handle_retr_req recv_disc_req c = ok (close_connection c)
  handle_retr_req recv_retr_req c = waiting_retr_req c
  handle_retr_req send_data c = transmit plat c
  handle_retr_req recv_retr_resp c = ok (set_state retr_run c)
  handle_retr_req _ c = ok c

  unfoldable pub running_retr_req : Context → Result Context
  running_retr_req c =
      if sn_in_seq c
      then close_with plat not_expected_recv_msg_type c
      else (if unconfirmed_payload_available
          then ok (set_state retr_req (set_csr c.pdu.confirmed_sequence_number c))
          else close_with plat fail_retransmission c)

  -- A message in sequence leads to the state given.
  unfoldable pub running_message : State → Context → Result Context
  running_message next c =
      if sn_in_seq c
      then (if cts_in_seq c then receive_regular plat next c else close_with plat seq_err c)
      else request_retransmission c

  unfoldable pub handle_retr_run : Event → Context → Result Context
  handle_retr_run open_conn c = close_with plat state_service_not_allowed c
  handle_retr_run close_conn c = close_with plat user_request c
  handle_retr_run send_data c = transmit plat c
  handle_retr_run recv_conn_req c = close_with plat not_expected_recv_msg_type c
  handle_retr_run recv_conn_resp c = close_with plat not_expected_recv_msg_type c
  handle_retr_run recv_retr_resp c = close_with plat not_expected_recv_msg_type c
  handle_retr_run recv_disc_req c = ok (close_connection c)
  handle_retr_run recv_retr_req c = running_retr_req c
  handle_retr_run recv_hb c = running_message up c
  handle_retr_run recv_data c = running_message up c
  handle_retr_run recv_retr_data c = running_message retr_run c
  handle_retr_run _ c = ok c
