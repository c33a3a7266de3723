-- ===== src/Sm/Handlers.antt =====
-- safecom/src/sm.c: the handler of each state, in the order of the source.
use rasta_s.Prelude.{ℕ, ◌+◌, ◌-◌, ◌^◌, Bool, Result, ok, ◌>>=◌, ◌==◌, if◌then◌else◌}
use rasta_s.Platform.{Platform}
use rasta_s.TimeMon.{tlocal}
use rasta_s.Pdu.Types.{
  DiscReasonType, user_request, not_expected_recv_msg_type, seq_nbr_err_for_connection,
  state_service_not_allowed, protocol_version_error, seq_err,
}
use rasta_s.Pdu.Bytes.{u32}
use rasta_s.Sm.Types.{
  Context, State, down, start, up, Event, open_conn, close_conn, send_data, recv_conn_req,
  recv_conn_resp, recv_retr_req, recv_retr_resp, recv_disc_req, recv_hb, recv_data, recv_retr_data,
  SmRole, client, server,
}
use rasta_s.Sm.Checks.{
  check_seq_confirmed_timestamp, check_version, close_connection, process_regular_receipt, draw_snt,
  update_monitoring,
}
use rasta_s.Sm.Transmit.{send_conn_req, send_conn_resp, send_hb, send_disc_req}

-- `self->state = s;`
abbrev pub set_state : State → Context → Context
set_state s c = record c { self = record (c.self) { state = s } }

abbrev pub set_csr : ℕ → Context → Context
set_csr n c = record c { self = record (c.self) { csr = n } }

abbrev pub set_ctsr : ℕ → Context → Context
set_ctsr n c = record c { self = record (c.self) { ctsr = n } }

-- `self->snr == pdu->sequence_number`, on bit patterns.
abbrev pub sn_in_seq : Context → Bool
sn_in_seq c = c.self.snr == c.pdu.sequence_number

abbrev pub cts_in_seq : Context → Bool
cts_in_seq c = check_seq_confirmed_timestamp c.self c.pdu

module _ (plat : Platform) where
  -- `close_connection` and the DiscReq with its reason.
  unfoldable pub close_with : DiscReasonType → Context → Result Context
  close_with reason c = send_disc_req plat reason (close_connection c)

  unfoldable pub open_closed : SmRole → Context → Result Context
  open_closed server c = ok (set_state down (draw_snt c))
  open_closed client c = do
    let drawn = draw_snt c
    (now, c') ← tlocal plat (record drawn { self = record (drawn.self) { cst = 0 } })
    send_conn_req plat (set_state start (set_ctsr now c'))

  unfoldable pub handle_closed : Event → Context → Result Context
  handle_closed open_conn c = open_closed c.self.role c
  handle_closed _ c = ok c

  -- A connection request with the right version.
  unfoldable pub accept_conn_req : Context → Result Context
  accept_conn_req c = do
    let received = process_regular_receipt c
    let confirmed = set_csr (u32 (received.self.snt + 2 ^ 32 - 1)) received
    (now, c') ← tlocal plat confirmed
    monitored ← update_monitoring plat (set_state start (set_ctsr now c'))
    send_conn_resp plat monitored

  unfoldable pub handle_down : Event → Context → Result Context
  handle_down open_conn c = ok (close_connection c)
  handle_down close_conn c = ok (close_connection c)
  handle_down send_data c = ok (close_connection c)
  handle_down recv_conn_req c = do
    version ← check_version plat c.pdu.payload
    if version then accept_conn_req c else close_with protocol_version_error c
  handle_down _ c = ok c

  -- A regular receipt: the numbers, the state given, and the monitoring times.
  unfoldable pub receive_regular : State → Context → Result Context
  receive_regular s c = update_monitoring plat (set_state s (process_regular_receipt c))

  unfoldable pub start_conn_resp : SmRole → Context → Result Context
  start_conn_resp server c = close_with not_expected_recv_msg_type c
  start_conn_resp client c = do
    version ← check_version plat c.pdu.payload
    if version then receive_regular up c >>= send_hb plat else close_with protocol_version_error c

  unfoldable pub start_hb : SmRole → Context → Result Context
  start_hb server c =
      if sn_in_seq c
      then (if cts_in_seq c then receive_regular up c else close_with seq_err c)
      else close_with seq_nbr_err_for_connection c
  start_hb client c = close_with not_expected_recv_msg_type c

  unfoldable pub handle_start : Event → Context → Result Context
  handle_start open_conn c = close_with state_service_not_allowed c
  handle_start send_data c = close_with state_service_not_allowed c
  handle_start recv_conn_req c = close_with not_expected_recv_msg_type c
  handle_start recv_retr_req c = close_with not_expected_recv_msg_type c
  handle_start recv_retr_resp c = close_with not_expected_recv_msg_type c
  handle_start recv_data c = close_with not_expected_recv_msg_type c
  handle_start recv_retr_data c = close_with not_expected_recv_msg_type c
  handle_start close_conn c = close_with user_request c
  handle_start recv_conn_resp c = start_conn_resp c.self.role c
  handle_start recv_disc_req c = ok (close_connection c)
  handle_start recv_hb c = start_hb c.self.role c
  handle_start _ c = ok c
