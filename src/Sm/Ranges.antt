-- ===== src/Sm/Ranges.antt =====
-- The ranges of the state machine's numbers through every handler and timer of safecom/src/sm.c.
use rasta_s.Prelude.{
  arith, Bool, Result, ◌>>=◌, if◌then◌else◌, Ensures-any, Ensures-bind, Ensures-if,
}
use rasta_s.Platform.{Platform}
use rasta_s.Pdu.Types.{
  not_expected_recv_msg_type, seq_err, seq_nbr_err_for_connection, protocol_version_error,
  timeout_incoming_msg,
}
use rasta_s.Sm.Types.{
  Context, State, closed, down, up, retr_req, Event, th_elapsed, ti_elapsed, open_conn, close_conn,
  send_data, recv_conn_req, SmRole, client, server, EventHandler, no_handler,
}
use rasta_s.Sm.Checks.{check_version}
use rasta_s.Sm.Transmit.{send_conn_resp, send_hb}
use rasta_s.Sm.Handlers.{
  open_closed, handle_closed, accept_conn_req, handle_down, start_conn_resp, start_hb, handle_start,
  receive_regular, close_with, sn_in_seq, cts_in_seq,
}
use rasta_s.Sm.Running.{
  receive_up, request_retransmission, up_message, up_retr_req, handle_up, waiting_retr_req,
  handle_retr_req, running_retr_req, running_message, handle_retr_run,
}
use rasta_s.Sm.Machine.{delegate, th_timer, handle_timers, sm_handle_event}
use rasta_s.Sm.Bounded.{
  InBounds, Keeps, tlocal-bind, close_connection-InBounds, process_regular_receipt-InBounds,
  draw_snt-InBounds, update_monitoring-Keeps, transmit-Keeps, send_conn_req-Keeps,
  send_conn_resp-Keeps, send_hb-Keeps, send_retr_req-Keeps, close_with-Keeps, set_state-InBounds,
  receive_regular-Keeps,
}

module _ (plat : Platform) where
  open_closed-Keeps : (role : SmRole) (c : Context) → InBounds c → Keeps (open_closed plat role c)
  unfolding open_closed
  open_closed-Keeps server c b = set_state-InBounds down _ (draw_snt-InBounds c b)
  open_closed-Keeps client c b =
      let drawn = draw_snt-InBounds c b in
      tlocal-bind plat _ _ (omega arith) (λ p h. send_conn_req-Keeps plat _ (omega arith))

  handle_closed-Keeps : (e : Event) (c : Context) → InBounds c → Keeps (handle_closed plat e c)
  unfolding handle_closed
  handle_closed-Keeps open_conn c b = open_closed-Keeps c.self.role c b
  handle_closed-Keeps _ c b = b

  -- Where a version is read, both outcomes are in range.
  versioned-Keeps :
      (c : Context) (x y : Result Context)
      → Keeps x
      → Keeps y
      → Keeps (check_version plat c.pdu.payload >>= λ version. if version then x else y)
  versioned-Keeps c x y hx hy =
      Ensures-bind (λ (version : Bool). Unit {0}) InBounds (check_version plat c.pdu.payload) _
        (Ensures-any _) (λ version _. Ensures-if InBounds version x y hx hy)

  accept_conn_req-Keeps : (c : Context) → InBounds c → Keeps (accept_conn_req plat c)
  unfolding accept_conn_req
  accept_conn_req-Keeps c b =
      let received = process_regular_receipt-InBounds c b in
      tlocal-bind plat _ _ (omega arith) (λ p h.
        Ensures-bind InBounds InBounds _ (send_conn_resp plat)
          (update_monitoring-Keeps plat _ (omega arith)) (send_conn_resp-Keeps plat))

  handle_down-Keeps : (e : Event) (c : Context) → InBounds c → Keeps (handle_down plat e c)
  unfolding handle_down
  handle_down-Keeps recv_conn_req c b =
      versioned-Keeps c _ _ (accept_conn_req-Keeps c b)
        (close_with-Keeps plat protocol_version_error c b)
  handle_down-Keeps open_conn c b = close_connection-InBounds c b
  handle_down-Keeps close_conn c b = close_connection-InBounds c b
  handle_down-Keeps send_data c b = close_connection-InBounds c b
  handle_down-Keeps _ c b = b

  start_conn_resp-Keeps :
      (role : SmRole) (c : Context) → InBounds c → Keeps (start_conn_resp plat role c)
  unfolding start_conn_resp
  start_conn_resp-Keeps server c b = close_with-Keeps plat not_expected_recv_msg_type c b
  start_conn_resp-Keeps client c b =
      versioned-Keeps c _ _
        (Ensures-bind InBounds InBounds (receive_regular plat up c) (send_hb plat)
          (receive_regular-Keeps plat up c b) (send_hb-Keeps plat))
        (close_with-Keeps plat protocol_version_error c b)

  start_hb-Keeps : (role : SmRole) (c : Context) → InBounds c → Keeps (start_hb plat role c)
  unfolding start_hb
  start_hb-Keeps client c b = close_with-Keeps plat not_expected_recv_msg_type c b
  start_hb-Keeps server c b =
      Ensures-if InBounds (sn_in_seq c) _ _
        (Ensures-if InBounds (cts_in_seq c) _ _ (receive_regular-Keeps plat up c b)
          (close_with-Keeps plat seq_err c b))
        (close_with-Keeps plat seq_nbr_err_for_connection c b)

  -- The parts of the handlers.
  ruleset keeps_rules = (
    close_with-Keeps, transmit-Keeps, send_hb-Keeps, receive_regular-Keeps,
    close_connection-InBounds, set_state-InBounds, start_conn_resp-Keeps, start_hb-Keeps,
  )

  handle_start-Keeps : (e : Event) (c : Context) → InBounds c → Keeps (handle_start plat e c)
  unfolding handle_start
  handle_start-Keeps open_conn c b = search keeps_rules
  handle_start-Keeps _ c b = search keeps_rules

  receive_up-Keeps : (c : Context) → InBounds c → Keeps (receive_up plat c)
  unfolding receive_up
  receive_up-Keeps c b = update_monitoring-Keeps plat _ (process_regular_receipt-InBounds c b)

  request_retransmission-Keeps : (c : Context) → InBounds c → Keeps (request_retransmission plat c)
  unfolding request_retransmission
  request_retransmission-Keeps c b = send_retr_req-Keeps plat _ (set_state-InBounds retr_req c b)

  -- The two tests of a message, whatever a good one leads to.
  tested-Keeps :
      (c : Context) (good : Result Context)
      → Keeps good
      → InBounds c
      → Keeps (
          if sn_in_seq c
          then (if cts_in_seq c then good else close_with plat seq_err c)
          else request_retransmission plat c)
  tested-Keeps c good h b =
      Ensures-if InBounds (sn_in_seq c) _ _
        (Ensures-if InBounds (cts_in_seq c) _ _ h (close_with-Keeps plat seq_err c b))
        (request_retransmission-Keeps c b)

  -- The parts of the handlers of an open connection.
  ruleset open_rules =
      (keeps_rules, Ensures-if, tested-Keeps, receive_up-Keeps, request_retransmission-Keeps)

  handle_up-Keeps : (e : Event) (c : Context) → InBounds c → Keeps (handle_up plat e c)
  unfolding handle_up up_message up_retr_req
  handle_up-Keeps open_conn c b = search open_rules
  handle_up-Keeps _ c b = search open_rules

  handle_retr_req-Keeps : (e : Event) (c : Context) → InBounds c → Keeps (handle_retr_req plat e c)
  unfolding handle_retr_req waiting_retr_req
  handle_retr_req-Keeps open_conn c b = search open_rules
  handle_retr_req-Keeps _ c b = search open_rules

  handle_retr_run-Keeps : (e : Event) (c : Context) → InBounds c → Keeps (handle_retr_run plat e c)
  unfolding handle_retr_run running_retr_req running_message
  handle_retr_run-Keeps open_conn c b = search open_rules
  handle_retr_run-Keeps _ c b = search open_rules

  ruleset handler_rules = (
    handle_closed-Keeps, handle_down-Keeps, handle_start-Keeps, handle_up-Keeps,
    handle_retr_req-Keeps, handle_retr_run-Keeps,
  )

  delegate-Keeps :
      (h : EventHandler) (e : Event) (c : Context) → InBounds c → Keeps (delegate plat h e c)
  unfolding delegate
  delegate-Keeps no_handler e c b = tt
  delegate-Keeps _ e c b = search handler_rules

  th_timer-Keeps : (s : State) (c : Context) → InBounds c → Keeps (th_timer plat s c)
  unfolding th_timer
  th_timer-Keeps closed c b = b
  th_timer-Keeps down c b = b
  th_timer-Keeps _ c b = send_hb-Keeps plat c b

  handle_timers-Keeps : (e : Event) (c : Context) → InBounds c → Keeps (handle_timers plat e c)
  unfolding handle_timers
  handle_timers-Keeps th_elapsed c b = th_timer-Keeps c.self.state c b
  handle_timers-Keeps ti_elapsed c b = close_with-Keeps plat timeout_incoming_msg c b
  handle_timers-Keeps _ c b = b

  -- Whatever the event, the state and the callbacks: if the numbers of the machine and of its PDU
  -- fit their fields and Ti and Trtd add up to Tmax, modulo 2 ^ 32, so they do after
  -- Sm_HandleEvent, if it returns.
  pub sm_handle_event-Keeps :
      (e : Event) (c : Context) → InBounds c → Keeps (sm_handle_event plat e c)
  unfolding sm_handle_event
  sm_handle_event-Keeps e c b =
      Ensures-bind InBounds InBounds (delegate plat c.self.handle_event e c) _
        (delegate-Keeps c.self.handle_event e c b)
        (λ handled h.
          Ensures-bind InBounds InBounds (handle_timers plat e handled) _
            (handle_timers-Keeps e handled h) (λ timed t. omega arith))
