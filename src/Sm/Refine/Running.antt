-- ===== src/Sm/Refine/Running.antt =====
-- The handlers of an open connection (safecom/src/sm.c: `handle_up`, `handle_retr_req`,
-- `handle_retr_run`) do what the table says.
use rasta_s.Sm.Refine.Compose.{Suited, handler_reaction, RunsAs, if-Runs, at-Runs, still-Runs}
use rasta_s.Prelude.{◌≡◌, refl, Result, Bool, true, false, if◌then◌else◌}
use rasta_s.Platform.{Platform, IsSized}
use rasta_s.Pdu.Types.{not_expected_recv_msg_type, fail_retransmission, seq_err}
use rasta_s.Sm.Types.{
  Context, State, up, retr_req, retr_run, Event, open_conn, recv_retr_resp, SafeComVtable,
}
use rasta_s.Sm.Handlers.{set_state, sn_in_seq, cts_in_seq, close_with, receive_regular}
use rasta_s.Sm.Running.{
  receive_up, request_retransmission, up_message, up_retr_req, handle_up, waiting_retr_req,
  handle_retr_req, running_retr_req, running_message, handle_retr_run,
}
use rasta_s.Sm.Table.{silent, forwards, message_reaction, disconnects}
use rasta_s.Sm.Emit.{Ready}
use rasta_s.Sm.Runs.{Runs, close_with-Runs}
use rasta_s.Sm.Transmit.{transmit}
use rasta_s.Sm.Blocks.{
  Sendable, quiet-Runs, close_connection-Runs, transmit-Runs, receive_regular-Runs, receive_up-Runs,
  request_retransmission-Runs,
}
use rasta_s.Sm.Observe.{observe, check_seq_confirmed_timestamp-in_time}

module _ (plat : Platform) (v : SafeComVtable) (sized : IsSized plat) where
  -- The two tests of a message, whatever a good one leads to.
  tested-Runs :
      (good : Result Context) (next : State) (c : Context)
      → Ready plat v c
      → Runs plat v good c next silent
      → RunsAs plat v sized
          (if sn_in_seq c
            then (if cts_in_seq c then good else close_with plat seq_err c)
            else request_retransmission plat c)
          c
          (message_reaction next (observe plat c))
  tested-Runs good next c r accepted = rw (check_seq_confirmed_timestamp-in_time plat c) (
      if-Runs plat v sized (observe plat c).in_sequence _ _ c _ _
        (if-Runs plat v sized (observe plat c).in_time _ _ c _ _ accepted
          (close_with-Runs plat v sized seq_err c r))
        (request_retransmission-Runs plat v sized c r))

  up_message-Runs :
      (c : Context)
      → c.self.state ≡ up
      → Ready plat v c
      → RunsAs plat v sized (up_message plat c) c (message_reaction up (observe plat c))
  unfolding up_message
  up_message-Runs c h r =
      tested-Runs (receive_up plat c) up c r
        (at-Runs plat v sized (receive_up plat c) c silent h (receive_up-Runs plat v c r))

  -- No payload is kept, so a retransmission request ends the connection, in sequence or not.
  refused-Runs :
      (b : Bool) (c : Context)
      → Ready plat v c
      → RunsAs plat v sized
          (if b
            then close_with plat fail_retransmission c
            else close_with plat fail_retransmission c)
          c
          (disconnects fail_retransmission)
  refused-Runs true c r = close_with-Runs plat v sized fail_retransmission c r
  refused-Runs false c r = close_with-Runs plat v sized fail_retransmission c r

  running_message-Runs :
      (next : State) (c : Context)
      → Ready plat v c
      → RunsAs plat v sized (running_message plat next c) c (message_reaction next (observe plat c))
  unfolding running_message
  running_message-Runs next c r =
      tested-Runs (receive_regular plat next c) next c r (receive_regular-Runs plat v next c r)

  running_retr_req-Runs :
      (c : Context)
      → Ready plat v c
      → RunsAs plat v sized (running_retr_req plat c) c (
          if (observe plat c).in_sequence
          then disconnects not_expected_recv_msg_type
          else disconnects fail_retransmission)
  unfolding running_retr_req
  running_retr_req-Runs c r =
      if-Runs plat v sized (observe plat c).in_sequence _ _ c _ _
        (close_with-Runs plat v sized not_expected_recv_msg_type c r)
        (close_with-Runs plat v sized fail_retransmission c r)

  forward-Runs :
      (t : State) (c : Context)
      → c.self.state ≡ t
      → Ready plat v c
      → Sendable plat v c.pdu
      → RunsAs plat v sized (transmit plat c) c (t, forwards)
  forward-Runs t c h r s = at-Runs plat v sized _ c forwards h (transmit-Runs plat v c r s)

  -- The parts of the handlers of an open connection.
  ruleset open_rules = (
    close_with-Runs, close_connection-Runs, refused-Runs, up_message-Runs, running_message-Runs,
    running_retr_req-Runs, still-Runs, forward-Runs,
  )

  pub handle_up-Runs :
      (e : Event) (c : Context)
      → c.self.state ≡ up
      → Ready plat v c
      → Suited plat v e c.pdu
      → RunsAs plat v sized (handle_up plat e c) c (handler_reaction up e (observe plat c))
  unfolding handle_up up_retr_req
  handle_up-Runs open_conn c h r s = search open_rules
  handle_up-Runs _ c h r s = search open_rules

  pub handle_retr_req-Runs :
      (e : Event) (c : Context)
      → c.self.state ≡ retr_req
      → Ready plat v c
      → Suited plat v e c.pdu
      → RunsAs plat v sized
          (handle_retr_req plat e c)
          c
          (handler_reaction retr_req e (observe plat c))
  unfolding handle_retr_req waiting_retr_req
  handle_retr_req-Runs open_conn c h r s = search open_rules
  handle_retr_req-Runs recv_retr_resp c h r s =
      quiet-Runs plat v c (set_state retr_run c) refl refl refl refl refl refl refl refl refl r
  handle_retr_req-Runs _ c h r s = search open_rules

  pub handle_retr_run-Runs :
      (e : Event) (c : Context)
      → c.self.state ≡ retr_run
      → Ready plat v c
      → Suited plat v e c.pdu
      → RunsAs plat v sized
          (handle_retr_run plat e c)
          c
          (handler_reaction retr_run e (observe plat c))
  unfolding handle_retr_run
  handle_retr_run-Runs open_conn c h r s = search open_rules
  handle_retr_run-Runs _ c h r s = search open_rules
