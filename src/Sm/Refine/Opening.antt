-- ===== src/Sm/Refine/Opening.antt =====
-- The handlers of a connection that is not open yet (safecom/src/sm.c: `handle_closed`,
-- `handle_down`, `handle_start`) do what the table says.
use rasta_s.Sm.Refine.Compose.{
  Suited, handler_reaction, RunsAs, if-Runs, at-Runs, still-Runs, then-Runs,
}
use rasta_s.Pdu.Bytes.{u32}
use rasta_s.Prelude.{ℕ, ◌+◌, ◌-◌, ◌^◌, ◌≡◌, refl, arith, ok, if◌then◌else◌}
use rasta_s.Platform.{Platform, IsSized}
use rasta_s.TimeMon.{tlocal_lem, get_current_timestamp}
use rasta_s.Pdu.Types.{
  null, heartbeat, protocol_version_error, not_expected_recv_msg_type, seq_err,
  seq_nbr_err_for_connection, at, connection_request, connection_response,
}
use rasta_s.Pdu.Build.{conn_req, conn_resp, conn_req_payload, conn_resp_payload}
use rasta_s.Sm.Types.{
  Context, closed, down, start, up, Event, open_conn, close_conn, send_data, recv_conn_req, SmRole,
  client, server, SafeComVtable,
}
use rasta_s.Sm.Transmit.{send_conn_req, send_conn_resp, send_hb}
use rasta_s.Sm.Checks.{draw_snt, process_regular_receipt, update_monitoring}
use rasta_s.Sm.Handlers.{
  handle_closed, handle_down, handle_start, open_closed, accept_conn_req, start_conn_resp, start_hb,
  set_state, set_ctsr, set_csr, receive_regular,
}
use rasta_s.Sm.Table.{draws, silent, sends, by_role, disconnects}
use rasta_s.Sm.Emit.{Ready, Ready-same}
use rasta_s.Sm.Runs.{Runs, send-Runs, close_with-Runs}
use rasta_s.Sm.Blocks.{
  close_connection-Runs, stay-Runs, receive_regular-Runs, update_monitoring-Runs, send_hb-Runs,
}
use rasta_s.Sm.Observe.{
  observe, Versioned, check_version-has_version, check_seq_confirmed_timestamp-in_time,
}

module _ (plat : Platform) (v : SafeComVtable) (sized : IsSized plat) where
  open_closed-Runs :
      (c : Context) (role : SmRole)
      → Ready plat v c
      → RunsAs plat v sized
          (open_closed plat role c)
          c
          (by_role role (start, sends connection_request (at conn_req_payload)) (down, draws))
  unfolding open_closed draw_snt send_conn_req conn_req
  open_closed-Runs c server r = (
    set_state down (draw_snt c),
    refl,
    record {
      state_is = refl;
      output_is = (refl, refl);
      ready = Ready-same plat v c _ refl refl refl refl r;
      role_is = refl;
      setup_is = refl;
    },
  )
  open_closed-Runs c client r =
      rw (tlocal_lem plat (record drawn { self = record (drawn.self) { cst = 0 } }) r.clocked) (
        send-Runs plat v sized 50 connection_request 0 0 (at conn_req_payload) c base (omega arith)
          (Ready-same plat v c base refl refl refl refl r) refl refl refl refl refl refl)
    where
      drawn : Context
      drawn = draw_snt c

      now : ℕ
      now = get_current_timestamp plat c.io.calls

      base : Context
      base = set_state start (
          set_ctsr now (record drawn {
            self = record (drawn.self) { cst = 0 };
            io = record (drawn.io) { calls = c.io.calls + 1 };
          }))

  pub handle_closed-Runs :
      (e : Event) (c : Context)
      → c.self.state ≡ closed
      → Ready plat v c
      → RunsAs plat v sized (handle_closed plat e c) c (handler_reaction closed e (observe plat c))
  unfolding handle_closed
  handle_closed-Runs open_conn c h r = open_closed-Runs c c.self.role r
  handle_closed-Runs _ c h r = at-Runs plat v sized (ok c) c silent h (stay-Runs plat v c r)

  send_conn_resp-Runs :
      (c : Context)
      → Ready plat v c
      → Runs plat v
          (send_conn_resp plat c)
          c
          c.self.state
          (sends connection_response (at conn_resp_payload))
  unfolding send_conn_resp conn_resp
  send_conn_resp-Runs c r =
      send-Runs plat v sized 50 connection_response c.self.cst c.self.ctsr (at conn_resp_payload) c
        c (omega arith) r refl refl refl refl refl refl

  accept_conn_req-Runs :
      (c : Context)
      → Ready plat v c
      → Runs plat v
          (accept_conn_req plat c)
          c
          start
          (sends connection_response (at conn_resp_payload))
  unfolding accept_conn_req process_regular_receipt
  accept_conn_req-Runs c r = rw (tlocal_lem plat confirmed r.clocked) (
      then-Runs plat v sized (update_monitoring plat base) (send_conn_resp plat) c start
        connection_response (at conn_resp_payload)
        (update_monitoring-Runs plat v c base (Ready-same plat v c base refl refl refl refl r) refl
          refl refl refl refl)
        send_conn_resp-Runs)
    where
      received : Context
      received = process_regular_receipt c

      confirmed : Context
      confirmed = set_csr (u32 (received.self.snt + 2 ^ 32 - 1)) received

      base : Context
      base = set_state start (
          set_ctsr (get_current_timestamp plat c.io.calls)
            (record confirmed { io = record (confirmed.io) { calls = c.io.calls + 1 } }))

  pub handle_down-Runs :
      (e : Event) (c : Context)
      → c.self.state ≡ down
      → Ready plat v c
      → Suited plat v e c.pdu
      → RunsAs plat v sized (handle_down plat e c) c (handler_reaction down e (observe plat c))
  unfolding handle_down
  handle_down-Runs open_conn c h r s = close_connection-Runs plat v c r
  handle_down-Runs close_conn c h r s = close_connection-Runs plat v c r
  handle_down-Runs send_data c h r s = close_connection-Runs plat v c r
  handle_down-Runs recv_conn_req c h r s = rw (check_version-has_version plat c.pdu.payload s) (
      if-Runs plat v sized (observe plat c).version_ok _ _ c _ _ (accept_conn_req-Runs c r)
        (close_with-Runs plat v sized protocol_version_error c r))
  handle_down-Runs _ c h r s = at-Runs plat v sized (ok c) c silent h (stay-Runs plat v c r)

  start_conn_resp-Runs :
      (c : Context) (role : SmRole)
      → Ready plat v c
      → Versioned plat c.pdu.payload
      → RunsAs plat v sized (start_conn_resp plat role c) c (
          by_role role
            (if (observe plat c).version_ok
              then (up, sends heartbeat null)
              else disconnects protocol_version_error)
            (disconnects not_expected_recv_msg_type))
  unfolding start_conn_resp
  start_conn_resp-Runs c server r s = close_with-Runs plat v sized not_expected_recv_msg_type c r
  start_conn_resp-Runs c client r s = rw (check_version-has_version plat c.pdu.payload s) (
      if-Runs plat v sized (observe plat c).version_ok _ _ c _ _
        (then-Runs plat v sized (receive_regular plat up c) (send_hb plat) c up heartbeat null
          (receive_regular-Runs plat v up c r) (send_hb-Runs plat v sized))
        (close_with-Runs plat v sized protocol_version_error c r))

  start_hb-Runs :
      (c : Context) (role : SmRole)
      → Ready plat v c
      → RunsAs plat v sized (start_hb plat role c) c (
          by_role role (disconnects not_expected_recv_msg_type) (
            if (observe plat c).in_sequence
            then (if (observe plat c).in_time then (up, silent) else disconnects seq_err)
            else disconnects seq_nbr_err_for_connection))
  unfolding start_hb
  start_hb-Runs c client r = close_with-Runs plat v sized not_expected_recv_msg_type c r
  start_hb-Runs c server r = rw (check_seq_confirmed_timestamp-in_time plat c) (
      if-Runs plat v sized (observe plat c).in_sequence _ _ c _ _
        (if-Runs plat v sized (observe plat c).in_time _ _ c _ _
          (receive_regular-Runs plat v up c r) (close_with-Runs plat v sized seq_err c r))
        (close_with-Runs plat v sized seq_nbr_err_for_connection c r))

  -- The parts of the handler of a connection that is being opened.
  ruleset start_rules =
      (close_with-Runs, close_connection-Runs, start_conn_resp-Runs, start_hb-Runs, still-Runs)

  pub handle_start-Runs :
      (e : Event) (c : Context)
      → c.self.state ≡ start
      → Ready plat v c
      → Suited plat v e c.pdu
      → RunsAs plat v sized (handle_start plat e c) c (handler_reaction start e (observe plat c))
  unfolding handle_start
  handle_start-Runs open_conn c h r s = search start_rules
  handle_start-Runs _ c h r s = search start_rules
