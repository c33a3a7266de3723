-- ===== src/Sm/Handshake.antt =====
-- The steps by which a client and a server open a connection (safecom/src/sm.c), as equations with
-- the result written out.
use rasta_s.Prelude.{ℕ, ◌+◌, ◌-◌, ◌^◌, ◌≡◌, refl, ap, ◌∙◌, arith, true, ok, ◌>>=◌, ◌==◌, ==_refl}
use rasta_s.Platform.{Platform, IsSized}
use rasta_s.TimeMon.{tlocal_lem, get_current_timestamp}
use rasta_s.Pdu.Types.{at, null, connection_request, connection_response, heartbeat}
use rasta_s.Pdu.Bytes.{u32}
use rasta_s.Pdu.Build.{conn_req, conn_resp, hb, conn_req_payload, conn_resp_payload, stepped}
use rasta_s.Sm.Types.{
  Context, SmRole, client, server, start, up, Event, EventHandler, open_conn, recv_conn_req,
  recv_conn_resp, recv_hb, closed_handler, down_handler, start_handler, SafeComVtable,
}
use rasta_s.Sm.Checks.{draw_snt, process_regular_receipt, update_monitoring, check_version}
use rasta_s.Sm.Transmit.{send_conn_req, send_conn_resp, send_hb}
use rasta_s.Sm.Handlers.{
  handle_closed, handle_down, handle_start, open_closed, accept_conn_req, start_conn_resp, start_hb,
  set_state, set_ctsr, set_csr, receive_regular,
}
use rasta_s.Sm.Machine.{sm_handle_event, delegate, handle_timers, update_handler}
use rasta_s.Sm.Emit.{Ready, Ready-same, emitted, build-transmit}
use rasta_s.Sm.Blocks.{monitored}
use rasta_s.Sm.Observe.{observe, check_seq_confirmed_timestamp-in_time}

module _ (plat : Platform) where
  -- The handler that is stored, and no timer.
  sm_handle_event-delegate :
      (h : EventHandler) (e : Event) (c c' : Context)
      → c.self.handle_event ≡ h
      → delegate plat h e c ≡ ok c'
      → handle_timers plat e c' ≡ ok c'
      → sm_handle_event plat e c ≡ ok (update_handler c')
  unfolding sm_handle_event
  sm_handle_event-delegate h e c c' stored handled untimed =
      ap
        (λ (f : EventHandler). delegate plat f e c >>= λ d.
          handle_timers plat e d >>= λ timed. ok (update_handler timed))
        stored
      ∙ rw (handled, untimed)

module _ (plat : Platform) (v : SafeComVtable) (sized : IsSized plat) where
  abbrev pub requesting : Context → Context
  requesting c =
      let drawn = draw_snt c in
      set_state start (
        set_ctsr (get_current_timestamp plat c.io.calls) (record drawn {
          self = record (drawn.self) { cst = 0 };
          io = record (drawn.io) { calls = c.io.calls + 1 };
        }))

  -- The client after its connection request.
  abbrev pub opened : Context → Context
  opened c =
      update_handler (emitted plat v 50 connection_request 0 0 (at conn_req_payload) (requesting c))

  pub client_opens :
      (c : Context)
      → Ready plat v c
      → c.self.handle_event ≡ closed_handler
      → c.self.role ≡ client
      → sm_handle_event plat open_conn c ≡ ok (opened c)
  unfolding delegate handle_closed open_closed draw_snt send_conn_req conn_req handle_timers
  client_opens c r stored is_client =
      sm_handle_event-delegate plat closed_handler open_conn c
        (emitted plat v 50 connection_request 0 0 (at conn_req_payload) (requesting c)) stored
        (ap (λ (role : SmRole). open_closed plat role c) is_client
          ∙ (rw (tlocal_lem plat drawn r.clocked) (
              build-transmit plat v 50 connection_request 0 0 (at conn_req_payload) (requesting c)
                sized (omega arith) (Ready-same plat v c (requesting c) refl refl refl refl r))))
        refl
    where
      drawn : Context
      drawn = let d = draw_snt c in record d { self = record (d.self) { cst = 0 } }

  abbrev pub answering : Context → Context
  answering c =
      let received = process_regular_receipt c in
      monitored plat (
        set_state start (
          set_ctsr (get_current_timestamp plat c.io.calls)
            (record (set_csr (u32 (received.self.snt + 2 ^ 32 - 1)) received) {
              io = record (received.io) { calls = c.io.calls + 1 };
            })))

  -- The server after its connection response.
  abbrev pub answered : Context → Context
  answered c =
      let a = answering c in
      update_handler
        (emitted plat v 50 connection_response a.self.cst a.self.ctsr (at conn_resp_payload) a)

  pub server_answers :
      (c : Context)
      → Ready plat v c
      → c.self.handle_event ≡ down_handler
      → check_version plat c.pdu.payload ≡ ok true
      → sm_handle_event plat recv_conn_req c ≡ ok (answered c)
  unfolding delegate handle_down accept_conn_req send_conn_resp conn_resp handle_timers
      update_monitoring process_regular_receipt
  server_answers c r stored version =
      sm_handle_event-delegate plat down_handler recv_conn_req c
        (emitted plat v 50 connection_response (answering c).self.cst (answering c).self.ctsr
          (at conn_resp_payload) (answering c))
        stored
        (rw version (
          rw (tlocal_lem plat confirmed r.clocked) (
            rw (tlocal_lem plat timed r.clocked) (
              build-transmit plat v 50 connection_response c.pdu.sequence_number _
                (at conn_resp_payload) (answering c) sized (omega arith)
                (Ready-same plat v c (answering c) refl refl refl refl r)))))
        refl
    where
      confirmed : Context
      confirmed =
          let received = process_regular_receipt c in
          set_csr (u32 (received.self.snt + 2 ^ 32 - 1)) received

      timed : Context
      timed = set_state start (
          set_ctsr (get_current_timestamp plat c.io.calls)
            (record confirmed { io = record (confirmed.io) { calls = c.io.calls + 1 } }))

  abbrev pub receiving_up : Context → Context
  receiving_up c = monitored plat (set_state up (process_regular_receipt c))

  -- The client after its first heartbeat.
  abbrev pub confirmed : Context → Context
  confirmed c =
      let b = receiving_up c in
      update_handler (emitted plat v 36 heartbeat b.self.cst b.self.ctsr null (stepped b))

  pub client_confirms :
      (c : Context)
      → Ready plat v c
      → c.self.handle_event ≡ start_handler
      → c.self.role ≡ client
      → check_version plat c.pdu.payload ≡ ok true
      → sm_handle_event plat recv_conn_resp c ≡ ok (confirmed c)
  unfolding delegate handle_start start_conn_resp receive_regular update_monitoring
      process_regular_receipt send_hb hb handle_timers
  client_confirms c r stored is_client version =
      sm_handle_event-delegate plat start_handler recv_conn_resp c
        (emitted plat v 36 heartbeat (receiving_up c).self.cst (receiving_up c).self.ctsr null
          (stepped (receiving_up c)))
        stored
        (ap (λ (role : SmRole). start_conn_resp plat role c) is_client
          ∙ (rw version (
              rw (tlocal_lem plat (set_state up (process_regular_receipt c)) r.clocked) (
                build-transmit plat v 36 heartbeat c.pdu.sequence_number c.pdu.confirmed_timestamp
                  null (stepped (receiving_up c)) sized (omega arith)
                  (Ready-same plat v c (stepped (receiving_up c)) refl refl refl refl r)))))
        refl

  pub server_confirms :
      (c : Context)
      → Ready plat v c
      → c.self.handle_event ≡ start_handler
      → c.self.role ≡ server
      → c.self.snr ≡ c.pdu.sequence_number
      → (observe plat c).in_time ≡ true
      → sm_handle_event plat recv_hb c ≡ ok (update_handler (receiving_up c))
  unfolding delegate handle_start start_hb receive_regular update_monitoring process_regular_receipt
      handle_timers
  server_confirms c r stored is_server number in_time =
      sm_handle_event-delegate plat start_handler recv_hb c (receiving_up c) stored
        (ap (λ (role : SmRole). start_hb plat role c) is_server
          ∙ (rw
              (
                ap (λ (n : ℕ). n == c.pdu.sequence_number) number ∙ ==_refl c.pdu.sequence_number,
                check_seq_confirmed_timestamp-in_time plat c ∙ in_time,
              )
              (rw (tlocal_lem plat (set_state up (process_regular_receipt c)) r.clocked))))
        refl
