-- ===== src/Sm/Blocks.antt =====
-- The other building blocks of the handlers of safecom/src/sm.c: heartbeats, retransmission
-- requests, forwarding, regular receipts, and the end of a connection.
use rasta_s.Prelude.{◌+◌, ◌-◌, ◌^◌, ◌≤◌, ◌≡◌, refl, arith, ok, length-append, length-drop, drop}
use rasta_s.Platform.{Platform, IsSized}
use rasta_s.TimeMon.{get_current_timestamp, tlocal_lem}
use rasta_s.Pdu.Types.{Pdu, null, heartbeat, retransmission_request}
use rasta_s.Pdu.Bytes.{u32}
use rasta_s.Pdu.Build.{hb, retr_req_pdu, stepped}
use rasta_s.Pdu.Serialize.{wire}
use rasta_s.Pdu.RoundTrip.{IsComplete, length-wire}
use rasta_s.Sm.Types.{Context, State, closed, retr_req, SafeComVtable}
use rasta_s.Sm.Checks.{close_connection, process_regular_receipt, update_monitoring}
use rasta_s.Sm.Transmit.{transmit, send_hb, send_retr_req}
use rasta_s.Sm.Handlers.{set_state, receive_regular}
use rasta_s.Sm.Running.{receive_up, request_retransmission}
use rasta_s.Sm.Table.{silent, sends, forwards}
use rasta_s.Sm.Emit.{Ready, Ready-same, transmitted, transmit-transmitted}
use rasta_s.Sm.Runs.{Runs, setup, send-Runs}

-- A context after its monitoring times were updated.
abbrev pub monitored : Platform → Context → Context
monitored plat c =
    let now = get_current_timestamp plat c.io.calls in
    let trtd = u32 (now + 2 ^ 32 - c.self.ctsr) in
    record c {
      self = record (c.self) {
        time = record (c.self.time) {
          trtd = trtd;
          ti = u32 (c.self.time.timeouts.tmax + 2 ^ 32 - trtd);
        };
      };
      io = record (c.io) { calls = c.io.calls + 1 };
    }

module _ (plat : Platform) (v : SafeComVtable) where
  -- The PDU of a caller that `SendSpdu` is to be given: it fits the send buffer.
  pub record Sendable (p : Pdu) : Type 0 where
    pub complete : IsComplete plat.stale p
    pub fits : p.message_length ≤ 100

  pub transmit-Runs :
      (c : Context)
      → Ready plat v c
      → Sendable c.pdu
      → Runs plat v (transmit plat c) c c.self.state forwards
  transmit-Runs c r s = (
    transmitted plat v c,
    transmit-transmitted plat v c r.connected s.complete (omega (arith, r.buffer_size, s.fits)),
    record {
      state_is = refl;
      output_is = (refl, refl, refl, s.complete);
      ready = record {
        clocked = r.clocked;
        connected = r.connected;
        code_shows = r.code_shows;
        buffer_size = omega (
          arith,
          length-append (wire plat.stale c.pdu) (drop c.pdu.message_length c.io.buff_to_send),
          length-drop c.pdu.message_length c.io.buff_to_send,
          length-wire plat.stale c.pdu s.complete,
          r.buffer_size,
          s.fits,
        );
      };
      role_is = refl;
      setup_is = refl;
    },
  )

  -- A receipt returns and sends nothing; the state is the one set before.
  pub update_monitoring-Runs :
      (c base : Context)
      → Ready plat v base
      → base.io.sent ≡ c.io.sent
      → base.self.snt ≡ c.self.snt
      → base.io.seed ≡ c.io.seed
      → base.self.role ≡ c.self.role
      → setup base.self ≡ setup c.self
      → Runs plat v (update_monitoring plat base) c base.self.state silent
  unfolding update_monitoring
  update_monitoring-Runs c base r same_sent same_snt same_seed same_role same_setup = (
    monitored plat base,
    rw (tlocal_lem plat base r.clocked) refl,
    record {
      state_is = refl;
      output_is = (same_sent, same_snt, same_seed);
      ready = Ready-same plat v base _ refl refl refl refl r;
      role_is = same_role;
      setup_is = same_setup;
    },
  )

  pub receive_regular-Runs :
      (s : State) (c : Context) → Ready plat v c → Runs plat v (receive_regular plat s c) c s silent
  unfolding receive_regular process_regular_receipt
  receive_regular-Runs s c r =
      update_monitoring-Runs c (set_state s (process_regular_receipt c))
        (Ready-same plat v _ _ refl refl refl refl r) refl refl refl refl refl

  pub receive_up-Runs :
      (c : Context) → Ready plat v c → Runs plat v (receive_up plat c) c c.self.state silent
  unfolding receive_up process_regular_receipt
  receive_up-Runs c r =
      update_monitoring-Runs c (process_regular_receipt c)
        (Ready-same plat v _ _ refl refl refl refl r) refl refl refl refl refl

  -- A step that sends nothing and keeps the clock, the vtable, the role, the setup, the safety
  -- code, the send buffer, the send sequence number and the seed.
  pub quiet-Runs :
      (c c' : Context)
      → c'.self.time.tlocal ≡ c.self.time.tlocal
      → c'.self.vtable ≡ c.self.vtable
      → c'.self.role ≡ c.self.role
      → setup c'.self ≡ setup c.self
      → c'.pdu.safety_code ≡ c.pdu.safety_code
      → c'.io.buff_to_send ≡ c.io.buff_to_send
      → c'.io.sent ≡ c.io.sent
      → c'.self.snt ≡ c.self.snt
      → c'.io.seed ≡ c.io.seed
      → Ready plat v c
      → Runs plat v (ok c') c c'.self.state silent
  quiet-Runs c c' timer table role kept code buffer sent number seed r = (
    c',
    refl,
    record {
      state_is = refl;
      output_is = (sent, number, seed);
      ready = Ready-same plat v c c' timer table code buffer r;
      role_is = role;
      setup_is = kept;
    },
  )

  pub close_connection-Runs :
      (c : Context) → Ready plat v c → Runs plat v (ok (close_connection c)) c closed silent
  unfolding close_connection
  close_connection-Runs c r =
      quiet-Runs c (close_connection c) refl refl refl refl refl refl refl refl refl r

  pub stay-Runs : (c : Context) → Ready plat v c → Runs plat v (ok c) c c.self.state silent
  stay-Runs c r = quiet-Runs c c refl refl refl refl refl refl refl refl refl r

  module _ (sized : IsSized plat) where
    pub send_hb-Runs :
        (c : Context)
        → Ready plat v c
        → Runs plat v (send_hb plat c) c c.self.state (sends heartbeat null)
    unfolding send_hb hb
    send_hb-Runs c r =
        send-Runs plat v sized 36 heartbeat c.self.cst c.self.ctsr null c (stepped c) (omega arith)
          (Ready-same plat v _ _ refl refl refl refl r) refl refl refl refl refl refl

    pub request_retransmission-Runs :
        (c : Context)
        → Ready plat v c
        → Runs plat v (request_retransmission plat c) c retr_req (sends retransmission_request null)
    unfolding request_retransmission send_retr_req retr_req_pdu
    request_retransmission-Runs c r =
        send-Runs plat v sized 36 retransmission_request c.self.cst c.self.ctsr null c
          (stepped (set_state retr_req c)) (omega arith)
          (Ready-same plat v _ _ refl refl refl refl r) refl refl refl refl refl refl
