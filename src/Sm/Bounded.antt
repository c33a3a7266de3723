-- ===== src/Sm/Bounded.antt =====
-- The ranges of the state machine's numbers (safecom/include/sm.h: `SmType`) and of its PDU, kept
-- by the parts that the handlers of safecom/src/sm.c are made of.
use rasta_s.Prelude.{
  ℕ, ◌+◌, ◌<◌, ◌^◌, ◌≡◌, arith, List, Result, ◌>>=◌, Ensures, Ensures-any, Ensures-bind,
}
use rasta_s.Platform.{Platform}
use rasta_s.Pdu.Types.{Pdu, Pointer, MessageType, DiscReasonType}
use rasta_s.Pdu.Bytes.{u32}
use rasta_s.Pdu.Codec.{serialize_pdu}
use rasta_s.Pdu.RoundTrip.{InRange}
use rasta_s.Pdu.Build.{
  read_prefix, calculate_md4, build, stepped, conn_req, conn_resp, retr_req_pdu, disc_req, hb,
}
use rasta_s.Sm.Types.{
  Context, SmType, State, VtablePointer, no_vtable, vtable_at, GetTimestamp, no_timestamp,
  current_timestamp,
}
use rasta_s.Sm.Checks.{
  close_connection, process_regular_receipt, snt_rand_value, draw_snt, update_monitoring,
}
use rasta_s.Sm.Transmit.{
  send_spdu, transmit, send_conn_req, send_conn_resp, send_retr_req, send_hb, send_disc_req,
}
use rasta_s.Sm.Handlers.{close_with, set_state, receive_regular}
use rasta_s.TimeMon.{tlocal, call_timestamp, get_current_timestamp}

-- Every number of the machine fits its 32 bits, and the monitoring times add up to `Tmax` on the
-- circle of 32-bit numbers.
pub record IsBounded (s : SmType) : Type 0 where
  pub snr_range : s.snr < 2 ^ 32
  pub snt_range : s.snt < 2 ^ 32
  pub cst_range : s.cst < 2 ^ 32
  pub csr_range : s.csr < 2 ^ 32
  pub tsr_range : s.tsr < 2 ^ 32
  pub ctsr_range : s.ctsr < 2 ^ 32
  pub trtd_range : s.time.trtd < 2 ^ 32
  pub ti_range : s.time.ti < 2 ^ 32
  pub balance : u32 (s.time.ti + s.time.trtd) ≡ u32 s.time.timeouts.tmax

pub record InBounds (c : Context) : Type 0 where
  pub self_bounded : IsBounded c.self
  pub pdu_range : InRange c.pdu

abbrev pub Keeps : Result Context → Type 0
Keeps r = Ensures InBounds r

abbrev TimedKeeps : ℕ × Context → Type 0
TimedKeeps p = (p.0 < 2 ^ 32) × InBounds p.1

pub close_connection-InBounds : (c : Context) → InBounds c → InBounds (close_connection c)
unfolding close_connection
close_connection-InBounds c b = omega arith

pub process_regular_receipt-InBounds :
    (c : Context) → InBounds c → InBounds (process_regular_receipt c)
unfolding process_regular_receipt
process_regular_receipt-InBounds c b = omega arith

pub draw_snt-InBounds : (c : Context) → InBounds c → InBounds (draw_snt c)
unfolding draw_snt snt_rand_value
draw_snt-InBounds c b = omega arith

stepped-InBounds : (c : Context) → InBounds c → InBounds (stepped c)
stepped-InBounds c b = omega arith

pub set_state-InBounds : (s : State) (c : Context) → InBounds c → InBounds (set_state s c)
set_state-InBounds s c b = omega arith

module _ (plat : Platform) where
  clock-Keeps :
      (t : GetTimestamp) (c : Context) → InBounds c → Ensures TimedKeeps (call_timestamp plat t c)
  unfolding call_timestamp get_current_timestamp
  clock-Keeps no_timestamp c b = tt
  clock-Keeps current_timestamp c b =
      (omega arith, record { self_bounded = b.self_bounded; pdu_range = b.pdu_range })

  pub tlocal-bind :
      (c : Context) (k : ℕ × Context → Result Context)
      → InBounds c
      → ((p : ℕ × Context) → TimedKeeps p → Keeps (k p))
      → Keeps (tlocal plat c >>= k)
  unfolding tlocal
  tlocal-bind c k b f =
      Ensures-bind TimedKeeps InBounds (tlocal plat c) k (clock-Keeps c.self.time.tlocal c b) f

  pub update_monitoring-Keeps : (c : Context) → InBounds c → Keeps (update_monitoring plat c)
  unfolding update_monitoring
  update_monitoring-Keeps c b = tlocal-bind c _ b (λ p h. omega arith)

  sealed-InRange : (p : Pdu) → InRange p → Ensures InRange (calculate_md4 plat p)
  unfolding calculate_md4
  sealed-InRange p r =
      Ensures-bind (λ (bs : List ℕ). Unit {0}) InRange
        (serialize_pdu plat.stale p plat.frame p.message_length) _ (Ensures-any _)
        (λ buffer _.
          Ensures-bind (λ (bs : List ℕ). Unit {0}) InRange (read_prefix buffer _) _ (Ensures-any _)
            (λ m _. omega arith))

  build-Keeps :
      (len : ℕ) (kind : MessageType) (confirmed confirmed_time : ℕ) (body : Pointer) (c : Context)
      → kind < 2 ^ 16
      → confirmed < 2 ^ 32
      → confirmed_time < 2 ^ 32
      → InBounds c
      → Keeps (build plat len kind confirmed confirmed_time body c)
  unfolding build
  build-Keeps len kind confirmed confirmed_time body c hk hc ht b = tlocal-bind c _ b (λ p h.
      Ensures-bind InRange InBounds (calculate_md4 plat _) _ (sealed-InRange _ (omega arith))
        (λ q r. record { self_bounded = h.1.self_bounded; pdu_range = r }))

  send_spdu-Keeps : (w : VtablePointer) (c : Context) → InBounds c → Keeps (send_spdu w c)
  unfolding send_spdu
  send_spdu-Keeps no_vtable c b = tt
  send_spdu-Keeps (vtable_at v) c b = record {
    self_bounded = b.self_bounded;
    pdu_range = b.pdu_range;
  }

  pub transmit-Keeps : (c : Context) → InBounds c → Keeps (transmit plat c)
  unfolding transmit
  transmit-Keeps c b =
      Ensures-bind (λ (bs : List ℕ). Unit {0}) InBounds
        (serialize_pdu plat.stale c.pdu c.io.buff_to_send c.pdu.message_length) _ (Ensures-any _)
        (λ buffer _.
          send_spdu-Keeps c.self.vtable _
            (record { self_bounded = b.self_bounded; pdu_range = b.pdu_range }))

  sent-Keeps :
      (len : ℕ) (kind : MessageType) (confirmed confirmed_time : ℕ) (body : Pointer) (c : Context)
      → kind < 2 ^ 16
      → confirmed < 2 ^ 32
      → confirmed_time < 2 ^ 32
      → InBounds c
      → Keeps (build plat len kind confirmed confirmed_time body c >>= transmit plat)
  sent-Keeps len kind confirmed confirmed_time body c hk hc ht b =
      Ensures-bind InBounds InBounds (build plat len kind confirmed confirmed_time body c)
        (transmit plat) (build-Keeps len kind confirmed confirmed_time body c hk hc ht b)
        transmit-Keeps

  pub send_conn_req-Keeps : (c : Context) → InBounds c → Keeps (send_conn_req plat c)
  unfolding send_conn_req conn_req
  send_conn_req-Keeps c b = sent-Keeps _ _ _ _ _ c (omega arith) (omega arith) (omega arith) b

  pub send_conn_resp-Keeps : (c : Context) → InBounds c → Keeps (send_conn_resp plat c)
  unfolding send_conn_resp conn_resp
  send_conn_resp-Keeps c b =
      sent-Keeps _ _ _ _ _ c (omega arith) b.self_bounded.cst_range b.self_bounded.ctsr_range b

  pub send_hb-Keeps : (c : Context) → InBounds c → Keeps (send_hb plat c)
  unfolding send_hb hb
  send_hb-Keeps c b =
      sent-Keeps _ _ _ _ _ (stepped c) (omega arith) b.self_bounded.cst_range
        b.self_bounded.ctsr_range (stepped-InBounds c b)

  pub send_retr_req-Keeps : (c : Context) → InBounds c → Keeps (send_retr_req plat c)
  unfolding send_retr_req retr_req_pdu
  send_retr_req-Keeps c b =
      sent-Keeps _ _ _ _ _ (stepped c) (omega arith) b.self_bounded.cst_range
        b.self_bounded.ctsr_range (stepped-InBounds c b)

  pub close_with-Keeps :
      (reason : DiscReasonType) (c : Context) → InBounds c → Keeps (close_with plat reason c)
  unfolding close_with send_disc_req disc_req
  close_with-Keeps reason c b =
      let closed = close_connection-InBounds c b in
      sent-Keeps _ _ _ _ _ (stepped (close_connection c)) (omega arith)
        closed.self_bounded.cst_range closed.self_bounded.ctsr_range (stepped-InBounds _ closed)

  pub receive_regular-Keeps :
      (s : State) (c : Context) → InBounds c → Keeps (receive_regular plat s c)
  unfolding receive_regular
  receive_regular-Keeps s c b =
      update_monitoring-Keeps _ (set_state-InBounds s _ (process_regular_receipt-InBounds c b))
