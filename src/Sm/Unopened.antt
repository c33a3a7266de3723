-- ===== src/Sm/Unopened.antt =====
-- The events that the interface hands to a machine (safecom/src/sm.c), as long as it hands over no
-- PDU of the peer: the connection does not get open.
use rasta_s.Prelude.{ℕ, List, Result, ◌>>=◌, Ensures, Ensures-any, Ensures-bind}
use rasta_s.Platform.{Platform}
use rasta_s.Pdu.Types.{Pdu, Pointer, MessageType, DiscReasonType}
use rasta_s.Pdu.Codec.{serialize_pdu}
use rasta_s.Pdu.Build.{calculate_md4, build, stepped, conn_req, disc_req, data_pdu}
use rasta_s.TimeMon.{tlocal, call_timestamp}
use rasta_s.Sm.Types.{
  Context, SmType, State, closed, down, start, Event, open_conn, close_conn, send_data,
  EventHandler, no_handler, closed_handler, down_handler, start_handler, SmRole, client, server,
  GetTimestamp, no_timestamp, current_timestamp, VtablePointer, no_vtable, vtable_at,
}
use rasta_s.Sm.Checks.{close_connection, draw_snt}
use rasta_s.Sm.Transmit.{send_spdu, transmit, send_conn_req, send_disc_req}
use rasta_s.Sm.Handlers.{
  close_with, open_closed, handle_closed, handle_down, handle_start, set_state, set_ctsr,
}
use rasta_s.Sm.Machine.{delegate, handle_timers, handler_of, sm_handle_event}

-- The states before a connection is open, and their handlers, or none.
abbrev pub EarlyState : State → Type 0
EarlyState closed = Unit {0}
EarlyState down = Unit {0}
EarlyState start = Unit {0}
EarlyState _ = ⊥

abbrev pub EarlyHandler : EventHandler → Type 0
EarlyHandler no_handler = Unit {0}
EarlyHandler closed_handler = Unit {0}
EarlyHandler down_handler = Unit {0}
EarlyHandler start_handler = Unit {0}
EarlyHandler _ = ⊥

abbrev pub Unopened : SmType → Type 0
Unopened s = EarlyState s.state × EarlyHandler s.handle_event

-- What the interface asks of a machine.
abbrev pub OfInterface : Event → Type 0
OfInterface open_conn = Unit {0}
OfInterface close_conn = Unit {0}
OfInterface send_data = Unit {0}
OfInterface _ = ⊥

abbrev pub StaysUnopened : Result Context → Type 0
StaysUnopened r = Ensures (λ (c : Context). Unopened c.self) r

-- Reading the clock, building and sending leave the machine's own state alone.
module _ (plat : Platform) (P : SmType → Type 0) where
  abbrev On : Context → Type 0
  On c = P c.self

  clock-On :
      (t : GetTimestamp) (c : Context)
      → On c
      → Ensures (λ (p : ℕ × Context). On p.1) (call_timestamp plat t c)
  unfolding call_timestamp
  clock-On no_timestamp c h = tt
  clock-On current_timestamp c h = h

  tlocal-On : (c : Context) → On c → Ensures (λ (p : ℕ × Context). On p.1) (tlocal plat c)
  unfolding tlocal
  tlocal-On c h = clock-On c.self.time.tlocal c h

  build-On :
      (len : ℕ) (kind : MessageType) (confirmed confirmed_time : ℕ) (body : Pointer) (c : Context)
      → On c
      → Ensures On (build plat len kind confirmed confirmed_time body c)
  unfolding build
  build-On len kind confirmed confirmed_time body c h =
      Ensures-bind (λ (p : ℕ × Context). On p.1) On (tlocal plat c) _ (tlocal-On c h)
        (λ p k.
          Ensures-bind (λ (q : Pdu). Unit {0}) On (calculate_md4 plat _) _ (Ensures-any _)
            (λ q _. k))

  send_spdu-On : (w : VtablePointer) (c : Context) → On c → Ensures On (send_spdu w c)
  unfolding send_spdu
  send_spdu-On no_vtable c h = tt
  send_spdu-On (vtable_at v) c h = h

  transmit-On : (c : Context) → On c → Ensures On (transmit plat c)
  unfolding transmit
  transmit-On c h =
      Ensures-bind (λ (bs : List ℕ). Unit {0}) On
        (serialize_pdu plat.stale c.pdu c.io.buff_to_send c.pdu.message_length) _ (Ensures-any _)
        (λ buffer _. send_spdu-On c.self.vtable _ h)

  sent-On :
      (len : ℕ) (kind : MessageType) (confirmed confirmed_time : ℕ) (body : Pointer) (c : Context)
      → On c
      → Ensures On (build plat len kind confirmed confirmed_time body c >>= transmit plat)
  sent-On len kind confirmed confirmed_time body c h =
      Ensures-bind On On (build plat len kind confirmed confirmed_time body c) (transmit plat)
        (build-On len kind confirmed confirmed_time body c h) transmit-On

module _ (plat : Platform) where
  close_with-Unopened :
      (reason : DiscReasonType) (c : Context) → StaysUnopened (close_with plat reason c)
  unfolding close_with close_connection send_disc_req disc_req
  close_with-Unopened reason c =
      sent-On plat Unopened _ _ _ _ _ (stepped (close_connection c)) (tt, tt)

  open_closed-Unopened :
      (role : SmRole) (c : Context)
      → EarlyHandler c.self.handle_event
      → StaysUnopened (open_closed plat role c)
  unfolding open_closed draw_snt send_conn_req conn_req
  open_closed-Unopened server c h = (tt, h)
  open_closed-Unopened client c h =
      Ensures-bind (λ (p : ℕ × Context). EarlyHandler p.1.self.handle_event)
        (λ (k : Context). Unopened k.self) (tlocal plat _) _
        (tlocal-On plat (λ (s : SmType). EarlyHandler s.handle_event) _ h)
        (λ p k. sent-On plat Unopened _ _ _ _ _ (set_state start (set_ctsr p.0 p.1)) (tt, k))

  delegate-Unopened :
      (h : EventHandler) (e : Event) (c : Context)
      → EarlyHandler h
      → OfInterface e
      → Unopened c.self
      → StaysUnopened (delegate plat h e c)
  unfolding delegate handle_closed handle_down handle_start close_connection
  delegate-Unopened no_handler e c h i u = tt
  delegate-Unopened closed_handler open_conn c h i u = open_closed-Unopened c.self.role c u.1
  delegate-Unopened closed_handler close_conn c h i u = u
  delegate-Unopened closed_handler send_data c h i u = u
  delegate-Unopened down_handler open_conn c h i u = (tt, tt)
  delegate-Unopened down_handler close_conn c h i u = (tt, tt)
  delegate-Unopened down_handler send_data c h i u = (tt, tt)
  delegate-Unopened start_handler open_conn c h i u = close_with-Unopened _ c
  delegate-Unopened start_handler close_conn c h i u = close_with-Unopened _ c
  delegate-Unopened start_handler send_data c h i u = close_with-Unopened _ c
  delegate-Unopened closed_handler _ c h i u = absurd i
  delegate-Unopened down_handler _ c h i u = absurd i
  delegate-Unopened start_handler _ c h i u = absurd i
  delegate-Unopened _ e c h i u = absurd h

  handler-Early : (s : State) → EarlyState s → EarlyHandler (handler_of s)
  handler-Early closed h = tt
  handler-Early down h = tt
  handler-Early start h = tt
  handler-Early _ h = absurd h

  untimed :
      (e : Event) (c : Context)
      → OfInterface e
      → Unopened c.self
      → StaysUnopened (handle_timers plat e c)
  unfolding handle_timers
  untimed open_conn c i u = u
  untimed close_conn c i u = u
  untimed send_data c i u = u
  untimed _ c i u = absurd i

  pub sm_handle_event-Unopened :
      (e : Event) (c : Context)
      → OfInterface e
      → Unopened c.self
      → StaysUnopened (sm_handle_event plat e c)
  unfolding sm_handle_event
  sm_handle_event-Unopened e c i u =
      Ensures-bind (λ (k : Context). Unopened k.self) (λ (k : Context). Unopened k.self)
        (delegate plat c.self.handle_event e c) _
        (delegate-Unopened c.self.handle_event e c u.1 i u)
        (λ handled h.
          Ensures-bind (λ (k : Context). Unopened k.self) (λ (k : Context). Unopened k.self)
            (handle_timers plat e handled) _ (untimed e handled i h)
            (λ timed t. (t.0, handler-Early timed.self.state t.0)))

  pub data_pdu-Unopened :
      (msg_len : ℕ) (msg_data : List ℕ) (c : Context)
      → Unopened c.self
      → StaysUnopened (data_pdu plat msg_len msg_data c)
  unfolding data_pdu
  data_pdu-Unopened msg_len msg_data c u = build-On plat Unopened _ _ _ _ _ (stepped c) u
