-- ===== src/Sm/Recovery.antt =====
-- A connection that waits for a retransmission (safecom/src/sm.c, STATE_RETR_REQ), and the way back
-- to STATE_UP.
use rasta_s.Prelude.{◌≡◌, ◌↔◌, refl, ap, ◌∙◌, List, [], ◌∷◌, ◌++◌, ok}
use rasta_s.Platform.{Platform, IsSized}
use rasta_s.Pdu.Types.{Pdu, safety_code_length}
use rasta_s.Pdu.Serialize.{Shows}
use rasta_s.Sm.Types.{
  Context, up, retr_req, retr_run, Event, recv_hb, recv_data, recv_retr_data, recv_retr_resp,
  retr_req_handler, SafeComVtable,
}
use rasta_s.Sm.Handlers.{set_state}
use rasta_s.Sm.Running.{handle_retr_req}
use rasta_s.Sm.Machine.{sm_handle_event, delegate, handle_timers, update_handler, handler_of}
use rasta_s.Sm.Emit.{Ready, Ready-same}
use rasta_s.Sm.Refine.Machine.{InSync}
use rasta_s.Sm.Session.{Input, handed, run}
use rasta_s.Sm.Phases.{IsSequenced}
use rasta_s.Sm.Sequences.{Sequenced, Follows, Completes}
use rasta_s.Sm.InOrder.{handed-Ready, run-Completes}

-- Messages, a retransmission response, and more messages.
abbrev pub around : List Input → Pdu → List Input → List Input
around waiting response replayed =
    waiting ++ (record { event = recv_retr_resp; pdu = response } ∷ replayed)

module _ (plat : Platform) where
  -- A message is ignored by a machine that waits for a retransmission response.
  wait_lem :
      (e : Event) (c : Context)
      → IsSequenced e
      → c.self.handle_event ≡ retr_req_handler
      → sm_handle_event plat e c ≡ ok (update_handler c)
  unfolding sm_handle_event delegate handle_retr_req handle_timers
  wait_lem recv_hb c h sync = rw sync refl
  wait_lem recv_data c h sync = rw sync refl
  wait_lem recv_retr_data c h sync = rw sync refl
  wait_lem _ c h sync = absurd h

  respond_lem :
      (c : Context)
      → c.self.handle_event ≡ retr_req_handler
      → sm_handle_event plat recv_retr_resp c ≡ ok (update_handler (set_state retr_run c))
  unfolding sm_handle_event delegate handle_retr_req handle_timers
  respond_lem c sync = rw sync refl

module _ (plat : Platform) (v : SafeComVtable) (sized : IsSized plat) (replayed : List Input)
    (response : Pdu) (response_shows : Shows plat.stale response.safety_code safety_code_length)
    (carried : Sequenced plat replayed) where
  responded-Completes :
      (c : Context)
      → Ready plat v c
      → c.self.state ≡ retr_req
      → InSync c
      → (c' : Context) × (run plat (record { event = recv_retr_resp; pdu = response } ∷ replayed) c
          ≡ ok c')
        × ((c'.self.state ≡ up) ↔ (
            Follows c.self.time.timeouts.tmax c.self.snr c.self.ctsr replayed
            × Completes retr_run replayed))
  unfolding run
  responded-Completes c r waits sync =
      let here = handed response c in
      let c1 = update_handler (set_state retr_run here) in
      let (c', returns, open_when) =
        run-Completes plat v sized replayed c1
          (Ready-same plat v here c1 refl refl refl refl
            (handed-Ready plat v response c response_shows r))
          refl carried tt in
      (c', rw (respond_lem plat here (sync ∙ ap handler_of waits)) returns, open_when)

  -- A machine in STATE_RETR_REQ, set up and in step, that is handed any heartbeats, data and
  -- retransmitted data, then a retransmission response, and then more of them, all with readable
  -- safety codes, runs to the end. It is in STATE_UP then exactly when the messages after the
  -- response have consecutive sequence numbers from the one it expected, confirmed timestamps that
  -- each lie less than Tmax after the one before, and first only retransmitted data, then at least
  -- one heartbeat or data message and no retransmitted data any more; those before the response do
  -- not matter.
  pub run-Recovers :
      (waiting : List Input) (c : Context)
      → Ready plat v c
      → InSync c
      → c.self.state ≡ retr_req
      → Sequenced plat waiting
      → (c' : Context) × (run plat (around waiting response replayed) c ≡ ok c')
        × ((c'.self.state ≡ up) ↔ (
            Follows c.self.time.timeouts.tmax c.self.snr c.self.ctsr replayed
            × Completes retr_run replayed))
  unfolding run
  run-Recovers [] c r sync waits ignored = responded-Completes c r waits sync
  run-Recovers (i ∷ rest) c r sync waits (h, shows, ignored) =
      let here = handed i.pdu c in
      let c1 = update_handler here in
      let (c', returns, open_when) =
        run-Recovers rest c1
          (Ready-same plat v here c1 refl refl refl refl (handed-Ready plat v i.pdu c shows r)) refl
          waits ignored in
      (c', rw (wait_lem plat i.event here h (sync ∙ ap handler_of waits)) returns, open_when)
