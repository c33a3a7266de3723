-- ===== src/Sm/Refine/Machine.antt =====
-- `Sm_HandleEvent` (safecom/src/sm.c) does what the table says, timers and handler included.
use rasta_s.Prelude.{◌≡◌, refl, sym, ap, ◌∙◌, subst, Result, ok, err, ◌>>=◌}
use rasta_s.Platform.{Platform, IsSized}
use rasta_s.Pdu.Types.{null, heartbeat, timeout_incoming_msg}
use rasta_s.Sm.Types.{
  Context, State, closed, down, start, up, retr_req, retr_run, Event, th_elapsed, ti_elapsed,
  EventHandler, SafeComVtable,
}
use rasta_s.Sm.Handlers.{handle_closed, handle_down, handle_start}
use rasta_s.Sm.Running.{handle_up, handle_retr_req, handle_retr_run}
use rasta_s.Sm.Machine.{
  handler_of, update_handler, delegate, th_timer, handle_timers, sm_handle_event,
}
use rasta_s.Sm.Table.{Observation, Output, silent, draws, sends, forwards, react}
use rasta_s.Sm.Emit.{Ready, Ready-same}
use rasta_s.Sm.Runs.{Step, Emits, close_with-Runs}
use rasta_s.Sm.Blocks.{stay-Runs, send_hb-Runs}
use rasta_s.Sm.Observe.{observe}
use rasta_s.Sm.Refine.Compose.{Suited, handler_reaction, RunsAs, at-Runs}
use rasta_s.Sm.Refine.Opening.{handle_closed-Runs, handle_down-Runs, handle_start-Runs}
use rasta_s.Sm.Refine.Running.{handle_up-Runs, handle_retr_req-Runs, handle_retr_run-Runs}

-- The stored handler is the one of the state.
abbrev pub InSync : Context → Type 0
InSync c = c.self.handle_event ≡ handler_of c.self.state

module _ (plat : Platform) (v : SafeComVtable) (sized : IsSized plat) where
  delegate-Runs :
      (s : State) (e : Event) (c : Context)
      → c.self.state ≡ s
      → Ready plat v c
      → Suited plat v e c.pdu
      → RunsAs plat v sized
          (delegate plat (handler_of s) e c)
          c
          (handler_reaction s e (observe plat c))
  unfolding delegate
  delegate-Runs closed e c h r s = handle_closed-Runs plat v sized e c h r
  delegate-Runs down e c h r s = handle_down-Runs plat v sized e c h r s
  delegate-Runs start e c h r s = handle_start-Runs plat v sized e c h r s
  delegate-Runs up e c h r s = handle_up-Runs plat v sized e c h r s
  delegate-Runs retr_req e c h r s = handle_retr_req-Runs plat v sized e c h r s
  delegate-Runs retr_run e c h r s = handle_retr_run-Runs plat v sized e c h r s

  delegate-th : (s : State) (c : Context) → delegate plat (handler_of s) th_elapsed c ≡ ok c
  unfolding delegate handle_closed handle_down handle_start handle_up handle_retr_req
      handle_retr_run
  delegate-th closed c = refl
  delegate-th _ c = refl

  delegate-ti : (s : State) (c : Context) → delegate plat (handler_of s) ti_elapsed c ≡ ok c
  unfolding delegate handle_closed handle_down handle_start handle_up handle_retr_req
      handle_retr_run
  delegate-ti closed c = refl
  delegate-ti _ c = refl

  th_timer-Runs :
      (s : State) (c : Context)
      → c.self.state ≡ s
      → Ready plat v c
      → RunsAs plat v sized (th_timer plat s c) c (react s th_elapsed (observe plat c))
  unfolding th_timer
  th_timer-Runs closed c h r = at-Runs plat v sized _ c silent h (stay-Runs plat v c r)
  th_timer-Runs down c h r = at-Runs plat v sized _ c silent h (stay-Runs plat v c r)
  th_timer-Runs start c h r =
      at-Runs plat v sized _ c (sends heartbeat null) h (send_hb-Runs plat v sized c r)
  th_timer-Runs up c h r =
      at-Runs plat v sized _ c (sends heartbeat null) h (send_hb-Runs plat v sized c r)
  th_timer-Runs retr_req c h r =
      at-Runs plat v sized _ c (sends heartbeat null) h (send_hb-Runs plat v sized c r)
  th_timer-Runs retr_run c h r =
      at-Runs plat v sized _ c (sends heartbeat null) h (send_hb-Runs plat v sized c r)

  -- A timeout of the incoming messages ends the connection, whatever its state.
  ti-reaction : (s : State) (o : Observation) → react closed ti_elapsed o ≡ react s ti_elapsed o
  ti-reaction closed o = refl
  ti-reaction _ o = refl

  -- Handler and timers together.
  handled-Runs :
      (s : State) (e : Event) (c : Context)
      → c.self.state ≡ s
      → Ready plat v c
      → Suited plat v e c.pdu
      → RunsAs plat v sized
          (delegate plat (handler_of s) e c >>= handle_timers plat e)
          c
          (react s e (observe plat c))
  unfolding handle_timers
  handled-Runs s th_elapsed c h r _ = rw (delegate-th s c) (
      subst
        (λ (t : State).
          RunsAs plat v sized (th_timer plat t c) c (react s th_elapsed (observe plat c)))
        (sym h) (th_timer-Runs s c h r))
  handled-Runs s ti_elapsed c h r _ =
      rw (delegate-ti s c, ← ti-reaction s (observe plat c))
        (close_with-Runs plat v sized timeout_incoming_msg c r)
  handled-Runs s e c h r suited =
      let (c', returns, step) = delegate-Runs s e c h r suited in (c', rw returns refl, step)

  Emits-update_handler :
      (o : Output) (c c' : Context) → Emits plat v o c c' → Emits plat v o c (update_handler c')
  Emits-update_handler silent c c' h = h
  Emits-update_handler draws c c' h = h
  Emits-update_handler (sends kind body) c c' h = record {
    sent_is = h.sent_is;
    kind_is = h.kind_is;
    body_is = h.body_is;
    number_is = h.number_is;
    next_is = h.next_is;
    confirmed_is = h.confirmed_is;
    confirmed_time_is = h.confirmed_time_is;
    code_is = h.code_is;
    complete = h.complete;
  }
  Emits-update_handler forwards c c' h = h

  then-update :
      (m : Result Context) (e : Event) (c' : Context)
      → (m >>= handle_timers plat e) ≡ ok c'
      → (m >>= λ handled. handle_timers plat e handled >>= λ timed. ok (update_handler timed))
        ≡ ok (update_handler c')
  then-update (ok handled) e c' h = rw h
  then-update (err fault) e c' h = cc

  -- For every event in every state, a machine that is set up and in step with its handler, given a
  -- PDU that suits the event, runs Sm_HandleEvent to the end; the new state and what is sent are
  -- those of the transition table, a new message carries the next send sequence number and, a
  -- connection request aside, the machine's confirmed number and time, and it is sealed with the
  -- digest of its own header and payload; the machine is set up and in step again.
  pub sm_handle_event-refines :
      (e : Event) (c : Context)
      → Ready plat v c
      → InSync c
      → Suited plat v e c.pdu
      → let o = react c.self.state e (observe plat c) in
        (c' : Context) × (sm_handle_event plat e c ≡ ok c') × Step plat v c o.0 o.1 c' × InSync c'
  unfolding sm_handle_event
  sm_handle_event-refines e c r sync suited =
      let (c', returns, step) = handled-Runs c.self.state e c refl r suited in
      (
        update_handler c',
        ap (λ (h : EventHandler). finished h) sync ∙ then-update _ e c' returns,
        record {
          state_is = step.state_is;
          output_is = Emits-update_handler _ c c' step.output_is;
          ready = Ready-same plat v c' (update_handler c') refl refl refl refl step.ready;
          role_is = step.role_is;
          setup_is = step.setup_is;
        },
        refl,
      )
    where
      finished : EventHandler → Result Context
      finished h = delegate plat h e c >>= λ handled.
          handle_timers plat e handled >>= λ timed. ok (update_handler timed)
