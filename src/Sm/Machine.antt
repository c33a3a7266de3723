-- ===== src/Sm/Machine.antt =====
-- safecom/src/sm.c: `Sm_Init` and `Sm_HandleEvent`. The log lines are left out.
use rasta_s.Prelude.{Result, ok, err, null_pointer, ◌>>=◌}
use rasta_s.Platform.{Platform}
use rasta_s.Pdu.Types.{timeout_incoming_msg}
use rasta_s.Sm.Types.{
  Context, SmType, State, closed, down, start, up, retr_req, retr_run, Event, th_elapsed,
  ti_elapsed, EventHandler, no_handler, closed_handler, down_handler, start_handler, up_handler,
  retr_req_handler, retr_run_handler,
}
use rasta_s.Sm.Checks.{set_initial_values}
use rasta_s.Sm.Transmit.{send_hb}
use rasta_s.Sm.Handlers.{handle_closed, handle_down, handle_start, close_with}
use rasta_s.Sm.Running.{handle_up, handle_retr_req, handle_retr_run}

-- `state` is left as it is.
unfoldable pub sm_init : SmType → SmType
sm_init s =
    let timed = record s {
      time = record (s.time) {
        timeouts = record (s.time.timeouts) { th = 10; tmax = 30 };
        ti = 30;
      };
    } in
    record (set_initial_values timed) { handle_event = closed_handler }

-- The handler that the last switch of `Sm_HandleEvent` stores for a state.
abbrev pub handler_of : State → EventHandler
handler_of closed = closed_handler
handler_of down = down_handler
handler_of start = start_handler
handler_of up = up_handler
handler_of retr_req = retr_req_handler
handler_of retr_run = retr_run_handler

abbrev pub update_handler : Context → Context
update_handler c = record c { self = record (c.self) { handle_event = handler_of c.self.state } }

module _ (plat : Platform) where
  -- `self->handle_event(self, event, pdu);`
  unfoldable pub delegate : EventHandler → Event → Context → Result Context
  delegate no_handler e c = err null_pointer
  delegate closed_handler e c = handle_closed plat e c
  delegate down_handler e c = handle_down plat e c
  delegate start_handler e c = handle_start plat e c
  delegate up_handler e c = handle_up plat e c
  delegate retr_req_handler e c = handle_retr_req plat e c
  delegate retr_run_handler e c = handle_retr_run plat e c

  -- The heartbeat timer, by the state after the handler.
  unfoldable pub th_timer : State → Context → Result Context
  th_timer start c = send_hb plat c
  th_timer up c = send_hb plat c
  th_timer retr_req c = send_hb plat c
  th_timer retr_run c = send_hb plat c
  th_timer _ c = ok c

  -- The additional handling of timer events.
  unfoldable pub handle_timers : Event → Context → Result Context
  handle_timers th_elapsed c = th_timer c.self.state c
  handle_timers ti_elapsed c = close_with plat timeout_incoming_msg c
  handle_timers _ c = ok c

  unfoldable pub sm_handle_event : Event → Context → Result Context
  sm_handle_event e c = do
    handled ← delegate c.self.handle_event e c
    timed ← handle_timers e handled
    ok (update_handler timed)
