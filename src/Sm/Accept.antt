-- ===== src/Sm/Accept.antt =====
-- The receipt of one message in `STATE_UP` and in `STATE_RETR_RUN` (safecom/src/sm.c: `handle_up`,
-- `handle_retr_run`), as equations with the result written out.
use rasta_s.Prelude.{ℕ, ◌≡◌, ap, ◌∙◌, true, Result, ok, ◌>>=◌, ◌==◌, ==_refl}
use rasta_s.Platform.{Platform}
use rasta_s.TimeMon.{tlocal_lem}
use rasta_s.Sm.Types.{
  Context, State, up, retr_run, Event, recv_hb, recv_data, recv_retr_data, EventHandler, up_handler,
  retr_run_handler, current_timestamp,
}
use rasta_s.Sm.Checks.{process_regular_receipt, update_monitoring}
use rasta_s.Sm.Handlers.{set_state, receive_regular}
use rasta_s.Sm.Running.{handle_up, up_message, receive_up, handle_retr_run, running_message}
use rasta_s.Sm.Machine.{sm_handle_event, delegate, handle_timers, update_handler}
use rasta_s.Sm.Blocks.{monitored}
use rasta_s.Sm.Observe.{observe, check_seq_confirmed_timestamp-in_time}

abbrev pub IsMessage : Event → Type 0
IsMessage recv_hb = Unit {0}
IsMessage recv_data = Unit {0}
IsMessage _ = ⊥

module _ (plat : Platform) where
  -- What an accepted message leaves.
  abbrev pub accepted : Context → Context
  accepted c = update_handler (monitored plat (process_regular_receipt c))

  up_message-accepts :
      (c : Context)
      → c.self.time.tlocal ≡ current_timestamp
      → c.self.snr ≡ c.pdu.sequence_number
      → (observe plat c).in_time ≡ true
      → up_message plat c ≡ ok (monitored plat (process_regular_receipt c))
  unfolding up_message receive_up update_monitoring process_regular_receipt
  up_message-accepts c clocked number in_time =
      rw
        (
          ap (λ (n : ℕ). n == c.pdu.sequence_number) number ∙ ==_refl c.pdu.sequence_number,
          check_seq_confirmed_timestamp-in_time plat c ∙ in_time,
        )
        (rw (tlocal_lem plat (process_regular_receipt c) clocked))

  abbrev finished : Event → Context → EventHandler → Result Context
  finished e c f = delegate plat f e c >>= λ handled.
      handle_timers plat e handled >>= λ timed. ok (update_handler timed)

  pub accept :
      (e : Event) (c : Context)
      → IsMessage e
      → c.self.time.tlocal ≡ current_timestamp
      → c.self.handle_event ≡ up_handler
      → c.self.snr ≡ c.pdu.sequence_number
      → (observe plat c).in_time ≡ true
      → sm_handle_event plat e c ≡ ok (accepted c)
  unfolding sm_handle_event delegate handle_up handle_timers
  accept recv_hb c h clocked sync number in_time =
      ap (λ (f : EventHandler). finished recv_hb c f) sync
      ∙ rw (up_message-accepts c clocked number in_time)
  accept recv_data c h clocked sync number in_time =
      ap (λ (f : EventHandler). finished recv_data c f) sync
      ∙ rw (up_message-accepts c clocked number in_time)
  accept _ c h clocked sync number in_time = absurd h

  -- What a message leaves that is accepted during a retransmission.
  abbrev pub resumed : State → Context → Context
  resumed next c = update_handler (monitored plat (set_state next (process_regular_receipt c)))

  running_message-accepts :
      (next : State) (c : Context)
      → c.self.time.tlocal ≡ current_timestamp
      → c.self.snr ≡ c.pdu.sequence_number
      → (observe plat c).in_time ≡ true
      → running_message plat next c
        ≡ ok (monitored plat (set_state next (process_regular_receipt c)))
  unfolding running_message receive_regular update_monitoring process_regular_receipt
  running_message-accepts next c clocked number in_time =
      rw
        (
          ap (λ (n : ℕ). n == c.pdu.sequence_number) number ∙ ==_refl c.pdu.sequence_number,
          check_seq_confirmed_timestamp-in_time plat c ∙ in_time,
        )
        (rw (tlocal_lem plat (set_state next (process_regular_receipt c)) clocked))

  module _ (c : Context) (clocked : c.self.time.tlocal ≡ current_timestamp)
      (sync : c.self.handle_event ≡ retr_run_handler) (number : c.self.snr ≡ c.pdu.sequence_number)
      (in_time : (observe plat c).in_time ≡ true) where
    pub resume : (e : Event) → IsMessage e → sm_handle_event plat e c ≡ ok (resumed up c)
    unfolding sm_handle_event delegate handle_retr_run handle_timers
    resume recv_hb h =
        ap (λ (f : EventHandler). finished recv_hb c f) sync
        ∙ rw (running_message-accepts up c clocked number in_time)
    resume recv_data h =
        ap (λ (f : EventHandler). finished recv_data c f) sync
        ∙ rw (running_message-accepts up c clocked number in_time)
    resume _ h = absurd h

    pub replay : sm_handle_event plat recv_retr_data c ≡ ok (resumed retr_run c)
    unfolding sm_handle_event delegate handle_retr_run handle_timers
    replay =
        ap (λ (f : EventHandler). finished recv_retr_data c f) sync
        ∙ rw (running_message-accepts retr_run c clocked number in_time)
