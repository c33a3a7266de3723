-- ===== src/Sm/Phases.antt =====
-- The messages that an open connection takes, by its state (safecom/src/sm.c: `handle_up`,
-- `handle_retr_run`): where one leads, and what it leaves.
use rasta_s.Prelude.{
  ◌+◌, ◌≡◌, ◌≢◌, ◌⊎◌, inl, inr, refl, ap, ◌∙◌, Bool, true, false, ok, if◌then◌else◌,
}
use rasta_s.Platform.{Platform}
use rasta_s.Pdu.Types.{null, seq_err, retransmission_request}
use rasta_s.Pdu.Bytes.{u32}
use rasta_s.Sm.Types.{
  Context, State, closed, up, retr_req, retr_run, Event, recv_hb, recv_data, recv_retr_data,
  SafeComVtable,
}
use rasta_s.Sm.Checks.{process_regular_receipt}
use rasta_s.Sm.Machine.{sm_handle_event, handler_of}
use rasta_s.Sm.Table.{Observation, message_reaction, react, silent, sends, disconnects}
use rasta_s.Sm.Emit.{Ready, Ready-same}
use rasta_s.Sm.Observe.{observe}
use rasta_s.Sm.Refine.Compose.{Suited}
use rasta_s.Sm.Refine.Machine.{InSync}
use rasta_s.Sm.Accept.{IsMessage, accepted, accept, resumed, resume, replay}

-- Messages with a sequence number that follows the one before.
abbrev pub IsSequenced : Event → Type 0
IsSequenced recv_hb = Unit {0}
IsSequenced recv_data = Unit {0}
IsSequenced recv_retr_data = Unit {0}
IsSequenced _ = ⊥

pub message-IsSequenced : (e : Event) → IsMessage e → IsSequenced e
message-IsSequenced recv_hb h = tt
message-IsSequenced recv_data h = tt
message-IsSequenced _ h = absurd h

-- The states in which such a message may be taken.
abbrev pub IsReceiving : State → Type 0
IsReceiving up = Unit {0}
IsReceiving retr_run = Unit {0}
IsReceiving _ = ⊥

-- Where a message leads that follows the one before.
abbrev pub advance : State → Event → State
advance up recv_hb = up
advance up recv_data = up
advance retr_run recv_hb = up
advance retr_run recv_data = up
advance retr_run recv_retr_data = retr_run
advance _ _ = closed

-- The states in which messages are ignored.
abbrev pub IsLost : State → Type 0
IsLost closed = Unit {0}
IsLost retr_req = Unit {0}
IsLost _ = ⊥

pub lost-not_up : (s : State) → IsLost s → s ≢ up
lost-not_up closed h e = cc
lost-not_up retr_req h e = cc
lost-not_up _ h e = absurd h

pub ignored :
    (s : State) (e : Event) (o : Observation) → IsLost s → IsSequenced e → (react s e o).0 ≡ s
ignored closed recv_hb o l h = refl
ignored closed recv_data o l h = refl
ignored closed recv_retr_data o l h = refl
ignored retr_req recv_hb o l h = refl
ignored retr_req recv_data o l h = refl
ignored retr_req recv_retr_data o l h = refl
ignored closed _ o l h = absurd h
ignored retr_req _ o l h = absurd h
ignored _ e o l h = absurd l

message_refused :
    (next : State) (o : Observation)
    → (o.in_sequence ≡ false) ⊎ (o.in_time ≡ false)
    → IsLost (message_reaction next o).0
message_refused next o f = tests_refused o.in_sequence o.in_time f
  where
    tests_refused :
        (q t : Bool)
        → (q ≡ false) ⊎ (t ≡ false)
        → IsLost
            (if q
              then (if t then (next, silent) else disconnects seq_err)
              else (retr_req, sends retransmission_request null)).0
    tests_refused true true (inl e) = cc
    tests_refused true true (inr e) = cc
    tests_refused true false f = tt
    tests_refused false t f = tt

-- A message that does not follow the one before loses the connection.
pub refused :
    (s : State) (e : Event) (o : Observation)
    → IsReceiving s
    → IsSequenced e
    → (o.in_sequence ≡ false) ⊎ (o.in_time ≡ false)
    → IsLost (react s e o).0
refused up recv_hb o r h f = message_refused up o f
refused up recv_data o r h f = message_refused up o f
refused up recv_retr_data o r h f = tt
refused retr_run recv_hb o r h f = message_refused up o f
refused retr_run recv_data o r h f = message_refused up o f
refused retr_run recv_retr_data o r h f = message_refused retr_run o f
refused up _ o r h f = absurd h
refused retr_run _ o r h f = absurd h
refused _ e o r h f = absurd r

pub sequenced-Suited :
    (plat : Platform) (v : SafeComVtable) (e : Event) (c : Context)
    → IsSequenced e
    → Suited plat v e c.pdu
sequenced-Suited plat v recv_hb c h = tt
sequenced-Suited plat v recv_data c h = tt
sequenced-Suited plat v recv_retr_data c h = tt
sequenced-Suited plat v _ c h = absurd h

module _ (plat : Platform) (v : SafeComVtable) where
  -- A message was taken and led to the state `next`.
  pub record Took (e : Event) (c : Context) (next : State) (c' : Context) : Type 0 where
    pub returns : sm_handle_event plat e c ≡ ok c'
    pub receiving : IsReceiving next
    pub state_is : c'.self.state ≡ next
    pub snr_is : c'.self.snr ≡ u32 (c.pdu.sequence_number + 1)
    pub ctsr_is : c'.self.ctsr ≡ c.pdu.confirmed_timestamp
    pub timeouts_are : c'.self.time.timeouts ≡ c.self.time.timeouts
    pub ready : Ready plat v c'
    pub in_sync : InSync c'

  abbrev Takes : State → Event → Context → Type 0
  Takes s e c =
      ((c' : Context) × Took e c (advance s e) c')
      ⊎ ((advance s e ≡ closed) × IsLost (react s e (observe plat c)).0)

  module _ (c : Context) (ready : Ready plat v c) (sync : InSync c)
      (number : c.self.snr ≡ c.pdu.sequence_number)
      (in_time : (observe plat c).in_time ≡ true) where
    accepted-Took : (e : Event) → IsMessage e → c.self.state ≡ up → Took e c up (accepted plat c)
    unfolding process_regular_receipt
    accepted-Took e h at_up = record {
      returns = accept plat e c h ready.clocked (sync ∙ ap handler_of at_up) number in_time;
      receiving = tt;
      state_is = at_up;
      snr_is = refl;
      ctsr_is = refl;
      timeouts_are = refl;
      ready = Ready-same plat v c (accepted plat c) refl refl refl refl ready;
      in_sync = refl;
    }

    resumed-Took :
        (e : Event) (next : State)
        → IsReceiving next
        → sm_handle_event plat e c ≡ ok (resumed plat next c)
        → Took e c next (resumed plat next c)
    unfolding process_regular_receipt
    resumed-Took e next r returns = record {
      returns = returns;
      receiving = r;
      state_is = refl;
      snr_is = refl;
      ctsr_is = refl;
      timeouts_are = refl;
      ready = Ready-same plat v c (resumed plat next c) refl refl refl refl ready;
      in_sync = refl;
    }

    -- A message that follows the one before is taken, or it closes the connection.
    pub take_lem :
        (s : State) (e : Event) → IsReceiving s → IsSequenced e → c.self.state ≡ s → Takes s e c
    take_lem up recv_hb r h at_up = inl (_, accepted-Took recv_hb tt at_up)
    take_lem up recv_data r h at_up = inl (_, accepted-Took recv_data tt at_up)
    take_lem up recv_retr_data r h at_up = inr (refl, tt)
    take_lem retr_run recv_hb r h at_run = inl (
      _,
      resumed-Took recv_hb up tt
          (resume plat c ready.clocked (sync ∙ ap handler_of at_run) number in_time recv_hb tt),
    )
    take_lem retr_run recv_data r h at_run = inl (
      _,
      resumed-Took recv_data up tt
          (resume plat c ready.clocked (sync ∙ ap handler_of at_run) number in_time recv_data tt),
    )
    take_lem retr_run recv_retr_data r h at_run = inl (
      _,
      resumed-Took recv_retr_data retr_run tt
          (replay plat c ready.clocked (sync ∙ ap handler_of at_run) number in_time),
    )
    take_lem up _ r h e = absurd h
    take_lem retr_run _ r h e = absurd h
    take_lem _ e r h at = absurd r
