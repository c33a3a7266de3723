-- ===== src/Sm/Farewell.antt =====
-- The end of a connection: one side closes it, or notices that it has to, and the other side hears
-- of it (safecom/src/sm.c and safecom/src/pdu.c).
use rasta_s.Prelude.{◌≡◌, refl, sym, ap, subst, ◌∙◌, arith, ◌∷◌, Result, ok, ◌>>=◌}
use rasta_s.Platform.{Platform, IsSized}
use rasta_s.Pdu.Types.{
  Pdu, zero_pdu, at, DiscReasonType, user_request, timeout_incoming_msg, state_service_not_allowed,
  disconnection_request, no_detailed_reason,
}
use rasta_s.Pdu.Build.{disc_req_payload}
use rasta_s.Pdu.RoundTrip.{InRange}
use rasta_s.Sm.Types.{
  Context, State, up, closed, Event, open_conn, close_conn, ti_elapsed, recv_disc_req,
  SafeComVtable,
}
use rasta_s.Sm.Machine.{sm_handle_event, handler_of}
use rasta_s.Sm.Table.{Observation, Reaction, react, silent, disconnects}
use rasta_s.Sm.Emit.{frame_of}
use rasta_s.Sm.Observe.{observe}
use rasta_s.Sm.Runs.{Step, setup}
use rasta_s.Sm.Refine.Compose.{Suited}
use rasta_s.Sm.Session.{handed}
use rasta_s.Sm.Arrive.{newest, arrive, found}
use rasta_s.Sm.Reply.{handed-Step, Receivable, Steady, arrive-Step}
use rasta_s.Sm.Talk.{Talker}
use rasta_s.Sm.Conversation.{Paired}

-- Why one side ends the connection: the user closes it, nothing was heard in time, or the user
-- opens it again.
pub data Cause : Type 0 where
  asked silence reopened : Cause

abbrev pub event_of : Cause → Event
event_of asked = close_conn
event_of silence = ti_elapsed
event_of reopened = open_conn

abbrev pub reason_of : Cause → DiscReasonType
reason_of asked = user_request
reason_of silence = timeout_incoming_msg
reason_of reopened = state_service_not_allowed

unfoldable pub leave : Platform → Platform → Cause → Context → Context → Result (Context × Context)
leave from to cause a b = do
  a' ← sm_handle_event from (event_of cause) (handed zero_pdu a)
  f ← newest a'.io.sent
  b' ← arrive to recv_disc_req f b
  ok (a', b')

pub Talker-Steady : (v : SafeComVtable) (c : Context) → Talker v c → Steady v c
Talker-Steady v c t = record {
  clocked = t.clocked;
  connected = t.connected;
  buffer_size = t.buffer_size;
  in_sync = t.stored ∙ sym (ap handler_of t.is_up);
  bounded = t.bounded;
}

cause-Suited :
    (plat : Platform) (v : SafeComVtable) (cause : Cause) (p : Pdu)
    → Suited plat v (event_of cause) p
cause-Suited plat v asked p = tt
cause-Suited plat v silence p = tt
cause-Suited plat v reopened p = tt

cause-reaction :
    (cause : Cause) (st : State) (o : Observation)
    → st ≡ up
    → react st (event_of cause) o ≡ disconnects (reason_of cause)
cause-reaction asked st o e = ap (λ (t : State). react t (event_of asked) o) e
cause-reaction silence st o e = ap (λ (t : State). react t (event_of silence) o) e
cause-reaction reopened st o e = ap (λ (t : State). react t (event_of reopened) o) e

pub zero-InRange : InRange zero_pdu
zero-InRange = omega arith

-- A closed machine, set up as before.
pub record Left (v : SafeComVtable) (c c' : Context) : Type 0 where
  pub state_is : c'.self.state ≡ closed
  pub steady : Steady v c'
  pub role_is : c'.self.role ≡ c.self.role
  pub setup_is : setup c'.self ≡ setup c.self

module _ (plat from : Platform) (v w : SafeComVtable) (sized : IsSized plat) where
  -- A disconnection request closes every state that the table says it closes, and nothing is sent.
  pub ended :
      (sender c : Context)
      → Receivable from sender.pdu
      → Steady v c
      → ((o : Observation) → react c.self.state recv_disc_req o ≡ (closed, silent))
      → (c' : Context) × (arrive plat recv_disc_req (frame_of from w sender) c ≡ ok c')
        × Left v c c'
        × (c'.io.sent ≡ c.io.sent)
  ended sender c s k closes =
      let (c', runs, step, steady, _) =
        arrive-Step plat from v w sized recv_disc_req sender c s k tt in
      let silently : Step plat v (handed (found from sender.pdu) c) closed silent c' =
        subst (λ (r : Reaction). Step plat v (handed (found from sender.pdu) c) r.0 r.1 c')
          (closes _) step in
      (
        c',
        runs,
        record {
          state_is = silently.state_is;
          steady = steady;
          role_is = step.role_is;
          setup_is = step.setup_is;
        },
        silently.output_is.0,
      )

module _ (from to : Platform) (v w : SafeComVtable) (sized : IsSized from)
    (to_sized : IsSized to) where
  -- The machine that leaves.
  leaves :
      (cause : Cause) (a : Context)
      → Talker v a
      → (a' : Context) × (sm_handle_event from (event_of cause) (handed zero_pdu a) ≡ ok a')
        × Step from v
            (handed zero_pdu a)
            (disconnects (reason_of cause)).0
            (disconnects (reason_of cause)).1
            a'
        × Steady v a'
        × InRange a'.pdu
  leaves cause a t =
      let (a', runs, step, steady, bounds) =
        handed-Step from v sized (event_of cause) zero_pdu a (Talker-Steady v a t) zero-InRange tt
          (cause-Suited from v cause zero_pdu) in
      (
        a',
        runs,
        subst (λ (r : Reaction). Step from v (handed zero_pdu a) r.0 r.1 a')
            (cause-reaction cause a.self.state (observe from (handed zero_pdu a)) t.is_up) step,
        steady,
        bounds.pdu_range,
      )

  -- One of two paired machines ends the connection because its user closes it, nothing was heard
  -- in time, or its user opens it again: it sends one disconnection request that names that
  -- reason, the other handles it and sends nothing, and both are in STATE_CLOSED, set up as
  -- before.
  pub leave-Left :
      (cause : Cause) (a b : Context)
      → Paired v w a b
      → (a' : Context) × (b' : Context) × (leave from to cause a b ≡ ok (a', b'))
        × Left v a a'
        × Left w b b'
        × (a'.io.sent ≡ frame_of from v a' ∷ a.io.sent)
        × (a'.pdu.message_type ≡ disconnection_request)
        × (a'.pdu.payload ≡ at (disc_req_payload (reason_of cause) no_detailed_reason))
        × (b'.io.sent ≡ b.io.sent)
  unfolding leave newest
  leave-Left cause a b p =
      let (a', runs, step, steady, range) = leaves cause a p.first in
      let (b', ends, is_closed, same) =
        ended to from w v to_sized a' b
          (record { in_range = range; complete = step.output_is.complete })
          (Talker-Steady w b p.second)
          (λ o. ap (λ (t : State). react t recv_disc_req o) p.second.is_up) in
      (
        a',
        b',
        rw runs (rw step.output_is.sent_is (rw ends refl)),
        record {
          state_is = step.state_is;
          steady = steady;
          role_is = step.role_is;
          setup_is = step.setup_is;
        },
        is_closed,
        step.output_is.sent_is,
        step.output_is.kind_is,
        step.output_is.body_is,
        same,
      )
