-- ===== src/Sm/Loss.antt =====
-- Two open connections of which one misses a message: the request for retransmission and what
-- becomes of it (safecom/src/sm.c and safecom/src/pdu.c).
use rasta_s.Prelude.{
  ◌+◌, ◌<◌, ◌^◌, ◌≡◌, ◌≢◌, subst, refl, ap, ◌∙◌, arith, false, List, [], ◌∷◌, Result, ok, ◌>>=◌,
  length, ==_ne,
}
use rasta_s.Platform.{Platform, IsSized}
use rasta_s.Pdu.Types.{
  Pdu, retransmission_request, disconnection_request, null, fail_retransmission, at,
  no_detailed_reason,
}
use rasta_s.Pdu.Build.{disc_req_payload}
use rasta_s.Pdu.Bytes.{u32}
use rasta_s.Pdu.RoundTrip.{InRange}
use rasta_s.Sm.Types.{
  Context, State, up, closed, retr_req, recv_retr_req, recv_disc_req, SafeComVtable,
}
use rasta_s.Sm.Table.{Observation, Reaction, react, sends, disconnects}
use rasta_s.Sm.Observe.{observe}
use rasta_s.Sm.Emit.{frame_of}
use rasta_s.Sm.Refine.Compose.{Suited}
use rasta_s.Sm.Runs.{Step}
use rasta_s.Sm.Session.{handed}
use rasta_s.Sm.Arrive.{newest, arrive, found}
use rasta_s.Sm.Reply.{Receivable, Steady, arrive-Step}
use rasta_s.Sm.Says.{Says, beat, message, Short, heard_as, speak}
use rasta_s.Sm.Packets.{EachShort}
use rasta_s.Sm.Talk.{Talker, spoken, speak_lem, spoken-InRange, spoken-IsComplete, spoken-Talker}
use rasta_s.Sm.Conversation.{Paired}
use rasta_s.Sm.Farewell.{Talker-Steady, ended}

-- Messages that do not arrive.
unfoldable pub lose : Platform → List Says → Context → Result Context
lose plat [] a = ok a
lose plat (s ∷ rest) a = speak plat s a >>= lose plat rest

-- Some messages are lost, the next one arrives, and so does what the two send in turn.
unfoldable pub miss :
    Platform → Platform → List Says → Says → Context → Context → Result (Context × Context)
miss from to lost s a b = do
  a1 ← lose from lost a
  a2 ← speak from s a1
  next ← newest a2.io.sent
  b1 ← arrive to (heard_as s) next b
  request ← newest b1.io.sent
  a3 ← arrive from recv_retr_req request a2
  refusal ← newest a3.io.sent
  b2 ← arrive to recv_disc_req refusal b1
  ok (a3, b2)

pub heard-Suited :
    (plat : Platform) (v : SafeComVtable) (s : Says) (p : Pdu) → Suited plat v (heard_as s) p
heard-Suited plat v beat p = tt
heard-Suited plat v (message bytes) p = tt

-- A message out of order makes an open connection ask for retransmission.
heard-unordered :
    (s : Says) (st : State) (o : Observation)
    → st ≡ up
    → o.in_sequence ≡ false
    → react st (heard_as s) o ≡ (retr_req, sends retransmission_request null)
heard-unordered beat st o e h = ap (λ (t : State). react t (heard_as beat) o) e ∙ rw h
heard-unordered (message bytes) st o e h =
    ap (λ (t : State). react t (heard_as (message bytes)) o) e ∙ rw h

lose_lem :
    (plat : Platform) (v : SafeComVtable) (sized : IsSized plat) (lost : List Says) (a : Context)
    → Talker v a
    → EachShort lost
    → (a' : Context) × (lose plat lost a ≡ ok a')
      × Talker v a'
      × (a'.self.snt ≡ u32 (a.self.snt + length lost))
unfolding lose
lose_lem plat v sized [] a t h = (a, refl, t, omega (arith, t.bounded.snt_range))
lose_lem plat v sized (s ∷ rest) a t (short, later) =
    let (a', runs, talker, number) =
      lose_lem plat v sized rest (spoken plat v s a) (spoken-Talker plat v sized s a t short)
        later in
    (a', rw (speak_lem plat v sized s a t short) runs, talker, number ∙ omega arith)

module _ (from to : Platform) (v w : SafeComVtable) (sized : IsSized from)
    (to_sized : IsSized to) where
  -- The receiver misses a number.
  pub unordered :
      (s : Says) (a b : Context)
      → Talker v a
      → Talker w b
      → b.self.snr ≢ u32 (a.self.snt + 1)
      → Short s
      → (b' : Context) × (arrive to (heard_as s) (frame_of from v (spoken from v s a)) b ≡ ok b')
        × Step to w
            (handed (found from (spoken from v s a).pdu) b)
            retr_req
            (sends retransmission_request null)
            b'
        × Steady w b'
        × InRange b'.pdu
  unordered s a b t u gap short =
      let (b', runs, step, steady, range) =
        arrive-Step to from w v to_sized (heard_as s) (spoken from v s a) b
          (record {
            in_range = spoken-InRange from v sized s a t;
            complete = spoken-IsComplete from v sized s a short;
          })
          (Talker-Steady w b u) (heard-Suited to w s _) in
      (
        b',
        runs,
        subst
            (λ (r : Reaction). Step to w (handed (found from (spoken from v s a).pdu) b) r.0 r.1 b')
            (heard-unordered s b.self.state _ u.is_up (==_ne b.self.snr _ gap)) step,
        steady,
        range,
      )

  -- An open connection refuses a request for retransmission.
  refused :
      (sender a : Context)
      → Receivable to sender.pdu
      → Steady v a
      → a.self.state ≡ up
      → (a' : Context) × (arrive from recv_retr_req (frame_of to w sender) a ≡ ok a')
        × Step from v
            (handed (found to sender.pdu) a)
            (disconnects fail_retransmission).0
            (disconnects fail_retransmission).1
            a'
        × InRange a'.pdu
  refused sender a s k is_up =
      let (a', runs, step, _, range) =
        arrive-Step from to v w sized recv_retr_req sender a s k tt in
      (
        a',
        runs,
        subst (λ (r : Reaction). Step from v (handed (found to sender.pdu) a) r.0 r.1 a')
            (ap
              (λ (t : State). react t recv_retr_req (observe from (handed (found to sender.pdu) a)))
              is_up)
            step,
        range,
      )

  -- A lost message ends the connection: of two paired machines, one says a number of messages
  -- above 0 and below 2 ^ 32 that are lost and then one that arrives, heartbeats or data of at
  -- most 22 bytes; the other sends one retransmission request, to which the first sends one
  -- disconnection request that names a failed retransmission, and when this arrives both are in
  -- STATE_CLOSED.
  pub miss-closed :
      (lost : List Says) (s : Says) (a b : Context)
      → Paired v w a b
      → EachShort lost
      → Short s
      → 0 < length lost
      → length lost < 2 ^ 32
      → (a' : Context) × (b' : Context) × (request : Context) × (miss from to lost s a b
          ≡ ok (a', b'))
        × (a'.self.state ≡ closed)
        × (b'.self.state ≡ closed)
        × (b'.io.sent ≡ frame_of to w request ∷ b.io.sent)
        × (request.pdu.message_type ≡ retransmission_request)
        × (before : Context) × ((lose from lost a >>= speak from s) ≡ ok before)
        × (a'.io.sent ≡ frame_of from v a' ∷ before.io.sent)
        × (a'.pdu.message_type ≡ disconnection_request)
        × (a'.pdu.payload ≡ at (disc_req_payload fail_retransmission no_detailed_reason))
  unfolding miss newest
  miss-closed lost s a b p each short some few =
      let (a1, lost_runs, talker, number) = lose_lem from v sized lost a p.first each in
      let gap : b.self.snr ≢ u32 (a1.self.snt + 1) = λ e. omega (arith, p.first_next, number, e) in
      let (b1, request_runs, asked, waiting, request_range) =
        unordered s a1 b talker p.second gap short in
      let speaks = spoken-Talker from v sized s a1 talker short in
      let (a3, refusal_runs, refusal, refusal_range) =
        refused b1 (spoken from v s a1)
          (record { in_range = request_range; complete = asked.output_is.complete })
          (Talker-Steady v _ speaks) speaks.is_up in
      let (b2, end_runs, left, end_sent) =
        ended to from w v to_sized a3 b1
          (record { in_range = refusal_range; complete = refusal.output_is.complete }) waiting
          (λ o. ap (λ (t : State). react t recv_disc_req o) asked.state_is) in
      (
        a3,
        b2,
        b1,
        rw lost_runs (
            rw (speak_lem from v sized s a1 talker short) (
              rw request_runs (
                rw asked.output_is.sent_is
                  (rw refusal_runs (rw refusal.output_is.sent_is (rw end_runs refl)))))),
        refusal.state_is,
        left.state_is,
        end_sent ∙ asked.output_is.sent_is,
        asked.output_is.kind_is,
        spoken from v s a1,
        rw lost_runs (speak_lem from v sized s a1 talker short),
        refusal.output_is.sent_is,
        refusal.output_is.kind_is,
        refusal.output_is.body_is,
      )
