-- ===== src/SafeCom/Numbers.antt =====
-- The sequence numbers of the frames that one connection sends (safecom/src/sm.c,
-- safecom/src/safecom_impl.c: `SafeCom_SendData_Impl`).
use rasta_s.Prelude.{
  ℕ, ◌+◌, ◌≤◌, ◌≡◌, ◌≢◌, ◌⊎◌, inl, inr, refl, sym, ap, ◌∙◌, subst, arith, if◌then◌else◌, List, [],
  ◌∷◌, ◌++◌, Result, ok, length,
}
use rasta_s.Platform.{Platform, IsSized}
use rasta_s.Pdu.Types.{Pdu, safety_code_length}
use rasta_s.Pdu.Bytes.{u32}
use rasta_s.Pdu.Serialize.{Shows}
use rasta_s.Pdu.RoundTrip.{InRange}
use rasta_s.Sm.Types.{
  Context, State, closed, down, up, retr_req, retr_run, send_data, Frame, SafeComVtable,
}
use rasta_s.Sm.Table.{Observation, forwards, react}
use rasta_s.Sm.Runs.{Step}
use rasta_s.Sm.Refine.Compose.{Suited}
use rasta_s.Sm.Session.{Input, handed}
use rasta_s.Sm.Delivery.{frame-Carries}
use rasta_s.Sm.Orderly.{react-IsOrderly}
use rasta_s.Sm.Bounded.{InBounds, Keeps}
use rasta_s.Sm.Emit.{frame_of}
use rasta_s.Sm.Arrive.{get_current_timestamp-lt}
use rasta_s.SafeCom.SendData.{data_context, data_pdu-built, data_pdu-Step}
use rasta_s.Sm.Reply.{handed-Step, Steady, Step-Steady}
use rasta_s.Sm.Observe.{observe}
use rasta_s.Sm.Ranges.{sm_handle_event-Keeps}
use rasta_s.Sm.Says.{speak}
use rasta_s.SafeCom.Ordered.{
  Task, handles, submits, attempt, attempts, begins, begins-submits, begins-not_closed,
  closed_or_not, emptied, Numbered, IsOrdered, shut-IsOrdered, sent-IsOrdered, Step-IsOrdered,
  react_closed-IsOrdered,
}

module _ (plat : Platform) (v : SafeComVtable) (sized : IsSized plat) where
  -- What the caller of a task owes.
  abbrev pub IsOwed : Task → Type 0
  IsOwed (handles i) =
      (i.event ≢ send_data)
      × Shows plat.stale i.pdu.safety_code safety_code_length
      × Suited plat v i.event i.pdu
      × InRange i.pdu
  IsOwed (submits bytes) = length bytes ≤ 22

  abbrev Continues : Task → Context → List Frame → Type 0
  Continues t c frames =
      (c' : Context) × (attempt plat t (emptied c) ≡ ok c')
      × Steady v c'
      × IsOrdered plat v sized c'.self.state c'.self.snt
          (c'.io.sent ++ (if begins c.self.state t then [] else frames))

  handles-Continues :
      (i : Input) (c : Context) (frames : List Frame)
      → Steady v c
      → IsOwed (handles i)
      → IsOrdered plat v sized c.self.state c.self.snt frames
      → Continues (handles i) c frames
  unfolding attempt
  handles-Continues i c frames k (other, shows, suited, range) o =
      let (c', returns, step, steady, b) =
        handed-Step plat v sized i.event i.pdu (emptied c)
          (record {
            clocked = k.clocked;
            connected = k.connected;
            buffer_size = k.buffer_size;
            in_sync = k.in_sync;
            bounded = k.bounded;
          })
          range shows suited in
      (c', returns, steady, ordered c' step b)
    where
      ordered :
          (c' : Context)
          → let here = handed i.pdu (emptied c) in
            let r = react c.self.state i.event (observe plat here) in
            Step plat v here r.0 r.1 c'
            → InBounds c'
            → IsOrdered plat v sized c'.self.state c'.self.snt
                (c'.io.sent ++ (if begins c.self.state (handles i) then [] else frames))
      ordered c' step b = elim (closed_or_not c.self.state) [
        | inr was ↦ rw (begins-not_closed c.self.state (handles i) was) (
            Step-IsOrdered plat v sized c.self.state _ _ c' frames
              (react-IsOrderly c.self.role _ _ _ c.self.state i.event was other) was refl step b o)
        | inl shut ↦
            react_closed-IsOrdered plat v sized c.self.state i.event i.pdu _ _ c' frames shut step
              refl b
      ]

  data_context-InBounds :
      (bytes : List ℕ) (c : Context)
      → Steady v c
      → InBounds (data_context plat v sized c.self (emptied c).io (length bytes) bytes)
  data_context-InBounds bytes c k = record {
    self_bounded = omega arith;
    pdu_range = record {
      length_range = omega arith;
      type_range = omega arith;
      receiver_range = omega arith;
      sender_range = omega arith;
      sequence_range = omega arith;
      confirmed_sequence_range = k.bounded.cst_range;
      timestamp_range = get_current_timestamp-lt plat _;
      confirmed_timestamp_range = k.bounded.ctsr_range;
    };
  }

  forward-IsOrdered :
      {s : State} (c c' : Context) (m : ℕ) (frames : List Frame)
      → Step plat v c s forwards c'
      → s ≢ down
      → c.io.sent ≡ []
      → InBounds c'
      → c.pdu.sequence_number ≡ c.self.snt
      → c.self.snt ≡ u32 (m + 1)
      → Numbered plat v sized m frames
      → IsOrdered plat v sized c'.self.state c'.self.snt (c'.io.sent ++ frames)
  forward-IsOrdered c c' m frames step not_down empty b number next before =
      let (sent, same, snt, complete) = step.output_is in
      sent-IsOrdered plat v sized c'.self.state c'.self.snt m c'.io.sent frames (frame_of plat v c')
        c'.pdu (λ d. not_down (sym step.state_is ∙ d)) (sent ∙ ap (◌∷◌ (frame_of plat v c')) empty)
        (frame-Carries plat v sized c' b.pdu_range complete)
        (ap Pdu.sequence_number same ∙ number ∙ sym snt) (snt ∙ next) before

  -- Data in a state in which it is sent, or not.
  send-IsOrdered :
      (s : State) (o : Observation) (c c' : Context) (m : ℕ) (frames : List Frame)
      → Step plat v c (react s send_data o).0 (react s send_data o).1 c'
      → c.io.sent ≡ []
      → InBounds c'
      → c.pdu.sequence_number ≡ c.self.snt
      → c.self.snt ≡ u32 (m + 1)
      → IsOrdered plat v sized s m frames
      → IsOrdered plat v sized c'.self.state c'.self.snt (c'.io.sent ++ frames)
  send-IsOrdered up o c c' m frames step empty b number next before =
      forward-IsOrdered c c' m frames step (λ d. cc) empty b number next (before.numbers (λ e. cc))
  send-IsOrdered retr_req o c c' m frames step empty b number next before =
      forward-IsOrdered c c' m frames step (λ d. cc) empty b number next (before.numbers (λ e. cc))
  send-IsOrdered retr_run o c c' m frames step empty b number next before =
      forward-IsOrdered c c' m frames step (λ d. cc) empty b number next (before.numbers (λ e. cc))
  send-IsOrdered _ o c c' m frames step empty b number next before =
      shut-IsOrdered plat v sized c'.self.state c'.self.snt _ step.state_is

  submits-Continues :
      (bytes : List ℕ) (c : Context) (frames : List Frame)
      → Steady v c
      → length bytes ≤ 22
      → IsOrdered plat v sized c.self.state c.self.snt frames
      → Continues (submits bytes) c frames
  unfolding attempt speak
  submits-Continues bytes c frames k short o =
      let there = data_context plat v sized c.self (emptied c).io (length bytes) bytes in
      let (c', returns, step, sync) =
        data_pdu-Step plat v sized c.self (emptied c).io (length bytes) bytes
          (record { clocked = k.clocked; connected = k.connected; in_sync = k.in_sync })
          k.buffer_size (omega arith) (omega arith) in
      let b : InBounds c' =
        subst (λ (m : Result Context). Keeps m) returns
          (rw
            (data_pdu-built plat v sized c.self (emptied c).io (length bytes) bytes k.clocked
              (omega arith) (omega arith))
            (sm_handle_event-Keeps plat send_data there (data_context-InBounds bytes c k))) in
      (
        c',
        returns,
        Step-Steady plat v there c' step sync b.self_bounded,
        rw (begins-submits c.self.state bytes) (
            send-IsOrdered c.self.state (observe plat there) there c' c.self.snt frames step refl b
              refl refl o),
      )

  abbrev pub AllOwed : List Task → Type 0
  AllOwed [] = Unit {0}
  AllOwed (t ∷ rest) = IsOwed t × AllOwed rest

  attempt-Continues :
      (t : Task) (c : Context) (frames : List Frame)
      → Steady v c
      → IsOwed t
      → IsOrdered plat v sized c.self.state c.self.snt frames
      → Continues t c frames
  attempt-Continues (handles i) c frames k owed o = handles-Continues i c frames k owed o
  attempt-Continues (submits bytes) c frames k owed o = submits-Continues bytes c frames k owed o

  attempts-IsOrdered :
      (tasks : List Task) (frames : List Frame) (c : Context)
      → Steady v c
      → AllOwed tasks
      → IsOrdered plat v sized c.self.state c.self.snt frames
      → (c' : Context) × (frames' : List Frame) × (attempts plat tasks frames c ≡ ok (c', frames'))
        × Steady v c'
        × IsOrdered plat v sized c'.self.state c'.self.snt frames'
  unfolding attempts
  attempts-IsOrdered [] frames c k owed o = (c, frames, refl, k, o)
  attempts-IsOrdered (t ∷ rest) frames c k (owes, owed) o =
      let (c1, e1, k1, o1) = attempt-Continues t c frames k owes o in
      let (c2, frames2, e2, k2, o2) = attempts-IsOrdered rest _ c1 k1 owed o1 in
      (c2, frames2, rw e1 e2, k2, o2)

  -- A machine that is set up, in step and in range, in any state, handles any events but
  -- EVENT_SEND_DATA, with PDUs in range that suit them and have a safety code that is NULL or can
  -- be read, and sends any data of at most 22 bytes by the calls of SafeCom_SendData, in any
  -- order. Every call returns and the machine stays as described. In the end it is in
  -- STATE_CLOSED, or the frames that it sent since the start or since it was last opened in
  -- STATE_CLOSED, whichever is later, carry consecutive sequence numbers modulo 2 ^ 32, the latest
  -- of them the machine's send sequence number.
  pub attempts-Numbered :
      (tasks : List Task) (c : Context)
      → Steady v c
      → AllOwed tasks
      → (c' : Context) × (frames : List Frame) × (attempts plat tasks [] c ≡ ok (c', frames))
        × Steady v c'
        × ((c'.self.state ≡ closed) ⊎ Numbered plat v sized c'.self.snt frames)
  attempts-Numbered tasks c k owed =
      let (c', frames, returns, k', o) =
        attempts-IsOrdered tasks [] c k owed (record { numbers = λ h. tt; none_yet = λ d. refl }) in
      (
        c',
        frames,
        returns,
        k',
        elim (closed_or_not c'.self.state) [ inl e ↦ inl e | inr h ↦ inr (o.numbers h) ],
      )
