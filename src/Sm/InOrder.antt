-- ===== src/Sm/InOrder.antt =====
-- The order in which an open connection (safecom/src/sm.c, STATE_UP and STATE_RETR_RUN) takes
-- heartbeats, data and retransmitted data.
use rasta_s.Prelude.{
  ℕ, ◌≡◌, ◌≢◌, ◌↔◌, Bool, ◌⊎◌, inl, inr, refl, sym, subst, ◌∙◌, true, false, List, [], ◌∷◌, ok,
  ltb→lt, lt→ltb, Bool-cases, ==_ne,
}
use native.Mathlib.Decide.{ℕ_discrete}
use rasta_s.Platform.{Platform, IsSized}
use rasta_s.Pdu.Types.{safety_code_length, Pdu}
use rasta_s.Pdu.Serialize.{Shows}
use rasta_s.Sm.Types.{Context, State, up, Event, SafeComVtable, TimeoutsConfig}
use rasta_s.Sm.Machine.{sm_handle_event}
use rasta_s.Sm.Table.{react}
use rasta_s.Sm.Emit.{Ready}
use rasta_s.Sm.Observe.{observe}
use rasta_s.Sm.Runs.{Step}
use rasta_s.Sm.Refine.Machine.{InSync, sm_handle_event-refines}
use rasta_s.Sm.Session.{Input, handed, run}
use rasta_s.Sm.Phases.{
  IsSequenced, IsReceiving, IsLost, lost-not_up, ignored, refused, sequenced-Suited, take_lem,
}
use rasta_s.Sm.Sequences.{
  Messages, Sequenced, Messages-Sequenced, Follows, Completes, Messages-Completes, Completes-nil,
  Completes-advance,
}

Follows-on :
    (X : Type 0) (rest : List Input) {t t' : TimeoutsConfig} {n n' k k' : ℕ} {s s' : State}
    → t ≡ t'
    → n ≡ n'
    → k ≡ k'
    → s ≡ s'
    → X ↔ (Follows t.tmax n k rest × Completes s rest)
    → X ↔ (Follows t'.tmax n' k' rest × Completes s' rest)
Follows-on X rest et en ek es h = rw (← et, ← en, ← ek, ← es) h

true_or_false : (b : Bool) → b ≡ true → b ≡ false → ⊥
true_or_false b h f = cc

pub handed-Ready :
    (plat : Platform) (v : SafeComVtable) (p : Pdu) (c : Context)
    → Shows plat.stale p.safety_code safety_code_length
    → Ready plat v c
    → Ready plat v (handed p c)
handed-Ready plat v p c shows r = record {
  clocked = r.clocked;
  connected = r.connected;
  code_shows = shows;
  buffer_size = r.buffer_size;
}

module _ (plat : Platform) (v : SafeComVtable) (sized : IsSized plat) where
  -- The step of the table for a message.
  sequenced-Step :
      (e : Event) (p : Pdu) (c : Context)
      → Ready plat v c
      → InSync c
      → IsSequenced e
      → Shows plat.stale p.safety_code safety_code_length
      → let here = handed p c in
        let o = react c.self.state e (observe plat here) in
        (c' : Context) × (sm_handle_event plat e here ≡ ok c')
        × Step plat v here o.0 o.1 c'
        × InSync c'
  sequenced-Step e p c r sync h shows =
      sm_handle_event-refines plat v sized e (handed p c) (handed-Ready plat v p c shows r) sync
        (sequenced-Suited plat v e (handed p c) h)

  run-IsLost :
      (inputs : List Input) (c : Context)
      → Ready plat v c
      → InSync c
      → Sequenced plat inputs
      → IsLost c.self.state
      → (c' : Context) × (run plat inputs c ≡ ok c') × IsLost c'.self.state
  unfolding run
  run-IsLost [] c r sync ms lost = (c, refl, lost)
  run-IsLost (i ∷ rest) c r sync (h, shows, ms) lost =
      let (c1, e1, step, sync1) = sequenced-Step i.event i.pdu c r sync h shows in
      let kept = step.state_is ∙ ignored c.self.state i.event _ lost h in
      let (c2, e2, lost2) =
        run-IsLost rest c1 step.ready sync1 ms (subst (λ (s : State). IsLost s) (sym kept) lost) in
      (c2, rw e1 e2, lost2)

  -- Messages that begin with one that loses the connection.
  run-loses :
      (i : Input) (rest : List Input) (c : Context)
      → Ready plat v c
      → InSync c
      → Sequenced plat (i ∷ rest)
      → IsLost (react c.self.state i.event (observe plat (handed i.pdu c))).0
      → (c' : Context) × (run plat (i ∷ rest) c ≡ ok c') × (c'.self.state ≢ up)
  unfolding run
  run-loses i rest c r sync (h, shows, ms) lost =
      let (c1, e1, step, sync1) = sequenced-Step i.event i.pdu c r sync h shows in
      let (c2, e2, lost2) =
        run-IsLost rest c1 step.ready sync1 ms
          (subst (λ (s : State). IsLost s) (sym step.state_is) lost) in
      (c2, rw e1 e2, lost-not_up c2.self.state lost2)

  -- A machine that may take messages, and is handed some, is in STATE_UP in the end exactly when
  -- each follows the one before and their kinds lead there.
  pub run-Completes :
      (inputs : List Input) (c : Context)
      → Ready plat v c
      → InSync c
      → Sequenced plat inputs
      → IsReceiving c.self.state
      → (c' : Context) × (run plat inputs c ≡ ok c')
        × ((c'.self.state ≡ up) ↔ (
            Follows c.self.time.timeouts.tmax c.self.snr c.self.ctsr inputs
            × Completes c.self.state inputs))
  unfolding run
  run-Completes [] c r sync ms receiving =
      let (there, back) = Completes-nil c.self.state receiving in
      (c, refl, ((λ e. (tt, there e)), (λ (_, f). back f)))
  run-Completes (i ∷ rest) c r sync (h, shows, ms) receiving =
      elim (ℕ_discrete c.self.snr i.pdu.sequence_number) [
        | no ne ↦
            let (c', returns, lost) = refuse (inl (==_ne c.self.snr i.pdu.sequence_number ne)) in
            (c', returns, ((λ e. absurd (lost e)), (λ (f, _). absurd (ne f.0))))
        | yes number ↦ elim (Bool-cases (observe plat here).in_time) [
          | inr late ↦
              let (c', returns, lost) = refuse (inr late) in
              (
                c',
                returns,
                (
                  (λ e. absurd (lost e)),
                  (λ (f, _). absurd (true_or_false _ (lt→ltb _ _ f.1) late)),
                ),
              )
          | inl in_time ↦
              elim (take_lem plat v here here-Ready sync number in_time c.self.state i.event
                receiving h refl) [
                  | inl (c1, took) ↦
                      let (c2, e2, rest_iff) =
                        run-Completes rest c1 took.ready took.in_sync ms (
                          subst (λ (s : State). IsReceiving s) (sym took.state_is)
                            took.receiving) in
                      let (there, back) =
                        Follows-on (c2.self.state ≡ up) rest took.timeouts_are took.snr_is
                          took.ctsr_is took.state_is rest_iff in
                      let (on, off) =
                        Completes-advance c.self.state i.event i.pdu rest receiving h in
                      (
                        c2,
                        rw took.returns e2,
                        (
                          (λ e. let (f, g) = there e in ((number, ltb→lt _ _ in_time, f), on g)),
                          (λ ((_, _, f), g). back (f, off g)),
                        ),
                      )
                  | inr shut ↦
                      let (c', returns, not_up) = run-loses i rest c r sync (h, shows, ms) shut.1 in
                      (
                        c',
                        returns,
                        (
                          (λ e. absurd (not_up e)),
                          (λ (_, g). absurd (
                              subst (λ (s : State). Completes s rest) shut.0
                                ((Completes-advance c.self.state i.event i.pdu rest receiving h).1
                                  g))),
                        ),
                      )
                ]
        ]
      ]
    where
      here : Context
      here = handed i.pdu c

      here-Ready : Ready plat v here
      here-Ready = handed-Ready plat v i.pdu c shows r

      refuse :
          ((observe plat here).in_sequence ≡ false) ⊎ ((observe plat here).in_time ≡ false)
          → (c' : Context) × (run plat (i ∷ rest) c ≡ ok c') × (c'.self.state ≢ up)
      refuse f =
          run-loses i rest c r sync (h, shows, ms) (refused c.self.state i.event _ receiving h f)

  -- A machine in STATE_UP, set up and in step, that is handed any heartbeats and data with
  -- readable safety codes runs to the end, and it is in STATE_UP then exactly when their sequence
  -- numbers are consecutive from the one it expected and each confirmed timestamp lies less than
  -- Tmax after the one before: nothing lost, repeated or out of order is taken.
  pub run-Follows :
      (inputs : List Input) (c : Context)
      → Ready plat v c
      → InSync c
      → Messages plat inputs
      → c.self.state ≡ up
      → (c' : Context) × (run plat inputs c ≡ ok c')
        × ((c'.self.state ≡ up) ↔ Follows c.self.time.timeouts.tmax c.self.snr c.self.ctsr inputs)
  run-Follows inputs c r sync ms at_up =
      let (c', returns, (there, back)) =
        run-Completes inputs c r sync (Messages-Sequenced plat inputs ms)
          (subst (λ (s : State). IsReceiving s) (sym at_up) tt) in
      (
        c',
        returns,
        (
          (λ e. (there e).0),
          (λ f. back (
            f,
            subst (λ (s : State). Completes s inputs) (sym at_up)
                (Messages-Completes plat inputs ms),
          )),
        ),
      )
