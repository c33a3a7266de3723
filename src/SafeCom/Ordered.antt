-- ===== src/SafeCom/Ordered.antt =====
-- The tasks of one connection, and the numbers of the frames that it sends from its opening on: its
-- peer's messages and its timers raise events (safecom/src/sm.c), and its user sends data
-- (safecom/src/safecom_impl.c: `SafeCom_SendData_Impl`).
use rasta_s.Prelude.{
  ℕ, ◌+◌, ◌-◌, ◌<◌, ◌^◌, ◌≡◌, ◌≢◌, ◌⊎◌, inl, inr, refl, sym, ap, ◌∙◌, subst, arith, Bool, true,
  false, if◌then◌else◌, List, [], ◌∷◌, ◌++◌, Result, ok, ◌>>=◌,
}
use rasta_s.Platform.{Platform, IsSized}
use rasta_s.Pdu.Types.{Pdu, at, connection_request}
use rasta_s.Pdu.Build.{conn_req_payload}
use rasta_s.Pdu.Bytes.{u32}
use rasta_s.Sm.Types.{
  Context, State, closed, down, start, SmRole, client, server, Event, open_conn, Frame,
  SafeComVtable,
}
use rasta_s.Sm.Machine.{sm_handle_event}
use rasta_s.Sm.Table.{Observation, Reaction, draws, sends, by_role, react}
use rasta_s.Sm.Runs.{Step}
use rasta_s.Sm.Session.{Input, handed}
use rasta_s.Sm.Delivery.{Carries, frame-Carries}
use rasta_s.Sm.Orderly.{IsOrderly, shuts, rests, counts, answers}
use rasta_s.Sm.Bounded.{InBounds}
use rasta_s.Sm.Emit.{frame_of}
use rasta_s.Sm.Says.{message, speak}

-- An event with its PDU, or data to send.
pub data Task : Type 0 where
  handles : Input → Task
  submits : List ℕ → Task

unfoldable pub attempt : Platform → Task → Context → Result Context
attempt plat (handles i) c = sm_handle_event plat i.event (handed i.pdu c)
attempt plat (submits bytes) c = speak plat (message bytes) c

abbrev is_open_conn : Event → Bool
is_open_conn open_conn = true
is_open_conn _ = false

-- A task that opens the connection.
abbrev pub begins : State → Task → Bool
begins closed (handles i) = is_open_conn i.event
begins _ _ = false

pub begins-not_closed : (s : State) (t : Task) → s ≢ closed → begins s t ≡ false
begins-not_closed closed t h = absurd (h refl)
begins-not_closed _ t h = refl

pub begins-submits : (s : State) (bytes : List ℕ) → begins s (submits bytes) ≡ false
begins-submits closed bytes = refl
begins-submits _ bytes = refl

pub closed_or_not : (s : State) → (s ≡ closed) ⊎ (s ≢ closed)
closed_or_not closed = inl refl
closed_or_not _ = inr (λ e. cc)

start-ne-down : start ≢ down
start-ne-down e = cc

abbrev pub emptied : Context → Context
emptied c = record c { io = record (c.io) { sent = [] } }

-- Tasks one after the other, with the frames sent since the connection was opened, the latest
-- first. What was sent before is put aside, so that a task leaves the frames that it sends.
unfoldable pub attempts :
    Platform → List Task → List Frame → Context → Result (Context × List Frame)
attempts plat [] frames c = ok (c, frames)
attempts plat (t ∷ rest) frames c = attempt plat t (emptied c) >>= λ c'.
    attempts plat rest (c'.io.sent ++ (if begins c.self.state t then [] else frames)) c'

module _ (plat : Platform) (v : SafeComVtable) (sized : IsSized plat) where
  -- The latest frame carries the number `n`, the one before the number before, and so on.
  abbrev pub Numbered : ℕ → List Frame → Type 0
  Numbered n [] = Unit {0}
  Numbered n (f ∷ rest) =
      ((p : Pdu) × Carries plat v sized f p × (p.sequence_number ≡ n))
      × ((m : ℕ) × (n ≡ u32 (m + 1)) × Numbered m rest)

  -- The frames of a connection in the state `s` with the send sequence number `n`.
  pub record IsOrdered (s : State) (n : ℕ) (frames : List Frame) : Type 0 where
    pub numbers : s ≢ closed → Numbered n frames
    pub none_yet : s ≡ down → frames ≡ []

  first-Numbered :
      (n : ℕ) (f : Frame) (p : Pdu)
      → n < 2 ^ 32
      → Carries plat v sized f p
      → p.sequence_number ≡ n
      → Numbered n (f ∷ [])
  first-Numbered n f p h carries number =
      ((p, carries, number), (u32 (n + 2 ^ 32 - 1), omega arith, tt))

  pub shut-IsOrdered : (s : State) (n : ℕ) (frames : List Frame) → s ≡ closed → IsOrdered s n frames
  shut-IsOrdered s n frames e = record { numbers = λ h. absurd (h e); none_yet = λ d. cc }

  pub sent-IsOrdered :
      (s : State) (n m : ℕ) (sent frames : List Frame) (f : Frame) (p : Pdu)
      → s ≢ down
      → sent ≡ f ∷ []
      → Carries plat v sized f p
      → p.sequence_number ≡ n
      → n ≡ u32 (m + 1)
      → Numbered m frames
      → IsOrdered s n (sent ++ frames)
  sent-IsOrdered s n m sent frames f p not_down e carries number next before = record {
    numbers = λ h. rw e ((p, carries, number), (m, next, before));
    none_yet = λ d. absurd (not_down d);
  }

  pub Step-IsOrdered :
      (s : State) (r : Reaction) (c c' : Context) (frames : List Frame)
      → IsOrderly s r
      → s ≢ closed
      → c.io.sent ≡ []
      → Step plat v c r.0 r.1 c'
      → InBounds c'
      → IsOrdered s c.self.snt frames
      → IsOrdered c'.self.state c'.self.snt (c'.io.sent ++ frames)
  Step-IsOrdered s r c c' frames shuts was empty step b o =
      shut-IsOrdered c'.self.state c'.self.snt _ step.state_is
  Step-IsOrdered s r c c' frames (rests from_down) was empty step b o =
      let (sent, snt, _) = step.output_is in
      record {
        numbers = λ h.
            subst (λ (fs : List Frame). Numbered c'.self.snt (fs ++ frames)) (sym (sent ∙ empty))
              (subst (λ (n : ℕ). Numbered n frames) (sym snt) (o.numbers was));
        none_yet = λ d.
            ap (λ (fs : List Frame). fs ++ frames) (sent ∙ empty)
            ∙ o.none_yet (from_down (sym step.state_is ∙ d));
      }
  Step-IsOrdered s r c c' frames (counts counted not_down) was empty step b o =
      sent-IsOrdered c'.self.state c'.self.snt c.self.snt c'.io.sent frames (frame_of plat v c')
        c'.pdu (λ d. not_down (sym step.state_is ∙ d))
        (step.output_is.sent_is ∙ ap (◌∷◌ (frame_of plat v c')) empty)
        (frame-Carries plat v sized c' b.pdu_range step.output_is.complete) step.output_is.number_is
        (step.output_is.next_is ∙ counted c.io.seed c.self.snt) (o.numbers was)
  Step-IsOrdered s r c c' frames (answers at_down not_down) was empty step b o =
      let first =
        first-Numbered c'.self.snt (frame_of plat v c') c'.pdu b.self_bounded.snt_range
          (frame-Carries plat v sized c' b.pdu_range step.output_is.complete)
          step.output_is.number_is in
      record {
        numbers = λ h.
            rw (o.none_yet at_down)
              (rw (step.output_is.sent_is ∙ ap (◌∷◌ (frame_of plat v c')) empty) first);
        none_yet = λ d. absurd (not_down (sym step.state_is ∙ d));
      }

  -- The opening of a closed connection.
  begin-IsOrdered :
      (role : SmRole) (c c' : Context)
      → let r =
          by_role role (start, sends connection_request (at conn_req_payload)) (down, draws) in
        Step plat v c r.0 r.1 c'
        → c.io.sent ≡ []
        → InBounds c'
        → IsOrdered c'.self.state c'.self.snt (c'.io.sent ++ [])
  begin-IsOrdered client c c' step empty b = record {
    numbers = λ h. rw (step.output_is.sent_is ∙ ap (◌∷◌ (frame_of plat v c')) empty) (
        first-Numbered c'.self.snt (frame_of plat v c') c'.pdu b.self_bounded.snt_range
          (frame-Carries plat v sized c' b.pdu_range step.output_is.complete)
          step.output_is.number_is);
    none_yet = λ d. absurd (start-ne-down (sym step.state_is ∙ d));
  }
  begin-IsOrdered server c c' step empty b = record {
    numbers = λ h. rw (step.output_is.0 ∙ empty) tt;
    none_yet = λ d. rw (step.output_is.0 ∙ empty) refl;
  }

  -- An event in STATE_CLOSED.
  pub react_closed-IsOrdered :
      (s : State) (e : Event) (p : Pdu) (o : Observation) (c c' : Context) (frames : List Frame)
      → s ≡ closed
      → Step plat v c (react s e o).0 (react s e o).1 c'
      → c.io.sent ≡ []
      → InBounds c'
      → IsOrdered c'.self.state c'.self.snt (
          c'.io.sent ++ (if begins s (handles (record { event = e; pdu = p })) then [] else frames))
  react_closed-IsOrdered closed open_conn p o c c' frames h step empty b =
      begin-IsOrdered o.role c c' step empty b
  react_closed-IsOrdered closed _ p o c c' frames h step empty b =
      shut-IsOrdered c'.self.state c'.self.snt _ step.state_is
  react_closed-IsOrdered _ e p o c c' frames h step empty b = cc
