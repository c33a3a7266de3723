-- ===== src/Sm/Refine/Compose.antt =====
-- How handlers are put together from parts that meet the table.
use rasta_s.Prelude.{ok, ◌≡◌, ap, ap₂, ◌∙◌, Bool, true, false, Result, ◌>>=◌, if◌then◌else◌, ◌∷◌}
use rasta_s.Platform.{Platform, IsSized}
use rasta_s.Pdu.Types.{Pdu, MessageType, Pointer}
use rasta_s.Sm.Types.{
  Context, State, Event, th_elapsed, ti_elapsed, send_data, recv_conn_req, recv_conn_resp,
  SafeComVtable,
}
use rasta_s.Sm.Table.{Observation, Output, Reaction, silent, sends, react}
use rasta_s.Sm.Emit.{Ready, frame_of}
use rasta_s.Sm.Runs.{Runs, numbered}
use rasta_s.Sm.Blocks.{Sendable, stay-Runs}
use rasta_s.Sm.Observe.{Versioned}

-- What a caller owes for an event: a payload with a version behind a connection message, and a
-- complete PDU that fits the send buffer behind `EVENT_SEND_DATA`.
abbrev pub Suited : Platform → SafeComVtable → Event → Pdu → Type 0
Suited plat v recv_conn_req p = Versioned plat p.payload
Suited plat v recv_conn_resp p = Versioned plat p.payload
Suited plat v send_data p = Sendable plat v p
Suited plat v _ p = Unit {0}

-- The part of the table that the handlers implement: they leave timer events alone.
abbrev pub handler_reaction : State → Event → Observation → Reaction
handler_reaction s th_elapsed o = (s, silent)
handler_reaction s ti_elapsed o = (s, silent)
handler_reaction s e o = react s e o

module _ (plat : Platform) (v : SafeComVtable) (sized : IsSized plat) where
  abbrev pub RunsAs : Result Context → Context → Reaction → Type 0
  RunsAs r c reaction = Runs plat v r c reaction.0 reaction.1

  pub if-Runs :
      (b : Bool) (x y : Result Context) (c : Context) (then_reaction else_reaction : Reaction)
      → RunsAs x c then_reaction
      → RunsAs y c else_reaction
      → RunsAs (if b then x else y) c (if b then then_reaction else else_reaction)
  if-Runs true x y c rx ry hx hy = hx
  if-Runs false x y c rx ry hx hy = hy

  pub at-Runs :
      {s s' : State} (r : Result Context) (c : Context) (o : Output)
      → s ≡ s'
      → Runs plat v r c s o
      → Runs plat v r c s' o
  at-Runs r c o e (c', returns, step) = (
    c',
    returns,
    record {
      state_is = step.state_is ∙ e;
      output_is = step.output_is;
      ready = step.ready;
      role_is = step.role_is;
      setup_is = step.setup_is;
    },
  )

  -- A part that does nothing, in a state that is known.
  pub still-Runs :
      (t : State) (c : Context) → c.self.state ≡ t → Ready plat v c → RunsAs (ok c) c (t, silent)
  still-Runs t c h r = at-Runs (ok c) c silent h (stay-Runs plat v c r)

  -- A silent part, then one that sends.
  pub then-Runs :
      (r : Result Context) (k : Context → Result Context) (c : Context) (s : State)
      (kind : MessageType) (body : Pointer)
      → Runs plat v r c s silent
      → ((c' : Context) → Ready plat v c' → Runs plat v (k c') c' c'.self.state (sends kind body))
      → Runs plat v (r >>= k) c s (sends kind body)
  then-Runs r k c s kind body (c1, e1, s1) next =
      let (c2, e2, s2) = next c1 s1.ready in
      let (same_sent, same_snt, same_seed) = s1.output_is in
      (
        c2,
        rw e1 e2,
        record {
          state_is = s2.state_is ∙ s1.state_is;
          output_is = record {
            sent_is = s2.output_is.sent_is ∙ ap (◌∷◌ (frame_of plat v c2)) same_sent;
            kind_is = s2.output_is.kind_is;
            body_is = s2.output_is.body_is;
            number_is = s2.output_is.number_is;
            next_is = s2.output_is.next_is ∙ ap₂ (numbered kind) same_seed same_snt;
            confirmed_is = s2.output_is.confirmed_is;
            confirmed_time_is = s2.output_is.confirmed_time_is;
            code_is = s2.output_is.code_is;
            complete = s2.output_is.complete;
          };
          ready = s2.ready;
          role_is = s2.role_is ∙ s1.role_is;
          setup_is = s2.setup_is ∙ s1.setup_is;
        },
      )
