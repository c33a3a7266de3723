-- ===== src/Sm/Session.antt =====
-- Sequences of events at one connection, each with the PDU that its caller hands over: calls of
-- `Sm_HandleEvent` (safecom/src/sm.c) one after the other.
use rasta_s.Prelude.{
  ◌≡◌, refl, sym, subst, List, [], ◌∷◌, Result, ok, ◌>>=◌, ◌∙◌, if◌then◌else◌, Bool, true, false,
}
use rasta_s.Platform.{Platform, IsSized}
use rasta_s.Pdu.Types.{Pdu, safety_code_length}
use rasta_s.Pdu.Serialize.{Shows}
use rasta_s.Sm.Types.{
  Context, State, closed, down, start, up, retr_req, retr_run, Event, th_elapsed, ti_elapsed,
  open_conn, close_conn, send_data, recv_conn_req, recv_conn_resp, recv_retr_req, recv_retr_resp,
  recv_hb, recv_data, recv_retr_data, SmRole, client, server, SafeComVtable,
}
use rasta_s.Sm.Machine.{sm_handle_event}
use rasta_s.Sm.Table.{Observation, Reaction, message_reaction, react}
use rasta_s.Sm.Emit.{Ready}
use rasta_s.Sm.Observe.{observe}
use rasta_s.Sm.Refine.Compose.{Suited}
use rasta_s.Sm.Refine.Machine.{InSync, sm_handle_event-refines}

pub record Input : Type 0 where
  pub event : Event
  pub pdu : Pdu

-- The context of a call with another PDU.
abbrev pub handed : Pdu → Context → Context
handed p c = record c { pdu = p }

unfoldable pub run : Platform → List Input → Context → Result Context
run plat [] c = ok c
run plat (i ∷ rest) c = sm_handle_event plat i.event (handed i.pdu c) >>= run plat rest

-- What the callers owe: the safety code of each PDU is NULL or can be read, and the PDU suits the
-- event.
abbrev pub Owed : Platform → SafeComVtable → List Input → Type 0
Owed plat v [] = Unit {0}
Owed plat v (i ∷ rest) =
    Shows plat.stale i.pdu.safety_code safety_code_length
    × Suited plat v i.event i.pdu
    × Owed plat v rest

-- The events so far, the latest first.
abbrev pub events_after : List Event → List Input → List Event
events_after past [] = past
events_after past (i ∷ rest) = events_after (i.event ∷ past) rest

-- `xs` is left of a list when elements are dropped.
pub data Within : List Event → List Event → Type 0 where
  nothing : {past : List Event} → Within [] past
  now : {e : Event} {xs past : List Event} → Within xs past → Within (e ∷ xs) (e ∷ past)
  earlier : {e : Event} {xs past : List Event} → Within xs past → Within xs (e ∷ past)

-- The events that a state presupposes, the latest first.
abbrev pub opening : SmRole → List Event
opening client = open_conn ∷ []
opening server = recv_conn_req ∷ open_conn ∷ []

abbrev pub handshake : SmRole → List Event
handshake client = recv_conn_resp ∷ open_conn ∷ []
handshake server = recv_hb ∷ recv_conn_req ∷ open_conn ∷ []

abbrev pub presupposed : SmRole → State → List Event
presupposed role closed = []
presupposed role down = open_conn ∷ []
presupposed role start = opening role
presupposed role up = handshake role
presupposed role retr_req = handshake role
presupposed role retr_run = handshake role

-- A reaction leads to a state whose events have happened.
abbrev Earned : SmRole → List Event → Reaction → Type 0
Earned role past r = Within (presupposed role r.0) past

if-Earned :
    (b : Bool) (role : SmRole) (past : List Event) (x y : Reaction)
    → Earned role past x
    → Earned role past y
    → Earned role past (if b then x else y)
if-Earned true role past x y hx hy = hx
if-Earned false role past x y hx hy = hy

abbrev pub observed : SmRole → Bool → Bool → Bool → Observation
observed role version_ok in_sequence in_time = record {
  role = role;
  version_ok = version_ok;
  in_sequence = in_sequence;
  in_time = in_time;
}

message-Earned :
    (role : SmRole) (v q t : Bool) (s : State) (past : List Event)
    → presupposed role s ≡ handshake role
    → Within (handshake role) past
    → Earned role past (message_reaction s (observed role v q t))
message-Earned role v q t s past e h =
    if-Earned q role past _ _
      (if-Earned t role past _ _ (subst (λ (xs : List Event). Within xs past) (sym e) h) nothing) h

-- Every entry of the table leads to a state whose events have happened.
react-Earned :
    (role : SmRole) (version_ok in_sequence in_time : Bool) (s : State) (e : Event)
    (past : List Event)
    → Within (presupposed role s) past
    → Earned role (e ∷ past) (react s e (observed role version_ok in_sequence in_time))
react-Earned client v q t closed open_conn past h = now nothing
react-Earned server v q t closed open_conn past h = now nothing
react-Earned role v q t closed ti_elapsed past h = nothing
react-Earned role v q t closed _ past h = nothing
react-Earned client v q t down recv_conn_req past h =
    if-Earned v client (recv_conn_req ∷ past) _ _ (earlier h) nothing
react-Earned server v q t down recv_conn_req past h =
    if-Earned v server (recv_conn_req ∷ past) _ _ (now h) nothing
react-Earned role v q t down open_conn past h = nothing
react-Earned role v q t down close_conn past h = nothing
react-Earned role v q t down send_data past h = nothing
react-Earned role v q t down ti_elapsed past h = nothing
react-Earned role v q t down _ past h = earlier h
react-Earned client v q t start recv_conn_resp past h =
    if-Earned v client (recv_conn_resp ∷ past) _ _ (now h) nothing
react-Earned server v q t start recv_conn_resp past h = nothing
react-Earned client v q t start recv_hb past h = nothing
react-Earned server v q t start recv_hb past h =
    if-Earned q server (recv_hb ∷ past) _ _
      (if-Earned t server (recv_hb ∷ past) _ _ (now h) nothing) nothing
react-Earned role v q t start th_elapsed past h = earlier h
react-Earned role v q t start _ past h = nothing
react-Earned role v q t up send_data past h = earlier h
react-Earned role v q t up th_elapsed past h = earlier h
react-Earned role v q t up recv_hb past h =
    message-Earned role v q t up (recv_hb ∷ past) refl (earlier h)
react-Earned role v q t up recv_data past h =
    message-Earned role v q t up (recv_data ∷ past) refl (earlier h)
react-Earned role v q t up _ past h = nothing
react-Earned role v q t retr_req send_data past h = earlier h
react-Earned role v q t retr_req th_elapsed past h = earlier h
react-Earned role v q t retr_req recv_retr_resp past h = earlier h
react-Earned role v q t retr_req recv_hb past h = earlier h
react-Earned role v q t retr_req recv_data past h = earlier h
react-Earned role v q t retr_req recv_retr_data past h = earlier h
react-Earned role v q t retr_req _ past h = nothing
react-Earned role v q t retr_run send_data past h = earlier h
react-Earned role v q t retr_run th_elapsed past h = earlier h
react-Earned role v q t retr_run recv_hb past h =
    message-Earned role v q t up (recv_hb ∷ past) refl (earlier h)
react-Earned role v q t retr_run recv_data past h =
    message-Earned role v q t up (recv_data ∷ past) refl (earlier h)
react-Earned role v q t retr_run recv_retr_data past h =
    message-Earned role v q t retr_run (recv_retr_data ∷ past) refl (earlier h)
react-Earned role v q t retr_run recv_retr_req past h =
    if-Earned q role (recv_retr_req ∷ past) _ _ nothing nothing
react-Earned role v q t retr_run _ past h = nothing

module _ (plat : Platform) (v : SafeComVtable) (sized : IsSized plat) where
  -- From a machine that is set up and in step, any sequence of events with PDUs that suit them
  -- runs to the end and leaves the machine set up and in step; if its state presupposed only
  -- events of the past, so does the state reached: a connection is open only if its client
  -- received a connection response after opening it, or its server received a connection request
  -- and then a heartbeat after opening it.
  pub run-Within :
      (inputs : List Input) (c : Context) (past : List Event)
      → Ready plat v c
      → InSync c
      → Owed plat v inputs
      → Within (presupposed c.self.role c.self.state) past
      → (c' : Context) × (run plat inputs c ≡ ok c')
        × Ready plat v c'
        × InSync c'
        × (c'.self.role ≡ c.self.role)
        × Within (presupposed c.self.role c'.self.state) (events_after past inputs)
  unfolding run
  run-Within [] c past r sync owed h = (c, refl, r, sync, refl, h)
  run-Within (i ∷ rest) c past r sync (shows, suited, owed) h =
      let (c1, e1, step, sync1) =
        sm_handle_event-refines plat v sized i.event (handed i.pdu c)
          (record {
            clocked = r.clocked;
            connected = r.connected;
            code_shows = shows;
            buffer_size = r.buffer_size;
          })
          sync suited in
      let o = observe plat (handed i.pdu c) in
      let earned =
        react-Earned c.self.role o.version_ok o.in_sequence o.in_time c.self.state i.event past h in
      let reached =
        subst (λ (role : SmRole). Within (presupposed role c1.self.state) (i.event ∷ past))
          (sym step.role_is)
          (subst (λ (s : State). Within (presupposed c.self.role s) (i.event ∷ past))
            (sym step.state_is) earned) in
      let (c2, e2, r2, sync2, role2, h2) =
        run-Within rest c1 (i.event ∷ past) step.ready sync1 owed reached in
      (
        c2,
        rw e1 e2,
        r2,
        sync2,
        role2 ∙ step.role_is,
        subst
            (λ (role : SmRole).
              Within (presupposed role c2.self.state) (events_after (i.event ∷ past) rest))
            step.role_is h2,
      )
