-- ===== src/Sm/Sessions.antt =====
-- Connections one after the other between the same client and server: each is opened, used and
-- ended (safecom/src/sm.c and safecom/src/pdu.c).
use rasta_s.Prelude.{◌<◌, ◌≡◌, refl, sym, ap, subst, ◌∙◌, ℕ, List, [], ◌∷◌, Result, ok, ◌>>=◌}
use rasta_s.Platform.{Platform, IsSized}
use rasta_s.Pdu.Types.{zero_pdu, at, connection_request}
use rasta_s.Pdu.Build.{conn_req_payload}
use rasta_s.Sm.Types.{
  Context, State, SmRole, client, server, closed, down, start, open_conn, TimeoutsConfig,
  SafeComVtable,
}
use rasta_s.Sm.Machine.{sm_handle_event, handler_of}
use rasta_s.Sm.Table.{Reaction, by_role, react, draws, sends}
use rasta_s.Sm.Emit.{Ready}
use rasta_s.Sm.Observe.{observe}
use rasta_s.Sm.Runs.{Step, setup}
use rasta_s.Sm.Bounded.{InBounds}
use rasta_s.Sm.Session.{handed}
use rasta_s.Sm.Reply.{handed-Step, Steady}
use rasta_s.Sm.Conversation.{Paired, Paired-swap}
use rasta_s.Sm.Dialogue.{Turn, AllShort, payloads, converse, converse-Paired}
use rasta_s.Sm.Farewell.{Cause, leave, leave-Left, Left, zero-InRange}
use rasta_s.Sm.Connect.{connect, Partners, connect-Paired}

-- Who ends a connection, and why.
pub data Ending : Type 0 where
  by_first by_second : Cause → Ending

pub record Visit : Type 0 where
  pub turns : List Turn
  pub ending : Ending

unfoldable pub end_by :
    Platform → Platform → Ending → Context → Context → Result (Context × Context)
end_by here there (by_first cause) c s = leave here there cause c s
end_by here there (by_second cause) c s = do (s', c') ← leave there here cause s c; ok (c', s')

-- The server listens, the client opens, the two talk, and one of them ends the connection; with
-- the payloads that were heard.
unfoldable pub visit :
    Platform → Platform → Visit → Context → Context → Result (Context × Context × List (List ℕ))
visit here there x c s = do
  listening ← sm_handle_event there open_conn (handed zero_pdu s)
  (c1, s1) ← connect here there (handed zero_pdu c) listening
  (c2, s2, all) ← converse here there x.turns c1 s1
  (c3, s3) ← end_by here there x.ending c2 s2
  ok (c3, s3, all)

unfoldable pub visits :
    Platform
    → Platform
    → List Visit
    → Context
    → Context
    → Result (Context × Context × List (List (List ℕ)))
visits here there [] c s = ok (c, s, [])
visits here there (x ∷ rest) c s = do
  (c', s', all) ← visit here there x c s
  (c'', s'', later) ← visits here there rest c' s'
  ok (c'', s'', all ∷ later)

abbrev pub EachVisitShort : List Visit → Type 0
EachVisitShort [] = Unit {0}
EachVisitShort (x ∷ rest) = AllShort x.turns × EachVisitShort rest

abbrev pub all_payloads : List Visit → List (List (List ℕ))
all_payloads [] = []
all_payloads (x ∷ rest) = payloads x.turns ∷ all_payloads rest

-- A closed machine of a role that can be opened, with a Tmax above 0.
pub record Idle (v : SafeComVtable) (role : SmRole) (c : Context) : Type 0 where
  pub steady : Steady v c
  pub is_closed : c.self.state ≡ closed
  pub has_role : c.self.role ≡ role
  pub patient : 0 < c.self.time.timeouts.tmax

kept_patient :
    (c c' : Context)
    → setup c'.self ≡ setup c.self
    → 0 < c.self.time.timeouts.tmax
    → 0 < c'.self.time.timeouts.tmax
kept_patient c c' e h = subst (λ (x : ℕ × TimeoutsConfig). 0 < x.1.tmax) (sym e) h

zeroed-InBounds : (v : SafeComVtable) (c : Context) → Steady v c → InBounds (handed zero_pdu c)
zeroed-InBounds v c k = record { self_bounded = k.bounded; pdu_range = zero-InRange }

zeroed-Ready :
    (plat : Platform) (v : SafeComVtable) (c : Context)
    → Steady v c
    → Ready plat v (handed zero_pdu c)
zeroed-Ready plat v c k = record {
  clocked = k.clocked;
  connected = k.connected;
  code_shows = tt;
  buffer_size = k.buffer_size;
}

module _ (here there : Platform) (v w : SafeComVtable) (sized : IsSized here)
    (there_sized : IsSized there) where
  -- A server that is opened listens, and a closed client can connect to it.
  pub listens :
      (c s : Context)
      → Idle v client c
      → Idle w server s
      → (s' : Context) × (sm_handle_event there open_conn (handed zero_pdu s) ≡ ok s')
        × Partners here there v w (handed zero_pdu c) s'
        × (setup s'.self ≡ setup s.self)
  listens c s i j =
      let before = handed zero_pdu s in
      let (s', runs, any_step, steady, bounds) =
        handed-Step there w there_sized open_conn zero_pdu s j.steady zero-InRange tt tt in
      let step : Step there w before down draws s' =
        subst (λ (r : Reaction). Step there w before r.0 r.1 s')
          (ap (λ (t : State). react t open_conn (observe there before)) j.is_closed
            ∙ ap
                (λ (r : SmRole).
                  by_role r (start, sends connection_request (at conn_req_payload)) (down, draws))
                j.has_role)
          any_step in
      (
        s',
        runs,
        record {
          client_ready = zeroed-Ready here v c i.steady;
          server_ready = step.ready;
          client_stored = i.steady.in_sync ∙ ap handler_of i.is_closed;
          server_stored = steady.in_sync ∙ ap handler_of step.state_is;
          is_client = i.has_role;
          is_server = step.role_is ∙ j.has_role;
          client_bounded = zeroed-InBounds v c i.steady;
          server_bounded = bounds;
          client_patient = i.patient;
          server_patient = kept_patient s s' step.setup_is j.patient;
        },
        step.setup_is,
      )

  Left-Idle :
      {role : SmRole} (u : SafeComVtable) (c c' c'' : Context)
      → Left u c' c''
      → c'.self.role ≡ role
      → setup c'.self ≡ setup c.self
      → 0 < c.self.time.timeouts.tmax
      → Idle u role c''
  Left-Idle u c c' c'' left role_is setup_is patient = record {
    steady = left.steady;
    is_closed = left.state_is;
    has_role = left.role_is ∙ role_is;
    patient = kept_patient c c'' (left.setup_is ∙ setup_is) patient;
  }

  end_by-Left :
      (ending : Ending) (a b : Context)
      → Paired v w a b
      → (a' : Context) × (b' : Context) × (end_by here there ending a b ≡ ok (a', b'))
        × Left v a a'
        × Left w b b'
  unfolding end_by
  end_by-Left (by_first cause) a b p =
      let (a', b', runs, left, also, _, _, _, _) =
        leave-Left here there v w sized there_sized cause a b p in
      (a', b', runs, left, also)
  end_by-Left (by_second cause) a b p =
      let (b', a', runs, left, also, _, _, _, _) =
        leave-Left there here w v there_sized sized cause b a (Paired-swap v w a b p) in
      (a', b', rw runs refl, also, left)

  visit-Idle :
      (x : Visit) (c s : Context)
      → Idle v client c
      → Idle w server s
      → AllShort x.turns
      → (c' : Context) × (s' : Context) × (visit here there x c s ≡ ok (c', s', payloads x.turns))
        × Idle v client c'
        × Idle w server s'
  unfolding visit
  visit-Idle x c s i j short =
      let (listening, opens, partners, listening_setup) = listens c s i j in
      let (c1, s1, joins, paired, c1_role, s1_role, c1_setup, s1_setup) =
        connect-Paired here there v w sized there_sized (handed zero_pdu c) listening partners in
      let (c2, s2, talks, still, c2_on, s2_on) =
        converse-Paired here there v w sized there_sized x.turns c1 s1 paired short in
      let (c3, s3, ends, c3_left, s3_left) = end_by-Left x.ending c2 s2 still in
      (
        c3,
        s3,
        rw opens (rw joins (rw talks (rw ends refl))),
        Left-Idle v c c2 c3 c3_left (c2_on.role_is ∙ c1_role) (c2_on.setup_is ∙ c1_setup) i.patient,
        Left-Idle w s s2 s3 s3_left (s2_on.role_is ∙ s1_role)
            (s2_on.setup_is ∙ (s1_setup ∙ listening_setup)) j.patient,
      )

  -- A client and a server in STATE_CLOSED, set up, in step and in range, with a Tmax above 0,
  -- whatever their sequence numbers, open any number of connections one after the other, in each
  -- of which they say any heartbeats and data of at most 22 bytes and one of them ends it because
  -- the user closes or opens it or nothing was heard in time: all calls return, the payloads heard
  -- are those said, and the two end in such a state again.
  pub visits-payloads :
      (xs : List Visit) (c s : Context)
      → Idle v client c
      → Idle w server s
      → EachVisitShort xs
      → (c' : Context) × (s' : Context) × (visits here there xs c s ≡ ok (c', s', all_payloads xs))
        × Idle v client c'
        × Idle w server s'
  unfolding visits
  visits-payloads [] c s i j short = (c, s, refl, i, j)
  visits-payloads (x ∷ rest) c s i j (short, later) =
      let (c1, s1, runs, i1, j1) = visit-Idle x c s i j short in
      let (c2, s2, more, i2, j2) = visits-payloads rest c1 s1 i1 j1 later in
      (c2, s2, rw runs (rw more refl), i2, j2)
