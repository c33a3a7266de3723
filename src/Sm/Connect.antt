-- ===== src/Sm/Connect.antt =====
-- A client and a server that open a connection over a link that loses nothing (safecom/src/sm.c and
-- safecom/src/pdu.c).
use rasta_s.Prelude.{◌<◌, ◌≡◌, refl, subst, Result, ok, ◌>>=◌}
use rasta_s.Platform.{Platform, IsSized}
use rasta_s.Sm.Types.{
  Context, client, server, open_conn, recv_conn_req, recv_conn_resp, recv_hb, closed_handler,
  down_handler, SafeComVtable,
}
use rasta_s.Sm.Checks.{draw_snt, process_regular_receipt}
use rasta_s.Sm.Machine.{sm_handle_event}
use rasta_s.Sm.Emit.{Ready}
use rasta_s.Sm.Runs.{setup}
use rasta_s.Sm.Arrive.{newest, arrive}
use rasta_s.Sm.Bounded.{InBounds, Keeps}
use rasta_s.Sm.Ranges.{sm_handle_event-Keeps}
use rasta_s.Sm.Link.{
  c1, s1, c2, s2, c1-InRange, s1-InRange, c2-InRange, s1-Ready, c2-Ready, link_answering,
  link_confirming, link_establishing, link_opens, link_answers, link_confirms, link_established,
}
use rasta_s.Sm.Reply.{found-InBounds}
use rasta_s.Sm.Conversation.{Paired}

-- The three messages that open a connection.
unfoldable pub connect : Platform → Platform → Context → Context → Result (Context × Context)
connect here there c s = do
  c1 ← sm_handle_event here open_conn c
  request ← newest c1.io.sent
  s1 ← arrive there recv_conn_req request s
  response ← newest s1.io.sent
  c2 ← arrive here recv_conn_resp response c1
  confirmation ← newest c2.io.sent
  s2 ← arrive there recv_hb confirmation s1
  ok (c2, s2)

-- A closed client and a server that listens, both set up and in range, with a Tmax above 0.
pub record Partners (here there : Platform) (v w : SafeComVtable) (c s : Context) : Type 0 where
  pub client_ready : Ready here v c
  pub server_ready : Ready there w s
  pub client_stored : c.self.handle_event ≡ closed_handler
  pub server_stored : s.self.handle_event ≡ down_handler
  pub is_client : c.self.role ≡ client
  pub is_server : s.self.role ≡ server
  pub client_bounded : InBounds c
  pub server_bounded : InBounds s
  pub client_patient : 0 < c.self.time.timeouts.tmax
  pub server_patient : 0 < s.self.time.timeouts.tmax

module _ (here there : Platform) (v w : SafeComVtable) (sized : IsSized here)
    (there_sized : IsSized there) (c s : Context) (p : Partners here there v w c s) where
  abbrev pub client_after : Context
  client_after = c2 here there v w sized there_sized c s p.client_ready p.server_ready

  abbrev pub server_after : Context
  server_after = s2 here there v w sized there_sized c s p.client_ready p.server_ready

  connected : connect here there c s ≡ ok (client_after, server_after)
  unfolding connect newest
  connected =
      rw
        (
          link_opens here there v w sized there_sized c s p.client_ready p.server_ready
              p.client_stored p.is_client,
          link_answers here there v w sized there_sized c s p.client_ready p.server_ready
              p.server_stored,
          link_confirms here there v w sized there_sized c s p.client_ready p.server_ready
              p.is_client p.server_bounded.self_bounded.snt_range,
          link_established here there v w sized there_sized c s p.client_ready p.server_ready
              p.is_server p.server_bounded.self_bounded.snt_range p.server_patient,
        )
        refl

  client_bounds : InBounds client_after
  client_bounds =
      let opened_bounds : InBounds
          (c1 here there v w sized there_sized c s p.client_ready p.server_ready) =
        subst (λ (m : Result Context). Keeps m)
          (link_opens here there v w sized there_sized c s p.client_ready p.server_ready
            p.client_stored p.is_client)
          (sm_handle_event-Keeps here open_conn c p.client_bounded) in
      found-InBounds here there recv_conn_resp
        (s1 here there v w sized there_sized c s p.client_ready p.server_ready).pdu
        (c1 here there v w sized there_sized c s p.client_ready p.server_ready) client_after
        (s1-InRange here there v w sized there_sized c s p.client_ready p.server_ready
          p.server_bounded.self_bounded.snt_range)
        opened_bounds.self_bounded
        (link_confirming here there v w sized there_sized c s p.client_ready p.server_ready
          p.is_client)

  server_bounds : InBounds server_after
  server_bounds =
      found-InBounds there here recv_hb
        (c2 here there v w sized there_sized c s p.client_ready p.server_ready).pdu
        (s1 here there v w sized there_sized c s p.client_ready p.server_ready) server_after
        (c2-InRange here there v w sized there_sized c s p.client_ready p.server_ready
          p.server_bounded.self_bounded.snt_range)
        (found-InBounds there here recv_conn_req
          (c1 here there v w sized there_sized c s p.client_ready p.server_ready).pdu s
          (s1 here there v w sized there_sized c s p.client_ready p.server_ready)
          (c1-InRange here there v w sized there_sized c s p.client_ready p.server_ready)
          p.server_bounded.self_bounded
          (link_answering here there v w sized there_sized c s p.client_ready p.server_ready
            p.server_stored)).self_bounded
        (link_establishing here there v w sized there_sized c s p.client_ready p.server_ready
          p.is_server p.server_patient)

  pub connected-Paired : Paired v w client_after server_after
  unfolding draw_snt process_regular_receipt
  connected-Paired = record {
    first = record {
      clocked = p.client_ready.clocked;
      connected = p.client_ready.connected;
      buffer_size =
          (c2-Ready here there v w sized there_sized c s p.client_ready p.server_ready).buffer_size;
      is_up = refl;
      stored = refl;
      bounded = client_bounds.self_bounded;
      patient = p.client_patient;
    };
    second = record {
      clocked = p.server_ready.clocked;
      connected = p.server_ready.connected;
      buffer_size =
          (s1-Ready here there v w sized there_sized c s p.client_ready p.server_ready).buffer_size;
      is_up = refl;
      stored = refl;
      bounded = server_bounds.self_bounded;
      patient = p.server_patient;
    };
    first_next = refl;
    second_next = refl;
    same_confirmed = refl;
  }

  client_after-role : client_after.self.role ≡ client
  unfolding draw_snt process_regular_receipt
  client_after-role = p.is_client

  server_after-role : server_after.self.role ≡ server
  unfolding draw_snt process_regular_receipt
  server_after-role = p.is_server

  client_after-setup : setup client_after.self ≡ setup c.self
  unfolding draw_snt process_regular_receipt
  client_after-setup = refl

  server_after-setup : setup server_after.self ≡ setup s.self
  unfolding draw_snt process_regular_receipt
  server_after-setup = refl

  -- The handshake leaves the two paired, with their roles and what was set up before.
  pub connect-Paired :
      (a : Context) × (b : Context) × (connect here there c s ≡ ok (a, b))
      × Paired v w a b
      × (a.self.role ≡ client)
      × (b.self.role ≡ server)
      × (setup a.self ≡ setup c.self)
      × (setup b.self ≡ setup s.self)
  connect-Paired = (
    client_after, server_after, connected, connected-Paired, client_after-role, server_after-role,
    client_after-setup, server_after-setup,
  )
