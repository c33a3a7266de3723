-- ===== src/Sm/Link.antt =====
-- A client and a server that are joined by a link: each frame that one of them sends is
-- deserialised and handled by the other (safecom/src/sm.c and safecom/src/pdu.c).
use rasta_s.Prelude.{◌+◌, ◌<◌, ◌^◌, ◌≡◌, refl, ◌∙◌, arith, true, ◌∷◌, ok}
use rasta_s.Platform.{Platform, IsSized}
use rasta_s.TimeMon.{get_current_timestamp}
use rasta_s.Pdu.Types.{
  Pdu, at, null, heartbeat, safety_code_length, connection_request, connection_response,
}
use rasta_s.Pdu.Bytes.{u32, load}
use rasta_s.Pdu.Build.{stepped, conn_req_payload, conn_resp_payload}
use rasta_s.Pdu.Serialize.{Shows}
use rasta_s.Pdu.RoundTrip.{InRange}
use rasta_s.Sm.Types.{
  Context, client, server, up, Frame, open_conn, recv_conn_req, recv_conn_resp, recv_hb,
  closed_handler, down_handler, SafeComVtable,
}
use rasta_s.Sm.Checks.{draw_snt, process_regular_receipt, check_version, version_bytes}
use rasta_s.Sm.Machine.{sm_handle_event, update_handler}
use rasta_s.Sm.Emit.{Ready, frame_of, Ready-same}
use rasta_s.Sm.Runs.{emitted-Ready}
use rasta_s.Sm.Session.{handed}
use rasta_s.Sm.Arrive.{
  arrive, found, arrive-found, get_current_timestamp-lt, snt_rand_value-lt, same_time, code-shows,
}
use rasta_s.Sm.Handshake.{
  opened, requesting, answered, answering, confirmed, receiving_up, client_opens, server_answers,
  client_confirms, server_confirms,
}

module _ (here there : Platform) (v w : SafeComVtable) (here_sized : IsSized here)
    (there_sized : IsSized there) (c s : Context) (ready : Ready here v c)
    (other : Ready there w s) where
  abbrev pub c1 : Context
  c1 = opened here v here_sized c

  abbrev pub p1 : Pdu
  p1 = found here c1.pdu

  abbrev pub s1 : Context
  s1 = answered there w there_sized (handed p1 s)

  abbrev pub p2 : Pdu
  p2 = found there s1.pdu

  abbrev pub c2 : Context
  c2 = confirmed here v here_sized (handed p2 c1)

  abbrev pub p3 : Pdu
  p3 = found here c2.pdu

  pub c1-InRange : InRange c1.pdu
  unfolding draw_snt
  c1-InRange = record {
    length_range = omega arith;
    type_range = omega arith;
    receiver_range = omega arith;
    sender_range = omega arith;
    sequence_range = snt_rand_value-lt c.io.seed;
    confirmed_sequence_range = omega arith;
    timestamp_range = get_current_timestamp-lt here _;
    confirmed_timestamp_range = omega arith;
  }

  p1-version : check_version there p1.payload ≡ ok true
  unfolding check_version version_bytes load
  p1-version = refl

  p2-version : check_version here p2.payload ≡ ok true
  unfolding check_version version_bytes load
  p2-version = refl

  p1-Shows : Shows there.stale p1.safety_code safety_code_length
  p1-Shows = code-shows here _ here_sized

  p2-Shows : Shows here.stale p2.safety_code safety_code_length
  p2-Shows = code-shows there _ there_sized

  p3-Shows : Shows there.stale p3.safety_code safety_code_length
  p3-Shows = code-shows here _ here_sized

  at_server : Ready there w (handed p1 s)
  at_server = record {
    clocked = other.clocked;
    connected = other.connected;
    code_shows = p1-Shows;
    buffer_size = other.buffer_size;
  }

  pub s1-InRange : s.self.snt < 2 ^ 32 → InRange s1.pdu
  unfolding draw_snt process_regular_receipt
  s1-InRange small = record {
    length_range = omega arith;
    type_range = omega arith;
    receiver_range = omega arith;
    sender_range = omega arith;
    sequence_range = small;
    confirmed_sequence_range = snt_rand_value-lt c.io.seed;
    timestamp_range = get_current_timestamp-lt there _;
    confirmed_timestamp_range = get_current_timestamp-lt there _;
  }

  pub c2-InRange : s.self.snt < 2 ^ 32 → InRange c2.pdu
  unfolding process_regular_receipt
  c2-InRange small = record {
    length_range = omega arith;
    type_range = omega arith;
    receiver_range = omega arith;
    sender_range = omega arith;
    sequence_range = omega arith;
    confirmed_sequence_range = small;
    timestamp_range = get_current_timestamp-lt here _;
    confirmed_timestamp_range = get_current_timestamp-lt there _;
  }

  c1-Ready : Ready here v c1
  unfolding draw_snt
  c1-Ready = Ready-same here v _ c1 refl refl refl refl (
      emitted-Ready here v here_sized 50 connection_request 0 0 (at conn_req_payload)
        (requesting here v here_sized c) (omega arith)
        (Ready-same here v c (requesting here v here_sized c) refl refl refl refl ready))

  pub s1-Ready : Ready there w s1
  unfolding process_regular_receipt
  s1-Ready =
      let a = answering there w there_sized (handed p1 s) in
      Ready-same there w _ s1 refl refl refl refl (
        emitted-Ready there w there_sized 50 connection_response a.self.cst a.self.ctsr
          (at conn_resp_payload) a (omega arith)
          (Ready-same there w (handed p1 s) a refl refl refl refl at_server))

  at_client : Ready here v (handed p2 c1)
  at_client = record {
    clocked = c1-Ready.clocked;
    connected = c1-Ready.connected;
    code_shows = p2-Shows;
    buffer_size = c1-Ready.buffer_size;
  }

  pub c2-Ready : Ready here v c2
  unfolding draw_snt process_regular_receipt
  c2-Ready =
      let b = receiving_up here v here_sized (handed p2 c1) in
      Ready-same here v _ c2 refl refl refl refl (
        emitted-Ready here v here_sized 36 heartbeat b.self.cst b.self.ctsr null (stepped b)
          (omega arith)
          (Ready-same here v (handed p2 c1) (stepped b) refl refl refl refl at_client))

  at_server_again : Ready there w (handed p3 s1)
  at_server_again = record {
    clocked = s1-Ready.clocked;
    connected = s1-Ready.connected;
    code_shows = p3-Shows;
    buffer_size = s1-Ready.buffer_size;
  }

  -- The server after the client's heartbeat.
  abbrev pub s2 : Context
  s2 = update_handler (receiving_up there w there_sized (handed p3 s1))

  pub link_opens :
      c.self.handle_event ≡ closed_handler
      → c.self.role ≡ client
      → sm_handle_event here open_conn c ≡ ok c1
  link_opens stored is_client = client_opens here v here_sized c ready stored is_client

  pub link_answering :
      s.self.handle_event ≡ down_handler → sm_handle_event there recv_conn_req (handed p1 s) ≡ ok s1
  link_answering stored =
      server_answers there w there_sized (handed p1 s) at_server stored p1-version

  pub link_confirming :
      c.self.role ≡ client → sm_handle_event here recv_conn_resp (handed p2 c1) ≡ ok c2
  unfolding draw_snt
  link_confirming is_client =
      client_confirms here v here_sized (handed p2 c1) at_client refl is_client p2-version

  pub link_establishing :
      s.self.role ≡ server
      → 0 < s.self.time.timeouts.tmax
      → sm_handle_event there recv_hb (handed p3 s1) ≡ ok s2
  unfolding draw_snt process_regular_receipt
  link_establishing is_server in_time =
      server_confirms there w there_sized (handed p3 s1) at_server_again refl is_server refl
        (same_time (get_current_timestamp there s.io.calls) s.self.time.timeouts.tmax in_time)

  pub link_answers :
      s.self.handle_event ≡ down_handler → arrive there recv_conn_req (frame_of here v c1) s ≡ ok s1
  link_answers stored =
      arrive-found there here v recv_conn_req c1 s c1-InRange (omega arith) ∙ link_answering stored

  pub link_confirms :
      c.self.role ≡ client
      → s.self.snt < 2 ^ 32
      → arrive here recv_conn_resp (frame_of there w s1) c1 ≡ ok c2
  link_confirms is_client small =
      arrive-found here there w recv_conn_resp s1 c1 (s1-InRange small) (omega arith)
      ∙ link_confirming is_client

  pub link_established :
      s.self.role ≡ server
      → s.self.snt < 2 ^ 32
      → 0 < s.self.time.timeouts.tmax
      → arrive there recv_hb (frame_of here v c2) s1 ≡ ok s2
  link_established is_server small in_time =
      arrive-found there here v recv_hb c2 s1 (c2-InRange small) (omega arith)
      ∙ link_establishing is_server in_time

  -- A closed client that is opened, and a server that listens with its send sequence number below
  -- 2 ^ 32 and a Tmax above 0, both set up, reach STATE_UP by three frames that each deserialises
  -- and handles, whatever their clocks: the connection request, the response, and the client's
  -- heartbeat; each then expects the number that the other sends next.
  pub open-reaches_up :
      c.self.handle_event ≡ closed_handler
      → c.self.role ≡ client
      → s.self.handle_event ≡ down_handler
      → s.self.role ≡ server
      → s.self.snt < 2 ^ 32
      → 0 < s.self.time.timeouts.tmax
      → (c' : Context) × (s' : Context) × (c'' : Context) × (s'' : Context) × (f : Frame)
        × (g : Frame) × (h : Frame) × (sm_handle_event here open_conn c ≡ ok c')
        × (c'.io.sent ≡ f ∷ c.io.sent)
        × (arrive there recv_conn_req f s ≡ ok s')
        × (s'.io.sent ≡ g ∷ s.io.sent)
        × (arrive here recv_conn_resp g c' ≡ ok c'')
        × (c''.io.sent ≡ h ∷ c'.io.sent)
        × (arrive there recv_hb h s' ≡ ok s'')
        × (c''.self.state ≡ up)
        × (s''.self.state ≡ up)
        × (s''.self.snr ≡ u32 (c''.self.snt + 1))
        × (c''.self.snr ≡ u32 (s''.self.snt + 1))
  unfolding draw_snt process_regular_receipt
  open-reaches_up client_stored is_client server_stored is_server small in_time = (
    c1,
    s1,
    c2,
    s2,
    _,
    _,
    _,
    link_opens client_stored is_client,
    refl,
    link_answers server_stored,
    refl,
    link_confirms is_client small,
    refl,
    link_established is_server small in_time,
    refl,
    refl,
    refl,
    refl,
  )
