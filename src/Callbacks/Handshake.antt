-- ===== src/Callbacks/Handshake.antt =====
-- The handshake through the interface, with the callbacks of the unit tests
-- (test/test_rass_functionality), frame by frame.
use rasta_s.Prelude.{ℕ, ◌≡◌, refl, ap, arith, some, ok, ◌∙◌}
use rasta_s.Platform.{Platform, IsSized}
use rasta_s.Sm.Types.{
  Context, SmType, client, server, recv_conn_req, recv_conn_resp, recv_hb, SafeComVtable, Io,
}
use rasta_s.Sm.Emit.{frame_of}
use rasta_s.Sm.Arrive.{newest, found, deserialize_pdu-found}
use rasta_s.Sm.Link.{
  c1, s1, c2, s2, c1-InRange, s1-InRange, c2-InRange, link_opens, link_answering, link_confirming,
  link_establishing,
}
use rasta_s.Sm.Conversation.{Paired}
use rasta_s.Sm.Connect.{connected-Paired}
use rasta_s.Sm.Sessions.{Idle, listens}
use rasta_s.SafeCom.Types.{SafeComType}
use rasta_s.SafeCom.Array.{entered, Located}
use rasta_s.SafeCom.Instances.{Instance, System}
use rasta_s.Callbacks.{
  open_both, server_receive_spdu, client_receive_spdu, server_event, client_event,
}
use rasta_s.Callbacks.Opening.{Holds, receives-Holds, open-Holds}

module _ (here there : Platform) (v w : SafeComVtable) (sized : IsSized here)
    (there_sized : IsSized there) (address i address' j : ℕ) where
  -- Through the interface on both sides, with the callbacks of the unit tests: a client and a
  -- server in STATE_CLOSED, set up, in step and in range, with send buffers of 100 bytes and a
  -- Tmax above 0, each behind a Rass instance that is initialised, call Rass_OpenConnection, and
  -- Rass_ReceiveSpdu is called with the connection request at the server, the response at the
  -- client and the heartbeat at the server. Every call returns, and the two machines are in
  -- STATE_UP then, each expects the number that the other sends next, and they agree on the
  -- confirmed timestamp.
  pub open_both-Paired :
      (client_side server_side : System) (machine machine' : SmType) (object object' : SafeComType)
      → client_side.rass.self ≡ some object
      → server_side.rass.self ≡ some object'
      → Located client_side.memory address i machine
      → Located server_side.memory address' j machine'
      → Idle v client (entered machine client_side.memory.io)
      → Idle w server (entered machine' server_side.memory.io)
      → (client_open : System) × (server_open : System) × (c : Context) × (s : Context) × (open_both
            here there address i address' j client_side server_side
          ≡ ok (client_open, server_open))
        × Holds client_open.memory address i c
        × Holds server_open.memory address' j s
        × Paired v w c s
  unfolding open_both newest server_receive_spdu client_receive_spdu
  open_both-Paired client_side server_side machine machine' object object' self_is self_is' at_i
        at_j idle idle' =
      let c = entered machine client_side.memory.io in
      let (s, s_runs, p, _) =
        listens here there v w sized there_sized c (entered machine' server_side.memory.io) idle
          idle' in
      let small = p.server_bounded.self_bounded.snt_range in
      let cr = p.client_ready in
      let sr = p.server_ready in
      let a = c1 here there v w sized there_sized c s cr sr in
      let b = s1 here there v w sized there_sized c s cr sr in
      let d = c2 here there v w sized there_sized c s cr sr in
      let (server1, e1, h1, same1) =
        open-Holds there address' j (entered machine' server_side.memory.io) s server_side
          (record { located = at_j; io_is = refl }) refl s_runs in
      let (client1, e2, g1, same2) =
        open-Holds here address i c a client_side (record { located = at_i; io_is = refl }) refl
          (link_opens here there v w sized there_sized c s cr sr p.client_stored p.is_client) in
      let (server2, e3, h2, same3) =
        receives-Holds there address' j s b (server_receive_spdu there address') server_event
          recv_conn_req (found here a.pdu) (frame_of here v a) server1 object' (λ k n bs m. refl)
          (ap Instance.self same1 ∙ self_is') h1
          (deserialize_pdu-found here v a (c1-InRange here there v w sized there_sized c s cr sr)
            (omega arith))
          refl (link_answering here there v w sized there_sized c s cr sr p.server_stored) in
      let (client2, e4, g2, _) =
        receives-Holds here address i a d (client_receive_spdu here address) client_event
          recv_conn_resp (found there b.pdu) (frame_of there w b) client1 object (λ k n bs m. refl)
          (ap Instance.self same2 ∙ self_is) g1
          (deserialize_pdu-found there w b
            (s1-InRange here there v w sized there_sized c s cr sr small) (omega arith))
          refl (link_confirming here there v w sized there_sized c s cr sr p.is_client) in
      let (server3, e5, h3, _) =
        receives-Holds there address' j b (s2 here there v w sized there_sized c s cr sr)
          (server_receive_spdu there address') server_event recv_hb (found here d.pdu)
          (frame_of here v d) server2 object' (λ k n bs m. refl)
          (ap Instance.self (same3 ∙ same1) ∙ self_is') h2
          (deserialize_pdu-found here v d
            (c2-InRange here there v w sized there_sized c s cr sr small) (omega arith))
          refl
          (link_establishing here there v w sized there_sized c s cr sr p.is_server
            p.server_patient) in
      (
        client2,
        server3,
        d,
        s2 here there v w sized there_sized c s cr sr,
        rw e1 (
            rw e2 (
              rw (ap (λ (io : Io). newest io.sent) g1.io_is) (
                rw e3 (
                  rw (ap (λ (io : Io). newest io.sent) h2.io_is)
                    (rw e4 (rw (ap (λ (io : Io). newest io.sent) g2.io_is) (rw e5 refl))))))),
        g2,
        h3,
        connected-Paired here there v w sized there_sized c s p,
      )
