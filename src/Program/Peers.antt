-- ===== src/Program/Peers.antt =====
-- Two machines as the example program (src/main.c) initialises them, one as client and one as
-- server, that are joined by a link.
use rasta_s.Prelude.{◌≡◌, refl, arith, List, ok, length}
use rasta_s.Platform.{Platform, IsSized}
use rasta_s.Sm.Types.{Context, SmRole, client, server, closed, Io}
use rasta_s.Sm.Checks.{set_initial_values}
use rasta_s.Sm.Machine.{sm_init}
use rasta_s.Sm.Sessions.{Visit, visits, EachVisitShort, all_payloads, Idle, visits-payloads}
use rasta_s.SafeCom.Array.{entered}
use rasta_s.Program.{ready_machine, main_vtable}

pub ready_machine-Idle :
    (role : SmRole) (io : Io)
    → length io.buff_to_send ≡ 100
    → Idle main_vtable role (entered (ready_machine role) io)
unfolding sm_init set_initial_values
ready_machine-Idle role io buffer = record {
  steady = record {
    clocked = refl;
    connected = refl;
    buffer_size = buffer;
    in_sync = refl;
    bounded = omega arith;
  };
  is_closed = refl;
  has_role = refl;
  patient = omega arith;
}

-- A client and a server as main initialises them, with their send buffers of 100 bytes and any
-- clocks, digests and contents of dead memory of the right sizes, on a link that loses nothing:
-- any number of connections are opened by the handshake, used for heartbeats and data of at most
-- 22 bytes in any order, and ended by either side, one after the other; every call returns, the
-- payloads heard are those said, in order, and both sides end in STATE_CLOSED.
pub visits-ready_machine :
    (here there : Platform) (xs : List Visit) (io io' : Io)
    → IsSized here
    → IsSized there
    → length io.buff_to_send ≡ 100
    → length io'.buff_to_send ≡ 100
    → EachVisitShort xs
    → (c : Context) × (s : Context) × (visits here there xs
          (entered (ready_machine client) io)
          (entered (ready_machine server) io')
        ≡ ok (c, s, all_payloads xs))
      × (c.self.state ≡ closed)
      × (s.self.state ≡ closed)
visits-ready_machine here there xs io io' sized there_sized buffer buffer' short =
    let (c, s, runs, i, j) =
      visits-payloads here there main_vtable main_vtable sized there_sized xs
        (entered (ready_machine client) io) (entered (ready_machine server) io')
        (ready_machine-Idle client io buffer) (ready_machine-Idle server io' buffer') short in
    (c, s, runs, i.is_closed, j.is_closed)
