-- ===== src/Tests/Callbacks.antt =====
-- A witness for two sides with the callbacks of the unit tests.
use rasta_s.Prelude.{◌≡◌, refl, arith, [], ◌∷◌, ok, some, true}
use rasta_s.Sm.Types.{Context, SmRole, client, server, closed, closed_handler}
use rasta_s.Sm.Conversation.{Paired}
use rasta_s.Sm.Sessions.{Idle}
use rasta_s.SafeCom.Types.{sms_at, SafeComType}
use rasta_s.SafeCom.Impl.{element}
use rasta_s.SafeCom.Array.{entered, Located}
use rasta_s.SafeCom.Instances.{System}
use rasta_s.Callbacks.{open_both}
use rasta_s.Callbacks.Opening.{Holds}
use rasta_s.Callbacks.Handshake.{open_both-Paired}
use rasta_s.Tests.Fixtures.{bench, bench-IsSized, vtable, machine, quiet_io}
use rasta_s.Tests.Instances.{before, as_client}

abbrev object : SafeComType
object = record { vtable = vtable; config = as_client }

abbrev side : SmRole → System
side role = record before {
  rass = record (before.rass) { self = some object; initialized = true };
  memory = record {
    sms = sms_at 1;
    arrays = λ a. machine role closed closed_handler ∷ [];
    io = quiet_io;
    received = [];
  };
}

side-Located : (role : SmRole) → Located (side role).memory 1 0 (machine role closed closed_handler)
unfolding element
side-Located role = record { current = refl; stored = refl }

side-Idle :
    (role : SmRole) → Idle vtable role (entered (machine role closed closed_handler) quiet_io)
side-Idle role = record {
  steady = record {
    clocked = refl;
    connected = refl;
    buffer_size = refl;
    in_sync = refl;
    bounded = omega arith;
  };
  is_closed = refl;
  has_role = refl;
  patient = omega arith;
}

open_both-Paired_example :
    (client_open : System) × (server_open : System) × (c : Context) × (s : Context) × (open_both
        bench bench 1 0 1 0
        (side client)
        (side server)
      ≡ ok (client_open, server_open))
    × Holds client_open.memory 1 0 c
    × Holds server_open.memory 1 0 s
    × Paired vtable vtable c s
open_both-Paired_example =
    open_both-Paired bench bench vtable vtable bench-IsSized bench-IsSized 1 0 1 0 (side client)
      (side server) (machine client closed closed_handler) (machine server closed closed_handler)
      object object refl refl (side-Located client) (side-Located server) (side-Idle client)
      (side-Idle server)
