-- ===== src/Tests/Instances.antt =====
-- Witnesses and runs for the instances, on an array of two machines in zeroed memory.
use rasta_s.Prelude.{
  err, null_pointer, out_of_bounds, ℕ, Ensures, Ensures-bind, Ensures-any, arith, List, ◌>>=◌, ◌≡◌,
  refl, some, none, true, false, [], ◌∷◌, ok,
}
use rasta_s.Sm.Types.{
  iscdisp_send_spdu, fec_receive_btp, oscom_send_spdu, oscom_receive_msg, user_callback, open_conn,
  SmType, client, server, closed, down, no_handler, no_vtable, no_timestamp,
}
use rasta_s.Sm.Checks.{set_initial_values}
use rasta_s.Sm.Machine.{sm_handle_event, sm_init}
use rasta_s.SafeCom.Types.{StdRet, Receivers, SafeComConfig, Memory, sms_at, std_ok}
use rasta_s.SafeCom.Impl.{
  safe_com_receive_spdu, run_at, element, safe_com_init, init_at, init_array, connect_first,
  init_loop, init_machine, write_array,
}
use rasta_s.SafeCom.Init.{connect}
use rasta_s.SafeCom.Instances.{
  sic_init, with_memory, rass_receive_spdu, rass_open_connection, System, rass_vtable, sic_vtable,
  init_instance,
}
use rasta_s.SafeCom.Calls.{
  Side, rass, sic, Call, init, request_state, open_channel, close_channel, hand_over, send,
  performs, LeaveMachines, performs-AllUnopened,
}
use rasta_s.SafeCom.Usable.{IsUsable, Spares}
use rasta_s.SafeCom.Usage.{performs-after_calls}
use rasta_s.SafeCom.Waiting.{AllUnopened}
use rasta_s.SafeCom.Shared.{rass_open_connection-sic_init}
use rasta_s.SafeCom.Proper.{Accepts}
use rasta_s.Mock.{Printed, receive_btp, receive_msg, app_send_spdu, os_send_spdu, string_at}
use rasta_s.Mock.Receivers.{mock_receivers, mock_receivers-LeaveMachines}
use rasta_s.Program.{my_receive_btp}
use rasta_s.Tests.Fixtures.{bench, bench-IsSized, machine, quiet_io, idle_time}

abbrev blank : SmType
blank = record (machine client closed no_handler) {
  vtable = no_vtable;
  time = record idle_time { tlocal = no_timestamp };
}

abbrev pub as_client : SafeComConfig
as_client = record { role = client; max_connections = 2; sms = sms_at 1 }

abbrev as_server : SafeComConfig
as_server = record { role = server; max_connections = 1; sms = sms_at 2 }

abbrev fresh : Memory
fresh = record { sms = sms_at 0; arrays = λ a. blank ∷ blank ∷ []; io = quiet_io; received = [] }

-- The instances in zeroed memory.
abbrev pub before : System
before = record {
  rass = record { self = none; config = as_client; initialized = false };
  sic = record { self = none; config = as_server; initialized = false };
  memory = fresh;
}

abbrev after : System
after = record before {
  rass = record {
    self = some (record { vtable = rass_vtable; config = as_client });
    config = as_client;
    initialized = true;
  };
  memory =
      record (write_array 1
        (init_machine client 0 (connect rass_vtable blank) ∷ init_machine client 1 blank ∷ [])
        fresh) { sms = sms_at 1 };
}

abbrev both : System
both = record after {
  sic = record {
    self = some (record { vtable = sic_vtable; config = as_server });
    config = as_server;
    initialized = true;
  };
  memory =
      record (write_array 2 (init_machine server 0 (connect sic_vtable blank) ∷ blank ∷ [])
        (after.memory)) { sms = sms_at 2 };
}

sic_init-after : sic_init none after ≡ ok (std_ok, both)
unfolding sic_init init_instance safe_com_init init_at init_array connect_first init_loop element
sic_init-after = refl

rass_open_connection-sic_init_example :
    rass_open_connection bench 0 both
    ≡ (run_at (sms_at 2) 0 (sm_handle_event bench open_conn) both.memory >>= with_memory both)
rass_open_connection-sic_init_example =
    rass_open_connection-sic_init bench none after both 0 sic_init-after

-- The callbacks of mock/src, and those of main for a caller's.
abbrev receivers : Receivers
receivers = mock_receivers (λ k node len bytes m.
    my_receive_btp node len (some bytes) >>= λ (p : StdRet × Printed). ok (p.0, m))

receivers-LeaveMachines : LeaveMachines receivers
receivers-LeaveMachines = mock_receivers-LeaveMachines _ (λ k node len bytes m.
    Ensures-bind (λ p. Unit {0}) (λ (p : StdRet × Memory). p.1.arrays ≡ m.arrays)
      (my_receive_btp node len (some bytes)) _ (Ensures-any (my_receive_btp node len (some bytes)))
      (λ p h. refl))

-- The text "hi" with its zero byte.
abbrev text : List ℕ
text = b'h' ∷ b'i' ∷ 0 ∷ []

text-Accepts : Accepts receivers 0 2 text
unfolding mock_receivers receive_btp receive_msg my_receive_btp app_send_spdu os_send_spdu string_at
text-Accepts fec_receive_btp m = (std_ok, m, refl, refl, refl, refl)
text-Accepts oscom_receive_msg m = (std_ok, m, refl, refl, refl, refl)
text-Accepts iscdisp_send_spdu m = (std_ok, m, refl, refl, refl, refl)
text-Accepts oscom_send_spdu m = (std_ok, m, refl, refl, refl, refl)
text-Accepts (user_callback k) m = (std_ok, m, refl, refl, refl, refl)

-- Before its initialisation an instance has no callback to call.
receive-before : rass_receive_spdu receivers 0 2 (some text) before ≡ err null_pointer
unfolding rass_receive_spdu safe_com_receive_spdu
receive-before = refl

-- The default callback reads past the end of "hi" without its zero byte.
receive-after : rass_receive_spdu receivers 0 2 (some (b'h' ∷ b'i' ∷ [])) after ≡ err out_of_bounds
unfolding rass_receive_spdu safe_com_receive_spdu mock_receivers receive_btp string_at
receive-after = refl

abbrev calls : List (Side × Call)
calls =
    (rass, init none)
    ∷ (rass, open_channel 0)
    ∷ (rass, hand_over 0 2 (some text))
    ∷ (sic, init none)
    ∷ (sic, send 0 2 (some (b'h' ∷ b'i' ∷ [])))
    ∷ (rass, close_channel 0)
    ∷ []

performs-AllUnopened_example :
    Ensures (λ (s : System). AllUnopened s.memory) (performs bench receivers calls before)
performs-AllUnopened_example =
    performs-AllUnopened bench receivers calls before receivers-LeaveMachines
      (λ address. ((tt, tt), ((tt, tt), tt)))

-- Data on a connection that was opened, but has no peer yet, closes it.
abbrev usage : List (Side × Call)
usage =
    (sic, open_channel 0)
    ∷ (rass, init none)
    ∷ (sic, send 0 2 (some (b'h' ∷ b'i' ∷ [])))
    ∷ (rass, open_channel 0)
    ∷ (rass, hand_over 0 2 (some text))
    ∷ (sic, request_state 0)
    ∷ []

performs-after_calls_example :
    (s : System) × (used : SmType) × (performs bench receivers usage both ≡ ok s)
    × IsUsable sic_vtable 2 0 s used
    × (used.state ≡ down)
    × Spares 2 0 both s
unfolding element sm_init set_initial_values
performs-after_calls_example =
    performs-after_calls bench sic_vtable bench-IsSized receivers 2 0 usage both
      (init_machine server 0 (connect sic_vtable blank))
      (record {
        rass_initialised = record { marked = refl; object = _; self_is = refl };
        sic_initialised = record { marked = refl; object = _; self_is = refl };
        located = record { current = refl; stored = refl };
        connected = record { clocked = refl; connected = refl; in_sync = refl };
        buffer_size = refl;
      })
      (refl, (tt, ((refl, omega arith, omega arith), (refl, (text-Accepts, (tt, tt))))))
