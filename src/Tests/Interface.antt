-- ===== src/Tests/Interface.antt =====
-- Witnesses and runs of the module's interface, on an array of two machines.
use rasta_s.Prelude.{◌≡◌, ◌∷◌, [], refl, arith, ok, err, null_pointer, out_of_bounds, replicate}
use rasta_s.Pdu.Types.{connection_request, at}
use rasta_s.Pdu.Build.{conn_req_payload}
use rasta_s.Sm.Types.{
  SmType, Context, client, closed, start, closed_handler, up, up_handler, no_handler, no_vtable,
  no_timestamp,
}
use rasta_s.Sm.Table.{sends}
use rasta_s.Sm.Runs.{Step}
use rasta_s.SafeCom.Types.{SafeComType, Memory, sms_at, std_ok}
use rasta_s.SafeCom.Impl.{
  element, safe_com_init, safe_com_open_connection, safe_com_close_connection, safe_com_send_data,
}
use rasta_s.SafeCom.Array.{Located, Ran, entered}
use rasta_s.SafeCom.SendData.{Connected, data_frame}
use rasta_s.SafeCom.Interface.{
  safe_com_open_connection-Step, safe_com_send_data-sends, safe_com_send_data-overflow,
  safe_com_open_connection-no_clock,
}
use rasta_s.SafeCom.Close.{farewell, safe_com_close_connection-Step}
use rasta_s.Tests.Fixtures.{bench, bench-IsSized, vtable, machine, quiet_io, idle_time}

-- A machine in zeroed memory.
abbrev blank : SmType
blank = record (machine client closed no_handler) {
  vtable = no_vtable;
  time = record idle_time { tlocal = no_timestamp };
}

abbrev memory_of : SmType → Memory
memory_of s = record { sms = sms_at 1; arrays = λ a. s ∷ blank ∷ []; io = quiet_io; received = [] }

abbrev configuration : SafeComType
configuration = record {
  vtable = vtable;
  config = record { role = client; max_connections = 2; sms = sms_at 1 };
}

abbrev closed_machine : SmType
closed_machine = machine client closed closed_handler

abbrev up_machine : SmType
up_machine = machine client up up_handler

closed_machine-Located : Located (memory_of closed_machine) 1 0 closed_machine
unfolding element
closed_machine-Located = record { current = refl; stored = refl }

up_machine-Located : Located (memory_of up_machine) 1 0 up_machine
unfolding element
up_machine-Located = record { current = refl; stored = refl }

closed_machine-Connected : Connected vtable closed_machine
closed_machine-Connected = record { clocked = refl; connected = refl; in_sync = refl }

up_machine-Connected : Connected vtable up_machine
up_machine-Connected = record { clocked = refl; connected = refl; in_sync = refl }

safe_com_open_connection-Step_example :
    (m' : Memory) × (c' : Context) × (safe_com_open_connection bench 0 (memory_of closed_machine)
      ≡ ok (std_ok, m'))
    × Ran (memory_of closed_machine) 1 0 c' m'
    × Step bench vtable
        (entered closed_machine quiet_io)
        start
        (sends connection_request (at conn_req_payload))
        c'
safe_com_open_connection-Step_example =
    safe_com_open_connection-Step bench vtable bench-IsSized (memory_of closed_machine) 1 0
      closed_machine closed_machine-Located closed_machine-Connected refl refl

safe_com_send_data-sends_example :
    (m' : Memory) × (c' : Context) × (safe_com_send_data bench 0 2
        (b'h' ∷ b'i' ∷ [])
        (memory_of up_machine)
      ≡ ok (std_ok, m'))
    × Ran (memory_of up_machine) 1 0 c' m'
    × (c'.self.state ≡ up)
    × (m'.io.sent
        ≡ data_frame bench vtable bench-IsSized up_machine quiet_io 2 (b'h' ∷ b'i' ∷ []) ∷ [])
safe_com_send_data-sends_example =
    safe_com_send_data-sends bench vtable bench-IsSized (memory_of up_machine) 1 0 up_machine
      up_machine-Located 2 (b'h' ∷ b'i' ∷ []) up_machine-Connected tt refl (omega arith)
      (omega arith)

safe_com_send_data-overflow_example :
    safe_com_send_data bench 0 23 (replicate 23 0) (memory_of up_machine) ≡ err out_of_bounds
safe_com_send_data-overflow_example =
    safe_com_send_data-overflow bench vtable bench-IsSized (memory_of up_machine) 1 0 up_machine
      up_machine-Located 23 (replicate 23 0) up_machine-Connected (omega arith) (omega arith)

blank-element : element (blank ∷ blank ∷ []) 1 ≡ ok blank
unfolding element
blank-element = refl

safe_com_open_connection-no_clock_example :
    (m' : Memory) × (safe_com_init configuration (memory_of blank) ≡ ok (std_ok, configuration, m'))
    × (safe_com_open_connection bench 1 m' ≡ err null_pointer)
safe_com_open_connection-no_clock_example =
    safe_com_open_connection-no_clock bench configuration 1 (memory_of blank) 0 blank refl refl
      (omega arith) (omega arith) blank-element refl

safe_com_close_connection-Step_example :
    (m' : Memory) × (c' : Context) × (safe_com_close_connection bench 0 (memory_of up_machine)
      ≡ ok (std_ok, m'))
    × Ran (memory_of up_machine) 1 0 c' m'
    × Step bench vtable (entered up_machine quiet_io) closed (farewell up) c'
safe_com_close_connection-Step_example =
    safe_com_close_connection-Step bench vtable bench-IsSized (memory_of up_machine) 1 0 up_machine
      up_machine-Located up_machine-Connected refl
