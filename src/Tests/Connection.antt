-- ===== src/Tests/Connection.antt =====
-- Witnesses and runs of the state machine.
use rasta_s.Prelude.{ℕ, ◌+◌, ◌<◌, ◌≡◌, ◌↔◌, refl, arith, true, [], ◌∷◌, ok}
use rasta_s.Pdu.Types.{at}
use rasta_s.Pdu.Bytes.{u32}
use rasta_s.Sm.Types.{Context, server, up, recv_data, up_handler, start, start_handler}
use rasta_s.Sm.Checks.{check_version, check_seq_confirmed_timestamp}
use rasta_s.Sm.Machine.{sm_handle_event}
use rasta_s.Sm.Table.{silent}
use rasta_s.Sm.Emit.{Ready}
use rasta_s.Sm.Runs.{Step}
use rasta_s.Sm.Observe.{check_version-has_version, check_seq_confirmed_timestamp_iff}
use rasta_s.Sm.Refine.Machine.{InSync, sm_handle_event-refines}
use rasta_s.Tests.Fixtures.{bench, bench-IsSized, vtable, hello, machine, context}

receiving : Context
receiving = context server up up_handler hello

receiving-Ready : Ready bench vtable receiving
unfolding receiving
receiving-Ready = record {
  clocked = refl;
  connected = refl;
  code_shows = omega arith;
  buffer_size = refl;
}

sm_handle_event-refines_example :
    (c' : Context) × (sm_handle_event bench recv_data receiving ≡ ok c')
    × Step bench vtable receiving up silent c'
    × InSync c'
unfolding receiving
sm_handle_event-refines_example =
    sm_handle_event-refines bench vtable bench-IsSized recv_data receiving receiving-Ready refl tt

check_version-has_version_example : check_version bench (at (48 ∷ 51 ∷ 48 ∷ 49 ∷ [])) ≡ ok true
check_version-has_version_example =
    check_version-has_version bench (at (48 ∷ 51 ∷ 48 ∷ 49 ∷ [])) (omega arith)

check_seq_confirmed_timestamp_iff_example :
    (check_seq_confirmed_timestamp (machine server start start_handler) hello ≡ true)
    ↔ ((age : ℕ) × (age < 30) × (◌≡◌ {A = ℕ} 3 (u32 (2 + age))))
check_seq_confirmed_timestamp_iff_example =
    check_seq_confirmed_timestamp_iff (machine server start start_handler) hello (omega arith)
      (omega arith) (omega arith)
