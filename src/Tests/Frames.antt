-- ===== src/Tests/Frames.antt =====
-- Witnesses for received frames and for the parts around the protocol.
use rasta_s.Prelude.{
  ℕ, ◌≡◌, ◌≤◌, ◌↔◌, refl, arith, List, [], ◌∷◌, ok, err, out_of_bounds, some, take, drop, replicate,
  ◌++◌,
}
use rasta_s.Pdu.Types.{Pdu, zero_pdu}
use rasta_s.Pdu.Codec.{serialize_pdu, deserialize_pdu}
use rasta_s.Pdu.Bytes.{read_uint16, read_uint32, load}
use rasta_s.Pdu.Serialize.{wire}
use rasta_s.Pdu.RoundTrip.{received}
use rasta_s.Pdu.DataPayload.{data_payload, data_payload_iff}
use rasta_s.Pdu.Total.{Deserialized, deserialize_pdu-Deserialized, serialize_pdu-deserialize_pdu}
use rasta_s.Sm.Types.{server}
use rasta_s.Mock.{receive_btp, NoZero, receive_btp-over_iff}
use rasta_s.Common.Log.{
  LogLevel, log_debug, log_warning, log_error, log_all, set_loglevel_filter, initial_log, at_least,
  log_all-at_least,
}
use rasta_s.Program.{role_of, server_argument, role_of-server_iff}
use rasta_s.Tests.Fixtures.{bench, hello}

abbrev frame_of_hello : List ℕ
frame_of_hello = wire bench.stale hello

deserialize_pdu-Deserialized_example :
    (p : Pdu) × (deserialize_pdu frame_of_hello 38 zero_pdu ≡ ok p)
    × Deserialized frame_of_hello 38 zero_pdu p
deserialize_pdu-Deserialized_example =
    deserialize_pdu-Deserialized frame_of_hello 38 zero_pdu (omega arith) (omega arith)

frame_of_hello-read :
    deserialize_pdu frame_of_hello 38 zero_pdu ≡ ok (received hello frame_of_hello)
unfolding deserialize_pdu read_uint16 read_uint32 load
frame_of_hello-read = refl

serialize_pdu-deserialize_pdu_example :
    serialize_pdu bench.stale (received hello frame_of_hello) (replicate 60 0) 38
    ≡ ok (take 38 frame_of_hello ++ drop 38 (replicate 60 0))
serialize_pdu-deserialize_pdu_example =
    serialize_pdu-deserialize_pdu bench.stale frame_of_hello 38 zero_pdu
      (received hello frame_of_hello) (replicate 60 0) (omega arith) (omega arith)
      frame_of_hello-read (omega arith) (omega arith) (omega arith) (omega arith)

receive_btp-over_iff_example :
    (receive_btp 1 2 (some (b'h' ∷ b'i' ∷ [])) ≡ err out_of_bounds) ↔ NoZero (b'h' ∷ b'i' ∷ [])
receive_btp-over_iff_example = receive_btp-over_iff 1 2 (b'h' ∷ b'i' ∷ [])

abbrev lines : List (LogLevel × List ℕ)
lines = (log_debug, b'a' ∷ []) ∷ (log_error, b'b' ∷ []) ∷ (log_warning, b'c' ∷ []) ∷ []

log_all-at_least_example :
    (log_all lines (set_loglevel_filter log_warning initial_log)).written
    ≡ at_least log_warning (log_all lines initial_log).written
log_all-at_least_example = log_all-at_least log_warning lines

role_of-server_iff_example :
    (role_of ((b'x' ∷ []) ∷ server_argument ∷ []) ≡ server)
    ↔ ((name : List ℕ) × ((b'x' ∷ []) ∷ server_argument ∷ [] ≡ name ∷ server_argument ∷ []))
role_of-server_iff_example = role_of-server_iff ((b'x' ∷ []) ∷ server_argument ∷ [])

data_payload_iff_example :
    (data_payload 2 (b'h' ∷ b'i' ∷ []) (replicate 4 0)
      ≡ ok (take 2 (b'h' ∷ b'i' ∷ []) ++ drop 2 (replicate 4 0)))
    ↔ (2 ≤ 4)
data_payload_iff_example = data_payload_iff 2 (b'h' ∷ b'i' ∷ []) (replicate 4 0) (omega arith) refl
