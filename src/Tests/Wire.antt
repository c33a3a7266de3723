-- ===== src/Tests/Wire.antt =====
-- Witnesses and runs of the wire format.
use rasta_s.Prelude.{ℕ, ◌≡◌, arith, List, ◌++◌, ok, drop, replicate}
use rasta_s.Pdu.Types.{Pdu, zero_pdu}
use rasta_s.Pdu.Codec.{serialize_pdu, deserialize_pdu}
use rasta_s.Pdu.Serialize.{wire, serialize_pdu-wire}
use rasta_s.Pdu.RoundTrip.{SamePdu, deserialize_pdu-serialize_pdu}
use rasta_s.Pdu.Build.{calculate_md4}
use rasta_s.Pdu.Seal.{seal, calculate_md4-seal}
use rasta_s.Tests.Fixtures.{bench, bench-IsSized, hello}

serialize_pdu-wire_example :
    serialize_pdu bench.stale hello (replicate 60 0) 38
    ≡ ok (wire bench.stale hello ++ drop 38 (replicate 60 0))
serialize_pdu-wire_example =
    serialize_pdu-wire bench.stale hello (replicate 60 0) 38 (omega arith) (omega arith)
      (omega arith) (omega arith)

deserialize_pdu-serialize_pdu_example :
    (sent : List ℕ) × (back : Pdu) × (serialize_pdu bench.stale hello (replicate 60 0) 38 ≡ ok sent)
    × (deserialize_pdu sent 38 zero_pdu ≡ ok back)
    × SamePdu bench.stale hello back
deserialize_pdu-serialize_pdu_example =
    deserialize_pdu-serialize_pdu bench.stale hello zero_pdu (replicate 60 0) (omega arith)
      (omega arith) (omega arith)

calculate_md4-seal_example : calculate_md4 bench hello ≡ ok (seal bench hello)
calculate_md4-seal_example = calculate_md4-seal bench hello bench-IsSized (omega arith)
