-- ===== src/Sm/Arrive.antt =====
-- A frame of the peer, deserialised and handled (safecom/src/pdu.c and safecom/src/sm.c).
use rasta_s.Prelude.{
  ℕ, ◌+◌, ◌-◌, ◌≤◌, ◌<◌, ◌^◌, ◌≡◌, arith, true, List, ◌++◌, Result, ok, err, null_pointer, [], ◌∷◌,
  ◌>>=◌, length, lt→ltb, ltb, take, length-take_le,
}
use rasta_s.Platform.{Platform, IsSized}
use rasta_s.TimeMon.{get_current_timestamp}
use rasta_s.Pdu.Types.{Pdu, zero_pdu, pdu_fixed_fields_length}
use rasta_s.Pdu.Bytes.{u32}
use rasta_s.Pdu.Codec.{deserialize_pdu, payload_length_of}
use rasta_s.Pdu.Serialize.{wire, part}
use rasta_s.Pdu.RoundTrip.{InRange, received, deserialize_pdu-header}
use rasta_s.Sm.Types.{Context, Event, Frame, SafeComVtable}
use rasta_s.Sm.Checks.{snt_rand_value}
use rasta_s.Sm.Machine.{sm_handle_event}
use rasta_s.Sm.Emit.{frame_of}
use rasta_s.Sm.Session.{handed}

-- A frame arrives: it is deserialised, and its event is handled with the PDU found.
unfoldable pub arrive : Platform → Event → Frame → Context → Result Context
arrive plat e f c =
    deserialize_pdu f.bytes f.spdu_len zero_pdu >>= λ p. sm_handle_event plat e (handed p c)

-- The newest frame.
unfoldable pub newest : List Frame → Result Frame
newest [] = err null_pointer
newest (f ∷ fs) = ok f

-- What the receiver of a PDU works with.
abbrev pub found : Platform → Pdu → Pdu
found plat p = received p (wire plat.stale p)

pub get_current_timestamp-lt : (plat : Platform) (n : ℕ) → get_current_timestamp plat n < 2 ^ 32
unfolding get_current_timestamp
get_current_timestamp-lt plat n = omega arith

pub snt_rand_value-lt : (seed : ℕ) → snt_rand_value seed < 2 ^ 32
unfolding snt_rand_value
snt_rand_value-lt seed = omega arith

pub deserialize_pdu-found :
    (sender_plat : Platform) (v : SafeComVtable) (sender : Context)
    → InRange sender.pdu
    → pdu_fixed_fields_length ≤ sender.pdu.message_length
    → let f = frame_of sender_plat v sender in
      deserialize_pdu f.bytes f.spdu_len zero_pdu ≡ ok (found sender_plat sender.pdu)
deserialize_pdu-found sender_plat v sender r fixed =
    deserialize_pdu-header sender.pdu zero_pdu
      (part sender_plat.stale sender.pdu.payload (payload_length_of sender.pdu.message_length)
        ++ part sender_plat.stale sender.pdu.safety_code 8)
      sender.pdu.message_length r fixed (omega arith)

pub arrive-found :
    (plat sender_plat : Platform) (v : SafeComVtable) (e : Event) (sender c : Context)
    → InRange sender.pdu
    → pdu_fixed_fields_length ≤ sender.pdu.message_length
    → arrive plat e (frame_of sender_plat v sender) c
      ≡ sm_handle_event plat e (handed (found sender_plat sender.pdu) c)
unfolding arrive
arrive-found plat sender_plat v e sender c r fixed =
    rw (deserialize_pdu-found sender_plat v sender r fixed)

pub same_time : (x tmax : ℕ) → 0 < tmax → ltb (u32 (x + 2 ^ 32 - x)) tmax ≡ true
same_time x tmax h = lt→ltb (u32 (x + 2 ^ 32 - x)) tmax (omega arith)

pub code-shows :
    (plat : Platform) (m : List ℕ) → IsSized plat → 8 ≤ length (take 8 (plat.stale (plat.md4 m)))
code-shows plat m sized =
    let enough : 8 ≤ length (plat.stale (plat.md4 m)) =
      omega (arith, sized.stale_length (plat.md4 m), sized.digest_length m) in
    omega (arith, length-take_le 8 (plat.stale (plat.md4 m)) enough)
