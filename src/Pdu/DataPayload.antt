-- ===== src/Pdu/DataPayload.antt =====
-- `DataPayload` of safecom/src/pdu.c, a function that nothing calls.
use rasta_s.Prelude.{
  ℕ, ◌≤◌, ◌≡◌, ◌↔◌, refl, arith, List, [], ◌++◌, Result, ok, err, out_of_bounds, ◌>>=◌, length,
  take, drop, ltb, Bool-cases, inl, inr, ltb→lt,
}
use rasta_s.Pdu.Types.{disc_req_payload_length}
use rasta_s.Pdu.Bytes.{u8, copy_bytes}
use rasta_s.Pdu.Wire.{copy_bytes-behind}
use rasta_s.Pdu.Overflow.{copy_bytes-overflow}

-- The static buffer after the loop; `msgSize` is a `uint8_t`.
unfoldable pub data_payload : ℕ → List ℕ → List ℕ → Result (List ℕ)
data_payload msg_size msg_data buffer = do
  copied ← copy_bytes msg_data (u8 msg_size) 0 (record { buffer = buffer; offset = 0 })
  ok copied.buffer

fits :
    (n : ℕ) (bytes buffer : List ℕ)
    → u8 n ≤ length bytes
    → u8 n ≤ length buffer
    → data_payload n bytes buffer ≡ ok (take (u8 n) bytes ++ drop (u8 n) buffer)
unfolding data_payload
fits n bytes buffer enough room =
    rw (copy_bytes-behind bytes (u8 n) 0 [] buffer (omega arith) room) refl

fits-le :
    (n : ℕ) (bytes buffer : List ℕ)
    → u8 n ≤ length bytes
    → data_payload n bytes buffer ≡ ok (take (u8 n) bytes ++ drop (u8 n) buffer)
    → u8 n ≤ length buffer
unfolding data_payload
fits-le n bytes buffer enough e = elim (Bool-cases (ltb (length buffer) (u8 n))) [
  | inl over ↦
      let fails =
        copy_bytes-overflow bytes (u8 n) 0 (record { buffer = buffer; offset = 0 }) (omega arith)
          (omega arith) (omega (arith, ltb→lt (length buffer) (u8 n) over)) in
      let wrong : data_payload n bytes buffer ≡ err out_of_bounds = rw fails refl in cc
  | inr room ↦ ground arith
]

-- For a message that has the bytes of its length modulo 256, DataPayload fills its buffer of 4
-- bytes with exactly those bytes, and leaves the rest, if and only if that length is at most 4.
pub data_payload_iff :
    (n : ℕ) (bytes buffer : List ℕ)
    → u8 n ≤ length bytes
    → length buffer ≡ disc_req_payload_length
    → (data_payload n bytes buffer ≡ ok (take (u8 n) bytes ++ drop (u8 n) buffer)) ↔ (u8 n ≤ 4)
data_payload_iff n bytes buffer enough sized = (
  (λ e. omega (arith, fits-le n bytes buffer enough e)),
  (λ h. fits n bytes buffer enough (omega arith)),
)
