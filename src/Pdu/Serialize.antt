-- ===== src/Pdu/Serialize.antt =====
-- `serialize_pdu` (safecom/src/pdu.c) against the wire format written down independently.
use rasta_s.Prelude.{
  ℕ, ◌+◌, ◌≤◌, ◌≡◌, ap, ap₂, arith, List, [], ◌++◌, append_assoc, append-nil, ok, length, take,
  drop, length-append, length-drop, length-take_le, drop-drop, le→not_ltb,
}
use rasta_s.Pdu.Types.{Pdu, Pointer, null, at, dead, safety_code_length}
use rasta_s.Pdu.Codec.{payload_length_of, serialize_fields, serialize_pdu, copy_unless_null}
use rasta_s.Pdu.Wire.{header, behind, write_uint16-drop, write_uint32-drop, copy_bytes-behind}

pub serialize_fields-behind :
    (p : Pdu) (buffer : List ℕ)
    → 28 ≤ length buffer
    → serialize_fields p buffer ≡ ok (behind (header p) (drop 28 buffer))
unfolding serialize_fields
serialize_fields-behind p b h = rw (write_uint16-drop [] b 0 p.message_length (omega arith)) (
    rw (write_uint16-drop _ b 2 p.message_type (omega arith)) (
      rw (write_uint32-drop _ b 4 p.receiver_id (omega arith)) (
        rw (write_uint32-drop _ b 8 p.sender_id (omega arith)) (
          rw (write_uint32-drop _ b 12 p.sequence_number (omega arith)) (
            rw (write_uint32-drop _ b 16 p.confirmed_sequence_number (omega arith)) (
              rw (write_uint32-drop _ b 20 p.timestamp (omega arith))
                (rw (write_uint32-drop _ b 24 p.confirmed_timestamp (omega arith)))))))))

-- What is left of the buffer behind three parts.
rest-parts :
    (front pay code buffer : List ℕ)
    → ((front ++ pay) ++ code)
        ++ drop (length code) (drop (length pay) (drop (length front) buffer))
      ≡ (front ++ (pay ++ code)) ++ drop (length (front ++ (pay ++ code))) buffer
rest-parts front pay code buffer = rw (drop-drop (length pay) (length front) buffer) (
    rw (drop-drop (length code) (length front + length pay) buffer) (
      ap₂ (λ (bs : List ℕ) (n : ℕ). bs ++ drop n buffer) (append_assoc front pay code)
        (omega (arith, length-append front (pay ++ code), length-append pay code))))

module _ (stale : List ℕ → List ℕ) where
  -- The first `n` bytes that a pointer shows; none for NULL.
  abbrev pub part : Pointer → ℕ → List ℕ
  part null n = []
  part (at bs) n = take n bs
  part (dead bs) n = take n (stale bs)

  -- A pointer is NULL or shows at least `n` bytes.
  abbrev pub Shows : Pointer → ℕ → Type 0
  Shows null n = Unit {0}
  Shows (at bs) n = n ≤ length bs
  Shows (dead bs) n = n ≤ length (stale bs)

  -- Header, payload and safety code, one behind the other.
  abbrev pub wire : Pdu → List ℕ
  wire p =
      header p
      ++ (part p.payload (payload_length_of p.message_length)
          ++ part p.safety_code safety_code_length)

  pub length-part-le : (ptr : Pointer) (n : ℕ) → Shows ptr n → length (part ptr n) ≤ n
  length-part-le null n h = omega arith
  length-part-le (at bs) n h = omega (arith, length-take_le n bs h)
  length-part-le (dead bs) n h = omega (arith, length-take_le n (stale bs) h)

  pub copy_unless_null-behind :
      (ptr : Pointer) (n : ℕ) (pre rest : List ℕ)
      → Shows ptr n
      → length (part ptr n) ≤ length rest
      → copy_unless_null stale ptr n (behind pre rest)
        ≡ ok (behind (pre ++ part ptr n) (drop (length (part ptr n)) rest))
  unfolding copy_unless_null
  copy_unless_null-behind null n pre rest h k = rw append-nil
  copy_unless_null-behind (at bs) n pre rest h k =
      rw (length-take_le n bs h)
        (copy_bytes-behind bs n 0 pre rest (omega arith) (omega (arith, length-take_le n bs h)))
  copy_unless_null-behind (dead bs) n pre rest h k = rw (length-take_le n (stale bs) h) (
      copy_bytes-behind (stale bs) n 0 pre rest (omega arith)
        (omega (arith, length-take_le n (stale bs) h)))

  -- With a size that is not below the length, and room for the wire form, serialize_pdu succeeds
  -- on every PDU whose pointers show enough bytes: the buffer begins with the wire form, which is
  -- written down independently, and the bytes behind it are as before.
  pub serialize_pdu-wire :
      (p : Pdu) (buffer : List ℕ) (buffer_size : ℕ)
      → p.message_length ≤ buffer_size
      → Shows p.payload (payload_length_of p.message_length)
      → Shows p.safety_code safety_code_length
      → length (wire p) ≤ length buffer
      → serialize_pdu stale p buffer buffer_size ≡ ok (wire p ++ drop (length (wire p)) buffer)
  unfolding serialize_pdu
  serialize_pdu-wire p buffer buffer_size sized has_payload has_code room =
      rw (le→not_ltb buffer_size p.message_length sized) (
        rw (serialize_fields-behind p buffer (omega arith)) (
          rw (copy_unless_null-behind p.payload _ (header p) (drop 28 buffer) has_payload pay_room)
            (rw
              (copy_unless_null-behind p.safety_code safety_code_length (header p ++ pay)
                (drop (length pay) (drop 28 buffer)) has_code code_room)
              (ap ok (rest-parts (header p) pay code buffer)))))
    where
      pay : List ℕ
      pay = part p.payload (payload_length_of p.message_length)

      code : List ℕ
      code = part p.safety_code safety_code_length

      pay_room : length pay ≤ length (drop 28 buffer)
      pay_room = omega (arith, length-append pay code, length-drop 28 buffer)

      code_room : length code ≤ length (drop (length pay) (drop 28 buffer))
      code_room = omega (
        arith,
        length-append pay code,
        length-drop (length pay) (drop 28 buffer),
        length-drop 28 buffer,
      )
