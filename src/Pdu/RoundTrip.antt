-- ===== src/Pdu/RoundTrip.antt =====
-- `deserialize_pdu` after `serialize_pdu` (safecom/src/pdu.c).
use rasta_s.Prelude.{
  ℕ, ◌+◌, ◌*◌, ◌/◌, ◌^◌, ◌≤◌, ◌<◌, ◌≡◌, refl, ap, ◌∙◌, arith, bit_or, List, ◌++◌, ok, length, take,
  drop, length-append, length-take_le, take-drop-middle, append_assoc, le→not_ltb, ltb,
  if◌then◌else◌,
}
use rasta_s.Prelude.Bits.{bit_or-disjoint}
use rasta_s.Pdu.Types.{Pdu, Pointer, null, at, dead, safety_code_length, pdu_fixed_fields_length}
use rasta_s.Pdu.Bytes.{u8, u16, u32, load, read_uint16, read_uint32}
use rasta_s.Pdu.Codec.{payload_length_of, serialize_pdu, deserialize_pdu}
use rasta_s.Pdu.Wire.{header}
use rasta_s.Pdu.Serialize.{part, Shows, wire, serialize_pdu-wire}

-- The fields of a `PDU_S` as `deserialize_pdu` can produce them.
pub record InRange (p : Pdu) : Type 0 where
  pub length_range : p.message_length < 2 ^ 16
  pub type_range : p.message_type < 2 ^ 16
  pub receiver_range : p.receiver_id < 2 ^ 32
  pub sender_range : p.sender_id < 2 ^ 32
  pub sequence_range : p.sequence_number < 2 ^ 32
  pub confirmed_sequence_range : p.confirmed_sequence_number < 2 ^ 32
  pub timestamp_range : p.timestamp < 2 ^ 32
  pub confirmed_timestamp_range : p.confirmed_timestamp < 2 ^ 32

join16 : (v : ℕ) → v < 2 ^ 16 → bit_or (u16 (u8 (v / 2 ^ 8) * 2 ^ 8)) (u16 (u8 v)) ≡ v
join16 v h = omega (
  arith,
  bit_or-disjoint 8 (u16 (u8 (v / 2 ^ 8) * 2 ^ 8)) (u16 (u8 v)) (omega arith) (omega arith),
)

join32 :
    (v : ℕ)
    → v < 2 ^ 32
    → bit_or
        (bit_or
          (bit_or (u32 (u8 (v / 2 ^ 24) * 2 ^ 24)) (u32 (u8 (v / 2 ^ 16) * 2 ^ 16)))
          (u32 (u8 (v / 2 ^ 8) * 2 ^ 8)))
        (u32 (u8 v))
      ≡ v
join32 v h =
    rw
      (bit_or-disjoint 24 (u32 (u8 (v / 2 ^ 24) * 2 ^ 24)) (u32 (u8 (v / 2 ^ 16) * 2 ^ 16))
        (omega arith) (omega arith))
      (rw
        (bit_or-disjoint 16 (u32 (u8 (v / 2 ^ 24) * 2 ^ 24) + u32 (u8 (v / 2 ^ 16) * 2 ^ 16))
          (u32 (u8 (v / 2 ^ 8) * 2 ^ 8)) (omega arith) (omega arith))
        (rw
          (bit_or-disjoint 8
            (u32 (u8 (v / 2 ^ 24) * 2 ^ 24)
              + u32 (u8 (v / 2 ^ 16) * 2 ^ 16)
              + u32 (u8 (v / 2 ^ 8) * 2 ^ 8))
            (u32 (u8 v)) (omega arith) (omega arith))
          (omega arith)))

-- The PDU that points into a received buffer.
abbrev pub received : Pdu → List ℕ → Pdu
received p buffer = record p {
  payload = at (drop 28 buffer);
  safety_code = at (drop (28 + payload_length_of p.message_length) buffer);
}

-- A PDU with the fields of another and its own pointers.
abbrev pub with_fields : Pdu → Pdu → Pdu
with_fields p q = record p { payload = q.payload; safety_code = q.safety_code }

-- The fields are read whenever the size given holds them; the pointers are set if it holds the
-- length read too.
pub deserialize_pdu-fields :
    (p q : Pdu) (rest : List ℕ) (size : ℕ)
    → InRange p
    → pdu_fixed_fields_length ≤ size
    → deserialize_pdu (header p ++ rest) size q
      ≡ ok (if ltb size p.message_length then with_fields p q else received p (header p ++ rest))
unfolding deserialize_pdu read_uint16 read_uint32 load
deserialize_pdu-fields p q rest size r fixed = rw (le→not_ltb size pdu_fixed_fields_length fixed) (
    rw (join16 p.message_length r.length_range) (
      rw (join16 p.message_type r.type_range) (
        rw (join32 p.receiver_id r.receiver_range) (
          rw (join32 p.sender_id r.sender_range) (
            rw (join32 p.sequence_number r.sequence_range) (
              rw (join32 p.confirmed_sequence_number r.confirmed_sequence_range) (
                rw (join32 p.timestamp r.timestamp_range)
                  (rw (join32 p.confirmed_timestamp r.confirmed_timestamp_range) refl))))))))

pub deserialize_pdu-header :
    (p q : Pdu) (rest : List ℕ) (size : ℕ)
    → InRange p
    → pdu_fixed_fields_length ≤ size
    → p.message_length ≤ size
    → deserialize_pdu (header p ++ rest) size q ≡ ok (received p (header p ++ rest))
deserialize_pdu-header p q rest size r fixed sized =
    deserialize_pdu-fields p q rest size r fixed ∙ rw (le→not_ltb size p.message_length sized)

module _ (stale : List ℕ → List ℕ) where
  -- A pointer shows `n` bytes, and is NULL only if there are none to show.
  abbrev pub Full : Pointer → ℕ → Type 0
  Full null n = n ≡ 0
  Full (at bs) n = n ≤ length bs
  Full (dead bs) n = n ≤ length (stale bs)

  pub Full-Shows : (ptr : Pointer) (n : ℕ) → Full ptr n → Shows stale ptr n
  Full-Shows null n h = tt
  Full-Shows (at bs) n h = h
  Full-Shows (dead bs) n h = h

  pub length-part : (ptr : Pointer) (n : ℕ) → Full ptr n → length (part stale ptr n) ≡ n
  length-part null n h = omega arith
  length-part (at bs) n h = length-take_le n bs h
  length-part (dead bs) n h = length-take_le n (stale bs) h

  -- A PDU that can go on the wire: its length counts the fixed fields and its payload, and both
  -- pointers show all the bytes that the length announces.
  pub record IsComplete (p : Pdu) : Type 0 where
    pub fixed : pdu_fixed_fields_length ≤ p.message_length
    pub short : p.message_length < 2 ^ 16
    pub payload_full : Full p.payload (payload_length_of p.message_length)
    pub code_full : Full p.safety_code safety_code_length

  pub length-wire : (p : Pdu) → IsComplete p → length (wire stale p) ≡ p.message_length
  length-wire p c = omega (
    arith,
    length-append (part stale p.payload (payload_length_of p.message_length))
        (part stale p.safety_code 8),
    length-part p.payload (payload_length_of p.message_length) c.payload_full,
    length-part p.safety_code 8 c.code_full,
  )

  -- A complete PDU is written whole, and nothing behind its bytes is touched.
  pub serialize_pdu-IsComplete :
      (p : Pdu) (buffer : List ℕ)
      → IsComplete p
      → p.message_length ≤ length buffer
      → serialize_pdu stale p buffer p.message_length
        ≡ ok (wire stale p ++ drop p.message_length buffer)
  serialize_pdu-IsComplete p buffer c room =
      serialize_pdu-wire stale p buffer p.message_length (omega arith)
        (Full-Shows p.payload _ c.payload_full) (Full-Shows p.safety_code 8 c.code_full)
        (omega (arith, length-wire p c))
      ∙ ap (λ (n : ℕ). ok (wire stale p ++ drop n buffer)) (length-wire p c)

  -- What a receiver finds after a complete PDU was serialised and deserialised.
  abbrev pub SamePdu : Pdu → Pdu → Type 0
  SamePdu p q =
      let n = payload_length_of p.message_length in
      (q.message_length ≡ p.message_length)
      × (q.message_type ≡ p.message_type)
      × (q.receiver_id ≡ p.receiver_id)
      × (q.sender_id ≡ p.sender_id)
      × (q.sequence_number ≡ p.sequence_number)
      × (q.confirmed_sequence_number ≡ p.confirmed_sequence_number)
      × (q.timestamp ≡ p.timestamp)
      × (q.confirmed_timestamp ≡ p.confirmed_timestamp)
      × (part stale q.payload n ≡ part stale p.payload n)
      × (part stale q.safety_code 8 ≡ part stale p.safety_code 8)

  -- What a receiver finds in the wire form, whatever stands behind it.
  pub received-SamePdu :
      (p : Pdu) (tail : List ℕ) → IsComplete p → SamePdu p (received p (wire stale p ++ tail))
  received-SamePdu p tail c =
      (refl, refl, refl, refl, refl, refl, refl, refl, payload_back, code_back)
    where
      n : ℕ
      n = payload_length_of p.message_length

      pay : List ℕ
      pay = part stale p.payload n

      code : List ℕ
      code = part stale p.safety_code 8

      payload_back : take n (drop 28 (wire stale p ++ tail)) ≡ pay
      payload_back =
          take-drop-middle (header p) pay (code ++ tail) (wire stale p ++ tail) 28 n
            (ap (λ (t : List ℕ). header p ++ t) (append_assoc pay code tail)) refl
            (length-part p.payload n c.payload_full)

      code_back : take 8 (drop (28 + n) (wire stale p ++ tail)) ≡ code
      code_back =
          take-drop-middle (header p ++ pay) code tail (wire stale p ++ tail) (28 + n) 8
            (ap (λ (t : List ℕ). header p ++ t) (append_assoc pay code tail))
            (omega (arith, length-part p.payload n c.payload_full))
            (length-part p.safety_code 8 c.code_full)

  -- A complete PDU with fields in range that fits the buffer comes back from its serialised form:
  -- the receiver gets the same header fields, payload bytes and safety code.
  pub deserialize_pdu-serialize_pdu :
      (p q : Pdu) (buffer : List ℕ)
      → InRange p
      → IsComplete p
      → p.message_length ≤ length buffer
      → (sent : List ℕ) × (back : Pdu) × (serialize_pdu stale p buffer p.message_length ≡ ok sent)
        × (deserialize_pdu sent p.message_length q ≡ ok back)
        × SamePdu p back
  deserialize_pdu-serialize_pdu p q buffer r c room = (
    wire stale p ++ drop p.message_length buffer,
    received p (wire stale p ++ drop p.message_length buffer),
    serialize_pdu-IsComplete p buffer c room,
    deserialize_pdu-header p q _ p.message_length r c.fixed (omega arith),
    received-SamePdu p (drop p.message_length buffer) c,
  )
