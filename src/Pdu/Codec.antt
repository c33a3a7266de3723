-- ===== src/Pdu/Codec.antt =====
-- safecom/src/pdu.c: `serialize_pdu` and `deserialize_pdu`.
use rasta_s.Prelude.{ℕ, ◌+◌, ◌-◌, ◌%◌, ◌^◌, List, Result, ok, ◌>>=◌, ltb, if◌then◌else◌, drop}
use rasta_s.Pdu.Types.{Pdu, Pointer, null, at, dead, pdu_fixed_fields_length, safety_code_length}
use rasta_s.Pdu.Bytes.{Cursor, write_uint16, write_uint32, read_uint16, read_uint32, copy_bytes}

-- `message_length - PDU_FIXED_FIELDS_LENGTH` is computed in `unsigned int`, so it wraps.
abbrev pub payload_length_of : ℕ → ℕ
payload_length_of message_length = (message_length + 2 ^ 32 - pdu_fixed_fields_length) % 2 ^ 32

-- The writers in their order, on the buffer given.
unfoldable pub serialize_fields : Pdu → List ℕ → Result Cursor
serialize_fields pdu buffer = do
  c1 ← write_uint16 (record { buffer = buffer; offset = 0 }) pdu.message_length
  c2 ← write_uint16 c1 pdu.message_type
  c3 ← write_uint32 c2 pdu.receiver_id
  c4 ← write_uint32 c3 pdu.sender_id
  c5 ← write_uint32 c4 pdu.sequence_number
  c6 ← write_uint32 c5 pdu.confirmed_sequence_number
  c7 ← write_uint32 c6 pdu.timestamp
  write_uint32 c7 pdu.confirmed_timestamp

module _ (stale : List ℕ → List ℕ) where
  -- The bytes that a pointer which is not NULL gives access to.
  abbrev pub bytes_at : Pointer → List ℕ
  bytes_at null = List.[]
  bytes_at (at bs) = bs
  bytes_at (dead bs) = stale bs

  -- `if (p != NULL) for (i = 0; i < rounds; ++i) buffer[offset++] = p[i];`
  unfoldable pub copy_unless_null : Pointer → ℕ → Cursor → Result Cursor
  copy_unless_null null rounds c = ok c
  copy_unless_null (at bs) rounds c = copy_bytes bs rounds 0 c
  copy_unless_null (dead bs) rounds c = copy_bytes (stale bs) rounds 0 c

  -- The buffer after the call.
  unfoldable pub serialize_pdu : Pdu → List ℕ → ℕ → Result (List ℕ)
  serialize_pdu pdu buffer buffer_size =
      if ltb buffer_size pdu.message_length then ok buffer else do
        fields ← serialize_fields pdu buffer
        body ← copy_unless_null pdu.payload (payload_length_of pdu.message_length) fields
        all ← copy_unless_null pdu.safety_code safety_code_length body
        ok (all.buffer)

-- The PDU after the call. A pointer set to `buffer + offset` sees the rest of the buffer.
unfoldable pub deserialize_pdu : List ℕ → ℕ → Pdu → Result Pdu
deserialize_pdu buffer buffer_size pdu =
    if ltb buffer_size pdu_fixed_fields_length then ok pdu else do
      message_length ← read_uint16 buffer 0
      message_type ← read_uint16 buffer 2
      receiver_id ← read_uint32 buffer 4
      sender_id ← read_uint32 buffer 8
      sequence_number ← read_uint32 buffer 12
      confirmed_sequence_number ← read_uint32 buffer 16
      timestamp ← read_uint32 buffer 20
      confirmed_timestamp ← read_uint32 buffer 24
      let fields = record pdu {
        message_length = message_length;
        message_type = message_type;
        receiver_id = receiver_id;
        sender_id = sender_id;
        sequence_number = sequence_number;
        confirmed_sequence_number = confirmed_sequence_number;
        timestamp = timestamp;
        confirmed_timestamp = confirmed_timestamp;
      }
      ok (
          if ltb buffer_size message_length then fields else record fields {
            payload = at (drop 28 buffer);
            safety_code = at (drop (28 + payload_length_of message_length) buffer);
          })
