-- ===== src/Pdu/Build.antt =====
-- safecom/src/pdu.c: the payloads, the safety code, and the PDU of each message type.
use rasta_s.Prelude.{
  ℕ, ◌+◌, ◌-◌, ◌/◌, ◌^◌, bit_and, List, [], ◌∷◌, Result, ok, err, out_of_bounds, ◌>>=◌, ltb,
  if◌then◌else◌, length, take, replicate,
}
use rasta_s.Platform.{Platform}
use rasta_s.TimeMon.{tlocal}
use rasta_s.Pdu.Types.{
  Pdu, Pointer, MessageType, null, at, dead, DiscReasonType, reason_code, safety_code_length,
  pdu_fixed_fields_length, conn_req_payload_length, conn_resp_payload_length,
  disc_req_payload_length, sender_id_const, receiver_id_const, protocol_version, n_send_max,
  connection_request, connection_response, retransmission_request, retransmission_response,
  disconnection_request, heartbeat, data_message,
}
use rasta_s.Pdu.Bytes.{u8, u16, u32}
use rasta_s.Pdu.Codec.{serialize_pdu}
use rasta_s.Sm.Types.{SmType, Context}

-- The version, the size of the receive buffer, and eight reserved bytes.
abbrev pub conn_req_payload : List ℕ
conn_req_payload =
    bit_and (protocol_version / 2 ^ 24) 0xFF
    ∷ bit_and (protocol_version / 2 ^ 16) 0xFF
    ∷ bit_and (protocol_version / 2 ^ 8) 0xFF
    ∷ bit_and protocol_version 0xFF
    ∷ bit_and (n_send_max / 2 ^ 8) 0xFF
    ∷ bit_and n_send_max 0xFF
    ∷ replicate (conn_req_payload_length - 6) 0

abbrev pub conn_resp_payload : List ℕ
conn_resp_payload =
    bit_and (protocol_version / 2 ^ 24) 0xFF
    ∷ bit_and (protocol_version / 2 ^ 16) 0xFF
    ∷ bit_and (protocol_version / 2 ^ 8) 0xFF
    ∷ bit_and protocol_version 0xFF
    ∷ bit_and (n_send_max / 2 ^ 8) 0xFF
    ∷ bit_and n_send_max 0xFF
    ∷ replicate (conn_req_payload_length - 6) 0

abbrev pub disc_req_payload : DiscReasonType → ℕ → List ℕ
disc_req_payload reason detailed =
    u8 (detailed / 2 ^ 8) ∷ u8 detailed ∷ 0 ∷ u8 (reason_code reason) ∷ []

-- `self->snt++` on the bit pattern.
abbrev pub next_snt : SmType → SmType
next_snt s = record s { snt = u32 (s.snt + 1) }

-- The first `n` bytes of an array.
unfoldable pub read_prefix : List ℕ → ℕ → Result (List ℕ)
read_prefix buffer n = if ltb (length buffer) n then err out_of_bounds else ok (take n buffer)

-- `safety_code` is left pointing to an array of this function.
unfoldable pub calculate_md4 : Platform → Pdu → Result Pdu
calculate_md4 plat pdu = do
  buffer ← serialize_pdu plat.stale pdu plat.frame pdu.message_length
  message ← read_prefix buffer (u32 (pdu.message_length + 2 ^ 32 - safety_code_length))
  ok (record pdu { safety_code = dead (plat.md4 message) })

-- The lines that all builders share: the length, the type, the identifiers, `snt`, the confirmed
-- number and time, the clock, the payload, and the safety code at the end.
unfoldable pub build : Platform → ℕ → MessageType → ℕ → ℕ → Pointer → Context → Result Context
build plat len kind confirmed confirmed_time body c = do
  (now, c') ← tlocal plat c
  pdu ← calculate_md4 plat (record (c'.pdu) {
    message_length = u16 len;
    message_type = kind;
    receiver_id = receiver_id_const;
    sender_id = sender_id_const;
    sequence_number = c'.self.snt;
    confirmed_sequence_number = confirmed;
    timestamp = now;
    confirmed_timestamp = confirmed_time;
    payload = body;
  })
  ok (record c' { pdu = pdu })

-- With `self->snt++` done.
abbrev pub stepped : Context → Context
stepped c = record c { self = next_snt (c.self) }

module _ (plat : Platform) where
  unfoldable pub conn_req : Context → Result Context
  conn_req c =
      build plat (pdu_fixed_fields_length + conn_req_payload_length) connection_request 0 0
        (at conn_req_payload) c

  unfoldable pub conn_resp : Context → Result Context
  conn_resp c =
      build plat (pdu_fixed_fields_length + conn_resp_payload_length) connection_response c.self.cst
        c.self.ctsr (at conn_resp_payload) c

  unfoldable pub retr_req_pdu : Context → Result Context
  retr_req_pdu c =
      build plat pdu_fixed_fields_length retransmission_request c.self.cst c.self.ctsr null
        (stepped c)

  unfoldable pub retr_resp_pdu : Context → Result Context
  retr_resp_pdu c =
      build plat pdu_fixed_fields_length retransmission_response c.self.cst c.self.ctsr null
        (stepped c)

  unfoldable pub disc_req : DiscReasonType → ℕ → Context → Result Context
  disc_req reason detailed c =
      build plat (pdu_fixed_fields_length + disc_req_payload_length) disconnection_request
        c.self.cst c.self.ctsr (at (disc_req_payload reason detailed)) (stepped c)

  unfoldable pub hb : Context → Result Context
  hb c = build plat pdu_fixed_fields_length heartbeat c.self.cst c.self.ctsr null (stepped c)

  -- `msgLen` is a `uint8_t`: the caller's argument is cut to it.
  unfoldable pub data_pdu : ℕ → List ℕ → Context → Result Context
  data_pdu msg_len msg_data c =
      build plat (pdu_fixed_fields_length + u8 msg_len) data_message c.self.cst c.self.ctsr
        (at msg_data) (stepped c)
