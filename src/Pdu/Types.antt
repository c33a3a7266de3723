-- ===== src/Pdu/Types.antt =====
-- safecom/include/pdu.h: the protocol data unit, its constants, and the pointers that it holds.
use rasta_s.Prelude.{ℕ, List}

abbrev pub safety_code_length : ℕ
safety_code_length = 8

abbrev pub pdu_fixed_fields_length : ℕ
pdu_fixed_fields_length = 36

abbrev pub max_pdu_length : ℕ
max_pdu_length = 50

abbrev pub conn_req_payload_length : ℕ
conn_req_payload_length = 14

abbrev pub conn_resp_payload_length : ℕ
conn_resp_payload_length = 14

abbrev pub disc_req_payload_length : ℕ
disc_req_payload_length = 4

abbrev pub sender_id_const : ℕ
sender_id_const = 0

abbrev pub receiver_id_const : ℕ
receiver_id_const = 0

abbrev pub protocol_version : ℕ
protocol_version = 0x30333031

abbrev pub n_send_max : ℕ
n_send_max = 0xFFFF

abbrev pub no_detailed_reason : ℕ
no_detailed_reason = 0

-- `MessageType`. The receiver casts any `uint16_t` to it, so it is a number with named values.
abbrev pub MessageType : Type 0
MessageType = ℕ

abbrev pub connection_request : MessageType
connection_request = 6200

abbrev pub connection_response : MessageType
connection_response = 6201

abbrev pub retransmission_request : MessageType
retransmission_request = 6212

abbrev pub retransmission_response : MessageType
retransmission_response = 6213

abbrev pub disconnection_request : MessageType
disconnection_request = 6216

abbrev pub heartbeat : MessageType
heartbeat = 6220

abbrev pub data_message : MessageType
data_message = 6240

abbrev pub retransmitted_data : MessageType
retransmitted_data = 6241

pub data DiscReasonType : Type 0 where
  user_request undefined_msg_type_recv not_expected_recv_msg_type : DiscReasonType
  seq_nbr_err_for_connection timeout_incoming_msg state_service_not_allowed : DiscReasonType
  protocol_version_error fail_retransmission seq_err : DiscReasonType

-- The value of the enumerator.
abbrev pub reason_code : DiscReasonType → ℕ
reason_code user_request = 0
reason_code undefined_msg_type_recv = 1
reason_code not_expected_recv_msg_type = 2
reason_code seq_nbr_err_for_connection = 3
reason_code timeout_incoming_msg = 4
reason_code state_service_not_allowed = 5
reason_code protocol_version_error = 6
reason_code fail_retransmission = 7
reason_code seq_err = 8

-- A `uint8_t *`: NULL, the bytes from the place pointed at to the end of its object, or a pointer
-- into an automatic array whose function has returned, with the bytes last stored there.
pub data Pointer : Type 0 where
  null : Pointer
  at : List ℕ → Pointer
  dead : List ℕ → Pointer

-- `PDU_S`; numbers are below 2 ^ 16 (`message_length`, `message_type` on the wire) or 2 ^ 32.
pub record Pdu : Type 0 where
  pub message_length : ℕ
  pub message_type : MessageType
  pub receiver_id : ℕ
  pub sender_id : ℕ
  pub sequence_number : ℕ
  pub confirmed_sequence_number : ℕ
  pub timestamp : ℕ
  pub confirmed_timestamp : ℕ
  pub payload : Pointer
  pub safety_code : Pointer

-- `PDU_S pdu = { 0 };`
abbrev pub zero_pdu : Pdu
zero_pdu = record {
  message_length = 0;
  message_type = 0;
  receiver_id = 0;
  sender_id = 0;
  sequence_number = 0;
  confirmed_sequence_number = 0;
  timestamp = 0;
  confirmed_timestamp = 0;
  payload = null;
  safety_code = null;
}
