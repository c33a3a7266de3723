-- ===== src/Tests/Fixtures.antt =====
-- A concrete platform, machines and PDUs for the tests and witnesses.
use rasta_s.Prelude.{◌*◌, ◌%◌, refl, [], ◌∷◌, length, replicate}
use rasta_s.Platform.{Platform, IsSized}
use rasta_s.Pdu.Types.{Pdu, at, data_message}
use rasta_s.Sm.Types.{
  Context, SmType, State, SmRole, SafeComVtable, iscdisp_send_spdu, fec_receive_btp, vtable_at,
  current_timestamp, EventHandler, TimeMonitoring, Io,
}

-- A digest of equal bytes, dead frames that keep their bytes, and a clock of one second a call.
abbrev pub bench : Platform
bench = record {
  md4 = λ m. replicate 16 (length m % 256);
  stale = λ bs. bs;
  frame = replicate 50 0;
  clock = λ n. 1000000 * n;
  clocks_per_sec = 1000000;
}

pub bench-IsSized : IsSized bench
bench-IsSized = record { digest_length = λ m. refl; stale_length = λ bs. refl; frame_length = refl }

abbrev pub vtable : SafeComVtable
vtable = record { send_spdu = iscdisp_send_spdu; receive_msg = fec_receive_btp }

abbrev pub idle_time : TimeMonitoring
idle_time = record {
  timeouts = record { th = 10; tmax = 30; tseq = 0 };
  tlocal = current_timestamp;
  ti = 30;
  trtd = 0;
  talive = 0;
  ta = 0;
  tb = 0;
}

abbrev pub machine : SmRole → State → EventHandler → SmType
machine role state handler = record {
  channel = 0;
  state = state;
  role = role;
  snr = 8;
  snt = 5;
  cst = 7;
  csr = 4;
  tsr = 0;
  ctsr = 2;
  handle_event = handler;
  vtable = vtable_at vtable;
  time = idle_time;
}

abbrev pub quiet_io : Io
quiet_io = record { buff_to_send = replicate 100 0; seed = 12345; calls = 3; sent = [] }

-- A data PDU in sequence, with the payload "hi".
abbrev pub hello : Pdu
hello = record {
  message_length = 38;
  message_type = data_message;
  receiver_id = 0;
  sender_id = 0;
  sequence_number = 8;
  confirmed_sequence_number = 5;
  timestamp = 9;
  confirmed_timestamp = 3;
  payload = at (b'h' ∷ b'i' ∷ []);
  safety_code = at (replicate 8 1);
}

abbrev pub context : SmRole → State → EventHandler → Pdu → Context
context role state handler pdu = record {
  self = machine role state handler;
  pdu = pdu;
  io = quiet_io;
}
