-- ===== src/Sm/Checks.antt =====
-- safecom/src/sm.c: the static helpers of the handlers, before the handlers themselves.
use rasta_s.Prelude.{
  ℕ, ◌+◌, ◌-◌, ◌*◌, ◌/◌, ◌%◌, ◌^◌, bit_and, Bool, true, false, ◌&&◌, List, Result, ok, err,
  assert_failed, ◌>>=◌, ltb, leb, ◌==◌, if◌then◌else◌,
}
use rasta_s.Platform.{Platform}
use rasta_s.TimeMon.{tlocal}
use rasta_s.Pdu.Types.{Pdu, Pointer, null, at, dead, protocol_version}
use rasta_s.Pdu.Bytes.{u32, load}
use rasta_s.Sm.Types.{SmType, Context, closed, closed_handler}

-- `pdu->confirmed_timestamp - self->ctsr` is unsigned, so it wraps and is never negative.
unfoldable pub check_seq_confirmed_timestamp : SmType → Pdu → Bool
check_seq_confirmed_timestamp s pdu =
    let age = u32 (pdu.confirmed_timestamp + 2 ^ 32 - s.ctsr) in
    leb 0 age && ltb age s.time.timeouts.tmax

-- `buffer[i] == value && rest`.
abbrev pub byte_is : List ℕ → ℕ → ℕ → Result Bool → Result Bool
byte_is bs i value rest = load bs i >>= λ b. if b == value then rest else ok false

unfoldable pub version_bytes : List ℕ → Result Bool
version_bytes bs = byte_is bs 0 (bit_and (protocol_version / 2 ^ 24) 0xFF) (
    byte_is bs 1 (bit_and (protocol_version / 2 ^ 16) 0xFF) (
      byte_is bs 2 (bit_and (protocol_version / 2 ^ 8) 0xFF)
        (byte_is bs 3 (bit_and protocol_version 0xFF) (ok true))))

unfoldable pub check_version : Platform → Pointer → Result Bool
check_version plat null = err assert_failed
check_version plat (at bs) = version_bytes bs
check_version plat (dead bs) = version_bytes (plat.stale bs)

abbrev pub unconfirmed_payload_available : Bool
unconfirmed_payload_available = false

unfoldable pub set_initial_values : SmType → SmType
set_initial_values s = record s { snr = 0; snt = 0; cst = 0; csr = 0; tsr = 0; ctsr = 0 }

unfoldable pub close_connection : Context → Context
close_connection c = record c {
  self = record (c.self) {
    cst = c.pdu.sequence_number;
    state = closed;
    handle_event = closed_handler;
  };
}

unfoldable pub process_regular_receipt : Context → Context
process_regular_receipt c = record c {
  self = record (c.self) {
    snr = u32 (c.pdu.sequence_number + 1);
    cst = c.pdu.sequence_number;
    csr = c.pdu.confirmed_sequence_number;
    tsr = c.pdu.timestamp;
    ctsr = c.pdu.confirmed_timestamp;
  };
}

-- The next value of the static `seed`, in 32-bit unsigned arithmetic.
unfoldable pub snt_rand_value : ℕ → ℕ
snt_rand_value seed = u32 (u32 (seed * 1103515245) + 12345) % 101

-- `self->snt = snt_rand_value();`
unfoldable pub draw_snt : Context → Context
draw_snt c = record c {
  self = record (c.self) { snt = snt_rand_value c.io.seed };
  io = record (c.io) { seed = snt_rand_value c.io.seed };
}

-- `time.Trtd = Tlocal() - ctsr; time.Ti = Tmax - Trtd;`
unfoldable pub update_monitoring : Platform → Context → Result Context
update_monitoring plat c = do
  (now, c') ← tlocal plat c
  let trtd = u32 (now + 2 ^ 32 - c'.self.ctsr)
  let ti = u32 (c'.self.time.timeouts.tmax + 2 ^ 32 - trtd)
  ok (record c' {
    self = record (c'.self) { time = record (c'.self.time) { trtd = trtd; ti = ti } };
  })
