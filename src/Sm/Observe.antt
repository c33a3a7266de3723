-- ===== src/Sm/Observe.antt =====
-- The observations of the table, apart from the code, and the two tests of safecom/src/sm.c that
-- they stand for.
use rasta_s.Prelude.{
  ℕ, ◌+◌, ◌-◌, ◌^◌, ◌≤◌, ◌<◌, ◌≡◌, ◌↔◌, arith, Bool, true, false, ◌&&◌, List, [], ◌∷◌, ok, ◌==◌,
  ltb, length,
}
use rasta_s.Platform.{Platform}
use rasta_s.Pdu.Types.{Pdu, Pointer, null, at, dead}
use rasta_s.Pdu.Bytes.{u32, load}
use rasta_s.Pdu.Codec.{bytes_at}
use rasta_s.Sm.Types.{Context, SmType}
use rasta_s.Sm.Checks.{check_version, version_bytes, check_seq_confirmed_timestamp}
use rasta_s.Sm.Table.{Observation}

-- The first four bytes read "0301".
abbrev pub has_version : List ℕ → Bool
has_version (a ∷ b ∷ c ∷ d ∷ rest) = a == 0x30 && (b == 0x33 && (c == 0x30 && d == 0x31))
has_version _ = false

-- A payload with four bytes to read.
abbrev pub Versioned : Platform → Pointer → Type 0
Versioned plat null = ⊥
Versioned plat (at bs) = 4 ≤ length bs
Versioned plat (dead bs) = 4 ≤ length (plat.stale bs)

version_bytes-has_version : (bs : List ℕ) → 4 ≤ length bs → version_bytes bs ≡ ok (has_version bs)
unfolding version_bytes load
version_bytes-has_version (a ∷ b ∷ c ∷ d ∷ rest) h = ground arith
version_bytes-has_version [] h = absurd (omega arith)
version_bytes-has_version (a ∷ []) h = absurd (omega arith)
version_bytes-has_version (a ∷ b ∷ []) h = absurd (omega arith)
version_bytes-has_version (a ∷ b ∷ c ∷ []) h = absurd (omega arith)

-- With four bytes to read, the version check returns, and finds exactly the version "0301".
pub check_version-has_version :
    (plat : Platform) (ptr : Pointer)
    → Versioned plat ptr
    → check_version plat ptr ≡ ok (has_version (bytes_at plat.stale ptr))
unfolding check_version
check_version-has_version plat null h = absurd h
check_version-has_version plat (at bs) h = version_bytes-has_version bs h
check_version-has_version plat (dead bs) h = version_bytes-has_version (plat.stale bs) h

-- For 32-bit values, a confirmed timestamp is accepted exactly when it lies less than Tmax after
-- the last one, on the circle of 32-bit timestamps.
pub check_seq_confirmed_timestamp_iff :
    (s : SmType) (pdu : Pdu)
    → s.ctsr < 2 ^ 32
    → pdu.confirmed_timestamp < 2 ^ 32
    → s.time.timeouts.tmax ≤ 2 ^ 32
    → (check_seq_confirmed_timestamp s pdu ≡ true)
      ↔ ((age : ℕ) × (age < s.time.timeouts.tmax) × (pdu.confirmed_timestamp ≡ u32 (s.ctsr + age)))
unfolding check_seq_confirmed_timestamp
check_seq_confirmed_timestamp_iff s pdu hs hp ht = (
  (λ e. (u32 (pdu.confirmed_timestamp + 2 ^ 32 - s.ctsr), ground arith, omega arith)),
  (λ (age, below, e). accepted age below e),
)
  where
    accepted :
        (age : ℕ)
        → age < s.time.timeouts.tmax
        → pdu.confirmed_timestamp ≡ u32 (s.ctsr + age)
        → check_seq_confirmed_timestamp s pdu ≡ true
    accepted age below e =
        let same : u32 (pdu.confirmed_timestamp + 2 ^ 32 - s.ctsr) ≡ age = omega arith in
        rw same (ground arith)

abbrev pub observe : Platform → Context → Observation
observe plat c = record {
  role = c.self.role;
  version_ok = has_version (bytes_at plat.stale c.pdu.payload);
  in_sequence = c.self.snr == c.pdu.sequence_number;
  in_time = ltb (u32 (c.pdu.confirmed_timestamp + 2 ^ 32 - c.self.ctsr)) c.self.time.timeouts.tmax;
}

pub check_seq_confirmed_timestamp-in_time :
    (plat : Platform) (c : Context)
    → check_seq_confirmed_timestamp c.self c.pdu ≡ (observe plat c).in_time
unfolding check_seq_confirmed_timestamp
check_seq_confirmed_timestamp-in_time plat c = ground arith
