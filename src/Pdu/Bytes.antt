-- ===== src/Pdu/Bytes.antt =====
-- safecom/src/pdu.c, the byte level: arrays with their bounds, the big-endian writers and readers,
-- and the copy loops. A cast to `uint8_t` or `uint16_t` is a remainder.
use rasta_s.Prelude.{
  ℕ, zero, suc, ◌+◌, ◌*◌, ◌/◌, ◌%◌, ◌^◌, bit_or, List, none, some, Result, ok, err, out_of_bounds,
  ◌>>=◌, ltb, if◌then◌else◌, length, get_elem?, set,
}

abbrev pub u8 : ℕ → ℕ
u8 n = n % 2 ^ 8

abbrev pub u16 : ℕ → ℕ
u16 n = n % 2 ^ 16

abbrev pub u32 : ℕ → ℕ
u32 n = n % 2 ^ 32

-- `buffer[i] = v` on an array of `length buffer` bytes.
unfoldable pub store : List ℕ → ℕ → ℕ → Result (List ℕ)
store buffer i v = if ltb i (length buffer) then ok (set buffer i v) else err out_of_bounds

-- `buffer[i]` as a value.
unfoldable pub load : List ℕ → ℕ → Result ℕ
load buffer i = elim (get_elem? buffer i) [ none ↦ err out_of_bounds | some b ↦ ok b ]

-- A `uint8_t *buffer` with the `size_t *offset` that the writers advance.
pub record Cursor : Type 0 where
  pub buffer : List ℕ
  pub offset : ℕ

unfoldable pub write_uint16 : Cursor → ℕ → Result Cursor
write_uint16 c value = do
  b1 ← store c.buffer c.offset (u8 (value / 2 ^ 8))
  b2 ← store b1 (c.offset + 1) (u8 value)
  ok (record { buffer = b2; offset = c.offset + 2 })

unfoldable pub write_uint32 : Cursor → ℕ → Result Cursor
write_uint32 c value = do
  b1 ← store c.buffer c.offset (u8 (value / 2 ^ 24))
  b2 ← store b1 (c.offset + 1) (u8 (value / 2 ^ 16))
  b3 ← store b2 (c.offset + 2) (u8 (value / 2 ^ 8))
  b4 ← store b3 (c.offset + 3) (u8 value)
  ok (record { buffer = b4; offset = c.offset + 4 })

-- The value read; the caller advances its offset by 2.
unfoldable pub read_uint16 : List ℕ → ℕ → Result ℕ
read_uint16 buffer offset = do
  b0 ← load buffer offset
  b1 ← load buffer (offset + 1)
  ok (bit_or (u16 (b0 * 2 ^ 8)) (u16 b1))

-- The value read; the caller advances its offset by 4.
unfoldable pub read_uint32 : List ℕ → ℕ → Result ℕ
read_uint32 buffer offset = do
  b0 ← load buffer offset
  b1 ← load buffer (offset + 1)
  b2 ← load buffer (offset + 2)
  b3 ← load buffer (offset + 3)
  ok (bit_or (bit_or (bit_or (u32 (b0 * 2 ^ 24)) (u32 (b1 * 2 ^ 16))) (u32 (b2 * 2 ^ 8))) (u32 b3))

-- `for (; rounds > 0; ++i) buffer[offset++] = source[i];`
unfoldable pub copy_bytes : List ℕ → ℕ → ℕ → Cursor → Result Cursor
copy_bytes source zero i c = ok c
copy_bytes source (suc rounds) i c = do
  b ← load source i
  written ← store c.buffer c.offset b
  copy_bytes source rounds (i + 1) (record { buffer = written; offset = c.offset + 1 })
