-- ===== src/TimeMon.antt =====
-- safecom/src/time_mon.c, and the calls of it through `self->time.Tlocal`.
use rasta_s.Prelude.{ℕ, ◌+◌, ◌/◌, ◌≡◌, ap, Result, ok, err, null_pointer}
use rasta_s.Platform.{Platform}
use rasta_s.Pdu.Bytes.{u32}
use rasta_s.Sm.Types.{Context, GetTimestamp, no_timestamp, current_timestamp}

-- `clock()` is cut to 32 bits before the division.
unfoldable pub get_current_timestamp : Platform → ℕ → ℕ
get_current_timestamp plat n = let ticks = u32 (plat.clock n) in u32 (ticks / plat.clocks_per_sec)

-- `self->time.Tlocal()`.
unfoldable pub call_timestamp : Platform → GetTimestamp → Context → Result (ℕ × Context)
call_timestamp plat no_timestamp c = err null_pointer
call_timestamp plat current_timestamp c = ok (
  get_current_timestamp plat c.io.calls,
  record c { io = record (c.io) { calls = c.io.calls + 1 } },
)

unfoldable pub tlocal : Platform → Context → Result (ℕ × Context)
unfolding call_timestamp
tlocal plat c = call_timestamp plat c.self.time.tlocal c

-- With the clock connected, the call counts and yields the clock's value.
pub tlocal_lem :
    (plat : Platform) (c : Context)
    → c.self.time.tlocal ≡ current_timestamp
    → tlocal plat c
      ≡ ok (
        get_current_timestamp plat c.io.calls,
        record c { io = record (c.io) { calls = c.io.calls + 1 } },
      )
unfolding tlocal
tlocal_lem plat c h = ap (λ (t : GetTimestamp). call_timestamp plat t c) h

pub tlocal_null :
    (plat : Platform) (c : Context)
    → c.self.time.tlocal ≡ no_timestamp
    → tlocal plat c ≡ err null_pointer
unfolding tlocal
tlocal_null plat c h = ap (λ (t : GetTimestamp). call_timestamp plat t c) h
