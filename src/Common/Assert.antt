-- ===== src/Common/Assert.antt =====
-- The macro `assert` (common/include/assert.h) on a pointer: a failed assertion loops for ever.
use rasta_s.Prelude.{ℕ, List, Option, none, some, Result, ok, err, assert_failed}

-- `assert(p != NULL)` for a `uint8_t *` that is NULL or points to these bytes.
abbrev pub non_null : Option (List ℕ) → Result (List ℕ)
non_null none = err assert_failed
non_null (some bytes) = ok bytes
