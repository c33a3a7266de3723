-- ===== src/Platform.antt =====
-- What the sources call and do not define: the MD4 routines (safecom/src/md4.c is a copy of the
-- public-domain implementation of another project), the C library's `clock`, and the contents of
-- stack memory that the program reads before it writes it or after its function has returned.
use rasta_s.Prelude.{ℕ, List, ◌≡◌, length}

pub record Platform : Type 0 where
  -- `MD4_Init`, one `MD4_Update` with the whole message, `MD4_Final`.
  pub md4 : List ℕ → List ℕ
  -- The bytes found where an array of a function that has returned held these.
  pub stale : List ℕ → List ℕ
  -- What the local `buffer` of `calculate_MD4` holds before it is written.
  pub frame : List ℕ
  -- The value of the n-th call of `clock()`, and `CLOCKS_PER_SEC`.
  pub clock : ℕ → ℕ
  pub clocks_per_sec : ℕ

-- A digest has `MD4_DIGEST_LENGTH` bytes (safecom/include/md4.h), memory that is read again has as
-- many bytes as were stored, and the buffer has the `MAX_PDU_LENGTH` bytes of its declaration.
pub record IsSized (p : Platform) : Type 0 where
  pub digest_length : (m : List ℕ) → length (p.md4 m) ≡ 16
  pub stale_length : (bs : List ℕ) → length (p.stale bs) ≡ length bs
  pub frame_length : length p.frame ≡ 50
