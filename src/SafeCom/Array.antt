-- ===== src/SafeCom/Array.antt =====
-- The arrays of state machines (safecom/src/safecom_impl.c): reading and writing elements, and a
-- call on one machine.
use rasta_s.Prelude.{
  ℕ, zero, suc, ◌≡◌, ◌≢◌, refl, ap, ◌∙◌, List, [], ◌∷◌, Fault, Result, ok, err, set, ==_refl, ==_ne,
}
use rasta_s.Pdu.Types.{zero_pdu}
use rasta_s.Sm.Types.{Context, SmType, Io}
use rasta_s.SafeCom.Types.{std_ok, SmPointer, sms_at, Memory}
use rasta_s.SafeCom.Impl.{element, run_at, write_array}

pub element-set_self :
    (xs : List SmType) (i : ℕ) (s t : SmType) → element xs i ≡ ok s → element (set xs i t) i ≡ ok t
unfolding element
element-set_self [] i s t h = cc
element-set_self (x ∷ xs) zero s t h = refl
element-set_self (x ∷ xs) (suc i) s t h = element-set_self xs i s t h

pub element-set_ne :
    (xs : List SmType) (i j : ℕ) (t : SmType) → j ≢ i → element (set xs i t) j ≡ element xs j
unfolding element
element-set_ne [] i j t h = refl
element-set_ne (x ∷ xs) zero zero t h = absurd (h refl)
element-set_ne (x ∷ xs) zero (suc j) t h = refl
element-set_ne (x ∷ xs) (suc i) zero t h = refl
element-set_ne (x ∷ xs) (suc i) (suc j) t h = element-set_ne xs i j t (λ e. h (ap suc e))

-- The context of a call from the interface.
abbrev pub entered : SmType → Io → Context
entered s io = record { self = s; pdu = zero_pdu; io = io }

-- The machine at an index of the current array.
pub record Located (m : Memory) (address i : ℕ) (s : SmType) : Type 0 where
  pub current : m.sms ≡ sms_at address
  pub stored : element (m.arrays address) i ≡ ok s

-- The memory after a call that left `c`: one machine is replaced, and nothing else but the
-- input and output changed.
pub record Ran (m : Memory) (address i : ℕ) (c : Context) (m' : Memory) : Type 0 where
  pub located : Located m' address i c.self
  pub others : (j : ℕ) → j ≢ i → element (m'.arrays address) j ≡ element (m.arrays address) j
  pub elsewhere : (b : ℕ) → b ≢ address → m'.arrays b ≡ m.arrays b
  pub io_is : m'.io ≡ c.io
  pub received_is : m'.received ≡ m.received

module _ (m : Memory) (address i : ℕ) (s : SmType) (at_index : Located m address i s)
    (action : Context → Result Context) where
  pub run_at-err :
      {fault : Fault} → action (entered s m.io) ≡ err fault → run_at m.sms i action m ≡ err fault
  unfolding run_at
  run_at-err e =
      ap (λ (p : SmPointer). run_at p i action m) at_index.current ∙ rw (at_index.stored, e)

  pub run_at-Ran :
      (c : Context)
      → action (entered s m.io) ≡ ok c
      → (m' : Memory) × (run_at m.sms i action m ≡ ok (std_ok, m')) × Ran m address i c m'
  unfolding run_at
  run_at-Ran c e = (
    record (write_array address (set (m.arrays address) i (c.self)) m) { io = c.io },
    ap (λ (p : SmPointer). run_at p i action m) at_index.current ∙ rw (at_index.stored, e),
    record {
      located = record {
        current = at_index.current;
        stored =
            rw (==_refl address) (element-set_self (m.arrays address) i s (c.self) at_index.stored);
      };
      others = λ j h. rw (==_refl address) (element-set_ne (m.arrays address) i j (c.self) h);
      elsewhere = λ b h. rw (==_ne b address h);
      io_is = refl;
      received_is = refl;
    },
  )
