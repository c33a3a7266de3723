-- ===== src/SafeCom/Waiting.antt =====
-- Machines whose connection is not open yet, and the parts of safecom/src/safecom_impl.c that leave
-- them so.
use rasta_s.Prelude.{
  ℕ, zero, suc, ◌+◌, List, [], ◌∷◌, Bool, true, false, Result, ◌==◌, if◌then◌else◌, Ensures,
  Ensures-bind, Ensures-if, set,
}
use rasta_s.Pdu.Types.{zero_pdu}
use rasta_s.Sm.Types.{SmType, SmRole, Context, SafeComVtable}
use rasta_s.Sm.Checks.{set_initial_values}
use rasta_s.Sm.Machine.{sm_init}
use rasta_s.Sm.Unopened.{Unopened, StaysUnopened}
use rasta_s.SafeCom.Types.{StdRet, SmPointer, no_sms, sms_at, SafeComType, Memory}
use rasta_s.SafeCom.Impl.{
  element, write_array, connect_first, init_machine, init_loop, init_array, init_at, safe_com_init,
  run_at,
}
use rasta_s.SafeCom.Instances.{Instance, init_instance}

abbrev pub EachUnopened : List SmType → Type 0
EachUnopened [] = Unit {0}
EachUnopened (s ∷ rest) = Unopened s × EachUnopened rest

-- No machine of the memory is open.
abbrev pub AllUnopened : Memory → Type 0
AllUnopened m = (address : ℕ) → EachUnopened (m.arrays address)

element-Unopened : (xs : List SmType) (i : ℕ) → EachUnopened xs → Ensures Unopened (element xs i)
unfolding element
element-Unopened [] i h = tt
element-Unopened (s ∷ rest) zero h = h.0
element-Unopened (s ∷ rest) (suc i) h = element-Unopened rest i h.1

set-EachUnopened :
    (xs : List SmType) (i : ℕ) (s : SmType)
    → EachUnopened xs
    → Unopened s
    → EachUnopened (set xs i s)
set-EachUnopened [] i s h u = tt
set-EachUnopened (x ∷ xs) zero s h u = (u, h.1)
set-EachUnopened (x ∷ xs) (suc i) s h u = (h.0, set-EachUnopened xs i s h.1 u)

if-EachUnopened :
    (b : Bool) (xs ys : List SmType)
    → EachUnopened xs
    → EachUnopened ys
    → EachUnopened (if b then xs else ys)
if-EachUnopened true xs ys h k = h
if-EachUnopened false xs ys h k = k

write_array-AllUnopened :
    (address : ℕ) (xs : List SmType) (m : Memory)
    → EachUnopened xs
    → AllUnopened m
    → AllUnopened (write_array address xs m)
write_array-AllUnopened address xs m h k =
    λ a. if-EachUnopened (a == address) xs (m.arrays a) h (k a)

-- What a call leaves when it returns.
abbrev pub KeepsUnopened : Result (StdRet × Memory) → Type 0
KeepsUnopened r = Ensures (λ (p : StdRet × Memory). AllUnopened p.1) r

pub run_at-AllUnopened :
    (p : SmPointer) (i : ℕ) (action : Context → Result Context) (m : Memory)
    → AllUnopened m
    → ((c : Context) → Unopened c.self → StaysUnopened (action c))
    → KeepsUnopened (run_at p i action m)
unfolding run_at
run_at-AllUnopened no_sms i action m h f = tt
run_at-AllUnopened (sms_at address) i action m h f =
    Ensures-bind Unopened (λ (p : StdRet × Memory). AllUnopened p.1) (element (m.arrays address) i)
      _ (element-Unopened (m.arrays address) i (h address))
      (λ s u.
        Ensures-bind (λ (c : Context). Unopened c.self) (λ (p : StdRet × Memory). AllUnopened p.1)
          (action (record { self = s; pdu = zero_pdu; io = m.io })) _
          (f (record { self = s; pdu = zero_pdu; io = m.io }) u)
          (λ c k.
            write_array-AllUnopened address (set (m.arrays address) i (c.self)) m
              (set-EachUnopened (m.arrays address) i (c.self) (h address) k) h))

init_loop-EachUnopened :
    (role : SmRole) (rounds i : ℕ) (xs : List SmType)
    → EachUnopened xs
    → Ensures EachUnopened (init_loop role rounds i xs)
unfolding init_loop sm_init set_initial_values
init_loop-EachUnopened role zero i xs h = h
init_loop-EachUnopened role (suc rounds) i xs h =
    Ensures-bind Unopened EachUnopened (element xs i) _ (element-Unopened xs i h) (λ s u.
      init_loop-EachUnopened role rounds (i + 1) (set xs i (init_machine role i s))
        (set-EachUnopened xs i (init_machine role i s) h (tt, tt)))

connect_first-EachUnopened :
    (v : SafeComVtable) (xs : List SmType)
    → EachUnopened xs
    → Ensures EachUnopened (connect_first v xs)
unfolding connect_first
connect_first-EachUnopened v [] h = tt
connect_first-EachUnopened v (s ∷ rest) h = h

init_at-AllUnopened :
    (p : SmPointer) (config : SafeComType) (m : Memory)
    → AllUnopened m
    → KeepsUnopened (init_at p config m)
unfolding init_at init_array
init_at-AllUnopened no_sms config m h = tt
init_at-AllUnopened (sms_at address) config m h =
    Ensures-bind EachUnopened (λ (p : StdRet × Memory). AllUnopened p.1)
      (init_array config (m.arrays address)) _
      (Ensures-bind EachUnopened EachUnopened (connect_first config.vtable (m.arrays address)) _
        (connect_first-EachUnopened config.vtable (m.arrays address) (h address))
        (λ xs k. init_loop-EachUnopened config.config.role config.config.max_connections 0 xs k))
      (λ xs k. write_array-AllUnopened address xs m k h)

pub init_instance-AllUnopened :
    (config : SafeComType) (inst : Instance) (m : Memory)
    → AllUnopened m
    → Ensures (λ (p : StdRet × Instance × Memory). AllUnopened p.2) (init_instance config inst m)
unfolding init_instance safe_com_init
init_instance-AllUnopened config inst m h =
    Ensures-if (λ (p : StdRet × Instance × Memory). AllUnopened p.2) inst.initialized _ _ h
      (Ensures-bind (λ (p : StdRet × SafeComType × Memory). AllUnopened p.2)
        (λ (p : StdRet × Instance × Memory). AllUnopened p.2) (safe_com_init config m) _
        (Ensures-bind (λ (p : StdRet × Memory). AllUnopened p.1)
          (λ (p : StdRet × SafeComType × Memory). AllUnopened p.2)
          (init_at config.config.sms config m) _ (init_at-AllUnopened config.config.sms config m h)
          (λ p k. k))
        (λ p k. k))
