-- ===== src/SafeCom/Shared.antt =====
-- The static pointer of safecom/src/safecom_impl.c under two instances: whose machines the
-- operations of safecom/src/rass.c work on after `Sic_Init` (safecom/src/sic.c).
use rasta_s.Prelude.{
  ℕ, ◌≡◌, refl, ap, subst, List, inl, inr, Bool-cases, true, Option, some, Result, ok, err, ◌>>=◌,
}
use rasta_s.Platform.{Platform}
use rasta_s.Sm.Types.{SmType, open_conn}
use rasta_s.Sm.Machine.{sm_handle_event}
use rasta_s.SafeCom.Types.{
  StdRet, std_ok, std_not_ok, SafeComConfig, SafeComType, SmPointer, no_sms, sms_at, Memory,
}
use rasta_s.SafeCom.Impl.{
  init_at, init_array, write_array, run_at, safe_com_init, safe_com_open_connection,
}
use rasta_s.SafeCom.Instances.{
  Instance, System, sic_vtable, configured, init_instance, sic_init, with_sic, with_memory,
  rass_open_connection,
}

-- If an initialisation returned OK, the pointer is `p`.
abbrev PointsTo : SmPointer → Result (StdRet × Memory) → Type 0
PointsTo p (ok (std_ok, m)) = m.sms ≡ p
PointsTo p (ok (std_not_ok, m)) = Unit {0}
PointsTo p (err fault) = Unit {0}

abbrev NowAt : SmPointer → Result (StdRet × System) → Type 0
NowAt p (ok (std_ok, s)) = s.memory.sms ≡ p
NowAt p (ok (std_not_ok, s)) = Unit {0}
NowAt p (err fault) = Unit {0}

written-PointsTo :
    (address : ℕ) (m : Memory) (r : Result (List SmType))
    → PointsTo
        (sms_at address)
        (r >>= λ xs. ok (std_ok, record (write_array address xs m) { sms = sms_at address }))
written-PointsTo address m (ok xs) = refl
written-PointsTo address m (err fault) = tt

init_at-PointsTo :
    (p : SmPointer) (config : SafeComType) (m : Memory) → PointsTo p (init_at p config m)
unfolding init_at
init_at-PointsTo no_sms config m = tt
init_at-PointsTo (sms_at address) config m =
    written-PointsTo address m (init_array config (m.arrays address))

started-NowAt :
    (p : SmPointer) (config : SafeComType) (s : System) (inst : Instance)
    (r : Result (StdRet × Memory))
    → PointsTo p r
    → NowAt p (
        ((r >>= λ q. ok (q.0, config, q.1)) >>= λ (t : StdRet × SafeComType × Memory).
        ok (t.0, record inst { self = some t.1; initialized = true }, t.2))
        >>= with_sic s)
started-NowAt p config s inst (ok (std_ok, m)) h = h
started-NowAt p config s inst (ok (std_not_ok, m)) h = tt
started-NowAt p config s inst (err fault) h = tt

sic_init-NowAt :
    (given : Option SafeComConfig) (s : System)
    → NowAt (configured given (s.sic)).config.sms (sic_init given s)
unfolding sic_init init_instance safe_com_init
sic_init-NowAt given s = elim (Bool-cases (configured given (s.sic)).initialized) [
  | inl e ↦ rw e tt
  | inr e ↦ rw e (
      started-NowAt (configured given (s.sic)).config.sms
        (record { vtable = sic_vtable; config = (configured given (s.sic)).config }) s
        (configured given (s.sic)) _
        (init_at-PointsTo (configured given (s.sic)).config.sms
          (record { vtable = sic_vtable; config = (configured given (s.sic)).config }) s.memory))
]

-- After a Sic_Init that returned OK, Rass_OpenConnection opens a connection of the array that was
-- configured for Sic, whatever array Rass was initialised with.
pub rass_open_connection-sic_init :
    (plat : Platform) (given : Option SafeComConfig) (s s' : System) (i : ℕ)
    → sic_init given s ≡ ok (std_ok, s')
    → rass_open_connection plat i s' ≡ (
        run_at (configured given (s.sic)).config.sms i (sm_handle_event plat open_conn) s'.memory
        >>= with_memory s')
unfolding rass_open_connection safe_com_open_connection
rass_open_connection-sic_init plat given s s' i h =
    let pointer : s'.memory.sms ≡ (configured given (s.sic)).config.sms =
      subst (λ (r : Result (StdRet × System)). NowAt (configured given (s.sic)).config.sms r) h
        (sic_init-NowAt given s) in
    ap (λ (p : SmPointer). run_at p i (sm_handle_event plat open_conn) s'.memory >>= with_memory s')
      pointer
