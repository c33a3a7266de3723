-- ===== src/SafeCom/Once.antt =====
-- safecom/src/rass.c and safecom/src/sic.c: an instance is initialised once.
use rasta_s.Prelude.{◌≡◌, Bool, true, Result, ok, err}
use rasta_s.SafeCom.Types.{StdRet, Memory}
use rasta_s.SafeCom.Instances.{Instance, System}

-- What an initialisation that has returned left of its instance.
abbrev Marked : Result (StdRet × Instance × Memory) → Type 0
Marked (ok (r, inst, m)) = inst.initialized ≡ true
Marked (err fault) = Unit {0}

abbrev rass_started : Result (StdRet × System) → Bool
rass_started (ok (r, s)) = s.rass.initialized
rass_started (err fault) = true
