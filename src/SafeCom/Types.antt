-- ===== src/SafeCom/Types.antt =====
-- safecom/include/safecom.h, safecom_config.h, common/include/types.h: the module's configuration,
-- and the memory that its functions work on.
use rasta_s.Prelude.{ℕ, List, Result}
use rasta_s.Sm.Types.{SmType, SmRole, SafeComVtable, Frame, Io, Callback}

pub data StdRet : Type 0 where
  std_ok std_not_ok : StdRet

-- `SmType *`: NULL, or the address of an array.
pub data SmPointer : Type 0 where
  no_sms : SmPointer
  sms_at : ℕ → SmPointer

-- `instname` is only logged, and left out.
pub record SafeComConfig : Type 0 where
  pub role : SmRole
  pub max_connections : ℕ
  pub sms : SmPointer

-- `SafeComType`, and `SafeCom`, which is the same.
pub record SafeComType : Type 0 where
  pub vtable : SafeComVtable
  pub config : SafeComConfig

-- The static variables of safecom/src/safecom_impl.c and of safecom/src/sm.c, the arrays of state
-- machines by their address, and the calls of `ReceiveMsg`, the latest first.
pub record Memory : Type 0 where
  pub sms : SmPointer
  pub arrays : ℕ → List SmType
  pub io : Io
  pub received : List Frame

-- What a call of `ReceiveMsg` does: the callback gets the node, the length and the data.
abbrev pub Receiver : Type 0
Receiver = ℕ → ℕ → List ℕ → Memory → Result (StdRet × Memory)

-- The functions behind the callbacks, which the user of the module brings along.
abbrev pub Receivers : Type 0
Receivers = Callback → Receiver
