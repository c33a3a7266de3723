-- ===== src/SafeCom/Instances.antt =====
-- safecom/src/rass.c and safecom/src/sic.c: two instances with their static variables over one
-- memory. The main, receive, send, open, close and state functions pass their arguments on.
use rasta_s.Prelude.{ℕ, Bool, true, List, Option, none, some, Result, ok, ◌>>=◌, if◌then◌else◌}
use rasta_s.Platform.{Platform}
use rasta_s.Sm.Types.{
  SafeComVtable, iscdisp_send_spdu, fec_receive_btp, oscom_send_spdu, oscom_receive_msg,
}
use rasta_s.SafeCom.Types.{StdRet, std_not_ok, SafeComConfig, SafeComType, Memory, Receivers}
use rasta_s.Common.Assert.{non_null}
use rasta_s.SafeCom.Entry.{
  checked_main, checked_receive_spdu, checked_send_data, checked_open_connection,
  checked_close_connection, checked_connection_state_request,
}
use rasta_s.SafeCom.Impl.{safe_com_init}

-- `RassInstance`, `RassConfig` and `initialized` of rass.c, or those of sic.c. The first is zeroed,
-- `none`, until it is initialised.
pub record Instance : Type 0 where
  pub self : Option SafeComType
  pub config : SafeComConfig
  pub initialized : Bool

pub record System : Type 0 where
  pub rass : Instance
  pub sic : Instance
  pub memory : Memory

abbrev pub rass_vtable : SafeComVtable
rass_vtable = record { send_spdu = iscdisp_send_spdu; receive_msg = fec_receive_btp }

abbrev pub sic_vtable : SafeComVtable
sic_vtable = record { send_spdu = oscom_send_spdu; receive_msg = oscom_receive_msg }

-- `(initialized==true) ? NOT_OK : (initialized=true, SafeCom_Init(&instance, config))`.
unfoldable pub init_instance : SafeComType → Instance → Memory → Result (StdRet × Instance × Memory)
init_instance config inst m = if inst.initialized then ok (std_not_ok, inst, m) else do
  (ret, self, m') ← safe_com_init config m
  ok (ret, record inst { self = some self; initialized = true }, m')

-- `if (pConfig != NULL) instance_config = *pConfig;`
abbrev pub configured : Option SafeComConfig → Instance → Instance
configured none inst = inst
configured (some config) inst = record inst { config = config }

abbrev pub with_rass : System → StdRet × Instance × Memory → Result (StdRet × System)
with_rass s (ret, inst, m) = ok (ret, record s { rass = inst; memory = m })

abbrev pub with_sic : System → StdRet × Instance × Memory → Result (StdRet × System)
with_sic s (ret, inst, m) = ok (ret, record s { sic = inst; memory = m })

abbrev pub with_memory : System → StdRet × Memory → Result (StdRet × System)
with_memory s (ret, m) = ok (ret, record s { memory = m })

unfoldable pub rass_init_vtable : SafeComType → System → Result (StdRet × System)
rass_init_vtable config s = init_instance config s.rass s.memory >>= with_rass s

unfoldable pub rass_init : Option SafeComConfig → System → Result (StdRet × System)
rass_init given s =
    let inst = configured given (s.rass) in
    init_instance (record { vtable = rass_vtable; config = inst.config }) inst s.memory
    >>= with_rass s

unfoldable pub sic_init_vtable : SafeComType → System → Result (StdRet × System)
sic_init_vtable config s = init_instance config s.sic s.memory >>= with_sic s

unfoldable pub sic_init : Option SafeComConfig → System → Result (StdRet × System)
sic_init given s =
    let inst = configured given (s.sic) in
    init_instance (record { vtable = sic_vtable; config = inst.config }) inst s.memory
    >>= with_sic s

unfoldable pub rass_main : System → Result (StdRet × System)
rass_main s = checked_main s.memory >>= with_memory s

unfoldable pub sic_main : System → Result (StdRet × System)
sic_main s = checked_main s.memory >>= with_memory s

unfoldable pub rass_receive_spdu :
    Receivers → ℕ → ℕ → Option (List ℕ) → System → Result (StdRet × System)
rass_receive_spdu receivers node_id spdu_len spdu_data s = non_null spdu_data >>= λ bytes.
    checked_receive_spdu receivers s.rass.self node_id spdu_len spdu_data s.memory >>= with_memory s

unfoldable pub sic_receive_spdu :
    Receivers → ℕ → ℕ → Option (List ℕ) → System → Result (StdRet × System)
sic_receive_spdu receivers node_id spdu_len spdu_data s = non_null spdu_data >>= λ bytes.
    checked_receive_spdu receivers s.sic.self node_id spdu_len spdu_data s.memory >>= with_memory s

unfoldable pub rass_connection_state_request : ℕ → System → Result (StdRet × System)
rass_connection_state_request msg_id s =
    checked_connection_state_request msg_id s.memory >>= with_memory s

unfoldable pub sic_connection_state_request : ℕ → System → Result (StdRet × System)
sic_connection_state_request msg_id s =
    checked_connection_state_request msg_id s.memory >>= with_memory s

module _ (plat : Platform) where
  unfoldable pub rass_send_data : ℕ → ℕ → Option (List ℕ) → System → Result (StdRet × System)
  rass_send_data msg_id msg_len msg_data s = non_null msg_data >>= λ bytes.
      checked_send_data plat msg_id msg_len msg_data s.memory >>= with_memory s

  unfoldable pub sic_send_data : ℕ → ℕ → Option (List ℕ) → System → Result (StdRet × System)
  sic_send_data msg_id msg_len msg_data s = non_null msg_data >>= λ bytes.
      checked_send_data plat msg_id msg_len msg_data s.memory >>= with_memory s

  unfoldable pub rass_open_connection : ℕ → System → Result (StdRet × System)
  rass_open_connection msg_id s = checked_open_connection plat msg_id s.memory >>= with_memory s

  unfoldable pub sic_open_connection : ℕ → System → Result (StdRet × System)
  sic_open_connection msg_id s = checked_open_connection plat msg_id s.memory >>= with_memory s

  unfoldable pub rass_close_connection : ℕ → System → Result (StdRet × System)
  rass_close_connection msg_id s = checked_close_connection plat msg_id s.memory >>= with_memory s

  unfoldable pub sic_close_connection : ℕ → System → Result (StdRet × System)
  sic_close_connection msg_id s = checked_close_connection plat msg_id s.memory >>= with_memory s
