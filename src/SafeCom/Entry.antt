-- ===== src/SafeCom/Entry.antt =====
-- safecom/src/safecom.c: each function checks its pointers and calls its implementation. `self` is
-- the address of an instance; the data may be NULL.
use rasta_s.Prelude.{ℕ, List, Option, Result, ◌>>=◌}
use rasta_s.Platform.{Platform}
use rasta_s.Common.Assert.{non_null}
use rasta_s.SafeCom.Types.{StdRet, SafeComType, Memory, Receivers}
use rasta_s.SafeCom.Impl.{
  safe_com_main, safe_com_receive_spdu, safe_com_send_data, safe_com_open_connection,
  safe_com_close_connection, safe_com_connection_state_request,
}

abbrev pub checked_main : Memory → Result (StdRet × Memory)
checked_main m = safe_com_main m

abbrev pub checked_connection_state_request : ℕ → Memory → Result (StdRet × Memory)
checked_connection_state_request msg_id m = safe_com_connection_state_request msg_id m

abbrev pub checked_receive_spdu :
    Receivers → Option SafeComType → ℕ → ℕ → Option (List ℕ) → Memory → Result (StdRet × Memory)
checked_receive_spdu receivers self node_id spdu_len spdu_data m = do
  bytes ← non_null spdu_data
  safe_com_receive_spdu receivers self node_id spdu_len bytes m

module _ (plat : Platform) where
  abbrev pub checked_send_data : ℕ → ℕ → Option (List ℕ) → Memory → Result (StdRet × Memory)
  checked_send_data msg_id msg_len msg_data m = do
    bytes ← non_null msg_data
    safe_com_send_data plat msg_id msg_len bytes m

  abbrev pub checked_open_connection : ℕ → Memory → Result (StdRet × Memory)
  checked_open_connection msg_id m = safe_com_open_connection plat msg_id m

  abbrev pub checked_close_connection : ℕ → Memory → Result (StdRet × Memory)
  checked_close_connection msg_id m = safe_com_close_connection plat msg_id m
