-- ===== src/SafeCom/Impl.antt =====
-- safecom/src/safecom_impl.c, and safecom/src/safecom.c, which checks its pointers and calls it.
use rasta_s.Prelude.{
  ℕ, zero, suc, ◌+◌, List, [], ◌∷◌, Option, none, some, Result, ok, err, null_pointer,
  out_of_bounds, ◌>>=◌, ◌==◌, if◌then◌else◌, get_elem?, set, take,
}
use rasta_s.Platform.{Platform}
use rasta_s.Pdu.Types.{zero_pdu}
use rasta_s.Pdu.Build.{data_pdu}
use rasta_s.Sm.Types.{
  Context, SmType, closed, SmRole, open_conn, close_conn, send_data, vtable_at, current_timestamp,
  SafeComVtable, Callback,
}
use rasta_s.Sm.Machine.{sm_init, sm_handle_event}
use rasta_s.SafeCom.Types.{
  StdRet, std_ok, SmPointer, no_sms, sms_at, SafeComType, Memory, Receivers,
}

-- `array[i]` as an object.
unfoldable pub element : List SmType → ℕ → Result SmType
element xs i = elim (get_elem? xs i) [ none ↦ err out_of_bounds | some s ↦ ok s ]

abbrev pub write_array : ℕ → List SmType → Memory → Memory
write_array address xs m = record m { arrays = λ a. if a == address then xs else m.arrays a }

-- `sms->vtable = &self->vtable; sms->time.Tlocal = GetCurrentTimestamp;`: the first element only.
unfoldable pub connect_first : SafeComVtable → List SmType → Result (List SmType)
connect_first v [] = err out_of_bounds
connect_first v (s ∷ rest) = ok (
    record s { vtable = vtable_at v; time = record (s.time) { tlocal = current_timestamp } } ∷ rest)

-- The body of the loop of `SafeCom_Init_Impl`.
abbrev pub init_machine : SmRole → ℕ → SmType → SmType
init_machine role i s = sm_init (record s { channel = i; state = closed; role = role })

unfoldable pub init_loop : SmRole → ℕ → ℕ → List SmType → Result (List SmType)
init_loop role zero i xs = ok xs
init_loop role (suc rounds) i xs = do
  s ← element xs i
  init_loop role rounds (i + 1) (set xs i (init_machine role i s))

unfoldable pub init_array : SafeComType → List SmType → Result (List SmType)
init_array config xs = do
  connected ← connect_first config.vtable xs
  init_loop config.config.role config.config.max_connections 0 connected

-- `sms = pConfig->config.sms;` and the array behind it.
unfoldable pub init_at : SmPointer → SafeComType → Memory → Result (StdRet × Memory)
init_at no_sms config m = err null_pointer
init_at (sms_at address) config m = do
  xs ← init_array config (m.arrays address)
  ok (std_ok, record (write_array address xs m) { sms = sms_at address })

-- The new `*self` is the configuration.
unfoldable pub safe_com_init : SafeComType → Memory → Result (StdRet × SafeComType × Memory)
safe_com_init config m = do (ret, m') ← init_at config.config.sms config m; ok (ret, config, m')

abbrev pub safe_com_main : Memory → Result (StdRet × Memory)
safe_com_main m = ok (std_ok, m)

abbrev pub safe_com_connection_state_request : ℕ → Memory → Result (StdRet × Memory)
safe_com_connection_state_request msg_id m = ok (std_ok, m)

-- The memory with one more call of `ReceiveMsg`.
abbrev pub listed : Callback → ℕ → ℕ → List ℕ → Memory → Memory
listed callback node_id spdu_len spdu_data m = record m {
  received =
      record {
        callback = callback;
        node_id = node_id;
        spdu_len = spdu_len;
        bytes = take spdu_len spdu_data;
      }
      ∷ m.received;
}

-- `self->vtable.ReceiveMsg(nodeId, spduLen, pSpduData);`, whose result is ignored. In an object that
-- is still zeroed, `none`, the callback is NULL.
unfoldable pub safe_com_receive_spdu :
    Receivers → Option SafeComType → ℕ → ℕ → List ℕ → Memory → Result (StdRet × Memory)
safe_com_receive_spdu receivers none node_id spdu_len spdu_data m = err null_pointer
safe_com_receive_spdu receivers (some self) node_id spdu_len spdu_data m = do
  let callback = self.vtable.receive_msg
  (ret, m') ←
      receivers callback node_id spdu_len spdu_data (listed callback node_id spdu_len spdu_data m)
  ok (std_ok, m')

-- A call with `&sms[msgId]` and `PDU_S pdu = { 0 };`, run in place.
unfoldable pub run_at :
    SmPointer → ℕ → (Context → Result Context) → Memory → Result (StdRet × Memory)
run_at no_sms msg_id action m = err null_pointer
run_at (sms_at address) msg_id action m = do
  s ← element (m.arrays address) msg_id
  c ← action (record { self = s; pdu = zero_pdu; io = m.io })
  ok (std_ok, record (write_array address (set (m.arrays address) msg_id (c.self)) m) { io = c.io })

module _ (plat : Platform) where
  unfoldable pub safe_com_send_data : ℕ → ℕ → List ℕ → Memory → Result (StdRet × Memory)
  safe_com_send_data msg_id msg_len msg_data m =
      run_at m.sms msg_id (λ c. data_pdu plat msg_len msg_data c >>= sm_handle_event plat send_data)
        m

  unfoldable pub safe_com_open_connection : ℕ → Memory → Result (StdRet × Memory)
  safe_com_open_connection msg_id m = run_at m.sms msg_id (sm_handle_event plat open_conn) m

  unfoldable pub safe_com_close_connection : ℕ → Memory → Result (StdRet × Memory)
  safe_com_close_connection msg_id m = run_at m.sms msg_id (sm_handle_event plat close_conn) m
