-- ===== src/Sm/Types.antt =====
-- safecom/include/sm.h, safecom/include/safecom_vtable.h, safecom/include/time_mon.h: the state
-- machine's context, and what its handlers touch besides it.
use rasta_s.Prelude.{ℕ, List}
use rasta_s.Pdu.Types.{Pdu}

pub data State : Type 0 where
  closed down start up retr_req retr_run : State

pub data Event : Type 0 where
  th_elapsed ti_elapsed open_conn close_conn send_data : Event
  recv_conn_req recv_conn_resp recv_retr_req recv_retr_resp recv_disc_req : Event
  recv_hb recv_data recv_retr_data : Event

pub data SmRole : Type 0 where
  client server : SmRole

-- `EventHandler`: NULL or one of the handlers of safecom/src/sm.c.
pub data EventHandler : Type 0 where
  no_handler : EventHandler
  closed_handler down_handler start_handler up_handler : EventHandler
  retr_req_handler retr_run_handler : EventHandler

-- The functions that the sources put into a vtable, and those of a caller.
pub data Callback : Type 0 where
  iscdisp_send_spdu fec_receive_btp oscom_send_spdu oscom_receive_msg : Callback
  user_callback : ℕ → Callback

pub record SafeComVtable : Type 0 where
  pub send_spdu : Callback
  pub receive_msg : Callback

-- `SafeComVtable *`: NULL, or a pointer, with the table that it points to.
pub data VtablePointer : Type 0 where
  no_vtable : VtablePointer
  vtable_at : SafeComVtable → VtablePointer

-- `GetTimestamp`: NULL or `GetCurrentTimestamp`.
pub data GetTimestamp : Type 0 where
  no_timestamp current_timestamp : GetTimestamp

pub record TimeoutsConfig : Type 0 where
  pub th : ℕ
  pub tmax : ℕ
  pub tseq : ℕ

-- `ti` is an `int32_t`, kept as its bit pattern; the rest are `uint32_t`.
pub record TimeMonitoring : Type 0 where
  pub timeouts : TimeoutsConfig
  pub tlocal : GetTimestamp
  pub ti : ℕ
  pub trtd : ℕ
  pub talive : ℕ
  pub ta : ℕ
  pub tb : ℕ

-- The `int32_t` fields `snr` to `ctsr` are kept as bit patterns below 2 ^ 32. The sources compare
-- them with, and subtract them from, `uint32_t` values, which reads the pattern.
pub record SmType : Type 0 where
  pub channel : ℕ
  pub state : State
  pub role : SmRole
  pub snr : ℕ
  pub snt : ℕ
  pub cst : ℕ
  pub csr : ℕ
  pub tsr : ℕ
  pub ctsr : ℕ
  pub handle_event : EventHandler
  pub vtable : VtablePointer
  pub time : TimeMonitoring

-- One call of a `SendSpdu` callback, with the bytes that its pointer and length give it.
pub record Frame : Type 0 where
  pub callback : Callback
  pub node_id : ℕ
  pub spdu_len : ℕ
  pub bytes : List ℕ

-- The static variables of safecom/src/sm.c (`buff_to_send`, and `seed` of `snt_rand_value`), the
-- number of calls of `clock()` so far, and the frames sent, the latest first.
pub record Io : Type 0 where
  pub buff_to_send : List ℕ
  pub seed : ℕ
  pub calls : ℕ
  pub sent : List Frame

-- The arguments of a handler, which it works on in place, and the static state.
pub record Context : Type 0 where
  pub self : SmType
  pub pdu : Pdu
  pub io : Io

abbrev pub max_buff_size : ℕ
max_buff_size = 100
