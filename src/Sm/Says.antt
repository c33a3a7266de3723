-- ===== src/Sm/Says.antt =====
-- What an open connection can be asked to say: a heartbeat or data, and the calls that say it
-- (safecom/src/sm.c, safecom/src/safecom_impl.c: `SafeCom_SendData_Impl`).
use rasta_s.Prelude.{ℕ, ◌≤◌, List, [], Result, ◌>>=◌, length}
use rasta_s.Platform.{Platform}
use rasta_s.Pdu.Types.{Pointer, MessageType, null, at, zero_pdu, heartbeat, data_message}
use rasta_s.Pdu.Build.{data_pdu}
use rasta_s.Sm.Types.{Context, Event, th_elapsed, send_data, recv_hb, recv_data}
use rasta_s.Sm.Machine.{sm_handle_event}
use rasta_s.Sm.Session.{handed}

pub data Says : Type 0 where
  beat : Says
  message : List ℕ → Says

-- A message that the buffers hold.
abbrev pub Short : Says → Type 0
Short beat = Unit {0}
Short (message bytes) = length bytes ≤ 22

abbrev pub said : Says → List ℕ
said beat = []
said (message bytes) = bytes

-- The event of a frame at the receiver.
abbrev pub heard_as : Says → Event
heard_as beat = recv_hb
heard_as (message bytes) = recv_data

abbrev pub kind_of : Says → MessageType
kind_of beat = heartbeat
kind_of (message bytes) = data_message

abbrev pub body_of : Says → Pointer
body_of beat = null
body_of (message bytes) = at bytes

-- The calls that say it, with the zeroed PDU of the interface.
unfoldable pub speak : Platform → Says → Context → Result Context
speak plat beat c = sm_handle_event plat th_elapsed (handed zero_pdu c)
speak plat (message bytes) c =
    data_pdu plat (length bytes) bytes (handed zero_pdu c) >>= sm_handle_event plat send_data
