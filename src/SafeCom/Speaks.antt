-- ===== src/SafeCom/Speaks.antt =====
-- `SafeCom_SendData` (safecom/src/safecom_impl.c) as one turn of a dialogue.
use rasta_s.Prelude.{ℕ, ◌≤◌, ◌≡◌, List, ok, ◌>>=◌, length}
use rasta_s.Platform.{Platform, IsSized}
use rasta_s.Pdu.Build.{data_pdu}
use rasta_s.Sm.Types.{SmType, SafeComVtable, send_data}
use rasta_s.Sm.Machine.{sm_handle_event}
use rasta_s.Sm.Says.{message, speak}
use rasta_s.Sm.Talk.{Talker, spoken, speak_lem}
use rasta_s.SafeCom.Types.{Memory, std_ok}
use rasta_s.SafeCom.Impl.{safe_com_send_data}
use rasta_s.SafeCom.Array.{entered, Located, Ran, run_at-Ran}

module _ (plat : Platform) (v : SafeComVtable) (sized : IsSized plat) (m : Memory) (address i : ℕ)
    (s : SmType) (at_index : Located m address i s) where
  -- On a connection in STATE_UP, set up, in step and in range, with a Tmax above 0,
  -- SafeCom_SendData of at most 22 bytes returns OK and leaves the machine as one turn of a
  -- dialogue does, for which the theorems on two machines are stated, and every other connection
  -- as it was.
  pub safe_com_send_data-spoken :
      (bytes : List ℕ)
      → Talker v (entered s m.io)
      → length bytes ≤ 22
      → (m' : Memory) × (safe_com_send_data plat i (length bytes) bytes m ≡ ok (std_ok, m'))
        × Ran m address i (spoken plat v (message bytes) (entered s m.io)) m'
  unfolding safe_com_send_data speak
  safe_com_send_data-spoken bytes t short =
      run_at-Ran m address i s at_index
        (λ c. data_pdu plat (length bytes) bytes c >>= sm_handle_event plat send_data)
        (spoken plat v (message bytes) (entered s m.io))
        (speak_lem plat v sized (message bytes) (entered s m.io) t short)
