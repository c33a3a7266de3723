-- ===== src/SafeCom/Close.antt =====
-- `SafeCom_CloseConnection` (safecom/src/safecom_impl.c) in every state.
use rasta_s.Prelude.{ℕ, ◌≡◌, refl, subst, ok, length}
use rasta_s.Platform.{Platform, IsSized}
use rasta_s.Pdu.Types.{at, disconnection_request, user_request, no_detailed_reason}
use rasta_s.Pdu.Build.{disc_req_payload}
use rasta_s.Sm.Types.{
  Context, SmType, State, closed, down, start, up, retr_req, retr_run, close_conn, SafeComVtable,
}
use rasta_s.Sm.Machine.{sm_handle_event}
use rasta_s.Sm.Table.{Observation, Output, Reaction, silent, sends, react}
use rasta_s.Sm.Runs.{Step}
use rasta_s.Sm.Observe.{observe}
use rasta_s.Sm.Refine.Machine.{sm_handle_event-refines}
use rasta_s.SafeCom.Types.{Memory, std_ok}
use rasta_s.SafeCom.Impl.{safe_com_close_connection}
use rasta_s.SafeCom.Array.{entered, Located, Ran, run_at-Ran}
use rasta_s.SafeCom.SendData.{Connected}
use rasta_s.SafeCom.Interface.{entered-Ready}

-- A client that waits for its peer and an open connection tell it; a server that waits does not.
abbrev pub farewell : State → Output
farewell closed = silent
farewell down = silent
farewell _ = sends disconnection_request (at (disc_req_payload user_request no_detailed_reason))

react-farewell : (s : State) (o : Observation) → react s close_conn o ≡ (closed, farewell s)
react-farewell closed o = refl
react-farewell down o = refl
react-farewell start o = refl
react-farewell up o = refl
react-farewell retr_req o = refl
react-farewell retr_run o = refl

module _ (plat : Platform) (v : SafeComVtable) (sized : IsSized plat) (m : Memory) (address i : ℕ)
    (s : SmType) (at_index : Located m address i s) where
  -- Closing a connection that is set up returns OK, leaves it in STATE_CLOSED whatever its state,
  -- and leaves every other connection alone; in STATE_START, STATE_UP, STATE_RETR_REQ and
  -- STATE_RETR_RUN it sends one disconnection request with the reason of the user, in STATE_CLOSED
  -- and STATE_DOWN nothing.
  pub safe_com_close_connection-Step :
      Connected v s
      → length m.io.buff_to_send ≡ 100
      → (m' : Memory) × (c' : Context) × (safe_com_close_connection plat i m ≡ ok (std_ok, m'))
        × Ran m address i c' m'
        × Step plat v (entered s m.io) closed (farewell s.state) c'
  unfolding safe_com_close_connection
  safe_com_close_connection-Step k buffer =
      let (c', returns, step, _) =
        sm_handle_event-refines plat v sized close_conn (entered s m.io)
          (entered-Ready plat v sized m address i s at_index k buffer) k.in_sync tt in
      let (m', runs, ran) =
        run_at-Ran m address i s at_index (sm_handle_event plat close_conn) c' returns in
      (
        m',
        c',
        runs,
        ran,
        subst (λ (r : Reaction). Step plat v (entered s m.io) r.0 r.1 c')
            (react-farewell s.state (observe plat (entered s m.io))) step,
      )
