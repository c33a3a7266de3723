-- ===== src/Sm/Orderly.antt =====
-- The numbers in the transition table: while a connection stays open, each message that it sends
-- takes the next one (safecom/src/sm.c).
use rasta_s.Prelude.{ℕ, ◌+◌, ◌≡◌, ◌≢◌, refl, Bool, true, false, if◌then◌else◌}
use rasta_s.Pdu.Types.{Pointer, MessageType, connection_response, retransmission_request, heartbeat}
use rasta_s.Pdu.Bytes.{u32}
use rasta_s.Sm.Types.{
  State, closed, down, start, up, retr_req, retr_run, Event, th_elapsed, ti_elapsed, open_conn,
  close_conn, send_data, recv_conn_req, recv_conn_resp, recv_retr_req, recv_retr_resp, recv_hb,
  recv_data, recv_retr_data, SmRole, client, server,
}
use rasta_s.Sm.Table.{Observation, Output, Reaction, silent, sends, message_reaction, react}
use rasta_s.Sm.Runs.{numbered}
use rasta_s.Sm.Session.{observed}

-- A message that takes the next number.
abbrev pub IsCounted : MessageType → Type 0
IsCounted kind = (seed n : ℕ) → numbered kind seed n ≡ u32 (n + 1)

-- What a state may do without an opening: close, send nothing, send a message with the next
-- number, or answer a connection request with the number drawn before.
pub data IsOrderly (s : State) : Reaction → Type 0 where
  shuts : {o : Output} → IsOrderly s (closed, o)
  rests : {t : State} → (t ≡ down → s ≡ down) → IsOrderly s (t, silent)
  counts :
      {t : State} {kind : MessageType} {body : Pointer}
      → IsCounted kind
      → t ≢ down
      → IsOrderly s (t, sends kind body)
  answers :
      {t : State} {body : Pointer}
      → s ≡ down
      → t ≢ down
      → IsOrderly s (t, sends connection_response body)

if-IsOrderly :
    (b : Bool) (s : State) (x y : Reaction)
    → IsOrderly s x
    → IsOrderly s y
    → IsOrderly s (if b then x else y)
if-IsOrderly true s x y hx hy = hx
if-IsOrderly false s x y hx hy = hy

heartbeat-IsCounted : IsCounted heartbeat
heartbeat-IsCounted seed n = refl

request-IsCounted : IsCounted retransmission_request
request-IsCounted seed n = refl

message-IsOrderly : (s t : State) (o : Observation) → t ≢ down → IsOrderly s (message_reaction t o)
message-IsOrderly s t o h =
    if-IsOrderly o.in_sequence s _ _
      (if-IsOrderly o.in_time s _ _ (rests (λ e. absurd (h e))) shuts)
      (counts request-IsCounted (λ e. cc))

-- Every entry of the table but the opening of a closed connection, and the sending of data.
pub react-IsOrderly :
    (role : SmRole) (v q i : Bool) (s : State) (e : Event)
    → s ≢ closed
    → e ≢ send_data
    → IsOrderly s (react s e (observed role v q i))
react-IsOrderly role v q i closed e h k = absurd (h refl)
react-IsOrderly role v q i s send_data h k = absurd (k refl)
react-IsOrderly role v q i down recv_conn_req h k =
    if-IsOrderly v down _ _ (answers refl (λ e. cc)) shuts
react-IsOrderly role v q i down open_conn h k = shuts
react-IsOrderly role v q i down close_conn h k = shuts
react-IsOrderly role v q i down ti_elapsed h k = shuts
react-IsOrderly role v q i down _ h k = rests (λ e. refl)
react-IsOrderly client v q i start recv_conn_resp h k =
    if-IsOrderly v start _ _ (counts heartbeat-IsCounted (λ e. cc)) shuts
react-IsOrderly server v q i start recv_hb h k =
    if-IsOrderly q start _ _ (if-IsOrderly i start _ _ (rests (λ e. cc)) shuts) shuts
react-IsOrderly role v q i start th_elapsed h k = counts heartbeat-IsCounted (λ e. cc)
react-IsOrderly role v q i start _ h k = shuts
react-IsOrderly role v q i up recv_hb h k = message-IsOrderly up up (observed role v q i) (λ e. cc)
react-IsOrderly role v q i up recv_data h k =
    message-IsOrderly up up (observed role v q i) (λ e. cc)
react-IsOrderly role v q i up th_elapsed h k = counts heartbeat-IsCounted (λ e. cc)
react-IsOrderly role v q i up _ h k = shuts
react-IsOrderly role v q i retr_req recv_retr_resp h k = rests (λ e. cc)
react-IsOrderly role v q i retr_req th_elapsed h k = counts heartbeat-IsCounted (λ e. cc)
react-IsOrderly role v q i retr_req recv_hb h k = rests (λ e. cc)
react-IsOrderly role v q i retr_req recv_data h k = rests (λ e. cc)
react-IsOrderly role v q i retr_req recv_retr_data h k = rests (λ e. cc)
react-IsOrderly role v q i retr_req _ h k = shuts
react-IsOrderly role v q i retr_run recv_hb h k =
    message-IsOrderly retr_run up (observed role v q i) (λ e. cc)
react-IsOrderly role v q i retr_run recv_data h k =
    message-IsOrderly retr_run up (observed role v q i) (λ e. cc)
react-IsOrderly role v q i retr_run recv_retr_data h k =
    message-IsOrderly retr_run retr_run (observed role v q i) (λ e. cc)
react-IsOrderly role v q i retr_run recv_retr_req h k = if-IsOrderly q retr_run _ _ shuts shuts
react-IsOrderly role v q i retr_run th_elapsed h k = counts heartbeat-IsCounted (λ e. cc)
react-IsOrderly role v q i retr_run _ h k = shuts
