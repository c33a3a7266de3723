-- ===== src/SafeCom/Proper.antt =====
-- The abstract channel that the user of a connection sees, and the calls that are proper on it
-- (safecom/include/rass.h, safecom/include/sic.h).
use rasta_s.Prelude.{ℕ, ◌≤◌, ◌≡◌, refl, List, [], ◌∷◌, none, some, ok, length}
use rasta_s.Pdu.Bytes.{u8}
use rasta_s.Sm.Types.{
  SmRole, client, server, State, closed, down, start, up, retr_req, retr_run, open_conn, close_conn,
  send_data, Callback,
}
use rasta_s.Sm.Table.{Observation, Output, by_role, react}
use rasta_s.SafeCom.Types.{StdRet, Memory, Receivers}
use rasta_s.SafeCom.Calls.{Side, Call, open_channel, close_channel, hand_over, send}

-- The channel as its user sees it: a client that opens it waits for its peer, a server listens; data
-- is sent while it is open; everything else closes it.
abbrev pub opened : State → SmRole → State
opened closed client = start
opened closed server = down
opened _ role = closed

abbrev pub after_data : State → State
after_data up = up
after_data retr_req = retr_req
after_data retr_run = retr_run
after_data _ = closed

abbrev pub after_call : SmRole → State → Call → State
after_call role s (open_channel i) = opened s role
after_call role s (close_channel i) = closed
after_call role s (send i len bytes) = after_data s
after_call role s _ = s

abbrev pub after_calls : SmRole → State → List (Side × Call) → State
after_calls role s [] = s
after_calls role s (call ∷ rest) = after_calls role (after_call role s call.1) rest

closed-opened :
    (role : SmRole) (x y : Output) → (by_role role (start, x) (down, y)).0 ≡ opened closed role
closed-opened client x y = refl
closed-opened server x y = refl

pub react-opened : (s : State) (o : Observation) → (react s open_conn o).0 ≡ opened s o.role
react-opened closed o = closed-opened o.role _ _
react-opened down o = refl
react-opened start o = refl
react-opened up o = refl
react-opened retr_req o = refl
react-opened retr_run o = refl

pub react-closed : (s : State) (o : Observation) → (react s close_conn o).0 ≡ closed
react-closed closed o = refl
react-closed down o = refl
react-closed start o = refl
react-closed up o = refl
react-closed retr_req o = refl
react-closed retr_run o = refl

pub react-after_data : (s : State) (o : Observation) → (react s send_data o).0 ≡ after_data s
react-after_data closed o = refl
react-after_data down o = refl
react-after_data start o = refl
react-after_data up o = refl
react-after_data retr_req o = refl
react-after_data retr_run o = refl

-- Every callback that gets these bytes returns and leaves the machines and the sent frames alone.
abbrev pub Accepts : Receivers → ℕ → ℕ → List ℕ → Type 0
Accepts receivers node len bytes =
    (f : Callback) (m : Memory)
    → (ret : StdRet) × (m' : Memory) × (receivers f node len bytes m ≡ ok (ret, m'))
      × (m'.sms ≡ m.sms)
      × (m'.arrays ≡ m.arrays)
      × (m'.io ≡ m.io)

-- A call on the connection `i`: with at most 22 bytes to send that are there to read, and with
-- received data that the callbacks accept.
abbrev pub IsProper : Receivers → ℕ → Call → Type 0
IsProper receivers i (open_channel j) = j ≡ i
IsProper receivers i (close_channel j) = j ≡ i
IsProper receivers i (hand_over node len none) = ⊥
IsProper receivers i (hand_over node len (some bytes)) = Accepts receivers node len bytes
IsProper receivers i (send j len none) = ⊥
IsProper receivers i (send j len (some bytes)) = (j ≡ i) × (u8 len ≤ 22) × (u8 len ≤ length bytes)
IsProper receivers i _ = Unit {0}

abbrev pub AllProper : Receivers → ℕ → List (Side × Call) → Type 0
AllProper receivers i [] = Unit {0}
AllProper receivers i (call ∷ rest) = IsProper receivers i call.1 × AllProper receivers i rest
