-- ===== src/SafeCom/Calls.antt =====
-- Programs that use only the functions of safecom/include/rass.h and safecom/include/sic.h: any
-- sequence of their calls, one after the other.
use rasta_s.Prelude.{
  ℕ, List, [], ◌∷◌, Option, none, some, Result, ok, err, ◌>>=◌, Ensures, Ensures-bind, ◌≡◌, ap, sym,
  subst,
}
use rasta_s.Platform.{Platform}
use rasta_s.Pdu.Build.{data_pdu}
use rasta_s.Sm.Types.{Context, SmType, Callback, open_conn, close_conn, send_data}
use rasta_s.Sm.Unopened.{Unopened, sm_handle_event-Unopened, data_pdu-Unopened}
use rasta_s.SafeCom.Waiting.{
  EachUnopened, AllUnopened, KeepsUnopened, run_at-AllUnopened, init_instance-AllUnopened,
}
use rasta_s.SafeCom.Types.{StdRet, SafeComConfig, SafeComType, Memory, Receivers}
use rasta_s.SafeCom.Impl.{
  safe_com_receive_spdu, safe_com_send_data, safe_com_open_connection, safe_com_close_connection,
}
use rasta_s.SafeCom.Instances.{
  Instance, System, configured, with_rass, with_sic, with_memory, rass_vtable, sic_vtable,
  rass_init_vtable, rass_init, sic_init_vtable, sic_init, rass_main, sic_main, rass_receive_spdu,
  sic_receive_spdu, rass_connection_state_request, sic_connection_state_request, rass_send_data,
  sic_send_data, rass_open_connection, sic_open_connection, rass_close_connection,
  sic_close_connection,
}

pub data Side : Type 0 where
  rass sic : Side

-- One call of a function of an instance.
pub data Call : Type 0 where
  init_vtable : SafeComType → Call
  init : Option SafeComConfig → Call
  run_main : Call
  request_state open_channel close_channel : ℕ → Call
  hand_over send : ℕ → ℕ → Option (List ℕ) → Call

unfoldable pub perform : Platform → Receivers → Side → Call → System → Result (StdRet × System)
perform plat receivers rass (init_vtable config) s = rass_init_vtable config s
perform plat receivers rass (init given) s = rass_init given s
perform plat receivers rass run_main s = rass_main s
perform plat receivers rass (request_state msg_id) s = rass_connection_state_request msg_id s
perform plat receivers rass (open_channel msg_id) s = rass_open_connection plat msg_id s
perform plat receivers rass (close_channel msg_id) s = rass_close_connection plat msg_id s
perform plat receivers rass (hand_over node len bytes) s =
    rass_receive_spdu receivers node len bytes s
perform plat receivers rass (send msg_id len bytes) s = rass_send_data plat msg_id len bytes s
perform plat receivers sic (init_vtable config) s = sic_init_vtable config s
perform plat receivers sic (init given) s = sic_init given s
perform plat receivers sic run_main s = sic_main s
perform plat receivers sic (request_state msg_id) s = sic_connection_state_request msg_id s
perform plat receivers sic (open_channel msg_id) s = sic_open_connection plat msg_id s
perform plat receivers sic (close_channel msg_id) s = sic_close_connection plat msg_id s
perform plat receivers sic (hand_over node len bytes) s =
    sic_receive_spdu receivers node len bytes s
perform plat receivers sic (send msg_id len bytes) s = sic_send_data plat msg_id len bytes s

unfoldable pub performs : Platform → Receivers → List (Side × Call) → System → Result System
performs plat receivers [] s = ok s
performs plat receivers (call ∷ rest) s = do
  (ret, s') ← perform plat receivers call.0 call.1 s
  performs plat receivers rest s'

-- What a call of an instance leaves when it returns.
abbrev pub SystemUnopened : Result (StdRet × System) → Type 0
SystemUnopened r = Ensures (λ (p : StdRet × System). AllUnopened p.1.memory) r

with_memory-AllUnopened :
    (s : System) (r : Result (StdRet × Memory))
    → KeepsUnopened r
    → SystemUnopened (r >>= with_memory s)
with_memory-AllUnopened s (ok p) h = h
with_memory-AllUnopened s (err fault) h = tt

with_rass-AllUnopened :
    (s : System) (r : Result (StdRet × Instance × Memory))
    → Ensures (λ (p : StdRet × Instance × Memory). AllUnopened p.2) r
    → SystemUnopened (r >>= with_rass s)
with_rass-AllUnopened s (ok p) h = h
with_rass-AllUnopened s (err fault) h = tt

with_sic-AllUnopened :
    (s : System) (r : Result (StdRet × Instance × Memory))
    → Ensures (λ (p : StdRet × Instance × Memory). AllUnopened p.2) r
    → SystemUnopened (r >>= with_sic s)
with_sic-AllUnopened s (ok p) h = h
with_sic-AllUnopened s (err fault) h = tt

-- Callbacks for received messages that do not touch the machines. Those of mock/src are such; those
-- of the unit tests call the state machine.
abbrev pub LeaveMachines : Receivers → Type 0
LeaveMachines receivers =
    (f : Callback) (node len : ℕ) (bytes : List ℕ) (m : Memory)
    → Ensures (λ (p : StdRet × Memory). p.1.arrays ≡ m.arrays) (receivers f node len bytes m)

receiving-AllUnopened :
    (receivers : Receivers) (self : Option SafeComType) (node len : ℕ) (bytes : List ℕ) (m : Memory)
    → LeaveMachines receivers
    → AllUnopened m
    → KeepsUnopened (safe_com_receive_spdu receivers self node len bytes m)
unfolding safe_com_receive_spdu
receiving-AllUnopened receivers none node len bytes m leaves h = tt
receiving-AllUnopened receivers (some self) node len bytes m leaves h =
    Ensures-bind (λ (p : StdRet × Memory). p.1.arrays ≡ m.arrays)
      (λ (p : StdRet × Memory). AllUnopened p.1) _ _
      (leaves self.vtable.receive_msg node len bytes _)
      (λ p same address.
        subst EachUnopened (ap (λ (a : ℕ → List SmType). a address) (sym same)) (h address))

module _ (plat : Platform) where
  opening-AllUnopened :
      (i : ℕ) (m : Memory) → AllUnopened m → KeepsUnopened (safe_com_open_connection plat i m)
  unfolding safe_com_open_connection
  opening-AllUnopened i m h =
      run_at-AllUnopened m.sms i _ m h (λ c u. sm_handle_event-Unopened plat open_conn c tt u)

  closing-AllUnopened :
      (i : ℕ) (m : Memory) → AllUnopened m → KeepsUnopened (safe_com_close_connection plat i m)
  unfolding safe_com_close_connection
  closing-AllUnopened i m h =
      run_at-AllUnopened m.sms i _ m h (λ c u. sm_handle_event-Unopened plat close_conn c tt u)

  sending-AllUnopened :
      (i len : ℕ) (bytes : List ℕ) (m : Memory)
      → AllUnopened m
      → KeepsUnopened (safe_com_send_data plat i len bytes m)
  unfolding safe_com_send_data
  sending-AllUnopened i len bytes m h = run_at-AllUnopened m.sms i _ m h (λ c u.
      Ensures-bind (λ (k : Context). Unopened k.self) (λ (k : Context). Unopened k.self)
        (data_pdu plat len bytes c) _ (data_pdu-Unopened plat len bytes c u)
        (λ k v. sm_handle_event-Unopened plat send_data k tt v))

  perform-AllUnopened :
      (receivers : Receivers) (side : Side) (call : Call) (s : System)
      → LeaveMachines receivers
      → AllUnopened s.memory
      → SystemUnopened (perform plat receivers side call s)
  unfolding perform rass_init_vtable rass_init sic_init_vtable sic_init rass_main sic_main
      rass_receive_spdu sic_receive_spdu rass_connection_state_request sic_connection_state_request
      rass_send_data sic_send_data rass_open_connection sic_open_connection rass_close_connection
      sic_close_connection safe_com_receive_spdu
  perform-AllUnopened receivers rass (init_vtable config) s leaves h =
      with_rass-AllUnopened s _ (init_instance-AllUnopened config (s.rass) s.memory h)
  perform-AllUnopened receivers rass (init given) s leaves h = with_rass-AllUnopened s _ (
      init_instance-AllUnopened
        (record { vtable = rass_vtable; config = (configured given (s.rass)).config })
        (configured given (s.rass)) s.memory h)
  perform-AllUnopened receivers rass (open_channel i) s leaves h =
      with_memory-AllUnopened s _ (opening-AllUnopened i s.memory h)
  perform-AllUnopened receivers rass (close_channel i) s leaves h =
      with_memory-AllUnopened s _ (closing-AllUnopened i s.memory h)
  perform-AllUnopened receivers rass (send i len none) s leaves h = tt
  perform-AllUnopened receivers rass (send i len (some bytes)) s leaves h =
      with_memory-AllUnopened s _ (sending-AllUnopened i len bytes s.memory h)
  perform-AllUnopened receivers sic (init_vtable config) s leaves h =
      with_sic-AllUnopened s _ (init_instance-AllUnopened config (s.sic) s.memory h)
  perform-AllUnopened receivers sic (init given) s leaves h = with_sic-AllUnopened s _ (
      init_instance-AllUnopened
        (record { vtable = sic_vtable; config = (configured given (s.sic)).config })
        (configured given (s.sic)) s.memory h)
  perform-AllUnopened receivers sic (open_channel i) s leaves h =
      with_memory-AllUnopened s _ (opening-AllUnopened i s.memory h)
  perform-AllUnopened receivers sic (close_channel i) s leaves h =
      with_memory-AllUnopened s _ (closing-AllUnopened i s.memory h)
  perform-AllUnopened receivers sic (send i len none) s leaves h = tt
  perform-AllUnopened receivers sic (send i len (some bytes)) s leaves h =
      with_memory-AllUnopened s _ (sending-AllUnopened i len bytes s.memory h)
  perform-AllUnopened receivers rass run_main s leaves h = h
  perform-AllUnopened receivers rass (request_state i) s leaves h = h
  perform-AllUnopened receivers rass (hand_over node len none) s leaves h = tt
  perform-AllUnopened receivers rass (hand_over node len (some bytes)) s leaves h =
      with_memory-AllUnopened s _
        (receiving-AllUnopened receivers (s.rass.self) node len bytes s.memory leaves h)
  perform-AllUnopened receivers sic run_main s leaves h = h
  perform-AllUnopened receivers sic (request_state i) s leaves h = h
  perform-AllUnopened receivers sic (hand_over node len none) s leaves h = tt
  perform-AllUnopened receivers sic (hand_over node len (some bytes)) s leaves h =
      with_memory-AllUnopened s _
        (receiving-AllUnopened receivers (s.sic.self) node len bytes s.memory leaves h)

  -- With callbacks for received messages that leave the machines as they are, no sequence of calls
  -- of the functions of rass.h and sic.h opens a connection: if every machine of the memory is in
  -- STATE_CLOSED, STATE_DOWN or STATE_START, with the handler of such a state or none, so is every
  -- machine when the calls have returned, whatever SPDUs were handed over.
  pub performs-AllUnopened :
      (receivers : Receivers) (calls : List (Side × Call)) (s : System)
      → LeaveMachines receivers
      → AllUnopened s.memory
      → Ensures (λ (s' : System). AllUnopened s'.memory) (performs plat receivers calls s)
  unfolding performs
  performs-AllUnopened receivers [] s leaves h = h
  performs-AllUnopened receivers (call ∷ rest) s leaves h =
      Ensures-bind (λ (p : StdRet × System). AllUnopened p.1.memory)
        (λ (s' : System). AllUnopened s'.memory) (perform plat receivers call.0 call.1 s) _
        (perform-AllUnopened receivers call.0 call.1 s leaves h)
        (λ p k. performs-AllUnopened receivers rest p.1 leaves k)
