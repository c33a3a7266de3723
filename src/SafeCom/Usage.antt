-- ===== src/SafeCom/Usage.antt =====
-- Any use of one connection through the functions of safecom/include/rass.h and
-- safecom/include/sic.h, against an abstract channel.
use rasta_s.Prelude.{ℕ, ◌≡◌, refl, ap₂, Option, ◌∙◌, List, [], ◌∷◌, none, some, ok, ◌>>=◌}
use rasta_s.Platform.{Platform, IsSized}
use rasta_s.Sm.Types.{SmType, SmRole, State, SafeComVtable}
use rasta_s.SafeCom.Types.{std_ok, std_not_ok, SafeComConfig, SafeComType, Receivers}
use rasta_s.SafeCom.Impl.{safe_com_receive_spdu, listed}
use rasta_s.SafeCom.Instances.{
  Instance, System, with_memory, configured, rass_vtable, sic_vtable, rass_init_vtable, rass_init,
  sic_init_vtable, sic_init, rass_main, sic_main, rass_receive_spdu, sic_receive_spdu,
  rass_connection_state_request, sic_connection_state_request, rass_send_data, sic_send_data,
  rass_open_connection, sic_open_connection, rass_close_connection, sic_close_connection,
}
use rasta_s.SafeCom.Calls.{
  Side, rass, sic, Call, init_vtable, init, run_main, request_state, open_channel, close_channel,
  hand_over, send, perform, performs,
}
use rasta_s.SafeCom.Proper.{Accepts, after_call, after_calls, IsProper, AllProper}
use rasta_s.SafeCom.Usable.{
  IsInitialised, IsUsable, Spares, Spares-trans, Leaves, again, sparing, opening-Leaves,
  closing-Leaves, sending-Leaves,
}

configured-IsInitialised :
    (given : Option SafeComConfig) (inst : Instance)
    → IsInitialised inst
    → IsInitialised (configured given inst)
configured-IsInitialised none inst h = h
configured-IsInitialised (some config) inst h = record {
  marked = h.marked;
  object = h.object;
  self_is = h.self_is;
}

module _ (plat : Platform) (v : SafeComVtable) (sized : IsSized plat) (receivers : Receivers)
    (address i : ℕ) where
  unchanged :
      (s : System) (machine : SmType)
      → IsUsable v address i s machine
      → Leaves plat v sized address i (ok (std_ok, s)) s machine.state machine.role
  unchanged s machine u =
      sparing plat v sized address i s s machine std_ok u u.rass_initialised u.sic_initialised refl
        refl refl

  receiving-Leaves :
      (self : Option SafeComType) (object : SafeComType) (node len : ℕ) (bytes : List ℕ)
      (s : System) (machine : SmType)
      → IsUsable v address i s machine
      → self ≡ some object
      → Accepts receivers node len bytes
      → Leaves plat v sized address i
          (safe_com_receive_spdu receivers self node len bytes s.memory >>= with_memory s)
          s
          machine.state
          machine.role
  unfolding safe_com_receive_spdu
  receiving-Leaves self object node len bytes s machine u self_is accepts =
      let callback = object.vtable.receive_msg in
      let (ret, m', runs, sms, arrays, io) =
        accepts callback (listed callback node len bytes (s.memory)) in
      rw self_is (
        rw runs (
          sparing plat v sized address i s (record s { memory = m' }) machine std_ok u
            u.rass_initialised u.sic_initialised sms arrays io))

  perform-Leaves :
      (side : Side) (call : Call) (s : System) (machine : SmType)
      → IsUsable v address i s machine
      → IsProper receivers i call
      → Leaves plat v sized address i
          (perform plat receivers side call s)
          s
          (after_call machine.role machine.state call)
          machine.role
  unfolding perform rass_init_vtable rass_init sic_init_vtable sic_init rass_main sic_main
      rass_receive_spdu sic_receive_spdu rass_connection_state_request sic_connection_state_request
      rass_send_data sic_send_data rass_open_connection sic_open_connection rass_close_connection
      sic_close_connection
  perform-Leaves rass (init_vtable config) s machine u h =
      rw (again config (s.rass) s.memory u.rass_initialised.marked) (
        sparing plat v sized address i s s machine std_not_ok u u.rass_initialised u.sic_initialised
          refl refl refl)
  perform-Leaves sic (init_vtable config) s machine u h =
      rw (again config (s.sic) s.memory u.sic_initialised.marked) (
        sparing plat v sized address i s s machine std_not_ok u u.rass_initialised u.sic_initialised
          refl refl refl)
  perform-Leaves rass (init given) s machine u h =
      let on = configured-IsInitialised given (s.rass) u.rass_initialised in
      rw
        (again (record { vtable = rass_vtable; config = (configured given (s.rass)).config })
          (configured given (s.rass)) s.memory on.marked)
        (sparing plat v sized address i s (record s { rass = configured given (s.rass) }) machine
          std_not_ok u on u.sic_initialised refl refl refl)
  perform-Leaves sic (init given) s machine u h =
      let on = configured-IsInitialised given (s.sic) u.sic_initialised in
      rw
        (again (record { vtable = sic_vtable; config = (configured given (s.sic)).config })
          (configured given (s.sic)) s.memory on.marked)
        (sparing plat v sized address i s (record s { sic = configured given (s.sic) }) machine
          std_not_ok u u.rass_initialised on refl refl refl)
  perform-Leaves rass (hand_over node len (some bytes)) s machine u h =
      receiving-Leaves (s.rass.self) u.rass_initialised.object node len bytes s machine u
        u.rass_initialised.self_is h
  perform-Leaves sic (hand_over node len (some bytes)) s machine u h =
      receiving-Leaves (s.sic.self) u.sic_initialised.object node len bytes s machine u
        u.sic_initialised.self_is h
  perform-Leaves rass (open_channel j) s machine u h =
      opening-Leaves plat v sized address i j s machine u h
  perform-Leaves sic (open_channel j) s machine u h =
      opening-Leaves plat v sized address i j s machine u h
  perform-Leaves rass (close_channel j) s machine u h =
      closing-Leaves plat v sized address i j s machine u h
  perform-Leaves sic (close_channel j) s machine u h =
      closing-Leaves plat v sized address i j s machine u h
  perform-Leaves rass (send j len (some bytes)) s machine u h =
      sending-Leaves plat v sized address i j len bytes s machine u h
  perform-Leaves sic (send j len (some bytes)) s machine u h =
      sending-Leaves plat v sized address i j len bytes s machine u h
  perform-Leaves rass run_main s machine u h = unchanged s machine u
  perform-Leaves sic run_main s machine u h = unchanged s machine u
  perform-Leaves rass (request_state j) s machine u h = unchanged s machine u
  perform-Leaves sic (request_state j) s machine u h = unchanged s machine u
  perform-Leaves side (hand_over node len none) s machine u h = absurd h
  perform-Leaves side (send j len none) s machine u h = absurd h

  -- With both instances initialised and a machine that is set up with its clock, its callbacks and
  -- a send buffer of 100 bytes, any sequence of calls of the functions of rass.h and sic.h on its
  -- connection returns, if at most 22 bytes are sent at a time, which are there to read, and every
  -- received message is one on which any callback returns and changes neither the machines, nor
  -- the pointer to them, nor the static variables of the state machine, the clock and the frames
  -- sent. The state is that of an abstract channel: opening a closed one leads a client to
  -- STATE_START and a server to STATE_DOWN, data keeps STATE_UP, STATE_RETR_REQ and
  -- STATE_RETR_RUN, receiving such a message, the main function, state requests and further
  -- initialisations keep every state, and everything else leads to STATE_CLOSED. The connection
  -- can be used again afterwards, and all other machines are as before.
  pub performs-after_calls :
      (calls : List (Side × Call)) (s : System) (machine : SmType)
      → IsUsable v address i s machine
      → AllProper receivers i calls
      → (s' : System) × (machine' : SmType) × (performs plat receivers calls s ≡ ok s')
        × IsUsable v address i s' machine'
        × (machine'.state ≡ after_calls machine.role machine.state calls)
        × Spares address i s s'
  unfolding performs
  performs-after_calls [] s machine u h =
      (s, machine, refl, u, refl, record { others = λ j k. refl; elsewhere = λ b k. refl })
  performs-after_calls (call ∷ rest) s machine u (proper, h) =
      let (ret, s1, machine1, e1, u1, state_is, role_is, spares) =
        perform-Leaves call.0 call.1 s machine u proper in
      let (s2, machine2, e2, u2, then_is, then_spares) =
        performs-after_calls rest s1 machine1 u1 h in
      (
        s2,
        machine2,
        rw e1 e2,
        u2,
        then_is
            ∙ ap₂ (λ (role : SmRole) (state : State). after_calls role state rest) role_is state_is,
        Spares-trans address i s s1 s2 spares then_spares,
      )
