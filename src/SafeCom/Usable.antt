-- ===== src/SafeCom/Usable.antt =====
-- A connection that can be used through the functions of safecom/include/rass.h and
-- safecom/include/sic.h, the abstract channel that its user sees, and what one call leaves of it.
use rasta_s.Prelude.{
  ℕ, ◌≤◌, ◌≡◌, ◌≢◌, refl, ap, ◌∙◌, subst, true, List, some, Result, ok, ◌>>=◌, length,
}
use rasta_s.Platform.{Platform, IsSized}
use rasta_s.Pdu.Types.{zero_pdu}
use rasta_s.Pdu.Bytes.{u8}
use rasta_s.Pdu.Build.{data_pdu}
use rasta_s.Sm.Types.{
  Context, SmType, SmRole, State, closed, Event, open_conn, close_conn, send_data, SafeComVtable,
  Io,
}
use rasta_s.Sm.Machine.{sm_handle_event}
use rasta_s.Sm.Table.{Output, react}
use rasta_s.Sm.Observe.{observe}
use rasta_s.Sm.Runs.{Step}
use rasta_s.Sm.Refine.Compose.{Suited}
use rasta_s.Sm.Refine.Machine.{InSync, sm_handle_event-refines}
use rasta_s.SafeCom.Types.{StdRet, std_ok, std_not_ok, Memory, SafeComType}
use rasta_s.SafeCom.Impl.{
  element, run_at, safe_com_send_data, safe_com_open_connection, safe_com_close_connection,
}
use rasta_s.SafeCom.Array.{entered, Located, run_at-Ran}
use rasta_s.SafeCom.SendData.{Connected, data_context, data_pdu-Step}
use rasta_s.SafeCom.Interface.{entered-Ready}
use rasta_s.SafeCom.Instances.{Instance, System, with_memory, init_instance}
use rasta_s.SafeCom.Proper.{opened, after_data, react-opened, react-closed, react-after_data}

-- An instance after its initialisation.
pub record IsInitialised (inst : Instance) : Type 0 where
  pub marked : inst.initialized ≡ true
  pub object : SafeComType
  pub self_is : inst.self ≡ some object

-- Both instances are initialised, and the machine of the connection is set up.
pub record IsUsable (v : SafeComVtable) (address i : ℕ) (s : System) (machine : SmType)
    : Type 0 where
  pub rass_initialised : IsInitialised s.rass
  pub sic_initialised : IsInitialised s.sic
  pub located : Located s.memory address i machine
  pub connected : Connected v machine
  pub buffer_size : length s.memory.io.buff_to_send ≡ 100

-- The other machines, of this array and of all others, are as before.
pub record Spares (address i : ℕ) (s s' : System) : Type 0 where
  pub others :
      (j : ℕ) → j ≢ i → element (s'.memory.arrays address) j ≡ element (s.memory.arrays address) j
  pub elsewhere : (b : ℕ) → b ≢ address → s'.memory.arrays b ≡ s.memory.arrays b

pub Spares-trans :
    (address i : ℕ) (s s' s'' : System)
    → Spares address i s s'
    → Spares address i s' s''
    → Spares address i s s''
Spares-trans address i s s' s'' f g = record {
  others = λ j h. g.others j h ∙ f.others j h;
  elsewhere = λ b h. g.elsewhere b h ∙ f.elsewhere b h;
}

-- A second initialisation.
pub again :
    (config : SafeComType) (inst : Instance) (m : Memory)
    → inst.initialized ≡ true
    → init_instance config inst m ≡ ok (std_not_ok, inst, m)
unfolding init_instance
again config inst m h = rw h refl

module _ (plat : Platform) (v : SafeComVtable) (sized : IsSized plat) (address i : ℕ) where
  -- What a call leaves of a usable connection.
  abbrev pub Leaves : Result (StdRet × System) → System → State → SmRole → Type 0
  Leaves r s state role =
      (ret : StdRet) × (s' : System) × (machine : SmType) × (r ≡ ok (ret, s'))
      × IsUsable v address i s' machine
      × (machine.state ≡ state)
      × (machine.role ≡ role)
      × Spares address i s s'

  -- A call that leaves the arrays alone.
  keeping :
      (s : System) (machine : SmType) (ret : StdRet)
      → IsUsable v address i s machine
      → Leaves (ok (ret, s)) s machine.state machine.role
  keeping s machine ret u = (
    ret,
    s,
    machine,
    refl,
    u,
    refl,
    refl,
    record { others = λ j h. refl; elsewhere = λ b h. refl },
  )

  -- A call on the machine.
  acting :
      (action : Context → Result Context) (s : System) (machine : SmType) (c c' : Context)
      {state : State} {o : Output}
      → IsUsable v address i s machine
      → action (entered machine s.memory.io) ≡ ok c'
      → Step plat v c state o c'
      → c.self.role ≡ machine.role
      → InSync c'
      → Leaves
          (run_at s.memory.sms i action s.memory >>= λ r. ok (r.0, record s { memory = r.1 }))
          s
          state
          machine.role
  acting action s machine c c' u returns step role sync =
      let (m', runs, ran) = run_at-Ran s.memory address i machine u.located action c' returns in
      (
        std_ok,
        record s { memory = m' },
        c'.self,
        rw runs refl,
        record {
          rass_initialised = u.rass_initialised;
          sic_initialised = u.sic_initialised;
          located = ran.located;
          connected = record {
            clocked = step.ready.clocked;
            connected = step.ready.connected;
            in_sync = sync;
          };
          buffer_size = ap (λ (io : Io). length io.buff_to_send) ran.io_is ∙ step.ready.buffer_size;
        },
        step.state_is,
        step.role_is ∙ role,
        record { others = ran.others; elsewhere = ran.elsewhere },
      )

  -- One event without data.
  pub event-Leaves :
      (e : Event) (s : System) (machine : SmType) (state : State)
      → IsUsable v address i s machine
      → Suited plat v e zero_pdu
      → (react machine.state e (observe plat (entered machine s.memory.io))).0 ≡ state
      → Leaves
          (run_at s.memory.sms i (sm_handle_event plat e) s.memory >>= with_memory s)
          s
          state
          machine.role
  event-Leaves e s machine state u suited leads =
      let here = entered machine s.memory.io in
      let (c', returns, step, sync) =
        sm_handle_event-refines plat v sized e here
          (entered-Ready plat v sized s.memory address i machine u.located u.connected
            u.buffer_size)
          u.connected.in_sync suited in
      subst
        (λ (t : State).
          Leaves (run_at s.memory.sms i (sm_handle_event plat e) s.memory >>= with_memory s) s t
            machine.role)
        leads (acting (sm_handle_event plat e) s machine here c' u returns step refl sync)

  pub sending-Leaves :
      (j len : ℕ) (bytes : List ℕ) (s : System) (machine : SmType)
      → IsUsable v address i s machine
      → (j ≡ i) × (u8 len ≤ 22) × (u8 len ≤ length bytes)
      → Leaves
          (safe_com_send_data plat j len bytes s.memory >>= with_memory s)
          s
          (after_data machine.state)
          machine.role
  unfolding safe_com_send_data
  sending-Leaves j len bytes s machine u (e, small, enough) =
      let there = data_context plat v sized machine (s.memory.io) len bytes in
      let (c', returns, step, sync) =
        data_pdu-Step plat v sized machine (s.memory.io) len bytes u.connected u.buffer_size small
          enough in
      let action : Context → Result Context =
        λ c. data_pdu plat len bytes c >>= sm_handle_event plat send_data in
      rw e (
        subst
          (λ (t : State).
            Leaves (run_at s.memory.sms i action s.memory >>= with_memory s) s t machine.role)
          (react-after_data machine.state (observe plat there))
          (acting action s machine there c' u returns step refl sync))

  -- A call that changes no machine.
  pub sparing :
      (s s' : System) (machine : SmType) (ret : StdRet)
      → IsUsable v address i s machine
      → IsInitialised s'.rass
      → IsInitialised s'.sic
      → s'.memory.sms ≡ s.memory.sms
      → s'.memory.arrays ≡ s.memory.arrays
      → s'.memory.io ≡ s.memory.io
      → Leaves (ok (ret, s')) s machine.state machine.role
  sparing s s' machine ret u rass_on sic_on same_sms same_arrays same_io = (
    ret,
    s',
    machine,
    refl,
    record {
      rass_initialised = rass_on;
      sic_initialised = sic_on;
      located = record {
        current = same_sms ∙ u.located.current;
        stored =
            ap (λ (arrays : ℕ → List SmType). element (arrays address) i) same_arrays
            ∙ u.located.stored;
      };
      connected = u.connected;
      buffer_size = ap (λ (io : Io). length io.buff_to_send) same_io ∙ u.buffer_size;
    },
    refl,
    refl,
    record {
      others = λ j h. ap (λ (arrays : ℕ → List SmType). element (arrays address) j) same_arrays;
      elsewhere = λ b h. ap (λ (arrays : ℕ → List SmType). arrays b) same_arrays;
    },
  )

  pub opening-Leaves :
      (j : ℕ) (s : System) (machine : SmType)
      → IsUsable v address i s machine
      → j ≡ i
      → Leaves
          (safe_com_open_connection plat j s.memory >>= with_memory s)
          s
          (opened machine.state machine.role)
          machine.role
  unfolding safe_com_open_connection
  opening-Leaves j s machine u e =
      rw e (event-Leaves open_conn s machine _ u tt (react-opened machine.state _))

  pub closing-Leaves :
      (j : ℕ) (s : System) (machine : SmType)
      → IsUsable v address i s machine
      → j ≡ i
      → Leaves (safe_com_close_connection plat j s.memory >>= with_memory s) s closed machine.role
  unfolding safe_com_close_connection
  closing-Leaves j s machine u e =
      rw e (event-Leaves close_conn s machine _ u tt (react-closed machine.state _))
