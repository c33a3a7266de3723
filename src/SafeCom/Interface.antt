-- ===== src/SafeCom/Interface.antt =====
-- The interface of the module (safecom/src/safecom_impl.c) as its callers see it: initialise, open
-- and send on one connection of the current array.
use rasta_s.Prelude.{
  ℕ, suc, ◌≤◌, ◌<◌, ◌≡◌, ◌≢◌, refl, sym, ap, ◌∙◌, arith, subst, List, ◌∷◌, ok, err, null_pointer,
  out_of_bounds, ◌>>=◌, length, ==_refl, ==_ne,
}
use rasta_s.Platform.{Platform, IsSized}
use rasta_s.TimeMon.{tlocal_null}
use rasta_s.Pdu.Types.{connection_request, at}
use rasta_s.Pdu.Bytes.{u8}
use rasta_s.Pdu.Build.{conn_req_payload}
use rasta_s.Sm.Types.{
  Context, SmType, SmRole, client, State, closed, down, start, SafeComVtable, Io, open_conn,
  no_timestamp,
}
use rasta_s.Sm.Checks.{draw_snt, set_initial_values}
use rasta_s.Sm.Handlers.{handle_closed, open_closed}
use rasta_s.Sm.Machine.{sm_init, sm_handle_event, delegate}
use rasta_s.Sm.Emit.{Ready}
use rasta_s.Sm.Runs.{Step}
use rasta_s.Sm.Table.{draws, sends, by_role, react}
use rasta_s.Sm.Observe.{observe}
use rasta_s.Sm.Refine.Machine.{sm_handle_event-refines}
use rasta_s.SafeCom.Types.{std_ok, SafeComType, Memory, SmPointer, sms_at}
use rasta_s.SafeCom.Impl.{
  element, init_machine, init_at, safe_com_init, safe_com_open_connection, safe_com_send_data,
  write_array,
}
use rasta_s.SafeCom.Array.{entered, Located, Ran, run_at-Ran, run_at-err}
use rasta_s.SafeCom.Init.{prepared, init_array-IsInitialised}
use rasta_s.SafeCom.SendData.{Connected, IsOpen, data_frame, data_pdu-handled, data_pdu-overflow}

-- The memory after an initialisation at `address`.
pub record IsSetUp (config : SafeComType) (address : ℕ) (m m' : Memory) : Type 0 where
  pub current : m'.sms ≡ sms_at address
  pub machines :
      (j : ℕ) (s : SmType)
      → j < config.config.max_connections
      → element (m.arrays address) j ≡ ok s
      → Located m' address j (init_machine config.config.role j (prepared config.vtable j s))
  pub others :
      (j : ℕ)
      → config.config.max_connections ≤ j
      → element (m'.arrays address) j ≡ element (m.arrays address) j
  pub elsewhere : (b : ℕ) → b ≢ address → m'.arrays b ≡ m.arrays b
  pub io_is : m'.io ≡ m.io
  pub received_is : m'.received ≡ m.received

module _ (config : SafeComType) (address : ℕ) (m : Memory)
    (given : config.config.sms ≡ sms_at address)
    (some_connection : 0 < config.config.max_connections)
    (room : config.config.max_connections ≤ length (m.arrays address)) where
  pub safe_com_init-IsSetUp :
      (m' : Memory) × (safe_com_init config m ≡ ok (std_ok, config, m'))
      × IsSetUp config address m m'
  unfolding safe_com_init init_at
  safe_com_init-IsSetUp =
      let (ys, returns, _, initialised, beyond) =
        init_array-IsInitialised config (m.arrays address) some_connection room in
      (
        record (write_array address ys m) { sms = sms_at address },
        ap (λ (p : SmPointer). init_at p config m >>= λ r. ok (r.0, config, r.1)) given
            ∙ rw returns,
        record {
          current = refl;
          machines = λ j s below at_j. record {
            current = refl;
            stored = rw (==_refl address) (initialised j s below at_j);
          };
          others = λ j above. rw (==_refl address) (beyond j above);
          elsewhere = λ b h. rw (==_ne b address h);
          io_is = refl;
          received_is = refl;
        },
      )

module _ (plat : Platform) (v : SafeComVtable) (sized : IsSized plat) (m : Memory) (address i : ℕ)
    (s : SmType) (at_index : Located m address i s) where
  pub entered-Ready : Connected v s → length m.io.buff_to_send ≡ 100 → Ready plat v (entered s m.io)
  entered-Ready k buffer = record {
    clocked = k.clocked;
    connected = k.connected;
    code_shows = tt;
    buffer_size = buffer;
  }

  -- Opening a closed connection that is set up returns OK and leaves every other connection alone:
  -- a server listens in STATE_DOWN and sends nothing, a client is in STATE_START and has sent one
  -- connection request.
  pub safe_com_open_connection-Step :
      Connected v s
      → s.state ≡ closed
      → length m.io.buff_to_send ≡ 100
      → let o =
          by_role s.role (start, sends connection_request (at conn_req_payload)) (down, draws) in
        (m' : Memory) × (c' : Context) × (safe_com_open_connection plat i m ≡ ok (std_ok, m'))
        × Ran m address i c' m'
        × Step plat v (entered s m.io) o.0 o.1 c'
  unfolding safe_com_open_connection
  safe_com_open_connection-Step k at_closed buffer =
      let (c', returns, step, _) =
        sm_handle_event-refines plat v sized open_conn (entered s m.io) (entered-Ready k buffer)
          k.in_sync tt in
      let (m', runs, ran) =
        run_at-Ran m address i s at_index (sm_handle_event plat open_conn) c' returns in
      (
        m',
        c',
        runs,
        ran,
        subst
            (λ (t : State).
              Step plat v (entered s m.io) (react t open_conn (observe plat (entered s m.io))).0
                (react t open_conn (observe plat (entered s m.io))).1 c')
            at_closed step,
      )

  module _ (msg_len : ℕ) (msg_data : List ℕ) where
    -- On an open connection that is set up, SafeCom_SendData of a message whose length modulo 256
    -- is at most 22 and is there to read returns OK, keeps the state, sends one frame with the
    -- data PDU of that many bytes, and leaves every other connection alone.
    pub safe_com_send_data-sends :
        Connected v s
        → IsOpen s.state
        → length m.io.buff_to_send ≡ 100
        → u8 msg_len ≤ 22
        → u8 msg_len ≤ length msg_data
        → (m' : Memory) × (c' : Context) × (safe_com_send_data plat i msg_len msg_data m
            ≡ ok (std_ok, m'))
          × Ran m address i c' m'
          × (c'.self.state ≡ s.state)
          × (m'.io.sent ≡ data_frame plat v sized s m.io msg_len msg_data ∷ m.io.sent)
    unfolding safe_com_send_data
    safe_com_send_data-sends k opened buffer small enough =
        let (c', returns, state_is, sent) =
          data_pdu-handled plat v sized s m.io msg_len msg_data k opened buffer small enough in
        let (m', runs, ran) = run_at-Ran m address i s at_index _ c' returns in
        (m', c', runs, ran, state_is, ap Io.sent ran.io_is ∙ sent)

    -- SafeCom_SendData on a connection that is set up, of a message whose length modulo 256 is
    -- above 22 and is there to read, writes over the end of a buffer, whatever the state of the
    -- connection.
    pub safe_com_send_data-overflow :
        Connected v s
        → 22 < u8 msg_len
        → u8 msg_len ≤ length msg_data
        → safe_com_send_data plat i msg_len msg_data m ≡ err out_of_bounds
    unfolding safe_com_send_data
    safe_com_send_data-overflow k over enough =
        run_at-err m address i s at_index _
          (rw (data_pdu-overflow plat v sized s m.io msg_len msg_data k.clocked over enough))

-- A client machine that was initialised and has no clock cannot be opened.
open_without_clock :
    (plat : Platform) (j : ℕ) (s : SmType) (io : Io)
    → s.time.tlocal ≡ no_timestamp
    → sm_handle_event plat open_conn (entered (init_machine client j s) io) ≡ err null_pointer
unfolding sm_handle_event sm_init set_initial_values delegate handle_closed open_closed draw_snt
open_without_clock plat j s io h =
    let drawn = draw_snt (entered (init_machine client j s) io) in
    rw (tlocal_null plat (record drawn { self = record (drawn.self) { cst = 0 } }) h)

-- SafeCom_Init as client, with an array that has room for all connections, returns OK, and after
-- it SafeCom_OpenConnection of any connection but the first, whose machine had no clock before the
-- initialisation, calls a null pointer.
pub safe_com_open_connection-no_clock :
    (plat : Platform) (config : SafeComType) (address : ℕ) (m : Memory) (k : ℕ) (s : SmType)
    → config.config.sms ≡ sms_at address
    → config.config.role ≡ client
    → suc k < config.config.max_connections
    → config.config.max_connections ≤ length (m.arrays address)
    → element (m.arrays address) (suc k) ≡ ok s
    → s.time.tlocal ≡ no_timestamp
    → (m' : Memory) × (safe_com_init config m ≡ ok (std_ok, config, m'))
      × (safe_com_open_connection plat (suc k) m' ≡ err null_pointer)
unfolding safe_com_open_connection
safe_com_open_connection-no_clock plat config address m k s given is_client below room at_k
      no_clock =
    let (m', returns, setup) =
      safe_com_init-IsSetUp config address m given (omega (arith, below)) room in
    (
      m',
      returns,
      run_at-err m' address (suc k) (init_machine config.config.role (suc k) s)
          (setup.machines (suc k) s below at_k) (sm_handle_event plat open_conn)
          (subst
            (λ (r : SmRole).
              sm_handle_event plat open_conn (entered (init_machine r (suc k) s) m'.io)
              ≡ err null_pointer)
            (sym is_client) (open_without_clock plat (suc k) s m'.io no_clock)),
    )
