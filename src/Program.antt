-- ===== src/Program.antt =====
-- The example program (src/main.c): it initialises one connection as a server or as a client, by
-- its argument, and opens it.
pub mod Peers
use rasta_s.Prelude.{
  some, ℕ, ◌<◌, ◌≤◌, ◌≡◌, refl, sym, ap, ◌∙◌, subst, arith, List, [], ◌∷◌, Option, Bool, true,
  false, if◌then◌else◌, ◌&&◌, ◌==◌, Result, ok, ◌>>=◌, length, replicate, ◌↔◌, ap₂, ==_refl, ==_eq,
  &&-both,
}
use rasta_s.Platform.{Platform, IsSized}
use rasta_s.Pdu.Types.{connection_request, at}
use rasta_s.Pdu.Build.{conn_req_payload}
use rasta_s.Sm.Types.{
  SmType, SmRole, client, server, closed, down, start, State, no_handler, no_vtable, no_timestamp,
  SafeComVtable, user_callback, Context, Io,
}
use rasta_s.Sm.Machine.{sm_init}
use rasta_s.Sm.Checks.{set_initial_values}
use rasta_s.Sm.Runs.{Step}
use rasta_s.Sm.Table.{Reaction, by_role, sends, draws}
use rasta_s.Common.Assert.{non_null}
use rasta_s.Mock.{Printed, print_message}
use rasta_s.SafeCom.Types.{StdRet, std_ok, std_not_ok, SafeComConfig, SafeComType, Memory, sms_at}
use rasta_s.SafeCom.Impl.{element, write_array, init_machine}
use rasta_s.SafeCom.Init.{connect}
use rasta_s.SafeCom.Instances.{
  System, Instance, rass_init_vtable, rass_open_connection, init_instance, with_rass, with_memory,
}
use rasta_s.SafeCom.SendData.{Connected}
use rasta_s.SafeCom.Interface.{IsSetUp, safe_com_init-IsSetUp, safe_com_open_connection-Step}
use rasta_s.SafeCom.Array.{Located, Ran, entered}

-- One element of `SmType sms[MAX_CONNECTIONS] = { 0 };`.
abbrev pub zero_machine : SmType
zero_machine = record {
  channel = 0;
  state = closed;
  role = client;
  snr = 0;
  snt = 0;
  cst = 0;
  csr = 0;
  tsr = 0;
  ctsr = 0;
  handle_event = no_handler;
  vtable = no_vtable;
  time = record {
    timeouts = record { th = 0; tmax = 0; tseq = 0 };
    tlocal = no_timestamp;
    ti = 0;
    trtd = 0;
    talive = 0;
    ta = 0;
    tb = 0;
  };
}

abbrev pub max_connections : ℕ
max_connections = 1

-- `My_Fec_ReceiveBtp`.
unfoldable pub my_receive_btp : ℕ → ℕ → Option (List ℕ) → Result (StdRet × Printed)
my_receive_btp msg_id msg_len msg_data = print_message msg_id msg_len msg_data

-- `My_IscDispApp_SendSpdu`.
unfoldable pub my_send_spdu : ℕ → ℕ → Option (List ℕ) → Result StdRet
my_send_spdu node_id spdu_len spdu_data = do bytes ← non_null spdu_data; ok std_ok

-- `My_IscDispApp_SendSpdu` and `My_Fec_ReceiveBtp`.
abbrev pub main_vtable : SafeComVtable
main_vtable = record { send_spdu = user_callback 0; receive_msg = user_callback 1 }

-- `strcmp(a, b) == 0`, for strings without their zero byte.
unfoldable pub same_string : List ℕ → List ℕ → Bool
same_string [] [] = true
same_string (x ∷ xs) (y ∷ ys) = x == y && same_string xs ys
same_string _ _ = false

abbrev pub server_argument : List ℕ
server_argument = b's' ∷ b'e' ∷ b'r' ∷ b'v' ∷ b'e' ∷ b'r' ∷ []

-- `argc==2 && (strcmp("server", argv[1])==0)`.
unfoldable pub role_of : List (List ℕ) → SmRole
role_of (program ∷ argument ∷ []) = if same_string server_argument argument then server else client
role_of _ = client

abbrev pub main_config : SmRole → ℕ → SafeComType
main_config role address = record {
  vtable = main_vtable;
  config = record { role = role; max_connections = max_connections; sms = sms_at address };
}

-- The array of the function, at an address.
abbrev pub with_sms : ℕ → System → System
with_sms address s = record s {
  memory = write_array address (replicate max_connections zero_machine) (s.memory);
}

-- `Rass_OpenConnection(0);` and the end of `main`, or `return 1;`.
unfoldable pub finish : Platform → StdRet × System → Result (ℕ × System)
finish plat (std_ok, s) = do (ret, s') ← rass_open_connection plat 0 s; ok (0, s')
finish plat (std_not_ok, s) = ok (1, s)

-- The exit status, and what is left of the memory.
unfoldable pub main : Platform → List (List ℕ) → ℕ → System → Result (ℕ × System)
main plat argv address s =
    rass_init_vtable (main_config (role_of argv) address) (with_sms address s) >>= finish plat

same_string_eq : (xs ys : List ℕ) → same_string xs ys ≡ true → xs ≡ ys
unfolding same_string
same_string_eq [] [] h = refl
same_string_eq [] (y ∷ ys) h = cc
same_string_eq (x ∷ xs) [] h = cc
same_string_eq (x ∷ xs) (y ∷ ys) h =
    let (first, later) = &&-both (x == y) (same_string xs ys) h in
    ap₂ (λ (z : ℕ) (zs : List ℕ). z ∷ zs) (==_eq x y first) (same_string_eq xs ys later)

chosen : (b : Bool) → (if b then server else client) ≡ server → b ≡ true
chosen true h = refl
chosen false h = cc

server-argument :
    (argv : List (List ℕ))
    → role_of argv ≡ server
    → (name : List ℕ) × (argv ≡ name ∷ server_argument ∷ [])
unfolding role_of
server-argument [] h = cc
server-argument (name ∷ []) h = cc
server-argument (name ∷ argument ∷ []) h =
    let same = same_string_eq server_argument argument (chosen _ h) in
    (name, ap (λ (a : List ℕ). name ∷ a ∷ []) (sym same))
server-argument (name ∷ argument ∷ more ∷ rest) h = cc

-- Main takes the role of a server exactly when it is called with one argument and this is the word
-- server.
pub role_of-server_iff :
    (argv : List (List ℕ))
    → (role_of argv ≡ server) ↔ ((name : List ℕ) × (argv ≡ name ∷ server_argument ∷ []))
unfolding role_of same_string
role_of-server_iff argv = (server-argument argv, (λ (name, e). rw e refl))

-- The first machine after the initialisation.
abbrev pub ready_machine : SmRole → SmType
ready_machine role = init_machine role 0 (connect main_vtable zero_machine)

-- A server listens and sends nothing, a client sends a connection request.
abbrev pub opening_reaction : SmRole → Reaction
opening_reaction role =
    by_role role (start, sends connection_request (at conn_req_payload)) (down, draws)

ready_machine-Connected : (role : SmRole) → Connected main_vtable (ready_machine role)
unfolding sm_init set_initial_values
ready_machine-Connected role = record { clocked = refl; connected = refl; in_sync = refl }

module _ (plat : Platform) (sized : IsSized plat) (argv : List (List ℕ)) (address : ℕ)
    (s : System) where
  -- For every argument list, main with an instance that was not initialised and a send buffer of
  -- 100 bytes returns 0, and leaves its connection, initialised for the role of the arguments,
  -- with one open event handled: a server listens in STATE_DOWN and has sent nothing, a client is
  -- in STATE_START and has sent one connection request to main's callback; the other instance is
  -- as before.
  pub main-Step :
      s.rass.initialized ≡ false
      → length s.memory.io.buff_to_send ≡ 100
      → let o = opening_reaction (role_of argv) in
        (s' : System) × (c : Context) × (main plat argv address s ≡ ok (0, s'))
        × Located s'.memory address 0 c.self
        × Step plat main_vtable (entered (ready_machine (role_of argv)) s.memory.io) o.0 o.1 c
        × (s'.memory.io ≡ c.io)
        × (s'.sic ≡ s.sic)
  unfolding element sm_init set_initial_values main finish rass_init_vtable init_instance
      rass_open_connection
  main-Step fresh buffer =
      let config = main_config (role_of argv) address in
      let m = (with_sms address s).memory in
      let (m1, starts, is_set) =
        safe_com_init-IsSetUp config address m refl (omega arith)
          (rw (==_refl address) (omega arith)) in
      let located = is_set.machines 0 zero_machine (omega arith) (rw (==_refl address) refl) in
      let (m2, c, opens, ran, step) =
        safe_com_open_connection-Step plat main_vtable sized m1 address 0
          (ready_machine (role_of argv)) located (ready_machine-Connected (role_of argv)) refl
          (ap (λ (io : Io). length io.buff_to_send) is_set.io_is ∙ buffer) in
      (
        record s { rass = record (s.rass) { self = some config; initialized = true }; memory = m2 },
        c,
        rw fresh (rw starts (rw opens refl)),
        ran.located,
        subst
            (λ (io : Io).
              Step plat main_vtable (entered (ready_machine (role_of argv)) io)
                (opening_reaction (role_of argv)).0 (opening_reaction (role_of argv)).1 c)
            is_set.io_is step,
        ran.io_is,
        refl,
      )
