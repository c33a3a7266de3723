-- ===== src/Callbacks/Opening.antt =====
-- A connection that is opened through the interface on both sides, with the callbacks of the unit
-- tests (test/test_rass_functionality).
use rasta_s.Prelude.{ℕ, ◌≡◌, refl, sym, ap, ◌∙◌, subst, List, Option, some, Result, ok, ◌>>=◌}
use rasta_s.Platform.{Platform}
use rasta_s.Pdu.Types.{Pdu, zero_pdu, MessageType}
use rasta_s.Pdu.Codec.{deserialize_pdu}
use rasta_s.Sm.Types.{Context, Event, open_conn, Frame, Io}
use rasta_s.Sm.Machine.{sm_handle_event}
use rasta_s.Sm.Session.{handed}
use rasta_s.SafeCom.Types.{std_ok, Memory, SmPointer, SafeComType, Receiver}
use rasta_s.SafeCom.Impl.{run_at, listed, safe_com_receive_spdu, safe_com_open_connection}
use rasta_s.SafeCom.Array.{entered, Located, run_at-Ran}
use rasta_s.SafeCom.Instances.{System, rass_receive_spdu, rass_open_connection}
use rasta_s.Callbacks.{raise, receives}

-- The memory has the machine and the input and output of a context.
pub record Holds (m : Memory) (address i : ℕ) (c : Context) : Type 0 where
  pub located : Located m address i c.self
  pub io_is : m.io ≡ c.io

-- A callback that deserialises and raises the event of the message.
abbrev pub Raises : Platform → ℕ → (MessageType → Option Event) → Receiver → Type 0
Raises plat address event callback =
    (msg_id msg_len : ℕ) (bytes : List ℕ) (m : Memory)
    → callback msg_id msg_len bytes m ≡ (
        deserialize_pdu bytes msg_len zero_pdu >>= λ p.
        raise plat address msg_id p (event p.message_type) m)

module _ (plat : Platform) (address i : ℕ) (c c' : Context) where
  run_at-Holds :
      (action : Context → Result Context) (m : Memory)
      → Holds m address i c
      → action (record c { pdu = zero_pdu }) ≡ ok c'
      → (m' : Memory) × (run_at m.sms i action m ≡ ok (std_ok, m')) × Holds m' address i c'
  run_at-Holds action m h returns =
      let (m', runs, ran) =
        run_at-Ran m address i c.self h.located action c'
          (subst (λ (io : Io). action (entered c.self io) ≡ ok c') (sym h.io_is) returns) in
      (m', runs, record { located = ran.located; io_is = ran.io_is })

  call-Holds :
      (callback : Receiver) (event : MessageType → Option Event) (e : Event) (p : Pdu) (f : Frame)
      (self : Option SafeComType) (object : SafeComType) (m : Memory)
      → Raises plat address event callback
      → self ≡ some object
      → Holds m address i c
      → deserialize_pdu f.bytes f.spdu_len zero_pdu ≡ ok p
      → event p.message_type ≡ some e
      → sm_handle_event plat e (handed p c) ≡ ok c'
      → (m' : Memory) × (safe_com_receive_spdu (λ g. callback) self i f.spdu_len f.bytes m
          ≡ ok (std_ok, m'))
        × Holds m' address i c'
  unfolding safe_com_receive_spdu raise
  call-Holds callback event e p f self object m raises self_is h found kind returns =
      let action : Context → Result Context = λ k. sm_handle_event plat e (handed p k) in
      let there = listed object.vtable.receive_msg i f.spdu_len f.bytes m in
      let (m', runs, held) =
        run_at-Holds action there
          (record {
            located = record { current = h.located.current; stored = h.located.stored };
            io_is = h.io_is;
          })
          returns in
      let called : callback i f.spdu_len f.bytes there ≡ ok (std_ok, m') =
        raises i f.spdu_len f.bytes there
        ∙ rw found (
            rw kind
              (ap (λ (q : SmPointer). run_at q i action there) (sym h.located.current) ∙ runs)) in
      (m', rw self_is (rw called refl), held)

  pub receives-Holds :
      (callback : Receiver) (event : MessageType → Option Event) (e : Event) (p : Pdu) (f : Frame)
      (s : System) (object : SafeComType)
      → Raises plat address event callback
      → s.rass.self ≡ some object
      → Holds s.memory address i c
      → deserialize_pdu f.bytes f.spdu_len zero_pdu ≡ ok p
      → event p.message_type ≡ some e
      → sm_handle_event plat e (handed p c) ≡ ok c'
      → (s' : System) × (receives callback i f s ≡ ok s')
        × Holds s'.memory address i c'
        × (s'.rass ≡ s.rass)
  unfolding receives rass_receive_spdu
  receives-Holds callback event e p f s object raises self_is h found kind returns =
      let (m', runs, held) =
        call-Holds callback event e p f (s.rass.self) object (s.memory) raises self_is h found kind
          returns in
      (record s { memory = m' }, rw runs refl, held, refl)

  pub open-Holds :
      (s : System)
      → Holds s.memory address i c
      → c.pdu ≡ zero_pdu
      → sm_handle_event plat open_conn c ≡ ok c'
      → (s' : System) × (rass_open_connection plat i s ≡ ok (std_ok, s'))
        × Holds s'.memory address i c'
        × (s'.rass ≡ s.rass)
  unfolding rass_open_connection safe_com_open_connection
  open-Holds s h zeroed returns =
      let (m', runs, held) = run_at-Holds (sm_handle_event plat open_conn) s.memory h (
        subst (λ (p : Pdu). sm_handle_event plat open_conn (record c { pdu = p }) ≡ ok c') zeroed
          returns) in
      (record s { memory = m' }, rw runs refl, held, refl)
