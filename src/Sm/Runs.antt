-- ===== src/Sm/Runs.antt =====
-- Total correctness of a handler: it returns, and its new context is the one that the table asks
-- for. The building blocks of the handlers of safecom/src/sm.c meet it.
use rasta_s.Prelude.{
  ℕ, ◌+◌, ◌≤◌, ◌≡◌, ◌==◌, if◌then◌else◌, refl, ap, arith, ◌∷◌, Result, ok, ◌>>=◌, drop,
  length-append, length-drop,
}
use rasta_s.Platform.{Platform, IsSized}
use rasta_s.Pdu.Types.{
  Pdu, Pointer, at, dead, MessageType, connection_request, connection_response, DiscReasonType,
  disconnection_request, no_detailed_reason,
}
use rasta_s.Pdu.Bytes.{u32}
use rasta_s.Pdu.RoundTrip.{IsComplete, length-wire}
use rasta_s.Pdu.Serialize.{wire}
use rasta_s.Pdu.Build.{build, disc_req, stepped, disc_req_payload}
use rasta_s.Pdu.Seal.{protected_part}
use rasta_s.Sm.Types.{Context, State, SmType, TimeoutsConfig, SafeComVtable}
use rasta_s.Sm.Checks.{close_connection, snt_rand_value}
use rasta_s.Sm.Transmit.{transmit, send_disc_req}
use rasta_s.Sm.Handlers.{close_with}
use rasta_s.Sm.Table.{Output, silent, draws, sends, forwards, disconnects}
use rasta_s.Sm.Emit.{
  Ready, Ready-same, Composable-Framed, Composable, Framed, frame_of, emitted, build-transmit,
  built, built-IsComplete,
}

-- The send sequence number that a message carries: drawn for a connection request, the number
-- drawn before for its response, and one more each time for the others.
abbrev pub numbered : MessageType → ℕ → ℕ → ℕ
numbered kind seed snt =
    if kind == connection_request
    then snt_rand_value seed
    else (if kind == connection_response then snt else u32 (snt + 1))

-- A connection request confirms nothing.
abbrev pub confirms : MessageType → ℕ → ℕ
confirms kind n = if kind == connection_request then 0 else n

-- What is set up before a machine runs, apart from its role.
abbrev pub setup : SmType → ℕ × TimeoutsConfig
setup s = (s.channel, s.time.timeouts)

module _ (plat : Platform) (v : SafeComVtable) where
  -- A message built and sent by a step: the frames, the PDU behind the newest one, its numbers, its
  -- time and its safety code.
  pub record Sent (kind : MessageType) (body : Pointer) (c c' : Context) : Type 0 where
    pub sent_is : c'.io.sent ≡ frame_of plat v c' ∷ c.io.sent
    pub kind_is : c'.pdu.message_type ≡ kind
    pub body_is : c'.pdu.payload ≡ body
    pub number_is : c'.pdu.sequence_number ≡ c'.self.snt
    pub next_is : c'.self.snt ≡ numbered kind c.io.seed c.self.snt
    pub confirmed_is : c'.pdu.confirmed_sequence_number ≡ confirms kind c'.self.cst
    pub confirmed_time_is : c'.pdu.confirmed_timestamp ≡ confirms kind c'.self.ctsr
    pub code_is : c'.pdu.safety_code ≡ dead (plat.md4 (protected_part plat c'.pdu))
    pub complete : IsComplete plat.stale c'.pdu

  -- What an output of the table means.
  abbrev pub Emits : Output → Context → Context → Type 0
  Emits silent c c' =
      (c'.io.sent ≡ c.io.sent) × (c'.self.snt ≡ c.self.snt) × (c'.io.seed ≡ c.io.seed)
  Emits draws c c' = (c'.io.sent ≡ c.io.sent) × (c'.self.snt ≡ snt_rand_value c.io.seed)
  Emits (sends kind body) c c' = Sent kind body c c'
  Emits forwards c c' =
      (c'.io.sent ≡ frame_of plat v c' ∷ c.io.sent)
      × (c'.pdu ≡ c.pdu)
      × (c'.self.snt ≡ c.self.snt)
      × IsComplete plat.stale c'.pdu

  pub record Step (c : Context) (s : State) (o : Output) (c' : Context) : Type 0 where
    pub state_is : c'.self.state ≡ s
    pub output_is : Emits o c c'
    pub ready : Ready plat v c'
    pub role_is : c'.self.role ≡ c.self.role
    pub setup_is : setup c'.self ≡ setup c.self

  abbrev pub Runs : Result Context → Context → State → Output → Type 0
  Runs r c s o = (c' : Context) × (r ≡ ok c') × Step c s o c'

  module _ (sized : IsSized plat) where
    -- A framed message that fits the send buffer leaves the machine set up.
    pub Framed-Ready :
        (len : ℕ) (kind : MessageType) (confirmed confirmed_time : ℕ) (body : Pointer) (c : Context)
        → Framed plat len body
        → len ≤ 100
        → Ready plat v c
        → Ready plat v (emitted plat v len kind confirmed confirmed_time body c)
    Framed-Ready len kind confirmed confirmed_time body c k room r = record {
      clocked = r.clocked;
      connected = r.connected;
      code_shows = omega (arith, sized.stale_length (plat.md4 _), sized.digest_length _);
      buffer_size = omega (
        arith,
        length-append (wire plat.stale sent_pdu) (drop sent_pdu.message_length c.io.buff_to_send),
        length-drop sent_pdu.message_length c.io.buff_to_send,
        length-wire plat.stale sent_pdu
            (built-IsComplete plat len kind confirmed confirmed_time body c sized k),
        r.buffer_size,
        room,
      );
    }
      where
        sent_pdu : Pdu
        sent_pdu = (built plat len kind confirmed confirmed_time body c).pdu

    pub emitted-Ready :
        (len : ℕ) (kind : MessageType) (confirmed confirmed_time : ℕ) (body : Pointer) (c : Context)
        → Composable plat len body
        → Ready plat v c
        → Ready plat v (emitted plat v len kind confirmed confirmed_time body c)
    emitted-Ready len kind confirmed confirmed_time body c k r =
        Framed-Ready len kind confirmed confirmed_time body c (Composable-Framed plat len body k)
          (omega (arith, k.fits)) r

    -- A message built and sent from `base`, which has sent what `c` has.
    pub send-Runs :
        (len : ℕ) (kind : MessageType) (confirmed confirmed_time : ℕ) (body : Pointer)
        (c base : Context)
        → Composable plat len body
        → Ready plat v base
        → base.io.sent ≡ c.io.sent
        → base.self.role ≡ c.self.role
        → setup base.self ≡ setup c.self
        → base.self.snt ≡ numbered kind c.io.seed c.self.snt
        → confirmed ≡ confirms kind base.self.cst
        → confirmed_time ≡ confirms kind base.self.ctsr
        → Runs
            (build plat len kind confirmed confirmed_time body base >>= transmit plat)
            c
            base.self.state
            (sends kind body)
    send-Runs len kind confirmed confirmed_time body c base k r same_sent same_role same_setup
          next_snt same_confirmed same_time =
        (
          emitted plat v len kind confirmed confirmed_time body base,
          build-transmit plat v len kind confirmed confirmed_time body base sized k r,
          record {
            state_is = refl;
            output_is = record {
              sent_is =
                  ap
                    (◌∷◌ (
                      frame_of plat v (emitted plat v len kind confirmed confirmed_time body base)))
                    same_sent;
              kind_is = refl;
              body_is = refl;
              number_is = refl;
              next_is = next_snt;
              confirmed_is = same_confirmed;
              confirmed_time_is = same_time;
              code_is = refl;
              complete =
                  built-IsComplete plat len kind confirmed confirmed_time body base sized
                    (Composable-Framed plat len body k);
            };
            ready = emitted-Ready len kind confirmed confirmed_time body base k r;
            role_is = same_role;
            setup_is = same_setup;
          },
        )

    -- Closing with a reason: one disconnection request that names the reason.
    pub close_with-Runs :
        (reason : DiscReasonType) (c : Context)
        → Ready plat v c
        → Runs (close_with plat reason c) c (disconnects reason).0 (disconnects reason).1
    unfolding close_with close_connection send_disc_req disc_req
    close_with-Runs reason c r =
        send-Runs 40 disconnection_request c.pdu.sequence_number c.self.ctsr
          (at (disc_req_payload reason no_detailed_reason)) c (stepped (close_connection c))
          (omega arith) (Ready-same plat v _ _ refl refl refl refl r) refl refl refl refl refl refl
