-- ===== src/Sm/Talk.antt =====
-- What an open connection says of its own accord: heartbeats (`EVENT_TH_ELAPSED` of
-- safecom/src/sm.c) and data (`Data` of safecom/src/pdu.c, then `EVENT_SEND_DATA`, as
-- safecom/src/safecom_impl.c calls them).
use rasta_s.Prelude.{
  ◌+◌, ◌≤◌, ◌<◌, ◌^◌, ◌≡◌, refl, ap, ◌∙◌, arith, [], ok, ◌>>=◌, length, length-append,
  length-take_le, take,
}
use rasta_s.Platform.{Platform, IsSized}
use rasta_s.Pdu.Types.{null, at, zero_pdu, heartbeat, data_message}
use rasta_s.Pdu.Bytes.{u8, u16}
use rasta_s.Pdu.Codec.{payload_length_of}
use rasta_s.Pdu.RoundTrip.{InRange, IsComplete}
use rasta_s.Pdu.Build.{data_pdu, hb, build, stepped}
use rasta_s.Sm.Types.{
  Context, EventHandler, State, up, up_handler, th_elapsed, send_data, SafeComVtable, vtable_at,
  current_timestamp,
}
use rasta_s.Sm.Transmit.{transmit, send_hb}
use rasta_s.Sm.Running.{handle_up}
use rasta_s.Sm.Machine.{
  sm_handle_event, delegate, handle_timers, th_timer, handler_of, update_handler,
}
use rasta_s.Sm.Says.{Says, beat, message, Short, said, kind_of, body_of, speak}
use rasta_s.Sm.Emit.{
  Ready, Ready-same, Framed, emitted, built, built-IsComplete, build-sealed, transmit-transmitted,
}
use rasta_s.Sm.Runs.{Framed-Ready}
use rasta_s.Sm.Bounded.{IsBounded}
use rasta_s.Sm.Arrive.{get_current_timestamp-lt}
use rasta_s.Sm.Session.{handed}

-- A machine in `STATE_UP` that is set up, in step and in range.
pub record Talker (v : SafeComVtable) (c : Context) : Type 0 where
  pub clocked : c.self.time.tlocal ≡ current_timestamp
  pub connected : c.self.vtable ≡ vtable_at v
  pub buffer_size : length c.io.buff_to_send ≡ 100
  pub is_up : c.self.state ≡ up
  pub stored : c.self.handle_event ≡ up_handler
  pub bounded : IsBounded c.self
  pub patient : 0 < c.self.time.timeouts.tmax

stepped-IsBounded : (c : Context) → IsBounded c.self → IsBounded (update_handler (stepped c)).self
stepped-IsBounded c b = omega arith

module _ (plat : Platform) (v : SafeComVtable) where
  abbrev talking : Context → Context
  talking c = stepped (handed zero_pdu c)

  -- The machine after it said something.
  abbrev pub spoken : Says → Context → Context
  spoken w c = update_handler (
      emitted plat v (36 + length (said w)) (kind_of w) c.self.cst c.self.ctsr (body_of w)
        (talking c))

  module _ (sized : IsSized plat) where
    said-kind : (w : Says) → kind_of w < 2 ^ 16
    said-kind beat = omega arith
    said-kind (message bytes) = omega arith

    pub said-length : (w : Says) → Short w → length (said w) ≤ 22
    said-length beat h = omega arith
    said-length (message bytes) h = h

    said-Framed : (w : Says) → Short w → Framed plat (36 + length (said w)) (body_of w)
    said-Framed beat h = omega arith
    said-Framed (message bytes) h = omega arith

    talking-Ready : (c : Context) → Talker v c → Ready plat v (talking c)
    talking-Ready c t = record {
      clocked = t.clocked;
      connected = t.connected;
      code_shows = tt;
      buffer_size = t.buffer_size;
    }

    said-sealed :
        (w : Says) (c : Context)
        → Talker v c
        → Short w
        → build plat
            (36 + length (said w))
            (kind_of w)
            c.self.cst
            c.self.ctsr
            (body_of w)
            (talking c)
          ≡ ok (
              built plat
                (36 + length (said w))
                (kind_of w)
                c.self.cst
                c.self.ctsr
                (body_of w)
                (talking c))
    said-sealed beat c t h =
        build-sealed plat v 36 heartbeat c.self.cst c.self.ctsr null (talking c) sized (omega arith)
          t.clocked
    said-sealed (message bytes) c t h =
        build-sealed plat v (36 + length bytes) data_message c.self.cst c.self.ctsr (at bytes)
          (talking c) sized
          (record {
            fixed = omega arith;
            short = omega arith;
            fits = omega (
              arith,
              length-append (take (payload_length_of (u16 (36 + length bytes))) bytes) [],
              length-take_le (payload_length_of (u16 (36 + length bytes))) bytes,
            );
            payload_full = omega arith;
            code_shows = tt;
          })
          t.clocked

    said-transmitted :
        (w : Says) (c : Context)
        → Talker v c
        → Short w
        → transmit plat (
            built plat
              (36 + length (said w))
              (kind_of w)
              c.self.cst
              c.self.ctsr
              (body_of w)
              (talking c))
          ≡ ok (
              emitted plat v
                (36 + length (said w))
                (kind_of w)
                c.self.cst
                c.self.ctsr
                (body_of w)
                (talking c))
    said-transmitted w c t h =
        transmit-transmitted plat v _ t.connected
          (built-IsComplete plat (36 + length (said w)) (kind_of w) c.self.cst c.self.ctsr
            (body_of w) (talking c) sized (said-Framed w h))
          (omega (arith, t.buffer_size, said-length w h))

    -- Saying something succeeds, and leaves what is written out above.
    pub speak_lem :
        (w : Says) (c : Context) → Talker v c → Short w → speak plat w c ≡ ok (spoken w c)
    unfolding speak sm_handle_event delegate handle_up handle_timers th_timer send_hb hb data_pdu
    speak_lem beat c t h =
        ap
          (λ (f : EventHandler). delegate plat f th_elapsed (handed zero_pdu c) >>= λ d.
            handle_timers plat th_elapsed d >>= λ timed. ok (update_handler timed))
          t.stored
        ∙ ap
            (λ (s : State).
              th_timer plat s (handed zero_pdu c) >>= λ timed. ok (update_handler timed))
            t.is_up
        ∙ rw (said-sealed beat c t h) (rw (said-transmitted beat c t h))
    speak_lem (message bytes) c t h =
        let cut : u8 (length bytes) ≡ length bytes = omega arith in
        rw cut (
          rw (said-sealed (message bytes) c t h) (
            ap
              (λ (f : EventHandler).
                delegate plat f send_data (
                  built plat (36 + length bytes) data_message c.self.cst c.self.ctsr (at bytes)
                    (talking c))
                >>= λ d. handle_timers plat send_data d >>= λ timed. ok (update_handler timed))
              t.stored
            ∙ rw (said-transmitted (message bytes) c t h)))

    pub spoken-InRange : (w : Says) (c : Context) → Talker v c → InRange (spoken w c).pdu
    spoken-InRange w c t = record {
      length_range = omega arith;
      type_range = said-kind w;
      receiver_range = omega arith;
      sender_range = omega arith;
      sequence_range = omega arith;
      confirmed_sequence_range = t.bounded.cst_range;
      timestamp_range = get_current_timestamp-lt plat _;
      confirmed_timestamp_range = t.bounded.ctsr_range;
    }

    pub spoken-IsComplete :
        (w : Says) (c : Context) → Short w → IsComplete plat.stale (spoken w c).pdu
    spoken-IsComplete w c h =
        built-IsComplete plat (36 + length (said w)) (kind_of w) c.self.cst c.self.ctsr (body_of w)
          (talking c) sized (said-Framed w h)

    pub spoken-Ready : (w : Says) (c : Context) → Talker v c → Short w → Ready plat v (spoken w c)
    spoken-Ready w c t h = Ready-same plat v _ (spoken w c) refl refl refl refl (
        Framed-Ready plat v sized (36 + length (said w)) (kind_of w) c.self.cst c.self.ctsr
          (body_of w) (talking c) (said-Framed w h) (omega (arith, said-length w h))
          (talking-Ready c t))

    pub spoken-Talker : (w : Says) (c : Context) → Talker v c → Short w → Talker v (spoken w c)
    spoken-Talker w c t h = record {
      clocked = t.clocked;
      connected = t.connected;
      buffer_size = (spoken-Ready w c t h).buffer_size;
      is_up = t.is_up;
      stored = ap handler_of t.is_up;
      bounded = stepped-IsBounded c t.bounded;
      patient = t.patient;
    }
