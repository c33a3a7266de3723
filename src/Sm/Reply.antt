-- ===== src/Sm/Reply.antt =====
-- What a machine does with a frame that its peer has sent (safecom/src/sm.c and
-- safecom/src/pdu.c), by the transition table.
use rasta_s.Prelude.{◌+◌, ◌≡◌, ◌∙◌, arith, subst, Result, ok, length, length-drop}
use rasta_s.Platform.{Platform, IsSized}
use rasta_s.Pdu.Types.{Pdu, safety_code_length}
use rasta_s.Pdu.Codec.{payload_length_of}
use rasta_s.Pdu.Serialize.{Shows, wire}
use rasta_s.Pdu.RoundTrip.{InRange, IsComplete, length-wire}
use rasta_s.Sm.Types.{Context, State, Event, SafeComVtable, vtable_at, current_timestamp}
use rasta_s.Sm.Machine.{sm_handle_event}
use rasta_s.Sm.Table.{Output, react}
use rasta_s.Sm.Emit.{Ready, frame_of}
use rasta_s.Sm.Runs.{Step}
use rasta_s.Sm.Observe.{observe}
use rasta_s.Sm.Refine.Compose.{Suited}
use rasta_s.Sm.Refine.Machine.{InSync, sm_handle_event-refines}
use rasta_s.Sm.Bounded.{IsBounded, InBounds, Keeps}
use rasta_s.Sm.Ranges.{sm_handle_event-Keeps}
use rasta_s.Sm.Session.{handed}
use rasta_s.Sm.Arrive.{arrive, found, arrive-found}

-- A PDU that can go on the wire.
pub record Receivable (plat : Platform) (p : Pdu) : Type 0 where
  pub in_range : InRange p
  pub complete : IsComplete plat.stale p

-- A machine that is set up, in step and in range.
pub record Steady (v : SafeComVtable) (c : Context) : Type 0 where
  pub clocked : c.self.time.tlocal ≡ current_timestamp
  pub connected : c.self.vtable ≡ vtable_at v
  pub buffer_size : length c.io.buff_to_send ≡ 100
  pub in_sync : InSync c
  pub bounded : IsBounded c.self

pub found-InRange : (plat : Platform) (p : Pdu) → InRange p → InRange (found plat p)
found-InRange plat p r = record {
  length_range = r.length_range;
  type_range = r.type_range;
  receiver_range = r.receiver_range;
  sender_range = r.sender_range;
  sequence_range = r.sequence_range;
  confirmed_sequence_range = r.confirmed_sequence_range;
  timestamp_range = r.timestamp_range;
  confirmed_timestamp_range = r.confirmed_timestamp_range;
}

-- A machine that was handed a frame of the peer stays in range.
pub found-InBounds :
    (plat from : Platform) (e : Event) (p : Pdu) (c c' : Context)
    → InRange p
    → IsBounded c.self
    → sm_handle_event plat e (handed (found from p) c) ≡ ok c'
    → InBounds c'
found-InBounds plat from e p c c' r b returns =
    subst (λ (m : Result Context). Keeps m) returns
      (sm_handle_event-Keeps plat e (handed (found from p) c)
        (record { self_bounded = b; pdu_range = found-InRange from p r }))

pub Step-Steady :
    (plat : Platform) (v : SafeComVtable) (c c' : Context) {s : State} {o : Output}
    → Step plat v c s o c'
    → InSync c'
    → IsBounded c'.self
    → Steady v c'
Step-Steady plat v c c' step sync bounded = record {
  clocked = step.ready.clocked;
  connected = step.ready.connected;
  buffer_size = step.ready.buffer_size;
  in_sync = sync;
  bounded = bounded;
}

-- An event at a machine that is set up, in step and in range.
pub handed-Step :
    (plat : Platform) (v : SafeComVtable) (sized : IsSized plat) (e : Event) (p : Pdu) (c : Context)
    → Steady v c
    → InRange p
    → Shows plat.stale p.safety_code safety_code_length
    → Suited plat v e p
    → let here = handed p c in
      let o = react c.self.state e (observe plat here) in
      (c' : Context) × (sm_handle_event plat e here ≡ ok c')
      × Step plat v here o.0 o.1 c'
      × Steady v c'
      × InBounds c'
handed-Step plat v sized e p c k range shows suited =
    let here = handed p c in
    let ready : Ready plat v here = record {
      clocked = k.clocked;
      connected = k.connected;
      code_shows = shows;
      buffer_size = k.buffer_size;
    } in
    let (c', returns, step, sync) =
      sm_handle_event-refines plat v sized e here ready k.in_sync suited in
    let bounds : InBounds c' =
      subst (λ (m : Result Context). Keeps m) returns
        (sm_handle_event-Keeps plat e here
          (record { self_bounded = k.bounded; pdu_range = range })) in
    (c', returns, step, Step-Steady plat v here c' step sync bounds.self_bounded, bounds)

module _ (plat from : Platform) (v w : SafeComVtable) (sized : IsSized plat) where
  found-Shows :
      (p : Pdu) → Receivable from p → Shows plat.stale (found from p).safety_code safety_code_length
  found-Shows p s = omega (
    arith,
    s.complete.fixed,
    length-drop (28 + payload_length_of p.message_length) (wire from.stale p),
    length-wire from.stale p s.complete,
  )

  -- The frame is deserialised, and the table says what the machine does with it.
  pub arrive-Step :
      (e : Event) (sender c : Context)
      → Receivable from sender.pdu
      → Steady v c
      → Suited plat v e (found from sender.pdu)
      → let handed_over = handed (found from sender.pdu) c in
        let o = react c.self.state e (observe plat handed_over) in
        (c' : Context) × (arrive plat e (frame_of from w sender) c ≡ ok c')
        × Step plat v handed_over o.0 o.1 c'
        × Steady v c'
        × InRange c'.pdu
  arrive-Step e sender c s k suited =
      let (c', returns, step, steady, bounds) =
        handed-Step plat v sized e (found from sender.pdu) c k
          (found-InRange from sender.pdu s.in_range) (found-Shows sender.pdu s) suited in
      (
        c',
        arrive-found plat from w e sender c s.in_range s.complete.fixed ∙ returns,
        step,
        steady,
        bounds.pdu_range,
      )
