-- ===== src/Sm/Delivery.antt =====
-- What the peer finds in the frames of a machine (safecom/src/sm.c and safecom/src/pdu.c).
use rasta_s.Prelude.{
  ℕ, ◌≡◌, ◌⊎◌, inl, inr, sym, [], subst, arith, List, ◌∷◌, ◌++◌, append-nil, ok, length, Result,
  ◌+◌, refl, take, drop, length-drop,
}
use rasta_s.Platform.{Platform, IsSized}
use rasta_s.Pdu.Types.{Pdu, Pointer, null, at, dead}
use rasta_s.Pdu.Codec.{payload_length_of, deserialize_pdu}
use rasta_s.Pdu.Serialize.{part, wire}
use rasta_s.Pdu.RoundTrip.{
  InRange, IsComplete, SamePdu, received, received-SamePdu, deserialize_pdu-header, length-wire,
}
use rasta_s.Sm.Types.{Context, Event, Frame, SafeComVtable}
use rasta_s.Sm.Machine.{sm_handle_event}
use rasta_s.Sm.Table.{Output, silent, draws, sends, forwards}
use rasta_s.Sm.Emit.{Ready, frame_of}
use rasta_s.Sm.Runs.{Emits}
use rasta_s.Sm.Refine.Compose.{Suited}
use rasta_s.Sm.Refine.Machine.{InSync, sm_handle_event-refines}
use rasta_s.Sm.Bounded.{InBounds, Keeps}
use rasta_s.Sm.Ranges.{sm_handle_event-Keeps}

-- The bytes are those at a pointer, unless the array that they stood in is gone.
abbrev pub IsShown : Pointer → ℕ → List ℕ → Type 0
IsShown null n bytes = bytes ≡ []
IsShown (at bs) n bytes = bytes ≡ take n bs
IsShown (dead bs) n bytes = Unit {0}

part-IsShown :
    (stale : List ℕ → List ℕ) (ptr : Pointer) (n : ℕ) (bytes : List ℕ)
    → bytes ≡ part stale ptr n
    → IsShown ptr n bytes
part-IsShown stale null n bytes h = h
part-IsShown stale (at bs) n bytes h = h
part-IsShown stale (dead bs) n bytes h = tt

module _ (plat : Platform) (v : SafeComVtable) (sized : IsSized plat) where
  -- A frame that carries a PDU: its length is that of its bytes, and from them any receiver gets
  -- the header fields, the payload bytes, and eight bytes behind them as the safety code.
  abbrev pub Carries : Frame → Pdu → Type 0
  Carries f p =
      let n = payload_length_of p.message_length in
      (f.spdu_len ≡ length f.bytes)
      × (f.spdu_len ≡ p.message_length)
      × (length (drop (28 + n) f.bytes) ≡ 8)
      × IsShown p.payload n (take n (drop 28 f.bytes))
      × ((q : Pdu)
          → deserialize_pdu f.bytes f.spdu_len q
            ≡ ok (record p {
              payload = at (drop 28 f.bytes);
              safety_code = at (drop (28 + n) f.bytes);
            }))

  -- Nothing is sent, or one frame that carries the PDU that the call leaves.
  abbrev pub Delivers : Context → Context → Type 0
  Delivers c c' =
      (c'.io.sent ≡ c.io.sent) ⊎ ((f : Frame) × (c'.io.sent ≡ f ∷ c.io.sent) × Carries f c'.pdu)

  pub frame-Carries :
      (c : Context)
      → InRange c.pdu
      → IsComplete plat.stale c.pdu
      → Carries (frame_of plat v c) c.pdu
  frame-Carries c r k =
      let bytes = wire plat.stale c.pdu in
      let n = payload_length_of c.pdu.message_length in
      let same : SamePdu plat.stale c.pdu (received c.pdu bytes) =
        subst (λ (bs : List ℕ). SamePdu plat.stale c.pdu (received c.pdu bs)) (append-nil bytes)
          (received-SamePdu plat.stale c.pdu [] k) in
      (
        sym (length-wire plat.stale c.pdu k),
        refl,
        omega (arith, length-wire plat.stale c.pdu k, length-drop (28 + n) bytes, k.fixed, k.short),
        part-IsShown plat.stale c.pdu.payload n (take n (drop 28 bytes)) (same.8),
        (λ q.
            deserialize_pdu-header c.pdu q
              (part plat.stale c.pdu.payload n ++ part plat.stale c.pdu.safety_code 8)
              c.pdu.message_length r k.fixed (omega arith)),
      )

  Emits-Delivers :
      (o : Output) (c c' : Context) → InRange c'.pdu → Emits plat v o c c' → Delivers c c'
  Emits-Delivers silent c c' r e = inl e.0
  Emits-Delivers draws c c' r e = inl e.0
  Emits-Delivers (sends kind body) c c' r e =
      inr (frame_of plat v c', e.sent_is, frame-Carries c' r e.complete)
  Emits-Delivers forwards c c' r e = inr (frame_of plat v c', e.0, frame-Carries c' r e.3)

  -- Every message can be read: for every event in every state, a machine that is set up, in step
  -- and in range, given a PDU that suits the event, runs Sm_HandleEvent to the end, stays in
  -- range, and sends nothing or one frame, of the length of the PDU that the call leaves, from
  -- which any receiver gets the header fields of that PDU, its payload bytes unless they stood in
  -- an array that is gone, and the eight bytes behind them as the safety code.
  pub sm_handle_event-Delivers :
      (e : Event) (c : Context)
      → Ready plat v c
      → InSync c
      → Suited plat v e c.pdu
      → InBounds c
      → (c' : Context) × (sm_handle_event plat e c ≡ ok c') × InBounds c' × Delivers c c'
  sm_handle_event-Delivers e c r sync suited b =
      let (c', returns, step, _) = sm_handle_event-refines plat v sized e c r sync suited in
      let kept : InBounds c' =
        subst (λ (m : Result Context). Keeps m) returns (sm_handle_event-Keeps plat e c b) in
      (c', returns, kept, Emits-Delivers _ c c' kept.pdu_range step.output_is)
