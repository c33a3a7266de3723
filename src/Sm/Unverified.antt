-- ===== src/Sm/Unverified.antt =====
-- What the safety code of a received message has to be (safecom/src/pdu.c: `deserialize_pdu`,
-- safecom/src/sm.c: `handle_up`).
use rasta_s.Prelude.{
  ℕ, ◌+◌, ◌-◌, ◌≤◌, ◌<◌, ◌^◌, ◌≡◌, refl, sym, ap, ap₂, ◌∙◌, arith, List, ◌++◌, take, take-append,
  ok, length, lt→ltb,
}
use rasta_s.Platform.{Platform}
use rasta_s.Pdu.Types.{Pdu, zero_pdu, pdu_fixed_fields_length, safety_code_length}
use rasta_s.Pdu.Bytes.{u32}
use rasta_s.Pdu.Codec.{payload_length_of, deserialize_pdu}
use rasta_s.Pdu.Wire.{header}
use rasta_s.Pdu.RoundTrip.{InRange, received, deserialize_pdu-header}
use rasta_s.Sm.Types.{Context, Event, Frame, up, SafeComVtable}
use rasta_s.Sm.Checks.{process_regular_receipt}
use rasta_s.Sm.Session.{handed}
use rasta_s.Sm.Accept.{IsMessage, accepted, accept}
use rasta_s.Sm.Arrive.{arrive}
use rasta_s.Sm.Talk.{Talker}
use rasta_s.Sm.Conversation.{heard}

-- A frame of a header, a payload and a safety code, each of the length that the header announces.
pub record Framing (f : Frame) (p : Pdu) (payload code : List ℕ) : Type 0 where
  pub in_range : InRange p
  pub fixed : pdu_fixed_fields_length ≤ p.message_length
  pub bytes_are : f.bytes ≡ header p ++ (payload ++ code)
  pub length_is : f.spdu_len ≡ p.message_length
  pub payload_length : length payload ≡ payload_length_of p.message_length
  pub code_length : length code ≡ safety_code_length

module _ (plat : Platform) (v : SafeComVtable) where
  -- The safety code of a received message is not verified: a frame of a heartbeat or of data that
  -- carries the number expected and a confirmed timestamp less than Tmax after the last one is
  -- taken by a machine in STATE_UP, set up, in step and in range, whatever the 8 bytes of its
  -- safety code are: the machine stays in STATE_UP, expects the next number, has the payload of
  -- the frame, and sends nothing.
  pub arrive-unverified :
      (e : Event) (f : Frame) (p : Pdu) (payload code : List ℕ) (b : Context)
      → Talker v b
      → IsMessage e
      → Framing f p payload code
      → b.self.snr ≡ p.sequence_number
      → u32 (p.confirmed_timestamp + 2 ^ 32 - b.self.ctsr) < b.self.time.timeouts.tmax
      → (b' : Context) × (arrive plat e f b ≡ ok b')
        × (b'.self.state ≡ up)
        × (b'.self.snr ≡ u32 (p.sequence_number + 1))
        × (heard plat b' ≡ payload)
        × (b'.io.sent ≡ b.io.sent)
  unfolding arrive process_regular_receipt
  arrive-unverified e f p payload code b t message k number in_time =
      let bytes = header p ++ (payload ++ code) in
      let got = handed (received p bytes) b in
      let reads : deserialize_pdu f.bytes f.spdu_len zero_pdu ≡ ok (received p bytes) =
        ap₂ (λ (bs : List ℕ) (n : ℕ). deserialize_pdu bs n zero_pdu) k.bytes_are k.length_is
        ∙ deserialize_pdu-header p zero_pdu (payload ++ code) p.message_length k.in_range k.fixed
            (omega arith) in
      (
        accepted plat got,
        rw reads (accept plat e got message t.clocked t.stored number (lt→ltb _ _ in_time)),
        t.is_up,
        refl,
        ap (λ (n : ℕ). take n (payload ++ code)) (sym k.payload_length) ∙ take-append payload code,
        refl,
      )
