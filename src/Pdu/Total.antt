-- ===== src/Pdu/Total.antt =====
-- `deserialize_pdu` (safecom/src/pdu.c) on every array of bytes, and `serialize_pdu` after it.
use rasta_s.Prelude.{
  ℕ, ◌+◌, ◌≤◌, ◌<◌, ◌≡◌, refl, sym, ap, ap₂, subst, ◌∙◌, arith, List, ◌++◌, append_assoc, ok, ltb,
  length, take, drop, inl, inr, Bool-cases, ltb→lt, take-take-drop, length-drop, false,
}
use rasta_s.Pdu.Types.{Pdu, Pointer, at, pdu_fixed_fields_length}
use rasta_s.Pdu.Codec.{payload_length_of, serialize_pdu, deserialize_pdu}
use rasta_s.Pdu.Wire.{header}
use rasta_s.Pdu.Serialize.{part, wire}
use rasta_s.Pdu.RoundTrip.{
  InRange, IsComplete, received, with_fields, deserialize_pdu-fields, serialize_pdu-IsComplete,
}
use rasta_s.Pdu.Frames.{IsBytes, bytes-HasHeader}

-- What `deserialize_pdu` may leave of `q`: all of it, if the size does not hold the fixed fields;
-- new fields and the old pointers, if it does not hold the length that was read; or new fields and
-- pointers into the array.
pub data Deserialized (buffer : List ℕ) (size : ℕ) (q p : Pdu) : Type 0 where
  untouched : size < pdu_fixed_fields_length → p ≡ q → Deserialized buffer size q p
  cut :
      pdu_fixed_fields_length ≤ size
      → size < p.message_length
      → InRange p
      → header p ≡ take 28 buffer
      → p.payload ≡ q.payload
      → p.safety_code ≡ q.safety_code
      → Deserialized buffer size q p
  whole :
      pdu_fixed_fields_length ≤ size
      → p.message_length ≤ size
      → InRange p
      → header p ≡ take 28 buffer
      → p.payload ≡ at (drop 28 buffer)
      → p.safety_code ≡ at (drop (28 + payload_length_of p.message_length) buffer)
      → Deserialized buffer size q p

same-InRange : (p q : Pdu) → InRange p → InRange (with_fields p q)
same-InRange p q r = record {
  length_range = r.length_range;
  type_range = r.type_range;
  receiver_range = r.receiver_range;
  sender_range = r.sender_range;
  sequence_range = r.sequence_range;
  confirmed_sequence_range = r.confirmed_sequence_range;
  timestamp_range = r.timestamp_range;
  confirmed_timestamp_range = r.confirmed_timestamp_range;
}

not_ltb→le : (a b : ℕ) → ltb a b ≡ false → b ≤ a
not_ltb→le a b h = ground arith

header-Deserialized :
    (p q : Pdu) (rest : List ℕ) (size : ℕ)
    → InRange p
    → pdu_fixed_fields_length ≤ size
    → (p' : Pdu) × (deserialize_pdu (header p ++ rest) size q ≡ ok p')
      × Deserialized (header p ++ rest) size q p'
header-Deserialized p q rest size r fixed = elim (Bool-cases (ltb size p.message_length)) [
  | inl short ↦ (
    with_fields p q,
    deserialize_pdu-fields p q rest size r fixed ∙ rw short,
    cut fixed (ltb→lt size p.message_length short) (same-InRange p q r) refl refl refl,
  )
  | inr long ↦ (
    received p (header p ++ rest),
    deserialize_pdu-fields p q rest size r fixed ∙ rw long,
    whole fixed (not_ltb→le size p.message_length long)
        (same-InRange p (received p (header p ++ rest)) r) refl refl refl,
  )
]

-- On every array of bytes that has at least the size given, deserialize_pdu returns, and reads
-- nothing outside: the PDU is untouched if the size is below the fixed length; it has the fields
-- of the header, in range, and its old pointers if the size is below the length read; else it has
-- the fields and pointers to the payload and the safety code in the array.
pub deserialize_pdu-Deserialized :
    (buffer : List ℕ) (size : ℕ) (q : Pdu)
    → IsBytes buffer
    → size ≤ length buffer
    → (p : Pdu) × (deserialize_pdu buffer size q ≡ ok p) × Deserialized buffer size q p
unfolding deserialize_pdu
deserialize_pdu-Deserialized buffer size q bytes sized =
    elim (Bool-cases (ltb size pdu_fixed_fields_length)) [
      | inl small ↦ (q, rw small, untouched (ltb→lt size pdu_fixed_fields_length small) refl)
      | inr large ↦
          let fixed = not_ltb→le size pdu_fixed_fields_length large in
          let h = bytes-HasHeader buffer bytes (omega arith) in
          subst
            (λ (bs : List ℕ).
              (p : Pdu) × (deserialize_pdu bs size q ≡ ok p) × Deserialized bs size q p)
            (sym h.begins) (header-Deserialized h.fields q h.rest size h.in_range fixed)
    ]

module _ (stale : List ℕ → List ℕ) where
  whole-IsComplete :
      (p : Pdu) (buffer : List ℕ)
      → pdu_fixed_fields_length ≤ p.message_length
      → p.message_length ≤ length buffer
      → InRange p
      → p.payload ≡ at (drop 28 buffer)
      → p.safety_code ≡ at (drop (28 + payload_length_of p.message_length) buffer)
      → IsComplete stale p
  whole-IsComplete p buffer fixed sized r payload code = record {
    fixed = fixed;
    short = r.length_range;
    payload_full = rw payload (omega (arith, length-drop 28 buffer));
    code_full = rw code (
        omega
          (arith, length-drop (28 + payload_length_of p.message_length) buffer, r.length_range));
  }

  whole-wire :
      (p : Pdu) (buffer : List ℕ)
      → pdu_fixed_fields_length ≤ p.message_length
      → InRange p
      → header p ≡ take 28 buffer
      → p.payload ≡ at (drop 28 buffer)
      → p.safety_code ≡ at (drop (28 + payload_length_of p.message_length) buffer)
      → wire stale p ≡ take p.message_length buffer
  whole-wire p buffer fixed r front payload code =
      let n = payload_length_of p.message_length in
      ap₂ (◌++◌) front (ap₂ (λ (a b : Pointer). part stale a n ++ part stale b 8) payload code)
      ∙ sym
          (append_assoc (take 28 buffer) (take n (drop 28 buffer)) (take 8 (drop (28 + n) buffer)))
      ∙ ap (λ (xs : List ℕ). xs ++ take 8 (drop (28 + n) buffer)) (take-take-drop 28 n buffer)
      ∙ take-take-drop (28 + n) 8 buffer
      ∙ ap (λ (k : ℕ). take k buffer) (omega (arith, r.length_range))

  -- A received frame that holds the length it announces, of at least the fixed fields, is
  -- serialised to the bytes that were received, and nothing behind them is touched.
  pub serialize_pdu-deserialize_pdu :
      (buffer : List ℕ) (size : ℕ) (q p : Pdu) (out : List ℕ)
      → IsBytes buffer
      → size ≤ length buffer
      → deserialize_pdu buffer size q ≡ ok p
      → pdu_fixed_fields_length ≤ size
      → pdu_fixed_fields_length ≤ p.message_length
      → p.message_length ≤ size
      → p.message_length ≤ length out
      → serialize_pdu stale p out p.message_length
        ≡ ok (take p.message_length buffer ++ drop p.message_length out)
  serialize_pdu-deserialize_pdu buffer size q p out bytes sized read holds fixed fits room =
      let (p', read', outcome) = deserialize_pdu-Deserialized buffer size q bytes sized in
      let same : p' ≡ p = cc in written (subst (Deserialized buffer size q) same outcome)
    where
      written :
          Deserialized buffer size q p
          → serialize_pdu stale p out p.message_length
            ≡ ok (take p.message_length buffer ++ drop p.message_length out)
      written (untouched small e) = absurd (omega arith)
      written (cut large short r front payload code) = absurd (omega arith)
      written (whole large long r front payload code) =
          serialize_pdu-IsComplete stale p out
            (whole-IsComplete p buffer fixed (omega arith) r payload code) room
          ∙ ap (λ (bs : List ℕ). ok (bs ++ drop p.message_length out))
              (whole-wire p buffer fixed r front payload code)
