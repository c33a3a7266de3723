-- ===== src/Pdu/Frames.antt =====
-- Received frames: every array of 28 bytes or more begins with the header of some PDU, so
-- `deserialize_pdu` (safecom/src/pdu.c) can be read on all of them.
use rasta_s.Prelude.{
  ℕ, ◌+◌, ◌*◌, ◌-◌, ◌^◌, ◌≤◌, ◌<◌, ◌≡◌, sym, ap, ◌∙◌, arith, List, [], ◌∷◌, ◌++◌, append_assoc,
  length,
}
use rasta_s.Pdu.Types.{Pdu, zero_pdu}
use rasta_s.Pdu.Wire.{be16, be32, header}
use rasta_s.Pdu.RoundTrip.{InRange}

-- All elements are values of `uint8_t`.
abbrev pub IsBytes : List ℕ → Type 0
IsBytes [] = Unit {0}
IsBytes (b ∷ bs) = (b < 2 ^ 8) × IsBytes bs

-- An array that begins with the written form of a value, and the bytes behind it.
record Begins (A : Type 0) (put : A → List ℕ) (Ok : A → Type 0) (width : ℕ) (xs : List ℕ)
    : Type 0 where
  value : A
  rest : List ℕ
  begins : xs ≡ put value ++ rest
  in_range : Ok value
  rest_bytes : IsBytes rest
  rest_length : length rest ≡ length xs - width

-- Every array of `width` bytes begins with the written form of a value.
abbrev Readable : (A : Type 0) → (A → List ℕ) → (A → Type 0) → ℕ → Type 0
Readable A put Ok width = (xs : List ℕ) → IsBytes xs → width ≤ length xs → Begins A put Ok width xs

both-Readable :
    (A B : Type 0) (put : A → List ℕ) (write : B → List ℕ) (Ok : A → Type 0) (Fine : B → Type 0)
    (m n : ℕ)
    → Readable A put Ok m
    → Readable B write Fine n
    → Readable (A × B) (λ p. put p.0 ++ write p.1) (λ p. Ok p.0 × Fine p.1) (m + n)
both-Readable A B put write Ok Fine m n f g xs h long =
    let a = f xs h (omega arith) in
    let b = g a.rest a.rest_bytes (omega (arith, a.rest_length)) in
    record {
      value = (a.value, b.value);
      rest = b.rest;
      begins =
          a.begins
          ∙ ap (λ (r : List ℕ). put a.value ++ r) b.begins
          ∙ sym (append_assoc (put a.value) (write b.value) b.rest);
      in_range = (a.in_range, b.in_range);
      rest_bytes = b.rest_bytes;
      rest_length = omega (arith, a.rest_length, b.rest_length);
    }

be16-two : (a b : ℕ) → a < 2 ^ 8 → b < 2 ^ 8 → be16 (a * 2 ^ 8 + b) ≡ a ∷ b ∷ []
be16-two a b ha hb = ground arith

be32-four :
    (a b c d : ℕ)
    → a < 2 ^ 8
    → b < 2 ^ 8
    → c < 2 ^ 8
    → d < 2 ^ 8
    → be32 (a * 2 ^ 24 + b * 2 ^ 16 + c * 2 ^ 8 + d) ≡ a ∷ b ∷ c ∷ d ∷ []
be32-four a b c d ha hb hc hd = ground arith

abbrev Word : ℕ → ℕ → Type 0
Word bits v = v < 2 ^ bits

read16 : Readable ℕ be16 (Word 16) 2
read16 (a ∷ b ∷ xs) (ha, (hb, h)) n = record {
  value = a * 2 ^ 8 + b;
  rest = xs;
  begins = ap (λ (ys : List ℕ). ys ++ xs) (sym (be16-two a b ha hb));
  in_range = omega arith;
  rest_bytes = h;
  rest_length = omega arith;
}
read16 (a ∷ []) h n = absurd (omega arith)
read16 [] h n = absurd (omega arith)

read32 : Readable ℕ be32 (Word 32) 4
read32 (a ∷ b ∷ c ∷ d ∷ xs) (ha, (hb, (hc, (hd, h)))) n = record {
  value = a * 2 ^ 24 + b * 2 ^ 16 + c * 2 ^ 8 + d;
  rest = xs;
  begins = ap (λ (ys : List ℕ). ys ++ xs) (sym (be32-four a b c d ha hb hc hd));
  in_range = omega arith;
  rest_bytes = h;
  rest_length = omega arith;
}
read32 (a ∷ b ∷ c ∷ []) h n = absurd (omega arith)
read32 (a ∷ b ∷ []) h n = absurd (omega arith)
read32 (a ∷ []) h n = absurd (omega arith)
read32 [] h n = absurd (omega arith)

-- An array that begins with the header of a PDU.
pub record HasHeader (xs : List ℕ) : Type 0 where
  pub fields : Pdu
  pub rest : List ℕ
  pub begins : xs ≡ header fields ++ rest
  pub in_range : InRange fields
  pub rest_bytes : IsBytes rest

-- Every array of 28 bytes begins with the header of a PDU whose fields are in range.
pub bytes-HasHeader : (xs : List ℕ) → IsBytes xs → 28 ≤ length xs → HasHeader xs
bytes-HasHeader xs h n =
    let r7 = both-Readable _ _ _ _ _ _ 4 4 read32 read32 in
    let r6 = both-Readable _ _ _ _ _ _ 4 8 read32 r7 in
    let r5 = both-Readable _ _ _ _ _ _ 4 12 read32 r6 in
    let r4 = both-Readable _ _ _ _ _ _ 4 16 read32 r5 in
    let r3 = both-Readable _ _ _ _ _ _ 4 20 read32 r4 in
    let r2 = both-Readable _ _ _ _ _ _ 2 24 read16 r3 in
    let all = both-Readable _ _ _ _ _ _ 2 26 read16 r2 xs h n in
    let (a, (b, (c, (d, (e, (f, (g, k))))))) = all.value in
    let (ha, (hb, (hc, (hd, (he, (hf, (hg, hk))))))) = all.in_range in
    record {
      fields = record zero_pdu {
        message_length = a;
        message_type = b;
        receiver_id = c;
        sender_id = d;
        sequence_number = e;
        confirmed_sequence_number = f;
        timestamp = g;
        confirmed_timestamp = k;
      };
      rest = all.rest;
      begins = all.begins;
      in_range = record {
        length_range = ha;
        type_range = hb;
        receiver_range = hc;
        sender_range = hd;
        sequence_range = he;
        confirmed_sequence_range = hf;
        timestamp_range = hg;
        confirmed_timestamp_range = hk;
      };
      rest_bytes = all.rest_bytes;
    }
