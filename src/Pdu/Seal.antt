-- ===== src/Pdu/Seal.antt =====
-- The safety code and the builders (safecom/src/pdu.c), with their results written out.
use rasta_s.Prelude.{
  ℕ, ◌+◌, ◌-◌, ◌≤◌, ◌<◌, ◌^◌, ◌≡◌, refl, ap, arith, List, [], ◌++◌, append_assoc, ok, length, take,
  drop, length-append, take-drop-middle, le→not_ltb,
}
use rasta_s.Platform.{Platform, IsSized}
use rasta_s.Pdu.Types.{Pdu, dead, safety_code_length, pdu_fixed_fields_length}
use rasta_s.Pdu.Bytes.{u32}
use rasta_s.Pdu.Codec.{payload_length_of}
use rasta_s.Pdu.Wire.{header}
use rasta_s.Pdu.Serialize.{part, Shows, wire, serialize_pdu-wire}
use rasta_s.Pdu.RoundTrip.{Full, Full-Shows, length-part}
use rasta_s.Pdu.Build.{read_prefix, calculate_md4}

read_prefix-le :
    (buffer : List ℕ) (n : ℕ) → n ≤ length buffer → read_prefix buffer n ≡ ok (take n buffer)
unfolding read_prefix
read_prefix-le buffer n h = rw (le→not_ltb (length buffer) n h)

module _ (plat : Platform) where
  -- The bytes that the safety code protects: header and payload.
  abbrev pub protected_part : Pdu → List ℕ
  protected_part p = header p ++ part plat.stale p.payload (payload_length_of p.message_length)

  abbrev pub seal : Pdu → Pdu
  seal p = record p { safety_code = dead (plat.md4 (protected_part p)) }

  -- A PDU that `calculate_MD4` can take: its buffer holds it, and the old pointers show enough.
  pub record Sealable (p : Pdu) : Type 0 where
    pub fixed : pdu_fixed_fields_length ≤ p.message_length
    pub short : p.message_length < 2 ^ 16
    pub fits : length (wire plat.stale p) ≤ 50
    pub payload_full : Full plat.stale p.payload (payload_length_of p.message_length)
    pub code_shows : Shows plat.stale p.safety_code safety_code_length

  -- Where a PDU fits the buffer and its pointers show enough bytes, calculate_MD4 returns it with
  -- the digest of exactly its header and payload; the old safety code has no part in it.
  pub calculate_md4-seal :
      (p : Pdu) → IsSized plat → Sealable p → calculate_md4 plat p ≡ ok (seal p)
  unfolding calculate_md4
  calculate_md4-seal p sized s =
      rw
        (serialize_pdu-wire plat.stale p plat.frame p.message_length (omega arith)
          (Full-Shows plat.stale p.payload _ s.payload_full) s.code_shows wire_fits)
        (rw (read_prefix-le _ _ long_enough)
          (ap (λ (m : List ℕ). ok (record p { safety_code = dead (plat.md4 m) })) cut))
    where
      n : ℕ
      n = payload_length_of p.message_length

      pay : List ℕ
      pay = part plat.stale p.payload n

      code : List ℕ
      code = part plat.stale p.safety_code 8

      tail : List ℕ
      tail = drop (length (wire plat.stale p)) plat.frame

      pay_length : length pay ≡ n
      pay_length = length-part plat.stale p.payload n s.payload_full

      wire_fits : length (wire plat.stale p) ≤ length plat.frame
      wire_fits = omega (arith, sized.frame_length, s.fits)

      long_enough :
          u32 (p.message_length + 2 ^ 32 - safety_code_length) ≤ length (wire plat.stale p ++ tail)
      long_enough =
          omega (arith, length-append (pay ++ code) tail, length-append pay code, pay_length)

      cut :
          take (u32 (p.message_length + 2 ^ 32 - safety_code_length)) (wire plat.stale p ++ tail)
          ≡ protected_part p
      cut =
          take-drop-middle [] (header p ++ pay) (code ++ tail) (wire plat.stale p ++ tail) 0 _
            (ap (λ (t : List ℕ). header p ++ t) (append_assoc pay code tail)) refl
            (omega (arith, pay_length))
