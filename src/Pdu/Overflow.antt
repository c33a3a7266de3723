-- ===== src/Pdu/Overflow.antt =====
-- Where the arrays of safecom/src/pdu.c are too small: copies that leave their array, and the
-- fixed buffer of `calculate_MD4`.
use rasta_s.Prelude.{
  ℕ, zero, suc, ◌+◌, ◌≤◌, ◌<◌, ◌≡◌, refl, arith, List, [], err, out_of_bounds, length, drop,
  length-set, length-drop, ltb→lt, le→not_ltb, Bool-cases, ltb, set, inl, inr, length-append,
}
use rasta_s.Platform.{Platform, IsSized}
use rasta_s.Pdu.Types.{Pdu, at}
use rasta_s.Pdu.Bytes.{Cursor, store, load, copy_bytes}
use rasta_s.Pdu.Codec.{payload_length_of, serialize_pdu, copy_unless_null}
use rasta_s.Pdu.Wire.{header, behind, load-drop}
use rasta_s.Pdu.Serialize.{serialize_fields-behind}
use rasta_s.Pdu.Build.{calculate_md4}

-- A copy with enough to read and too little room runs over the end of its target.
pub copy_bytes-overflow :
    (source : List ℕ) (n i : ℕ) (c : Cursor)
    → i + n ≤ length source
    → c.offset ≤ length c.buffer
    → length c.buffer < c.offset + n
    → copy_bytes source n i c ≡ err out_of_bounds
unfolding copy_bytes store
copy_bytes-overflow source zero i c readable inside over = absurd (omega arith)
copy_bytes-overflow source (suc n) i c readable inside over =
    let (x, loaded, _) = load-drop source i (omega arith) in
    rw loaded (elim (Bool-cases (ltb c.offset (length c.buffer))) [
      | inl room ↦ rw room (
          copy_bytes-overflow source n (i + 1)
            (record { buffer = set c.buffer c.offset x; offset = c.offset + 1 }) (omega arith)
            (omega (arith, length-set c.buffer c.offset x, ltb→lt c.offset (length c.buffer) room))
            (omega (arith, length-set c.buffer c.offset x)))
      | inr full ↦ rw full
    ])

-- A copy from a place that shows no byte runs over the end of its source.
pub copy_bytes-nothing : (n i : ℕ) (c : Cursor) → copy_bytes [] (suc n) i c ≡ err out_of_bounds
unfolding copy_bytes load
copy_bytes-nothing n i c = refl

-- A payload of more than 22 bytes does not fit the `MAX_PDU_LENGTH` bytes of `calculate_MD4`'s
-- buffer behind the 28 bytes of the header: the serialiser writes over its end.
pub calculate_md4-overflow :
    (plat : Platform) (p : Pdu) (bs : List ℕ)
    → IsSized plat
    → payload_length_of p.message_length ≤ length bs
    → 22 < payload_length_of p.message_length
    → calculate_md4 plat (record p { payload = at bs }) ≡ err out_of_bounds
unfolding calculate_md4 serialize_pdu copy_unless_null
calculate_md4-overflow plat p bs sized enough over =
    rw (le→not_ltb p.message_length p.message_length (omega arith)) (
      rw
        (serialize_fields-behind (record p { payload = at bs }) plat.frame
          (omega (arith, sized.frame_length)))
        (rw (
          copy_bytes-overflow bs (payload_length_of p.message_length) 0
            (behind (header p) (drop 28 plat.frame)) (omega arith)
            (omega (arith, length-append (header p) (drop 28 plat.frame)))
            (omega (arith, length-drop 28 plat.frame, sized.frame_length)))))
