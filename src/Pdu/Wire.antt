-- ===== src/Pdu/Wire.antt =====
-- The wire format written down independently of the writers, and what each writer does to a
-- buffer of which a prefix is written already.
use rasta_s.Prelude.{
  ℕ, zero, suc, ◌+◌, ◌/◌, ◌^◌, ◌≤◌, ◌<◌, ◌≡◌, refl, ap, ◌∙◌, arith, List, [], ◌∷◌, ◌++◌,
  append_assoc, append-nil, ok, length, set, take, drop, length-append, length-drop, drop-drop,
  lt→ltb,
}
use native.Mathlib.Numerals.{add-one}
use rasta_s.Pdu.Types.{Pdu}
use rasta_s.Pdu.Bytes.{Cursor, u8, store, load, write_uint16, write_uint32, copy_bytes}

-- Big-endian bytes.
abbrev pub be16 : ℕ → List ℕ
be16 v = u8 (v / 2 ^ 8) ∷ u8 v ∷ []

abbrev pub be32 : ℕ → List ℕ
be32 v = u8 (v / 2 ^ 24) ∷ u8 (v / 2 ^ 16) ∷ u8 (v / 2 ^ 8) ∷ u8 v ∷ []

-- The 28 bytes before the payload.
abbrev pub header : Pdu → List ℕ
header p =
    be16 p.message_length
    ++ (be16 p.message_type
        ++ (be32 p.receiver_id
            ++ (be32 p.sender_id
                ++ (be32 p.sequence_number
                    ++ (be32 p.confirmed_sequence_number
                        ++ (be32 p.timestamp ++ be32 p.confirmed_timestamp))))))

-- A cursor behind the bytes written, before the bytes left.
abbrev pub behind : List ℕ → List ℕ → Cursor
behind pre rest = record { buffer = pre ++ rest; offset = length pre }

set-beyond : (pre xs : List ℕ) (k v : ℕ) → set (pre ++ xs) (length pre + k) v ≡ pre ++ set xs k v
set-beyond [] xs k v = ap (λ (n : ℕ). set xs n v) (omega arith)
set-beyond (y ∷ pre) xs k v =
    let e : suc (length pre) + k ≡ suc (length pre + k) = omega arith in
    rw e (ap (◌∷◌ y) (set-beyond pre xs k v))

store-beyond :
    (pre xs : List ℕ) (k v : ℕ)
    → k < length xs
    → store (pre ++ xs) (length pre + k) v ≡ ok (pre ++ set xs k v)
unfolding store
store-beyond pre xs k v h = rw (
  lt→ltb (length pre + k) (length (pre ++ xs)) (omega (arith, length-append pre xs)),
  set-beyond pre xs k v,
)

store-next :
    (pre xs : List ℕ) (v : ℕ)
    → 0 < length xs
    → store (pre ++ xs) (length pre) v ≡ ok (pre ++ set xs 0 v)
store-next pre xs v h =
    let e : length pre ≡ length pre + 0 = omega arith in
    ap (λ (n : ℕ). store (pre ++ xs) n v) e ∙ store-beyond pre xs 0 v h

behind-append :
    (pre bs rest : List ℕ) (k : ℕ)
    → length bs ≡ k
    → record { buffer = pre ++ (bs ++ rest); offset = length pre + k } ≡ behind (pre ++ bs) rest
behind-append pre bs rest k h = rw (← append_assoc pre bs rest, length-append pre bs, h)

write_uint16-behind :
    (pre rest : List ℕ) (v : ℕ)
    → 2 ≤ length rest
    → write_uint16 (behind pre rest) v ≡ ok (behind (pre ++ be16 v) (drop 2 rest))
unfolding write_uint16
write_uint16-behind pre [] v h = absurd (omega arith)
write_uint16-behind pre (a ∷ []) v h = absurd (omega arith)
write_uint16-behind pre (a ∷ b ∷ rest) v h =
    rw (store-next pre (a ∷ b ∷ rest) (u8 (v / 2 ^ 8)) (omega arith)) (
      rw (store-beyond pre (u8 (v / 2 ^ 8) ∷ b ∷ rest) 1 (u8 v) (omega arith))
        (ap ok (behind-append pre (be16 v) rest 2 refl)))

write_uint32-behind :
    (pre rest : List ℕ) (v : ℕ)
    → 4 ≤ length rest
    → write_uint32 (behind pre rest) v ≡ ok (behind (pre ++ be32 v) (drop 4 rest))
unfolding write_uint32
write_uint32-behind pre [] v h = absurd (omega arith)
write_uint32-behind pre (a ∷ []) v h = absurd (omega arith)
write_uint32-behind pre (a ∷ b ∷ []) v h = absurd (omega arith)
write_uint32-behind pre (a ∷ b ∷ c ∷ []) v h = absurd (omega arith)
write_uint32-behind pre (a ∷ b ∷ c ∷ d ∷ rest) v h =
    rw (store-next pre (a ∷ b ∷ c ∷ d ∷ rest) b3 (omega arith)) (
      rw (store-beyond pre (b3 ∷ b ∷ c ∷ d ∷ rest) 1 b2 (omega arith)) (
        rw (store-beyond pre (b3 ∷ b2 ∷ c ∷ d ∷ rest) 2 b1 (omega arith)) (
          rw (store-beyond pre (b3 ∷ b2 ∷ b1 ∷ d ∷ rest) 3 (u8 v) (omega arith))
            (ap ok (behind-append pre (be32 v) rest 4 refl)))))
  where
    b3 : ℕ
    b3 = u8 (v / 2 ^ 24)

    b2 : ℕ
    b2 = u8 (v / 2 ^ 16)

    b1 : ℕ
    b1 = u8 (v / 2 ^ 8)

-- The same where the bytes left are those of a buffer from index `k` on.
pub write_uint16-drop :
    (pre buffer : List ℕ) (k v : ℕ)
    → k + 2 ≤ length buffer
    → write_uint16 (behind pre (drop k buffer)) v
      ≡ ok (behind (pre ++ be16 v) (drop (k + 2) buffer))
write_uint16-drop pre buffer k v h =
    write_uint16-behind pre (drop k buffer) v (omega (arith, length-drop k buffer))
    ∙ ap (λ (t : List ℕ). ok (behind (pre ++ be16 v) t)) (drop-drop 2 k buffer)

pub write_uint32-drop :
    (pre buffer : List ℕ) (k v : ℕ)
    → k + 4 ≤ length buffer
    → write_uint32 (behind pre (drop k buffer)) v
      ≡ ok (behind (pre ++ be32 v) (drop (k + 4) buffer))
write_uint32-drop pre buffer k v h =
    write_uint32-behind pre (drop k buffer) v (omega (arith, length-drop k buffer))
    ∙ ap (λ (t : List ℕ). ok (behind (pre ++ be32 v) t)) (drop-drop 4 k buffer)

pub load-drop :
    (xs : List ℕ) (i : ℕ)
    → i < length xs
    → (x : ℕ) × (load xs i ≡ ok x) × (drop i xs ≡ x ∷ drop (suc i) xs)
unfolding load
load-drop [] i h = absurd (omega arith)
load-drop (x ∷ xs) zero h = (x, refl, refl)
load-drop (x ∷ xs) (suc i) h = load-drop xs i (omega arith)

-- A copy that stays inside both arrays appends the bytes from index `i` on.
pub copy_bytes-behind :
    (source : List ℕ) (n i : ℕ) (pre rest : List ℕ)
    → i + n ≤ length source
    → n ≤ length rest
    → copy_bytes source n i (behind pre rest)
      ≡ ok (behind (pre ++ take n (drop i source)) (drop n rest))
unfolding copy_bytes
copy_bytes-behind source zero i pre rest h k = rw append-nil
copy_bytes-behind source (suc n) i pre [] h k = absurd (omega arith)
copy_bytes-behind source (suc n) i pre (r ∷ rest) h k =
    let (x, loaded, dropped) = load-drop source i (omega arith) in
    rw (loaded, dropped)
      (rw (store-next pre (r ∷ rest) x (omega arith)) (
        rw (behind-append pre (x ∷ []) rest 1 refl) (
          rw (copy_bytes-behind source n (i + 1) (pre ++ x ∷ []) rest (omega arith) (omega arith)) (
            rw add-one (
              ap (λ (w : List ℕ). ok (behind w (drop n rest)))
                (append_assoc pre (x ∷ []) (take n (drop (suc i) source))))))))
