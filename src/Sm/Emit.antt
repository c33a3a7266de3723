-- ===== src/Sm/Emit.antt =====
-- What building and sending one message does to the context (safecom/src/pdu.c and
-- safecom/src/sm.c), as equations with the result written out.
use rasta_s.Prelude.{
  ℕ, ◌+◌, ◌≤◌, ◌<◌, ◌^◌, ◌≡◌, refl, ap, ◌∙◌, arith, List, [], ◌∷◌, ◌++◌, ok, ◌>>=◌, length, take,
  drop, length-append, take-drop-middle,
}
use rasta_s.Platform.{Platform, IsSized}
use rasta_s.TimeMon.{get_current_timestamp, tlocal_lem}
use rasta_s.Pdu.Types.{
  Pdu, Pointer, MessageType, safety_code_length, pdu_fixed_fields_length, receiver_id_const,
  sender_id_const,
}
use rasta_s.Pdu.Bytes.{u16}
use rasta_s.Pdu.Codec.{payload_length_of}
use rasta_s.Pdu.Serialize.{part, length-part-le, Shows, wire}
use rasta_s.Pdu.RoundTrip.{length-part, Full, IsComplete, length-wire, serialize_pdu-IsComplete}
use rasta_s.Pdu.Seal.{Sealable, seal, calculate_md4-seal}
use rasta_s.Pdu.Build.{build}
use rasta_s.Sm.Types.{Context, Frame, SafeComVtable, VtablePointer, vtable_at, current_timestamp}
use rasta_s.Sm.Transmit.{transmit, send_spdu}

module _ (plat : Platform) where
  -- The PDU before its safety code.
  abbrev pub composed : ℕ → MessageType → ℕ → ℕ → Pointer → Context → Pdu
  composed len kind confirmed confirmed_time body c = record (c.pdu) {
    message_length = u16 len;
    message_type = kind;
    receiver_id = receiver_id_const;
    sender_id = sender_id_const;
    sequence_number = c.self.snt;
    confirmed_sequence_number = confirmed;
    timestamp = get_current_timestamp plat c.io.calls;
    confirmed_timestamp = confirmed_time;
    payload = body;
  }

  abbrev pub built : ℕ → MessageType → ℕ → ℕ → Pointer → Context → Context
  built len kind confirmed confirmed_time body c = record c {
    pdu = seal plat (composed len kind confirmed confirmed_time body c);
    io = record (c.io) { calls = c.io.calls + 1 };
  }

  -- A length and a payload that fit the buffer of `calculate_MD4`.
  pub record Composable (len : ℕ) (body : Pointer) : Type 0 where
    pub fixed : pdu_fixed_fields_length ≤ len
    pub fits : len ≤ 50
    pub payload_full : Full plat.stale body (payload_length_of (u16 len))

  -- A length that the fixed fields and the payload make up.
  pub record Framed (len : ℕ) (body : Pointer) : Type 0 where
    pub fixed : pdu_fixed_fields_length ≤ len
    pub short : len < 2 ^ 16
    pub payload_full : Full plat.stale body (payload_length_of (u16 len))

  pub Composable-Framed : (len : ℕ) (body : Pointer) → Composable len body → Framed len body
  Composable-Framed len body k = record {
    fixed = k.fixed;
    short = omega (arith, k.fits);
    payload_full = k.payload_full;
  }

  -- What a builder leaves can be sent.
  pub built-IsComplete :
      (len : ℕ) (kind : MessageType) (confirmed confirmed_time : ℕ) (body : Pointer) (c : Context)
      → IsSized plat
      → Framed len body
      → IsComplete plat.stale (built len kind confirmed confirmed_time body c).pdu
  built-IsComplete len kind confirmed confirmed_time body c sized k = record {
    fixed = omega (arith, k.fixed, k.short);
    short = omega arith;
    payload_full = k.payload_full;
    code_full = omega (arith, sized.stale_length (plat.md4 _), sized.digest_length _);
  }

module _ (plat : Platform) (v : SafeComVtable) where
  -- A context whose machine has its clock and its callbacks, whose PDU shows a safety code or has
  -- none, and whose send buffer has `MAX_BUFF_SIZE` bytes.
  pub record Ready (c : Context) : Type 0 where
    pub clocked : c.self.time.tlocal ≡ current_timestamp
    pub connected : c.self.vtable ≡ vtable_at v
    pub code_shows : Shows plat.stale c.pdu.safety_code safety_code_length
    pub buffer_size : length c.io.buff_to_send ≡ 100

  -- What `Ready` reads of a context.
  pub Ready-same :
      (c base : Context)
      → base.self.time.tlocal ≡ c.self.time.tlocal
      → base.self.vtable ≡ c.self.vtable
      → base.pdu.safety_code ≡ c.pdu.safety_code
      → base.io.buff_to_send ≡ c.io.buff_to_send
      → Ready c
      → Ready base
  Ready-same c base timer table code buffer r = record {
    clocked = timer ∙ r.clocked;
    connected = table ∙ r.connected;
    code_shows = rw code r.code_shows;
    buffer_size = rw buffer r.buffer_size;
  }

  -- The call of `SendSpdu` for the PDU of a context.
  abbrev pub frame_of : Context → Frame
  frame_of c = record {
    callback = v.send_spdu;
    node_id = c.self.channel;
    spdu_len = c.pdu.message_length;
    bytes = wire plat.stale c.pdu;
  }

  abbrev pub transmitted : Context → Context
  transmitted c = record c {
    io = record (c.io) {
      buff_to_send = wire plat.stale c.pdu ++ drop c.pdu.message_length c.io.buff_to_send;
      sent = frame_of c ∷ c.io.sent;
    };
  }

  -- Where `calculate_MD4` can take the PDU, the builder returns it sealed.
  pub build-sealed :
      (len : ℕ) (kind : MessageType) (confirmed confirmed_time : ℕ) (body : Pointer) (c : Context)
      → IsSized plat
      → Sealable plat (composed plat len kind confirmed confirmed_time body c)
      → c.self.time.tlocal ≡ current_timestamp
      → build plat len kind confirmed confirmed_time body c
        ≡ ok (built plat len kind confirmed confirmed_time body c)
  unfolding build
  build-sealed len kind confirmed confirmed_time body c sized k clocked =
      rw (tlocal_lem plat c clocked) (
        rw (
          calculate_md4-seal plat (composed plat len kind confirmed confirmed_time body c) sized k))

  pub build-built :
      (len : ℕ) (kind : MessageType) (confirmed confirmed_time : ℕ) (body : Pointer) (c : Context)
      → IsSized plat
      → Composable plat len body
      → Ready c
      → build plat len kind confirmed confirmed_time body c
        ≡ ok (built plat len kind confirmed confirmed_time body c)
  build-built len kind confirmed confirmed_time body c sized k r =
      build-sealed len kind confirmed confirmed_time body c sized
        (record {
          fixed = omega (arith, k.fixed, k.fits);
          short = omega arith;
          fits = omega (
            arith,
            k.fits,
            k.fixed,
            length-append (part plat.stale body (payload_length_of (u16 len)))
                (part plat.stale c.pdu.safety_code 8),
            length-part plat.stale body (payload_length_of (u16 len)) k.payload_full,
            length-part-le plat.stale c.pdu.safety_code 8 r.code_shows,
          );
          payload_full = k.payload_full;
          code_shows = r.code_shows;
        })
        r.clocked

  pub transmit-transmitted :
      (c : Context)
      → c.self.vtable ≡ vtable_at v
      → IsComplete plat.stale c.pdu
      → c.pdu.message_length ≤ length c.io.buff_to_send
      → transmit plat c ≡ ok (transmitted c)
  unfolding transmit send_spdu
  transmit-transmitted c connected complete room =
      rw (serialize_pdu-IsComplete plat.stale c.pdu c.io.buff_to_send complete room) (
        ap (λ (w : VtablePointer). send_spdu w filled) connected
        ∙ ap (λ (bs : List ℕ). ok (sending bs)) cut)
    where
      buffer : List ℕ
      buffer = wire plat.stale c.pdu ++ drop c.pdu.message_length c.io.buff_to_send

      filled : Context
      filled = record c { io = record (c.io) { buff_to_send = buffer } }

      sending : List ℕ → Context
      sending bs = record c {
        io = record (c.io) {
          buff_to_send = buffer;
          sent = record (frame_of c) { bytes = bs } ∷ c.io.sent;
        };
      }

      cut : take c.pdu.message_length buffer ≡ wire plat.stale c.pdu
      cut =
          take-drop-middle [] (wire plat.stale c.pdu) (drop c.pdu.message_length c.io.buff_to_send)
            buffer 0 c.pdu.message_length refl refl (length-wire plat.stale c.pdu complete)

  -- A message built and sent.
  abbrev pub emitted : ℕ → MessageType → ℕ → ℕ → Pointer → Context → Context
  emitted len kind confirmed confirmed_time body c =
      transmitted (built plat len kind confirmed confirmed_time body c)

  pub build-transmit :
      (len : ℕ) (kind : MessageType) (confirmed confirmed_time : ℕ) (body : Pointer) (c : Context)
      → IsSized plat
      → Composable plat len body
      → Ready c
      → (build plat len kind confirmed confirmed_time body c >>= transmit plat)
        ≡ ok (emitted len kind confirmed confirmed_time body c)
  build-transmit len kind confirmed confirmed_time body c sized k r =
      rw (build-built len kind confirmed confirmed_time body c sized k r) (
        transmit-transmitted (built plat len kind confirmed confirmed_time body c) r.connected
          (built-IsComplete plat len kind confirmed confirmed_time body c sized
            (Composable-Framed plat len body k))
          (omega (arith, k.fits, r.buffer_size)))
