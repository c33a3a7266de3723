-- ===== src/Sm/Conversation.antt =====
-- Two open connections that say heartbeats and data to one another, over a link that loses nothing
-- (safecom/src/sm.c and safecom/src/pdu.c).
use rasta_s.Prelude.{
  ℕ, zero, suc, ◌+◌, ◌-◌, ◌^◌, ◌≡◌, refl, sym, ap, ◌∙◌, arith, List, [], ◌∷◌, ◌++◌, take-append,
  Result, ok, ◌>>=◌, length, take, ltb,
}
use rasta_s.Platform.{Platform, IsSized}
use rasta_s.Pdu.Bytes.{u16, u32}
use rasta_s.Pdu.Codec.{payload_length_of}
use rasta_s.Pdu.Serialize.{part}
use rasta_s.Sm.Types.{Context, SafeComVtable}
use rasta_s.Sm.Checks.{process_regular_receipt}
use rasta_s.Sm.Machine.{sm_handle_event, handler_of}
use rasta_s.Sm.Emit.{frame_of}
use rasta_s.Sm.Runs.{setup}
use rasta_s.Sm.Session.{handed}
use rasta_s.Sm.Accept.{IsMessage, accepted, accept}
use rasta_s.Sm.Arrive.{newest, get_current_timestamp-lt, arrive, found, arrive-found, same_time}
use rasta_s.Sm.Says.{Says, beat, message, Short, said, heard_as, speak}
use rasta_s.Sm.Talk.{said-length, Talker, spoken, speak_lem, spoken-InRange, spoken-Talker}

-- The payload of the PDU that a machine has just been handed.
abbrev pub heard : Platform → Context → List ℕ
heard plat c = part plat.stale c.pdu.payload (payload_length_of c.pdu.message_length)

-- One of two says something and the other hears it.
unfoldable pub tell :
    Platform → Platform → Says → Context → Context → Result (Context × Context × List ℕ)
tell from to w a b = do
  a' ← speak from w a
  f ← newest a'.io.sent
  b' ← arrive to (heard_as w) f b
  ok (a', b', heard to b')

-- The role, the setup and the confirmed timestamp stay.
pub record Continues (c c' : Context) : Type 0 where
  pub role_is : c'.self.role ≡ c.self.role
  pub setup_is : setup c'.self ≡ setup c.self
  pub confirmed_is : c'.self.ctsr ≡ c.self.ctsr

pub Continues-trans : (c c' c'' : Context) → Continues c c' → Continues c' c'' → Continues c c''
Continues-trans c c' c'' f g = record {
  role_is = g.role_is ∙ f.role_is;
  setup_is = g.setup_is ∙ f.setup_is;
  confirmed_is = g.confirmed_is ∙ f.confirmed_is;
}

-- Two machines that are open, each of which expects the number that the other sends next, and which
-- agree on the confirmed timestamp.
pub record Paired (v w : SafeComVtable) (a b : Context) : Type 0 where
  pub first : Talker v a
  pub second : Talker w b
  pub first_next : b.self.snr ≡ u32 (a.self.snt + 1)
  pub second_next : a.self.snr ≡ u32 (b.self.snt + 1)
  pub same_confirmed : a.self.ctsr ≡ b.self.ctsr

pub Paired-swap : (v w : SafeComVtable) (a b : Context) → Paired v w a b → Paired w v b a
Paired-swap v w a b p = record {
  first = p.second;
  second = p.first;
  first_next = p.second_next;
  second_next = p.first_next;
  same_confirmed = sym p.same_confirmed;
}

pub heard_as-IsMessage : (w : Says) → IsMessage (heard_as w)
heard_as-IsMessage beat = tt
heard_as-IsMessage (message bytes) = tt

pub take-length : (xs : List ℕ) (n : ℕ) → n ≡ length xs → take n xs ≡ xs
take-length [] zero e = refl
take-length [] (suc n) e = absurd (omega arith)
take-length (x ∷ xs) zero e = absurd (omega arith)
take-length (x ∷ xs) (suc n) e = ap (◌∷◌ x) (take-length xs n (omega arith))

cut-said : (n : ℕ) (bytes code : List ℕ) → n ≡ length bytes → take n (take n bytes ++ code) ≡ bytes
cut-said n bytes code e =
    let whole : take n bytes ≡ bytes = take-length bytes n e in
    rw whole (ap (λ (k : ℕ). take k (bytes ++ code)) e ∙ take-append bytes code)

module _ (from to : Platform) (v w : SafeComVtable) (sized : IsSized from)
    (to_sized : IsSized to) where
  heard-found :
      (s : Says) (a : Context)
      → Short s
      → let q = found from (spoken from v s a).pdu in
        part to.stale q.payload (payload_length_of q.message_length) ≡ said s
  heard-found beat a h = refl
  heard-found (message bytes) a h =
      cut-said (payload_length_of (u16 (36 + length bytes))) bytes _ (omega arith)

  module _ (s : Says) (a b : Context) (p : Paired v w a b) (short : Short s) where
    abbrev pub told : Context
    told = spoken from v s a

    abbrev pub handed_over : Context
    handed_over = handed (found from told.pdu) b

    abbrev pub hearing : Context
    hearing = accepted to handed_over

    told-accepted : sm_handle_event to (heard_as s) handed_over ≡ ok hearing
    told-accepted =
        accept to (heard_as s) handed_over (heard_as-IsMessage s) p.second.clocked p.second.stored
          p.first_next
          (ap (λ (n : ℕ). ltb (u32 (n + 2 ^ 32 - b.self.ctsr)) b.self.time.timeouts.tmax)
              p.same_confirmed
            ∙ same_time b.self.ctsr b.self.time.timeouts.tmax p.second.patient)

    hearing-Talker : Talker w hearing
    unfolding process_regular_receipt
    hearing-Talker = record {
      clocked = p.second.clocked;
      connected = p.second.connected;
      buffer_size = p.second.buffer_size;
      is_up = p.second.is_up;
      stored = ap handler_of p.second.is_up;
      bounded = omega (
        arith,
        p.first.bounded.cst_range,
        p.first.bounded.ctsr_range,
        p.second.bounded.snt_range,
        get_current_timestamp-lt from a.io.calls,
      );
      patient = p.second.patient;
    }

    pub told-Paired : Paired v w told hearing
    unfolding process_regular_receipt
    told-Paired = record {
      first = spoken-Talker from v sized s a p.first short;
      second = hearing-Talker;
      first_next = refl;
      second_next = p.second_next;
      same_confirmed = refl;
    }

    pub told-Continues : Continues a told
    told-Continues = record { role_is = refl; setup_is = refl; confirmed_is = refl }

    pub hearing-Continues : Continues b hearing
    unfolding process_regular_receipt
    hearing-Continues = record { role_is = refl; setup_is = refl; confirmed_is = p.same_confirmed }

    pub heard-told : heard to hearing ≡ said s
    unfolding process_regular_receipt
    heard-told = heard-found s a short

    -- The frame of what is said is taken.
    pub hear_lem : arrive to (heard_as s) (frame_of from v told) b ≡ ok hearing
    hear_lem =
        arrive-found to from v (heard_as s) told b (spoken-InRange from v sized s a p.first)
          (omega (arith, said-length from v sized s short))
        ∙ told-accepted

    pub tell_lem : tell from to s a b ≡ ok (told, hearing, said s)
    unfolding tell newest
    tell_lem =
        rw (speak_lem from v sized s a p.first short)
          (rw hear_lem (ap (λ (bs : List ℕ). ok (told, hearing, bs)) heard-told))
