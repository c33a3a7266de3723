-- ===== src/Sm/Packets.antt =====
-- The packets in which an open connection says a list of heartbeats and data, one call after the
-- other (safecom/src/sm.c and safecom/src/pdu.c).
use rasta_s.Prelude.{
  ℕ, zero, suc, ◌+◌, ◌≤◌, ◌<◌, ◌≡◌, refl, ◌∙◌, arith, none, some, List, [], ◌∷◌, map, Result, ok,
  ◌>>=◌, length, get_elem?, drop,
}
use rasta_s.Platform.{Platform, IsSized}
use rasta_s.Pdu.Bytes.{u32}
use rasta_s.Sm.Types.{Context, Event, Frame, SafeComVtable}
use rasta_s.Sm.Emit.{frame_of}
use rasta_s.Sm.Arrive.{newest}
use rasta_s.Sm.Says.{Says, Short, said, heard_as, speak}
use rasta_s.Sm.Talk.{Talker, spoken, speak_lem, spoken-Talker}

-- A frame with the event that the receiver raises for it.
pub record Packet : Type 0 where
  pub event : Event
  pub frame : Frame

-- Messages said one after the other, and the packets that carry them.
unfoldable pub utter : Platform → List Says → Context → Result (Context × List Packet)
utter plat [] a = ok (a, [])
utter plat (s ∷ rest) a = do
  a1 ← speak plat s a
  f ← newest a1.io.sent
  (a', packets) ← utter plat rest a1
  ok (a', record { event = heard_as s; frame = f } ∷ packets)

abbrev pub EachShort : List Says → Type 0
EachShort [] = Unit {0}
EachShort (s ∷ rest) = Short s × EachShort rest

module _ (plat : Platform) (v : SafeComVtable) where
  abbrev pub packet : Says → Context → Packet
  packet s a = record { event = heard_as s; frame = frame_of plat v (spoken plat v s a) }

  abbrev pub packets_of : List Says → Context → List Packet
  packets_of [] a = []
  packets_of (s ∷ rest) a = packet s a ∷ packets_of rest (spoken plat v s a)

  -- The machine before it says the message at a position.
  abbrev pub speaker_at : List Says → ℕ → Context → Context
  speaker_at says zero a = a
  speaker_at [] (suc i) a = a
  speaker_at (s ∷ rest) (suc i) a = speaker_at rest i (spoken plat v s a)

  -- The message `s` at the position `i` of those that `a` says.
  pub record SaidAt (says : List Says) (a : Context) (i : ℕ) (s : Says) : Type 0 where
    pub is_short : Short s
    pub talker : Talker v (speaker_at says i a)
    pub packet_is : get_elem? (packets_of says a) i ≡ some (packet s (speaker_at says i a))
    pub next_speaker : speaker_at says (suc i) a ≡ spoken plat v s (speaker_at says i a)
    pub left_is : drop i (map said says) ≡ said s ∷ drop (suc i) (map said says)

  pub packets_beyond :
      (says : List Says) (a : Context) (i : ℕ)
      → length says ≤ i
      → get_elem? (packets_of says a) i ≡ none
  packets_beyond [] a i h = refl
  packets_beyond (s ∷ rest) a zero h = absurd (omega arith)
  packets_beyond (s ∷ rest) a (suc i) h = packets_beyond rest (spoken plat v s a) i (omega arith)

  module _ (sized : IsSized plat) where
    pub said_at :
        (says : List Says) (a : Context) (i : ℕ)
        → Talker v a
        → EachShort says
        → i < length says
        → (s : Says) × SaidAt says a i s
    said_at [] a i t each h = absurd (omega arith)
    said_at (s ∷ rest) a zero t (short, each) h = (
      s,
      record {
        is_short = short;
        talker = t;
        packet_is = refl;
        next_speaker = refl;
        left_is = refl;
      },
    )
    said_at (s ∷ rest) a (suc i) t (short, each) h =
        let (s', p) =
          said_at rest (spoken plat v s a) i (spoken-Talker plat v sized s a t short) each
            (omega arith) in
        (
          s',
          record {
            is_short = p.is_short;
            talker = p.talker;
            packet_is = p.packet_is;
            next_speaker = p.next_speaker;
            left_is = p.left_is;
          },
        )

    -- Every message takes one number.
    pub speaker_at-number :
        (says : List Says) (a : Context) (i : ℕ)
        → Talker v a
        → EachShort says
        → i ≤ length says
        → (speaker_at says i a).self.snt ≡ u32 (a.self.snt + i)
    speaker_at-number says a zero t each h = omega (arith, t.bounded.snt_range)
    speaker_at-number [] a (suc i) t each h = absurd (omega arith)
    speaker_at-number (s ∷ rest) a (suc i) t (short, each) h =
        speaker_at-number rest (spoken plat v s a) i (spoken-Talker plat v sized s a t short) each
          (omega arith)
        ∙ omega arith

    pub utter_lem :
        (says : List Says) (a : Context)
        → Talker v a
        → EachShort says
        → utter plat says a ≡ ok (speaker_at says (length says) a, packets_of says a)
    unfolding utter newest
    utter_lem [] a t each = refl
    utter_lem (s ∷ rest) a t (short, each) =
        rw (speak_lem plat v sized s a t short)
          (rw (utter_lem rest (spoken plat v s a) (spoken-Talker plat v sized s a t short) each))
