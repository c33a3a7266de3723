-- ===== src/Sm/Bringing.antt =====
-- What one packet does to the receiver, on a link that drops, repeats and reorders packets
-- (safecom/src/sm.c and safecom/src/pdu.c).
use rasta_s.Prelude.{
  ℕ, suc, ◌+◌, ◌≤◌, ◌<◌, ◌^◌, ◌≡◌, ◌≢◌, refl, sym, ap, subst, ◌∙◌, arith, Bool, true, false,
  if◌then◌else◌, Option, none, some, List, [], ◌∷◌, ◌++◌, Result, ok, ◌>>=◌, length, get_elem?, ◌⊎◌,
}
use native.Mathlib.Decide.{dec_lt}
use rasta_s.Platform.{Platform, IsSized}
use rasta_s.Pdu.Bytes.{u32}
use rasta_s.Sm.Types.{Context, State, closed, up, retr_req, SafeComVtable}
use rasta_s.Sm.Arrive.{arrive}
use rasta_s.Sm.Phases.{IsLost, ignored, message-IsSequenced}
use rasta_s.Sm.Reply.{Steady, arrive-Step}
use rasta_s.Sm.Says.{Says, said, heard_as}
use rasta_s.Sm.Talk.{Talker, spoken, spoken-InRange, spoken-IsComplete}
use rasta_s.Sm.Conversation.{
  heard, Paired, hearing, heard-told, hear_lem, told-Paired, heard_as-IsMessage,
}
use rasta_s.Sm.Packets.{
  Packet, EachShort, packets_of, speaker_at, SaidAt, packets_beyond, said_at, speaker_at-number,
}
use rasta_s.Sm.Loss.{heard-Suited, unordered}

abbrev pub is_up : State → Bool
is_up up = true
is_up _ = false

-- What the link brings: a packet or nothing. The payload counts as taken if the connection is open
-- when its event has been handled.
unfoldable pub bring : Platform → Option Packet → Context → Result (Context × List (List ℕ))
bring plat none b = ok (b, [])
bring plat (some p) b = do
  b' ← arrive plat p.event p.frame b
  ok (b', if is_up b'.self.state then heard plat b' ∷ [] else [])

-- The link brings the packets at the positions `picks`, in that order.
unfoldable pub deliver :
    Platform → List Packet → List ℕ → Context → Result (Context × List (List ℕ))
deliver plat packets [] b = ok (b, [])
deliver plat packets (i ∷ picks) b = do
  (b1, taken) ← bring plat (get_elem? packets i) b
  (b2, later) ← deliver plat packets picks b1
  ok (b2, taken ++ later)

-- Of the packets at positions below `n`, the picks bring the one at `k`, the next one, and so on.
abbrev pub InTurn : ℕ → ℕ → List ℕ → Type 0
InTurn n k [] = Unit {0}
InTurn n k (i ∷ picks) = ((i < n) × (i ≡ k) × InTurn n (suc k) picks) ⊎ ((n ≤ i) × InTurn n k picks)

-- The list is a beginning of another.
abbrev pub Begins : List (List ℕ) → List (List ℕ) → Type 0
Begins xs ys = (rest : List (List ℕ)) × (ys ≡ xs ++ rest)

not_up : (s : State) → IsLost s → is_up s ≡ false
not_up closed h = refl
not_up retr_req h = refl
not_up _ h = absurd h

module _ (to : Platform) (p : Packet) (b b' : Context)
    (runs : arrive to p.event p.frame b ≡ ok b') where
  bring-taken :
      (bytes : List ℕ)
      → b'.self.state ≡ up
      → heard to b' ≡ bytes
      → bring to (some p) b ≡ ok (b', bytes ∷ [])
  unfolding bring
  bring-taken bytes open_state same =
      rw runs (rw (ap is_up open_state) (ap (λ (xs : List ℕ). ok (b', xs ∷ [])) same))

  bring-dropped : IsLost b'.self.state → bring to (some p) b ≡ ok (b', [])
  unfolding bring
  bring-dropped lost = rw runs (rw (not_up b'.self.state lost) refl)

module _ (from to : Platform) (v w : SafeComVtable) (sized : IsSized from)
    (to_sized : IsSized to) where
  -- A packet that reaches a machine which has lost the connection.
  pub bring-IsLost :
      (says : List Says) (a b : Context) (i : ℕ)
      → Talker v a
      → EachShort says
      → Steady w b
      → IsLost b.self.state
      → (b' : Context) × (bring to (get_elem? (packets_of from v says a) i) b ≡ ok (b', []))
        × Steady w b'
        × IsLost b'.self.state
  unfolding bring
  bring-IsLost says a b i t each steady lost = elim (dec_lt i (length says)) [
    | no beyond ↦ (b, rw (packets_beyond from v says a i (omega arith)) refl, steady, lost)
    | yes within ↦
        let (s, here) = said_at from v sized says a i t each within in
        let sender = spoken from v s (speaker_at from v says i a) in
        let (b', runs, step, steady', _) =
          arrive-Step to from w v to_sized (heard_as s) sender b
            (record {
              in_range = spoken-InRange from v sized s (speaker_at from v says i a) here.talker;
              complete =
                  spoken-IsComplete from v sized s (speaker_at from v says i a) here.is_short;
            })
            steady (heard-Suited to w s _) in
        let still =
          subst (λ (st : State). IsLost st)
            (sym (
              step.state_is
              ∙ ignored b.self.state (heard_as s) _ lost
                  (message-IsSequenced _ (heard_as-IsMessage s))))
            lost in
        (b', rw here.packet_is (bring-dropped to _ b b' runs still), steady', still)
  ]

  pub deliver-IsLost :
      (says : List Says) (a : Context) (picks : List ℕ) (b : Context)
      → Talker v a
      → EachShort says
      → Steady w b
      → IsLost b.self.state
      → (b' : Context) × (deliver to (packets_of from v says a) picks b ≡ ok (b', []))
        × IsLost b'.self.state
  unfolding deliver bring
  deliver-IsLost says a [] b t each steady lost = (b, refl, lost)
  deliver-IsLost says a (i ∷ picks) b t each steady lost =
      let (b1, e1, steady1, lost1) = bring-IsLost says a b i t each steady lost in
      let (b2, e2, lost2) = deliver-IsLost says a picks b1 t each steady1 lost1 in
      (b2, rw e1 (rw e2), lost2)

  -- The packet that the receiver waits for.
  pub bring-next :
      (says : List Says) (a b : Context) (k : ℕ) (s : Says)
      → SaidAt from v says a k s
      → Paired v w (speaker_at from v says k a) b
      → (b' : Context) × (bring to (get_elem? (packets_of from v says a) k) b
          ≡ ok (b', said s ∷ []))
        × Paired v w (speaker_at from v says (suc k) a) b'
  unfolding bring
  bring-next says a b k s here p =
      let sender = speaker_at from v says k a in
      let b' = hearing from to v w sized to_sized s sender b p here.is_short in
      let paired = told-Paired from to v w sized to_sized s sender b p here.is_short in
      (
        b',
        rw here.packet_is (
            bring-taken to _ b b' (hear_lem from to v w sized to_sized s sender b p here.is_short)
              (said s) paired.second.is_up
              (heard-told from to v w sized to_sized s sender b p here.is_short)),
        subst (λ (c : Context). Paired v w c b') (sym here.next_speaker) paired,
      )

  -- Any other packet.
  pub bring-other :
      (says : List Says) (a b : Context) (k i : ℕ)
      → Talker v a
      → EachShort says
      → length says < 2 ^ 32
      → Paired v w (speaker_at from v says k a) b
      → k ≤ length says
      → i < length says
      → i ≢ k
      → (b' : Context) × (bring to (get_elem? (packets_of from v says a) i) b ≡ ok (b', []))
        × Steady w b'
        × IsLost b'.self.state
  unfolding bring
  bring-other says a b k i t each few p far within other =
      let (s, here) = said_at from v sized says a i t each within in
      let gap : b.self.snr ≢ u32 ((speaker_at from v says i a).self.snt + 1) = λ e. other (
        omega (
          arith,
          p.first_next,
          e,
          speaker_at-number from v sized says a i t each (omega arith),
          speaker_at-number from v sized says a k t each far,
        )) in
      let (b', runs, step, steady, _) =
        unordered from to v w sized to_sized s (speaker_at from v says i a) b here.talker p.second
          gap here.is_short in
      let lost = subst (λ (st : State). IsLost st) (sym step.state_is) tt in
      (b', rw here.packet_is (bring-dropped to _ b b' runs lost), steady, lost)
