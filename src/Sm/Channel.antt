-- ===== src/Sm/Channel.antt =====
-- A link that drops, repeats and reorders packets, between two open connections (safecom/src/sm.c
-- and safecom/src/pdu.c).
use rasta_s.Prelude.{
  ℕ, suc, ◌≤◌, ◌<◌, ◌^◌, ◌≡◌, ◌↔◌, refl, ap, subst, ◌∙◌, arith, List, [], ◌∷◌, map, ok, length,
  drop, inl, inr,
}
use native.Mathlib.Decide.{ℕ_discrete, dec_lt}
use rasta_s.Platform.{Platform, IsSized}
use rasta_s.Sm.Types.{Context, up, SafeComVtable}
use rasta_s.Sm.Phases.{lost-not_up}
use rasta_s.Sm.Says.{Says, said}
use rasta_s.Sm.Talk.{Talker}
use rasta_s.Sm.Conversation.{Paired}
use rasta_s.Sm.Packets.{
  Packet, EachShort, utter, packets_of, speaker_at, packets_beyond, said_at, utter_lem,
}
use rasta_s.Sm.Bringing.{bring, deliver, InTurn, Begins, deliver-IsLost, bring-next, bring-other}

module _ (from to : Platform) (v w : SafeComVtable) (sized : IsSized from)
    (to_sized : IsSized to) where
  deliver-from :
      (says : List Says) (a : Context) (picks : List ℕ) (k : ℕ) (b : Context)
      → Talker v a
      → EachShort says
      → length says < 2 ^ 32
      → Paired v w (speaker_at from v says k a) b
      → k ≤ length says
      → (b' : Context) × (taken : List (List ℕ)) × (deliver to (packets_of from v says a) picks b
          ≡ ok (b', taken))
        × Begins taken (drop k (map said says))
        × ((b'.self.state ≡ up) ↔ InTurn (length says) k picks)
  unfolding deliver bring
  deliver-from says a [] k b t each few p far =
      (b, [], refl, (_, refl), ((λ _. tt), (λ _. p.second.is_up)))
  deliver-from says a (i ∷ picks) k b t each few p far = elim (dec_lt i (length says)) [
    | no beyond ↦
        let (b', taken, runs, begins, (there, back)) =
          deliver-from says a picks k b t each few p far in
        (
          b',
          taken,
          rw (packets_beyond from v says a i (omega arith)) (rw runs),
          begins,
          (
            (λ e. inr (omega arith, there e)),
            (λ f. elim f [ inl g ↦ absurd (beyond g.0) | inr g ↦ back g.1 ]),
          ),
        )
    | yes within ↦ elim (ℕ_discrete i k) [
      | yes same ↦
          let (s, here) =
            said_at from v sized says a k t each (subst (λ (n : ℕ). n < length says) same within) in
          let (b1, e1, p1) = bring-next from to v w sized to_sized says a b k s here p in
          let (b', taken, runs, (rest, left), (there, back)) =
            deliver-from says a picks (suc k) b1 t each few p1 (omega arith) in
          (
            b',
            said s ∷ taken,
            rw same (rw e1 (rw runs)),
            (rest, here.left_is ∙ ap (◌∷◌ (said s)) left),
            (
              (λ e. inl (within, same, there e)),
              (λ f. elim f [ inl g ↦ back g.2 | inr g ↦ absurd (omega arith) ]),
            ),
          )
      | no other ↦
          let (b1, e1, steady, lost) =
            bring-other from to v w sized to_sized says a b k i t each few p far within other in
          let (b', runs, lost') =
            deliver-IsLost from to v w sized to_sized says a picks b1 t each steady lost in
          (
            b',
            [],
            rw e1 (rw runs),
            (_, refl),
            (
              (λ e. absurd (lost-not_up b'.self.state lost' e)),
              (λ f. elim f [ inl g ↦ absurd (other g.1) | inr g ↦ absurd (omega arith) ]),
            ),
          )
    ]
  ]

  -- Over a link that loses, repeats and reorders: of two paired machines, one says fewer than 2 ^
  -- 32 heartbeats and data of at most 22 bytes each, and the link brings any of the packets in any
  -- order, any number of times. Every call returns, the payloads that the other takes are a
  -- beginning of those said, in order, and it is in STATE_UP in the end exactly when the packets
  -- brought were the first one, the second one and so on, with none left out, repeated or early.
  pub deliver-Begins :
      (says : List Says) (picks : List ℕ) (a b : Context)
      → Paired v w a b
      → EachShort says
      → length says < 2 ^ 32
      → (a' : Context) × (b' : Context) × (packets : List Packet) × (taken : List (List ℕ)) × (utter
            from says a
          ≡ ok (a', packets))
        × (deliver to packets picks b ≡ ok (b', taken))
        × Begins taken (map said says)
        × ((b'.self.state ≡ up) ↔ InTurn (length says) 0 picks)
  deliver-Begins says picks a b p each few =
      let (b', taken, runs, begins, open_when) =
        deliver-from says a picks 0 b p.first each few p (omega arith) in
      (_, b', _, taken, utter_lem from v sized says a p.first each, runs, begins, open_when)
