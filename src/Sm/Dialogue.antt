-- ===== src/Sm/Dialogue.antt =====
-- Any exchange of heartbeats and data between two open connections, one message at a time
-- (safecom/src/sm.c and safecom/src/pdu.c).
use rasta_s.Prelude.{ℕ, ◌≡◌, refl, List, [], ◌∷◌, Result, ok, ◌>>=◌}
use rasta_s.Platform.{Platform, IsSized}
use rasta_s.Sm.Types.{Context, SafeComVtable}
use rasta_s.Sm.Says.{Says, Short, said}
use rasta_s.Sm.Conversation.{
  tell, Paired, Paired-swap, told-Paired, Continues, Continues-trans, told-Continues,
  hearing-Continues, tell_lem,
}

-- Who speaks, and what is said.
pub data Turn : Type 0 where
  first second : Says → Turn

abbrev pub words : Turn → Says
words (first s) = s
words (second s) = s

abbrev pub AllShort : List Turn → Type 0
AllShort [] = Unit {0}
AllShort (t ∷ ts) = Short (words t) × AllShort ts

-- The payloads in the order in which they were said.
abbrev pub payloads : List Turn → List (List ℕ)
payloads [] = []
payloads (t ∷ ts) = said (words t) ∷ payloads ts

-- The exchange, with the payloads that were heard.
unfoldable pub converse :
    Platform → Platform → List Turn → Context → Context → Result (Context × Context × List (List ℕ))
converse here there [] a b = ok (a, b, [])
converse here there (first s ∷ rest) a b = do
  (a', b', bytes) ← tell here there s a b
  (a'', b'', all) ← converse here there rest a' b'
  ok (a'', b'', bytes ∷ all)
converse here there (second s ∷ rest) a b = do
  (b', a', bytes) ← tell there here s b a
  (a'', b'', all) ← converse here there rest a' b'
  ok (a'', b'', bytes ∷ all)

module _ (here there : Platform) (v w : SafeComVtable) (sized : IsSized here)
    (there_sized : IsSized there) where
  -- Two machines in STATE_UP, set up, in step and in range, each expecting the number that the
  -- other sends next, with the same confirmed timestamp and a Tmax above 0, say any heartbeats and
  -- data of at most 22 bytes in any order over a link that loses nothing: every message is taken,
  -- the payloads heard are those said, in order, the two stay as described, and the role, the
  -- setup and the confirmed timestamp of neither change.
  pub converse-Paired :
      (turns : List Turn) (a b : Context)
      → Paired v w a b
      → AllShort turns
      → (a' : Context) × (b' : Context) × (converse here there turns a b
          ≡ ok (a', b', payloads turns))
        × Paired v w a' b'
        × Continues a a'
        × Continues b b'
  unfolding converse
  converse-Paired [] a b p short = (
    a,
    b,
    refl,
    p,
    record { role_is = refl; setup_is = refl; confirmed_is = refl },
    record { role_is = refl; setup_is = refl; confirmed_is = refl },
  )
  converse-Paired (first s ∷ rest) a b p (short, later) =
      let next = told-Paired here there v w sized there_sized s a b p short in
      let (a', b', runs, paired, same, also) = converse-Paired rest _ _ next later in
      (
        a',
        b',
        rw (tell_lem here there v w sized there_sized s a b p short) (rw runs),
        paired,
        Continues-trans a _ a' (told-Continues here there v w sized there_sized s a b p short) same,
        Continues-trans b _ b' (hearing-Continues here there v w sized there_sized s a b p short)
            also,
      )
  converse-Paired (second s ∷ rest) a b p (short, later) =
      let q = Paired-swap v w a b p in
      let next = told-Paired there here w v there_sized sized s b a q short in
      let (a', b', runs, paired, same, also) =
        converse-Paired rest _ _ (Paired-swap w v _ _ next) later in
      (
        a',
        b',
        rw (tell_lem there here w v there_sized sized s b a q short) (rw runs),
        paired,
        Continues-trans a _ a' (hearing-Continues there here w v there_sized sized s b a q short)
            same,
        Continues-trans b _ b' (told-Continues there here w v there_sized sized s b a q short) also,
      )
