-- ===== src/Sm/Sequences.antt =====
-- Sequences of messages for an open connection: consecutive numbers, timestamps in time, and the
-- kinds that lead to STATE_UP (safecom/src/sm.c).
use rasta_s.Prelude.{ℕ, ◌+◌, ◌-◌, ◌<◌, ◌^◌, ◌≡◌, ◌↔◌, ◌⊎◌, inl, inr, refl, List, [], ◌∷◌}
use rasta_s.Platform.{Platform}
use rasta_s.Pdu.Types.{safety_code_length, Pdu}
use rasta_s.Pdu.Bytes.{u32}
use rasta_s.Pdu.Serialize.{Shows}
use rasta_s.Sm.Types.{State, up, retr_run, Event, recv_hb, recv_data, recv_retr_data}
use rasta_s.Sm.Session.{Input}
use rasta_s.Sm.Accept.{IsMessage}
use rasta_s.Sm.Phases.{IsSequenced, message-IsSequenced, IsReceiving, advance}

-- Heartbeats and data, each with a safety code that is NULL or can be read.
abbrev pub Messages : Platform → List Input → Type 0
Messages plat [] = Unit {0}
Messages plat (i ∷ rest) =
    IsMessage i.event × Shows plat.stale i.pdu.safety_code safety_code_length × Messages plat rest

-- The same with retransmitted data.
abbrev pub Sequenced : Platform → List Input → Type 0
Sequenced plat [] = Unit {0}
Sequenced plat (i ∷ rest) =
    IsSequenced i.event
    × Shows plat.stale i.pdu.safety_code safety_code_length
    × Sequenced plat rest

pub Messages-Sequenced :
    (plat : Platform) (inputs : List Input) → Messages plat inputs → Sequenced plat inputs
Messages-Sequenced plat [] h = tt
Messages-Sequenced plat (i ∷ rest) (message, shows, h) =
    (message-IsSequenced i.event message, shows, Messages-Sequenced plat rest h)

-- Consecutive sequence numbers from `snr` on, and each confirmed timestamp less than `tmax` after
-- the one before.
abbrev pub Follows : ℕ → ℕ → ℕ → List Input → Type 0
Follows tmax snr last [] = Unit {0}
Follows tmax snr last (i ∷ rest) =
    (snr ≡ i.pdu.sequence_number)
    × (u32 (i.pdu.confirmed_timestamp + 2 ^ 32 - last) < tmax)
    × Follows tmax (u32 (i.pdu.sequence_number + 1)) i.pdu.confirmed_timestamp rest

-- The kinds of messages that lead to STATE_UP: there only heartbeats and data, and during a
-- retransmission any retransmitted data and then at least one heartbeat or data message.
abbrev pub Completes : State → List Input → Type 0
Completes up [] = Unit {0}
Completes up (i ∷ rest) = IsMessage i.event × Completes up rest
Completes retr_run [] = ⊥
Completes retr_run (i ∷ rest) =
    ((i.event ≡ recv_retr_data) × Completes retr_run rest) ⊎ (IsMessage i.event × Completes up rest)
Completes _ inputs = ⊥

pub Messages-Completes :
    (plat : Platform) (inputs : List Input) → Messages plat inputs → Completes up inputs
Messages-Completes plat [] h = tt
Messages-Completes plat (i ∷ rest) (message, _, h) = (message, Messages-Completes plat rest h)

pub Completes-nil : (s : State) → IsReceiving s → (s ≡ up) ↔ Completes s []
Completes-nil up r = ((λ _. tt), (λ _. refl))
Completes-nil retr_run r = ((λ e. cc), (λ h. absurd h))
Completes-nil _ r = absurd r

pub Completes-advance :
    (s : State) (e : Event) (p : Pdu) (rest : List Input)
    → IsReceiving s
    → IsSequenced e
    → Completes (advance s e) rest ↔ Completes s (record { event = e; pdu = p } ∷ rest)
Completes-advance up recv_hb p rest r h = ((λ f. (tt, f)), (λ (_, f). f))
Completes-advance up recv_data p rest r h = ((λ f. (tt, f)), (λ (_, f). f))
Completes-advance up recv_retr_data p rest r h = ((λ f. absurd f), (λ (f, _). absurd f))
Completes-advance retr_run recv_hb p rest r h =
    ((λ f. inr (tt, f)), (λ f. elim f [ inl g ↦ cc (g.0) | inr g ↦ g.1 ]))
Completes-advance retr_run recv_data p rest r h =
    ((λ f. inr (tt, f)), (λ f. elim f [ inl g ↦ cc (g.0) | inr g ↦ g.1 ]))
Completes-advance retr_run recv_retr_data p rest r h =
    ((λ f. inl (refl, f)), (λ f. elim f [ inl g ↦ g.1 | inr g ↦ absurd (g.0) ]))
Completes-advance up _ p rest r h = absurd h
Completes-advance retr_run _ p rest r h = absurd h
Completes-advance _ e p rest r h = absurd r
