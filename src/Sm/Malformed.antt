-- ===== src/Sm/Malformed.antt =====
-- A frame whose length field is below the length of the fixed fields (safecom/src/pdu.c), and what
-- the state machine makes of it.
use rasta_s.Prelude.{
  ℕ, zero, suc, ◌+◌, ◌≤◌, ◌<◌, ◌^◌, ◌≡◌, refl, ap, ◌∙◌, arith, List, [], ◌∷◌, ◌++◌, ok, err,
  out_of_bounds, ◌>>=◌, length, drop, length-append, length-drop, le→not_ltb,
}
use rasta_s.Platform.{Platform, IsSized}
use rasta_s.TimeMon.{tlocal_lem}
use rasta_s.Pdu.Types.{
  Pdu, Pointer, at, zero_pdu, safety_code_length, disconnection_request, DiscReasonType,
  not_expected_recv_msg_type, no_detailed_reason,
}
use rasta_s.Pdu.Bytes.{Cursor}
use rasta_s.Pdu.Codec.{payload_length_of, serialize_pdu, deserialize_pdu, copy_unless_null}
use rasta_s.Pdu.Wire.{header}
use rasta_s.Pdu.Serialize.{Shows, serialize_fields-behind, copy_unless_null-behind, length-part-le}
use rasta_s.Pdu.Overflow.{copy_bytes-nothing}
use rasta_s.Pdu.RoundTrip.{InRange, received, deserialize_pdu-header}
use rasta_s.Pdu.Build.{calculate_md4, build, disc_req, disc_req_payload, stepped}
use rasta_s.Sm.Types.{
  Context, EventHandler, Event, Frame, recv_conn_req, recv_conn_resp, recv_retr_resp,
  recv_retr_data, up_handler, current_timestamp,
}
use rasta_s.Sm.Checks.{close_connection}
use rasta_s.Sm.Transmit.{send_disc_req}
use rasta_s.Sm.Handlers.{close_with}
use rasta_s.Sm.Running.{handle_up}
use rasta_s.Sm.Machine.{sm_handle_event, delegate, handle_timers, update_handler}
use rasta_s.Sm.Emit.{composed}
use rasta_s.Sm.Session.{handed}
use rasta_s.Sm.Arrive.{arrive}

drop-all : (xs : List ℕ) (n : ℕ) → length xs ≤ n → drop n xs ≡ []
drop-all [] zero h = refl
drop-all [] (suc n) h = refl
drop-all (x ∷ xs) zero h = absurd (omega arith)
drop-all (x ∷ xs) (suc n) h = drop-all xs n (omega arith)

copy_unless_null-nothing :
    (stale : List ℕ → List ℕ) (ptr : Pointer) (c : Cursor)
    → ptr ≡ at []
    → copy_unless_null stale ptr safety_code_length c ≡ err out_of_bounds
unfolding copy_unless_null
copy_unless_null-nothing stale ptr c h =
    ap (λ (q : Pointer). copy_unless_null stale q safety_code_length c) h ∙ copy_bytes-nothing 7 0 c

-- A PDU whose safety code shows no byte cannot be sealed anew: the old code is read first.
calculate_md4-no_code :
    (plat : Platform) (p : Pdu)
    → IsSized plat
    → p.safety_code ≡ at []
    → Shows plat.stale p.payload (payload_length_of p.message_length)
    → payload_length_of p.message_length ≤ 22
    → calculate_md4 plat p ≡ err out_of_bounds
unfolding calculate_md4 serialize_pdu
calculate_md4-no_code plat p sized no_code shows small =
    rw (le→not_ltb p.message_length p.message_length (omega arith)) (
      rw (serialize_fields-behind p plat.frame (omega (arith, sized.frame_length))) (
        rw
          (copy_unless_null-behind plat.stale p.payload (payload_length_of p.message_length)
            (header p) (drop 28 plat.frame) shows
            (omega (
              arith,
              length-part-le plat.stale p.payload (payload_length_of p.message_length) shows,
              length-drop 28 plat.frame,
              sized.frame_length,
            )))
          (rw (copy_unless_null-nothing plat.stale p.safety_code _ no_code))))

close_with-no_code :
    (plat : Platform) (reason : DiscReasonType) (c : Context)
    → IsSized plat
    → c.self.time.tlocal ≡ current_timestamp
    → c.pdu.safety_code ≡ at []
    → close_with plat reason c ≡ err out_of_bounds
unfolding close_with send_disc_req disc_req build close_connection
close_with-no_code plat reason c sized clocked no_code =
    rw (tlocal_lem plat (stepped (close_connection c)) clocked) (
      rw (
        calculate_md4-no_code plat
          (composed plat 40 disconnection_request c.pdu.sequence_number c.self.ctsr
            (at (disc_req_payload reason no_detailed_reason)) (stepped (close_connection c)))
          sized no_code (omega arith) (omega arith)))

-- The messages that `STATE_UP` answers by a disconnection request, whatever they hold.
abbrev pub Unexpected : Event → Type 0
Unexpected recv_conn_req = Unit {0}
Unexpected recv_conn_resp = Unit {0}
Unexpected recv_retr_resp = Unit {0}
Unexpected recv_retr_data = Unit {0}
Unexpected _ = ⊥

handle_up-Unexpected :
    (plat : Platform) (e : Event) (c : Context)
    → Unexpected e
    → handle_up plat e c ≡ close_with plat not_expected_recv_msg_type c
unfolding handle_up
handle_up-Unexpected plat recv_conn_req c h = refl
handle_up-Unexpected plat recv_conn_resp c h = refl
handle_up-Unexpected plat recv_retr_resp c h = refl
handle_up-Unexpected plat recv_retr_data c h = refl
handle_up-Unexpected plat _ c h = absurd h

-- A frame of a header and fewer than 2 ^ 31 further bytes, given as at least 36 bytes, whose
-- length field is below 36, is not refused: deserialize_pdu returns, the safety code that it finds
-- lies outside the frame, and when the frame comes as a message that a machine with the handler of
-- STATE_UP does not expect, Sm_HandleEvent reads outside an array.
pub arrive-malformed :
    (plat : Platform) (e : Event) (p : Pdu) (rest : List ℕ) (f : Frame) (c : Context)
    → IsSized plat
    → InRange p
    → p.message_length < 36
    → 36 ≤ f.spdu_len
    → length rest < 2 ^ 31
    → Unexpected e
    → c.self.time.tlocal ≡ current_timestamp
    → c.self.handle_event ≡ up_handler
    → (q : Pdu) × (deserialize_pdu (header p ++ rest) f.spdu_len zero_pdu ≡ ok q)
      × (length (header p ++ rest) ≤ 28 + payload_length_of p.message_length)
      × (q.safety_code ≡ at (drop (28 + payload_length_of p.message_length) (header p ++ rest)))
      × (q.safety_code ≡ at [])
      × (sm_handle_event plat e (handed q c) ≡ err out_of_bounds)
      × (arrive plat e (record f { bytes = header p ++ rest }) c ≡ err out_of_bounds)
unfolding arrive sm_handle_event delegate
arrive-malformed plat e p rest f c sized r short fixed small unexpected clocked stored = (
  received p (header p ++ rest),
  found,
  omega (arith, length-append (header p) rest),
  refl,
  outside,
  faults,
  rw found faults,
)
  where
    here : Context
    here = handed (received p (header p ++ rest)) c

    outside : at (drop (28 + payload_length_of p.message_length) (header p ++ rest)) ≡ at []
    outside = ap Pointer.at (
        drop-all (header p ++ rest) (28 + payload_length_of p.message_length)
          (omega (arith, length-append (header p) rest)))

    found :
        deserialize_pdu (header p ++ rest) f.spdu_len zero_pdu ≡ ok (received p (header p ++ rest))
    found = deserialize_pdu-header p zero_pdu rest f.spdu_len r fixed (omega arith)

    faults : sm_handle_event plat e here ≡ err out_of_bounds
    faults =
        ap
          (λ (h : EventHandler). delegate plat h e here >>= λ d.
            handle_timers plat e d >>= λ timed. ok (update_handler timed))
          stored
        ∙ rw (handle_up-Unexpected plat e here unexpected) (
            rw (close_with-no_code plat not_expected_recv_msg_type here sized clocked outside) refl)
