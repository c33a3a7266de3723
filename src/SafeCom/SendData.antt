-- ===== src/SafeCom/SendData.antt =====
-- `SafeCom_SendData` (safecom/src/safecom_impl.c) on an open connection, and where it overruns.
use rasta_s.Prelude.{
  ℕ, ◌+◌, ◌≤◌, ◌<◌, ◌≡◌, refl, ap, ap₂, subst, ◌∙◌, arith, List, [], ◌∷◌, ok, err, out_of_bounds,
  ◌>>=◌, length, length-append, take, length-take_le,
}
use rasta_s.Platform.{Platform, IsSized}
use rasta_s.TimeMon.{tlocal_lem}
use rasta_s.Pdu.Types.{Pdu, at, data_message}
use rasta_s.Pdu.Bytes.{u8, u16}
use rasta_s.Pdu.Codec.{payload_length_of}
use rasta_s.Pdu.Serialize.{wire}
use rasta_s.Pdu.RoundTrip.{IsComplete}
use rasta_s.Pdu.Build.{build, data_pdu, stepped}
use rasta_s.Pdu.Overflow.{calculate_md4-overflow}
use rasta_s.SafeCom.Array.{entered}
use rasta_s.Sm.Types.{
  Context, SmType, TimeoutsConfig, Io, State, closed, down, start, up, retr_req, retr_run,
  send_data, SafeComVtable, Frame, vtable_at, current_timestamp,
}
use rasta_s.Sm.Machine.{sm_handle_event, handler_of}
use rasta_s.Sm.Table.{forwards, react, Observation, Reaction}
use rasta_s.Sm.Emit.{Ready, composed, built, build-sealed, built-IsComplete}
use rasta_s.Sm.Runs.{Emits, Step}
use rasta_s.Sm.Observe.{observe}
use rasta_s.Sm.Refine.Machine.{InSync, sm_handle_event-refines}

-- The states in which data is sent.
abbrev pub IsOpen : State → Type 0
IsOpen up = Unit {0}
IsOpen retr_req = Unit {0}
IsOpen retr_run = Unit {0}
IsOpen _ = ⊥

open-reaction : (s : State) (o : Observation) → IsOpen s → react s send_data o ≡ (s, forwards)
open-reaction up o h = refl
open-reaction retr_req o h = refl
open-reaction retr_run o h = refl
open-reaction closed o h = absurd h
open-reaction down o h = absurd h
open-reaction start o h = absurd h

-- A machine that is set up, with its clock, its callbacks and the handler of its state.
pub record Connected (v : SafeComVtable) (s : SmType) : Type 0 where
  pub clocked : s.time.tlocal ≡ current_timestamp
  pub connected : s.vtable ≡ vtable_at v
  pub in_sync : s.handle_event ≡ handler_of s.state

module _ (plat : Platform) (v : SafeComVtable) (sized : IsSized plat) (s : SmType) (io : Io)
    (msg_len : ℕ) (msg_data : List ℕ) where
  abbrev pub data_context : Context
  data_context =
      built plat (36 + u8 msg_len) data_message s.cst s.ctsr (at msg_data) (stepped (entered s io))

  pub data_pdu-built :
      s.time.tlocal ≡ current_timestamp
      → u8 msg_len ≤ 22
      → u8 msg_len ≤ length msg_data
      → data_pdu plat msg_len msg_data (entered s io) ≡ ok data_context
  unfolding data_pdu
  data_pdu-built clocked small enough =
      build-sealed plat v (36 + u8 msg_len) data_message s.cst s.ctsr (at msg_data)
        (stepped (entered s io)) sized
        (record {
          fixed = omega arith;
          short = omega arith;
          fits = omega (
            arith,
            length-append (take (payload_length_of (u16 (36 + u8 msg_len))) msg_data) [],
            length-take_le (payload_length_of (u16 (36 + u8 msg_len))) msg_data,
          );
          payload_full = omega arith;
          code_shows = tt;
        })
        clocked

  -- The PDU that carries the data, and the frame around it.
  abbrev pub data_sent : Pdu
  data_sent = data_context.pdu

  abbrev framed : ℕ → Pdu → Frame
  framed channel p = record {
    callback = v.send_spdu;
    node_id = channel;
    spdu_len = p.message_length;
    bytes = wire plat.stale p;
  }

  abbrev pub data_frame : Frame
  data_frame = framed s.channel data_sent

  data_context-Ready : Connected v s → length io.buff_to_send ≡ 100 → Ready plat v data_context
  data_context-Ready k buffer = record {
    clocked = k.clocked;
    connected = k.connected;
    code_shows = omega (arith, sized.stale_length (plat.md4 _), sized.digest_length _);
    buffer_size = buffer;
  }

  data_sent-IsComplete :
      u8 msg_len ≤ 22 → u8 msg_len ≤ length msg_data → IsComplete plat.stale data_sent
  data_sent-IsComplete small enough =
      built-IsComplete plat (36 + u8 msg_len) data_message s.cst s.ctsr (at msg_data)
        (stepped (entered s io)) sized
        (record { fixed = omega arith; short = omega arith; payload_full = omega arith })

  -- Building the data PDU and handling `EVENT_SEND_DATA`, in any state.
  pub data_pdu-Step :
      Connected v s
      → length io.buff_to_send ≡ 100
      → u8 msg_len ≤ 22
      → u8 msg_len ≤ length msg_data
      → let o = react s.state send_data (observe plat data_context) in
        (c' : Context) × ((data_pdu plat msg_len msg_data (entered s io)
            >>= sm_handle_event plat send_data)
          ≡ ok c')
        × Step plat v data_context o.0 o.1 c'
        × InSync c'
  data_pdu-Step k buffer small enough =
      let (c', returns, step, sync) =
        sm_handle_event-refines plat v sized send_data data_context (data_context-Ready k buffer)
          k.in_sync (record { complete = data_sent-IsComplete small enough; fits = omega arith }) in
      (c', rw (data_pdu-built k.clocked small enough) returns, step, sync)

  -- On an open connection that PDU is sent, and the state is kept.
  pub data_pdu-handled :
      Connected v s
      → IsOpen s.state
      → length io.buff_to_send ≡ 100
      → u8 msg_len ≤ 22
      → u8 msg_len ≤ length msg_data
      → (c' : Context) × ((data_pdu plat msg_len msg_data (entered s io)
            >>= sm_handle_event plat send_data)
          ≡ ok c')
        × (c'.self.state ≡ s.state)
        × (c'.io.sent ≡ data_frame ∷ io.sent)
  data_pdu-handled k opened buffer small enough =
      let (c', returns, step, _) = data_pdu-Step k buffer small enough in
      let same = open-reaction s.state (observe plat data_context) opened in
      let (sent, kept, _, _) =
        subst (λ (r : Reaction). Emits plat v r.1 data_context c') same step.output_is in
      (
        c',
        returns,
        step.state_is ∙ ap (λ (r : Reaction). r.0) same,
        sent
            ∙ ap₂ (λ (channel : ℕ) (p : Pdu). framed channel p ∷ io.sent)
                (ap (λ (x : ℕ × TimeoutsConfig). x.0) step.setup_is) kept,
      )

  -- With more than 22 bytes the safety code's buffer is overrun, in every state.
  pub data_pdu-overflow :
      s.time.tlocal ≡ current_timestamp
      → 22 < u8 msg_len
      → u8 msg_len ≤ length msg_data
      → data_pdu plat msg_len msg_data (entered s io) ≡ err out_of_bounds
  unfolding data_pdu build
  data_pdu-overflow clocked over enough = rw (tlocal_lem plat (stepped (entered s io)) clocked) (
      rw (
        calculate_md4-overflow plat
          (composed plat (36 + u8 msg_len) data_message s.cst s.ctsr (at msg_data)
            (stepped (entered s io)))
          msg_data sized (omega arith) (omega arith)))
