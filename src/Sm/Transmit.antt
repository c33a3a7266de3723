-- ===== src/Sm/Transmit.antt =====
-- safecom/src/sm.c: the lines that follow each builder, `serialize_pdu` into `buff_to_send` and
-- `SendSpdu` through the vtable; and each message with them.
use rasta_s.Prelude.{◌∷◌, Result, ok, err, null_pointer, ◌>>=◌, take}
use rasta_s.Platform.{Platform}
use rasta_s.Pdu.Types.{DiscReasonType, no_detailed_reason}
use rasta_s.Pdu.Codec.{serialize_pdu}
use rasta_s.Pdu.Build.{conn_req, conn_resp, retr_req_pdu, disc_req, hb}
use rasta_s.Sm.Types.{Context, VtablePointer, no_vtable, vtable_at}

-- `self->vtable->SendSpdu(self->channel, pdu->message_length, buff_to_send);`
unfoldable pub send_spdu : VtablePointer → Context → Result Context
send_spdu no_vtable c = err null_pointer
send_spdu (vtable_at v) c = ok (record c {
  io = record (c.io) {
    sent =
        record {
          callback = v.send_spdu;
          node_id = c.self.channel;
          spdu_len = c.pdu.message_length;
          bytes = take c.pdu.message_length c.io.buff_to_send;
        }
        ∷ c.io.sent;
  };
})

module _ (plat : Platform) where
  unfoldable pub transmit : Context → Result Context
  transmit c = do
    buffer ← serialize_pdu plat.stale c.pdu c.io.buff_to_send c.pdu.message_length
    send_spdu c.self.vtable (record c { io = record (c.io) { buff_to_send = buffer } })

  unfoldable pub send_conn_req : Context → Result Context
  send_conn_req c = conn_req plat c >>= transmit

  unfoldable pub send_conn_resp : Context → Result Context
  send_conn_resp c = conn_resp plat c >>= transmit

  unfoldable pub send_retr_req : Context → Result Context
  send_retr_req c = retr_req_pdu plat c >>= transmit

  unfoldable pub send_hb : Context → Result Context
  send_hb c = hb plat c >>= transmit

  unfoldable pub send_disc_req : DiscReasonType → Context → Result Context
  send_disc_req reason c = disc_req plat reason no_detailed_reason c >>= transmit
