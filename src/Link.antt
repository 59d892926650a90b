-- ===== src/Link.antt =====
-- packet_writer.rs and packet_reader.rs together: what one side sends the other side receives.
use opensrv.Common.{
  ℕ, ◌^◌, ◌≤◌, ◌<◌, ◌≡◌, ◌≢◌, ap, ◌∙◌, List, [], ◌++◌, map, Bytes, length, flatten, append_assoc,
  append_cancel, arith, ok, some,
}
use opensrv.Deps.Nom.{Nom}
use opensrv.Deps.ByteOrder.{ByteOrder}
use opensrv.Wire.Frame.{next_seq, frames_of}
use opensrv.Wire.Split.{frames_of-IsPacket, frames_of_joins}
use opensrv.Writer.{Peer, PacketWriter, write_packet}
use opensrv.Writer.Deliver.{packet_bytes, packet_seq, write_packet-Delivered, Delivered-ok}
use opensrv.Reader.{ReadEvent, chunk, next}
use opensrv.Reader.Stream.{AreReads, next-encode}

module _ (nom : Nom) (byteorder : ByteOrder) (peer : Peer) where
  -- `next` on the bytes of a payload, in pieces of any size, with anything behind them.
  next-packet_bytes :
      (limit seq : ℕ) (payload rest : Bytes) (cs : List Bytes) (later : List ReadEvent)
      → limit < 2 ^ 64
      → length payload ≤ limit
      → AreReads cs
      → flatten cs ≡ packet_bytes seq payload ++ rest
      → (kept : Bytes) × (unread : List Bytes) × (next nom limit [] (map chunk cs ++ later)
          ≡ record {
            result =
                ok (some (packet_seq seq payload, record { bytes = payload; first_seq = seq }));
            bytes = kept;
            reads = map chunk unread ++ later;
          })
        × (kept ++ flatten unread ≡ rest)
  next-packet_bytes limit seq payload rest cs later hl hp hc e =
      let (full, last) = frames_of payload in
      let joins = frames_of_joins payload in
      let fits : length (flatten full ++ last) ≤ limit = omega (arith, ap length joins) in
      let (kept, unread, hit, left) =
        next-encode nom limit full last rest seq hl (frames_of-IsPacket payload) fits cs [] later hc
          e in
      (
        kept,
        unread,
        hit
            ∙ ap
                (λ (b : Bytes). record {
                  result =
                      ok (some (packet_seq seq payload, record { bytes = b; first_seq = seq }));
                  bytes = kept;
                  reads = map chunk unread ++ later;
                })
                joins,
        left,
      )

  -- A payload that `write_packet` has sent is what `next` returns from a stream that carries the same
  -- bytes and any more, cut into pieces of any size, with the sequence numbers that the writer used;
  -- the writer goes on with the next number, and the bytes behind the packet are kept.
  pub next-write_packet :
      (limit : ℕ) (payload rest : Bytes) (w w' : PacketWriter) (cs : List Bytes)
      (later : List ReadEvent)
      → limit < 2 ^ 64
      → length payload ≤ limit
      → length payload ≤ w.packet_builder.max_packet_size
      → payload ≢ []
      → w.packet_builder.buffer ≡ []
      → write_packet peer byteorder payload w ≡ (ok tt, w')
      → AreReads cs
      → w.output_stream.written ++ flatten cs ≡ w'.output_stream.written ++ rest
      → (last : ℕ) × (kept : Bytes) × (unread : List Bytes) × (next nom limit []
            (map chunk cs ++ later)
          ≡ record {
            result = ok (some (last, record { bytes = payload; first_seq = w.packet_builder.seq }));
            bytes = kept;
            reads = map chunk unread ++ later;
          })
        × (kept ++ flatten unread ≡ rest)
        × (w'.packet_builder.seq ≡ next_seq last)
  next-write_packet limit payload rest w w' cs later hl hp hm ne he sent hc e =
      let seq = w.packet_builder.seq in
      let (builder, written) =
        Delivered-ok (write_packet-Delivered peer byteorder payload w he ne hm) sent in
      let bytes : flatten cs ≡ packet_bytes seq payload ++ rest =
        append_cancel w.output_stream.written (flatten cs) (packet_bytes seq payload ++ rest) (
          e
          ∙ ap (λ b. b ++ rest) written
          ∙ append_assoc w.output_stream.written (packet_bytes seq payload) rest) in
      let (kept, unread, hit, left) =
        next-packet_bytes limit seq payload rest cs later hl hp hc bytes in
      (packet_seq seq payload, kept, unread, hit, left, ap (λ b. b.seq) builder)
