-- ===== src/Examples/Packets.antt =====
-- packet_reader.rs and packet_writer.rs at small packets.
use opensrv.Common.{
  ℕ, ◌≡◌, ◌≢◌, refl, none, some, List, [], ◌∷◌, ◌++◌, Bytes, flatten, arith, ok, err, map,
}
use opensrv.Wire.{invalid_data, unexpected_eof, transport}
use opensrv.Wire.Frame.{IsPacket, next_seq, split}
use opensrv.Reader.{Packet, packet, ensure_packet_limit, next, ReadEvent, chunk, failed}
use opensrv.Reader.Assemble.{packet-encode}
use opensrv.Reader.Prefix.{packet-prefix, WaitsFor}
use opensrv.Reader.Limit.{ensure_packet_limit-le, ensure_packet_limit-lt}
use opensrv.Reader.Sound.{Decoded, packet-Decoded}
use opensrv.Reader.Taken.{Taken, next-Taken}
use opensrv.Reader.Stream.{next-encode, next-truncated}
use opensrv.Writer.{
  Peer, PacketWriter, accepts, flushed, write_packet, send_packet, write_chunks, write_chunk,
  write_vectored, chunks, increase_seq, end_packet, write_loop,
}
use opensrv.Writer.Offsets.{Sent}
use opensrv.Writer.Chunk.{write_loop_whole}
use opensrv.Writer.Deliver.{Delivered, write_packet-Delivered, end_packet-Delivered}
use opensrv.Link.{next-write_packet}
use opensrv.Examples.Crates.{nom, byteorder}

abbrev two_bytes : Bytes
two_bytes = 7 ∷ 8 ∷ []

abbrev two_bytes_packet : Packet
two_bytes_packet = record { bytes = two_bytes; first_seq = 255 }

is_two_bytes : IsPacket [] two_bytes
is_two_bytes = record { full_frames = tt; short_last = omega arith }

abbrev wire : Bytes
wire = 2 ∷ 0 ∷ 0 ∷ 255 ∷ 7 ∷ 8 ∷ []

packet-encode_example : packet nom (wire ++ (9 ∷ [])) ≡ ok (9 ∷ [], (255, two_bytes_packet))
packet-encode_example = packet-encode nom [] two_bytes (9 ∷ []) 255 is_two_bytes (omega arith)

packet-prefix_example : WaitsFor (packet nom (2 ∷ 0 ∷ 0 ∷ 255 ∷ 7 ∷ []))
packet-prefix_example =
    packet-prefix nom [] two_bytes 5 255 is_two_bytes (omega arith) (omega arith)

ensure_packet_limit-le_example : ensure_packet_limit 2 (2 ∷ 0 ∷ 0 ∷ 255 ∷ []) ≡ ok tt
ensure_packet_limit-le_example =
    ensure_packet_limit-le [] two_bytes [] 2 4 255 (omega arith) is_two_bytes (omega arith)
      (omega arith)

ensure_packet_limit-lt_example : ensure_packet_limit 1 (2 ∷ 0 ∷ 0 ∷ []) ≡ err invalid_data
ensure_packet_limit-lt_example =
    ensure_packet_limit-lt [] two_bytes [] 1 3 255 (omega arith) is_two_bytes (omega arith)
      (omega arith) (omega arith)

not_empty : {x : ℕ} {xs : Bytes} → x ∷ xs ≢ []
not_empty h = cc

next-encode_example :
    (kept : Bytes) × (unread : List Bytes) × (next nom 2
        (2 ∷ [])
        (chunk (0 ∷ 0 ∷ 255 ∷ []) ∷ chunk (7 ∷ 8 ∷ 9 ∷ []) ∷ [])
      ≡ record {
        result = ok (some (255, two_bytes_packet));
        bytes = kept;
        reads = map chunk unread ++ [];
      })
    × (kept ++ flatten unread ≡ 9 ∷ [])
next-encode_example =
    next-encode nom 2 [] two_bytes (9 ∷ []) 255 (omega arith) is_two_bytes (omega arith)
      ((0 ∷ 0 ∷ 255 ∷ []) ∷ (7 ∷ 8 ∷ 9 ∷ []) ∷ []) (2 ∷ []) [] (not_empty, (not_empty, tt)) refl

next-truncated_example :
    (next nom 2 (2 ∷ []) (chunk (0 ∷ 0 ∷ 255 ∷ 7 ∷ []) ∷ [])
      ≡ record { result = err unexpected_eof; bytes = 2 ∷ 0 ∷ 0 ∷ 255 ∷ 7 ∷ []; reads = [] })
    × (next nom 2 (2 ∷ []) (chunk (0 ∷ 0 ∷ 255 ∷ 7 ∷ []) ∷ failed 5 ∷ [])
        ≡ record { result = err (transport 5); bytes = []; reads = [] })
next-truncated_example =
    next-truncated nom 2 [] two_bytes (8 ∷ []) 255 (omega arith) is_two_bytes (omega arith)
      not_empty ((0 ∷ 0 ∷ 255 ∷ 7 ∷ []) ∷ []) (2 ∷ []) 5 [] (not_empty, tt) refl not_empty

-- A stream that takes three bytes at a time.
abbrev slow : Peer
slow = record { on_write = λ _. accepts 3; on_flush = λ _. flushed }

abbrev writer : Bytes → PacketWriter
writer buffer = record {
  packet_builder = record { buffer = buffer; seq = 255; max_packet_size = 2 };
  output_stream = record { written = []; calls = 0; flushes = 0 };
  flush_threshold = 0;
  write_timeout = none;
}

write_loop_whole_example :
    Sent slow none
      (1 ∷ 0 ∷ 0 ∷ 4 ∷ 9 ∷ [])
      (writer []).output_stream
      (write_loop slow none (1 ∷ 0 ∷ 0 ∷ 4 ∷ []) (9 ∷ []) 6 0 0 (writer []).output_stream)
write_loop_whole_example =
    write_loop_whole slow none (1 ∷ 0 ∷ 0 ∷ 4 ∷ []) (9 ∷ []) (writer []).output_stream

write_packet-Delivered_example :
    Delivered slow wire 0 (writer []) (write_packet slow byteorder two_bytes (writer []))
unfolding split
write_packet-Delivered_example =
    write_packet-Delivered slow byteorder two_bytes (writer []) refl not_empty (omega arith)

end_packet-Delivered_example :
    Delivered slow wire 0 (writer []) (end_packet slow byteorder (writer two_bytes))
unfolding split
end_packet-Delivered_example =
    end_packet-Delivered slow byteorder (writer two_bytes) not_empty (omega arith)

abbrev sent : PacketWriter
sent = record (writer []) {
  packet_builder = record { buffer = []; seq = 0; max_packet_size = 2 };
  output_stream = record { written = wire; calls = 2; flushes = 0 };
}

sends : write_packet slow byteorder two_bytes (writer []) ≡ (ok tt, sent)
unfolding write_packet send_packet write_chunks write_chunk write_loop write_vectored chunks
    increase_seq
sends = refl

next-write_packet_example :
    (last : ℕ) × (kept : Bytes) × (unread : List Bytes) × (next nom 2 [] (chunk wire ∷ [])
      ≡ record {
        result = ok (some (last, two_bytes_packet));
        bytes = kept;
        reads = map chunk unread ++ [];
      })
    × (kept ++ flatten unread ≡ [])
    × (0 ≡ next_seq last)
next-write_packet_example =
    next-write_packet nom byteorder slow 2 two_bytes [] (writer []) sent (wire ∷ []) []
      (omega arith) (omega arith) (omega arith) not_empty refl sends (not_empty, tt) refl

packet-Decoded_example :
    Decoded
      (2 ∷ 0 ∷ 0 ∷ 255 ∷ 7 ∷ 8 ∷ 9 ∷ [])
      []
      none
      none
      (packet nom (2 ∷ 0 ∷ 0 ∷ 255 ∷ 7 ∷ 8 ∷ 9 ∷ []))
packet-Decoded_example = packet-Decoded nom (2 ∷ 0 ∷ 0 ∷ 255 ∷ 7 ∷ 8 ∷ 9 ∷ []) (omega arith)

abbrev two_reads : List ReadEvent
two_reads = chunk (0 ∷ 0 ∷ 255 ∷ []) ∷ chunk (7 ∷ 8 ∷ 9 ∷ []) ∷ []

next-Taken_example : Taken 2 (2 ∷ []) two_reads (next nom 2 (2 ∷ []) two_reads)
next-Taken_example = next-Taken nom 2 (omega arith) (2 ∷ []) two_reads (omega arith) (omega arith)
