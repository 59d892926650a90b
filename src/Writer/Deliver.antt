-- ===== src/Writer/Deliver.antt =====
-- packet_writer.rs: `write_packet` and `end_packet` write a whole logical packet.
use opensrv.Common.{
  ℕ, ◌%◌, ◌^◌, ◌≤◌, ◌<◌, ◌≡◌, ◌≢◌, refl, sym, ap, ◌∙◌, List, [], ◌∷◌, ◌++◌, Bytes, length, take,
  All, take_all, arith, ok, err, Result, ltb, leb, ◌==◌, if◌then◌else◌, Bool, true, false, le→ltb,
  is_nil, ◌&&◌,
}
use mathlib.Core.Path.{subst₂}
use opensrv.Deps.ByteOrder.{ByteOrder}
use opensrv.Wire.{IoError, u24_max}
use opensrv.Wire.Frame.{next_seq, encode, last_seq, frames_of, IsFull}
use opensrv.Wire.Split.{frames_of-IsPacket, frames-encode, seq_after-last}
use opensrv.Io.{and_then, when, pure}
use opensrv.Writer.{
  Peer, PacketBuilder, PacketWriter, write_chunk, write_chunks, chunks, send_packet, write_packet,
  end_packet, flush_output, flushed, flush_fails, flush_stalls, FlushEvent,
}
use opensrv.Writer.Offsets.{Caused, flush_refused, flush_stalled}
use opensrv.Writer.Send.{Wrote, wrote, stopped, write_chunks-Wrote}
use opensrv.Writer.Closing.{closing, chunks-split}

-- What `write_packet` with `bytes` to send did: it sent them all and emptied the builder, or it failed
-- for a cause in the stream, with a prefix of them written.
pub data Delivered (peer : Peer) (bytes : Bytes) (seq' : ℕ) (w : PacketWriter)
    : Result IoError (Unit {0}) × PacketWriter → Type 0 where
  delivered :
      (w' : PacketWriter)
      → w'.packet_builder ≡ record w.packet_builder { seq = seq' }
      → w'.output_stream.written ≡ w.output_stream.written ++ bytes
      → Delivered peer bytes seq' w (ok tt, w')
  broke_off :
      (e : IoError) (k : ℕ) (w' : PacketWriter)
      → Caused peer w.write_timeout e
      → k ≤ length bytes
      → w'.packet_builder.buffer ≡ w.packet_builder.buffer
      → w'.output_stream.written ≡ w.output_stream.written ++ take k bytes
      → Delivered peer bytes seq' w (err e, w')

-- The bytes of a packet with this payload from this sequence number on, and its last number.
abbrev pub packet_bytes : ℕ → Bytes → Bytes
packet_bytes seq payload = encode seq (frames_of payload).0 (frames_of payload).1

abbrev pub packet_seq : ℕ → Bytes → ℕ
packet_seq seq payload = last_seq seq (frames_of payload).0

not_nil : (bytes : Bytes) → bytes ≢ [] → is_nil bytes ≡ false
not_nil [] h = absurd (h refl)
not_nil (b ∷ bs) h = refl

err-ne-ok : {e : IoError} → ◌≢◌ {A = Result IoError (Unit {0})} (err e) (ok tt)
err-ne-ok h = cc

and_then_assoc :
    (r : Result IoError (Unit {0}) × PacketWriter)
    (f g : PacketWriter → Result IoError (Unit {0}) × PacketWriter)
    → and_then r (λ _ w. and_then (f w) (λ _. g)) ≡ and_then (and_then r (λ _. f)) (λ _. g)
and_then_assoc (ok a, w) f g = refl
and_then_assoc (err e, w) f g = refl

and_then_cong :
    (r : Result IoError (Unit {0}) × PacketWriter)
    {f g : PacketWriter → Result IoError (Unit {0}) × PacketWriter}
    → ((w : PacketWriter) → f w ≡ g w)
    → and_then r (λ _. f) ≡ and_then r (λ _. g)
and_then_cong (ok a, w) h = h w
and_then_cong (err e, w) h = refl

and_then-pure : (r : Result IoError (Unit {0}) × PacketWriter) → and_then r (λ _. pure tt) ≡ r
and_then-pure (ok a, w) = refl
and_then-pure (err e, w) = refl

module _ (peer : Peer) (byteorder : ByteOrder) where
  write_chunks-append :
      (cs ds : List Bytes) (w : PacketWriter)
      → write_chunks peer byteorder (cs ++ ds) w
        ≡ and_then (write_chunks peer byteorder cs w) (λ _. write_chunks peer byteorder ds)
  unfolding write_chunks
  write_chunks-append [] ds w = refl
  write_chunks-append (c ∷ cs) ds w =
      and_then_cong (write_chunk peer byteorder c w) (λ w'. write_chunks-append cs ds w')
      ∙ and_then_assoc (write_chunk peer byteorder c w) (write_chunks peer byteorder cs)
          (write_chunks peer byteorder ds)

  when-write_chunk :
      (b : Bool) (w : PacketWriter)
      → when b (write_chunk peer byteorder []) w
        ≡ write_chunks peer byteorder (if b then [] ∷ [] else []) w
  unfolding write_chunks
  when-write_chunk true w = sym (and_then-pure (write_chunk peer byteorder [] w))
  when-write_chunk false w = refl

  flushed_with :
      {bytes : Bytes} {s : ℕ} {w : PacketWriter} (w' : PacketWriter) (event : FlushEvent)
      → peer.on_flush w'.output_stream.flushes ≡ event
      → w'.packet_builder ≡ record w.packet_builder { seq = s }
      → w'.output_stream.written ≡ w.output_stream.written ++ bytes
      → w'.write_timeout ≡ w.write_timeout
      → Delivered peer bytes s w (flush_output peer w')
  unfolding flush_output
  flushed_with w' flushed e hb ho hm = rw (e, flush_output) (delivered _ hb ho)
  flushed_with {bytes} {s} {w} w' (flush_fails n) e hb ho hm =
      rw (e, flush_output)
        (broke_off _ (length bytes) _ (flush_refused _ n e) (omega arith)
          (ap (λ (b : PacketBuilder). b.buffer) hb)
          (ho
            ∙ ap (λ b. w.output_stream.written ++ b)
                (sym (take_all (length bytes) bytes (omega arith)))))
  flushed_with {bytes} {s} {w} w' flush_stalls e hb ho hm =
      rw (e, flush_output, hm)
        (broke_off _ (length bytes) _ (flush_stalled _ e) (omega arith)
          (ap (λ (b : PacketBuilder). b.buffer) hb)
          (ho
            ∙ ap (λ b. w.output_stream.written ++ b)
                (sym (take_all (length bytes) bytes (omega arith)))))

  -- A flush that may follow does not change what was written.
  flush-Delivered :
      {bytes : Bytes} {s : ℕ} {w : PacketWriter} {r : Result IoError (Unit {0}) × PacketWriter}
      (b : Bool)
      → Wrote peer bytes s w r
      → Delivered peer bytes s w (and_then r (λ _. when b (flush_output peer)))
  flush-Delivered true (wrote w' hb ho hf ht hm) = flushed_with w' _ refl hb ho hm
  flush-Delivered false (wrote w' hb ho hf ht hm) = delivered w' hb ho
  flush-Delivered b (stopped e k w' c hk hb ho hf) = broke_off e k w' c (omega arith) hb ho

  small_frames :
      (full : List Bytes) (last : Bytes)
      → All IsFull full
      → length last < 16_777_215
      → All (λ c. length c < 2 ^ 24) (full ++ (last ∷ []))
  small_frames [] last hf hl = (omega arith, tt)
  small_frames (f ∷ full) last (h, hf) hl = (omega arith, small_frames full last hf hl)

  -- `chunks` and the closing frame in one list, the frames of the payload.
  sent_chunks :
      (payload : Bytes) (w : PacketWriter)
      → and_then
          (write_chunks peer byteorder (chunks (length payload) u24_max payload) w)
          (λ _. when (length payload % u24_max == 0) (write_chunk peer byteorder []))
        ≡ write_chunks peer byteorder ((frames_of payload).0 ++ ((frames_of payload).1 ∷ [])) w
  sent_chunks payload w =
      and_then_cong (write_chunks peer byteorder (chunks (length payload) u24_max payload) w)
        (λ w'. when-write_chunk (length payload % u24_max == 0) w')
      ∙ sym (
          write_chunks-append (chunks (length payload) u24_max payload) (closing u24_max payload) w)
      ∙ ap (λ cs. write_chunks peer byteorder cs w)
          (chunks-split u24_max (length payload) payload (omega arith) (omega arith))

  all_frames-Wrote :
      (payload : Bytes) (w : PacketWriter)
      → Wrote peer
          (packet_bytes w.packet_builder.seq payload)
          (next_seq (packet_seq w.packet_builder.seq payload))
          w
          (write_chunks peer byteorder ((frames_of payload).0 ++ ((frames_of payload).1 ∷ [])) w)
  all_frames-Wrote payload w =
      let (full, last) = frames_of payload in
      let p = frames_of-IsPacket payload in
      subst₂ (λ b s. Wrote peer b s w (write_chunks peer byteorder (full ++ (last ∷ [])) w))
        (frames-encode full last w.packet_builder.seq)
        (seq_after-last full last w.packet_builder.seq)
        (write_chunks-Wrote peer byteorder (full ++ (last ∷ [])) w
          (small_frames full last p.full_frames p.short_last))

  send_packet-Delivered :
      (payload : Bytes) (w : PacketWriter)
      → Delivered peer
          (packet_bytes w.packet_builder.seq payload)
          (next_seq (packet_seq w.packet_builder.seq payload))
          w
          (send_packet peer byteorder payload w)
  unfolding send_packet
  send_packet-Delivered payload w =
      let b = ltb 0 w.flush_threshold && leb w.flush_threshold (length payload) in
      let sent = write_chunks peer byteorder (chunks (length payload) u24_max payload) w in
      let close = when (length payload % u24_max == 0) (write_chunk peer byteorder []) in
      rw (and_then_assoc sent close (when b (flush_output peer)), sent_chunks payload w)
        (flush-Delivered b (all_frames-Wrote payload w))

  -- On an empty builder, `write_packet` sends a payload within the limit as one logical packet: it
  -- writes its frames and leaves the next sequence number, or the stream is the cause of an error.
  pub write_packet-Delivered :
      (payload : Bytes) (w : PacketWriter)
      → w.packet_builder.buffer ≡ []
      → payload ≢ []
      → length payload ≤ w.packet_builder.max_packet_size
      → Delivered peer
          (packet_bytes w.packet_builder.seq payload)
          (next_seq (packet_seq w.packet_builder.seq payload))
          w
          (write_packet peer byteorder payload w)
  unfolding write_packet
  write_packet-Delivered [] w he ne hm = absurd (ne refl)
  write_packet-Delivered (b ∷ bs) w he ne hm =
      rw (ap is_nil he, write_packet)
        (rw (le→ltb w.packet_builder.max_packet_size (length (b ∷ bs)) hm)
          (send_packet-Delivered (b ∷ bs) w))

  -- `end_packet` sends what the builder holds, if that is something within the limit, and leaves it
  -- empty, whether the stream takes it or not.
  pub end_packet-Delivered :
      (w : PacketWriter)
      → w.packet_builder.buffer ≢ []
      → length w.packet_builder.buffer ≤ w.packet_builder.max_packet_size
      → Delivered peer
          (packet_bytes w.packet_builder.seq w.packet_builder.buffer)
          (next_seq (packet_seq w.packet_builder.seq w.packet_builder.buffer))
          (record w { packet_builder = record w.packet_builder { buffer = [] } })
          (end_packet peer byteorder w)
  unfolding end_packet
  end_packet-Delivered w ne hm =
      rw (not_nil w.packet_builder.buffer ne, end_packet)
        (write_packet-Delivered w.packet_builder.buffer
          (record w { packet_builder = record w.packet_builder { buffer = [] } }) refl ne hm)

-- What a successful call leaves.
pub Delivered-ok :
    {peer : Peer} {bytes : Bytes} {s : ℕ} {w w' : PacketWriter}
    {r : Result IoError (Unit {0}) × PacketWriter}
    → Delivered peer bytes s w r
    → r ≡ (ok tt, w')
    → (w'.packet_builder ≡ record w.packet_builder { seq = s })
      × (w'.output_stream.written ≡ w.output_stream.written ++ bytes)
Delivered-ok {w = w} (delivered v hb ho) e =
    let same = ap (λ (r : Result IoError (Unit {0}) × PacketWriter). r.1) e in
    (
      ap (λ (x : PacketWriter). x.packet_builder) (sym same) ∙ hb,
      ap (λ (x : PacketWriter). x.output_stream.written) (sym same) ∙ ho,
    )
Delivered-ok (broke_off x k v c hk hb ho) e =
    absurd (err-ne-ok (ap (λ (r : Result IoError (Unit {0}) × PacketWriter). r.0) e))
