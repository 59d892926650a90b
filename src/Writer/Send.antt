-- ===== src/Writer/Send.antt =====
-- packet_writer.rs: what `write_chunk` and a sequence of its calls write.
use opensrv.Common.{
  ℕ, ◌+◌, ◌^◌, ◌<◌, ◌≡◌, refl, sym, ap, ◌∙◌, List, [], ◌∷◌, ◌++◌, Bytes, length, length-append,
  take, All, take-append_le, take-append_ge, append-nil, append_assoc, arith, ok, err, Result,
}
use mathlib.Core.Path.{subst}
use opensrv.Deps.ByteOrder.{ByteOrder}
use opensrv.Wire.{IoError}
use opensrv.Wire.Frame.{frame, frames, next_seq, seq_after}
use opensrv.Io.{and_then}
use opensrv.Writer.{
  Output, Peer, PacketBuilder, PacketWriter, write_chunk, write_chunks, increase_seq,
}
use opensrv.Writer.Offsets.{Sent, all_sent, cut_off, Caused}
use opensrv.Writer.Chunk.{write_loop_whole}

-- What an action that has `bytes` to send did to the writer: it sent them all, and only the sequence
-- number is another; or it failed with a proper prefix of them written.
pub data Wrote (peer : Peer) (bytes : Bytes) (seq' : ℕ) (w : PacketWriter)
    : Result IoError (Unit {0}) × PacketWriter → Type 0 where
  wrote :
      (w' : PacketWriter)
      → w'.packet_builder ≡ record w.packet_builder { seq = seq' }
      → w'.output_stream.written ≡ w.output_stream.written ++ bytes
      → w'.output_stream.flushes ≡ w.output_stream.flushes
      → w'.flush_threshold ≡ w.flush_threshold
      → w'.write_timeout ≡ w.write_timeout
      → Wrote peer bytes seq' w (ok tt, w')
  stopped :
      (e : IoError) (k : ℕ) (w' : PacketWriter)
      → Caused peer w.write_timeout e
      → k < length bytes
      → w'.packet_builder.buffer ≡ w.packet_builder.buffer
      → w'.output_stream.written ≡ w.output_stream.written ++ take k bytes
      → w'.output_stream.flushes ≡ w.output_stream.flushes
      → Wrote peer bytes seq' w (err e, w')

of_Sent :
    {peer : Peer} {bytes : Bytes} {w : PacketWriter} {r : Result IoError (Unit {0}) × Output}
    (b : PacketBuilder)
    → b ≡ record w.packet_builder { seq = next_seq w.packet_builder.seq }
    → Sent peer w.write_timeout bytes w.output_stream r
    → Wrote peer bytes
        (next_seq w.packet_builder.seq)
        w
        (r.0, record w { packet_builder = b; output_stream = r.1 })
of_Sent b e (all_sent out' h f) = wrote _ e h f refl refl
of_Sent b e (cut_off x k out' ne hk h f) =
    stopped x k _ ne hk (ap (λ (c : PacketBuilder). c.buffer) e) h f

module _ (peer : Peer) (byteorder : ByteOrder) where
  header_chunk :
      (seq : ℕ) (chunk : Bytes)
      → length chunk < 2 ^ 24
      → (byteorder.write_u24 (length chunk) ++ (seq ∷ [])) ++ chunk ≡ frame seq chunk
  header_chunk seq chunk h = rw (byteorder.write_u24_lem (length chunk) h) refl

  -- `write_chunk` writes one frame.
  pub write_chunk-Wrote :
      (chunk : Bytes) (w : PacketWriter)
      → length chunk < 2 ^ 24
      → Wrote peer
          (frame w.packet_builder.seq chunk)
          (next_seq w.packet_builder.seq)
          w
          (write_chunk peer byteorder chunk w)
  unfolding write_chunk increase_seq
  write_chunk-Wrote chunk w h = rw (← header_chunk w.packet_builder.seq chunk h) (
      of_Sent _ refl (
        write_loop_whole peer w.write_timeout
          (byteorder.write_u24 (length chunk) ++ (w.packet_builder.seq ∷ [])) chunk
          w.output_stream))

take_past : (a b : Bytes) (k : ℕ) → take (length a + k) (a ++ b) ≡ a ++ take k b
take_past a b k =
    take-append_ge (length a + k) a b (omega arith) ∙ ap (λ n. a ++ take n b) (omega arith)

after :
    {peer : Peer} (a b : Bytes) (s t : ℕ) (w w' : PacketWriter)
    (r : Result IoError (Unit {0}) × PacketWriter)
    → w'.packet_builder ≡ record w.packet_builder { seq = s }
    → w'.output_stream.written ≡ w.output_stream.written ++ a
    → w'.output_stream.flushes ≡ w.output_stream.flushes
    → w'.flush_threshold ≡ w.flush_threshold
    → w'.write_timeout ≡ w.write_timeout
    → Wrote peer b t w' r
    → Wrote peer (a ++ b) t w r
after a b s t w w' (ok _, w'') hb ho hf ht hm (wrote _ hb' ho' hf' ht' hm') =
    wrote w'' (hb' ∙ ap (λ (c : PacketBuilder). record c { seq = t }) hb)
      (ho' ∙ ap (λ x. x ++ b) ho ∙ append_assoc w.output_stream.written a b) (hf' ∙ hf) (ht' ∙ ht)
      (hm' ∙ hm)
after {peer} a b s t w w' (err _, w'') hb ho hf ht hm (stopped e k _ ne hk hb' ho' hf') =
    stopped e (length a + k) w'' (subst (λ t. Caused peer t e) hm ne)
      (omega (arith, length-append a b)) (hb' ∙ ap (λ (c : PacketBuilder). c.buffer) hb)
      (ho'
        ∙ ap (λ x. x ++ take k b) ho
        ∙ append_assoc w.output_stream.written a (take k b)
        ∙ ap (λ x. w.output_stream.written ++ x) (sym (take_past a b k)))
      (hf' ∙ hf)

-- Two actions in a row, the second on the writer that the first left.
pub Wrote-then :
    {peer : Peer} {a b : Bytes} {s t : ℕ} {w : PacketWriter}
    {r : Result IoError (Unit {0}) × PacketWriter}
    (k : PacketWriter → Result IoError (Unit {0}) × PacketWriter)
    → Wrote peer a s w r
    → ((w' : PacketWriter)
        → w'.packet_builder ≡ record w.packet_builder { seq = s }
        → w'.flush_threshold ≡ w.flush_threshold
        → w'.write_timeout ≡ w.write_timeout
        → Wrote peer b t w' (k w'))
    → Wrote peer (a ++ b) t w (and_then r (λ _. k))
Wrote-then {a} {b} {s} {t} {w} k (wrote w' hb ho hf ht hm) next =
    after a b s t w w' (k w') hb ho hf ht hm (next w' hb ht hm)
Wrote-then {a} {b} {w = w} k (stopped e n w' ne hn hb ho hf) next =
    stopped e n w' ne (omega (arith, length-append a b)) hb
      (ho ∙ ap (λ x. w.output_stream.written ++ x) (sym (take-append_le n a b (omega arith)))) hf

module _ (peer : Peer) (byteorder : ByteOrder) where
  pub write_chunks-Wrote :
      (cs : List Bytes) (w : PacketWriter)
      → All (λ c. length c < 2 ^ 24) cs
      → Wrote peer
          (frames w.packet_builder.seq cs)
          (seq_after w.packet_builder.seq cs)
          w
          (write_chunks peer byteorder cs w)
  unfolding write_chunks
  write_chunks-Wrote [] w h = wrote w refl (sym (append-nil w.output_stream.written)) refl refl refl
  write_chunks-Wrote (c ∷ cs) w (h, hs) =
      Wrote-then (write_chunks peer byteorder cs) (write_chunk-Wrote peer byteorder c w h)
        (λ w' hb ht hm.
          subst
            (λ s. Wrote peer (frames s cs) (seq_after s cs) w' (write_chunks peer byteorder cs w'))
            (ap (λ (b : PacketBuilder). b.seq) hb) (write_chunks-Wrote cs w' hs))
