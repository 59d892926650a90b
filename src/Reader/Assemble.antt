-- ===== src/Reader/Assemble.antt =====
-- packet_reader.rs: `packet` on a whole logical packet, of one frame or of many.
use opensrv.Common.{
  ℕ, zero, suc, ◌+◌, ◌^◌, ◌≤◌, ◌<◌, ◌≡◌, refl, ap, ◌∙◌, List, [], ◌∷◌, ◌++◌, Bytes, length,
  length-append, drop-length-append, flatten, All, append_assoc, arith, Option, none, some, false,
  ltb, ◌==◌, if◌then◌else◌, lt→ltb, le→ltb, lt→leb, ==_refl, ==→eq, Bool-cases, inl, inr, ok,
}
use opensrv.Deps.Nom.{Nom}
use opensrv.Wire.{u24_max}
use opensrv.Wire.Frame.{frame, next_seq, encode, last_seq, IsFull, IsPacket}
use opensrv.Reader.{
  payload_len, breaks_sequence, probe_loop, onepacket, fullpacket, assemble_loop, packet, first_or,
}
use opensrv.Reader.Frames.{frame_len-u24, drop-header, onepacket-frame, fullpacket-frame}

-- One round of the first loop on a frame.
pub probe_loop_step :
    (fuel seq total : ℕ) (prev : Option ℕ) (payload tail : Bytes)
    → length payload < 2 ^ 24
    → breaks_sequence prev seq ≡ false
    → total + length payload < 2 ^ 64
    → probe_loop (suc fuel) (frame seq payload ++ tail) total prev ≡ (
        if ltb (length payload) u24_max
        then ok tt
        else probe_loop fuel tail (total + length payload) (some seq))
unfolding probe_loop
probe_loop_step fuel seq total prev payload tail h b t =
    let enough : 4 + length payload ≤ suc (suc (suc (suc (length (payload ++ tail))))) =
      omega (arith, length-append payload tail) in
    rw (frame_len-u24 (length payload) h, b)
      (rw (le→ltb _ _ enough, lt→leb _ _ t, drop-header)
        (rw (drop-length-append payload tail) refl))

pub next_seq_follows : (seq : ℕ) → breaks_sequence (some seq) (next_seq seq) ≡ false
unfolding breaks_sequence
next_seq_follows seq = rw (==_refl (next_seq seq))

probe_loop-encode :
    (full : List Bytes) (last rest : Bytes) (fuel seq total : ℕ) (prev : Option ℕ)
    → All IsFull full
    → length last < 16_777_215
    → breaks_sequence prev seq ≡ false
    → length full < fuel
    → total + length (flatten full ++ last) < 2 ^ 64
    → probe_loop fuel (encode seq full last ++ rest) total prev ≡ ok tt
probe_loop-encode full last rest zero seq total prev hf hl b hn t = absurd (omega arith)
probe_loop-encode [] last rest (suc fuel) seq total prev hf hl b hn t =
    probe_loop_step fuel seq total prev last rest (omega arith) b t
    ∙ rw (lt→ltb (length last) 16_777_215 hl)
probe_loop-encode (f ∷ full) last rest (suc fuel) seq total prev (h0, hf) hl b hn t =
    ap (λ i. probe_loop (suc fuel) i total prev) (append_assoc (frame seq f) _ rest)
    ∙ probe_loop_step fuel seq total prev f (encode (next_seq seq) full last ++ rest) (omega arith)
        b (omega (arith, sizes))
    ∙ rw (le→ltb (length f) 16_777_215 (omega arith)) (
        probe_loop-encode full last rest fuel (next_seq seq) (total + length f) (some seq) hf hl
          (next_seq_follows seq) (omega arith) (omega (arith, sizes)))
  where
    sizes : length (flatten (f ∷ full) ++ last) ≡ length f + length (flatten full ++ last)
    sizes = ap length (append_assoc f (flatten full) last) ∙ length-append f (flatten full ++ last)

regroup : (a b c d : Bytes) → (a ++ b) ++ (c ++ d) ≡ a ++ ((b ++ c) ++ d)
regroup a b c d = simp append_assoc

pub frames-le-length :
    (full : List Bytes) (last rest : Bytes) (seq : ℕ)
    → length full < suc (length (encode seq full last ++ rest))
frames-le-length [] last rest seq = omega arith
frames-le-length (f ∷ full) last rest seq =
    let tail = encode (next_seq seq) full last in
    omega (
      arith,
      frames-le-length full last rest (next_seq seq),
      length-append (frame seq f ++ tail) rest,
      length-append (frame seq f) tail,
      length-append tail rest,
    )

module _ (nom : Nom) where
  -- The test for the length of a full frame picks a parser that reads the frame.
  one_frame :
      (seq : ℕ) (payload tail : Bytes)
      → length payload ≤ 16_777_215
      → (if length payload == u24_max
          then fullpacket nom (frame seq payload ++ tail)
          else onepacket nom (frame seq payload ++ tail))
        ≡ ok (tail, (seq, payload))
  one_frame seq payload tail h = elim (Bool-cases (length payload == u24_max)) [
    | inl e ↦ rw e (fullpacket-frame nom seq payload tail (==→eq (length payload) u24_max e))
    | inr e ↦ rw e (onepacket-frame nom seq payload tail (omega arith))
  ]

  assemble_loop_step :
      (fuel seq : ℕ) (payload tail acc : Bytes) (prev first : Option ℕ)
      → length payload ≤ 16_777_215
      → breaks_sequence prev seq ≡ false
      → assemble_loop nom (suc fuel) (frame seq payload ++ tail) acc prev first ≡ (
          if ltb (length payload) u24_max
          then ok (tail, (seq, record { bytes = acc ++ payload; first_seq = first_or first seq }))
          else assemble_loop nom fuel tail (acc ++ payload) (some seq) (some (first_or first seq)))
  unfolding assemble_loop payload_len
  assemble_loop_step fuel seq payload tail acc prev first h b =
      rw (frame_len-u24 (length payload) (omega arith), one_frame seq payload tail h) (rw b)

  assemble_loop-encode :
      (full : List Bytes) (last rest acc : Bytes) (fuel seq : ℕ) (prev first : Option ℕ)
      → All IsFull full
      → length last < 16_777_215
      → breaks_sequence prev seq ≡ false
      → length full < fuel
      → assemble_loop nom fuel (encode seq full last ++ rest) acc prev first
        ≡ ok (
          rest,
          (
            last_seq seq full,
            record { bytes = acc ++ (flatten full ++ last); first_seq = first_or first seq },
          ),
        )
  assemble_loop-encode full last rest acc zero seq prev first hf hl b hn = absurd (omega arith)
  assemble_loop-encode [] last rest acc (suc fuel) seq prev first hf hl b hn =
      assemble_loop_step fuel seq last rest acc prev first (omega arith) b
      ∙ rw (lt→ltb (length last) 16_777_215 hl)
  assemble_loop-encode (f ∷ full) last rest acc (suc fuel) seq prev first (h0, hf) hl b hn =
      ap (λ i. assemble_loop nom (suc fuel) i acc prev first) (append_assoc (frame seq f) _ rest)
      ∙ assemble_loop_step fuel seq f (encode (next_seq seq) full last ++ rest) acc prev first
          (omega arith) b
      ∙ rw (le→ltb (length f) 16_777_215 (omega arith)) (
          assemble_loop-encode full last rest (acc ++ f) fuel (next_seq seq) (some seq)
            (some (first_or first seq)) hf hl (next_seq_follows seq) (omega arith))
      ∙ ap
          (λ (b : Bytes).
            ok (
              rest,
              (last_seq seq (f ∷ full), record { bytes = b; first_seq = first_or first seq }),
            ))
          (regroup acc f (flatten full) last)

  -- The packet of many frames goes through both loops, the packet of one through neither.
  packet_many :
      (f : Bytes) (full : List Bytes) (last rest : Bytes) (seq : ℕ)
      → IsPacket (f ∷ full) last
      → length (flatten (f ∷ full) ++ last) < 2 ^ 64
      → packet nom (encode seq (f ∷ full) last ++ rest)
        ≡ ok (
          rest,
          (last_seq seq (f ∷ full), record { bytes = flatten (f ∷ full) ++ last; first_seq = seq }),
        )
  unfolding packet payload_len breaks_sequence
  packet_many f full last rest seq p t =
      let i = encode seq (f ∷ full) last ++ rest in
      let n = frames-le-length (f ∷ full) last rest seq in
      let probed =
        probe_loop-encode (f ∷ full) last rest (suc (length i)) seq 0 none p.full_frames
          p.short_last refl n (omega arith) in
      let assembled =
        assemble_loop-encode (f ∷ full) last rest [] (suc (length i)) seq none none p.full_frames
          p.short_last refl n in
      rw (frame_len-u24 (length f) (omega (arith, p.full_frames.0)))
        (rw (le→ltb (length f) 16_777_215 (omega (arith, p.full_frames.0))) (rw probed assembled))

  packet_one :
      (last rest : Bytes) (seq : ℕ)
      → length last < 16_777_215
      → packet nom (frame seq last ++ rest)
        ≡ ok (rest, (seq, record { bytes = last; first_seq = seq }))
  unfolding packet payload_len
  packet_one last rest seq h = rw (frame_len-u24 (length last) (omega arith)) (
      rw (lt→ltb (length last) 16_777_215 h)
        (rw (onepacket-frame nom seq last rest (omega arith)) refl))

  -- `packet` reads a logical packet of fewer than 2 ^ 64 bytes back from its frames, whatever follows them: the payloads of
  -- the frames joined, with the sequence numbers of the first frame and of the last.
  pub packet-encode :
      (full : List Bytes) (last rest : Bytes) (seq : ℕ)
      → IsPacket full last
      → length (flatten full ++ last) < 2 ^ 64
      → packet nom (encode seq full last ++ rest)
        ≡ ok (rest, (last_seq seq full, record { bytes = flatten full ++ last; first_seq = seq }))
  packet-encode [] last rest seq p t = packet_one last rest seq p.short_last
  packet-encode (f ∷ full) last rest seq p t = packet_many f full last rest seq p t
