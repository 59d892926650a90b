-- ===== src/Reader/Prefix.antt =====
-- packet_reader.rs: `packet` and the size limit on a part of a logical packet.
use opensrv.Common.{
  ℕ, zero, suc, ◌+◌, ◌-◌, ◌^◌, ◌<◌, ◌≡◌, refl, ap, ◌∙◌, List, [], ◌∷◌, ◌++◌, Bytes, length,
  length-append, length-take, take, flatten, All, take-append_le, take-append_ge, append_assoc,
  arith, Option, none, some, false, ltb, lt→ltb, le→ltb, err, Result, ◌⊎◌, inl, inr, Bool-cases,
  ltb→lt, ltb→le,
}
use opensrv.Deps.Nom.{Nom, NomErr, incomplete, error}
use opensrv.Wire.Frame.{u24_bytes, frame, next_seq, encode, IsFull, IsPacket}
use opensrv.Reader.{payload_len, breaks_sequence, probe_loop, onepacket, packet, first_byte}
use opensrv.Reader.Frames.{frame_len-u24, le_u24-bytes}
use opensrv.Reader.Assemble.{probe_loop_step, next_seq_follows}

-- The answer of a parser that the reader takes for a packet that has not arrived in full.
abbrev pub WaitsFor {ℓ} : {A : Type ℓ} → Result NomErr A → Type ℓ
WaitsFor r = (r ≡ err incomplete) ⊎ (r ≡ err error)

-- One frame that is cut short.
probe_loop_cut :
    (k fuel seq total : ℕ) (prev : Option ℕ) (payload : Bytes)
    → k < 4 + length payload
    → length payload < 2 ^ 24
    → breaks_sequence prev seq ≡ false
    → probe_loop (suc fuel) (take k (frame seq payload)) total prev ≡ err incomplete
unfolding probe_loop
probe_loop_cut zero fuel seq total prev payload hk h b = refl
probe_loop_cut (suc zero) fuel seq total prev payload hk h b = refl
probe_loop_cut (suc (suc zero)) fuel seq total prev payload hk h b = refl
probe_loop_cut (suc (suc (suc zero))) fuel seq total prev payload hk h b = refl
probe_loop_cut (suc (suc (suc (suc k)))) fuel seq total prev payload hk h b =
    let cut : suc (suc (suc (suc (length (take k payload))))) < 4 + length payload =
      omega (arith, length-take k payload) in
    rw (frame_len-u24 (length payload) h, b) (rw (lt→ltb _ _ cut) refl)

-- `packet` is not broken by a part of a logical packet, and does not take it for a whole one.
probe_loop_prefix :
    (full : List Bytes) (last : Bytes) (k fuel seq total : ℕ) (prev : Option ℕ)
    → All IsFull full
    → length last < 16_777_215
    → breaks_sequence prev seq ≡ false
    → k < length (encode seq full last)
    → k < fuel
    → total + length (flatten full ++ last) < 2 ^ 64
    → probe_loop fuel (take k (encode seq full last)) total prev ≡ err incomplete
probe_loop_prefix full last k zero seq total prev hf hl b hk hn t = absurd (omega arith)
probe_loop_prefix [] last k (suc fuel) seq total prev hf hl b hk hn t =
    probe_loop_cut k fuel seq total prev last (omega arith) (omega arith) b
probe_loop_prefix (f ∷ full) last k (suc fuel) seq total prev (h0, hf) hl b hk hn t =
    elim (Bool-cases (ltb k (4 + length f))) [
      | inl cut ↦
          let hk' = ltb→lt k (4 + length f) cut in
          ap (λ i. probe_loop (suc fuel) i total prev)
            (take-append_le k (frame seq f) rest (omega arith))
          ∙ probe_loop_cut k fuel seq total prev f hk' (omega arith) b
      | inr more ↦
          let hk' = ltb→le k (4 + length f) more in
          ap (λ i. probe_loop (suc fuel) i total prev)
            (take-append_ge k (frame seq f) rest (omega arith))
          ∙ probe_loop_step fuel seq total prev f (take (k - length (frame seq f)) rest)
              (omega arith) b (omega (arith, sizes))
          ∙ rw (le→ltb (length f) 16_777_215 (omega arith)) (
              probe_loop_prefix full last (k - length (frame seq f)) fuel (next_seq seq)
                (total + length f) (some seq) hf hl (next_seq_follows seq)
                (omega (arith, length-append (frame seq f) rest)) (omega arith)
                (omega (arith, sizes)))
    ]
  where
    rest : Bytes
    rest = encode (next_seq seq) full last

    sizes : length (flatten (f ∷ full) ++ last) ≡ length f + length (flatten full ++ last)
    sizes = ap length (append_assoc f (flatten full) last) ∙ length-append f (flatten full ++ last)

module _ (nom : Nom) where
  -- `onepacket` on a frame that is cut short behind its length.
  onepacket_cut :
      (k seq : ℕ) (payload : Bytes)
      → k < 1 + length payload
      → length payload < 2 ^ 24
      → onepacket nom (u24_bytes (length payload) ++ take k (seq ∷ payload)) ≡ err error
  unfolding onepacket first_byte
  onepacket_cut zero seq payload hk h =
      rw (le_u24-bytes nom (length payload) [] h, onepacket)
        (rw (nom.take_short 1 [] (omega arith)) refl)
  onepacket_cut (suc k) seq payload hk h =
      rw (le_u24-bytes nom (length payload) (seq ∷ take k payload) h, onepacket)
        (rw (nom.take_enough 1 (seq ∷ take k payload) (omega arith)) (
          rw
            (nom.take_short (length payload) (take k payload)
              (omega (arith, length-take k payload)))
            refl))

  packet_one_prefix :
      (last : Bytes) (k seq : ℕ)
      → length last < 16_777_215
      → k < 4 + length last
      → WaitsFor (packet nom (take k (frame seq last)))
  unfolding packet payload_len
  packet_one_prefix last zero seq h hk = inl refl
  packet_one_prefix last (suc zero) seq h hk = inl refl
  packet_one_prefix last (suc (suc zero)) seq h hk = inl refl
  packet_one_prefix last (suc (suc (suc k))) seq h hk = inr (
      rw (frame_len-u24 (length last) (omega arith)) (
        rw (lt→ltb (length last) 16_777_215 h)
          (rw (onepacket_cut k seq last (omega arith) (omega arith)) refl)))

  packet_many_prefix :
      (f : Bytes) (full : List Bytes) (last : Bytes) (k seq : ℕ)
      → IsPacket (f ∷ full) last
      → length (flatten (f ∷ full) ++ last) < 2 ^ 64
      → k < length (encode seq (f ∷ full) last)
      → packet nom (take k (encode seq (f ∷ full) last)) ≡ err incomplete
  unfolding packet payload_len breaks_sequence
  packet_many_prefix f full last zero seq p t hk = refl
  packet_many_prefix f full last (suc zero) seq p t hk = refl
  packet_many_prefix f full last (suc (suc zero)) seq p t hk = refl
  packet_many_prefix f full last (suc (suc (suc k))) seq p t hk =
      rw (frame_len-u24 (length f) (omega (arith, p.full_frames.0))) (
        rw (le→ltb (length f) 16_777_215 (omega (arith, p.full_frames.0))) (
          rw
            (probe_loop_prefix (f ∷ full) last (suc (suc (suc k))) (suc (length cut)) seq 0 none
              p.full_frames p.short_last refl hk
              (omega (arith, length-take (suc (suc (suc k))) (encode seq (f ∷ full) last)))
              (omega arith))
            refl))
    where
      cut : Bytes
      cut = take (suc (suc (suc k))) (encode seq (f ∷ full) last)

  -- A proper prefix of a logical packet of fewer than 2 ^ 64 bytes is never taken for a packet, nor for a broken one.
  pub packet-prefix :
      (full : List Bytes) (last : Bytes) (k seq : ℕ)
      → IsPacket full last
      → length (flatten full ++ last) < 2 ^ 64
      → k < length (encode seq full last)
      → WaitsFor (packet nom (take k (encode seq full last)))
  packet-prefix [] last k seq p t hk = packet_one_prefix last k seq p.short_last (omega arith)
  packet-prefix (f ∷ full) last k seq p t hk = inl (packet_many_prefix f full last k seq p t hk)
