-- ===== src/Reader/Sound.antt =====
-- mysql/src/packet_reader.rs: what `packet` accepts is a logical packet.
use opensrv.Common.{
  ℕ, zero, suc, ◌≤◌, ◌<◌, ◌≡◌, refl, sym, ap, ◌∙◌, List, [], ◌∷◌, ◌++◌, Bytes, IsByte, length,
  flatten, All, append_assoc, arith, Option, none, some, false, ltb, if◌then◌else◌, ltb→lt, ltb→le,
  Bool-cases, inl, inr, Result, ok, err, ◌>>=◌,
}
use opensrv.Deps.Nom.{Nom, NomErr, IResult}
use opensrv.Wire.{u24_max}
use opensrv.Wire.Frame.{frame, next_seq, encode, last_seq, IsFull, IsPacket}
use opensrv.Reader.{
  frame_len, Packet, payload_len, breaks_sequence, probe_loop, assemble_loop, packet, first_or,
}
use opensrv.Reader.Framed.{Framed, framed, unframed, onepacket-Framed, frame_len-le, frame-Framed}

-- A parse of a logical packet behind `acc`, which a frame with the number `prev` has left: the input
-- is the frames of one, in sequence, and what is left, or it is refused.
pub data Decoded (i acc : Bytes) (prev first : Option ℕ) : IResult (ℕ × Packet) → Type 0 where
  decoded :
      (full : List Bytes) (last rest : Bytes) (seq : ℕ)
      → IsPacket full last
      → i ≡ encode seq full last ++ rest
      → breaks_sequence prev seq ≡ false
      → Decoded i acc prev first (
          ok (
            rest,
            (
              last_seq seq full,
              record { bytes = acc ++ (flatten full ++ last); first_seq = first_or first seq },
            ),
          ))
  refused : {e : NomErr} → Decoded i acc prev first (err e)

follows : (prev seq : ℕ) → breaks_sequence (some prev) seq ≡ false → seq ≡ next_seq prev
unfolding breaks_sequence
follows prev seq h = ground arith

regroup :
    (acc payload full last : Bytes)
    → (acc ++ payload) ++ (full ++ last) ≡ acc ++ ((payload ++ full) ++ last)
regroup acc payload full last = simp append_assoc

-- One more full frame before a packet.
extend-Decoded :
    (i acc payload rest : Bytes) (prev first : Option ℕ) (seq : ℕ) (r : IResult (ℕ × Packet))
    → IsFull payload
    → i ≡ frame seq payload ++ rest
    → breaks_sequence prev seq ≡ false
    → Decoded rest (acc ++ payload) (some seq) (some (first_or first seq)) r
    → Decoded i acc prev first r
extend-Decoded i acc payload rest prev first seq _ full_frame e b
      (decoded full last left seq' p e' b') =
    let in_order : seq' ≡ next_seq seq = follows seq seq' b' in
    let whole : i ≡ encode seq (payload ∷ full) last ++ left =
      e
      ∙ ap (λ t. frame seq payload ++ t) (e' ∙ ap (λ n. encode n full last ++ left) in_order)
      ∙ sym (append_assoc (frame seq payload) (encode (next_seq seq) full last) left) in
    let p' : IsPacket (payload ∷ full) last = record {
      full_frames = (full_frame, p.full_frames);
      short_last = p.short_last;
    } in
    rw (in_order, regroup acc payload (flatten full) last)
      (decoded (payload ∷ full) last left seq p' whole b)
extend-Decoded i acc payload rest prev first seq _ full_frame e b refused = refused

module _ (nom : Nom) where
  after_frame-Decoded :
      (fuel len : ℕ) (i acc : Bytes) (prev first : Option ℕ) (r : IResult (ℕ × Bytes))
      → len ≤ u24_max
      → ((rest acc : Bytes) (prev first : Option ℕ)
          → All IsByte rest
          → Decoded rest acc prev first (assemble_loop nom fuel rest acc prev first))
      → Framed len i r
      → Decoded i acc prev first (
          r >>= λ (rest, (seq, payload)).
          if breaks_sequence prev seq
          then err NomErr.failure
          else if ltb len u24_max
          then ok (rest, (seq, record { bytes = acc ++ payload; first_seq = first_or first seq }))
          else assemble_loop nom fuel rest (acc ++ payload) (some seq) (some (first_or first seq)))
  after_frame-Decoded fuel len i acc prev first _ small ih (framed seq payload rest e size bytes) =
      elim (Bool-cases (breaks_sequence prev seq)) [
        | inl broken ↦ rw broken refused
        | inr in_order ↦ rw in_order (elim (Bool-cases (ltb len u24_max)) [
          | inl short ↦ rw short (
              decoded [] payload rest seq
                (record { full_frames = tt; short_last = omega (arith, ltb→lt len u24_max short) })
                e in_order)
          | inr long ↦ rw long (
              extend-Decoded i acc payload rest prev first seq _
                (omega (arith, ltb→le len u24_max long)) e in_order (ih rest _ _ _ bytes))
        ])
      ]
  after_frame-Decoded fuel len i acc prev first _ small ih unframed = refused

  assemble_loop-Decoded :
      (fuel : ℕ) (i acc : Bytes) (prev first : Option ℕ)
      → All IsByte i
      → Decoded i acc prev first (assemble_loop nom fuel i acc prev first)
  unfolding assemble_loop payload_len
  assemble_loop-Decoded zero i acc prev first h = refused
  assemble_loop-Decoded (suc fuel) [] acc prev first h = refused
  assemble_loop-Decoded (suc fuel) (b0 ∷ []) acc prev first h = refused
  assemble_loop-Decoded (suc fuel) (b0 ∷ b1 ∷ []) acc prev first h = refused
  assemble_loop-Decoded (suc fuel) (b0 ∷ b1 ∷ b2 ∷ tail) acc prev first h =
      after_frame-Decoded fuel (frame_len b0 b1 b2) (b0 ∷ b1 ∷ b2 ∷ tail) acc prev first _
        (frame_len-le b0 b1 b2 h.0 h.1.0 h.1.1.0) (assemble_loop-Decoded fuel)
        (frame-Framed nom b0 b1 b2 tail h)

  one-Decoded :
      (len : ℕ) (i : Bytes) (r : IResult (ℕ × Bytes))
      → len < u24_max
      → Framed len i r
      → Decoded i [] none none (
          r >>= λ (rest, (seq, payload)).
          ok (rest, (seq, record { bytes = payload; first_seq = seq })))
  unfolding breaks_sequence
  one-Decoded len i _ small (framed seq payload rest e size bytes) =
      decoded [] payload rest seq (record { full_frames = tt; short_last = omega arith }) e refl
  one-Decoded len i _ small unframed = refused

  many-Decoded :
      (i : Bytes) (r : Result NomErr (Unit {0}))
      → All IsByte i
      → Decoded i [] none none (r >>= λ _. assemble_loop nom (suc (length i)) i [] none none)
  many-Decoded i (ok _) h = assemble_loop-Decoded (suc (length i)) i [] none none h
  many-Decoded i (err e) h = refused

  -- Whatever bytes `packet` is given, it refuses them or they begin with the frames of a logical
  -- packet in sequence, full ones and one that is not, and its result is the payloads joined, the
  -- numbers of the first frame and of the last, and the bytes behind them.
  pub packet-Decoded : (i : Bytes) → All IsByte i → Decoded i [] none none (packet nom i)
  unfolding packet payload_len
  packet-Decoded [] h = refused
  packet-Decoded (b0 ∷ []) h = refused
  packet-Decoded (b0 ∷ b1 ∷ []) h = refused
  packet-Decoded (b0 ∷ b1 ∷ b2 ∷ tail) h =
      let i = b0 ∷ b1 ∷ b2 ∷ tail in
      elim (Bool-cases (ltb (frame_len b0 b1 b2) u24_max)) [
        | inl short ↦ rw short (
            one-Decoded (frame_len b0 b1 b2) i _ (ltb→lt _ _ short)
              (onepacket-Framed nom b0 b1 b2 tail h))
        | inr long ↦ rw long (many-Decoded i (probe_loop (suc (length i)) i 0 none) h)
      ]
