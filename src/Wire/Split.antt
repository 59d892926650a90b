-- ===== src/Wire/Split.antt =====
-- The frames of a payload: `split` cuts it as the specification of a logical packet wants.
use opensrv.Common.{
  ℕ, zero, suc, ◌≤◌, ◌≡◌, refl, ap, ◌∙◌, List, [], ◌∷◌, ◌++◌, Bytes, length, length-take,
  length-drop, take, drop, take-append-drop, flatten, append_assoc, arith, ltb, Bool-cases, inl,
  inr, ltb→lt, ltb→le, append-nil,
}
use opensrv.Wire.Frame.{
  frame, next_seq, encode, last_seq, IsPacket, frames, seq_after, split, frames_of,
}

split-IsPacket :
    (fuel : ℕ) (payload : Bytes)
    → length payload ≤ fuel
    → IsPacket (split 16_777_215 fuel payload).0 (split 16_777_215 fuel payload).1
unfolding split
split-IsPacket zero payload h = record { full_frames = tt; short_last = omega arith }
split-IsPacket (suc fuel) payload h = elim (Bool-cases (ltb (length payload) 16_777_215)) [
  | inl e ↦ rw e (record { full_frames = tt; short_last = ltb→lt (length payload) _ e })
  | inr e ↦
      let big = ltb→le (length payload) 16_777_215 e in
      let ih =
        split-IsPacket fuel (drop 16_777_215 payload)
          (omega (arith, length-drop 16_777_215 payload)) in
      rw e (record {
        full_frames = (omega (arith, length-take 16_777_215 payload), ih.full_frames);
        short_last = ih.short_last;
      })
]

split_joins :
    (n fuel : ℕ) (payload : Bytes)
    → flatten (split n fuel payload).0 ++ (split n fuel payload).1 ≡ payload
unfolding split
split_joins n zero payload = refl
split_joins n (suc fuel) payload = elim (Bool-cases (ltb (length payload) n)) [
  | inl e ↦ rw e
  | inr e ↦ rw e (
      append_assoc (take n payload) (flatten (split n fuel (drop n payload)).0) _
      ∙ ap (λ b. take n payload ++ b) (split_joins n fuel (drop n payload))
      ∙ take-append-drop n payload)
]

pub frames_of-IsPacket : (payload : Bytes) → IsPacket (frames_of payload).0 (frames_of payload).1
frames_of-IsPacket payload = split-IsPacket (length payload) payload (omega arith)

pub frames_of_joins :
    (payload : Bytes) → flatten (frames_of payload).0 ++ (frames_of payload).1 ≡ payload
frames_of_joins payload = split_joins 16_777_215 (length payload) payload

pub frames-encode :
    (full : List Bytes) (last : Bytes) (seq : ℕ)
    → frames seq (full ++ (last ∷ [])) ≡ encode seq full last
frames-encode [] last seq = append-nil (frame seq last)
frames-encode (f ∷ full) last seq =
    ap (λ b. frame seq f ++ b) (frames-encode full last (next_seq seq))

pub seq_after-last :
    (full : List Bytes) (last : Bytes) (seq : ℕ)
    → seq_after seq (full ++ (last ∷ [])) ≡ next_seq (last_seq seq full)
seq_after-last [] last seq = refl
seq_after-last (f ∷ full) last seq = seq_after-last full last (next_seq seq)
