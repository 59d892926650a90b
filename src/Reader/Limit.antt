-- ===== src/Reader/Limit.antt =====
-- packet_reader.rs: `ensure_packet_limit` on what has arrived of a logical packet.
use opensrv.Common.{
  ℕ, zero, suc, ◌+◌, ◌-◌, ◌^◌, ◌≤◌, ◌<◌, ◌≡◌, ap, ◌∙◌, List, [], ◌∷◌, ◌++◌, Bytes, length,
  length-append, length-take, take, flatten, All, append_assoc, arith, ltb, lt→ltb, le→ltb, ok, err,
  inl, inr, Bool-cases,
}
use opensrv.Wire.{invalid_data}
use opensrv.Wire.Frame.{frame, next_seq, encode, IsFull, IsPacket}
use opensrv.Reader.{limit_loop, ensure_packet_limit}
use opensrv.Reader.Rounds.{sizes, limit_short, limit_part, limit_whole, short, part, whole, arrived}

limit_loop-le :
    (full : List Bytes) (last rest : Bytes) (limit k fuel seq size : ℕ)
    → limit < 2 ^ 64
    → All IsFull full
    → length last < 16_777_215
    → k < fuel
    → size + length (flatten full ++ last) ≤ limit
    → limit_loop limit fuel (take k (encode seq full last ++ rest)) size ≡ ok tt
limit_loop-le full last rest limit k zero seq size hl hf hs hk t = absurd (omega arith)
limit_loop-le [] last rest limit k (suc fuel) seq size hl hf hs hk t =
    elim (arrived (length last) k) [
      | short h ↦ limit_short limit k fuel seq size last rest h
      | part lo hi ↦
          limit_part limit k fuel seq size last rest hl (omega arith) lo hi
          ∙ rw (le→ltb limit (size + length last) t)
      | whole h ↦
          limit_whole limit k fuel seq size last rest hl (omega arith) h
          ∙ rw (le→ltb limit (size + length last) t) (rw (lt→ltb (length last) 16_777_215 hs))
    ]
limit_loop-le (f ∷ full) last rest limit k (suc fuel) seq size hl (h0, hf) hs hk t =
    ap (λ i. limit_loop limit (suc fuel) (take k i) size) (append_assoc (frame seq f) _ rest)
    ∙ elim (arrived (length f) k) [
      | short h ↦ limit_short limit k fuel seq size f tail h
      | part lo hi ↦
          limit_part limit k fuel seq size f tail hl (omega arith) lo hi ∙ rw (le→ltb limit _ fits)
      | whole h ↦
          limit_whole limit k fuel seq size f tail hl (omega arith) h
          ∙ rw (le→ltb limit _ fits) (
              rw (le→ltb (length f) 16_777_215 (omega arith)) (
                limit_loop-le full last rest limit (k - (4 + length f)) fuel (next_seq seq)
                  (size + length f) hl hf hs (omega arith) (omega (arith, sizes f full last))))
    ]
  where
    tail : Bytes
    tail = encode (next_seq seq) full last ++ rest

    fits : size + length f ≤ limit
    fits = omega (arith, sizes f full last)

pub last-le-encode :
    (seq : ℕ) (full : List Bytes) (last : Bytes) → length last + 4 ≤ length (encode seq full last)
last-le-encode seq [] last = omega arith
last-le-encode seq (f ∷ full) last = omega (
  arith,
  last-le-encode (next_seq seq) full last,
  length-append (frame seq f) (encode (next_seq seq) full last),
)

-- The length field of the last frame has arrived.
limit_loop-lt :
    (full : List Bytes) (last rest : Bytes) (limit k fuel seq size : ℕ)
    → limit < 2 ^ 64
    → All IsFull full
    → length last < 16_777_215
    → k < fuel
    → length (encode seq full last) ≤ k + length last + 1
    → limit < size + length (flatten full ++ last)
    → limit_loop limit fuel (take k (encode seq full last ++ rest)) size ≡ err invalid_data
limit_loop-lt full last rest limit k zero seq size hl hf hs hk ha t = absurd (omega arith)
limit_loop-lt [] last rest limit k (suc fuel) seq size hl hf hs hk ha t =
    elim (arrived (length last) k) [
      | short h ↦ absurd (omega arith)
      | part lo hi ↦
          limit_part limit k fuel seq size last rest hl (omega arith) lo hi
          ∙ rw (lt→ltb limit (size + length last) t)
      | whole h ↦
          limit_whole limit k fuel seq size last rest hl (omega arith) h
          ∙ rw (lt→ltb limit (size + length last) t)
    ]
limit_loop-lt (f ∷ full) last rest limit k (suc fuel) seq size hl (h0, hf) hs hk ha t =
    ap (λ i. limit_loop limit (suc fuel) (take k i) size) (append_assoc (frame seq f) _ rest)
    ∙ limit_whole limit k fuel seq size f tail hl (omega arith) arrived_whole
    ∙ elim (Bool-cases (ltb limit (size + length f))) [
      | inl e ↦ rw e
      | inr e ↦
          rw (e, le→ltb (length f) 16_777_215 (omega arith))
            (limit_loop-lt full last rest limit (k - (4 + length f)) fuel (next_seq seq)
              (size + length f) hl hf hs (omega (arith, arrived_whole))
              (omega (arith, frames_size, arrived_whole)) (omega (arith, sizes f full last)))
    ]
  where
    tail : Bytes
    tail = encode (next_seq seq) full last ++ rest

    frames_size :
        length (encode seq (f ∷ full) last)
        ≡ 4 + length f + length (encode (next_seq seq) full last)
    frames_size = length-append (frame seq f) (encode (next_seq seq) full last) ∙ omega arith

    last-le : length last + 4 ≤ length (encode (next_seq seq) full last)
    last-le = last-le-encode (next_seq seq) full last

    arrived_whole : 4 + length f ≤ k
    arrived_whole = omega (arith, frames_size, last-le)

-- `k` bytes have arrived of a packet and of what follows it.
module _ (full : List Bytes) (last rest : Bytes) (limit k seq : ℕ) (hl : limit < 2 ^ 64)
    (p : IsPacket full last) (hk : k ≤ length (encode seq full last ++ rest)) where
  fuel_enough : k < suc (length (take k (encode seq full last ++ rest)))
  fuel_enough = omega (arith, length-take k (encode seq full last ++ rest))

  -- A packet within the limit is not rejected, however much of it has arrived.
  pub ensure_packet_limit-le :
      length (flatten full ++ last) ≤ limit
      → ensure_packet_limit limit (take k (encode seq full last ++ rest)) ≡ ok tt
  unfolding ensure_packet_limit
  ensure_packet_limit-le t =
      limit_loop-le full last rest limit k _ seq 0 hl p.full_frames p.short_last fuel_enough
        (omega arith)

  -- A packet over the limit is rejected from the time on when the three bytes of length of its last
  -- frame have arrived: at the latest then, before the payload of that frame.
  pub ensure_packet_limit-lt :
      limit < length (flatten full ++ last)
      → length (encode seq full last) ≤ k + length last + 1
      → ensure_packet_limit limit (take k (encode seq full last ++ rest)) ≡ err invalid_data
  unfolding ensure_packet_limit
  ensure_packet_limit-lt t ha =
      limit_loop-lt full last rest limit k _ seq 0 hl p.full_frames p.short_last fuel_enough ha
        (omega arith)
