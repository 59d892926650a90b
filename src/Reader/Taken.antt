-- ===== src/Reader/Taken.antt =====
-- mysql/src/packet_reader.rs: what `next` returns, whatever the stream gives.
use opensrv.Common.{
  ℕ, ◌^◌, ◌≤◌, ◌<◌, ◌≡◌, refl, sym, ap, ◌∙◌, List, [], ◌∷◌, ◌++◌, map, Bytes, IsByte, length,
  length-append, take, take_all, flatten, All, append_assoc, append-nil, arith, none, some, ltb,
  ltb→lt, ltb→le, Bool-cases, inl, inr, ok, err, Result-cases,
}
use opensrv.Deps.Nom.{Nom, IResult, incomplete, error, failure, panicked, out_of_fuel}
use opensrv.Wire.{IoError}
use opensrv.Wire.Frame.{encode, last_seq, IsPacket}
use opensrv.Reader.{
  Packet, packet, ensure_packet_limit, ReadEvent, chunk, failed, NextOutcome, at_end, Attempt,
  found, broken, need_more, from_packet, attempt, settle, next,
}
use opensrv.Reader.Limit.{ensure_packet_limit-lt}
use opensrv.Reader.Sound.{Decoded, decoded, refused, packet-Decoded}

abbrev pub GivesBytes : ReadEvent → Type 0
GivesBytes (chunk c) = All IsByte c
GivesBytes (failed e) = Unit {0}

All-append : (xs ys : Bytes) → All IsByte xs → All IsByte ys → All IsByte (xs ++ ys)
All-append [] ys h k = k
All-append (x ∷ xs) ys h k = (h.0, All-append xs ys h.1 k)

-- A round finds a packet within the limit at the start of the bytes, or none.
data Found (limit : ℕ) (bytes : Bytes) : Attempt → Type 0 where
  found_packet :
      (full : List Bytes) (last rest : Bytes) (seq : ℕ)
      → IsPacket full last
      → length (flatten full ++ last) ≤ limit
      → bytes ≡ encode seq full last ++ rest
      → Found limit bytes
          (found rest (last_seq seq full, record { bytes = flatten full ++ last; first_seq = seq }))
  found_error : {e : IoError} → Found limit bytes (broken e)
  found_nothing : Found limit bytes need_more

-- What a call returns: a packet within the limit, whose frames are at the start of the bytes that were
-- kept and of the pieces that were read, with what is behind them kept; or nothing, at an end of the
-- stream with nothing kept; or an error.
pub data Taken (limit : ℕ) (bytes : Bytes) (reads : List ReadEvent) : NextOutcome → Type 0 where
  taken :
      (full : List Bytes) (last kept : Bytes) (seq : ℕ) (cs : List Bytes) (later : List ReadEvent)
      → IsPacket full last
      → length (flatten full ++ last) ≤ limit
      → reads ≡ map chunk cs ++ later
      → bytes ++ flatten cs ≡ encode seq full last ++ kept
      → Taken limit bytes reads (record {
        result =
            ok (some (last_seq seq full, record { bytes = flatten full ++ last; first_seq = seq }));
        bytes = kept;
        reads = later;
      })
  ended :
      {later : List ReadEvent}
      → Taken limit bytes reads (record { result = ok none; bytes = []; reads = later })
  broken_off :
      {e : IoError} {kept : Bytes} {later : List ReadEvent}
      → Taken limit bytes reads (record { result = err e; bytes = kept; reads = later })

at_end-Taken :
    (limit : ℕ) (bytes kept : Bytes) (reads later : List ReadEvent)
    → Taken limit bytes reads (at_end kept later)
unfolding at_end
at_end-Taken limit bytes [] reads later = ended
at_end-Taken limit bytes (b ∷ kept) reads later = broken_off

settle-Taken :
    (limit : ℕ) (bytes : Bytes) (reads : List ReadEvent) (a : Attempt) (more : NextOutcome)
    → Found limit bytes a
    → Taken limit bytes reads more
    → Taken limit bytes reads (settle a bytes reads more)
settle-Taken limit bytes reads _ more (found_packet full last rest seq p fits e) m =
    taken full last rest seq [] reads p fits refl (append-nil bytes ∙ e)
settle-Taken limit bytes reads _ more found_error m = broken_off
settle-Taken limit bytes reads _ more found_nothing m = m

-- One more piece that was read.
read-Taken :
    (limit : ℕ) (bytes c : Bytes) (reads : List ReadEvent) (r : NextOutcome)
    → Taken limit (bytes ++ c) reads r
    → Taken limit bytes (chunk c ∷ reads) r
read-Taken limit bytes c reads _ (taken full last kept seq cs later p fits e e') =
    taken full last kept seq (c ∷ cs) later p fits (ap (λ t. chunk c ∷ t) e)
      (sym (append_assoc bytes c (flatten cs)) ∙ e')
read-Taken limit bytes c reads _ ended = ended
read-Taken limit bytes c reads _ broken_off = broken_off

module _ (nom : Nom) (limit : ℕ) (hl : limit < 2 ^ 64) where
  over_limit :
      (full : List Bytes) (last rest : Bytes) (seq : ℕ)
      → IsPacket full last
      → limit < length (flatten full ++ last)
      → ensure_packet_limit limit (encode seq full last ++ rest) ≡ ok tt
      → ⊥
  over_limit full last rest seq p over checked =
      let i = encode seq full last ++ rest in
      let rejected =
        ensure_packet_limit-lt full last rest limit (length i) seq hl p (omega arith) over
          (omega (arith, length-append (encode seq full last) rest)) in
      let whole : take (length i) i ≡ i = take_all (length i) i (omega arith) in cc

  -- The check of the limit has let the bytes pass.
  from_packet-Found :
      (bytes : Bytes) (r : IResult (ℕ × Packet))
      → ensure_packet_limit limit bytes ≡ ok tt
      → Decoded bytes [] none none r
      → Found limit bytes (from_packet r)
  unfolding from_packet
  from_packet-Found bytes _ checked (decoded full last rest seq p e b) =
      elim (Bool-cases (ltb limit (length (flatten full ++ last)))) [
        | inl over ↦ absurd (
            over_limit full last rest seq p (ltb→lt _ _ over)
              (ap (ensure_packet_limit limit) (sym e) ∙ checked))
        | inr within ↦ found_packet full last rest seq p (ltb→le _ _ within) e
      ]
  from_packet-Found bytes (err incomplete) checked refused = found_nothing
  from_packet-Found bytes (err error) checked refused = found_nothing
  from_packet-Found bytes (err failure) checked refused = found_error
  from_packet-Found bytes (err panicked) checked refused = found_error
  from_packet-Found bytes (err out_of_fuel) checked refused = found_error

  attempt-Found : (bytes : Bytes) → All IsByte bytes → Found limit bytes (attempt nom limit bytes)
  unfolding attempt
  attempt-Found [] h = found_nothing
  attempt-Found (b ∷ bs) h = elim (Result-cases (ensure_packet_limit limit (b ∷ bs))) [
    | inl (u, checked) ↦
        rw (checked, attempt)
          (from_packet-Found (b ∷ bs) (packet nom (b ∷ bs)) checked (packet-Decoded nom (b ∷ bs) h))
    | inr (e, rejected) ↦ rw (rejected, attempt) found_error
  ]

  -- Where all that was kept and read are bytes, and a limit, if there is one, is below 2 ^ 64: whatever
  -- else the stream gives, a packet that `next` returns is within the limit, and is the packet whose frames are at the start of the bytes that the reader had and of the pieces that it read,
  -- with what is behind them kept; `next` returns `None` only with nothing kept.
  pub next-Taken :
      (bytes : Bytes) (reads : List ReadEvent)
      → All IsByte bytes
      → All GivesBytes reads
      → Taken limit bytes reads (next nom limit bytes reads)
  unfolding next
  next-Taken bytes [] h g =
      settle-Taken limit bytes [] _ _ (attempt-Found bytes h) (at_end-Taken limit bytes bytes [] [])
  next-Taken bytes (failed e ∷ reads) h g =
      settle-Taken limit bytes (failed e ∷ reads) _ _ (attempt-Found bytes h) broken_off
  next-Taken bytes (chunk [] ∷ reads) h g =
      settle-Taken limit bytes (chunk [] ∷ reads) _ _ (attempt-Found bytes h)
        (at_end-Taken limit bytes bytes (chunk [] ∷ reads) reads)
  next-Taken bytes (chunk (c ∷ cs) ∷ reads) h g =
      settle-Taken limit bytes (chunk (c ∷ cs) ∷ reads) _ _ (attempt-Found bytes h) (
        read-Taken limit bytes (c ∷ cs) reads _
          (next-Taken (bytes ++ (c ∷ cs)) reads (All-append bytes (c ∷ cs) h g.0) g.1))
