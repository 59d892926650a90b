-- ===== src/Reader/Stream.antt =====
-- packet_reader.rs: `next` over a stream that delivers its bytes in pieces of any size.
use opensrv.Common.{
  ℕ, ◌-◌, ◌^◌, ◌≤◌, ◌<◌, ◌≡◌, ◌≢◌, refl, sym, ap, ◌∙◌, List, [], ◌∷◌, ◌++◌, map, Bytes, length,
  length-append, take, flatten, All, take-append_le, take-append_ge, take-length-append,
  append_assoc, append_cancel, arith, ltb, ltb→lt, ltb→le, ok, err, inl, inr, Bool-cases, some,
  append-nil,
}
use opensrv.Deps.Nom.{Nom}
use opensrv.Wire.{unexpected_eof, transport}
use opensrv.Wire.Frame.{encode, last_seq, IsPacket}
use opensrv.Reader.{
  Packet, packet, ensure_packet_limit, ReadEvent, chunk, failed, at_end, found, need_more,
  from_packet, attempt, next,
}
use opensrv.Reader.Assemble.{packet-encode}
use opensrv.Reader.Prefix.{packet-prefix, WaitsFor}
use opensrv.Reader.Limit.{last-le-encode, ensure_packet_limit-le}

-- Every read gives some bytes.
abbrev pub AreReads : List Bytes → Type 0
AreReads = All (λ c. c ≢ [])

length_pos : (bytes : Bytes) → bytes ≢ [] → 0 < length bytes
length_pos [] h = absurd (h refl)
length_pos (b ∷ bs) h = omega arith

at_end_ne :
    (bytes : Bytes) (reads : List ReadEvent)
    → bytes ≢ []
    → at_end bytes reads ≡ record { result = err unexpected_eof; bytes = bytes; reads = reads }
unfolding at_end
at_end_ne [] reads h = absurd (h refl)
at_end_ne (b ∷ bs) reads h = refl

module _ (nom : Nom) (limit : ℕ) where
  pub next_found :
      (bytes : Bytes) (reads : List ReadEvent) (kept : Bytes) (packet : ℕ × Packet)
      → attempt nom limit bytes ≡ found kept packet
      → next nom limit bytes reads
        ≡ record { result = ok (some packet); bytes = kept; reads = reads }
  unfolding next
  next_found bytes [] kept packet h = rw (h, next)
  next_found bytes (failed e ∷ reads) kept packet h = rw (h, next)
  next_found bytes (chunk [] ∷ reads) kept packet h = rw (h, next)
  next_found bytes (chunk (c ∷ cs) ∷ reads) kept packet h = rw (h, next)

  next_waits :
      (bytes : Bytes) (c : ℕ) (cs : Bytes) (reads : List ReadEvent)
      → attempt nom limit bytes ≡ need_more
      → next nom limit bytes (chunk (c ∷ cs) ∷ reads) ≡ next nom limit (bytes ++ (c ∷ cs)) reads
  unfolding next
  next_waits bytes c cs reads h = rw (h, next)

module _ (nom : Nom) (limit : ℕ) (full : List Bytes) (last rest : Bytes) (seq : ℕ)
    (hl : limit < 2 ^ 64) (p : IsPacket full last)
    (fits : length (flatten full ++ last) ≤ limit) where
  attempt_ok :
      (bytes : Bytes)
      → ensure_packet_limit limit bytes ≡ ok tt
      → bytes ≢ []
      → attempt nom limit bytes ≡ from_packet (packet nom bytes)
  unfolding attempt
  attempt_ok [] h n = absurd (n refl)
  attempt_ok (b ∷ bs) h n = rw (h, attempt)

  -- The part `bytes` of the packet and of what follows is `take` of its own length.
  part_of :
      (bytes more : Bytes)
      → bytes ++ more ≡ encode seq full last ++ rest
      → bytes ≡ take (length bytes) (encode seq full last ++ rest)
  part_of bytes more e = sym (take-length-append bytes more) ∙ ap (take (length bytes)) e

  part-le :
      (bytes more : Bytes)
      → bytes ++ more ≡ encode seq full last ++ rest
      → length bytes ≤ length (encode seq full last ++ rest)
  part-le bytes more e = omega (arith, length-append bytes more, ap length e)

  within_limit :
      (bytes more : Bytes)
      → bytes ++ more ≡ encode seq full last ++ rest
      → ensure_packet_limit limit bytes ≡ ok tt
  within_limit bytes more e =
      ap (ensure_packet_limit limit) (part_of bytes more e)
      ∙ ensure_packet_limit-le full last rest limit (length bytes) seq hl p (part-le bytes more e)
          fits

  from_waits :
      (bytes : Bytes) → WaitsFor (packet nom bytes) → from_packet (packet nom bytes) ≡ need_more
  unfolding from_packet
  from_waits bytes (inl e) = rw e
  from_waits bytes (inr e) = rw e

  attempt_waits :
      (bytes more : Bytes)
      → bytes ++ more ≡ encode seq full last ++ rest
      → length bytes < length (encode seq full last)
      → attempt nom limit bytes ≡ need_more
  attempt_waits [] more e h = unfold attempt in refl
  attempt_waits (b ∷ bs) more e h =
      attempt_ok (b ∷ bs) (within_limit (b ∷ bs) more e) (λ n. cc n)
      ∙ from_waits (b ∷ bs) (
          rw
            (part_of (b ∷ bs) more e
              ∙ take-append_le (length (b ∷ bs)) (encode seq full last) rest (omega arith))
            (packet-prefix nom full last (length (b ∷ bs)) seq p (omega arith) h))

  abbrev the_packet : ℕ × Packet
  the_packet = (last_seq seq full, record { bytes = flatten full ++ last; first_seq = seq })

  packet_long : 4 ≤ length (encode seq full last)
  packet_long = omega (arith, last-le-encode seq full last)

  all_here :
      (bytes : Bytes)
      → bytes ++ [] ≡ encode seq full last ++ rest
      → length (encode seq full last) ≤ length bytes
  all_here bytes e =
      omega (arith, ap length e, length-append bytes [], length-append (encode seq full last) rest)

  -- Once the packet has arrived in full, the bytes that follow it are kept.
  attempt_finds :
      (bytes more : Bytes)
      → bytes ++ more ≡ encode seq full last ++ rest
      → length (encode seq full last) ≤ length bytes
      → (kept : Bytes) × (attempt nom limit bytes ≡ found kept the_packet) × (kept ++ more ≡ rest)
  attempt_finds bytes more e h =
      let packet_bytes = encode seq full last in
      let kept = take (length bytes - length packet_bytes) rest in
      let split : bytes ≡ packet_bytes ++ kept =
        part_of bytes more e ∙ take-append_ge (length bytes) packet_bytes rest h in
      let nonempty : bytes ≢ [] = λ n. absurd (omega (arith, ap length n, packet_long)) in
      (
        kept,
        attempt_ok bytes (within_limit bytes more e) nonempty
            ∙ ap (λ b. from_packet (packet nom b)) split
            ∙ (unfold from_packet in rw (packet-encode nom full last kept seq p (omega arith))),
        append_cancel packet_bytes (kept ++ more) rest
            (sym (append_assoc packet_bytes kept more) ∙ ap (λ b. b ++ more) (sym split) ∙ e),
      )

  -- However the stream cuts the bytes of a packet within the limit, and whatever reads follow, `next`
  -- returns that packet, and no byte that follows it is lost.
  pub next-encode :
      (cs : List Bytes) (bytes : Bytes) (later : List ReadEvent)
      → AreReads cs
      → bytes ++ flatten cs ≡ encode seq full last ++ rest
      → (kept : Bytes) × (unread : List Bytes) × (next nom limit bytes (map chunk cs ++ later)
          ≡ record {
            result = ok (some the_packet);
            bytes = kept;
            reads = map chunk unread ++ later;
          })
        × (kept ++ flatten unread ≡ rest)
  next-encode [] bytes later hc e =
      let (kept, hit, left) = attempt_finds bytes [] e (all_here bytes e) in
      (kept, [], next_found nom limit bytes later kept the_packet hit, left)
  next-encode ([] ∷ cs) bytes later (hc, hcs) e = absurd (hc refl)
  next-encode ((c ∷ c') ∷ cs) bytes later (hc, hcs) e =
      elim (Bool-cases (ltb (length bytes) (length (encode seq full last)))) [
        | inl wait ↦
            let short = ltb→lt (length bytes) (length (encode seq full last)) wait in
            let (kept, unread, hit, left) =
              next-encode cs (bytes ++ (c ∷ c')) later hcs
                (append_assoc bytes (c ∷ c') (flatten cs) ∙ e) in
            (
              kept,
              unread,
              next_waits nom limit bytes c c' (map chunk cs ++ later)
                    (attempt_waits bytes _ e short)
                  ∙ hit,
              left,
            )
        | inr here ↦
            let enough = ltb→le (length bytes) (length (encode seq full last)) here in
            let (kept, hit, left) = attempt_finds bytes _ e enough in
            (
              kept,
              (c ∷ c') ∷ cs,
              next_found nom limit bytes (chunk (c ∷ c') ∷ (map chunk cs ++ later)) kept the_packet
                  hit,
              left,
            )
      ]

module _ (nom : Nom) (limit : ℕ) (full : List Bytes) (last missing : Bytes) (seq : ℕ)
    (hl : limit < 2 ^ 64) (p : IsPacket full last) (fits : length (flatten full ++ last) ≤ limit)
    (cut : missing ≢ []) where
  is_short :
      (bytes more : Bytes)
      → bytes ++ (more ++ missing) ≡ encode seq full last
      → length bytes < length (encode seq full last)
  is_short bytes more e = omega (
    arith,
    ap length e,
    length-append bytes (more ++ missing),
    length-append more missing,
    length_pos missing cut,
  )

  part_waits :
      (bytes more : Bytes)
      → bytes ++ (more ++ missing) ≡ encode seq full last
      → attempt nom limit bytes ≡ need_more
  part_waits bytes more e =
      attempt_waits nom limit full last [] seq hl p fits bytes (more ++ missing)
        (e ∙ sym (append-nil (encode seq full last))) (is_short bytes more e)

  -- While bytes are missing, `next` reads on and keeps what it has.
  reads_on :
      (cs : List Bytes) (bytes : Bytes) (later : List ReadEvent)
      → AreReads cs
      → bytes ++ (flatten cs ++ missing) ≡ encode seq full last
      → next nom limit bytes (map chunk cs ++ later) ≡ next nom limit (bytes ++ flatten cs) later
  reads_on [] bytes later hc e = ap (λ b. next nom limit b later) (sym (append-nil bytes))
  reads_on ([] ∷ cs) bytes later (hc, hcs) e = absurd (hc refl)
  reads_on ((c ∷ c') ∷ cs) bytes later (hc, hcs) e =
      let regrouped : (bytes ++ (c ∷ c')) ++ (flatten cs ++ missing) ≡ encode seq full last =
        append_assoc bytes (c ∷ c') (flatten cs ++ missing)
        ∙ ap (λ b. bytes ++ b) (sym (append_assoc (c ∷ c') (flatten cs) missing))
        ∙ e in
      next_waits nom limit bytes c c' (map chunk cs ++ later)
        (part_waits bytes ((c ∷ c') ++ flatten cs) e)
      ∙ reads_on cs (bytes ++ (c ∷ c')) later hcs regrouped
      ∙ ap (λ b. next nom limit b later) (append_assoc bytes (c ∷ c') (flatten cs))

  -- A stream that ends inside a packet within the limit, in pieces of any size, gives `UnexpectedEof` and the bytes stay;
  -- a stream that fails there gives its own error.
  pub next-truncated :
      (cs : List Bytes) (bytes : Bytes) (e : ℕ) (later : List ReadEvent)
      → AreReads cs
      → bytes ++ (flatten cs ++ missing) ≡ encode seq full last
      → bytes ++ flatten cs ≢ []
      → (next nom limit bytes (map chunk cs)
          ≡ record { result = err unexpected_eof; bytes = bytes ++ flatten cs; reads = [] })
        × (next nom limit bytes (map chunk cs ++ (failed e ∷ later))
            ≡ record { result = err (transport e); bytes = []; reads = later })
  unfolding next
  next-truncated cs bytes e later hc eq ne =
      let waits =
        part_waits (bytes ++ flatten cs) [] (append_assoc bytes (flatten cs) missing ∙ eq) in
      (
        ap (next nom limit bytes) (sym (append-nil (map chunk cs)))
            ∙ reads_on cs bytes [] hc eq
            ∙ rw (waits, next) (at_end_ne (bytes ++ flatten cs) [] ne),
        reads_on cs bytes (failed e ∷ later) hc eq ∙ rw (waits, next),
      )
