-- ===== src/Writer/Chunk.antt =====
-- mysql/src/packet_writer.rs: the loop of `write_chunk`.
use opensrv.Common.{
  ℕ, zero, suc, ◌+◌, ◌-◌, ◌≤◌, ◌<◌, ◌≡◌, refl, sym, ap, ◌∙◌, ◌++◌, Bytes, length, length-append,
  length-drop, take, drop, append-nil, arith, true, false, ltb, ltb→lt, ltb→le, ◌||◌, ◌==◌,
  if◌then◌else◌, ok, err, inl, inr, Bool-cases, Option, min, ==→eq,
}
use opensrv.Wire.{write_zero, transport}
use opensrv.Io.{fail}
use opensrv.Writer.{
  Output, Peer, accepts, refuses, stalls, WriteEvent, write_vectored, write_loop, waited_out,
}
use opensrv.Writer.Offsets.{
  left, AreOffsets, Caused, took_nothing, refused, stalled, Sent, all_sent, cut_off, offered,
  left_step, left_jump, nil_of_length, ne-zero, Sent-after, take-min,
}

module _ (peer : Peer) (timeout : Option ℕ) (header chunk : Bytes) where
  -- What `write_vectored` gives, by the answer of the stream.
  vectored_accepts :
      (n : ℕ) (slices : Bytes) (out : Output)
      → peer.on_write out.calls ≡ accepts n
      → write_vectored peer timeout slices out ≡ (
        ok (min n (length slices)),
        record out { written = out.written ++ take n slices; calls = out.calls + 1 },
      )
  unfolding write_vectored
  vectored_accepts n slices out e = rw (e, write_vectored)

  vectored_refuses :
      (n : ℕ) (slices : Bytes) (out : Output)
      → peer.on_write out.calls ≡ refuses n
      → write_vectored peer timeout slices out
        ≡ (err (transport n), record out { calls = out.calls + 1 })
  unfolding write_vectored
  vectored_refuses n slices out e = rw (e, write_vectored)

  vectored_stalls :
      (slices : Bytes) (out : Output)
      → peer.on_write out.calls ≡ stalls
      → write_vectored peer timeout slices out
        ≡ (err (waited_out timeout), record out { calls = out.calls + 1 })
  unfolding write_vectored
  vectored_stalls slices out e = rw (e, write_vectored)

  busy_left :
      (ho co : ℕ)
      → (ltb ho (length header) || ltb co (length chunk)) ≡ true
      → 0 < length (left header chunk ho co)
  busy_left ho co busy = ground (
    arith,
    length-append (drop ho header) (drop co chunk),
    length-drop ho header,
    length-drop co chunk,
  )

  left_smaller :
      (ho co ho' co' m : ℕ)
      → left header chunk ho' co' ≡ drop m (left header chunk ho co)
      → 0 < m
      → m ≤ length (left header chunk ho co)
      → length (left header chunk ho' co') < length (left header chunk ho co)
  left_smaller ho co ho' co' m e h hm =
      omega (arith, ap length e, length-drop m (left header chunk ho co))

  -- A round that took `m` bytes, by what the loop does next.
  took :
      (m fuel ho co : ℕ) (out out' : Output)
      → AreOffsets header chunk ho co
      → 0 < length (left header chunk ho co)
      → m ≤ length (left header chunk ho co)
      → out'.written ≡ out.written ++ take m (left header chunk ho co)
      → out'.flushes ≡ out.flushes
      → (m ≡ 0 → Caused peer timeout write_zero)
      → ((ho' co' : ℕ) (out' : Output)
          → AreOffsets header chunk ho' co'
          → length (left header chunk ho' co') < length (left header chunk ho co)
          → Sent peer timeout
              (left header chunk ho' co')
              out'
              (write_loop peer timeout header chunk fuel ho' co' out'))
      → Sent peer timeout (left header chunk ho co) out (
          (if m == 0
              then fail write_zero
              else if ltb m (length header - ho)
              then write_loop peer timeout header chunk fuel (ho + m) co
              else write_loop peer timeout header chunk fuel
                  (length header)
                  (co + (m - (length header - ho))))
            out')
  took m fuel ho co out out' o pos hm w f why rest = elim (Bool-cases (m == 0)) [
    | inl z ↦ rw z (
        cut_off write_zero 0 out' (why (==→eq m 0 z)) pos
          (w ∙ ap (λ k. out.written ++ take k (left header chunk ho co)) (==→eq m 0 z)) f)
    | inr nz ↦ elim (Bool-cases (ltb m (length header - ho))) [
      | inl lt ↦
          let step = left_step header chunk ho co m o (ltb→lt m _ lt) in
          let next : AreOffsets header chunk (ho + m) co = record {
            in_header = omega (arith, ltb→lt m (length header - ho) lt);
            header_first = λ h. o.header_first (omega arith);
          } in
          rw (nz, lt)
            (Sent-after m out' hm w f (
              rw step at (
                rest (ho + m) co out' next
                  (left_smaller ho co (ho + m) co m step (ne-zero m nz) hm))))
      | inr ge ↦
          let jump = left_jump header chunk ho co m o (ltb→le m _ ge) in
          let next : AreOffsets header chunk (length header) (co + (m - (length header - ho))) =
            record { in_header = omega arith; header_first = λ h. absurd (omega arith) } in
          rw (nz, ge)
            (Sent-after m out' hm w f
              (rw jump at (rest _ _ out' next (left_smaller ho co _ _ m jump (ne-zero m nz) hm))))
    ]
  ]

  round :
      (event : WriteEvent) (fuel ho co : ℕ) (out : Output)
      → peer.on_write out.calls ≡ event
      → (ltb ho (length header) || ltb co (length chunk)) ≡ true
      → AreOffsets header chunk ho co
      → ((ho' co' : ℕ) (out' : Output)
          → AreOffsets header chunk ho' co'
          → length (left header chunk ho' co') < length (left header chunk ho co)
          → Sent peer timeout
              (left header chunk ho' co')
              out'
              (write_loop peer timeout header chunk fuel ho' co' out'))
      → Sent peer timeout
          (left header chunk ho co)
          out
          (write_loop peer timeout header chunk (suc fuel) ho co out)
  unfolding write_loop
  round (accepts n) fuel ho co out e busy o rest =
      rw (busy, offered header chunk ho co, vectored_accepts n (left header chunk ho co) out e)
        (took (min n (length (left header chunk ho co))) fuel ho co out _ o (busy_left ho co busy)
          (omega arith) (ap (λ b. out.written ++ b) (take-min n (left header chunk ho co))) refl
          (λ z. took_nothing out.calls (e ∙ ap accepts (omega (arith, busy_left ho co busy)))) rest)
  round (refuses n) fuel ho co out e busy o rest =
      rw (busy, offered header chunk ho co, vectored_refuses n (left header chunk ho co) out e)
        (cut_off (transport n) 0 _ (refused out.calls n e) (busy_left ho co busy)
          (sym (append-nil out.written)) refl)
  round stalls fuel ho co out e busy o rest =
      rw (busy, offered header chunk ho co, vectored_stalls (left header chunk ho co) out e)
        (cut_off (waited_out timeout) 0 _ (stalled out.calls e) (busy_left ho co busy)
          (sym (append-nil out.written)) refl)

  idle_left :
      (ho co : ℕ)
      → (ltb ho (length header) || ltb co (length chunk)) ≡ false
      → length (left header chunk ho co) ≡ 0
  idle_left ho co idle = ground (
    arith,
    length-append (drop ho header) (drop co chunk),
    length-drop ho header,
    length-drop co chunk,
  )

  stop :
      (fuel ho co : ℕ) (out : Output)
      → (ltb ho (length header) || ltb co (length chunk)) ≡ false
      → length (left header chunk ho co) ≡ 0
      → Sent peer timeout
          (left header chunk ho co)
          out
          (write_loop peer timeout header chunk (suc fuel) ho co out)
  unfolding write_loop
  stop fuel ho co out idle h = rw idle (
      all_sent out (sym (ap (λ b. out.written ++ b) (nil_of_length _ h) ∙ append-nil out.written))
        refl)

  write_loop-Sent :
      (fuel ho co : ℕ) (out : Output)
      → AreOffsets header chunk ho co
      → length (left header chunk ho co) < fuel
      → Sent peer timeout
          (left header chunk ho co)
          out
          (write_loop peer timeout header chunk fuel ho co out)
  write_loop-Sent zero ho co out o h = absurd (omega arith)
  write_loop-Sent (suc fuel) ho co out o h =
      elim (Bool-cases (ltb ho (length header) || ltb co (length chunk))) [
        | inl busy ↦
            round (peer.on_write out.calls) fuel ho co out refl busy o
              (λ ho' co' out' o' lt. write_loop-Sent fuel ho' co' out' o' (omega arith))
        | inr idle ↦ stop fuel ho co out idle (idle_left ho co idle)
      ]

  -- The loop writes the header and the chunk, or stops at an error with a proper prefix written;
  -- its fuel is enough.
  pub write_loop_whole :
      (out : Output)
      → Sent peer timeout
          (header ++ chunk)
          out
          (write_loop peer timeout header chunk (suc (length header + length chunk)) 0 0 out)
  write_loop_whole out =
      write_loop-Sent (suc (length header + length chunk)) 0 0 out
        (record { in_header = omega arith; header_first = λ h. refl })
        (omega (arith, length-append header chunk))
