-- ===== src/Writer/Offsets.antt =====
-- mysql/src/packet_writer.rs: what is left of a header and a chunk, and what a stream has taken.
use opensrv.Common.{
  ℕ, ◌+◌, ◌-◌, ◌≤◌, ◌<◌, ◌≡◌, refl, sym, ap, ◌∙◌, [], ◌∷◌, ◌++◌, Bytes, length, length-drop, take,
  drop, take-add, take-append-drop, drop-append_le, drop-append_ge, drop-drop, drop_all, take_all,
  append_assoc, arith, false, ltb, ltb→lt, ltb→le, ◌==◌, if◌then◌else◌, ok, err, Result, inl, inr,
  Bool-cases, Option, min,
}
use opensrv.Wire.{IoError, write_zero, transport}
use opensrv.Writer.{Output, Peer, accepts, refuses, stalls, flush_fails, flush_stalls, waited_out}

-- What is left of a header and of a chunk at two offsets.
abbrev pub left : Bytes → Bytes → ℕ → ℕ → Bytes
left header chunk ho co = drop ho header ++ drop co chunk

-- The offsets that the loop goes through: the chunk is not begun before the header is out.
pub record AreOffsets (header chunk : Bytes) (ho co : ℕ) : Type 0 where
  pub in_header : ho ≤ length header
  pub header_first : ho < length header → co ≡ 0

-- Why a call may fail: the stream below did not take a byte, reported an error or did not answer.
pub data Caused (peer : Peer) (timeout : Option ℕ) : IoError → Type 0 where
  took_nothing : (call : ℕ) → peer.on_write call ≡ accepts 0 → Caused peer timeout write_zero
  refused : (call n : ℕ) → peer.on_write call ≡ refuses n → Caused peer timeout (transport n)
  stalled : (call : ℕ) → peer.on_write call ≡ stalls → Caused peer timeout (waited_out timeout)
  flush_refused :
      (call n : ℕ) → peer.on_flush call ≡ flush_fails n → Caused peer timeout (transport n)
  flush_stalled :
      (call : ℕ) → peer.on_flush call ≡ flush_stalls → Caused peer timeout (waited_out timeout)

-- What a loop that was offered `bytes` may have done: all are written, or an error came and a
-- proper prefix is written.
pub data Sent (peer : Peer) (timeout : Option ℕ) (bytes : Bytes) (out : Output)
    : Result IoError (Unit {0}) × Output → Type 0 where
  all_sent :
      (out' : Output)
      → out'.written ≡ out.written ++ bytes
      → out'.flushes ≡ out.flushes
      → Sent peer timeout bytes out (ok tt, out')
  cut_off :
      (e : IoError) (k : ℕ) (out' : Output)
      → Caused peer timeout e
      → k < length bytes
      → out'.written ≡ out.written ++ take k bytes
      → out'.flushes ≡ out.flushes
      → Sent peer timeout bytes out (err e, out')

-- The slices that are offered are what is left.
pub offered :
    (header chunk : Bytes) (ho co : ℕ)
    → (if ltb ho (length header) then drop ho header ++ drop co chunk else drop co chunk)
      ≡ left header chunk ho co
offered header chunk ho co = elim (Bool-cases (ltb ho (length header))) [
  | inl e ↦ rw e
  | inr e ↦ rw (e, drop_all ho header (ltb→le ho (length header) e))
]

-- One round moves the offsets on by what was taken.
pub left_step :
    (header chunk : Bytes) (ho co n : ℕ)
    → AreOffsets header chunk ho co
    → n < length header - ho
    → left header chunk (ho + n) co ≡ drop n (left header chunk ho co)
left_step header chunk ho co n o h =
    ap (λ d. d ++ drop co chunk) (sym (drop-drop ho n header))
    ∙ sym (drop-append_le n (drop ho header) (drop co chunk) (omega (arith, length-drop ho header)))

pub left_jump :
    (header chunk : Bytes) (ho co n : ℕ)
    → AreOffsets header chunk ho co
    → length header - ho ≤ n
    → left header chunk (length header) (co + (n - (length header - ho)))
      ≡ drop n (left header chunk ho co)
left_jump header chunk ho co n o h =
    ap (λ d. d ++ drop (co + (n - (length header - ho))) chunk)
      (drop_all (length header) header (omega arith))
    ∙ sym (drop-drop co (n - (length header - ho)) chunk)
    ∙ ap (λ k. drop (n - k) (drop co chunk)) (sym (length-drop ho header))
    ∙ sym (drop-append_ge n (drop ho header) (drop co chunk) (omega (arith, length-drop ho header)))

pub nil_of_length : (bytes : Bytes) → length bytes ≡ 0 → bytes ≡ []
nil_of_length [] h = refl
nil_of_length (b ∷ bs) h = absurd (omega arith)

pub ne-zero : (m : ℕ) → (m == 0) ≡ false → 0 < m
ne-zero m h = ground arith

-- What was taken before, and what the rest of the loop does.
pub Sent-after :
    {peer : Peer} {timeout : Option ℕ} {bytes : Bytes} {out : Output}
    {r : Result IoError (Unit {0}) × Output} (n : ℕ) (out' : Output)
    → n ≤ length bytes
    → out'.written ≡ out.written ++ take n bytes
    → out'.flushes ≡ out.flushes
    → Sent peer timeout (drop n bytes) out' r
    → Sent peer timeout bytes out r
Sent-after {bytes} {out} n out' h w f (all_sent out'' w' f') =
    all_sent out''
      (w'
        ∙ ap (λ b. b ++ drop n bytes) w
        ∙ append_assoc out.written (take n bytes) (drop n bytes)
        ∙ ap (λ b. out.written ++ b) (take-append-drop n bytes))
      (f' ∙ f)
Sent-after {bytes} {out} n out' h w f (cut_off e k out'' ne hk w' f') =
    cut_off e (n + k) out'' ne (omega (arith, length-drop n bytes))
      (w'
        ∙ ap (λ b. b ++ take k (drop n bytes)) w
        ∙ append_assoc out.written (take n bytes) (take k (drop n bytes))
        ∙ ap (λ b. out.written ++ b) (sym (take-add n k bytes)))
      (f' ∙ f)

pub take-min : (n : ℕ) (bytes : Bytes) → take n bytes ≡ take (min n (length bytes)) bytes
take-min n bytes = elim (Bool-cases (ltb n (length bytes))) [
  | inl e ↦ ap (λ k. take k bytes) (omega (arith, ltb→lt n (length bytes) e))
  | inr e ↦
      take_all n bytes (ltb→le n (length bytes) e)
      ∙ sym (take_all (min n (length bytes)) bytes (omega (arith, ltb→le n (length bytes) e)))
]
