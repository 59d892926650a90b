-- ===== src/Reader/Framed.antt =====
-- mysql/src/packet_reader.rs: what a parser of one frame accepts is a frame.
use opensrv.Common.{
  ℕ, zero, suc, ◌+◌, ◌*◌, ◌%◌, ◌/◌, ◌^◌, ◌≤◌, ◌≡◌, refl, sym, ap, ◌∙◌, [], ◌∷◌, ◌++◌, Bytes, IsByte,
  length, length-take, take, drop, take-append-drop, All, arith, leb, ◌==◌, if◌then◌else◌, ==→eq,
  leb→le, Bool-cases, inl, inr, ok, err, ◌>>=◌,
}
use opensrv.Deps.Nom.{Nom, NomErr, IResult}
use opensrv.Wire.{u24_max}
use opensrv.Wire.Frame.{u24_bytes, frame}
use opensrv.Reader.{frame_len, first_byte, onepacket, fullpacket}
use opensrv.Reader.Frames.{frame_len_lem}

-- Three bytes are the length that they make.
u24_bytes_of :
    (b0 b1 b2 : ℕ)
    → IsByte b0
    → IsByte b1
    → IsByte b2
    → u24_bytes (b0 + b1 * 2 ^ 8 + b2 * 2 ^ 16) ≡ b0 ∷ b1 ∷ b2 ∷ []
u24_bytes_of b0 b1 b2 h0 h1 h2 =
    let low : (b0 + b1 * 2 ^ 8 + b2 * 2 ^ 16) % 2 ^ 8 ≡ b0 = omega arith in
    let mid : (b0 + b1 * 2 ^ 8 + b2 * 2 ^ 16) / 2 ^ 8 % 2 ^ 8 ≡ b1 = omega arith in
    let high : (b0 + b1 * 2 ^ 8 + b2 * 2 ^ 16) / 2 ^ 16 % 2 ^ 8 ≡ b2 = omega arith in
    rw (low, mid, high)

-- A parse of one frame of a length: the input is that frame and what is left, or it is no frame.
pub data Framed (len : ℕ) (i : Bytes) : IResult (ℕ × Bytes) → Type 0 where
  framed :
      (seq : ℕ) (payload rest : Bytes)
      → i ≡ frame seq payload ++ rest
      → length payload ≡ len
      → All IsByte rest
      → Framed len i (ok (rest, (seq, payload)))
  unframed : {e : NomErr} → Framed len i (err e)

All-drop : (n : ℕ) (xs : Bytes) → All IsByte xs → All IsByte (drop n xs)
All-drop zero xs h = h
All-drop (suc n) [] h = tt
All-drop (suc n) (x ∷ xs) h = All-drop n xs h.1

frame_cut :
    (b0 b1 b2 seq len : ℕ) (tail : Bytes)
    → IsByte b0
    → IsByte b1
    → IsByte b2
    → len ≡ b0 + b1 * 2 ^ 8 + b2 * 2 ^ 16
    → len ≤ length tail
    → b0 ∷ b1 ∷ b2 ∷ seq ∷ tail ≡ frame seq (take len tail) ++ drop len tail
frame_cut b0 b1 b2 seq len tail h0 h1 h2 e fits =
    let size : length (take len tail) ≡ b0 + b1 * 2 ^ 8 + b2 * 2 ^ 16 =
      omega (arith, length-take len tail) in
    let header : u24_bytes (length (take len tail)) ≡ b0 ∷ b1 ∷ b2 ∷ [] =
      ap u24_bytes size ∙ u24_bytes_of b0 b1 b2 h0 h1 h2 in
    sym (
      ap (λ (h : Bytes). (h ++ (seq ∷ take len tail)) ++ drop len tail) header
      ∙ ap (λ (t : Bytes). b0 ∷ b1 ∷ b2 ∷ seq ∷ t) (take-append-drop len tail))

pub frame_len-le : (b0 b1 b2 : ℕ) → IsByte b0 → IsByte b1 → IsByte b2 → frame_len b0 b1 b2 ≤ u24_max
frame_len-le b0 b1 b2 h0 h1 h2 = omega (arith, frame_len_lem b0 b1 b2 h0 h1)

module _ (nom : Nom) where
  -- What both parsers do behind the length.
  body-Framed :
      (b0 b1 b2 len : ℕ) (tail : Bytes)
      → IsByte b0
      → IsByte b1
      → IsByte b2
      → All IsByte tail
      → len ≡ b0 + b1 * 2 ^ 8 + b2 * 2 ^ 16
      → Framed len (b0 ∷ b1 ∷ b2 ∷ tail) (
          nom.take_bytes 1 tail >>= λ (i, seq).
          nom.take_bytes len i >>= λ (i, bytes). first_byte seq >>= λ seq. ok (i, (seq, bytes)))
  unfolding first_byte
  body-Framed b0 b1 b2 len [] h0 h1 h2 h e = rw (nom.take_short 1 [] (omega arith)) unframed
  body-Framed b0 b1 b2 len (seq ∷ tail) h0 h1 h2 h e =
      rw (nom.take_enough 1 (seq ∷ tail) (omega arith)) (elim (Bool-cases (leb len (length tail))) [
        | inl fits ↦ rw (nom.take_enough len tail (leb→le _ _ fits)) (
            framed seq (take len tail) (drop len tail)
              (frame_cut b0 b1 b2 seq len tail h0 h1 h2 e (leb→le _ _ fits))
              (omega (arith, length-take len tail, leb→le len (length tail) fits))
              (All-drop len tail h.1))
        | inr short ↦ rw (nom.take_short len tail (ground arith)) unframed
      ])

  pub onepacket-Framed :
      (b0 b1 b2 : ℕ) (tail : Bytes)
      → All IsByte (b0 ∷ b1 ∷ b2 ∷ tail)
      → Framed (frame_len b0 b1 b2) (b0 ∷ b1 ∷ b2 ∷ tail) (onepacket nom (b0 ∷ b1 ∷ b2 ∷ tail))
  unfolding onepacket
  onepacket-Framed b0 b1 b2 tail (h0, (h1, (h2, h))) =
      rw (nom.le_u24_enough b0 b1 b2 tail, frame_len_lem b0 b1 b2 h0 h1)
        (body-Framed b0 b1 b2 (b0 + b1 * 2 ^ 8 + b2 * 2 ^ 16) tail h0 h1 h2 h refl)

  fullpacket-Framed :
      (b0 b1 b2 : ℕ) (tail : Bytes)
      → All IsByte (b0 ∷ b1 ∷ b2 ∷ tail)
      → frame_len b0 b1 b2 ≡ u24_max
      → Framed u24_max (b0 ∷ b1 ∷ b2 ∷ tail) (fullpacket nom (b0 ∷ b1 ∷ b2 ∷ tail))
  unfolding fullpacket
  fullpacket-Framed b0 b1 b2 tail (h0, (h1, (h2, h))) e =
      let whole = frame_len_lem b0 b1 b2 h0 h1 in
      let e0 : b0 ≡ 0xff = omega (arith, whole) in
      let e1 : b1 ≡ 0xff = omega (arith, whole) in
      let e2 : b2 ≡ 0xff = omega (arith, whole) in
      rw (e0, e1, e2)
        (rw (nom.tag_match (0xff ∷ 0xff ∷ 0xff ∷ []) tail) (
          body-Framed 0xff 0xff 0xff u24_max tail (omega arith) (omega arith) (omega arith) h refl))

  pub frame-Framed :
      (b0 b1 b2 : ℕ) (tail : Bytes)
      → All IsByte (b0 ∷ b1 ∷ b2 ∷ tail)
      → Framed (frame_len b0 b1 b2) (b0 ∷ b1 ∷ b2 ∷ tail) (
          if frame_len b0 b1 b2 == u24_max
          then fullpacket nom (b0 ∷ b1 ∷ b2 ∷ tail)
          else onepacket nom (b0 ∷ b1 ∷ b2 ∷ tail))
  frame-Framed b0 b1 b2 tail h = elim (Bool-cases (frame_len b0 b1 b2 == u24_max)) [
    | inl full ↦
        let e = ==→eq (frame_len b0 b1 b2) u24_max full in
        rw full (rw e (fullpacket-Framed b0 b1 b2 tail h e))
    | inr short ↦ rw short (onepacket-Framed b0 b1 b2 tail h)
  ]
