-- ===== src/Reader/Frames.antt =====
-- packet_reader.rs: the parsers on one frame.
use opensrv.Common.{
  ℕ, suc, ◌+◌, ◌*◌, ◌/◌, ◌%◌, ◌^◌, ◌<◌, ◌≡◌, refl, ap, ◌∙◌, [], ◌∷◌, ◌++◌, Bytes, IsByte, length,
  length-append, drop, take-length-append, drop-length-append, arith, ok,
}
use opensrv.Common.Bits.{bit_or-shift}
use opensrv.Deps.Nom.{Nom}
use opensrv.Wire.Frame.{u24_bytes, frame, IsFull}
use opensrv.Reader.{frame_len, onepacket, fullpacket, first_byte}

pub frame_len_lem :
    (b0 b1 b2 : ℕ) → IsByte b0 → IsByte b1 → frame_len b0 b1 b2 ≡ b0 + b1 * 2 ^ 8 + b2 * 2 ^ 16
unfolding frame_len
frame_len_lem b0 b1 b2 h0 h1 =
    rw (bit_or-shift 8 b0 b1 (omega arith)) (bit_or-shift 16 (b0 + b1 * 2 ^ 8) b2 (omega arith))

-- The length that `u24_bytes` writes is the length that is read.
pub frame_len-u24 :
    (n : ℕ) → n < 2 ^ 24 → frame_len (n % 2 ^ 8) (n / 2 ^ 8 % 2 ^ 8) (n / 2 ^ 16 % 2 ^ 8) ≡ n
frame_len-u24 n h = omega (
  arith,
  frame_len_lem (n % 2 ^ 8) (n / 2 ^ 8 % 2 ^ 8) (n / 2 ^ 16 % 2 ^ 8) (omega arith) (omega arith),
)

u24_value :
    (n : ℕ) → n < 2 ^ 24 → n % 2 ^ 8 + n / 2 ^ 8 % 2 ^ 8 * 2 ^ 8 + n / 2 ^ 16 % 2 ^ 8 * 2 ^ 16 ≡ n
u24_value n h = omega arith

pub drop-header :
    (n b0 b1 b2 b3 : ℕ) (tail : Bytes) → drop (4 + n) (b0 ∷ b1 ∷ b2 ∷ b3 ∷ tail) ≡ drop n tail
drop-header n b0 b1 b2 b3 tail =
    let e : 4 + n ≡ suc (suc (suc (suc n))) = omega arith in
    ap (λ k. drop k (b0 ∷ b1 ∷ b2 ∷ b3 ∷ tail)) e

module _ (nom : Nom) where
  take_exact : (xs ys : Bytes) → nom.take_bytes (length xs) (xs ++ ys) ≡ ok (ys, xs)
  take_exact xs ys = rw (
    nom.take_enough (length xs) (xs ++ ys) (omega (arith, length-append xs ys)),
    take-length-append,
    drop-length-append,
  )

  take_one : (b : ℕ) (rest : Bytes) → nom.take_bytes 1 (b ∷ rest) ≡ ok (rest, b ∷ [])
  take_one b rest = take_exact (b ∷ []) rest

  pub le_u24-bytes :
      (n : ℕ) (rest : Bytes) → n < 2 ^ 24 → nom.le_u24 (u24_bytes n ++ rest) ≡ ok (rest, n)
  le_u24-bytes n rest h =
      nom.le_u24_enough (n % 2 ^ 8) (n / 2 ^ 8 % 2 ^ 8) (n / 2 ^ 16 % 2 ^ 8) rest
      ∙ ap (λ k. ok (rest, k)) (u24_value n h)

  full_tag :
      (rest : Bytes)
      → nom.tag (0xff ∷ 0xff ∷ 0xff ∷ []) (0xff ∷ 0xff ∷ 0xff ∷ rest)
        ≡ ok (rest, 0xff ∷ 0xff ∷ 0xff ∷ [])
  full_tag rest = nom.tag_match (0xff ∷ 0xff ∷ 0xff ∷ []) rest

  -- `onepacket` reads back a frame of any length that three bytes hold.
  pub onepacket-frame :
      (seq : ℕ) (payload rest : Bytes)
      → length payload < 2 ^ 24
      → onepacket nom (frame seq payload ++ rest) ≡ ok (rest, (seq, payload))
  unfolding onepacket first_byte
  onepacket-frame seq payload rest h =
      rw (le_u24-bytes (length payload) (seq ∷ (payload ++ rest)) h, onepacket)
        (rw (take_one seq (payload ++ rest)) (rw (take_exact payload rest) refl))

  pub fullpacket-frame :
      (seq : ℕ) (payload rest : Bytes)
      → IsFull payload
      → fullpacket nom (frame seq payload ++ rest) ≡ ok (rest, (seq, payload))
  unfolding fullpacket first_byte
  fullpacket-frame seq payload rest h =
      rw (h, full_tag (seq ∷ (payload ++ rest)), fullpacket)
        (rw (take_one seq (payload ++ rest)) (rw (← h) (rw (take_exact payload rest) refl)))
