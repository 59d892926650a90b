-- ===== src/Results/Rows/NullBits.antt =====
-- mysql/src/resultset.rs: the bits of the bitmap of a row, as a client reads them.
use opensrv.Common.{
  ℕ, zero, suc, ◌+◌, ◌/◌, ◌%◌, ◌^◌, ◌≤◌, ◌<◌, ◌≡◌, ◌≢◌, ◌⊎◌, refl, ap, ◌∙◌, [], ◌∷◌, ◌++◌, Bytes,
  length, replicate, ◌==◌, Bool-cases, inl, inr, ==→eq, ==→ne, bit_or, arith,
}
use opensrv.Common.Bits.{bit, bit-zero, bit-le, bit-bit_or, bit-pow_self, bit-pow_ne}
use opensrv.Results.Rows.{or_at}

-- How a client reads the bitmap: a byte behind the header, and a bit of it.
pub byte_at : ℕ → Bytes → ℕ
byte_at i [] = 0
byte_at zero (b ∷ bs) = b
byte_at (suc i) (b ∷ bs) = byte_at i bs

pub null_bit : ℕ → Bytes → ℕ
null_bit i row = bit ((i + 2) % 8) (byte_at (1 + (i + 2) / 8) row)

byte_at-append : (i : ℕ) (xs ys : Bytes) → i < length xs → byte_at i (xs ++ ys) ≡ byte_at i xs
unfolding byte_at
byte_at-append i [] ys h = absurd (omega arith)
byte_at-append zero (x ∷ xs) ys h = refl
byte_at-append (suc i) (x ∷ xs) ys h = byte_at-append i xs ys (omega arith)

byte_at-replicate : (i n : ℕ) → byte_at i (replicate n 0) ≡ 0
unfolding byte_at
byte_at-replicate i zero = refl
byte_at-replicate zero (suc n) = refl
byte_at-replicate (suc i) (suc n) = byte_at-replicate i n

byte_at-or_at_self :
    (i bits : ℕ) (bs : Bytes)
    → i < length bs
    → byte_at i (or_at i bits bs) ≡ bit_or (byte_at i bs) bits
unfolding byte_at or_at
byte_at-or_at_self i bits [] h = absurd (omega arith)
byte_at-or_at_self zero bits (b ∷ bs) h = refl
byte_at-or_at_self (suc i) bits (b ∷ bs) h = byte_at-or_at_self i bits bs (omega arith)

byte_at-or_at_ne : (j i bits : ℕ) (bs : Bytes) → j ≢ i → byte_at j (or_at i bits bs) ≡ byte_at j bs
unfolding byte_at or_at
byte_at-or_at_ne j i bits [] h = refl
byte_at-or_at_ne zero zero bits (b ∷ bs) h = absurd (h refl)
byte_at-or_at_ne zero (suc i) bits (b ∷ bs) h = refl
byte_at-or_at_ne (suc j) zero bits (b ∷ bs) h = refl
byte_at-or_at_ne (suc j) (suc i) bits (b ∷ bs) h = byte_at-or_at_ne j i bits bs (λ e. h (ap suc e))

-- The place of a column in the bitmap is its own.
abbrev pub set_mark : ℕ → Bytes → Bytes
set_mark k row = or_at (1 + (k + 2) / 8) (2 ^ ((k + 2) % 8)) row

pub null_bit-set_mark_self :
    (k : ℕ) (row : Bytes) → 1 + (k + 2) / 8 < length row → null_bit k (set_mark k row) ≡ 1
unfolding null_bit
null_bit-set_mark_self k row h =
    let place = (k + 2) % 8 in
    let old = byte_at (1 + (k + 2) / 8) row in
    rw (byte_at-or_at_self (1 + (k + 2) / 8) (2 ^ place) row h)
      (omega (arith, bit-bit_or place old (2 ^ place), bit-pow_self place, bit-le place old))

pub null_bit-set_mark_ne :
    (i k : ℕ) (row : Bytes)
    → i ≢ k
    → 1 + (k + 2) / 8 < length row
    → null_bit i (set_mark k row) ≡ null_bit i row
unfolding null_bit
null_bit-set_mark_ne i k row ne h = elim (Bool-cases ((i + 2) / 8 == (k + 2) / 8)) [
  | inr other ↦ ap (bit ((i + 2) % 8)) (
      byte_at-or_at_ne (1 + (i + 2) / 8) (1 + (k + 2) / 8) _ row
        (λ e. ==→ne _ _ other (omega arith)))
  | inl same ↦
      let byte : 1 + (i + 2) / 8 ≡ 1 + (k + 2) / 8 = omega (arith, ==→eq _ _ same) in
      let apart : (i + 2) % 8 ≢ (k + 2) % 8 = λ e. ne (omega (arith, byte)) in
      let old = byte_at (1 + (k + 2) / 8) row in
      rw (byte, byte_at-or_at_self (1 + (k + 2) / 8) (2 ^ ((k + 2) % 8)) row h)
        (omega (
          arith,
          bit-bit_or ((i + 2) % 8) old (2 ^ ((k + 2) % 8)),
          bit-pow_ne ((i + 2) % 8) ((k + 2) % 8) apart,
        ))
]

pub null_bit-append :
    (i n : ℕ) (row more : Bytes)
    → i < n
    → 1 + (n + 7 + 2) / 8 ≤ length row
    → null_bit i (row ++ more) ≡ null_bit i row
unfolding null_bit
null_bit-append i n row more h size =
    ap (bit ((i + 2) % 8)) (byte_at-append (1 + (i + 2) / 8) row more (omega arith))

pub null_bit-zeros : (i n : ℕ) → null_bit i (replicate n 0) ≡ 0
unfolding null_bit
null_bit-zeros i n =
    ap (bit ((i + 2) % 8)) (byte_at-replicate (1 + (i + 2) / 8) n) ∙ bit-zero ((i + 2) % 8)

-- Before its first value a row has no bit set.
pub null_bit-clean :
    (i n : ℕ) (row : Bytes) → (row ≡ []) ⊎ (row ≡ replicate n 0) → null_bit i row ≡ 0
null_bit-clean i n row (inl e) = rw e (null_bit-zeros i 0)
null_bit-clean i n row (inr e) = rw e (null_bit-zeros i n)
