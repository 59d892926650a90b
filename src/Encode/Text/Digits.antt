-- ===== src/Encode/Text/Digits.antt =====
-- The digits that `format!` writes for a number, and how a reader takes them.
use opensrv.Common.{
  ℕ, zero, suc, ◌+◌, ◌-◌, ◌*◌, ◌/◌, ◌%◌, ◌≤◌, ◌<◌, ◌≡◌, refl, ap, ◌∙◌, Bool, ◌&&◌, Option, none,
  some, [], ◌∷◌, ◌++◌, Bytes, length, replicate, length-append, ltb, leb, if◌then◌else◌, Bool-cases,
  inl, inr, arith,
}

-- On fuel: a number has fewer digits than itself and one.
pub decimal_from : ℕ → ℕ → Bytes
decimal_from zero n = []
decimal_from (suc fuel) n =
    let before = decimal_from fuel (n / 10) ++ (0x30 + n % 10) ∷ [] in
    if ltb n 10 then (0x30 + n) ∷ [] else before

-- `{}`
unfoldable pub decimal : ℕ → Bytes
unfolding decimal_from
decimal n = decimal_from (suc n) n

-- `{:0width}`
unfoldable pub padded : ℕ → ℕ → Bytes
padded width n = replicate (width - length (decimal n)) 0x30 ++ decimal n

abbrev pub is_digit : ℕ → Bool
is_digit b = leb 0x30 b && leb b 0x39

-- The number that digits stand for, behind digits that stand for `acc`.
unfoldable pub digits_value : ℕ → Bytes → Option ℕ
digits_value acc [] = some acc
digits_value acc (b ∷ bs) = if is_digit b then digits_value (acc * 10 + (b - 0x30)) bs else none

digits_value-snoc :
    (acc : ℕ) (xs : Bytes) (m d : ℕ)
    → digits_value acc xs ≡ some m
    → d < 10
    → digits_value acc (xs ++ (0x30 + d) ∷ []) ≡ some (m * 10 + d)
unfolding digits_value
digits_value-snoc acc [] m d e h = ground arith
digits_value-snoc acc (x ∷ xs) m d e h =
    ground (arith, digits_value-snoc (acc * 10 + (x - 0x30)) xs m d)

decimal_from-value : (fuel n : ℕ) → n < fuel → digits_value 0 (decimal_from fuel n) ≡ some n
unfolding decimal_from digits_value
decimal_from-value zero n h = absurd (omega arith)
decimal_from-value (suc fuel) n h = elim (Bool-cases (ltb n 10)) [
  | inl small ↦ ground arith
  | inr big ↦ rw big (
      digits_value-snoc 0 (decimal_from fuel (n / 10)) (n / 10) (n % 10)
        (decimal_from-value fuel (n / 10) (ground arith)) (omega arith)
      ∙ ap some (omega arith))
]

-- The digits of a number stand for it.
pub digits_value-decimal : (n : ℕ) → digits_value 0 (decimal n) ≡ some n
unfolding decimal
digits_value-decimal n = decimal_from-value (suc n) n (omega arith)

zeros-value : (k : ℕ) (xs : Bytes) → digits_value 0 (replicate k 0x30 ++ xs) ≡ digits_value 0 xs
unfolding digits_value
zeros-value zero xs = refl
zeros-value (suc k) xs = zeros-value k xs

pub digits_value-padded : (width n : ℕ) → digits_value 0 (padded width n) ≡ some n
unfolding padded
digits_value-padded width n =
    zeros-value (width - length (decimal n)) (decimal n) ∙ digits_value-decimal n

-- Below `10 ^ width`, with a base that is multiplied out.
abbrev pub power : ℕ → ℕ
power zero = 1
power (suc width) = 10 * power width

length-decimal_from :
    (width fuel n : ℕ) → n < 10 * power width → length (decimal_from fuel n) ≤ suc width
unfolding decimal_from
length-decimal_from width zero n h = omega arith
length-decimal_from zero (suc fuel) n h = ground arith
length-decimal_from (suc width) (suc fuel) n h = elim (Bool-cases (ltb n 10)) [
  | inl small ↦ rw small (omega arith)
  | inr big ↦ rw big (
      omega (
        arith,
        length-append (decimal_from fuel (n / 10)) ((0x30 + n % 10) ∷ []),
        length-decimal_from width fuel (n / 10) (omega arith),
      ))
]

pub length-decimal : (width n : ℕ) → n < 10 * power width → length (decimal n) ≤ suc width
unfolding decimal
length-decimal width n h = length-decimal_from width (suc n) n h

length-replicate : (k b : ℕ) → length (replicate k b) ≡ k
length-replicate zero b = refl
length-replicate (suc k) b = ap suc (length-replicate k b)

-- A number that fits has just as many digits as it is padded to.
pub length-padded : (width n : ℕ) → n < 10 * power width → length (padded (suc width) n) ≡ suc width
unfolding padded
length-padded width n h = omega (
  arith,
  length-append (replicate (suc width - length (decimal n)) 0x30) (decimal n),
  length-replicate (suc width - length (decimal n)) 0x30,
  length-decimal width n h,
)

pub le-length-padded : (width n : ℕ) → width ≤ length (padded width n)
unfolding padded
le-length-padded width n = omega (
  arith,
  length-append (replicate (width - length (decimal n)) 0x30) (decimal n),
  length-replicate (width - length (decimal n)) 0x30,
)

pub le-length-decimal : (n : ℕ) → 0 < length (decimal n)
unfolding decimal decimal_from
le-length-decimal n = elim (Bool-cases (ltb n 10)) [
  | inl small ↦ rw small (omega arith)
  | inr big ↦ rw big (omega (arith, length-append (decimal_from n (n / 10)) ((0x30 + n % 10) ∷ [])))
]
