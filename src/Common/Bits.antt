-- ===== src/Common/Bits.antt =====
-- `bit_or` and `bit_and` of numbers, digit by digit, and with powers of two.
use Prim.Native.Nat.{
  ℕ, zero, suc, ◌+◌, ◌-◌, ◌*◌, ◌/◌, ◌%◌, ◌^◌, ◌≤◌, ◌<◌, min, max, bit_and, bit_or, digits,
  bit_and-bitwise, bit_or-bitwise,
}
use mathlib.Core.Path.{◌≡◌, refl, sym, ap, ◌∙◌}
use mathlib.Core.Logic.{◌≢◌}
use native.Mathlib.Omega.{arith}
use native.Mathlib.Nat.{pow-suc}

-- The operations on bits go through the digits of their first number; `past` is for what is left of the
-- second behind them.
module _ (past : ℕ → ℕ) (op : ℕ → ℕ → ℕ) where
  none_left : (k b : ℕ) → digits past op k 0 b ≡ past b
  none_left zero b = refl
  none_left (suc k) b = refl

  -- More digits than the number has do not count.
  more_digits : (extra n a b : ℕ) → a ≤ n → digits past op (n + extra) a b ≡ digits past op n a b
  more_digits extra n zero b small = none_left (n + extra) b ∙ sym (none_left n b)
  more_digits extra zero (suc a) b small = absurd (omega arith)
  more_digits extra (suc n) (suc a) b small =
      let next : suc n + extra ≡ suc (n + extra) = omega arith in
      rw next (
        ap (λ k. k * 2 + op (suc a % 2) (b % 2))
          (more_digits extra n (suc a / 2) (b / 2) (omega arith)))

  enough_digits : (n a b : ℕ) → a ≤ n → digits past op n a b ≡ digits past op a a b
  enough_digits n a b small =
      let whole : a + (n - a) ≡ n = omega arith in
      ap (λ m. digits past op m a b) (sym whole) ∙ more_digits (n - a) a a b (omega arith)

  -- The lowest digits, and the operation on the others.
  lowest_digits :
      (a b : ℕ)
      → past b ≡ past (b / 2) * 2 + op 0 (b % 2)
      → digits past op a a b ≡ digits past op (a / 2) (a / 2) (b / 2) * 2 + op (a % 2) (b % 2)
  lowest_digits zero b h = h
  lowest_digits (suc a) b h =
      ap (λ k. k * 2 + op (suc a % 2) (b % 2)) (enough_digits a (suc a / 2) (b / 2) (omega arith))

pub zero-bit_or : (b : ℕ) → bit_or 0 b ≡ b
zero-bit_or b = bit_or-bitwise 0 b

bit_or_step : (a b : ℕ) → bit_or a b ≡ bit_or (a / 2) (b / 2) * 2 + max (a % 2) (b % 2)
bit_or_step a b =
    bit_or-bitwise a b
    ∙ lowest_digits (λ b. b) max a b (omega arith)
    ∙ ap (λ k. k * 2 + max (a % 2) (b % 2)) (sym (bit_or-bitwise (a / 2) (b / 2)))

bit_or_double :
    (low x y : ℕ) → x ≡ y * 2 → bit_or (low / 2) y ≡ low / 2 + y → bit_or low x ≡ low + x
bit_or_double low x y e h =
    let halved : x / 2 ≡ y = omega arith in
    let at_half : bit_or (low / 2) (x / 2) ≡ low / 2 + y = rw halved h in
    omega (arith, bit_or_step low x)

half_lt : (p low : ℕ) → low < p * 2 → low / 2 < p
half_lt p low h = omega arith

pow_double : (k high : ℕ) → high * 2 ^ suc k ≡ high * 2 ^ k * 2
pow_double k high = rw pow-suc (omega arith)

-- `low | high << k` is `low + high * 2 ^ k` for `low` below `2 ^ k`.
pub bit_or-shift : (k low high : ℕ) → low < 2 ^ k → bit_or low (high * 2 ^ k) ≡ low + high * 2 ^ k
bit_or-shift zero zero high h = zero-bit_or (high * 2 ^ 0) ∙ omega arith
bit_or-shift zero (suc low) high h = absurd (omega arith)
bit_or-shift (suc k) low high h =
    bit_or_double low (high * 2 ^ suc k) (high * 2 ^ k) (pow_double k high)
      (bit_or-shift k (low / 2) high (half_lt (2 ^ k) low (rw pow-suc at h)))

bit_or_comm_below : (n a b : ℕ) → a ≤ n → b ≤ n → bit_or a b ≡ bit_or b a
bit_or_comm_below zero zero zero p q = refl
bit_or_comm_below zero (suc a) b p q = absurd (omega arith)
bit_or_comm_below zero zero (suc b) p q = absurd (omega arith)
bit_or_comm_below (suc n) a b p q = omega (
  arith,
  bit_or_step a b,
  bit_or_step b a,
  bit_or_comm_below n (a / 2) (b / 2) (omega arith) (omega arith),
)

-- `high << k | low`
pub shift-bit_or : (k low high : ℕ) → low < 2 ^ k → bit_or (high * 2 ^ k) low ≡ low + high * 2 ^ k
shift-bit_or k low high h =
    bit_or_comm_below (high * 2 ^ k + low) (high * 2 ^ k) low (omega arith) (omega arith)
    ∙ bit_or-shift k low high h

-- The bit of a number at a place, as a number.
pub bit : ℕ → ℕ → ℕ
bit zero a = a % 2
bit (suc m) a = bit m (a / 2)

pub bit-le : (m a : ℕ) → bit m a ≤ 1
unfolding bit
bit-le zero a = omega arith
bit-le (suc m) a = bit-le m (a / 2)

pub bit-zero : (m : ℕ) → bit m 0 ≡ 0
unfolding bit
bit-zero zero = refl
bit-zero (suc m) = bit-zero m

pub bit-bit_or : (m a b : ℕ) → bit m (bit_or a b) ≡ max (bit m a) (bit m b)
unfolding bit
bit-bit_or zero a b = omega (arith, bit_or_step a b)
bit-bit_or (suc m) a b =
    let halves : bit_or a b / 2 ≡ bit_or (a / 2) (b / 2) = omega (arith, bit_or_step a b) in
    rw halves (bit-bit_or m (a / 2) (b / 2))

pub bit-pow_self : (m : ℕ) → bit m (2 ^ m) ≡ 1
unfolding bit
bit-pow_self zero = refl
bit-pow_self (suc m) =
    let half : 2 ^ suc m / 2 ≡ 2 ^ m = rw pow-suc (omega arith) in rw half (bit-pow_self m)

pub bit-pow_ne : (m k : ℕ) → m ≢ k → bit m (2 ^ k) ≡ 0
unfolding bit
bit-pow_ne zero zero h = absurd (h refl)
bit-pow_ne zero (suc k) h = rw pow-suc (omega arith)
bit-pow_ne (suc m) zero h = bit-zero m
bit-pow_ne (suc m) (suc k) h =
    let half : 2 ^ suc k / 2 ≡ 2 ^ k = rw pow-suc (omega arith) in
    rw half (bit-pow_ne m k (λ e. h (ap suc e)))

pub bit_or-zero : (a : ℕ) → bit_or a 0 ≡ a
bit_or-zero a = bit_or_comm_below a a 0 (omega arith) (omega arith) ∙ zero-bit_or a

bit_and_step : (a b : ℕ) → bit_and a b ≡ bit_and (a / 2) (b / 2) * 2 + min (a % 2) (b % 2)
bit_and_step a b =
    bit_and-bitwise a b
    ∙ lowest_digits (λ b. zero) min a b (omega arith)
    ∙ ap (λ k. k * 2 + min (a % 2) (b % 2)) (sym (bit_and-bitwise (a / 2) (b / 2)))

no_digits : (n a : ℕ) → digits (λ b. zero) min n a 0 ≡ 0
no_digits zero a = refl
no_digits (suc n) zero = refl
no_digits (suc n) (suc a) = omega (arith, no_digits n (suc a / 2))

bit_and-zero : (a : ℕ) → bit_and a 0 ≡ 0
bit_and-zero a = bit_and-bitwise a 0 ∙ no_digits a a

-- The bit of 8 set.
pub bit_or-eight : (a : ℕ) → bit_or a 8 ≡ a / 16 * 16 + 8 + a % 8
bit_or-eight a =
    let s0 : bit_or a 8 ≡ bit_or (a / 2) 4 * 2 + max (a % 2) 0 = bit_or_step a 8 in
    let s1 : bit_or (a / 2) 4 ≡ bit_or (a / 2 / 2) 2 * 2 + max (a / 2 % 2) 0 =
      bit_or_step (a / 2) 4 in
    let s2 : bit_or (a / 2 / 2) 2 ≡ bit_or (a / 2 / 2 / 2) 1 * 2 + max (a / 2 / 2 % 2) 0 =
      bit_or_step (a / 2 / 2) 2 in
    let s3 : bit_or (a / 2 / 2 / 2) 1
        ≡ bit_or (a / 2 / 2 / 2 / 2) 0 * 2 + max (a / 2 / 2 / 2 % 2) 1 =
      bit_or_step (a / 2 / 2 / 2) 1 in
    let s4 = bit_or-zero (a / 2 / 2 / 2 / 2) in omega arith

-- The bit of 8 alone.
pub bit_and-eight : (a : ℕ) → bit_and a 8 ≡ a / 8 % 2 * 8
bit_and-eight a =
    let s0 : bit_and a 8 ≡ bit_and (a / 2) 4 * 2 + min (a % 2) 0 = bit_and_step a 8 in
    let s1 : bit_and (a / 2) 4 ≡ bit_and (a / 2 / 2) 2 * 2 + min (a / 2 % 2) 0 =
      bit_and_step (a / 2) 4 in
    let s2 : bit_and (a / 2 / 2) 2 ≡ bit_and (a / 2 / 2 / 2) 1 * 2 + min (a / 2 / 2 % 2) 0 =
      bit_and_step (a / 2 / 2) 2 in
    let s3 : bit_and (a / 2 / 2 / 2) 1
        ≡ bit_and (a / 2 / 2 / 2 / 2) 0 * 2 + min (a / 2 / 2 / 2 % 2) 1 =
      bit_and_step (a / 2 / 2 / 2) 1 in
    let s4 = bit_and-zero (a / 2 / 2 / 2 / 2) in omega arith
