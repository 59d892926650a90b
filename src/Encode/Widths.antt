-- ===== src/Encode/Widths.antt =====
-- mysql/src/value/encode.rs: the numbers that a width holds, and how they are read.
use opensrv.Common.{
  ℕ, ◌-◌, ◌^◌, ◌<◌, ◌≡◌, inl, inr, Bool, true, false, Bool-cases, ◌++◌, Bytes, ltb, ltb→lt, ok, err,
  ◌>>=◌, arith,
}
use opensrv.Deps.MysqlCommon.{ℤ, pos, negsuc, ReadResult, Reads}
use opensrv.Deps.Writes.{Writes}
use opensrv.Deps.Numbers.{Numbers, InSigned}
use opensrv.Wire.{IoError}
use opensrv.Value.{ValueInner, int, uint}
use opensrv.Encode.{
  Width, w8, w16, w32, w64, Integer, u8, u16, u32, u64, usize, i8, i16, i32, i64, isize, Encoded,
  try_unsigned, bits, put_u, put_i, cast_u, narrow_u, narrow_i,
}

-- The number of a value, and that it is one of its type.
unfoldable pub number_of : Integer → ℤ
number_of (u8 n) = pos n
number_of (u16 n) = pos n
number_of (u32 n) = pos n
number_of (u64 n) = pos n
number_of (usize n) = pos n
number_of (i8 z) = z
number_of (i16 z) = z
number_of (i32 z) = z
number_of (i64 z) = z
number_of (isize z) = z

abbrev pub IsInteger : Integer → Type 0
IsInteger (u8 n) = n < 2 ^ 8
IsInteger (u16 n) = n < 2 ^ 16
IsInteger (u32 n) = n < 2 ^ 32
IsInteger (u64 n) = n < 2 ^ 64
IsInteger (usize n) = n < 2 ^ 64
IsInteger (i8 z) = InSigned 8 z
IsInteger (i16 z) = InSigned 16 z
IsInteger (i32 z) = InSigned 32 z
IsInteger (i64 z) = InSigned 64 z
IsInteger (isize z) = InSigned 64 z

-- A signed column gives an `Int`, an unsigned one a `UInt`.
pub numeral : Bool → ℤ → ValueInner
numeral true z = int z
numeral false (pos n) = uint n
numeral false (negsuc n) = int (negsuc n)

pub wider_8 : (z : ℤ) → InSigned 8 z → InSigned 16 z
wider_8 (pos n) h = omega arith
wider_8 (negsuc n) h = omega arith

pub wider_16 : (z : ℤ) → InSigned 16 z → InSigned 32 z
wider_16 (pos n) h = omega arith
wider_16 (negsuc n) h = omega arith

pub wider_32 : (z : ℤ) → InSigned 32 z → InSigned 64 z
wider_32 (pos n) h = omega arith
wider_32 (negsuc n) h = omega arith

module _ {reads : Reads} {writes : Writes} (numbers : Numbers reads writes) where
  -- How `ValueInner::parse_from` reads a number of a width.
  unfoldable pub read_width : Width → Bool → Bytes → ReadResult ValueInner
  read_width w8 true i = reads.read_i8 i >>= λ (z, rest). ok (int z, rest)
  read_width w16 true i = reads.read_i16 i >>= λ (z, rest). ok (int z, rest)
  read_width w32 true i = reads.read_i32 i >>= λ (z, rest). ok (int z, rest)
  read_width w64 true i = reads.read_i64 i >>= λ (z, rest). ok (int z, rest)
  read_width w8 false i = reads.read_u8 i >>= λ (n, rest). ok (uint n, rest)
  read_width w16 false i = reads.read_u16 i >>= λ (n, rest). ok (uint n, rest)
  read_width w32 false i = reads.read_u32 i >>= λ (n, rest). ok (uint n, rest)
  read_width w64 false i = reads.read_u64 i >>= λ (n, rest). ok (uint n, rest)

  pub data Wide (w : Width) (signed : Bool) (z : ℤ) : Encoded → Type 0 where
    wide :
        {bytes : Bytes}
        → ((rest : Bytes) → read_width w signed (bytes ++ rest) ≡ ok (numeral signed z, rest))
        → Wide w signed z (ok bytes)
    narrow : {e : IoError} → Wide w signed z (err e)

  pub put_u-Wide : (w : Width) (n : ℕ) → n < 2 ^ bits w → Wide w false (pos n) (put_u numbers w n)
  unfolding read_width numeral
  put_u-Wide w8 n h = wide (λ rest. rw (numbers.read_u8_lem n rest h))
  put_u-Wide w16 n h = wide (λ rest. rw (numbers.read_u16_lem n rest h))
  put_u-Wide w32 n h = wide (λ rest. rw (numbers.read_u32_lem n rest h))
  put_u-Wide w64 n h = wide (λ rest. rw (numbers.read_u64_lem n rest h))

  pub put_i-Wide : (w : Width) (z : ℤ) → InSigned (bits w) z → Wide w true z (put_i numbers w z)
  unfolding read_width numeral
  put_i-Wide w8 z h = wide (λ rest. rw (numbers.read_i8_lem z rest h))
  put_i-Wide w16 z h = wide (λ rest. rw (numbers.read_i16_lem z rest h))
  put_i-Wide w32 z h = wide (λ rest. rw (numbers.read_i32_lem z rest h))
  put_i-Wide w64 z h = wide (λ rest. rw (numbers.read_i64_lem z rest h))

  half : (w : Width) (n : ℕ) → n < 2 ^ (bits w - 1) → n < 2 ^ bits w
  half w8 n h = omega arith
  half w16 n h = omega arith
  half w32 n h = omega arith
  half w64 n h = omega arith

  pub cast_u-Wide : (w : Width) (z : ℤ) → InSigned (bits w) z → Wide w false z (cast_u numbers w z)
  unfolding cast_u try_unsigned
  cast_u-Wide w (pos n) h = put_u-Wide w n (half w n h)
  cast_u-Wide w (negsuc n) h = narrow

  pub narrow_u-Wide : (w : Width) (z : ℤ) → Wide w false z (narrow_u numbers w z)
  unfolding narrow_u
  narrow_u-Wide w (pos n) = elim (Bool-cases (ltb n (2 ^ bits w))) [
    | inl e ↦ rw e (put_u-Wide w n (ltb→lt _ _ e))
    | inr e ↦ rw e narrow
  ]
  narrow_u-Wide w (negsuc n) = narrow

  pub narrow_i-Wide : (w : Width) (z : ℤ) → Wide w true z (narrow_i numbers w z)
  unfolding narrow_i
  narrow_i-Wide w (pos n) = elim (Bool-cases (ltb n (2 ^ (bits w - 1)))) [
    | inl e ↦ rw e (put_i-Wide w (pos n) (ltb→lt _ _ e))
    | inr e ↦ rw e narrow
  ]
  narrow_i-Wide w (negsuc n) = elim (Bool-cases (ltb n (2 ^ (bits w - 1)))) [
    | inl e ↦ rw e (put_i-Wide w (negsuc n) (ltb→lt _ _ e))
    | inr e ↦ rw e narrow
  ]
