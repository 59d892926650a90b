-- ===== src/Encode.antt =====
-- mysql/src/value/encode.rs: numbers and byte strings in the binary protocol.
pub mod Widths
pub mod Decodes
pub mod Fits
pub mod Strings
pub mod Temporal
pub mod Text
use opensrv.Common.{
  ℕ, ◌-◌, ◌^◌, Bool, true, false, not, ◌&&◌, Option, none, some, List, [], Bytes, flatten, ltb, leb,
  if◌then◌else◌, Result, ok, err, ◌>>=◌,
}
use opensrv.Deps.MysqlCommon.{ColumnType, ℤ, pos, negsuc, Reads}
use opensrv.Deps.Writes.{Writes}
use opensrv.Deps.Numbers.{Numbers}
use opensrv.Wire.{IoError, invalid_data}

-- The arms of `match c.coltype` for integers.
pub data Width : Type 0 where
  w8 w16 w32 w64 : Width

unfoldable pub width : ColumnType → Option Width
width ColumnType.longlong = some w64
width ColumnType.long = some w32
width ColumnType.int24 = some w32
width ColumnType.short = some w16
width ColumnType.year = some w16
width ColumnType.tiny = some w8
width _ = none

-- The integer types that can be sent as a value.
pub data Integer : Type 0 where
  u8 u16 u32 u64 usize : ℕ → Integer
  i8 i16 i32 i64 isize : ℤ → Integer

abbrev pub Encoded : Type 0
Encoded = Result IoError Bytes

-- `bad`
abbrev bad : Encoded
bad = err invalid_data

-- `u64::try_from` of a signed number, and the like
pub try_unsigned : ℤ → Result IoError ℕ
try_unsigned (pos n) = ok n
try_unsigned (negsuc n) = err invalid_data

abbrev pub bits : Width → ℕ
bits w8 = 8
bits w16 = 16
bits w32 = 32
bits w64 = 64

-- `n >= i64::from(i8::MIN) && n <= i64::from(i8::MAX)`, and the like
pub in_signed : ℕ → ℤ → Bool
in_signed width (pos n) = ltb n (2 ^ (width - 1))
in_signed width (negsuc n) = ltb n (2 ^ (width - 1))

pub smallest_signed : ℤ → Integer
smallest_signed z =
    if in_signed 8 z
    then i8 z
    else if in_signed 16 z
    then i16 z
    else if in_signed 32 z
    then i32 z
    else i64 z

pub smallest_unsigned : ℕ → Integer
smallest_unsigned n =
    if ltb n (2 ^ 8)
    then u8 n
    else if ltb n (2 ^ 16)
    then u16 n
    else if ltb n (2 ^ 32)
    then u32 n
    else u64 n

module _ {reads : Reads} {writes : Writes} (numbers : Numbers reads writes) where
  abbrev pub put_u : Width → ℕ → Encoded
  put_u w8 n = ok (numbers.write_u8 n)
  put_u w16 n = ok (numbers.write_u16 n)
  put_u w32 n = ok (numbers.write_u32 n)
  put_u w64 n = ok (numbers.write_u64 n)

  abbrev pub put_i : Width → ℤ → Encoded
  put_i w8 z = ok (numbers.write_i8 z)
  put_i w16 z = ok (numbers.write_i16 z)
  put_i w32 z = ok (numbers.write_i32 z)
  put_i w64 z = ok (numbers.write_i64 z)

  -- A signed number for an unsigned column.
  pub cast_u : Width → ℤ → Encoded
  cast_u w z = try_unsigned z >>= λ n. put_u w n

  -- `like_try_into!`
  pub narrow_u : Width → ℤ → Encoded
  narrow_u w (pos n) = if ltb n (2 ^ bits w) then put_u w n else bad
  narrow_u w (negsuc n) = bad

  pub narrow_i : Width → ℤ → Encoded
  narrow_i w (pos n) = if ltb n (2 ^ (bits w - 1)) then put_i w (pos n) else bad
  narrow_i w (negsuc n) = if ltb n (2 ^ (bits w - 1)) then put_i w (negsuc n) else bad

  pub encode_u8 : ℕ → Width → Bool → Encoded
  encode_u8 n w64 true = put_i w64 (pos n)
  encode_u8 n w64 false = put_u w64 n
  encode_u8 n w32 true = put_i w32 (pos n)
  encode_u8 n w32 false = put_u w32 n
  encode_u8 n w16 true = put_i w16 (pos n)
  encode_u8 n w16 false = put_u w16 n
  encode_u8 n w8 true = bad
  encode_u8 n w8 false = put_u w8 n

  pub encode_i8 : ℤ → Width → Bool → Encoded
  encode_i8 z w64 true = put_i w64 z
  encode_i8 z w64 false = cast_u w64 z
  encode_i8 z w32 true = put_i w32 z
  encode_i8 z w32 false = cast_u w32 z
  encode_i8 z w16 true = put_i w16 z
  encode_i8 z w16 false = cast_u w16 z
  encode_i8 z w8 true = put_i w8 z
  encode_i8 z w8 false = bad

  pub encode_u16 : ℕ → Width → Bool → Encoded
  encode_u16 n w64 true = put_i w64 (pos n)
  encode_u16 n w64 false = put_u w64 n
  encode_u16 n w32 true = put_i w32 (pos n)
  encode_u16 n w32 false = put_u w32 n
  encode_u16 n w16 true = bad
  encode_u16 n w16 false = put_u w16 n
  encode_u16 n w8 signed = bad

  pub encode_i16 : ℤ → Width → Bool → Encoded
  encode_i16 z w64 true = put_i w64 z
  encode_i16 z w64 false = cast_u w64 z
  encode_i16 z w32 true = put_i w32 z
  encode_i16 z w32 false = cast_u w32 z
  encode_i16 z w16 true = put_i w16 z
  encode_i16 z w16 false = bad
  encode_i16 z w8 signed = bad

  pub encode_u32 : ℕ → Width → Bool → Encoded
  encode_u32 n w64 true = put_i w64 (pos n)
  encode_u32 n w64 false = put_u w64 n
  encode_u32 n w32 true = bad
  encode_u32 n w32 false = put_u w32 n
  encode_u32 n w16 signed = bad
  encode_u32 n w8 signed = bad

  pub encode_i32 : ℤ → Width → Bool → Encoded
  encode_i32 z w64 true = put_i w64 z
  encode_i32 z w64 false = cast_u w64 z
  encode_i32 z w32 true = put_i w32 z
  encode_i32 z w32 false = bad
  encode_i32 z w16 signed = bad
  encode_i32 z w8 signed = bad

  pub encode_u64 : ℕ → Width → Bool → Encoded
  encode_u64 n w64 true = bad
  encode_u64 n w64 false = put_u w64 n
  encode_u64 n w32 signed = bad
  encode_u64 n w16 signed = bad
  encode_u64 n w8 signed = bad

  pub encode_i64 : ℤ → Width → Bool → Encoded
  encode_i64 z w64 true = put_i w64 z
  encode_i64 z w64 false = bad
  encode_i64 z w32 signed = bad
  encode_i64 z w16 signed = bad
  encode_i64 z w8 signed = bad

  -- `forgiving_numeric!`
  pub forgiving : ℤ → Width → Bool → Encoded
  forgiving z w true = narrow_i w z
  forgiving z w false = narrow_u w z

  pub encode_width : Integer → Width → Bool → Encoded
  encode_width (u8 n) w signed = encode_u8 n w signed
  encode_width (i8 z) w signed = encode_i8 z w signed
  encode_width (u16 n) w signed = encode_u16 n w signed
  encode_width (i16 z) w signed = encode_i16 z w signed
  encode_width (u32 n) w signed = encode_u32 n w signed
  encode_width (i32 z) w signed = encode_i32 z w signed
  encode_width (u64 n) w signed = encode_u64 n w signed
  encode_width (i64 z) w signed = encode_i64 z w signed
  encode_width (usize n) w signed = forgiving (pos n) w signed
  encode_width (isize z) w signed = forgiving z w signed

  pub encode_at : Integer → Option Width → Bool → Encoded
  encode_at v none signed = bad
  encode_at v (some w) signed = encode_width v w signed

  -- `to_mysql_bin` of an integer; `signed` is that the column lacks UNSIGNED_FLAG.
  pub to_mysql_bin : Integer → ColumnType → Bool → Encoded
  to_mysql_bin v t signed = encode_at v (width t) signed

  -- `Value::Int`: the smallest type that holds the number encodes it.
  pub value_int : ℤ → ColumnType → Bool → Encoded
  value_int z t true = to_mysql_bin (smallest_signed z) t true
  value_int (pos n) t false = to_mysql_bin (smallest_unsigned n) t false
  value_int (negsuc n) t false = bad

  -- `f32` and `f64`, as bit patterns
  pub encode_f32 : ℕ → ColumnType → Encoded
  encode_f32 f ColumnType.double = ok (numbers.write_f64 (reads.widen f))
  encode_f32 f ColumnType.float = ok (numbers.write_f32 f)
  encode_f32 f _ = bad

  pub encode_f64 : ℕ → ColumnType → Encoded
  encode_f64 f ColumnType.double = ok (numbers.write_f64 f)
  encode_f64 f _ = bad

-- The column types of byte strings.
pub holds_bytes : ColumnType → Bool
holds_bytes ColumnType.string = true
holds_bytes ColumnType.var_string = true
holds_bytes ColumnType.blob = true
holds_bytes ColumnType.tiny_blob = true
holds_bytes ColumnType.medium_blob = true
holds_bytes ColumnType.long_blob = true
holds_bytes ColumnType.set = true
holds_bytes ColumnType.enum = true
holds_bytes ColumnType.decimal = true
holds_bytes ColumnType.varchar = true
holds_bytes ColumnType.bit = true
holds_bytes ColumnType.newdecimal = true
holds_bytes ColumnType.geometry = true
holds_bytes ColumnType.json = true
holds_bytes _ = false

pub encode_bytes : Writes → Bytes → ColumnType → Encoded
encode_bytes writes s t = if holds_bytes t then ok (flatten (writes.write_lenenc_str s)) else bad
