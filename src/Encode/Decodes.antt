-- ===== src/Encode/Decodes.antt =====
-- mysql/src/value/encode.rs: what is written for a number is read back as the same number.
use opensrv.Common.{
  ℕ, ◌^◌, ◌<◌, ◌≡◌, refl, ◌∙◌, Bool, true, false, not, ◌++◌, Bytes, ok, err, arith,
}
use opensrv.Deps.MysqlCommon.{ColumnType, ℤ, pos, Reads}
use opensrv.Deps.Writes.{Writes}
use opensrv.Deps.Numbers.{Numbers, InSigned}
use opensrv.Wire.{IoError}
use opensrv.Value.{parse_from}
use opensrv.Encode.{
  Width, w8, w16, w32, w64, width, Integer, u8, u16, u32, u64, usize, i8, i16, i32, i64, isize,
  Encoded, encode_u8, encode_i8, encode_u16, encode_i16, encode_u32, encode_i32, encode_u64,
  encode_i64, forgiving, encode_width, encode_at, to_mysql_bin,
}
use opensrv.Encode.Widths.{
  number_of, IsInteger, numeral, wider_8, wider_16, wider_32, read_width, Wide, wide, narrow,
  put_u-Wide, put_i-Wide, cast_u-Wide, narrow_u-Wide, narrow_i-Wide,
}

module _ {reads : Reads} {writes : Writes} (numbers : Numbers reads writes) where
  encode_u8-Wide :
      (n : ℕ) (w : Width) (signed : Bool)
      → n < 2 ^ 8
      → (Wide numbers) w signed (pos n) (encode_u8 numbers n w signed)
  unfolding encode_u8
  encode_u8-Wide n w8 true h = narrow
  encode_u8-Wide n w8 false h = (put_u-Wide numbers) w8 n h
  encode_u8-Wide n w16 true h = (put_i-Wide numbers) w16 (pos n) (omega arith)
  encode_u8-Wide n w16 false h = (put_u-Wide numbers) w16 n (omega arith)
  encode_u8-Wide n w32 true h = (put_i-Wide numbers) w32 (pos n) (omega arith)
  encode_u8-Wide n w32 false h = (put_u-Wide numbers) w32 n (omega arith)
  encode_u8-Wide n w64 true h = (put_i-Wide numbers) w64 (pos n) (omega arith)
  encode_u8-Wide n w64 false h = (put_u-Wide numbers) w64 n (omega arith)

  encode_i8-Wide :
      (z : ℤ) (w : Width) (signed : Bool)
      → InSigned 8 z
      → (Wide numbers) w signed z (encode_i8 numbers z w signed)
  unfolding encode_i8
  encode_i8-Wide z w8 true h = (put_i-Wide numbers) w8 z h
  encode_i8-Wide z w8 false h = narrow
  encode_i8-Wide z w16 true h = (put_i-Wide numbers) w16 z (wider_8 z h)
  encode_i8-Wide z w16 false h = (cast_u-Wide numbers) w16 z (wider_8 z h)
  encode_i8-Wide z w32 true h = (put_i-Wide numbers) w32 z (wider_16 z (wider_8 z h))
  encode_i8-Wide z w32 false h = (cast_u-Wide numbers) w32 z (wider_16 z (wider_8 z h))
  encode_i8-Wide z w64 true h = (put_i-Wide numbers) w64 z (wider_32 z (wider_16 z (wider_8 z h)))
  encode_i8-Wide z w64 false h = (cast_u-Wide numbers) w64 z (wider_32 z (wider_16 z (wider_8 z h)))

  encode_u16-Wide :
      (n : ℕ) (w : Width) (signed : Bool)
      → n < 2 ^ 16
      → (Wide numbers) w signed (pos n) (encode_u16 numbers n w signed)
  unfolding encode_u16
  encode_u16-Wide n w8 signed h = narrow
  encode_u16-Wide n w16 true h = narrow
  encode_u16-Wide n w16 false h = (put_u-Wide numbers) w16 n h
  encode_u16-Wide n w32 true h = (put_i-Wide numbers) w32 (pos n) (omega arith)
  encode_u16-Wide n w32 false h = (put_u-Wide numbers) w32 n (omega arith)
  encode_u16-Wide n w64 true h = (put_i-Wide numbers) w64 (pos n) (omega arith)
  encode_u16-Wide n w64 false h = (put_u-Wide numbers) w64 n (omega arith)

  encode_i16-Wide :
      (z : ℤ) (w : Width) (signed : Bool)
      → InSigned 16 z
      → (Wide numbers) w signed z (encode_i16 numbers z w signed)
  unfolding encode_i16
  encode_i16-Wide z w8 signed h = narrow
  encode_i16-Wide z w16 true h = (put_i-Wide numbers) w16 z h
  encode_i16-Wide z w16 false h = narrow
  encode_i16-Wide z w32 true h = (put_i-Wide numbers) w32 z (wider_16 z h)
  encode_i16-Wide z w32 false h = (cast_u-Wide numbers) w32 z (wider_16 z h)
  encode_i16-Wide z w64 true h = (put_i-Wide numbers) w64 z (wider_32 z (wider_16 z h))
  encode_i16-Wide z w64 false h = (cast_u-Wide numbers) w64 z (wider_32 z (wider_16 z h))

  encode_u32-Wide :
      (n : ℕ) (w : Width) (signed : Bool)
      → n < 2 ^ 32
      → (Wide numbers) w signed (pos n) (encode_u32 numbers n w signed)
  unfolding encode_u32
  encode_u32-Wide n w8 signed h = narrow
  encode_u32-Wide n w16 signed h = narrow
  encode_u32-Wide n w32 true h = narrow
  encode_u32-Wide n w32 false h = (put_u-Wide numbers) w32 n h
  encode_u32-Wide n w64 true h = (put_i-Wide numbers) w64 (pos n) (omega arith)
  encode_u32-Wide n w64 false h = (put_u-Wide numbers) w64 n (omega arith)

  encode_i32-Wide :
      (z : ℤ) (w : Width) (signed : Bool)
      → InSigned 32 z
      → (Wide numbers) w signed z (encode_i32 numbers z w signed)
  unfolding encode_i32
  encode_i32-Wide z w8 signed h = narrow
  encode_i32-Wide z w16 signed h = narrow
  encode_i32-Wide z w32 true h = (put_i-Wide numbers) w32 z h
  encode_i32-Wide z w32 false h = narrow
  encode_i32-Wide z w64 true h = (put_i-Wide numbers) w64 z (wider_32 z h)
  encode_i32-Wide z w64 false h = (cast_u-Wide numbers) w64 z (wider_32 z h)

  encode_u64-Wide :
      (n : ℕ) (w : Width) (signed : Bool)
      → n < 2 ^ 64
      → (Wide numbers) w signed (pos n) (encode_u64 numbers n w signed)
  unfolding encode_u64
  encode_u64-Wide n w8 signed h = narrow
  encode_u64-Wide n w16 signed h = narrow
  encode_u64-Wide n w32 signed h = narrow
  encode_u64-Wide n w64 true h = narrow
  encode_u64-Wide n w64 false h = (put_u-Wide numbers) w64 n h

  encode_i64-Wide :
      (z : ℤ) (w : Width) (signed : Bool)
      → InSigned 64 z
      → (Wide numbers) w signed z (encode_i64 numbers z w signed)
  unfolding encode_i64
  encode_i64-Wide z w8 signed h = narrow
  encode_i64-Wide z w16 signed h = narrow
  encode_i64-Wide z w32 signed h = narrow
  encode_i64-Wide z w64 true h = (put_i-Wide numbers) w64 z h
  encode_i64-Wide z w64 false h = narrow

  forgiving-Wide :
      (z : ℤ) (w : Width) (signed : Bool) → (Wide numbers) w signed z (forgiving numbers z w signed)
  unfolding forgiving
  forgiving-Wide z w true = (narrow_i-Wide numbers) w z
  forgiving-Wide z w false = (narrow_u-Wide numbers) w z

  encode_width-Wide :
      (v : Integer) (w : Width) (signed : Bool)
      → IsInteger v
      → (Wide numbers) w signed (number_of v) (encode_width numbers v w signed)
  unfolding encode_width number_of
  encode_width-Wide (u8 n) w signed h = encode_u8-Wide n w signed h
  encode_width-Wide (i8 z) w signed h = encode_i8-Wide z w signed h
  encode_width-Wide (u16 n) w signed h = encode_u16-Wide n w signed h
  encode_width-Wide (i16 z) w signed h = encode_i16-Wide z w signed h
  encode_width-Wide (u32 n) w signed h = encode_u32-Wide n w signed h
  encode_width-Wide (i32 z) w signed h = encode_i32-Wide z w signed h
  encode_width-Wide (u64 n) w signed h = encode_u64-Wide n w signed h
  encode_width-Wide (i64 z) w signed h = encode_i64-Wide z w signed h
  encode_width-Wide (usize n) w signed h = forgiving-Wide (pos n) w signed
  encode_width-Wide (isize z) w signed h = forgiving-Wide z w signed

  -- An encoding is an error, or bytes that `parse_from` reads back whatever follows.
  pub data Decodes (t : ColumnType) (signed : Bool) (z : ℤ) : Encoded → Type 0 where
    decoded :
        {bytes : Bytes}
        → ((rest : Bytes)
            → parse_from reads (bytes ++ rest) t (not signed) ≡ ok (numeral signed z, rest))
        → Decodes t signed z (ok bytes)
    refused : {e : IoError} → Decodes t signed z (err e)

  at_width :
      {t : ColumnType} {w : Width} {signed : Bool} {z : ℤ} {r : Encoded}
      → ((i : Bytes) → parse_from reads i t (not signed) ≡ (read_width numbers) w signed i)
      → (Wide numbers) w signed z r
      → Decodes t signed z r
  at_width same (wide h) = decoded (λ rest. same _ ∙ h rest)
  at_width same narrow = refused

  -- Each integer is encoded for a column as bytes that are read back as the same number, whatever bytes
  -- follow, or is refused: no number is cut to the width of its column.
  pub to_mysql_bin-Decodes :
      (v : Integer) (t : ColumnType) (signed : Bool)
      → IsInteger v
      → Decodes t signed (number_of v) (to_mysql_bin numbers v t signed)
  unfolding to_mysql_bin encode_at width parse_from read_width
  to_mysql_bin-Decodes v ColumnType.longlong true h =
      at_width (λ i. refl) (encode_width-Wide v w64 true h)
  to_mysql_bin-Decodes v ColumnType.longlong false h =
      at_width (λ i. refl) (encode_width-Wide v w64 false h)
  to_mysql_bin-Decodes v ColumnType.long true h =
      at_width (λ i. refl) (encode_width-Wide v w32 true h)
  to_mysql_bin-Decodes v ColumnType.long false h =
      at_width (λ i. refl) (encode_width-Wide v w32 false h)
  to_mysql_bin-Decodes v ColumnType.int24 true h =
      at_width (λ i. refl) (encode_width-Wide v w32 true h)
  to_mysql_bin-Decodes v ColumnType.int24 false h =
      at_width (λ i. refl) (encode_width-Wide v w32 false h)
  to_mysql_bin-Decodes v ColumnType.short true h =
      at_width (λ i. refl) (encode_width-Wide v w16 true h)
  to_mysql_bin-Decodes v ColumnType.short false h =
      at_width (λ i. refl) (encode_width-Wide v w16 false h)
  to_mysql_bin-Decodes v ColumnType.year true h =
      at_width (λ i. refl) (encode_width-Wide v w16 true h)
  to_mysql_bin-Decodes v ColumnType.year false h =
      at_width (λ i. refl) (encode_width-Wide v w16 false h)
  to_mysql_bin-Decodes v ColumnType.tiny true h =
      at_width (λ i. refl) (encode_width-Wide v w8 true h)
  to_mysql_bin-Decodes v ColumnType.tiny false h =
      at_width (λ i. refl) (encode_width-Wide v w8 false h)
  to_mysql_bin-Decodes v ColumnType.string signed h = refused
  to_mysql_bin-Decodes v ColumnType.var_string signed h = refused
  to_mysql_bin-Decodes v ColumnType.blob signed h = refused
  to_mysql_bin-Decodes v ColumnType.tiny_blob signed h = refused
  to_mysql_bin-Decodes v ColumnType.medium_blob signed h = refused
  to_mysql_bin-Decodes v ColumnType.long_blob signed h = refused
  to_mysql_bin-Decodes v ColumnType.set signed h = refused
  to_mysql_bin-Decodes v ColumnType.enum signed h = refused
  to_mysql_bin-Decodes v ColumnType.decimal signed h = refused
  to_mysql_bin-Decodes v ColumnType.varchar signed h = refused
  to_mysql_bin-Decodes v ColumnType.bit signed h = refused
  to_mysql_bin-Decodes v ColumnType.newdecimal signed h = refused
  to_mysql_bin-Decodes v ColumnType.geometry signed h = refused
  to_mysql_bin-Decodes v ColumnType.json signed h = refused
  to_mysql_bin-Decodes v ColumnType.float signed h = refused
  to_mysql_bin-Decodes v ColumnType.double signed h = refused
  to_mysql_bin-Decodes v ColumnType.timestamp signed h = refused
  to_mysql_bin-Decodes v ColumnType.datetime signed h = refused
  to_mysql_bin-Decodes v ColumnType.date signed h = refused
  to_mysql_bin-Decodes v ColumnType.time signed h = refused
  to_mysql_bin-Decodes v ColumnType.null signed h = refused
  to_mysql_bin-Decodes v (ColumnType.unnamed n) signed h = refused
