-- ===== src/Deps/MysqlCommon.antt =====
-- What the crates mysql_common and byteorder read: length-encoded and little-endian numbers.
use opensrv.Common.{ℕ, ◌≡◌, [], ◌∷◌, Bytes, Option, Result, ok, err}
use opensrv.Wire.{IoError, unexpected_eof}

-- `ColumnType` of mysql_common: the variants that the library names, and those that it does not.
pub data ColumnType : Type 0 where
  string var_string blob tiny_blob medium_blob long_blob set enum decimal varchar : ColumnType
  bit newdecimal geometry json tiny short year long int24 longlong : ColumnType
  float double timestamp datetime date time null : ColumnType
  unnamed : ℕ → ColumnType

-- An `i64`: `negsuc n` is -(n + 1).
pub data ℤ : Type 0 where
  pos : ℕ → ℤ
  negsuc : ℕ → ℤ

abbrev pub ReadResult : Type 0 → Type 0
ReadResult A = Result IoError (A × Bytes)

-- A read returns the value and the input that is left. A floating point number is its bit pattern.
pub record Reads : Type 0 where
  pub read_lenenc_int : Bytes → ReadResult ℕ
  pub read_u8 : Bytes → ReadResult ℕ
  pub read_i8 : Bytes → ReadResult ℤ
  pub read_u16 : Bytes → ReadResult ℕ
  pub read_i16 : Bytes → ReadResult ℤ
  pub read_u32 : Bytes → ReadResult ℕ
  pub read_i32 : Bytes → ReadResult ℤ
  pub read_u64 : Bytes → ReadResult ℕ
  pub read_i64 : Bytes → ReadResult ℤ
  pub read_f32 : Bytes → ReadResult ℕ
  pub read_f64 : Bytes → ReadResult ℕ
  -- `f64::from(f32)`
  pub widen : ℕ → ℕ
  -- `ColumnType::try_from(u8)`
  pub column_type : ℕ → Option ColumnType
  pub read_u8_enough : (b : ℕ) (rest : Bytes) → read_u8 (b ∷ rest) ≡ ok (b, rest)
  pub read_u8_short : read_u8 [] ≡ err unexpected_eof
