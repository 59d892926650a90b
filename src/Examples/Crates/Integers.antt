-- ===== src/Examples/Crates/Integers.antt =====
-- Numbers and their bytes as the crates byteorder and mysql_common document them.
use opensrv.Common.{
  ℕ, zero, suc, ◌+◌, ◌-◌, ◌*◌, ◌/◌, ◌%◌, ◌^◌, refl, Option, none, some, [], ◌∷◌, Bytes, ltb, ◌==◌,
  if◌then◌else◌, ok, err,
}
use opensrv.Deps.ByteOrder.{ByteOrder}
use opensrv.Deps.MysqlCommon.{ColumnType, ℤ, ReadResult, Reads}
use opensrv.Wire.{unexpected_eof}

abbrev write_u24 : ℕ → Bytes
write_u24 n = n % 2 ^ 8 ∷ n / 2 ^ 8 % 2 ^ 8 ∷ n / 2 ^ 16 % 2 ^ 8 ∷ []

abbrev pub byteorder : ByteOrder
byteorder = record { write_u24 = write_u24; write_u24_lem = λ n h. refl }

-- A little-endian number of some bytes.
abbrev pub read_le : ℕ → Bytes → ReadResult ℕ
read_le zero input = ok (0, input)
read_le (suc n) [] = err unexpected_eof
read_le (suc n) (b ∷ input) = elim (read_le n input) [
  | ok (high, rest) ↦ ok (b + high * 2 ^ 8, rest)
  | err e ↦ err e
]

-- Two's complement.
abbrev pub signed : ℕ → ReadResult ℕ → ReadResult ℤ
signed width (ok (n, rest)) =
    ok (if ltb n (2 ^ (width - 1)) then ℤ.pos n else ℤ.negsuc (2 ^ width - 1 - n), rest)
signed width (err e) = err e

abbrev pub read_lenenc : Bytes → ReadResult ℕ
read_lenenc [] = err unexpected_eof
read_lenenc (b ∷ input) =
    if b == 0xfc
    then read_le 2 input
    else if b == 0xfd
    then read_le 3 input
    else if b == 0xfe
    then read_le 8 input
    else ok (b, input)

abbrev column_type : ℕ → Option ColumnType
column_type n =
    if n == 3
    then some ColumnType.long
    else if n == 252
    then some ColumnType.blob
    else if n == 253
    then some ColumnType.var_string
    else none

abbrev pub read_byte : Bytes → ReadResult ℕ
read_byte [] = err unexpected_eof
read_byte (b ∷ input) = ok (b, input)

abbrev pub reads : Reads
reads = record {
  read_lenenc_int = read_lenenc;
  read_u8 = read_byte;
  read_i8 = λ i. signed 8 (read_byte i);
  read_u16 = read_le 2;
  read_i16 = λ i. signed 16 (read_le 2 i);
  read_u32 = read_le 4;
  read_i32 = λ i. signed 32 (read_le 4 i);
  read_u64 = read_le 8;
  read_i64 = λ i. signed 64 (read_le 8 i);
  read_f32 = read_le 4;
  read_f64 = read_le 8;
  widen = λ n. n;
  column_type = column_type;
  read_u8_enough = λ b rest. refl;
  read_u8_short = refl;
}
