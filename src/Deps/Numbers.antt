-- ===== src/Deps/Numbers.antt =====
-- The little-endian numbers that the crate byteorder writes, and reads back.
use opensrv.Common.{ℕ, ◌-◌, ◌^◌, ◌<◌, ◌≡◌, ◌++◌, Bytes, length, flatten, ok}
use opensrv.Deps.MysqlCommon.{ℤ, pos, negsuc, Reads}
use opensrv.Deps.Writes.{Writes}

abbrev pub InSigned : ℕ → ℤ → Type 0
InSigned bits (pos n) = n < 2 ^ (bits - 1)
InSigned bits (negsuc n) = n < 2 ^ (bits - 1)

pub record Numbers (reads : Reads) (writes : Writes) : Type 0 where
  pub write_u8 : ℕ → Bytes
  pub write_i8 : ℤ → Bytes
  pub write_u16 : ℕ → Bytes
  pub write_i16 : ℤ → Bytes
  pub write_u32 : ℕ → Bytes
  pub write_i32 : ℤ → Bytes
  pub write_u64 : ℕ → Bytes
  pub write_i64 : ℤ → Bytes
  pub write_f32 : ℕ → Bytes
  pub write_f64 : ℕ → Bytes
  pub read_u8_lem :
      (n : ℕ) (rest : Bytes) → n < 2 ^ 8 → reads.read_u8 (write_u8 n ++ rest) ≡ ok (n, rest)
  pub read_u16_lem :
      (n : ℕ) (rest : Bytes) → n < 2 ^ 16 → reads.read_u16 (write_u16 n ++ rest) ≡ ok (n, rest)
  pub read_u32_lem :
      (n : ℕ) (rest : Bytes) → n < 2 ^ 32 → reads.read_u32 (write_u32 n ++ rest) ≡ ok (n, rest)
  pub read_u64_lem :
      (n : ℕ) (rest : Bytes) → n < 2 ^ 64 → reads.read_u64 (write_u64 n ++ rest) ≡ ok (n, rest)
  pub read_i8_lem :
      (z : ℤ) (rest : Bytes) → InSigned 8 z → reads.read_i8 (write_i8 z ++ rest) ≡ ok (z, rest)
  pub read_i16_lem :
      (z : ℤ) (rest : Bytes) → InSigned 16 z → reads.read_i16 (write_i16 z ++ rest) ≡ ok (z, rest)
  pub read_i32_lem :
      (z : ℤ) (rest : Bytes) → InSigned 32 z → reads.read_i32 (write_i32 z ++ rest) ≡ ok (z, rest)
  pub read_i64_lem :
      (z : ℤ) (rest : Bytes) → InSigned 64 z → reads.read_i64 (write_i64 z ++ rest) ≡ ok (z, rest)
  pub read_lenenc_lem :
      (s rest : Bytes)
      → length s < 2 ^ 64
      → reads.read_lenenc_int (flatten (writes.write_lenenc_str s) ++ rest)
        ≡ ok (length s, s ++ rest)
  pub length-write_u16 : (n : ℕ) → length (write_u16 n) ≡ 2
  pub length-write_u32 : (n : ℕ) → length (write_u32 n) ≡ 4
  pub length-write_u8 : (n : ℕ) → length (write_u8 n) ≡ 1
