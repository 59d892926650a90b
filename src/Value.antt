-- ===== src/Value.antt =====
-- mysql/src/value/decode.rs: one value of the binary protocol.
use opensrv.Common.{
  ℕ, Bool, true, false, ◌||◌, List, [], ◌∷◌, Bytes, length, take, drop, leb, ◌==◌, if◌then◌else◌,
  ok, err, ◌>>=◌,
}
use opensrv.Deps.MysqlCommon.{ColumnType, ℤ, ReadResult, Reads}
use opensrv.Wire.{invalid_data, invalid_input, unexpected_eof}

pub data ValueInner : Type 0 where
  null : ValueInner
  bytes : Bytes → ValueInner
  int : ℤ → ValueInner
  uint : ℕ → ValueInner
  double : ℕ → ValueInner
  date time datetime : Bytes → ValueInner

-- `read_bytes!`
unfoldable pub read_bytes : ℕ → Bytes → ReadResult Bytes
read_bytes len input =
    if leb len (length input) then ok (take len input, drop len input) else err unexpected_eof

unfoldable pub contains : List ℕ → ℕ → Bool
contains [] n = false
contains (x ∷ xs) n = x == n || contains xs n

module _ (reads : Reads) where
  unfoldable pub read_temporal : List ℕ → Bytes → ReadResult Bytes
  read_temporal lengths input = do
    (len, input) ← reads.read_u8 input
    if contains lengths len then read_bytes len input else err invalid_data

  abbrev value_of : {A : Type 0} → (A → ValueInner) → ReadResult A → ReadResult ValueInner
  value_of f r = r >>= λ (a, rest). ok (f a, rest)

  -- A number, signed or not.
  abbrev number :
      Bool → (Bytes → ReadResult ℕ) → (Bytes → ReadResult ℤ) → Bytes → ReadResult ValueInner
  number true u i input = value_of uint (u input)
  number false u i input = value_of int (i input)

  unfoldable pub lenenc_bytes : Bytes → ReadResult ValueInner
  lenenc_bytes input = do
    (len, input) ← reads.read_lenenc_int input
    value_of bytes (read_bytes len input)

  -- `ValueInner::parse_from`: the value and the input that is left.
  unfoldable pub parse_from : Bytes → ColumnType → Bool → ReadResult ValueInner
  parse_from input ColumnType.string unsigned = lenenc_bytes input
  parse_from input ColumnType.var_string unsigned = lenenc_bytes input
  parse_from input ColumnType.blob unsigned = lenenc_bytes input
  parse_from input ColumnType.tiny_blob unsigned = lenenc_bytes input
  parse_from input ColumnType.medium_blob unsigned = lenenc_bytes input
  parse_from input ColumnType.long_blob unsigned = lenenc_bytes input
  parse_from input ColumnType.set unsigned = lenenc_bytes input
  parse_from input ColumnType.enum unsigned = lenenc_bytes input
  parse_from input ColumnType.decimal unsigned = lenenc_bytes input
  parse_from input ColumnType.varchar unsigned = lenenc_bytes input
  parse_from input ColumnType.bit unsigned = lenenc_bytes input
  parse_from input ColumnType.newdecimal unsigned = lenenc_bytes input
  parse_from input ColumnType.geometry unsigned = lenenc_bytes input
  parse_from input ColumnType.json unsigned = lenenc_bytes input
  parse_from input ColumnType.tiny unsigned = number unsigned reads.read_u8 reads.read_i8 input
  parse_from input ColumnType.short unsigned = number unsigned reads.read_u16 reads.read_i16 input
  parse_from input ColumnType.year unsigned = number unsigned reads.read_u16 reads.read_i16 input
  parse_from input ColumnType.long unsigned = number unsigned reads.read_u32 reads.read_i32 input
  parse_from input ColumnType.int24 unsigned = number unsigned reads.read_u32 reads.read_i32 input
  parse_from input ColumnType.longlong unsigned =
      number unsigned reads.read_u64 reads.read_i64 input
  parse_from input ColumnType.float unsigned =
      value_of (λ f. double (reads.widen f)) (reads.read_f32 input)
  parse_from input ColumnType.double unsigned = value_of double (reads.read_f64 input)
  parse_from input ColumnType.timestamp unsigned =
      value_of datetime (read_temporal (0 ∷ 4 ∷ 7 ∷ 11 ∷ 13 ∷ []) input)
  parse_from input ColumnType.datetime unsigned =
      value_of datetime (read_temporal (0 ∷ 4 ∷ 7 ∷ 11 ∷ 13 ∷ []) input)
  parse_from input ColumnType.date unsigned =
      value_of date (read_temporal (0 ∷ 4 ∷ 7 ∷ 11 ∷ []) input)
  parse_from input ColumnType.time unsigned = value_of time (read_temporal (0 ∷ 8 ∷ 12 ∷ []) input)
  parse_from input ColumnType.null unsigned = ok (null, input)
  parse_from input (ColumnType.unnamed t) unsigned = err invalid_input
