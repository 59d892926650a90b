-- ===== src/Encode/Strings.antt =====
-- mysql/src/value/encode.rs: a byte string is read back from what is written for it.
use opensrv.Common.{
  ◌^◌, ◌<◌, ◌≡◌, Bool, true, ◌++◌, Bytes, length, take-length-append, drop-length-append,
  length-append, leb, le→leb, flatten, ok, err, arith,
}
use opensrv.Deps.MysqlCommon.{ColumnType, Reads}
use opensrv.Deps.Writes.{Writes}
use opensrv.Deps.Numbers.{Numbers}
use opensrv.Wire.{IoError}
use opensrv.Value.{bytes, read_bytes, lenenc_bytes, parse_from}
use opensrv.Encode.{Encoded, holds_bytes, encode_bytes}

-- `read_bytes!` of as many bytes as there are before the rest.
pub read_bytes-append : (s rest : Bytes) → read_bytes (length s) (s ++ rest) ≡ ok (s, rest)
unfolding read_bytes
read_bytes-append s rest =
    let fits : leb (length s) (length (s ++ rest)) ≡ true =
      le→leb _ _ (omega (arith, length-append s rest)) in
    rw (fits, take-length-append s rest, drop-length-append s rest)

module _ {reads : Reads} {writes : Writes} (numbers : Numbers reads writes) where
  lenenc_bytes_lem :
      (s rest : Bytes)
      → length s < 2 ^ 64
      → lenenc_bytes reads (flatten (writes.write_lenenc_str s) ++ rest) ≡ ok (bytes s, rest)
  unfolding lenenc_bytes
  lenenc_bytes_lem s rest h = rw (numbers.read_lenenc_lem s rest h, read_bytes-append s rest)

  -- A byte string as a parameter or a value of a row: bytes that are read back, or a refusal.
  pub data Restored (s : Bytes) (t : ColumnType) (unsigned : Bool) : Encoded → Type 0 where
    restored :
        {written : Bytes}
        → ((rest : Bytes) → parse_from reads (written ++ rest) t unsigned ≡ ok (bytes s, rest))
        → Restored s t unsigned (ok written)
    refused : {e : IoError} → Restored s t unsigned (err e)

  -- A byte string of less than 2 ^ 64 bytes is written, for each type of column, as bytes that
  -- `parse_from` reads back as that byte string whatever follows, or is refused.
  pub encode_bytes-Restored :
      (s : Bytes) (t : ColumnType) (unsigned : Bool)
      → length s < 2 ^ 64
      → Restored s t unsigned (encode_bytes writes s t)
  unfolding encode_bytes holds_bytes parse_from
  encode_bytes-Restored s ColumnType.string unsigned h =
      restored (λ rest. lenenc_bytes_lem s rest h)
  encode_bytes-Restored s ColumnType.var_string unsigned h =
      restored (λ rest. lenenc_bytes_lem s rest h)
  encode_bytes-Restored s ColumnType.blob unsigned h = restored (λ rest. lenenc_bytes_lem s rest h)
  encode_bytes-Restored s ColumnType.tiny_blob unsigned h =
      restored (λ rest. lenenc_bytes_lem s rest h)
  encode_bytes-Restored s ColumnType.medium_blob unsigned h =
      restored (λ rest. lenenc_bytes_lem s rest h)
  encode_bytes-Restored s ColumnType.long_blob unsigned h =
      restored (λ rest. lenenc_bytes_lem s rest h)
  encode_bytes-Restored s ColumnType.set unsigned h = restored (λ rest. lenenc_bytes_lem s rest h)
  encode_bytes-Restored s ColumnType.enum unsigned h = restored (λ rest. lenenc_bytes_lem s rest h)
  encode_bytes-Restored s ColumnType.decimal unsigned h =
      restored (λ rest. lenenc_bytes_lem s rest h)
  encode_bytes-Restored s ColumnType.varchar unsigned h =
      restored (λ rest. lenenc_bytes_lem s rest h)
  encode_bytes-Restored s ColumnType.bit unsigned h = restored (λ rest. lenenc_bytes_lem s rest h)
  encode_bytes-Restored s ColumnType.newdecimal unsigned h =
      restored (λ rest. lenenc_bytes_lem s rest h)
  encode_bytes-Restored s ColumnType.geometry unsigned h =
      restored (λ rest. lenenc_bytes_lem s rest h)
  encode_bytes-Restored s ColumnType.json unsigned h = restored (λ rest. lenenc_bytes_lem s rest h)
  encode_bytes-Restored s ColumnType.tiny unsigned h = refused
  encode_bytes-Restored s ColumnType.short unsigned h = refused
  encode_bytes-Restored s ColumnType.year unsigned h = refused
  encode_bytes-Restored s ColumnType.long unsigned h = refused
  encode_bytes-Restored s ColumnType.int24 unsigned h = refused
  encode_bytes-Restored s ColumnType.longlong unsigned h = refused
  encode_bytes-Restored s ColumnType.float unsigned h = refused
  encode_bytes-Restored s ColumnType.double unsigned h = refused
  encode_bytes-Restored s ColumnType.timestamp unsigned h = refused
  encode_bytes-Restored s ColumnType.datetime unsigned h = refused
  encode_bytes-Restored s ColumnType.date unsigned h = refused
  encode_bytes-Restored s ColumnType.time unsigned h = refused
  encode_bytes-Restored s ColumnType.null unsigned h = refused
  encode_bytes-Restored s (ColumnType.unnamed n) unsigned h = refused
