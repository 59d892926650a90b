-- ===== src/Results/Rows.antt =====
-- mysql/src/resultset.rs: the rows of a result, `RowWriter`.
pub mod Buffers
pub mod Restores
pub mod NullBits
pub mod Marks
pub mod Bitmap
use opensrv.Common.{
  ℕ, zero, suc, ◌+◌, ◌-◌, ◌*◌, ◌/◌, ◌%◌, ◌^◌, bit_or, Bool, true, false, not, ◌&&◌, ◌||◌, Option,
  none, some, List, [], ◌∷◌, ◌++◌, Bytes, length, replicate, take, is_nil, get_elem?, ltb, leb,
  ◌==◌, if◌then◌else◌, Result, ok, err, map,
}
use opensrv.ErrorCodes.{ErrorKind}
use opensrv.Deps.ByteOrder.{ByteOrder}
use opensrv.Deps.Writes.{Writes, Flags}
use opensrv.Wire.{IoError, invalid_data, invalid_input, usize_mod}
use opensrv.Io.{Io, ◌>>=◌, ◌>>◌, pure, fail, modify, when}
use opensrv.Charset.{Charsets, validate_metadata}
use opensrv.Writer.{Peer, PacketWriter, remaining_packet_capacity, write_packet}
use opensrv.Writers.{
  Column, ColumnMetadata, OkResponse, contains, status_response, column_definitions,
}
use opensrv.Results.{
  Finalizer, finish_ok, finish_eof, QueryResultWriter, on_writer, finalize, session_status_flags,
  no_more_results, error, set_status_flags,
}

-- `RowBufferWriter`: the buffer of a row, and the bytes that a packet can still take.
pub record RowBufferWriter : Type 0 where
  pub buffer : Bytes
  pub limit : ℕ

pub write : Bytes → Io RowBufferWriter (Unit {0})
write buf s =
    let new_len = length s.buffer + length buf in
    if leb usize_mod new_len || ltb s.limit new_len
    then fail invalid_data s
    else (ok tt, record s { buffer = s.buffer ++ buf })

-- The writes of a value, the first failure of which ends it, and how it ends otherwise.
pub write_encoded : List Bytes → Result IoError (Unit {0}) → Io RowBufferWriter (Unit {0})
write_encoded [] end s = (end, s)
write_encoded (p ∷ ps) end s = (do write p; write_encoded ps end) s

-- An implementation of `ToMysqlValue`: what it writes for a column, with its own result.
pub record Value : Type 0 where
  pub is_null : Bool
  pub to_mysql_bin : Column → List Bytes × Result IoError (Unit {0})
  pub to_mysql_text : Column → List Bytes × Result IoError (Unit {0})

pub record RowWriter : Type 0 where
  pub client_capabilities : ℕ
  pub result : QueryResultWriter
  pub bitmap_len : ℕ
  pub row_data : Bytes
  pub columns : List Column
  pub col : ℕ
  pub finished : Bool

-- `data[i] |= bits`, which panics out of range.
pub or_at : ℕ → ℕ → Bytes → Bytes
or_at i bits [] = []
or_at zero bits (b ∷ bs) = bit_or b bits ∷ bs
or_at (suc i) bits (b ∷ bs) = b ∷ or_at i bits bs

-- `Vec::resize`
pub resize : ℕ → Bytes → Bytes
resize n row_bytes = take n row_bytes ++ replicate (n - length row_bytes) 0

default_column_metadata : Column → Column × ColumnMetadata
default_column_metadata c = (c, record { collation = none; decimals = 0 })

pub with_metadata : List Column → List ColumnMetadata → List (Column × ColumnMetadata)
with_metadata (c ∷ cs) (m ∷ ms) = (c, m) ∷ with_metadata cs ms
with_metadata _ _ = []

pub described : List Column → Option (List ColumnMetadata) → List (Column × ColumnMetadata)
described columns none = map default_column_metadata columns
described columns (some metadata) = with_metadata columns metadata

-- `RowWriter::new`, up to `start`
unfoldable pub row_writer : QueryResultWriter → List Column → RowWriter
row_writer q columns = record {
  client_capabilities = q.client_capabilities;
  result = q;
  bitmap_len = (length columns + 7 + 2) / 8;
  row_data = [];
  columns = columns;
  col = 0;
  finished = false;
}

-- A value that fails leaves none of its bytes.
pub keep_or_truncate :
    ℕ → Result IoError (Unit {0}) → RowWriter → Result IoError (Unit {0}) × RowWriter
keep_or_truncate checkpoint (ok _) s = (ok tt, record s { col = s.col + 1 })
keep_or_truncate checkpoint (err e) s = (err e, record s { row_data = take checkpoint s.row_data })

pub encode_value : ℕ → ℕ → List Bytes × Result IoError (Unit {0}) → Io RowWriter (Unit {0})
encode_value checkpoint capacity (pieces, end) s =
    let (r, b) = write_encoded pieces end (record { buffer = s.row_data; limit = capacity }) in
    keep_or_truncate checkpoint r (record s { row_data = b.buffer })

-- The first value of a binary row comes behind a header and the bitmap of NULLs.
pub write_header : ℕ → Io RowWriter (Unit {0})
write_header capacity s =
    if s.col == 0
    then if ltb capacity (1 + s.bitmap_len)
      then fail invalid_data s
      else (ok tt, record s { row_data = resize (1 + s.bitmap_len) s.row_data })
    else pure tt s

module _ (flags : Flags) where
  pub write_null : ℕ → Column → Io RowWriter (Unit {0})
  write_null checkpoint c s =
      if contains c.colflags flags.not_null_flag
      then fail invalid_data s
      else keep_or_truncate checkpoint (ok tt)
          (record s { row_data = or_at (1 + (s.col + 2) / 8) (2 ^ ((s.col + 2) % 8)) s.row_data })

  pub write_bin : ℕ → ℕ → Value → Column → Io RowWriter (Unit {0})
  write_bin checkpoint capacity v c s =
      if v.is_null
      then write_null checkpoint c s
      else encode_value checkpoint capacity (v.to_mysql_bin c) s

  pub write_value : Value → Column → Io RowWriter (Unit {0})
  write_value v c s =
      let checkpoint = length s.row_data in
      let capacity = remaining_packet_capacity s.result.writer in
      if s.result.is_bin
      then (do write_header capacity; write_bin checkpoint capacity v c) s
      else encode_value checkpoint capacity (v.to_mysql_text c) s

  pub write_column_of : Value → Option Column → Io RowWriter (Unit {0})
  write_column_of v none = fail invalid_data
  write_column_of v (some c) = write_value v c

  pub write_col : Value → Io RowWriter (Unit {0})
  write_col v s =
      if is_nil s.columns then pure tt s else write_column_of v (get_elem? s.columns s.col) s

module _ (flags : Flags) (peer : Peer) (byteorder : ByteOrder) (writes : Writes) where
  pub on_result : {A : Type 0} → Io QueryResultWriter A → Io RowWriter A
  on_result m s = let (r, q) = m s.result in (r, record s { result = q })

  pub start_rows : Option (List ColumnMetadata) → Io RowWriter (Unit {0})
  start_rows metadata s =
      if is_nil s.columns
      then pure tt s
      else on_result
          (on_writer flags peer byteorder writes (
            column_definitions peer byteorder writes flags (described s.columns metadata)
              s.client_capabilities s.result.default_status_flags))
          s

  -- `QueryResultWriter::start`; the rows' writer is the state that comes back.
  unfoldable pub start_result :
      List Column
      → Option (List ColumnMetadata)
      → QueryResultWriter
      → Result IoError (Unit {0}) × RowWriter
  start_result columns metadata q =
      let (r, q') = finalize flags peer byteorder writes true q in
      then_rows r (row_writer q' columns)
    where
      then_rows : Result IoError (Unit {0}) → RowWriter → Result IoError (Unit {0}) × RowWriter
      then_rows (ok _) s = start_rows metadata s
      then_rows (err e) s = (err e, s)

  pub start_with_metadata :
      Charsets
      → List Column
      → List ColumnMetadata
      → QueryResultWriter
      → Result IoError (Unit {0}) × RowWriter
  start_with_metadata charsets columns metadata q =
      elim (validate_metadata charsets columns metadata) [
        | ok _ ↦ start_result columns (some metadata) q
        | err e ↦ (err e, row_writer q columns)
      ]

  pub end_row : Io RowWriter (Unit {0})
  end_row s =
      if is_nil s.columns
      then (ok tt, record s { col = s.col + 1 })
      else if not (s.col == length s.columns)
      then fail invalid_data s
      else (do
        on_result (on_writer flags peer byteorder writes (write_packet peer byteorder s.row_data))
        modify (λ s. record s { row_data = []; col = 0 }))
          s

  pub write_cols : List Value → Io RowWriter (Unit {0})
  write_cols [] = pure tt
  write_cols (v ∷ vs) = do write_col flags v; write_cols vs

  pub write_row : List Value → Io RowWriter (Unit {0})
  write_row row s = (do when (not (is_nil s.columns)) (write_cols row); end_row) s

  -- How the rows end: with an OK packet where there are no columns or EOF is deprecated.
  pub row_end : Bytes → RowWriter → Finalizer
  row_end info s =
      let status = s.result.default_status_flags in
      if is_nil s.columns
      then finish_ok (record (status_response status) { info = info })
      else if contains s.client_capabilities flags.client_deprecate_eof
      then finish_ok (record (status_response status) { header = 0xfe; info = info })
      else finish_eof status

  pub end_result : Bytes → Io RowWriter (Unit {0})
  end_result info s =
      on_result
        (modify (λ q. record q {
          last_end = some (row_end info s);
          default_status_flags = session_status_flags flags s.result.default_status_flags;
        }))
        s

  -- `finish_inner` with `complete`
  pub finish_inner : Bytes → Io RowWriter (Unit {0})
  finish_inner info s =
      if s.finished
      then pure tt s
      else (do
        modify (λ s. record s { finished = true })
        if not (is_nil s.columns) && not (s.col == 0) then end_row else pure tt
        end_result info)
          s

  -- `finish_with_info`
  pub finish : Bytes → Io RowWriter (Unit {0})
  finish info = do finish_inner info; on_result (no_more_results flags peer byteorder writes)

  pub finish_error : ErrorKind → Bytes → Io RowWriter (Unit {0})
  finish_error kind msg = do
    modify (λ s. record s { finished = true; col = 0; row_data = [] })
    on_result (error flags peer byteorder writes kind msg)
