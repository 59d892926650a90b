-- ===== src/Results/Cursor.antt =====
-- mysql/src/resultset.rs: cursors, `CursorExecuteWriter` and `CursorFetchWriter`.
pub mod Limit
use opensrv.Common.{
  ℕ, ◌+◌, ◌-◌, ◌^◌, bit_or, Bool, true, false, not, ◌&&◌, ◌||◌, Option, none, some, List, [], Bytes,
  length, is_nil, leb, ◌==◌, if◌then◌else◌, Result, ok, err,
}
use opensrv.ErrorCodes.{ErrorKind}
use opensrv.Deps.ByteOrder.{ByteOrder}
use opensrv.Deps.Writes.{Writes, Flags}
use opensrv.Wire.{IoError, invalid_data, invalid_input}
use opensrv.Io.{Io, ◌>>=◌, ◌>>◌, pure, fail, modify}
use opensrv.Charset.{Charsets, validate_metadata}
use opensrv.Writer.{Peer}
use opensrv.Writers.{
  Column, ColumnMetadata, OkResponse, contains, status_response, column_definitions,
}
use opensrv.Results.{
  Finalizer, finish_ok, finish_eof, QueryResultWriter, on_writer, session_status_flags,
  no_more_results, error,
}
use opensrv.Results.Rows.{RowWriter, with_metadata, row_writer, on_result, end_row, finish_error}

pub record CursorExecuteWriter : Type 0 where
  pub result : QueryResultWriter
  pub cursor_columns : Option (List Column)

pub record CursorFetchWriter : Type 0 where
  pub rows : RowWriter
  pub remaining : ℕ
  pub exhausted : Bool

-- `CursorFetchWriter::new`
unfoldable pub fetch_writer : QueryResultWriter → List Column → ℕ → CursorFetchWriter
fetch_writer q columns limit = record {
  rows = row_writer q columns;
  remaining = limit;
  exhausted = false;
}

module _ (flags : Flags) (peer : Peer) (byteorder : ByteOrder) (writes : Writes) where
  pub cursor_finalizer : ℕ → ℕ → Finalizer
  cursor_finalizer capabilities status =
      if contains capabilities flags.client_deprecate_eof
      then finish_ok (record (status_response status) { header = 0xfe })
      else finish_eof status

  pub on_execute : {A : Type 0} → Io QueryResultWriter A → Io CursorExecuteWriter A
  on_execute m s = let (r, q) = m s.result in (r, record s { result = q })

  -- The definitions of the columns, and the one end of the response.
  pub announce : List Column → List ColumnMetadata → Io QueryResultWriter (Unit {0})
  announce columns metadata q =
      let status =
        bit_or (session_status_flags flags q.default_status_flags)
          flags.server_status_cursor_exists in
      (do
        on_writer flags peer byteorder writes (
            column_definitions peer byteorder writes flags (with_metadata columns metadata)
              (bit_or q.client_capabilities flags.client_deprecate_eof) status)
        modify (λ q. record q { last_end = some (cursor_finalizer q.client_capabilities status) })
        no_more_results flags peer byteorder writes)
        q

  pub open_checked :
      Result IoError (Unit {0})
      → List Column
      → List ColumnMetadata
      → Io CursorExecuteWriter (Unit {0})
  open_checked (err e) columns metadata = fail e
  open_checked (ok _) columns metadata =
      if is_nil columns || leb (2 ^ 16) (length columns) then fail invalid_input else (do
        on_execute (announce columns metadata)
        modify (λ s. record s { cursor_columns = some columns }))

  -- `CursorExecuteWriter::open`
  pub open_cursor : Charsets → List Column → List ColumnMetadata → Io CursorExecuteWriter (Unit {0})
  open_cursor charsets columns metadata =
      open_checked (validate_metadata charsets columns metadata) columns metadata

  -- `CursorExecuteWriter::error`
  pub refuse_cursor : ErrorKind → Bytes → Io CursorExecuteWriter (Unit {0})
  refuse_cursor kind msg = on_execute (error flags peer byteorder writes kind msg)

  pub on_rows : {A : Type 0} → Io RowWriter A → Io CursorFetchWriter A
  on_rows m s = let (r, w) = m s.rows in (r, record s { rows = w })

  -- The backend encodes the columns of a row.
  pub write_row_with : Io RowWriter (Unit {0}) → Io CursorFetchWriter (Unit {0})
  write_row_with encode s =
      if s.remaining == 0
      then fail invalid_input s
      else (do
        on_rows encode
        on_rows (end_row flags peer byteorder writes)
        modify (λ s. record s { remaining = s.remaining - 1 }))
          s

  pub end_batch : Bool → Io QueryResultWriter (Unit {0})
  end_batch exhausted = do
    modify (λ q. record q {
      last_end = some (
          cursor_finalizer q.client_capabilities (
            bit_or (session_status_flags flags q.default_status_flags) (
              if exhausted
              then flags.server_status_last_row_sent
              else flags.server_status_cursor_exists)));
    })
    no_more_results flags peer byteorder writes

  -- `CursorFetchWriter::finish`
  pub finish_fetch : Bool → Io CursorFetchWriter (Unit {0})
  finish_fetch exhausted s =
      if not (s.rows.col == 0)
      then fail invalid_data s
      else (do
        on_rows (on_result flags peer byteorder writes (end_batch exhausted))
        modify (λ s. record s { exhausted = exhausted }))
          s

  -- `CursorFetchWriter::error`
  pub fail_fetch : ErrorKind → Bytes → Io CursorFetchWriter (Unit {0})
  fail_fetch kind msg = do
    modify (λ s. record s { exhausted = true })
    on_rows (finish_error flags peer byteorder writes kind msg)
