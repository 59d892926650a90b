-- ===== src/Examples/Responses.antt =====
-- mysql/src/resultset.rs: responses, rows and a FETCH.
use opensrv.Common.{true, false, refl, none, some, [], ◌∷◌, ok, arith, inl}
use opensrv.ErrorCodes.{er_access_denied_error}
use opensrv.Deps.MysqlCommon.{ColumnType}
use opensrv.Writers.{contains, Column, status_response}
use opensrv.Writer.{remaining_packet_capacity}
use opensrv.Results.{
  required, Finalizer, QueryResultWriter, completed, completed_with_status, no_more_results, error,
}
use opensrv.Results.Completes.{
  takes_several, Completes, response-Completes, OnlyOne, complete_one_with_status-OnlyOne,
}
use opensrv.Results.Rows.{Value, RowWriter, row_writer, write_col, write_cols}
use opensrv.Results.Rows.Buffers.{Wrote, IsNext}
use opensrv.Results.Rows.Restores.{write_col-Wrote}
use opensrv.Results.Rows.Bitmap.{Nulled, write_cols-Nulled}
use opensrv.Results.Sequence.{Agrees, Ending, respond, packets, respond-Agrees}
use opensrv.Results.Cursor.{fetch_writer}
use opensrv.Results.Cursor.Limit.{Sends, write_batch, send_batch, write_batch-Sends}
use opensrv.Examples.Crates.{byteorder}
use opensrv.Examples.Sessions.{writes, flags, ready, fresh}

abbrev open_response : QueryResultWriter
open_response = record {
  is_bin = true;
  client_capabilities = 512;
  writer = fresh.writer;
  last_end = some (Finalizer.finish_eof 2);
  default_status_flags = 2;
  session_status = 2;
  completion = false;
}

abbrev column : Column
column = record {
  table = [];
  column = 0x61 ∷ [];
  collen = 0;
  coltype = ColumnType.long;
  colflags = 0;
}

-- A row of one column.
abbrev row : RowWriter
row = row_writer open_response (column ∷ [])

abbrev seven : Value
seven = record {
  is_null = false;
  to_mysql_bin = λ c. ((7 ∷ 0 ∷ []) ∷ (0 ∷ 0 ∷ []) ∷ [], ok tt);
  to_mysql_text = λ c. ((1 ∷ 0x37 ∷ []) ∷ [], ok tt);
}

response-Completes_example :
    Completes false (completed flags ready byteorder writes (status_response 2) open_response)
    × Completes false
        (completed_with_status flags ready byteorder writes (status_response 2) open_response)
    × Completes false (no_more_results flags ready byteorder writes open_response)
    × Completes false (error flags ready byteorder writes er_access_denied_error [] open_response)
response-Completes_example =
    response-Completes flags ready byteorder writes open_response refl (status_response 2)
      er_access_denied_error []

complete_one_with_status-OnlyOne_example :
    OnlyOne flags ready byteorder writes
      (status_response 2)
      (status_response 0)
      er_access_denied_error
      []
      (column ∷ [])
      none
      (record open_response { last_end = none })
unfolding takes_several contains
complete_one_with_status-OnlyOne_example =
    complete_one_with_status-OnlyOne flags ready byteorder writes (status_response 2)
      (status_response 0) er_access_denied_error [] (column ∷ []) none open_response refl

write_col-Wrote_example :
    Wrote
      (remaining_packet_capacity fresh.writer)
      row
      (IsNext flags.not_null_flag seven (some column) row)
      (write_col flags seven row)
unfolding row_writer
write_col-Wrote_example = write_col-Wrote flags seven row refl (λ _. inl refl) (omega arith)

write_batch-Sends_example :
    Sends
      (write_batch flags ready byteorder writes
        (write_col flags seven ∷ write_col flags seven ∷ [])
        (fetch_writer open_response (column ∷ []) 1))
      (send_batch flags ready byteorder writes 1
        (write_col flags seven ∷ write_col flags seven ∷ [])
        (row_writer open_response (column ∷ [])))
unfolding fetch_writer
write_batch-Sends_example =
    write_batch-Sends flags ready byteorder writes
      (write_col flags seven ∷ write_col flags seven ∷ [])
      (fetch_writer open_response (column ∷ []) 1)

-- A client that takes several results to an execute.
abbrev several : QueryResultWriter
several = record open_response { client_capabilities = flags.client_ps_multi_results }

respond-Agrees_example :
    Agrees
      (respond flags ready byteorder writes
        (status_response 2 ∷ status_response 0 ∷ [])
        (Ending.failing er_access_denied_error [])
        (record several { last_end = none }))
      (packets flags ready byteorder writes several.client_capabilities
        (status_response 2)
        (status_response 0 ∷ [])
        (Ending.failing er_access_denied_error [])
        several.writer)
unfolding contains required
respond-Agrees_example =
    respond-Agrees flags ready byteorder writes refl (status_response 2) (status_response 0 ∷ [])
      (Ending.failing er_access_denied_error []) several refl

abbrev no_value : Value
no_value = record seven { is_null = true }

write_cols-Nulled_example : Nulled (column ∷ column ∷ []) (no_value ∷ seven ∷ []) (
    write_cols flags ready byteorder writes
      (no_value ∷ seven ∷ [])
      (row_writer open_response (column ∷ column ∷ [])))
write_cols-Nulled_example =
    write_cols-Nulled flags ready byteorder writes open_response (column ∷ column ∷ [])
      (no_value ∷ seven ∷ []) refl refl
