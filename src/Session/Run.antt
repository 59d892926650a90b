-- ===== src/Session/Run.antt =====
-- lib.rs: what `AsyncMysqlIntermediary::run` does with each command.
pub mod Steps
pub mod Handlers
pub mod Keeps
use opensrv.Common.{
  ℕ, ◌+◌, ◌-◌, ◌%◌, ◌^◌, Bool, true, false, not, ◌&&◌, ◌||◌, Option, none, some, List, [], ◌∷◌,
  ◌++◌, Bytes, length, drop, ltb, leb, ◌==◌, if◌then◌else◌, Result, ok, err,
}
use opensrv.ErrorCodes.{
  ErrorKind, er_malformed_packet, er_max_prepared_stmt_count_reached, er_stmt_has_no_open_cursor,
  er_unknown_com_error, er_unknown_stmt_handler, er_unsupported_ps,
}
use opensrv.Deps.ByteOrder.{ByteOrder}
use opensrv.Deps.MysqlCommon.{Reads}
use opensrv.Deps.Writes.{Writes, Flags}
use opensrv.Wire.{IoError, invalid_data, invalid_input, incompatible_long_data}
use opensrv.Io.{Io, ◌>>=◌, ◌>>◌, pure, fail, modify, when}
use opensrv.Writer.{Peer, PacketWriter, flush_all, set_seq}
use opensrv.Writers.{
  Column, ColumnMetadata, status_response, write_err, write_ok_packet, write_eof_packet,
  write_prepare_ok,
}
use opensrv.Params.{Types, Params, validate, into_iter}
use opensrv.Session.Table.{
  Message, over_limits, not_utf8, statement_count, unsupported_execute, unknown_statement,
  invalid_parameters, no_open_cursor, no_reset_connection, bad_sequence, malformed_command,
  malformed_packet_for, unsupported_command, StatementData, find, put, Table, Limits,
  send_long_data, set_cursor, set_types, clear_long_data, forget_long_data, uncount, close, reset,
  insert, saturating_size,
}
use opensrv.Commands.{
  Command, query, list_fields, prepare, init, close_stmt, reset_stmt, fetch, execute, long_data,
  ping, reset_connection, quit,
}
use opensrv.Session.Backend.{
  InitResponse, Reply, PrepareAnswer, Call, Shim, Text, Settings, Session, starts_with,
  parameter_error, is_quit, select_upper, select_lower, use_upper, use_lower, prepared, declined,
  abandoned, pending, answered, refused,
}

module _ {B : Type 0} (peer : Peer) (byteorder : ByteOrder) (reads : Reads) (writes : Writes)
    (flags : Flags) (text : Text) (settings : Settings) (backend : Shim B) where
  abbrev Do : Type 0 → Type 0
  Do A = Io (Session B) A

  pub on_writer : {A : Type 0} → Io PacketWriter A → Io (Session B) A
  on_writer m s = let (r, w) = m s.writer in (r, record s { writer = w })

  pub on_backend : (B → B) → Io (Session B) (Unit {0})
  on_backend f s = (ok tt, record s { shim = f s.shim })

  pub on_table : (Table → Table) → Io (Session B) (Unit {0})
  on_table f s = (ok tt, record s { table = f s.table })

  pub send_err : ErrorKind → Message → Io (Session B) (Unit {0})
  send_err kind msg = on_writer (write_err peer byteorder writes flags kind (text.render msg))

  pub flush : Io (Session B) (Unit {0})
  flush = on_writer (flush_all peer)

  -- An error packet, after which the loop goes on.
  pub reject : ErrorKind → Message → Io (Session B) (Unit {0})
  reject kind msg = do send_err kind msg; flush

  pub send_ok : Io (Session B) (Unit {0})
  send_ok s =
      on_writer
        (write_ok_packet peer byteorder writes flags settings.client_capabilities
          (status_response s.status_flags))
        s

  -- A call of the backend, with the writer and the status flags.
  pub ask : {A : Type 0} → Call B A → Io (Session B) A
  ask call s =
      let reply = call s.shim s.writer s.status_flags in
      let s' : Session B = record s {
        shim = reply.backend;
        writer = reply.writer;
        status_flags = reply.status_flags;
      } in
      elim reply.result [ ok _ ↦ (ok reply.completion, s') | err e ↦ (err e, s') ]

  pub ensure_response_completed : Bool → Io (Session B) (Unit {0})
  ensure_response_completed completed = if completed then pure tt else fail invalid_data

  pub init_response : InitResponse → Io (Session B) (Unit {0})
  init_response InitResponse.pending = fail invalid_data
  init_response InitResponse.answered = pure tt
  init_response InitResponse.refused = pure tt

  pub handle_query : Bytes → Io (Session B) (Unit {0})
  handle_query q =
      if not (text.is_utf8 q)
      then reject er_malformed_packet (not_utf8 q)
      else if starts_with select_upper q || starts_with select_lower q
      then (do
        completion ← ask (backend.on_system_variable q)
        ensure_response_completed completion
        flush)
      else if not settings.process_use_statement_on_query
          && (starts_with use_upper q || starts_with use_lower q)
      then (do
        completion ← ask (backend.on_init (text.trim_schema (drop 4 q)))
        init_response completion
        flush)
      else (do completion ← ask (backend.on_query q); ensure_response_completed completion; flush)

  -- `StatementMetaWriter::reply_inner`
  pub reply_inner :
      ℕ
      → List (Column × ColumnMetadata)
      → List (Column × ColumnMetadata)
      → Io (Session B) (Unit {0})
  reply_inner id params columns s =
      if leb (2 ^ 16) (length params) || leb (2 ^ 16) (length columns)
      then fail invalid_input s
      else elim (find id s.table.stmts) [
        | some _ ↦ fail invalid_input s
        | none ↦
            (do
              on_writer (
                  write_prepare_ok peer byteorder writes flags id params columns
                    settings.client_capabilities s.status_flags)
              on_table (insert id (length params)))
              s
      ]

  pub answer_prepare : PrepareAnswer → Io (Session B) (Unit {0})
  answer_prepare (prepared id params columns) = reply_inner id params columns
  answer_prepare (declined kind msg) = on_writer (write_err peer byteorder writes flags kind msg)
  answer_prepare abandoned = fail invalid_data

  -- What the backend returned counts first, then whether its answer was completed.
  pub settle_prepare :
      Result IoError (Unit {0})
      → Result IoError (Unit {0})
      → B
      → Session B
      → Result IoError (Unit {0}) × Session B
  settle_prepare (err e) r b s = (err e, record s { shim = b })
  settle_prepare (ok _) (ok _) b s = (ok tt, record s { shim = b })
  settle_prepare (ok _) (err _) b s = (err invalid_data, record s { shim = b })

  -- The answer goes to the client before the backend returns.
  pub ask_prepare : Bytes → Io (Session B) (Unit {0})
  ask_prepare q s =
      let (answer, back) = backend.on_prepare q s.shim in
      let (r, s') = answer_prepare answer s in let (r', b) = back r in settle_prepare r' r b s'

  pub handle_prepare : Bytes → Io (Session B) (Unit {0})
  handle_prepare q s =
      let limit = settings.limits.max_prepared_statements in
      if leb limit (length s.table.stmts)
      then reject er_max_prepared_stmt_count_reached (statement_count limit) s
      else if not (text.is_utf8 q)
      then reject er_malformed_packet (not_utf8 q) s
      else (do ask_prepare q; flush) s

  -- A cursor that was not opened is closed.
  pub keep_cursor : ℕ → Option (List Column) → Io (Session B) (Unit {0})
  keep_cursor stmt none = on_backend (backend.on_close_cursor stmt)
  keep_cursor stmt (some columns) = pure tt

  -- An execution whose parameters were accepted. Reading them binds the same types again.
  pub run_statement : ℕ → ℕ → Params → Io (Session B) (Unit {0})
  run_statement stmt flags params =
      if flags == 1
      then (do
        (completion, columns) ← ask (backend.on_execute_cursor stmt params)
        ensure_response_completed completion
        on_table (set_cursor stmt columns)
        keep_cursor stmt columns
        on_table (clear_long_data stmt))
      else (do
        completion ← ask (backend.on_execute stmt params)
        ensure_response_completed completion
        on_table (set_cursor stmt none)
        on_table (clear_long_data stmt))

  -- A statement that exists, after its cursor was closed.
  pub execute_statement : ℕ → ℕ → Bytes → StatementData → Io (Session B) (Unit {0})
  execute_statement stmt flags params state = elim state.pending_error [
    | some (kind, message) ↦ do send_err kind message; flush
    | none ↦
        let (r, types) = validate reads state.params params state.long_data state.bound_types in
        elim r [
          | err e ↦ (do
            on_table (set_types stmt types)
            on_table (forget_long_data stmt)
            send_err (parameter_error e) (invalid_parameters e)
            flush
            on_table (uncount (saturating_size 0 state.long_data)))
          | ok _ ↦ (do
            on_table (set_types stmt types)
            run_statement stmt flags (into_iter state.params params state.long_data types)
            flush)
        ]
  ]

  pub handle_execute : ℕ → ℕ → ℕ → Bytes → Io (Session B) (Unit {0})
  handle_execute stmt flags iteration_count params s =
      if ltb 1 flags || not (iteration_count == 1)
      then reject er_unsupported_ps (unsupported_execute flags iteration_count) s
      else elim (find stmt s.table.stmts) [
        | none ↦ reject er_unknown_stmt_handler (unknown_statement stmt) s
        | some state ↦
            (do
              on_backend (backend.on_close_cursor stmt)
              on_table (set_cursor stmt none)
              execute_statement stmt flags params state)
              s
      ]

  pub fetch_rows : ℕ → ℕ → List Column → Io (Session B) (Unit {0})
  fetch_rows stmt rows columns = do
    (completion, exhausted) ← ask (backend.on_fetch stmt rows columns)
    ensure_response_completed completion
    if exhausted
        then (do on_table (set_cursor stmt none); on_backend (backend.on_close_cursor stmt))
        else pure tt
    flush

  pub handle_fetch : ℕ → ℕ → Io (Session B) (Unit {0})
  handle_fetch stmt rows s = elim (find stmt s.table.stmts) [
    | none ↦ reject er_unknown_stmt_handler no_open_cursor s
    | some state ↦ elim state.cursor_columns [
      | none ↦ reject er_stmt_has_no_open_cursor no_open_cursor s
      | some columns ↦ fetch_rows stmt rows columns s
    ]
  ]

  pub handle_reset : ℕ → Io (Session B) (Unit {0})
  handle_reset stmt s = elim (find stmt s.table.stmts) [
    | none ↦ reject er_unknown_stmt_handler (unknown_statement stmt) s
    | some state ↦
        (do on_backend (backend.on_close_cursor stmt); on_table (reset stmt state); send_ok; flush)
          s
  ]

  -- COM_STMT_SEND_LONG_DATA has no answer.
  pub handle_long_data : ℕ → ℕ → Bytes → Io (Session B) (Unit {0})
  handle_long_data stmt param data_ = do
    on_table (send_long_data settings.limits stmt param data_)
    flush

  -- COM_STMT_CLOSE has none either.
  pub handle_close : ℕ → Io (Session B) (Unit {0})
  handle_close stmt = do
    on_backend (backend.on_close_cursor stmt)
    on_backend (backend.on_close stmt)
    on_table (close stmt)
    flush

  pub handle_list_fields : Io (Session B) (Unit {0})
  handle_list_fields s =
      (do on_writer (write_eof_packet peer byteorder writes flags s.status_flags); flush) s

  pub handle_init : Bytes → Io (Session B) (Unit {0})
  handle_init schema =
      if not (text.is_utf8 schema)
      then reject er_malformed_packet (not_utf8 schema)
      else (do completion ← ask (backend.on_init schema); init_response completion; flush)

  -- `for id in stmts.keys() { self.shim.on_close_cursor(*id) }`
  pub close_cursors : List (ℕ × StatementData) → B → B
  close_cursors [] b = b
  close_cursors ((id, state) ∷ m) b = close_cursors m (backend.on_close_cursor id b)

  pub clear_session : Session B → Session B
  clear_session s = record s {
    shim = close_cursors s.table.stmts s.shim;
    table = record { stmts = []; total_long_data_size = 0 };
    status_flags = settings.initial_status_flags;
  }

  pub ask_reset : Io (Session B) Bool
  ask_reset s = let (r, b) = backend.on_reset_connection s.shim in (r, record s { shim = b })

  pub handle_reset_connection : Io (Session B) (Unit {0})
  handle_reset_connection = do
    accepted ← ask_reset
    if accepted
        then (do modify clear_session; send_ok)
        else send_err er_unknown_com_error no_reset_connection
    flush

  -- What a command other than COM_QUIT does.
  pub handle : Command → Io (Session B) (Unit {0})
  handle (query q) = handle_query q
  handle (list_fields args) = handle_list_fields
  handle (prepare q) = handle_prepare q
  handle (init schema) = handle_init schema
  handle (close_stmt stmt) = handle_close stmt
  handle (reset_stmt stmt) = handle_reset stmt
  handle (fetch stmt rows) = handle_fetch stmt rows
  handle (execute stmt flags iteration_count params) =
      handle_execute stmt flags iteration_count params
  handle (long_data stmt param data_) = handle_long_data stmt param data_
  handle ping = do send_ok; flush
  handle reset_connection = handle_reset_connection
  handle quit = pure tt

  pub dispatch : Result (ErrorKind × Message) Command → Io (Session B) (Unit {0})
  dispatch (ok command) = handle command
  dispatch (err (kind, message)) = reject kind message

  -- A packet: its last sequence number and its first, and the command that it holds, or the error that
  -- answers one that holds none.
  pub serve : ℕ → ℕ → Result (ErrorKind × Message) Command → Io (Session B) (Unit {0})
  serve seq first_seq command = do
    modify (λ s. record s { writer = set_seq ((seq + 1) % 2 ^ 8) s.writer })
    if not (first_seq == 0)
        then (do reject er_malformed_packet bad_sequence; fail invalid_data)
        else dispatch command

  -- The commands of a session, up to COM_QUIT or the end of the stream.
  pub run : List (ℕ × ℕ × Result (ErrorKind × Message) Command) → Io (Session B) (Unit {0})
  run [] = pure tt
  run ((seq, first_seq, command) ∷ packets) = do
    serve seq first_seq command
    if is_quit command then pure tt else run packets
