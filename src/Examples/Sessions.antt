-- ===== src/Examples/Sessions.antt =====
-- lib.rs: a session that prepares a statement, streams data to it and closes it.
use opensrv.Common.{
  ℕ, ◌/◌, ◌%◌, ◌^◌, true, false, none, List, [], ◌∷◌, Bytes, Result, ok, arith, refl,
}
use opensrv.ErrorCodes.{ErrorKind}
use opensrv.Deps.Writes.{Writes, Flags}
use opensrv.Writer.{Peer, accepts, flushed}
use opensrv.Session.Table.{Limits, Message, StatementData, new_statement, Table}
use opensrv.Session.Table.Chunks.{send_all}
use opensrv.Session.Table.Stream.{Streamed, send_all-Streamed}
use opensrv.Session.Table.Served.{empty-IsServed}
use opensrv.Commands.{Command}
use opensrv.Session.Backend.{InitResponse, PrepareAnswer, Call, Shim, Text, Settings, Session}
use opensrv.Session.Run.{serve, run}
use opensrv.Session.Run.Steps.{Kept}
use opensrv.Session.Run.Keeps.{serve-Kept, run-Kept}
use opensrv.Examples.Crates.{byteorder, reads}

abbrev pub writes : Writes
writes = record {
  write_u16 = λ n. n % 2 ^ 8 ∷ n / 2 ^ 8 ∷ [];
  write_u32 = λ n. n % 2 ^ 8 ∷ n / 2 ^ 8 % 2 ^ 8 ∷ n / 2 ^ 16 % 2 ^ 8 ∷ n / 2 ^ 24 ∷ [];
  write_lenenc_int = λ n. (n ∷ []) ∷ [];
  write_lenenc_str = λ s. s ∷ [];
  coltype_code = λ _. 253;
  write_u16_lem = λ n h. refl;
}

abbrev pub flags : Flags
flags = record {
  client_protocol_41 = 512;
  client_transactions = 8192;
  client_session_track = 8388608;
  client_deprecate_eof = 16777216;
  server_session_state_changed = 16384;
  server_status_in_trans = 1;
  server_status_autocommit = 2;
  server_status_no_backslash_escapes = 512;
  server_status_in_trans_readonly = 8192;
  binary_flag = 128;
  blob_flag = 16;
  utf8mb4_general_ci = 45;
  client_multi_results = 131072;
  client_ps_multi_results = 262144;
  server_more_results_exists = 8;
  server_status_cursor_exists = 64;
  server_status_last_row_sent = 128;
  not_null_flag = 1;
}

abbrev pub ready : Peer
ready = record { on_write = λ _. accepts 64; on_flush = λ _. flushed }

abbrev pub text : Text
text = record { is_utf8 = λ _. true; trim_schema = λ s. s; render = λ _. [] }

abbrev limits : Limits
limits = record {
  max_long_data_size = 4;
  max_connection_long_data_size = 6;
  max_prepared_statements = 1;
}

abbrev settings : Settings
settings = record {
  client_capabilities = 512;
  process_use_statement_on_query = false;
  limits = limits;
  initial_status_flags = 2;
}

-- A backend without a state, which completes whatever it is asked.
abbrev pub done : {A : Type 0} → A → Call (Unit {0}) A
done a b w s = record { backend = b; writer = w; status_flags = s; completion = a; result = ok tt }

abbrev backend : Shim (Unit {0})
backend = record {
  on_query = λ q. done true;
  on_system_variable = λ q. done true;
  on_init = λ schema. done InitResponse.answered;
  on_prepare = λ q b. (PrepareAnswer.prepared 1 [] [], λ r. (r, b));
  on_execute = λ stmt params. done true;
  on_execute_cursor = λ stmt params. done (true, none);
  on_fetch = λ stmt rows columns. done (true, true);
  on_close = λ stmt b. b;
  on_close_cursor = λ stmt b. b;
  on_reset_connection = λ b. (ok true, b);
}

abbrev pub fresh : Session (Unit {0})
fresh = record {
  shim = tt;
  writer = record {
    packet_builder = record { buffer = []; seq = 0; max_packet_size = 1024 };
    output_stream = record { written = []; calls = 0; flushes = 0 };
    flush_threshold = 0;
    write_timeout = none;
  };
  status_flags = 2;
  table = record { stmts = []; total_long_data_size = 0 };
}

abbrev packets : List (ℕ × ℕ × Result (ErrorKind × Message) Command)
packets =
    (0, 0, ok (Command.prepare (63 ∷ [])))
    ∷ (0, 0, ok (Command.long_data 1 0 (7 ∷ 7 ∷ [])))
    ∷ (0, 0, ok (Command.close_stmt 1))
    ∷ (0, 0, ok Command.quit)
    ∷ []

serve-Kept_example : Kept limits (
    serve ready byteorder reads writes flags text settings backend 0 0
      (ok (Command.prepare (63 ∷ [])))
      fresh)
serve-Kept_example =
    serve-Kept ready byteorder reads writes flags text settings backend (omega arith) 0 0
      (ok (Command.prepare (63 ∷ []))) fresh (empty-IsServed limits)

run-Kept_example :
    Kept limits (run ready byteorder reads writes flags text settings backend packets fresh)
run-Kept_example =
    run-Kept ready byteorder reads writes flags text settings backend (omega arith) packets fresh
      (empty-IsServed limits)

-- A statement with two parameters, and three packets for them.
abbrev two_params : StatementData
two_params = new_statement 2

abbrev streamed : List (ℕ × Bytes)
streamed = (0, 1 ∷ []) ∷ (1, 9 ∷ []) ∷ (0, 2 ∷ []) ∷ []

abbrev one_statement : Table
one_statement = record { stmts = (5, two_params) ∷ []; total_long_data_size = 0 }

send_all-Streamed_example :
    Streamed limits 5 streamed two_params one_statement (send_all limits 5 streamed one_statement)
send_all-Streamed_example = send_all-Streamed limits 5 streamed two_params one_statement refl
