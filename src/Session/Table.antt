-- ===== src/Session/Table.antt =====
-- lib.rs: the prepared statements of a session and the count of the data streamed to them.
pub mod Sizes
pub mod Account
pub mod Served
pub mod Chunks
pub mod Stream
use opensrv.Common.{
  ℕ, ◌+◌, ◌-◌, ◌^◌, min, Bool, true, false, ◌&&◌, Option, none, some, List, [], ◌∷◌, ◌++◌, Bytes,
  length, ltb, leb, ◌==◌, if◌then◌else◌,
}
use opensrv.ErrorCodes.{ErrorKind, er_net_packet_too_large, er_wrong_arguments}
use opensrv.Wire.{usize_mod, IoError}
use opensrv.Writers.{Column}
use opensrv.Params.{LongData, get_long_data, Types}

-- The texts that the session formats, with what is put into them.
pub data Message : Type 0 where
  bad_parameter : ℕ → ℕ → ℕ → Message
  over_limits : ℕ → ℕ → Message
  size_overflow : Message
  not_utf8 : Bytes → Message
  statement_count : ℕ → Message
  unsupported_execute : ℕ → ℕ → Message
  unknown_statement : ℕ → Message
  invalid_parameters : IoError → Message
  no_open_cursor no_reset_connection bad_sequence malformed_command : Message
  malformed_packet_for unsupported_command : ℕ → Message
  malformed_handshake unsupported_auth bad_database database_required : Message
  bad_collation : ℕ → Message
  access_denied : Bytes → Bytes → Message

pub record StatementData : Type 0 where
  pub cursor_columns : Option (List Column)
  pub long_data : LongData
  pub bound_types : Types
  pub params : ℕ
  pub pending_error : Option (ErrorKind × Message)

-- `StatementData { params, ..Default::default() }`
abbrev pub new_statement : ℕ → StatementData
new_statement params = record {
  cursor_columns = none;
  long_data = [];
  bound_types = [];
  params = params;
  pending_error = none;
}

-- `HashMap<u32, StatementData>`, as the list of its entries.
abbrev pub Statements : Type 0
Statements = List (ℕ × StatementData)

abbrev pub find : ℕ → Statements → Option StatementData
find stmt [] = none
find stmt ((id, s) ∷ m) = let more = find stmt m in if id == stmt then some s else more

-- What `get_mut` leaves when the statement is overwritten.
abbrev pub put : ℕ → StatementData → Statements → Statements
put stmt s' [] = []
put stmt s' ((id, s) ∷ m) =
    let more = put stmt s' m in if id == stmt then (id, s') ∷ m else (id, s) ∷ more

abbrev pub remove : ℕ → Statements → Statements
remove stmt [] = []
remove stmt ((id, s) ∷ m) = let more = remove stmt m in if id == stmt then m else (id, s) ∷ more

-- `fold(0usize, |total, value| total.saturating_add(value.len()))`
pub saturating_size : ℕ → LongData → ℕ
saturating_size total [] = total
saturating_size total ((k, v) ∷ m) = saturating_size (min (total + length v) (usize_mod - 1)) m

-- `checked_add`
pub checked_add : ℕ → ℕ → Option ℕ
checked_add a b = if ltb (a + b) usize_mod then some (a + b) else none

-- `try_fold(0usize, |total, value| total.checked_add(value.len()))`
pub checked_size : ℕ → LongData → Option ℕ
checked_size total [] = some total
checked_size total ((k, v) ∷ m) = elim (checked_add total (length v)) [
  | none ↦ none
  | some total' ↦ checked_size total' m
]

-- `long_data.entry(param).or_insert_with(Vec::new).extend(data)`
pub extend_entry : ℕ → Bytes → LongData → LongData
extend_entry param data_ [] = (param, data_) ∷ []
extend_entry param data_ ((k, v) ∷ m) =
    let more = extend_entry param data_ m in
    if k == param then (k, v ++ data_) ∷ m else (k, v) ∷ more

pub record Table : Type 0 where
  pub stmts : Statements
  pub total_long_data_size : ℕ

-- The limits on streamed data, and on the number of statements.
pub record Limits : Type 0 where
  pub max_long_data_size : ℕ
  pub max_connection_long_data_size : ℕ
  pub max_prepared_statements : ℕ

-- The error that COM_STMT_EXECUTE will report.
abbrev pub mark : ℕ → StatementData → ErrorKind → Message → Table → Table
mark stmt s kind msg t = record t {
  stmts = put stmt (record s { pending_error = some (kind, msg) }) t.stmts;
}

-- The sizes that streamed data would lead to, of the statement and of the connection.
pub new_sizes : Table → StatementData → Bytes → Option (ℕ × ℕ)
new_sizes t s data_ = elim (checked_size 0 s.long_data) [
  | none ↦ none
  | some size ↦ elim (checked_add size (length data_)) [
    | none ↦ none
    | some new_size ↦ elim (checked_add t.total_long_data_size (length data_)) [
      | none ↦ none
      | some new_connection_size ↦ some (new_size, new_connection_size)
    ]
  ]
]

-- Data for a statement without a pending error, and a parameter that it has.
pub append_long_data : Limits → ℕ → ℕ → Bytes → StatementData → Table → Table
append_long_data limits stmt param data_ s t = elim (new_sizes t s data_) [
  | none ↦ mark stmt s er_net_packet_too_large size_overflow t
  | some (new_size, new_connection_size) ↦
      if leb new_size limits.max_long_data_size
        && leb new_connection_size limits.max_connection_long_data_size
      then record {
        stmts = put stmt (record s { long_data = extend_entry param data_ s.long_data }) t.stmts;
        total_long_data_size = new_connection_size;
      }
      else mark stmt s er_net_packet_too_large
          (over_limits limits.max_long_data_size limits.max_connection_long_data_size) t
]

-- COM_STMT_SEND_LONG_DATA
pub send_long_data : Limits → ℕ → ℕ → Bytes → Table → Table
send_long_data limits stmt param data_ t = elim (find stmt t.stmts) [
  | none ↦ t
  | some s ↦ elim s.pending_error [
    | some _ ↦ t
    | none ↦
        if leb s.params param
        then mark stmt s er_wrong_arguments (bad_parameter param stmt s.params) t
        else append_long_data limits stmt param data_ s t
  ]
]

-- The statement loses its streamed data, which no longer counts.
pub discard_long_data : ℕ → StatementData → Table → Table
discard_long_data stmt s t = record {
  stmts = put stmt (record s { long_data = [] }) t.stmts;
  total_long_data_size = t.total_long_data_size - saturating_size 0 s.long_data;
}

-- COM_STMT_CLOSE
pub close : ℕ → Table → Table
close stmt t = elim (find stmt t.stmts) [
  | none ↦ t
  | some s ↦ record {
    stmts = remove stmt t.stmts;
    total_long_data_size = t.total_long_data_size - saturating_size 0 s.long_data;
  }
]

-- COM_STMT_RESET, for a statement that exists.
pub reset : ℕ → StatementData → Table → Table
reset stmt s t = discard_long_data stmt (record s { cursor_columns = none; pending_error = none }) t

-- A statement is registered.
pub insert : ℕ → ℕ → Table → Table
insert stmt params t = record t { stmts = (stmt, new_statement params) ∷ t.stmts }

-- `state.cursor_columns = …`
pub set_cursor : ℕ → Option (List Column) → Table → Table
set_cursor stmt columns t = elim (find stmt t.stmts) [
  | none ↦ t
  | some s ↦ record t { stmts = put stmt (record s { cursor_columns = columns }) t.stmts }
]

pub set_types : ℕ → Types → Table → Table
set_types stmt types t = elim (find stmt t.stmts) [
  | none ↦ t
  | some s ↦ record t { stmts = put stmt (record s { bound_types = types }) t.stmts }
]

-- `state.long_data.clear()`, and what was held no longer counts.
pub clear_long_data : ℕ → Table → Table
clear_long_data stmt t = elim (find stmt t.stmts) [ none ↦ t | some s ↦ discard_long_data stmt s t ]

-- The two parts of it, which come apart where the parameters are rejected.
pub forget_long_data : ℕ → Table → Table
forget_long_data stmt t = elim (find stmt t.stmts) [
  | none ↦ t
  | some s ↦ record t { stmts = put stmt (record s { long_data = [] }) t.stmts }
]

pub uncount : ℕ → Table → Table
uncount retained t = record t { total_long_data_size = t.total_long_data_size - retained }
