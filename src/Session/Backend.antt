-- ===== src/Session/Backend.antt =====
-- lib.rs: the backend that answers the commands, and the state of a session.
use opensrv.Common.{ℕ, Bool, true, false, ◌&&◌, Option, List, [], ◌∷◌, Bytes, ◌==◌, Result, ok}
use opensrv.ErrorCodes.{ErrorKind, er_malformed_packet, er_wrong_arguments}
use opensrv.Commands.{Command, quit}
use opensrv.Wire.{IoError, incompatible_long_data}
use opensrv.Writer.{PacketWriter}
use opensrv.Writers.{Column, ColumnMetadata}
use opensrv.Params.{Params}
use opensrv.Session.Table.{Message, Table, Limits}

-- `InitResponse`
pub data InitResponse : Type 0 where
  pending answered refused : InitResponse

-- What a call of the backend leaves behind: its own state, the writer that it answered through, the
-- status flags that it set, whether it completed its answer, and the error that it returned.
pub record Reply (B A : Type 0) : Type 0 where
  pub backend : B
  pub writer : PacketWriter
  pub status_flags : ℕ
  pub completion : A
  pub result : Result IoError (Unit {0})

-- What the backend does with the `StatementMetaWriter`, which answers once.
pub data PrepareAnswer : Type 0 where
  prepared : ℕ → List (Column × ColumnMetadata) → List (Column × ColumnMetadata) → PrepareAnswer
  declined : ErrorKind → Bytes → PrepareAnswer
  abandoned : PrepareAnswer

abbrev pub Call : Type 0 → Type 0 → Type 0
Call B A = B → PacketWriter → ℕ → Reply B A

-- An implementation of `AsyncMysqlShim`. For COM_STMT_PREPARE: the answer, and what comes of its result.
pub record Shim (B : Type 0) : Type 0 where
  pub on_query : Bytes → Call B Bool
  pub on_system_variable : Bytes → Call B Bool
  pub on_init : Bytes → Call B InitResponse
  pub on_prepare :
      Bytes → B → PrepareAnswer × (Result IoError (Unit {0}) → Result IoError (Unit {0}) × B)
  pub on_execute : ℕ → Params → Call B Bool
  -- the columns of the cursor that was opened
  pub on_execute_cursor : ℕ → Params → Call B (Bool × Option (List Column))
  -- whether the cursor is exhausted
  pub on_fetch : ℕ → ℕ → List Column → Call B (Bool × Bool)
  pub on_close : ℕ → B → B
  pub on_close_cursor : ℕ → B → B
  pub on_reset_connection : B → Result IoError Bool × B

-- The standard library's tests and trims of a string, and the texts of the messages.
pub record Text : Type 0 where
  pub is_utf8 : Bytes → Bool
  -- `trim().trim_end_matches(';').trim_matches('`')`
  pub trim_schema : Bytes → Bytes
  pub render : Message → Bytes

pub record Settings : Type 0 where
  pub client_capabilities : ℕ
  pub process_use_statement_on_query : Bool
  pub limits : Limits
  pub initial_status_flags : ℕ

pub record Session (B : Type 0) : Type 0 where
  pub shim : B
  pub writer : PacketWriter
  pub status_flags : ℕ
  pub table : Table

pub starts_with : Bytes → Bytes → Bool
starts_with [] s = true
starts_with (p ∷ ps) [] = false
starts_with (p ∷ ps) (c ∷ cs) = (p == c) && starts_with ps cs

-- "SELECT @@", "select @@", "USE " and "use "
abbrev pub select_upper : Bytes
select_upper = 0x53 ∷ 0x45 ∷ 0x4c ∷ 0x45 ∷ 0x43 ∷ 0x54 ∷ 0x20 ∷ 0x40 ∷ 0x40 ∷ []

abbrev pub select_lower : Bytes
select_lower = 0x73 ∷ 0x65 ∷ 0x6c ∷ 0x65 ∷ 0x63 ∷ 0x74 ∷ 0x20 ∷ 0x40 ∷ 0x40 ∷ []

abbrev pub use_upper : Bytes
use_upper = 0x55 ∷ 0x53 ∷ 0x45 ∷ 0x20 ∷ []

abbrev pub use_lower : Bytes
use_lower = 0x75 ∷ 0x73 ∷ 0x65 ∷ 0x20 ∷ []

pub parameter_error : IoError → ErrorKind
parameter_error incompatible_long_data = er_wrong_arguments
parameter_error _ = er_malformed_packet

pub is_quit : Result (ErrorKind × Message) Command → Bool
is_quit (ok quit) = true
is_quit _ = false
