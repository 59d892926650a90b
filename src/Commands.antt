-- ===== src/Commands.antt =====
-- mysql/src/commands.rs: the command of a packet.
pub mod Dispatch
pub mod Handshake
use opensrv.Common.{
  ℕ, ◌*◌, ◌+◌, ◌^◌, Bool, true, false, ◌||◌, List, [], ◌∷◌, Bytes, ◌==◌, if◌then◌else◌, Result, ok,
  err, ◌>>=◌,
}
use opensrv.Deps.Nom.{Nom, NomErr, IResult}
use opensrv.Deps.Combinators.{Parser, Combinators, CommandByte}

pub data Command : Type 0 where
  query list_fields prepare init : Bytes → Command
  close_stmt reset_stmt : ℕ → Command
  fetch : ℕ → ℕ → Command
  execute : ℕ → ℕ → ℕ → Bytes → Command
  long_data : ℕ → ℕ → Bytes → Command
  ping reset_connection quit : Command

module _ (nom : Nom) where
  -- `execute` of commands.rs; its rest is empty whatever it has read.
  pub execute_args : Parser Command
  execute_args i = do
    (i, stmt) ← nom.le_u32 i
    (i, flags) ← nom.le_u8 i
    (i, iteration_count) ← nom.le_u32 i
    ok ([], execute stmt flags iteration_count i)

  -- `send_long_data` of commands.rs
  pub long_data_args : Parser Command
  long_data_args i = do
    (i, stmt) ← nom.le_u32 i
    (i, param) ← nom.le_u16 i
    ok ([], long_data stmt param i)

  abbrev pub command_tag : ℕ → Parser Bytes
  command_tag code = nom.tag (code ∷ [])

  module _ (combinators : Combinators) (codes : CommandByte) where
    open combinators use {alt, preceded, map_parser, pair, rest, all_consuming}
    open codes use {
      com_query, com_field_list, com_init_db, com_stmt_prepare, com_stmt_execute, com_stmt_fetch,
      com_stmt_send_long_data, com_stmt_close, com_stmt_reset, com_quit, com_ping,
      com_reset_connection,
    }

    -- The parsers of the commands, in the order in which they are tried.
    abbrev pub parsers : List (Parser Command)
    parsers =
        map_parser (preceded (command_tag com_query) rest) query
        ∷ map_parser (preceded (command_tag com_field_list) rest) list_fields
        ∷ map_parser (preceded (command_tag com_init_db) rest) init
        ∷ map_parser (preceded (command_tag com_stmt_prepare) rest) prepare
        ∷ preceded (command_tag com_stmt_execute) execute_args
        ∷ map_parser (preceded (command_tag com_stmt_fetch) (pair nom.le_u32 nom.le_u32))
            (λ ((stmt, rows) : ℕ × ℕ). fetch stmt rows)
        ∷ preceded (command_tag com_stmt_send_long_data) long_data_args
        ∷ map_parser (preceded (command_tag com_stmt_close) nom.le_u32) close_stmt
        ∷ map_parser (preceded (command_tag com_stmt_reset) nom.le_u32) reset_stmt
        ∷ map_parser (command_tag com_quit) (λ _. quit)
        ∷ map_parser (command_tag com_ping) (λ _. ping)
        ∷ map_parser (command_tag com_reset_connection) (λ _. reset_connection)
        ∷ []

    pub parse : Parser Command
    parse = all_consuming (alt parsers)
