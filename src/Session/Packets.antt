-- ===== src/Session/Packets.antt =====
-- lib.rs: the packets of a session as commands, and the answer to one that is none.
use opensrv.Common.{
  ℕ, Bool, false, ◌||◌, ◌≡◌, ◌≢◌, refl, ◌∙◌, List, [], ◌∷◌, map, Bytes, All, ◌==◌, if◌then◌else◌,
  ne→==, Result, ok, err,
}
use opensrv.ErrorCodes.{ErrorKind, er_malformed_packet, er_unknown_com_error}
use opensrv.Io.{Io}
use opensrv.Deps.Nom.{Nom, error}
use opensrv.Deps.Combinators.{Combinators, CommandByte}
use opensrv.Deps.ByteOrder.{ByteOrder}
use opensrv.Deps.MysqlCommon.{Reads}
use opensrv.Deps.Writes.{Writes, Flags}
use opensrv.Commands.{Command, parse}
use opensrv.Commands.Dispatch.{lookup-missing, table, parse-lookup}
use opensrv.Writer.{Peer}
use opensrv.Session.Table.{Message, malformed_command, malformed_packet_for, unsupported_command}
use opensrv.Session.Backend.{Shim, Text, Settings, Session}
use opensrv.Session.Run.{run}

module _ (codes : CommandByte) where
  open codes use {
    com_query, com_field_list, com_init_db, com_stmt_prepare, com_stmt_execute, com_stmt_fetch,
    com_stmt_send_long_data, com_stmt_close, com_stmt_reset, com_quit, com_ping,
    com_reset_connection,
  }

  abbrev pub command_codes : List ℕ
  command_codes =
      com_query ∷ com_field_list ∷ com_init_db ∷ com_stmt_prepare ∷ com_stmt_execute
      ∷ com_stmt_fetch ∷ com_stmt_send_long_data ∷ com_stmt_close ∷ com_stmt_reset ∷ com_quit
      ∷ com_ping ∷ com_reset_connection ∷ []

  pub is_known : ℕ → Bool
  is_known cmd =
      (cmd == com_query)
      || (cmd == com_field_list)
      || (cmd == com_init_db)
      || (cmd == com_stmt_prepare)
      || (cmd == com_stmt_execute)
      || (cmd == com_stmt_send_long_data)
      || (cmd == com_stmt_close)
      || (cmd == com_stmt_reset)
      || (cmd == com_stmt_fetch)
      || (cmd == com_reset_connection)
      || (cmd == com_quit)
      || (cmd == com_ping)

  not_known : (cmd : ℕ) → All (λ code. cmd ≢ code) command_codes → is_known cmd ≡ false
  unfolding is_known
  not_known cmd (a, (b, (c, (d, (e, (f, (g, (h, (i, (j, (k, (l, _)))))))))))) = rw (
    ne→== cmd com_query a,
    ne→== cmd com_field_list b,
    ne→== cmd com_init_db c,
    ne→== cmd com_stmt_prepare d,
    ne→== cmd com_stmt_execute e,
    ne→== cmd com_stmt_fetch f,
    ne→== cmd com_stmt_send_long_data g,
    ne→== cmd com_stmt_close h,
    ne→== cmd com_stmt_reset i,
    ne→== cmd com_quit j,
    ne→== cmd com_ping k,
    ne→== cmd com_reset_connection l,
  )

  pub command_parse_error : Bytes → ErrorKind × Message
  command_parse_error [] = (er_malformed_packet, malformed_command)
  command_parse_error (cmd ∷ packet) =
      if is_known cmd
      then (er_malformed_packet, malformed_packet_for cmd)
      else (er_unknown_com_error, unsupported_command cmd)

  module _ (nom : Nom) (combinators : Combinators) where
    -- The command of a packet, or the error that answers it.
    pub command_of : Bytes → Result (ErrorKind × Message) Command
    command_of packet = elim (parse nom combinators codes packet) [
      | ok (left, command) ↦ ok command
      | err e ↦ err (command_parse_error packet)
    ]

    parse-unknown :
        (cmd : ℕ) (packet : Bytes)
        → All (λ code. cmd ≢ code) (command_codes)
        → parse nom combinators codes (cmd ∷ packet) ≡ err error
    unfolding table
    parse-unknown cmd packet h =
        parse-lookup nom combinators codes (cmd ∷ packet)
        ∙ rw (lookup-missing (table nom combinators codes) cmd packet h)

    -- A packet whose first byte is no command is an ER_UNKNOWN_COM_ERROR, whatever follows.
    pub command_of-unknown :
        (cmd : ℕ) (packet : Bytes)
        → All (λ code. cmd ≢ code) command_codes
        → command_of (cmd ∷ packet) ≡ err (er_unknown_com_error, unsupported_command cmd)
    unfolding command_of command_parse_error
    command_of-unknown cmd packet h =
        rw (parse-unknown cmd packet h, command_of, not_known cmd h, command_parse_error) refl

    module _ {B : Type 0} (peer : Peer) (byteorder : ByteOrder) (reads : Reads) (writes : Writes)
        (flags : Flags) (text : Text) (settings : Settings) (backend : Shim B) where
      -- The packets of a session, each with its last sequence number and its first.
      pub run_packets : List (ℕ × ℕ × Bytes) → Io (Session B) (Unit {0})
      run_packets packets = run peer byteorder reads writes flags text settings backend (
          map (λ ((seq, first_seq, packet) : ℕ × ℕ × Bytes). (seq, first_seq, command_of packet))
            packets)
