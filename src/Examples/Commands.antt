-- ===== src/Examples/Commands.antt =====
-- mysql/src/commands.rs: packets that hold commands, and one that does not.
use opensrv.Common.{◌≡◌, [], ◌∷◌, Bytes, is_nil, if◌then◌else◌, ok, err, ◌>>=◌, arith}
use opensrv.ErrorCodes.{er_unknown_com_error}
use opensrv.Deps.Nom.{error}
use opensrv.Commands.{Command, parse}
use opensrv.Commands.Dispatch.{lookup, table, parse-lookup}
use opensrv.Commands.Dispatch.RoundTrip.{command_bytes, parse-command_bytes}
use opensrv.Session.Table.{Message}
use opensrv.Session.Packets.{command_of, command_of-unknown}
use opensrv.Examples.Crates.{nom, combinators, codes}

abbrev run_twice : Command
run_twice = Command.execute 258 0 1 (7 ∷ [])

-- COM_STMT_CLOSE with one byte too many.
abbrev too_long : Bytes
too_long = 0x19 ∷ 1 ∷ 0 ∷ 0 ∷ 0 ∷ 9 ∷ []

parse-lookup_example : parse nom combinators codes too_long ≡ (
    lookup (table nom combinators codes) too_long >>= λ (left, command).
    if is_nil left then ok (left, command) else err error)
parse-lookup_example = parse-lookup nom combinators codes too_long

parse-command_bytes_example :
    parse nom combinators codes (command_bytes nom combinators codes run_twice) ≡ ok ([], run_twice)
parse-command_bytes_example =
    parse-command_bytes nom combinators codes run_twice (omega arith, omega arith, omega arith)

command_of-unknown_example :
    command_of codes nom combinators (99 ∷ 1 ∷ [])
    ≡ err (er_unknown_com_error, Message.unsupported_command 99)
command_of-unknown_example = command_of-unknown codes nom combinators 99 (1 ∷ []) (
  (λ e. absurd (omega arith)),
  (
    (λ e. absurd (omega arith)),
    (
      (λ e. absurd (omega arith)),
      (
        (λ e. absurd (omega arith)),
        (
          (λ e. absurd (omega arith)),
          (
            (λ e. absurd (omega arith)),
            (
              (λ e. absurd (omega arith)),
              (
                (λ e. absurd (omega arith)),
                (
                  (λ e. absurd (omega arith)),
                  (
                    (λ e. absurd (omega arith)),
                    ((λ e. absurd (omega arith)), ((λ e. absurd (omega arith)), tt)),
                  ),
                ),
              ),
            ),
          ),
        ),
      ),
    ),
  ),
)
