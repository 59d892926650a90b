-- ===== src/Lib.antt =====
-- The MySQL server library of mysql/src: how bytes become packets and commands, and back.
--
-- A client's bytes come through PacketReader (mysql/src/packet_reader.rs), which gives logical packets; a
-- logical packet is one frame, or several where its payload has 16_777_215 bytes or more. The session
-- (mysql/src/lib.rs) takes each packet as a command, whose bytes may hold the parameters of a prepared
-- statement (mysql/src/params.rs, mysql/src/value/decode.rs), and answers through PacketWriter
-- (mysql/src/packet_writer.rs), which cuts a payload into frames and numbers them.
--
-- - Common: lists over the native numbers, Boolean tests and their lemmas, `Result` with its `?`.
-- - Deps: what the crates nom, byteorder and mysql_common do, as records of functions with the laws that
--   the code relies on. Every theorem holds for all such functions; Examples.Crates has concrete ones.
-- - Wire: frames and packets independently of the code (Wire.Frame, Wire.Split), and the errors.
-- - Reader: mysql/src/packet_reader.rs. The state of PacketReader is its unread bytes; the stream is the
--   list of its answers, so `next` says what one call of `next` or `next_async` returns, which bytes it
--   keeps and which answers it has not asked for. Both loops of `packet` and the loop of
--   `ensure_packet_limit` run on fuel: one more than the bytes there are, and each round takes four.
--   Reader.Sound is about what `packet` accepts, Reader.Taken about what `next` returns from any stream.
-- - Io: code that returns `io::Result` and changes a state, which comes back beside an error too.
-- - Writer: mysql/src/packet_writer.rs. The stream below chooses how many bytes it takes in each call, or
--   an error, or no answer. The loop of `write_chunk` runs on one more fuel than there are bytes, since
--   each round that goes on has written at least one.
-- - Link: the writer against the reader.
-- - Value, Params: mysql/src/value/decode.rs (`parse_from`) and mysql/src/params.rs. The iterator's panics
--   (an index out of range, `unwrap` of an error, `unreachable!`) are the error `panicked`.
-- - Writers: mysql/src/writers.rs, the packets that answer a command.
-- - Charset: the collations that are accepted, from mysql/src/lib.rs and mysql/src/resultset.rs.
-- - Encode: mysql/src/value/encode.rs. An integer, a byte string, a date or a time becomes the bytes of its
--   binary form for a type of column, or an error. The types that the code lists in the arms of a `match`
--   are `Width` and `Kind` here.
--   Encode.Text is the text protocol, and Encode.Text.Readings how a client reads it.
-- - ErrorCodes: mysql/src/errorcodes.rs, the whole table. The source's names of the codes are in small
--   letters here; the arms of the match from a number are lists, in the order of the source.
-- - Passwords: `verify_auth_plugin_data` and what it calls, of mysql/src/lib.rs, over the scrambles of
--   mysql_common.
-- - Results: mysql/src/resultset.rs. A writer of the source borrows the packet writer and the session's flags;
--   here it is a record of all of them, and a call that consumes it returns the record that it leaves
--   behind. Results.Rows has the rows, with a value as the writes that its encoder makes and the result
--   that it ends with (Results.Rows.Bitmap has the NULL bitmap), Results.Sequence several results in one
--   response; Results.Cursor has the answers to a cursor's execute and fetch.
-- - Commands: mysql/src/commands.rs. `parse` is put together from nom's combinators as in the source;
--   Commands.Dispatch compares it with a table of the command bytes. Commands.Handshake is
--   `client_handshake`, in parts that are named for what they read.
-- - Session: mysql/src/lib.rs. Session.Login, over the data of Session.Connection, is everything before
--   the first command, `init_before_ssl_with_config_and_options` and `init_after_ssl`, over what each read
--   of a packet gives; the cargo feature `tls` is a field of its options. Session.Table has the prepared
--   statements and the count of the data streamed to them, with the change that each command makes;
--   Session.Backend the interface of the backend; Session.Run does what each command does, in order, with the calls of the
--   backend, the answers and the flushes; Session.Packets finds the command of a packet, or the error that
--   answers it. A backend (`AsyncMysqlShim`) is a record of functions that may leave any writer, flags and
--   result behind; only the answer to a prepare, which registers the statement, is spelled out.
--   Session.Login.Challenge draws the challenge of a greeting: the answers of the random number generator
--   are a list, so the loop that rejects a byte ends with the list.
-- - Examples: the theorems at concrete inputs.
--
-- Numbers are natural numbers and a machine width is written out where the source wraps or checks: a
-- sequence number is taken modulo 2 ^ 8, sizes are checked against 2 ^ 64 (a 64-bit target). Error values
-- keep their `io::ErrorKind`, not their text.
--
-- Not modelled: the TLS hand-over and the other wrappers around a session (they connect streams), the text
-- of floats (its digits come from the standard library), the conversions of a decoded value to Rust types,
-- the allocation and recycling of buffers, tests and examples. The backend's calls of the writers in Results
-- are not joined to Session.Run, where a backend may leave any writer behind.
pub mod Common
pub mod Deps
pub mod Wire
pub mod Reader
pub mod Io
pub mod Writer
pub mod Link
pub mod Value
pub mod Params
pub mod Charset
pub mod ErrorCodes
pub mod Commands
pub mod Results
pub mod Encode
pub mod Passwords
pub mod Writers
pub mod Session
pub mod Examples
