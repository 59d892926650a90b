-- ===== src/Wire.antt =====
-- What a logical packet is on the wire, independently of the code: the specification that the
-- reader (packet_reader.rs) and the writer (packet_writer.rs) are compared with. Also the errors.
pub mod Frame
pub mod Split
use opensrv.Common.{ℕ, ◌^◌}

-- `pub const U24_MAX: usize = 16_777_215` of lib.rs.
abbrev pub u24_max : ℕ
u24_max = 16_777_215

-- One more than `usize::MAX`, on a 64-bit target.
abbrev pub usize_mod : ℕ
usize_mod = 2 ^ 64

-- `io::ErrorKind`, as far as the library makes such an error itself; `transport` is an error that
-- the peer's stream reported, and `incompatible_long_data` an `InvalidData` that carries the marker
-- `IncompatibleLongData` of params.rs. The last three are no errors of Rust: a wait that never ends, an
-- index out of range, which panics, and a loop of the model that ran out of its fuel.
pub data IoError : Type 0 where
  invalid_data invalid_input unexpected_eof write_zero : IoError
  timed_out connection_aborted permission_denied incompatible_long_data : IoError
  transport : ℕ → IoError
  hung panicked out_of_fuel : IoError
