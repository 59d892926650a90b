-- ===== src/ErrorCodes.antt =====
-- mysql/src/errorcodes.rs: the error codes of MySQL, their numbers and their SQL states.
mod Kinds
mod Codes
mod Arms
mod States
pub mod RoundTrip
pub use Kinds.*
unfoldable pub use Codes.{code}
unfoldable pub use Arms.{from_u16}
unfoldable pub use States.{sqlstate}
