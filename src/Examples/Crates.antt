-- ===== src/Examples/Crates.antt =====
-- Functions that do what the crates nom, byteorder and mysql_common document.
mod Nom
mod Integers
mod Combinators
mod Constants
pub use opensrv.Examples.Crates.Nom.{nom}
pub use opensrv.Examples.Crates.Integers.{byteorder, read_le, signed, read_lenenc, read_byte, reads}
pub use opensrv.Examples.Crates.Combinators.{combinators}
pub use opensrv.Examples.Crates.Constants.{codes, capabilities}
