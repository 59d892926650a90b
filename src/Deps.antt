-- ===== src/Deps.antt =====
-- The packages that the library calls and does not contain, as interfaces: what a call takes and
-- returns, with the behaviour that their documentation states. No value of these records is
-- defined here; every definition that calls a package takes the record as a parameter.
pub mod Nom
pub mod ByteOrder
pub mod MysqlCommon
pub mod Writes
pub mod Combinators
pub mod Capabilities
pub mod Numbers
pub mod Scrambles
