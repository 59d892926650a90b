-- ===== src/Examples.antt =====
-- The theorems at concrete inputs, with concrete readers in place of the crates.
pub mod Crates
mod Codes
mod Challenges
mod Texts
mod Packets
mod Parameters
pub mod Sessions
mod Commands
mod Logins
mod Responses
mod Numbers
mod Handshakes
mod Passwords
