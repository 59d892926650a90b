-- ===== src/Deps/Capabilities.antt =====
-- `CapabilityFlags` of the crate mysql_common, as bits.
use opensrv.Common.{ℕ}

pub record Capabilities : Type 0 where
  pub from_bits_truncate : ℕ → ℕ
  pub protocol_41 : ℕ
  pub ssl : ℕ
  pub long_flag : ℕ
  pub secure_connection : ℕ
  pub plugin_auth : ℕ
  pub plugin_auth_lenenc_client_data : ℕ
  pub connect_with_db : ℕ
  pub session_track : ℕ
  pub deprecate_eof : ℕ
  pub multi_results : ℕ
  pub ps_multi_results : ℕ
