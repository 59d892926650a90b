-- ===== src/Deps/Writes.antt =====
-- What the crates mysql_common and byteorder write, and the constants of mysql_common.
use opensrv.Common.{ℕ, ◌/◌, ◌%◌, ◌^◌, ◌<◌, ◌≡◌, List, [], ◌∷◌, Bytes}
use opensrv.Deps.MysqlCommon.{ColumnType}

-- Little-endian numbers are one call of `write_all`; a length-encoded number or string is several.
pub record Writes : Type 0 where
  pub write_u16 : ℕ → Bytes
  pub write_u32 : ℕ → Bytes
  pub write_lenenc_int : ℕ → List Bytes
  pub write_lenenc_str : Bytes → List Bytes
  -- `coltype as u8`
  pub coltype_code : ColumnType → ℕ
  pub write_u16_lem : (n : ℕ) → n < 2 ^ 16 → write_u16 n ≡ n % 2 ^ 8 ∷ n / 2 ^ 8 ∷ []

-- The bits of flags, and a collation.
pub record Flags : Type 0 where
  pub client_protocol_41 : ℕ
  pub client_transactions : ℕ
  pub client_session_track : ℕ
  pub client_deprecate_eof : ℕ
  pub server_session_state_changed : ℕ
  pub server_status_in_trans : ℕ
  pub server_status_autocommit : ℕ
  pub server_status_no_backslash_escapes : ℕ
  pub server_status_in_trans_readonly : ℕ
  pub binary_flag : ℕ
  pub blob_flag : ℕ
  pub utf8mb4_general_ci : ℕ
  pub client_multi_results : ℕ
  pub client_ps_multi_results : ℕ
  pub server_more_results_exists : ℕ
  pub server_status_cursor_exists : ℕ
  pub server_status_last_row_sent : ℕ
  pub not_null_flag : ℕ
