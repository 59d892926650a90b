-- ===== src/Session/Connection.antt =====
-- mysql/src/lib.rs: the data of a connection before its first command.
use opensrv.Common.{
  ℕ, zero, suc, ◌+◌, ◌%◌, ◌/◌, ◌^◌, Bool, false, ◌||◌, Option, none, some, List, [], ◌∷◌, Bytes,
  ◌==◌, Result,
}
use opensrv.Wire.{IoError}
use opensrv.Writer.{
  Output, PacketWriter, new, set_flush_threshold, set_max_packet_size, set_write_timeout,
}
use opensrv.Session.Backend.{InitResponse, Call}

abbrev pub mysql_native_password : Bytes
mysql_native_password =
    0x6d ∷ 0x79 ∷ 0x73 ∷ 0x71 ∷ 0x6c ∷ 0x5f ∷ 0x6e ∷ 0x61 ∷ 0x74 ∷ 0x69 ∷ 0x76 ∷ 0x65 ∷ 0x5f ∷ 0x70
    ∷ 0x61 ∷ 0x73 ∷ 0x73 ∷ 0x77 ∷ 0x6f ∷ 0x72 ∷ 0x64 ∷ []

abbrev pub caching_sha2_password : Bytes
caching_sha2_password =
    0x63 ∷ 0x61 ∷ 0x63 ∷ 0x68 ∷ 0x69 ∷ 0x6e ∷ 0x67 ∷ 0x5f ∷ 0x73 ∷ 0x68 ∷ 0x61 ∷ 0x32 ∷ 0x5f ∷ 0x70
    ∷ 0x61 ∷ 0x73 ∷ 0x73 ∷ 0x77 ∷ 0x6f ∷ 0x72 ∷ 0x64 ∷ []

-- A packet of the client, with the sequence numbers of its first frame and its last.
pub record Received : Type 0 where
  pub first_seq : ℕ
  pub seq : ℕ
  pub payload : Bytes

-- The backend's part in a login.
pub record Authenticator (B : Type 0) : Type 0 where
  pub auth_plugin_for_username : Bytes → B → Bytes
  pub authenticate : Bytes → Bytes → Bytes → Bytes → B → Bool × B
  pub on_init : Bytes → Call B InitResponse

pub record LoginOptions : Type 0 where
  -- the feature `tls` of the build, and whether there is a TLS configuration
  pub tls : Bool
  pub tls_conf : Bool
  pub initial_collation : ℕ
  pub initial_status_flags : ℕ
  pub enable_multi_results : Bool
  pub reject_connection_on_dbname_absence : Bool
  pub packet_size_limit : ℕ
  pub write_high_watermark : Option ℕ
  pub write_timeout : Option ℕ

pub with_watermark : Option ℕ → PacketWriter → PacketWriter
with_watermark none w = w
with_watermark (some threshold) w = set_flush_threshold threshold w

pub packet_writer : LoginOptions → Output → PacketWriter
packet_writer options output = set_write_timeout options.write_timeout (
    set_max_packet_size options.packet_size_limit
      (with_watermark options.write_high_watermark (new output)))

-- `ServerHandshakeConfig`
pub record ServerHandshakeConfig : Type 0 where
  pub version : Bytes
  pub connection_id : ℕ
  pub default_auth_plugin : Bytes
  pub scramble : Bytes

unfoldable pub has_delimiter : Bytes → Bool
has_delimiter [] = false
has_delimiter (b ∷ bs) = b == 0 || b == 0x24 || has_delimiter bs

-- `to_le_bytes` of a number of some bytes.
pub to_le_bytes : ℕ → ℕ → Bytes
to_le_bytes zero n = []
to_le_bytes (suc k) n = n % 2 ^ 8 ∷ to_le_bytes k (n / 2 ^ 8)

-- A connection before its first command: what the reads of a packet will give is still to come.
pub record Connection (B : Type 0) : Type 0 where
  pub shim : B
  pub writer : PacketWriter
  pub status_flags : ℕ
  pub client_capabilities : ℕ
  pub incoming : List (Result IoError (Option Received))

abbrev pub next_seq : ℕ → ℕ
next_seq seq = (seq + 1) % 2 ^ 8
