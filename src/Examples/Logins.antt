-- ===== src/Examples/Logins.antt =====
-- lib.rs: a login with caching_sha2_password.
use opensrv.Common.{◌++◌, none, some, [], ◌∷◌, Bytes, replicate, false, Result, ok}
use opensrv.Wire.{IoError}
use opensrv.Session.Backend.{InitResponse}
use opensrv.Charset.{Charsets, same}
use opensrv.Session.Connection.{
  ServerHandshakeConfig, Authenticator, LoginOptions, Connection, caching_sha2_password,
}
use opensrv.Session.Login.{log_in}
use opensrv.Examples.Crates.{nom, byteorder, capabilities}
use opensrv.Examples.Sessions.{writes, flags, ready, text, done, fresh}

-- "utf8mb4"
abbrev charsets : Charsets
charsets = λ id. some (0x75 ∷ 0x74 ∷ 0x66 ∷ 0x38 ∷ 0x6d ∷ 0x62 ∷ 0x34 ∷ [])

-- The backend accepts one digest.
abbrev login : Authenticator (Unit {0})
login = record {
  auth_plugin_for_username = λ user b. caching_sha2_password;
  authenticate = λ plugin user scramble response b. (same response (replicate 32 5), b);
  on_init = λ db. done InitResponse.answered;
}

abbrev options : LoginOptions
options = record {
  tls = false;
  tls_conf = false;
  initial_collation = 45;
  initial_status_flags = 2;
  enable_multi_results = false;
  reject_connection_on_dbname_absence = false;
  packet_size_limit = 1024;
  write_high_watermark = none;
  write_timeout = none;
}

abbrev config : ServerHandshakeConfig
config = record {
  version = 0x38 ∷ [];
  connection_id = 7;
  default_auth_plugin = caching_sha2_password;
  scramble = replicate 20 1;
}

-- CLIENT_PROTOCOL_41, CLIENT_SECURE_CONNECTION and CLIENT_PLUGIN_AUTH, and the user "a".
abbrev response : Bytes
response =
    0x00
    ∷ 0x82
    ∷ 0x08
    ∷ 0x00
    ∷ 0
    ∷ 0
    ∷ 0
    ∷ 1
    ∷ 45
    ∷ (replicate 23 0 ++ (0x61 ∷ 0 ∷ 32 ∷ (replicate 32 5 ++ (caching_sha2_password ++ (0 ∷ [])))))

abbrev connection : Connection (Unit {0})
connection = record {
  shim = tt;
  writer = fresh.writer;
  status_flags = 2;
  client_capabilities = 0;
  incoming = ok (some (record { first_seq = 1; seq = 1; payload = response })) ∷ [];
}

abbrev outcome : Result IoError (Unit {0})
outcome =
    (log_in nom capabilities ready byteorder writes flags text charsets login options config
      connection).0
