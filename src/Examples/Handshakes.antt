-- ===== src/Examples/Handshakes.antt =====
-- mysql/src/commands.rs: a response with a database and the name of a plugin.
use opensrv.Common.{◌+◌, ◌≡◌, refl, false, some, [], ◌∷◌, ok, arith}
use opensrv.Commands.Handshake.{client_handshake}
use opensrv.Commands.Handshake.RoundTrip.{
  Response, response_bytes, as_handshake, IsResponse, FitsAuth, HasDb, HasPlugin,
  client_handshake-response_bytes,
}
use opensrv.Writers.{contains}
use opensrv.Examples.Crates.{nom, capabilities}

-- CLIENT_PROTOCOL_41, CLIENT_SECURE_CONNECTION, CLIENT_CONNECT_WITH_DB and CLIENT_PLUGIN_AUTH
abbrev response : Response nom capabilities
response = record {
  flags = 512 + 32768 + 8 + 524288;
  maxps = 1024;
  charset = 45;
  user = 0x61 ∷ [];
  auth = 7 ∷ 0 ∷ [];
  db = some (0x62 ∷ []);
  plugin = 0x63 ∷ [];
}

abbrev response-IsResponse : IsResponse nom capabilities response
unfolding contains
response-IsResponse = record {
  flags_fit = omega arith;
  maxps_fits = omega arith;
  known = refl;
  protocol = refl;
  user_ends = (λ e. absurd (omega arith), tt);
  auth_fits = FitsAuth.by_byte refl refl (omega arith);
  db_flag = HasDb.has_db refl (λ e. absurd (omega arith), tt);
  plugin_flag = HasPlugin.has_plugin refl (λ e. absurd (omega arith), tt);
}

client_handshake-response_bytes_example :
    client_handshake nom capabilities false (response_bytes nom capabilities response (9 ∷ []))
    ≡ ok (9 ∷ [], as_handshake nom capabilities response)
unfolding contains
client_handshake-response_bytes_example =
    client_handshake-response_bytes nom capabilities false response (9 ∷ []) response-IsResponse
      refl
