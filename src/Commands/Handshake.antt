-- ===== src/Commands/Handshake.antt =====
-- mysql/src/commands.rs: the client's handshake response.
pub mod Names
pub mod RoundTrip
use opensrv.Common.{
  ℕ, ◌+◌, ◌*◌, ◌^◌, bit_or, Bool, true, false, not, ◌&&◌, ◌||◌, Option, none, some, List, [], ◌∷◌,
  Bytes, ◌==◌, if◌then◌else◌, Result, ok, err, ◌>>=◌,
}
use opensrv.Deps.Nom.{Nom, NomErr, IResult, error}
use opensrv.Deps.Combinators.{Parser}
use opensrv.Deps.Capabilities.{Capabilities}
use opensrv.Writers.{contains}

pub record ClientHandshake : Type 0 where
  pub server_scramble : Option Bytes
  pub maxps : ℕ
  pub capabilities : ℕ
  pub collation : ℕ
  pub db : Option Bytes
  pub username : Option Bytes
  pub auth_response : Bytes
  pub auth_plugin : Bytes

-- `u64::from_le_bytes`
pub from_le_bytes : Bytes → ℕ
from_le_bytes [] = 0
from_le_bytes (b ∷ bs) = b + from_le_bytes bs * 2 ^ 8

-- The byte of `take(1u8)`, at index 0.
pub first_of : Bytes → ℕ
first_of [] = 0
first_of (b ∷ bs) = b

module _ (nom : Nom) where
  pub number_behind : ℕ → Parser ℕ
  number_behind size i = do (i, b) ← nom.take_bytes size i; ok (i, from_le_bytes b)

  pub read_length_encoded_number : Parser ℕ
  read_length_encoded_number i = do
    (i, b) ← nom.le_u8 i
    if b == 0xfb || b == 0xff
        then err error
        else if b == 0xfc
        then number_behind 2 i
        else if b == 0xfd
        then number_behind 3 i
        else if b == 0xfe
        then number_behind 8 i
        else ok (i, b)

  -- `take_until` a zero byte and the `tag` behind it.
  pub null_str : Parser Bytes
  null_str i = do (i, s) ← nom.take_until (0 ∷ []) i; (i, _) ← nom.tag (0 ∷ []) i; ok (i, s)

  pub sized : Parser ℕ → Parser Bytes
  sized size i = do (i, n) ← size i; nom.take_bytes n i

  pub present : Parser Bytes → Parser (Option Bytes)
  present p i = do (i, s) ← p i; ok (i, some s)

  module _ (caps : Capabilities) where
    pub auth_data : ℕ → Parser Bytes
    auth_data capabilities =
        if contains capabilities caps.plugin_auth_lenenc_client_data
        then sized read_length_encoded_number
        else if contains capabilities caps.secure_connection
        then sized nom.le_u8
        else null_str

    pub database : ℕ → Parser (Option Bytes)
    database capabilities =
        if contains capabilities caps.connect_with_db then present null_str else (λ i. ok (i, none))

    pub plugin_name : ℕ → Parser Bytes
    plugin_name capabilities =
        if contains capabilities caps.plugin_auth then null_str else (λ i. ok (i, []))

    -- From the user's name on; nothing of it comes with a request for TLS.
    pub identity : ℕ → ℕ → ℕ → Parser ClientHandshake
    identity capabilities maxps collation i = do
      (i, user) ← null_str i
      (i, auth_response) ← auth_data capabilities i
      (i, db) ← database capabilities i
      (i, auth_plugin) ← plugin_name capabilities i
      ok (
        i,
        record {
          server_scramble = none;
          maxps = maxps;
          capabilities = capabilities;
          collation = collation;
          db = db;
          username = some user;
          auth_response = auth_response;
          auth_plugin = auth_plugin;
        },
      )

    ssl_request : ℕ → ℕ → ℕ → ClientHandshake
    ssl_request capabilities maxps collation = record {
      server_scramble = none;
      maxps = maxps;
      capabilities = capabilities;
      collation = collation;
      db = none;
      username = none;
      auth_response = [];
      auth_plugin = [];
    }

    -- HandshakeResponse41, behind its first two bytes
    pub response_41 : Bool → ℕ → Parser ClientHandshake
    response_41 after_tls cap i = do
      (i, cap2) ← nom.le_u16 i
      let capabilities = caps.from_bits_truncate (bit_or (cap2 * 2 ^ 16) cap)
      (i, maxps) ← nom.le_u32 i
      (i, collation) ← nom.take_bytes 1 i
      (i, _) ← nom.take_bytes 23 i
      if not after_tls && contains capabilities caps.ssl
          then ok (i, ssl_request capabilities maxps (first_of collation))
          else identity capabilities maxps (first_of collation) i

    -- Without a database all the rest is the authentication data.
    pub database_320 : ℕ → Parser (Bytes × Option Bytes)
    database_320 capabilities i =
        if contains capabilities caps.connect_with_db
        then (do
          (i, auth_response) ← null_str i
          (i, db) ← null_str i
          ok (i, (auth_response, some db)))
        else ok ([], (i, none))

    -- HandshakeResponse320
    pub response_320 : ℕ → Parser ClientHandshake
    response_320 capabilities i = do
      (i, maxps1) ← nom.le_u16 i
      (i, maxps2) ← nom.le_u8 i
      (i, username) ← null_str i
      (i, (auth_response, db)) ← database_320 capabilities i
      ok (
        i,
        record {
          server_scramble = none;
          maxps = bit_or (maxps2 * 2 ^ 16) maxps1;
          capabilities = capabilities;
          collation = 0;
          db = db;
          username = some username;
          auth_response = auth_response;
          auth_plugin = [];
        },
      )

    pub client_handshake : Bool → Parser ClientHandshake
    client_handshake after_tls i = do
      (i, cap) ← nom.le_u16 i
      let capabilities = caps.from_bits_truncate cap
      if contains capabilities caps.protocol_41
          then response_41 after_tls cap i
          else response_320 capabilities i
