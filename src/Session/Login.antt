-- ===== src/Session/Login.antt =====
-- lib.rs: from the greeting to the first command, `init_before_ssl_with_config_and_options` and
-- `init_after_ssl`.
pub mod Accepted
pub mod Authenticates
pub mod Challenge
use opensrv.Common.{
  ℕ, zero, suc, ◌+◌, ◌%◌, ◌/◌, ◌^◌, bit_and, bit_or, Bool, true, false, not, ◌&&◌, ◌||◌, Option,
  none, some, List, [], ◌∷◌, ◌++◌, Bytes, length, replicate, take, drop, is_nil, ◌==◌,
  if◌then◌else◌, Result, ok, err,
}
use opensrv.ErrorCodes.{
  ErrorKind, er_access_denied_error, er_database_name, er_malformed_packet,
  er_not_supported_auth_mode,
}
use opensrv.Deps.Nom.{Nom, IResult}
use opensrv.Deps.Capabilities.{Capabilities}
use opensrv.Deps.ByteOrder.{ByteOrder}
use opensrv.Deps.Writes.{Writes, Flags}
use opensrv.Wire.{IoError, invalid_data, invalid_input, connection_aborted, permission_denied}
use opensrv.Charset.{same, Charsets, validate_collation}
use opensrv.Io.{Io, ◌>>=◌, ◌>>◌, pure, fail, modify, when}
use opensrv.Commands.Handshake.{ClientHandshake, client_handshake}
use opensrv.Writer.{
  Peer, Output, PacketWriter, new, set_flush_threshold, set_max_packet_size, set_write_timeout,
  write_all, flush_all, set_seq, end_packet,
}
use opensrv.Writers.{contains, status_response, write_err, write_ok_packet}
use opensrv.Session.Table.{
  Message, malformed_handshake, unsupported_auth, bad_database, database_required, bad_collation,
  access_denied,
}
use opensrv.Session.Backend.{InitResponse, Call, Text, pending, answered, refused}
use opensrv.Session.Connection.{
  mysql_native_password, caching_sha2_password, Received, Authenticator, LoginOptions,
  with_watermark, packet_writer, ServerHandshakeConfig, has_delimiter, to_le_bytes, Connection,
  next_seq,
}

module _ {B : Type 0} (nom : Nom) (caps : Capabilities) (peer : Peer) (byteorder : ByteOrder)
    (writes : Writes) (flags : Flags) (text : Text) (charsets : Charsets) (login : Authenticator B)
    (options : LoginOptions) where
  pub on_writer : {A : Type 0} → Io PacketWriter A → Io (Connection B) A
  on_writer m s = let (r, w) = m s.writer in (r, record s { writer = w })

  pub flush : Io (Connection B) (Unit {0})
  flush = on_writer (flush_all peer)

  -- An error packet, after which the connection ends with an error.
  pub turn_away : ErrorKind → Message → {A : Type 0} → IoError → Io (Connection B) A
  turn_away kind msg e = do
    on_writer (write_err peer byteorder writes flags kind (text.render msg))
    flush
    fail e

  -- `read_packet_with_timeout(..).await?.ok_or_else(..)?`
  pub read_packet : Io (Connection B) Received
  read_packet s = elim s.incoming [
    | [] ↦ fail connection_aborted s
    | err e ∷ rest ↦ (err e, record s { incoming = rest })
    | ok none ∷ rest ↦ (err connection_aborted, record s { incoming = rest })
    | ok (some p) ∷ rest ↦ (ok p, record s { incoming = rest })
  ]

  pub parsed : IResult ClientHandshake → Io (Connection B) ClientHandshake
  parsed (ok (left, handshake)) = pure handshake
  parsed (err e) = turn_away er_malformed_packet malformed_handshake invalid_data

  pub parse_client_handshake : Bytes → Bool → Io (Connection B) ClientHandshake
  parse_client_handshake payload after_tls = parsed (client_handshake nom caps after_tls payload)

  pub base_capabilities : ℕ
  base_capabilities = bit_or caps.protocol_41 (
      bit_or caps.long_flag (
        bit_or caps.secure_connection (
          bit_or caps.plugin_auth (
            bit_or caps.plugin_auth_lenenc_client_data
              (bit_or caps.connect_with_db (bit_or caps.session_track caps.deprecate_eof))))))

  pub server_capabilities : ℕ
  server_capabilities =
      let capabilities =
        if options.enable_multi_results
        then bit_or base_capabilities (bit_or caps.multi_results caps.ps_multi_results)
        else base_capabilities in
      if options.tls && options.tls_conf then bit_or capabilities caps.ssl else capabilities

  -- The greeting, HandshakeV10.
  pub greeting : ServerHandshakeConfig → Io PacketWriter (Unit {0})
  greeting config = do
    write_all (10 ∷ [])
    write_all config.version
    write_all (0x00 ∷ [])
    write_all (to_le_bytes 4 config.connection_id)
    write_all (take 8 config.scramble)
    write_all (0x00 ∷ [])
    write_all (take 2 (to_le_bytes 4 server_capabilities))
    write_all (options.initial_collation ∷ [])
    write_all (to_le_bytes 2 options.initial_status_flags)
    write_all (drop 2 (to_le_bytes 4 server_capabilities))
    write_all (
        if is_nil config.default_auth_plugin
        then 0x00 ∷ []
        else to_le_bytes 1 (length config.scramble + 1))
    write_all (replicate 10 0x00)
    write_all (drop 8 config.scramble)
    write_all (0x00 ∷ [])
    write_all config.default_auth_plugin
    write_all (0x00 ∷ [])
    end_packet peer byteorder
    flush_all peer

  -- The client's answer to the greeting.
  pub read_response : Bytes → Io (Connection B) (ClientHandshake × ℕ)
  read_response scramble = do
    p ← read_packet
    if not (p.first_seq == 1) then fail invalid_data else (do
      on_writer (modify (set_seq (next_seq p.seq)))
      handshake ← parse_client_handshake p.payload false
      on_writer (modify (set_seq (next_seq p.seq)))
      pure (record handshake { server_scramble = some scramble }, p.seq))

  -- Whether the client asked for TLS.
  pub tls_request : ClientHandshake → ℕ → Io (Connection B) (Bool × (ClientHandshake × ℕ))
  tls_request handshake seq =
      if contains handshake.capabilities caps.ssl
      then if options.tls then pure (true, (handshake, seq)) else fail invalid_data
      else pure (false, (handshake, seq))

  pub greet :
      Result ErrorKind (Unit {0})
      → ServerHandshakeConfig
      → Io (Connection B) (Bool × (ClientHandshake × ℕ))
  greet (err kind) config = fail invalid_input
  greet (ok _) config = do
    on_writer (greeting config)
    (handshake, seq) ← read_response config.scramble
    tls_request handshake seq

  -- The result has the client's response too, and the number of its last frame.
  pub init_before_ssl : ServerHandshakeConfig → Io (Connection B) (Bool × (ClientHandshake × ℕ))
  init_before_ssl config =
      if has_delimiter config.scramble
      then fail invalid_input
      else greet (validate_collation charsets options.initial_collation) config

  -- Behind the switch to TLS, the client sends its response again.
  pub read_again : ClientHandshake → ℕ → Io (Connection B) (ClientHandshake × ℕ)
  read_again handshake seq =
      if options.tls && contains handshake.capabilities caps.ssl
      then (do
        p ← read_packet
        if not (p.first_seq == next_seq seq) then fail invalid_data else (do
          on_writer (modify (set_seq (next_seq p.seq)))
          handshake ← parse_client_handshake p.payload true
          on_writer (modify (set_seq (next_seq p.seq)))
          pure (handshake, p.seq)))
      else pure (handshake, seq)

  pub check_collation : ℕ → Io (Connection B) (Unit {0})
  check_collation collation = elim (validate_collation charsets collation) [
    | ok _ ↦ pure tt
    | err kind ↦ turn_away kind (bad_collation collation) invalid_data
  ]

  -- A client that negotiates no plugins can do native password authentication only.
  pub check_protocol : ℕ → Bytes → Io (Connection B) (Unit {0})
  check_protocol capabilities plugin =
      if not (contains capabilities caps.plugin_auth)
        && (not (contains capabilities caps.secure_connection)
            || (not (is_nil plugin) && not (same plugin mysql_native_password)))
      then turn_away er_not_supported_auth_mode unsupported_auth permission_denied
      else pure tt

  pub switch_request : Bytes → Bytes → Io PacketWriter (Unit {0})
  switch_request plugin scramble = do
    write_all (0xfe ∷ [])
    write_all plugin
    write_all (0x00 ∷ [])
    write_all scramble
    write_all (0x00 ∷ [])
    end_packet peer byteorder
    flush_all peer

  -- The authentication data, asked for again where the client's plugin is another one.
  pub auth_switch : ℕ → Bytes → Bytes → ClientHandshake → ℕ → Io (Connection B) (Bytes × ℕ)
  auth_switch capabilities plugin scramble handshake seq =
      if contains capabilities caps.plugin_auth
        && not (is_nil plugin)
        && not (same handshake.auth_plugin plugin)
      then (do
        on_writer (modify (set_seq (next_seq seq)))
        on_writer (switch_request plugin scramble)
        p ← read_packet
        if not (p.first_seq == (seq + 2) % 2 ^ 8)
            then fail invalid_data
            else pure (p.payload, p.seq))
      else pure (handshake.auth_response, seq)

  -- caching_sha2_password sends one zero byte for an empty password.
  pub clear_empty : Bytes → Bytes → Bytes
  clear_empty plugin response =
      if same plugin caching_sha2_password && same response (0 ∷ []) then [] else response

  pub check_digest : Bytes → Bytes → Bytes → Io (Connection B) (Unit {0})
  check_digest plugin username response =
      if same plugin caching_sha2_password && not (is_nil response) && not (length response == 32)
      then turn_away er_access_denied_error (access_denied username plugin) permission_denied
      else pure tt

  pub ask_authenticate : Bytes → Bytes → Bytes → Bytes → Io (Connection B) Bool
  ask_authenticate plugin username scramble response s =
      let (accepted, b) = login.authenticate plugin username scramble response s.shim in
      (ok accepted, record s { shim = b })

  pub check_password : Bytes → Bytes → Bytes → Bytes → Io (Connection B) (Unit {0})
  check_password plugin username scramble response = do
    accepted ← ask_authenticate plugin username scramble response
    if not accepted
        then turn_away er_access_denied_error (access_denied username plugin) permission_denied
        else pure tt

  -- AuthMoreData, fast_auth_success
  pub fast_auth : Bytes → Bytes → Io (Connection B) (Unit {0})
  fast_auth plugin response =
      when (same plugin caching_sha2_password && length response == 32)
        (do on_writer (write_all (0x01 ∷ 0x03 ∷ [])); on_writer (end_packet peer byteorder))

  pub ask_init : Bytes → Io (Connection B) InitResponse
  ask_init db s =
      let reply = login.on_init db s.shim s.writer s.status_flags in
      let s' : Connection B = record s {
        shim = reply.backend;
        writer = reply.writer;
        status_flags = reply.status_flags;
      } in
      elim reply.result [ ok _ ↦ (ok reply.completion, s') | err e ↦ (err e, s') ]

  pub settle_init : InitResponse → Io (Connection B) (Unit {0})
  settle_init InitResponse.pending = fail invalid_data
  settle_init InitResponse.answered = pure tt
  settle_init InitResponse.refused = do flush; fail connection_aborted

  pub send_ok : Io (Connection B) (Unit {0})
  send_ok s =
      on_writer
        (write_ok_packet peer byteorder writes flags s.client_capabilities
          (status_response s.status_flags))
        s

  -- The initial database; a backend that selects it answers the client itself.
  pub select_database : Option Bytes → Io (Connection B) (Unit {0})
  select_database none =
      if options.reject_connection_on_dbname_absence
      then turn_away er_database_name database_required connection_aborted
      else send_ok
  select_database (some db) =
      if not (text.is_utf8 db)
      then turn_away er_malformed_packet bad_database invalid_data
      else (do response ← ask_init db; settle_init response)

  pub identify : Bytes → ClientHandshake → ℕ → Bytes → Io (Connection B) (Unit {0})
  identify scramble handshake seq username s =
      let plugin = login.auth_plugin_for_username username s.shim in
      (do
        check_protocol s.client_capabilities plugin
        (response, seq) ← auth_switch s.client_capabilities plugin scramble handshake seq
        on_writer (modify (set_seq (next_seq seq)))
        check_digest plugin username (clear_empty plugin response)
        check_password plugin username scramble (clear_empty plugin response)
        fast_auth plugin (clear_empty plugin response)
        select_database handshake.db)
        s

  pub identify_if : Bytes → ClientHandshake → ℕ → Option Bytes → Io (Connection B) (Unit {0})
  identify_if scramble handshake seq none = pure tt
  identify_if scramble handshake seq (some username) = identify scramble handshake seq username

  pub admit : Bytes → ClientHandshake → ℕ → Io (Connection B) (Unit {0})
  admit scramble handshake seq =
      if not (contains handshake.capabilities caps.protocol_41)
      then fail connection_aborted
      else (do
        modify (λ s. record s {
          client_capabilities = bit_and s.client_capabilities handshake.capabilities;
        })
        on_writer (modify (set_seq (next_seq seq)))
        check_collation handshake.collation
        identify_if scramble handshake seq handshake.username
        flush)

  pub challenged : Option Bytes → ClientHandshake → ℕ → Io (Connection B) (Unit {0})
  challenged none handshake seq = fail invalid_data
  challenged (some scramble) handshake seq = do
    (handshake, seq) ← read_again handshake seq
    admit scramble handshake seq

  pub init_after_ssl : ClientHandshake → ℕ → Io (Connection B) (Unit {0})
  init_after_ssl handshake seq = challenged handshake.server_scramble handshake seq

  -- The part of `run_with_options` before the commands.
  pub log_in : ServerHandshakeConfig → Io (Connection B) (Unit {0})
  log_in config = do
    (_, (handshake, seq)) ← init_before_ssl config
    modify (λ s. record s {
      writer = packet_writer options s.writer.output_stream;
      client_capabilities = server_capabilities;
    })
    init_after_ssl handshake seq
