-- ===== src/Session/Login/Authenticates.antt =====
-- mysql/src/lib.rs: a login that succeeds was accepted by the backend.
use opensrv.Common.{ℕ, ◌≡◌, Bool, false, List, some, Bytes, Option, Result}
use opensrv.Wire.{IoError}
use opensrv.Deps.Nom.{Nom}
use opensrv.Deps.Capabilities.{Capabilities}
use opensrv.Deps.ByteOrder.{ByteOrder}
use opensrv.Deps.Writes.{Writes, Flags}
use opensrv.Io.{Io}
use opensrv.Commands.Handshake.{ClientHandshake}
use opensrv.Commands.Handshake.Names.{Named}
use opensrv.Writer.{Peer}
use opensrv.Writers.{contains}
use opensrv.Session.Backend.{Text}
use opensrv.Charset.{Charsets}
use opensrv.Session.Connection.{Received, Authenticator, LoginOptions, Connection}
use opensrv.Session.Login.Accepted.{Hears, Claims}

module _ {B : Type 0} (nom : Nom) (caps : Capabilities) (peer : Peer) (byteorder : ByteOrder)
    (writes : Writes) (flags : Flags) (text : Text) (charsets : Charsets) (login : Authenticator B)
    (options : LoginOptions) (sent : List (Result IoError (Option Received))) where
  -- A response of the client that names its user, or asks for TLS, and has this challenge.
  record IsResponse (scramble : Bytes) (h : ClientHandshake) : Type 0 where
    named : Named nom caps false h
    challenge : h.server_scramble ≡ some scramble
    claims : Claims nom caps peer byteorder writes flags text charsets login options sent h

  -- The same, where a client that asks for TLS has a server that can.
  abbrev IsGreeted : Bytes → Bool × (ClientHandshake × ℕ) → Connection B → Type 0
  IsGreeted scramble (ssl, (h, seq)) s =
      IsResponse scramble h
      × (options.tls ≡ false → contains h.capabilities caps.ssl ≡ false)
      × Hears nom caps peer byteorder writes flags text charsets login options sent s

  -- A user is named, in a packet of the client.
  abbrev HasUser : ClientHandshake × ℕ → Connection B → Type 0
  HasUser (h, seq) s =
      ((user : Bytes) × (h.username ≡ some user))
      × Claims nom caps peer byteorder writes flags text charsets login options sent h
      × Hears nom caps peer byteorder writes flags text charsets login options sent s
