-- ===== src/Session/Login/Accepted.antt =====
-- mysql/src/lib.rs: the steps of the login that name a user, against what the client sent and the calls
-- of the backend.
use opensrv.Common.{
  ℕ, ◌≡◌, refl, ◌⊎◌, inl, inr, Bool, true, false, not, ◌&&◌, ◌||◌, Bool-cases, Bytes, length,
  is_nil, ◌==◌, ==→eq, List, [], ◌∷◌, Option, none, some, sym, ◌∙◌, ◌%◌, ◌+◌, ◌^◌, Result, ok, err,
  arith,
}
use mathlib.Core.Path.{subst, ap}
use opensrv.ErrorCodes.{ErrorKind, er_not_supported_auth_mode}
use opensrv.Deps.Nom.{Nom}
use opensrv.Deps.Capabilities.{Capabilities}
use opensrv.Deps.ByteOrder.{ByteOrder}
use opensrv.Deps.Writes.{Writes, Flags}
use opensrv.Wire.{IoError, connection_aborted, permission_denied}
use opensrv.Io.{Io, and_then, ◌>>=◌, modify, fail}
use opensrv.Commands.Handshake.{ClientHandshake, client_handshake}
use opensrv.Writer.{Peer, PacketWriter, set_seq}
use opensrv.Writers.{write_err, contains}
use opensrv.Session.Table.{Message, unsupported_auth}
use opensrv.Session.Backend.{Text}
use opensrv.Charset.{same, Charsets}
use opensrv.Session.Connection.{
  Received, Authenticator, next_seq, LoginOptions, Connection, caching_sha2_password,
  mysql_native_password,
}
use opensrv.Session.Login.{
  on_writer, flush, read_packet, switch_request, turn_away, check_protocol, auth_switch,
  clear_empty, check_digest, ask_authenticate, check_password, identify,
}

-- What holds of a successful result and of the state that comes with it.
pub data On {S A : Type 0} (P : A → S → Type 0) : Result IoError A × S → Type 0 where
  on_ok : {a : A} {s : S} → P a s → On P (ok a, s)
  on_err : {e : IoError} {s : S} → On P (err e, s)

module _ {S A B : Type 0} where
  pub On-bind :
      {Q : A → S → Type 0} {P : B → S → Type 0} (m : Io S A) (f : A → Io S B) (s : S)
      → On Q (m s)
      → ((a : A) (s : S) → Q a s → On P (f a s))
      → On P ((m >>= f) s)
  On-bind {Q} {P} m f s h k = bind_on (m s) h
    where
      bind_on : (r : Result IoError A × S) → On Q r → On P (and_then r f)
      bind_on (ok a, s) (on_ok q) = k a s q
      bind_on (err e, s) on_err = on_err

  pub On-then :
      {P : B → S → Type 0} (m : Io S A) (f : A → Io S B) (s : S)
      → ((a : A) (s : S) → On P (f a s))
      → On P ((m >>= f) s)
  On-then {P} m f s k = then_on (m s)
    where
      then_on : (r : Result IoError A × S) → On P (and_then r f)
      then_on (ok a, s) = k a s
      then_on (err e, s) = on_err

holds_throughout : {S A : Type 0} (P : Type 0) (r : Result IoError A × S) → P → On (λ _ _. P) r
holds_throughout P (ok a, s) p = on_ok p
holds_throughout P (err e, s) p = on_err

pub no_ssl : {tls ssl : Bool} → (tls ≡ false → ssl ≡ false) → (tls && ssl) ≡ false → ssl ≡ false
no_ssl {tls = false} h e = h refl
no_ssl {tls = true} h e = e

-- What a first step guarantees, for all that comes behind it.
pub On-first :
    {S A B P : Type 0} (m : Io S A) (f : A → Io S B) (s : S)
    → On (λ _ _. P) (m s)
    → On (λ _ _. P) ((m >>= f) s)
On-first m f s h = On-bind m f s h (λ a s p. holds_throughout _ (f a s) p)

-- One of the packets has these bytes.
pub data Came (bytes : Bytes) : List (Result IoError (Option Received)) → Type 0 where
  here :
      {p : Received} {rest : List (Result IoError (Option Received))}
      → p.payload ≡ bytes
      → Came bytes (ok (some p) ∷ rest)
  there :
      {r : Result IoError (Option Received)} {rest : List (Result IoError (Option Received))}
      → Came bytes rest
      → Came bytes (r ∷ rest)

module _ {B : Type 0} (nom : Nom) (caps : Capabilities) (peer : Peer) (byteorder : ByteOrder)
    (writes : Writes) (flags : Flags) (text : Text) (charsets : Charsets) (login : Authenticator B)
    (options : LoginOptions) (sent : List (Result IoError (Option Received))) where
  -- What is still to come is of what the client sends.
  abbrev pub Hears : Connection B → Type 0
  Hears s = (bytes : Bytes) → Came bytes s.incoming → Came bytes sent

  -- The user and the authentication data of a handshake are those of a packet of the client.
  pub record Claims (h : ClientHandshake) : Type 0 where
    pub after_tls : Bool
    pub sent_bytes : Bytes
    pub left : Bytes
    pub written : ClientHandshake
    pub came : Came sent_bytes sent
    pub is_read : client_handshake nom caps after_tls sent_bytes ≡ ok (left, written)
    pub same_user : h.username ≡ written.username
    pub same_auth : h.auth_response ≡ written.auth_response

  -- The data with which the client answers: that of its handshake, or a later packet of its own.
  pub data Answers (h : ClientHandshake) (response : Bytes) : Type 0 where
    in_handshake : response ≡ h.auth_response → Answers h response
    in_packet : Came response sent → Answers h response

  -- The same with one zero byte for no data, where the plugin is caching_sha2_password.
  abbrev pub Cleared : Bytes → Bytes → Bytes → Type 0
  Cleared plugin answer response =
      (response ≡ answer)
      ⊎ ((same plugin caching_sha2_password ≡ true)
          × (same answer (0 ∷ []) ≡ true)
          × (response ≡ []))

  -- caching_sha2_password goes on with an empty response or with a digest of its length only.
  abbrev pub IsDigest : Bytes → Bytes → Type 0
  IsDigest plugin response =
      same plugin caching_sha2_password ≡ true → (is_nil response ≡ true) ⊎ (length response ≡ 32)

  -- The backend accepted, for this challenge, the user that the client named, with the plugin that it
  -- chose for the user and the data with which the client answered.
  pub record Granted (scramble : Bytes) : Type 0 where
    pub handshake : ClientHandshake
    pub claims : Claims handshake
    pub username : Bytes
    pub named : handshake.username ≡ some username
    pub answer : Bytes
    pub answers : Answers handshake answer
    pub backend : B
    pub response : Bytes
    pub cleared : Cleared (login.auth_plugin_for_username username backend) answer response
    pub accepted :
        (login.authenticate
          (login.auth_plugin_for_username username backend)
          username
          scramble
          response
          backend).0
        ≡ true
    pub digest : IsDigest (login.auth_plugin_for_username username backend) response

  is_digest :
      (plugin response : Bytes)
      → (same plugin caching_sha2_password && not (is_nil response) && not (length response == 32))
        ≡ false
      → IsDigest plugin response
  is_digest plugin response e same_plugin = elim (Bool-cases (is_nil response)) [
    | inl empty ↦ inl empty
    | inr some_bytes ↦ elim (Bool-cases (length response == 32)) [
      | inl size ↦ inr (==→eq _ _ size)
      | inr size ↦ absurd (grind arith)
    ]
  ]

  pub turn_away-On :
      {A : Type 0} (P : A → Connection B → Type 0) (kind : ErrorKind) (msg : Message) (e : IoError)
      (s : Connection B)
      → On P
          (turn_away nom caps peer byteorder writes flags text charsets login options kind msg e s)
  unfolding turn_away
  turn_away-On P kind msg e s =
      On-then
        (on_writer nom caps peer byteorder writes flags text charsets login options
          (write_err peer byteorder writes flags kind (text.render msg)))
        _ s
        λ _ s.
          On-then (flush nom caps peer byteorder writes flags text charsets login options) _ s
            λ _ s. on_err

  -- A step on the writer leaves the rest of the connection as it was.
  pub on_writer-then :
      {A C : Type 0} {P : C → Connection B → Type 0} (m : Io PacketWriter A)
      (f : A → Io (Connection B) C) (s : Connection B)
      → ((a : A) (w : PacketWriter) → On P (f a (record s { writer = w })))
      → On P
          ((on_writer nom caps peer byteorder writes flags text charsets login options m >>= f) s)
  unfolding on_writer
  on_writer-then {A} {C} {P} m f s k = written (m s.writer)
    where
      written :
          (r : Result IoError A × PacketWriter) → On P (and_then (r.0, record s { writer = r.1 }) f)
      written (ok a, w) = k a w
      written (err e, w) = on_err

  -- A packet that is read is one that the client sent.
  pub read_packet-then :
      {C : Type 0} {P : C → Connection B → Type 0} (f : Received → Io (Connection B) C)
      (s : Connection B)
      → Hears s
      → ((p : Received) (rest : List (Result IoError (Option Received)))
          → Came p.payload sent
          → Hears (record s { incoming = rest })
          → On P (f p (record s { incoming = rest })))
      → On P
          ((read_packet nom caps peer byteorder writes flags text charsets login options >>= f) s)
  unfolding read_packet
  read_packet-then {C} {P} f s hears k = by_packets s.incoming hears
    where
      by_packets :
          (l : List (Result IoError (Option Received)))
          → ((bytes : Bytes) → Came bytes l → Came bytes sent)
          → On P (
              and_then {A = Received}
                (elim l [
                  | [] ↦ fail connection_aborted s
                  | err e ∷ rest ↦ (err e, record s { incoming = rest })
                  | ok none ∷ rest ↦ (err connection_aborted, record s { incoming = rest })
                  | ok (some p) ∷ rest ↦ (ok p, record s { incoming = rest })
                ])
                f)
      by_packets [] h = on_err
      by_packets (err e ∷ rest) h = on_err
      by_packets (ok none ∷ rest) h = on_err
      by_packets (ok (some p) ∷ rest) h =
          k p rest (h p.payload (here refl)) (λ bytes c. h bytes (there c))

  check_protocol-then :
      {C : Type 0} {P : C → Connection B → Type 0} (capabilities : ℕ) (plugin : Bytes)
      (f : Unit {0} → Io (Connection B) C) (s : Connection B)
      → On P (f tt s)
      → On P (
          (check_protocol nom caps peer byteorder writes flags text charsets login options
                capabilities plugin
              >>= f)
            s)
  unfolding check_protocol
  check_protocol-then capabilities plugin f s h =
      elim (Bool-cases (
        not (contains capabilities caps.plugin_auth)
        && (not (contains capabilities caps.secure_connection)
            || (not (is_nil plugin) && not (same plugin mysql_native_password))))) [
              | inl e ↦ rw e (
                  On-bind
                    (turn_away nom caps peer byteorder writes flags text charsets login options
                      er_not_supported_auth_mode unsupported_auth permission_denied)
                    f s (turn_away-On (λ _ _. ⊥) _ _ _ s) (λ _ _ no_way. absurd no_way))
              | inr e ↦ rw e h
            ]

  check_digest-On :
      (plugin username response : Bytes) (s : Connection B)
      → On
          (λ _ t. IsDigest plugin response × (t.shim ≡ s.shim))
          (check_digest nom caps peer byteorder writes flags text charsets login options plugin
            username response s)
  unfolding check_digest
  check_digest-On plugin username response s =
      elim (Bool-cases (
        same plugin caching_sha2_password
        && not (is_nil response)
        && not (length response == 32))) [
          | inl e ↦ rw e (turn_away-On _ _ _ _ s)
          | inr e ↦ rw e (on_ok (is_digest _ response e, refl))
        ]

  auth_switch-On :
      (capabilities : ℕ) (plugin scramble : Bytes) (h : ClientHandshake) (seq : ℕ)
      (s : Connection B)
      → Hears s
      → On
          (λ r t. Answers h r.0 × (t.shim ≡ s.shim))
          (auth_switch nom caps peer byteorder writes flags text charsets login options capabilities
            plugin scramble h seq s)
  unfolding auth_switch
  auth_switch-On capabilities plugin scramble h seq s hears =
      elim (Bool-cases (
        contains capabilities caps.plugin_auth
        && not (is_nil plugin)
        && not (same h.auth_plugin plugin))) [
          | inl e ↦ rw e (
              on_writer-then (modify (set_seq (next_seq seq))) _ s λ _ w.
                on_writer-then
                  (switch_request nom caps peer byteorder writes flags text charsets login options
                    plugin scramble)
                  _ _
                  λ _ w. read_packet-then _ _ hears λ p rest came _.
                    elim (Bool-cases (p.first_seq == (seq + 2) % 2 ^ 8)) [
                      | inl in_turn ↦ rw in_turn (on_ok (in_packet came, refl))
                      | inr out ↦ rw out on_err
                    ])
          | inr e ↦ rw e (on_ok (in_handshake refl, refl))
        ]

  clear_empty-Cleared :
      (plugin answer : Bytes)
      → Cleared plugin answer (
          clear_empty nom caps peer byteorder writes flags text charsets login options plugin
            answer)
  unfolding clear_empty
  clear_empty-Cleared plugin answer = elim (Bool-cases (same plugin caching_sha2_password)) [
    | inl sha2 ↦ elim (Bool-cases (same answer (0 ∷ []))) [
      | inl zero_byte ↦ rw (sha2, zero_byte) (inr (refl, refl, refl))
      | inr other ↦ rw (sha2, other) (inl refl)
    ]
    | inr other ↦ rw other (inl refl)
  ]

  check_password-On :
      (scramble : Bytes) (h : ClientHandshake) (plugin username answer response : Bytes)
      (s : Connection B)
      → Claims h
      → h.username ≡ some username
      → Answers h answer
      → plugin ≡ login.auth_plugin_for_username username s.shim
      → Cleared plugin answer response
      → IsDigest plugin response
      → On
          (λ _ _. Granted scramble)
          (check_password nom caps peer byteorder writes flags text charsets login options plugin
            username scramble response s)
  unfolding check_password ask_authenticate
  check_password-On scramble h plugin username answer response s claims named answers is cleared
        digest =
      elim (Bool-cases (login.authenticate plugin username scramble response s.shim).0) [
        | inl e ↦ rw e (
            on_ok (record {
              handshake = h;
              claims = claims;
              username = username;
              named = named;
              answer = answer;
              answers = answers;
              backend = s.shim;
              response = response;
              cleared = subst (λ p. Cleared p answer response) is cleared;
              accepted =
                  subst (λ p. (login.authenticate p username scramble response s.shim).0 ≡ true) is
                    e;
              digest = subst (λ p. IsDigest p response) is digest;
            }))
        | inr e ↦ rw e (turn_away-On _ _ _ _ _)
      ]

  pub identify-On :
      (scramble : Bytes) (h : ClientHandshake) (seq : ℕ) (username : Bytes) (s : Connection B)
      → Hears s
      → Claims h
      → h.username ≡ some username
      → On
          (λ _ _. Granted scramble)
          (identify nom caps peer byteorder writes flags text charsets login options scramble h seq
            username s)
  unfolding identify
  identify-On scramble h seq username s hears claims named =
      let plugin = login.auth_plugin_for_username username s.shim in
      check_protocol-then s.client_capabilities plugin _ s (
        On-bind
          (auth_switch nom caps peer byteorder writes flags text charsets login options
            s.client_capabilities plugin scramble h seq)
          _ s (auth_switch-On s.client_capabilities plugin scramble h seq s hears)
          λ (answer, seq) t (answers, same_shim).
            on_writer-then (modify (set_seq (next_seq seq))) _ t λ _ w.
              On-bind
                (check_digest nom caps peer byteorder writes flags text charsets login options
                  plugin username
                  (clear_empty nom caps peer byteorder writes flags text charsets login options
                    plugin answer))
                _ _ (check_digest-On plugin username _ _)
                λ _ u (digest, kept).
                  On-first
                    (check_password nom caps peer byteorder writes flags text charsets login options
                      plugin username scramble
                      (clear_empty nom caps peer byteorder writes flags text charsets login options
                        plugin answer))
                    _ u
                    (check_password-On scramble h plugin username answer _ u claims named answers
                      (ap (login.auth_plugin_for_username username) (sym (kept ∙ same_shim)))
                      (clear_empty-Cleared plugin answer) digest))
