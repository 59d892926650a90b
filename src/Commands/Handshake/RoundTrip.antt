-- ===== src/Commands/Handshake/RoundTrip.antt =====
-- mysql/src/commands.rs: `client_handshake` reads back a response that is written as the protocol says.
use opensrv.Common.{
  zero, suc, ltb, ltb→lt, refl, ℕ, ◌*◌, ◌/◌, ◌%◌, ◌^◌, ◌<◌, bit_or, ◌≡◌, ◌≢◌, ◌∙◌, inl, inr, Bool,
  true, false, not, ◌&&◌, Bool-cases, Option, none, some, [], ◌∷◌, ◌++◌, Bytes, All, length,
  length-append, replicate, take-length-append, drop-length-append, ne→==, if◌then◌else◌, ok, arith,
}
use mathlib.Core.Path.{subst}
use native.Mathlib.Nat.{pow-suc}
use opensrv.Common.Bits.{shift-bit_or}
use opensrv.Deps.Nom.{Nom}
use opensrv.Deps.Capabilities.{Capabilities}
use opensrv.Writers.{contains}
use opensrv.Commands.Dispatch.RoundTrip.{u16_bytes, u32_bytes, read_u16, read_u32}
use opensrv.Commands.Handshake.{
  from_le_bytes, number_behind, ClientHandshake, read_length_encoded_number, null_str, sized,
  present, auth_data, database, plugin_name, identity, response_41, client_handshake, first_of,
}

abbrev pub NoNull : Bytes → Type 0
NoNull s = All (λ b. b ≢ 0) s

pub null_bytes : Bytes → Bytes → Bytes
null_bytes s rest = s ++ (0 ∷ rest)

-- A number in some bytes, the lowest first.
pub le_bytes : ℕ → ℕ → Bytes
le_bytes zero n = []
le_bytes (suc k) n = n % 256 ∷ le_bytes k (n / 256)

-- A length-encoded number of the protocol.
pub length_bytes : ℕ → Bytes
length_bytes n =
    if ltb n 0xfb
    then n ∷ []
    else if ltb n (2 ^ 16)
    then 0xfc ∷ le_bytes 2 n
    else if ltb n (2 ^ 24)
    then 0xfd ∷ le_bytes 3 n
    else 0xfe ∷ le_bytes 8 n

length-le_bytes : (k n : ℕ) → length (le_bytes k n) ≡ k
unfolding le_bytes
length-le_bytes zero n = refl
length-le_bytes (suc k) n = omega (arith, length-le_bytes k (n / 256))

from_le_bytes-le_bytes : (k n : ℕ) → n < 256 ^ k → from_le_bytes (le_bytes k n) ≡ n
unfolding from_le_bytes le_bytes
from_le_bytes-le_bytes zero n h = omega arith
from_le_bytes-le_bytes (suc k) n h =
    let high : n / 256 < 256 ^ k = omega (arith, rw pow-suc at h) in
    omega (arith, from_le_bytes-le_bytes k (n / 256) high)

module _ (nom : Nom) where
  null_str_lem : (s rest : Bytes) → NoNull s → null_str nom (null_bytes s rest) ≡ ok (rest, s)
  unfolding null_str null_bytes
  null_str_lem s rest h = rw (nom.take_until_found 0 s rest h, nom.tag_match (0 ∷ []) rest)

  take_front : (s rest : Bytes) → nom.take_bytes (length s) (s ++ rest) ≡ ok (rest, s)
  take_front s rest =
      nom.take_enough (length s) (s ++ rest) (omega (arith, length-append s rest))
      ∙ rw (take-length-append s rest, drop-length-append s rest)

  read_small :
      (n : ℕ) (rest : Bytes) → n < 0xfb → read_length_encoded_number nom (n ∷ rest) ≡ ok (rest, n)
  unfolding read_length_encoded_number
  read_small n rest h = rw (
    nom.le_u8_enough n rest,
    ne→== n 0xfb (λ same. absurd (omega (arith, same))),
    ne→== n 0xff (λ same. absurd (omega (arith, same))),
    ne→== n 0xfc (λ same. absurd (omega (arith, same))),
    ne→== n 0xfd (λ same. absurd (omega (arith, same))),
    ne→== n 0xfe (λ same. absurd (omega (arith, same))),
  )

  read_behind :
      (k n : ℕ) (rest : Bytes)
      → n < 256 ^ k
      → number_behind nom k (le_bytes k n ++ rest) ≡ ok (rest, n)
  unfolding number_behind
  read_behind k n rest h =
      let front : nom.take_bytes k (le_bytes k n ++ rest) ≡ ok (rest, le_bytes k n) =
        subst (λ m. nom.take_bytes m (le_bytes k n ++ rest) ≡ ok (rest, le_bytes k n))
          (length-le_bytes k n) (take_front (le_bytes k n) rest) in
      rw (front, from_le_bytes-le_bytes k n h)

  read_lenenc :
      (n : ℕ) (rest : Bytes)
      → n < 2 ^ 64
      → read_length_encoded_number nom (length_bytes n ++ rest) ≡ ok (rest, n)
  unfolding read_length_encoded_number length_bytes
  read_lenenc n rest h = elim (Bool-cases (ltb n 0xfb)) [
    | inl small ↦ rw small (read_small n rest (ltb→lt n 0xfb small))
    | inr more ↦ elim (Bool-cases (ltb n (2 ^ 16))) [
      | inl two ↦
          rw (more, two, nom.le_u8_enough 0xfc (le_bytes 2 n ++ rest))
            (read_behind 2 n rest (omega (arith, ltb→lt n (2 ^ 16) two)))
      | inr more2 ↦ elim (Bool-cases (ltb n (2 ^ 24))) [
        | inl three ↦
            rw (more, more2, three, nom.le_u8_enough 0xfd (le_bytes 3 n ++ rest))
              (read_behind 3 n rest (omega (arith, ltb→lt n (2 ^ 24) three)))
        | inr more3 ↦
            rw (more, more2, more3, nom.le_u8_enough 0xfe (le_bytes 8 n ++ rest))
              (read_behind 8 n rest (omega arith))
      ]
    ]
  ]

  module _ (caps : Capabilities) where
    -- The authentication data in the format that the capabilities choose.
    pub auth_bytes : ℕ → Bytes → Bytes → Bytes
    auth_bytes c a rest =
        if contains c caps.plugin_auth_lenenc_client_data
        then length_bytes (length a) ++ (a ++ rest)
        else if contains c caps.secure_connection
        then length a ∷ (a ++ rest)
        else null_bytes a rest

    -- Authentication data that its format can hold.
    pub data FitsAuth (c : ℕ) (a : Bytes) : Type 0 where
      by_lenenc :
          contains c caps.plugin_auth_lenenc_client_data ≡ true → length a < 2 ^ 64 → FitsAuth c a
      by_byte :
          contains c caps.plugin_auth_lenenc_client_data ≡ false
          → contains c caps.secure_connection ≡ true
          → length a < 2 ^ 8
          → FitsAuth c a
      by_null :
          contains c caps.plugin_auth_lenenc_client_data ≡ false
          → contains c caps.secure_connection ≡ false
          → NoNull a
          → FitsAuth c a

    auth_data_lem :
        (c : ℕ) (a rest : Bytes)
        → FitsAuth c a
        → auth_data nom caps c (auth_bytes c a rest) ≡ ok (rest, a)
    unfolding auth_data auth_bytes sized
    auth_data_lem c a rest (by_lenenc e h) =
        rw (e, read_lenenc (length a) (a ++ rest) h, take_front a rest)
    auth_data_lem c a rest (by_byte e s h) =
        rw (e, s, nom.le_u8_enough (length a) (a ++ rest), take_front a rest)
    auth_data_lem c a rest (by_null e s h) = rw (e, s, null_str_lem a rest h)

    -- A database is there where the flag says so, and so is the name of a plugin.
    pub data HasDb (c : ℕ) : Option Bytes → Type 0 where
      has_db : {db : Bytes} → contains c caps.connect_with_db ≡ true → NoNull db → HasDb c (some db)
      lacks_db : contains c caps.connect_with_db ≡ false → HasDb c none

    pub data HasPlugin (c : ℕ) : Bytes → Type 0 where
      has_plugin :
          {name : Bytes} → contains c caps.plugin_auth ≡ true → NoNull name → HasPlugin c name
      lacks_plugin : contains c caps.plugin_auth ≡ false → HasPlugin c []

    pub db_bytes : Option Bytes → Bytes → Bytes
    db_bytes none rest = rest
    db_bytes (some db) rest = null_bytes db rest

    pub plugin_bytes : ℕ → Bytes → Bytes → Bytes
    plugin_bytes c name rest = if contains c caps.plugin_auth then null_bytes name rest else rest

    database_lem :
        (c : ℕ) (o : Option Bytes) (rest : Bytes)
        → HasDb c o
        → database nom caps c (db_bytes o rest) ≡ ok (rest, o)
    unfolding database db_bytes present
    database_lem c (some db) rest (has_db e h) = rw (e, null_str_lem db rest h)
    database_lem c none rest (lacks_db e) = rw e

    plugin_name_lem :
        (c : ℕ) (name rest : Bytes)
        → HasPlugin c name
        → plugin_name nom caps c (plugin_bytes c name rest) ≡ ok (rest, name)
    unfolding plugin_name plugin_bytes
    plugin_name_lem c name rest (has_plugin e h) = rw (e, null_str_lem name rest h)
    plugin_name_lem c [] rest (lacks_plugin e) = rw e

    -- A response of a client that names its user.
    pub record Response : Type 0 where
      pub flags : ℕ
      pub maxps : ℕ
      pub charset : ℕ
      pub user : Bytes
      pub auth : Bytes
      pub db : Option Bytes
      pub plugin : Bytes

    pub identity_bytes : Response → Bytes → Bytes
    identity_bytes r rest =
        null_bytes r.user
          (auth_bytes r.flags r.auth (db_bytes r.db (plugin_bytes r.flags r.plugin rest)))

    pub response_bytes : Response → Bytes → Bytes
    response_bytes r rest =
        u16_bytes (r.flags % 2 ^ 16)
        ++ (u16_bytes (r.flags / 2 ^ 16)
            ++ (u32_bytes r.maxps ++ (r.charset ∷ (replicate 23 0 ++ identity_bytes r rest))))

    abbrev pub as_handshake : Response → ClientHandshake
    as_handshake r = record {
      server_scramble = none;
      maxps = r.maxps;
      capabilities = r.flags;
      collation = r.charset;
      db = r.db;
      username = some r.user;
      auth_response = r.auth;
      auth_plugin = r.plugin;
    }

    -- The flags are known ones, with CLIENT_PROTOCOL_41 among the first sixteen; strings that a zero byte
    -- ends have none in them, and the authentication data is what its format can hold.
    pub record IsResponse (r : Response) : Type 0 where
      pub flags_fit : r.flags < 2 ^ 32
      pub maxps_fits : r.maxps < 2 ^ 32
      pub known : caps.from_bits_truncate r.flags ≡ r.flags
      pub protocol : contains (caps.from_bits_truncate (r.flags % 2 ^ 16)) caps.protocol_41 ≡ true
      pub user_ends : NoNull r.user
      pub auth_fits : FitsAuth r.flags r.auth
      pub db_flag : HasDb r.flags r.db
      pub plugin_flag : HasPlugin r.flags r.plugin

    identity_lem :
        (r : Response) (rest : Bytes)
        → IsResponse r
        → identity nom caps r.flags r.maxps r.charset (identity_bytes r rest)
          ≡ ok (rest, as_handshake r)
    unfolding identity identity_bytes
    identity_lem r rest w = rw (
      null_str_lem r.user
          (auth_bytes r.flags r.auth (db_bytes r.db (plugin_bytes r.flags r.plugin rest)))
          w.user_ends,
      auth_data_lem r.flags r.auth (db_bytes r.db (plugin_bytes r.flags r.plugin rest)) w.auth_fits,
      database_lem r.flags r.db (plugin_bytes r.flags r.plugin rest) w.db_flag,
      plugin_name_lem r.flags r.plugin rest w.plugin_flag,
    )

    both_halves : (c : ℕ) → bit_or (c / 2 ^ 16 * 2 ^ 16) (c % 2 ^ 16) ≡ c
    both_halves c = shift-bit_or 16 (c % 2 ^ 16) (c / 2 ^ 16) (omega arith) ∙ omega arith

    response_41_lem :
        (after_tls : Bool) (r : Response) (rest : Bytes)
        → IsResponse r
        → (not after_tls && contains r.flags caps.ssl) ≡ false
        → response_41 nom caps after_tls (r.flags % 2 ^ 16) (
            u16_bytes (r.flags / 2 ^ 16)
            ++ (u32_bytes r.maxps ++ (r.charset ∷ (replicate 23 0 ++ identity_bytes r rest))))
          ≡ ok (rest, as_handshake r)
    unfolding response_41 first_of
    response_41_lem after_tls r rest w no_switch =
        rw
          (
            read_u16 nom (r.flags / 2 ^ 16)
                (u32_bytes r.maxps ++ (r.charset ∷ (replicate 23 0 ++ identity_bytes r rest)))
                (omega (arith, w.flags_fit)),
            both_halves r.flags,
            w.known,
            read_u32 nom r.maxps (r.charset ∷ (replicate 23 0 ++ identity_bytes r rest))
                w.maxps_fits,
            nom.take_enough 1 (r.charset ∷ (replicate 23 0 ++ identity_bytes r rest)) (omega arith),
            nom.take_enough 23 (replicate 23 0 ++ identity_bytes r rest) (omega arith),
            no_switch,
          )
          (identity_lem r rest w)

    -- A response of protocol 4.1 that does not ask to switch to TLS is read back from its bytes, in each of
    -- the three formats of the authentication data, with a length-encoded number of one, three, four or
    -- nine bytes, a length of one byte, or a zero byte at its end, with or without a database and a plugin;
    -- what follows it is left.
    pub client_handshake-response_bytes :
        (after_tls : Bool) (r : Response) (rest : Bytes)
        → IsResponse r
        → (not after_tls && contains r.flags caps.ssl) ≡ false
        → client_handshake nom caps after_tls (response_bytes r rest) ≡ ok (rest, as_handshake r)
    unfolding client_handshake response_bytes
    client_handshake-response_bytes after_tls r rest w no_switch =
        rw
          (
            read_u16 nom (r.flags % 2 ^ 16)
                (u16_bytes (r.flags / 2 ^ 16)
                  ++ (u32_bytes r.maxps ++ (r.charset ∷ (replicate 23 0 ++ identity_bytes r rest))))
                (omega arith),
            w.protocol,
          )
          (response_41_lem after_tls r rest w no_switch)
