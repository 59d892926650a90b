-- ===== src/Examples/Passwords.antt =====
-- lib.rs: the checks of authentication data.
use opensrv.Common.{
  ◌≡◌, refl, true, false, Option, none, some, [], ◌∷◌, Bytes, replicate, is_nil, arith,
}
use opensrv.Deps.Scrambles.{Scrambles}
use opensrv.Session.Connection.{caching_sha2_password}
use opensrv.Passwords.{verify_auth_plugin_data, Accepts, verify_auth_plugin_data-Accepts}

-- The password itself, in place of a hash.
abbrev echo : Bytes → Option Bytes
echo [] = none
echo (b ∷ bs) = some (b ∷ bs)

abbrev echoed :
    (password : Bytes) → is_nil password ≡ false → (digest : Bytes) × (echo password ≡ some digest)
echoed [] h = absurd (grind arith)
echoed (b ∷ bs) h = (b ∷ bs, refl)

abbrev scrambles : Scrambles
scrambles = record {
  native = λ nonce password. echo password;
  sha256 = λ nonce password. echo password;
  native_empty = λ nonce. refl;
  sha256_empty = λ nonce. refl;
  native_some = λ nonce password h. echoed password h;
  sha256_some = λ nonce password h. echoed password h;
}

abbrev salt : Bytes
salt = replicate 20 1

verify_auth_plugin_data-Accepts_example :
    (verify_auth_plugin_data scrambles caching_sha2_password (7 ∷ []) salt (7 ∷ []) ≡ true
      → Accepts scrambles caching_sha2_password (7 ∷ []) salt (7 ∷ []))
    × (Accepts scrambles caching_sha2_password (7 ∷ []) salt (7 ∷ [])
        → verify_auth_plugin_data scrambles caching_sha2_password (7 ∷ []) salt (7 ∷ []) ≡ true)
verify_auth_plugin_data-Accepts_example =
    verify_auth_plugin_data-Accepts scrambles caching_sha2_password (7 ∷ []) salt (7 ∷ [])
