-- ===== src/Deps/Scrambles.antt =====
-- The scrambles of the crate mysql_common, which are none for an empty password only.
use opensrv.Common.{◌≡◌, false, Option, none, some, [], Bytes, is_nil}

pub record Scrambles : Type 0 where
  -- nonce and password; the nonce of `sha256` has 20 bytes
  pub native : Bytes → Bytes → Option Bytes
  pub sha256 : Bytes → Bytes → Option Bytes
  pub native_empty : (nonce : Bytes) → native nonce [] ≡ none
  pub sha256_empty : (nonce : Bytes) → sha256 nonce [] ≡ none
  pub native_some :
      (nonce password : Bytes)
      → is_nil password ≡ false
      → (digest : Bytes) × (native nonce password ≡ some digest)
  pub sha256_some :
      (nonce password : Bytes)
      → is_nil password ≡ false
      → (digest : Bytes) × (sha256 nonce password ≡ some digest)
