-- ===== src/Passwords.antt =====
-- lib.rs: the checks of authentication data that a backend can call.
use opensrv.Common.{
  ◌≡◌, ◌≢◌, refl, sym, ap, ◌⊎◌, inl, inr, Bool, true, false, Bool-cases, Option, none, some, [],
  ◌∷◌, Bytes, length, is_nil, ◌==◌, ==_refl, ==→eq, ==→ne, ne→==, if◌then◌else◌, arith,
}
use mathlib.Core.Path.{ap₂, subst}
use opensrv.Deps.Scrambles.{Scrambles}
use opensrv.Charset.{same}
use opensrv.Session.Connection.{mysql_native_password, caching_sha2_password}

-- `Some(expected) => auth_data == expected, None => auth_data.is_empty()`
pub matches_scramble : Option Bytes → Bytes → Bool
matches_scramble none auth_data = is_nil auth_data
matches_scramble (some expected) auth_data = same auth_data expected

pub strip_zero : Bytes → Bytes
strip_zero auth_data = if same auth_data (0 ∷ []) then [] else auth_data

same→eq : (a b : Bytes) → same a b ≡ true → a ≡ b
unfolding same
same→eq [] [] h = refl
same→eq [] (y ∷ ys) h = absurd (grind arith)
same→eq (x ∷ xs) [] h = absurd (grind arith)
same→eq (x ∷ xs) (y ∷ ys) h = elim (Bool-cases (x == y)) [
  | inl e ↦ ap₂ (λ z zs. z ∷ zs) (==→eq x y e) (same→eq xs ys (rw e at h))
  | inr e ↦ absurd (grind arith)
]

same_refl : (a : Bytes) → same a a ≡ true
unfolding same
same_refl [] = refl
same_refl (x ∷ xs) = rw (==_refl x) (same_refl xs)

ne_of_same : (a b : Bytes) → same a b ≡ false → a ≢ b
ne_of_same a b h e = absurd (let t = same_refl b in let f = rw e at h in grind arith)

same_ne : (a b : Bytes) → a ≢ b → same a b ≡ false
same_ne a b h = elim (Bool-cases (same a b)) [ inl e ↦ absurd (h (same→eq a b e)) | inr e ↦ e ]

is_nil→eq : (a : Bytes) → is_nil a ≡ true → a ≡ []
is_nil→eq [] h = refl
is_nil→eq (x ∷ xs) h = absurd (grind arith)

module _ (scrambles : Scrambles) where
  pub verify_mysql_native_password : Bytes → Bytes → Bytes → Bool
  verify_mysql_native_password password salt auth_data =
      matches_scramble (scrambles.native salt password) auth_data

  pub scramble_sha256 : Bytes → Bytes → Option Bytes
  scramble_sha256 nonce password =
      if length nonce == 20 then scrambles.sha256 nonce password else none

  pub verify_caching_sha2_password : Bytes → Bytes → Bytes → Bool
  verify_caching_sha2_password password salt auth_data =
      matches_scramble (scramble_sha256 salt password) (strip_zero auth_data)

  pub verify_auth_plugin_data : Bytes → Bytes → Bytes → Bytes → Bool
  verify_auth_plugin_data auth_plugin password salt auth_data =
      if same auth_plugin mysql_native_password
      then verify_mysql_native_password password salt auth_data
      else if same auth_plugin caching_sha2_password
      then verify_caching_sha2_password password salt auth_data
      else false

  -- What an answer proves that is the digest, or is empty where an empty password has no digest.
  pub data Proves (digest : Option Bytes) (answer : Bytes) : Type 0 where
    by_digest : digest ≡ some answer → Proves digest answer
    by_nothing : digest ≡ none → answer ≡ [] → Proves digest answer

  -- The authentication data that a password accepts. For caching_sha2_password a single zero byte stands
  -- for no data; where the challenge has not 20 bytes, there is no digest, and no data is accepted.
  pub data Accepts (plugin password salt auth_data : Bytes) : Type 0 where
    by_native :
        plugin ≡ mysql_native_password
        → Proves (scrambles.native salt password) auth_data
        → Accepts plugin password salt auth_data
    by_sha2 :
        plugin ≡ caching_sha2_password
        → length salt ≡ 20
        → auth_data ≢ 0 ∷ []
        → Proves (scrambles.sha256 salt password) auth_data
        → Accepts plugin password salt auth_data
    by_zero :
        plugin ≡ caching_sha2_password
        → length salt ≡ 20
        → auth_data ≡ 0 ∷ []
        → Proves (scrambles.sha256 salt password) []
        → Accepts plugin password salt auth_data
    by_salt :
        plugin ≡ caching_sha2_password
        → length salt ≢ 20
        → (auth_data ≡ []) ⊎ (auth_data ≡ 0 ∷ [])
        → Accepts plugin password salt auth_data

  matches-Proves : (o : Option Bytes) (d : Bytes) → matches_scramble o d ≡ true → Proves o d
  unfolding matches_scramble
  matches-Proves none d h = by_nothing refl (is_nil→eq d h)
  matches-Proves (some e) d h = by_digest (ap some (sym (same→eq d e h)))

  Proves-matches : (o : Option Bytes) (d : Bytes) → Proves o d → matches_scramble o d ≡ true
  unfolding matches_scramble
  Proves-matches o d (by_digest e) = rw e (same_refl d)
  Proves-matches o d (by_nothing e nil) = rw (e, nil) refl

  sha2-Accepts :
      (password salt d : Bytes)
      → verify_caching_sha2_password password salt d ≡ true
      → Accepts caching_sha2_password password salt d
  unfolding verify_caching_sha2_password scramble_sha256 strip_zero matches_scramble
  sha2-Accepts password salt d = elim (Bool-cases (length salt == 20)) [
    | inl size ↦ elim (Bool-cases (same d (0 ∷ []))) [
      | inl zero_byte ↦
          rw (size, zero_byte)
            (λ h.
              by_zero refl (==→eq _ _ size) (same→eq d (0 ∷ []) zero_byte)
                (matches-Proves (scrambles.sha256 salt password) [] h))
      | inr other ↦
          rw (size, other)
            (λ h.
              by_sha2 refl (==→eq _ _ size) (ne_of_same d (0 ∷ []) other)
                (matches-Proves (scrambles.sha256 salt password) d h))
    ]
    | inr size ↦ elim (Bool-cases (same d (0 ∷ []))) [
      | inl zero_byte ↦ λ h. by_salt refl (==→ne _ _ size) (inr (same→eq d (0 ∷ []) zero_byte))
      | inr other ↦ rw (size, other) (λ h. by_salt refl (==→ne _ _ size) (inl (is_nil→eq d h)))
    ]
  ]

  Accepts-true :
      (plugin password salt d : Bytes)
      → Accepts plugin password salt d
      → verify_auth_plugin_data plugin password salt d ≡ true
  unfolding verify_auth_plugin_data verify_mysql_native_password verify_caching_sha2_password
      scramble_sha256 strip_zero same
  Accepts-true plugin password salt d (by_native is p) =
      rw is (Proves-matches (scrambles.native salt password) d p)
  Accepts-true plugin password salt d (by_sha2 is size other p) =
      rw (is, size, same_ne d (0 ∷ []) other) (Proves-matches (scrambles.sha256 salt password) d p)
  Accepts-true plugin password salt d (by_zero is size zero_byte p) =
      rw (is, size, zero_byte) (Proves-matches (scrambles.sha256 salt password) [] p)
  Accepts-true plugin password salt d (by_salt is size (inl nothing)) =
      unfold matches_scramble in rw (is, ne→== (length salt) 20 size, nothing) refl
  Accepts-true plugin password salt d (by_salt is size (inr zero_byte)) =
      unfold matches_scramble in rw (is, ne→== (length salt) 20 size, zero_byte) refl

  -- The check accepts exactly: for mysql_native_password the digest of that plugin for the password and
  -- the challenge, or no data where the password is empty; for caching_sha2_password the same with its own
  -- digest, a single zero byte standing for no data; and, where the challenge has not 20 bytes, for
  -- caching_sha2_password no data or a single zero byte, whatever the password is.
  pub verify_auth_plugin_data-Accepts :
      (plugin password salt auth_data : Bytes)
      → (verify_auth_plugin_data plugin password salt auth_data ≡ true
          → Accepts plugin password salt auth_data)
        × (Accepts plugin password salt auth_data
            → verify_auth_plugin_data plugin password salt auth_data ≡ true)
  unfolding verify_auth_plugin_data verify_mysql_native_password
  verify_auth_plugin_data-Accepts plugin password salt d = (
    elim (Bool-cases (same plugin mysql_native_password)) [
      | inl native ↦ rw native (λ h.
          by_native (same→eq plugin mysql_native_password native)
            (matches-Proves (scrambles.native salt password) d h))
      | inr other ↦ elim (Bool-cases (same plugin caching_sha2_password)) [
        | inl sha2 ↦
            rw (other, sha2)
              (λ h.
                let is = same→eq plugin caching_sha2_password sha2 in
                subst (λ p. Accepts p password salt d) (sym is) (sha2-Accepts password salt d h))
        | inr neither ↦ rw (other, neither) (λ h. absurd (grind arith))
      ]
    ],
    Accepts-true plugin password salt d,
  )
