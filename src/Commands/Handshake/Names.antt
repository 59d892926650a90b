-- ===== src/Commands/Handshake/Names.antt =====
-- mysql/src/commands.rs: which handshake responses name a user.
use opensrv.Common.{
  arith, ℕ, ◌*◌, ◌^◌, bit_or, ◌≡◌, refl, ◌⊎◌, inl, inr, Bool, true, false, not, ◌&&◌, Bool-cases,
  some, Bytes, ok, err, ◌>>=◌, if◌then◌else◌,
}
use opensrv.Deps.Nom.{Nom, IResult}
use opensrv.Deps.Capabilities.{Capabilities}
use opensrv.Writers.{contains}
use opensrv.Commands.Handshake.{
  ClientHandshake, null_str, auth_data, database, plugin_name, identity, ssl_request, response_41,
  database_320, response_320, client_handshake, first_of,
}

-- A property of what a parser returns, if it returns something.
abbrev pub Every {ℓ} : {A : Type 0} → (A → Type ℓ) → IResult A → Type ℓ
Every P (ok (left, a)) = P a
Every P (err e) = Unit

Every-bind :
    {A B : Type 0} (P : B → Type 0) (m : IResult A) (f : Bytes × A → IResult B)
    → ((x : Bytes × A) → Every P (f x))
    → Every P (m >>= f)
Every-bind P (ok x) f h = h x
Every-bind P (err e) f h = tt

module _ (nom : Nom) (caps : Capabilities) where
  -- Who is not asked to switch to TLS has given a name.
  abbrev pub Named : Bool → ClientHandshake → Type 0
  Named after_tls h =
      (after_tls ≡ true) ⊎ (contains h.capabilities caps.ssl ≡ false)
      → (user : Bytes) × (h.username ≡ some user)

  identity-Named :
      (after_tls : Bool) (capabilities maxps collation : ℕ) (i : Bytes)
      → Every (Named after_tls) (identity nom caps capabilities maxps collation i)
  unfolding identity
  identity-Named after_tls capabilities maxps collation i =
      Every-bind (Named after_tls) (null_str nom i) _ λ (i, user).
        Every-bind (Named after_tls) (auth_data nom caps capabilities i) _ λ (i, auth_response).
          Every-bind (Named after_tls) (database nom caps capabilities i) _ λ (i, db).
            Every-bind (Named after_tls) (plugin_name nom caps capabilities i) _ λ _ _. (user, refl)

  response_320-Named :
      (after_tls : Bool) (capabilities : ℕ) (i : Bytes)
      → Every (Named after_tls) (response_320 nom caps capabilities i)
  unfolding response_320
  response_320-Named after_tls capabilities i =
      Every-bind (Named after_tls) (nom.le_u16 i) _ λ (i, maxps1).
        Every-bind (Named after_tls) (nom.le_u8 i) _ λ (i, maxps2).
          Every-bind (Named after_tls) (null_str nom i) _ λ (i, user).
            Every-bind (Named after_tls) (database_320 nom caps capabilities i) _
              λ _ _. (user, refl)

  switch-Named :
      (after_tls : Bool) (capabilities maxps collation : ℕ) (i : Bytes)
      → Every (Named after_tls) (
          if not after_tls && contains capabilities caps.ssl
          then ok (i, ssl_request nom caps capabilities maxps collation)
          else identity nom caps capabilities maxps collation i)
  unfolding ssl_request
  switch-Named true capabilities maxps collation i =
      identity-Named true capabilities maxps collation i
  switch-Named false capabilities maxps collation i =
      elim (Bool-cases (contains capabilities caps.ssl)) [
        | inl e ↦ rw e (λ h. absurd (elim h [ inl b ↦ grind arith | inr b ↦ grind arith ]))
        | inr e ↦ rw e (identity-Named false capabilities maxps collation i)
      ]

  response_41-Named :
      (after_tls : Bool) (cap : ℕ) (i : Bytes)
      → Every (Named after_tls) (response_41 nom caps after_tls cap i)
  unfolding response_41
  response_41-Named after_tls cap i = Every-bind (Named after_tls) (nom.le_u16 i) _ λ (i, cap2).
      Every-bind (Named after_tls) (nom.le_u32 i) _ λ (i, maxps).
        Every-bind (Named after_tls) (nom.take_bytes 1 i) _ λ (i, collation).
          Every-bind (Named after_tls) (nom.take_bytes 23 i) _ λ (i, _).
            switch-Named after_tls (caps.from_bits_truncate (bit_or (cap2 * 2 ^ 16) cap)) maxps
              (first_of collation) i

  pub client_handshake-Named :
      (after_tls : Bool) (i : Bytes)
      → Every (Named after_tls) (client_handshake nom caps after_tls i)
  unfolding client_handshake
  client_handshake-Named after_tls i = Every-bind (Named after_tls) (nom.le_u16 i) _ λ (i, cap).
      elim (Bool-cases (contains (caps.from_bits_truncate cap) caps.protocol_41)) [
        | inl e ↦ rw e (response_41-Named after_tls cap i)
        | inr e ↦ rw e (response_320-Named after_tls (caps.from_bits_truncate cap) i)
      ]
