-- ===== src/Deps/Nom.antt =====
-- The `complete` parsers of the crate nom that commands.rs and packet_reader.rs call.
use opensrv.Common.{
  ℕ, ◌+◌, ◌*◌, ◌^◌, ◌≤◌, ◌<◌, ◌≡◌, ◌≢◌, [], ◌∷◌, ◌++◌, Bytes, length, take, drop, All, Result, ok,
  err,
}

-- `nom::Err`, without the input that an error carries. The last two are no values of nom: an index
-- out of range, which panics, and a loop of the model that ran out of its fuel.
pub data NomErr : Type 0 where
  incomplete error failure : NomErr
  panicked out_of_fuel : NomErr

abbrev pub IResult : Type 0 → Type 0
IResult A = Result NomErr (Bytes × A)

-- A parser returns the input that is left and its value.
pub record Nom : Type 0 where
  pub le_u8 : Bytes → IResult ℕ
  pub le_u16 : Bytes → IResult ℕ
  pub le_u24 : Bytes → IResult ℕ
  pub le_u32 : Bytes → IResult ℕ
  pub take_bytes : ℕ → Bytes → IResult Bytes
  pub tag : Bytes → Bytes → IResult Bytes
  pub take_until : Bytes → Bytes → IResult Bytes
  pub le_u8_enough : (a : ℕ) (rest : Bytes) → le_u8 (a ∷ rest) ≡ ok (rest, a)
  pub le_u8_short : le_u8 [] ≡ err error
  pub le_u16_enough : (a b : ℕ) (rest : Bytes) → le_u16 (a ∷ b ∷ rest) ≡ ok (rest, a + b * 2 ^ 8)
  pub le_u16_short : (i : Bytes) → length i < 2 → le_u16 i ≡ err error
  pub le_u24_enough :
      (a b c : ℕ) (rest : Bytes) → le_u24 (a ∷ b ∷ c ∷ rest) ≡ ok (rest, a + b * 2 ^ 8 + c * 2 ^ 16)
  pub le_u24_short : (i : Bytes) → length i < 3 → le_u24 i ≡ err error
  pub le_u32_enough :
      (a b c d : ℕ) (rest : Bytes)
      → le_u32 (a ∷ b ∷ c ∷ d ∷ rest) ≡ ok (rest, a + b * 2 ^ 8 + c * 2 ^ 16 + d * 2 ^ 24)
  pub le_u32_short : (i : Bytes) → length i < 4 → le_u32 i ≡ err error
  pub take_enough : (n : ℕ) (i : Bytes) → n ≤ length i → take_bytes n i ≡ ok (drop n i, take n i)
  pub take_short : (n : ℕ) (i : Bytes) → length i < n → take_bytes n i ≡ err error
  pub tag_match : (t rest : Bytes) → tag t (t ++ rest) ≡ ok (rest, t)
  pub tag_mismatch : (t i : Bytes) → ((rest : Bytes) → i ≢ t ++ rest) → tag t i ≡ err error
  pub take_until_found :
      (c : ℕ) (xs ys : Bytes)
      → All (λ x. x ≢ c) xs
      → take_until (c ∷ []) (xs ++ (c ∷ ys)) ≡ ok (c ∷ ys, xs)
  pub take_until_missing :
      (c : ℕ) (xs : Bytes) → All (λ x. x ≢ c) xs → take_until (c ∷ []) xs ≡ err error
