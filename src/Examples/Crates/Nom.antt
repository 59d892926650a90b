-- ===== src/Examples/Crates/Nom.antt =====
-- Parsers of bytes as the crate nom documents them.
use opensrv.Common.{
  ℕ, ◌+◌, ◌*◌, ◌^◌, ◌<◌, ◌≡◌, ◌≢◌, refl, Option, none, some, [], ◌∷◌, ◌++◌, Bytes, length, take,
  drop, All, ltb, ◌==◌, if◌then◌else◌, lt→ltb, le→ltb, ==_refl, ne→==, ok, err, arith, Bool-cases,
  inl, inr, ==→eq,
}
use mathlib.Core.Path.{ap₂}
use opensrv.Deps.Nom.{Nom, IResult, error}

abbrev le_u8 : Bytes → IResult ℕ
le_u8 [] = err error
le_u8 (a ∷ rest) = ok (rest, a)

abbrev le_u16 : Bytes → IResult ℕ
le_u16 (a ∷ b ∷ rest) = ok (rest, a + b * 2 ^ 8)
le_u16 _ = err error

abbrev le_u24 : Bytes → IResult ℕ
le_u24 (a ∷ b ∷ c ∷ rest) = ok (rest, a + b * 2 ^ 8 + c * 2 ^ 16)
le_u24 _ = err error

abbrev le_u32 : Bytes → IResult ℕ
le_u32 (a ∷ b ∷ c ∷ d ∷ rest) = ok (rest, a + b * 2 ^ 8 + c * 2 ^ 16 + d * 2 ^ 24)
le_u32 _ = err error

abbrev take_bytes : ℕ → Bytes → IResult Bytes
take_bytes n i = if ltb (length i) n then err error else ok (drop n i, take n i)

abbrev behind : Bytes → Bytes → Option Bytes
behind [] i = some i
behind (t ∷ ts) [] = none
behind (t ∷ ts) (x ∷ i) = let rest = behind ts i in if x == t then rest else none

abbrev tag : Bytes → Bytes → IResult Bytes
tag t i = elim (behind t i) [ some rest ↦ ok (rest, t) | none ↦ err error ]

abbrev upto : ℕ → Bytes → IResult Bytes
upto c [] = err error
upto c (x ∷ i) =
    let more = upto c i in
    if x == c
    then ok (x ∷ i, [])
    else elim more [ ok (rest, xs) ↦ ok (rest, x ∷ xs) | err e ↦ err e ]

abbrev take_until : Bytes → Bytes → IResult Bytes
take_until (c ∷ []) i = upto c i
take_until _ i = err error

abbrev u16_short : (i : Bytes) → length i < 2 → le_u16 i ≡ err error
u16_short [] h = refl
u16_short (a ∷ []) h = refl
u16_short (a ∷ b ∷ i) h = absurd (omega arith)

abbrev u24_short : (i : Bytes) → length i < 3 → le_u24 i ≡ err error
u24_short [] h = refl
u24_short (a ∷ []) h = refl
u24_short (a ∷ b ∷ []) h = refl
u24_short (a ∷ b ∷ c ∷ i) h = absurd (omega arith)

abbrev u32_short : (i : Bytes) → length i < 4 → le_u32 i ≡ err error
u32_short [] h = refl
u32_short (a ∷ []) h = refl
u32_short (a ∷ b ∷ []) h = refl
u32_short (a ∷ b ∷ c ∷ []) h = refl
u32_short (a ∷ b ∷ c ∷ d ∷ i) h = absurd (omega arith)

abbrev behind_match : (t rest : Bytes) → behind t (t ++ rest) ≡ some rest
behind_match [] rest = refl
behind_match (x ∷ t) rest = rw (==_refl x) (behind_match t rest)

abbrev behind_mismatch : (t i : Bytes) → ((rest : Bytes) → i ≢ t ++ rest) → behind t i ≡ none
behind_mismatch [] i h = absurd (h i refl)
behind_mismatch (t ∷ ts) [] h = refl
behind_mismatch (t ∷ ts) (x ∷ i) h = elim (Bool-cases (x == t)) [
  | inl e ↦ rw e (behind_mismatch ts i (λ rest same. h rest (ap₂ ◌∷◌ (==→eq x t e) same)))
  | inr e ↦ rw e
]

abbrev upto_found :
    (c : ℕ) (xs ys : Bytes) → All (λ x. x ≢ c) xs → upto c (xs ++ (c ∷ ys)) ≡ ok (c ∷ ys, xs)
upto_found c [] ys h = rw (==_refl c)
upto_found c (x ∷ xs) ys (ne, h) = rw (ne→== x c ne, upto_found c xs ys h)

abbrev upto_missing : (c : ℕ) (xs : Bytes) → All (λ x. x ≢ c) xs → upto c xs ≡ err error
upto_missing c [] h = refl
upto_missing c (x ∷ xs) (ne, h) = rw (ne→== x c ne, upto_missing c xs h)

abbrev pub nom : Nom
nom = record {
  le_u8 = le_u8;
  le_u16 = le_u16;
  le_u24 = le_u24;
  le_u32 = le_u32;
  take_bytes = take_bytes;
  tag = tag;
  take_until = take_until;
  le_u8_enough = λ a rest. refl;
  le_u8_short = refl;
  le_u16_enough = λ a b rest. refl;
  le_u16_short = u16_short;
  le_u24_enough = λ a b c rest. refl;
  le_u24_short = u24_short;
  le_u32_enough = λ a b c d rest. refl;
  le_u32_short = u32_short;
  take_enough = λ n i h. rw (le→ltb (length i) n h) refl;
  take_short = λ n i h. rw (lt→ltb (length i) n h) refl;
  tag_match = λ t rest. rw (behind_match t rest, tag) refl;
  tag_mismatch = λ t i h. rw (behind_mismatch t i h, tag) refl;
  take_until_found = upto_found;
  take_until_missing = upto_missing;
}
