-- ===== src/Encode/Text/Readings.antt =====
-- How a client reads dates and times in the text protocol, whatever wrote them.
use opensrv.Common.{
  ℕ, zero, suc, ◌+◌, ◌-◌, ◌*◌, Bool, true, false, Option, none, some, [], ◌∷◌, Bytes, ◌==◌,
  if◌then◌else◌,
}
use opensrv.Encode.Text.Digits.{is_digit}

abbrev pub Reader : Type 0 → Type 0
Reader A = Bytes → Option (A × Bytes)

infixl 5 ◌>>=◌ ◌>>◌
abbrev pub ◌>>=◌ : {A B : Type 0} → Reader A → (A → Reader B) → Reader B
◌>>=◌ m f s = elim (m s) [ none ↦ none | some (a, rest) ↦ f a rest ]

abbrev pub ◌>>◌ : {B : Type 0} → Reader (Unit {0}) → Reader B → Reader B
m >> k = m >>= λ _. k

abbrev pub pure : {A : Type 0} → A → Reader A
pure a s = some (a, s)

-- Exactly so many digits.
unfoldable pub number : ℕ → ℕ → Reader ℕ
number zero acc s = some (acc, s)
number (suc width) acc [] = none
number (suc width) acc (b ∷ s) = if is_digit b then number width (acc * 10 + (b - 0x30)) s else none

-- As many digits as there are.
unfoldable pub digits : ℕ → Reader ℕ
digits acc [] = some (acc, [])
digits acc (b ∷ s) = if is_digit b then digits (acc * 10 + (b - 0x30)) s else some (acc, b ∷ s)

unfoldable pub skip : ℕ → Reader (Unit {0})
skip b [] = none
skip b (c ∷ s) = if c == b then some (tt, s) else none

-- A point and six digits, or nothing.
unfoldable pub fraction : Reader ℕ
fraction [] = some (0, [])
fraction (b ∷ s) = if b == 0x2e then number 6 0 s else none

-- What a text may stand for.
pub data Reading : Type 0 where
  day : ℕ → ℕ → ℕ → Reading
  moment : ℕ → ℕ → ℕ → ℕ → ℕ → ℕ → ℕ → Reading
  clock : Bool → ℕ → ℕ → Reading

unfoldable pub read_day : Reader Reading
read_day = do y ← number 4 0; skip 0x2d; m ← number 2 0; skip 0x2d; d ← number 2 0; pure (day y m d)

unfoldable pub read_moment : Reader Reading
read_moment = do
  y ← number 4 0
  skip 0x2d
  mo ← number 2 0
  skip 0x2d
  d ← number 2 0
  skip 0x20
  h ← number 2 0
  skip 0x3a
  mi ← number 2 0
  skip 0x3a
  s ← number 2 0
  us ← fraction
  pure (moment y mo d h mi s us)

-- The hours may have three digits.
unfoldable pub read_hours : Bool → Reader Reading
read_hours negative = do
  h ← digits 0
  skip 0x3a
  m ← number 2 0
  skip 0x3a
  s ← number 2 0
  us ← fraction
  pure (clock negative (h * 3600 + m * 60 + s) us)

unfoldable pub read_clock : Reader Reading
read_clock [] = none
read_clock (b ∷ s) = if b == 0x2d then read_hours true s else read_hours false (b ∷ s)
