-- ===== src/ErrorCodes/RoundTrip.antt =====
-- mysql/src/errorcodes.rs: the numbers and the SQL states of the error codes.
use opensrv.Common.{
  ℕ, zero, suc, ◌+◌, ◌≡◌, ◌≤◌, ◌<◌, inl, inr, refl, Bool, true, false, not, ◌&&◌, ◌||◌, List, [],
  ◌∷◌, ◌==◌, leb, arith, if◌then◌else◌, Bytes, Bool-cases,
}
use opensrv.ErrorCodes.Kinds.{ErrorKind, er_hashchk, er_unknown_error}
use opensrv.ErrorCodes.Codes.{code}
use opensrv.ErrorCodes.Arms.{arms, kind_at, from_u16}
use opensrv.ErrorCodes.States.{sqlstate}

-- The number of every error code is read back as that code.
pub from_u16-code : (k : ErrorKind) → from_u16 (code k) ≡ k
unfolding from_u16 code
from_u16-code er_hashchk = refl
from_u16-code _ = refl

-- The numbers of the table.
abbrev pub is_code : ℕ → Bool
is_code x = leb 1000 x && leb x 1885

in_table : List (ℕ × ErrorKind) → Bool
in_table [] = true
in_table ((n, k) ∷ rest) = is_code n && in_table rest

kind_at-not_code :
    (x : ℕ) (table : List (ℕ × ErrorKind))
    → in_table table ≡ true
    → is_code x ≡ false
    → kind_at x table ≡ er_unknown_error
unfolding kind_at in_table
kind_at-not_code x [] h out = refl
kind_at-not_code x ((n, k) ∷ rest) h out = ground (arith, kind_at-not_code x rest)

-- Every number from `from` on, as many as there are, is that of its code.
reads_back : ℕ → ℕ → Bool
reads_back zero from = true
reads_back (suc n) from = (code (from_u16 from) == from) && reads_back n (suc from)

reads_back_sound :
    (n from x : ℕ) → reads_back n from ≡ true → from ≤ x → x < from + n → code (from_u16 x) ≡ x
unfolding reads_back
reads_back_sound zero from x h low high = absurd (omega arith)
reads_back_sound (suc n) from x h low high = elim (Bool-cases (from == x)) [
  | inl e ↦ ground (arith)
  | inr e ↦ ground (arith, reads_back_sound n (suc from) x)
]

reads_back_all : reads_back 886 1000 ≡ true
unfolding reads_back code from_u16
reads_back_all = refl

table_in : in_table arms ≡ true
unfolding in_table
table_in = refl

is_code_bounds : (x : ℕ) → is_code x ≡ true → (1000 ≤ x) × (x < 1000 + 886)
is_code_bounds x h = ground arith

from_u16-not_code : (x : ℕ) → is_code x ≡ false → from_u16 x ≡ er_unknown_error
unfolding from_u16
from_u16-not_code x h = kind_at-not_code x arms table_in h

code_unknown : code er_unknown_error ≡ 1105
unfolding code
code_unknown = refl

-- A number is read as a code with that number if it is one of the 886 of the table, from 1000 to
-- 1885, and as ER_UNKNOWN_ERROR, which is 1105, if it is any other.
pub code-from_u16 : (x : ℕ) → code (from_u16 x) ≡ (if is_code x then x else 1105)
code-from_u16 x = elim (Bool-cases (is_code x)) [
  | inl e ↦
      rw e
        (reads_back_sound 886 1000 x reads_back_all (is_code_bounds x e).0 (is_code_bounds x e).1)
  | inr e ↦ rw (e, from_u16-not_code x e) code_unknown
]

-- A digit or a capital letter.
abbrev pub is_alphanumeric : ℕ → Bool
is_alphanumeric b = (leb 0x30 b && leb b 0x39) || (leb 0x41 b && leb b 0x5a)

-- A state of five characters whose class is not `00`, which would be success.
pub is_error_state : Bytes → Bool
is_error_state (a ∷ b ∷ c ∷ d ∷ e ∷ []) =
    is_alphanumeric a
    && is_alphanumeric b
    && is_alphanumeric c
    && is_alphanumeric d
    && is_alphanumeric e
    && not ((a == 0x30) && (b == 0x30))
is_error_state _ = false

-- The SQL state of every error code has five digits or capital letters and is not one of success.
pub sqlstate-is_error_state : (k : ErrorKind) → is_error_state (sqlstate k) ≡ true
unfolding sqlstate is_error_state
sqlstate-is_error_state er_hashchk = refl
sqlstate-is_error_state _ = refl
