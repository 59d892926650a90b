-- ===== src/Session/Login/Challenge.antt =====
-- mysql/src/lib.rs: `generate_scramble`, the challenge of a greeting, and `salt`.
use opensrv.Common.{
  ℕ, suc, ◌≤◌, ◌<◌, ◌≡◌, refl, ap, Bool, false, not, ◌||◌, Option, none, some, List, [], ◌∷◌, Bytes,
  length, replicate, All, ltb, ◌==◌, if◌then◌else◌, Bool-cases, inl, inr, Result, ok, err, arith,
}
use mathlib.Core.Path.{subst}
use opensrv.Wire.{IoError}
use opensrv.Session.Connection.{has_delimiter}

-- What `getrandom::fill` gives for one byte, in the order of the calls. A call on a list that has no
-- more answers has not returned, which is `none` below.
abbrev pub Draws : Type 0
Draws = List (Result IoError ℕ)

abbrev pub Drawn : Type 0 → Type 0
Drawn A = Option (Result IoError A × Draws)

abbrev scramble_size : ℕ
scramble_size = 20

-- `!byte.is_ascii() || matches!(*byte, 0 | b'$')`
pub is_rejected : ℕ → Bool
is_rejected b = not (ltb b 0x80) || (b == 0) || (b == 0x24)

-- The `while` of one byte.
pub redraw : ℕ → Draws → Drawn ℕ
redraw b [] = if is_rejected b then none else some (ok b, [])
redraw b (draw ∷ draws) =
    let again : Drawn ℕ = elim draw [ ok c ↦ redraw c draws | err e ↦ some (err e, draws) ] in
    if is_rejected b then again else some (ok b, draw ∷ draws)

-- The byte that is settled, before those that the rest of the loop settles.
pub settle_byte : ℕ → Drawn Bytes → Drawn Bytes
settle_byte b none = none
settle_byte b (some (err e, draws)) = some (err e, draws)
settle_byte b (some (ok bs, draws)) = some (ok (b ∷ bs), draws)

pub next_byte : Drawn ℕ → (Draws → Drawn Bytes) → Drawn Bytes
unfolding settle_byte
next_byte none loop = none
next_byte (some (err e, draws)) loop = some (err e, draws)
next_byte (some (ok b, draws)) loop = settle_byte b (loop draws)

-- The `for` over the bytes.
pub redraw_all : Bytes → Draws → Drawn Bytes
redraw_all [] draws = some (ok [], draws)
redraw_all (b ∷ bs) draws = next_byte (redraw b draws) (redraw_all bs)

-- `filled` is what the first call of `getrandom::fill` gives for the whole array.
unfoldable pub generate_scramble : Result IoError Bytes → Draws → Drawn Bytes
unfolding redraw_all next_byte settle_byte redraw is_rejected
generate_scramble (err e) draws = some (err e, draws)
generate_scramble (ok filled) draws = redraw_all filled draws

-- `unwrap_or([0; SCRAMBLE_SIZE])`
pub salt : Result IoError Bytes → Draws → Option Bytes
salt filled draws = elim (generate_scramble filled draws) [
  | none ↦ none
  | some (ok scramble, rest) ↦ some scramble
  | some (err e, rest) ↦ some (replicate scramble_size 0)
]

-- A byte that is settled is not rejected.
abbrev KeptByte : Drawn ℕ → Type 0
KeptByte none = Unit {0}
KeptByte (some (err e, draws)) = Unit {0}
KeptByte (some (ok b, draws)) = is_rejected b ≡ false

abbrev Kept : ℕ → Drawn Bytes → Type 0
Kept size none = Unit {0}
Kept size (some (err e, draws)) = Unit {0}
Kept size (some (ok bs, draws)) =
    (length bs ≡ size) × (has_delimiter bs ≡ false) × All (λ b. b < 0x80) bs

redraw-KeptByte : (b : ℕ) (draws : Draws) → KeptByte (redraw b draws)
unfolding redraw
redraw-KeptByte b [] = elim (Bool-cases (is_rejected b)) [ inl e ↦ rw e tt | inr e ↦ rw (e, e) ]
redraw-KeptByte b (ok c ∷ draws) = elim (Bool-cases (is_rejected b)) [
  | inl e ↦ rw e (redraw-KeptByte c draws)
  | inr e ↦ rw (e, e)
]
redraw-KeptByte b (err x ∷ draws) = elim (Bool-cases (is_rejected b)) [
  | inl e ↦ rw e tt
  | inr e ↦ rw (e, e)
]

settle_byte-Kept :
    (size b : ℕ) (r : Drawn Bytes)
    → is_rejected b ≡ false
    → Kept size r
    → Kept (suc size) (settle_byte b r)
unfolding settle_byte is_rejected has_delimiter
settle_byte-Kept size b none h k = tt
settle_byte-Kept size b (some (err e, draws)) h k = tt
settle_byte-Kept size b (some (ok bs, draws)) h k = (ap suc k.0, ground arith, (ground arith, k.2))

next_byte-Kept :
    (size : ℕ) (r : Drawn ℕ) (loop : Draws → Drawn Bytes)
    → KeptByte r
    → ((draws : Draws) → Kept size (loop draws))
    → Kept (suc size) (next_byte r loop)
unfolding next_byte
next_byte-Kept size none loop h k = tt
next_byte-Kept size (some (err e, draws)) loop h k = tt
next_byte-Kept size (some (ok b, draws)) loop h k = settle_byte-Kept size b (loop draws) h (k draws)

redraw_all-Kept : (bs : Bytes) (draws : Draws) → Kept (length bs) (redraw_all bs draws)
unfolding redraw_all has_delimiter
redraw_all-Kept [] draws = (refl, refl, tt)
redraw_all-Kept (b ∷ bs) draws =
    next_byte-Kept (length bs) (redraw b draws) (redraw_all bs) (redraw-KeptByte b draws)
      (redraw_all-Kept bs)

-- A challenge that is generated is as long as the array, holds neither a zero byte nor a `$`, which
-- `init_before_ssl` would refuse, and is ASCII, whatever the random numbers are.
pub generate_scramble-has_delimiter :
    (filled : Bytes) (draws rest : Draws) (scramble : Bytes)
    → generate_scramble (ok filled) draws ≡ some (ok scramble, rest)
    → (length scramble ≡ length filled)
      × (has_delimiter scramble ≡ false)
      × All (λ b. b < 0x80) scramble
unfolding generate_scramble
generate_scramble-has_delimiter filled draws rest scramble h =
    subst (Kept (length filled)) h (redraw_all-Kept filled draws)

-- The random bytes, and how many of them a challenge may hold.
unfoldable pub draws_of : Bytes → Draws
draws_of [] = []
draws_of (b ∷ bs) = ok b ∷ draws_of bs

unfoldable pub kept_count : Bytes → ℕ
unfolding is_rejected
kept_count [] = 0
kept_count (b ∷ bs) = if is_rejected b then kept_count bs else suc (kept_count bs)

redraw_done : (b : ℕ) (draws : Draws) → is_rejected b ≡ false → redraw b draws ≡ some (ok b, draws)
unfolding redraw
redraw_done b [] h = rw h
redraw_done b (draw ∷ draws) h = rw h

redraw-draws_of :
    (b : ℕ) (random : Bytes)
    → 0 < kept_count random
    → (c : ℕ) × (left : Bytes) × (redraw b (draws_of random) ≡ some (ok c, draws_of left))
      × (kept_count random ≤ suc (kept_count left))
unfolding redraw draws_of kept_count
redraw-draws_of b [] h = absurd (omega arith)
redraw-draws_of b (d ∷ random) h = elim (Bool-cases (is_rejected b)) [
  | inr keep ↦ (b, d ∷ random, rw keep, omega arith)
  | inl drop_b ↦ elim (Bool-cases (is_rejected d)) [
    | inr keep ↦
        (d, random, rw drop_b (redraw_done d (draws_of random) keep), rw keep (omega arith))
    | inl drop_d ↦
        let (c, left, e, n) = redraw-draws_of d random (rw drop_d at h) in
        (c, left, rw drop_b e, rw drop_d n)
  ]
]

-- Random bytes of which as many may be held as the challenge is long are enough: the loop ends, and
-- gives a challenge.
pub generate_scramble-draws_of :
    (filled random : Bytes)
    → length filled ≤ kept_count random
    → (scramble : Bytes) × (rest : Draws) × (generate_scramble (ok filled) (draws_of random)
        ≡ some (ok scramble, rest))
unfolding generate_scramble redraw_all next_byte settle_byte
generate_scramble-draws_of [] random h = ([], draws_of random, refl)
generate_scramble-draws_of (b ∷ filled) random h =
    let (c, left, e, n) = redraw-draws_of b random (omega arith) in
    let (scramble, rest, ih) = generate_scramble-draws_of filled left (omega arith) in
    (c ∷ scramble, rest, rw (e, ih))
