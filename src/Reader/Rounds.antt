-- ===== src/Reader/Rounds.antt =====
-- packet_reader.rs: one round of the loop of `ensure_packet_limit`.
use opensrv.Common.{
  ℕ, zero, suc, ◌+◌, ◌-◌, ◌^◌, ◌≤◌, ◌<◌, ◌≡◌, refl, ap, ◌∙◌, List, ◌∷◌, ◌++◌, Bytes, length,
  length-append, length-take, take, flatten, take-append_le, take-append_ge, append_assoc, arith,
  ltb, leb, if◌then◌else◌, drop-length-append, lt→ltb, le→ltb, ok, err, Result, inl, inr,
  Bool-cases, ltb→lt, ltb→le,
}
use opensrv.Wire.{u24_max, usize_mod, IoError, invalid_data}
use opensrv.Wire.Frame.{u24_bytes, frame}
use opensrv.Reader.{limit_loop}
use opensrv.Reader.Frames.{frame_len-u24, drop-header}

-- The verdict on a size, which an overflow does not change.
abbrev verdict : ℕ → ℕ → Result IoError (Unit {0})
verdict limit size = if ltb limit size then err invalid_data else ok tt

overflow_absorbed :
    (limit size : ℕ) (r : Result IoError (Unit {0}))
    → limit < 2 ^ 64
    → (if leb usize_mod size
        then err invalid_data
        else if ltb limit size
        then err invalid_data
        else r)
      ≡ (if ltb limit size then err invalid_data else r)
overflow_absorbed limit size r h = ground arith

-- A frame that is cut short behind its length.
limit_cut :
    (limit k fuel seq size : ℕ) (payload : Bytes)
    → limit < 2 ^ 64
    → length payload < 2 ^ 24
    → k < 1 + length payload
    → limit_loop limit (suc fuel) (u24_bytes (length payload) ++ take k (seq ∷ payload)) size
      ≡ verdict limit (size + length payload)
unfolding limit_loop
limit_cut limit k fuel seq size payload hl h hk =
    let cut : suc (suc (suc (length (take k (seq ∷ payload))))) < 4 + length payload =
      omega (arith, length-take k (seq ∷ payload)) in
    rw (frame_len-u24 (length payload) h)
      (rw (lt→ltb _ _ cut) (overflow_absorbed limit (size + length payload) _ hl))

limit_step :
    (limit fuel seq size : ℕ) (payload tail : Bytes)
    → limit < 2 ^ 64
    → length payload < 2 ^ 24
    → limit_loop limit (suc fuel) (frame seq payload ++ tail) size ≡ (
        if ltb limit (size + length payload)
        then err invalid_data
        else if ltb (length payload) u24_max
        then ok tt
        else limit_loop limit fuel tail (size + length payload))
unfolding limit_loop
limit_step limit fuel seq size payload tail hl h =
    let enough : 4 + length payload ≤ suc (suc (suc (suc (length (payload ++ tail))))) =
      omega (arith, length-append payload tail) in
    rw (frame_len-u24 (length payload) h) (
      rw (le→ltb _ _ enough, drop-header)
        (rw (drop-length-append payload tail)
          (overflow_absorbed limit (size + length payload) _ hl)))

-- The sum of the lengths behind the first frame, and the bytes that follow it.
pub sizes :
    (f : Bytes) (full : List Bytes) (last : Bytes)
    → length (flatten (f ∷ full) ++ last) ≡ length f + length (flatten full ++ last)
sizes f full last =
    ap length (append_assoc f (flatten full) last) ∙ length-append f (flatten full ++ last)

take-frame :
    (k seq : ℕ) (payload tail : Bytes)
    → 4 + length payload ≤ k
    → take k (frame seq payload ++ tail) ≡ frame seq payload ++ take (k - (4 + length payload)) tail
take-frame k seq payload tail h =
    take-append_ge k (frame seq payload) tail (omega arith)
    ∙ ap (λ n. frame seq payload ++ take n tail) (omega arith)

take_cut :
    (k seq : ℕ) (payload tail : Bytes)
    → k < 1 + length payload
    → take (3 + k) (frame seq payload ++ tail)
      ≡ u24_bytes (length payload) ++ take k (seq ∷ payload)
take_cut k seq payload tail h =
    take-append_le (3 + k) (frame seq payload) tail (omega arith)
    ∙ ap (λ n. take n (frame seq payload)) (three k)
  where
    three : (k : ℕ) → 3 + k ≡ suc (suc (suc k))
    three k = omega arith

-- Less than a length field is no reason to reject.
pub limit_short :
    (limit k fuel seq size : ℕ) (payload tail : Bytes)
    → k < 3
    → limit_loop limit (suc fuel) (take k (frame seq payload ++ tail)) size ≡ ok tt
unfolding limit_loop
limit_short limit zero fuel seq size payload tail h = refl
limit_short limit (suc zero) fuel seq size payload tail h = refl
limit_short limit (suc (suc zero)) fuel seq size payload tail h = refl
limit_short limit (suc (suc (suc k))) fuel seq size payload tail h = absurd (omega arith)

-- What the loop does with the part of a frame that has arrived.
pub limit_part :
    (limit k fuel seq size : ℕ) (payload tail : Bytes)
    → limit < 2 ^ 64
    → length payload < 2 ^ 24
    → 3 ≤ k
    → k < 4 + length payload
    → limit_loop limit (suc fuel) (take k (frame seq payload ++ tail)) size
      ≡ verdict limit (size + length payload)
limit_part limit k fuel seq size payload tail hl h lo hi =
    ap (λ n. limit_loop limit (suc fuel) (take n (frame seq payload ++ tail)) size) (omega arith)
    ∙ ap (λ i. limit_loop limit (suc fuel) i size) (take_cut (k - 3) seq payload tail (omega arith))
    ∙ limit_cut limit (k - 3) fuel seq size payload hl h (omega arith)

pub limit_whole :
    (limit k fuel seq size : ℕ) (payload tail : Bytes)
    → limit < 2 ^ 64
    → length payload < 2 ^ 24
    → 4 + length payload ≤ k
    → limit_loop limit (suc fuel) (take k (frame seq payload ++ tail)) size ≡ (
        if ltb limit (size + length payload)
        then err invalid_data
        else if ltb (length payload) u24_max
        then ok tt
        else limit_loop limit fuel (take (k - (4 + length payload)) tail) (size + length payload))
limit_whole limit k fuel seq size payload tail hl h hk =
    ap (λ i. limit_loop limit (suc fuel) i size) (take-frame k seq payload tail hk)
    ∙ limit_step limit fuel seq size payload (take (k - (4 + length payload)) tail) hl h

-- The three cases of `k` against a frame of `n` bytes of payload.
pub data Arrived (n k : ℕ) : Type 0 where
  short : k < 3 → Arrived n k
  part : 3 ≤ k → k < 4 + n → Arrived n k
  whole : 4 + n ≤ k → Arrived n k

pub arrived : (n k : ℕ) → Arrived n k
arrived n k = elim (Bool-cases (ltb k 3)) [
  | inl e ↦ short (ltb→lt k 3 e)
  | inr e ↦ elim (Bool-cases (ltb k (4 + n))) [
    | inl e' ↦ part (ltb→le k 3 e) (ltb→lt k (4 + n) e')
    | inr e' ↦ whole (ltb→le k (4 + n) e')
  ]
]
