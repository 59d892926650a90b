-- ===== src/Writer/Closing.antt =====
-- mysql/src/packet_writer.rs: the chunks of `send_packet`, against the frames of its payload.
use opensrv.Common.{
  ℕ, zero, suc, ◌%◌, ◌≤◌, ◌<◌, ◌≡◌, refl, sym, ap, ◌∙◌, List, [], ◌∷◌, ◌++◌, Bytes, length,
  length-drop, take, drop, take_all, drop_all, arith, ltb, ◌==◌, if◌then◌else◌, Bool-cases, inl,
  inr, ltb→lt, ltb→le, lt→ltb, ne→==,
}
use native.Mathlib.Nat.{mod-eq_of_lt, mod-eq-sub-mod}
use opensrv.Wire.Frame.{split}
use opensrv.Writer.{chunks}

-- The empty frame that closes a payload of full frames.
abbrev pub closing : ℕ → Bytes → List Bytes
closing n payload = if length payload % n == 0 then [] ∷ [] else []

-- A chunk behind which nothing is left, and one behind which `drop n payload` is.
closing_small :
    (n : ℕ) (payload : Bytes) → 0 < length payload → length payload < n → closing n payload ≡ []
closing_small n payload h lt = rw (mod-eq_of_lt lt, ne→== (length payload) 0 (omega arith))

closing-drop :
    (n : ℕ) (payload : Bytes) → n ≤ length payload → closing n payload ≡ closing n (drop n payload)
closing-drop n payload h =
    ap (λ k. if k == 0 then [] ∷ [] else [])
      (mod-eq-sub-mod h ∙ ap (λ k. k % n) (sym (length-drop n payload)))

closing_nil : (n : ℕ) → 0 < n → closing n [] ≡ [] ∷ []
closing_nil n h = rw (mod-eq_of_lt h)

one_chunk : (fuel n : ℕ) (c : Bytes) → (c ∷ chunks fuel n []) ++ [] ≡ c ∷ []
unfolding chunks
one_chunk zero n c = refl
one_chunk (suc fuel) n c = refl

-- The chunks that are sent are the frames of the payload.
pub chunks-split :
    (n fuel : ℕ) (payload : Bytes)
    → 0 < n
    → length payload ≤ fuel
    → chunks fuel n payload ++ closing n payload
      ≡ (split n fuel payload).0 ++ ((split n fuel payload).1 ∷ [])
unfolding chunks split
chunks-split n zero [] pos h = closing_nil n pos
chunks-split n zero (x ∷ xs) pos h = absurd (omega arith)
chunks-split n (suc fuel) [] pos h = rw (lt→ltb 0 n pos) (closing_nil n pos)
chunks-split n (suc fuel) (x ∷ xs) pos h = elim (Bool-cases (ltb (length (x ∷ xs)) n)) [
  | inl e ↦
      let lt = ltb→lt (length (x ∷ xs)) n e in
      rw (e, closing_small n (x ∷ xs) (omega arith) lt)
        (rw (take_all n (x ∷ xs) (omega arith), drop_all n (x ∷ xs) (omega arith))
          (one_chunk fuel n (x ∷ xs)))
  | inr e ↦
      rw (e, closing-drop n (x ∷ xs) (ltb→le (length (x ∷ xs)) n e))
        (ap (λ cs. take n (x ∷ xs) ∷ cs)
          (chunks-split n fuel (drop n (x ∷ xs)) pos (omega (arith, length-drop n (x ∷ xs)))))
]
