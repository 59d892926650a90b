-- ===== src/Wire/Frame.antt =====
-- Frames: three bytes of length, one of sequence, the payload. A logical packet is any number of
-- full frames and then one that is not full, with consecutive sequence numbers modulo 256.
use opensrv.Common.{
  ℕ, zero, suc, ◌+◌, ◌/◌, ◌%◌, ◌^◌, ◌<◌, ◌≡◌, List, [], ◌∷◌, ◌++◌, Bytes, length, All, take, drop,
  ltb, if◌then◌else◌,
}

abbrev pub u24_bytes : ℕ → Bytes
u24_bytes n = n % 2 ^ 8 ∷ n / 2 ^ 8 % 2 ^ 8 ∷ n / 2 ^ 16 % 2 ^ 8 ∷ []

abbrev pub frame : ℕ → Bytes → Bytes
frame seq payload = u24_bytes (length payload) ++ (seq ∷ payload)

abbrev pub next_seq : ℕ → ℕ
next_seq seq = (seq + 1) % 2 ^ 8

-- `full` frames and the last one.
abbrev pub encode : ℕ → List Bytes → Bytes → Bytes
encode seq [] last = frame seq last
encode seq (f ∷ full) last = frame seq f ++ encode (next_seq seq) full last

abbrev pub last_seq : ℕ → List Bytes → ℕ
last_seq seq [] = seq
last_seq seq (f ∷ full) = last_seq (next_seq seq) full

abbrev pub IsFull : Bytes → Type 0
IsFull f = length f ≡ 16_777_215

-- The frames of a logical packet: full ones, then one that is not.
pub record IsPacket (full : List Bytes) (last : Bytes) : Type 0 where
  pub full_frames : All IsFull full
  pub short_last : length last < 16_777_215

-- Frames with consecutive sequence numbers, and the number that comes after them.
abbrev pub frames : ℕ → List Bytes → Bytes
frames seq [] = []
frames seq (c ∷ cs) = frame seq c ++ frames (next_seq seq) cs

abbrev pub seq_after : ℕ → List Bytes → ℕ
seq_after seq [] = seq
seq_after seq (c ∷ cs) = seq_after (next_seq seq) cs

-- A payload in pieces of `n` bytes while it lasts, on fuel, and what is left.
unfoldable pub split : ℕ → ℕ → Bytes → List Bytes × Bytes
split n zero payload = ([], payload)
split n (suc fuel) payload =
    let (full, last) = split n fuel (drop n payload) in
    if ltb (length payload) n then ([], payload) else (take n payload ∷ full, last)

-- The frames of a payload.
abbrev pub frames_of : Bytes → List Bytes × Bytes
frames_of payload = split 16_777_215 (length payload) payload
