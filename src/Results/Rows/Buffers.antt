-- ===== src/Results/Rows/Buffers.antt =====
-- mysql/src/resultset.rs: what a value or the header does to the buffer of a row.
use opensrv.Common.{
  ℕ, zero, suc, ◌+◌, ◌-◌, ◌≤◌, ◌≡◌, ◌≢◌, refl, sym, ◌∙◌, ◌⊎◌, inl, inr, Bool, true, false, ◌||◌,
  Bool-cases, List, [], ◌∷◌, ◌++◌, Option, some, flatten, append-nil, append_assoc, Bytes, length,
  length-append, replicate, take, length-take, take_all, take-append_le, ltb, ltb→le, leb, ◌==◌,
  ==→eq, ==→ne, if◌then◌else◌, Result, ok, err, arith,
}
use opensrv.Wire.{IoError, usize_mod}
use mathlib.Core.Path.{subst}
use opensrv.Writers.{Column, contains}
use opensrv.Results.Rows.{
  Value, RowBufferWriter, write, write_encoded, RowWriter, or_at, resize, keep_or_truncate,
  encode_value, write_header,
}

pub length-replicate : (n : ℕ) (b : ℕ) → length (replicate n b) ≡ n
length-replicate zero b = refl
length-replicate (suc n) b = omega (arith, length-replicate n b)

pub length-or_at : (i bits : ℕ) (bs : Bytes) → length (or_at i bits bs) ≡ length bs
unfolding or_at
length-or_at i bits [] = refl
length-or_at zero bits (b ∷ bs) = refl
length-or_at (suc i) bits (b ∷ bs) = omega (arith, length-or_at i bits bs)

-- What the buffer of a row holds after some writes.
pub data Appends (b : RowBufferWriter) : Result IoError (Unit {0}) × RowBufferWriter → Type 0 where
  appends :
      {r : Result IoError (Unit {0})} {b' : RowBufferWriter} (more : Bytes)
      → b'.buffer ≡ b.buffer ++ more
      → length b'.buffer ≤ b.limit
      → Appends b (r, b')

not_above : (over : Bool) (limit n : ℕ) → (over || ltb limit n) ≡ false → n ≤ limit
not_above true limit n e = absurd (grind arith)
not_above false limit n e = ltb→le limit n e

pub write_encoded-Appends :
    (ps : List Bytes) (end : Result IoError (Unit {0})) (b : RowBufferWriter)
    → length b.buffer ≤ b.limit
    → Appends b (write_encoded ps end b)
unfolding write_encoded write
write_encoded-Appends [] end b h = appends [] (sym (append-nil b.buffer)) h
write_encoded-Appends (p ∷ ps) end b h =
    elim (Bool-cases
      (leb usize_mod (length b.buffer + length p) || ltb b.limit (length b.buffer + length p))) [
        | inl e ↦ rw e (appends [] (sym (append-nil b.buffer)) h)
        | inr e ↦ rw e (
            after_piece (
              write_encoded-Appends ps end (record b { buffer = b.buffer ++ p })
                (rw (length-append b.buffer p) (not_above _ _ _ e))))
      ]
  where
    after_piece :
        {r : Result IoError (Unit {0}) × RowBufferWriter}
        → Appends (record b { buffer = b.buffer ++ p }) r
        → Appends b r
    after_piece (appends more e le) = appends (p ++ more) (e ∙ append_assoc b.buffer p more) le

-- Writes that succeed have all been taken.
write_encoded_whole :
    (ps : List Bytes) (end : Result IoError (Unit {0})) (b : RowBufferWriter)
    → (write_encoded ps end b).0 ≡ ok tt
    → ((write_encoded ps end b).1.buffer ≡ b.buffer ++ flatten ps) × (end ≡ ok tt)
unfolding write_encoded write
write_encoded_whole [] end b = λ h. (sym (append-nil b.buffer), h)
write_encoded_whole (p ∷ ps) end b =
    elim (Bool-cases
      (leb usize_mod (length b.buffer + length p) || ltb b.limit (length b.buffer + length p))) [
        | inl e ↦ rw e (λ h. absurd (grind arith))
        | inr e ↦ rw e (λ h.
            let (same, ended) =
              write_encoded_whole ps end (record b { buffer = b.buffer ++ p }) h in
            (same ∙ append_assoc b.buffer p (flatten ps), ended))
      ]

-- Before the first value of a row, the buffer is empty or holds the header of a binary row.
abbrev pub IsClean : RowWriter → Type 0
IsClean s = s.col ≡ 0 → (s.row_data ≡ []) ⊎ (s.row_data ≡ replicate (1 + s.bitmap_len) 0)

-- What a value does to a row: it is the next one, with the bytes that `holds` says, or the row is as it
-- was, and within the capacity.
pub data Wrote (capacity : ℕ) (s : RowWriter) (holds : Bytes → Type 0)
    : Result IoError (Unit {0}) × RowWriter → Type 0 where
  wrote :
      {t : RowWriter}
      → t.col ≡ s.col + 1
      → t.result ≡ s.result
      → length t.row_data ≤ capacity
      → holds t.row_data
      → Wrote capacity s holds (ok tt, t)
  restored :
      {e : IoError} {t : RowWriter}
      → t.col ≡ s.col
      → t.result ≡ s.result
      → IsClean t
      → (s.col ≢ 0 → t.row_data ≡ s.row_data)
      → length t.row_data ≤ capacity
      → Wrote capacity s holds (err e, t)

-- The bytes in front of a value of a binary row: a header of zeros, or the values before it.
pub data Front (s : RowWriter) : Bytes → Type 0 where
  of_header : s.col ≡ 0 → Front s (replicate (1 + s.bitmap_len) 0)
  so_far : s.col ≢ 0 → Front s s.row_data

-- A row with its next value: in text, the value's text behind the row; in binary, its binary form behind
-- what is in front, or as many bytes as there for a NULL, which the column allows.
pub data Holds (not_null_flag : ℕ) (v : Value) (c : Column) (s : RowWriter) (row : Bytes)
    : Type 0 where
  as_text :
      s.result.is_bin ≡ false
      → (v.to_mysql_text c).1 ≡ ok tt
      → row ≡ s.row_data ++ flatten (v.to_mysql_text c).0
      → Holds not_null_flag v c s row
  as_binary :
      {front : Bytes}
      → Front s front
      → s.result.is_bin ≡ true
      → v.is_null ≡ false
      → (v.to_mysql_bin c).1 ≡ ok tt
      → row ≡ front ++ flatten (v.to_mysql_bin c).0
      → Holds not_null_flag v c s row
  as_null :
      {front : Bytes}
      → Front s front
      → s.result.is_bin ≡ true
      → v.is_null ≡ true
      → contains c.colflags not_null_flag ≡ false
      → length row ≡ length front
      → Holds not_null_flag v c s row

-- The same of the column at the place of the value, which is one that there is.
pub record IsNext (not_null_flag : ℕ) (v : Value) (o : Option Column) (s : RowWriter) (row : Bytes)
    : Type 0 where
  pub at_column : Column
  pub is_column : o ≡ some at_column
  pub holds : Holds not_null_flag v at_column s row

pub if_Wrote :
    {capacity : ℕ} {s : RowWriter} {P : Bytes → Type 0}
    {r r' : Result IoError (Unit {0}) × RowWriter} (b : Bool)
    → (b ≡ true → Wrote capacity s P r)
    → (b ≡ false → Wrote capacity s P r')
    → Wrote capacity s P (if b then r else r')
if_Wrote true h h' = h refl
if_Wrote false h h' = h' refl

pub Wrote-map :
    {capacity : ℕ} {s : RowWriter} {P Q : Bytes → Type 0}
    {r : Result IoError (Unit {0}) × RowWriter}
    → ((row : Bytes) → P row → Q row)
    → Wrote capacity s P r
    → Wrote capacity s Q r
Wrote-map f (wrote col same fits row) = wrote col same fits (f _ row)
Wrote-map f (restored col same clean row fits) = restored col same clean row fits

kept-Wrote :
    (capacity checkpoint : ℕ) (s t : RowWriter) (r : Result IoError (Unit {0})) {P : Bytes → Type 0}
    → t.col ≡ s.col
    → t.result ≡ s.result
    → length t.row_data ≤ capacity
    → IsClean (record t { row_data = take checkpoint t.row_data })
    → (s.col ≢ 0 → take checkpoint t.row_data ≡ s.row_data)
    → (r ≡ ok tt → P t.row_data)
    → Wrote capacity s P (keep_or_truncate checkpoint r t)
unfolding keep_or_truncate
kept-Wrote capacity checkpoint s t (ok tt) col same fits clean row whole =
    wrote (omega arith) same fits (whole refl)
kept-Wrote capacity checkpoint s t (err e) col same fits clean row whole =
    restored col same clean row (rw (length-take checkpoint t.row_data) (omega arith))

-- A value behind bytes that are no shorter than the checkpoint.
pub encode_value-Wrote :
    (capacity checkpoint : ℕ) (s t : RowWriter) (v : List Bytes × Result IoError (Unit {0}))
    {P : Bytes → Type 0}
    → t.col ≡ s.col
    → t.result ≡ s.result
    → length t.row_data ≤ capacity
    → checkpoint ≤ length t.row_data
    → IsClean (record t { row_data = take checkpoint t.row_data })
    → (s.col ≢ 0 → take checkpoint t.row_data ≡ s.row_data)
    → (v.1 ≡ ok tt → P (t.row_data ++ flatten v.0))
    → Wrote capacity s P (encode_value checkpoint capacity v t)
unfolding encode_value
encode_value-Wrote capacity checkpoint s t (pieces, end) {P} col same fits behind clean row holds =
    after (write_encoded-Appends pieces end (record { buffer = t.row_data; limit = capacity }) fits)
      (write_encoded_whole pieces end (record { buffer = t.row_data; limit = capacity }))
  where
    after :
        {r : Result IoError (Unit {0})} {b : RowBufferWriter}
        → Appends (record { buffer = t.row_data; limit = capacity }) (r, b)
        → (r ≡ ok tt → (b.buffer ≡ t.row_data ++ flatten pieces) × (end ≡ ok tt))
        → Wrote capacity s P (keep_or_truncate checkpoint r (record t { row_data = b.buffer }))
    after {r} {b} (appends more e le) whole =
        let cut : take checkpoint b.buffer ≡ take checkpoint t.row_data =
          rw e (take-append_le checkpoint t.row_data more behind) in
        kept-Wrote capacity checkpoint s (record t { row_data = b.buffer }) r col same le
          (rw cut clean) (rw cut row)
          (λ ok_end. subst P (sym (whole ok_end).0) (holds (whole ok_end).1))

-- The row when its next value begins.
pub data Ready (capacity : ℕ) (s : RowWriter) : Result IoError (Unit {0}) × RowWriter → Type 0 where
  too_small : {e : IoError} → Ready capacity s (err e, s)
  in_row : s.col ≢ 0 → Ready capacity s (ok tt, s)
  at_start :
      s.col ≡ 0
      → 1 + s.bitmap_len ≤ capacity
      → Ready capacity s (ok tt, record s { row_data = replicate (1 + s.bitmap_len) 0 })

resize_empty : (n : ℕ) (row : Bytes) → row ≡ [] → resize n row ≡ replicate n 0
unfolding resize
resize_empty zero row e = rw e
resize_empty (suc n) row e = let whole : suc n - 0 ≡ suc n = omega arith in rw (e, whole)

resize_header : (n : ℕ) (row : Bytes) → row ≡ replicate n 0 → resize n row ≡ replicate n 0
unfolding resize
resize_header n row e =
    let size : length row ≡ n = rw e (length-replicate n 0) in
    let rest : n - length row ≡ 0 = omega arith in
    rw (take_all n row (omega arith), rest) (append-nil row ∙ e)

resize_clean :
    (s : RowWriter)
    → IsClean s
    → s.col ≡ 0
    → resize (1 + s.bitmap_len) s.row_data ≡ replicate (1 + s.bitmap_len) 0
resize_clean s clean e = elim (clean e) [
  | inl empty ↦ resize_empty (1 + s.bitmap_len) s.row_data empty
  | inr header ↦ resize_header (1 + s.bitmap_len) s.row_data header
]

pub write_header-Ready :
    (capacity : ℕ) (s : RowWriter) → IsClean s → Ready capacity s (write_header capacity s)
unfolding write_header
write_header-Ready capacity s clean = elim (Bool-cases (s.col == 0)) [
  | inl e ↦ elim (Bool-cases (ltb capacity (1 + s.bitmap_len))) [
    | inl over ↦ rw (e, over) too_small
    | inr fits ↦
        rw (e, fits, resize_clean s clean (==→eq _ _ e)) (at_start (==→eq _ _ e) (ltb→le _ _ fits))
  ]
  | inr e ↦ rw e (in_row (==→ne _ _ e))
]

-- What stood in the buffer before the header is a prefix of it, and none or all of it.
pub header_prefix :
    (n : ℕ) (row : Bytes)
    → (row ≡ []) ⊎ (row ≡ replicate {A = ℕ} n 0)
    → (length row ≤ length (replicate {A = ℕ} n 0))
      × ((take (length row) (replicate {A = ℕ} n 0) ≡ [])
          ⊎ (take (length row) (replicate {A = ℕ} n 0) ≡ replicate {A = ℕ} n 0))
header_prefix n row (inl e) = rw e (omega arith, inl refl)
header_prefix n row (inr e) =
    rw e (omega arith, inr (take_all _ (replicate {A = ℕ} n 0) (omega arith)))
