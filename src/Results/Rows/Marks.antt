-- ===== src/Results/Rows/Marks.antt =====
-- mysql/src/resultset.rs: a value marks its own bit of the bitmap, if it is NULL.
use opensrv.Common.{
  ℕ, zero, suc, ◌+◌, ◌/◌, ◌%◌, ◌^◌, ◌≤◌, ◌<◌, ◌≡◌, ◌≢◌, refl, sym, ap, ◌∙◌, Bool, true, false, ◌&&◌,
  Option, none, some, List, [], ◌∷◌, ◌++◌, Bytes, length, length-append, replicate, get_elem?,
  is_nil, ◌==◌, if◌then◌else◌, Bool-cases, inl, inr, ==→eq, ==→ne, Result, ok, err, arith,
}
use opensrv.Wire.{IoError}
use opensrv.Deps.Writes.{Flags}
use opensrv.Io.{and_then}
use opensrv.Writer.{remaining_packet_capacity}
use opensrv.Writers.{Column, contains}
use opensrv.Results.Rows.{
  RowBufferWriter, Value, RowWriter, keep_or_truncate, encode_value, write_null, write_bin,
  write_value, write_column_of, write_col,
}
use opensrv.Results.Rows.Buffers.{
  Appends, length-or_at, length-replicate, appends, write_encoded-Appends, IsClean, Ready,
  too_small, in_row, at_start, write_header-Ready,
}
use opensrv.Results.Rows.NullBits.{
  null_bit, set_mark, null_bit-set_mark_self, null_bit-set_mark_ne, null_bit-append, null_bit-zeros,
  null_bit-clean,
}

-- A binary row between two values: its header stands once it has a value.
pub record IsRow (s : RowWriter) : Type 0 where
  pub binary : s.result.is_bin ≡ true
  pub bitmap_width : s.bitmap_len ≡ (length s.columns + 7 + 2) / 8
  pub header : s.col ≢ 0 → 1 + s.bitmap_len ≤ length s.row_data
  pub clean : IsClean s

-- A value is the next one of its row and its bit says whether it is NULL; the others are as before.
pub data Marked (s : RowWriter) (null : Bool) : Result IoError (Unit {0}) × RowWriter → Type 0 where
  marked :
      {t : RowWriter}
      → t.col ≡ suc s.col
      → t.columns ≡ s.columns
      → IsRow t
      → ((i : ℕ)
          → i < length s.columns
          → null_bit i t.row_data ≡ (if (i == s.col) && null then 1 else null_bit i s.row_data))
      → Marked s null (ok tt, t)
  unmarked : {e : IoError} {t : RowWriter} → Marked s null (err e, t)

-- The row with its header, behind which the value is written.
module _ (s : RowWriter) (row : Bytes) (p : IsRow s) (size : 1 + s.bitmap_len ≤ length row)
    (same : (i : ℕ) → i < length s.columns → null_bit i row ≡ null_bit i s.row_data)
    (inside : s.col < length s.columns) where
  next-IsRow :
      (after : Bytes)
      → 1 + s.bitmap_len ≤ length after
      → IsRow (record s { row_data = after; col = s.col + 1 })
  next-IsRow after long = record {
    binary = p.binary;
    bitmap_width = p.bitmap_width;
    header = λ _. long;
    clean = λ z. absurd (omega arith);
  }

  null-Marked : Marked s true (ok tt, record s { row_data = set_mark s.col row; col = s.col + 1 })
  null-Marked =
      marked (omega arith) refl
        (next-IsRow (set_mark s.col row)
          (rw (length-or_at (1 + (s.col + 2) / 8) (2 ^ ((s.col + 2) % 8)) row) size))
        λ i h. elim (Bool-cases (i == s.col)) [
          | inl here ↦ rw here (
              ap (λ k. null_bit k (set_mark s.col row)) (==→eq _ _ here)
              ∙ null_bit-set_mark_self s.col row (omega (arith, p.bitmap_width)))
          | inr there ↦ rw there (
              null_bit-set_mark_ne i s.col row (==→ne _ _ there) (omega (arith, p.bitmap_width))
              ∙ same i h)
        ]

  value-Marked :
      (more : Bytes) → Marked s false (ok tt, record s { row_data = row ++ more; col = s.col + 1 })
  value-Marked more =
      marked (omega arith) refl (next-IsRow (row ++ more) (omega (arith, length-append row more)))
        λ i h. elim (Bool-cases (i == s.col)) [
          | inl here ↦ rw here (
              null_bit-append i (length s.columns) row more h (omega (arith, p.bitmap_width))
              ∙ same i h)
          | inr there ↦ rw there (
              null_bit-append i (length s.columns) row more h (omega (arith, p.bitmap_width))
              ∙ same i h)
        ]

  kept-Marked :
      (checkpoint capacity : ℕ) (r : Result IoError (Unit {0})) {b : RowBufferWriter}
      → Appends (record { buffer = row; limit = capacity }) (r, b)
      → Marked s false (keep_or_truncate checkpoint r (record s { row_data = b.buffer }))
  unfolding keep_or_truncate
  kept-Marked checkpoint capacity (ok _) (appends more e le) = rw e (value-Marked more)
  kept-Marked checkpoint capacity (err x) (appends more e le) = unmarked

  encoded-Marked :
      (checkpoint capacity : ℕ) (v : List Bytes × Result IoError (Unit {0}))
      → length row ≤ capacity
      → Marked s false (encode_value checkpoint capacity v (record s { row_data = row }))
  unfolding encode_value
  encoded-Marked checkpoint capacity (pieces, end) fits =
      kept-Marked checkpoint capacity _
        (write_encoded-Appends pieces end (record { buffer = row; limit = capacity }) fits)

  write_bin-Marked :
      (flags : Flags) (checkpoint capacity : ℕ) (v : Value) (c : Column)
      → length row ≤ capacity
      → Marked s v.is_null (write_bin flags checkpoint capacity v c (record s { row_data = row }))
  unfolding write_bin write_null keep_or_truncate
  write_bin-Marked flags checkpoint capacity v c fits = elim (Bool-cases v.is_null) [
    | inl null ↦ rw null (elim (Bool-cases (contains c.colflags flags.not_null_flag)) [
      | inl never ↦ rw never unmarked
      | inr may ↦ rw may null-Marked
    ])
    | inr value ↦ rw value (encoded-Marked checkpoint capacity (v.to_mysql_bin c) fits)
  ]

if_Marked :
    {s : RowWriter} {null : Bool} (b : Bool) (r r' : Result IoError (Unit {0}) × RowWriter)
    → b ≡ true
    → Marked s null r
    → Marked s null (if b then r else r')
if_Marked true r r' e h = h
if_Marked false r r' e h = cc

get_elem?-lt : (cs : List Column) (i : ℕ) (c : Column) → get_elem? cs i ≡ some c → i < length cs
get_elem?-lt [] i c h = cc
get_elem?-lt (x ∷ cs) zero c h = omega arith
get_elem?-lt (x ∷ cs) (suc i) c h = omega (arith, get_elem?-lt cs i c h)

module _ (flags : Flags) where
  after_header-Marked :
      (capacity : ℕ) (v : Value) (c : Column) (s : RowWriter)
      (r : Result IoError (Unit {0}) × RowWriter)
      → IsRow s
      → length s.row_data ≤ capacity
      → s.col < length s.columns
      → Ready capacity s r
      → Marked s v.is_null (and_then r (λ _. write_bin flags (length s.row_data) capacity v c))
  after_header-Marked capacity v c s _ p fits inside too_small = unmarked
  after_header-Marked capacity v c s _ p fits inside (in_row begun) =
      write_bin-Marked s s.row_data p (p.header begun) (λ i h. refl) inside flags
        (length s.row_data) capacity v c fits
  after_header-Marked capacity v c s _ p fits inside (at_start start room) =
      let size = length-replicate (1 + s.bitmap_len) 0 in
      write_bin-Marked s (replicate (1 + s.bitmap_len) 0) p (rw size (omega arith))
        (λ i h.
          null_bit-zeros i (1 + s.bitmap_len)
          ∙ sym (null_bit-clean i (1 + s.bitmap_len) s.row_data (p.clean start)))
        inside flags (length s.row_data) capacity v c (rw size room)

  write_value-Marked :
      (v : Value) (c : Column) (s : RowWriter)
      → IsRow s
      → length s.row_data ≤ remaining_packet_capacity s.result.writer
      → s.col < length s.columns
      → Marked s v.is_null (write_value flags v c s)
  unfolding write_value
  write_value-Marked v c s p fits inside =
      let capacity = remaining_packet_capacity s.result.writer in
      if_Marked s.result.is_bin _ _ p.binary
        (after_header-Marked capacity v c s _ p fits inside (write_header-Ready capacity s p.clean))

  write_column_of-Marked :
      (v : Value) (o : Option Column) (s : RowWriter)
      → IsRow s
      → length s.row_data ≤ remaining_packet_capacity s.result.writer
      → ((c : Column) → o ≡ some c → s.col < length s.columns)
      → Marked s v.is_null (write_column_of flags v o s)
  unfolding write_column_of
  write_column_of-Marked v none s p fits inside = unmarked
  write_column_of-Marked v (some c) s p fits inside =
      write_value-Marked v c s p fits (inside c refl)

  pub write_col-Marked :
      (v : Value) (s : RowWriter)
      → is_nil s.columns ≡ false
      → IsRow s
      → length s.row_data ≤ remaining_packet_capacity s.result.writer
      → Marked s v.is_null (write_col flags v s)
  unfolding write_col
  write_col-Marked v s columns p fits = rw columns (
      write_column_of-Marked v (get_elem? s.columns s.col) s p fits
        (λ c e. get_elem?-lt s.columns s.col c e))
