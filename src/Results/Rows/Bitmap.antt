-- ===== src/Results/Rows/Bitmap.antt =====
-- mysql/src/resultset.rs: the bitmap of a binary row against the values of the row.
use opensrv.Common.{
  Bytes, ℕ, zero, suc, ◌-◌, ◌≤◌, ◌<◌, ◌≡◌, refl, sym, ap, ◌∙◌, Bool, true, false, ◌&&◌, ◌||◌, List,
  [], ◌∷◌, length, is_nil, ltb, leb, ◌==◌, if◌then◌else◌, Bool-cases, inl, inr, ==→eq, ==→ne,
  ltb→le, le→leb, Result, ok, err, arith,
}
use opensrv.Wire.{IoError}
use opensrv.Deps.ByteOrder.{ByteOrder}
use opensrv.Deps.Writes.{Writes, Flags}
use opensrv.Io.{and_then}
use opensrv.Writer.{Peer, remaining_packet_capacity}
use opensrv.Writers.{Column}
use opensrv.Results.{QueryResultWriter}
use opensrv.Results.Rows.{row_writer, Value, RowWriter, write_col, write_cols}
use opensrv.Results.Rows.Buffers.{Wrote, wrote}
use opensrv.Results.Rows.Restores.{write_col-Wrote}
use opensrv.Results.Rows.NullBits.{null_bit, null_bit-clean}
use opensrv.Results.Rows.Marks.{IsRow, Marked, marked, write_col-Marked}

-- Whether the value at a place is NULL.
pub nulls : List Value → ℕ → Bool
nulls [] i = false
nulls (v ∷ vs) zero = v.is_null
nulls (v ∷ vs) (suc i) = nulls vs i

nulls-behind :
    (v : Value) (vs : List Value) (k i : ℕ)
    → (leb k i && nulls (v ∷ vs) (i - k))
      ≡ (((i == k) && v.is_null) || (leb (suc k) i && nulls vs (i - suc k)))
unfolding nulls
nulls-behind v vs k i = elim (Bool-cases (ltb i k)) [
  | inl below ↦ ground arith
  | inr above ↦ elim (Bool-cases (i == k)) [
    | inl here ↦
        let none_left : i - k ≡ 0 = omega (arith, ==→eq i k here) in rw none_left (ground arith)
    | inr behind ↦
        let more : i - k ≡ suc (i - suc k) = omega (arith, ==→ne i k behind, ltb→le i k above) in
        rw more (ground arith)
  ]
]

-- The values are the next ones of their row, and the bits of all of them say which are NULL.
data RowMarked (s : RowWriter) (vs : List Value)
    : Result IoError (Unit {0}) × RowWriter → Type 0 where
  row_marked :
      {t : RowWriter}
      → ((i : ℕ)
          → i < length s.columns
          → null_bit i t.row_data
            ≡ (if leb s.col i && nulls vs (i - s.col) then 1 else null_bit i s.row_data))
      → RowMarked s vs (ok tt, t)
  row_unmarked : {e : IoError} {t : RowWriter} → RowMarked s vs (err e, t)

if-or :
    {A : Type 0} (a b : Bool) (x y : A)
    → (if b then x else if a then x else y) ≡ (if a || b then x else y)
if-or true true x y = refl
if-or true false x y = refl
if-or false true x y = refl
if-or false false x y = refl

next-RowMarked :
    (s t : RowWriter) (v : Value) (vs : List Value) (r : Result IoError (Unit {0}) × RowWriter)
    → t.col ≡ suc s.col
    → t.columns ≡ s.columns
    → ((i : ℕ)
        → i < length s.columns
        → null_bit i t.row_data ≡ (if (i == s.col) && v.is_null then 1 else null_bit i s.row_data))
    → RowMarked t vs r
    → RowMarked s (v ∷ vs) r
next-RowMarked s t v vs _ col columns bits (row_marked later) = row_marked λ i h.
    let here = (i == s.col) && v.is_null in
    later i (omega (arith, ap length columns))
    ∙ ap (λ k. if leb k i && nulls vs (i - k) then 1 else null_bit i t.row_data) col
    ∙ ap (λ n. if leb (suc s.col) i && nulls vs (i - suc s.col) then 1 else n) (bits i h)
    ∙ if-or here (leb (suc s.col) i && nulls vs (i - suc s.col)) 1 (null_bit i s.row_data)
    ∙ ap (λ (b : Bool). if b then 1 else null_bit i s.row_data) (sym (nulls-behind v vs s.col i))
next-RowMarked s t v vs _ col columns bits row_unmarked = row_unmarked

-- A row of which all values are written, read by its bitmap.
pub data Nulled (columns : List Column) (vs : List Value)
    : Result IoError (Unit {0}) × RowWriter → Type 0 where
  nulled :
      {t : RowWriter}
      → ((i : ℕ) → i < length columns → null_bit i t.row_data ≡ (if nulls vs i then 1 else 0))
      → Nulled columns vs (ok tt, t)
  not_written : {e : IoError} {t : RowWriter} → Nulled columns vs (err e, t)

from_zero :
    (vs : List Value) (i : ℕ)
    → ◌≡◌ {A = ℕ} (if leb 0 i && nulls vs (i - 0) then 1 else 0) (if nulls vs i then 1 else 0)
from_zero vs i = let whole : i - 0 ≡ i = omega arith in rw (whole, le→leb 0 i (omega arith))

from_start :
    (columns : List Column) (vs : List Value) (s : RowWriter)
    (r : Result IoError (Unit {0}) × RowWriter)
    → s.columns ≡ columns
    → s.col ≡ 0
    → s.row_data ≡ []
    → RowMarked s vs r
    → Nulled columns vs r
from_start columns vs s _ same start empty (row_marked bits) = nulled λ i h.
    bits i (omega (arith, ap length same))
    ∙ ap (λ k. if leb k i && nulls vs (i - k) then 1 else null_bit i s.row_data) start
    ∙ ap (λ n. if leb 0 i && nulls vs (i - 0) then 1 else n)
        (null_bit-clean i 0 s.row_data (inl empty))
    ∙ from_zero vs i
from_start columns vs s _ same start empty row_unmarked = not_written

module _ (flags : Flags) (peer : Peer) (byteorder : ByteOrder) (writes : Writes) where
  then-RowMarked :
      (s : RowWriter) (v : Value) (vs : List Value) (r : Result IoError (Unit {0}) × RowWriter)
      {P : Bytes → Type 0}
      → is_nil s.columns ≡ false
      → Marked s v.is_null r
      → Wrote (remaining_packet_capacity s.result.writer) s P r
      → ((t : RowWriter)
          → is_nil t.columns ≡ false
          → IsRow t
          → length t.row_data ≤ remaining_packet_capacity t.result.writer
          → RowMarked t vs (write_cols flags peer byteorder writes vs t))
      → RowMarked s (v ∷ vs) (and_then r (λ _. write_cols flags peer byteorder writes vs))
  then-RowMarked s v vs (ok _, t) some_column (marked col columns p bits) (wrote col' result fits h)
        ih =
      next-RowMarked s t v vs _ col columns bits (
        ih t (ap is_nil columns ∙ some_column) p
          (omega (arith, ap (λ q. remaining_packet_capacity q.writer) result)))
  then-RowMarked s v vs (err e, t) some_column m w ih = row_unmarked

  write_cols-RowMarked :
      (vs : List Value) (s : RowWriter)
      → is_nil s.columns ≡ false
      → IsRow s
      → length s.row_data ≤ remaining_packet_capacity s.result.writer
      → RowMarked s vs (write_cols flags peer byteorder writes vs s)
  unfolding write_cols nulls
  write_cols-RowMarked [] s columns p fits = row_marked (λ i h. ground arith)
  write_cols-RowMarked (v ∷ vs) s columns p fits =
      then-RowMarked s v vs (write_col flags v s) columns
        (write_col-Marked flags v s columns p fits) (write_col-Wrote flags v s columns p.clean fits)
        (write_cols-RowMarked vs)

  -- A binary row from its start to its last value: if all its values are written, the bit of each
  -- column says whether the value for it is NULL, also where values are missing, whose bits are zero.
  pub write_cols-Nulled :
      (q : QueryResultWriter) (columns : List Column) (vs : List Value)
      → q.is_bin ≡ true
      → is_nil columns ≡ false
      → Nulled columns vs (write_cols flags peer byteorder writes vs (row_writer q columns))
  unfolding row_writer
  write_cols-Nulled q columns vs binary some_column =
      from_start columns vs (row_writer q columns) _ refl refl refl (
        write_cols-RowMarked vs (row_writer q columns) some_column
          (record {
            binary = binary;
            bitmap_width = refl;
            header = λ ne. absurd (ne refl);
            clean = λ _. inl refl;
          })
          (omega arith))
