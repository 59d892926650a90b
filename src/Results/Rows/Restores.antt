-- ===== src/Results/Rows/Restores.antt =====
-- mysql/src/resultset.rs: a value is written whole, or the row is as it was.
use opensrv.Common.{
  ℕ, ◌+◌, ◌/◌, ◌%◌, ◌^◌, ◌≤◌, ◌≡◌, ◌≢◌, refl, inl, inr, true, false, Bytes, get_elem?, Bool-cases,
  Option, none, some, length, replicate, take, take_all, is_nil, Result, arith,
}
use opensrv.Deps.Writes.{Flags}
use opensrv.Wire.{IoError}
use opensrv.Io.{and_then}
use opensrv.Writer.{remaining_packet_capacity}
use opensrv.Writers.{Column, contains}
use opensrv.Results.Rows.{
  Value, RowWriter, keep_or_truncate, write_null, write_bin, write_value, write_column_of,
  write_col,
}
use opensrv.Results.Rows.Buffers.{
  length-replicate, length-or_at, IsClean, Wrote, wrote, restored, if_Wrote, Wrote-map, Front,
  of_header, so_far, Holds, as_text, as_binary, as_null, IsNext, encode_value-Wrote, Ready,
  too_small, in_row, at_start, write_header-Ready, header_prefix,
}

module _ (flags : Flags) where
  write_null-Wrote :
      (capacity checkpoint : ℕ) (c : Column) (s t : RowWriter) {P : Bytes → Type 0}
      → t.col ≡ s.col
      → t.result ≡ s.result
      → length t.row_data ≤ capacity
      → IsClean t
      → (s.col ≢ 0 → t.row_data ≡ s.row_data)
      → (contains c.colflags flags.not_null_flag ≡ false
          → (row : Bytes) → length row ≡ length t.row_data
          → P row)
      → Wrote capacity s P (write_null flags checkpoint c t)
  unfolding write_null keep_or_truncate
  write_null-Wrote capacity checkpoint c s t col same fits clean row holds =
      let size = length-or_at (1 + (t.col + 2) / 8) (2 ^ ((t.col + 2) % 8)) t.row_data in
      elim (Bool-cases (contains c.colflags flags.not_null_flag)) [
        | inl e ↦ rw e (restored col same clean row fits)
        | inr e ↦ rw e (wrote (omega arith) same (rw size fits) (holds e _ size))
      ]

  -- A value behind what is in front of it.
  write_bin-Front :
      (capacity checkpoint : ℕ) (v : Value) (c : Column) (s : RowWriter) (front : Bytes)
      → Front s front
      → s.result.is_bin ≡ true
      → length front ≤ capacity
      → checkpoint ≤ length front
      → IsClean (record s { row_data = front })
      → IsClean (record s { row_data = take checkpoint front })
      → (s.col ≢ 0 → front ≡ s.row_data)
      → (s.col ≢ 0 → take checkpoint front ≡ s.row_data)
      → Wrote capacity s
          (Holds flags.not_null_flag v c s)
          (write_bin flags checkpoint capacity v c (record s { row_data = front }))
  unfolding write_bin
  write_bin-Front capacity checkpoint v c s front f bin fits behind clean cut_clean row cut =
      if_Wrote v.is_null
        (λ null.
          write_null-Wrote capacity checkpoint c s (record s { row_data = front }) refl refl fits
            clean row (λ nullable _ size. as_null f bin null nullable size))
        (λ value.
          encode_value-Wrote capacity checkpoint s (record s { row_data = front })
            (v.to_mysql_bin c) refl refl fits behind cut_clean cut
            (λ end. as_binary f bin value end refl))

  write_bin-Ready :
      (capacity : ℕ) (v : Value) (c : Column) (s : RowWriter)
      (r : Result IoError (Unit {0}) × RowWriter)
      → s.result.is_bin ≡ true
      → IsClean s
      → length s.row_data ≤ capacity
      → Ready capacity s r
      → Wrote capacity s
          (Holds flags.not_null_flag v c s)
          (and_then r (λ _. write_bin flags (length s.row_data) capacity v c))
  write_bin-Ready capacity v c s _ bin clean fits too_small =
      restored refl refl clean (λ _. refl) fits
  write_bin-Ready capacity v c s _ bin clean fits (in_row inside) =
      write_bin-Front capacity (length s.row_data) v c s s.row_data (so_far inside) bin fits
        (omega arith) (λ z. absurd (inside z)) (λ z. absurd (inside z)) (λ _. refl)
        (λ _. take_all _ s.row_data (omega arith))
  write_bin-Ready capacity v c s _ bin clean fits (at_start start room) =
      let size = length-replicate (1 + s.bitmap_len) 0 in
      let prefix = header_prefix (1 + s.bitmap_len) s.row_data (clean start) in
      write_bin-Front capacity (length s.row_data) v c s (replicate (1 + s.bitmap_len) 0)
        (of_header start) bin (rw size room) prefix.0 (λ _. inr refl) (λ _. prefix.1)
        (λ ne. absurd (ne start)) (λ ne. absurd (ne start))

  write_value-Wrote :
      (v : Value) (c : Column) (s : RowWriter)
      → IsClean s
      → length s.row_data ≤ remaining_packet_capacity s.result.writer
      → Wrote
          (remaining_packet_capacity s.result.writer)
          s
          (Holds flags.not_null_flag v c s)
          (write_value flags v c s)
  unfolding write_value
  write_value-Wrote v c s clean fits =
      let capacity = remaining_packet_capacity s.result.writer in
      let whole : take (length s.row_data) s.row_data ≡ s.row_data =
        take_all _ s.row_data (omega arith) in
      if_Wrote s.result.is_bin
        (λ bin.
          write_bin-Ready capacity v c s _ bin clean fits (write_header-Ready capacity s clean))
        (λ text.
          encode_value-Wrote capacity (length s.row_data) s s (v.to_mysql_text c) refl refl fits
            (omega arith) (rw whole clean) (λ _. whole) (λ end. as_text text end refl))

  write_column_of-Wrote :
      (v : Value) (o : Option Column) (s : RowWriter)
      → IsClean s
      → length s.row_data ≤ remaining_packet_capacity s.result.writer
      → Wrote
          (remaining_packet_capacity s.result.writer)
          s
          (IsNext flags.not_null_flag v o s)
          (write_column_of flags v o s)
  unfolding write_column_of
  write_column_of-Wrote v none s clean fits = restored refl refl clean (λ _. refl) fits
  write_column_of-Wrote v (some c) s clean fits =
      Wrote-map (λ row h. record { at_column = c; is_column = refl; holds = h })
        (write_value-Wrote v c s clean fits)

  -- A value for a result that has columns, of which the row so far is within what a packet can take and
  -- clean if it has no value yet, is the next of its row: all its bytes, as text or in binary form, stand
  -- behind the row, the first value of a binary row behind the header, and a NULL, where the column
  -- allows one, adds none. Or, on any error, the row is as it was but for the header of a row without a
  -- value. The row never exceeds what a packet can take.
  pub write_col-Wrote :
      (v : Value) (s : RowWriter)
      → is_nil s.columns ≡ false
      → IsClean s
      → length s.row_data ≤ remaining_packet_capacity s.result.writer
      → Wrote
          (remaining_packet_capacity s.result.writer)
          s
          (IsNext flags.not_null_flag v (get_elem? s.columns s.col) s)
          (write_col flags v s)
  unfolding write_col
  write_col-Wrote v s columns clean fits = rw columns (write_column_of-Wrote v _ s clean fits)
