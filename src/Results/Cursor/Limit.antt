-- ===== src/Results/Cursor/Limit.antt =====
-- mysql/src/resultset.rs: the rows that a FETCH sends, against the rows that the client asked for.
use opensrv.Common.{
  ℕ, zero, suc, ◌-◌, ◌≡◌, refl, false, List, [], ◌∷◌, take, ◌==◌, ne→==, Result, ok, err, arith,
}
use opensrv.Deps.ByteOrder.{ByteOrder}
use opensrv.Deps.Writes.{Writes, Flags}
use opensrv.Wire.{IoError, invalid_input}
use opensrv.Io.{Io, and_then, ◌>>◌, pure, modify}
use opensrv.Writer.{Peer}
use opensrv.Results.Rows.{RowWriter, end_row}
use opensrv.Results.Cursor.{CursorFetchWriter, on_rows, write_row_with}

-- The same result, and the same rows sent.
abbrev pub Sends :
    Result IoError (Unit {0}) × CursorFetchWriter → Result IoError (Unit {0}) × RowWriter → Type 0
Sends a b = (a.0 ≡ b.0) × (a.1.rows ≡ b.1)

module _ (flags : Flags) (peer : Peer) (byteorder : ByteOrder) (writes : Writes) where
  -- The rows of a batch, each encoded by the backend, up to the first error.
  pub write_batch : List (Io RowWriter (Unit {0})) → Io CursorFetchWriter (Unit {0})
  write_batch [] = pure tt
  write_batch (row ∷ rows) = do write_row_with flags peer byteorder writes row; write_batch rows

  -- Rows without a limit, and the verdict that ends them if all are sent.
  pub send_rows :
      List (Io RowWriter (Unit {0})) → Result IoError (Unit {0}) → Io RowWriter (Unit {0})
  send_rows [] verdict s = (verdict, s)
  send_rows (row ∷ rows) verdict s =
      (do row; end_row flags peer byteorder writes; send_rows rows verdict) s

  -- Whether there are more rows than the client asked for.
  pub asked_for : ℕ → List (Io RowWriter (Unit {0})) → Result IoError (Unit {0})
  asked_for limit [] = ok tt
  asked_for zero (row ∷ rows) = err invalid_input
  asked_for (suc limit) (row ∷ rows) = asked_for limit rows

  -- As many rows as the client asked for, and a refusal of the next.
  pub send_batch : ℕ → List (Io RowWriter (Unit {0})) → Io RowWriter (Unit {0})
  send_batch limit rows = send_rows (take limit rows) (asked_for limit rows)

  -- A row within the limit, and what comes behind it.
  row-Sends :
      (row : Io RowWriter (Unit {0})) (s : CursorFetchWriter) (k : Io CursorFetchWriter (Unit {0}))
      (l : Io RowWriter (Unit {0}))
      → (s.remaining == 0) ≡ false
      → ((w : RowWriter) → Sends (k (record s { rows = w; remaining = s.remaining - 1 })) (l w))
      → Sends
          (and_then (write_row_with flags peer byteorder writes row s) (λ _. k))
          (and_then (row s.rows) (λ _. end_row flags peer byteorder writes >> l))
  unfolding write_row_with on_rows
  row-Sends row s k l some_left h = rw some_left (after_row (row s.rows))
    where
      count : Io CursorFetchWriter (Unit {0})
      count = modify (λ s. record s { remaining = s.remaining - 1 })

      after_end :
          (r : Result IoError (Unit {0}) × RowWriter)
          → Sends
              (and_then (and_then (r.0, record s { rows = r.1 }) (λ _. count)) (λ _. k))
              (and_then r (λ _. l))
      after_end (ok a, w) = h w
      after_end (err e, w) = (refl, refl)

      after_row :
          (r : Result IoError (Unit {0}) × RowWriter)
          → Sends
              (and_then
                (and_then
                  (r.0, record s { rows = r.1 })
                  (λ _.
                    on_rows flags peer byteorder writes (end_row flags peer byteorder writes)
                    >> count))
                (λ _. k))
              (and_then r (λ _. end_row flags peer byteorder writes >> l))
      after_row (ok a, w) = after_end (end_row flags peer byteorder writes w)
      after_row (err e, w) = (refl, refl)

  batch-Sends :
      (rows : List (Io RowWriter (Unit {0}))) (n : ℕ) (s : CursorFetchWriter)
      → s.remaining ≡ n
      → Sends (write_batch rows s) (send_batch n rows s.rows)
  unfolding write_batch send_batch send_rows asked_for write_row_with
  batch-Sends [] zero s h = (refl, refl)
  batch-Sends [] (suc n) s h = (refl, refl)
  batch-Sends (row ∷ rows) zero s h = rw h (refl, refl)
  batch-Sends (row ∷ rows) (suc n) s h =
      row-Sends row s (write_batch rows) (send_batch n rows)
        (rw h (ne→== (suc n) 0 (λ same. absurd (omega arith))))
        (λ w. batch-Sends rows n (record s { rows = w; remaining = s.remaining - 1 }) (omega arith))

  -- A batch of rows leaves exactly what sending as many of them as the client asked for leaves, with the
  -- same result, and a row over the limit is refused with nothing of it encoded; the first row that fails
  -- ends the batch with its error.
  pub write_batch-Sends :
      (rows : List (Io RowWriter (Unit {0}))) (s : CursorFetchWriter)
      → Sends (write_batch rows s) (send_batch s.remaining rows s.rows)
  write_batch-Sends rows s = batch-Sends rows s.remaining s refl
