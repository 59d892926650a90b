-- ===== src/Session/Table/Stream.antt =====
-- lib.rs: the data streamed to the parameters of a statement, put together in the order of its coming.
use opensrv.Common.{
  ℕ, ◌+◌, ◌≡◌, refl, sym, ap, ◌∙◌, ◌&&◌, none, some, List, [], ◌∷◌, ◌++◌, Bytes, length, leb,
  leb→le, Bool-cases, Option-cases, inl, inr, append-nil, arith,
}
use opensrv.ErrorCodes.{ErrorKind}
use opensrv.Params.{get_long_data}
use opensrv.Session.Table.{
  Message, StatementData, find, checked_size, extend_entry, Table, Limits, new_sizes,
  append_long_data, send_long_data,
}
use opensrv.Session.Table.Sizes.{some_sizes, data_size, data_size-extend_entry}
use opensrv.Session.Table.Chunks.{
  held, send_all, sent_to, Fits, held-extend_entry, find-put, checked_add-some, checked_size-some,
}

-- What one packet does: its data is at the end of its parameter's, or the statement has an error.
data Received (limits : Limits) (stmt param : ℕ) (d : Bytes) (s : StatementData) (t : Table)
    : Table → Type 0 where
  taken :
      {t' : Table}
      → s.pending_error ≡ none
      → find stmt t'.stmts ≡ some (record s { long_data = extend_entry param d s.long_data })
      → (Fits limits ((param, d) ∷ []) s t
          → t'.total_long_data_size ≡ t.total_long_data_size + length d)
      → Received limits stmt param d s t t'
  refused :
      {t' : Table} (s' : StatementData) (e : ErrorKind × Message)
      → find stmt t'.stmts ≡ some s'
      → s'.pending_error ≡ some e
      → (Fits limits ((param, d) ∷ []) s t → ⊥)
      → Received limits stmt param d s t t'

module _ (limits : Limits) (stmt param : ℕ) (d : Bytes) (s : StatementData) (t : Table)
    (found : find stmt t.stmts ≡ some s) where
  new_sizes-Fits :
      Fits limits ((param, d) ∷ []) s t
      → new_sizes t s d ≡ some (data_size s.long_data + length d, t.total_long_data_size + length d)
  unfolding new_sizes
  new_sizes-Fits f =
      let l = f.in_statement in
      let c = f.in_connection in
      let u = f.is_usize in
      let v = f.is_usize_too in
      let size : checked_size 0 s.long_data ≡ some (data_size s.long_data) =
        checked_size-some 0 s.long_data (omega arith) ∙ ap some (omega arith) in
      rw (
        size,
        checked_add-some (data_size s.long_data) (length d) (omega arith),
        checked_add-some t.total_long_data_size (length d) (omega arith),
        new_sizes,
      )

  append-Received :
      s.pending_error ≡ none
      → Received limits stmt param d s t (append_long_data limits stmt param d s t)
  unfolding append_long_data
  append-Received no_error = elim (Option-cases (new_sizes t s d)) [
    | inl e ↦
        simp (e, append_long_data)
          (refused _ _ (find-put stmt s _ t.stmts found) refl (λ f. cc (new_sizes-Fits f)))
    | inr ((n, m), e) ↦
        elim (Bool-cases
          (leb n limits.max_long_data_size && leb m limits.max_connection_long_data_size)) [
            | inl within ↦
                simp (e, within, append_long_data)
                  (taken no_error (find-put stmt s _ t.stmts found)
                    (λ f. (some_sizes (sym (new_sizes-Fits f) ∙ e)).1))
            | inr beyond ↦
                simp (e, beyond, append_long_data)
                  (refused _ _ (find-put stmt s _ t.stmts found) refl (λ f.
                    let (same_n, same_m) = some_sizes (sym (new_sizes-Fits f) ∙ e) in
                    let l = f.in_statement in let c = f.in_connection in absurd (ground arith)))
          ]
  ]

  send_long_data-Received : Received limits stmt param d s t (send_long_data limits stmt param d t)
  unfolding send_long_data
  send_long_data-Received = elim (Option-cases s.pending_error) [
    | inr (e, pending) ↦
        simp (found, pending, send_long_data) (refused s e found pending (λ f. cc f.in_order))
    | inl no_error ↦ elim (Bool-cases (leb s.params param)) [
      | inl over ↦
          simp (found, no_error, over, send_long_data)
            (refused _ _ (find-put stmt s _ t.stmts found) refl (λ f.
              let p = f.has_params in absurd (omega (arith, leb→le s.params param over, p.0))))
      | inr enough ↦ simp (found, no_error, enough, send_long_data) (append-Received no_error)
    ]
  ]

send_long_data-pending :
    (limits : Limits) (stmt param : ℕ) (d : Bytes) (s : StatementData) (e : ErrorKind × Message)
    (t : Table)
    → find stmt t.stmts ≡ some s
    → s.pending_error ≡ some e
    → send_long_data limits stmt param d t ≡ t
unfolding send_long_data
send_long_data-pending limits stmt param d s e t found pending =
    simp (found, pending, send_long_data) refl

-- Once a statement has an error, streamed data changes nothing.
send_all-pending :
    (limits : Limits) (stmt : ℕ) (cs : List (ℕ × Bytes)) (s : StatementData)
    (e : ErrorKind × Message) (t : Table)
    → find stmt t.stmts ≡ some s
    → s.pending_error ≡ some e
    → send_all limits stmt cs t ≡ t
unfolding send_all
send_all-pending limits stmt [] s e t found pending = refl
send_all-pending limits stmt ((param, d) ∷ cs) s e t found pending =
    ap (send_all limits stmt cs) (send_long_data-pending limits stmt param d s e t found pending)
    ∙ send_all-pending limits stmt cs s e t found pending

-- The statement after the packets: if it has no error, each parameter holds what it held and all that
-- was sent to it, in order; and it has no error if the packets fit.
pub record Streamed (limits : Limits) (stmt : ℕ) (cs : List (ℕ × Bytes)) (s : StatementData)
    (t t' : Table) : Type 0 where
  pub now : StatementData
  pub is_found : find stmt t'.stmts ≡ some now
  pub gathered :
      now.pending_error ≡ none
      → (param : ℕ)
      → held (get_long_data param now.long_data)
        ≡ held (get_long_data param s.long_data) ++ sent_to param cs
  pub accepted : Fits limits cs s t → now.pending_error ≡ none

first_Fits :
    {limits : Limits} {param : ℕ} {d : Bytes} {cs : List (ℕ × Bytes)} {s : StatementData}
    {t : Table}
    → Fits limits ((param, d) ∷ cs) s t
    → Fits limits ((param, d) ∷ []) s t
first_Fits f =
    let l = f.in_statement in
    let c = f.in_connection in
    record {
      in_order = f.in_order;
      has_params = (f.has_params.0, tt);
      in_statement = omega arith;
      in_connection = omega arith;
      is_usize = f.is_usize;
      is_usize_too = f.is_usize_too;
    }

next_Fits :
    {limits : Limits} {param : ℕ} {d : Bytes} {cs : List (ℕ × Bytes)} {s : StatementData}
    {t t' : Table}
    → t'.total_long_data_size ≡ t.total_long_data_size + length d
    → Fits limits ((param, d) ∷ cs) s t
    → Fits limits cs (record s { long_data = extend_entry param d s.long_data }) t'
next_Fits {param} {d} {s} total f =
    let l = f.in_statement in
    let c = f.in_connection in
    record {
      in_order = f.in_order;
      has_params = f.has_params.1;
      in_statement = omega (arith, data_size-extend_entry param d s.long_data);
      in_connection = omega (arith, total);
      is_usize = f.is_usize;
      is_usize_too = f.is_usize_too;
    }

-- Any packets of COM_STMT_SEND_LONG_DATA for a statement, to its parameters in any order: if the
-- statement has no error behind them, each parameter holds what it held and the data of all packets that
-- named it, in order; and it has no error if it had none before, has the parameters and the data is
-- within the limits, which are machine words.
pub send_all-Streamed :
    (limits : Limits) (stmt : ℕ) (cs : List (ℕ × Bytes)) (s : StatementData) (t : Table)
    → find stmt t.stmts ≡ some s
    → Streamed limits stmt cs s t (send_all limits stmt cs t)
unfolding send_all sent_to
send_all-Streamed limits stmt [] s t found = record {
  now = s;
  is_found = found;
  gathered = λ _ param. sym (append-nil _);
  accepted = λ f. f.in_order;
}
send_all-Streamed limits stmt ((k, d) ∷ cs) s t found =
    step (send_all-Streamed limits stmt cs) (send_long_data-Received limits stmt k d s t found)
  where
    step :
        {t1 : Table}
        → ((s : StatementData) (t : Table)
            → find stmt t.stmts ≡ some s
            → Streamed limits stmt cs s t (send_all limits stmt cs t))
        → Received limits stmt k d s t t1
        → Streamed limits stmt ((k, d) ∷ cs) s t (send_all limits stmt cs t1)
    step {t1} others (taken no_error found' total) =
        let rest = others _ t1 found' in
        record {
          now = rest.now;
          is_found = rest.is_found;
          gathered = λ h param.
              rest.gathered h param ∙ held-extend_entry k param d (sent_to param cs) s.long_data;
          accepted = λ f. rest.accepted (next_Fits (total (first_Fits f)) f);
        }
    step {t1} others (refused s' e found' pending unfit) = record {
      now = s';
      is_found = rw (send_all-pending limits stmt cs s' e t1 found' pending) found';
      gathered = λ h param. cc;
      accepted = λ f. absurd (unfit (first_Fits f));
    }
