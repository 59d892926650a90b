-- ===== src/Session/Run/Keeps.antt =====
-- mysql/src/lib.rs: each packet that is served, and a whole session, keep the invariant of its statements.
use opensrv.Common.{
  ℕ, ◌<◌, ◌≡◌, refl, sym, ◌∙◌, not, ◌||◌, Option, none, some, List, [], ◌∷◌, Bytes, ltb, ◌==◌,
  Result, ok, err, Bool-cases, Option-cases, inl, inr, Result-cases,
}
use opensrv.ErrorCodes.{ErrorKind}
use mathlib.Core.Path.{subst}
use opensrv.Deps.ByteOrder.{ByteOrder}
use opensrv.Deps.MysqlCommon.{Reads}
use opensrv.Deps.Writes.{Writes, Flags}
use opensrv.Wire.{IoError, usize_mod}
use opensrv.Io.{Io, and_then}
use opensrv.Writer.{Peer}
use opensrv.Writers.{Column}
use opensrv.Params.{Params, validate}
use opensrv.Session.Table.{StatementData, find, Table, Message, uncount}
use opensrv.Session.Table.Served.{
  IsServed, set_cursor-IsServed, set_types-IsServed, clear_long_data-IsServed, uncount-IsServed,
  find-set_cursor, find-set_types,
}
use opensrv.Commands.{
  Command, query, list_fields, prepare, init, close_stmt, reset_stmt, fetch, execute, long_data,
  ping, reset_connection, quit,
}
use opensrv.Session.Backend.{Shim, Text, Settings, Session, is_quit}
use opensrv.Session.Run.{
  on_writer, on_backend, on_table, send_err, flush, reject, send_ok, ask, ensure_response_completed,
  keep_cursor, run_statement, execute_statement, handle_execute, handle, dispatch, serve, run,
}
use opensrv.Session.Run.Steps.{
  Kept, goes_on, stops, kept-bind, flush_kept, reject_kept, ok_kept, ask_kept, completed_kept,
  if_kept,
}
use opensrv.Session.Run.Handlers.{
  query_kept, init_db_kept, list_fields_kept, fetch_kept, reset_kept, long_data_kept, close_kept,
  reset_connection_kept, prepare_kept,
}

module _ {B : Type 0} (peer : Peer) (byteorder : ByteOrder) (reads : Reads) (writes : Writes)
    (flags : Flags) (text : Text) (settings : Settings) (backend : Shim B)
    (bounded : settings.limits.max_connection_long_data_size < usize_mod) where
  abbrev V : Session B → Type 0
  V s = IsServed settings.limits s.table

  abbrev K : {A : Type 0} → Result IoError A × Session B → Type 0
  K r = Kept settings.limits r

  -- What is written changes no statement.
  err_table :
      (kind : ErrorKind) (msg : Message) (s : Session B)
      → (send_err peer byteorder reads writes flags text settings backend kind msg s).1.table
        ≡ s.table
  unfolding send_err on_writer
  err_table kind msg s = refl

  flush_table :
      (s : Session B)
      → (flush peer byteorder reads writes flags text settings backend s).1.table ≡ s.table
  unfolding flush on_writer
  flush_table s = refl

  through :
      {A C : Type 0} (r : Result IoError A × Session B) (k : A → Io (Session B) C) (t : Table)
      → r.1.table ≡ t
      → ((a : A) (s : Session B) → s.table ≡ t → K (k a s))
      → K (and_then r k)
  through (ok a, s) k t e h = h a s e
  through (err x, s) k t e h = stops x s

  rejected_kept :
      (kind : ErrorKind) (msg : Message) (f : Table → Table) (s : Session B)
      → IsServed settings.limits (f s.table)
      → K (
          and_then
            (send_err peer byteorder reads writes flags text settings backend kind msg s)
            (λ _ s'.
              and_then
                (flush peer byteorder reads writes flags text settings backend s')
                (λ _. on_table peer byteorder reads writes flags text settings backend f)))
  unfolding on_table
  rejected_kept kind msg f s v =
      through (send_err peer byteorder reads writes flags text settings backend kind msg s) _
        s.table (err_table kind msg s)
        (λ _ s1 e1.
          through (flush peer byteorder reads writes flags text settings backend s1) _ s.table
            (flush_table s1 ∙ e1)
            (λ _ s2 e2. goes_on tt _ (subst (λ t. IsServed settings.limits (f t)) (sym e2) v)))

  cursor_kept :
      (stmt : ℕ) (columns : Option (List Column)) (s : Session B)
      → V s
      → K (keep_cursor peer byteorder reads writes flags text settings backend stmt columns s)
  unfolding keep_cursor on_backend
  cursor_kept stmt none s v = goes_on tt _ v
  cursor_kept stmt (some columns) s v = goes_on tt s v

  run_statement_kept :
      (stmt flag : ℕ) (params : Params) (s : Session B)
      → V s
      → K (run_statement peer byteorder reads writes flags text settings backend stmt flag params s)
  unfolding run_statement on_table
  run_statement_kept stmt flag params s v =
      if_kept (flag == 1) _ _
        (λ s0 v0.
          kept-bind (ask peer byteorder reads writes flags text settings backend _ s0) _
            ((ask_kept peer byteorder reads writes flags text settings backend) _ s0 v0)
            (λ p s1 v1.
              kept-bind
                (ensure_response_completed peer byteorder reads writes flags text settings backend
                  p.0 s1)
                _
                ((completed_kept peer byteorder reads writes flags text settings backend) p.0 s1 v1)
                (λ _ s2 v2.
                  kept-bind
                    (keep_cursor peer byteorder reads writes flags text settings backend stmt p.1 _)
                    _
                    (cursor_kept stmt p.1 _
                      (set_cursor-IsServed settings.limits bounded stmt p.1 s2.table v2))
                    (λ _ s3 v3.
                      goes_on tt _
                        (clear_long_data-IsServed settings.limits bounded stmt s3.table v3)))))
        (λ s0 v0.
          kept-bind (ask peer byteorder reads writes flags text settings backend _ s0) _
            ((ask_kept peer byteorder reads writes flags text settings backend) _ s0 v0)
            (λ c s1 v1.
              kept-bind
                (ensure_response_completed peer byteorder reads writes flags text settings backend c
                  s1)
                _ ((completed_kept peer byteorder reads writes flags text settings backend) c s1 v1)
                (λ _ s2 v2. goes_on tt _ (
                  clear_long_data-IsServed settings.limits bounded stmt _
                    (set_cursor-IsServed settings.limits bounded stmt none s2.table v2)))))
        s v

  -- The statement is found before its cursor is closed.
  execute_statement_kept :
      (stmt flag : ℕ) (params : Bytes) (state : StatementData) (s : Session B)
      → find stmt s.table.stmts ≡ some (record state { cursor_columns = none })
      → V s
      → K (
          execute_statement peer byteorder reads writes flags text settings backend stmt flag params
            state s)
  unfolding execute_statement on_table reject
  execute_statement_kept stmt flag params state s h v = elim (Option-cases state.pending_error) [
    | inr ((kind, message), e) ↦
        rw (e, execute_statement)
          ((reject_kept peer byteorder reads writes flags text settings backend) kind message s v)
    | inl e ↦
        let bound = (validate reads state.params params state.long_data state.bound_types).1 in
        let t = set_types-IsServed settings.limits bounded stmt bound s.table v in
        elim (Result-cases
          (validate reads state.params params state.long_data state.bound_types).0) [
            | inl (_, f) ↦
                rw (e, f, execute_statement)
                  (kept-bind
                    (run_statement peer byteorder reads writes flags text settings backend stmt flag
                      _ _)
                    _ (run_statement_kept stmt flag _ _ t)
                    (λ _. (flush_kept peer byteorder reads writes flags text settings backend)))
            | inr (x, f) ↦
                rw (e, f, execute_statement)
                  (rejected_kept _ _ (uncount _) _ (
                    uncount-IsServed settings.limits bounded stmt _ _
                      (find-set_types stmt bound _ s.table h) t))
          ]
  ]

  execute_kept :
      (stmt flag iteration_count : ℕ) (params : Bytes) (s : Session B)
      → V s
      → K (
          handle_execute peer byteorder reads writes flags text settings backend stmt flag
            iteration_count params s)
  unfolding handle_execute on_table on_backend
  execute_kept stmt flag iteration_count params s v =
      elim (Bool-cases (ltb 1 flag || not (iteration_count == 1))) [
        | inl e ↦
            rw (e, handle_execute)
              ((reject_kept peer byteorder reads writes flags text settings backend) _ _ s v)
        | inr e ↦ elim (Option-cases (find stmt s.table.stmts)) [
          | inl f ↦
              rw (e, f, handle_execute)
                ((reject_kept peer byteorder reads writes flags text settings backend) _ _ s v)
          | inr (state, f) ↦
              rw (e, f, handle_execute)
                (execute_statement_kept stmt flag params state _
                  (find-set_cursor stmt none state s.table f)
                  (set_cursor-IsServed settings.limits bounded stmt none s.table v))
        ]
      ]

  handle_kept :
      (c : Command) (s : Session B)
      → V s
      → K (handle peer byteorder reads writes flags text settings backend c s)
  unfolding handle
  handle_kept (query q) s v =
      (query_kept peer byteorder reads writes flags text settings backend bounded) q s v
  handle_kept (list_fields args) s v =
      (list_fields_kept peer byteorder reads writes flags text settings backend bounded) s v
  handle_kept (prepare q) s v =
      (prepare_kept peer byteorder reads writes flags text settings backend bounded) q s v
  handle_kept (init schema) s v =
      (init_db_kept peer byteorder reads writes flags text settings backend bounded) schema s v
  handle_kept (close_stmt stmt) s v =
      (close_kept peer byteorder reads writes flags text settings backend bounded) stmt s v
  handle_kept (reset_stmt stmt) s v =
      (reset_kept peer byteorder reads writes flags text settings backend bounded) stmt s v
  handle_kept (fetch stmt rows) s v =
      (fetch_kept peer byteorder reads writes flags text settings backend bounded) stmt rows s v
  handle_kept (execute stmt flag iteration_count params) s v =
      execute_kept stmt flag iteration_count params s v
  handle_kept (long_data stmt param data_) s v =
      (long_data_kept peer byteorder reads writes flags text settings backend bounded) stmt param
        data_ s v
  handle_kept ping s v =
      kept-bind (send_ok peer byteorder reads writes flags text settings backend s) _
        ((ok_kept peer byteorder reads writes flags text settings backend) s v)
        (λ _. (flush_kept peer byteorder reads writes flags text settings backend))
  handle_kept reset_connection s v =
      (reset_connection_kept peer byteorder reads writes flags text settings backend bounded) s v
  handle_kept quit s v = goes_on tt s v

  dispatch_kept :
      (command : Result (ErrorKind × Message) Command) (s : Session B)
      → V s
      → K (dispatch peer byteorder reads writes flags text settings backend command s)
  unfolding dispatch
  dispatch_kept (ok c) s v = handle_kept c s v
  dispatch_kept (err (kind, message)) s v =
      (reject_kept peer byteorder reads writes flags text settings backend) kind message s v

  -- Whatever a client sends and the backend answers, each packet that is served without an error leaves
  -- the count of streamed data exact, that count and the data of each statement within their limits, and
  -- no more statements than are allowed.
  pub serve-Kept :
      (seq first_seq : ℕ) (command : Result (ErrorKind × Message) Command) (s : Session B)
      → IsServed settings.limits s.table
      → Kept settings.limits
          (serve peer byteorder reads writes flags text settings backend seq first_seq command s)
  unfolding serve
  serve-Kept seq first_seq command s v =
      if_kept (not (first_seq == 0)) _ _
        (λ s' v'.
          kept-bind (reject peer byteorder reads writes flags text settings backend _ _ s') _
            ((reject_kept peer byteorder reads writes flags text settings backend) _ _ s' v')
            (λ _ s'' v''. stops _ s''))
        (λ s' v'. dispatch_kept command s' v') _ v

  -- A whole session that ends without an error has kept, from a start where they held, the exact count
  -- and the limits on streamed data and on statements.
  pub run-Kept :
      (packets : List (ℕ × ℕ × Result (ErrorKind × Message) Command)) (s : Session B)
      → IsServed settings.limits s.table
      → Kept settings.limits (run peer byteorder reads writes flags text settings backend packets s)
  unfolding run
  run-Kept [] s v = goes_on tt s v
  run-Kept ((seq, first_seq, command) ∷ packets) s v =
      kept-bind
        (serve peer byteorder reads writes flags text settings backend seq first_seq command s) _
        (serve-Kept seq first_seq command s v)
        (λ _. if_kept (is_quit command) _ _ (λ s' v'. goes_on tt s' v') (run-Kept packets))
