-- ===== src/Session/Run/Handlers.antt =====
-- mysql/src/lib.rs: what the handlers of the commands keep of the statements.
use opensrv.Common.{
  ℕ, ◌^◌, ◌<◌, ◌||◌, none, Bytes, length, leb, if◌then◌else◌, Result, ok, err, arith, Bool-cases,
  Option-cases, inl, inr,
}
use opensrv.Deps.ByteOrder.{ByteOrder}
use opensrv.Deps.MysqlCommon.{Reads}
use opensrv.Deps.Writes.{Writes, Flags}
use opensrv.Wire.{IoError, usize_mod}
use opensrv.Io.{and_then, pure}
use opensrv.Writer.{Peer, PacketWriter}
use opensrv.Writers.{write_eof_packet}
use opensrv.Session.Table.{find, insert}
use opensrv.Session.Table.Served.{
  IsServed, set_cursor-IsServed, reset-IsServed, close-IsServed, insert-IsServed,
  send_long_data-IsServed, empty-IsServed,
}
use opensrv.Session.Backend.{
  PrepareAnswer, prepared, declined, abandoned, Shim, Text, Settings, Session,
}
use opensrv.Session.Run.{
  on_writer, on_backend, on_table, send_ok, ask, ensure_response_completed, handle_query,
  reply_inner, answer_prepare, settle_prepare, ask_prepare, handle_prepare, fetch_rows,
  handle_fetch, handle_reset, handle_long_data, handle_close, handle_list_fields, handle_init,
  clear_session, ask_reset, handle_reset_connection,
}
use opensrv.Session.Run.Steps.{
  Kept, goes_on, stops, kept, kept-bind, flush_kept, err_kept, reject_kept, ok_kept, ask_kept,
  completed_kept, asked_kept, asked_init_kept, if_kept,
}

module _ {B : Type 0} (peer : Peer) (byteorder : ByteOrder) (reads : Reads) (writes : Writes)
    (flags : Flags) (text : Text) (settings : Settings) (backend : Shim B)
    (bounded : settings.limits.max_connection_long_data_size < usize_mod) where
  abbrev V : Session B → Type 0
  V s = IsServed settings.limits s.table

  abbrev K : {A : Type 0} → Result IoError A × Session B → Type 0
  K r = Kept settings.limits r

  pub query_kept :
      (q : Bytes) (s : Session B)
      → V s
      → K (handle_query peer byteorder reads writes flags text settings backend q s)
  unfolding handle_query
  query_kept q s v =
      if_kept _ _ _ ((reject_kept peer byteorder reads writes flags text settings backend) _ _)
        (if_kept _ _ _ ((asked_kept peer byteorder reads writes flags text settings backend) _) (
          if_kept _ _ _
            ((asked_init_kept peer byteorder reads writes flags text settings backend) _)
            ((asked_kept peer byteorder reads writes flags text settings backend) _)))
        s v

  pub init_db_kept :
      (q : Bytes) (s : Session B)
      → V s
      → K (handle_init peer byteorder reads writes flags text settings backend q s)
  unfolding handle_init
  init_db_kept q s v =
      if_kept _ _ _ ((reject_kept peer byteorder reads writes flags text settings backend) _ _)
        ((asked_init_kept peer byteorder reads writes flags text settings backend) _) s v

  pub list_fields_kept :
      (s : Session B)
      → V s
      → K (handle_list_fields peer byteorder reads writes flags text settings backend s)
  unfolding handle_list_fields on_writer
  list_fields_kept s v =
      kept-bind
        (on_writer peer byteorder reads writes flags text settings backend
          (write_eof_packet peer byteorder writes flags s.status_flags) s)
        _ (kept _ _ v) (λ _. (flush_kept peer byteorder reads writes flags text settings backend))

  pub fetch_kept :
      (stmt rows : ℕ) (s : Session B)
      → V s
      → K (handle_fetch peer byteorder reads writes flags text settings backend stmt rows s)
  unfolding handle_fetch fetch_rows on_table on_backend
  fetch_kept stmt rows s v = elim (Option-cases (find stmt s.table.stmts)) [
    | inl e ↦
        rw (e, handle_fetch)
          ((reject_kept peer byteorder reads writes flags text settings backend) _ _ s v)
    | inr (state, e) ↦ elim (Option-cases state.cursor_columns) [
      | inl f ↦
          rw (e, f, handle_fetch)
            ((reject_kept peer byteorder reads writes flags text settings backend) _ _ s v)
      | inr (columns, f) ↦
          rw (e, f, handle_fetch)
            (kept-bind (ask peer byteorder reads writes flags text settings backend _ s) _
              ((ask_kept peer byteorder reads writes flags text settings backend) _ s v)
              (λ p s1 v1.
                kept-bind
                  (ensure_response_completed peer byteorder reads writes flags text settings backend
                    p.0 s1)
                  _
                  ((completed_kept peer byteorder reads writes flags text settings backend) p.0 s1
                    v1)
                  (λ _ s2 v2.
                    kept-bind ((if p.1 then _ else pure tt) s2) _
                      (if_kept p.1 _ _
                        (λ s3 v3.
                          goes_on tt _
                            (set_cursor-IsServed settings.limits bounded stmt none s3.table v3))
                        (λ s3 v3. goes_on tt s3 v3) s2 v2)
                      (λ _. (flush_kept peer byteorder reads writes flags text settings backend)))))
    ]
  ]

  pub reset_kept :
      (stmt : ℕ) (s : Session B)
      → V s
      → K (handle_reset peer byteorder reads writes flags text settings backend stmt s)
  unfolding handle_reset on_backend on_table
  reset_kept stmt s v = elim (Option-cases (find stmt s.table.stmts)) [
    | inl e ↦
        rw (e, handle_reset)
          ((reject_kept peer byteorder reads writes flags text settings backend) _ _ s v)
    | inr (state, e) ↦
        rw (e, handle_reset)
          (kept-bind (send_ok peer byteorder reads writes flags text settings backend _) _
            ((ok_kept peer byteorder reads writes flags text settings backend) _
              (reset-IsServed settings.limits bounded stmt state s.table e v))
            (λ _. (flush_kept peer byteorder reads writes flags text settings backend)))
  ]

  pub long_data_kept :
      (stmt param : ℕ) (d : Bytes) (s : Session B)
      → V s
      → K (handle_long_data peer byteorder reads writes flags text settings backend stmt param d s)
  unfolding handle_long_data on_table
  long_data_kept stmt param d s v =
      (flush_kept peer byteorder reads writes flags text settings backend) _
        (send_long_data-IsServed settings.limits bounded stmt param d s.table v)

  pub close_kept :
      (stmt : ℕ) (s : Session B)
      → V s
      → K (handle_close peer byteorder reads writes flags text settings backend stmt s)
  unfolding handle_close on_table on_backend
  close_kept stmt s v =
      (flush_kept peer byteorder reads writes flags text settings backend) _
        (close-IsServed settings.limits bounded stmt s.table v)

  pub reset_connection_kept :
      (s : Session B)
      → V s
      → K (handle_reset_connection peer byteorder reads writes flags text settings backend s)
  unfolding handle_reset_connection ask_reset clear_session
  reset_connection_kept s v =
      kept-bind (ask_reset peer byteorder reads writes flags text settings backend s) _ (kept _ _ v)
        (λ accepted s1 v1.
          kept-bind _ _
            (if_kept accepted _ _
              (λ s2 v2.
                (ok_kept peer byteorder reads writes flags text settings backend) _
                  (empty-IsServed settings.limits))
              ((err_kept peer byteorder reads writes flags text settings backend) _ _) s1 v1)
            (λ _. (flush_kept peer byteorder reads writes flags text settings backend)))

  answer_prepare_kept :
      (answer : PrepareAnswer) (s : Session B)
      → length s.table.stmts < settings.limits.max_prepared_statements
      → V s
      → K (answer_prepare peer byteorder reads writes flags text settings backend answer s)
  unfolding answer_prepare reply_inner on_writer on_table
  answer_prepare_kept (prepared id params columns) s h v =
      elim (Bool-cases (leb (2 ^ 16) (length params) || leb (2 ^ 16) (length columns))) [
        | inl e ↦ rw (e, reply_inner) (stops _ s)
        | inr e ↦ elim (Option-cases (find id s.table.stmts)) [
          | inr (_, f) ↦ rw (e, f, reply_inner) (stops _ s)
          | inl f ↦ rw (e, f, reply_inner) (inserted _ _)
        ]
      ]
    where
      inserted :
          (r : Result IoError (Unit {0})) (w : PacketWriter)
          → K (
              and_then
                (r, record s { writer = w })
                (λ _.
                  on_table peer byteorder reads writes flags text settings backend
                    (insert id (length params))))
      inserted (ok _) w =
          goes_on tt _ (insert-IsServed settings.limits bounded id (length params) s.table h v)
      inserted (err e) w = stops e _
  answer_prepare_kept (declined kind msg) s h v = kept _ _ v
  answer_prepare_kept abandoned s h v = stops _ s

  settled :
      (r' r : Result IoError (Unit {0})) (b : B) (s : Session B)
      → K (r, s)
      → K (settle_prepare peer byteorder reads writes flags text settings backend r' r b s)
  unfolding settle_prepare
  settled (err e) r b s k = stops e _
  settled (ok _) (ok _) b _ (goes_on a s h) = goes_on tt _ h
  settled (ok _) (err e) b s k = stops _ _

  ask_prepare_kept :
      (q : Bytes) (s : Session B)
      → length s.table.stmts < settings.limits.max_prepared_statements
      → V s
      → K (ask_prepare peer byteorder reads writes flags text settings backend q s)
  unfolding ask_prepare
  ask_prepare_kept q s h v =
      settled
        (back (answer_prepare peer byteorder reads writes flags text settings backend answer s).0).0
        (answer_prepare peer byteorder reads writes flags text settings backend answer s).0
        (back (answer_prepare peer byteorder reads writes flags text settings backend answer s).0).1
        (answer_prepare peer byteorder reads writes flags text settings backend answer s).1
        (answer_prepare_kept answer s h v)
    where
      answer : PrepareAnswer
      answer = (backend.on_prepare q s.shim).0

      back : Result IoError (Unit {0}) → Result IoError (Unit {0}) × B
      back = (backend.on_prepare q s.shim).1

  pub prepare_kept :
      (q : Bytes) (s : Session B)
      → V s
      → K (handle_prepare peer byteorder reads writes flags text settings backend q s)
  unfolding handle_prepare
  prepare_kept q s v =
      elim (Bool-cases (leb settings.limits.max_prepared_statements (length s.table.stmts))) [
        | inl e ↦
            rw (e, handle_prepare)
              ((reject_kept peer byteorder reads writes flags text settings backend) _ _ s v)
        | inr e ↦
            let h : length s.table.stmts < settings.limits.max_prepared_statements = ground arith in
            elim (Bool-cases (text.is_utf8 q)) [
              | inr f ↦
                  rw (e, f, handle_prepare)
                    ((reject_kept peer byteorder reads writes flags text settings backend) _ _ s v)
              | inl f ↦
                  rw (e, f, handle_prepare)
                    (kept-bind
                      (ask_prepare peer byteorder reads writes flags text settings backend q s) _
                      (ask_prepare_kept q s h v)
                      (λ _. (flush_kept peer byteorder reads writes flags text settings backend)))
            ]
      ]
