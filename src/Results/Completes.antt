-- ===== src/Results/Completes.antt =====
-- mysql/src/resultset.rs: a response is complete exactly when the call that ends it succeeds.
use opensrv.Common.{
  ◌≡◌, refl, sym, ◌∙◌, List, if◌then◌else◌, inl, inr, Bool, true, false, not, ◌&&◌, Bool-cases,
  Option, none, some, Bytes, Result, ok, err,
}
use opensrv.ErrorCodes.{ErrorKind}
use opensrv.Deps.ByteOrder.{ByteOrder}
use opensrv.Deps.Writes.{Writes, Flags}
use opensrv.Wire.{IoError, invalid_input}
use opensrv.Io.{Io, and_then, ◌>>=◌}
use opensrv.Writer.{Peer, PacketWriter}
use opensrv.Results.Rows.{row_writer, start_result}
use opensrv.Writers.{
  Column, ColumnMetadata, OkResponse, contains, write_err, write_ok_packet, write_eof_packet,
}
use opensrv.Results.{
  Finalizer, finish_ok, finish_eof, QueryResultWriter, set_flag, is_some, required, on_writer,
  save_status, complete, send_end, finalize, complete_one_with_status, complete_one,
  no_more_results, completed, completed_with_status, error, session_status_flags,
}

-- A call that succeeds has completed the response, and one that fails has not.
pub data Completes (before : Bool) : Result IoError (Unit {0}) × QueryResultWriter → Type 0 where
  is_complete : {q : QueryResultWriter} → q.completion ≡ true → Completes before (ok tt, q)
  is_open :
      {e : IoError} {q : QueryResultWriter} → q.completion ≡ before → Completes before (err e, q)

-- A step after which the response is as complete as before.
data Quiet {A : Type 0} (before : Bool) : Result IoError A × QueryResultWriter → Type 0 where
  quiet :
      {r : Result IoError A} {q : QueryResultWriter} → q.completion ≡ before → Quiet before (r, q)

module _ {A : Type 0} where
  Quiet-then :
      {B : Type 0} {c : Bool} (m : Io QueryResultWriter A) (f : A → Io QueryResultWriter B)
      (s : QueryResultWriter)
      → Quiet c (m s)
      → ((a : A) (s : QueryResultWriter) → s.completion ≡ c → Quiet c (f a s))
      → Quiet c ((m >>= f) s)
  Quiet-then {B} {c} m f s h k = quiet_then (m s) h
    where
      quiet_then : (r : Result IoError A × QueryResultWriter) → Quiet c r → Quiet c (and_then r f)
      quiet_then (ok a, s) (quiet e) = k a s e
      quiet_then (err e, s) (quiet h) = quiet h

  Completes-then :
      {c : Bool} (m : Io QueryResultWriter A) (f : A → Io QueryResultWriter (Unit {0}))
      (s : QueryResultWriter)
      → Quiet c (m s)
      → ((a : A) (s : QueryResultWriter) → s.completion ≡ c → Completes c (f a s))
      → Completes c ((m >>= f) s)
  Completes-then {c} m f s h k = completes_then (m s) h
    where
      completes_then :
          (r : Result IoError A × QueryResultWriter) → Quiet c r → Completes c (and_then r f)
      completes_then (ok a, s) (quiet e) = k a s e
      completes_then (err e, s) (quiet h) = is_open h

module _ (flags : Flags) (peer : Peer) (byteorder : ByteOrder) (writes : Writes) where
  on_writer-Quiet :
      {A : Type 0} {c : Bool} (m : Io PacketWriter A) (s : QueryResultWriter)
      → s.completion ≡ c
      → Quiet c (on_writer flags peer byteorder writes m s)
  unfolding on_writer
  on_writer-Quiet m s h = quiet h

  send_end-Quiet :
      {c : Bool} (more : Bool) (o : Option Finalizer) (s : QueryResultWriter)
      → s.completion ≡ c
      → Quiet c (send_end flags peer byteorder writes more o s)
  unfolding send_end save_status
  send_end-Quiet more none s h = quiet h
  send_end-Quiet more (some (finish_ok p)) s h =
      Quiet-then
        (on_writer flags peer byteorder writes (
          write_ok_packet peer byteorder writes flags s.client_capabilities (record p {
            status_flags = set_flag p.status_flags flags.server_more_results_exists more;
          })))
        _ s (on_writer-Quiet _ s h) λ _ s h. quiet h
  send_end-Quiet more (some (finish_eof status)) s h =
      Quiet-then
        (on_writer flags peer byteorder writes (
          write_eof_packet peer byteorder writes flags
            (set_flag status flags.server_more_results_exists more)))
        _ s (on_writer-Quiet _ s h) λ _ s h. quiet h

  finalize-Quiet :
      {c : Bool} (more : Bool) (s : QueryResultWriter)
      → s.completion ≡ c
      → Quiet c (finalize flags peer byteorder writes more s)
  unfolding finalize
  finalize-Quiet more s h =
      elim (Bool-cases (
        more
        && is_some s.last_end
        && not (contains s.client_capabilities (required flags s.is_bin)))) [
          | inl e ↦ rw e (quiet h)
          | inr e ↦ rw e (send_end-Quiet more s.last_end (record s { last_end = none }) h)
        ]

  complete_one_with_status-Quiet :
      {c : Bool} (p : OkResponse) (s : QueryResultWriter)
      → s.completion ≡ c
      → Quiet c (complete_one_with_status flags peer byteorder writes p s)
  unfolding complete_one_with_status
  complete_one_with_status-Quiet p s h =
      Quiet-then (finalize flags peer byteorder writes true) _ s (finalize-Quiet true s h)
        λ _ s h. quiet h

  complete_one-Quiet :
      {c : Bool} (p : OkResponse) (s : QueryResultWriter)
      → s.completion ≡ c
      → Quiet c (complete_one flags peer byteorder writes p s)
  unfolding complete_one
  complete_one-Quiet p s h = complete_one_with_status-Quiet _ s h

  pub no_more_results-Completes :
      {c : Bool} (s : QueryResultWriter)
      → s.completion ≡ c
      → Completes c (no_more_results flags peer byteorder writes s)
  unfolding no_more_results complete
  no_more_results-Completes s h = elim (Bool-cases (is_some s.last_end)) [
    | inl e ↦ rw e (
        Completes-then (finalize flags peer byteorder writes false) _ s (finalize-Quiet false s h)
          λ _ s h. is_complete refl)
    | inr e ↦ rw e (is_open h)
  ]

  pub error-Completes :
      {c : Bool} (kind : ErrorKind) (msg : Bytes) (s : QueryResultWriter)
      → s.completion ≡ c
      → Completes c (error flags peer byteorder writes kind msg s)
  unfolding error complete
  error-Completes kind msg s h =
      Completes-then (finalize flags peer byteorder writes true) _ s (finalize-Quiet true s h)
        λ _ s h.
          Completes-then
            (on_writer flags peer byteorder writes (write_err peer byteorder writes flags kind msg))
            _ s (on_writer-Quiet _ s h) λ _ s h. is_complete refl

  -- The calls that end a response, of a writer whose response is open: each completes it if it returns
  -- Ok, and leaves it open if it returns an error.
  pub response-Completes :
      (s : QueryResultWriter)
      → s.completion ≡ false
      → (p : OkResponse) (kind : ErrorKind) (msg : Bytes)
      → Completes false (completed flags peer byteorder writes p s)
        × Completes false (completed_with_status flags peer byteorder writes p s)
        × Completes false (no_more_results flags peer byteorder writes s)
        × Completes false (error flags peer byteorder writes kind msg s)
  unfolding completed completed_with_status
  response-Completes s h p kind msg = (
    Completes-then (complete_one flags peer byteorder writes p) _ s (complete_one-Quiet p s h)
        (λ _ s h. no_more_results-Completes s h),
    Completes-then (complete_one_with_status flags peer byteorder writes p) _ s
        (complete_one_with_status-Quiet p s h) (λ _ s h. no_more_results-Completes s h),
    no_more_results-Completes s h,
    error-Completes kind msg s h,
  )

  finalize_refused :
      (s : QueryResultWriter)
      → is_some s.last_end ≡ true
      → contains s.client_capabilities (required flags s.is_bin) ≡ false
      → finalize flags peer byteorder writes true s ≡ (err invalid_input, s)
  unfolding finalize
  finalize_refused s some_end lacks = rw (some_end, lacks)

  -- What a client negotiates to take several results: one capability for the results of a query, another
  -- for those of a prepared statement.
  unfoldable pub takes_several : QueryResultWriter → Bool
  takes_several q = elim q.is_bin [
    | true ↦ contains q.client_capabilities flags.client_ps_multi_results
    | false ↦ contains q.client_capabilities flags.client_multi_results
  ]

  takes_several_lem :
      (q : QueryResultWriter)
      → takes_several q ≡ contains q.client_capabilities (required flags q.is_bin)
  unfolding takes_several required
  takes_several_lem q = by_protocol q.is_bin
    where
      by_protocol :
          (is_bin : Bool)
          → elim is_bin [
            | true ↦ contains q.client_capabilities flags.client_ps_multi_results
            | false ↦ contains q.client_capabilities flags.client_multi_results
          ]
            ≡ contains q.client_capabilities
                (if is_bin then flags.client_ps_multi_results else flags.client_multi_results)
      by_protocol true = refl
      by_protocol false = refl

  -- What is left of a writer by a first result that it defers, and by every attempt at a second one.
  pub record OnlyOne (p p' : OkResponse) (kind : ErrorKind) (msg : Bytes) (columns : List Column)
      (metadata : Option (List ColumnMetadata)) (q : QueryResultWriter) : Type 0 where
    pub after : QueryResultWriter
    pub first : complete_one_with_status flags peer byteorder writes p q ≡ (ok tt, after)
    pub deferred : after.last_end ≡ some (finish_ok p)
    pub nothing_sent : after.writer ≡ q.writer
    pub no_second : complete_one flags peer byteorder writes p' after ≡ (err invalid_input, after)
    pub no_second_status :
        complete_one_with_status flags peer byteorder writes p' after ≡ (err invalid_input, after)
    pub no_error : error flags peer byteorder writes kind msg after ≡ (err invalid_input, after)
    pub no_rows :
        start_result flags peer byteorder writes columns metadata after
        ≡ (err invalid_input, row_writer after columns)

  -- A writer that has no result yet takes one, whose end it defers. If the client has not negotiated
  -- several results for its kind of command, a second OK response, an error or the start of rows behind it
  -- is refused, with nothing written and the first result still to be sent.
  pub complete_one_with_status-OnlyOne :
      (p p' : OkResponse) (kind : ErrorKind) (msg : Bytes) (columns : List Column)
      (metadata : Option (List ColumnMetadata)) (q : QueryResultWriter)
      → takes_several q ≡ false
      → OnlyOne p p' kind msg columns metadata (record q { last_end = none })
  unfolding complete_one complete_one_with_status error start_result finalize send_end is_some
  complete_one_with_status-OnlyOne p p' kind msg columns metadata q lacks =
      let after : QueryResultWriter = record q {
        default_status_flags = session_status_flags flags p.status_flags;
        last_end = some (finish_ok p);
      } in
      let refused = finalize_refused after refl (sym (takes_several_lem q) ∙ lacks) in
      record {
        after = after;
        first = refl;
        deferred = refl;
        nothing_sent = refl;
        no_second = rw refused;
        no_second_status = rw refused;
        no_error = rw refused;
        no_rows = rw refused;
      }
