-- ===== src/Session/Run/Steps.antt =====
-- mysql/src/lib.rs: what a step of the session keeps of its statements.
use opensrv.Common.{Bool, true, false, if◌then◌else◌, Result, ok, err}
use opensrv.ErrorCodes.{ErrorKind}
use opensrv.Deps.ByteOrder.{ByteOrder}
use opensrv.Deps.MysqlCommon.{Reads}
use opensrv.Deps.Writes.{Writes, Flags}
use opensrv.Wire.{IoError}
use opensrv.Io.{Io, and_then}
use opensrv.Writer.{Peer}
use opensrv.Session.Table.{Limits, Message}
use opensrv.Session.Table.Served.{IsServed}
use opensrv.Session.Backend.{InitResponse, Shim, Text, Settings, Session, Call}
use opensrv.Session.Run.{
  on_writer, send_err, flush, reject, send_ok, ask, ensure_response_completed, init_response,
}

-- A step that succeeds leaves the statements in order.
pub data Kept {B : Type 0} (limits : Limits) {A : Type 0}
    : Result IoError A × Session B → Type 0 where
  goes_on : (a : A) (s : Session B) → IsServed limits s.table → Kept limits (ok a, s)
  stops : (e : IoError) (s : Session B) → Kept limits (err e, s)

module _ {B : Type 0} {limits : Limits} where
  pub kept :
      {A : Type 0} (r : Result IoError A) (s : Session B)
      → IsServed limits s.table
      → Kept limits (r, s)
  kept (ok a) s h = goes_on a s h
  kept (err e) s h = stops e s

  pub kept-bind :
      {A C : Type 0} (r : Result IoError A × Session B) (f : A → Io (Session B) C)
      → Kept limits r
      → ((a : A) (s : Session B) → IsServed limits s.table → Kept limits (f a s))
      → Kept limits (and_then r f)
  kept-bind r f (goes_on a s h) k = k a s h
  kept-bind r f (stops e s) k = stops e s

  answer_kept :
      {A : Type 0} (r : Result IoError (Unit {0})) (a : A) (s : Session B)
      → IsServed limits s.table
      → Kept {B = B} limits {A = A} (elim r [ ok _ ↦ (ok a, s) | err e ↦ (err e, s) ])
  answer_kept (ok _) a s v = goes_on a s v
  answer_kept (err e) a s v = stops e s

  pub if_kept :
      {A : Type 0} (b : Bool) (m n : Io (Session B) A)
      → ((s : Session B) → IsServed limits s.table → Kept limits (m s))
      → ((s : Session B) → IsServed limits s.table → Kept limits (n s))
      → (s : Session B) → IsServed limits s.table
      → Kept limits ((if b then m else n) s)
  if_kept true m n hm hn = hm
  if_kept false m n hm hn = hn

module _ {B : Type 0} (peer : Peer) (byteorder : ByteOrder) (reads : Reads) (writes : Writes)
    (flags : Flags) (text : Text) (settings : Settings) (backend : Shim B) where
  abbrev V : Session B → Type 0
  V s = IsServed settings.limits s.table

  abbrev K : {A : Type 0} → Result IoError A × Session B → Type 0
  K r = Kept settings.limits r

  pub flush_kept :
      (s : Session B) → V s → K (flush peer byteorder reads writes flags text settings backend s)
  unfolding flush on_writer
  flush_kept s v = kept _ _ v

  pub err_kept :
      (kind : ErrorKind) (msg : Message) (s : Session B)
      → V s
      → K (send_err peer byteorder reads writes flags text settings backend kind msg s)
  unfolding send_err on_writer
  err_kept kind msg s v = kept _ _ v

  pub reject_kept :
      (kind : ErrorKind) (msg : Message) (s : Session B)
      → V s
      → K (reject peer byteorder reads writes flags text settings backend kind msg s)
  unfolding reject
  reject_kept kind msg s v =
      kept-bind (send_err peer byteorder reads writes flags text settings backend kind msg s) _
        (err_kept kind msg s v) (λ _. flush_kept)

  pub ok_kept :
      (s : Session B) → V s → K (send_ok peer byteorder reads writes flags text settings backend s)
  unfolding send_ok on_writer
  ok_kept s v = kept _ _ v

  pub ask_kept :
      {A : Type 0} (call : Call B A) (s : Session B)
      → V s
      → K (ask peer byteorder reads writes flags text settings backend call s)
  unfolding ask
  ask_kept call s v = answer_kept (call s.shim s.writer s.status_flags).result _ _ v

  pub completed_kept :
      (completed : Bool) (s : Session B)
      → V s
      → K (
          ensure_response_completed peer byteorder reads writes flags text settings backend
            completed s)
  unfolding ensure_response_completed
  completed_kept true s v = goes_on tt s v
  completed_kept false s v = stops _ s

  init_kept :
      (r : InitResponse) (s : Session B)
      → V s
      → K (init_response peer byteorder reads writes flags text settings backend r s)
  unfolding init_response
  init_kept InitResponse.pending s v = stops _ s
  init_kept InitResponse.answered s v = goes_on tt s v
  init_kept InitResponse.refused s v = goes_on tt s v

  -- A call of the backend whose answer is checked, and the flush.
  pub asked_kept :
      (call : Call B Bool) (s : Session B)
      → V s
      → K (
          and_then (ask peer byteorder reads writes flags text settings backend call s) (λ c s.
            and_then
              (ensure_response_completed peer byteorder reads writes flags text settings backend c
                s)
              (λ _. flush peer byteorder reads writes flags text settings backend)))
  asked_kept call s v =
      kept-bind (ask peer byteorder reads writes flags text settings backend call s) _
        (ask_kept call s v)
        (λ c s' v'.
          kept-bind
            (ensure_response_completed peer byteorder reads writes flags text settings backend c s')
            _ (completed_kept c s' v') (λ _. flush_kept))

  pub asked_init_kept :
      (call : Call B InitResponse) (s : Session B)
      → V s
      → K (
          and_then (ask peer byteorder reads writes flags text settings backend call s) (λ c s.
            and_then
              (init_response peer byteorder reads writes flags text settings backend c s)
              (λ _. flush peer byteorder reads writes flags text settings backend)))
  asked_init_kept call s v =
      kept-bind (ask peer byteorder reads writes flags text settings backend call s) _
        (ask_kept call s v)
        (λ c s' v'.
          kept-bind (init_response peer byteorder reads writes flags text settings backend c s') _
            (init_kept c s' v') (λ _. flush_kept))
