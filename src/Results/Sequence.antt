-- ===== src/Results/Sequence.antt =====
-- mysql/src/resultset.rs: several results in one response, and the flag that announces the next one.
use opensrv.Common.{
  ℕ, ◌+◌, ◌*◌, ◌/◌, ◌%◌, if◌then◌else◌, arith, ◌≡◌, refl, Bool, true, false, none, some, List, [],
  ◌∷◌, Bytes, Result, ok, err,
}
use opensrv.Common.Bits.{bit_or-eight, bit_and-eight}
use opensrv.ErrorCodes.{ErrorKind}
use opensrv.Deps.ByteOrder.{ByteOrder}
use opensrv.Deps.Writes.{Writes, Flags}
use opensrv.Wire.{IoError}
use mathlib.Core.Path.{subst}
use opensrv.Io.{Io, modify, pure, and_then, ◌>>◌}
use opensrv.Writer.{Peer, PacketWriter}
use opensrv.Writers.{OkResponse, contains, write_err, write_ok_packet}
use opensrv.Results.{
  finish_ok, QueryResultWriter, set_flag, is_some, required, on_writer, save_status,
  session_status_flags, complete, send_end, finalize, complete_one_with_status, no_more_results,
  error,
}

-- How a response ends: after its last result, or with an error.
pub data Ending : Type 0 where
  no_more : Ending
  failing : ErrorKind → Bytes → Ending

-- The same result, and the same packets written.
abbrev pub Agrees :
    Result IoError (Unit {0}) × QueryResultWriter
    → Result IoError (Unit {0}) × PacketWriter
    → Type 0
Agrees a b = (a.0 ≡ b.0) × (a.1.writer ≡ b.1)

module _ (flags : Flags) (peer : Peer) (byteorder : ByteOrder) (writes : Writes) where
  -- The calls of a backend for some results.
  pub respond : List OkResponse → Ending → Io QueryResultWriter (Unit {0})
  respond [] no_more = no_more_results flags peer byteorder writes
  respond [] (failing kind msg) = error flags peer byteorder writes kind msg
  respond (p ∷ ps) ending = do
    complete_one_with_status flags peer byteorder writes p
    respond ps ending

  -- A status with SERVER_MORE_RESULTS_EXISTS, whose bit is 8, as it has to be, and its other bits kept.
  pub announcing : Bool → ℕ → ℕ
  announcing more status = status / 16 * 16 + (if more then 8 else 0) + status % 8

  -- One packet for a result, with the flag if `more` follows and without it otherwise.
  pub write_result : ℕ → Bool → OkResponse → Io PacketWriter (Unit {0})
  write_result capabilities more p =
      write_ok_packet peer byteorder writes flags capabilities
        (record p { status_flags = announcing more p.status_flags })

  -- The packets of a response: one for each result and one for an error, each result with the flag but
  -- one that nothing follows.
  pub packets : ℕ → OkResponse → List OkResponse → Ending → Io PacketWriter (Unit {0})
  packets capabilities p [] no_more = write_result capabilities false p
  packets capabilities p [] (failing kind msg) = do
    write_result capabilities true p
    write_err peer byteorder writes flags kind msg
  packets capabilities p (p' ∷ ps) ending = do
    write_result capabilities true p
    packets capabilities p' ps ending

  -- The writer of a response behind a result whose end has not been sent.
  abbrev behind : QueryResultWriter → OkResponse → QueryResultWriter
  behind q p = record q { last_end = some (finish_ok p) }

  -- The same once that end has been sent.
  abbrev sent : QueryResultWriter → ℕ → PacketWriter → QueryResultWriter
  sent q status w = record q {
    last_end = none;
    writer = w;
    session_status = session_status_flags flags status;
  }

  abbrev status_of : Bool → OkResponse → ℕ
  status_of more p = set_flag p.status_flags flags.server_more_results_exists more

  saved-Agrees :
      (r : Result IoError (Unit {0}) × PacketWriter) (q : QueryResultWriter) (status : ℕ)
      (k : Io QueryResultWriter (Unit {0})) (l : Io PacketWriter (Unit {0}))
      → ((w : PacketWriter) → Agrees (k (sent q status w)) (l w))
      → Agrees
          (and_then
            (and_then
              (r.0, record q { last_end = none; writer = r.1 })
              (λ _. save_status flags peer byteorder writes status))
            (λ _. k))
          (and_then r (λ _. l))
  unfolding save_status
  saved-Agrees (ok a, w) q status k l h = h w
  saved-Agrees (err e, w) q status k l h = (refl, refl)

  and_then_assoc :
      (r : Result IoError (Unit {0}) × QueryResultWriter) (f g : Io QueryResultWriter (Unit {0}))
      → and_then (and_then r (λ _. f)) (λ _. g) ≡ and_then r (λ _. f >> g)
  and_then_assoc (ok a, s) f g = refl
  and_then_assoc (err e, s) f g = refl

  -- What `error` does behind the end of the result before.
  fail_response : ErrorKind → Bytes → Io QueryResultWriter (Unit {0})
  fail_response kind msg = do
    on_writer flags peer byteorder writes (write_err peer byteorder writes flags kind msg)
    modify (λ s. record s { session_status = session_status_flags flags s.default_status_flags })
    complete flags peer byteorder writes

  fail_response-Agrees :
      (kind : ErrorKind) (msg : Bytes) (q : QueryResultWriter)
      → Agrees (fail_response kind msg q) (write_err peer byteorder writes flags kind msg q.writer)
  unfolding fail_response on_writer complete
  fail_response-Agrees kind msg q = ended (write_err peer byteorder writes flags kind msg q.writer)
    where
      ended :
          (r : Result IoError (Unit {0}) × PacketWriter)
          → Agrees
              (and_then
                (r.0, record q { writer = r.1 })
                (λ _. do
                  modify (λ s. record s {
                    session_status = session_status_flags flags s.default_status_flags;
                  })
                  complete flags peer byteorder writes))
              r
      ended (ok a, w) = (refl, refl)
      ended (err e, w) = (refl, refl)

  and_then-unit : (r : Result IoError (Unit {0}) × PacketWriter) → and_then r (λ _. pure tt) ≡ r
  and_then-unit (ok a, w) = refl
  and_then-unit (err e, w) = refl

  completed_lem :
      (q : QueryResultWriter) → Agrees (complete flags peer byteorder writes q) (ok tt, q.writer)
  unfolding complete
  completed_lem q = (refl, refl)

  -- The documented bit of SERVER_MORE_RESULTS_EXISTS.
  module _ (bit : flags.server_more_results_exists ≡ 8) where
    announcing_lem :
        (more : Bool) (status : ℕ)
        → announcing more status ≡ set_flag status flags.server_more_results_exists more
    unfolding announcing set_flag
    announcing_lem true status = rw bit (omega (arith, bit_or-eight status))
    announcing_lem false status = rw bit (omega (arith, bit_and-eight status))

    -- A deferred end is sent, with the flag that it then has, and the calls behind it go on.
    finalize-Agrees :
        (more : Bool) (p : OkResponse) (q : QueryResultWriter) (k : Io QueryResultWriter (Unit {0}))
        (l : Io PacketWriter (Unit {0}))
        → contains q.client_capabilities (required flags q.is_bin) ≡ true
        → ((w : PacketWriter) → Agrees (k (sent q (status_of more p) w)) (l w))
        → Agrees
            (and_then (finalize flags peer byteorder writes more (behind q p)) (λ _. k))
            (and_then (write_result q.client_capabilities more p q.writer) (λ _. l))
    unfolding finalize send_end on_writer write_result is_some
    finalize-Agrees true p q k l allowed h =
        rw (announcing_lem true p.status_flags, allowed, finalize)
          (saved-Agrees _ q (status_of true p) k l h)
    finalize-Agrees false p q k l allowed h =
        rw (announcing_lem false p.status_flags) (saved-Agrees _ q (status_of false p) k l h)

    respond-behind :
        (ps : List OkResponse) (ending : Ending) (p : OkResponse) (q : QueryResultWriter)
        → contains q.client_capabilities (required flags q.is_bin) ≡ true
        → Agrees
            (respond ps ending (behind q p))
            (packets q.client_capabilities p ps ending q.writer)
    unfolding respond packets complete_one_with_status no_more_results error is_some fail_response
    respond-behind [] no_more p q h =
        subst (Agrees (respond [] no_more (behind q p)))
          (and_then-unit (write_result q.client_capabilities false p q.writer))
          (finalize-Agrees false p q (complete flags peer byteorder writes) (pure tt) h
            (λ w. completed_lem (sent q (status_of false p) w)))
    respond-behind [] (failing kind msg) p q h =
        finalize-Agrees true p q (fail_response kind msg)
          (write_err peer byteorder writes flags kind msg) h
          (λ w. fail_response-Agrees kind msg (sent q (status_of true p) w))
    respond-behind (p' ∷ ps) ending p q h =
        let next : Io QueryResultWriter (Unit {0}) = modify (λ s. record s {
          default_status_flags = session_status_flags flags p'.status_flags;
          last_end = some (finish_ok p');
        }) in
        rw
          (and_then_assoc (finalize flags peer byteorder writes true (behind q p)) next
            (respond ps ending))
          (finalize-Agrees true p q (next >> respond ps ending)
            (packets q.client_capabilities p' ps ending) h
            (λ w.
              respond-behind ps ending p'
                (record (sent q (status_of true p) w) {
                  default_status_flags = session_status_flags flags p'.status_flags;
                })
                h))

    -- From a writer with no result yet, a client that has negotiated several results gets, for any number
    -- of OK results in one response, one packet for each, whose bit SERVER_MORE_RESULTS_EXISTS, which is 8,
    -- says whether it ends the response; an error behind them is one more packet. The packets are written
    -- in order, and a failure of a write ends the response.
    pub respond-Agrees :
        (p : OkResponse) (ps : List OkResponse) (ending : Ending) (q : QueryResultWriter)
        → contains q.client_capabilities (required flags q.is_bin) ≡ true
        → Agrees
            (respond (p ∷ ps) ending (record q { last_end = none }))
            (packets q.client_capabilities p ps ending q.writer)
    unfolding respond complete_one_with_status finalize send_end is_some
    respond-Agrees p ps ending q h =
        respond-behind ps ending p
          (record q { default_status_flags = session_status_flags flags p.status_flags }) h
