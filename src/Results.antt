-- ===== src/Results.antt =====
-- mysql/src/resultset.rs: the answers to a command, `QueryResultWriter` and `InitWriter`.
pub mod Rows
pub mod Cursor
pub mod Completes
pub mod Sequence
use opensrv.Common.{
  ℕ, ◌-◌, bit_and, bit_or, Bool, true, false, not, ◌&&◌, Option, none, some, List, [], ◌∷◌, Bytes,
  ◌==◌, if◌then◌else◌, Result, ok, err, map,
}
use opensrv.ErrorCodes.{ErrorKind}
use opensrv.Deps.ByteOrder.{ByteOrder}
use opensrv.Deps.Writes.{Writes, Flags}
use opensrv.Wire.{IoError, invalid_data, invalid_input}
use opensrv.Io.{Io, ◌>>=◌, ◌>>◌, pure, fail, modify, when}
use opensrv.Writer.{Peer, PacketWriter}
use opensrv.Writers.{
  Column, ColumnMetadata, OkResponse, contains, status_response, write_err, write_ok_packet,
  write_eof_packet,
}
use opensrv.Session.Backend.{InitResponse, pending, answered, refused}

pub data Finalizer : Type 0 where
  finish_ok : OkResponse → Finalizer
  finish_eof : ℕ → Finalizer

-- `QueryResultWriter` and what it borrows: the packet writer, the status flags of the session, and
-- whether the response is complete. It is consumed by a call that completes the response.
pub record QueryResultWriter : Type 0 where
  pub is_bin : Bool
  pub client_capabilities : ℕ
  pub writer : PacketWriter
  pub last_end : Option Finalizer
  pub default_status_flags : ℕ
  pub session_status : ℕ
  pub completion : Bool

-- `QueryResultWriter::new_tracked`
pub new_tracked : PacketWriter → Bool → ℕ → ℕ → QueryResultWriter
new_tracked w is_bin capabilities session_status = record {
  is_bin = is_bin;
  client_capabilities = capabilities;
  writer = w;
  last_end = none;
  default_status_flags = session_status;
  session_status = session_status;
  completion = false;
}

-- `InitWriter` and what it borrows.
pub record InitWriter : Type 0 where
  pub client_capabilities : ℕ
  pub status_flags : ℕ
  pub writer : PacketWriter
  pub completion : InitResponse

-- `StatusFlags::set`
pub set_flag : ℕ → ℕ → Bool → ℕ
set_flag bits flag on = if on then bit_or bits flag else bits - bit_and bits flag

unfoldable pub is_some {ℓ} : {A : Type ℓ} → Option A → Bool
is_some none = false
is_some (some a) = true

module _ (flags : Flags) where
  pub session_status_flags : ℕ → ℕ
  session_status_flags status = bit_and status (
      bit_or flags.server_status_in_trans (
        bit_or flags.server_status_autocommit
          (bit_or flags.server_status_no_backslash_escapes flags.server_status_in_trans_readonly)))

  -- What a client has to negotiate for more than one result.
  unfoldable pub required : Bool → ℕ
  required is_bin = if is_bin then flags.client_ps_multi_results else flags.client_multi_results

  module _ (peer : Peer) (byteorder : ByteOrder) (writes : Writes) where
    pub on_writer : {A : Type 0} → Io PacketWriter A → Io QueryResultWriter A
    on_writer m s = let (r, w) = m s.writer in (r, record s { writer = w })

    pub save_status : ℕ → Io QueryResultWriter (Unit {0})
    save_status status s = (ok tt, record s { session_status = session_status_flags status })

    pub complete : Io QueryResultWriter (Unit {0})
    complete s = (ok tt, record s { completion = true })

    pub send_end : Bool → Option Finalizer → Io QueryResultWriter (Unit {0})
    send_end more_exists none s = pure tt s
    send_end more_exists (some (finish_ok p)) s =
        let status = set_flag p.status_flags flags.server_more_results_exists more_exists in
        (do
          on_writer (
              write_ok_packet peer byteorder writes flags s.client_capabilities
                (record p { status_flags = status }))
          save_status status)
          s
    send_end more_exists (some (finish_eof status)) s =
        let status' = set_flag status flags.server_more_results_exists more_exists in
        (do on_writer (write_eof_packet peer byteorder writes flags status'); save_status status') s

    -- The end of the result before, which is not sent until it is known whether another one follows.
    pub finalize : Bool → Io QueryResultWriter (Unit {0})
    finalize more_exists s =
        if more_exists
          && is_some s.last_end
          && not (contains s.client_capabilities (required s.is_bin))
        then fail invalid_input s
        else send_end more_exists s.last_end (record s { last_end = none })

    pub set_status_flags : ℕ → QueryResultWriter → QueryResultWriter
    set_status_flags status s = record s { default_status_flags = status }

    pub complete_one_with_status : OkResponse → Io QueryResultWriter (Unit {0})
    complete_one_with_status p = do
      finalize true
      modify (λ s. record s {
        default_status_flags = session_status_flags p.status_flags;
        last_end = some (finish_ok p);
      })

    -- Without a flag, the flags of the response before it count.
    pub complete_one : OkResponse → Io QueryResultWriter (Unit {0})
    complete_one p s =
        complete_one_with_status
          (if p.status_flags == 0 then record p { status_flags = s.default_status_flags } else p) s

    pub no_more_results : Io QueryResultWriter (Unit {0})
    no_more_results s =
        if is_some s.last_end then (do finalize false; complete) s else fail invalid_data s

    pub completed : OkResponse → Io QueryResultWriter (Unit {0})
    completed p = do complete_one p; no_more_results

    pub completed_with_status : OkResponse → Io QueryResultWriter (Unit {0})
    completed_with_status p = do complete_one_with_status p; no_more_results

    pub error : ErrorKind → Bytes → Io QueryResultWriter (Unit {0})
    error kind msg = do
      finalize true
      on_writer (write_err peer byteorder writes flags kind msg)
      modify (λ s. record s { session_status = session_status_flags s.default_status_flags })
      complete

    -- `InitWriter::ok_with_status`
    pub init_ok_with_status : ℕ → Io InitWriter (Unit {0})
    init_ok_with_status status s =
        let (r, w) =
          write_ok_packet peer byteorder writes flags s.client_capabilities (status_response status)
            s.writer in
        answer_init r (record s { writer = w })
      where
        answer_init :
            Result IoError (Unit {0}) → InitWriter → Result IoError (Unit {0}) × InitWriter
        answer_init (ok _) s =
            (ok tt, record s { status_flags = session_status_flags status; completion = answered })
        answer_init (err e) s = (err e, s)

    pub init_ok : Io InitWriter (Unit {0})
    init_ok s = init_ok_with_status s.status_flags s

    -- `InitWriter::error`
    pub init_error : ErrorKind → Bytes → Io InitWriter (Unit {0})
    init_error kind msg s =
        let (r, w) = write_err peer byteorder writes flags kind msg s.writer in
        refuse_init r (record s { writer = w })
      where
        refuse_init :
            Result IoError (Unit {0}) → InitWriter → Result IoError (Unit {0}) × InitWriter
        refuse_init (ok _) s = (ok tt, record s { completion = refused })
        refuse_init (err e) s = (err e, s)
