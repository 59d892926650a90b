-- ===== src/Writers.antt =====
-- mysql/src/writers.rs: the packets that answer a command.
use opensrv.Common.{
  ℕ, ◌%◌, ◌^◌, bit_and, bit_or, Bool, true, false, not, ◌&&◌, ◌||◌, Option, none, some, List, [],
  ◌∷◌, Bytes, length, is_nil, ltb, ◌==◌, if◌then◌else◌,
}
use opensrv.Deps.ByteOrder.{ByteOrder}
use opensrv.Deps.MysqlCommon.{ColumnType}
use opensrv.Deps.Writes.{Writes, Flags}
use opensrv.ErrorCodes.{ErrorKind, code, sqlstate}
use opensrv.Io.{Io, ◌>>◌, pure, when}
use opensrv.Writer.{Peer, PacketWriter, write_all, end_packet}

unfoldable pub contains : ℕ → ℕ → Bool
contains bits flag = bit_and bits flag == flag

pub intersects : ℕ → ℕ → Bool
intersects bits flags = not (bit_and bits flags == 0)

pub record Column : Type 0 where
  pub table : Bytes
  pub column : Bytes
  pub collen : ℕ
  pub coltype : ColumnType
  pub colflags : ℕ

pub record ColumnMetadata : Type 0 where
  pub collation : Option ℕ
  pub decimals : ℕ

pub record OkResponse : Type 0 where
  pub header : ℕ
  pub affected_rows : ℕ
  pub last_insert_id : ℕ
  pub status_flags : ℕ
  pub warnings : ℕ
  pub info : Bytes
  pub session_state_info : Bytes

-- `OkResponse { status_flags, ..Default::default() }`
abbrev pub status_response : ℕ → OkResponse
status_response status = record {
  header = 0;
  affected_rows = 0;
  last_insert_id = 0;
  status_flags = status;
  warnings = 0;
  info = [];
  session_state_info = [];
}

abbrev bin_general_ci : ℕ
bin_general_ci = 0x3f

pub is_blob : ColumnType → Bool
is_blob ColumnType.tiny_blob = true
is_blob ColumnType.blob = true
is_blob ColumnType.medium_blob = true
is_blob ColumnType.long_blob = true
is_blob ColumnType.geometry = true
is_blob _ = false

pub is_text : ColumnType → Bool
is_text ColumnType.string = true
is_text ColumnType.var_string = true
is_text ColumnType.varchar = true
is_text ColumnType.enum = true
is_text ColumnType.set = true
is_text ColumnType.json = true
is_text _ = false

pub column_charset : Flags → Column → ℕ
column_charset flags c =
    if intersects c.colflags (bit_or flags.binary_flag flags.blob_flag) || is_blob c.coltype
    then bin_general_ci
    else if is_text c.coltype
    then flags.utf8mb4_general_ci
    else bin_general_ci

-- `metadata.collation.unwrap_or_else(|| column_charset(c))`
pub collation_or : ℕ → Option ℕ → ℕ
collation_or charset none = charset
collation_or charset (some collation) = collation

module _ (peer : Peer) (byteorder : ByteOrder) (writes : Writes) (flags : Flags) where
  abbrev Write : Type 0
  Write = Io PacketWriter (Unit {0})

  pub write_u8 : ℕ → Io PacketWriter (Unit {0})
  write_u8 n = write_all (n ∷ [])

  pub write_pieces : List Bytes → Io PacketWriter (Unit {0})
  write_pieces [] = pure tt
  write_pieces (p ∷ ps) = do write_all p; write_pieces ps

  pub write_eof_packet : ℕ → Io PacketWriter (Unit {0})
  write_eof_packet status = do
    write_all (0xfe ∷ 0x00 ∷ 0x00 ∷ [])
    write_all (writes.write_u16 status)
    end_packet peer byteorder

  pub write_ok_packet : ℕ → OkResponse → Io PacketWriter (Unit {0})
  write_ok_packet capabilities ok_packet = do
    write_u8 ok_packet.header
    write_pieces (writes.write_lenenc_int ok_packet.affected_rows)
    write_pieces (writes.write_lenenc_int ok_packet.last_insert_id)
    if contains capabilities flags.client_protocol_41
        then (do
          write_all (writes.write_u16 ok_packet.status_flags)
          write_all (writes.write_u16 ok_packet.warnings))
        else when (contains capabilities flags.client_transactions)
            (write_all (writes.write_u16 ok_packet.status_flags))
    let has_session_track = contains capabilities flags.client_session_track
    when (not (is_nil ok_packet.info) || has_session_track) (
        if has_session_track
        then write_pieces (writes.write_lenenc_str ok_packet.info)
        else write_all ok_packet.info)
    when (has_session_track && contains ok_packet.status_flags flags.server_session_state_changed)
        (write_pieces (writes.write_lenenc_str ok_packet.session_state_info))
    end_packet peer byteorder

  pub write_err : ErrorKind → Bytes → Io PacketWriter (Unit {0})
  write_err kind msg = do
    write_u8 0xff
    write_all (writes.write_u16 (code kind))
    write_u8 0x23
    write_all (sqlstate kind)
    write_all msg
    end_packet peer byteorder

  -- The packet of one column.
  pub write_column : Bool → Column × ColumnMetadata → Io PacketWriter (Unit {0})
  write_column is_com_field_list (c, metadata) = do
    write_pieces (writes.write_lenenc_str (0x64 ∷ 0x65 ∷ 0x66 ∷ []))
    write_pieces (writes.write_lenenc_str [])
    write_pieces (writes.write_lenenc_str c.table)
    write_pieces (writes.write_lenenc_str [])
    write_pieces (writes.write_lenenc_str c.column)
    write_pieces (writes.write_lenenc_str [])
    write_pieces (writes.write_lenenc_int 0xc)
    write_all (writes.write_u16 (collation_or (column_charset flags c) metadata.collation))
    write_all (writes.write_u32 (if c.collen == 0 then 1024 else c.collen))
    write_u8 (writes.coltype_code c.coltype)
    write_all (writes.write_u16 c.colflags)
    write_u8 metadata.decimals
    write_all (0x00 ∷ 0x00 ∷ [])
    when is_com_field_list (write_all (0xfb ∷ []))
    end_packet peer byteorder

  pub write_columns : Bool → List (Column × ColumnMetadata) → Io PacketWriter (Unit {0})
  write_columns is_com_field_list [] = pure tt
  write_columns is_com_field_list (c ∷ cs) = do
    write_column is_com_field_list c
    write_columns is_com_field_list cs

  pub write_column_definitions_41 :
      List (Column × ColumnMetadata) → ℕ → Bool → ℕ → Io PacketWriter (Unit {0})
  write_column_definitions_41 i capabilities is_com_field_list status = do
    write_columns is_com_field_list i
    if not (contains capabilities flags.client_deprecate_eof)
        then write_eof_packet status
        else pure tt

  pub column_definitions : List (Column × ColumnMetadata) → ℕ → ℕ → Io PacketWriter (Unit {0})
  column_definitions i capabilities status = do
    write_pieces (writes.write_lenenc_int (length i))
    end_packet peer byteorder
    write_column_definitions_41 i capabilities false status

  -- `len() as u16`
  pub write_prepare_ok :
      ℕ
      → List (Column × ColumnMetadata)
      → List (Column × ColumnMetadata)
      → ℕ
      → ℕ
      → Io PacketWriter (Unit {0})
  write_prepare_ok id params columns capabilities status = do
    write_u8 0x00
    write_all (writes.write_u32 id)
    write_all (writes.write_u16 (length columns % 2 ^ 16))
    write_all (writes.write_u16 (length params % 2 ^ 16))
    write_u8 0x00
    write_all (writes.write_u16 0)
    end_packet peer byteorder
    when (ltb 0 (length params)) (write_column_definitions_41 params capabilities false status)
    when (ltb 0 (length columns)) (write_column_definitions_41 columns capabilities false status)
