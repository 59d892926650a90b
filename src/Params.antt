-- ===== src/Params.antt =====
-- mysql/src/params.rs: the parameters of COM_STMT_EXECUTE, checked at once and read one by one.
pub mod Accept
pub mod Drain
use opensrv.Common.{
  ℕ, zero, suc, ◌+◌, ◌*◌, ◌/◌, ◌%◌, ◌^◌, bit_and, Bool, true, false, not, Option, none, some, List,
  [], ◌∷◌, ◌++◌, Bytes, length, take, drop, is_nil, get_elem?, ltb, leb, ◌==◌, if◌then◌else◌,
  Result, ok, err,
}
use opensrv.Deps.MysqlCommon
use opensrv.Deps.MysqlCommon.{ColumnType, Reads}
use opensrv.Value.{ValueInner, parse_from}
use opensrv.Wire.{IoError, invalid_data, unexpected_eof, incompatible_long_data, panicked}
use opensrv.Io.{Io, ◌>>=◌, ◌>>◌, pure, fail, modify, when}

-- `HashMap<u16, Vec<u8>>`, as the list of its entries.
abbrev pub LongData : Type 0
LongData = List (ℕ × Bytes)

unfoldable pub get_long_data : ℕ → LongData → Option Bytes
get_long_data k [] = none
get_long_data k ((j, v) ∷ m) = if j == k then some v else get_long_data k m

-- The bound types: a column type, and whether it is unsigned.
abbrev pub Types : Type 0
Types = List (ColumnType × Bool)

-- `usize::div_ceil(8)`
unfoldable pub nullmap_len : ℕ → ℕ
nullmap_len params = (params + 7) / 8

-- `nullmap[byte] & (1u8 << (col % 8)) != 0`
unfoldable pub is_null_bit : ℕ → ℕ → Bool
is_null_bit byte col = not (bit_and byte (2 ^ (col % 8)) == 0)

-- `(typmap[2 * i + 1] & 128) != 0`
unfoldable pub is_unsigned : ℕ → Bool
is_unsigned flag = not (bit_and flag 128 == 0)

-- The types that accept streamed data.
pub accepts_long_data : ColumnType → Bool
accepts_long_data ColumnType.tiny_blob = true
accepts_long_data ColumnType.medium_blob = true
accepts_long_data ColumnType.long_blob = true
accepts_long_data ColumnType.blob = true
accepts_long_data ColumnType.var_string = true
accepts_long_data ColumnType.string = true
accepts_long_data _ = false

-- What Rust does out of range.
unfoldable pub or_else {ℓ} : {A : Type 0} {S : Type ℓ} → IoError → Option A → Io S A
or_else e none = fail e
or_else e (some a) = pure a

module _ (reads : Reads) where
  -- The loop over the type map. It pushes the types one by one, so an error leaves those before it.
  unfoldable pub read_types : IoError → ℕ → Bytes → Io Types (Unit {0})
  read_types bad zero typmap = pure tt
  read_types bad (suc n) (t ∷ flag ∷ typmap) = do
    coltype ← or_else bad (reads.column_type t)
    modify (λ types. types ++ ((coltype, is_unsigned flag) ∷ []))
    read_types bad n typmap
  read_types bad (suc n) _ = fail panicked

  -- The flag and the type map behind the NULL bitmap, if there are parameters.
  unfoldable pub validate_types : ℕ → Bytes → Io Types Bytes
  validate_types zero input types = (ok input, types)
  validate_types (suc n) [] types = (err unexpected_eof, types)
  validate_types (suc n) (bound ∷ input) types =
      let type_map_len = 2 * suc n in
      if not (bound == 0)
      then (if ltb (length input) type_map_len
          then (err unexpected_eof, types)
          else (do
            modify (λ _. [])
            read_types invalid_data (suc n) (take type_map_len input)
            pure (drop type_map_len input))
              types)
      else if ltb (length types) (suc n)
      then (err invalid_data, types)
      else (ok input, types)

  module _ (nullmap : Bytes) (long_data : LongData) where
    -- The value of one parameter is passed over.
    unfoldable pub skip_value :
        ℕ → ColumnType → Bool → Option Bytes → ℕ → Bytes → Result IoError Bytes
    skip_value col coltype unsigned (some d) byte input =
        if accepts_long_data coltype then ok input else err incompatible_long_data
    skip_value col coltype unsigned none byte input =
        if is_null_bit byte col then ok input else elim (parse_from reads input coltype unsigned) [
          | ok (value, rest) ↦ ok rest
          | err e ↦ err e
        ]

    -- `for col in 0..self.params`, with the rounds that are left.
    unfoldable pub validate_values : ℕ → ℕ → Bytes → Io Types Bytes
    validate_values zero col input = pure input
    validate_values (suc left) col input = do
      byte ← or_else unexpected_eof (get_elem? nullmap (col / 8))
      (coltype, unsigned) ← λ types. or_else invalid_data (get_elem? types col) types
      rest ←
          λ types. (skip_value col coltype unsigned (get_long_data col long_data) byte input, types)
      validate_values left (col + 1) rest

  -- `ParamParser::validate`
  unfoldable pub validate : ℕ → Bytes → LongData → Io Types (Unit {0})
  validate params bytes long_data =
      if ltb (length bytes) (nullmap_len params) then fail unexpected_eof else (do
        input ← validate_types params (drop (nullmap_len params) bytes)
        rest ← validate_values (take (nullmap_len params) bytes) long_data params 0 input
        if is_nil rest then pure tt else fail invalid_data)

-- `ParamParser`, and `Params` into which `into_iter` turns it.
pub record Params : Type 0 where
  pub params : ℕ
  pub input : Bytes
  pub nullmap : Option Bytes
  pub col : ℕ
  pub long_data : LongData
  pub bound_types : Types

pub record ParamValue : Type 0 where
  pub value : ValueInner
  pub coltype : ColumnType

pub into_iter : ℕ → Bytes → LongData → Types → Params
into_iter params bytes long_data types = record {
  params = params;
  input = bytes;
  nullmap = none;
  col = 0;
  long_data = long_data;
  bound_types = types;
}

-- What is behind the type map, with the types bound anew. An index out of range and a failed `unwrap` panic.
pub reread_types : Reads → ℕ → Bytes → Io Types Bytes
reread_types reads zero rest types = (ok rest, types)
reread_types reads (suc n) [] types = (err panicked, types)
reread_types reads (suc n) (bound ∷ rest) types =
    let type_map_len = 2 * suc n in
    if not (bound == 0)
    then (if ltb (length rest) type_map_len
        then (err panicked, types)
        else (do
          modify (λ _. [])
          read_types reads panicked (suc n) (take type_map_len rest)
          pure (drop type_map_len rest))
            types)
    else (ok rest, types)

-- The iterator with what the first call has read.
abbrev pub started :
    Params → Bytes → Result IoError Bytes × Types → Result IoError (Unit {0}) × Params
started p nullmap (ok rest, types) =
    (ok tt, record p { nullmap = some nullmap; input = rest; bound_types = types })
started p nullmap (err e, types) = (err e, record p { nullmap = some nullmap; bound_types = types })

-- The first call of `next` takes the NULL bitmap and the types from the input.
pub start : Reads → Io Params (Unit {0})
start reads p = elim p.nullmap [
  | some _ ↦ (ok tt, p)
  | none ↦
      if ltb (length p.input) (nullmap_len p.params)
      then (err panicked, p)
      else (let n = nullmap_len p.params in
          started p (take n p.input) (reread_types reads p.params (drop n p.input) p.bound_types))
]

-- One value, for a parameter whose bitmap byte and type are known.
pub next_value :
    Reads
    → ℕ
    → ColumnType
    → Bool
    → Option Bytes
    → Result IoError (Option ℕ)
    → Bytes
    → Result IoError (Option (ValueInner × Bytes))
next_value reads col coltype unsigned (some d) byte input = ok (some (ValueInner.bytes d, input))
next_value reads col coltype unsigned none (err e) input = err e
next_value reads col coltype unsigned none (ok none) input = ok none
next_value reads col coltype unsigned none (ok (some byte)) input =
    if is_null_bit byte col
    then ok (some (ValueInner.null, input))
    else elim (parse_from reads input coltype unsigned) [
      | ok v ↦ ok (some v)
      | err e ↦ err panicked
    ]

-- The byte of the bitmap, if it has one there; without a bitmap, `unreachable!()`.
pub bitmap_byte : Option Bytes → ℕ → Result IoError (Option ℕ)
bitmap_byte none col = err panicked
bitmap_byte (some nullmap) col = ok (get_elem? nullmap (col / 8))

-- The part of `next` behind the first call's part.
pub next_param : Reads → Io Params (Option ParamValue)
next_param reads p =
    if leb p.params p.col then (ok none, p) else elim (get_elem? p.bound_types p.col) [
      | none ↦ (err panicked, p)
      | some (coltype, unsigned) ↦
          elim (next_value reads p.col coltype unsigned (get_long_data p.col p.long_data)
            (bitmap_byte p.nullmap p.col) p.input) [
              | err e ↦ (err e, p)
              | ok none ↦ (ok none, p)
              | ok (some (v, rest)) ↦ (
                ok (some (record { value = v; coltype = coltype })),
                record p { input = rest; col = p.col + 1 },
              )
            ]
    ]

-- `Iterator::next`
pub next : Reads → Io Params (Option ParamValue)
next reads = do start reads; next_param reads

-- The values that `next` gives in `n` calls that all give one.
pub collect : Reads → ℕ → Io Params (List ParamValue)
collect reads zero = pure []
collect reads (suc n) = do
  v ← next reads
  v ← or_else panicked v
  vs ← collect reads n
  pure (v ∷ vs)
