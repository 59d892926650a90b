-- ===== src/Charset.antt =====
-- lib.rs: `validate_collation`, and the equality of byte strings.
use opensrv.Common.{
  ℕ, Bool, true, false, ◌&&◌, ◌||◌, Option, none, some, List, [], ◌∷◌, Bytes, length, leb, ◌==◌,
  not, if◌then◌else◌, Result, ok, err, ◌>>◌,
}
use opensrv.ErrorCodes.{ErrorKind, er_unknown_character_set, er_unknown_collation}
use opensrv.Wire.{IoError, invalid_input}
use opensrv.Writers.{Column, ColumnMetadata}

abbrev utf8mb3 : Bytes
utf8mb3 = 0x75 ∷ 0x74 ∷ 0x66 ∷ 0x38 ∷ 0x6d ∷ 0x62 ∷ 0x33 ∷ []

abbrev utf8mb4 : Bytes
utf8mb4 = 0x75 ∷ 0x74 ∷ 0x66 ∷ 0x38 ∷ 0x6d ∷ 0x62 ∷ 0x34 ∷ []

-- The equality of two byte strings.
unfoldable pub same : Bytes → Bytes → Bool
same [] [] = true
same (x ∷ xs) (y ∷ ys) = (x == y) && same xs ys
same _ _ = false

-- The character set of a collation of mysql_common, if it is known.
abbrev pub Charsets : Type 0
Charsets = ℕ → Option Bytes

pub check_charset : Option Bytes → Result ErrorKind (Unit {0})
check_charset none = err er_unknown_collation
check_charset (some charset) =
    if same charset utf8mb3 || same charset utf8mb4 then ok tt else err er_unknown_character_set

pub validate_collation : Charsets → ℕ → Result ErrorKind (Unit {0})
validate_collation charsets id = check_charset (charsets id)

-- `io::ErrorKind::InvalidInput` in place of the error packet.
pub as_input_error : Result ErrorKind (Unit {0}) → Result IoError (Unit {0})
as_input_error (ok _) = ok tt
as_input_error (err kind) = err invalid_input

-- 63 is the collation of binary data.
pub explicit_collation : Charsets → Option ℕ → Result IoError (Unit {0})
explicit_collation charsets none = ok tt
explicit_collation charsets (some id) =
    if id == 63 then ok tt else as_input_error (validate_collation charsets id)

-- `ColumnMetadata::validate`
pub validate_column : Charsets → ColumnMetadata → Result IoError (Unit {0})
validate_column charsets metadata = do
  explicit_collation charsets metadata.collation
  if leb metadata.decimals 31 then ok tt else err invalid_input

pub validate_all : Charsets → List ColumnMetadata → Result IoError (Unit {0})
validate_all charsets [] = ok tt
validate_all charsets (m ∷ ms) = do validate_column charsets m; validate_all charsets ms

-- `validate_metadata` of resultset.rs
pub validate_metadata : Charsets → List Column → List ColumnMetadata → Result IoError (Unit {0})
validate_metadata charsets columns metadata =
    if not (length columns == length metadata)
    then err invalid_input
    else validate_all charsets metadata
