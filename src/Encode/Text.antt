-- ===== src/Encode/Text.antt =====
-- mysql/src/value/encode.rs: values in the text protocol.
pub mod Digits
pub mod Readings
pub mod Reads
pub mod Shown
use opensrv.Common.{
  ℕ, suc, ◌*◌, ◌/◌, ◌%◌, Bool, true, false, not, ◌&&◌, ◌||◌, Option, none, some, List, [], ◌∷◌,
  ◌++◌, Bytes, flatten, ◌==◌, if◌then◌else◌, Result, ok, err, ◌>>=◌, ◌>>◌,
}
use opensrv.Deps.MysqlCommon.{ColumnType, ℤ, pos, negsuc}
use opensrv.Deps.Writes.{Writes}
use opensrv.Wire.{IoError, invalid_data}
use opensrv.Encode.{Integer, Encoded, u8, i8, u16, i16, u32, i32, u64, i64, usize, isize}
use opensrv.Encode.Temporal.{
  DateFields, ChronoDateTime, Duration, Temporal, Kind, kind, fields, time, duration, naive_date,
  naive_date_time, day_kind, moment_kind, clock_kind, other_kind, has_time, validate_mysql_date,
  validate_mysql_duration, mysql_time_duration, mysql_chrono_year, validate_chrono_datetime,
}
use opensrv.Encode.Text.Digits.{decimal, padded}

-- `{}` of a signed number
pub signed_decimal : ℤ → Bytes
signed_decimal (pos n) = decimal n
signed_decimal (negsuc n) = 0x2d ∷ decimal (suc n)

pub integer_text : Integer → Bytes
integer_text (u8 n) = decimal n
integer_text (u16 n) = decimal n
integer_text (u32 n) = decimal n
integer_text (u64 n) = decimal n
integer_text (usize n) = decimal n
integer_text (i8 z) = signed_decimal z
integer_text (i16 z) = signed_decimal z
integer_text (i32 z) = signed_decimal z
integer_text (i64 z) = signed_decimal z
integer_text (isize z) = signed_decimal z

-- `{:04}-{:02}-{:02}`
abbrev pub day_pieces : ℕ → ℕ → ℕ → List Bytes
day_pieces y m d = padded 4 y ∷ (0x2d ∷ []) ∷ padded 2 m ∷ (0x2d ∷ []) ∷ padded 2 d ∷ []

-- `{:02}:{:02}:{:02}`
abbrev pub clock_pieces : ℕ → ℕ → ℕ → List Bytes
clock_pieces h m s = padded 2 h ∷ (0x3a ∷ []) ∷ padded 2 m ∷ (0x3a ∷ []) ∷ padded 2 s ∷ []

-- `.{:06}`, if it is not zero
abbrev pub micros_pieces : ℕ → List Bytes
micros_pieces us = if us == 0 then [] else (0x2e ∷ []) ∷ padded 6 us ∷ []

pub day_text : ℕ → ℕ → ℕ → Bytes
day_text y m d = flatten (day_pieces y m d)

pub moment_text : ℕ → ℕ → ℕ → ℕ → ℕ → ℕ → ℕ → Bytes
moment_text y mo d h mi s us =
    flatten (day_pieces y mo d ++ ((0x20 ∷ []) ∷ (clock_pieces h mi s ++ micros_pieces us)))

-- A negative zero has no sign.
pub is_below_zero : Bool → Duration → Bool
is_below_zero negative v = negative && (not (v.secs == 0) || not (v.subsec_micros == 0))

pub time_text : Duration → Bool → Bytes
time_text v negative =
    (if is_below_zero negative v then 0x2d ∷ [] else [])
    ++ flatten (
        clock_pieces (v.secs / 3600) (v.secs % 3600 / 60) (v.secs % 60)
        ++ micros_pieces v.subsec_micros)

-- `Value::Date` in a DATE column has no time, and is refused if it holds one.
pub date_text_at : DateFields → Kind → Result IoError Bytes
date_text_at v day_kind =
    if has_time v then err invalid_data else ok (day_text v.year v.month v.day)
date_text_at v other = ok (moment_text v.year v.month v.day v.hour v.minute v.second v.micros)

pub write_mysql_time_text : Duration → Bool → Result IoError Bytes
write_mysql_time_text v negative = validate_mysql_duration v >> ok (time_text v negative)

pub chrono_text : ChronoDateTime → Result IoError Bytes
chrono_text v = validate_chrono_datetime v >>= λ year.
    ok (moment_text year v.month v.day v.hour v.minute v.second (v.nanosecond / 1000))

-- `to_mysql_text_with_column` of the values that have a date or a time, up to the length.
pub temporal_text : Temporal → Kind → Result IoError Bytes
temporal_text (fields v) k = validate_mysql_date v >> date_text_at v k
temporal_text (time negative d h m s us) k =
    mysql_time_duration d h m s us >>= λ v. write_mysql_time_text v negative
temporal_text (duration v) k = write_mysql_time_text v false
temporal_text (naive_date year month day) k =
    mysql_chrono_year year >>= λ year. ok (day_text year month day)
temporal_text (naive_date_time v) k = chrono_text v

module _ (writes : Writes) where
  -- `mysql_text_trivial!`, and `to_mysql_text` of byte strings
  pub string_text : Bytes → Encoded
  string_text s = ok (flatten (writes.write_lenenc_str s))

  pub temporal_text_with_column : Temporal → ColumnType → Encoded
  temporal_text_with_column v t = temporal_text v (kind t) >>= λ s. string_text s

  -- `Option<T>`
  pub option_text {ℓ} : {T : Type ℓ} → (T → Encoded) → Option T → Encoded
  option_text to_mysql_text none = ok (0xfb ∷ [])
  option_text to_mysql_text (some v) = to_mysql_text v
