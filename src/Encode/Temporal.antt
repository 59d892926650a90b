-- ===== src/Encode/Temporal.antt =====
-- mysql/src/value/encode.rs: dates and times in the binary protocol.
pub mod Lengths
pub mod Stamps
pub mod Valid
use opensrv.Common.{
  ℕ, ◌+◌, ◌-◌, ◌*◌, ◌/◌, ◌%◌, Bool, true, false, not, ◌&&◌, ◌||◌, List, [], ◌∷◌, ◌++◌, Bytes, ltb,
  leb, ◌==◌, if◌then◌else◌, Result, ok, err, ◌>>=◌, ◌>>◌,
}
use opensrv.Deps.MysqlCommon.{ColumnType, ℤ, pos, negsuc, Reads}
use opensrv.Deps.Writes.{Writes}
use opensrv.Deps.Numbers.{Numbers}
use opensrv.Wire.{IoError, invalid_data, usize_mod}
use opensrv.Encode.{Encoded}

-- The fields of `Value::Date` of mysql_common.
pub record DateFields : Type 0 where
  pub year : ℕ
  pub month : ℕ
  pub day : ℕ
  pub hour : ℕ
  pub minute : ℕ
  pub second : ℕ
  pub micros : ℕ

-- `NaiveDateTime` of the crate chrono, by its accessors.
pub record ChronoDateTime : Type 0 where
  pub year : ℤ
  pub month : ℕ
  pub day : ℕ
  pub hour : ℕ
  pub minute : ℕ
  pub second : ℕ
  pub nanosecond : ℕ

-- `std::time::Duration`, by `as_secs` and `subsec_micros`
pub record Duration : Type 0 where
  pub secs : ℕ
  pub subsec_micros : ℕ

pub data Temporal : Type 0 where
  fields : DateFields → Temporal
  time : Bool → ℕ → ℕ → ℕ → ℕ → ℕ → Temporal
  duration : Duration → Temporal
  naive_date : ℤ → ℕ → ℕ → Temporal
  naive_date_time : ChronoDateTime → Temporal

-- The arms of `match c.coltype` for dates and times.
pub data Kind : Type 0 where
  day_kind moment_kind clock_kind other_kind : Kind

pub kind : ColumnType → Kind
kind ColumnType.date = day_kind
kind ColumnType.datetime = moment_kind
kind ColumnType.timestamp = moment_kind
kind ColumnType.time = clock_kind
kind _ = other_kind

pub validate_mysql_date : DateFields → Result IoError (Unit {0})
validate_mysql_date v =
    if ltb 9999 v.year
      || ltb 12 v.month
      || ltb 31 v.day
      || ltb 23 v.hour
      || ltb 59 v.minute
      || ltb 59 v.second
      || ltb 999999 v.micros
    then err invalid_data
    else ok tt

pub date_len : DateFields → ℕ
date_len v =
    if not (v.micros == 0)
    then 11
    else if not (v.hour == 0) || not (v.minute == 0) || not (v.second == 0)
    then 7
    else if not (v.year == 0) || not (v.month == 0) || not (v.day == 0)
    then 4
    else 0

pub has_time : DateFields → Bool
has_time v = not (v.hour == 0) || not (v.minute == 0) || not (v.second == 0) || not (v.micros == 0)

abbrev pub mysql_time_max_seconds : ℕ
mysql_time_max_seconds = 838 * 3600 + 59 * 60 + 59

pub validate_mysql_duration : Duration → Result IoError (Unit {0})
validate_mysql_duration v =
    if ltb mysql_time_max_seconds v.secs
      || ((v.secs == mysql_time_max_seconds) && not (v.subsec_micros == 0))
    then err invalid_data
    else ok tt

pub mysql_time_duration : ℕ → ℕ → ℕ → ℕ → ℕ → Result IoError Duration
mysql_time_duration d h m s us =
    if ltb 23 h || ltb 59 m || ltb 59 s || ltb 999999 us
    then err invalid_data
    else if leb usize_mod (d * (24 * 3600) + h * 3600 + m * 60 + s)
    then err invalid_data
    else (let whole : Duration = record {
      secs = d * (24 * 3600) + h * 3600 + m * 60 + s;
      subsec_micros = us;
    } in
        validate_mysql_duration whole >> ok whole)

pub mysql_chrono_year : ℤ → Result IoError ℕ
mysql_chrono_year (pos n) = if ltb 9999 n then err invalid_data else ok n
mysql_chrono_year (negsuc n) = err invalid_data

pub validate_chrono_datetime : ChronoDateTime → Result IoError ℕ
validate_chrono_datetime v = mysql_chrono_year v.year >>= λ year.
    if leb 1000000000 v.nanosecond then err invalid_data else ok year

pub time_len : Duration → ℕ
time_len v =
    if (v.secs == 0) && (v.subsec_micros == 0)
    then 0
    else if not (v.subsec_micros == 0)
    then 12
    else 8

module _ {reads : Reads} {writes : Writes} (numbers : Numbers reads writes) where
  -- The length of what follows, and that.
  abbrev pub stamp : ℕ → Bytes → Bytes
  stamp len payload = numbers.write_u8 len ++ payload

  pub date_payload : ℕ → DateFields → Bytes
  date_payload len v =
      (if leb 4 len then numbers.write_u16 v.year ++ (v.month ∷ v.day ∷ []) else [])
      ++ ((if leb 7 len then v.hour ∷ v.minute ∷ v.second ∷ [] else [])
          ++ (if len == 11 then numbers.write_u32 v.micros else []))

  pub date_bytes : DateFields → Bytes
  date_bytes v = stamp (date_len v) (date_payload (date_len v) v)

  -- `Value::Date`, once its fields are valid
  pub date_at : DateFields → Kind → Encoded
  date_at v day_kind = if has_time v then err invalid_data else ok (date_bytes v)
  date_at v moment_kind = ok (date_bytes v)
  date_at v clock_kind = err invalid_data
  date_at v other_kind = err invalid_data

  pub value_date : DateFields → ColumnType → Encoded
  value_date v t = validate_mysql_date v >> date_at v (kind t)

  pub time_payload : ℕ → Duration → Bool → Bytes
  time_payload len v negative =
      if len == 0
      then []
      else numbers.write_u8 (if negative then 1 else 0)
        ++ (numbers.write_u32 (v.secs / (24 * 3600))
            ++ (numbers.write_u8 (v.secs % (24 * 3600) / 3600)
                ++ (numbers.write_u8 (v.secs % 3600 / 60)
                    ++ (numbers.write_u8 (v.secs % 60)
                        ++ (if len == 12 then numbers.write_u32 v.subsec_micros else [])))))

  pub time_at : Duration → Bool → Kind → Encoded
  time_at v negative clock_kind =
      validate_mysql_duration v >> ok (stamp (time_len v) (time_payload (time_len v) v negative))
  time_at v negative day_kind = err invalid_data
  time_at v negative moment_kind = err invalid_data
  time_at v negative other_kind = err invalid_data

  pub write_mysql_time_bin : ColumnType → Duration → Bool → Encoded
  write_mysql_time_bin t v negative = time_at v negative (kind t)

  -- `Value::Time`
  pub value_time : Bool → ℕ → ℕ → ℕ → ℕ → ℕ → ColumnType → Encoded
  value_time negative d h m s us t =
      mysql_time_duration d h m s us >>= λ v. write_mysql_time_bin t v negative

  -- `NaiveDate`
  pub chrono_date : ℤ → ℕ → ℕ → Kind → Encoded
  chrono_date year month day day_kind = mysql_chrono_year year >>= λ year.
      ok (stamp 4 (numbers.write_u16 year ++ (numbers.write_u8 month ++ numbers.write_u8 day)))
  chrono_date year month day moment_kind = err invalid_data
  chrono_date year month day clock_kind = err invalid_data
  chrono_date year month day other_kind = err invalid_data

  pub chrono_payload : ℕ → ChronoDateTime → Bytes
  chrono_payload year v =
      numbers.write_u16 year
      ++ (numbers.write_u8 v.month
          ++ (numbers.write_u8 v.day
              ++ (numbers.write_u8 v.hour
                  ++ (numbers.write_u8 v.minute
                      ++ (numbers.write_u8 v.second
                          ++ (if v.nanosecond / 1000 == 0
                              then []
                              else numbers.write_u32 (v.nanosecond / 1000)))))))

  pub chrono_stamp : ChronoDateTime → Encoded
  chrono_stamp v = validate_chrono_datetime v >>= λ year.
      ok (stamp (if v.nanosecond / 1000 == 0 then 7 else 11) (chrono_payload year v))

  -- `NaiveDateTime`
  pub chrono_datetime : ChronoDateTime → Kind → Encoded
  chrono_datetime v moment_kind = chrono_stamp v
  chrono_datetime v day_kind = err invalid_data
  chrono_datetime v clock_kind = err invalid_data
  chrono_datetime v other_kind = err invalid_data

  -- The values that have a date or a time.
  pub temporal_bin : Temporal → ColumnType → Encoded
  temporal_bin (fields v) t = value_date v t
  temporal_bin (time negative d h m s us) t = value_time negative d h m s us t
  temporal_bin (duration v) t = write_mysql_time_bin t v false
  temporal_bin (naive_date year month day) t = chrono_date year month day (kind t)
  temporal_bin (naive_date_time v) t = chrono_datetime v (kind t)
