-- ===== src/Encode/Temporal/Stamps.antt =====
-- mysql/src/value/encode.rs: a date or time is read back as one value.
use opensrv.Common.{
  ℕ, ◌/◌, ◌≡◌, inl, inr, Bool, false, Bool-cases, ◌++◌, Bytes, length, ◌==◌, Result, ok, err, ◌>>=◌,
  arith,
}
use opensrv.Deps.MysqlCommon.{ColumnType, ℤ, Reads}
use opensrv.Deps.Writes.{Writes}
use opensrv.Deps.Numbers.{Numbers}
use opensrv.Wire.{IoError}
use opensrv.Value.{ValueInner, read_temporal, parse_from}
use opensrv.Encode.{Encoded}
use opensrv.Encode.Temporal.{
  DateFields, ChronoDateTime, Duration, Temporal, fields, time, duration, naive_date,
  naive_date_time, Kind, day_kind, moment_kind, clock_kind, other_kind, kind, validate_mysql_date,
  has_time, validate_mysql_duration, mysql_time_duration, mysql_chrono_year,
  validate_chrono_datetime, stamp, date_bytes, date_at, value_date, time_at, write_mysql_time_bin,
  value_time, chrono_date, chrono_stamp, chrono_datetime, temporal_bin,
}
use opensrv.Encode.Temporal.Lengths.{
  DateLen, date_4, date_7, date_11, TimeLen, if_DateLen, date_len-DateLen, time_len-TimeLen,
  day_lengths, moment_lengths, clock_lengths, DateLen-contains, TimeLen-contains, read_stamp,
  length-date_payload, after_u8, after_u16, length-time_payload, length-chrono_payload,
}

module _ {reads : Reads} {writes : Writes} (numbers : Numbers reads writes) where
  data KeptAt : Kind → Encoded → Type 0 where
    kept_day :
        {written : Bytes} (payload : Bytes)
        → ((rest : Bytes) → read_temporal reads day_lengths (written ++ rest) ≡ ok (payload, rest))
        → KeptAt day_kind (ok written)
    kept_moment :
        {written : Bytes} (payload : Bytes)
        → ((rest : Bytes)
            → read_temporal reads moment_lengths (written ++ rest) ≡ ok (payload, rest))
        → KeptAt moment_kind (ok written)
    kept_clock :
        {written : Bytes} (payload : Bytes)
        → ((rest : Bytes)
            → read_temporal reads clock_lengths (written ++ rest) ≡ ok (payload, rest))
        → KeptAt clock_kind (ok written)
    refused_at : {k : Kind} {e : IoError} → KeptAt k (err e)

  after_check :
      {A : Type 0} {k : Kind} (r : Result IoError A) (f : A → Encoded)
      → ((a : A) → KeptAt k (f a))
      → KeptAt k (r >>= f)
  after_check (ok a) f h = h a
  after_check (err e) f h = refused_at

  stamp_day :
      {n : ℕ} (payload : Bytes)
      → DateLen n
      → length payload ≡ n
      → KeptAt day_kind (ok (stamp numbers n payload))
  stamp_day payload len size =
      let (allowed, _, byte) = DateLen-contains len in
      kept_day payload (λ rest. (read_stamp numbers) day_lengths _ payload rest allowed byte size)

  stamp_moment :
      {n : ℕ} (payload : Bytes)
      → DateLen n
      → length payload ≡ n
      → KeptAt moment_kind (ok (stamp numbers n payload))
  stamp_moment payload len size =
      let (_, allowed, byte) = DateLen-contains len in
      kept_moment payload
        (λ rest. (read_stamp numbers) moment_lengths _ payload rest allowed byte size)

  stamp_clock :
      {n : ℕ} (payload : Bytes)
      → TimeLen n
      → length payload ≡ n
      → KeptAt clock_kind (ok (stamp numbers n payload))
  stamp_clock payload len size =
      let (allowed, byte) = TimeLen-contains len in
      kept_clock payload
        (λ rest. (read_stamp numbers) clock_lengths _ payload rest allowed byte size)

  date_at-KeptAt : (v : DateFields) (k : Kind) → KeptAt k (date_at numbers v k)
  unfolding date_at date_bytes
  date_at-KeptAt v day_kind = elim (Bool-cases (has_time v)) [
    | inl e ↦ rw e refused_at
    | inr e ↦
        rw e
          (stamp_day _ (date_len-DateLen v) ((length-date_payload numbers) (date_len-DateLen v) v))
  ]
  date_at-KeptAt v moment_kind =
      stamp_moment _ (date_len-DateLen v) ((length-date_payload numbers) (date_len-DateLen v) v)
  date_at-KeptAt v clock_kind = refused_at
  date_at-KeptAt v other_kind = refused_at

  time_at-KeptAt :
      (v : Duration) (negative : Bool) (k : Kind) → KeptAt k (time_at numbers v negative k)
  unfolding time_at
  time_at-KeptAt v negative clock_kind = after_check (validate_mysql_duration v) _ (λ _.
      stamp_clock _ (time_len-TimeLen v)
        ((length-time_payload numbers) (time_len-TimeLen v) v negative))
  time_at-KeptAt v negative day_kind = refused_at
  time_at-KeptAt v negative moment_kind = refused_at
  time_at-KeptAt v negative other_kind = refused_at

  chrono_date-KeptAt :
      (year : ℤ) (month day : ℕ) (k : Kind) → KeptAt k (chrono_date numbers year month day k)
  unfolding chrono_date
  chrono_date-KeptAt year month day day_kind = after_check (mysql_chrono_year year) _ λ year.
      stamp_day _ date_4 (
        rw ((after_u16 numbers) year _, (after_u8 numbers) month _)
          (omega (arith, numbers.length-write_u8 day)))
  chrono_date-KeptAt year month day moment_kind = refused_at
  chrono_date-KeptAt year month day clock_kind = refused_at
  chrono_date-KeptAt year month day other_kind = refused_at

  chrono_datetime-KeptAt : (v : ChronoDateTime) (k : Kind) → KeptAt k (chrono_datetime numbers v k)
  unfolding chrono_datetime chrono_stamp
  chrono_datetime-KeptAt v moment_kind = after_check (validate_chrono_datetime v) _ λ year.
      stamp_moment _ (if_DateLen (v.nanosecond / 1000 == 0) date_7 date_11)
        ((length-chrono_payload numbers) year v)
  chrono_datetime-KeptAt v day_kind = refused_at
  chrono_datetime-KeptAt v clock_kind = refused_at
  chrono_datetime-KeptAt v other_kind = refused_at

  temporal_bin-KeptAt : (v : Temporal) (t : ColumnType) → KeptAt (kind t) (temporal_bin numbers v t)
  unfolding temporal_bin value_date value_time write_mysql_time_bin
  temporal_bin-KeptAt (fields v) t =
      after_check (validate_mysql_date v) _ (λ _. date_at-KeptAt v (kind t))
  temporal_bin-KeptAt (time negative d h m s us) t =
      after_check (mysql_time_duration d h m s us) _ (λ v. time_at-KeptAt v negative (kind t))
  temporal_bin-KeptAt (duration v) t = time_at-KeptAt v false (kind t)
  temporal_bin-KeptAt (naive_date year month day) t = chrono_date-KeptAt year month day (kind t)
  temporal_bin-KeptAt (naive_date_time v) t = chrono_datetime-KeptAt v (kind t)

  -- What `parse_from` gives for a column of a date or a time.
  pub temporal : ColumnType → Bytes → ValueInner
  temporal ColumnType.date payload = ValueInner.date payload
  temporal ColumnType.time payload = ValueInner.time payload
  temporal _ payload = ValueInner.datetime payload

  -- An encoding is an error, or a stamp that `parse_from` takes as one value, whatever follows.
  pub data Kept (t : ColumnType) (unsigned : Bool) : Encoded → Type 0 where
    kept :
        {written : Bytes} (payload : Bytes)
        → ((rest : Bytes)
            → parse_from reads (written ++ rest) t unsigned ≡ ok (temporal t payload, rest))
        → Kept t unsigned (ok written)
    refused : {e : IoError} → Kept t unsigned (err e)

  to_Kept : (t : ColumnType) (unsigned : Bool) (r : Encoded) → KeptAt (kind t) r → Kept t unsigned r
  unfolding kind temporal parse_from
  to_Kept ColumnType.date unsigned _ (kept_day payload h) = kept payload (λ rest. rw (h rest))
  to_Kept ColumnType.datetime unsigned _ (kept_moment payload h) =
      kept payload (λ rest. rw (h rest))
  to_Kept ColumnType.timestamp unsigned _ (kept_moment payload h) =
      kept payload (λ rest. rw (h rest))
  to_Kept ColumnType.time unsigned _ (kept_clock payload h) = kept payload (λ rest. rw (h rest))
  to_Kept ColumnType.date unsigned _ refused_at = refused
  to_Kept ColumnType.datetime unsigned _ refused_at = refused
  to_Kept ColumnType.timestamp unsigned _ refused_at = refused
  to_Kept ColumnType.time unsigned _ refused_at = refused
  to_Kept ColumnType.string unsigned _ refused_at = refused
  to_Kept ColumnType.var_string unsigned _ refused_at = refused
  to_Kept ColumnType.blob unsigned _ refused_at = refused
  to_Kept ColumnType.tiny_blob unsigned _ refused_at = refused
  to_Kept ColumnType.medium_blob unsigned _ refused_at = refused
  to_Kept ColumnType.long_blob unsigned _ refused_at = refused
  to_Kept ColumnType.set unsigned _ refused_at = refused
  to_Kept ColumnType.enum unsigned _ refused_at = refused
  to_Kept ColumnType.decimal unsigned _ refused_at = refused
  to_Kept ColumnType.varchar unsigned _ refused_at = refused
  to_Kept ColumnType.bit unsigned _ refused_at = refused
  to_Kept ColumnType.newdecimal unsigned _ refused_at = refused
  to_Kept ColumnType.geometry unsigned _ refused_at = refused
  to_Kept ColumnType.json unsigned _ refused_at = refused
  to_Kept ColumnType.tiny unsigned _ refused_at = refused
  to_Kept ColumnType.short unsigned _ refused_at = refused
  to_Kept ColumnType.year unsigned _ refused_at = refused
  to_Kept ColumnType.long unsigned _ refused_at = refused
  to_Kept ColumnType.int24 unsigned _ refused_at = refused
  to_Kept ColumnType.longlong unsigned _ refused_at = refused
  to_Kept ColumnType.float unsigned _ refused_at = refused
  to_Kept ColumnType.double unsigned _ refused_at = refused
  to_Kept ColumnType.null unsigned _ refused_at = refused
  to_Kept (ColumnType.unnamed n) unsigned _ refused_at = refused

  -- A date or time of any of the types that can be sent, for any column, is refused or is written as
  -- bytes that `parse_from` takes as one value of the column's type, whatever bytes follow.
  pub temporal_bin-Kept :
      (v : Temporal) (t : ColumnType) (unsigned : Bool) → Kept t unsigned (temporal_bin numbers v t)
  temporal_bin-Kept v t unsigned = to_Kept t unsigned _ (temporal_bin-KeptAt v t)
