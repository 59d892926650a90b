-- ===== src/Encode/Text/Shown.antt =====
-- mysql/src/value/encode.rs: the text of a date or time, against how a client reads it.
use opensrv.Common.{
  ℕ, ◌+◌, ◌*◌, ◌/◌, ◌^◌, ◌≤◌, ◌<◌, ◌≡◌, refl, Bool, true, false, ◌&&◌, ltb, some, [], Bytes,
  Bool-cases, inl, inr, Result, ok, err, ◌>>=◌, arith,
}
use opensrv.Wire.{IoError}
use opensrv.Encode.Temporal.{
  DateFields, Duration, Temporal, Kind, fields, time, duration, naive_date, naive_date_time,
  day_kind, has_time, validate_mysql_date, validate_mysql_duration, mysql_time_duration,
  mysql_chrono_year, validate_chrono_datetime,
}
use opensrv.Encode.Temporal.Valid.{
  whole_year, validate_mysql_date-le, mysql_time_duration-eq, mysql_chrono_year-eq,
  validate_chrono_datetime-eq,
}
use opensrv.Encode.Text.{
  is_below_zero, day_text, moment_text, time_text, date_text_at, write_mysql_time_text, chrono_text,
  temporal_text,
}
use opensrv.Encode.Text.Readings.{
  Reader, Reading, day, moment, clock, read_day, read_moment, read_clock,
}
use opensrv.Encode.Text.Reads.{read_day-text, read_moment-text, read_clock-text}

-- A time is below zero where it has a sign and is not zero.
sign_lem :
    (negative : Bool) (v : Duration)
    → is_below_zero negative v ≡ (negative && ltb 0 (v.secs * 10 ^ 6 + v.subsec_micros))
unfolding is_below_zero
sign_lem false v = refl
sign_lem true v = ground arith

abbrev signed_time : Bool → Duration → Reading
signed_time negative v =
    clock (negative && ltb 0 (v.secs * 10 ^ 6 + v.subsec_micros)) v.secs v.subsec_micros

-- What a value means in a column: the fields of its date and time, or its sign, its seconds and
-- its microseconds.
pub meaning : Temporal → Kind → Reading
meaning (fields v) day_kind = day v.year v.month v.day
meaning (fields v) other = moment v.year v.month v.day v.hour v.minute v.second v.micros
meaning (time negative d h m s us) k =
    signed_time negative
      (record { secs = d * (24 * 3600) + h * 3600 + m * 60 + s; subsec_micros = us })
meaning (duration v) k = signed_time false v
meaning (naive_date year m d) k = day (whole_year year) m d
meaning (naive_date_time v) k =
    moment (whole_year v.year) v.month v.day v.hour v.minute v.second (v.nanosecond / 1000)

-- How a client reads such a meaning.
pub reader : Reading → Reader Reading
reader (day y m d) = read_day
reader (moment y mo d h mi s us) = read_moment
reader (clock negative secs us) = read_clock

-- What chrono and std promise of their fields; the fields of a `Value` may be anything.
abbrev pub InRange : Temporal → Type 0
InRange (fields v) = Unit {0}
InRange (time negative d h m s us) = Unit {0}
InRange (duration v) = v.subsec_micros < 10 ^ 6
InRange (naive_date year m d) = (m ≤ 12) × (d ≤ 31)
InRange (naive_date_time v) =
    (v.month ≤ 12) × (v.day ≤ 31) × (v.hour ≤ 23) × (v.minute ≤ 59) × (v.second ≤ 59)

-- A text that is read as a meaning, to its end, or a refusal.
pub data Shown (r : Reading) : Result IoError Bytes → Type 0 where
  shown : {s : Bytes} → reader r s ≡ some (r, []) → Shown r (ok s)
  refused : {e : IoError} → Shown r (err e)

after_check :
    {A : Type 0} {r : Reading} (check : Result IoError A) (f : A → Result IoError Bytes)
    → ((a : A) → check ≡ ok a → Shown r (f a))
    → Shown r (check >>= f)
after_check (ok a) f h = h a refl
after_check (err e) f h = refused

day_text-Shown : (y m d : ℕ) → y ≤ 9999 → m ≤ 12 → d ≤ 31 → Shown (day y m d) (ok (day_text y m d))
unfolding reader
day_text-Shown y m d hy hm hd =
    shown (read_day-text y m d (omega arith) (omega arith) (omega arith))

moment_text-Shown :
    (y mo d h mi s us : ℕ)
    → y ≤ 9999
    → mo ≤ 12
    → d ≤ 31
    → h ≤ 23
    → mi ≤ 59
    → s ≤ 59
    → us ≤ 999999
    → Shown (moment y mo d h mi s us) (ok (moment_text y mo d h mi s us))
unfolding reader
moment_text-Shown y mo d h mi s us hy hmo hd hh hmi hs hus = shown (
    read_moment-text y mo d h mi s us (omega arith) (omega arith) (omega arith) (omega arith)
      (omega arith) (omega arith) (omega arith))

date_text_at-Shown :
    (v : DateFields) (k : Kind) (u : Unit {0})
    → validate_mysql_date v ≡ ok u
    → Shown (meaning (fields v) k) (date_text_at v k)
unfolding meaning reader date_text_at
date_text_at-Shown v day_kind u h =
    let (y_small, m_small, d_small, h_small, mi_small, s_small, us_small) =
      validate_mysql_date-le v u h in
    elim (Bool-cases (has_time v)) [
      | inl timed ↦ rw timed refused
      | inr untimed ↦ rw untimed (day_text-Shown v.year v.month v.day y_small m_small d_small)
    ]
date_text_at-Shown v other u h =
    let (y_small, m_small, d_small, h_small, mi_small, s_small, us_small) =
      validate_mysql_date-le v u h in
    moment_text-Shown v.year v.month v.day v.hour v.minute v.second v.micros y_small m_small d_small
      h_small mi_small s_small us_small

write_mysql_time_text-Shown :
    (v : Duration) (negative : Bool)
    → v.subsec_micros < 10 ^ 6
    → Shown (signed_time negative v) (write_mysql_time_text v negative)
unfolding write_mysql_time_text reader
write_mysql_time_text-Shown v negative h =
    after_check (validate_mysql_duration v) (λ _. ok (time_text v negative))
      (λ _ _. rw (← sign_lem negative v) (shown (read_clock-text v negative h)))

-- The text of a date or time of any of the types that can be sent is read back, to its end, as
-- what the value means in its column: its fields, or its sign and its time; or the value is
-- refused. A `Value` may hold any fields; a value of chrono or std holds what those promise.
pub temporal_text-Shown :
    (v : Temporal) (k : Kind) → InRange v → Shown (meaning v k) (temporal_text v k)
unfolding temporal_text meaning
temporal_text-Shown (fields v) k r =
    after_check (validate_mysql_date v) (λ _. date_text_at v k) (date_text_at-Shown v k)
temporal_text-Shown (time negative d h m s us) k r =
    after_check (mysql_time_duration d h m s us) (λ v. write_mysql_time_text v negative)
      (λ v e.
        let (same, small) = mysql_time_duration-eq d h m s us v e in
        rw same (write_mysql_time_text-Shown _ negative (omega arith)))
temporal_text-Shown (duration v) k r = write_mysql_time_text-Shown v false r
temporal_text-Shown (naive_date year m d) k r =
    after_check (mysql_chrono_year year) (λ year. ok (day_text year m d))
      (λ n e.
        let (small, same) = mysql_chrono_year-eq year n e in
        rw (← same) (day_text-Shown n m d small r.0 r.1))
temporal_text-Shown (naive_date_time v) k r =
    unfold chrono_text in
    after_check (validate_chrono_datetime v)
      (λ year. ok (moment_text year v.month v.day v.hour v.minute v.second (v.nanosecond / 1000)))
      (λ n e.
        let (small, same, nanos) = validate_chrono_datetime-eq v n e in
        rw (← same) (
          moment_text-Shown n v.month v.day v.hour v.minute v.second (v.nanosecond / 1000) small r.0
            r.1 r.2 r.3 r.4 (omega arith)))
