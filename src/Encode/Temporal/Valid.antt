-- ===== src/Encode/Temporal/Valid.antt =====
-- mysql/src/value/encode.rs: what the checks of dates and times leave through.
use opensrv.Common.{ℕ, ◌+◌, ◌*◌, ◌≤◌, ◌<◌, ◌≡◌, ok, arith}
use opensrv.Deps.MysqlCommon.{ℤ, pos, negsuc}
use opensrv.Encode.Temporal.{
  DateFields, ChronoDateTime, Duration, validate_mysql_date, validate_mysql_duration,
  mysql_time_duration, mysql_chrono_year, validate_chrono_datetime,
}

abbrev pub whole_year : ℤ → ℕ
whole_year (pos n) = n
whole_year (negsuc n) = 0

pub validate_mysql_date-le :
    (v : DateFields) (u : Unit {0})
    → validate_mysql_date v ≡ ok u
    → (v.year ≤ 9999)
      × (v.month ≤ 12)
      × (v.day ≤ 31)
      × (v.hour ≤ 23)
      × (v.minute ≤ 59)
      × (v.second ≤ 59)
      × (v.micros ≤ 999999)
unfolding validate_mysql_date
validate_mysql_date-le v u h = ground arith

pub mysql_time_duration-eq :
    (d h m s us : ℕ) (v : Duration)
    → mysql_time_duration d h m s us ≡ ok v
    → (v ≡ record { secs = d * (24 * 3600) + h * 3600 + m * 60 + s; subsec_micros = us })
      × (us ≤ 999999)
unfolding mysql_time_duration validate_mysql_duration
mysql_time_duration-eq d h m s us v e = ground arith

pub mysql_chrono_year-eq :
    (year : ℤ) (n : ℕ) → mysql_chrono_year year ≡ ok n → (n ≤ 9999) × (n ≡ whole_year year)
unfolding mysql_chrono_year
mysql_chrono_year-eq (pos n) m h = ground arith
mysql_chrono_year-eq (negsuc n) m h = cc

pub validate_chrono_datetime-eq :
    (v : ChronoDateTime) (n : ℕ)
    → validate_chrono_datetime v ≡ ok n
    → (n ≤ 9999) × (n ≡ whole_year v.year) × (v.nanosecond < 1000000000)
unfolding validate_chrono_datetime
validate_chrono_datetime-eq v n h = ground (arith, mysql_chrono_year-eq v.year n)
