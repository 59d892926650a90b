-- ===== src/Encode/Temporal/Lengths.antt =====
-- mysql/src/value/encode.rs: the length byte of a date or time, and the bytes that follow it.
use opensrv.Common.{
  ℕ, suc, ◌+◌, ◌/◌, ◌%◌, ◌*◌, ◌^◌, ◌<◌, ◌≡◌, refl, sym, Bool, true, false, List, [], ◌∷◌, ◌++◌,
  append_assoc, Bytes, length, length-append, ◌==◌, if◌then◌else◌, ok, arith,
}
use opensrv.Deps.MysqlCommon.{Reads}
use opensrv.Deps.Writes.{Writes}
use opensrv.Deps.Numbers.{Numbers}
use opensrv.Value.{contains, read_temporal, read_bytes}
use opensrv.Encode.Strings.{read_bytes-append}
use opensrv.Encode.Temporal.{
  DateFields, ChronoDateTime, Duration, date_len, time_len, stamp, date_payload, time_payload,
  chrono_payload,
}

-- The lengths that are written.
pub data DateLen : ℕ → Type 0 where
  date_0 : DateLen 0
  date_4 : DateLen 4
  date_7 : DateLen 7
  date_11 : DateLen 11

pub data TimeLen : ℕ → Type 0 where
  time_0 : TimeLen 0
  time_8 : TimeLen 8
  time_12 : TimeLen 12

pub if_DateLen : {a b : ℕ} (c : Bool) → DateLen a → DateLen b → DateLen (if c then a else b)
if_DateLen true h k = h
if_DateLen false h k = k

if_TimeLen : {a b : ℕ} (c : Bool) → TimeLen a → TimeLen b → TimeLen (if c then a else b)
if_TimeLen true h k = h
if_TimeLen false h k = k

pub date_len-DateLen : (v : DateFields) → DateLen (date_len v)
unfolding date_len
date_len-DateLen v = if_DateLen _ date_11 (if_DateLen _ date_7 (if_DateLen _ date_4 date_0))

pub time_len-TimeLen : (v : Duration) → TimeLen (time_len v)
unfolding time_len
time_len-TimeLen v = if_TimeLen _ time_0 (if_TimeLen _ time_12 time_8)

abbrev pub day_lengths : List ℕ
day_lengths = 0 ∷ 4 ∷ 7 ∷ 11 ∷ []

abbrev pub moment_lengths : List ℕ
moment_lengths = 0 ∷ 4 ∷ 7 ∷ 11 ∷ 13 ∷ []

abbrev pub clock_lengths : List ℕ
clock_lengths = 0 ∷ 8 ∷ 12 ∷ []

pub DateLen-contains :
    {n : ℕ}
    → DateLen n
    → (contains day_lengths n ≡ true) × (contains moment_lengths n ≡ true) × (n < 2 ^ 8)
unfolding contains
DateLen-contains date_0 = (refl, refl, omega arith)
DateLen-contains date_4 = (refl, refl, omega arith)
DateLen-contains date_7 = (refl, refl, omega arith)
DateLen-contains date_11 = (refl, refl, omega arith)

pub TimeLen-contains : {n : ℕ} → TimeLen n → (contains clock_lengths n ≡ true) × (n < 2 ^ 8)
unfolding contains
TimeLen-contains time_0 = (refl, omega arith)
TimeLen-contains time_8 = (refl, omega arith)
TimeLen-contains time_12 = (refl, omega arith)

module _ {reads : Reads} {writes : Writes} (numbers : Numbers reads writes) where
  -- A stamp of one of the lengths that a type accepts is read back whole.
  pub read_stamp :
      (lengths : List ℕ) (len : ℕ) (payload rest : Bytes)
      → contains lengths len ≡ true
      → len < 2 ^ 8
      → length payload ≡ len
      → read_temporal reads lengths (stamp numbers len payload ++ rest) ≡ ok (payload, rest)
  unfolding read_temporal
  read_stamp lengths len payload rest allowed byte size =
      let flat : stamp numbers len payload ++ rest ≡ numbers.write_u8 len ++ (payload ++ rest) =
        append_assoc (numbers.write_u8 len) payload rest in
      let body : read_bytes len (payload ++ rest) ≡ ok (payload, rest) =
        rw (sym size) (read_bytes-append payload rest) in
      rw (flat, numbers.read_u8_lem len (payload ++ rest) byte, allowed, body)

  abbrev year_day : DateFields → Bytes
  year_day v = numbers.write_u16 v.year ++ (v.month ∷ v.day ∷ [])

  length-year_day : (v : DateFields) → length (year_day v) ≡ 4
  length-year_day v = omega (
    arith,
    length-append (numbers.write_u16 v.year) (v.month ∷ v.day ∷ []),
    numbers.length-write_u16 v.year,
  )

  pub length-date_payload :
      {n : ℕ} → DateLen n → (v : DateFields) → length (date_payload numbers n v) ≡ n
  unfolding date_payload
  length-date_payload date_0 v = refl
  length-date_payload date_4 v = omega (arith, length-append (year_day v) [], length-year_day v)
  length-date_payload date_7 v =
      omega
        (arith, length-append (year_day v) (v.hour ∷ v.minute ∷ v.second ∷ []), length-year_day v)
  length-date_payload date_11 v = omega (
    arith,
    length-append (year_day v) (v.hour ∷ v.minute ∷ v.second ∷ numbers.write_u32 v.micros),
    length-year_day v,
    numbers.length-write_u32 v.micros,
  )

  pub after_u8 : (n : ℕ) (bytes : Bytes) → length (numbers.write_u8 n ++ bytes) ≡ suc (length bytes)
  after_u8 n bytes =
      omega (arith, length-append (numbers.write_u8 n) bytes, numbers.length-write_u8 n)

  pub after_u16 : (n : ℕ) (bytes : Bytes) → length (numbers.write_u16 n ++ bytes) ≡ 2 + length bytes
  after_u16 n bytes =
      omega (arith, length-append (numbers.write_u16 n) bytes, numbers.length-write_u16 n)

  after_u32 : (n : ℕ) (bytes : Bytes) → length (numbers.write_u32 n ++ bytes) ≡ 4 + length bytes
  after_u32 n bytes =
      omega (arith, length-append (numbers.write_u32 n) bytes, numbers.length-write_u32 n)

  pub length-time_payload :
      {n : ℕ}
      → TimeLen n
      → (v : Duration) (negative : Bool) → length (time_payload numbers n v negative) ≡ n
  unfolding time_payload
  length-time_payload time_0 v negative = refl
  length-time_payload time_8 v negative =
      rw
        (
          after_u8 (if negative then 1 else 0) _,
          after_u32 (v.secs / (24 * 3600)) _,
          after_u8 (v.secs % (24 * 3600) / 3600) _,
          after_u8 (v.secs % 3600 / 60) _,
          after_u8 (v.secs % 60) [],
        )
        (omega arith)
  length-time_payload time_12 v negative =
      rw
        (
          after_u8 (if negative then 1 else 0) _,
          after_u32 (v.secs / (24 * 3600)) _,
          after_u8 (v.secs % (24 * 3600) / 3600) _,
          after_u8 (v.secs % 3600 / 60) _,
          after_u8 (v.secs % 60) (numbers.write_u32 v.subsec_micros),
          numbers.length-write_u32 v.subsec_micros,
        )
        (omega arith)

  pub length-chrono_payload :
      (year : ℕ) (v : ChronoDateTime)
      → length (chrono_payload numbers year v) ≡ (if v.nanosecond / 1000 == 0 then 7 else 11)
  unfolding chrono_payload
  length-chrono_payload year v =
      rw
        (
          after_u16 year _,
          after_u8 v.month _,
          after_u8 v.day _,
          after_u8 v.hour _,
          after_u8 v.minute _,
          after_u8 v.second _,
        )
        (tail_length (v.nanosecond / 1000 == 0))
    where
      tail_length :
          (whole : Bool)
          → 2
              + suc (
                  suc (
                    suc (
                      suc (
                        suc (
                          length
                            (if whole then [] else numbers.write_u32 (v.nanosecond / 1000)))))))
            ≡ (if whole then 7 else 11)
      tail_length true = refl
      tail_length false = omega (arith, numbers.length-write_u32 (v.nanosecond / 1000))
