-- ===== src/Encode/Text/Reads.antt =====
-- mysql/src/value/encode.rs: what a value in the text protocol stands for.
use opensrv.Common.{
  ℕ, suc, ◌+◌, ◌-◌, ◌*◌, ◌/◌, ◌%◌, ◌^◌, ◌<◌, ◌≡◌, refl, sym, ap, ◌∙◌, Bool, true, false, some, [],
  ◌∷◌, ◌++◌, Bytes, length, flatten, ◌==◌, Bool-cases, inl, inr, arith,
}
use opensrv.Encode.Text.Digits.{
  padded, power, is_digit, digits_value, digits_value-padded, length-padded, le-length-padded,
}
use opensrv.Encode.Temporal.{Duration}
use opensrv.Encode.Text.{
  clock_pieces, is_below_zero, day_text, moment_text, time_text, micros_pieces,
}
use opensrv.Encode.Text.Readings.{
  number, digits, skip, fraction, day, moment, clock, read_day, read_moment, read_hours, read_clock,
}

number-digits :
    (acc m : ℕ) (xs rest : Bytes)
    → digits_value acc xs ≡ some m
    → number (length xs) acc (xs ++ rest) ≡ some (m, rest)
unfolding number digits_value
number-digits acc m [] rest h = ground arith
number-digits acc m (x ∷ xs) rest h =
    ground (arith, number-digits (acc * 10 + (x - 0x30)) m xs rest)

number-padded :
    (width n : ℕ) (rest : Bytes)
    → n < 10 * power width
    → number (suc width) 0 (padded (suc width) n ++ rest) ≡ some (n, rest)
number-padded width n rest h =
    ap (λ w. number w 0 (padded (suc width) n ++ rest)) (sym (length-padded width n h))
    ∙ number-digits 0 n (padded (suc width) n) rest (digits_value-padded (suc width) n)

digits_stop :
    (acc m c : ℕ) (xs rest : Bytes)
    → is_digit c ≡ false
    → digits_value acc xs ≡ some m
    → digits acc (xs ++ c ∷ rest) ≡ some (m, c ∷ rest)
unfolding digits digits_value
digits_stop acc m c [] rest stop h = ground arith
digits_stop acc m c (x ∷ xs) rest stop h =
    ground (arith, digits_stop (acc * 10 + (x - 0x30)) m c xs rest)

fraction-micros : (us : ℕ) → us < 10 ^ 6 → fraction (flatten (micros_pieces us)) ≡ some (us, [])
unfolding fraction
fraction-micros us h = elim (Bool-cases (us == 0)) [
  | inl none_left ↦ ground arith
  | inr some_left ↦ rw some_left (number-padded 5 us [] (omega arith))
]

pub read_day-text :
    (y m d : ℕ)
    → y < 10 ^ 4
    → m < 10 ^ 2
    → d < 10 ^ 2
    → read_day (day_text y m d) ≡ some (day y m d, [])
unfolding read_day day_text skip
read_day-text y m d hy hm hd =
    let after_month : Bytes = 0x2d ∷ (padded 2 d ++ []) in
    let after_year : Bytes = 0x2d ∷ (padded 2 m ++ after_month) in
    ground (
      arith,
      number-padded 3 y after_year (omega arith),
      number-padded 1 m after_month (omega arith),
      number-padded 1 d [] (omega arith),
    )

pub read_moment-text :
    (y mo d h mi s us : ℕ)
    → y < 10 ^ 4
    → mo < 10 ^ 2
    → d < 10 ^ 2
    → h < 10 ^ 2
    → mi < 10 ^ 2
    → s < 10 ^ 2
    → us < 10 ^ 6
    → read_moment (moment_text y mo d h mi s us) ≡ some (moment y mo d h mi s us, [])
unfolding read_moment moment_text skip
read_moment-text y mo d h mi s us hy hmo hd hh hmi hs hus =
    let after_second : Bytes = flatten (micros_pieces us) in
    let after_minute : Bytes = 0x3a ∷ (padded 2 s ++ after_second) in
    let after_hour : Bytes = 0x3a ∷ (padded 2 mi ++ after_minute) in
    let after_day : Bytes = 0x20 ∷ (padded 2 h ++ after_hour) in
    let after_month : Bytes = 0x2d ∷ (padded 2 d ++ after_day) in
    let after_year : Bytes = 0x2d ∷ (padded 2 mo ++ after_month) in
    ground (
      arith,
      number-padded 3 y after_year (omega arith),
      number-padded 1 mo after_month (omega arith),
      number-padded 1 d after_day (omega arith),
      number-padded 1 h after_hour (omega arith),
      number-padded 1 mi after_minute (omega arith),
      number-padded 1 s after_second (omega arith),
      fraction-micros us hus,
    )

read_hours-text :
    (negative : Bool) (h m s us : ℕ)
    → m < 10 ^ 2
    → s < 10 ^ 2
    → us < 10 ^ 6
    → read_hours negative (flatten (clock_pieces h m s ++ micros_pieces us))
      ≡ some (clock negative (h * 3600 + m * 60 + s) us, [])
unfolding read_hours skip
read_hours-text negative h m s us hm hs hus =
    let after_second : Bytes = flatten (micros_pieces us) in
    let after_minute : Bytes = 0x3a ∷ (padded 2 s ++ after_second) in
    let after_hour : Bytes = padded 2 m ++ after_minute in
    ground (
      arith,
      digits_stop 0 h 0x3a (padded 2 h) after_hour refl (digits_value-padded 2 h),
      number-padded 1 m after_minute (omega arith),
      number-padded 1 s after_second (omega arith),
      fraction-micros us hus,
    )

-- Digits have no sign.
read_clock-digits :
    (m : ℕ) (xs rest : Bytes)
    → digits_value 0 xs ≡ some m
    → 0 < length xs
    → read_clock (xs ++ rest) ≡ read_hours false (xs ++ rest)
unfolding read_clock digits_value
read_clock-digits m [] rest h some_digit = absurd (omega arith)
read_clock-digits m (x ∷ xs) rest h some_digit = elim (Bool-cases (x == 0x2d)) [
  | inl sign ↦ absurd (ground arith)
  | inr digit ↦ rw digit
]

pub read_clock-text :
    (v : Duration) (negative : Bool)
    → v.subsec_micros < 10 ^ 6
    → read_clock (time_text v negative)
      ≡ some (clock (is_below_zero negative v) v.secs v.subsec_micros, [])
unfolding time_text read_clock
read_clock-text v negative h =
    let hours = v.secs / 3600 in
    let minutes = v.secs % 3600 / 60 in
    let seconds = v.secs % 60 in
    let whole : hours * 3600 + minutes * 60 + seconds ≡ v.secs = omega arith in
    let text : Bytes =
      flatten (clock_pieces hours minutes seconds ++ micros_pieces v.subsec_micros) in
    let read = λ (sign : Bool).
      read_hours-text sign hours minutes seconds v.subsec_micros (omega arith) (omega arith) h in
    elim (Bool-cases (is_below_zero negative v)) [
      | inl below ↦ rw below (read true ∙ ap (λ t. some (clock true t v.subsec_micros, [])) whole)
      | inr not_below ↦ rw not_below (
          read_clock-digits hours (padded 2 hours) _ (digits_value-padded 2 hours)
            (omega (arith, le-length-padded 2 hours))
          ∙ read false
          ∙ ap (λ t. some (clock false t v.subsec_micros, [])) whole)
    ]
