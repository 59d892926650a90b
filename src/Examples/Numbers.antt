-- ===== src/Examples/Numbers.antt =====
-- mysql/src/value/encode.rs: little-endian numbers, and values that are read back.
use opensrv.Common.{
  ℕ, zero, suc, ◌+◌, ◌-◌, ◌*◌, ◌/◌, ◌%◌, ◌^◌, ◌<◌, ◌≡◌, refl, ap, ◌∙◌, true, false, Bool-cases, inl,
  inr, [], ◌∷◌, ◌++◌, append-nil, append_assoc, Bytes, length, ltb, ltb→lt, lt→ltb, le→ltb, ne→==,
  if◌then◌else◌, ok, arith,
}
use opensrv.Deps.MysqlCommon.{ColumnType, ℤ, pos, negsuc}
use opensrv.Deps.Writes.{Writes}
use opensrv.Deps.Numbers.{Numbers, InSigned}
use opensrv.Encode.{Integer, Width, width, to_mysql_bin, encode_bytes, value_int}
use opensrv.Encode.Widths.{number_of}
use opensrv.Encode.Decodes.{Decodes, to_mysql_bin-Decodes}
use opensrv.Encode.Fits.{at_its_width, value_int-width}
use opensrv.Encode.Strings.{Restored, encode_bytes-Restored}
use opensrv.Encode.Temporal.{Temporal, DateFields, temporal_bin}
use opensrv.Encode.Temporal.Stamps.{Kept, temporal_bin-Kept}
use opensrv.Examples.Crates.{reads, read_le, signed, read_lenenc, read_byte}
use opensrv.Examples.Sessions.{writes}

abbrev write_le : ℕ → ℕ → Bytes
write_le zero n = []
write_le (suc k) n = n % 2 ^ 8 ∷ write_le k (n / 2 ^ 8)

abbrev limit : ℕ → ℕ
limit zero = 1
limit (suc k) = 2 ^ 8 * limit k

abbrev read_write :
    (k n : ℕ) (rest : Bytes) → n < limit k → read_le k (write_le k n ++ rest) ≡ ok (n, rest)
read_write zero n rest h = let none : 0 ≡ n = omega arith in ap (λ m. ok (m, rest)) none
read_write (suc k) n rest h =
    let small : n / 2 ^ 8 < limit k = omega arith in
    let whole : n % 2 ^ 8 + n / 2 ^ 8 * 2 ^ 8 ≡ n = omega arith in
    rw (read_write k (n / 2 ^ 8) rest small, whole)

abbrev length-write_le : (k n : ℕ) → length (write_le k n) ≡ k
length-write_le zero n = refl
length-write_le (suc k) n = ap suc (length-write_le k (n / 2 ^ 8))

-- Two's complement.
abbrev write_signed : ℕ → ℕ → ℤ → Bytes
write_signed k w (pos n) = write_le k n
write_signed k w (negsuc n) = write_le k (2 ^ w - 1 - n)

-- A length in as many bytes as it needs.
abbrev lenenc : ℕ → Bytes
lenenc n =
    if ltb n 0xfb
    then n ∷ []
    else if ltb n (2 ^ 16)
    then 0xfc ∷ write_le 2 n
    else if ltb n (2 ^ 24)
    then 0xfd ∷ write_le 3 n
    else 0xfe ∷ write_le 8 n

abbrev read-lenenc :
    (n : ℕ) (rest : Bytes) → n < 2 ^ 64 → read_lenenc (lenenc n ++ rest) ≡ ok (n, rest)
read-lenenc n rest h = elim (Bool-cases (ltb n 0xfb)) [
  | inl e ↦ rw (
    e,
    ne→== n 0xfc (λ same. absurd (omega (arith, ltb→lt n 0xfb e, same))),
    ne→== n 0xfd (λ same. absurd (omega (arith, ltb→lt n 0xfb e, same))),
    ne→== n 0xfe (λ same. absurd (omega (arith, ltb→lt n 0xfb e, same))),
  )
  | inr e ↦ elim (Bool-cases (ltb n (2 ^ 16))) [
    | inl e16 ↦ rw (e, e16) (read_write 2 n rest (omega (arith, ltb→lt _ _ e16)))
    | inr e16 ↦ elim (Bool-cases (ltb n (2 ^ 24))) [
      | inl e24 ↦ rw (e, e16, e24) (read_write 3 n rest (omega (arith, ltb→lt _ _ e24)))
      | inr e24 ↦ rw (e, e16, e24) (read_write 8 n rest (omega arith))
    ]
  ]
]

abbrev lenenc_writes : Writes
lenenc_writes = record writes {
  write_lenenc_int = λ n. lenenc n ∷ [];
  write_lenenc_str = λ s. lenenc (length s) ∷ s ∷ [];
}

abbrev read_signed_8 :
    (z : ℤ) (rest : Bytes)
    → InSigned 8 z
    → signed 8 (read_le 1 (write_signed 1 8 z ++ rest)) ≡ ok (z, rest)
read_signed_8 (pos n) rest h =
    ap (signed 8) (read_write 1 n rest (omega arith)) ∙ rw (lt→ltb n (2 ^ 7) h)
read_signed_8 (negsuc n) rest h =
    let back : 2 ^ 8 - 1 - (2 ^ 8 - 1 - n) ≡ n = omega arith in
    ap (signed 8) (read_write 1 (2 ^ 8 - 1 - n) rest (omega arith))
    ∙ rw (le→ltb (2 ^ 8 - 1 - n) (2 ^ 7) (omega arith), back)

abbrev read_signed_16 :
    (z : ℤ) (rest : Bytes)
    → InSigned 16 z
    → signed 16 (read_le 2 (write_signed 2 16 z ++ rest)) ≡ ok (z, rest)
read_signed_16 (pos n) rest h =
    ap (signed 16) (read_write 2 n rest (omega arith)) ∙ rw (lt→ltb n (2 ^ 15) h)
read_signed_16 (negsuc n) rest h =
    let back : 2 ^ 16 - 1 - (2 ^ 16 - 1 - n) ≡ n = omega arith in
    ap (signed 16) (read_write 2 (2 ^ 16 - 1 - n) rest (omega arith))
    ∙ rw (le→ltb (2 ^ 16 - 1 - n) (2 ^ 15) (omega arith), back)

abbrev read_signed_32 :
    (z : ℤ) (rest : Bytes)
    → InSigned 32 z
    → signed 32 (read_le 4 (write_signed 4 32 z ++ rest)) ≡ ok (z, rest)
read_signed_32 (pos n) rest h =
    ap (signed 32) (read_write 4 n rest (omega arith)) ∙ rw (lt→ltb n (2 ^ 31) h)
read_signed_32 (negsuc n) rest h =
    let back : 2 ^ 32 - 1 - (2 ^ 32 - 1 - n) ≡ n = omega arith in
    ap (signed 32) (read_write 4 (2 ^ 32 - 1 - n) rest (omega arith))
    ∙ rw (le→ltb (2 ^ 32 - 1 - n) (2 ^ 31) (omega arith), back)

abbrev read_signed_64 :
    (z : ℤ) (rest : Bytes)
    → InSigned 64 z
    → signed 64 (read_le 8 (write_signed 8 64 z ++ rest)) ≡ ok (z, rest)
read_signed_64 (pos n) rest h =
    ap (signed 64) (read_write 8 n rest (omega arith)) ∙ rw (lt→ltb n (2 ^ 63) h)
read_signed_64 (negsuc n) rest h =
    let back : 2 ^ 64 - 1 - (2 ^ 64 - 1 - n) ≡ n = omega arith in
    ap (signed 64) (read_write 8 (2 ^ 64 - 1 - n) rest (omega arith))
    ∙ rw (le→ltb (2 ^ 64 - 1 - n) (2 ^ 63) (omega arith), back)

abbrev read_byte_le : (input : Bytes) → read_byte input ≡ read_le 1 input
read_byte_le [] = refl
read_byte_le (b ∷ input) =
    let same : b ≡ b + 0 * 2 ^ 8 = omega arith in ap (λ m. ok (m, input)) same

abbrev numbers : Numbers reads lenenc_writes
numbers = record {
  write_u8 = write_le 1;
  write_i8 = write_signed 1 8;
  write_u16 = write_le 2;
  write_i16 = write_signed 2 16;
  write_u32 = write_le 4;
  write_i32 = write_signed 4 32;
  write_u64 = write_le 8;
  write_i64 = write_signed 8 64;
  write_f32 = write_le 4;
  write_f64 = write_le 8;
  read_u8_lem = λ n rest h. read_byte_le (write_le 1 n ++ rest) ∙ read_write 1 n rest (omega arith);
  read_u16_lem = λ n rest h. read_write 2 n rest (omega arith);
  read_u32_lem = λ n rest h. read_write 4 n rest (omega arith);
  read_u64_lem = λ n rest h. read_write 8 n rest (omega arith);
  read_i8_lem = λ z rest h.
      ap (signed 8) (read_byte_le (write_signed 1 8 z ++ rest)) ∙ read_signed_8 z rest h;
  read_i16_lem = read_signed_16;
  read_i32_lem = read_signed_32;
  read_i64_lem = read_signed_64;
  read_lenenc_lem = λ s rest h.
      rw (append-nil s, append_assoc (lenenc (length s)) s rest)
        (read-lenenc (length s) (s ++ rest) h);
  length-write_u16 = length-write_le 2;
  length-write_u32 = length-write_le 4;
  length-write_u8 = length-write_le 1;
}

to_mysql_bin-Decodes_example :
    Decodes numbers ColumnType.short true
      (ℤ.negsuc 4)
      (to_mysql_bin numbers (Integer.i8 (ℤ.negsuc 4)) ColumnType.short true)
unfolding number_of
to_mysql_bin-Decodes_example =
    to_mysql_bin-Decodes numbers (Integer.i8 (ℤ.negsuc 4)) ColumnType.short true (omega arith)

value_int-width_example :
    value_int numbers (ℤ.pos 300) ColumnType.tiny false
    ≡ at_its_width numbers false Width.w8 (ℤ.pos 300)
unfolding width
value_int-width_example =
    value_int-width numbers (ℤ.pos 300) ColumnType.tiny Width.w8 false (omega arith) refl

encode_bytes-Restored_example :
    Restored numbers
      (1 ∷ 2 ∷ [])
      ColumnType.blob
      false
      (encode_bytes lenenc_writes (1 ∷ 2 ∷ []) ColumnType.blob)
encode_bytes-Restored_example =
    encode_bytes-Restored numbers (1 ∷ 2 ∷ []) ColumnType.blob false (omega arith)

abbrev noon : DateFields
noon = record { year = 2024; month = 2; day = 29; hour = 12; minute = 0; second = 0; micros = 0 }

temporal_bin-Kept_example :
    Kept numbers ColumnType.datetime false
      (temporal_bin numbers (Temporal.fields noon) ColumnType.datetime)
temporal_bin-Kept_example =
    temporal_bin-Kept numbers (Temporal.fields noon) ColumnType.datetime false
