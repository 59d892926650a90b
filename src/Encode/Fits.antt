-- ===== src/Encode/Fits.antt =====
-- mysql/src/value/encode.rs: `Value::Int` picks a type that never refuses a number that fits.
use opensrv.Common.{
  ℕ, ◌-◌, ◌<◌, ◌≤◌, Bool, false, ltb, refl, ◌^◌, ◌≡◌, inl, inr, true, Bool-cases, some, ltb→lt,
  lt→ltb, if◌then◌else◌, err, arith,
}
use opensrv.Deps.MysqlCommon.{ColumnType, ℤ, pos, negsuc, Reads}
use opensrv.Deps.Writes.{Writes}
use opensrv.Deps.Numbers.{Numbers, InSigned}
use opensrv.Wire.{invalid_data}
use opensrv.Encode.{
  Width, w8, w16, w32, w64, width, bits, put_i, encode_i8, encode_i16, encode_i32, encode_i64,
  encode_width, encode_u8, encode_u16, encode_u32, encode_u64, smallest_unsigned, put_u, Encoded,
  encode_at, to_mysql_bin, in_signed, smallest_signed, value_int,
}

signed_16 : (z : ℤ) → in_signed 8 z ≡ true → in_signed 16 z ≡ true
unfolding in_signed
signed_16 (pos n) e = lt→ltb _ _ (omega (arith, ltb→lt n (2 ^ 7) e))
signed_16 (negsuc n) e = lt→ltb _ _ (omega (arith, ltb→lt n (2 ^ 7) e))

signed_32 : (z : ℤ) → in_signed 16 z ≡ true → in_signed 32 z ≡ true
unfolding in_signed
signed_32 (pos n) e = lt→ltb _ _ (omega (arith, ltb→lt n (2 ^ 15) e))
signed_32 (negsuc n) e = lt→ltb _ _ (omega (arith, ltb→lt n (2 ^ 15) e))

signed_64 : (z : ℤ) → in_signed 32 z ≡ true → in_signed 64 z ≡ true
unfolding in_signed
signed_64 (pos n) e = lt→ltb _ _ (omega (arith, ltb→lt n (2 ^ 31) e))
signed_64 (negsuc n) e = lt→ltb _ _ (omega (arith, ltb→lt n (2 ^ 31) e))

signed_all : (z : ℤ) → InSigned 64 z → in_signed 64 z ≡ true
unfolding in_signed
signed_all (pos n) h = lt→ltb _ _ h
signed_all (negsuc n) h = lt→ltb _ _ h

-- What a column of so many bits holds.
pub holds : Bool → ℕ → ℤ → Bool
holds true bits (pos n) = ltb n (2 ^ (bits - 1))
holds true bits (negsuc n) = ltb n (2 ^ (bits - 1))
holds false bits (pos n) = ltb n (2 ^ bits)
holds false bits (negsuc n) = false

below : (n a b : ℕ) → ltb n (2 ^ a) ≡ true → 2 ^ a ≤ 2 ^ b → ltb n (2 ^ b) ≡ true
below n a b e h = lt→ltb n (2 ^ b) (omega (arith, ltb→lt n (2 ^ a) e))

module _ {reads : Reads} {writes : Writes} (numbers : Numbers reads writes) where
  -- A number in the format of a column, if the column holds it.
  pub at_its_width : Bool → Width → ℤ → Encoded
  at_its_width signed w z = if holds signed (bits w) z then put_as signed w z else err invalid_data
    where
      put_as : Bool → Width → ℤ → Encoded
      put_as true w z = put_i numbers w z
      put_as false w (pos n) = put_u numbers w n
      put_as false w (negsuc n) = err invalid_data

  at_width :
      (z : ℤ) (w : Width)
      → InSigned 64 z
      → encode_width numbers (smallest_signed z) w true
        ≡ (if in_signed (bits w) z then put_i numbers w z else err invalid_data)
  unfolding encode_width smallest_signed encode_i8 encode_i16 encode_i32 encode_i64
  at_width z w8 h = elim (Bool-cases (in_signed 8 z)) [
    | inl e8 ↦ rw e8
    | inr e8 ↦ elim (Bool-cases (in_signed 16 z)) [
      | inl e16 ↦ rw (e8, e16)
      | inr e16 ↦ elim (Bool-cases (in_signed 32 z)) [
        | inl e32 ↦ rw (e8, e16, e32)
        | inr e32 ↦ rw (e8, e16, e32)
      ]
    ]
  ]
  at_width z w16 h = elim (Bool-cases (in_signed 8 z)) [
    | inl e8 ↦ rw (e8, signed_16 z e8)
    | inr e8 ↦ elim (Bool-cases (in_signed 16 z)) [
      | inl e16 ↦ rw (e8, e16)
      | inr e16 ↦ elim (Bool-cases (in_signed 32 z)) [
        | inl e32 ↦ rw (e8, e16, e32)
        | inr e32 ↦ rw (e8, e16, e32)
      ]
    ]
  ]
  at_width z w32 h = elim (Bool-cases (in_signed 8 z)) [
    | inl e8 ↦ rw (e8, signed_32 z (signed_16 z e8))
    | inr e8 ↦ elim (Bool-cases (in_signed 16 z)) [
      | inl e16 ↦ rw (e8, e16, signed_32 z e16)
      | inr e16 ↦ elim (Bool-cases (in_signed 32 z)) [
        | inl e32 ↦ rw (e8, e16, e32)
        | inr e32 ↦ rw (e8, e16, e32)
      ]
    ]
  ]
  at_width z w64 h = elim (Bool-cases (in_signed 8 z)) [
    | inl e8 ↦ rw (e8, signed_all z h)
    | inr e8 ↦ elim (Bool-cases (in_signed 16 z)) [
      | inl e16 ↦ rw (e8, e16, signed_all z h)
      | inr e16 ↦ elim (Bool-cases (in_signed 32 z)) [
        | inl e32 ↦ rw (e8, e16, e32, signed_all z h)
        | inr e32 ↦ rw (e8, e16, e32, signed_all z h)
      ]
    ]
  ]

  unsigned_width :
      (n : ℕ) (w : Width)
      → n < 2 ^ 64
      → encode_width numbers (smallest_unsigned n) w false
        ≡ (if ltb n (2 ^ bits w) then put_u numbers w n else err invalid_data)
  unfolding encode_width smallest_unsigned encode_u8 encode_u16 encode_u32 encode_u64
  unsigned_width n w8 h = elim (Bool-cases (ltb n (2 ^ 8))) [
    | inl e8 ↦ rw e8
    | inr e8 ↦ elim (Bool-cases (ltb n (2 ^ 16))) [
      | inl e16 ↦ rw (e8, e16)
      | inr e16 ↦ elim (Bool-cases (ltb n (2 ^ 32))) [
        | inl e32 ↦ rw (e8, e16, e32)
        | inr e32 ↦ rw (e8, e16, e32)
      ]
    ]
  ]
  unsigned_width n w16 h = elim (Bool-cases (ltb n (2 ^ 8))) [
    | inl e8 ↦ rw (e8, below n 8 16 e8 (omega arith))
    | inr e8 ↦ elim (Bool-cases (ltb n (2 ^ 16))) [
      | inl e16 ↦ rw (e8, e16)
      | inr e16 ↦ elim (Bool-cases (ltb n (2 ^ 32))) [
        | inl e32 ↦ rw (e8, e16, e32)
        | inr e32 ↦ rw (e8, e16, e32)
      ]
    ]
  ]
  unsigned_width n w32 h = elim (Bool-cases (ltb n (2 ^ 8))) [
    | inl e8 ↦ rw (e8, below n 8 32 e8 (omega arith))
    | inr e8 ↦ elim (Bool-cases (ltb n (2 ^ 16))) [
      | inl e16 ↦ rw (e8, e16, below n 16 32 e16 (omega arith))
      | inr e16 ↦ elim (Bool-cases (ltb n (2 ^ 32))) [
        | inl e32 ↦ rw (e8, e16, e32)
        | inr e32 ↦ rw (e8, e16, e32)
      ]
    ]
  ]
  unsigned_width n w64 h =
      let whole = lt→ltb n (2 ^ 64) h in
      elim (Bool-cases (ltb n (2 ^ 8))) [
        | inl e8 ↦ rw (e8, whole)
        | inr e8 ↦ elim (Bool-cases (ltb n (2 ^ 16))) [
          | inl e16 ↦ rw (e8, e16, whole)
          | inr e16 ↦ elim (Bool-cases (ltb n (2 ^ 32))) [
            | inl e32 ↦ rw (e8, e16, e32, whole)
            | inr e32 ↦ rw (e8, e16, e32, whole)
          ]
        ]
      ]

  -- An `Int` for an integer column of some width, signed or not, is written at that width exactly where
  -- the column holds it, and refused otherwise, as every negative number is for an unsigned column; the
  -- choice of the smallest type refuses no number that the column can hold.
  pub value_int-width :
      (z : ℤ) (t : ColumnType) (w : Width) (signed : Bool)
      → InSigned 64 z
      → width t ≡ some w
      → value_int numbers z t signed ≡ at_its_width signed w z
  unfolding value_int to_mysql_bin encode_at at_its_width holds in_signed
  value_int-width (pos n) t w true h e = rw e (at_width (pos n) w h)
  value_int-width (negsuc n) t w true h e = rw e (at_width (negsuc n) w h)
  value_int-width (pos n) t w false h e = rw e (unsigned_width n w (omega arith))
  value_int-width (negsuc n) t w false h e = refl
