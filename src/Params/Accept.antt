-- ===== src/Params/Accept.antt =====
-- params.rs: what `validate` passes over, `next` reads: the types, and each value.
use opensrv.Common.{
  ℕ, zero, suc, ◌+◌, ◌*◌, ◌/◌, ◌<◌, ◌≡◌, refl, sym, ap, ◌∙◌, Bool, Option, none, some, List, [],
  ◌∷◌, Bytes, length, take, get_elem?, ltb, ◌==◌, Result, ok, err, arith, Bool-cases, lt→leb,
  le→leb, ◌<◌, Option-cases, Result-cases, inl, inr,
}
use opensrv.Deps.MysqlCommon.{ColumnType, Reads}
use opensrv.Value.{ValueInner, parse_from}
use opensrv.Wire.{IoError, invalid_data, panicked}
use opensrv.Io.{and_then}
use opensrv.Params.{
  LongData, get_long_data, Types, is_null_bit, accepts_long_data, or_else, read_types,
  validate_types, skip_value, validate_values, Params, ParamValue, reread_types, start, next_value,
  bitmap_byte, next_param, next, collect,
}

-- A bind that succeeded, over a state.
pub and_then-eq-ok {ℓ} :
    {S : Type ℓ} {A B : Type 0} (r : Result IoError A × S) (f : A → S → Result IoError B × S)
    {b : B} {s : S}
    → and_then r f ≡ (ok b, s)
    → (a : A) × (t : S) × (r ≡ (ok a, t)) × (f a t ≡ (ok b, s))
and_then-eq-ok (ok a, t) f h = (a, t, refl, h)
and_then-eq-ok (err e, t) f h = cc

keep_types :
    {input rest : Bytes} {types types' : Types}
    → ◌≡◌ {A = Result IoError Bytes × Types} (ok input, types) (ok rest, types')
    → ◌≡◌ {A = Result IoError Bytes × Types} (ok input, types') (ok rest, types')
keep_types {types' = t} h = ap (λ (r : Result IoError Bytes × Types). (r.0, t)) h

keep_pair :
    {input rest : Bytes} {types types' : Types}
    → ◌≡◌ {A = Result IoError Bytes × Types} (ok input, types) (ok rest, types')
    → ◌≡◌ {A = Result IoError Bytes × Types} (ok input, types) (ok rest, types')
keep_pair h = h

-- The input that is left, beside the value.
as_value :
    {v : ValueInner} {input rest : Bytes}
    → ◌≡◌ {A = Result IoError Bytes} (ok input) (ok rest)
    → ◌≡◌ {A = Result IoError (Option (ValueInner × Bytes))}
        (ok (some (v, input)))
        (ok (some (v, rest)))
as_value {v} h =
    ap (λ (r : Result IoError Bytes). elim r [ ok i ↦ ok (some (v, i)) | err e ↦ err e ]) h

module _ (reads : Reads) where
  -- The type map that was accepted once is accepted with the same types again.
  read_types_again :
      (bad bad' : IoError) (n : ℕ) (typmap : Bytes) (types types' : Types)
      → read_types reads bad n typmap types ≡ (ok tt, types')
      → read_types reads bad' n typmap types ≡ (ok tt, types')
  unfolding read_types or_else
  read_types_again bad bad' zero typmap types types' h = h
  read_types_again bad bad' (suc n) [] types types' h = cc
  read_types_again bad bad' (suc n) (t ∷ []) types types' h = cc
  read_types_again bad bad' (suc n) (t ∷ flag ∷ typmap) types types' h =
      elim (Option-cases (reads.column_type t)) [
        | inl e ↦ cc (rw e at h)
        | inr (c, e) ↦ rw e (read_types_again bad bad' n typmap _ types' (rw e at h))
      ]

  pub reread_accepted :
      (n : ℕ) (input rest : Bytes) (types types' : Types)
      → validate_types reads n input types ≡ (ok rest, types')
      → reread_types reads n input types' ≡ (ok rest, types')
  unfolding validate_types reread_types
  reread_accepted zero input rest types types' h = keep_types h
  reread_accepted (suc n) [] rest types types' h = cc
  reread_accepted (suc n) (bound ∷ input) rest types types' h = elim (Bool-cases (bound == 0)) [
    | inl zero_flag ↦ elim (Bool-cases (ltb (length types) (suc n))) [
      | inl few ↦ cc (rw (zero_flag, few) at h)
      | inr enough ↦ rw zero_flag (keep_types (rw (zero_flag, enough) at h))
    ]
    | inr bound_anew ↦ elim (Bool-cases (ltb (length input) (2 * suc n))) [
      | inl few ↦ cc (rw (bound_anew, few) at h)
      | inr enough ↦
          let (_, types'', e, f) =
            and_then-eq-ok (read_types reads invalid_data (suc n) (take (2 * suc n) input) []) _
              (rw (bound_anew, enough) at h) in
          rw (bound_anew, enough)
            (rw
              (read_types_again invalid_data panicked (suc n) (take (2 * suc n) input) [] types'' e)
              f)
    ]
  ]

  -- One parameter: what was passed over is read.
  value_accepted :
      (col byte : ℕ) (coltype : ColumnType) (unsigned : Bool) (nullmap : Bytes)
      (long_data : LongData) (data_of : Option Bytes) (input rest : Bytes)
      → skip_value reads nullmap long_data col coltype unsigned data_of byte input ≡ ok rest
      → (v : ValueInner) × (next_value reads col coltype unsigned data_of (ok (some byte)) input
          ≡ ok (some (v, rest)))
  unfolding skip_value next_value
  value_accepted col byte coltype unsigned nullmap long_data (some d) input rest h =
      elim (Bool-cases (accepts_long_data coltype)) [
        | inl e ↦ (ValueInner.bytes d, as_value (rw e at h))
        | inr e ↦ cc (rw e at h)
      ]
  value_accepted col byte coltype unsigned nullmap long_data none input rest h =
      elim (Bool-cases (is_null_bit byte col)) [
        | inl e ↦ (ValueInner.null, rw e (as_value (rw e at h)))
        | inr e ↦ elim (Result-cases (parse_from reads input coltype unsigned)) [
          | inl ((v, r), f) ↦ (v, rw (e, f) (as_value (rw (e, f) at h)))
          | inr (x, f) ↦ cc (rw (e, f) at h)
        ]
      ]

  module _ (params : ℕ) (nullmap : Bytes) (long_data : LongData) (types : Types) where
    -- The iterator in front of a parameter, its bitmap and types read.
    abbrev pub before : ℕ → Bytes → Params
    before col input = record {
      params = params;
      input = input;
      nullmap = some nullmap;
      col = col;
      long_data = long_data;
      bound_types = types;
    }

    next_accepted :
        (col byte : ℕ) (coltype : ColumnType) (unsigned : Bool) (input rest : Bytes)
        → col < params
        → get_elem? nullmap (col / 8) ≡ some byte
        → get_elem? types col ≡ some (coltype, unsigned)
        → skip_value reads nullmap long_data col coltype unsigned
            (get_long_data col long_data)
            byte
            input
          ≡ ok rest
        → (v : ParamValue) × (next reads (before col input) ≡ (ok (some v), before (col + 1) rest))
    unfolding next start next_param bitmap_byte
    next_accepted col byte coltype unsigned input rest lt b t h =
        let (v, e) =
          value_accepted col byte coltype unsigned nullmap long_data (get_long_data col long_data)
            input rest h in
        (record { value = v; coltype = coltype }, rw (lt→leb params col lt, t, b, e) refl)

    pub next_behind :
        (col : ℕ) (input : Bytes) → col ≡ params → (next reads (before col input)).0 ≡ ok none
    unfolding next start next_param
    next_behind col input e = rw (le→leb params col (omega arith)) refl

    pub collect_accepted :
        (left col : ℕ) (input rest : Bytes) (types' : Types)
        → col + left ≡ params
        → validate_values reads nullmap long_data left col input types ≡ (ok rest, types')
        → (vs : List ParamValue) × (collect reads left (before col input)
            ≡ (ok vs, before params rest))
          × (length vs ≡ left)
          × (types' ≡ types)
    unfolding validate_values collect or_else
    collect_accepted zero col input rest types' n h =
        let same = keep_pair h in
        (
          [],
          ap (λ c. (ok [], before c input)) (n' ∙ n)
              ∙ ap
                  (λ (r : Result IoError Bytes × Types).
                    (ok [], before params (elim r.0 [ ok i ↦ i | err e ↦ [] ])))
                  same,
          refl,
          sym (ap (λ (r : Result IoError Bytes × Types). r.1) same),
        )
      where
        n' : col ≡ col + 0
        n' = omega arith
    collect_accepted (suc left) col input rest types' n h =
        elim (Option-cases (get_elem? nullmap (col / 8))) [
          | inl b ↦ cc (rw b at h)
          | inr (byte, b) ↦ elim (Option-cases (get_elem? types col)) [
            | inl t ↦ cc (rw (b, t) at h)
            | inr ((coltype, unsigned), t) ↦
                elim (Result-cases (
                  skip_value reads nullmap long_data col coltype unsigned
                    (get_long_data col long_data) byte input)) [
                      | inr (x, s) ↦ cc (rw (b, t, s) at h)
                      | inl (mid, s) ↦
                          let (v, e) =
                            next_accepted col byte coltype unsigned input mid (omega arith) b t s in
                          let (vs, e', n', same) =
                            collect_accepted left (col + 1) mid rest types' (omega arith)
                              (rw (b, t, s) at h) in
                          (v ∷ vs, rw (e, e') refl, ap suc n', same)
                    ]
          ]
        ]
