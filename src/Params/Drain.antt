-- ===== src/Params/Drain.antt =====
-- params.rs: parameters that `validate` has accepted are read without a panic.
use opensrv.Common.{
  ℕ, zero, suc, ◌≡◌, refl, sym, ap, ◌∙◌, false, Option, none, List, [], Bytes, length, take, drop,
  is_nil, ltb, Result, ok, arith, Bool-cases, inl, inr,
}
use opensrv.Deps.MysqlCommon.{Reads}
use opensrv.Wire.{IoError}
use opensrv.Io.{and_then}
use opensrv.Params.Accept.{and_then-eq-ok, reread_accepted, before, next_behind, collect_accepted}
use opensrv.Params.{
  LongData, Types, nullmap_len, validate_types, validate_values, validate, Params, ParamValue,
  into_iter, started, start, next_param, next, collect,
}

keep_unit :
    {types types' : Types}
    → ◌≡◌ {A = Result IoError (Unit {0}) × Types} (ok tt, types) (ok tt, types')
    → types ≡ types'
keep_unit h = ap (λ (r : Result IoError (Unit {0}) × Types). r.1) h

module _ (reads : Reads) where
  -- What an accepted payload holds: the types, and behind them values that pass.
  validate_parts :
      (params : ℕ) (bytes : Bytes) (long_data : LongData) (types types' : Types)
      → validate reads params bytes long_data types ≡ (ok tt, types')
      → (ltb (length bytes) (nullmap_len params) ≡ false)
        × (input : Bytes) × (rest : Bytes) × (validate_types reads params
              (drop (nullmap_len params) bytes)
              types
            ≡ (ok input, types'))
        × (validate_values reads (take (nullmap_len params) bytes) long_data params 0 input types'
            ≡ (ok rest, types'))
  unfolding validate
  validate_parts params bytes long_data types types' h =
      elim (Bool-cases (ltb (length bytes) (nullmap_len params))) [
        | inl short ↦ cc (rw short at h)
        | inr enough ↦
            let (input, types1, e1, h1) =
              and_then-eq-ok (validate_types reads params (drop (nullmap_len params) bytes) types) _
                (rw enough at h) in
            let (rest, types2, e2, h2) =
              and_then-eq-ok
                (validate_values reads (take (nullmap_len params) bytes) long_data params 0 input
                  types1)
                _ h1 in
            let (_, _, _, same) =
              collect_accepted reads params (take (nullmap_len params) bytes) long_data types1
                params 0 input rest types2 (omega arith) e2 in
            elim (Bool-cases (is_nil rest)) [
              | inr more ↦ cc (rw more at h2)
              | inl end ↦
                  let last = sym same ∙ keep_unit (rw end at h2) in (enough, input, rest, cc, cc)
            ]
      ]

  module _ (params : ℕ) (bytes : Bytes) (long_data : LongData) (types types' : Types)
      (accepted : validate reads params bytes long_data types ≡ (ok tt, types')) where
    -- The first call reads what `validate` read.
    first_next :
        (input rest : Bytes)
        → ltb (length bytes) (nullmap_len params) ≡ false
        → validate_types reads params (drop (nullmap_len params) bytes) types ≡ (ok input, types')
        → next reads (into_iter params bytes long_data types')
          ≡ next reads
              (before reads params (take (nullmap_len params) bytes) long_data types' 0 input)
    unfolding next start into_iter
    first_next input rest enough e = rw enough (
        ap
          (λ (r : Result IoError Bytes × Types).
            and_then
              (started (into_iter params bytes long_data types') (take (nullmap_len params) bytes)
                r)
              (λ _. next_param reads))
          (reread_accepted reads params (drop (nullmap_len params) bytes) input types types' e))

    collect_none : (p : Params) → collect reads 0 p ≡ (ok [], p)
    unfolding collect
    collect_none p = refl

    collect_first :
        (n : ℕ) (p q : Params)
        → next reads p ≡ next reads q
        → collect reads (suc n) p ≡ collect reads (suc n) q
    unfolding collect
    collect_first n p q e = rw e refl

    -- The iterator over a payload that `validate` has accepted gives a value for each parameter and then
    -- `None`; no call of `next` panics.
    pub validate-next :
        (vs : List ParamValue) × (p : Params) × (collect reads params
            (into_iter params bytes long_data types')
          ≡ (ok vs, p))
        × (length vs ≡ params)
        × ((next reads p).0 ≡ ok none)
    validate-next =
        let (enough, input, rest, e1, e2) =
          validate_parts params bytes long_data types types' accepted in
        drained params input rest refl e2 (first_next input rest enough e1)
      where
        drained :
            (n : ℕ) (input rest : Bytes)
            → n ≡ params
            → validate_values reads (take (nullmap_len params) bytes) long_data n 0 input types'
              ≡ (ok rest, types')
            → next reads (into_iter params bytes long_data types')
              ≡ next reads
                  (before reads params (take (nullmap_len params) bytes) long_data types' 0 input)
            → (vs : List ParamValue) × (p : Params) × (collect reads n
                  (into_iter params bytes long_data types')
                ≡ (ok vs, p))
              × (length vs ≡ n)
              × ((next reads p).0 ≡ ok none)
        drained zero input rest same e2 f = (
          [],
          into_iter params bytes long_data types',
          collect_none (into_iter params bytes long_data types'),
          refl,
          ap (λ (r : Result IoError (Option ParamValue) × Params). r.0) f
              ∙ next_behind reads params (take (nullmap_len params) bytes) long_data types' 0 input
                  same,
        )
        drained (suc n) input rest same e2 f =
            let (vs, e, l, _) =
              collect_accepted reads params (take (nullmap_len params) bytes) long_data types'
                (suc n) 0 input rest types' (omega arith) e2 in
            (
              vs,
              before reads params (take (nullmap_len params) bytes) long_data types' params rest,
              collect_first n _ _ f ∙ e,
              l,
              next_behind reads params (take (nullmap_len params) bytes) long_data types' params
                  rest refl,
            )
