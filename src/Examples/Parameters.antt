-- ===== src/Examples/Parameters.antt =====
-- params.rs at one parameter.
use opensrv.Common.{◌≡◌, refl, List, [], ◌∷◌, Bytes, length, ok, none, true}
use opensrv.Deps.MysqlCommon.{ColumnType}
use opensrv.Params.{
  Types, validate, validate_types, validate_values, read_types, skip_value, nullmap_len,
  get_long_data, is_null_bit, is_unsigned, or_else, Params, ParamValue, into_iter, next, collect,
}
use opensrv.Params.Drain.{validate-next}
use opensrv.Examples.Crates.{reads}

-- A NULL bitmap, new types: one unsigned LONG, and its value 1.
abbrev payload : Bytes
payload = 0 ∷ 1 ∷ 3 ∷ 128 ∷ 1 ∷ 0 ∷ 0 ∷ 0 ∷ []

abbrev bound : Types
bound = (ColumnType.long, true) ∷ []

accepts_payload : validate reads 1 payload [] [] ≡ (ok tt, bound)
unfolding opensrv.Value.parse_from validate validate_types validate_values read_types skip_value
    nullmap_len get_long_data is_null_bit is_unsigned or_else
accepts_payload = refl

validate-next_example :
    (vs : List ParamValue) × (p : Params) × (collect reads 1 (into_iter 1 payload [] bound)
      ≡ (ok vs, p))
    × (length vs ≡ 1)
    × ((next reads p).0 ≡ ok none)
validate-next_example = validate-next reads 1 payload [] [] bound accepts_payload
