-- ===== src/Examples/Challenges.antt =====
-- mysql/src/lib.rs: a challenge whose first random bytes are not all acceptable.
use opensrv.Common.{◌≡◌, ◌<◌, ◌≤◌, refl, false, some, [], ◌∷◌, Bytes, length, All, ok, arith}
use opensrv.Session.Connection.{has_delimiter}
use opensrv.Session.Login.Challenge.{
  Draws, kept_count, generate_scramble, draws_of, generate_scramble-has_delimiter,
  generate_scramble-draws_of,
}

abbrev filled : Bytes
filled = 0x41 ∷ 0x24 ∷ 0x80 ∷ []

abbrev random : Bytes
random = 0 ∷ 0x42 ∷ 0xff ∷ 0x43 ∷ 0x44 ∷ []

abbrev challenge : Bytes
challenge = 0x41 ∷ 0x42 ∷ 0x43 ∷ []

drawn : generate_scramble (ok filled) (draws_of random) ≡ some (ok challenge, ok 0x44 ∷ [])
unfolding generate_scramble draws_of
drawn = refl

generate_scramble-has_delimiter_example :
    (length challenge ≡ length filled)
    × (has_delimiter challenge ≡ false)
    × All (λ b. b < 0x80) challenge
generate_scramble-has_delimiter_example =
    generate_scramble-has_delimiter filled (draws_of random) (ok 0x44 ∷ []) challenge drawn

enough : length filled ≤ kept_count random
unfolding kept_count
enough = omega arith

generate_scramble-draws_of_example :
    (scramble : Bytes) × (rest : Draws) × (generate_scramble (ok filled) (draws_of random)
      ≡ some (ok scramble, rest))
generate_scramble-draws_of_example = generate_scramble-draws_of filled random enough
