-- ===== src/Examples/Crates/Combinators.antt =====
-- The combinators of the crate nom.
use opensrv.Common.{
  ◌≡◌, ◌≢◌, refl, List, [], ◌∷◌, Bytes, is_nil, if◌then◌else◌, ok, err, ◌>>=◌, ◌>>=◌,
}
use opensrv.Deps.Nom.{IResult, incomplete, error, failure, panicked, out_of_fuel}
use opensrv.Deps.Combinators.{Parser, Combinators}

-- The rest of an alternative, given the outcome of its first parser.
abbrev or_next : {A : Type 0} → IResult A → IResult A → IResult A
or_next (err error) rest = rest
or_next r rest = r

-- The first parser that does not return an `Error`.
abbrev alt : {A : Type 0} → List (Parser A) → Parser A
alt [] i = err error
alt (p ∷ []) i = p i
alt (p ∷ q ∷ ps) i = or_next (p i) (alt (q ∷ ps) i)

abbrev or_next_stops : {A : Type 0} (r rest : IResult A) → r ≢ err error → or_next r rest ≡ r
or_next_stops (err error) rest h = absurd (h refl)
or_next_stops (ok x) rest h = refl
or_next_stops (err incomplete) rest h = refl
or_next_stops (err failure) rest h = refl
or_next_stops (err panicked) rest h = refl
or_next_stops (err out_of_fuel) rest h = refl

abbrev alt_stops :
    {A : Type 0} (p : Parser A) (ps : List (Parser A)) (i : Bytes)
    → p i ≢ err error
    → alt (p ∷ ps) i ≡ p i
alt_stops p [] i h = refl
alt_stops p (q ∷ ps) i h = or_next_stops (p i) (alt (q ∷ ps) i) h

abbrev pub combinators : Combinators
combinators = record {
  alt = alt;
  preceded = λ p q i. p i >>= λ (left, _). q left;
  map_parser = λ p f i. p i >>= λ (left, a). ok (left, f a);
  pair = λ p q i. p i >>= λ (left, a). q left >>= λ (left', b). ok (left', (a, b));
  rest = λ i. ok ([], i);
  all_consuming = λ p i. p i >>= λ (left, a). if is_nil left then ok (left, a) else err error;
  alt_found = alt_stops;
  alt_next = λ p q ps i h. rw h refl;
  alt_last = λ p i. refl;
  preceded_lem = λ p q i. refl;
  map_lem = λ p f i. refl;
  pair_lem = λ p q i. refl;
  rest_lem = λ i. refl;
  all_consuming_lem = λ p i. refl;
}
