-- ===== src/Commands/Dispatch.antt =====
-- mysql/src/commands.rs: `parse` is a table from command bytes to parsers.
pub mod RoundTrip
use opensrv.Common.{
  ℕ, ◌+◌, ◌*◌, ◌/◌, ◌%◌, ◌^◌, ◌<◌, ◌≡◌, ◌≢◌, refl, sym, ap, ◌∙◌, Bool, true, false, Option, List,
  [], ◌∷◌, ◌++◌, map, Bytes, length, All, is_nil, ◌==◌, if◌then◌else◌, ==_refl, ==→eq, ==→ne, ne→==,
  Bool-cases, ◌⊎◌, inl, inr, Result, ok, err, ◌>>=◌, Result-cases, arith,
}
use mathlib.Core.Path.{subst, ap₂}
use opensrv.Deps.Nom.{Nom, NomErr, IResult, incomplete, error, failure, panicked, out_of_fuel}
use opensrv.Deps.Combinators.{Parser, Combinators, AllDistinct, CommandByte}
use opensrv.Commands.{
  Command, query, list_fields, prepare, init, close_stmt, reset_stmt, fetch, execute, long_data,
  ping, reset_connection, quit, execute_args, long_data_args, command_tag, parsers, parse,
}

abbrev pub ParserTable : Type 0
ParserTable = List (ℕ × Parser Command)

-- The parser at the first byte, on the bytes behind it.
pub lookup : ParserTable → Parser Command
lookup es [] = err error
lookup [] (d ∷ r) = err error
lookup ((c, body) ∷ es) (d ∷ r) = let rest = lookup es (d ∷ r) in if d == c then body r else rest

abbrev pub codes_of : ParserTable → List ℕ
codes_of [] = []
codes_of ((c, body) ∷ es) = c ∷ codes_of es

abbrev tag_of : {A : Type 0} → IResult A → ℕ
tag_of (err error) = 0
tag_of _ = 1

error_or_not : {A : Type 0} (r : IResult A) → (r ≡ err error) ⊎ (r ≢ err error)
error_or_not (err error) = inl refl
error_or_not (ok x) = inr (λ h. absurd (omega (arith, ap tag_of h)))
error_or_not (err incomplete) = inr (λ h. absurd (omega (arith, ap tag_of h)))
error_or_not (err failure) = inr (λ h. absurd (omega (arith, ap tag_of h)))
error_or_not (err panicked) = inr (λ h. absurd (omega (arith, ap tag_of h)))
error_or_not (err out_of_fuel) = inr (λ h. absurd (omega (arith, ap tag_of h)))

-- A parser that tries one command byte.
record Answers {A : Type 0} (p : Parser A) (c : ℕ) (body : Parser A) : Type 0 where
  hit : (r : Bytes) → p (c ∷ r) ≡ body r
  miss : (d : ℕ) (r : Bytes) → d ≢ c → p (d ∷ r) ≡ err error
  on_empty : p [] ≡ err error

abbrev Answering : List (Parser Command) → ParserTable → Type 0
Answering [] [] = Unit
Answering (p ∷ ps) ((c, body) ∷ es) = Answers p c body × Answering ps es
Answering _ _ = ⊥

pub lookup-missing :
    (es : ParserTable) (d : ℕ) (r : Bytes)
    → All (λ c. d ≢ c) (codes_of es)
    → lookup es (d ∷ r) ≡ err error
unfolding lookup
lookup-missing [] d r h = refl
lookup-missing ((c, body) ∷ es) d r (ne, h) = rw (ne→== d c ne) (lookup-missing es d r h)

module _ (combinators : Combinators) where
  open combinators use {alt, alt_found, alt_next, alt_last}

  alt-lookup :
      (p : Parser Command) (ps : List (Parser Command)) (es : ParserTable)
      → Answering (p ∷ ps) es
      → AllDistinct (codes_of es)
      → (i : Bytes) → alt (p ∷ ps) i ≡ lookup es i
  unfolding lookup
  alt-lookup p [] [] h distinct i = absurd h
  alt-lookup p (q ∷ ps) [] h distinct i = absurd h
  alt-lookup p [] ((c, body) ∷ e ∷ es) (_, h) distinct i = absurd h
  alt-lookup p [] ((c, body) ∷ []) (a, _) distinct [] = alt_last p [] ∙ a.on_empty
  alt-lookup p [] ((c, body) ∷ []) (a, _) distinct (d ∷ r) = elim (Bool-cases (d == c)) [
    | inl e ↦ rw e (alt_last p (d ∷ r) ∙ rw (==→eq d c e) (a.hit r))
    | inr e ↦ rw e (alt_last p (d ∷ r) ∙ a.miss d r (==→ne d c e))
  ]
  alt-lookup p (q ∷ ps) ((c, body) ∷ es) (a, h) (fresh, distinct) [] =
      alt_next p q ps [] a.on_empty ∙ alt-lookup q ps es h distinct []
  alt-lookup p (q ∷ ps) ((c, body) ∷ es) (a, h) (fresh, distinct) (d ∷ r) =
      elim (Bool-cases (d == c)) [
        | inl e ↦ rw e (elim (error_or_not (body r)) [
          | inl failed ↦ rw (==→eq d c e) (
              alt_next p q ps (c ∷ r) (a.hit r ∙ failed)
              ∙ alt-lookup q ps es h distinct (c ∷ r)
              ∙ lookup-missing es c r fresh
              ∙ sym failed)
          | inr fine ↦
              rw (==→eq d c e)
                (alt_found p (q ∷ ps) (c ∷ r) (λ bad. fine (sym (a.hit r) ∙ bad)) ∙ a.hit r)
        ])
        | inr e ↦ rw e (
            alt_next p q ps (d ∷ r) (a.miss d r (==→ne d c e))
            ∙ alt-lookup q ps es h distinct (d ∷ r))
      ]

head_or : ℕ → Bytes → ℕ
head_or d [] = d
head_or d (x ∷ xs) = x

no_head : (d : ℕ) (r s : Bytes) (c : ℕ) → d ≢ c → ◌≢◌ {A = Bytes} (d ∷ r) (c ∷ s)
unfolding head_or
no_head d r s c ne h = ne (ap (head_or d) h)

module _ (nom : Nom) (combinators : Combinators) where
  open combinators use {preceded, map_parser, rest, pair}

  tag-Answers : (c : ℕ) → Answers (command_tag nom c) c (λ r. ok (r, c ∷ []))
  tag-Answers c = record {
    hit = nom.tag_match (c ∷ []);
    miss = λ d r ne. nom.tag_mismatch (c ∷ []) (d ∷ r) (λ s. no_head d r s c ne);
    on_empty = nom.tag_mismatch (c ∷ []) [] (λ s h. absurd (omega (arith, ap length h)));
  }

  module _ {A : Type 0} where
    preceded-Answers : (c : ℕ) (q : Parser A) → Answers (preceded (command_tag nom c) q) c q
    preceded-Answers c q =
        let a = tag-Answers c in
        record {
          hit = λ r. combinators.preceded_lem (command_tag nom c) q (c ∷ r) ∙ rw (a.hit r);
          miss =
              λ d r ne. combinators.preceded_lem (command_tag nom c) q (d ∷ r) ∙ rw (a.miss d r ne);
          on_empty = combinators.preceded_lem (command_tag nom c) q [] ∙ rw a.on_empty;
        }

    map-Answers :
        {B : Type 0} (c : ℕ) (p q : Parser A) (f : A → B)
        → Answers p c q
        → Answers (map_parser p f) c (λ r. q r >>= λ (left, a). ok (left, f a))
    map-Answers c p q f a = record {
      hit = λ r. combinators.map_lem p f (c ∷ r) ∙ rw (a.hit r);
      miss = λ d r ne. combinators.map_lem p f (d ∷ r) ∙ rw (a.miss d r ne);
      on_empty = combinators.map_lem p f [] ∙ rw a.on_empty;
    }

    same-Answers :
        (c : ℕ) (p q q' : Parser A) → Answers p c q → ((r : Bytes) → q r ≡ q' r) → Answers p c q'
    same-Answers c p q q' a h = record {
      hit = λ r. a.hit r ∙ h r;
      miss = a.miss;
      on_empty = a.on_empty;
    }

  -- A command byte with the rest of the packet, and one with a number.
  rest-Answers :
      (c : ℕ) (f : Bytes → Command)
      → Answers (map_parser (preceded (command_tag nom c) rest) f) c (λ r. ok ([], f r))
  rest-Answers c f =
      same-Answers c _ _ _ (map-Answers c _ rest f (preceded-Answers c rest))
        (λ r. rw (combinators.rest_lem r))

  pub read_pair : Parser (ℕ × ℕ)
  read_pair i = do (left, a) ← nom.le_u32 i; (left', b) ← nom.le_u32 left; ok (left', (a, b))

  pair-Answers :
      (c : ℕ) → Answers (preceded (command_tag nom c) (pair nom.le_u32 nom.le_u32)) c read_pair
  unfolding read_pair
  pair-Answers c =
      same-Answers c _ _ _ (preceded-Answers c (pair nom.le_u32 nom.le_u32))
        (λ r. combinators.pair_lem nom.le_u32 nom.le_u32 r)

  module _ (codes : CommandByte) where
    open codes use {
      com_query, com_field_list, com_init_db, com_stmt_prepare, com_stmt_execute, com_stmt_fetch,
      com_stmt_send_long_data, com_stmt_close, com_stmt_reset, com_quit, com_ping,
      com_reset_connection,
    }

    unfoldable pub table : ParserTable
    table =
        (com_query, λ r. ok ([], query r))
        ∷ (com_field_list, λ r. ok ([], list_fields r))
        ∷ (com_init_db, λ r. ok ([], init r))
        ∷ (com_stmt_prepare, λ r. ok ([], prepare r))
        ∷ (com_stmt_execute, execute_args nom)
        ∷ (com_stmt_fetch, λ r. read_pair r >>= λ (left, (stmt, rows)). ok (left, fetch stmt rows))
        ∷ (com_stmt_send_long_data, long_data_args nom)
        ∷ (com_stmt_close, λ r. nom.le_u32 r >>= λ (left, stmt). ok (left, close_stmt stmt))
        ∷ (com_stmt_reset, λ r. nom.le_u32 r >>= λ (left, stmt). ok (left, reset_stmt stmt))
        ∷ (com_quit, λ r. ok (r, quit))
        ∷ (com_ping, λ r. ok (r, ping))
        ∷ (com_reset_connection, λ r. ok (r, reset_connection))
        ∷ []

    parsers-Answering : Answering (parsers nom combinators codes) table
    unfolding table
    parsers-Answering = (
      rest-Answers com_query query,
      (
        rest-Answers com_field_list list_fields,
        (
          rest-Answers com_init_db init,
          (
            rest-Answers com_stmt_prepare prepare,
            (
              preceded-Answers com_stmt_execute (execute_args nom),
              (
                map-Answers com_stmt_fetch _ read_pair _ (pair-Answers com_stmt_fetch),
                (
                  preceded-Answers com_stmt_send_long_data (long_data_args nom),
                  (
                    map-Answers com_stmt_close _ nom.le_u32 close_stmt
                        (preceded-Answers com_stmt_close nom.le_u32),
                    (
                      map-Answers com_stmt_reset _ nom.le_u32 reset_stmt
                          (preceded-Answers com_stmt_reset nom.le_u32),
                      (
                        map-Answers com_quit _ _ (λ _. quit) (tag-Answers com_quit),
                        (
                          map-Answers com_ping _ _ (λ _. ping) (tag-Answers com_ping),
                          (
                            map-Answers com_reset_connection _ _ (λ _. reset_connection)
                                (tag-Answers com_reset_connection),
                            tt,
                          ),
                        ),
                      ),
                    ),
                  ),
                ),
              ),
            ),
          ),
        ),
      ),
    )

    -- `parse` is the parser of the table at the first byte of the packet, which has to read all of
    -- it: no order in which the parsers are tried, and no retry after an error, is left in the result.
    pub parse-lookup :
        (i : Bytes)
        → parse nom combinators codes i ≡ (
            lookup table i >>= λ (left, command).
            if is_nil left then ok (left, command) else err error)
    unfolding parse table
    parse-lookup i =
        combinators.all_consuming_lem (combinators.alt (parsers nom combinators codes)) i
        ∙ rw (alt-lookup combinators _ _ table parsers-Answering codes.distinct i)
