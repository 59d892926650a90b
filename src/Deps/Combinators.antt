-- ===== src/Deps/Combinators.antt =====
-- The combinators of the crate nom that commands.rs puts its parsers together with, and the command
-- bytes of the crate mysql_common.
use opensrv.Common.{ℕ, ◌≡◌, ◌≢◌, List, [], ◌∷◌, Bytes, All, is_nil, if◌then◌else◌, ok, err, ◌>>=◌}
use opensrv.Deps.Nom.{IResult, error}

abbrev pub Parser : Type 0 → Type 0
Parser A = Bytes → IResult A

-- `alt` goes on to the next parser after an `Error` only, and gives that of the last one.
pub record Combinators : Type 1 where
  pub alt : {A : Type 0} → List (Parser A) → Parser A
  pub preceded : {A B : Type 0} → Parser A → Parser B → Parser B
  pub map_parser : {A B : Type 0} → Parser A → (A → B) → Parser B
  pub pair : {A B : Type 0} → Parser A → Parser B → Parser (A × B)
  pub rest : Parser Bytes
  pub all_consuming : {A : Type 0} → Parser A → Parser A
  pub alt_found :
      {A : Type 0} (p : Parser A) (ps : List (Parser A)) (i : Bytes)
      → p i ≢ err error
      → alt (p ∷ ps) i ≡ p i
  pub alt_next :
      {A : Type 0} (p q : Parser A) (ps : List (Parser A)) (i : Bytes)
      → p i ≡ err error
      → alt (p ∷ q ∷ ps) i ≡ alt (q ∷ ps) i
  pub alt_last : {A : Type 0} (p : Parser A) (i : Bytes) → alt (p ∷ []) i ≡ p i
  pub preceded_lem :
      {A B : Type 0} (p : Parser A) (q : Parser B) (i : Bytes)
      → preceded p q i ≡ (p i >>= λ (left, _). q left)
  pub map_lem :
      {A B : Type 0} (p : Parser A) (f : A → B) (i : Bytes)
      → map_parser p f i ≡ (p i >>= λ (left, a). ok (left, f a))
  pub pair_lem :
      {A B : Type 0} (p : Parser A) (q : Parser B) (i : Bytes)
      → pair p q i ≡ (p i >>= λ (left, a). q left >>= λ (left', b). ok (left', (a, b)))
  pub rest_lem : (i : Bytes) → rest i ≡ ok ([], i)
  pub all_consuming_lem :
      {A : Type 0} (p : Parser A) (i : Bytes)
      → all_consuming p i ≡ (p i >>= λ (left, a). if is_nil left then ok (left, a) else err error)

abbrev pub AllDistinct : List ℕ → Type 0
AllDistinct [] = Unit
AllDistinct (c ∷ cs) = All (λ d. c ≢ d) cs × AllDistinct cs

-- `Command` of mysql_common, as bytes.
pub record CommandByte : Type 0 where
  pub com_query : ℕ
  pub com_field_list : ℕ
  pub com_init_db : ℕ
  pub com_stmt_prepare : ℕ
  pub com_stmt_execute : ℕ
  pub com_stmt_fetch : ℕ
  pub com_stmt_send_long_data : ℕ
  pub com_stmt_close : ℕ
  pub com_stmt_reset : ℕ
  pub com_quit : ℕ
  pub com_ping : ℕ
  pub com_reset_connection : ℕ
  pub distinct : AllDistinct (
      com_query ∷ com_field_list ∷ com_init_db ∷ com_stmt_prepare ∷ com_stmt_execute
      ∷ com_stmt_fetch ∷ com_stmt_send_long_data ∷ com_stmt_close ∷ com_stmt_reset ∷ com_quit
      ∷ com_ping ∷ com_reset_connection ∷ [])
