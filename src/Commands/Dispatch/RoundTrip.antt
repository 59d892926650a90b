-- ===== src/Commands/Dispatch/RoundTrip.antt =====
-- mysql/src/commands.rs: `parse` reads back every command that is written as the protocol says.
use opensrv.Common.{
  ℕ, ◌/◌, ◌%◌, ◌^◌, ◌<◌, ◌≡◌, refl, sym, ap, ◌∙◌, [], ◌∷◌, ◌++◌, Bytes, All, ==_refl, ne→==, ok,
  arith,
}
use opensrv.Deps.Nom.{Nom}
use opensrv.Deps.Combinators.{Parser, Combinators, AllDistinct, CommandByte}
use opensrv.Commands.{
  Command, query, list_fields, prepare, init, close_stmt, reset_stmt, fetch, execute, long_data,
  ping, reset_connection, quit, execute_args, long_data_args, parse,
}
use opensrv.Commands.Dispatch.{ParserTable, codes_of, lookup, table, read_pair, parse-lookup}

abbrev pub u16_bytes : ℕ → Bytes
u16_bytes n = n % 2 ^ 8 ∷ n / 2 ^ 8 ∷ []

abbrev pub u32_bytes : ℕ → Bytes
u32_bytes n = n % 2 ^ 8 ∷ n / 2 ^ 8 % 2 ^ 8 ∷ n / 2 ^ 16 % 2 ^ 8 ∷ n / 2 ^ 24 ∷ []

-- The fields of a command are numbers of their width.
abbrev pub Fits : Command → Type 0
Fits (close_stmt stmt) = stmt < 2 ^ 32
Fits (reset_stmt stmt) = stmt < 2 ^ 32
Fits (fetch stmt rows) = (stmt < 2 ^ 32) × (rows < 2 ^ 32)
Fits (execute stmt flags iteration_count params) =
    (stmt < 2 ^ 32) × (flags < 2 ^ 8) × (iteration_count < 2 ^ 32)
Fits (long_data stmt param data_) = (stmt < 2 ^ 32) × (param < 2 ^ 16)
Fits _ = Unit

data Row (c : ℕ) (body : Parser Command) : ParserTable → Type 0 where
  here : {es : ParserTable} → Row c body ((c, body) ∷ es)
  there : {e : ℕ × Parser Command} {es : ParserTable} → Row c body es → Row c body (e ∷ es)

Row-code :
    (P : ℕ → Type 0) {c : ℕ} {body : Parser Command} {es : ParserTable}
    → Row c body es
    → All P (codes_of es)
    → P c
Row-code P here (p, ps) = p
Row-code P (there row) (p, ps) = Row-code P row ps

lookup-Row :
    (c : ℕ) (body : Parser Command) {es : ParserTable}
    → Row c body es
    → AllDistinct (codes_of es)
    → (r : Bytes) → lookup es (c ∷ r) ≡ body r
unfolding lookup
lookup-Row c body here h r = rw (==_refl c)
lookup-Row c body (there row) (fresh, h) r =
    rw (ne→== c _ (λ same. Row-code _ row fresh (sym same))) (lookup-Row c body row h r)

module _ (nom : Nom) where
  pub read_u16 :
      (n : ℕ) (rest : Bytes) → n < 2 ^ 16 → nom.le_u16 (u16_bytes n ++ rest) ≡ ok (rest, n)
  read_u16 n rest h = nom.le_u16_enough _ _ rest ∙ ap (λ m. ok (rest, m)) (omega arith)

  pub read_u32 :
      (n : ℕ) (rest : Bytes) → n < 2 ^ 32 → nom.le_u32 (u32_bytes n ++ rest) ≡ ok (rest, n)
  read_u32 n rest h = nom.le_u32_enough _ _ _ _ rest ∙ ap (λ m. ok (rest, m)) (omega arith)

module _ (nom : Nom) (combinators : Combinators) (codes : CommandByte) where
  open codes use {
    com_query, com_field_list, com_init_db, com_stmt_prepare, com_stmt_execute, com_stmt_fetch,
    com_stmt_send_long_data, com_stmt_close, com_stmt_reset, com_quit, com_ping,
    com_reset_connection,
  }

  pub command_bytes : Command → Bytes
  command_bytes (query q) = com_query ∷ q
  command_bytes (list_fields args) = com_field_list ∷ args
  command_bytes (init schema) = com_init_db ∷ schema
  command_bytes (prepare q) = com_stmt_prepare ∷ q
  command_bytes (execute stmt flags iteration_count params) =
      com_stmt_execute ∷ (u32_bytes stmt ++ (flags ∷ (u32_bytes iteration_count ++ params)))
  command_bytes (fetch stmt rows) = com_stmt_fetch ∷ (u32_bytes stmt ++ u32_bytes rows)
  command_bytes (long_data stmt param data_) =
      com_stmt_send_long_data ∷ (u32_bytes stmt ++ (u16_bytes param ++ data_))
  command_bytes (close_stmt stmt) = com_stmt_close ∷ u32_bytes stmt
  command_bytes (reset_stmt stmt) = com_stmt_reset ∷ u32_bytes stmt
  command_bytes quit = com_quit ∷ []
  command_bytes ping = com_ping ∷ []
  command_bytes reset_connection = com_reset_connection ∷ []

  -- A packet whose first byte has a parser that reads the rest of it.
  parse-Row :
      (c : ℕ) (body : Parser Command) (r : Bytes) (command : Command)
      → Row c body (table nom combinators codes)
      → body r ≡ ok ([], command)
      → parse nom combinators codes (c ∷ r) ≡ ok ([], command)
  unfolding table
  parse-Row c body r command row e =
      parse-lookup nom combinators codes (c ∷ r) ∙ rw (lookup-Row c body row codes.distinct r, e)

  execute_args_lem :
      (stmt flags iteration_count : ℕ) (params : Bytes)
      → Fits (execute stmt flags iteration_count params)
      → execute_args nom (u32_bytes stmt ++ (flags ∷ (u32_bytes iteration_count ++ params)))
        ≡ ok ([], execute stmt flags iteration_count params)
  unfolding execute_args
  execute_args_lem stmt flags iteration_count params (a, b, c) = rw (
    read_u32 nom stmt (flags ∷ (u32_bytes iteration_count ++ params)) a,
    nom.le_u8_enough flags (u32_bytes iteration_count ++ params),
    read_u32 nom iteration_count params c,
  )

  -- Every command whose fields have their width is read back from its bytes, with nothing left over.
  pub parse-command_bytes :
      (c : Command) → Fits c → parse nom combinators codes (command_bytes c) ≡ ok ([], c)
  unfolding command_bytes table execute_args long_data_args read_pair
  parse-command_bytes (query q) h = parse-Row _ _ q _ here refl
  parse-command_bytes (list_fields q) h = parse-Row _ _ q _ (there here) refl
  parse-command_bytes (init q) h = parse-Row _ _ q _ (there (there here)) refl
  parse-command_bytes (prepare q) h = parse-Row _ _ q _ (there (there (there here))) refl
  parse-command_bytes (execute stmt flags n params) h =
      parse-Row _ _ (u32_bytes stmt ++ (flags ∷ (u32_bytes n ++ params))) _
        (there (there (there (there here)))) (execute_args_lem stmt flags n params h)
  parse-command_bytes (fetch stmt rows) h =
      parse-Row _ _ (u32_bytes stmt ++ u32_bytes rows) _
        (there (there (there (there (there here)))))
        (rw (read_u32 nom stmt (u32_bytes rows) h.0, read_u32 nom rows [] h.1))
  parse-command_bytes (long_data stmt param data_) h =
      parse-Row _ _ (u32_bytes stmt ++ (u16_bytes param ++ data_)) _
        (there (there (there (there (there (there here))))))
        (rw (read_u32 nom stmt (u16_bytes param ++ data_) h.0, read_u16 nom param data_ h.1))
  parse-command_bytes (close_stmt stmt) h =
      parse-Row _ _ (u32_bytes stmt) _ (there (there (there (there (there (there (there here)))))))
        (rw (read_u32 nom stmt [] h))
  parse-command_bytes (reset_stmt stmt) h =
      parse-Row _ _ (u32_bytes stmt) _
        (there (there (there (there (there (there (there (there here))))))))
        (rw (read_u32 nom stmt [] h))
  parse-command_bytes quit h =
      parse-Row _ _ [] _
        (there (there (there (there (there (there (there (there (there here))))))))) refl
  parse-command_bytes ping h =
      parse-Row _ _ [] _
        (there (there (there (there (there (there (there (there (there (there here)))))))))) refl
  parse-command_bytes reset_connection h =
      parse-Row _ _ [] _
        (there (there (there (there (there (there (there (there (there (there (there here)))))))))))
        refl
