-- ===== src/Session/Table/Served.antt =====
-- lib.rs: each change of the statements keeps the count of streamed data and the number of statements.
use opensrv.Common.{
  ℕ, ◌≤◌, ◌<◌, ◌≡◌, refl, ap, Option, some, List, [], ◌∷◌, Bytes, length, leb, ◌==◌, arith,
  Bool-cases, Option-cases, inl, inr,
}
use opensrv.Wire.{usize_mod}
use opensrv.Writers.{Column}
use opensrv.Params.{Types}
use opensrv.Session.Table.{
  StatementData, Statements, find, put, remove, Table, Limits, close, reset, insert,
  discard_long_data, append_long_data, new_sizes, send_long_data, saturating_size, set_cursor,
  set_types, clear_long_data, forget_long_data, uncount,
}
use opensrv.Session.Table.Sizes.{data_size, IsAccounted}
use opensrv.Session.Table.Account.{
  put-IsAccounted, discard-IsAccounted, close-IsAccounted, send_long_data-IsAccounted,
  insert-IsAccounted,
}

-- The count of streamed data is exact and within the limits, and so is the number of statements.
pub record IsServed (limits : Limits) (t : Table) : Type 0 where
  pub accounted : IsAccounted limits t
  pub few : length t.stmts ≤ limits.max_prepared_statements

length-put : (stmt : ℕ) (s : StatementData) (m : Statements) → length (put stmt s m) ≡ length m
length-put stmt s [] = refl
length-put stmt s ((id, r) ∷ m) = elim (Bool-cases (id == stmt)) [
  | inl e ↦ rw e refl
  | inr e ↦ rw e (omega (arith, length-put stmt s m))
]

length-remove : (stmt : ℕ) (m : Statements) → length (remove stmt m) ≤ length m
length-remove stmt [] = omega arith
length-remove stmt ((id, r) ∷ m) = elim (Bool-cases (id == stmt)) [
  | inl e ↦ rw e (omega arith)
  | inr e ↦ rw e (omega (arith, length-remove stmt m))
]

find-put :
    (stmt : ℕ) (s s' : StatementData) (m : Statements)
    → find stmt m ≡ some s
    → find stmt (put stmt s' m) ≡ some s'
find-put stmt s s' [] h = cc
find-put stmt s s' ((id, r) ∷ m) h = elim (Bool-cases (id == stmt)) [
  | inl e ↦ rw (e, e) refl
  | inr e ↦ rw (e, e) (find-put stmt s s' m (rw e at h))
]

pub find-set_cursor :
    (stmt : ℕ) (columns : Option (List Column)) (s : StatementData) (t : Table)
    → find stmt t.stmts ≡ some s
    → find stmt (set_cursor stmt columns t).stmts ≡ some (record s { cursor_columns = columns })
unfolding set_cursor
find-set_cursor stmt columns s t h = rw (h, set_cursor) (find-put stmt s _ t.stmts h)

pub find-set_types :
    (stmt : ℕ) (types : Types) (s : StatementData) (t : Table)
    → find stmt t.stmts ≡ some s
    → find stmt (set_types stmt types t).stmts ≡ some (record s { bound_types = types })
unfolding set_types
find-set_types stmt types s t h = rw (h, set_types) (find-put stmt s _ t.stmts h)

module _ (limits : Limits) (bounded : limits.max_connection_long_data_size < usize_mod) where
  put-IsServed :
      (stmt : ℕ) (s s' : StatementData) (t : Table)
      → find stmt t.stmts ≡ some s
      → s'.long_data ≡ s.long_data
      → IsServed limits t
      → IsServed limits (record t { stmts = put stmt s' t.stmts })
  put-IsServed stmt s s' t h same v = record {
    accounted = put-IsAccounted limits bounded stmt s s' t h (ap data_size same) v.accounted;
    few = omega (arith, length-put stmt s' t.stmts, v.few);
  }

  pub set_cursor-IsServed :
      (stmt : ℕ) (columns : Option (List Column)) (t : Table)
      → IsServed limits t
      → IsServed limits (set_cursor stmt columns t)
  unfolding set_cursor
  set_cursor-IsServed stmt columns t v = elim (Option-cases (find stmt t.stmts)) [
    | inl e ↦ rw (e, set_cursor) v
    | inr (s, e) ↦ rw (e, set_cursor) (put-IsServed stmt s _ t e refl v)
  ]

  pub set_types-IsServed :
      (stmt : ℕ) (types : Types) (t : Table)
      → IsServed limits t
      → IsServed limits (set_types stmt types t)
  unfolding set_types
  set_types-IsServed stmt types t v = elim (Option-cases (find stmt t.stmts)) [
    | inl e ↦ rw (e, set_types) v
    | inr (s, e) ↦ rw (e, set_types) (put-IsServed stmt s _ t e refl v)
  ]

  discard-IsServed :
      (stmt : ℕ) (s r : StatementData) (t : Table)
      → find stmt t.stmts ≡ some s
      → r.long_data ≡ s.long_data
      → IsServed limits t
      → IsServed limits (discard_long_data stmt r t)
  unfolding discard_long_data
  discard-IsServed stmt s r t h same v = record {
    accounted = discard-IsAccounted limits bounded stmt s r t h same v.accounted;
    few = omega (arith, length-put stmt (record r { long_data = [] }) t.stmts, v.few);
  }

  pub clear_long_data-IsServed :
      (stmt : ℕ) (t : Table) → IsServed limits t → IsServed limits (clear_long_data stmt t)
  unfolding clear_long_data
  clear_long_data-IsServed stmt t v = elim (Option-cases (find stmt t.stmts)) [
    | inl e ↦ rw (e, clear_long_data) v
    | inr (s, e) ↦ rw (e, clear_long_data) (discard-IsServed stmt s s t e refl v)
  ]

  pub reset-IsServed :
      (stmt : ℕ) (s : StatementData) (t : Table)
      → find stmt t.stmts ≡ some s
      → IsServed limits t
      → IsServed limits (reset stmt s t)
  unfolding reset
  reset-IsServed stmt s t h v = discard-IsServed stmt s _ t h refl v

  -- The two parts of a discard, if nothing changes the statements between them.
  pub uncount-IsServed :
      (stmt : ℕ) (s : StatementData) (t : Table)
      → find stmt t.stmts ≡ some s
      → IsServed limits t
      → IsServed limits (uncount (saturating_size 0 s.long_data) (forget_long_data stmt t))
  unfolding uncount forget_long_data discard_long_data
  uncount-IsServed stmt s t h v = rw (h, forget_long_data) (discard-IsServed stmt s s t h refl v)

  pub close-IsServed : (stmt : ℕ) (t : Table) → IsServed limits t → IsServed limits (close stmt t)
  unfolding close
  close-IsServed stmt t v = record {
    accounted = close-IsAccounted limits bounded stmt t v.accounted;
    few = fewer;
  }
    where
      fewer : length (close stmt t).stmts ≤ limits.max_prepared_statements
      fewer = elim (Option-cases (find stmt t.stmts)) [
        | inl e ↦ rw (e, close) v.few
        | inr (s, e) ↦ rw (e, close) (omega (arith, length-remove stmt t.stmts, v.few))
      ]

  pub insert-IsServed :
      (stmt params : ℕ) (t : Table)
      → length t.stmts < limits.max_prepared_statements
      → IsServed limits t
      → IsServed limits (insert stmt params t)
  unfolding insert
  insert-IsServed stmt params t h v = record {
    accounted = insert-IsAccounted limits bounded stmt params t v.accounted;
    few = omega arith;
  }

  append-length :
      (stmt param : ℕ) (d : Bytes) (s : StatementData) (t : Table)
      → length (append_long_data limits stmt param d s t).stmts ≡ length t.stmts
  unfolding append_long_data
  append-length stmt param d s t = elim (Option-cases (new_sizes t s d)) [
    | inl e ↦ rw (e, append_long_data) (length-put stmt _ t.stmts)
    | inr ((n, c), e) ↦ elim (Bool-cases (leb n limits.max_long_data_size)) [
      | inr f ↦ rw (e, f, append_long_data) (length-put stmt _ t.stmts)
      | inl f ↦ elim (Bool-cases (leb c limits.max_connection_long_data_size)) [
        | inr g ↦ rw (e, f, g, append_long_data) (length-put stmt _ t.stmts)
        | inl g ↦ rw (e, f, g, append_long_data) (length-put stmt _ t.stmts)
      ]
    ]
  ]

  send_long_data-length :
      (stmt param : ℕ) (d : Bytes) (t : Table)
      → length (send_long_data limits stmt param d t).stmts ≡ length t.stmts
  unfolding send_long_data
  send_long_data-length stmt param d t = elim (Option-cases (find stmt t.stmts)) [
    | inl e ↦ rw (e, send_long_data) refl
    | inr (s, e) ↦ elim (Option-cases s.pending_error) [
      | inr (_, f) ↦ rw (e, f, send_long_data) refl
      | inl f ↦ elim (Bool-cases (leb s.params param)) [
        | inl g ↦ rw (e, f, g, send_long_data) (length-put stmt _ t.stmts)
        | inr g ↦ rw (e, f, g, send_long_data) (append-length stmt param d s t)
      ]
    ]
  ]

  pub send_long_data-IsServed :
      (stmt param : ℕ) (d : Bytes) (t : Table)
      → IsServed limits t
      → IsServed limits (send_long_data limits stmt param d t)
  send_long_data-IsServed stmt param d t v = record {
    accounted = send_long_data-IsAccounted limits bounded stmt param d t v.accounted;
    few = omega (arith, send_long_data-length stmt param d t, v.few);
  }

-- A session without statements.
pub empty-IsServed :
    (limits : Limits) → IsServed limits (record { stmts = []; total_long_data_size = 0 })
empty-IsServed limits = record {
  accounted = record { exact = refl; within = omega arith; each_within = tt };
  few = omega arith;
}
