-- ===== src/Session/Table/Account.antt =====
-- mysql/src/lib.rs: each change of the statements keeps the account of their streamed data.
use opensrv.Common.{
  ℕ, ◌+◌, ◌≤◌, ◌<◌, ◌≡◌, refl, ap, some, [], Bytes, length, leb, arith, Bool-cases, leb→le,
  Option-cases, inl, inr,
}
use opensrv.Wire.{usize_mod}
use opensrv.Session.Table.{
  StatementData, find, put, checked_add, checked_size, extend_entry, Table, Limits, new_sizes,
  append_long_data, send_long_data, discard_long_data, close, insert,
}
use opensrv.Session.Table.Sizes.{
  data_size, IsAccounted, saturating_size_lem, checked_add_lem, some_sizes, checked_size_lem,
  data_size-extend_entry, total_size-put, total_size-remove, All-put, All-remove, All-find,
  size-le-total,
}

module _ (limits : Limits) (bounded : limits.max_connection_long_data_size < usize_mod) where
  abbrev InLimit : ℕ → Type 0
  InLimit size = size ≤ limits.max_long_data_size

  -- A statement is overwritten by one with the same data.
  pub put-IsAccounted :
      (stmt : ℕ) (s s' : StatementData) (t : Table)
      → find stmt t.stmts ≡ some s
      → data_size s'.long_data ≡ data_size s.long_data
      → IsAccounted limits t
      → IsAccounted limits (record t { stmts = put stmt s' t.stmts })
  put-IsAccounted stmt s s' t h same a = record {
    exact = omega (arith, a.exact, same, total_size-put stmt s s' t.stmts h);
    within = a.within;
    each_within =
        All-put InLimit stmt s' t.stmts
          (omega (arith, same, All-find InLimit stmt s t.stmts h a.each_within)) a.each_within;
  }

  pub discard-IsAccounted :
      (stmt : ℕ) (s r : StatementData) (t : Table)
      → find stmt t.stmts ≡ some s
      → r.long_data ≡ s.long_data
      → IsAccounted limits t
      → IsAccounted limits (discard_long_data stmt r t)
  unfolding discard_long_data
  discard-IsAccounted stmt s r t h same a =
      let held : data_size r.long_data ≡ data_size s.long_data = ap data_size same in
      let fits = size-le-total stmt s t.stmts h in
      let counted =
        saturating_size_lem 0 r.long_data (omega (arith, a.exact, a.within, held, fits, bounded)) in
      record {
        exact = omega (
          arith,
          a.exact,
          held,
          counted,
          total_size-put stmt s (record r { long_data = [] }) t.stmts h,
        );
        within = omega (arith, a.within);
        each_within =
            All-put InLimit stmt (record r { long_data = [] }) t.stmts (omega arith) a.each_within;
      }

  pub close-IsAccounted :
      (stmt : ℕ) (t : Table) → IsAccounted limits t → IsAccounted limits (close stmt t)
  unfolding close
  close-IsAccounted stmt t a = elim (Option-cases (find stmt t.stmts)) [
    | inl e ↦ rw (e, close) a
    | inr (s, e) ↦
        let fits = size-le-total stmt s t.stmts e in
        let counted =
          saturating_size_lem 0 s.long_data (omega (arith, a.exact, a.within, fits, bounded)) in
        rw (e, close)
          (record {
            exact = omega (arith, a.exact, counted, total_size-remove stmt s t.stmts e);
            within = omega (arith, a.within);
            each_within = All-remove InLimit stmt t.stmts a.each_within;
          })
  ]

  new_sizes_lem :
      (t : Table) (s : StatementData) (d : Bytes) (n c : ℕ)
      → new_sizes t s d ≡ some (n, c)
      → (n ≡ data_size s.long_data + length d) × (c ≡ t.total_long_data_size + length d)
  unfolding new_sizes
  new_sizes_lem t s d n c h = elim (Option-cases (checked_size 0 s.long_data)) [
    | inl e ↦ cc (rw (e, new_sizes) at h)
    | inr (size, e) ↦ elim (Option-cases (checked_add size (length d))) [
      | inl f ↦ cc (rw (e, f, new_sizes) at h)
      | inr (n', f) ↦ elim (Option-cases (checked_add t.total_long_data_size (length d))) [
        | inl g ↦ cc (rw (e, f, g, new_sizes) at h)
        | inr (c', g) ↦
            let (same_n, same_c) = some_sizes (rw (e, f, g, new_sizes) at h) in
            let held = checked_size_lem 0 size s.long_data e in
            let added = checked_add_lem size (length d) n' f in
            let counted = checked_add_lem t.total_long_data_size (length d) c' g in
            (omega (arith, same_n, held, added), omega (arith, same_c, counted))
      ]
    ]
  ]

  append-IsAccounted :
      (stmt param : ℕ) (d : Bytes) (s : StatementData) (t : Table)
      → find stmt t.stmts ≡ some s
      → IsAccounted limits t
      → IsAccounted limits (append_long_data limits stmt param d s t)
  unfolding append_long_data
  append-IsAccounted stmt param d s t h a = elim (Option-cases (new_sizes t s d)) [
    | inl e ↦ rw (e, append_long_data) (put-IsAccounted stmt s _ t h refl a)
    | inr ((n, c), e) ↦
        let (added, counted) = new_sizes_lem t s d n c e in
        elim (Bool-cases (leb n limits.max_long_data_size)) [
          | inr f ↦ rw (e, f, append_long_data) (put-IsAccounted stmt s _ t h refl a)
          | inl f ↦ elim (Bool-cases (leb c limits.max_connection_long_data_size)) [
            | inr g ↦ rw (e, f, g, append_long_data) (put-IsAccounted stmt s _ t h refl a)
            | inl g ↦
                let s' : StatementData = record s {
                  long_data = extend_entry param d s.long_data;
                } in
                let grown = data_size-extend_entry param d s.long_data in
                let in_limit = leb→le n limits.max_long_data_size f in
                rw (e, f, g, append_long_data)
                  (record {
                    exact =
                        omega (arith, a.exact, counted, grown, total_size-put stmt s s' t.stmts h);
                    within = leb→le c limits.max_connection_long_data_size g;
                    each_within =
                        All-put InLimit stmt s' t.stmts (omega (arith, grown, added, in_limit))
                          a.each_within;
                  })
          ]
        ]
  ]

  -- COM_STMT_SEND_LONG_DATA keeps the count exact and within the limits, whatever it is sent.
  pub send_long_data-IsAccounted :
      (stmt param : ℕ) (d : Bytes) (t : Table)
      → IsAccounted limits t
      → IsAccounted limits (send_long_data limits stmt param d t)
  unfolding send_long_data
  send_long_data-IsAccounted stmt param d t a = elim (Option-cases (find stmt t.stmts)) [
    | inl e ↦ rw (e, send_long_data) a
    | inr (s, e) ↦ elim (Option-cases s.pending_error) [
      | inr (_, f) ↦ rw (e, f, send_long_data) a
      | inl f ↦ elim (Bool-cases (leb s.params param)) [
        | inl g ↦ rw (e, f, g, send_long_data) (put-IsAccounted stmt s _ t e refl a)
        | inr g ↦ rw (e, f, g, send_long_data) (append-IsAccounted stmt param d s t e a)
      ]
    ]
  ]

  pub insert-IsAccounted :
      (stmt params : ℕ) (t : Table)
      → IsAccounted limits t
      → IsAccounted limits (insert stmt params t)
  unfolding insert
  insert-IsAccounted stmt params t a = record {
    exact = omega (arith, a.exact);
    within = a.within;
    each_within = (omega arith, a.each_within);
  }
