-- ===== src/Session/Table/Chunks.antt =====
-- mysql/src/lib.rs: packets of streamed data, and the entries of the parameters that they are for.
use opensrv.Common.{
  ℕ, ◌+◌, ◌≤◌, ◌<◌, ◌≡◌, ◌≢◌, refl, sym, ap, ◌∙◌, false, Option, none, some, List, [], ◌∷◌, ◌++◌,
  Bytes, All, length, ◌==◌, Bool-cases, inl, inr, ==_refl, ==→eq, ==→ne, ne→==, lt→ltb,
  append_assoc, if◌then◌else◌, arith,
}
use opensrv.Wire.{usize_mod}
use opensrv.Params.{LongData, get_long_data}
use opensrv.Session.Table.{
  StatementData, Statements, find, put, checked_add, checked_size, extend_entry, Table, Limits,
  send_long_data,
}
use opensrv.Session.Table.Sizes.{data_size}

-- What a parameter holds, nothing if it has no entry.
abbrev pub held : Option Bytes → Bytes
held none = []
held (some v) = v

-- Packets of streamed data for one statement, each with its parameter.
unfoldable pub send_all : Limits → ℕ → List (ℕ × Bytes) → Table → Table
send_all limits stmt [] t = t
send_all limits stmt ((param, d) ∷ cs) t =
    send_all limits stmt cs (send_long_data limits stmt param d t)

-- What of them is for a parameter, one after the other.
unfoldable pub sent_to : ℕ → List (ℕ × Bytes) → Bytes
sent_to param [] = []
sent_to param ((k, d) ∷ cs) = let rest = sent_to param cs in if k == param then d ++ rest else rest

abbrev pub sent_size : List (ℕ × Bytes) → ℕ
sent_size [] = 0
sent_size ((k, d) ∷ cs) = length d + sent_size cs

-- The statement has no pending error and the parameters, and all of the data is within the limits.
pub record Fits (limits : Limits) (cs : List (ℕ × Bytes)) (s : StatementData) (t : Table)
    : Type 0 where
  pub in_order : s.pending_error ≡ none
  pub has_params : All (λ c. c.0 < s.params) cs
  pub in_statement : data_size s.long_data + sent_size cs ≤ limits.max_long_data_size
  pub in_connection : t.total_long_data_size + sent_size cs ≤ limits.max_connection_long_data_size
  pub is_usize : limits.max_long_data_size < usize_mod
  pub is_usize_too : limits.max_connection_long_data_size < usize_mod

get-extend_entry :
    (param : ℕ) (c : Bytes) (m : LongData)
    → get_long_data param (extend_entry param c m) ≡ some (held (get_long_data param m) ++ c)
unfolding extend_entry get_long_data
get-extend_entry param c [] = rw (==_refl param) refl
get-extend_entry param c ((k, v) ∷ m) = elim (Bool-cases (k == param)) [
  | inl e ↦ rw (e, e) refl
  | inr e ↦ rw (e, e) (get-extend_entry param c m)
]

get-extend_entry_ne :
    (param other : ℕ) (c : Bytes) (m : LongData)
    → param ≢ other
    → get_long_data other (extend_entry param c m) ≡ get_long_data other m
unfolding extend_entry get_long_data
get-extend_entry_ne param other c [] ne = rw (ne→== param other ne) refl
get-extend_entry_ne param other c ((k, v) ∷ m) ne = elim (Bool-cases (k == param)) [
  | inl e ↦
      let apart : (k == other) ≡ false =
        ne→== k other (λ same. ne (sym (==→eq k param e) ∙ same)) in
      rw (e, apart) refl
  | inr e ↦ elim (Bool-cases (k == other)) [
    | inl f ↦ rw (e, f) refl
    | inr f ↦ rw (e, f) (get-extend_entry_ne param other c m ne)
  ]
]

-- One chunk, seen from any parameter.
pub held-extend_entry :
    (k param : ℕ) (d rest : Bytes) (m : LongData)
    → held (get_long_data param (extend_entry k d m)) ++ rest
      ≡ held (get_long_data param m) ++ (if k == param then d ++ rest else rest)
held-extend_entry k param d rest m = elim (Bool-cases (k == param)) [
  | inl e ↦
      rw (e, ==→eq k param e)
        (ap (λ o. held o ++ rest) (get-extend_entry param d m)
          ∙ append_assoc (held (get_long_data param m)) d rest)
  | inr e ↦ rw e (ap (λ o. held o ++ rest) (get-extend_entry_ne k param d m (==→ne k param e)))
]

pub find-put :
    (stmt : ℕ) (s s' : StatementData) (m : Statements)
    → find stmt m ≡ some s
    → find stmt (put stmt s' m) ≡ some s'
find-put stmt s s' [] h = cc
find-put stmt s s' ((id, r) ∷ m) h = elim (Bool-cases (id == stmt)) [
  | inl e ↦ rw (e, e) refl
  | inr e ↦ rw (e, e) (find-put stmt s s' m (rw e at h))
]

pub checked_add-some : (a b : ℕ) → a + b < usize_mod → checked_add a b ≡ some (a + b)
unfolding checked_add
checked_add-some a b h = rw (lt→ltb (a + b) usize_mod h) refl

pub checked_size-some :
    (total : ℕ) (m : LongData)
    → total + data_size m < usize_mod
    → checked_size total m ≡ some (total + data_size m)
unfolding checked_size
checked_size-some total [] h = ap some (omega arith)
checked_size-some total ((k, v) ∷ m) h =
    rw (checked_add-some total (length v) (omega arith), checked_size)
      (checked_size-some (total + length v) m (omega arith) ∙ ap some (omega arith))
