-- ===== src/Session/Table/Sizes.antt =====
-- mysql/src/lib.rs: the size of the streamed data of the statements.
use opensrv.Common.{
  ℕ, ◌+◌, ◌-◌, ◌≤◌, ◌<◌, ◌≡◌, sym, ap, ◌∙◌, min, Option, none, some, [], ◌∷◌, Bytes, length,
  length-append, ◌==◌, arith, Bool-cases, Option-cases, inl, inr, All,
}
use opensrv.Wire.{usize_mod}
use opensrv.Params.{LongData}
use opensrv.Session.Table.{
  StatementData, Statements, find, put, remove, saturating_size, checked_add, checked_size,
  extend_entry, Table, Limits,
}

-- The bytes that a statement holds, and those of all statements.
abbrev pub data_size : LongData → ℕ
data_size [] = 0
data_size ((k, v) ∷ m) = length v + data_size m

abbrev pub total_size : Statements → ℕ
total_size [] = 0
total_size ((id, s) ∷ m) = data_size s.long_data + total_size m

-- The count is exact, and it and every statement are within the limits.
pub record IsAccounted (limits : Limits) (t : Table) : Type 0 where
  pub exact : t.total_long_data_size ≡ total_size t.stmts
  pub within : t.total_long_data_size ≤ limits.max_connection_long_data_size
  pub each_within : All (λ e. data_size e.1.long_data ≤ limits.max_long_data_size) t.stmts

min_le : (a b : ℕ) → a ≤ b → min a b ≡ a
min_le a b h = omega arith

pub saturating_size_lem :
    (total : ℕ) (m : LongData)
    → total + data_size m < usize_mod
    → saturating_size total m ≡ total + data_size m
unfolding saturating_size
saturating_size_lem total [] h = omega arith
saturating_size_lem total ((k, v) ∷ m) h =
    rw (min_le (total + length v) (usize_mod - 1) (omega arith))
      (saturating_size_lem (total + length v) m (omega arith) ∙ omega arith)

pub checked_add_lem : (a b n : ℕ) → checked_add a b ≡ some n → n ≡ a + b
unfolding checked_add
checked_add_lem a b n h = ground arith

some_size : {a b : ℕ} → ◌≡◌ {A = Option ℕ} (some a) (some b) → b ≡ a
some_size h = cc

pub some_sizes :
    {a b c d : ℕ} → ◌≡◌ {A = Option (ℕ × ℕ)} (some (a, b)) (some (c, d)) → (c ≡ a) × (d ≡ b)
some_sizes {a} {b} h = (
  sym (ap (λ (o : Option (ℕ × ℕ)). elim o [ none ↦ a | some p ↦ p.0 ]) h),
  sym (ap (λ (o : Option (ℕ × ℕ)). elim o [ none ↦ b | some p ↦ p.1 ]) h),
)

pub checked_size_lem :
    (total n : ℕ) (m : LongData) → checked_size total m ≡ some n → n ≡ total + data_size m
unfolding checked_size
checked_size_lem total n [] h = some_size h ∙ omega arith
checked_size_lem total n ((k, v) ∷ m) h = elim (Option-cases (checked_add total (length v))) [
  | inl e ↦ cc (rw (e, checked_size) at h)
  | inr (total', e) ↦
      let same = checked_add_lem total (length v) total' e in
      let rest = checked_size_lem total' n m (rw (e, checked_size) at h) in omega arith
]

pub data_size-extend_entry :
    (param : ℕ) (d : Bytes) (m : LongData)
    → data_size (extend_entry param d m) ≡ data_size m + length d
unfolding extend_entry
data_size-extend_entry param d [] = omega arith
data_size-extend_entry param d ((k, v) ∷ m) = elim (Bool-cases (k == param)) [
  | inl e ↦ rw e (omega (arith, length-append v d))
  | inr e ↦ rw e (omega (arith, data_size-extend_entry param d m))
]

some_long_data :
    {r s : StatementData}
    → ◌≡◌ {A = Option StatementData} (some r) (some s)
    → data_size r.long_data ≡ data_size s.long_data
some_long_data {s} h =
    ap
      (λ (o : Option StatementData). elim o [
        | none ↦ data_size s.long_data
        | some r ↦ data_size r.long_data
      ])
      h

pub total_size-put :
    (stmt : ℕ) (s s' : StatementData) (m : Statements)
    → find stmt m ≡ some s
    → total_size (put stmt s' m) + data_size s.long_data ≡ total_size m + data_size s'.long_data
total_size-put stmt s s' [] h = cc
total_size-put stmt s s' ((id, r) ∷ m) h = elim (Bool-cases (id == stmt)) [
  | inl e ↦
      let same : data_size r.long_data ≡ data_size s.long_data = some_long_data (rw e at h) in
      rw e (omega (arith, same))
  | inr e ↦ let rest = total_size-put stmt s s' m (rw e at h) in rw e (omega (arith, rest))
]

pub total_size-remove :
    (stmt : ℕ) (s : StatementData) (m : Statements)
    → find stmt m ≡ some s
    → total_size (remove stmt m) + data_size s.long_data ≡ total_size m
total_size-remove stmt s [] h = cc
total_size-remove stmt s ((id, r) ∷ m) h = elim (Bool-cases (id == stmt)) [
  | inl e ↦ let same = some_long_data (rw e at h) in rw e (omega (arith, same))
  | inr e ↦ let rest = total_size-remove stmt s m (rw e at h) in rw e (omega (arith, rest))
]

-- Every statement keeps within the limit when one is overwritten by one within it, or removed.
module _ (P : ℕ → Type 0) where
  abbrev AllHold : Statements → Type 0
  AllHold = All (λ e. P (data_size e.1.long_data))

  pub All-put :
      (stmt : ℕ) (s' : StatementData) (m : Statements)
      → P (data_size s'.long_data)
      → AllHold m
      → AllHold (put stmt s' m)
  All-put stmt s' [] p h = tt
  All-put stmt s' ((id, r) ∷ m) p (hr, hm) = elim (Bool-cases (id == stmt)) [
    | inl e ↦ rw e (p, hm)
    | inr e ↦ rw e (hr, All-put stmt s' m p hm)
  ]

  pub All-remove : (stmt : ℕ) (m : Statements) → AllHold m → AllHold (remove stmt m)
  All-remove stmt [] h = tt
  All-remove stmt ((id, r) ∷ m) (hr, hm) = elim (Bool-cases (id == stmt)) [
    | inl e ↦ rw e hm
    | inr e ↦ rw e (hr, All-remove stmt m hm)
  ]

  pub All-find :
      (stmt : ℕ) (s : StatementData) (m : Statements)
      → find stmt m ≡ some s
      → AllHold m
      → P (data_size s.long_data)
  All-find stmt s [] h hm = cc
  All-find stmt s ((id, r) ∷ m) h (hr, hm) = elim (Bool-cases (id == stmt)) [
    | inl e ↦ rw (some_long_data (rw e at h)) at hr
    | inr e ↦ All-find stmt s m (rw e at h) hm
  ]

pub size-le-total :
    (stmt : ℕ) (s : StatementData) (m : Statements)
    → find stmt m ≡ some s
    → data_size s.long_data ≤ total_size m
size-le-total stmt s m h = omega (arith, total_size-remove stmt s m h)
