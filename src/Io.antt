-- ===== src/Io.antt =====
-- Code that returns `io::Result` and changes a value through `&mut`: what was written before an
-- early return stays, so the state comes back beside the error too.
use opensrv.Common.{Result, ok, err, Bool, true, false}
use opensrv.Wire.{IoError}

abbrev pub Io {ℓ} : Type ℓ → Type 0 → Type ℓ
Io S A = S → Result IoError A × S

-- What comes behind a `?`.
abbrev pub and_then {ℓ} :
    {S : Type ℓ} {A B : Type 0} → Result IoError A × S → (A → Io S B) → Result IoError B × S
and_then (ok a, s) f = f a s
and_then (err e, s) f = (err e, s)

infixl 5 ◌>>=◌ ◌>>◌
abbrev pub ◌>>=◌ {ℓ} : {S : Type ℓ} {A B : Type 0} → Io S A → (A → Io S B) → Io S B
◌>>=◌ m f s = and_then (m s) f

abbrev pub ◌>>◌ {ℓ} : {S : Type ℓ} {B : Type 0} → Io S (Unit {0}) → Io S B → Io S B
m >> k = m >>= λ _. k

abbrev pub pure {ℓ} : {S : Type ℓ} {A : Type 0} → A → Io S A
pure a s = (ok a, s)

abbrev pub fail {ℓ} : {S : Type ℓ} {A : Type 0} → IoError → Io S A
fail e s = (err e, s)

abbrev pub modify {ℓ} : {S : Type ℓ} → (S → S) → Io S (Unit {0})
modify f s = (ok tt, f s)

abbrev pub when {ℓ} : {S : Type ℓ} → Bool → Io S (Unit {0}) → Io S (Unit {0})
when true m = m
when false m = pure tt
