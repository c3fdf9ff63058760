-- ===== src/Exec.antt =====
-- Methods that change an object and may throw. What was written before a throw stays written, so
-- the state comes back beside the error too; `transaction` of src/state/database.ts rolls it back.
use autogent.Prelude.{◌≢◌}

-- What the modelled code throws, or lets through from what it calls.
pub data Error : Type 0 where
  constraint_failed : Error
  session_failed : Error

pub data Result {ℓ} (A : Type ℓ) : Type ℓ where
  ok : A → Result A
  err : Error → Result A

pub err_ne_ok {ℓ} : {A : Type ℓ} {x : Error} {a : A} → ◌≢◌ {A = Result A} (err x) (ok a)
err_ne_ok h = cc

abbrev pub Exec {ℓ} : Type ℓ → Type ℓ → Type ℓ
Exec S A = S → Result A × S

abbrev pub pure {ℓ} : {S A : Type ℓ} → A → Exec S A
pure a s = (ok a, s)

abbrev pub continue {ℓ} : {S A B : Type ℓ} → Result A → (A → Exec S B) → Exec S B
continue (ok a) f s = f a s
continue (err e) f s = (err e, s)

infixl 10 ◌>>=◌ ◌>>◌
abbrev pub ◌>>=◌ {ℓ} : {S A B : Type ℓ} → Exec S A → (A → Exec S B) → Exec S B
◌>>=◌ m f s = let (r, s') = m s in continue r f s'

abbrev pub ◌>>◌ {ℓ} : {S A B : Type ℓ} → Exec S A → Exec S B → Exec S B
m >> k = m >>= λ _. k

-- A step that cannot throw.
abbrev pub modify {ℓ} : {S : Type ℓ} → (S → S) → Exec S Unit
modify f s = (ok tt, f s)

abbrev pub settle_transaction {ℓ} : {S A : Type ℓ} → S → Result A × S → Result A × S
settle_transaction before (ok a, after) = (ok a, after)
settle_transaction before (err e, after) = (err e, before)

-- `transaction(fn)`: what `fn` wrote is gone if it throws.
abbrev pub transaction {ℓ} : {S A : Type ℓ} → Exec S A → Exec S A
transaction m s = settle_transaction s (m s)
