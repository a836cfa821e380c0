-- ===== src/Compiler/Outcome.antt =====
-- How a step of the compiler ends: a result, a diagnostic by `err_at` (which exits with status 1), or
-- `die`, the compiler's own assertion (which aborts). Messages are the source's format strings.
use smolcc.Base.{ℕ, Bool, true, false, String, if◌then◌else◌}

-- struct pos
pub record Pos : Type 0 where
  pub line : ℕ
  pub col : ℕ

pub data Outcome {ℓ} (A : Type ℓ) : Type ℓ where
  ok : A → Outcome A
  err_at : Pos → String → Outcome A
  die : String → Outcome A

infixl 5 ◌>>=◌ ◌>>◌
abbrev pub ◌>>=◌ {ℓ κ} : {A : Type ℓ} {B : Type κ} → Outcome A → (A → Outcome B) → Outcome B
ok a >>= f = f a
err_at p m >>= f = err_at p m
die m >>= f = die m

abbrev pub ◌>>◌ {ℓ κ} : {A : Type ℓ} {B : Type κ} → Outcome A → Outcome B → Outcome B
m >> k = m >>= λ _. k

-- `if (!condition) err_at(pos, message);`
abbrev pub require : Bool → Pos → String → Outcome (Unit {0})
require true p m = ok tt
require false p m = err_at p m

-- assert: `die` with the label if the condition is false.
abbrev pub assert : String → Bool → Outcome (Unit {0})
assert label true = ok tt
assert label false = die label

-- `P` holds of the result, if there is one.
abbrev pub Gives {ℓ} : {A : Type ℓ} → (A → Type 0) → Outcome A → Type 0
Gives P (ok a) = P a
Gives P (err_at p m) = Unit
Gives P (die m) = Unit

-- There is a result, and `P` holds of it.
abbrev pub Succeeds {ℓ} : {A : Type ℓ} → (A → Type 0) → Outcome A → Type 0
Succeeds P (ok a) = P a
Succeeds P (err_at p m) = ⊥
Succeeds P (die m) = ⊥

-- The step gives a result or a diagnostic, and does not abort.
abbrev pub NoAbort {ℓ} : {A : Type ℓ} → Outcome A → Type 0
NoAbort (ok a) = Unit
NoAbort (err_at p m) = Unit
NoAbort (die m) = ⊥

module _ {ℓ κ} {A : Type ℓ} {B : Type κ} where
  pub Gives-bind :
      (P : A → Type 0) (Q : B → Type 0) (m : Outcome A) (f : A → Outcome B)
      → Gives P m
      → ((a : A) → P a → Gives Q (f a))
      → Gives Q (m >>= f)
  Gives-bind P Q (ok a) f h k = k a h
  Gives-bind P Q (err_at p s) f h k = tt
  Gives-bind P Q (die s) f h k = tt

  pub Gives-bind_all :
      (Q : B → Type 0) (m : Outcome A) (f : A → Outcome B)
      → ((a : A) → Gives Q (f a))
      → Gives Q (m >>= f)
  Gives-bind_all Q (ok a) f k = k a
  Gives-bind_all Q (err_at p s) f k = tt
  Gives-bind_all Q (die s) f k = tt

pub Gives-if {ℓ} :
    {A : Type ℓ} (Q : A → Type 0) (b : Bool) (x y : Outcome A)
    → Gives Q x
    → Gives Q y
    → Gives Q (if b then x else y)
Gives-if Q true x y hx hy = hx
Gives-if Q false x y hx hy = hy
