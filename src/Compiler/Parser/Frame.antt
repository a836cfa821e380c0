-- ===== src/Compiler/Parser/Frame.antt =====
-- What the parser of compiler/smolcc1.c restores: the number of scopes, `curr_func` and `curr_loop`. A
-- break or a continue that it has read stands in a loop.
pub mod Steps
pub mod Parts
pub mod Decls
pub mod Grammar
use smolcc.Base.{
  ℕ, suc, ◌≡◌, refl, Bool, true, false, List, [], ◌∷◌, ◌++◌, Option, none, some, length,
  if◌then◌else◌,
}
use smolcc.Compiler.Outcome.{Outcome, ok, err_at, die}
use smolcc.Compiler.Stmt.{Stmt, Stmts}
use smolcc.Compiler.Parser.Monad.{Parse, Run, ended, Parser, after, ◌>>=◌, ◌>>◌}

unfoldable mutual
  -- Every break and continue of the statement stands in a loop of it, or in one around it.
  pub JumpsIn : Bool → Stmt → Type 0
  JumpsIn in_loop (Stmt.block pos ss) = AllJumpIn in_loop ss
  JumpsIn in_loop (Stmt.decl pos ds) = Unit
  JumpsIn in_loop (Stmt.if_then pos c s) = JumpsIn in_loop s
  JumpsIn in_loop (Stmt.if_else pos c s s') = JumpsIn in_loop s × JumpsIn in_loop s'
  JumpsIn in_loop (Stmt.loop pos first c step s) =
      JumpsIn in_loop first × JumpsIn in_loop step × JumpsIn true s
  JumpsIn in_loop (Stmt.return_value pos e) = Unit
  JumpsIn in_loop (Stmt.return_void pos) = Unit
  JumpsIn in_loop (Stmt.break pos) = in_loop ≡ true
  JumpsIn in_loop (Stmt.continue pos) = in_loop ≡ true
  JumpsIn in_loop (Stmt.expr pos e) = Unit
  JumpsIn in_loop (Stmt.empty pos) = Unit

  pub AllJumpIn : Bool → Stmts → Type 0
  AllJumpIn in_loop Stmts.nil = Unit
  AllJumpIn in_loop (Stmts.cons s ss) = JumpsIn in_loop s × AllJumpIn in_loop ss

-- The bodies of functions.
unfoldable pub AreBodies : List (ℕ × Stmt) → Type 0
unfolding JumpsIn
AreBodies [] = Unit
AreBodies ((s, body) ∷ bodies) = JumpsIn false body × AreBodies bodies

-- How many scopes there are, whether the parser is in a loop, and in which function.
pub record Context : Type 0 where
  pub depth : ℕ
  pub loop : Bool
  pub func : Option ℕ

pub record InContext (k : Context) (p : Parse) : Type 0 where
  pub depth : length p.scopes ≡ k.depth
  pub loop : p.in_loop ≡ k.loop
  pub func : p.curr_func ≡ k.func
  pub bodies : AreBodies p.bodies

abbrev GivesAt : {A : Type 0} → Context → (A → Type 0) → Run (A × Parse) → Type 0
GivesAt k P (ended (ok (a, p))) = InContext k p × P a
GivesAt k P (ended (err_at pos m)) = Unit
GivesAt k P (ended (die m)) = Unit
GivesAt k P Run.out_of_fuel = Unit

-- A run that gives a result gives one that has `P`, and is in the context then.
pub record GivesIn {A : Type 0} (k : Context) (P : A → Type 0) (r : Run (A × Parse)) : Type 0 where
  pub holds : GivesAt k P r

-- The step leads from the one context to the other.
pub record Moves {A : Type 0} (k j : Context) (P : A → Type 0) (m : Parser A) : Type 0 where
  pub on : (p : Parse) → InContext k p → GivesIn j P (m p)

abbrev pub Any : {A : Type 0} → A → Type 0
Any a = Unit

-- The step restores the context.
abbrev pub Stays : {A : Type 0} → Context → Parser A → Type 0
Stays k m = Moves k k Any m

after_at :
    {A B : Type 0} (k j : Context) (P : A → Type 0) (Q : B → Type 0) (r : Run (A × Parse))
    (f : A → Parser B)
    → GivesAt k P r
    → ((a : A) → P a → Moves k j Q (f a))
    → GivesAt j Q (after r f)
after_at k j P Q (ended (ok (a, p))) f g h = ((h a g.1).on p g.0).holds
after_at k j P Q (ended (err_at pos m)) f g h = tt
after_at k j P Q (ended (die m)) f g h = tt
after_at k j P Q Run.out_of_fuel f g h = tt

module _ {A B : Type 0} {k j i : Context} {P : A → Type 0} {Q : B → Type 0} {m : Parser A}
    {f : A → Parser B} where
  pub Moves-bind : Moves k j P m → ((a : A) → P a → Moves j i Q (f a)) → Moves k i Q (m >>= f)
  Moves-bind g h = record {
    on = λ p c. record { holds = after_at j i P Q (m p) f (g.on p c).holds h };
  }

module _ {A B : Type 0} {k j i : Context} {Q : B → Type 0} {m : Parser A} {f : A → Parser B} where
  pub Stays-bind : Moves k j Any m → ((a : A) → Moves j i Q (f a)) → Moves k i Q (m >>= f)
  Stays-bind g h = Moves-bind g (λ a u. h a)

module _ {X A : Type 0} {k j : Context} {P : A → Type 0} {m : Parser A} {f : X → Parser A}
    (o : Option X) where
  pub Moves-elim :
      Moves k j P m
      → ((x : X) → Moves k j P (f x))
      → Moves k j P (elim o [ none ↦ m | some x ↦ f x ])
  Moves-elim gm gf = elim o as (λ o. Moves k j P (elim o [ none ↦ m | some x ↦ f x ])) [
    | none ↦ gm
    | some x ↦ gf x
  ]

  pub Gives-elim :
      (p : Parse)
      → InContext k p
      → Moves k j P m
      → ((x : X) → Moves k j P (f x))
      → GivesIn j P (elim o [ none ↦ m p | some x ↦ f x p ])
  Gives-elim p c gm gf = elim o as (λ o. GivesIn j P (elim o [ none ↦ m p | some x ↦ f x p ])) [
    | none ↦ gm.on p c
    | some x ↦ (gf x).on p c
  ]

pub Moves-if :
    {A : Type 0} {k j : Context} {P : A → Type 0} (b : Bool) {x y : Parser A}
    → (b ≡ true → Moves k j P x)
    → Moves k j P y
    → Moves k j P (if b then x else y)
Moves-if true gx gy = gx refl
Moves-if false gx gy = gy

in-Any :
    {A : Type 0} (k : Context) (P : A → Type 0) (r : Run (A × Parse))
    → GivesAt k P r
    → GivesAt k Any r
in-Any k P (ended (ok (a, p))) g = (g.0, tt)
in-Any k P (ended (err_at pos m)) g = tt
in-Any k P (ended (die m)) g = tt
in-Any k P Run.out_of_fuel g = tt

pub Moves-Any :
    {A : Type 0} {k j : Context} {P : A → Type 0} {m : Parser A} → Moves k j P m → Moves k j Any m
Moves-Any {A} {k} {j} {P} {m} g = record {
  on = λ p c. record { holds = in-Any j P (m p) (g.on p c).holds };
}
