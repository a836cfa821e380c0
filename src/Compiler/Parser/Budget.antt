-- ===== src/Compiler/Parser/Budget.antt =====
-- What the steps of the parser of compiler/smolcc1.c leave of their input: the fuel that they need is
-- bounded by it.
pub mod Steps
use smolcc.Base.{
  ℕ, zero, suc, ◌+◌, ◌-◌, ◌*◌, ◌<◌, ◌≤◌, ◌≡◌, ◌≢◌, refl, ap, Bool, true, false, List, [], ◌∷◌,
  Option, none, some, length, String, if◌then◌else◌, arith,
}
use smolcc.Compiler.Outcome.{Pos, Outcome, ok, err_at, die}
use smolcc.Compiler.Symbols.{same_name}
use smolcc.Compiler.Symbols.Declare.{Declaration, Table, set_sym}
use smolcc.Compiler.Types.{Sym, Ty}
use smolcc.Compiler.Ast.{Expr}
use smolcc.Compiler.Elab.Tree.{elab_rvalue_expr, elab_expr_expect, elab_cond_expr, elab_init}
use smolcc.Compiler.Elab.Node.{Env}
use smolcc.Compiler.Lexer
use smolcc.Compiler.Lexer.{TokKind, Token, Lex}
use smolcc.Compiler.Lexer.Consumed.{LeavesAt, left, left_of, lex-Leaves}
use smolcc.Compiler.Parser.Grammar.Parts.{is_some, const_value}
use smolcc.Compiler.Parser.Monad
use smolcc.Compiler.Parser.Monad.{
  Parse, Run, ended, Parser, after, ◌>>=◌, ◌>>◌, pure, get, modify, lift, fail, check, next_tok, at,
  eat, expect, is, p_ident, tok_pos, push_scope, pop_scope, elab, env_of, update, declare_sym,
  lookup_sym, codes, is_wrd,
}

abbrev pub text_weight : List ℕ → ℕ
text_weight [] = 0
text_weight (c ∷ text) = 1

-- The token at the end of the file weighs nothing.
abbrev pub weight_of : TokKind → List ℕ → ℕ
weight_of TokKind.eof text = text_weight text
weight_of _ text = 1

abbrev pub weight : Token → ℕ
weight t = weight_of t.kind t.text

-- The token and the characters that are left.
abbrev pub size : Parse → ℕ
size p = weight p.tok + length p.lexer.rest

-- `die` with this label is what the elaboration of an expression, or the evaluation of a constant one,
-- comes to.
pub data ElabDies (m : String) : Type 0 where
  rvalue_dies : (env : Env) (e : Expr) → elab_rvalue_expr env e ≡ die m → ElabDies m
  expect_dies : (env : Env) (e : Expr) (t : Ty) → elab_expr_expect env e t ≡ die m → ElabDies m
  cond_dies : (env : Env) (e : Expr) → elab_cond_expr env e ≡ die m → ElabDies m
  init_dies : (env : Env) (e : Expr) (t : Ty) → elab_init env e t ≡ die m → ElabDies m
  const_dies : (env : Env) (e : Expr) → const_value env e ≡ die m → ElabDies m

-- The step ends with a diagnostic, or with less input than `n`, or with the `die` of an elaboration; it
-- has enough fuel.
abbrev EndsIn : {A : Type 0} → ℕ → Run (A × Parse) → Type 0
EndsIn n (ended (ok (a, p))) = size p < n
EndsIn n (ended (err_at pos m)) = Unit
EndsIn n (ended (die m)) = ElabDies m
EndsIn n Run.out_of_fuel = ⊥

pub record Ends {A : Type 0} (n : ℕ) (r : Run (A × Parse)) : Type 0 where
  pub holds : EndsIn n r

-- On an input of at most `n` the step ends with no more than it had.
pub record Keeps {A : Type 0} (n : ℕ) (m : Parser A) : Type 0 where
  pub on : (p : Parse) → size p ≤ n → Ends (suc (size p)) (m p)

-- It ends with less than it had.
pub record Eats {A : Type 0} (n : ℕ) (m : Parser A) : Type 0 where
  pub on : (p : Parse) → size p ≤ n → Ends (size p) (m p)

after_in :
    {A B : Type 0} (n k : ℕ) (r : Run (A × Parse)) (f : A → Parser B)
    → EndsIn n r
    → ((a : A) (p : Parse) → size p < n → Ends k (f a p))
    → EndsIn k (after r f)
after_in n k (ended (ok (a, p))) f e h = (h a p e).holds
after_in n k (ended (err_at pos m)) f e h = tt
after_in n k (ended (die m)) f e h = e
after_in n k Run.out_of_fuel f e h = absurd e

pub Ends-after :
    {A B : Type 0} {n k : ℕ} {r : Run (A × Parse)} {f : A → Parser B}
    → Ends n r
    → ((a : A) (p : Parse) → size p < n → Ends k (f a p))
    → Ends k (after r f)
Ends-after {A} {B} {n} {k} {r} {f} e h = record { holds = after_in n k r f e.holds h }

in_more : {A : Type 0} (n k : ℕ) (r : Run (A × Parse)) → n ≤ k → EndsIn n r → EndsIn k r
in_more n k (ended (ok (a, p))) h e = omega arith
in_more n k (ended (err_at pos m)) h e = tt
in_more n k (ended (die m)) h e = e
in_more n k Run.out_of_fuel h e = e

pub Ends-more : {A : Type 0} {n k : ℕ} {r : Run (A × Parse)} → n ≤ k → Ends n r → Ends k r
Ends-more {A} {n} {k} {r} h e = record { holds = in_more n k r h e.holds }

module _ {A : Type 0} where
  pub Keeps-pure : {n : ℕ} (a : A) → Keeps n (pure a)
  unfolding pure
  Keeps-pure a = record { on = λ p h. record { holds = omega arith } }

  pub Keeps-lift :
      {n : ℕ} (o : Outcome A) → ((m : String) → o ≡ die m → ElabDies m) → Keeps n (lift o)
  unfolding lift
  Keeps-lift (ok a) d = record { on = λ p h. record { holds = omega arith } }
  Keeps-lift (err_at pos m) d = record { on = λ p h. record { holds = tt } }
  Keeps-lift (die m) d = record { on = λ p h. record { holds = d m refl } }

  pub Eats-fail : {n : ℕ} (pos : Pos) (m : String) → Eats n (fail {A = A} pos m)
  unfolding fail
  Eats-fail pos m = record { on = λ p h. record { holds = tt } }

  pub Eats-Keeps : {n : ℕ} {m : Parser A} → Eats n m → Keeps n m
  Eats-Keeps e = record { on = λ p h. Ends-more (omega arith) (e.on p h) }

module _ {A B : Type 0} {n : ℕ} {m : Parser A} {f : A → Parser B} where
  pub Keeps-bind : Keeps n m → ((a : A) → Keeps n (f a)) → Keeps n (m >>= f)
  Keeps-bind km kf = record {
    on = λ p h.
        Ends-after (km.on p h) (λ a q l. Ends-more (omega arith) ((kf a).on q (omega arith)));
  }

  -- A step that reads something, and then one on less.
  pub Eats-bind : Eats n m → ((k : ℕ) → k < n → (a : A) → Keeps k (f a)) → Eats n (m >>= f)
  Eats-bind em kf = record {
    on = λ p h.
        Ends-after (em.on p h)
          (λ a q l. Ends-more (omega arith) ((kf (size q) (omega arith) a).on q (omega arith)));
  }

  pub bind-Eats : Keeps n m → ((a : A) → Eats n (f a)) → Eats n (m >>= f)
  bind-Eats km ef = record {
    on = λ p h.
        Ends-after (km.on p h) (λ a q l. Ends-more (omega arith) ((ef a).on q (omega arith)));
  }

pub Keeps-if :
    {A : Type 0} {n : ℕ} (b : Bool) {x y : Parser A}
    → Keeps n x
    → Keeps n y
    → Keeps n (if b then x else y)
Keeps-if true kx ky = kx
Keeps-if false kx ky = ky

pub Eats-split :
    {A : Type 0} {n : ℕ} (b : Bool) {x y : Parser A}
    → (b ≡ true → Eats n x)
    → Eats n y
    → Eats n (if b then x else y)
Eats-split true ex ey = ex refl
Eats-split false ex ey = ey

module _ {X A : Type 0} {n : ℕ} {m : Parser A} {f : X → Parser A} (o : Option X) where
  pub Keeps-elim :
      Keeps n m → ((x : X) → Keeps n (f x)) → Keeps n (elim o [ none ↦ m | some x ↦ f x ])
  Keeps-elim km kf = elim o as (λ o. Keeps n (elim o [ none ↦ m | some x ↦ f x ])) [
    | none ↦ km
    | some x ↦ kf x
  ]

  pub Eats-elim : Eats n m → ((x : X) → Eats n (f x)) → Eats n (elim o [ none ↦ m | some x ↦ f x ])
  Eats-elim em ef = elim o as (λ o. Eats n (elim o [ none ↦ m | some x ↦ f x ])) [
    | none ↦ em
    | some x ↦ ef x
  ]

pub Keeps-check : {n : ℕ} (b : Bool) (pos : Pos) (m : String) → Keeps n (check b pos m)
unfolding check
Keeps-check true pos m = record { on = λ p h. record { holds = omega arith } }
Keeps-check false pos m = record { on = λ p h. record { holds = tt } }

pub Keeps-get : {n : ℕ} → Keeps n get
unfolding get
Keeps-get = record { on = λ p h. record { holds = omega arith } }
