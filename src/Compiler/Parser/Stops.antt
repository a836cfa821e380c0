-- ===== src/Compiler/Parser/Stops.antt =====
-- Where an expression ends: p_expr of compiler/smolcc1.c goes on as long as there are operators for it.
use smolcc.Base.{ℕ, zero, suc, ◌+◌, ◌*◌, ◌<◌, ◌≤◌, ◌≡◌, refl, Option, none, some, arith}
use smolcc.Compiler.Outcome.{Pos, ok, err_at, die}
use smolcc.Compiler.Ast.{Expr}
use smolcc.Compiler.Parser.Monad.{
  Parse, Run, ended, out_of_fuel, Parser, after, ◌>>=◌, ◌>>◌, pure, next_tok,
}
use smolcc.Compiler.Parser.Ops.{Infix, expr_start, infix_of}
use smolcc.Compiler.Parser.Grammar.{p_expr, p_prefix, p_led, p_infix}
use smolcc.Compiler.Parser.Budget.{size, Ends, ElabDies}
use smolcc.Compiler.Parser.Fuel.{p_expr-Eats}
use smolcc.Compiler.Parser.Levels.{c_level, infix_of_iff}

abbrev StopsAt : ℕ → Run (Expr × Parse) → Type 0
StopsAt rbp (ended (ok (e, q))) = infix_of rbp q.tok.text ≡ none
StopsAt rbp (ended (err_at pos m)) = Unit
StopsAt rbp (ended (die m)) = Unit
StopsAt rbp out_of_fuel = Unit

after_stops :
    {A : Type 0} (rbp : ℕ) (r : Run (A × Parse)) (f : A → Parser Expr)
    → ((a : A) (q : Parse) → StopsAt rbp (f a q))
    → StopsAt rbp (after r f)
after_stops rbp (ended (ok (a, q))) f h = h a q
after_stops rbp (ended (err_at pos m)) f h = tt
after_stops rbp (ended (die m)) f h = tt
after_stops rbp out_of_fuel f h = tt

elim_stops :
    (rbp : ℕ) (o : Option Infix) (acc : Expr) (g : Infix → Parser Expr) (p : Parse)
    → infix_of rbp p.tok.text ≡ o
    → ((x : Infix) → StopsAt rbp (g x p))
    → StopsAt rbp (elim o [ none ↦ pure acc p | some x ↦ g x p ])
unfolding pure
elim_stops rbp none acc g p e h = e
elim_stops rbp (some x) acc g p e h = h x

led_stops : (f rbp : ℕ) (pos : Pos) (acc : Expr) (p : Parse) → StopsAt rbp (p_led f rbp pos acc p)
unfolding p_led
led_stops zero rbp pos acc p = tt
led_stops (suc f) rbp pos acc p =
    elim_stops rbp (infix_of rbp p.tok.text) acc
      (λ o. next_tok >> (p_infix f pos acc o >>= λ acc'. p_led f rbp pos acc')) p refl
      λ o.
        after_stops rbp (next_tok p) _
          λ _ q. after_stops rbp (p_infix f pos acc o q) _ λ acc' r. led_stops f rbp pos acc' r

expr_stops : (f rbp : ℕ) (p : Parse) → StopsAt rbp (p_expr f rbp p)
unfolding p_expr
expr_stops zero rbp p = tt
expr_stops (suc f) rbp p =
    after_stops rbp (p_prefix f p.tok.pos (expr_start p.tok) p) _
      λ acc q. led_stops f rbp p.tok.pos acc q

abbrev IsExprAt : ℕ → ℕ → Run (Expr × Parse) → Type 0
IsExprAt rbp n (ended (ok (e, q))) = (size q < n) × (c_level q.tok.text ≤ rbp)
IsExprAt rbp n (ended (err_at pos m)) = Unit
IsExprAt rbp n (ended (die m)) = ElabDies m
IsExprAt rbp n out_of_fuel = ⊥

-- There is an expression, which took something of the input `n` and ends where no operator of C that
-- binds tighter than `rbp` follows; or there is a diagnostic, or the `die` of an elaboration.
pub record IsExpr (rbp n : ℕ) (r : Run (Expr × Parse)) : Type 0 where
  pub holds : IsExprAt rbp n r

both-IsExpr : (rbp n : ℕ) (r : Run (Expr × Parse)) → Ends n r → StopsAt rbp r → IsExpr rbp n r
both-IsExpr rbp n (ended (ok (e, q))) l s = record {
  holds = (l.holds, (infix_of_iff rbp q.tok.text).0 s);
}
both-IsExpr rbp n (ended (err_at pos m)) l s = record { holds = tt }
both-IsExpr rbp n (ended (die m)) l s = record { holds = l.holds }
both-IsExpr rbp n out_of_fuel l s = absurd l.holds

-- With fuel for sixteen calls for each character and two more, p_expr ends. It gives a diagnostic of
-- err_at; or `die`, with the label with which the elaboration of some expression, or the evaluation of
-- some constant expression, gives it; or it has read something, and the next token is no operator that
-- binds tighter than `rbp` by the precedence table of C.
pub p_expr-IsExpr :
    (f rbp : ℕ) (p : Parse) → 16 * size p + 1 < f → IsExpr rbp (size p) (p_expr f rbp p)
p_expr-IsExpr f rbp p h =
    both-IsExpr rbp (size p) (p_expr f rbp p) ((p_expr-Eats f (size p) rbp h).on p (omega arith))
      (expr_stops f rbp p)
