-- ===== src/Compiler/Parser/Frame/Grammar.antt =====
-- The parser of compiler/smolcc1.c restores its context, and reads no break or continue outside loops.
use smolcc.Base.{
  ℕ, zero, suc, ◌≡◌, refl, Bool, true, false, ◌&&◌, List, [], ◌∷◌, Option, none, some,
}
use smolcc.Compiler.Outcome.{Pos}
use smolcc.Compiler.Types.{Ty, Storage}
use smolcc.Compiler.Ast.{Expr}
use smolcc.Compiler.Typed.{TExpr}
use smolcc.Compiler.Stmt.{Stmt}
use smolcc.Compiler.Parser.Monad.{Parse}
use smolcc.Compiler.Parser.Ops.{
  Prefix, Infix, StmtStart, Specs, Spec, expr_start, infix_of, spec_of, stmt_start, at_decl,
  decl_stmt,
}
use smolcc.Compiler.Parser.Grammar.{
  p_expr, p_prefix, p_paren, p_led, p_infix, p_args, p_const_expr, p_stmt, p_stmt_as, p_expr_stmt,
  p_returned, p_scoped, p_stmts, p_for_init, p_for_cond, p_for_step, p_struct, p_fields, p_enum,
  p_enumerators, p_specs, p_spec, p_base, p_stars, p_declarator, p_func_declarator,
  p_arr_declarator, p_params, p_param, p_tyname, p_decl, p_declarators, p_function, p_more,
}
use smolcc.Compiler.Parser.Grammar.Parts.{
  DeclScope, global_decl, local_decl, struct_decl, is_global_decl, Declarator,
}
use smolcc.Compiler.Parser.Frame.{
  Context, InContext, JumpsIn, AllJumpIn, GivesIn, Moves, Stays, Moves-bind, Stays-bind, Moves-if,
  Moves-elim, Gives-elim,
}
use smolcc.Compiler.Parser.Frame.Steps.{
  deeper, in_func, gives, Stays-pure, Moves-fail, Stays-elab, Stays-check, Moves-get, Stays-get,
  Stays-at, Stays-tok_pos, Stays-lookup_sym, Moves-push_scope, Moves-pop_scope, Stays-next_tok,
  Stays-eat, Stays-expect, Stays-p_ident, expect_next, if_at, Gives-get,
}
use smolcc.Compiler.Parser.Frame.Parts.{
  Stays-p_literal, Stays-sizeof_expr, Stays-p_name, Stays-base_of_specs, Stays-p_name_if,
  Moves-func_ty, Stays-declare_param, Stays-declare_struct, Stays-declare_const,
  Stays-declare_function, Stays-declare_object, Stays-sym_ty, Stays-eat_struct, Stays-p_separator,
  Moves-set_loop, Moves-begin_function, Moves-end_loop, Moves-end_function, Moves-jump,
}
use smolcc.Compiler.Parser.Frame.Decls.{at_decl-stmt_start}

-- Where declarations of a file stand: in no loop and no function.
pub record IsTop (k : Context) : Type 0 where
  pub loop : k.loop ≡ false
  pub func : k.func ≡ none

global_scope :
    (scope : DeclScope) (b : Bool) → is_global_decl scope && b ≡ true → is_global_decl scope ≡ true
global_scope global_decl b e = refl
global_scope local_decl b e = absurd (cc)
global_scope (struct_decl s) b e = absurd (cc)

-- A declaration or an empty statement has no jumps.
decls-JumpsIn :
    (l : Bool) (pos : Pos) (ds : List (ℕ × Option TExpr))
    → JumpsIn l (elim ds [ [] ↦ Stmt.empty pos | d ∷ more ↦ Stmt.decl pos (d ∷ more) ])
unfolding JumpsIn
decls-JumpsIn l pos [] = tt
decls-JumpsIn l pos (d ∷ more) = tt

mutual
  unfolding p_expr JumpsIn

  p_expr-Stays : (f : ℕ) (k : Context) (rbp : ℕ) → Stays k (p_expr f rbp)
  p_expr-Stays zero k rbp = record { on = λ p c. record { holds = tt } }
  p_expr-Stays (suc f) k rbp = record {
    on = λ p c.
        (Stays-bind (p_prefix-Stays f k p.tok.pos (expr_start p.tok))
            λ acc. p_led-Stays f k rbp p.tok.pos acc).on
          p c;
  }

  p_prefix-Stays :
      (f : ℕ) (k : Context) (pos : Pos) (start : Option Prefix) → Stays k (p_prefix f pos start)
  p_prefix-Stays zero k pos start = record { on = λ p c. record { holds = tt } }
  p_prefix-Stays (suc f) k pos none = Moves-fail pos _
  p_prefix-Stays (suc f) k pos (some Prefix.paren) =
      Stays-bind Stays-next_tok λ _. Stays-bind Stays-get λ q. p_paren-Stays f k pos _
  p_prefix-Stays (suc f) k pos (some (Prefix.prefix_op kind)) =
      Stays-bind Stays-next_tok λ _. Stays-bind (p_expr-Stays f k _) λ e. Stays-pure _
  p_prefix-Stays (suc f) k pos (some Prefix.number) = Stays-p_literal _ pos
  p_prefix-Stays (suc f) k pos (some Prefix.string) = Stays-p_literal _ pos
  p_prefix-Stays (suc f) k pos (some Prefix.character) = Stays-p_literal _ pos
  p_prefix-Stays (suc f) k pos (some Prefix.sizeof) = Stays-bind Stays-next_tok λ _.
      expect_next "("
        (Stays-bind (p_tyname-Stays f k) λ t. expect_next ")" (Stays-sizeof_expr pos t))
  p_prefix-Stays (suc f) k pos (some Prefix.va_start) = Stays-bind Stays-next_tok λ _.
      expect_next "(" (
        Stays-bind (p_expr-Stays f k _) λ e1.
          expect_next "," (Stays-bind (p_expr-Stays f k _) λ e2. expect_next ")" (Stays-pure _)))
  p_prefix-Stays (suc f) k pos (some Prefix.va_arg) = Stays-bind Stays-next_tok λ _.
      expect_next "(" (
        Stays-bind (p_expr-Stays f k _) λ e.
          expect_next "," (Stays-bind (p_tyname-Stays f k) λ t. expect_next ")" (Stays-pure _)))
  p_prefix-Stays (suc f) k pos (some Prefix.va_end) =
      Stays-bind Stays-next_tok
        λ _. expect_next "(" (Stays-bind (p_expr-Stays f k _) λ e. expect_next ")" (Stays-pure _))
  p_prefix-Stays (suc f) k pos (some Prefix.identifier) = Stays-p_name pos

  p_paren-Stays : (f : ℕ) (k : Context) (pos : Pos) (b : Bool) → Stays k (p_paren f pos b)
  p_paren-Stays zero k pos b = record { on = λ p c. record { holds = tt } }
  p_paren-Stays (suc f) k pos true =
      Stays-bind (p_tyname-Stays f k)
        λ t. expect_next ")" (Stays-bind (p_expr-Stays f k _) λ e. Stays-pure _)
  p_paren-Stays (suc f) k pos false =
      Stays-bind (p_expr-Stays f k _) λ e. expect_next ")" (Stays-pure e)

  p_led-Stays :
      (f : ℕ) (k : Context) (rbp : ℕ) (pos : Pos) (acc : Expr) → Stays k (p_led f rbp pos acc)
  p_led-Stays zero k rbp pos acc = record { on = λ p c. record { holds = tt } }
  p_led-Stays (suc f) k rbp pos acc = record {
    on = λ p c. Gives-elim (infix_of rbp p.tok.text) p c (Stays-pure acc) λ o.
        Stays-bind Stays-next_tok
          λ _. Stays-bind (p_infix-Stays f k pos acc o) λ acc'. p_led-Stays f k rbp pos acc';
  }

  p_infix-Stays :
      (f : ℕ) (k : Context) (pos : Pos) (acc : Expr) (o : Infix) → Stays k (p_infix f pos acc o)
  p_infix-Stays zero k pos acc o = record { on = λ p c. record { holds = tt } }
  p_infix-Stays (suc f) k pos acc (Infix.binary o) =
      Stays-bind (p_expr-Stays f k _) λ e. Stays-pure _
  p_infix-Stays (suc f) k pos acc Infix.cond =
      Stays-bind (p_expr-Stays f k _)
        λ e1. expect_next ":" (Stays-bind (p_expr-Stays f k _) λ e2. Stays-pure _)
  p_infix-Stays (suc f) k pos acc Infix.index =
      Stays-bind (p_expr-Stays f k _) λ e. expect_next "]" (Stays-pure _)
  p_infix-Stays (suc f) k pos acc Infix.call =
      Stays-bind (p_args-Stays f k pos 0) λ args. Stays-pure _
  p_infix-Stays (suc f) k pos acc Infix.dot = Stays-bind Stays-p_ident λ name. Stays-pure _
  p_infix-Stays (suc f) k pos acc Infix.arrow = Stays-bind Stays-p_ident λ name. Stays-pure _
  p_infix-Stays (suc f) k pos acc Infix.post_inc = Stays-pure _
  p_infix-Stays (suc f) k pos acc Infix.post_dec = Stays-pure _

  p_args-Stays : (f : ℕ) (k : Context) (pos : Pos) (m : ℕ) → Stays k (p_args f pos m)
  p_args-Stays zero k pos m = record { on = λ p c. record { holds = tt } }
  p_args-Stays (suc f) k pos m = Stays-bind (Stays-eat ")") λ closed.
      Moves-if closed (λ _. Stays-pure _)
        (Stays-bind (Stays-check _ pos _) λ _.
          Stays-bind (Moves-if _ (λ _. Stays-expect ",") (Stays-pure tt)) λ _.
            Stays-bind (p_expr-Stays f k _)
              λ e. Stays-bind (p_args-Stays f k pos _) λ args. Stays-pure _)

  p_const_expr-Stays : (f : ℕ) (k : Context) → Stays k (p_const_expr f)
  p_const_expr-Stays zero k = record { on = λ p c. record { holds = tt } }
  p_const_expr-Stays (suc f) k = Stays-bind (p_expr-Stays f k _) λ e. Stays-elab _

  p_stmt-JumpsIn : (f : ℕ) (k : Context) → Moves k k (JumpsIn k.loop) (p_stmt f)
  p_stmt-JumpsIn zero k = record { on = λ p c. record { holds = tt } }
  p_stmt-JumpsIn (suc f) k = record {
    on = λ p c. (p_stmt_as-JumpsIn f k p.tok.pos (stmt_start p.tok.text)).on p c;
  }

  p_stmt_as-JumpsIn :
      (f : ℕ) (k : Context) (pos : Pos) (start : StmtStart)
      → Moves k k (JumpsIn k.loop) (p_stmt_as f pos start)
  p_stmt_as-JumpsIn zero k pos start = record { on = λ p c. record { holds = tt } }
  p_stmt_as-JumpsIn (suc f) k pos StmtStart.block_stmt = Stays-bind Stays-next_tok λ _.
      Stays-bind Moves-push_scope λ _.
        Moves-bind (p_stmts-AllJumpIn f (deeper k))
          λ ss j. Stays-bind Moves-pop_scope λ _. gives _ j
  p_stmt_as-JumpsIn (suc f) k pos StmtStart.return_stmt = Stays-bind Stays-next_tok λ _.
      Stays-bind Stays-get
        λ q. Moves-bind (p_returned-JumpsIn f k pos _ _) λ s j. expect_next ";" (gives s j)
  p_stmt_as-JumpsIn (suc f) k pos StmtStart.if_stmt = Stays-bind Stays-next_tok λ _.
      expect_next "(" (
        Stays-bind (p_expr-Stays f k _) λ e. Stays-bind (Stays-elab _) λ c. expect_next ")" (
          Moves-bind (p_scoped-JumpsIn f k) λ s j. Stays-bind (Stays-eat "else") λ has_else.
            Moves-if has_else (λ _. Moves-bind (p_scoped-JumpsIn f k) λ s' j'. gives _ (j, j'))
              (gives _ j)))
  p_stmt_as-JumpsIn (suc f) k pos StmtStart.while_stmt = Stays-bind Stays-next_tok λ _.
      Moves-bind Moves-get λ outer c. Stays-bind (Moves-set_loop true) λ _.
        Stays-bind Moves-push_scope λ _. expect_next "(" (
          Stays-bind (p_expr-Stays f _ _) λ e. Stays-bind (Stays-elab _) λ e'. expect_next ")" (
            Moves-bind (p_scoped-JumpsIn f _)
              λ s j. Moves-end_loop outer.in_loop _ (JumpsIn k.loop) c.loop (tt, tt, j)))
  p_stmt_as-JumpsIn (suc f) k pos StmtStart.for_stmt = Stays-bind Stays-next_tok λ _.
      Moves-bind Moves-get λ outer c. Stays-bind (Moves-set_loop true) λ _.
        Stays-bind Moves-push_scope λ _. expect_next "(" (
          Moves-bind (p_for_init-JumpsIn f _ pos) λ first jf. Stays-bind (p_for_cond-Stays f _) λ e.
            expect_next ";" (
              Moves-bind (p_for_step-JumpsIn f _ pos) λ step js. expect_next ")" (
                Moves-bind (p_scoped-JumpsIn f _) λ s j.
                  Moves-end_loop outer.in_loop _ (JumpsIn k.loop) c.loop
                    (jf k.loop, js k.loop, j))))
  p_stmt_as-JumpsIn (suc f) k pos StmtStart.break_stmt = Moves-jump pos (Stmt.break pos) refl
  p_stmt_as-JumpsIn (suc f) k pos StmtStart.continue_stmt = Moves-jump pos (Stmt.continue pos) refl
  p_stmt_as-JumpsIn (suc f) k pos StmtStart.empty_stmt = Stays-bind Stays-next_tok λ _. gives _ tt
  p_stmt_as-JumpsIn (suc f) k pos StmtStart.decl_stmt =
      Stays-bind (p_decl-Stays f k local_decl (λ e. absurd (cc)))
        λ ds. gives _ (decls-JumpsIn k.loop pos ds)
  p_stmt_as-JumpsIn (suc f) k pos StmtStart.expr_stmt =
      Moves-bind (p_expr_stmt-JumpsIn f k pos) λ s j. expect_next ";" (gives s (j k.loop))

  p_expr_stmt-JumpsIn :
      (f : ℕ) (k : Context) (pos : Pos)
      → Moves k k (λ s. (l : Bool) → JumpsIn l s) (p_expr_stmt f pos)
  p_expr_stmt-JumpsIn zero k pos = record { on = λ p c. record { holds = tt } }
  p_expr_stmt-JumpsIn (suc f) k pos =
      Stays-bind (p_expr-Stays f k _) λ e. Stays-bind (Stays-elab _) λ e'. gives _ (λ l. tt)

  p_returned-JumpsIn :
      (f : ℕ) (k : Context) (pos : Pos) (t : Ty) (b : Bool)
      → Moves k k (JumpsIn k.loop) (p_returned f pos t b)
  p_returned-JumpsIn zero k pos t b = record { on = λ p c. record { holds = tt } }
  p_returned-JumpsIn (suc f) k pos t true = gives _ tt
  p_returned-JumpsIn (suc f) k pos t false =
      Stays-bind (p_expr-Stays f k _) λ e. Stays-bind (Stays-elab _) λ e'. gives _ tt

  p_scoped-JumpsIn : (f : ℕ) (k : Context) → Moves k k (JumpsIn k.loop) (p_scoped f)
  p_scoped-JumpsIn zero k = record { on = λ p c. record { holds = tt } }
  p_scoped-JumpsIn (suc f) k =
      Stays-bind Moves-push_scope λ _.
        Moves-bind (p_stmt-JumpsIn f (deeper k)) λ s j. Stays-bind Moves-pop_scope λ _. gives s j

  p_stmts-AllJumpIn : (f : ℕ) (k : Context) → Moves k k (AllJumpIn k.loop) (p_stmts f)
  p_stmts-AllJumpIn zero k = record { on = λ p c. record { holds = tt } }
  p_stmts-AllJumpIn (suc f) k = Stays-bind (Stays-eat "}") λ closed.
      Moves-if closed (λ _. gives _ tt)
        (Moves-bind (p_stmt-JumpsIn f k)
          λ s j. Moves-bind (p_stmts-AllJumpIn f k) λ ss js. gives _ (j, js))

  -- The declaration of a loop, which is no jump.
  p_init-JumpsIn :
      (f : ℕ) (k : Context) (p : Parse)
      → InContext k p
      → stmt_start p.tok.text ≡ decl_stmt
      → GivesIn k (λ s. (l : Bool) → JumpsIn l s) (p_stmt f p)
  p_init-JumpsIn zero k p c e = record { holds = tt }
  p_init-JumpsIn (suc zero) k p c e = record { holds = tt }
  p_init-JumpsIn (suc (suc f)) k p c e =
      rw (e, p_stmt)
        ((Stays-bind (p_decl-Stays f k local_decl (λ e. absurd (cc)))
            λ ds. gives _ (λ l. decls-JumpsIn l p.tok.pos ds)).on
          p c)

  p_for_init-JumpsIn :
      (f : ℕ) (k : Context) (pos : Pos)
      → Moves k k (λ s. (l : Bool) → JumpsIn l s) (p_for_init f pos)
  p_for_init-JumpsIn zero k pos = record { on = λ p c. record { holds = tt } }
  p_for_init-JumpsIn (suc f) k pos = Stays-bind (Stays-eat ";") λ none_given.
      Moves-if none_given (λ _. gives _ (λ l. tt))
        (Gives-get _ λ p c.
          if_at (at_decl p.tok.text) (p_stmt f) p c
            (λ e. p_init-JumpsIn f k p c (at_decl-stmt_start p.tok.text e))
            (Moves-bind (p_expr_stmt-JumpsIn f k pos) λ s j. expect_next ";" (gives s j)))

  p_for_cond-Stays : (f : ℕ) (k : Context) → Stays k (p_for_cond f)
  p_for_cond-Stays zero k = record { on = λ p c. record { holds = tt } }
  p_for_cond-Stays (suc f) k = Stays-bind (Stays-at ";") λ b.
      Moves-if b (λ _. Stays-pure none)
        (Stays-bind (p_expr-Stays f k _) λ e. Stays-bind (Stays-elab _) λ c. Stays-pure _)

  p_for_step-JumpsIn :
      (f : ℕ) (k : Context) (pos : Pos)
      → Moves k k (λ s. (l : Bool) → JumpsIn l s) (p_for_step f pos)
  p_for_step-JumpsIn zero k pos = record { on = λ p c. record { holds = tt } }
  p_for_step-JumpsIn (suc f) k pos =
      Stays-bind (Stays-at ")")
        λ b. Moves-if b (λ _. gives _ (λ l. tt)) (p_expr_stmt-JumpsIn f k pos)

  p_struct-Stays : (f : ℕ) (k : Context) → Stays k (p_struct f)
  p_struct-Stays zero k = record { on = λ p c. record { holds = tt } }
  p_struct-Stays (suc f) k = Stays-bind Stays-tok_pos λ pos.
      Stays-bind (Stays-p_name_if true) λ name. Stays-bind (Stays-at "{") λ is_def.
        Stays-bind (Moves-if is_def (λ _. Stays-pure none) (Stays-lookup_sym true name)) λ found.
          Stays-bind (Stays-check _ pos _) λ _.
            Moves-elim found
              (Stays-bind (Stays-declare_struct pos name is_def)
                λ s. Stays-bind (Stays-eat_struct s (p_fields-Stays f k s)) λ _. Stays-sym_ty s)
              λ s. Stays-sym_ty s

  p_fields-Stays : (f : ℕ) (k : Context) (s : ℕ) → Stays k (p_fields f s)
  p_fields-Stays zero k s = record { on = λ p c. record { holds = tt } }
  p_fields-Stays (suc f) k s = Stays-bind (Stays-eat "}") λ closed.
      Moves-if closed (λ _. Stays-pure tt)
        (Stays-bind (p_decl-Stays f k (struct_decl s) (λ e. absurd (cc))) λ _. p_fields-Stays f k s)

  p_enum-Stays : (f : ℕ) (k : Context) → Stays k (p_enum f)
  p_enum-Stays zero k = record { on = λ p c. record { holds = tt } }
  p_enum-Stays (suc f) k = expect_next "{" (p_enumerators-Stays f k 0)

  p_enumerators-Stays : (f : ℕ) (k : Context) (v : ℕ) → Stays k (p_enumerators f v)
  p_enumerators-Stays zero k v = record { on = λ p c. record { holds = tt } }
  p_enumerators-Stays (suc f) k v = Stays-bind (Stays-eat "}") λ closed.
      Moves-if closed (λ _. Stays-pure _)
        (Stays-bind Stays-tok_pos λ pos. Stays-bind Stays-p_ident λ name.
          Stays-bind (Stays-eat "=") λ has_val.
            Stays-bind
              (Moves-if has_val (λ _. Stays-bind (p_const_expr-Stays f k) λ m. Stays-pure _)
                (Stays-pure v))
              λ v'. Stays-bind (Stays-at "}") λ last.
                Stays-bind (Moves-if last (λ _. Stays-pure tt) (Stays-expect ","))
                  λ _. Stays-bind (Stays-declare_const pos name v') λ _. p_enumerators-Stays f k _)

  p_specs-Stays : (f : ℕ) (k : Context) (s : Specs) → Stays k (p_specs f s)
  p_specs-Stays zero k s = record { on = λ p c. record { holds = tt } }
  p_specs-Stays (suc f) k s = record {
    on = λ p c. Gives-elim (spec_of s p.tok.text) p c (Stays-pure s) λ sp.
        Stays-bind Stays-next_tok
          λ _. Stays-bind (p_spec-Stays f k s sp) λ s'. p_specs-Stays f k s';
  }

  p_spec-Stays : (f : ℕ) (k : Context) (s : Specs) (sp : Spec) → Stays k (p_spec f s sp)
  p_spec-Stays zero k s sp = record { on = λ p c. record { holds = tt } }
  p_spec-Stays (suc f) k s (Spec.next s') = Stays-pure s'
  p_spec-Stays (suc f) k s Spec.struct_spec = Stays-bind (p_struct-Stays f k) λ t. Stays-pure _
  p_spec-Stays (suc f) k s Spec.enum_spec = Stays-bind (p_enum-Stays f k) λ t. Stays-pure _

  p_base-Stays : (f : ℕ) (k : Context) (b : Bool) → Stays k (p_base f b)
  p_base-Stays zero k b = record { on = λ p c. record { holds = tt } }
  p_base-Stays (suc f) k b = Stays-bind Stays-tok_pos λ pos.
      Stays-bind (p_specs-Stays f k _)
        λ s. Stays-bind (Stays-base_of_specs pos b s) λ t. Stays-pure _

  p_stars-Stays : (f : ℕ) (k : Context) (t : Ty) → Stays k (p_stars f t)
  p_stars-Stays zero k t = record { on = λ p c. record { holds = tt } }
  p_stars-Stays (suc f) k t =
      Stays-bind (Stays-eat "*") λ star. Moves-if star (λ _. p_stars-Stays f k _) (Stays-pure t)

  p_declarator-Stays :
      (f : ℕ) (k : Context) (named has_init : Bool) (t : Ty)
      → Stays k (p_declarator f named has_init t)
  p_declarator-Stays zero k named has_init t = record { on = λ p c. record { holds = tt } }
  p_declarator-Stays (suc f) k named has_init t = Stays-bind (p_stars-Stays f k t) λ t'.
      Stays-bind Stays-tok_pos λ pos. Stays-bind (Stays-p_name_if named) λ name.
        Stays-bind (Stays-eat "(") λ opened.
          Moves-if opened (λ _. p_func_declarator-Stays f k t' name pos)
            (Stays-bind (Stays-eat "[") λ bracket.
              Moves-if bracket (λ _. p_arr_declarator-Stays f k t' name pos)
                (Stays-bind (Stays-eat "=") λ has_eq.
                  Moves-if (has_eq && has_init)
                    (λ _. Stays-bind (p_expr-Stays f k _) λ e. Stays-pure _) (Stays-pure _)))

  p_func_declarator-Stays :
      (f : ℕ) (k : Context) (t : Ty) (name : Option (List ℕ)) (pos : Pos)
      → Stays k (p_func_declarator f t name pos)
  p_func_declarator-Stays zero k t name pos = record { on = λ p c. record { holds = tt } }
  p_func_declarator-Stays (suc f) k t name pos = Stays-bind Moves-push_scope λ _.
      Stays-bind (p_params-Stays f (deeper k) 0 pos) λ (params, is_va).
        expect_next ")" (Stays-bind (Moves-func_ty pos t params is_va) λ t'. Stays-pure _)

  p_arr_declarator-Stays :
      (f : ℕ) (k : Context) (t : Ty) (name : Option (List ℕ)) (pos : Pos)
      → Stays k (p_arr_declarator f t name pos)
  p_arr_declarator-Stays zero k t name pos = record { on = λ p c. record { holds = tt } }
  p_arr_declarator-Stays (suc f) k t name pos =
      Stays-bind (p_const_expr-Stays f k) λ m. expect_next "]" (Stays-pure _)

  p_params-Stays : (f : ℕ) (k : Context) (m : ℕ) (pos : Pos) → Stays k (p_params f m pos)
  p_params-Stays zero k m pos = record { on = λ p c. record { holds = tt } }
  p_params-Stays (suc f) k m pos = Stays-bind (Stays-at ")") λ closed.
      Moves-if closed (λ _. Stays-pure _)
        (Stays-bind (Stays-check _ pos _) λ _. Stays-bind (Stays-p_separator m) λ dots.
          Moves-if dots (λ _. Stays-pure _)
            (Stays-bind (p_param-Stays f k)
              λ s. Stays-bind (p_params-Stays f k _ pos) λ (params, is_va). Stays-pure _))

  p_param-Stays : (f : ℕ) (k : Context) → Stays k (p_param f)
  p_param-Stays zero k = record { on = λ p c. record { holds = tt } }
  p_param-Stays (suc f) k = Stays-bind (p_base-Stays f k false) λ (storage, base).
      Stays-bind (p_declarator-Stays f k true false base) λ d. Stays-declare_param d

  p_tyname-Stays : (f : ℕ) (k : Context) → Stays k (p_tyname f)
  p_tyname-Stays zero k = record { on = λ p c. record { holds = tt } }
  p_tyname-Stays (suc f) k =
      Stays-bind (p_base-Stays f k false)
        λ (storage, base). Stays-bind (p_declarator-Stays f k false false base) λ d. Stays-pure d.ty

  pub p_decl-Stays :
      (f : ℕ) (k : Context) (scope : DeclScope)
      → (is_global_decl scope ≡ true → IsTop k)
      → Stays k (p_decl f scope)
  p_decl-Stays zero k scope top = record { on = λ p c. record { holds = tt } }
  p_decl-Stays (suc f) k scope top =
      Stays-bind (p_base-Stays f k _)
        λ (storage, base). p_declarators-Stays f k scope storage base true top

  p_declarators-Stays :
      (f : ℕ) (k : Context) (scope : DeclScope) (storage : Storage) (base : Ty) (first : Bool)
      → (is_global_decl scope ≡ true → IsTop k)
      → Stays k (p_declarators f scope storage base first)
  p_declarators-Stays zero k scope storage base first top = record {
    on = λ p c. record { holds = tt };
  }
  p_declarators-Stays (suc f) k scope storage base first top =
      Stays-bind (p_declarator-Stays f k true _ base) λ d.
        Moves-elim d.name (expect_next ";" (Stays-pure [])) λ name.
          Moves-elim d.params
            (Stays-bind (Stays-declare_object scope storage d)
              λ ds. Stays-bind (p_more-Stays f k scope storage base top) λ more. Stays-pure _)
            λ params. p_function-Stays f k scope storage base first d params top

  p_function-Stays :
      (f : ℕ) (k : Context) (scope : DeclScope) (storage : Storage) (base : Ty) (first : Bool)
      (d : Declarator) (params : List ℕ)
      → (is_global_decl scope ≡ true → IsTop k)
      → Stays k (p_function f scope storage base first d params)
  p_function-Stays zero k scope storage base first d params top = record {
    on = λ p c. record { holds = tt };
  }
  p_function-Stays (suc f) k scope storage base first d params top =
      Stays-bind (Stays-check _ d.name_pos _) λ _. Stays-bind (Stays-at "{") λ at_body.
        Stays-bind (Stays-declare_function storage d _) λ s.
          Moves-if (is_global_decl scope && (first && at_body))
            (λ e.
              let at_top = top (global_scope scope (first && at_body) e) in
              Stays-bind (Moves-begin_function s params) λ _.
                Moves-bind (p_stmt-JumpsIn f (deeper (in_func (some s) k))) λ body j.
                  Stays-bind (Moves-end_function s body at_top.func (rw at_top.loop at j))
                    λ _. Stays-pure [])
            (p_more-Stays f k scope storage base top)

  p_more-Stays :
      (f : ℕ) (k : Context) (scope : DeclScope) (storage : Storage) (base : Ty)
      → (is_global_decl scope ≡ true → IsTop k)
      → Stays k (p_more f scope storage base)
  p_more-Stays zero k scope storage base top = record { on = λ p c. record { holds = tt } }
  p_more-Stays (suc f) k scope storage base top = Stays-bind (Stays-eat ",") λ comma.
      Moves-if comma (λ _. p_declarators-Stays f k scope storage base false top)
        (expect_next ";" (Stays-pure []))
