-- ===== src/Compiler/Parser/Fuel.antt =====
-- The fuel that the parser of compiler/smolcc1.c needs: sixteen units for the token and for each character
-- that is left, and a few that depend on the function.
pub mod Parts
use smolcc.Base.{
  ℕ, zero, suc, ◌+◌, ◌*◌, ◌-◌, ◌&&◌, ◌<◌, ◌≤◌, ◌≡◌, refl, Bool, true, false, not, List, [], ◌∷◌,
  Option, none, some, arith, ltb,
}
use smolcc.Compiler.Outcome.{Pos}
use smolcc.Compiler.Types.{Ty, Storage}
use smolcc.Compiler.Ast.{Expr}
use smolcc.Compiler.Stmt.{Stmt}
use smolcc.Compiler.Parser.Monad.{Parse, Parser, ◌>>=◌, ◌>>◌, pure, get, is}
use smolcc.Compiler.Parser.Ops.{
  Prefix, Infix, StmtStart, Specs, Spec, expr_start, infix_of, spec_of, stmt_start, at_decl,
}
use smolcc.Compiler.Parser.Grammar.{
  p_expr, p_prefix, p_paren, p_led, p_infix, p_args, p_const_expr, p_stmt, p_stmt_as, p_expr_stmt,
  p_returned, p_scoped, p_stmts, p_for_init, p_for_cond, p_for_step, p_struct, p_fields, p_enum,
  p_enumerators, p_specs, p_spec, p_base, p_stars, p_declarator, p_func_declarator,
  p_arr_declarator, p_params, p_param, p_tyname, p_decl, p_declarators, p_function, p_more,
}
use smolcc.Compiler.Parser.Grammar.Parts.{
  DeclScope, local_decl, global_decl, struct_decl, is_global_decl, Declarator, is_some,
}
use smolcc.Compiler.Parser.Budget.{
  const_dies, cond_dies, rvalue_dies, expect_dies, weight, size, Ends, Keeps, Eats, Ends-after,
  Ends-more, Keeps-pure, Keeps-lift, Eats-fail, Eats-Keeps, Keeps-bind, Eats-bind, bind-Eats,
  Keeps-if, Eats-split, Keeps-elim, Eats-elim, Keeps-check, Keeps-get,
}
use smolcc.Compiler.Parser.Budget.Steps.{
  Keeps-elab, next_tok-bind, Keeps-eat, Eats-eat, eat-Keeps, expect-Eats, expect-Keeps, expect-bind,
  expect_then, at-Keeps, tok_pos-Keeps, p_ident-Eats, push_scope-Keeps, pop_scope-Keeps,
  lookup_sym-Keeps, check-Ends, Ends-word,
}
use smolcc.Compiler.Parser.Words.{
  expr_start-weight, infix_of-weight, spec_of-weight, has_word, stmt_start-weight,
}
use smolcc.Compiler.Parser.Fuel.Parts.{
  p_literal-Ends, sizeof_expr-Keeps, p_name-Eats, base_of_specs-Keeps, p_name_if-Keeps,
  func_ty-Keeps, declare_param-Keeps, declare_struct-Keeps, declare_const-Keeps,
  begin_function-Keeps, end_function-Keeps, declare_function-Keeps, declare_object-Keeps,
  set_loop-Keeps, end_loop-Keeps, jump-Ends, p_separator-Keeps, p_separator-Eats, sym_ty-Keeps,
  Keeps-eat_struct,
}

-- What a declaration needs besides: that of a file may have the body of a function.
abbrev pub extra : DeclScope → ℕ
extra global_decl = 5
extra local_decl = 0
extra (struct_decl s) = 0

extra_most : (scope : DeclScope) → extra scope ≤ 5
extra_most global_decl = omega arith
extra_most local_decl = omega arith
extra_most (struct_decl s) = omega arith

global_extra : (scope : DeclScope) (b : Bool) → is_global_decl scope && b ≡ true → extra scope ≡ 5
global_extra global_decl b e = refl
global_extra local_decl b e = absurd (cc)
global_extra (struct_decl s) b e = absurd (cc)

mutual
  unfolding is p_expr

  pub p_expr-Eats : (f n rbp : ℕ) → 16 * n + 1 < f → Eats n (p_expr f rbp)
  p_expr-Eats zero n rbp h = absurd (omega arith)
  p_expr-Eats (suc f) n rbp h = record {
    on = λ p l.
        Ends-after
          (p_prefix-Ends f n p.tok.pos (expr_start p.tok) p l (expr_start-weight p.tok)
            (omega arith))
          λ acc q m.
            Ends-more (omega arith)
              ((p_led-Keeps f (size q) rbp p.tok.pos acc (omega arith)).on q (omega arith));
  }

  p_prefix-Ends :
      (f n : ℕ) (pos : Pos) (start : Option Prefix) (p : Parse)
      → size p ≤ n
      → (is_some start ≡ true → weight p.tok ≡ 1)
      → 16 * n < f
      → Ends (size p) (p_prefix f pos start p)
  p_prefix-Ends zero n pos start p l w h = absurd (omega arith)
  p_prefix-Ends (suc f) n pos none p l w h = (Eats-fail pos "expected expression").on p l
  p_prefix-Ends (suc f) n pos (some Prefix.paren) p l w h =
      next_tok-bind _ p l (w refl)
        λ k lt. Keeps-bind Keeps-get λ q. p_paren-Keeps f k pos _ (omega arith)
  p_prefix-Ends (suc f) n pos (some (Prefix.prefix_op kind)) p l w h =
      next_tok-bind _ p l (w refl)
        λ k lt. Keeps-bind (Eats-Keeps (p_expr-Eats f k _ (omega arith))) λ e. Keeps-pure _
  p_prefix-Ends (suc f) n pos (some Prefix.number) p l w h = p_literal-Ends _ pos p l (w refl)
  p_prefix-Ends (suc f) n pos (some Prefix.string) p l w h = p_literal-Ends _ pos p l (w refl)
  p_prefix-Ends (suc f) n pos (some Prefix.character) p l w h = p_literal-Ends _ pos p l (w refl)
  p_prefix-Ends (suc f) n pos (some Prefix.sizeof) p l w h = next_tok-bind _ p l (w refl) λ k lt.
      expect_then "(" refl (
        Keeps-bind (p_tyname-Keeps f k (omega arith))
          λ t. expect_then ")" refl (sizeof_expr-Keeps pos t))
  p_prefix-Ends (suc f) n pos (some Prefix.va_start) p l w h = next_tok-bind _ p l (w refl) λ k lt.
      expect_then "(" refl (
        Keeps-bind (Eats-Keeps (p_expr-Eats f k _ (omega arith))) λ e1. expect_then "," refl (
          Keeps-bind (Eats-Keeps (p_expr-Eats f k _ (omega arith)))
            λ e2. expect_then ")" refl (Keeps-pure _)))
  p_prefix-Ends (suc f) n pos (some Prefix.va_arg) p l w h = next_tok-bind _ p l (w refl) λ k lt.
      expect_then "(" refl (
        Keeps-bind (Eats-Keeps (p_expr-Eats f k _ (omega arith))) λ e.
          expect_then "," refl (
            Keeps-bind (p_tyname-Keeps f k (omega arith)) λ t. expect_then ")" refl (Keeps-pure _)))
  p_prefix-Ends (suc f) n pos (some Prefix.va_end) p l w h = next_tok-bind _ p l (w refl) λ k lt.
      expect_then "(" refl (
        Keeps-bind (Eats-Keeps (p_expr-Eats f k _ (omega arith)))
          λ e. expect_then ")" refl (Keeps-pure _))
  p_prefix-Ends (suc f) n pos (some Prefix.identifier) p l w h = (p_name-Eats pos).on p l

  p_paren-Keeps : (f n : ℕ) (pos : Pos) (b : Bool) → 16 * n + 5 < f → Keeps n (p_paren f pos b)
  p_paren-Keeps zero n pos b h = absurd (omega arith)
  p_paren-Keeps (suc f) n pos true h = Keeps-bind (p_tyname-Keeps f n (omega arith)) λ t.
      expect_then ")" refl
        (Keeps-bind (Eats-Keeps (p_expr-Eats f n _ (omega arith))) λ e. Keeps-pure _)
  p_paren-Keeps (suc f) n pos false h =
      Keeps-bind (Eats-Keeps (p_expr-Eats f n _ (omega arith)))
        λ e. expect_then ")" refl (Keeps-pure e)

  p_led-Keeps : (f n rbp : ℕ) (pos : Pos) (acc : Expr) → 16 * n < f → Keeps n (p_led f rbp pos acc)
  p_led-Keeps zero n rbp pos acc h = absurd (omega arith)
  p_led-Keeps (suc f) n rbp pos acc h = record {
    on = λ p l.
        Ends-word (infix_of rbp p.tok.text) (pure acc)
          (λ o. p_infix f pos acc o >>= λ acc'. p_led f rbp pos acc') p l
          (infix_of-weight rbp p.tok)
          (λ o k lt.
            Keeps-bind (p_infix-Keeps f k pos acc o (omega arith))
              λ acc'. p_led-Keeps f k rbp pos acc' (omega arith))
          (Keeps-pure acc);
  }

  p_infix-Keeps :
      (f n : ℕ) (pos : Pos) (acc : Expr) (o : Infix)
      → 16 * n + 5 < f
      → Keeps n (p_infix f pos acc o)
  p_infix-Keeps zero n pos acc o h = absurd (omega arith)
  p_infix-Keeps (suc f) n pos acc (Infix.binary o) h =
      Keeps-bind (Eats-Keeps (p_expr-Eats f n _ (omega arith))) λ e. Keeps-pure _
  p_infix-Keeps (suc f) n pos acc Infix.cond h =
      Keeps-bind (Eats-Keeps (p_expr-Eats f n _ (omega arith))) λ e1.
        expect_then ":" refl
          (Keeps-bind (Eats-Keeps (p_expr-Eats f n _ (omega arith))) λ e2. Keeps-pure _)
  p_infix-Keeps (suc f) n pos acc Infix.index h =
      Keeps-bind (Eats-Keeps (p_expr-Eats f n _ (omega arith)))
        λ e. expect_then "]" refl (Keeps-pure _)
  p_infix-Keeps (suc f) n pos acc Infix.call h =
      Keeps-bind (p_args-Keeps f n pos 0 (omega arith)) λ args. Keeps-pure _
  p_infix-Keeps (suc f) n pos acc Infix.dot h =
      Keeps-bind (Eats-Keeps p_ident-Eats) λ name. Keeps-pure _
  p_infix-Keeps (suc f) n pos acc Infix.arrow h =
      Keeps-bind (Eats-Keeps p_ident-Eats) λ name. Keeps-pure _
  p_infix-Keeps (suc f) n pos acc Infix.post_inc h = Keeps-pure _
  p_infix-Keeps (suc f) n pos acc Infix.post_dec h = Keeps-pure _

  p_args-Keeps : (f n : ℕ) (pos : Pos) (m : ℕ) → 16 * n + 2 < f → Keeps n (p_args f pos m)
  p_args-Keeps zero n pos m h = absurd (omega arith)
  p_args-Keeps (suc f) n pos m h =
      Keeps-eat ")" _ refl (λ k l. Keeps-pure _)
        (Keeps-bind (Keeps-check _ pos _) λ _.
          Keeps-bind (Keeps-if (ltb 0 m) (expect-Keeps "," refl) (Keeps-pure tt)) λ _. Eats-Keeps (
            Eats-bind (p_expr-Eats f n _ (omega arith)) λ k l e.
              Keeps-bind (p_args-Keeps f k pos (m + 1) (omega arith)) λ args. Keeps-pure _))

  p_const_expr-Keeps : (f n : ℕ) → 16 * n + 2 < f → Keeps n (p_const_expr f)
  p_const_expr-Keeps zero n h = absurd (omega arith)
  p_const_expr-Keeps (suc f) n h =
      Keeps-bind (Eats-Keeps (p_expr-Eats f n _ (omega arith)))
        λ e. Keeps-elab _ λ env m. const_dies env e

  pub p_stmt-Eats : (f n : ℕ) → 16 * n + 5 < f → Eats n (p_stmt f)
  p_stmt-Eats zero n h = absurd (omega arith)
  p_stmt-Eats (suc f) n h = record {
    on = λ p l.
        p_stmt_as-Ends f n p.tok.pos (stmt_start p.tok.text) p l (stmt_start-weight p.tok)
          (omega arith);
  }

  p_stmt_as-Ends :
      (f n : ℕ) (pos : Pos) (start : StmtStart) (p : Parse)
      → size p ≤ n
      → (has_word start ≡ true → weight p.tok ≡ 1)
      → 16 * n + 4 < f
      → Ends (size p) (p_stmt_as f pos start p)
  p_stmt_as-Ends zero n pos start p l w h = absurd (omega arith)
  p_stmt_as-Ends (suc f) n pos StmtStart.block_stmt p l w h = next_tok-bind _ p l (w refl) λ k lt.
      Keeps-bind push_scope-Keeps λ _.
        Keeps-bind (p_stmts-Keeps f k (omega arith))
          λ ss. Keeps-bind pop_scope-Keeps λ _. Keeps-pure _
  p_stmt_as-Ends (suc f) n pos StmtStart.return_stmt p l w h = next_tok-bind _ p l (w refl) λ k lt.
      Keeps-bind Keeps-get λ q.
        Keeps-bind (p_returned-Keeps f k pos _ _ (omega arith))
          λ s. expect_then ";" refl (Keeps-pure s)
  p_stmt_as-Ends (suc f) n pos StmtStart.if_stmt p l w h = next_tok-bind _ p l (w refl) λ k lt.
      expect_then "(" refl (
        Keeps-bind (Eats-Keeps (p_expr-Eats f k _ (omega arith))) λ e.
          Keeps-bind (Keeps-elab _ λ env m. cond_dies env e) λ c. expect_then ")" refl (
            Keeps-bind (Eats-Keeps (p_scoped-Eats f k (omega arith))) λ s.
              Keeps-eat "else" _ refl
                (λ j lj.
                  Keeps-bind (Eats-Keeps (p_scoped-Eats f j (omega arith))) λ s'. Keeps-pure _)
                (Keeps-pure _)))
  p_stmt_as-Ends (suc f) n pos StmtStart.while_stmt p l w h = next_tok-bind _ p l (w refl) λ k lt.
      Keeps-bind Keeps-get λ outer. Keeps-bind (set_loop-Keeps true) λ _.
        Keeps-bind push_scope-Keeps λ _. expect_then "(" refl (
          Keeps-bind (Eats-Keeps (p_expr-Eats f k _ (omega arith))) λ e.
            Keeps-bind (Keeps-elab _ λ env m. cond_dies env e) λ c. expect_then ")" refl (
              Keeps-bind (Eats-Keeps (p_scoped-Eats f k (omega arith)))
                λ s. end_loop-Keeps outer.in_loop _))
  p_stmt_as-Ends (suc f) n pos StmtStart.for_stmt p l w h = next_tok-bind _ p l (w refl) λ k lt.
      Keeps-bind Keeps-get λ outer. Keeps-bind (set_loop-Keeps true) λ _.
        Keeps-bind push_scope-Keeps λ _. expect_then "(" refl (
          Keeps-bind (p_for_init-Keeps f k pos (omega arith)) λ first.
            Keeps-bind (p_for_cond-Keeps f k (omega arith)) λ c. expect_then ";" refl (
              Keeps-bind (p_for_step-Keeps f k pos (omega arith)) λ step. expect_then ")" refl (
                Keeps-bind (Eats-Keeps (p_scoped-Eats f k (omega arith)))
                  λ s. end_loop-Keeps outer.in_loop _)))
  p_stmt_as-Ends (suc f) n pos StmtStart.break_stmt p l w h =
      jump-Ends pos (Stmt.break pos) p l (w refl)
  p_stmt_as-Ends (suc f) n pos StmtStart.continue_stmt p l w h =
      jump-Ends pos (Stmt.continue pos) p l (w refl)
  p_stmt_as-Ends (suc f) n pos StmtStart.empty_stmt p l w h =
      next_tok-bind _ p l (w refl) λ k lt. Keeps-pure _
  p_stmt_as-Ends (suc f) n pos StmtStart.decl_stmt p l w h =
      (Eats-bind (p_decl-Eats f n local_decl (omega arith)) λ k lt ds. Keeps-pure _).on p l
  p_stmt_as-Ends (suc f) n pos StmtStart.expr_stmt p l w h =
      (bind-Eats (p_expr_stmt-Keeps f n pos (omega arith))
          λ s. expect-bind ";" refl λ k lt. Keeps-pure s).on
        p l

  p_expr_stmt-Keeps : (f n : ℕ) (pos : Pos) → 16 * n + 2 < f → Keeps n (p_expr_stmt f pos)
  p_expr_stmt-Keeps zero n pos h = absurd (omega arith)
  p_expr_stmt-Keeps (suc f) n pos h =
      Keeps-bind (Eats-Keeps (p_expr-Eats f n _ (omega arith)))
        λ e. Keeps-bind (Keeps-elab _ λ env m. rvalue_dies env e) λ e'. Keeps-pure _

  p_returned-Keeps :
      (f n : ℕ) (pos : Pos) (t : Ty) (b : Bool) → 16 * n + 2 < f → Keeps n (p_returned f pos t b)
  p_returned-Keeps zero n pos t b h = absurd (omega arith)
  p_returned-Keeps (suc f) n pos t true h = Keeps-pure _
  p_returned-Keeps (suc f) n pos t false h =
      Keeps-bind (Eats-Keeps (p_expr-Eats f n _ (omega arith)))
        λ e. Keeps-bind (Keeps-elab _ λ env m. expect_dies env e t) λ e'. Keeps-pure _

  p_scoped-Eats : (f n : ℕ) → 16 * n + 6 < f → Eats n (p_scoped f)
  p_scoped-Eats zero n h = absurd (omega arith)
  p_scoped-Eats (suc f) n h = bind-Eats push_scope-Keeps λ _.
      Eats-bind (p_stmt-Eats f n (omega arith))
        λ k lt s. Keeps-bind pop_scope-Keeps λ _. Keeps-pure s

  p_stmts-Keeps : (f n : ℕ) → 16 * n + 6 < f → Keeps n (p_stmts f)
  p_stmts-Keeps zero n h = absurd (omega arith)
  p_stmts-Keeps (suc f) n h =
      Keeps-eat "}" _ refl (λ k l. Keeps-pure _)
        (Eats-Keeps (
          Eats-bind (p_stmt-Eats f n (omega arith))
            λ k l s. Keeps-bind (p_stmts-Keeps f k (omega arith)) λ ss. Keeps-pure _))

  p_for_init-Keeps : (f n : ℕ) (pos : Pos) → 16 * n + 6 < f → Keeps n (p_for_init f pos)
  p_for_init-Keeps zero n pos h = absurd (omega arith)
  p_for_init-Keeps (suc f) n pos h =
      Keeps-eat ";" _ refl (λ k l. Keeps-pure _)
        (Keeps-bind Keeps-get λ q.
          Keeps-if (at_decl q.tok.text) (Eats-Keeps (p_stmt-Eats f n (omega arith))) (
            Keeps-bind (p_expr_stmt-Keeps f n pos (omega arith))
              λ s. expect_then ";" refl (Keeps-pure s)))

  p_for_cond-Keeps : (f n : ℕ) → 16 * n + 2 < f → Keeps n (p_for_cond f)
  p_for_cond-Keeps zero n h = absurd (omega arith)
  p_for_cond-Keeps (suc f) n h = Keeps-bind (at-Keeps ";") λ b. Keeps-if b (Keeps-pure none) (
      Keeps-bind (Eats-Keeps (p_expr-Eats f n _ (omega arith)))
        λ e. Keeps-bind (Keeps-elab _ λ env m. cond_dies env e) λ c. Keeps-pure _)

  p_for_step-Keeps : (f n : ℕ) (pos : Pos) → 16 * n + 3 < f → Keeps n (p_for_step f pos)
  p_for_step-Keeps zero n pos h = absurd (omega arith)
  p_for_step-Keeps (suc f) n pos h =
      Keeps-bind (at-Keeps ")")
        λ b. Keeps-if b (Keeps-pure _) (p_expr_stmt-Keeps f n pos (omega arith))

  p_struct-Keeps : (f n : ℕ) → 16 * n < f → Keeps n (p_struct f)
  p_struct-Keeps zero n h = absurd (omega arith)
  p_struct-Keeps (suc f) n h = Keeps-bind tok_pos-Keeps λ pos.
      Keeps-bind (p_name_if-Keeps true) λ name. Keeps-bind (at-Keeps "{") λ is_def.
        Keeps-bind (Keeps-if is_def (Keeps-pure none) (lookup_sym-Keeps true name)) λ found.
          Keeps-bind (Keeps-check _ pos _) λ _.
            Keeps-elim found
              (Keeps-bind (declare_struct-Keeps pos name is_def) λ s.
                Keeps-bind (Keeps-eat_struct s (λ k l. p_fields-Keeps f k s (omega arith)))
                  λ _. sym_ty-Keeps s)
              λ s. sym_ty-Keeps s

  p_fields-Keeps : (f n s : ℕ) → 16 * n + 4 < f → Keeps n (p_fields f s)
  p_fields-Keeps zero n s h = absurd (omega arith)
  p_fields-Keeps (suc f) n s h =
      Keeps-eat "}" _ refl (λ k l. Keeps-pure tt)
        (Eats-Keeps (
          Eats-bind (p_decl-Eats f n (struct_decl s) (omega arith))
            λ k l _. p_fields-Keeps f k s (omega arith)))

  p_enum-Keeps : (f n : ℕ) → 16 * n < f → Keeps n (p_enum f)
  p_enum-Keeps zero n h = absurd (omega arith)
  p_enum-Keeps (suc f) n h =
      Eats-Keeps (expect-bind "{" refl λ k l. p_enumerators-Keeps f k 0 (omega arith))

  p_enumerators-Keeps : (f n v : ℕ) → 16 * n < f → Keeps n (p_enumerators f v)
  p_enumerators-Keeps zero n v h = absurd (omega arith)
  p_enumerators-Keeps (suc f) n v h =
      Keeps-eat "}" _ refl (λ k l. Keeps-pure _)
        (Keeps-bind tok_pos-Keeps λ pos. Eats-Keeps (
          Eats-bind p_ident-Eats λ k l name. Keeps-bind (eat-Keeps "=" refl) λ has_val.
            Keeps-bind
              (Keeps-if has_val
                (Keeps-bind (p_const_expr-Keeps f k (omega arith)) λ m. Keeps-pure _)
                (Keeps-pure v))
              λ v'. Keeps-bind (at-Keeps "}") λ last.
                Keeps-bind (Keeps-if last (Keeps-pure tt) (expect-Keeps "," refl)) λ _.
                  Keeps-bind (declare_const-Keeps pos name v')
                    λ _. p_enumerators-Keeps f k _ (omega arith)))

  p_specs-Keeps : (f n : ℕ) (s : Specs) → 16 * n < f → Keeps n (p_specs f s)
  p_specs-Keeps zero n s h = absurd (omega arith)
  p_specs-Keeps (suc f) n s h = record {
    on = λ p l.
        Ends-word (spec_of s p.tok.text) (pure s) (λ sp. p_spec f s sp >>= λ s'. p_specs f s') p l
          (spec_of-weight s p.tok)
          (λ sp k lt.
            Keeps-bind (p_spec-Keeps f k s sp (omega arith))
              λ s'. p_specs-Keeps f k s' (omega arith))
          (Keeps-pure s);
  }

  p_spec-Keeps : (f n : ℕ) (s : Specs) (sp : Spec) → 16 * n + 1 < f → Keeps n (p_spec f s sp)
  p_spec-Keeps zero n s sp h = absurd (omega arith)
  p_spec-Keeps (suc f) n s (Spec.next s') h = Keeps-pure s'
  p_spec-Keeps (suc f) n s Spec.struct_spec h =
      Keeps-bind (p_struct-Keeps f n (omega arith)) λ t. Keeps-pure _
  p_spec-Keeps (suc f) n s Spec.enum_spec h =
      Keeps-bind (p_enum-Keeps f n (omega arith)) λ t. Keeps-pure _

  p_base-Keeps : (f n : ℕ) (b : Bool) → 16 * n + 1 < f → Keeps n (p_base f b)
  p_base-Keeps zero n b h = absurd (omega arith)
  p_base-Keeps (suc f) n b h = Keeps-bind tok_pos-Keeps λ pos.
      Keeps-bind (p_specs-Keeps f n _ (omega arith))
        λ s. Keeps-bind (base_of_specs-Keeps pos b s) λ t. Keeps-pure _

  p_stars-Keeps : (f n : ℕ) (t : Ty) → 16 * n < f → Keeps n (p_stars f t)
  p_stars-Keeps zero n t h = absurd (omega arith)
  p_stars-Keeps (suc f) n t h =
      Keeps-eat "*" _ refl (λ k l. p_stars-Keeps f k _ (omega arith)) (Keeps-pure t)

  p_declarator-Keeps :
      (f n : ℕ) (named has_init : Bool) (t : Ty)
      → 16 * n + 1 < f
      → Keeps n (p_declarator f named has_init t)
  p_declarator-Keeps zero n named has_init t h = absurd (omega arith)
  p_declarator-Keeps (suc f) n named has_init t h =
      Keeps-bind (p_stars-Keeps f n t (omega arith)) λ t'. Keeps-bind tok_pos-Keeps λ pos.
        Keeps-bind (p_name_if-Keeps named) λ name.
          Keeps-eat "(" _ refl (λ k l. p_func_declarator-Keeps f k t' name pos (omega arith))
            (Keeps-eat "[" _ refl (λ k l. p_arr_declarator-Keeps f k t' name pos (omega arith))
              (Keeps-eat "=" _ refl
                (λ k l.
                  Keeps-if has_init
                    (Keeps-bind (Eats-Keeps (p_expr-Eats f k _ (omega arith))) λ e. Keeps-pure _)
                    (Keeps-pure _))
                (Keeps-pure _)))

  p_func_declarator-Keeps :
      (f n : ℕ) (t : Ty) (name : Option (List ℕ)) (pos : Pos)
      → 16 * n + 5 < f
      → Keeps n (p_func_declarator f t name pos)
  p_func_declarator-Keeps zero n t name pos h = absurd (omega arith)
  p_func_declarator-Keeps (suc f) n t name pos h = Keeps-bind push_scope-Keeps λ _.
      Keeps-bind (p_params-Keeps f n 0 pos (omega arith)) λ (params, is_va).
        expect_then ")" refl (Keeps-bind (func_ty-Keeps pos t params is_va) λ t'. Keeps-pure _)

  p_arr_declarator-Keeps :
      (f n : ℕ) (t : Ty) (name : Option (List ℕ)) (pos : Pos)
      → 16 * n + 5 < f
      → Keeps n (p_arr_declarator f t name pos)
  p_arr_declarator-Keeps zero n t name pos h = absurd (omega arith)
  p_arr_declarator-Keeps (suc f) n t name pos h =
      Keeps-bind (p_const_expr-Keeps f n (omega arith)) λ m. expect_then "]" refl (Keeps-pure _)

  p_params-Keeps : (f n m : ℕ) (pos : Pos) → 16 * n + 3 + (1 - m) < f → Keeps n (p_params f m pos)
  p_params-Keeps zero n m pos h = absurd (omega arith)
  p_params-Keeps (suc f) n zero pos h = Keeps-bind (at-Keeps ")") λ closed.
      Keeps-if closed (Keeps-pure _) (
        Keeps-bind (Keeps-check _ pos _) λ _. Keeps-bind p_separator-Keeps λ dots.
          Keeps-if dots (Keeps-pure _) (
            Keeps-bind (p_param-Keeps f n (omega arith)) λ s.
              Keeps-bind (p_params-Keeps f n 1 pos (omega arith)) λ (params, is_va). Keeps-pure _))
  p_params-Keeps (suc f) n (suc m) pos h = Keeps-bind (at-Keeps ")") λ closed.
      Keeps-if closed (Keeps-pure _) (
        Keeps-bind (Keeps-check _ pos _) λ _. Eats-Keeps (
          Eats-bind (p_separator-Eats m) λ k l dots. Keeps-if dots (Keeps-pure _) (
            Keeps-bind (p_param-Keeps f k (omega arith)) λ s.
              Keeps-bind (p_params-Keeps f k (suc m + 1) pos (omega arith))
                λ (params, is_va). Keeps-pure _)))

  p_param-Keeps : (f n : ℕ) → 16 * n + 2 < f → Keeps n (p_param f)
  p_param-Keeps zero n h = absurd (omega arith)
  p_param-Keeps (suc f) n h = Keeps-bind (p_base-Keeps f n false (omega arith)) λ (storage, base).
      Keeps-bind (p_declarator-Keeps f n true false base (omega arith)) λ d. declare_param-Keeps d

  p_tyname-Keeps : (f n : ℕ) → 16 * n + 2 < f → Keeps n (p_tyname f)
  p_tyname-Keeps zero n h = absurd (omega arith)
  p_tyname-Keeps (suc f) n h = Keeps-bind (p_base-Keeps f n false (omega arith)) λ (storage, base).
      Keeps-bind (p_declarator-Keeps f n false false base (omega arith)) λ d. Keeps-pure d.ty

  pub p_decl-Eats :
      (f n : ℕ) (scope : DeclScope) → 16 * n + 3 + extra scope < f → Eats n (p_decl f scope)
  p_decl-Eats zero n scope h = absurd (omega arith)
  p_decl-Eats (suc f) n scope h =
      bind-Eats (p_base-Keeps f n _ (omega arith))
        λ (storage, base). p_declarators-Eats f n scope storage base true (omega arith)

  p_declarators-Eats :
      (f n : ℕ) (scope : DeclScope) (storage : Storage) (base : Ty) (first : Bool)
      → 16 * n + 2 + extra scope < f
      → Eats n (p_declarators f scope storage base first)
  p_declarators-Eats zero n scope storage base first h = absurd (omega arith)
  p_declarators-Eats (suc f) n scope storage base first h =
      bind-Eats (p_declarator-Keeps f n true _ base (omega arith)) λ d.
        Eats-elim d.name (expect-bind ";" refl λ k l. Keeps-pure []) λ name.
          Eats-elim d.params
            (bind-Eats (declare_object-Keeps scope storage d) λ ds.
              Eats-bind (p_more-Eats f n scope storage base (omega arith)) λ k l more. Keeps-pure _)
            λ params. p_function-Eats f n scope storage base first d params (omega arith)

  p_function-Eats :
      (f n : ℕ) (scope : DeclScope) (storage : Storage) (base : Ty) (first : Bool) (d : Declarator)
      (params : List ℕ)
      → 16 * n + 1 + extra scope < f
      → Eats n (p_function f scope storage base first d params)
  p_function-Eats zero n scope storage base first d params h = absurd (omega arith)
  p_function-Eats (suc f) n scope storage base first d params h =
      bind-Eats (Keeps-check _ d.name_pos _) λ _. bind-Eats (at-Keeps "{") λ at_body.
        bind-Eats (declare_function-Keeps storage d _) λ s.
          Eats-split (is_global_decl scope && (first && at_body))
            (λ e.
              let most = global_extra scope (first && at_body) e in
              bind-Eats (begin_function-Keeps s params) λ _.
                Eats-bind (p_stmt-Eats f n (omega arith))
                  λ k l body. Keeps-bind (end_function-Keeps s body) λ _. Keeps-pure [])
            (p_more-Eats f n scope storage base (omega arith))

  p_more-Eats :
      (f n : ℕ) (scope : DeclScope) (storage : Storage) (base : Ty)
      → 16 * n < f
      → Eats n (p_more f scope storage base)
  p_more-Eats zero n scope storage base h = absurd (omega arith)
  p_more-Eats (suc f) n scope storage base h =
      Eats-eat "," _ refl
        (λ k l.
          let most = extra_most scope in
          Eats-Keeps (p_declarators-Eats f k scope storage base false (omega arith)))
        (expect-bind ";" refl λ k l. Keeps-pure [])
