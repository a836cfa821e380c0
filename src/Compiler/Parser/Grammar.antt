-- ===== src/Compiler/Parser/Grammar.antt =====
-- p_expr, p_stmt, p_struct, p_enum and p_decl of compiler/smolcc1.c. Each call costs a unit of fuel. p_decl
-- is here p_tyname, p_param and p_decl, for the scopes Decl_TyName, Decl_Param and the others, with the
-- specifiers and the declarator, which all have in common. A branch on the token begins with `next_tok`.
pub mod Parts
use smolcc.Base.{
  ℕ, zero, suc, ◌+◌, ◌%◌, Bool, true, false, ◌&&◌, ◌||◌, not, List, [], ◌∷◌, ◌++◌, Option, none,
  some, ltb, ◌==◌, if◌then◌else◌,
}
use smolcc.Base.Word.{word32}
use smolcc.Compiler.Outcome.{Pos}
use smolcc.Compiler.Types.{Ty, ptr, int_ty, Storage, is_void_ty, ty_size}
use smolcc.Compiler.Ast.{Expr, Args}
use smolcc.Compiler.Typed.{TExpr, UnKind, BinKind}
use smolcc.Compiler.Stmt.{Stmt, Stmts}
use smolcc.Compiler.Elab.Tree.{elab_rvalue_expr, elab_expr_expect, elab_cond_expr}
use smolcc.Compiler.Parser.Monad.{
  Parse, Parser, out_of_fuel, starved, ◌>>=◌, ◌>>◌, pure, get, check, fail, next_tok, at, eat,
  expect, is, is_wrd, p_ident, tok_pos, push_scope, pop_scope, lookup_sym, elab,
}
use smolcc.Compiler.Parser.Ops.{
  Prefix, Infix, BinOp, StmtStart, Specs, Spec, expr_start, infix_of, stmt_start, spec_of, at_decl,
  with_base, no_specs, prec_unary, prec_comma, prec_cond,
}
use smolcc.Compiler.Parser.Grammar.Parts.{
  mk_bin_expr, mk_unary_expr, mk_op, num_expr, str_expr, chr_expr, p_literal, sizeof_expr, p_name,
  const_value, ret_ty, set_loop, DeclScope, global_decl, local_decl, struct_decl, is_global_decl,
  is_struct_decl, base_of_specs, Declarator, declarator, p_name_if, p_separator, func_ty, arr_of,
  declare_param, declare_struct, end_struct, empty_scope, sym_ty, declare_const, max_func_params,
  begin_function, end_function, declare_function, declare_object,
}

unfoldable mutual
  pub p_expr : ℕ → ℕ → Parser Expr
  p_expr zero rbp p = out_of_fuel
  p_expr (suc f) rbp p =
      (do acc ← p_prefix f p.tok.pos (expr_start p.tok); p_led f rbp p.tok.pos acc) p

  -- How an expression starts.
  pub p_prefix : ℕ → Pos → Option Prefix → Parser Expr
  p_prefix zero pos start = starved
  p_prefix (suc f) pos none = fail pos "expected expression"
  p_prefix (suc f) pos (some Prefix.paren) = do
    next_tok
    p ← get
    p_paren f pos (at_decl p.tok.text)
  p_prefix (suc f) pos (some (Prefix.prefix_op kind)) = do
    next_tok
    e ← p_expr f prec_unary
    pure (mk_unary_expr pos kind e)
  p_prefix (suc f) pos (some Prefix.number) = p_literal num_expr pos
  p_prefix (suc f) pos (some Prefix.string) = p_literal str_expr pos
  p_prefix (suc f) pos (some Prefix.character) = p_literal chr_expr pos
  p_prefix (suc f) pos (some Prefix.sizeof) = do
    next_tok
    expect "("
    t ← p_tyname f
    expect ")"
    sizeof_expr pos t
  p_prefix (suc f) pos (some Prefix.va_start) = do
    next_tok
    expect "("
    e1 ← p_expr f prec_comma
    expect ","
    e2 ← p_expr f prec_comma
    expect ")"
    pure (Expr.binary BinKind.va_start pos e1 e2)
  p_prefix (suc f) pos (some Prefix.va_arg) = do
    next_tok
    expect "("
    e ← p_expr f prec_comma
    expect ","
    t ← p_tyname f
    expect ")"
    pure (Expr.unary UnKind.va_arg pos t e)
  p_prefix (suc f) pos (some Prefix.va_end) = do
    next_tok
    expect "("
    e ← p_expr f prec_comma
    expect ")"
    pure (mk_unary_expr pos UnKind.va_end e)
  p_prefix (suc f) pos (some Prefix.identifier) = p_name pos

  -- A cast or an expression in parentheses.
  pub p_paren : ℕ → Pos → Bool → Parser Expr
  p_paren zero pos is_cast = starved
  p_paren (suc f) pos true = do
    t ← p_tyname f
    expect ")"
    e ← p_expr f prec_unary
    pure (Expr.unary UnKind.cast pos t e)
  p_paren (suc f) pos false = do e ← p_expr f 0; expect ")"; pure e

  -- The loop of p_expr.
  pub p_led : ℕ → ℕ → Pos → Expr → Parser Expr
  p_led zero rbp pos acc p = out_of_fuel
  p_led (suc f) rbp pos acc p = elim (infix_of rbp p.tok.text) [
    | none ↦ pure acc p
    | some o ↦ (do next_tok; acc' ← p_infix f pos acc o; p_led f rbp pos acc') p
  ]

  pub p_infix : ℕ → Pos → Expr → Infix → Parser Expr
  p_infix zero pos acc o = starved
  p_infix (suc f) pos acc (Infix.binary o) = do e ← p_expr f o.right; pure (mk_op o acc e)
  p_infix (suc f) pos acc Infix.cond = do
    e1 ← p_expr f 0
    expect ":"
    e2 ← p_expr f 2
    pure (Expr.cond pos acc e1 e2)
  p_infix (suc f) pos acc Infix.index = do
    e ← p_expr f 0
    expect "]"
    pure (mk_unary_expr pos UnKind.deref (mk_bin_expr BinKind.add acc e))
  p_infix (suc f) pos acc Infix.call = do args ← p_args f pos 0; pure (Expr.call pos acc args)
  p_infix (suc f) pos acc Infix.dot = do name ← p_ident; pure (Expr.member pos acc name)
  p_infix (suc f) pos acc Infix.arrow = do
    name ← p_ident
    pure (Expr.member pos (mk_unary_expr pos UnKind.deref acc) name)
  p_infix (suc f) pos acc Infix.post_inc = pure (mk_unary_expr pos UnKind.post_inc acc)
  p_infix (suc f) pos acc Infix.post_dec = pure (mk_unary_expr pos UnKind.post_dec acc)

  -- The arguments of a call, after `n` of them.
  pub p_args : ℕ → Pos → ℕ → Parser Args
  p_args zero pos n = starved
  p_args (suc f) pos n = do
    closed ← eat ")"
    if closed then pure Args.nil else (do
      check (ltb n max_func_params) pos "too many arguments"
      (if ltb 0 n then expect "," else pure tt)
      e ← p_expr f prec_comma
      args ← p_args f pos (n + 1)
      pure (Args.cons e args))

  pub p_const_expr : ℕ → Parser ℕ
  p_const_expr zero = starved
  p_const_expr (suc f) = do e ← p_expr f 2; elab λ env. const_value env e

  pub p_stmt : ℕ → Parser Stmt
  p_stmt zero p = out_of_fuel
  p_stmt (suc f) p = p_stmt_as f p.tok.pos (stmt_start p.tok.text) p

  pub p_stmt_as : ℕ → Pos → StmtStart → Parser Stmt
  p_stmt_as zero pos start = starved
  p_stmt_as (suc f) pos StmtStart.block_stmt = do
    next_tok
    push_scope
    ss ← p_stmts f
    pop_scope
    pure (Stmt.block pos ss)
  p_stmt_as (suc f) pos StmtStart.return_stmt = do
    next_tok
    p ← get
    s ← p_returned f pos (ret_ty p) (is_void_ty (ret_ty p))
    expect ";"
    pure s
  p_stmt_as (suc f) pos StmtStart.if_stmt = do
    next_tok
    expect "("
    e ← p_expr f 0
    c ← elab (λ env. elab_cond_expr env e)
    expect ")"
    s ← p_scoped f
    has_else ← eat "else"
    if has_else
        then (do s' ← p_scoped f; pure (Stmt.if_else pos c s s'))
        else pure (Stmt.if_then pos c s)
  p_stmt_as (suc f) pos StmtStart.while_stmt = do
    next_tok
    outer ← get
    set_loop true
    push_scope
    expect "("
    e ← p_expr f 0
    c ← elab (λ env. elab_cond_expr env e)
    expect ")"
    s ← p_scoped f
    pop_scope
    set_loop outer.in_loop
    pure (Stmt.loop pos (Stmt.empty pos) (some c) (Stmt.empty pos) s)
  p_stmt_as (suc f) pos StmtStart.for_stmt = do
    next_tok
    outer ← get
    set_loop true
    push_scope
    expect "("
    first ← p_for_init f pos
    c ← p_for_cond f
    expect ";"
    step ← p_for_step f pos
    expect ")"
    s ← p_scoped f
    pop_scope
    set_loop outer.in_loop
    pure (Stmt.loop pos first c step s)
  p_stmt_as (suc f) pos StmtStart.break_stmt = do
    p ← get
    check p.in_loop pos "break/continue outside loop"
    next_tok
    expect ";"
    pure (Stmt.break pos)
  p_stmt_as (suc f) pos StmtStart.continue_stmt = do
    p ← get
    check p.in_loop pos "break/continue outside loop"
    next_tok
    expect ";"
    pure (Stmt.continue pos)
  p_stmt_as (suc f) pos StmtStart.empty_stmt = do next_tok; pure (Stmt.empty pos)
  p_stmt_as (suc f) pos StmtStart.decl_stmt = do
    ds ← p_decl f local_decl
    pure (elim ds [ [] ↦ Stmt.empty pos | d ∷ more ↦ Stmt.decl pos (d ∷ more) ])
  p_stmt_as (suc f) pos StmtStart.expr_stmt = do s ← p_expr_stmt f pos; expect ";"; pure s

  -- `elab_rvalue_expr(p_expr(0))` as a statement.
  pub p_expr_stmt : ℕ → Pos → Parser Stmt
  p_expr_stmt zero pos = starved
  p_expr_stmt (suc f) pos = do
    e ← p_expr f 0
    e' ← elab (λ env. elab_rvalue_expr env e)
    pure (Stmt.expr pos e')

  pub p_returned : ℕ → Pos → Ty → Bool → Parser Stmt
  p_returned zero pos t is_void = starved
  p_returned (suc f) pos t true = pure (Stmt.return_void pos)
  p_returned (suc f) pos t false = do
    e ← p_expr f 0
    e' ← elab (λ env. elab_expr_expect env e t)
    pure (Stmt.return_value pos e')

  -- A statement in a scope of its own.
  pub p_scoped : ℕ → Parser Stmt
  p_scoped zero = starved
  p_scoped (suc f) = do push_scope; s ← p_stmt f; pop_scope; pure s

  -- The statements of a block up to its end.
  pub p_stmts : ℕ → Parser Stmts
  p_stmts zero = starved
  p_stmts (suc f) = do
    closed ← eat "}"
    if closed then pure Stmts.nil else (do s ← p_stmt f; ss ← p_stmts f; pure (Stmts.cons s ss))

  pub p_for_init : ℕ → Pos → Parser Stmt
  p_for_init zero pos = starved
  p_for_init (suc f) pos = do
    none_given ← eat ";"
    if none_given then pure (Stmt.empty pos) else (do
      p ← get
      if at_decl p.tok.text then p_stmt f else (do s ← p_expr_stmt f pos; expect ";"; pure s))

  pub p_for_cond : ℕ → Parser (Option TExpr)
  p_for_cond zero = starved
  p_for_cond (suc f) = do
    none_given ← at ";"
    if none_given
        then pure none
        else (do e ← p_expr f 0; c ← elab (λ env. elab_cond_expr env e); pure (some c))

  pub p_for_step : ℕ → Pos → Parser Stmt
  p_for_step zero pos = starved
  p_for_step (suc f) pos = do
    none_given ← at ")"
    if none_given then pure (Stmt.empty pos) else p_expr_stmt f pos

  pub p_struct : ℕ → Parser Ty
  p_struct zero = starved
  p_struct (suc f) = do
    pos ← tok_pos
    name ← p_name_if true
    is_def ← at "{"
    found ← (if is_def then pure none else lookup_sym true name)
    check (is_def || elim name [ none ↦ false | some n ↦ true ]) pos
        "anonymous struct must be a definition"
    elim found [
      | some s ↦ sym_ty s
      | none ↦ (do
        s ← declare_struct pos name is_def
        (do
          has_fields ← eat "{"
          if has_fields then (do empty_scope s; p_fields f s; end_struct s) else pure tt)
        sym_ty s)
    ]

  pub p_fields : ℕ → ℕ → Parser (Unit {0})
  p_fields zero s = starved
  p_fields (suc f) s = do
    closed ← eat "}"
    if closed then pure tt else (do p_decl f (struct_decl s); p_fields f s)

  pub p_enum : ℕ → Parser Ty
  p_enum zero = starved
  p_enum (suc f) = do expect "{"; p_enumerators f 0

  -- The enumerators up to the end, from the value `v`.
  pub p_enumerators : ℕ → ℕ → Parser Ty
  p_enumerators zero v = starved
  p_enumerators (suc f) v = do
    closed ← eat "}"
    if closed then pure int_ty else (do
      pos ← tok_pos
      name ← p_ident
      has_val ← eat "="
      v' ← (if has_val then (do n ← p_const_expr f; pure (n % word32)) else pure v)
      last ← at "}"
      (if last then pure tt else expect ",")
      declare_const pos name v'
      p_enumerators f ((v' + 1) % word32))

  pub p_specs : ℕ → Specs → Parser Specs
  p_specs zero s p = out_of_fuel
  p_specs (suc f) s p = elim (spec_of s p.tok.text) [
    | none ↦ pure s p
    | some sp ↦ (do next_tok; s' ← p_spec f s sp; p_specs f s') p
  ]

  pub p_spec : ℕ → Specs → Spec → Parser Specs
  p_spec zero s sp = starved
  p_spec (suc f) s (Spec.next s') = pure s'
  p_spec (suc f) s Spec.struct_spec = do t ← p_struct f; pure (with_base s t)
  p_spec (suc f) s Spec.enum_spec = do t ← p_enum f; pure (with_base s t)

  -- The storage class and the base type.
  pub p_base : ℕ → Bool → Parser (Storage × Ty)
  p_base zero is_global = starved
  p_base (suc f) is_global = do
    pos ← tok_pos
    s ← p_specs f no_specs
    t ← base_of_specs pos is_global s
    pure (s.storage, t)

  pub p_stars : ℕ → Ty → Parser Ty
  p_stars zero t = starved
  p_stars (suc f) t = do star ← eat "*"; if star then p_stars f (ptr t) else pure t

  -- A declarator, which may have a name and an initializer.
  pub p_declarator : ℕ → Bool → Bool → Ty → Parser Declarator
  p_declarator zero named has_init base = starved
  p_declarator (suc f) named has_init base = do
    t ← p_stars f base
    pos ← tok_pos
    name ← p_name_if named
    opened ← eat "("
    if opened then p_func_declarator f t name pos else (do
      bracket ← eat "["
      if bracket then p_arr_declarator f t name pos else (do
        eq ← eat "="
        if eq && has_init
            then (do e ← p_expr f prec_comma; pure (declarator t name pos none (some e)))
            else pure (declarator t name pos none none)))

  pub p_func_declarator : ℕ → Ty → Option (List ℕ) → Pos → Parser Declarator
  p_func_declarator zero t name pos = starved
  p_func_declarator (suc f) t name pos = do
    push_scope
    (params, is_va) ← p_params f 0 pos
    expect ")"
    t' ← func_ty pos t params is_va
    pure (declarator t' name pos (some params) none)

  pub p_arr_declarator : ℕ → Ty → Option (List ℕ) → Pos → Parser Declarator
  p_arr_declarator zero t name pos = starved
  p_arr_declarator (suc f) t name pos = do
    n ← p_const_expr f
    expect "]"
    pure (declarator (arr_of t n) name pos none none)

  -- The parameters after `n` of them, and whether there are more in a call.
  pub p_params : ℕ → ℕ → Pos → Parser (List ℕ × Bool)
  p_params zero n pos = starved
  p_params (suc f) n pos = do
    closed ← at ")"
    if closed then pure ([], false) else (do
      check (ltb n max_func_params) pos "too many parameters"
      dots ← p_separator n
      if dots then pure ([], true) else (do
        s ← p_param f
        (params, is_va) ← p_params f (n + 1) pos
        pure (s ∷ params, is_va)))

  pub p_param : ℕ → Parser ℕ
  p_param zero = starved
  p_param (suc f) = do
    (storage, base) ← p_base f false
    d ← p_declarator f true false base
    declare_param d

  pub p_tyname : ℕ → Parser Ty
  p_tyname zero = starved
  p_tyname (suc f) = do
    (storage, base) ← p_base f false
    d ← p_declarator f false false base
    pure d.ty

  -- A declaration: the locals that it declares, with their initializers.
  pub p_decl : ℕ → DeclScope → Parser (List (ℕ × Option TExpr))
  p_decl zero scope = starved
  p_decl (suc f) scope = do
    (storage, base) ← p_base f (is_global_decl scope)
    p_declarators f scope storage base true

  pub p_declarators : ℕ → DeclScope → Storage → Ty → Bool → Parser (List (ℕ × Option TExpr))
  p_declarators zero scope storage base first = starved
  p_declarators (suc f) scope storage base first = do
    d ← p_declarator f true (not (is_struct_decl scope)) base
    elim d.name [
      | none ↦ (do expect ";"; pure [])
      | some name ↦ elim d.params [
        | some params ↦ p_function f scope storage base first d params
        | none ↦ (do
          ds ← declare_object scope storage d
          more ← p_more f scope storage base
          pure (ds ++ more))
      ]
    ]

  -- A function, with its body or without.
  pub p_function :
      ℕ → DeclScope → Storage → Ty → Bool → Declarator → List ℕ → Parser (List (ℕ × Option TExpr))
  p_function zero scope storage base first d params = starved
  p_function (suc f) scope storage base first d params = do
    check (not (is_struct_decl scope)) d.name_pos "function declaration not allowed here"
    at_body ← at "{"
    s ← declare_function storage d (is_global_decl scope && (first && at_body))
    if is_global_decl scope && (first && at_body)
        then (do begin_function s params; body ← p_stmt f; end_function s body; pure [])
        else p_more f scope storage base

  -- What follows a declarator that has a name.
  pub p_more : ℕ → DeclScope → Storage → Ty → Parser (List (ℕ × Option TExpr))
  p_more zero scope storage base = starved
  p_more (suc f) scope storage base = do
    comma ← eat ","
    if comma then p_declarators f scope storage base false else (do expect ";"; pure [])
