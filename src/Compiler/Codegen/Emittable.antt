-- ===== src/Compiler/Codegen/Emittable.antt =====
-- The elaborated expressions for which emit_expr and emit_place_expr succeed, and that they keep the
-- machine stack balanced.
use smolcc.Base.{
  ℕ, zero, suc, ◌+◌, ◌≡◌, refl, sym, ap, true, false, ◌∷◌, Option, some, none, arith, ◌≢◌,
}
use smolcc.Compiler.Types.{Ty, is_scalar, is_obj_ty}
use smolcc.Compiler.Typed.{TExpr, TArgs, UnKind, BinKind, ty_of}
use smolcc.Compiler.Outcome.{Pos, ok, die}
use smolcc.Compiler.Elab.Node.{Env}
use smolcc.Compiler.Elab.Tree.{callee_sym, count_args}
use smolcc.Compiler.Codegen.Instr.{Emit, Out}
use smolcc.Compiler.Codegen.Operators.{
  Subs, emit_assign_to_addr, emit_binary, emit_call, emit_pops, emit_va_start,
}
use smolcc.Compiler.Codegen.Expr.{emit_expr, emit_place_expr, emit_source, emit_args}
use smolcc.Compiler.Codegen.Runs.{
  pushed, Stack, stack_of, Runs, ◌⨾◌, Runs-write, Runs-push, Runs-pop, Runs-nothing,
  Runs-emit_int_load, Runs-emit_str_load, Runs-emit_load,
}
use smolcc.Compiler.Codegen.RunsOperators.{
  IsBalanced, HasAddress, Runs-emit_sym_place, Runs-load_scalar, Runs->>, Runs-emit_bin_subs,
  Runs-emit_logic, Runs-emit_cond, Runs-emit_un, Runs-emit_not, Runs-emit_cmp_expr,
  Runs-emit_arith_expr, Runs-emit_modulo, Runs-emit_ptr_arith, Runs-emit_ptr_diff,
  Runs-emit_member_place, Runs-emit_post, Runs-emit_va_start, Runs-emit_conversion,
  Runs-emit_assign_to_addr,
}

-- There is a function whose va_list is set up.
abbrev pub IsIn : Option ℕ → Type 0
IsIn (some f) = Unit
IsIn none = ⊥

unfoldable mutual
  -- The expression has a value that can be emitted: its operands have what their operator needs.
  pub IsValue : Env → TExpr → Type 0
  IsValue env (TExpr.num p t n) = Unit
  IsValue env (TExpr.str p t s) = Unit
  IsValue env (TExpr.var p t s) = HasAddress (env.syms s).kind
  IsValue env (TExpr.func p t s) = ⊥
  IsValue env (TExpr.member p t e f) = IsPlace env e
  IsValue env (TExpr.unary UnKind.post_inc p t e) = IsPlace env e
  IsValue env (TExpr.unary UnKind.post_dec p t e) = IsPlace env e
  IsValue env (TExpr.unary UnKind.addr p t e) = IsPlace env e
  IsValue env (TExpr.unary UnKind.va_arg p t e) = IsPlace env e
  IsValue env (TExpr.unary UnKind.va_end p t e) = Unit
  IsValue env (TExpr.unary k p t e) = IsValue env e
  IsValue env (TExpr.binary BinKind.assign p t a b) =
      IsPlace env a
      × (is_obj_ty env.syms t ≡ true)
      × (is_scalar t ≡ true → IsValue env b)
      × (is_scalar t ≡ false → IsSource env b)
  IsValue env (TExpr.binary BinKind.va_start p t a b) = IsPlace env a × IsIn env.curr_func
  IsValue env (TExpr.binary k p t a b) = IsValue env a × IsValue env b
  IsValue env (TExpr.cond p t c a b) = IsValue env c × IsValue env a × IsValue env b
  IsValue env (TExpr.call p t callee args) = IsIn (callee_sym callee) × AreValues env args

  -- The expression has an address that can be emitted.
  pub IsPlace : Env → TExpr → Type 0
  IsPlace env (TExpr.var p t s) = HasAddress (env.syms s).kind
  IsPlace env (TExpr.func p t s) = HasAddress (env.syms s).kind
  IsPlace env (TExpr.str p t s) = Unit
  IsPlace env (TExpr.member p t e f) = IsPlace env e
  IsPlace env (TExpr.unary UnKind.deref p t e) = IsValue env e
  IsPlace env (TExpr.binary BinKind.assign p t a b) =
      IsPlace env a
      × (is_obj_ty env.syms t ≡ true)
      × (is_scalar t ≡ true → IsValue env b)
      × (is_scalar t ≡ false → IsSource env b)
  IsPlace env (TExpr.binary BinKind.comma p t a b) = IsValue env a × IsValue env b
  IsPlace env _ = ⊥

  -- The expression denotes an object that an assignment can copy from.
  pub IsSource : Env → TExpr → Type 0
  IsSource env (TExpr.var p t s) = HasAddress (env.syms s).kind
  IsSource env (TExpr.func p t s) = HasAddress (env.syms s).kind
  IsSource env (TExpr.str p t s) = Unit
  IsSource env (TExpr.member p t e f) = IsPlace env e
  IsSource env (TExpr.unary UnKind.deref p t e) = IsValue env e
  IsSource env (TExpr.binary BinKind.assign p t a b) =
      IsPlace env a
      × (is_obj_ty env.syms t ≡ true)
      × (is_scalar t ≡ true → IsValue env b)
      × (is_scalar t ≡ false → IsSource env b)
  IsSource env _ = ⊥

  pub AreValues : Env → TArgs → Type 0
  AreValues env TArgs.nil = Unit
  AreValues env (TArgs.cons e args) = IsValue env e × AreValues env args

-- So many registers on a stack.
values : ℕ → Stack → Stack
values zero d = d
values (suc n) d = pushed ∷ values n d

values-cons : (n : ℕ) (d : Stack) → values n (pushed ∷ d) ≡ pushed ∷ values n d
unfolding values
values-cons zero d = refl
values-cons (suc n) d = ap (λ (r : Stack). pushed ∷ r) (values-cons n d)

Runs-emit_pops : (n : ℕ) (d : Stack) → Runs (values n d) d (emit_pops n)
unfolding emit_pops values
Runs-emit_pops zero d = Runs-nothing d
Runs-emit_pops (suc n) d = Runs-pop (values n d) n ⨾ Runs-emit_pops n d

Runs-emit_call :
    (env : Env) (f : Option ℕ) (pushes : Emit) (n : ℕ)
    → IsIn f
    → ((d : Stack) → Runs d (values n d) pushes)
    → IsBalanced (emit_call env f pushes n)
unfolding emit_call stack_of
Runs-emit_call env none pushes n i h d = absurd i
Runs-emit_call env (some f) pushes n i h d = h d ⨾ Runs-emit_pops n d ⨾ Runs-write d _ (λ c. refl)

va_start_runs :
    (env : Env) (f : Option ℕ) {place : Emit}
    → IsIn f
    → IsBalanced place
    → IsBalanced (emit_va_start env f place)
va_start_runs env none i h = absurd i
va_start_runs env (some f) i h = Runs-emit_va_start h env f

-- The kinds with two operands that take the values of both.
Runs-emit_operands :
    (env : Env) (k : BinKind) (t : Ty) (s : Subs)
    → k ≢ BinKind.assign
    → k ≢ BinKind.va_start
    → IsBalanced s.value1
    → IsBalanced s.value2
    → IsBalanced (emit_binary env k t s)
unfolding emit_binary
Runs-emit_operands env BinKind.comma t s n m h1 h2 = Runs->> h1 h2
Runs-emit_operands env BinKind.assign t s n m h1 h2 = absurd (n refl)
Runs-emit_operands env BinKind.va_start t s n m h1 h2 = absurd (m refl)
Runs-emit_operands env BinKind.and t s n m h1 h2 = Runs-emit_logic h1 h2 env.syms true s.ty1 s.ty2
Runs-emit_operands env BinKind.or t s n m h1 h2 = Runs-emit_logic h1 h2 env.syms false s.ty1 s.ty2
Runs-emit_operands env BinKind.eq t s n m h1 h2 =
    Runs-emit_cmp_expr (Runs-emit_bin_subs h1 h2 env.syms s.ty1) _ _ _ _
Runs-emit_operands env BinKind.ne t s n m h1 h2 =
    Runs-emit_cmp_expr (Runs-emit_bin_subs h1 h2 env.syms s.ty1) _ _ _ _
Runs-emit_operands env BinKind.lt t s n m h1 h2 =
    Runs-emit_cmp_expr (Runs-emit_bin_subs h1 h2 env.syms s.ty1) _ _ _ _
Runs-emit_operands env BinKind.le t s n m h1 h2 =
    Runs-emit_cmp_expr (Runs-emit_bin_subs h1 h2 env.syms s.ty1) _ _ _ _
Runs-emit_operands env BinKind.modulo t s n m h1 h2 =
    Runs-emit_modulo (Runs-emit_bin_subs h1 h2 env.syms s.ty1) _ _
Runs-emit_operands env BinKind.ptr_add t s n m h1 h2 =
    Runs-emit_ptr_arith (Runs-emit_bin_subs h1 h2 env.syms s.ty1) _ _ _
Runs-emit_operands env BinKind.ptr_sub t s n m h1 h2 =
    Runs-emit_ptr_arith (Runs-emit_bin_subs h1 h2 env.syms s.ty1) _ _ _
Runs-emit_operands env BinKind.ptr_diff t s n m h1 h2 =
    Runs-emit_ptr_diff (Runs-emit_bin_subs h1 h2 env.syms s.ty1) _ _
Runs-emit_operands env _ t s n m h1 h2 =
    Runs-emit_arith_expr (Runs-emit_bin_subs h1 h2 env.syms s.ty1) _ _ _

abbrev subs_of : Env → TExpr → TExpr → Subs
subs_of env a b = record {
  value1 = emit_expr env a;
  value2 = emit_expr env b;
  place1 = emit_place_expr env a;
  source2 = emit_source env b;
  ty1 = ty_of a;
  ty2 = ty_of b;
}

mutual
  unfolding IsValue emit_expr emit_binary count_args stack_of values

  pub value_runs : (env : Env) (e : TExpr) → IsValue env e → IsBalanced (emit_expr env e)
  value_runs env (TExpr.num p t n) h = λ d. Runs-emit_int_load d env.syms t n 0
  value_runs env (TExpr.str p t s) h = λ d. Runs-emit_str_load d s
  value_runs env (TExpr.var p t s) h =
      Runs->> (Runs-emit_sym_place env s h) (Runs-load_scalar env.syms t)
  value_runs env (TExpr.func p t s) h = absurd h
  value_runs env (TExpr.member p t e f) h =
      Runs->> (Runs-emit_member_place (place_runs env e h) env f) (Runs-load_scalar env.syms t)
  value_runs env (TExpr.unary UnKind.deref p t e) h =
      Runs->> (value_runs env e h) (Runs-load_scalar env.syms t)
  value_runs env (TExpr.unary UnKind.post_inc p t e) h = Runs-emit_post (place_runs env e h) env _ t
  value_runs env (TExpr.unary UnKind.post_dec p t e) h = Runs-emit_post (place_runs env e h) env _ t
  value_runs env (TExpr.unary UnKind.addr p t e) h = place_runs env e h
  value_runs env (TExpr.unary UnKind.bit_not p t e) h =
      Runs-emit_un (value_runs env e h) _ (λ c. refl)
  value_runs env (TExpr.unary UnKind.log_not p t e) h =
      Runs-emit_not (value_runs env e h) env.syms t
  value_runs env (TExpr.unary UnKind.neg p t e) h = Runs-emit_un (value_runs env e h) _ (λ c. refl)
  value_runs env (TExpr.unary UnKind.cast p t e) h =
      Runs->> (value_runs env e h) (Runs-emit_conversion env.syms t (ty_of e))
  value_runs env (TExpr.unary UnKind.va_end p t e) h = Runs-nothing
  value_runs env (TExpr.unary UnKind.va_arg p t e) h =
      Runs->> (Runs-emit_un (place_runs env e h) _ (λ c. refl))
        (λ d. Runs-emit_load d env.syms t 0 0)
  value_runs env (TExpr.binary BinKind.assign p t a b) h = Runs->> (place_runs env a h.0) (
      Runs-emit_assign_to_addr env t h.1 (λ q. value_runs env b (h.2 q))
        (λ q. source_runs env b (h.3 q)))
  value_runs env (TExpr.binary BinKind.va_start p t a b) h =
      va_start_runs env env.curr_func h.1 (place_runs env a h.0)
  value_runs env (TExpr.binary k p t a b) h =
      Runs-emit_operands env k t (subs_of env a b) (cc) (cc) (value_runs env a h.0)
        (value_runs env b h.1)
  value_runs env (TExpr.cond p t c a b) h =
      Runs-emit_cond (value_runs env a h.1) (value_runs env b h.2) env.syms (ty_of c)
        (value_runs env c h.0)
  value_runs env (TExpr.call p t callee args) h =
      Runs-emit_call env (callee_sym callee) _ (count_args args) h.0 (λ d. args_run env args h.1 d)

  place_runs : (env : Env) (e : TExpr) → IsPlace env e → IsBalanced (emit_place_expr env e)
  place_runs env (TExpr.var p t s) h = Runs-emit_sym_place env s h
  place_runs env (TExpr.func p t s) h = Runs-emit_sym_place env s h
  place_runs env (TExpr.str p t s) h = λ d. Runs-emit_str_load d s
  place_runs env (TExpr.member p t e f) h = Runs-emit_member_place (place_runs env e h) env f
  place_runs env (TExpr.unary UnKind.deref p t e) h = value_runs env e h
  place_runs env (TExpr.binary BinKind.assign p t a b) h = Runs->> (place_runs env a h.0) (
      Runs-emit_assign_to_addr env t h.1 (λ q. value_runs env b (h.2 q))
        (λ q. source_runs env b (h.3 q)))
  place_runs env (TExpr.binary BinKind.comma p t a b) h =
      Runs->> (value_runs env a h.0) (value_runs env b h.1)
  place_runs env _ h = absurd h

  pub source_runs : (env : Env) (e : TExpr) → IsSource env e → IsBalanced (emit_source env e)
  source_runs env (TExpr.var p t s) h = Runs-emit_sym_place env s h
  source_runs env (TExpr.func p t s) h = Runs-emit_sym_place env s h
  source_runs env (TExpr.str p t s) h = λ d. Runs-emit_str_load d s
  source_runs env (TExpr.member p t e f) h = Runs-emit_member_place (place_runs env e h) env f
  source_runs env (TExpr.unary UnKind.deref p t e) h = value_runs env e h
  source_runs env (TExpr.binary BinKind.assign p t a b) h = Runs->> (place_runs env a h.0) (
      Runs-emit_assign_to_addr env t h.1 (λ q. value_runs env b (h.2 q))
        (λ q. source_runs env b (h.3 q)))
  source_runs env _ h = absurd h

  args_run :
      (env : Env) (args : TArgs)
      → AreValues env args
      → (d : Stack) → Runs d (values (count_args args) d) (emit_args env args)
  args_run env TArgs.nil h d = Runs-nothing d
  args_run env (TArgs.cons e args) h d =
      let e' : count_args args + 1 ≡ suc (count_args args) = omega arith in
      rw (e', sym (values-cons (count_args args) d))
        (value_runs env e h.0 d ⨾ Runs-push d 0 ⨾ args_run env args h.1 (pushed ∷ d))

-- The exception: assigning a comma expression to an object that is not scalar aborts the compiler,
-- once the place of the object has been emitted.
emit_expr-assign_comma :
    (env : Env) (p q : Pos) (t u : Ty) (a x y : TExpr) (o o' : Out)
    → is_obj_ty env.syms t ≡ true
    → is_scalar t ≡ false
    → emit_place_expr env a o ≡ ok (tt, o')
    → emit_expr env (TExpr.binary BinKind.assign p t a (TExpr.binary BinKind.comma q u x y)) o
      ≡ die "emit_assign_to_addr: unreachable: %d"
unfolding emit_expr emit_binary emit_assign_to_addr
emit_expr-assign_comma env p q t u a x y o o' obj s h = rw (h, obj, s)
