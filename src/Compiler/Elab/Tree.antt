-- ===== src/Compiler/Elab/Tree.antt =====
-- `elab_expr` of compiler/smolcc1.c on whole trees, and what stands on it: `elab_rvalue_expr`,
-- `elab_expr_expect`, `elab_cond_expr` and `elab_init`.
use smolcc.Base.{
  ℕ, ◌+◌, ◌%◌, Bool, false, ◌&&◌, ◌||◌, not, Option, none, some, length, ltb, ◌==◌, if◌then◌else◌,
}
use smolcc.Base.Word.{word32}
use smolcc.Compiler.Outcome.{Pos, Outcome, ok, err_at, die, require, ◌>>=◌, ◌>>◌}
use smolcc.Compiler.Types.{
  Ty, Params, void, arr, va_list, char_ty, int_ty, same_ty, is_scalar, is_integer_ty, is_ptr_ty,
  is_func_ty, base_of,
}
use smolcc.Compiler.Ast.{Expr, Args}
use smolcc.Compiler.Typed.{
  TExpr, TArgs, UnKind, BinKind, num, str, var, func, unary, binary, call, ty_of, pos_of,
  is_null_ptr,
}
use smolcc.Compiler.Eval.{const_cast, eval}
use smolcc.Compiler.Elab.Convert.{apply_assign_conv, ptr_decay}
use smolcc.Compiler.Elab.Node.{
  Env, params_of, is_va_of, ret_ty_of, elab_member, elab_unary, elab_add, elab_sub, elab_integers,
  elab_shift, elab_equality, elab_order, elab_logic, elab_assign, elab_cond,
}

-- `e->sym` of a variable, for the second operand of `va_start`.
abbrev pub is_var_of : TExpr → Option ℕ → Bool
is_var_of (var p t s) (some param) = s == param
is_var_of _ _ = false

-- `!curr_func || curr_func->ty->kind != Ty_Func || !curr_func->ty->is_va`, negated.
abbrev pub in_variadic : Env → Option ℕ → Bool
in_variadic env none = false
in_variadic env (some f) = is_va_of (env.syms f).ty

abbrev pub last_param_of : Env → Option ℕ → Option ℕ
last_param_of env none = none
last_param_of env (some f) = (env.syms f).last_param

unfoldable pub elab_va_start : Env → Pos → TExpr → TExpr → Outcome TExpr
elab_va_start env pos a b = do
  require (in_variadic env env.curr_func) pos "va_start outside variadic function"
  require (same_ty (ty_of a) va_list) pos "va_start operand must be va_list"
  require (is_var_of b (last_param_of env env.curr_func)) (pos_of b)
      "va_start second operand must be parameter name"
  ok (binary BinKind.va_start pos void a b)

-- The parser makes no other kind: the pointer operators come from elaboration itself.
unfoldable pub elab_binary : Env → BinKind → Pos → TExpr → TExpr → Outcome TExpr
elab_binary env BinKind.add pos a b = elab_add pos a b
elab_binary env BinKind.sub pos a b = elab_sub pos a b
elab_binary env BinKind.mul pos a b =
    elab_integers BinKind.mul pos "operands must be arithmetic" a b
elab_binary env BinKind.div pos a b =
    elab_integers BinKind.div pos "operands must be arithmetic" a b
elab_binary env BinKind.modulo pos a b =
    elab_integers BinKind.modulo pos "operands must be arithmetic" a b
elab_binary env BinKind.shl pos a b = elab_shift BinKind.shl pos a b
elab_binary env BinKind.shr pos a b = elab_shift BinKind.shr pos a b
elab_binary env BinKind.eq pos a b = elab_equality BinKind.eq pos a b
elab_binary env BinKind.ne pos a b = elab_equality BinKind.ne pos a b
elab_binary env BinKind.lt pos a b = elab_order BinKind.lt pos a b
elab_binary env BinKind.le pos a b = elab_order BinKind.le pos a b
elab_binary env BinKind.bit_and pos a b =
    elab_integers BinKind.bit_and pos "operands must have integer types" a b
elab_binary env BinKind.bit_xor pos a b =
    elab_integers BinKind.bit_xor pos "operands must have integer types" a b
elab_binary env BinKind.bit_or pos a b =
    elab_integers BinKind.bit_or pos "operands must have integer types" a b
elab_binary env BinKind.and pos a b = elab_logic BinKind.and pos a b
elab_binary env BinKind.or pos a b = elab_logic BinKind.or pos a b
elab_binary env BinKind.assign pos a b = elab_assign env pos a b
elab_binary env BinKind.comma pos a b = ok (binary BinKind.comma pos (ty_of b) a b)
elab_binary env BinKind.va_start pos a b = elab_va_start env pos a b
elab_binary env kind pos a b = die "elab_expr: unreachable: %d"

-- Expr_Call: the operand called must be a named function, and the arguments fit its parameters.
abbrev pub callee_sym : TExpr → Option ℕ
callee_sym (unary UnKind.addr p t (func q u s)) = some s
callee_sym _ = none

unfoldable pub count_params : Params → ℕ
count_params Params.nil = 0
count_params (Params.cons t ps) = count_params ps + 1

unfoldable pub count_args : TArgs → ℕ
count_args TArgs.nil = 0
count_args (TArgs.cons e args) = count_args args + 1

unfoldable pub convert_args : Params → TArgs → Outcome TArgs
convert_args ps TArgs.nil = ok TArgs.nil
convert_args (Params.cons t ps) (TArgs.cons e args) = do
  e' ← apply_assign_conv e t
  args' ← convert_args ps args
  ok (TArgs.cons e' args')
convert_args Params.nil (TArgs.cons e args) = do
  require (is_scalar (ty_of e)) (pos_of e) "variadic arguments must be scalar"
  args' ← convert_args Params.nil args
  ok (TArgs.cons e args')

unfoldable pub elab_call_of : Env → Pos → TExpr → TArgs → Option ℕ → Outcome TExpr
elab_call_of env pos callee args none = err_at (pos_of callee) "indirect calls are not supported"
elab_call_of env pos callee args (some f) =
    let t = (env.syms f).ty in
    let n_args = count_args args in
    let n_params = count_params (params_of t) in
    do
      require (not ((ltb n_params n_args && not (is_va_of t)) || ltb n_args n_params)) pos
          "wrong number of arguments"
      args' ← convert_args (params_of t) args
      ok (call pos (ret_ty_of t) callee args')

unfoldable pub elab_call : Env → Pos → TExpr → TArgs → Outcome TExpr
elab_call env pos callee args = do
  require (is_ptr_ty (ty_of callee) && is_func_ty (base_of (ty_of callee))) (pos_of callee)
      "called object is not a function"
  elab_call_of env pos callee args (callee_sym callee)

abbrev pub given_ty : Option Ty → Ty
given_ty none = int_ty
given_ty (some t) = t

-- Operands are elaborated first, from left to right, and decay but under `&`.
abbrev pub decay_under : UnKind → TExpr → TExpr
decay_under UnKind.addr e = e
decay_under _ e = ptr_decay e

unfoldable mutual
  pub elab_expr : Env → Expr → Outcome TExpr
  elab_expr env (Expr.num pos t n) = ok (num pos (given_ty t) n)
  elab_expr env (Expr.chr pos n) = ok (num pos char_ty n)
  elab_expr env (Expr.str pos s) = ok (str pos (arr char_ty ((length s + 1) % word32)) s)
  elab_expr env (Expr.var pos s) = ok (var pos (env.syms s).ty s)
  elab_expr env (Expr.func pos s) = ok (func pos (env.syms s).ty s)
  elab_expr env (Expr.member pos e name) = do
    e' ← elab_expr env e
    elab_member env pos (ptr_decay e') name
  elab_expr env (Expr.unary kind pos t e) = do
    e' ← elab_expr env e
    elab_unary env kind pos t (decay_under kind e')
  elab_expr env (Expr.binary kind pos a b) = do
    a' ← elab_expr env a
    b' ← elab_expr env b
    elab_binary env kind pos (ptr_decay a') (ptr_decay b')
  elab_expr env (Expr.cond pos c a b) = do
    c' ← elab_expr env c
    a' ← elab_expr env a
    b' ← elab_expr env b
    elab_cond pos (ptr_decay c') (ptr_decay a') (ptr_decay b')
  elab_expr env (Expr.call pos callee args) = do
    callee' ← elab_expr env callee
    args' ← elab_args env args
    elab_call env pos (ptr_decay callee') args'

  pub elab_args : Env → Args → Outcome TArgs
  elab_args env Args.nil = ok TArgs.nil
  elab_args env (Args.cons e args) = do
    e' ← elab_expr env e
    args' ← elab_args env args
    ok (TArgs.cons (ptr_decay e') args')

unfoldable pub elab_rvalue_expr : Env → Expr → Outcome TExpr
elab_rvalue_expr env e = do e' ← elab_expr env e; ok (ptr_decay e')

unfoldable pub elab_expr_expect : Env → Expr → Ty → Outcome TExpr
elab_expr_expect env e expected = do e' ← elab_rvalue_expr env e; apply_assign_conv e' expected

unfoldable pub elab_cond_expr : Env → Expr → Outcome TExpr
elab_cond_expr env e = do
  e' ← elab_rvalue_expr env e
  require (is_scalar (ty_of e')) (pos_of e') "condition must be scalar"
  ok e'

-- The value of a global's initializer.
unfoldable pub init_value : TExpr → Ty → Outcome ℕ
init_value e target =
    if is_ptr_ty target && is_null_ptr e
    then ok 0
    else if is_integer_ty target && is_integer_ty (ty_of e)
    then (do v ← eval e; ok (const_cast target v))
    else err_at (pos_of e) "target type mismatch"

unfoldable pub elab_init : Env → Expr → Ty → Outcome ℕ
elab_init env e target = do e' ← elab_rvalue_expr env e; init_value e' target
