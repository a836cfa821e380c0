-- ===== src/Compiler/Elab/Node.antt =====
-- `elab_expr` of compiler/smolcc1.c at one node, with its operands elaborated and decayed: a
-- function for each group of kinds.
use smolcc.Base.{ℕ, Bool, false, ◌&&◌, ◌||◌, Option, none, some, List, String, if◌then◌else◌}
use smolcc.Compiler.Outcome.{Pos, Outcome, ok, err_at, require, ◌>>=◌, ◌>>◌}
use smolcc.Compiler.Types.{
  Ty, Params, void, ptr, func, struct, va_list, nil, Syms, int_ty, long_ty, same_ty, is_scalar,
  is_integer_ty, is_ptr_ty, is_void_ty, base_of,
}
use smolcc.Compiler.Symbols.{lookup_in}
use smolcc.Compiler.Typed.{
  TExpr, UnKind, BinKind, unary, binary, cond, member, ty_of, is_addressable, is_assignable,
}
use smolcc.Compiler.Elab.Convert.{
  apply_ua_conv, apply_null_ptr_conv, unify_ptr_subs, apply_assign_conv,
}

-- What elaboration reads: the symbols, and `curr_func`.
pub record Env : Type 0 where
  pub syms : Syms
  pub curr_func : Option ℕ

-- `func->n_params`, `func->param_tys`, `func->is_va` and `func->ret_ty` of a function type.
abbrev pub params_of : Ty → Params
params_of (func ret params is_va) = params
params_of _ = nil

abbrev pub is_va_of : Ty → Bool
is_va_of (func ret params is_va) = is_va
is_va_of _ = false

abbrev pub ret_ty_of : Ty → Ty
ret_ty_of (func ret params is_va) = ret
ret_ty_of _ = void

-- Expr_PostInc and Expr_PostDec
unfoldable pub elab_post : Env → UnKind → Pos → TExpr → Outcome TExpr
elab_post env kind pos e = do
  require (is_assignable env.syms e) pos "operand not assignable"
  require (is_integer_ty (ty_of e) || is_ptr_ty (ty_of e)) pos
      "operand cannot be incremented/decremented"
  ok (unary kind pos (ty_of e) e)

-- Expr_Member
unfoldable pub elab_field : Env → Pos → TExpr → Option ℕ → Outcome TExpr
elab_field env pos e none = err_at pos "no such member"
elab_field env pos e (some f) = ok (member pos (env.syms f).ty e f)

unfoldable pub elab_member_of : Env → Pos → TExpr → List ℕ → Ty → Outcome TExpr
elab_member_of env pos e name (struct s) = do
  require (env.syms s).is_defined pos "member access on incomplete struct"
  elab_field env pos e (lookup_in env.syms (env.syms s).scope false (some name))
elab_member_of env pos e name _ = err_at pos "member access on non-struct"

unfoldable pub elab_member : Env → Pos → TExpr → List ℕ → Outcome TExpr
elab_member env pos e name = elab_member_of env pos e name (ty_of e)

-- Expr_Addr to Expr_Cast, Expr_VaEnd and Expr_VaArg. `t` is the type that the parser has set.
unfoldable pub elab_unary : Env → UnKind → Pos → Ty → TExpr → Outcome TExpr
elab_unary env UnKind.post_inc pos t e = elab_post env UnKind.post_inc pos e
elab_unary env UnKind.post_dec pos t e = elab_post env UnKind.post_dec pos e
elab_unary env UnKind.addr pos t e = do
  require (is_addressable e) pos "operand not addressable"
  ok (unary UnKind.addr pos (ptr (ty_of e)) e)
elab_unary env UnKind.deref pos t e = do
  require (is_ptr_ty (ty_of e)) pos "operand not a pointer"
  ok (unary UnKind.deref pos (base_of (ty_of e)) e)
elab_unary env UnKind.neg pos t e = do
  require (is_integer_ty (ty_of e)) pos "operand must be integer"
  ok (unary UnKind.neg pos (ty_of e) e)
elab_unary env UnKind.bit_not pos t e = do
  require (is_integer_ty (ty_of e)) pos "operand must be integer"
  ok (unary UnKind.bit_not pos (ty_of e) e)
elab_unary env UnKind.log_not pos t e = do
  require (is_scalar (ty_of e)) pos "operand must be scalar"
  ok (unary UnKind.log_not pos int_ty e)
elab_unary env UnKind.cast pos t e = do
  require (is_scalar t && is_scalar (ty_of e)) pos "cast requires scalar"
  ok (unary UnKind.cast pos t e)
elab_unary env UnKind.va_end pos t e = do
  require (same_ty (ty_of e) va_list) pos "va_end operand must be va_list"
  ok (unary UnKind.va_end pos void e)
elab_unary env UnKind.va_arg pos t e = do
  require (same_ty (ty_of e) va_list) pos "va_arg first operand must be va_list"
  require (is_scalar t) pos "va_arg second operand must be scalar"
  ok (unary UnKind.va_arg pos t e)

-- The two operands after the usual arithmetic conversions, and the type of the first.
unfoldable pub elab_arith : BinKind → Pos → TExpr → TExpr → Outcome TExpr
elab_arith kind pos a b = do (a', b') ← apply_ua_conv a b; ok (binary kind pos (ty_of a') a' b')

-- Expr_Add, after an integer in front of a pointer has been moved behind it.
unfoldable pub elab_sum : Pos → TExpr → TExpr → Outcome TExpr
elab_sum pos a b =
    if is_ptr_ty (ty_of a) && is_integer_ty (ty_of b)
    then ok (binary BinKind.ptr_add pos (ty_of a) a b)
    else if is_integer_ty (ty_of a) && is_integer_ty (ty_of b)
    then elab_arith BinKind.add pos a b
    else err_at pos "operands must be arithmetic"

unfoldable pub elab_add : Pos → TExpr → TExpr → Outcome TExpr
elab_add pos a b =
    if is_integer_ty (ty_of a) && is_ptr_ty (ty_of b) then elab_sum pos b a else elab_sum pos a b

unfoldable pub elab_sub : Pos → TExpr → TExpr → Outcome TExpr
elab_sub pos a b =
    if is_ptr_ty (ty_of a) && is_integer_ty (ty_of b)
    then ok (binary BinKind.ptr_sub pos (ty_of a) a b)
    else if is_ptr_ty (ty_of a) && is_ptr_ty (ty_of b)
    then (do
      require (same_ty (ty_of a) (ty_of b)) pos "pointer types must match"
      ok (binary BinKind.ptr_diff pos long_ty a b))
    else if is_integer_ty (ty_of a) && is_integer_ty (ty_of b)
    then elab_arith BinKind.sub pos a b
    else err_at pos "operands must be arithmetic"

-- Expr_Mul, Expr_Div, Expr_Mod with their message, Expr_BitAnd, Expr_BitXor, Expr_BitOr with theirs
unfoldable pub elab_integers : BinKind → Pos → String → TExpr → TExpr → Outcome TExpr
elab_integers kind pos message a b =
    if is_integer_ty (ty_of a) && is_integer_ty (ty_of b)
    then elab_arith kind pos a b
    else err_at pos message

unfoldable pub elab_shift : BinKind → Pos → TExpr → TExpr → Outcome TExpr
elab_shift kind pos a b = do
  require (is_integer_ty (ty_of a) && is_integer_ty (ty_of b)) pos "operands must be integers"
  ok (binary kind pos (ty_of a) a b)

-- Two integers or two pointers, brought to one type.
unfoldable pub unify : Pos → TExpr → TExpr → Outcome (TExpr × TExpr)
unify pos a b =
    if is_integer_ty (ty_of a) && is_integer_ty (ty_of b)
    then apply_ua_conv a b
    else if is_ptr_ty (ty_of a) && is_ptr_ty (ty_of b)
    then unify_ptr_subs a b
    else err_at pos "operands must have compatible types"

-- Expr_Eq and Expr_Ne
unfoldable pub elab_equality : BinKind → Pos → TExpr → TExpr → Outcome TExpr
elab_equality kind pos a b = do
  (a', b') ← apply_null_ptr_conv a b
  (a'', b'') ← unify pos a' b'
  ok (binary kind pos int_ty a'' b'')

-- Expr_Lt and Expr_Le
unfoldable pub elab_order : BinKind → Pos → TExpr → TExpr → Outcome TExpr
elab_order kind pos a b =
    if is_integer_ty (ty_of a) && is_integer_ty (ty_of b)
    then (do (a', b') ← apply_ua_conv a b; ok (binary kind pos int_ty a' b'))
    else if is_ptr_ty (ty_of a) && is_ptr_ty (ty_of b)
    then (do
      require (same_ty (ty_of a) (ty_of b)) pos "pointer types must match"
      ok (binary kind pos int_ty a b))
    else err_at pos "operands must both be integers or pointers"

-- Expr_And and Expr_Or
unfoldable pub elab_logic : BinKind → Pos → TExpr → TExpr → Outcome TExpr
elab_logic kind pos a b = do
  require (is_scalar (ty_of a) && is_scalar (ty_of b)) pos "operands must be scalar"
  ok (binary kind pos int_ty a b)

unfoldable pub elab_assign : Env → Pos → TExpr → TExpr → Outcome TExpr
elab_assign env pos a b = do
  require (is_assignable env.syms a) pos "operand not assignable"
  b' ← apply_assign_conv b (ty_of a)
  ok (binary BinKind.assign pos (ty_of a) a b')

-- Expr_Cond
unfoldable pub elab_branches : Pos → TExpr → TExpr → Outcome (TExpr × TExpr)
elab_branches pos a b =
    if is_void_ty (ty_of a) && is_void_ty (ty_of b) then ok (a, b) else unify pos a b

unfoldable pub elab_cond : Pos → TExpr → TExpr → TExpr → Outcome TExpr
elab_cond pos c a b = do
  (a', b') ← apply_null_ptr_conv a b
  (a'', b'') ← elab_branches pos a' b'
  ok (cond pos (ty_of a'') c a'' b'')
