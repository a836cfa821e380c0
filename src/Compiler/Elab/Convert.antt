-- ===== src/Compiler/Elab/Convert.antt =====
-- The conversions of elaboration: `wrap_with` to `ptr_decay` of compiler/smolcc1.c.
use smolcc.Base.{ℕ, ◌+◌, Bool, ◌&&◌, ◌||◌, Option, none, some, ltb, if◌then◌else◌}
use smolcc.Compiler.Outcome.{Outcome, ok, err_at, die, assert, ◌>>=◌, ◌>>◌}
use smolcc.Compiler.Types.{
  Ty, integer, ptr, int_ty, same_ty, is_scalar, is_integer_ty, is_ptr_ty, is_void_ptr, is_arr_ty,
  is_func_ty, base_of, get_common_ptr_ty,
}
use smolcc.Compiler.Typed.{TExpr, UnKind, unary, cast, addr, ty_of, pos_of, is_null_ptr}

abbrev pub wrap_with : UnKind → Ty → TExpr → TExpr
wrap_with kind ty e = unary kind (pos_of e) ty e

unfoldable pub cast_to : Ty → TExpr → Outcome TExpr
cast_to t e = do
  assert "cast_to" (is_scalar t && is_scalar (ty_of e))
  ok (if same_ty (ty_of e) t then e else wrap_with cast t e)

-- `width + !is_signed`
abbrev pub rank : Bool → ℕ → ℕ
rank is_signed width = if is_signed then width else width + 1

unfoldable pub integer_promo_ty : Ty → Ty → Outcome Ty
integer_promo_ty (integer s1 w1) (integer s2 w2) =
    if ltb (rank s1 w1) 4 || ltb (rank s2 w2) 4
    then ok int_ty
    else if ltb (rank s2 w2) (rank s1 w1)
    then ok (integer s1 w1)
    else ok (integer s2 w2)
integer_promo_ty _ _ = die "integer_promo_ty"

-- The usual arithmetic conversions of two operands.
unfoldable pub apply_ua_conv : TExpr → TExpr → Outcome (TExpr × TExpr)
apply_ua_conv a b = do
  target ← integer_promo_ty (ty_of a) (ty_of b)
  a' ← cast_to target a
  b' ← cast_to target b
  ok (a', b')

-- A null pointer constant takes the type of the pointer beside it.
unfoldable pub apply_null_ptr_conv : TExpr → TExpr → Outcome (TExpr × TExpr)
apply_null_ptr_conv a b =
    if is_null_ptr a && is_ptr_ty (ty_of b)
    then (do a' ← cast_to (ty_of b) a; ok (a', b))
    else if is_null_ptr b && is_ptr_ty (ty_of a)
    then (do b' ← cast_to (ty_of a) b; ok (a, b'))
    else ok (a, b)

unfoldable pub cast_both : TExpr → TExpr → Option Ty → Outcome (TExpr × TExpr)
cast_both a b none = err_at (pos_of a) "incompatible pointer operands"
cast_both a b (some t) = do a' ← cast_to t a; b' ← cast_to t b; ok (a', b')

unfoldable pub unify_ptr_subs : TExpr → TExpr → Outcome (TExpr × TExpr)
unify_ptr_subs a b = do
  assert "unify_ptr_subs" (is_ptr_ty (ty_of a) && is_ptr_ty (ty_of b))
  common ← get_common_ptr_ty (ty_of a) (ty_of b)
  cast_both a b common

-- Conversion as if by assignment to an object of type `t`.
unfoldable pub apply_assign_conv : TExpr → Ty → Outcome TExpr
apply_assign_conv e t =
    if same_ty (ty_of e) t
    then ok e
    else if is_integer_ty (ty_of e) && is_integer_ty t
    then cast_to t e
    else if is_ptr_ty t && is_null_ptr e
    then cast_to t e
    else if is_ptr_ty t && is_ptr_ty (ty_of e)
    then (if same_ty (base_of t) (base_of (ty_of e)) || is_void_ptr t || is_void_ptr (ty_of e)
        then cast_to t e
        else err_at (pos_of e) "target type mismatch")
    else err_at (pos_of e) "target type mismatch"

-- An array becomes the address of its first element, a function its own address.
unfoldable pub ptr_decay : TExpr → TExpr
ptr_decay e =
    if is_arr_ty (ty_of e)
    then wrap_with cast (ptr (base_of (ty_of e))) (wrap_with addr (ptr (ty_of e)) e)
    else if is_func_ty (ty_of e)
    then wrap_with addr (ptr (ty_of e)) e
    else e
