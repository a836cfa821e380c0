-- ===== src/Compiler/Typed.antt =====
-- Expressions after elaboration, `struct expr` of compiler/smolcc1.c with `ty` set at every node.
-- The source's kinds are grouped by their number of operands: `unary` and `binary` carry the kind.
-- `int_val` is the bit pattern of a `long`; `sym` is a symbol's number.
use smolcc.Base.{ℕ, Bool, true, false, ◌&&◌, ◌||◌, List, ◌==◌}
use smolcc.Compiler.Outcome.{Pos}
use smolcc.Compiler.Types.{Ty, Syms, is_void_ptr, is_obj_ty}

pub data UnKind : Type 0 where
  cast neg bit_not log_not addr deref post_inc post_dec va_end va_arg : UnKind

pub data BinKind : Type 0 where
  comma assign or and bit_or bit_xor bit_and eq ne lt le : BinKind
  shl shr add sub mul div modulo ptr_add ptr_sub ptr_diff va_start : BinKind

mutual
  pub data TExpr : Type 0 where
    num : Pos → Ty → ℕ → TExpr
    str : Pos → Ty → List ℕ → TExpr
    var : Pos → Ty → ℕ → TExpr
    func : Pos → Ty → ℕ → TExpr
    member : Pos → Ty → TExpr → ℕ → TExpr
    unary : UnKind → Pos → Ty → TExpr → TExpr
    binary : BinKind → Pos → Ty → TExpr → TExpr → TExpr
    cond : Pos → Ty → TExpr → TExpr → TExpr → TExpr
    call : Pos → Ty → TExpr → TArgs → TExpr

  pub data TArgs : Type 0 where
    nil : TArgs
    cons : TExpr → TArgs → TArgs

-- e->ty and e->pos
abbrev pub ty_of : TExpr → Ty
ty_of (num p t n) = t
ty_of (str p t s) = t
ty_of (var p t s) = t
ty_of (func p t s) = t
ty_of (member p t e f) = t
ty_of (unary k p t e) = t
ty_of (binary k p t a b) = t
ty_of (cond p t c a b) = t
ty_of (call p t f args) = t

abbrev pub pos_of : TExpr → Pos
pos_of (num p t n) = p
pos_of (str p t s) = p
pos_of (var p t s) = p
pos_of (func p t s) = p
pos_of (member p t e f) = p
pos_of (unary k p t e) = p
pos_of (binary k p t a b) = p
pos_of (cond p t c a b) = p
pos_of (call p t f args) = p

abbrev pub is_lvalue : TExpr → Bool
is_lvalue (var p t s) = true
is_lvalue (unary deref p t e) = true
is_lvalue (member p t e f) = true
is_lvalue _ = false

abbrev pub is_func : TExpr → Bool
is_func (func p t s) = true
is_func _ = false

abbrev pub is_str : TExpr → Bool
is_str (str p t s) = true
is_str _ = false

abbrev pub is_addressable : TExpr → Bool
is_addressable e = is_lvalue e || is_func e || is_str e

abbrev pub is_assignable : Syms → TExpr → Bool
is_assignable syms e = is_lvalue e && is_obj_ty syms (ty_of e)

unfoldable pub is_null_ptr : TExpr → Bool
is_null_ptr (num p t n) = n == 0
is_null_ptr (unary cast p t e) = is_void_ptr t && is_null_ptr e
is_null_ptr _ = false
