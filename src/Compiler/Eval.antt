-- ===== src/Compiler/Eval.antt =====
-- Constant expressions, `const_cast` and `eval` of compiler/smolcc1.c. A value is the bit pattern
-- of an `unsigned long`. An operand that fails ends the evaluation with its diagnostic.
use Prim.Native.Nat.{bit_and, bit_or, bit_xor}
use smolcc.Base.{ℕ, ◌-◌, ◌*◌, ◌%◌, ◌^◌, Bool, true, false, ◌&&◌, ltb, if◌then◌else◌}
use smolcc.Base.Word.{neg64, not64, add64, sub64, mul64, shl64, lsr64, asr64}
use smolcc.Compiler.Outcome.{Pos, Outcome, ok, err_at, ◌>>=◌}
use smolcc.Compiler.Types.{Ty, integer, is_ptr_ty, is_integer_ty}
use smolcc.Compiler.Typed.{
  TExpr, BinKind, num, unary, binary, ty_of, pos_of, is_null_ptr, cast, neg, bit_not, shl, shr, add,
  sub, mul,
}
pub mod Range

-- `a & ~0UL >> (64 - width * 8)` keeps the low bits. Only integer types have these fields.
unfoldable pub const_cast : Ty → ℕ → ℕ
unfolding shl64 asr64
const_cast (integer is_signed width) a =
    let low = a % 2 ^ (width * 8) in
    if is_signed && ltb width 8
    then (let shift = 64 - width * 8 in asr64 (shl64 low shift) shift)
    else low
const_cast _ a = a

-- The operators that `eval` computes, on evaluated operands; `none` of the others is a constant.
unfoldable pub eval_binary : BinKind → Pos → Ty → ℕ → ℕ → Outcome ℕ
unfolding const_cast add64 sub64 mul64 shl64 asr64 lsr64
eval_binary add p t a b = ok (const_cast t (add64 a b))
eval_binary sub p t a b = ok (const_cast t (sub64 a b))
eval_binary mul p t a b = ok (const_cast t (mul64 a b))
eval_binary shl p t a b = ok (const_cast t (shl64 a b))
eval_binary shr p (integer true width) a b = ok (const_cast (integer true width) (asr64 a b))
eval_binary shr p t a b = ok (const_cast t (lsr64 a b))
eval_binary BinKind.bit_and p t a b = ok (const_cast t (bit_and a b))
eval_binary BinKind.bit_xor p t a b = ok (const_cast t (bit_xor a b))
eval_binary BinKind.bit_or p t a b = ok (const_cast t (bit_or a b))
eval_binary _ p t a b = err_at p "expression cannot be evaluated at compile time"

-- Whether `eval` has a case for the operator, before it evaluates the operands.
abbrev pub is_const_binary : BinKind → Bool
is_const_binary add = true
is_const_binary sub = true
is_const_binary mul = true
is_const_binary shl = true
is_const_binary shr = true
is_const_binary BinKind.bit_and = true
is_const_binary BinKind.bit_xor = true
is_const_binary BinKind.bit_or = true
is_const_binary _ = false

unfoldable pub eval : TExpr → Outcome ℕ
unfolding eval_binary neg64 not64 is_null_ptr
eval (num p t n) = ok n
eval (unary neg p t e) = do a ← eval e; ok (const_cast t (neg64 a))
eval (unary bit_not p t e) = do a ← eval e; ok (const_cast t (not64 a))
eval (unary cast p t e) =
    let inner = eval e in
    if is_ptr_ty t && is_null_ptr e
    then ok 0
    else if is_integer_ty t && is_integer_ty (ty_of e)
    then inner >>= (λ a. ok (const_cast t a))
    else err_at p "bad cast in constant expression"
eval (binary k p t a b) =
    let operands = (do x ← eval a; y ← eval b; eval_binary k p t x y) in
    if is_const_binary k
    then operands
    else err_at p "expression cannot be evaluated at compile time"
eval e = err_at (pos_of e) "expression cannot be evaluated at compile time"
