-- ===== src/Compiler/Eval/Range.antt =====
-- What `const_cast` and `eval` return: the value of the type that agrees with the operand on the
-- low bits.
use smolcc.Base.{ℕ, ◌+◌, ◌-◌, ◌*◌, ◌%◌, ◌^◌, ◌≤◌, ◌<◌, ◌≡◌, ◌⊎◌, inl, inr, Bool, true, false, arith}
use smolcc.Base.Word.{word64}
use smolcc.Compiler.Outcome.{Pos, Outcome, ok, Gives, Gives-bind_all, Gives-if, ◌>>=◌}
use smolcc.Compiler.Types.{Ty, integer, ptr, is_integer_ty}
use smolcc.Compiler.Typed.{
  TExpr, BinKind, num, unary, binary, ty_of, is_null_ptr, cast, neg, bit_not,
}
use smolcc.Compiler.Eval.{const_cast, eval, eval_binary, is_const_binary}

-- The widths of char, int and long.
abbrev pub IsWidth : ℕ → Type 0
IsWidth w = (w ≡ 1) ⊎ (w ≡ 4) ⊎ (w ≡ 8)

-- `a` is how an `unsigned long` holds a value of the type: zero-extended or sign-extended.
abbrev pub IsValueOf : Ty → ℕ → Type 0
IsValueOf (integer false w) a = a < 2 ^ (w * 8)
IsValueOf (integer true w) a =
    (a < 2 ^ (w * 8 - 1)) ⊎ ((word64 ≤ a + 2 ^ (w * 8 - 1)) × (a < word64))
IsValueOf (ptr base) a = a < word64
IsValueOf _ a = ⊥

-- Converting any number to an integer type of 1, 4 or 8 bytes gives a value of that type, in range and
-- extended to 64 bits by its sign.
pub const_cast-IsValueOf :
    (s : Bool) (w a : ℕ) → IsWidth w → IsValueOf (integer s w) (const_cast (integer s w) a)
unfolding const_cast
const_cast-IsValueOf s w a (inl e) = rw e (ground arith)
const_cast-IsValueOf s w a (inr (inl e)) = rw e (ground arith)
const_cast-IsValueOf s w a (inr (inr e)) = rw e (ground arith)

-- Converting a number to an integer type of 1, 4 or 8 bytes keeps its low bits, as many as the type has.
pub const_cast-mod :
    (s : Bool) (w a : ℕ) → IsWidth w → const_cast (integer s w) a % 2 ^ (w * 8) ≡ a % 2 ^ (w * 8)
unfolding const_cast
const_cast-mod s w a (inl e) = rw e (ground arith)
const_cast-mod s w a (inr (inl e)) = rw e (ground arith)
const_cast-mod s w a (inr (inr e)) = rw e (ground arith)

-- Two values of the type with the same low bits.
abbrev AreSame : Bool → ℕ → Type 0
AreSame s w =
    (a b : ℕ)
    → IsValueOf (integer s w) a
    → IsValueOf (integer s w) b
    → a % 2 ^ (w * 8) ≡ b % 2 ^ (w * 8)
    → a ≡ b

-- These two facts determine the result.
pub IsValueOf-unique : (s : Bool) (w : ℕ) → IsWidth w → AreSame s w
IsValueOf-unique true w (inl e) = rw e (λ a b ha hb h. omega arith)
IsValueOf-unique true w (inr (inl e)) = rw e (λ a b ha hb h. omega arith)
IsValueOf-unique true w (inr (inr e)) = rw e (λ a b ha hb h. omega arith)
IsValueOf-unique false w (inl e) = rw e (λ a b ha hb h. omega arith)
IsValueOf-unique false w (inr (inl e)) = rw e (λ a b ha hb h. omega arith)
IsValueOf-unique false w (inr (inr e)) = rw e (λ a b ha hb h. omega arith)

-- Converting a value of an integer type of 1, 4 or 8 bytes to its own type changes nothing.
pub const_cast_id :
    (s : Bool) (w a : ℕ) → IsWidth w → IsValueOf (integer s w) a → const_cast (integer s w) a ≡ a
const_cast_id s w a h v =
    IsValueOf-unique s w h _ a (const_cast-IsValueOf s w a h) v (const_cast-mod s w a h)

abbrev pub IsIntegerTy : Ty → Type 0
IsIntegerTy (integer s w) = IsWidth w
IsIntegerTy _ = ⊥

abbrev pub IsScalarTy : Ty → Type 0
IsScalarTy (integer s w) = IsWidth w
IsScalarTy (ptr t) = Unit
IsScalarTy _ = ⊥

-- What elaboration ensures at the top of a constant: a literal is a value of its type, and the
-- operators that `eval` computes have integer types, but for a cast, which may be to a pointer.
abbrev pub IsConstant : TExpr → Type 0
IsConstant (num p t n) = IsValueOf t n
IsConstant (unary neg p t e) = IsIntegerTy t
IsConstant (unary bit_not p t e) = IsIntegerTy t
IsConstant (unary cast p t e) = IsScalarTy t
IsConstant (binary k p t a b) = IsIntegerTy t
IsConstant _ = Unit

eval_binary-IsValueOf :
    (k : BinKind) (p : Pos) (s : Bool) (w a b : ℕ)
    → IsWidth w
    → Gives (IsValueOf (integer s w)) (eval_binary k p (integer s w) a b)
unfolding eval_binary
eval_binary-IsValueOf BinKind.shr p true w a b h = const_cast-IsValueOf true w _ h
eval_binary-IsValueOf BinKind.shr p false w a b h = const_cast-IsValueOf false w _ h
eval_binary-IsValueOf BinKind.add p s w a b h = const_cast-IsValueOf s w _ h
eval_binary-IsValueOf BinKind.sub p s w a b h = const_cast-IsValueOf s w _ h
eval_binary-IsValueOf BinKind.mul p s w a b h = const_cast-IsValueOf s w _ h
eval_binary-IsValueOf BinKind.shl p s w a b h = const_cast-IsValueOf s w _ h
eval_binary-IsValueOf BinKind.bit_and p s w a b h = const_cast-IsValueOf s w _ h
eval_binary-IsValueOf BinKind.bit_or p s w a b h = const_cast-IsValueOf s w _ h
eval_binary-IsValueOf BinKind.bit_xor p s w a b h = const_cast-IsValueOf s w _ h
eval_binary-IsValueOf _ p s w a b h = tt

range :
    (t : Ty) (m : Outcome ℕ) (f : ℕ → ℕ)
    → IsIntegerTy t
    → Gives (IsValueOf t) (m >>= λ a. ok (const_cast t (f a)))
range (integer s w) m f h =
    Gives-bind_all (IsValueOf (integer s w)) m _ (λ a. const_cast-IsValueOf s w (f a) h)
range _ m f h = absurd h

eval_cast :
    (p : Pos) (t : Ty) (e : TExpr) → IsScalarTy t → Gives (IsValueOf t) (eval (unary cast p t e))
unfolding eval
eval_cast p (integer s w) e h =
    Gives-if (IsValueOf (integer s w)) (is_integer_ty (ty_of e)) _ _
      (range (integer s w) (eval e) (λ a. a) h) tt
eval_cast p (ptr t) e h = Gives-if (IsValueOf (ptr t)) (is_null_ptr e) _ _ (omega arith) tt
eval_cast p _ e h = absurd h

eval_operands :
    (k : BinKind) (p : Pos) (t : Ty) (a b : TExpr)
    → IsIntegerTy t
    → Gives (IsValueOf t) (eval (binary k p t a b))
unfolding eval
eval_operands k p (integer s w) a b h =
    Gives-if (IsValueOf (integer s w)) (is_const_binary k) _ _
      (Gives-bind_all (IsValueOf (integer s w)) (eval a) _ λ x.
        Gives-bind_all (IsValueOf (integer s w)) (eval b) _
          λ y. eval_binary-IsValueOf k p s w x y h)
      tt
eval_operands k p _ a b h = absurd h

-- For an expression whose constants and casts are of scalar types, as IsConstant says, whatever `eval`
-- returns is a value of the expression's type, in range and extended to 64 bits.
pub eval-IsValueOf : (e : TExpr) → IsConstant e → Gives (IsValueOf (ty_of e)) (eval e)
unfolding eval
eval-IsValueOf (num p t n) h = h
eval-IsValueOf (unary neg p t e) h = range t (eval e) _ h
eval-IsValueOf (unary bit_not p t e) h = range t (eval e) _ h
eval-IsValueOf (unary cast p t e) h = eval_cast p t e h
eval-IsValueOf (binary k p t a b) h = eval_operands k p t a b h
eval-IsValueOf _ h = tt
