-- ===== src/Compiler/Elab/Sound/Operators.antt =====
-- Elaboration at one node gives an expression that can be emitted, if the operands can.
use smolcc.Base.{◌≡◌, refl, true, false, ◌&&◌, String, arith}
use smolcc.Compiler.Outcome.{Pos, Gives, Gives-bind, Gives-if}
use smolcc.Compiler.Types.{
  Ty, void, integer, ptr, same_ty, is_scalar, is_integer_ty, is_ptr_ty, is_void_ty, int_ty, long_ty,
}
use smolcc.Compiler.Typed.{TExpr, BinKind, binary, ty_of, is_lvalue, is_addressable}
use smolcc.Compiler.Elab.Convert.{apply_ua_conv, apply_null_ptr_conv}
use smolcc.Compiler.Elab.Node.{
  Env, elab_arith, elab_sum, elab_add, elab_sub, elab_integers, elab_shift, unify, elab_equality,
  elab_order, elab_logic, elab_branches, elab_cond,
}
use smolcc.Compiler.Codegen.Emittable.{IsValue, IsPlace}
use smolcc.Compiler.Elab.Sound.{
  IsPlain, is_comma, Elaborated, Needs-both, Needs-plain, Gives-require, Gives-test, and_left,
  AreConverted, KeepsValues, apply_ua_conv-AreConverted, unify_ptr_subs-AreConverted,
  apply_null_ptr_conv-KeepsValues,
}

-- What elaboration at a node makes, unless it is a comma.
abbrev pub Made : Env → TExpr → Type 0
Made env e = Elaborated env e × (is_comma e ≡ false)

-- The kinds whose value needs the values of both operands, without the comma.
abbrev pub IsOperator : BinKind → Type 0
IsOperator BinKind.assign = ⊥
IsOperator BinKind.va_start = ⊥
IsOperator BinKind.comma = ⊥
IsOperator _ = Unit

Made-operator :
    (env : Env) (k : BinKind) (p : Pos) (t : Ty) (a b : TExpr)
    → IsOperator k
    → IsPlain t
    → IsValue env a
    → IsValue env b
    → Made env (binary k p t a b)
unfolding IsValue
Made-operator env BinKind.assign p t a b h q va vb = absurd h
Made-operator env BinKind.va_start p t a b h q va vb = absurd h
Made-operator env BinKind.comma p t a b h q va vb = absurd h
Made-operator env k p t a b h q va vb = (
  record { needs = Needs-plain env t (binary k p t a b) q (va, vb); place = λ x. absurd (cc) },
  refl,
)

pub scalar-IsPlain : (t : Ty) → is_scalar t ≡ true → IsPlain t
scalar-IsPlain void h = tt
scalar-IsPlain (integer s w) h = tt
scalar-IsPlain (ptr t) h = tt
scalar-IsPlain _ h = absurd (cc)

pub integer-IsPlain : (t : Ty) → is_integer_ty t ≡ true → IsPlain t
integer-IsPlain (integer s w) h = tt
integer-IsPlain _ h = absurd (cc)

ptr-IsPlain : (t : Ty) → is_ptr_ty t ≡ true → IsPlain t
ptr-IsPlain (ptr t) h = tt
ptr-IsPlain _ h = absurd (cc)

pub void-IsPlain : (t : Ty) → is_void_ty t ≡ true → IsPlain t
void-IsPlain void h = tt
void-IsPlain _ h = absurd (cc)

pub Made-plain :
    (env : Env) (e : TExpr)
    → IsPlain (ty_of e)
    → IsValue env e
    → is_addressable e ≡ false
    → is_comma e ≡ false
    → Made env e
Made-plain env e q v n c =
    (record { needs = Needs-plain env (ty_of e) e q v; place = λ x. absurd (cc) }, c)

-- An lvalue: its value and its place need the same.
pub Made-lvalue :
    (env : Env) (e : TExpr) → IsValue env e → IsPlace env e → is_comma e ≡ false → Made env e
Made-lvalue env e v h c = (record { needs = Needs-both env (ty_of e) e v h; place = λ _. h }, c)

pub lvalue→addressable : (e : TExpr) → is_lvalue e ≡ true → is_addressable e ≡ true
lvalue→addressable e h = ground arith

module _ (env : Env) (pos : Pos) where
  -- Operands of one kind
  module _ (a b : TExpr) (va : IsValue env a) (vb : IsValue env b) where
    pub arith-Made : (k : BinKind) → IsOperator k → Gives (Made env) (elab_arith k pos a b)
    unfolding elab_arith
    arith-Made k h =
        Gives-bind (AreConverted env a b) (Made env) (apply_ua_conv a b) _
          (apply_ua_conv-AreConverted env a b)
          λ r c. Made-operator env k pos (ty_of r.0) r.0 r.1 h c.0 (c.1 va) (c.2 vb)

    pub integers-Made :
        (k : BinKind) (m : String) → IsOperator k → Gives (Made env) (elab_integers k pos m a b)
    unfolding elab_integers
    integers-Made k m h =
        Gives-if (Made env) (is_integer_ty (ty_of a) && is_integer_ty (ty_of b)) _ _
          (arith-Made k h) tt

    pub sum-Made : Gives (Made env) (elab_sum pos a b)
    unfolding elab_sum
    sum-Made =
        Gives-test (Made env) (is_ptr_ty (ty_of a) && is_integer_ty (ty_of b)) _ _
          (λ q.
            Made-operator env BinKind.ptr_add pos (ty_of a) a b tt
              (ptr-IsPlain (ty_of a) (and_left (is_ptr_ty (ty_of a)) _ q)) va vb)
          (λ _.
            Gives-if (Made env) (is_integer_ty (ty_of a) && is_integer_ty (ty_of b)) _ _
              (arith-Made BinKind.add tt) tt)

    pub sub-Made : Gives (Made env) (elab_sub pos a b)
    unfolding elab_sub
    sub-Made =
        Gives-test (Made env) (is_ptr_ty (ty_of a) && is_integer_ty (ty_of b)) _ _
          (λ q.
            Made-operator env BinKind.ptr_sub pos (ty_of a) a b tt
              (ptr-IsPlain (ty_of a) (and_left (is_ptr_ty (ty_of a)) _ q)) va vb)
          (λ _.
            Gives-if (Made env) (is_ptr_ty (ty_of a) && is_ptr_ty (ty_of b)) _ _
              (Gives-require (Made env) (same_ty (ty_of a) (ty_of b)) pos _ _
                λ _. Made-operator env BinKind.ptr_diff pos long_ty a b tt tt va vb)
              (Gives-if (Made env) (is_integer_ty (ty_of a) && is_integer_ty (ty_of b)) _ _
                (arith-Made BinKind.sub tt) tt))

    pub shift-Made : (k : BinKind) → IsOperator k → Gives (Made env) (elab_shift k pos a b)
    unfolding elab_shift
    shift-Made k h =
        Gives-require (Made env) (is_integer_ty (ty_of a) && is_integer_ty (ty_of b)) pos _ _ λ q.
          Made-operator env k pos (ty_of a) a b h
            (integer-IsPlain (ty_of a) (and_left (is_integer_ty (ty_of a)) _ q)) va vb

    pub logic-Made : (k : BinKind) → IsOperator k → Gives (Made env) (elab_logic k pos a b)
    unfolding elab_logic
    logic-Made k h =
        Gives-require (Made env) (is_scalar (ty_of a) && is_scalar (ty_of b)) pos _ _
          λ q. Made-operator env k pos int_ty a b h tt va vb

    pub order-Made : (k : BinKind) → IsOperator k → Gives (Made env) (elab_order k pos a b)
    unfolding elab_order
    order-Made k h =
        Gives-if (Made env) (is_integer_ty (ty_of a) && is_integer_ty (ty_of b)) _ _
          (Gives-bind (AreConverted env a b) (Made env) (apply_ua_conv a b) _
            (apply_ua_conv-AreConverted env a b)
            λ r c. Made-operator env k pos int_ty r.0 r.1 h tt (c.1 va) (c.2 vb))
          (Gives-if (Made env) (is_ptr_ty (ty_of a) && is_ptr_ty (ty_of b)) _ _
            (Gives-require (Made env) (same_ty (ty_of a) (ty_of b)) pos _ _
              λ _. Made-operator env k pos int_ty a b h tt va vb)
            tt)

  unify-AreConverted : (a b : TExpr) → Gives (AreConverted env a b) (unify pos a b)
  unfolding unify
  unify-AreConverted a b =
      Gives-if (AreConverted env a b) (is_integer_ty (ty_of a) && is_integer_ty (ty_of b)) _ _
        (apply_ua_conv-AreConverted env a b)
        (Gives-if (AreConverted env a b) (is_ptr_ty (ty_of a) && is_ptr_ty (ty_of b)) _ _
          (unify_ptr_subs-AreConverted env a b) tt)

  branches-AreConverted : (a b : TExpr) → Gives (AreConverted env a b) (elab_branches pos a b)
  unfolding elab_branches
  branches-AreConverted a b =
      Gives-test (AreConverted env a b) (is_void_ty (ty_of a) && is_void_ty (ty_of b)) _ _
        (λ q. (void-IsPlain (ty_of a) (and_left (is_void_ty (ty_of a)) _ q), λ v. v, λ v. v))
        (λ _. unify-AreConverted a b)

  module _ (a b : TExpr) (va : IsValue env a) (vb : IsValue env b) where
    pub equality-Made : (k : BinKind) → IsOperator k → Gives (Made env) (elab_equality k pos a b)
    unfolding elab_equality
    equality-Made k h =
        Gives-bind (KeepsValues env a b) (Made env) (apply_null_ptr_conv a b) _
          (apply_null_ptr_conv-KeepsValues env a b)
          λ r c.
            Gives-bind (AreConverted env r.0 r.1) (Made env) (unify pos r.0 r.1) _
              (unify-AreConverted r.0 r.1)
              λ s d. Made-operator env k pos int_ty s.0 s.1 h tt (d.1 (c.0 va)) (d.2 (c.1 vb))

    pub cond-Made : (c : TExpr) → IsValue env c → Gives (Made env) (elab_cond pos c a b)
    unfolding elab_cond IsValue
    cond-Made t vt =
        Gives-bind (KeepsValues env a b) (Made env) (apply_null_ptr_conv a b) _
          (apply_null_ptr_conv-KeepsValues env a b)
          λ r c.
            Gives-bind (AreConverted env r.0 r.1) (Made env) (elab_branches pos r.0 r.1) _
              (branches-AreConverted r.0 r.1)
              λ s d. Made-plain env _ d.0 (vt, d.1 (c.0 va), d.2 (c.1 vb)) refl refl

    pub add-Made : Gives (Made env) (elab_add pos a b)
    unfolding elab_add
    add-Made =
        Gives-if (Made env) (is_integer_ty (ty_of a) && is_ptr_ty (ty_of b)) _ _
          (sum-Made b a vb va) (sum-Made a b va vb)
