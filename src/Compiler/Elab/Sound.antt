-- ===== src/Compiler/Elab/Sound.antt =====
-- What elaboration ensures for code generation: the conditions, and how the conversions keep them.
pub mod Operators
pub mod Nodes
pub mod Trees
use smolcc.Base.{
  ◌≡◌, refl, ◌⊎◌, inl, inr, Bool, true, false, ◌&&◌, ◌||◌, Option, some, none, arith, Bool-cases,
  if◌then◌else◌, String, ltb,
}
use smolcc.Compiler.Outcome.{
  Pos, Outcome, ok, Gives, Gives-bind, Gives-if, require, assert, ◌>>=◌, ◌>>◌,
}
use smolcc.Compiler.Types.{
  Ty, void, integer, ptr, arr, func, struct, va_list, same_ty, same_ty→eq, is_scalar, is_integer_ty,
  is_ptr_ty, is_void_ty, get_common_ptr_ty, is_void_ptr, base_of, int_ty,
}
use smolcc.Compiler.Typed.{TExpr, BinKind, binary, ty_of, is_addressable, is_null_ptr}
use smolcc.Compiler.Elab.Convert.{
  cast_to, integer_promo_ty, apply_ua_conv, apply_null_ptr_conv, cast_both, unify_ptr_subs, rank,
  apply_assign_conv, ptr_decay,
}
use smolcc.Compiler.Elab.Node.{Env}
use smolcc.Compiler.Codegen.Emittable.{IsValue, IsPlace}

-- The types whose values are copied by address, and those of expressions that do not decay.
abbrev pub IsAggregate : Ty → Type 0
IsAggregate (struct s) = Unit
IsAggregate va_list = Unit
IsAggregate _ = ⊥

abbrev pub IsDecayedTy : Ty → Type 0
IsDecayedTy (arr t n) = ⊥
IsDecayedTy (func t ps v) = ⊥
IsDecayedTy _ = Unit

-- Integers, pointers and void.
abbrev pub IsPlain : Ty → Type 0
IsPlain void = Unit
IsPlain (integer s w) = Unit
IsPlain (ptr t) = Unit
IsPlain _ = ⊥

abbrev pub is_comma : TExpr → Bool
is_comma (binary BinKind.comma p t a b) = true
is_comma _ = false

-- What an expression of the type must have: a value, a place, or both.
abbrev pub Needs : Env → Ty → TExpr → Type 0
Needs env (func t ps v) e = IsPlace env e
Needs env (arr t n) e = IsValue env e × IsPlace env e
Needs env (struct s) e = IsValue env e × IsPlace env e
Needs env va_list e = IsValue env e × IsPlace env e
Needs env _ e = IsValue env e

-- An elaborated expression.
pub record Elaborated (env : Env) (e : TExpr) : Type 0 where
  pub needs : Needs env (ty_of e) e
  pub place : is_addressable e ≡ true → IsPlace env e

-- One that has decayed, and so is used for its value.
pub record Decayed (env : Env) (e : TExpr) : Type 0 where
  pub value : IsValue env e
  pub aggregate : IsAggregate (ty_of e) → IsPlace env e
  pub place : is_addressable e ≡ true → IsPlace env e
  pub decayed : IsDecayedTy (ty_of e)

pub Needs-both : (env : Env) (t : Ty) (e : TExpr) → IsValue env e → IsPlace env e → Needs env t e
Needs-both env (func t ps v) e h k = k
Needs-both env (arr t n) e h k = (h, k)
Needs-both env (struct s) e h k = (h, k)
Needs-both env va_list e h k = (h, k)
Needs-both env _ e h k = h

pub Needs-plain : (env : Env) (t : Ty) (e : TExpr) → IsPlain t → IsValue env e → Needs env t e
Needs-plain env void e p h = h
Needs-plain env (integer s w) e p h = h
Needs-plain env (ptr t) e p h = h
Needs-plain env _ e p h = absurd p

-- `ptr_decay`, by the type of the expression.
decay_as :
    (env : Env) (t : Ty) (e : TExpr)
    → ty_of e ≡ t
    → Needs env t e
    → (is_addressable e ≡ true → IsPlace env e)
    → Decayed env (ptr_decay e)
unfolding ptr_decay IsValue
decay_as env (arr t n) e q h k =
    rw q (record { value = h.1; aggregate = λ x. absurd x; place = λ x. absurd (cc); decayed = tt })
decay_as env (func t ps v) e q h k =
    rw q (record { value = h; aggregate = λ x. absurd x; place = λ x. absurd (cc); decayed = tt })
decay_as env (struct s) e q h k =
    rw q (record { value = h.0; aggregate = λ x. h.1; place = k; decayed = rw q tt })
decay_as env va_list e q h k =
    rw q (record { value = h.0; aggregate = λ x. h.1; place = k; decayed = rw q tt })
decay_as env void e q h k =
    rw q (record { value = h; aggregate = λ x. absurd (rw q at x); place = k; decayed = rw q tt })
decay_as env (integer s w) e q h k =
    rw q (record { value = h; aggregate = λ x. absurd (rw q at x); place = k; decayed = rw q tt })
decay_as env (ptr t) e q h k =
    rw q (record { value = h; aggregate = λ x. absurd (rw q at x); place = k; decayed = rw q tt })

pub ptr_decay-Decayed : (env : Env) (e : TExpr) → Elaborated env e → Decayed env (ptr_decay e)
ptr_decay-Decayed env e u = decay_as env (ty_of e) e refl u.needs u.place

pub is_comma-ptr_decay : (e : TExpr) → is_comma e ≡ false → is_comma (ptr_decay e) ≡ false
unfolding ptr_decay
is_comma-ptr_decay e h = ground arith

-- A check is a fact for what follows it.
pub Gives-require {ℓ} :
    {A : Type ℓ} (Q : A → Type 0) (b : Bool) (p : Pos) (m : String) (k : Outcome A)
    → (b ≡ true → Gives Q k)
    → Gives Q (require b p m >> k)
Gives-require Q true p m k h = h refl
Gives-require Q false p m k h = tt

Gives-assert {ℓ} :
    {A : Type ℓ} (Q : A → Type 0) (b : Bool) (m : String) (k : Outcome A)
    → (b ≡ true → Gives Q k)
    → Gives Q (assert m b >> k)
Gives-assert Q true m k h = h refl
Gives-assert Q false m k h = tt

pub Gives-test {ℓ} :
    {A : Type ℓ} (Q : A → Type 0) (b : Bool) (x y : Outcome A)
    → (b ≡ true → Gives Q x)
    → (b ≡ false → Gives Q y)
    → Gives Q (if b then x else y)
Gives-test Q true x y hx hy = hx refl
Gives-test Q false x y hx hy = hy refl

pub and_left : (a b : Bool) → (a && b) ≡ true → a ≡ true
and_left a b h = ground arith

pub and_right : (a b : Bool) → (a && b) ≡ true → b ≡ true
and_right a b h = ground arith

-- A conversion gives an expression of the type asked for, which has a value if the operand has one.
-- It leaves the operand alone, or the type is scalar.
abbrev pub Converts : Env → Ty → TExpr → TExpr → Type 0
Converts env t e e' =
    (ty_of e' ≡ t) × (IsValue env e → IsValue env e') × ((e' ≡ e) ⊎ (is_scalar t ≡ true))

pub cast_to-Converts : (env : Env) (t : Ty) (e : TExpr) → Gives (Converts env t e) (cast_to t e)
unfolding cast_to IsValue
cast_to-Converts env t e =
    Gives-assert (Converts env t e) (is_scalar t && is_scalar (ty_of e)) "cast_to" _ λ s.
      elim (Bool-cases (same_ty (ty_of e) t)) [
        | inl q ↦ rw q (same_ty→eq (ty_of e) t q, λ v. v, inl refl)
        | inr q ↦ rw q (refl, λ v. v, inr (and_left (is_scalar t) (is_scalar (ty_of e)) s))
      ]

pub apply_assign_conv-Converts :
    (env : Env) (t : Ty) (e : TExpr) → Gives (Converts env t e) (apply_assign_conv e t)
unfolding apply_assign_conv
apply_assign_conv-Converts env t e =
    let c = cast_to-Converts env t e in
    let Q = Converts env t e in
    Gives-test Q (same_ty (ty_of e) t) _ _ (λ q. (same_ty→eq (ty_of e) t q, λ v. v, inl refl))
      λ _. Gives-if Q (is_integer_ty (ty_of e) && is_integer_ty t) _ _ c (
        Gives-if Q (is_ptr_ty t && is_null_ptr e) _ _ c (
          Gives-if Q (is_ptr_ty t && is_ptr_ty (ty_of e)) _ _
            (Gives-if Q
              (same_ty (base_of t) (base_of (ty_of e)) || is_void_ptr t || is_void_ptr (ty_of e)) _
              _ c tt)
            tt))

-- Two operands brought to a plain type.
abbrev pub AreConverted : Env → TExpr → TExpr → TExpr × TExpr → Type 0
AreConverted env a b r =
    IsPlain (ty_of r.0) × (IsValue env a → IsValue env r.0) × (IsValue env b → IsValue env r.1)

integer_promo_ty-IsPlain : (t u : Ty) → Gives IsPlain (integer_promo_ty t u)
unfolding integer_promo_ty
integer_promo_ty-IsPlain (integer s1 w1) (integer s2 w2) =
    Gives-if IsPlain (ltb (rank s1 w1) 4 || ltb (rank s2 w2) 4) (ok int_ty) _ tt (
      Gives-if IsPlain (ltb (rank s2 w2) (rank s1 w1)) (ok (integer s1 w1)) (ok (integer s2 w2)) tt
        tt)
integer_promo_ty-IsPlain _ _ = tt

cast_both_to :
    (env : Env) (t : Ty) (a b : TExpr)
    → IsPlain t
    → Gives (AreConverted env a b) (do a' ← cast_to t a; b' ← cast_to t b; ok (a', b'))
cast_both_to env t a b p =
    Gives-bind (Converts env t a) (AreConverted env a b) (cast_to t a) _ (cast_to-Converts env t a)
      λ a' ca.
        Gives-bind (Converts env t b) (AreConverted env a b) (cast_to t b) _
          (cast_to-Converts env t b) λ b' cb. (rw ca.0 p, ca.1, cb.1)

pub apply_ua_conv-AreConverted :
    (env : Env) (a b : TExpr) → Gives (AreConverted env a b) (apply_ua_conv a b)
unfolding apply_ua_conv
apply_ua_conv-AreConverted env a b =
    Gives-bind IsPlain (AreConverted env a b) (integer_promo_ty (ty_of a) (ty_of b)) _
      (integer_promo_ty-IsPlain (ty_of a) (ty_of b)) λ t p. cast_both_to env t a b p

abbrev IsPlainIfAny : Option Ty → Type 0
IsPlainIfAny none = Unit
IsPlainIfAny (some t) = IsPlain t

plain_if :
    (b : Bool) (x y : Option Ty)
    → IsPlainIfAny x
    → IsPlainIfAny y
    → IsPlainIfAny (if b then x else y)
plain_if true x y h k = h
plain_if false x y h k = k

common_IsPlain : (t u : Ty) → Gives IsPlainIfAny (get_common_ptr_ty t u)
unfolding get_common_ptr_ty
common_IsPlain (ptr t) (ptr u) =
    plain_if (is_void_ty t || is_void_ty u) (some (ptr void)) _ tt
      (plain_if (same_ty t u) (some (ptr t)) none tt tt)
common_IsPlain _ _ = tt

cast_both-AreConverted :
    (env : Env) (a b : TExpr) (o : Option Ty)
    → IsPlainIfAny o
    → Gives (AreConverted env a b) (cast_both a b o)
unfolding cast_both
cast_both-AreConverted env a b none p = tt
cast_both-AreConverted env a b (some t) p = cast_both_to env t a b p

pub unify_ptr_subs-AreConverted :
    (env : Env) (a b : TExpr) → Gives (AreConverted env a b) (unify_ptr_subs a b)
unfolding unify_ptr_subs
unify_ptr_subs-AreConverted env a b =
    Gives-assert (AreConverted env a b) (is_ptr_ty (ty_of a) && is_ptr_ty (ty_of b))
      "unify_ptr_subs" _
      λ _.
        Gives-bind IsPlainIfAny (AreConverted env a b) (get_common_ptr_ty (ty_of a) (ty_of b)) _
          (common_IsPlain (ty_of a) (ty_of b)) λ o p. cast_both-AreConverted env a b o p

-- The null pointer conversion keeps the values of both operands.
abbrev pub KeepsValues : Env → TExpr → TExpr → TExpr × TExpr → Type 0
KeepsValues env a b r = (IsValue env a → IsValue env r.0) × (IsValue env b → IsValue env r.1)

pub apply_null_ptr_conv-KeepsValues :
    (env : Env) (a b : TExpr) → Gives (KeepsValues env a b) (apply_null_ptr_conv a b)
unfolding apply_null_ptr_conv
apply_null_ptr_conv-KeepsValues env a b =
    Gives-if (KeepsValues env a b) (is_null_ptr a && is_ptr_ty (ty_of b)) _ _
      (Gives-bind (Converts env (ty_of b) a) (KeepsValues env a b) (cast_to (ty_of b) a) _
        (cast_to-Converts env (ty_of b) a) λ a' c. (c.1, λ v. v))
      (Gives-if (KeepsValues env a b) (is_null_ptr b && is_ptr_ty (ty_of a)) _ _
        (Gives-bind (Converts env (ty_of a) b) (KeepsValues env a b) (cast_to (ty_of a) b) _
          (cast_to-Converts env (ty_of a) b) λ b' c. (λ v. v, c.1))
        (λ v. v, λ v. v))
