-- ===== src/Compiler/Elab/Sound/Nodes.antt =====
-- Elaboration of the other kinds gives an expression that can be emitted, if the operands can.
use smolcc.Base.{
  ℕ, ◌≡◌, ◌≢◌, refl, ◌⊎◌, inl, inr, true, false, ◌&&◌, ◌||◌, not, List, Option, some, none, ltb,
}
use smolcc.Compiler.Outcome.{Pos, Gives, Gives-bind}
use smolcc.Compiler.Types.{
  Ty, Params, Syms, void, integer, ptr, arr, func, struct, va_list, same_ty, same_ty→eq, is_scalar,
  is_integer_ty, is_ptr_ty, is_func_ty, is_obj_ty, ty_size, base_of,
}
use smolcc.Compiler.Typed.{
  TExpr, TArgs, UnKind, BinKind, binary, ty_of, pos_of, is_lvalue, is_addressable, is_assignable,
}
use smolcc.Compiler.Elab.Convert.{apply_assign_conv}
use smolcc.Compiler.Elab.Node.{
  Env, params_of, ret_ty_of, is_va_of, elab_post, elab_field, elab_member_of, elab_member,
  elab_unary, elab_assign,
}
use smolcc.Compiler.Elab.Tree.{
  elab_va_start, in_variadic, last_param_of, is_var_of, callee_sym, convert_args, count_args,
  count_params, elab_call_of, elab_call,
}
use smolcc.Compiler.Codegen.Emittable.{IsValue, IsPlace, IsSource, AreValues, IsIn}
use smolcc.Compiler.Elab.Sound.{
  IsAggregate, IsDecayedTy, IsPlain, is_comma, Elaborated, Decayed, Gives-require, and_left,
  and_right, Converts, apply_assign_conv-Converts,
}
use smolcc.Compiler.Elab.Sound.Operators.{
  Made, Made-plain, Made-lvalue, lvalue→addressable, scalar-IsPlain, integer-IsPlain,
}

-- A place that is no comma can be copied from.
IsPlace-IsSource : (env : Env) (e : TExpr) → IsPlace env e → is_comma e ≡ false → IsSource env e
unfolding IsPlace
IsPlace-IsSource env (TExpr.var p t s) h c = h
IsPlace-IsSource env (TExpr.func p t s) h c = h
IsPlace-IsSource env (TExpr.str p t s) h c = tt
IsPlace-IsSource env (TExpr.member p t e f) h c = h
IsPlace-IsSource env (TExpr.unary UnKind.deref p t e) h c = h
IsPlace-IsSource env (TExpr.binary BinKind.assign p t a b) h c = h
IsPlace-IsSource env (TExpr.binary BinKind.comma p t a b) h c = absurd (cc)
IsPlace-IsSource env _ h c = absurd h

-- An object type that is not scalar and does not decay is an aggregate.
object-IsAggregate :
    (syms : Syms) (t : Ty)
    → is_obj_ty syms t ≡ true
    → is_scalar t ≡ false
    → IsDecayedTy t
    → IsAggregate t
unfolding ty_size
object-IsAggregate syms void o s d = absurd (cc)
object-IsAggregate syms (integer g w) o s d = absurd (cc)
object-IsAggregate syms (ptr t) o s d = absurd (cc)
object-IsAggregate syms (arr t n) o s d = absurd d
object-IsAggregate syms (func t ps v) o s d = absurd d
object-IsAggregate syms (struct n) o s d = tt
object-IsAggregate syms va_list o s d = tt

in_variadic-IsIn : (env : Env) (f : Option ℕ) → in_variadic env f ≡ true → IsIn f
in_variadic-IsIn env none h = absurd (cc)
in_variadic-IsIn env (some f) h = tt

-- The converted right side of an assignment to a larger object can be copied from.
copied-IsSource :
    (env : Env) (t : Ty) (b b' : TExpr)
    → Decayed env b
    → is_comma b ≡ false
    → is_obj_ty env.syms t ≡ true
    → Converts env t b b'
    → is_scalar t ≡ false
    → IsSource env b'
copied-IsSource env t b b' d nc o c s = elim (c.2) [
  | inl e ↦
      let p : ty_of b ≡ t = rw e at (c.0) in
      rw e (
        IsPlace-IsSource env b
          (d.aggregate (rw p (object-IsAggregate env.syms t o s (rw p at (d.decayed))))) nc)
  | inr q ↦ absurd (cc)
]

-- The return type of the function, which the parser has checked.
abbrev pub ReturnsPlain : Env → Type 0
ReturnsPlain env = (s : ℕ) → IsPlain (ret_ty_of (env.syms s).ty)

module _ (env : Env) (pos : Pos) where
  pub assign-Made :
      (a b : TExpr)
      → Decayed env a
      → Decayed env b
      → is_comma b ≡ false
      → Gives (Made env) (elab_assign env pos a b)
  unfolding elab_assign IsValue
  assign-Made a b da db nc = Gives-require (Made env) (is_assignable env.syms a) pos _ _ λ q.
      Gives-bind (Converts env (ty_of a) b) (Made env) (apply_assign_conv b (ty_of a)) _
        (apply_assign_conv-Converts env (ty_of a) b)
        λ b' c.
          let obj = and_right (is_lvalue a) (is_obj_ty env.syms (ty_of a)) q in
          let pa = da.place (lvalue→addressable a (and_left (is_lvalue a) _ q)) in
          let v = λ (s : is_scalar (ty_of a) ≡ true). c.1 (db.value) in
          let w =
            λ (s : is_scalar (ty_of a) ≡ false). copied-IsSource env (ty_of a) b b' db nc obj c s in
          Made-lvalue env (binary BinKind.assign pos (ty_of a) a b') (pa, obj, v, w) (pa, obj, v, w)
            refl

  post-Made :
      (k : UnKind) (e : TExpr)
      → Decayed env e
      → (k ≡ UnKind.post_inc) ⊎ (k ≡ UnKind.post_dec)
      → Gives (Made env) (elab_post env k pos e)
  unfolding elab_post IsValue
  post-Made k e d h = Gives-require (Made env) (is_assignable env.syms e) pos _ _ λ q.
      Gives-require (Made env) (is_integer_ty (ty_of e) || is_ptr_ty (ty_of e)) pos _ _ λ s.
        let pe = d.place (lvalue→addressable e (and_left (is_lvalue e) _ q)) in
        elim h [
          | inl x ↦ rw x (Made-plain env _ (scalar-IsPlain (ty_of e) s) pe refl refl)
          | inr x ↦ rw x (Made-plain env _ (scalar-IsPlain (ty_of e) s) pe refl refl)
        ]

  field-Made :
      (e : TExpr) (o : Option ℕ) → IsPlace env e → Gives (Made env) (elab_field env pos e o)
  unfolding elab_field IsValue
  field-Made e none h = tt
  field-Made e (some f) h = Made-lvalue env _ h h refl

  member_of-Made :
      (e : TExpr) (name : List ℕ) (t : Ty)
      → ty_of e ≡ t
      → Decayed env e
      → Gives (Made env) (elab_member_of env pos e name t)
  unfolding elab_member_of
  member_of-Made e name (struct s) q d =
      Gives-require (Made env) (env.syms s).is_defined pos _ _
        λ _. field-Made e _ (d.aggregate (rw q tt))
  member_of-Made e name _ q d = tt

  pub member-Made :
      (e : TExpr) (name : List ℕ) → Decayed env e → Gives (Made env) (elab_member env pos e name)
  unfolding elab_member
  member-Made e name d = member_of-Made e name (ty_of e) refl d

  -- The operand of `&` has not decayed; a place is all that it needs.
  pub addr-Made :
      (t : Ty) (e : TExpr)
      → Elaborated env e
      → Gives (Made env) (elab_unary env UnKind.addr pos t e)
  unfolding elab_unary IsValue
  addr-Made t e u =
      Gives-require (Made env) (is_addressable e) pos _ _
        λ q. Made-plain env _ tt (u.place q) refl refl

  va_list-IsPlace : (e : TExpr) → Decayed env e → same_ty (ty_of e) va_list ≡ true → IsPlace env e
  va_list-IsPlace e d q =
      let p : ty_of e ≡ va_list = same_ty→eq (ty_of e) va_list q in d.aggregate (rw p tt)

  pub unary-Made :
      (k : UnKind) (t : Ty) (e : TExpr)
      → k ≢ UnKind.addr
      → Decayed env e
      → Gives (Made env) (elab_unary env k pos t e)
  unfolding elab_unary IsValue
  unary-Made UnKind.post_inc t e n d = post-Made UnKind.post_inc e d (inl refl)
  unary-Made UnKind.post_dec t e n d = post-Made UnKind.post_dec e d (inr refl)
  unary-Made UnKind.addr t e n d = absurd (n refl)
  unary-Made UnKind.deref t e n d =
      Gives-require (Made env) (is_ptr_ty (ty_of e)) pos _ _
        λ q. Made-lvalue env _ d.value d.value refl
  unary-Made UnKind.neg t e n d =
      Gives-require (Made env) (is_integer_ty (ty_of e)) pos _ _
        λ q. Made-plain env _ (integer-IsPlain (ty_of e) q) d.value refl refl
  unary-Made UnKind.bit_not t e n d =
      Gives-require (Made env) (is_integer_ty (ty_of e)) pos _ _
        λ q. Made-plain env _ (integer-IsPlain (ty_of e) q) d.value refl refl
  unary-Made UnKind.log_not t e n d =
      Gives-require (Made env) (is_scalar (ty_of e)) pos _ _
        λ q. Made-plain env _ tt d.value refl refl
  unary-Made UnKind.cast t e n d =
      Gives-require (Made env) (is_scalar t && is_scalar (ty_of e)) pos _ _
        λ q. Made-plain env _ (scalar-IsPlain t (and_left (is_scalar t) _ q)) d.value refl refl
  unary-Made UnKind.va_end t e n d =
      Gives-require (Made env) (same_ty (ty_of e) va_list) pos _ _
        λ q. Made-plain env _ tt tt refl refl
  unary-Made UnKind.va_arg t e n d =
      Gives-require (Made env) (same_ty (ty_of e) va_list) pos _ _ λ q.
        Gives-require (Made env) (is_scalar t) pos _ _
          λ s. Made-plain env _ (scalar-IsPlain t s) (va_list-IsPlace e d q) refl refl

  pub va_start-Made : (a b : TExpr) → Decayed env a → Gives (Made env) (elab_va_start env pos a b)
  unfolding elab_va_start IsValue
  va_start-Made a b d = Gives-require (Made env) (in_variadic env env.curr_func) pos _ _ λ q.
      Gives-require (Made env) (same_ty (ty_of a) va_list) pos _ _ λ s.
        Gives-require (Made env) (is_var_of b (last_param_of env env.curr_func)) (pos_of b) _ _ λ _.
          Made-plain env _ tt (va_list-IsPlace a d s, in_variadic-IsIn env env.curr_func q) refl
            refl

  convert_args-AreValues :
      (ps : Params) (args : TArgs)
      → AreValues env args
      → Gives (AreValues env) (convert_args ps args)
  unfolding convert_args AreValues
  convert_args-AreValues ps TArgs.nil h = tt
  convert_args-AreValues (Params.cons t ps) (TArgs.cons e args) h =
      Gives-bind (Converts env t e) (AreValues env) (apply_assign_conv e t) _
        (apply_assign_conv-Converts env t e)
        λ e' c.
          Gives-bind (AreValues env) (AreValues env) (convert_args ps args) _
            (convert_args-AreValues ps args h.1) λ args' k. (c.1 h.0, k)
  convert_args-AreValues Params.nil (TArgs.cons e args) h =
      Gives-require (AreValues env) (is_scalar (ty_of e)) (pos_of e) _ _ λ _.
        Gives-bind (AreValues env) (AreValues env) (convert_args Params.nil args) _
          (convert_args-AreValues Params.nil args h.1) λ args' k. (h.0, k)

  call_of-Made :
      (callee : TExpr) (args : TArgs) (o : Option ℕ)
      → ReturnsPlain env
      → callee_sym callee ≡ o
      → AreValues env args
      → Gives (Made env) (elab_call_of env pos callee args o)
  unfolding elab_call_of IsValue
  call_of-Made callee args none r q h = tt
  call_of-Made callee args (some f) r q h =
      let t = (env.syms f).ty in
      Gives-require (Made env)
        (not (
          (ltb (count_params (params_of t)) (count_args args) && not (is_va_of t))
          || ltb (count_args args) (count_params (params_of t))))
        pos _ _
        λ _.
          Gives-bind (AreValues env) (Made env) (convert_args (params_of t) args) _
            (convert_args-AreValues (params_of t) args h)
            λ args' k. Made-plain env _ (r f) (rw q tt, k) refl refl

  pub call-Made :
      (callee : TExpr) (args : TArgs)
      → ReturnsPlain env
      → AreValues env args
      → Gives (Made env) (elab_call env pos callee args)
  unfolding elab_call
  call-Made callee args r h =
      Gives-require (Made env) (is_ptr_ty (ty_of callee) && is_func_ty (base_of (ty_of callee)))
        (pos_of callee) _ _ λ _. call_of-Made callee args (callee_sym callee) r refl h
