-- ===== src/Compiler/Elab/Sound/Trees.antt =====
-- Whatever elaboration accepts can be emitted, and the code keeps the machine stack balanced.
use smolcc.Base.{ℕ, ◌≡◌, ◌≢◌, refl, Bool, true, false, Option, some, none}
use smolcc.Compiler.Outcome.{Pos, Outcome, ok, err_at, Gives, Gives-bind}
use smolcc.Compiler.Types.{Ty, func, is_func_ty}
use smolcc.Compiler.Ast.{Expr, Args}
use smolcc.Compiler.Typed.{TExpr, UnKind, BinKind, ty_of}
use smolcc.Compiler.Elab.Convert.{ptr_decay}
use smolcc.Compiler.Elab.Node.{Env, elab_unary}
use smolcc.Compiler.Elab.Tree.{elab_binary, elab_expr, elab_args, decay_under, given_ty}
use smolcc.Compiler.Codegen.Emittable.{IsValue, AreValues}
use smolcc.Compiler.Codegen.RunsOperators.{HasAddress}
use smolcc.Compiler.Elab.Sound.{
  is_comma, IsPlain, Elaborated, Decayed, Needs, Needs-both, ptr_decay-Decayed, is_comma-ptr_decay,
}
use smolcc.Compiler.Elab.Sound.Operators.{
  Made, Made-plain, Made-lvalue, integers-Made, sub-Made, shift-Made, logic-Made, order-Made,
  equality-Made, cond-Made, add-Made,
}
use smolcc.Compiler.Elab.Sound.Nodes.{
  ReturnsPlain, assign-Made, member-Made, addr-Made, unary-Made, va_start-Made, call-Made,
}

-- The kinds that the parser makes: not those that elaboration puts in the place of `+` and `-`.
abbrev pub IsParsedKind : BinKind → Type 0
IsParsedKind BinKind.ptr_add = ⊥
IsParsedKind BinKind.ptr_sub = ⊥
IsParsedKind BinKind.ptr_diff = ⊥
IsParsedKind _ = Unit

abbrev pub is_comma_expr : Expr → Bool
is_comma_expr (Expr.binary BinKind.comma p a b) = true
is_comma_expr _ = false

abbrev pub IsPlainTy : Option Ty → Type 0
IsPlainTy none = Unit
IsPlainTy (some t) = IsPlain t

unfoldable mutual
  -- What the parser ensures: an identifier is a variable or a function, a literal is an integer. The
  -- right side of an assignment must moreover be no comma expression.
  pub IsParsed : Env → Expr → Type 0
  IsParsed env (Expr.num p t n) = IsPlainTy t
  IsParsed env (Expr.chr p n) = Unit
  IsParsed env (Expr.str p s) = Unit
  IsParsed env (Expr.var p s) = HasAddress (env.syms s).kind
  IsParsed env (Expr.func p s) = HasAddress (env.syms s).kind × (is_func_ty (env.syms s).ty ≡ true)
  IsParsed env (Expr.member p e name) = IsParsed env e
  IsParsed env (Expr.unary k p t e) = IsParsed env e
  IsParsed env (Expr.binary k p a b) =
      IsParsedKind k
      × (k ≡ BinKind.assign → is_comma_expr b ≡ false)
      × IsParsed env a
      × IsParsed env b
  IsParsed env (Expr.cond p c a b) = IsParsed env c × IsParsed env a × IsParsed env b
  IsParsed env (Expr.call p callee args) = IsParsed env callee × AreParsed env args

  pub AreParsed : Env → Args → Type 0
  AreParsed env Args.nil = Unit
  AreParsed env (Args.cons e args) = IsParsed env e × AreParsed env args

-- What elaboration makes of `e`.
abbrev MadeOf : Env → Expr → TExpr → Type 0
MadeOf env e e' = Elaborated env e' × (is_comma_expr e ≡ false → is_comma e' ≡ false)

from_Made : (env : Env) (e : Expr) (e' : TExpr) → Made env e' → MadeOf env e e'
from_Made env e e' m = (m.0, λ _. m.1)

Gives-Made :
    (env : Env) (e : Expr) (m : Outcome TExpr) → Gives (Made env) m → Gives (MadeOf env e) m
Gives-Made env e (ok e') h = from_Made env e e' h
Gives-Made env e (err_at p s) h = tt
Gives-Made env e (Outcome.die s) h = tt

module _ (env : Env) (pos : Pos) (a b : TExpr) (da : Decayed env a) (db : Decayed env b) where
  binary-Made :
      (k : BinKind)
      → IsParsedKind k
      → k ≢ BinKind.comma
      → (k ≡ BinKind.assign → is_comma b ≡ false)
      → Gives (Made env) (elab_binary env k pos a b)
  unfolding elab_binary
  binary-Made BinKind.comma i n c = absurd (n refl)
  binary-Made BinKind.ptr_add i n c = absurd i
  binary-Made BinKind.ptr_sub i n c = absurd i
  binary-Made BinKind.ptr_diff i n c = absurd i
  binary-Made BinKind.assign i n c = assign-Made env pos a b da db (c refl)
  binary-Made BinKind.va_start i n c = va_start-Made env pos a b da
  binary-Made BinKind.add i n c = add-Made env pos a b da.value db.value
  binary-Made BinKind.sub i n c = sub-Made env pos a b da.value db.value
  binary-Made BinKind.mul i n c = integers-Made env pos a b da.value db.value BinKind.mul _ tt
  binary-Made BinKind.div i n c = integers-Made env pos a b da.value db.value BinKind.div _ tt
  binary-Made BinKind.modulo i n c = integers-Made env pos a b da.value db.value BinKind.modulo _ tt
  binary-Made BinKind.bit_and i n c =
      integers-Made env pos a b da.value db.value BinKind.bit_and _ tt
  binary-Made BinKind.bit_or i n c = integers-Made env pos a b da.value db.value BinKind.bit_or _ tt
  binary-Made BinKind.bit_xor i n c =
      integers-Made env pos a b da.value db.value BinKind.bit_xor _ tt
  binary-Made BinKind.shl i n c = shift-Made env pos a b da.value db.value BinKind.shl tt
  binary-Made BinKind.shr i n c = shift-Made env pos a b da.value db.value BinKind.shr tt
  binary-Made BinKind.and i n c = logic-Made env pos a b da.value db.value BinKind.and tt
  binary-Made BinKind.or i n c = logic-Made env pos a b da.value db.value BinKind.or tt
  binary-Made BinKind.eq i n c = equality-Made env pos a b da.value db.value BinKind.eq tt
  binary-Made BinKind.ne i n c = equality-Made env pos a b da.value db.value BinKind.ne tt
  binary-Made BinKind.lt i n c = order-Made env pos a b da.value db.value BinKind.lt tt
  binary-Made BinKind.le i n c = order-Made env pos a b da.value db.value BinKind.le tt

  comma-Elaborated : Elaborated env (TExpr.binary BinKind.comma pos (ty_of b) a b)
  unfolding IsValue
  comma-Elaborated = record {
    needs = Needs-both env (ty_of b) _ (da.value, db.value) (da.value, db.value);
    place = λ x. absurd (cc);
  }

  binary-MadeOf :
      (k : BinKind) (p : Pos) (x y : Expr)
      → IsParsedKind k
      → (k ≡ BinKind.assign → is_comma b ≡ false)
      → Gives (MadeOf env (Expr.binary k p x y)) (elab_binary env k pos a b)
  unfolding elab_binary
  binary-MadeOf BinKind.comma p x y i c = (comma-Elaborated, λ q. absurd (cc))
  binary-MadeOf k p x y i c =
      Gives-Made env (Expr.binary k p x y) (elab_binary env k pos a b) (binary-Made k i (cc) c)

num-MadeOf :
    (env : Env) (e : Expr) (p : Pos) (t : Option Ty) (n : ℕ)
    → IsPlainTy t
    → MadeOf env e (TExpr.num p (given_ty t) n)
unfolding IsValue
num-MadeOf env e p none n h = from_Made env e _ (Made-plain env _ tt tt refl refl)
num-MadeOf env e p (some t) n h = from_Made env e _ (Made-plain env _ h tt refl refl)

func-Needs :
    (env : Env) (p : Pos) (t : Ty) (s : ℕ)
    → HasAddress (env.syms s).kind
    → is_func_ty t ≡ true
    → Needs env t (TExpr.func p t s)
unfolding IsValue
func-Needs env p (func r ps v) s h q = h
func-Needs env p _ s h q = absurd (cc)

decay_under-Decayed :
    (env : Env) (k : UnKind) (e : TExpr)
    → k ≢ UnKind.addr
    → Elaborated env e
    → Decayed env (decay_under k e)
decay_under-Decayed env UnKind.addr e n u = absurd (n refl)
decay_under-Decayed env k e n u = ptr_decay-Decayed env e u

unary-MadeOf :
    (env : Env) (k : UnKind) (p : Pos) (t : Ty) (e : Expr) (e' : TExpr)
    → Elaborated env e'
    → Gives (MadeOf env (Expr.unary k p t e)) (elab_unary env k p t (decay_under k e'))
unary-MadeOf env UnKind.addr p t e e' u =
    Gives-Made env (Expr.unary UnKind.addr p t e) (elab_unary env UnKind.addr p t e')
      (addr-Made env p t e' u)
unary-MadeOf env k p t e e' u =
    Gives-Made env (Expr.unary k p t e) (elab_unary env k p t (decay_under k e'))
      (unary-Made env p k t (decay_under k e') (cc) (decay_under-Decayed env k e' (cc) u))

mutual
  unfolding elab_expr IsParsed IsValue

  elab_MadeOf :
      (env : Env)
      → ReturnsPlain env
      → (e : Expr) → IsParsed env e
      → Gives (MadeOf env e) (elab_expr env e)
  elab_MadeOf env r (Expr.num p t n) h = num-MadeOf env (Expr.num p t n) p t n h
  elab_MadeOf env r (Expr.chr p n) h =
      from_Made env (Expr.chr p n) _ (Made-plain env _ tt tt refl refl)
  elab_MadeOf env r (Expr.str p s) h = from_Made env (Expr.str p s) _ (Made-lvalue env _ tt tt refl)
  elab_MadeOf env r (Expr.var p s) h = from_Made env (Expr.var p s) _ (Made-lvalue env _ h h refl)
  elab_MadeOf env r (Expr.func p s) h =
      (record { needs = func-Needs env p (env.syms s).ty s h.0 h.1; place = λ _. h.0 }, λ _. refl)
  elab_MadeOf env r (Expr.member p e name) h =
      Gives-bind (MadeOf env e) (MadeOf env (Expr.member p e name)) (elab_expr env e) _
        (elab_MadeOf env r e h)
        λ e' m.
          Gives-Made env (Expr.member p e name) _
            (member-Made env p (ptr_decay e') name (ptr_decay-Decayed env e' m.0))
  elab_MadeOf env r (Expr.unary k p t e) h =
      Gives-bind (MadeOf env e) (MadeOf env (Expr.unary k p t e)) (elab_expr env e) _
        (elab_MadeOf env r e h) λ e' m. unary-MadeOf env k p t e e' m.0
  elab_MadeOf env r (Expr.binary k p a b) h =
      Gives-bind (MadeOf env a) (MadeOf env (Expr.binary k p a b)) (elab_expr env a) _
        (elab_MadeOf env r a h.2)
        λ a' ma.
          Gives-bind (MadeOf env b) (MadeOf env (Expr.binary k p a b)) (elab_expr env b) _
            (elab_MadeOf env r b h.3)
            λ b' mb.
              binary-MadeOf env p (ptr_decay a') (ptr_decay b') (ptr_decay-Decayed env a' ma.0)
                (ptr_decay-Decayed env b' mb.0) k p a b h.0
                (λ q. is_comma-ptr_decay b' (mb.1 (h.1 q)))
  elab_MadeOf env r (Expr.cond p c a b) h =
      Gives-bind (MadeOf env c) (MadeOf env (Expr.cond p c a b)) (elab_expr env c) _
        (elab_MadeOf env r c h.0)
        λ c' mc.
          Gives-bind (MadeOf env a) (MadeOf env (Expr.cond p c a b)) (elab_expr env a) _
            (elab_MadeOf env r a h.1)
            λ a' ma.
              Gives-bind (MadeOf env b) (MadeOf env (Expr.cond p c a b)) (elab_expr env b) _
                (elab_MadeOf env r b h.2)
                λ b' mb. Gives-Made env (Expr.cond p c a b) _ (
                  cond-Made env p (ptr_decay a') (ptr_decay b')
                    (ptr_decay-Decayed env a' ma.0).value (ptr_decay-Decayed env b' mb.0).value
                    (ptr_decay c') (ptr_decay-Decayed env c' mc.0).value)
  elab_MadeOf env r (Expr.call p callee args) h =
      Gives-bind (MadeOf env callee) (MadeOf env (Expr.call p callee args)) (elab_expr env callee) _
        (elab_MadeOf env r callee h.0)
        λ callee' m.
          Gives-bind (AreValues env) (MadeOf env (Expr.call p callee args)) (elab_args env args) _
            (elab_AreValues env r args h.1)
            λ args' v.
              Gives-Made env (Expr.call p callee args) _
                (call-Made env p (ptr_decay callee') args' r v)

  elab_AreValues :
      (env : Env)
      → ReturnsPlain env
      → (args : Args) → AreParsed env args
      → Gives (AreValues env) (elab_args env args)
  elab_AreValues env r Args.nil h = tt
  elab_AreValues env r (Args.cons e args) h =
      Gives-bind (MadeOf env e) (AreValues env) (elab_expr env e) _ (elab_MadeOf env r e h.0)
        λ e' m.
          Gives-bind (AreValues env) (AreValues env) (elab_args env args) _
            (elab_AreValues env r args h.1) λ args' v. ((ptr_decay-Decayed env e' m.0).value, v)
