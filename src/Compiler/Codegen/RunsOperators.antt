-- ===== src/Compiler/Codegen/RunsOperators.antt =====
-- The emitters of single operators succeed and keep the stack balanced where the emitters of their
-- operands do.
use smolcc.Base.{
  ℕ, ◌≡◌, refl, Bool, true, false, List, ◌∷◌, some, ltb, ◌&&◌, ◌==◌, Bool-cases, inl, inr,
}
use smolcc.Compiler.Types.{
  Ty, Syms, Sym, SymKind, global, func_sym, local, Storage, is_scalar, is_obj_ty, ty_size,
}
use smolcc.Compiler.Elab.Node.{Env}
use smolcc.Compiler.Codegen.Instr.{Instr, Emit, ◌>>◌, write, AluOp, Cond}
use smolcc.Compiler.Codegen.Operators.{
  emit_bin_subs, emit_cmp_expr, emit_arith_expr, emit_sym_place, emit_place_of, emit_global_place,
  load_scalar, emit_member_place, emit_assign_to_addr, emit_post, emit_conversion, emit_logic,
  emit_cond, emit_scale, emit_unscale, emit_ptr_arith, emit_ptr_diff, emit_modulo, emit_va_start,
  emit_un, emit_not,
}
use smolcc.Compiler.Codegen.Runs.{
  Stack, pushed, stack_of, Runs, IsQuiet, ◌⨾◌, Runs-write, Runs-push, Runs-pop, Runs-nothing,
  Runs-if, Runs-new_cond_id, Runs-emit_int_load, Runs-emit_frame_addr, Runs-emit_load,
  Runs-emit_store,
}

-- The emitter succeeds from every stack, and leaves it as it was.
abbrev pub IsBalanced : Emit → Type 0
IsBalanced m = (d : Stack) → Runs d d m

-- The symbol is one that has an address.
abbrev pub HasAddress : SymKind → Type 0
HasAddress global = Unit
HasAddress func_sym = Unit
HasAddress local = Unit
HasAddress _ = ⊥

quiet : (i : Instr) → IsQuiet i → IsBalanced (write i)
quiet i q d = Runs-write d i q

Runs-emit_global_place :
    (name : List ℕ) (s : Storage) (is_def : Bool) → IsBalanced (emit_global_place name s is_def)
unfolding emit_global_place stack_of
Runs-emit_global_place name Storage.extern false d =
    Runs-write d _ (λ c. refl) ⨾ Runs-write d _ (λ c. refl)
Runs-emit_global_place name Storage.extern true d =
    Runs-write d _ (λ c. refl) ⨾ Runs-write d _ (λ c. refl)
Runs-emit_global_place name Storage.unspecified is_def d =
    Runs-write d _ (λ c. refl) ⨾ Runs-write d _ (λ c. refl)
Runs-emit_global_place name Storage.static is_def d =
    Runs-write d _ (λ c. refl) ⨾ Runs-write d _ (λ c. refl)

place_of :
    (syms : Syms) (sym : Sym) (k : SymKind) → HasAddress k → IsBalanced (emit_place_of syms sym k)
unfolding emit_place_of
place_of syms sym SymKind.global h = Runs-emit_global_place sym.name sym.storage sym.is_defined
place_of syms sym SymKind.func_sym h = Runs-emit_global_place sym.name sym.storage sym.is_defined
place_of syms sym SymKind.local h = λ d. Runs-emit_frame_addr d syms sym.offs 0
place_of syms sym _ h = absurd h

pub Runs-emit_sym_place :
    (env : Env) (s : ℕ) → HasAddress (env.syms s).kind → IsBalanced (emit_sym_place env s)
unfolding emit_sym_place
Runs-emit_sym_place env s h = place_of env.syms (env.syms s) (env.syms s).kind h

pub Runs-load_scalar : (syms : Syms) (t : Ty) → IsBalanced (load_scalar syms t)
Runs-load_scalar syms t d = Runs-if (is_scalar t) (Runs-emit_load d syms t 0 0) (Runs-nothing d)

module _ {e1 e2 : Emit} (h1 : IsBalanced e1) (h2 : IsBalanced e2) where
  pub Runs->> : IsBalanced (e1 >> e2)
  Runs->> d = h1 d ⨾ h2 d

  pub Runs-emit_bin_subs : (syms : Syms) (t : Ty) → IsBalanced (emit_bin_subs syms e1 e2 t)
  unfolding emit_bin_subs stack_of
  Runs-emit_bin_subs syms t d =
      h1 d ⨾ Runs-push d 0 ⨾ h2 (pushed ∷ d) ⨾ Runs-write (pushed ∷ d) _ (λ c. refl) ⨾ Runs-pop d 0

  pub Runs-emit_logic :
      (syms : Syms) (is_and : Bool) (t1 t2 : Ty) → IsBalanced (emit_logic syms is_and e1 e2 t1 t2)
  unfolding emit_logic stack_of
  Runs-emit_logic syms true t1 t2 d = Runs-new_cond_id λ id.
      h1 d
      ⨾ Runs-write d _ (λ c. refl)
      ⨾ h2 d
      ⨾ Runs-write d _ (λ c. refl)
      ⨾ Runs-write d _ (λ c. refl)
      ⨾ Runs-write d _ (λ c. refl)
  Runs-emit_logic syms false t1 t2 d = Runs-new_cond_id λ id.
      h1 d
      ⨾ Runs-write d _ (λ c. refl)
      ⨾ h2 d
      ⨾ Runs-write d _ (λ c. refl)
      ⨾ Runs-write d _ (λ c. refl)
      ⨾ Runs-write d _ (λ c. refl)

  pub Runs-emit_cond :
      {c : Emit} (syms : Syms) (t : Ty) → IsBalanced c → IsBalanced (emit_cond syms c e1 e2 t)
  unfolding emit_cond stack_of
  Runs-emit_cond syms t hc d = Runs-new_cond_id λ id.
      hc d
      ⨾ Runs-write d _ (λ c. refl)
      ⨾ h1 d
      ⨾ Runs-write d _ (λ c. refl)
      ⨾ Runs-write d _ (λ c. refl)
      ⨾ h2 d
      ⨾ Runs-write d _ (λ c. refl)

module _ {e : Emit} (h : IsBalanced e) where
  pub Runs-emit_un : (i : Instr) → IsQuiet i → IsBalanced (emit_un e i)
  unfolding emit_un
  Runs-emit_un i q d = h d ⨾ Runs-write d i q

  pub Runs-emit_not : (syms : Syms) (t : Ty) → IsBalanced (emit_not syms e t)
  unfolding emit_not stack_of
  Runs-emit_not syms t d = h d ⨾ Runs-write d _ (λ c. refl) ⨾ Runs-write d _ (λ c. refl)

  pub Runs-emit_cmp_expr :
      (syms : Syms) (t : Ty) (c u : Cond) → IsBalanced (emit_cmp_expr syms e t c u)
  unfolding emit_cmp_expr stack_of
  Runs-emit_cmp_expr syms t c u d = h d ⨾ Runs-write d _ (λ c. refl) ⨾ Runs-write d _ (λ c. refl)

  pub Runs-emit_arith_expr :
      (syms : Syms) (t : Ty) (op : AluOp) → IsBalanced (emit_arith_expr syms e t op)
  unfolding emit_arith_expr stack_of
  Runs-emit_arith_expr syms t op d = h d ⨾ Runs-write d _ (λ c. refl)

  pub Runs-emit_modulo : (syms : Syms) (t : Ty) → IsBalanced (emit_modulo syms e t)
  unfolding emit_modulo stack_of
  Runs-emit_modulo syms t d = h d ⨾ Runs-write d _ (λ c. refl) ⨾ Runs-write d _ (λ c. refl)

  pub Runs-emit_ptr_arith :
      (syms : Syms) (op : AluOp) (size : ℕ) → IsBalanced (emit_ptr_arith syms op e size)
  unfolding emit_ptr_arith emit_scale stack_of
  Runs-emit_ptr_arith syms op size d =
      h d
      ⨾ Runs-if (size == 1) (Runs-nothing d)
          (Runs-emit_int_load d syms _ size 2 ⨾ Runs-write d _ (λ c. refl))
      ⨾ Runs-write d _ (λ c. refl)

  pub Runs-emit_ptr_diff : (syms : Syms) (size : ℕ) → IsBalanced (emit_ptr_diff syms e size)
  unfolding emit_ptr_diff emit_unscale stack_of
  Runs-emit_ptr_diff syms size d =
      h d
      ⨾ Runs-write d _ (λ c. refl)
      ⨾ Runs-if (size == 1) (Runs-nothing d)
          (Runs-emit_int_load d syms _ size 1 ⨾ Runs-write d _ (λ c. refl))

  pub Runs-emit_member_place : (env : Env) (f : ℕ) → IsBalanced (emit_member_place env e f)
  unfolding emit_member_place stack_of
  Runs-emit_member_place env f d =
      h d ⨾ Runs-emit_int_load d env.syms _ _ 1 ⨾ Runs-write d _ (λ c. refl)

  pub Runs-emit_post : (env : Env) (op : AluOp) (t : Ty) → IsBalanced (emit_post env op t e)
  unfolding emit_post stack_of
  Runs-emit_post env op t d =
      h d
      ⨾ Runs-write d _ (λ c. refl)
      ⨾ Runs-emit_load d env.syms t 0 0
      ⨾ Runs-emit_int_load d env.syms t _ 1
      ⨾ Runs-write d _ (λ c. refl)
      ⨾ Runs-emit_store d env.syms t 1 2

  pub Runs-emit_va_start : (env : Env) (f : ℕ) → IsBalanced (emit_va_start env (some f) e)
  unfolding emit_va_start stack_of
  Runs-emit_va_start env f d =
      h d
      ⨾ Runs-write d _ (λ c. refl)
      ⨾ Runs-write d _ (λ c. refl)
      ⨾ Runs-emit_frame_addr d env.syms _ 1
      ⨾ Runs-write d _ (λ c. refl)
      ⨾ Runs-write d _ (λ c. refl)
      ⨾ Runs-write d _ (λ c. refl)

pub Runs-emit_conversion : (syms : Syms) (to from : Ty) → IsBalanced (emit_conversion syms to from)
unfolding emit_conversion stack_of
Runs-emit_conversion syms to from d =
    let new = ty_size syms to in
    let old = ty_size syms from in
    Runs-if (ltb new old && new == 1) (Runs-write d _ (λ c. refl)) (
      Runs-if (ltb new old && new == 4) (Runs-write d _ (λ c. refl)) (
        Runs-if (ltb old new && old == 1) (Runs-write d _ (λ c. refl))
          (Runs-if (ltb old new && old == 4) (Runs-write d _ (λ c. refl)) (Runs-nothing d))))

-- An assignment emits the value of a scalar, and the source of a larger object.
pub Runs-emit_assign_to_addr :
    (env : Env) (t : Ty) {value source : Emit}
    → is_obj_ty env.syms t ≡ true
    → (is_scalar t ≡ true → IsBalanced value)
    → (is_scalar t ≡ false → IsBalanced source)
    → IsBalanced (emit_assign_to_addr env t value source)
unfolding emit_assign_to_addr stack_of
Runs-emit_assign_to_addr env t h hv hs d = elim (Bool-cases (is_scalar t)) [
  | inl e ↦
      rw (h, e)
        (Runs-push d 0 ⨾ hv e (pushed ∷ d) ⨾ Runs-pop d 1 ⨾ Runs-emit_store d env.syms t 0 1)
  | inr e ↦
      rw (h, e)
        (Runs-push d 0
          ⨾ hs e (pushed ∷ d)
          ⨾ Runs-write (pushed ∷ d) _ (λ c. refl)
          ⨾ Runs-pop d 0
          ⨾ Runs-emit_int_load d env.syms _ _ 2
          ⨾ Runs-write d _ (λ c. refl))
]
