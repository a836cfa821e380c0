-- ===== src/Compiler/Tests.antt =====
-- Runs of the compiler's parts on small inputs, and each theorem at an input that meets its
-- hypotheses.
use smolcc.Base.{
  ℕ, zero, suc, ◌*◌, ◌%◌, ◌^◌, ◌≡◌, refl, inl, true, false, List, [], ◌∷◌, none, some, arith,
}
use smolcc.Compiler.Outcome.{Pos, ok, Gives, Succeeds}
use smolcc.Compiler.Types.{
  Ty, Params, Sym, SymKind, Storage, Syms, func, struct, char_ty, int_ty, long_ty, ty_size,
}
use smolcc.Compiler.Ast.{Expr, Args}
use smolcc.Compiler.Typed.{TExpr, UnKind, BinKind}
use smolcc.Compiler.Eval.{const_cast, eval}
use smolcc.Compiler.Eval.Range.{IsValueOf, const_cast-IsValueOf, const_cast-mod, eval-IsValueOf}
use smolcc.Compiler.Elab.Node.{Env}
use smolcc.Compiler.Codegen.Instr.{Out, x_reg}
use smolcc.Compiler.Codegen.Leaf.{emit_int_load}
use smolcc.Compiler.Codegen.IntLoad.{loaded, emit_int_load-loaded64}

abbrev at : Pos
at = record { line = 1; col = 1 }

abbrev blank : Out
blank = record { code = []; next_cond_id = 0; next_loop_id = 0; next_str_id = 0; str_labels = [] }

abbrev symbol : SymKind → List ℕ → Ty → ℕ → Sym
symbol kind name t size = record {
  kind = kind;
  last_pos = at;
  storage = Storage.unspecified;
  name = name;
  ty = t;
  is_defined = true;
  val = 0;
  last_param = none;
  va_offs = 0;
  va_size = 0;
  scope = [];
  size = size;
  align = 8;
  offs = 16;
}

-- `int x;`, `int f(int);`, `struct s { ... };` of 24 bytes, and objects `struct s a, b;`
abbrev sample_syms : Syms
sample_syms zero = symbol SymKind.local (b'x' ∷ []) int_ty 0
sample_syms (suc zero) =
    symbol SymKind.func_sym (b'f' ∷ []) (func int_ty (Params.cons int_ty Params.nil) false) 0
sample_syms (suc (suc zero)) = symbol SymKind.struct_sym (b's' ∷ []) (struct 2) 24
sample_syms (suc (suc (suc n))) = symbol SymKind.local (b'a' ∷ []) (struct 2) 0

abbrev sample_env : Env
sample_env = record { syms = sample_syms; curr_func = none }

-- x = f('a') + (x ? 1 : 2)
abbrev sample_expr : Expr
sample_expr = Expr.binary BinKind.assign at (Expr.var at 0) (
    Expr.binary BinKind.add at (Expr.call at (Expr.func at 1) (Args.cons (Expr.chr at 97) Args.nil))
      (Expr.cond at (Expr.var at 0) (Expr.num at none 1) (Expr.num at none 2)))

-- -2 as a `long`, and 4294967295 as an `unsigned`.
emit_int_load-loaded64_example :
    Succeeds
      (λ r. loaded x_reg 3 r.1.code ≡ some 0xffff_ffff_ffff_fffe)
      (emit_int_load sample_syms long_ty 0xffff_ffff_ffff_fffe 3 blank)
unfolding ty_size
emit_int_load-loaded64_example =
    emit_int_load-loaded64 sample_syms long_ty 0xffff_ffff_ffff_fffe 3 blank refl (omega arith)

-- 300 as a `char` is 44, and 200 is -56.
const_cast-IsValueOf_example : IsValueOf char_ty (const_cast char_ty 300)
const_cast-IsValueOf_example = const_cast-IsValueOf true 1 300 (inl refl)

const_cast-mod_example : const_cast char_ty 200 % 2 ^ (1 * 8) ≡ 200 % 2 ^ (1 * 8)
const_cast-mod_example = const_cast-mod true 1 200 (inl refl)

const_cast_runs : const_cast char_ty 200 ≡ 0xffff_ffff_ffff_ffc8
unfolding const_cast
const_cast_runs = refl

-- (char)(100 + 100)
abbrev sample_constant : TExpr
sample_constant =
    TExpr.unary UnKind.cast at char_ty
      (TExpr.binary BinKind.add at int_ty (TExpr.num at int_ty 100) (TExpr.num at int_ty 100))

eval-IsValueOf_example : Gives (IsValueOf char_ty) (eval sample_constant)
eval-IsValueOf_example = eval-IsValueOf sample_constant (inl refl)

eval_runs : eval sample_constant ≡ ok 0xffff_ffff_ffff_ffc8
unfolding eval
eval_runs = refl
