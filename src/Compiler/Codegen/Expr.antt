-- ===== src/Compiler/Codegen/Expr.antt =====
-- `emit_expr` and `emit_place_expr` of compiler/smolcc1.c on whole trees.
-- In the source the two call each other on one and the same node, as emit_assign_to_addr calls
-- emit_expr; the model writes the callee's case out, so that every call is on a part of the
-- expression. `emit_source` is the part of emit_assign_to_addr that finds the address of a value to
-- copy, and `emit_args` is the loop that pushes a call's arguments.
use smolcc.Compiler.Typed.{TExpr, TArgs, UnKind, BinKind, ty_of}
use smolcc.Compiler.Elab.Node.{Env}
use smolcc.Compiler.Elab.Tree.{callee_sym, count_args}
use smolcc.Compiler.Codegen.Instr.{AluOp, Instr, Emit, ◌>>◌, abort, nothing}
use smolcc.Compiler.Codegen.Leaf.{reg_class, emit_str_load, emit_int_load, emit_push, emit_load}
use smolcc.Compiler.Codegen.Operators.{
  emit_binary, emit_sym_place, load_scalar, emit_member_place, emit_assign_to_addr, emit_post,
  emit_conversion, emit_cond, emit_call, emit_un, emit_not,
}

unfoldable mutual
  unfolding emit_str_load emit_int_load emit_binary emit_sym_place emit_member_place
      emit_assign_to_addr emit_post emit_conversion emit_cond emit_call emit_un emit_not

  pub emit_expr : Env → TExpr → Emit
  emit_expr env (TExpr.num p t n) = emit_int_load env.syms t n 0
  emit_expr env (TExpr.str p t s) = emit_str_load s
  emit_expr env (TExpr.var p t s) = emit_sym_place env s >> load_scalar env.syms t
  emit_expr env (TExpr.func p t s) = abort "emit_scalar_expr: unreachable: %d"
  emit_expr env (TExpr.member p t e f) =
      emit_member_place env (emit_place_expr env e) f >> load_scalar env.syms t
  emit_expr env (TExpr.unary UnKind.deref p t e) = emit_expr env e >> load_scalar env.syms t
  emit_expr env (TExpr.unary UnKind.post_inc p t e) =
      emit_post env AluOp.add t (emit_place_expr env e)
  emit_expr env (TExpr.unary UnKind.post_dec p t e) =
      emit_post env AluOp.sub t (emit_place_expr env e)
  emit_expr env (TExpr.unary UnKind.addr p t e) = emit_place_expr env e
  emit_expr env (TExpr.unary UnKind.bit_not p t e) =
      emit_un (emit_expr env e) (Instr.mvn (reg_class env.syms t) 0 0)
  emit_expr env (TExpr.unary UnKind.log_not p t e) = emit_not env.syms (emit_expr env e) t
  emit_expr env (TExpr.unary UnKind.neg p t e) =
      emit_un (emit_expr env e) (Instr.neg (reg_class env.syms t) 0 0)
  emit_expr env (TExpr.unary UnKind.cast p t e) =
      emit_expr env e >> emit_conversion env.syms t (ty_of e)
  emit_expr env (TExpr.unary UnKind.va_end p t e) = nothing
  emit_expr env (TExpr.unary UnKind.va_arg p t e) =
      emit_un (emit_place_expr env e) Instr.bl_va_arg >> emit_load env.syms t 0 0
  emit_expr env (TExpr.binary k p t a b) = emit_binary env k t (record {
    value1 = emit_expr env a;
    value2 = emit_expr env b;
    place1 = emit_place_expr env a;
    source2 = emit_source env b;
    ty1 = ty_of a;
    ty2 = ty_of b;
  })
  emit_expr env (TExpr.cond p t c a b) =
      emit_cond env.syms (emit_expr env c) (emit_expr env a) (emit_expr env b) (ty_of c)
  emit_expr env (TExpr.call p t callee args) =
      emit_call env (callee_sym callee) (emit_args env args) (count_args args)

  pub emit_place_expr : Env → TExpr → Emit
  emit_place_expr env (TExpr.var p t s) = emit_sym_place env s
  emit_place_expr env (TExpr.func p t s) = emit_sym_place env s
  emit_place_expr env (TExpr.member p t e f) = emit_member_place env (emit_place_expr env e) f
  emit_place_expr env (TExpr.binary BinKind.assign p t a b) =
      emit_place_expr env a >> emit_assign_to_addr env t (emit_expr env b) (emit_source env b)
  emit_place_expr env (TExpr.binary BinKind.comma p t a b) = emit_expr env a >> emit_expr env b
  emit_place_expr env (TExpr.unary UnKind.deref p t e) = emit_expr env e
  emit_place_expr env (TExpr.str p t s) = emit_str_load s
  emit_place_expr env e = abort "emit_place_expr: unreachable: %d"

  -- A nested assignment is made first, and its place is copied.
  pub emit_source : Env → TExpr → Emit
  emit_source env (TExpr.binary BinKind.assign p t a b) =
      emit_place_expr env a >> emit_assign_to_addr env t (emit_expr env b) (emit_source env b)
  emit_source env (TExpr.var p t s) = emit_sym_place env s
  emit_source env (TExpr.func p t s) = emit_sym_place env s
  emit_source env (TExpr.member p t e f) = emit_member_place env (emit_place_expr env e) f
  emit_source env (TExpr.unary UnKind.deref p t e) = emit_expr env e
  emit_source env (TExpr.str p t s) = emit_str_load s
  emit_source env e = abort "emit_assign_to_addr: unreachable: %d"

  pub emit_args : Env → TArgs → Emit
  emit_args env TArgs.nil = nothing
  emit_args env (TArgs.cons e args) = do emit_expr env e; emit_push 0; emit_args env args
