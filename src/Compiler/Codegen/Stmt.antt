-- ===== src/Compiler/Codegen/Stmt.antt =====
-- Statements and functions: `emit_init_decls`, `emit_stmt` and `emit_func` of compiler/smolcc1.c. The
-- lines of debug information are left out. A break or continue goes to the innermost loop around it,
-- which is what the parser has stored in it; its number is passed down here.
use smolcc.Base.{ℕ, zero, suc, ◌+◌, ◌-◌, List, [], ◌∷◌, Option, none, some, if◌then◌else◌}
use smolcc.Compiler.Misc.{align_up}
use smolcc.Compiler.Types.{Syms, Storage, void, ptr, long_ty, static}
use smolcc.Compiler.Typed.{TExpr, ty_of}
use smolcc.Compiler.Stmt.{Stmt, Stmts}
use smolcc.Compiler.Elab.Node.{Env, params_of, is_va_of}
use smolcc.Compiler.Elab.Tree.{count_params}
use smolcc.Compiler.Codegen.Instr.{
  Instr, Label, Emit, ◌>>=◌, ◌>>◌, write, abort, nothing, new_cond_id, new_loop_id,
}
use smolcc.Compiler.Codegen.Leaf.{reg_class, emit_int_load, emit_frame_addr, emit_frame_store}
use smolcc.Compiler.Codegen.Operators.{emit_assign_to_addr}
use smolcc.Compiler.Codegen.Expr.{emit_expr, emit_source}

-- The initializers of a declaration, in the order of its declarators.
unfoldable pub emit_init_decls : Env → List (ℕ × Option TExpr) → Emit
emit_init_decls env [] = nothing
emit_init_decls env ((s, none) ∷ decls) = emit_init_decls env decls
emit_init_decls env ((s, some e) ∷ decls) = do
  emit_frame_addr env.syms (env.syms s).offs 0
  emit_assign_to_addr env (env.syms s).ty (emit_expr env e) (emit_source env e)
  emit_init_decls env decls

-- `b .L.return.%s`
unfoldable pub emit_return : Syms → Option ℕ → Emit
emit_return syms (some f) = write (Instr.b (Label.return_of (syms f).name))
emit_return syms none = abort "return: no function"

-- Where a break or a continue goes.
unfoldable pub emit_jump : (ℕ → Label) → Option ℕ → Emit
emit_jump target (some id) = write (Instr.b (target id))
emit_jump target none = abort "break or continue: no loop"

-- The end of a round: a loop without a condition goes on for ever.
unfoldable pub emit_loop_cond : Env → ℕ → Option TExpr → Emit
emit_loop_cond env id (some e) = do
  emit_expr env e
  write (Instr.cbnz (reg_class env.syms (ty_of e)) (Label.loop_body id))
emit_loop_cond env id none = write (Instr.b (Label.loop_body id))

-- `b %s` and `%s:` around the branches of an `if`.
unfoldable pub emit_if : Env → TExpr → Emit → Emit → Emit
emit_if env c then_branch else_branch = do
  id ← new_cond_id
  emit_expr env c
  write (Instr.cbz (reg_class env.syms (ty_of c)) (Label.if_else id))
  then_branch
  write (Instr.b (Label.if_end id))
  write (Instr.label (Label.if_else id))
  else_branch
  write (Instr.label (Label.if_end id))

unfoldable pub emit_loop : Env → Option TExpr → Emit → (ℕ → Emit) → (ℕ → Emit) → Emit
emit_loop env c init step body = do
  id ← new_loop_id
  init
  write (Instr.b (Label.loop_cond id))
  write (Instr.label (Label.loop_body id))
  body id
  write (Instr.label (Label.loop_step id))
  step id
  write (Instr.label (Label.loop_cond id))
  emit_loop_cond env id c
  write (Instr.label (Label.loop_end id))

unfoldable mutual
  pub emit_stmt : Env → Option ℕ → Stmt → Emit
  emit_stmt env loop (Stmt.block p body) = emit_stmts env loop body
  emit_stmt env loop (Stmt.return_value p e) = emit_expr env e >> emit_return env.syms env.curr_func
  emit_stmt env loop (Stmt.return_void p) = emit_return env.syms env.curr_func
  emit_stmt env loop (Stmt.if_then p c s) = emit_if env c (emit_stmt env loop s) nothing
  emit_stmt env loop (Stmt.if_else p c s t) =
      emit_if env c (emit_stmt env loop s) (emit_stmt env loop t)
  emit_stmt env loop (Stmt.loop p init c step body) =
      emit_loop env c (emit_stmt env loop init) (λ id. emit_stmt env (some id) step)
        (λ id. emit_stmt env (some id) body)
  emit_stmt env loop (Stmt.break p) = emit_jump Label.loop_end loop
  emit_stmt env loop (Stmt.continue p) = emit_jump Label.loop_step loop
  emit_stmt env loop (Stmt.decl p decls) = emit_init_decls env decls
  emit_stmt env loop (Stmt.expr p e) = emit_expr env e
  emit_stmt env loop (Stmt.empty p) = nothing

  pub emit_stmts : Env → Option ℕ → Stmts → Emit
  emit_stmts env loop Stmts.nil = nothing
  emit_stmts env loop (Stmts.cons s rest) = emit_stmt env loop s >> emit_stmts env loop rest

-- The parameters, the first symbols of the function's scope, from their registers to the frame.
unfoldable pub emit_params : Syms → List ℕ → ℕ → ℕ → Emit
emit_params syms scope zero i = nothing
emit_params syms [] (suc n) i = abort "parameter: no symbol"
emit_params syms (s ∷ scope) (suc n) i = do
  emit_frame_store syms (syms s).ty (syms s).offs i
  emit_params syms scope n (i + 1)

-- The `n` registers from x`i` on, to the save area of a variadic function.
unfoldable pub emit_saves : Syms → ℕ → ℕ → ℕ → Emit
emit_saves syms zero i offs = nothing
emit_saves syms (suc n) i offs = do
  emit_frame_store syms (ptr void) offs i
  emit_saves syms n (i + 1) (offs + 8)

abbrev pub emit_globl : Storage → List ℕ → Emit
emit_globl static name = nothing
emit_globl _ name = write (Instr.globl name)

-- emit_func of the function `f`, with its body. The size, which p_decl starts at 16, includes the
-- frame record.
unfoldable pub emit_func : Syms → ℕ → Stmt → Emit
emit_func syms f body =
    let func = syms f in
    let size = align_up func.size 16 in
    let n_params = count_params (params_of func.ty) in
    (do
      write Instr.section_text
      emit_globl func.storage func.name
      write (Instr.label_func func.name)
      emit_int_load syms long_ty (size - 16) 9
      write Instr.sub_sp
      write Instr.stp_frame
      write Instr.mov_frame
      emit_params syms func.scope n_params 0
      emit_saves syms (if is_va_of func.ty then 8 - n_params else 0) n_params func.va_offs
      emit_stmt (record { syms = syms; curr_func = some f }) none body
      write (Instr.label (Label.return_of func.name))
      emit_int_load syms long_ty (size - 16) 9
      write Instr.ldp_frame
      write Instr.add_sp
      write Instr.ret)
