-- ===== src/Compiler/Codegen/StmtRuns.antt =====
-- Well-formed statements and functions are emitted to the end, with the machine stack balanced.
use smolcc.Base.{ℕ, ◌≡◌, refl, true, false, List, [], ◌∷◌, Option, none, some}
use smolcc.Compiler.Types.{Syms, is_scalar, is_obj_ty}
use smolcc.Compiler.Typed.{TExpr}
use smolcc.Compiler.Stmt.{Stmt, Stmts}
use smolcc.Compiler.Elab.Node.{Env}
use smolcc.Compiler.Codegen.Instr.{Label, Emit}
use smolcc.Compiler.Codegen.Stmt.{
  emit_init_decls, emit_return, emit_jump, emit_loop_cond, emit_if, emit_loop, emit_stmt,
  emit_stmts,
}
use smolcc.Compiler.Codegen.Runs.{
  stack_of, Runs, ◌⨾◌, Runs-write, Runs-nothing, Runs-new_cond_id, Runs-new_loop_id,
  Runs-emit_frame_addr,
}
use smolcc.Compiler.Codegen.RunsOperators.{IsBalanced, Runs-emit_assign_to_addr, Runs->>}
use smolcc.Compiler.Codegen.Emittable.{IsValue, IsSource, value_runs, source_runs}

abbrev IsSome : Option ℕ → Type 0
IsSome none = ⊥
IsSome (some n) = Unit

-- An initializer fits the symbol that it is for.
abbrev IsInit : Env → ℕ → Option TExpr → Type 0
IsInit env s none = Unit
IsInit env s (some e) =
    (is_obj_ty env.syms (env.syms s).ty ≡ true)
    × (is_scalar (env.syms s).ty ≡ true → IsValue env e)
    × (is_scalar (env.syms s).ty ≡ false → IsSource env e)

abbrev AreInits : Env → List (ℕ × Option TExpr) → Type 0
AreInits env [] = Unit
AreInits env ((s, e) ∷ decls) = IsInit env s e × AreInits env decls

abbrev IsCond : Env → Option TExpr → Type 0
IsCond env none = Unit
IsCond env (some e) = IsValue env e

-- The expressions of a statement can be emitted; a return stands in a function, and a break or
-- continue in a loop.
unfoldable mutual
  pub IsStmt : Env → Option ℕ → Stmt → Type 0
  IsStmt env loop (Stmt.block p body) = AreStmts env loop body
  IsStmt env loop (Stmt.return_value p e) = IsValue env e × IsSome env.curr_func
  IsStmt env loop (Stmt.return_void p) = IsSome env.curr_func
  IsStmt env loop (Stmt.if_then p c s) = IsValue env c × IsStmt env loop s
  IsStmt env loop (Stmt.if_else p c s t) = IsValue env c × IsStmt env loop s × IsStmt env loop t
  IsStmt env loop (Stmt.loop p init c step body) =
      IsStmt env loop init
      × IsCond env c
      × ((id : ℕ) → IsStmt env (some id) step)
      × ((id : ℕ) → IsStmt env (some id) body)
  IsStmt env loop (Stmt.break p) = IsSome loop
  IsStmt env loop (Stmt.continue p) = IsSome loop
  IsStmt env loop (Stmt.decl p decls) = AreInits env decls
  IsStmt env loop (Stmt.expr p e) = IsValue env e
  IsStmt env loop (Stmt.empty p) = Unit

  pub AreStmts : Env → Option ℕ → Stmts → Type 0
  AreStmts env loop Stmts.nil = Unit
  AreStmts env loop (Stmts.cons s rest) = IsStmt env loop s × AreStmts env loop rest

inits_run :
    (env : Env) (decls : List (ℕ × Option TExpr))
    → AreInits env decls
    → IsBalanced (emit_init_decls env decls)
unfolding emit_init_decls
inits_run env [] h d = Runs-nothing d
inits_run env ((s, none) ∷ decls) h d = inits_run env decls h.1 d
inits_run env ((s, some e) ∷ decls) h d =
    Runs-emit_frame_addr d env.syms _ 0
    ⨾ Runs-emit_assign_to_addr env (env.syms s).ty h.0.0 (λ q. value_runs env e (h.0.1 q))
        (λ q. source_runs env e (h.0.2 q)) d
    ⨾ inits_run env decls h.1 d

return_runs : (syms : Syms) (f : Option ℕ) → IsSome f → IsBalanced (emit_return syms f)
unfolding emit_return stack_of
return_runs syms none h d = absurd h
return_runs syms (some f) h d = Runs-write d _ (λ c. refl)

jump_runs :
    (target : ℕ → Label) (loop : Option ℕ) → IsSome loop → IsBalanced (emit_jump target loop)
unfolding emit_jump stack_of
jump_runs target none h d = absurd h
jump_runs target (some id) h d = Runs-write d _ (λ c. refl)

loop_cond_runs :
    (env : Env) (id : ℕ) (c : Option TExpr) → IsCond env c → IsBalanced (emit_loop_cond env id c)
unfolding emit_loop_cond stack_of
loop_cond_runs env id none h d = Runs-write d _ (λ c. refl)
loop_cond_runs env id (some e) h d = value_runs env e h d ⨾ Runs-write d _ (λ c. refl)

if_runs :
    (env : Env) (c : TExpr) {s t : Emit}
    → IsValue env c
    → IsBalanced s
    → IsBalanced t
    → IsBalanced (emit_if env c s t)
unfolding emit_if stack_of
if_runs env c hc hs ht d = Runs-new_cond_id λ id.
    value_runs env c hc d
    ⨾ Runs-write d _ (λ c. refl)
    ⨾ hs d
    ⨾ Runs-write d _ (λ c. refl)
    ⨾ Runs-write d _ (λ c. refl)
    ⨾ ht d
    ⨾ Runs-write d _ (λ c. refl)

loop_runs :
    (env : Env) (c : Option TExpr) {init : Emit} {step body : ℕ → Emit}
    → IsCond env c
    → IsBalanced init
    → ((id : ℕ) → IsBalanced (step id))
    → ((id : ℕ) → IsBalanced (body id))
    → IsBalanced (emit_loop env c init step body)
unfolding emit_loop stack_of
loop_runs env c hc hi hs hb d = Runs-new_loop_id λ id.
    hi d
    ⨾ Runs-write d _ (λ c. refl)
    ⨾ Runs-write d _ (λ c. refl)
    ⨾ hb id d
    ⨾ Runs-write d _ (λ c. refl)
    ⨾ hs id d
    ⨾ Runs-write d _ (λ c. refl)
    ⨾ loop_cond_runs env id c hc d
    ⨾ Runs-write d _ (λ c. refl)

mutual
  unfolding IsStmt emit_stmt

  stmt_runs :
      (env : Env) (loop : Option ℕ) (s : Stmt)
      → IsStmt env loop s
      → IsBalanced (emit_stmt env loop s)
  stmt_runs env loop (Stmt.block p body) h = stmts_run env loop body h
  stmt_runs env loop (Stmt.return_value p e) h =
      Runs->> (value_runs env e h.0) (return_runs env.syms env.curr_func h.1)
  stmt_runs env loop (Stmt.return_void p) h = return_runs env.syms env.curr_func h
  stmt_runs env loop (Stmt.if_then p c s) h =
      if_runs env c h.0 (stmt_runs env loop s h.1) Runs-nothing
  stmt_runs env loop (Stmt.if_else p c s t) h =
      if_runs env c h.0 (stmt_runs env loop s h.1) (stmt_runs env loop t h.2)
  stmt_runs env loop (Stmt.loop p init c step body) h =
      loop_runs env c h.1 (stmt_runs env loop init h.0)
        (λ id. stmt_runs env (some id) step (h.2 id)) (λ id. stmt_runs env (some id) body (h.3 id))
  stmt_runs env loop (Stmt.break p) h = jump_runs Label.loop_end loop h
  stmt_runs env loop (Stmt.continue p) h = jump_runs Label.loop_step loop h
  stmt_runs env loop (Stmt.decl p decls) h = inits_run env decls h
  stmt_runs env loop (Stmt.expr p e) h = value_runs env e h
  stmt_runs env loop (Stmt.empty p) h = Runs-nothing

  stmts_run :
      (env : Env) (loop : Option ℕ) (s : Stmts)
      → AreStmts env loop s
      → IsBalanced (emit_stmts env loop s)
  stmts_run env loop Stmts.nil h = Runs-nothing
  stmts_run env loop (Stmts.cons s rest) h =
      Runs->> (stmt_runs env loop s h.0) (stmts_run env loop rest h.1)
