-- ===== src/Compiler/Stmt.antt =====
-- Statements as the parser leaves them, `struct stmt` of compiler/smolcc1.c. The expressions in them
-- have been elaborated. The sub-statements that the source chains by `next` are fields here, and the
-- declarators of a declaration are listed in their order.
use smolcc.Base.{ℕ, List, Option}
use smolcc.Compiler.Outcome.{Pos}
use smolcc.Compiler.Typed.{TExpr}

mutual
  pub data Stmt : Type 0 where
    block : Pos → Stmts → Stmt
    decl : Pos → List (ℕ × Option TExpr) → Stmt
    if_then : Pos → TExpr → Stmt → Stmt
    if_else : Pos → TExpr → Stmt → Stmt → Stmt
    -- the first statement, the condition if there is one, the step and the body
    loop : Pos → Stmt → Option TExpr → Stmt → Stmt → Stmt
    return_value : Pos → TExpr → Stmt
    return_void : Pos → Stmt
    break : Pos → Stmt
    continue : Pos → Stmt
    expr : Pos → TExpr → Stmt
    empty : Pos → Stmt

  pub data Stmts : Type 0 where
    nil : Stmts
    cons : Stmt → Stmts → Stmts
