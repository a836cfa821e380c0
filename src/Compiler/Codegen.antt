-- ===== src/Compiler/Codegen.antt =====
-- Code generation, `X` to `main` of compiler/smolcc1.c.
pub mod Instr
pub mod Leaf
pub mod Operators
pub mod Expr
pub mod IntLoad
pub mod Runs
pub mod RunsOperators
pub mod Emittable
pub mod Stmt
pub mod StmtRuns
pub mod Object
pub mod Assembled
