-- ===== src/Compiler/Ast.antt =====
-- Expressions as the parser leaves them, `struct expr` of compiler/smolcc1.c before elaboration:
-- `ty` is set only on a cast, a `va_arg` and some literals. The kinds with one and with two
-- operands are those of the elaborated trees.
use smolcc.Base.{ℕ, List, Option}
use smolcc.Compiler.Outcome.{Pos}
use smolcc.Compiler.Types.{Ty}
use smolcc.Compiler.Typed.{UnKind, BinKind}

mutual
  pub data Expr : Type 0 where
    num : Pos → Option Ty → ℕ → Expr
    chr : Pos → ℕ → Expr
    str : Pos → List ℕ → Expr
    var : Pos → ℕ → Expr
    func : Pos → ℕ → Expr
    member : Pos → Expr → List ℕ → Expr
    unary : UnKind → Pos → Ty → Expr → Expr
    binary : BinKind → Pos → Expr → Expr → Expr
    cond : Pos → Expr → Expr → Expr → Expr
    call : Pos → Expr → Args → Expr

  pub data Args : Type 0 where
    nil : Args
    cons : Expr → Args → Args
