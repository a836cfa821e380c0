-- ===== src/Compiler.antt =====
-- The compiler, compiler/smolcc1.c: a module for each part of that file.
pub mod Outcome
pub mod Misc
pub mod Types
pub mod Symbols
pub mod Ast
pub mod Typed
pub mod Stmt
pub mod Intern
pub mod Arena
pub mod Lexer
pub mod Eval
pub mod Elab
pub mod Codegen
pub mod Parser
pub mod Main
mod TableTests
mod Tests
mod ParserTests
mod ProgramTests
