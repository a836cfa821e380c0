-- ===== src/Compiler/Parser.antt =====
-- The parser of compiler/smolcc1.c, from `at` to `p_decl`. It reads tokens from the lexer, keeps the
-- scopes, and elaborates expressions where the grammar asks for their values or their types.
pub mod Monad
pub mod Ops
pub mod Grammar
pub mod Program
pub mod Budget
pub mod Words
pub mod Fuel
pub mod Ends
pub mod Levels
pub mod Stops
pub mod Frame
