-- ===== src/Compiler/Elab.antt =====
-- Elaboration, `wrap_with` to `elab_init` of compiler/smolcc1.c: it gives every expression its type
-- and makes the implicit conversions explicit. The source changes the tree in place; the model
-- returns the elaborated tree.
pub mod Convert
pub mod Node
pub mod Tree
pub mod Sound
