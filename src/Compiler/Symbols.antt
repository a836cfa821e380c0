-- ===== src/Compiler/Symbols.antt =====
-- The symbol table of compiler/smolcc1.c. A scope is the list of its symbols in order of
-- declaration. Names are interned in the source and compared as pointers; here they are compared
-- byte by byte.
pub mod Declare
pub mod Layout
use smolcc.Base.{ℕ, Bool, true, false, ◌&&◌, List, [], ◌∷◌, Option, none, some, ◌==◌, if◌then◌else◌}
use smolcc.Compiler.Types.{Syms, SymKind, struct_sym}

unfoldable pub same_name : List ℕ → List ℕ → Bool
same_name [] [] = true
same_name (a ∷ as') (b ∷ bs) = a == b && same_name as' bs
same_name _ _ = false

abbrev pub is_struct_sym : SymKind → Bool
is_struct_sym struct_sym = true
is_struct_sym _ = false

abbrev pub same_bool : Bool → Bool → Bool
same_bool true b = b
same_bool false true = false
same_bool false false = true

-- The first symbol of the scope with the name, among the struct tags or among the others.
unfoldable pub find_in : Syms → List ℕ → Bool → List ℕ → Option ℕ
unfolding same_name
find_in syms [] is_struct name = none
find_in syms (s ∷ scope) is_struct name =
    if same_bool (is_struct_sym (syms s).kind) is_struct && same_name (syms s).name name
    then some s
    else find_in syms scope is_struct name

-- No symbol has the null name of an anonymous struct or field.
unfoldable pub lookup_in : Syms → List ℕ → Bool → Option (List ℕ) → Option ℕ
unfolding find_in
lookup_in syms scope is_struct none = none
lookup_in syms scope is_struct (some name) = find_in syms scope is_struct name

-- `lookup`: the scopes from the innermost outwards.
unfoldable pub lookup : Syms → List (List ℕ) → Bool → Option (List ℕ) → Option ℕ
unfolding lookup_in
lookup syms [] is_struct name = none
lookup syms (scope ∷ parents) is_struct name = elim (lookup_in syms scope is_struct name) [
  | some s ↦ some s
  | none ↦ lookup syms parents is_struct name
]
