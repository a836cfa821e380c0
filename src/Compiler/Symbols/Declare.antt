-- ===== src/Compiler/Symbols/Declare.antt =====
-- `add_sym` and `declare` of compiler/smolcc1.c: a symbol is added to the scope, or found there and
-- checked against its new declaration; a local or field gets its place in the frame or struct.
use smolcc.Base.{
  ℕ, ◌+◌, ◌%◌, Bool, true, false, ◌&&◌, ◌||◌, not, List, [], ◌∷◌, ◌++◌, Option, none, some, ltb,
  ◌==◌, if◌then◌else◌,
}
use smolcc.Compiler.Outcome.{Pos, Outcome, ok, require, ◌>>=◌, ◌>>◌}
use smolcc.Compiler.Misc.{align_up}
use smolcc.Base.Word.{word32}
use smolcc.Compiler.Types.{
  Ty, struct, Sym, Syms, SymKind, global, func_sym, struct_sym, const, local, field, Storage,
  unspecified, static, ty_size, ty_align, same_ty,
}
use smolcc.Compiler.Symbols.{is_struct_sym, lookup_in}

-- The symbols, how many there are, and the current scope. A name is null for an anonymous struct; its
-- symbol has the empty name, which is no identifier.
pub record Table : Type 0 where
  pub syms : Syms
  pub n_syms : ℕ
  pub curr_scope : List ℕ

pub record Declaration : Type 0 where
  pub pos : Pos
  pub parent : Option ℕ
  pub kind : SymKind
  pub storage : Storage
  pub name : Option (List ℕ)
  pub ty : Ty
  pub is_def : Bool

-- `syms[s] = sym`
abbrev pub set_sym : Syms → ℕ → Sym → Syms
set_sym syms s sym i = if i == s then sym else syms i

abbrev pub kind_code : SymKind → ℕ
kind_code global = 0
kind_code func_sym = 1
kind_code struct_sym = 2
kind_code const = 3
kind_code local = 4
kind_code field = 5

abbrev pub is_static : Storage → Bool
is_static static = true
is_static _ = false

abbrev pub is_unspecified : Storage → Bool
is_unspecified unspecified = true
is_unspecified _ = false

abbrev pub is_global : SymKind → Bool
is_global global = true
is_global _ = false

abbrev pub is_func_sym : SymKind → Bool
is_func_sym func_sym = true
is_func_sym _ = false

-- The struct that a field is declared in.
unfoldable pub struct_parent : Syms → Option ℕ → Option ℕ
struct_parent syms (some p) = if is_struct_sym (syms p).kind then some p else none
struct_parent syms none = none

unfoldable pub scope_of : Table → Option ℕ → List ℕ
scope_of t (some p) = (t.syms p).scope
scope_of t none = t.curr_scope

abbrev pub name_or_empty : Option (List ℕ) → List ℕ
name_or_empty (some name) = name
name_or_empty none = []

-- The symbol found is declared again: the first conflict, or the symbol with `is_defined` updated.
unfoldable pub redeclare : Declaration → Sym → Outcome Sym
redeclare d sym = do
  require (kind_code sym.kind == kind_code d.kind) d.pos
      "already declared as a different kind of symbol"
  require (is_struct_sym d.kind || same_ty sym.ty d.ty) d.pos
      "already declared with a different type"
  require (not (d.is_def && sym.is_defined)) d.pos "already defined"
  require (not (is_global d.kind && is_static sym.storage && is_unspecified d.storage)) d.pos
      "already declared as static"
  require
      (not (
        (is_global d.kind || is_func_sym d.kind)
        && not (is_static sym.storage)
        && is_static d.storage))
      d.pos "already declared as non-static"
  ok (if is_struct_sym d.kind then sym else record sym { is_defined = sym.is_defined || d.is_def })

-- A symbol as `alloc` zeroes it, with what the declaration says of it.
abbrev pub fresh : Declaration → ℕ → Sym
fresh d s = record {
  kind = d.kind;
  last_pos = d.pos;
  storage = d.storage;
  name = name_or_empty d.name;
  ty = if is_struct_sym d.kind then struct s else d.ty;
  is_defined = d.is_def;
  val = 0;
  last_param = none;
  va_offs = 0;
  va_size = 0;
  scope = [];
  size = 0;
  align = 0;
  offs = 0;
}

abbrev pub has_place : SymKind → Bool
has_place local = true
has_place field = true
has_place _ = false

-- The parent of a local or field after it, from its offset and the size and alignment of its type.
abbrev pub grow : Sym → ℕ → ℕ → ℕ → Sym
grow parent offs size align = record parent {
  size = (offs + size) % word32;
  align = if ltb parent.align align then align else parent.align;
}

-- A place in the parent for the new symbol `s`.
unfoldable pub place_in : Syms → ℕ → Sym → ℕ → ℕ → ℕ → Syms
place_in syms p sym s size align =
    let offs = align_up (syms p).size align in
    set_sym (set_sym syms s (record sym { offs = offs })) p (grow (syms p) offs size align)

unfoldable pub append_to : Table → Option ℕ → ℕ → Table
append_to t (some p) s = record t {
  syms = set_sym t.syms p (record (t.syms p) { scope = (t.syms p).scope ++ s ∷ [] });
}
append_to t none s = record t { curr_scope = t.curr_scope ++ s ∷ [] }

unfoldable pub place_if : Syms → Option ℕ → Sym → ℕ → ℕ → ℕ → Syms
place_if syms (some p) sym s size align =
    if has_place sym.kind then place_in syms p sym s size align else set_sym syms s sym
place_if syms none sym s size align = set_sym syms s sym

-- A symbol that is not there yet: the next number, at the end of the scope. The size and alignment
-- of its type are read before it is added, as they do not depend on scopes.
unfoldable pub add_sym : Declaration → Table → ℕ × Table
add_sym d t =
    let s = t.n_syms in
    let size = ty_size t.syms d.ty in
    let align = ty_align t.syms d.ty in
    let t' = append_to t (struct_parent t.syms d.parent) s in
    (s, record t' { syms = place_if t'.syms d.parent (fresh d s) s size align; n_syms = s + 1 })

unfoldable pub declare : Declaration → Table → Outcome (ℕ × Table)
declare d t =
    elim (lookup_in t.syms (scope_of t (struct_parent t.syms d.parent)) (is_struct_sym d.kind)
      d.name) [
        | some s ↦ (do
          sym ← redeclare d (t.syms s)
          ok (s, record t { syms = set_sym t.syms s sym }))
        | none ↦ ok (add_sym d t)
      ]
