-- ===== src/Compiler/Parser/Grammar/Parts.antt =====
-- What the functions of the parser of compiler/smolcc1.c do between the calls of each other.
use smolcc.Base.{
  ℕ, zero, suc, ◌+◌, ◌-◌, ◌*◌, ◌%◌, Bool, true, false, ◌&&◌, ◌||◌, not, String, List, [], ◌∷◌, ◌++◌,
  Option, none, some, length, ltb, if◌then◌else◌,
}
use smolcc.Base.Word.{word32, word64, half32}
use smolcc.Compiler.Outcome.{Pos, Outcome, ◌>>=◌ as bind}
use smolcc.Compiler.Misc.{align_up}
use smolcc.Compiler.Types.{
  Ty, Params, Sym, Syms, SymKind, Storage, ptr, arr, func, void, int_ty, long_ty, va_list, ty_size,
  ty_align, is_void_ty, is_scalar, is_arr_ty, is_func_ty, is_integer_ty, is_obj_ty, is_positive,
  base_of as elem_of,
}
use smolcc.Compiler.Ast.{Expr}
use smolcc.Compiler.Typed.{TExpr, UnKind, BinKind}
use smolcc.Compiler.Stmt.{Stmt}
use smolcc.Compiler.Eval.{eval}
use smolcc.Compiler.Symbols.Declare.{Declaration}
use smolcc.Compiler.Elab.Node.{Env, is_va_of, ret_ty_of}
use smolcc.Compiler.Elab.Tree.{elab_rvalue_expr, elab_expr_expect, elab_init}
use smolcc.Compiler.Lexer.{Token}
use smolcc.Compiler.Parser.Monad.{
  Parse, Parser, pure, get, check, fail, next_tok, eat, expect, p_ident, lookup_sym, declare_sym,
  update, push_scope, pop_scope, curr_scope, elab, modify, is_wrd, ◌>>=◌, ◌>>◌,
}
use smolcc.Compiler.Parser.Ops.{num_ty, first_chr, BinOp, Specs, no_storage}

abbrev pub expr_pos : Expr → Pos
expr_pos (Expr.num p t n) = p
expr_pos (Expr.chr p n) = p
expr_pos (Expr.str p s) = p
expr_pos (Expr.var p s) = p
expr_pos (Expr.func p s) = p
expr_pos (Expr.member p e name) = p
expr_pos (Expr.unary k p t e) = p
expr_pos (Expr.binary k p a b) = p
expr_pos (Expr.cond p c a b) = p
expr_pos (Expr.call p f args) = p

-- mk_bin_expr: the position is that of the first operand.
abbrev pub mk_bin_expr : BinKind → Expr → Expr → Expr
mk_bin_expr kind e1 e2 = Expr.binary kind (expr_pos e1) e1 e2

-- mk_unary_expr of a kind that has no type of its own.
abbrev pub mk_unary_expr : Pos → UnKind → Expr → Expr
mk_unary_expr pos kind e = Expr.unary kind pos void e

abbrev pub mk_op : BinOp → Expr → Expr → Expr
mk_op o acc e = if o.exchanged then mk_bin_expr o.kind e acc else mk_bin_expr o.kind acc e

-- A literal: the token is read, and then passed over.
abbrev pub num_expr : Pos → Token → Expr
num_expr pos t = Expr.num pos (some (num_ty t)) t.n

abbrev pub str_expr : Pos → Token → Expr
str_expr pos t = Expr.str pos t.lit

abbrev pub chr_expr : Pos → Token → Expr
chr_expr pos t = Expr.chr pos (first_chr t.lit)

unfoldable pub p_literal : (Pos → Token → Expr) → Pos → Parser Expr
p_literal make pos p = (next_tok >> pure (make pos p.tok)) p

-- `ty_size` of the operand, which is to be above 0 as an `int`.
unfoldable pub sizeof_expr : Pos → Ty → Parser Expr
sizeof_expr pos t p =
    (do
      check (is_positive (ty_size p.syms t)) pos "sizeof operand must be object"
      pure (Expr.num pos none (ty_size p.syms t)))
      p

abbrev pub not_value : String
not_value = "not a variable, function, or constant"

abbrev pub kind_expr : Pos → Syms → ℕ → SymKind → Parser Expr
kind_expr pos syms s SymKind.const = pure (Expr.num pos none (syms s).val)
kind_expr pos syms s SymKind.local = pure (Expr.var pos s)
kind_expr pos syms s SymKind.global = pure (Expr.var pos s)
kind_expr pos syms s SymKind.func_sym = pure (Expr.func pos s)
kind_expr pos syms s SymKind.struct_sym = fail pos not_value
kind_expr pos syms s SymKind.field = fail pos not_value

-- A name in an expression.
unfoldable pub sym_expr : Pos → Syms → Option ℕ → Parser Expr
sym_expr pos syms none = fail pos "undefined symbol"
sym_expr pos syms (some s) = kind_expr pos syms s (syms s).kind

unfoldable pub p_name : Pos → Parser Expr
p_name pos = do name ← p_ident; s ← lookup_sym false (some name); p ← get; sym_expr pos p.syms s

-- The value of a constant expression.
unfoldable pub const_value : Env → Expr → Outcome ℕ
const_value env e = bind (elab_rvalue_expr env e) eval

-- The return type of the current function. A `return` outside functions would read a null pointer.
abbrev pub ret_ty : Parse → Ty
ret_ty p = elim p.curr_func [ none ↦ void | some f ↦ ret_ty_of (p.syms f).ty ]

-- `curr_loop` while a part of the program is read.
abbrev pub set_loop : Bool → Parser (Unit {0})
set_loop b = modify λ p. record p { in_loop = b }

-- The scopes of declarations that p_decl itself goes through, with the struct for its fields.
pub data DeclScope : Type 0 where
  global_decl local_decl : DeclScope
  struct_decl : ℕ → DeclScope

abbrev pub is_global_decl : DeclScope → Bool
is_global_decl global_decl = true
is_global_decl _ = false

abbrev pub is_struct_decl : DeclScope → Bool
is_struct_decl (struct_decl s) = true
is_struct_decl _ = false

-- The base type, after the checks of the specifiers. Only global declarations have a storage class.
abbrev pub base_of : Pos → Bool → Specs → Option Ty → Parser Ty
base_of pos is_global s none = fail pos "expected type specifier"
base_of pos is_global s (some t) = do
  check (no_storage s || is_global) pos "storage class specifier is not allowed here"
  check (not (s.is_unsigned && not (is_integer_ty t))) pos
      "unsigned specifier used with non-integer type"
  pure t

unfoldable pub base_of_specs : Pos → Bool → Specs → Parser Ty
base_of_specs pos is_global s = base_of pos is_global s s.base_ty

-- A declarator: the type, the name if there is one, the parameters of a function, the initializer.
pub record Declarator : Type 0 where
  pub ty : Ty
  pub name : Option (List ℕ)
  pub name_pos : Pos
  pub params : Option (List ℕ)
  pub init : Option Expr

abbrev pub declarator : Ty → Option (List ℕ) → Pos → Option (List ℕ) → Option Expr → Declarator
declarator t name pos params init = record {
  ty = t;
  name = name;
  name_pos = pos;
  params = params;
  init = init;
}

-- `tok == Tok_Wrd ? p_ident() : 0`, where names are allowed.
unfoldable pub p_name_if : Bool → Parser (Option (List ℕ))
p_name_if named p =
    if named && is_wrd p.tok.kind then (do name ← p_ident; pure (some name)) p else pure none p

-- What separates the parameter `n` from the one before it: whether it is `...`.
unfoldable pub p_separator : ℕ → Parser Bool
p_separator zero = pure false
p_separator (suc n) = do expect ","; eat "..."

-- The types of the parameters.
abbrev pub tys_of : Syms → List ℕ → Params
tys_of syms [] = Params.nil
tys_of syms (s ∷ params) = Params.cons (syms s).ty (tys_of syms params)

-- The type of a function after its parameters have been read, whose scope is left.
unfoldable pub func_ty : Pos → Ty → List ℕ → Bool → Parser Ty
func_ty pos t params is_va = do
  check (is_scalar t || is_void_ty t) pos "bad return type"
  p ← get
  pop_scope
  pure (func t (tys_of p.syms params) is_va)

-- `mk_arr_ty(ty, p_const_expr())`: the length becomes an `int`.
abbrev pub arr_of : Ty → ℕ → Ty
arr_of t n = arr t (n % word32)

-- The declaration of a parameter: arrays and functions become pointers.
abbrev pub param_ty : Ty → Ty
param_ty t = if is_arr_ty t then ptr (elem_of t) else if is_func_ty t then ptr t else t

unfoldable pub declare_param : Declarator → Parser ℕ
declare_param d = do
  check (is_scalar (param_ty d.ty)) d.name_pos "bad parameter type"
  declare_sym (record {
    pos = d.name_pos;
    parent = none;
    kind = SymKind.local;
    storage = Storage.unspecified;
    name = d.name;
    ty = param_ty d.ty;
    is_def = true;
  })

-- A symbol of the scope, whose declaration has no parent or the parent given.
abbrev decl_of : Pos → Option ℕ → SymKind → Storage → Option (List ℕ) → Ty → Bool → Declaration
decl_of pos parent kind storage name t is_def = record {
  pos = pos;
  parent = parent;
  kind = kind;
  storage = storage;
  name = name;
  ty = t;
  is_def = is_def;
}

-- The symbol of a struct that is declared or defined here.
unfoldable pub declare_struct : Pos → Option (List ℕ) → Bool → Parser ℕ
declare_struct pos name is_def =
    declare_sym (decl_of pos none SymKind.struct_sym Storage.unspecified name void is_def)

-- The struct after its fields.
abbrev pub end_struct : ℕ → Parser (Unit {0})
end_struct s = update s λ sym. record sym { is_defined = true; size = align_up sym.size sym.align }

abbrev pub empty_scope : ℕ → Parser (Unit {0})
empty_scope s = update s λ sym. record sym { scope = [] }

abbrev pub sym_ty : ℕ → Parser Ty
sym_ty s = do p ← get; pure (p.syms s).ty

-- An `int` as a `long`.
abbrev pub const_val : ℕ → ℕ
const_val v = if ltb v half32 then v else v + (word64 - word32)

unfoldable pub declare_const : Pos → List ℕ → ℕ → Parser (Unit {0})
declare_const pos name v = do
  s ← declare_sym (decl_of pos none SymKind.const Storage.unspecified (some name) int_ty true)
  update s λ sym. record sym { val = const_val v }

abbrev pub max_func_params : ℕ
max_func_params = 8

-- A name as `declare` takes it: that of a symbol without one is null.
abbrev name_of : List ℕ → Option (List ℕ)
name_of [] = none
name_of (c ∷ name) = some (c ∷ name)

-- The parameters of the function `s`, declared again as its locals.
unfoldable pub declare_params : ℕ → List ℕ → Parser (Unit {0})
declare_params s [] = pure tt
declare_params s (q ∷ params) = do
  p ← get
  param ← declare_sym (
      decl_of (p.syms q).last_pos (some s) SymKind.local Storage.unspecified
        (name_of (p.syms q).name) (p.syms q).ty true)
  update s λ sym. record sym { last_param = some param }
  declare_params s params

-- The frame of a function with `n` parameters, after their places: the rest of the registers that
-- carry arguments, for a variadic one.
abbrev pub frame_of : Syms → ℕ → Sym → Sym
frame_of syms n sym =
    let va_offs = align_up sym.size (ty_align syms va_list) in
    let va_size = (if is_va_of sym.ty then ty_size syms long_ty * (max_func_params - n) else 0) in
    record sym { va_offs = va_offs; va_size = va_size; size = va_offs + va_size }

-- From the frame record to `curr_func = sym`.
unfoldable pub begin_function : ℕ → List ℕ → Parser (Unit {0})
begin_function s params = do
  push_scope
  update s λ sym. record sym { size = 16 }
  declare_params s params
  p ← get
  update s λ sym. frame_of p.syms (length params) (record sym { scope = curr_scope p.scopes })
  modify λ p. record p { curr_func = some s }

abbrev pub end_function : ℕ → Stmt → Parser (Unit {0})
end_function s body = do
  modify λ p. record p { bodies = p.bodies ++ (s, body) ∷ []; curr_func = none }
  pop_scope

-- A function declaration.
unfoldable pub declare_function : Storage → Declarator → Bool → Parser ℕ
declare_function storage d has_body =
    declare_sym (decl_of d.name_pos none SymKind.func_sym storage d.name d.ty has_body)

-- The initializer of a local object.
unfoldable pub elab_local_init : Option Expr → Ty → Parser (Option TExpr)
elab_local_init none t = pure none
elab_local_init (some e) t = do e' ← elab (λ env. elab_expr_expect env e t); pure (some e')

unfoldable pub set_init : Option Expr → Ty → ℕ → Parser (Unit {0})
set_init none t s = pure tt
set_init (some e) t s = do
  v ← elab (λ env. elab_init env e t)
  update s λ sym. record sym { val = v }

abbrev pub is_some {ℓ} : {A : Type ℓ} → Option A → Bool
is_some none = false
is_some (some a) = true

unfoldable pub declare_object_in :
    DeclScope → Storage → Declarator → Parser (List (ℕ × Option TExpr))
declare_object_in local_decl storage d = do
  p ← get
  s ←
      declare_sym
        (decl_of d.name_pos p.curr_func SymKind.local Storage.unspecified d.name d.ty true)
  e ← elab_local_init d.init d.ty
  pure ((s, e) ∷ [])
declare_object_in global_decl storage d = do
  s ← declare_sym (decl_of d.name_pos none SymKind.global storage d.name d.ty (is_some d.init))
  set_init d.init d.ty s
  pure []
declare_object_in (struct_decl parent) storage d = do
  s ←
      declare_sym
        (decl_of d.name_pos (some parent) SymKind.field Storage.unspecified d.name d.ty true)
  pure []

-- An object declaration: the local that it declares, with its initializer.
unfoldable pub declare_object : DeclScope → Storage → Declarator → Parser (List (ℕ × Option TExpr))
declare_object scope storage d = do
  p ← get
  check (is_obj_ty p.syms d.ty) d.name_pos "bad object type"
  declare_object_in scope storage d
