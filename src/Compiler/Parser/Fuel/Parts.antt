-- ===== src/Compiler/Parser/Fuel/Parts.antt =====
-- The steps between the calls of the grammar's functions keep what is left of the input.
use smolcc.Base.{
  ℕ, zero, suc, ◌≡◌, ◌≤◌, ◌<◌, ◌++◌, if◌then◌else◌, refl, Bool, true, false, List, [], ◌∷◌, Option,
  none, some, ◌&&◌,
}
use smolcc.Compiler.Outcome.{Pos}
use smolcc.Compiler.Types.{Ty, Syms, SymKind, Storage, is_positive, ty_size}
use smolcc.Compiler.Ast.{Expr}
use smolcc.Compiler.Stmt.{Stmt}
use smolcc.Compiler.Lexer.{Token}
use smolcc.Compiler.Parser.Monad.{
  Parse, Parser, eat, ◌>>=◌, ◌>>◌, pure, get, check, expect, is, next_tok, p_ident, is_wrd,
  pop_scope,
}
use smolcc.Compiler.Parser.Ops.{Specs}
use smolcc.Compiler.Parser.Grammar.Parts.{
  p_literal, sizeof_expr, kind_expr, not_value, sym_expr, p_name, DeclScope, global_decl,
  local_decl, struct_decl, base_of, base_of_specs, Declarator, set_loop, p_separator, sym_ty,
  empty_scope, p_name_if, func_ty, declare_param, declare_struct, end_struct, declare_const,
  declare_params, begin_function, end_function, declare_function, elab_local_init, set_init,
  declare_object_in, declare_object,
}
use smolcc.Compiler.Parser.Budget.{
  expect_dies, init_dies, weight, size, Ends, Keeps, Eats, Keeps-pure, Eats-fail, Eats-Keeps,
  Keeps-bind, Eats-bind, Keeps-check, Keeps-get,
}
use smolcc.Compiler.Parser.Budget.Steps.{
  Keeps-modify, Keeps-elab, next_tok-bind, expect-bind, eat-Keeps, Keeps-eat, check-Ends,
  expect_then, p_ident-Eats, declare_sym-Keeps, push_scope-Keeps, pop_scope-Keeps, update-Keeps,
  lookup_sym-Keeps,
}

pub p_literal-Ends :
    {n : ℕ} (make : Pos → Token → Expr) (pos : Pos) (p : Parse)
    → size p ≤ n
    → weight p.tok ≡ 1
    → Ends (size p) (p_literal make pos p)
unfolding p_literal
p_literal-Ends make pos p h w = next_tok-bind (pure (make pos p.tok)) p h w λ k l. Keeps-pure _

module _ {n : ℕ} where
  pub sizeof_expr-Keeps : (pos : Pos) (t : Ty) → Keeps n (sizeof_expr pos t)
  unfolding sizeof_expr
  sizeof_expr-Keeps pos t = record {
    on = λ p h.
        (Keeps-bind
            (Keeps-check (is_positive (ty_size p.syms t)) pos "sizeof operand must be object")
            λ _. Keeps-pure (Expr.num pos none (ty_size p.syms t))).on
          p h;
  }

  kind_expr-Keeps :
      (pos : Pos) (syms : Syms) (s : ℕ) (k : SymKind) → Keeps n (kind_expr pos syms s k)
  kind_expr-Keeps pos syms s SymKind.const = Keeps-pure _
  kind_expr-Keeps pos syms s SymKind.local = Keeps-pure _
  kind_expr-Keeps pos syms s SymKind.global = Keeps-pure _
  kind_expr-Keeps pos syms s SymKind.func_sym = Keeps-pure _
  kind_expr-Keeps pos syms s SymKind.struct_sym = Eats-Keeps (Eats-fail pos not_value)
  kind_expr-Keeps pos syms s SymKind.field = Eats-Keeps (Eats-fail pos not_value)

  pub sym_expr-Keeps : (pos : Pos) (syms : Syms) (s : Option ℕ) → Keeps n (sym_expr pos syms s)
  unfolding sym_expr
  sym_expr-Keeps pos syms none = Eats-Keeps (Eats-fail pos "undefined symbol")
  sym_expr-Keeps pos syms (some s) = kind_expr-Keeps pos syms s (syms s).kind

pub p_name-Eats : {n : ℕ} (pos : Pos) → Eats n (p_name pos)
unfolding p_name
p_name-Eats pos = Eats-bind p_ident-Eats λ k l name.
    Keeps-bind (lookup_sym-Keeps false (some name))
      λ s. Keeps-bind Keeps-get λ p. sym_expr-Keeps pos p.syms s

module _ {n : ℕ} where
  base_of-Keeps : (pos : Pos) (b : Bool) (s : Specs) (t : Option Ty) → Keeps n (base_of pos b s t)
  base_of-Keeps pos b s none = Eats-Keeps (Eats-fail pos "expected type specifier")
  base_of-Keeps pos b s (some t) =
      Keeps-bind (Keeps-check _ pos _) λ _. Keeps-bind (Keeps-check _ pos _) λ _. Keeps-pure t

  pub base_of_specs-Keeps : (pos : Pos) (b : Bool) (s : Specs) → Keeps n (base_of_specs pos b s)
  unfolding base_of_specs
  base_of_specs-Keeps pos b s = base_of-Keeps pos b s s.base_ty

  name_at-Ends :
      (b : Bool) (p : Parse)
      → size p ≤ n
      → Ends (suc (size p)) (if b then (p_ident >>= λ name. pure (some name)) p else pure none p)
  name_at-Ends true p h =
      (Eats-Keeps (Eats-bind {n = n} p_ident-Eats λ k l name. Keeps-pure (some name))).on p h
  name_at-Ends false p h = (Keeps-pure none).on p h

  pub p_name_if-Keeps : (named : Bool) → Keeps n (p_name_if named)
  unfolding p_name_if
  p_name_if-Keeps named = record { on = λ p h. name_at-Ends (named && is_wrd p.tok.kind) p h }

  pub func_ty-Keeps :
      (pos : Pos) (t : Ty) (params : List ℕ) (is_va : Bool) → Keeps n (func_ty pos t params is_va)
  unfolding func_ty
  func_ty-Keeps pos t params is_va =
      Keeps-bind (Keeps-check _ pos _)
        λ _. Keeps-bind Keeps-get λ p. Keeps-bind pop_scope-Keeps λ _. Keeps-pure _

  pub declare_param-Keeps : (d : Declarator) → Keeps n (declare_param d)
  unfolding declare_param
  declare_param-Keeps d = Keeps-bind (Keeps-check _ d.name_pos _) λ _. declare_sym-Keeps _

  pub declare_struct-Keeps :
      (pos : Pos) (name : Option (List ℕ)) (is_def : Bool)
      → Keeps n (declare_struct pos name is_def)
  unfolding declare_struct
  declare_struct-Keeps pos name is_def = declare_sym-Keeps _

  pub declare_const-Keeps : (pos : Pos) (name : List ℕ) (v : ℕ) → Keeps n (declare_const pos name v)
  unfolding declare_const
  declare_const-Keeps pos name v = Keeps-bind (declare_sym-Keeps _) λ s. update-Keeps s _

  declare_params-Keeps : (s : ℕ) (params : List ℕ) → Keeps n (declare_params s params)
  unfolding declare_params
  declare_params-Keeps s [] = Keeps-pure tt
  declare_params-Keeps s (q ∷ params) = Keeps-bind Keeps-get λ p.
      Keeps-bind (declare_sym-Keeps _)
        λ param. Keeps-bind (update-Keeps s _) λ _. declare_params-Keeps s params

  pub begin_function-Keeps : (s : ℕ) (params : List ℕ) → Keeps n (begin_function s params)
  unfolding begin_function
  begin_function-Keeps s params = Keeps-bind push_scope-Keeps λ _.
      Keeps-bind (update-Keeps s _) λ _. Keeps-bind (declare_params-Keeps s params) λ _.
        Keeps-bind Keeps-get λ p.
          Keeps-bind (update-Keeps s _)
            λ _. Keeps-modify (λ q. record q { curr_func = some s }) λ q. refl

  pub end_function-Keeps : (s : ℕ) (body : Stmt) → Keeps n (end_function s body)
  end_function-Keeps s body =
      Keeps-bind
        (Keeps-modify (λ p. record p { bodies = p.bodies ++ (s, body) ∷ []; curr_func = none })
          λ p. refl)
        λ _. pop_scope-Keeps

  pub declare_function-Keeps :
      (storage : Storage) (d : Declarator) (b : Bool) → Keeps n (declare_function storage d b)
  unfolding declare_function
  declare_function-Keeps storage d b = declare_sym-Keeps _

  elab_local_init-Keeps : (init : Option Expr) (t : Ty) → Keeps n (elab_local_init init t)
  unfolding elab_local_init
  elab_local_init-Keeps none t = Keeps-pure none
  elab_local_init-Keeps (some e) t =
      Keeps-bind (Keeps-elab _ λ env m. expect_dies env e t) λ e'. Keeps-pure _

  set_init-Keeps : (init : Option Expr) (t : Ty) (s : ℕ) → Keeps n (set_init init t s)
  unfolding set_init
  set_init-Keeps none t s = Keeps-pure tt
  set_init-Keeps (some e) t s =
      Keeps-bind (Keeps-elab _ λ env m. init_dies env e t) λ v. update-Keeps s _

  declare_object_in-Keeps :
      (scope : DeclScope) (storage : Storage) (d : Declarator)
      → Keeps n (declare_object_in scope storage d)
  unfolding declare_object_in
  declare_object_in-Keeps local_decl storage d = Keeps-bind Keeps-get λ p.
      Keeps-bind (declare_sym-Keeps _)
        λ s. Keeps-bind (elab_local_init-Keeps d.init d.ty) λ e. Keeps-pure _
  declare_object_in-Keeps global_decl storage d =
      Keeps-bind (declare_sym-Keeps _)
        λ s. Keeps-bind (set_init-Keeps d.init d.ty s) λ _. Keeps-pure []
  declare_object_in-Keeps (struct_decl parent) storage d =
      Keeps-bind (declare_sym-Keeps _) λ s. Keeps-pure []

  pub declare_object-Keeps :
      (scope : DeclScope) (storage : Storage) (d : Declarator)
      → Keeps n (declare_object scope storage d)
  unfolding declare_object
  declare_object-Keeps scope storage d =
      Keeps-bind Keeps-get
        λ p. Keeps-bind (Keeps-check _ d.name_pos _) λ _. declare_object_in-Keeps scope storage d

pub set_loop-Keeps : {n : ℕ} (b : Bool) → Keeps n (set_loop b)
set_loop-Keeps b = Keeps-modify (λ p. record p { in_loop = b }) λ p. refl

-- The end of a loop, which gives its statement.
pub end_loop-Keeps : {n : ℕ} (b : Bool) (s : Stmt) → Keeps n (pop_scope >> (set_loop b >> pure s))
end_loop-Keeps b s = Keeps-bind pop_scope-Keeps λ _. Keeps-bind (set_loop-Keeps b) λ _. Keeps-pure s

-- `break` and `continue`
pub jump-Ends :
    {n : ℕ} (pos : Pos) (s : Stmt) (p : Parse)
    → size p ≤ n
    → weight p.tok ≡ 1
    → Ends (size p) (
        (get >>= λ p.
        check p.in_loop pos "break/continue outside loop" >> (next_tok >> (expect ";" >> pure s)))
          p)
unfolding get is
jump-Ends pos s p h w =
    check-Ends p.in_loop pos _ _ p
      (next_tok-bind _ p h w λ k l. expect_then ";" refl (Keeps-pure s))

pub sym_ty-Keeps : {n : ℕ} (s : ℕ) → Keeps n (sym_ty s)
sym_ty-Keeps s = Keeps-bind Keeps-get λ p. Keeps-pure _

-- The fields of a struct, if they are given.
pub Keeps-eat_struct :
    {n : ℕ} {fields : Parser (Unit {0})} (s : ℕ)
    → ((k : ℕ) → k < n → Keeps k fields)
    → Keeps n (eat "{" >>= λ b. if b then empty_scope s >> (fields >> end_struct s) else pure tt)
unfolding is
Keeps-eat_struct s kf =
    Keeps-eat "{" _ refl
      (λ k l. Keeps-bind (update-Keeps s _) λ _. Keeps-bind (kf k l) λ _. update-Keeps s _)
      (Keeps-pure tt)

-- A separator is read before every parameter but the first.
pub p_separator-Eats : {n : ℕ} (m : ℕ) → Eats n (p_separator (suc m))
unfolding p_separator is
p_separator-Eats m = expect-bind "," refl λ k l. eat-Keeps "..." refl

pub p_separator-Keeps : {n : ℕ} → Keeps n (p_separator zero)
unfolding p_separator
p_separator-Keeps = Keeps-pure false
