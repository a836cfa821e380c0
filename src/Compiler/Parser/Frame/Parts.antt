-- ===== src/Compiler/Parser/Frame/Parts.antt =====
-- The steps between the calls of the grammar's functions, and the contexts that they lead to.
use smolcc.Base.{
  ℕ, zero, suc, ◌≡◌, ◌∙◌, sym, refl, Bool, true, false, List, [], ◌∷◌, ◌++◌, Option, none, some,
  if◌then◌else◌, ◌&&◌,
}
use smolcc.Compiler.Outcome.{Pos}
use smolcc.Compiler.Types.{Ty, Syms, SymKind, Storage, is_positive, ty_size}
use smolcc.Compiler.Ast.{Expr}
use smolcc.Compiler.Stmt.{Stmt}
use smolcc.Compiler.Lexer.{Token}
use smolcc.Compiler.Parser.Monad.{
  Parser, eat, next_tok, expect, check, get, ◌>>=◌, ◌>>◌, pure, is_wrd, pop_scope,
}
use smolcc.Compiler.Parser.Ops.{Specs}
use smolcc.Compiler.Parser.Grammar.Parts.{
  p_literal, sizeof_expr, kind_expr, not_value, sym_expr, p_name, DeclScope, global_decl,
  local_decl, struct_decl, base_of, base_of_specs, sym_ty, empty_scope, Declarator, p_name_if,
  p_separator, func_ty, declare_param, declare_struct, end_struct, declare_const, declare_params,
  begin_function, end_function, declare_function, elab_local_init, set_init, declare_object_in,
  declare_object, set_loop,
}
use smolcc.Compiler.Parser.Frame.{
  Context, JumpsIn, AreBodies, Moves, Any, Stays, Moves-bind, Stays-bind, Moves-if,
}
use smolcc.Compiler.Parser.Frame.Steps.{
  deeper, looped, in_func, gives, Stays-pure, Moves-fail, Stays-elab, Stays-check, Moves-check,
  Moves-get, Stays-get, Stays-lookup_sym, Moves-modify, Stays-update, Moves-push_scope,
  Moves-pop_scope, Stays-declare_sym, Stays-next_tok, Stays-eat, Stays-p_ident, expect_next, if_in,
}

module _ {k : Context} where
  pub Stays-p_literal : (make : Pos → Token → Expr) (pos : Pos) → Stays k (p_literal make pos)
  unfolding p_literal
  Stays-p_literal make pos = record {
    on = λ p c. (Stays-bind Stays-next_tok λ _. Stays-pure (make pos p.tok)).on p c;
  }

  pub Stays-sizeof_expr : (pos : Pos) (t : Ty) → Stays k (sizeof_expr pos t)
  unfolding sizeof_expr
  Stays-sizeof_expr pos t = record {
    on = λ p c.
        (Stays-bind
            (Stays-check (is_positive (ty_size p.syms t)) pos "sizeof operand must be object")
            λ _. Stays-pure (Expr.num pos none (ty_size p.syms t))).on
          p c;
  }

  Stays-kind_expr :
      (pos : Pos) (syms : Syms) (s : ℕ) (kind : SymKind) → Stays k (kind_expr pos syms s kind)
  Stays-kind_expr pos syms s SymKind.const = Stays-pure _
  Stays-kind_expr pos syms s SymKind.local = Stays-pure _
  Stays-kind_expr pos syms s SymKind.global = Stays-pure _
  Stays-kind_expr pos syms s SymKind.func_sym = Stays-pure _
  Stays-kind_expr pos syms s SymKind.struct_sym = Moves-fail pos not_value
  Stays-kind_expr pos syms s SymKind.field = Moves-fail pos not_value

  Stays-sym_expr : (pos : Pos) (syms : Syms) (s : Option ℕ) → Stays k (sym_expr pos syms s)
  unfolding sym_expr
  Stays-sym_expr pos syms none = Moves-fail pos "undefined symbol"
  Stays-sym_expr pos syms (some s) = Stays-kind_expr pos syms s (syms s).kind

  pub Stays-p_name : (pos : Pos) → Stays k (p_name pos)
  unfolding p_name
  Stays-p_name pos = Stays-bind Stays-p_ident λ name.
      Stays-bind (Stays-lookup_sym false (some name))
        λ s. Stays-bind Stays-get λ p. Stays-sym_expr pos p.syms s

  Stays-base_of : (pos : Pos) (b : Bool) (s : Specs) (t : Option Ty) → Stays k (base_of pos b s t)
  Stays-base_of pos b s none = Moves-fail pos "expected type specifier"
  Stays-base_of pos b s (some t) =
      Stays-bind (Stays-check _ pos _) λ _. Stays-bind (Stays-check _ pos _) λ _. Stays-pure t

  pub Stays-base_of_specs : (pos : Pos) (b : Bool) (s : Specs) → Stays k (base_of_specs pos b s)
  unfolding base_of_specs
  Stays-base_of_specs pos b s = Stays-base_of pos b s s.base_ty

  pub Stays-p_name_if : (named : Bool) → Stays k (p_name_if named)
  unfolding p_name_if
  Stays-p_name_if named = record {
    on = λ p c.
        if_in (named && is_wrd p.tok.kind) p c
          (Stays-bind Stays-p_ident λ name. Stays-pure (some name)) (Stays-pure none);
  }

  -- The scope of the parameters is left.
  pub Moves-func_ty :
      (pos : Pos) (t : Ty) (params : List ℕ) (is_va : Bool)
      → Moves (deeper k) k Any (func_ty pos t params is_va)
  unfolding func_ty
  Moves-func_ty pos t params is_va =
      Stays-bind (Stays-check _ pos _)
        λ _. Stays-bind Stays-get λ p. Stays-bind Moves-pop_scope λ _. Stays-pure _

  pub Stays-declare_param : (d : Declarator) → Stays k (declare_param d)
  unfolding declare_param
  Stays-declare_param d = Stays-bind (Stays-check _ d.name_pos _) λ _. Stays-declare_sym _

  pub Stays-declare_struct :
      (pos : Pos) (name : Option (List ℕ)) (is_def : Bool)
      → Stays k (declare_struct pos name is_def)
  unfolding declare_struct
  Stays-declare_struct pos name is_def = Stays-declare_sym _

  pub Stays-declare_const : (pos : Pos) (name : List ℕ) (v : ℕ) → Stays k (declare_const pos name v)
  unfolding declare_const
  Stays-declare_const pos name v = Stays-bind (Stays-declare_sym _) λ s. Stays-update s _

  Stays-declare_params : (s : ℕ) (params : List ℕ) → Stays k (declare_params s params)
  unfolding declare_params
  Stays-declare_params s [] = Stays-pure tt
  Stays-declare_params s (q ∷ params) = Stays-bind Stays-get λ p.
      Stays-bind (Stays-declare_sym _)
        λ param. Stays-bind (Stays-update s _) λ _. Stays-declare_params s params

  pub Stays-declare_function :
      (storage : Storage) (d : Declarator) (b : Bool) → Stays k (declare_function storage d b)
  unfolding declare_function
  Stays-declare_function storage d b = Stays-declare_sym _

  Stays-elab_local_init : (init : Option Expr) (t : Ty) → Stays k (elab_local_init init t)
  unfolding elab_local_init
  Stays-elab_local_init none t = Stays-pure none
  Stays-elab_local_init (some e) t = Stays-bind (Stays-elab _) λ e'. Stays-pure _

  Stays-set_init : (init : Option Expr) (t : Ty) (s : ℕ) → Stays k (set_init init t s)
  unfolding set_init
  Stays-set_init none t s = Stays-pure tt
  Stays-set_init (some e) t s = Stays-bind (Stays-elab _) λ v. Stays-update s _

  Stays-declare_object_in :
      (scope : DeclScope) (storage : Storage) (d : Declarator)
      → Stays k (declare_object_in scope storage d)
  unfolding declare_object_in
  Stays-declare_object_in local_decl storage d = Stays-bind Stays-get λ p.
      Stays-bind (Stays-declare_sym _)
        λ s. Stays-bind (Stays-elab_local_init d.init d.ty) λ e. Stays-pure _
  Stays-declare_object_in global_decl storage d =
      Stays-bind (Stays-declare_sym _)
        λ s. Stays-bind (Stays-set_init d.init d.ty s) λ _. Stays-pure []
  Stays-declare_object_in (struct_decl parent) storage d =
      Stays-bind (Stays-declare_sym _) λ s. Stays-pure []

  pub Stays-declare_object :
      (scope : DeclScope) (storage : Storage) (d : Declarator)
      → Stays k (declare_object scope storage d)
  unfolding declare_object
  Stays-declare_object scope storage d =
      Stays-bind Stays-get
        λ p. Stays-bind (Stays-check _ d.name_pos _) λ _. Stays-declare_object_in scope storage d

  pub Stays-sym_ty : (s : ℕ) → Stays k (sym_ty s)
  Stays-sym_ty s = Stays-bind Stays-get λ p. Stays-pure _

  -- The fields of a struct, if they are given.
  pub Stays-eat_struct :
      {fields : Parser (Unit {0})} (s : ℕ)
      → Stays k fields
      → Stays k (eat "{" >>= λ b. if b then empty_scope s >> (fields >> end_struct s) else pure tt)
  Stays-eat_struct s g = Stays-bind (Stays-eat "{") λ b.
      Moves-if b (λ _. Stays-bind (Stays-update s _) λ _. Stays-bind g λ _. Stays-update s _)
        (Stays-pure tt)

  pub Stays-p_separator : (m : ℕ) → Stays k (p_separator m)
  unfolding p_separator
  Stays-p_separator zero = Stays-pure false
  Stays-p_separator (suc m) = expect_next "," (Stays-eat "...")

  pub Moves-set_loop : (b : Bool) → Moves k (looped b k) Any (set_loop b)
  Moves-set_loop b =
      Moves-modify (λ p. record p { in_loop = b })
        λ p c. record { depth = c.depth; loop = refl; func = c.func; bodies = c.bodies }

-- The body of a function is read in its scope.
pub Moves-begin_function :
    {k : Context} (s : ℕ) (params : List ℕ)
    → Moves k (deeper (in_func (some s) k)) Any (begin_function s params)
unfolding begin_function
Moves-begin_function s params = Stays-bind Moves-push_scope λ _. Stays-bind (Stays-update s _) λ _.
    Stays-bind (Stays-declare_params s params) λ _. Stays-bind Stays-get λ p.
      Stays-bind (Stays-update s _) λ _.
        Moves-modify (λ q. record q { curr_func = some s })
          λ q c. record { depth = c.depth; loop = c.loop; func = refl; bodies = c.bodies }

-- The end of a loop restores `curr_loop`, and gives the loop's statement.
pub Moves-end_loop :
    {k : Context} (b : Bool) (s : Stmt) (P : Stmt → Type 0)
    → b ≡ k.loop
    → P s
    → Moves (deeper (looped true k)) k P (pop_scope >> (set_loop b >> pure s))
Moves-end_loop {k} b s P e h = Stays-bind (Moves-pop_scope {k = looped true k}) λ _.
    Stays-bind {j = k}
      (Moves-modify (λ p. record p { in_loop = b })
        λ p c. record { depth = c.depth; loop = e; func = c.func; bodies = c.bodies })
      λ _. gives s h

AreBodies-append :
    (bodies : List (ℕ × Stmt)) (s : ℕ) (body : Stmt)
    → AreBodies bodies
    → JumpsIn false body
    → AreBodies (bodies ++ (s, body) ∷ [])
unfolding AreBodies
AreBodies-append [] s body h j = (j, tt)
AreBodies-append ((r, b) ∷ bodies) s body h j = (h.0, AreBodies-append bodies s body h.1 j)

-- The body that is stored at the end of a function has its jumps in loops.
pub Moves-end_function :
    {k : Context} (s : ℕ) (body : Stmt)
    → k.func ≡ none
    → JumpsIn false body
    → Moves (deeper (in_func (some s) k)) k Any (end_function s body)
Moves-end_function {k} s body e j =
    Stays-bind {j = deeper k}
      (Moves-modify (λ p. record p { bodies = p.bodies ++ (s, body) ∷ []; curr_func = none })
        λ p c. record {
          depth = c.depth;
          loop = c.loop;
          func = sym e;
          bodies = AreBodies-append p.bodies s body c.bodies j;
        })
      λ _. Moves-pop_scope

-- `break` and `continue`
pub Moves-jump :
    {k : Context} (pos : Pos) (s : Stmt)
    → JumpsIn true s
    → Moves k k (JumpsIn k.loop) (
        get >>= λ p.
        check p.in_loop pos "break/continue outside loop" >> (next_tok >> (expect ";" >> pure s)))
Moves-jump {k} pos s j = Moves-bind Moves-get λ p c.
    Moves-bind (Moves-check p.in_loop pos _) λ _ looping.
      Stays-bind Stays-next_tok λ _. expect_next ";" (gives s (rw (sym c.loop ∙ looping) j))
