-- ===== src/Compiler/ParserTests.antt =====
-- Runs of the parser on small files, and its theorems at an input.
use mathlib.Core.Logic.{◌↔◌}
use smolcc.Base.{ℕ, ◌≤◌, ◌≡◌, ◌≢◌, refl, false, List, [], Option, none, some, arith}
use smolcc.Compiler.Outcome.{ok, err_at, die}
use smolcc.Compiler.Symbols.{lookup, lookup_in, same_name}
use smolcc.Compiler.Symbols.Declare
use smolcc.Compiler.Misc
use smolcc.Compiler.Types
use smolcc.Compiler.Symbols
use smolcc.Compiler.Lexer
use smolcc.Compiler.Parser.Program
use smolcc.Compiler.Parser.Monad
use smolcc.Compiler.Parser.Monad.{Parse, Run, ended, out_of_fuel, codes}
use smolcc.Compiler.Parser.Grammar
use smolcc.Compiler.Parser.Grammar.Parts
use smolcc.Compiler.Parser.Ops
use smolcc.Compiler.Parser.Program.{parse_file, p_program, init_parse}
use smolcc.Compiler.Lexer.{TokKind}
use smolcc.Compiler.Parser.Budget.{size}
use smolcc.Compiler.Parser.Grammar.{p_expr}
use smolcc.Compiler.Parser.Ops.{infix_of}
use smolcc.Compiler.Parser.Levels.{c_level, infix_of_iff}
use smolcc.Compiler.Parser.Stops.{IsExpr, p_expr-IsExpr}
use smolcc.Compiler.Parser.Ends.{parse_file-ne-out_of_fuel, IsRead, parse_file-IsRead}

-- The size of the symbol `s` after a file has been read.
abbrev size_of : ℕ → Run (Unit {0} × Parse) → Option ℕ
size_of s (ended (ok (u, p))) = some (p.syms s).size
size_of s (ended (err_at pos m)) = none
size_of s (ended (die m)) = none
size_of s out_of_fuel = none

unfoldable size_after : ℕ → List ℕ → Option ℕ
unfolding Lexer.until_eof Lexer.skip_chr_at Lexer.next_chr Lexer.eat_chr Lexer.lex_digits
    Lexer.lex_word Lexer.eat_either Lexer.unescape Lexer.lex_literal Lexer.skip_line
    Lexer.lex_symbol Lexer.lex_number Lexer.lex_quoted Lexer.eat_comment Lexer.finish_other
    Lexer.lex_other Lexer.lex_round Lexer.lex_rounds Lexer.lex Lexer.init_lex Monad.pure Monad.get
    Monad.modify Monad.lift Monad.fail Monad.check Monad.is Monad.next_tok Monad.at Monad.eat
    Monad.expect Monad.p_ident Monad.tok_pos Monad.push_scope Monad.pop_scope Monad.declare_sym
    Monad.lookup_sym Monad.update Monad.elab Ops.at_ty Ops.at_decl Ops.expr_start Ops.num_ty
    Ops.find_op Ops.infix_of Ops.stmt_start Ops.spec_of Parts.p_literal Parts.sizeof_expr
    Parts.sym_expr Parts.p_name Parts.const_value Parts.base_of_specs Parts.p_name_if
    Parts.p_separator Parts.func_ty Parts.declare_param Parts.declare_struct Parts.declare_const
    Parts.declare_params Parts.begin_function Parts.declare_function Parts.elab_local_init
    Parts.set_init Parts.declare_object_in Parts.declare_object Grammar.p_expr Grammar.p_prefix
    Grammar.p_paren Grammar.p_led Grammar.p_infix Grammar.p_args Grammar.p_const_expr Grammar.p_stmt
    Grammar.p_stmt_as Grammar.p_expr_stmt Grammar.p_returned Grammar.p_scoped Grammar.p_stmts
    Grammar.p_for_init Grammar.p_for_cond Grammar.p_for_step Grammar.p_struct Grammar.p_fields
    Grammar.p_enum Grammar.p_enumerators Grammar.p_specs Grammar.p_spec Grammar.p_base
    Grammar.p_stars Grammar.p_declarator Grammar.p_func_declarator Grammar.p_arr_declarator
    Grammar.p_params Grammar.p_param Grammar.p_tyname Grammar.p_decl Grammar.p_declarators
    Grammar.p_function Grammar.p_more Program.p_program Program.init_parse Program.parse_file
    Declare.struct_parent Declare.scope_of Declare.redeclare Declare.place_in Declare.append_to
    Declare.place_if Declare.add_sym Declare.declare Symbols.same_name Symbols.find_in
    Symbols.lookup_in Symbols.lookup Types.same_ty Types.ty_size Types.ty_align
    Types.get_common_ptr_ty Misc.write_uint Misc.write_int Misc.str_eq Misc.mem_eq Misc.align_up
    Misc.find_chr
size_after s input = size_of s (parse_file 400 input)

reads_struct : size_after 0 (codes "struct S{char c;int i;};") ≡ some 8
unfolding size_after
reads_struct = refl

-- A struct may have itself as a field, with the size that it has up to there.
reads_struct_of_itself : size_after 0 (codes "struct S{int a;struct S s;};") ≡ some 8
unfolding size_after
reads_struct_of_itself = refl

-- A parameter may end in `=`.
reads_param : size_after 0 (codes "int f(int a=);") ≡ some 0
unfolding size_after
reads_param = refl

abbrev looping : List ℕ
looping = codes "int f(int a) { for (;;) { if (a) break; } return a; }"

parse_file-ne-out_of_fuel_example : parse_file 900 looping ≢ out_of_fuel
parse_file-ne-out_of_fuel_example = parse_file-ne-out_of_fuel 900 looping (omega arith)

parse_file-IsRead_example : IsRead (parse_file 900 looping)
parse_file-IsRead_example = parse_file-IsRead 900 looping (omega arith)

-- `1+2*3;`, at the 1
abbrev at_sum : Parse
at_sum = record (init_parse []) {
  tok = record {
    kind = TokKind.num;
    pos = record { line = 1; col = 1 };
    text = codes "1";
    n = 1;
    u = false;
    l = false;
    lit = [];
  };
  lexer = record { rest = codes "+2*3;"; pos = record { line = 1; col = 2 }; text = [] };
}

p_expr-IsExpr_example : IsExpr 0 (size at_sum) (p_expr 100 0 at_sum)
p_expr-IsExpr_example = p_expr-IsExpr 100 0 at_sum (omega arith)

infix_of_iff_example : (infix_of 12 (codes "*") ≡ none) ↔ (c_level (codes "*") ≤ 12)
infix_of_iff_example = infix_of_iff 12 (codes "*")

-- A product is not split by a sum: `*` goes on above `+`, and `+` does not above `*`.
levels_run : (c_level (codes "*") ≡ 13) × (c_level (codes "+") ≡ 12) × (c_level (codes "x") ≡ 0)
unfolding c_level Monad.is
levels_run = (refl, refl, refl)
