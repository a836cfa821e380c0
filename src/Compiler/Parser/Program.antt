-- ===== src/Compiler/Parser/Program.antt =====
-- The part of main of compiler/smolcc1.c that reads a file.
use smolcc.Base.{ℕ, zero, suc, Bool, true, false, List, [], none, if◌then◌else◌}
use smolcc.Compiler.Outcome.{Pos}
use smolcc.Compiler.Types.{Sym, SymKind, Storage, void}
use smolcc.Compiler.Lexer.{TokKind, init_lex}
use smolcc.Compiler.Parser.Monad.{Parse, Parser, Run, out_of_fuel, ◌>>◌, pure, next_tok, push_scope}
use smolcc.Compiler.Parser.Grammar.{p_decl}
use smolcc.Compiler.Parser.Grammar.Parts.{global_decl}

abbrev pub is_eof : TokKind → Bool
is_eof TokKind.eof = true
is_eof _ = false

-- The loop of main over the declarations of a file.
unfoldable pub p_program : ℕ → Parser (Unit {0})
unfolding p_decl
p_program zero p = out_of_fuel
p_program (suc f) p =
    if is_eof p.tok.kind then pure tt p else (do p_decl f global_decl; p_program f) p

abbrev start_pos : Pos
start_pos = record { line = 1; col = 0 }

-- A symbol number that is not used yet.
abbrev no_sym : Sym
no_sym = record {
  kind = SymKind.global;
  last_pos = start_pos;
  storage = Storage.unspecified;
  name = [];
  ty = void;
  is_defined = false;
  val = 0;
  last_param = none;
  va_offs = 0;
  va_size = 0;
  scope = [];
  size = 0;
  align = 0;
  offs = 0;
}

-- The variables of the program before the first `lex()`.
unfoldable pub init_parse : List ℕ → Parse
unfolding init_lex
init_parse input = record {
  tok = record {
    kind = TokKind.eof;
    pos = start_pos;
    text = [];
    n = 0;
    u = false;
    l = false;
    lit = [];
  };
  lexer = init_lex input;
  syms = λ s. no_sym;
  n_syms = 0;
  scopes = [];
  curr_func = none;
  in_loop = false;
  bodies = [];
}

-- main up to the end of the input.
unfoldable pub parse_file : ℕ → List ℕ → Run (Unit {0} × Parse)
unfolding next_tok p_program init_parse
parse_file fuel input = (do next_tok; push_scope; p_program fuel) (init_parse input)
