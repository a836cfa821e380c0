-- ===== src/Compiler/ProgramTests.antt =====
-- The symbol table and the emission of functions on a small program.
use smolcc.Base.{
  ℕ, zero, suc, ◌+◌, ◌*◌, ◌<◌, ◌≤◌, ◌≡◌, refl, true, false, List, [], ◌∷◌, none, some, arith, inr,
}
use smolcc.Compiler.Outcome.{Pos, Succeeds}
use smolcc.Compiler.Misc.{align_up}
use smolcc.Compiler.Misc.Laws.{align_up_bounds}
use smolcc.Compiler.Misc.Writef.{vwritef}
use smolcc.Compiler.Misc.Written.{Piece, format, args, text, vwritef-format}
use smolcc.Compiler.Types.{
  Ty, Params, Sym, Syms, SymKind, Storage, func, int_ty, long_ty, char_ty, struct, ty_size,
  ty_align,
}
use smolcc.Compiler.Typed.{TExpr}
use smolcc.Compiler.Stmt.{Stmt, Stmts}
use smolcc.Compiler.Symbols.{lookup_in, find_in, same_name}
use smolcc.Compiler.Symbols.Declare.{Table, declare}
use smolcc.Compiler.Symbols.Layout.{IsPlaced, field_in, declare-IsPlaced}
use smolcc.Compiler.Codegen.Runs.{Runs}
use smolcc.Compiler.Codegen.Instr.{label_in}
use smolcc.Compiler.Codegen.Object.{emit_obj, emit_str_literals}
use smolcc.Compiler.Codegen.Assembled.{Lays, emit_obj-Lays, emit_str_literals-Lays}

abbrev start : Pos
start = record { line = 1; col = 0 }

abbrev plain : SymKind → List ℕ → Ty → List ℕ → ℕ → Sym
plain kind name t scope size = record {
  kind = kind;
  last_pos = start;
  storage = Storage.unspecified;
  name = name;
  ty = t;
  is_defined = true;
  val = 0;
  last_param = none;
  va_offs = 24;
  va_size = 0;
  scope = scope;
  size = size;
  align = 1;
  offs = 16;
}

-- `int f(int x)`, `x`, and `struct s` with a field `char c` so far
abbrev program : Syms
program zero =
    plain SymKind.func_sym (b'f' ∷ []) (func int_ty (Params.cons int_ty Params.nil) false) (1 ∷ [])
      24
program (suc zero) = plain SymKind.local (b'x' ∷ []) int_ty [] 0
program (suc (suc zero)) = plain SymKind.struct_sym (b's' ∷ []) (struct 2) (3 ∷ []) 1
program (suc (suc (suc n))) = plain SymKind.field (b'c' ∷ []) char_ty [] 0

abbrev table : Table
table = record { syms = program; n_syms = 4; curr_scope = 0 ∷ 2 ∷ [] }

align_up_bounds_example :
    (17 ≤ align_up 17 16) × (align_up 17 16 < 17 + 16) × ((k : ℕ) × (align_up 17 16 ≡ k * 16))
align_up_bounds_example = align_up_bounds 17 16 (omega arith) (omega arith)

-- "x%d, %s%%" with 7 and "hi"
abbrev pieces : List Piece
pieces =
    Piece.letter b'x'
    ∷ Piece.int_piece 7
    ∷ Piece.letter b','
    ∷ Piece.str_piece (b'h' ∷ b'i' ∷ [])
    ∷ Piece.percent_piece
    ∷ []

vwritef-format_example : vwritef (format pieces) (args pieces) ≡ some (text pieces)
vwritef-format_example = vwritef-format pieces (
  (omega arith, omega arith, omega arith),
  (tt, ((omega arith, omega arith, omega arith), ((omega arith, (omega arith, tt)), (tt, tt)))),
)

-- `long n;` after `char c;`
declare-IsPlaced_example :
    Succeeds
      (λ r. IsPlaced table r.1 2 r.0 (ty_size program long_ty) (ty_align program long_ty))
      (declare (field_in start 2 (some (b'n' ∷ [])) long_ty) table)
unfolding lookup_in find_in same_name ty_align ty_size
declare-IsPlaced_example =
    declare-IsPlaced start (some (b'n' ∷ [])) long_ty table 2 refl refl (omega arith) (omega arith)
      (omega arith) (omega arith)

-- `long n = 258;` and the literal "hi"
abbrev number : Sym
number = record (plain SymKind.global (b'n' ∷ []) long_ty [] 0) { val = 258 }

emit_obj-Lays_example : Lays [] (2 ∷ 1 ∷ 0 ∷ 0 ∷ 0 ∷ 0 ∷ 0 ∷ 0 ∷ []) (emit_obj program number)
unfolding ty_size
emit_obj-Lays_example = emit_obj-Lays {labels = []} program number (λ _. inr (inr refl))

abbrev hi : List ℕ
hi = b'h' ∷ b'i' ∷ []

emit_str_literals-Lays_example :
    Lays ((hi, 1) ∷ []) (b'h' ∷ b'i' ∷ 0 ∷ []) (emit_str_literals (hi ∷ []))
unfolding label_in
emit_str_literals-Lays_example =
    emit_str_literals-Lays {labels = (hi, 1) ∷ []} (hi ∷ []) ((omega arith, (omega arith, tt)), tt)

-- { while (x) break; return x; }
abbrev sample_body : Stmt
sample_body = Stmt.block start (
    Stmts.cons
      (Stmt.loop start (Stmt.empty start) (some (TExpr.var start int_ty 1)) (Stmt.empty start)
        (Stmt.break start))
      (Stmts.cons (Stmt.return_value start (TExpr.var start int_ty 1)) Stmts.nil))
