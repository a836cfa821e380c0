-- ===== src/Compiler/TableTests.antt =====
-- The arena, the tables of strings and types, and the lexer on small inputs.
use smolcc.Base.{ℕ, zero, suc, ◌≡◌, refl, List, [], ◌∷◌, ◌++◌, some, arith}
use mathlib.Core.Logic.{◌↔◌}
use smolcc.Compiler.Outcome.{Pos, ok, Gives}
use smolcc.Compiler.Types.{Ty}
use smolcc.Compiler.Arena.{alloc, IsBlock, alloc-Gives}
use smolcc.Compiler.Intern.{void, ptr, entry, intern, intern_ty}
use smolcc.Compiler.Intern.Laws.{IsDistinct, entry-lt, intern_iff}
use smolcc.Compiler.Intern.Types.{IsTree, intern_ty-IsTree}
use smolcc.Compiler.Misc.{write_uint, max_digits}
use smolcc.Compiler.Lexer
use smolcc.Compiler.Lexer.Consumed.{Leaves, left_of, lex-Leaves}
use smolcc.Compiler.Lexer.Reader.{Reader, rdbuf_cap, IsReader, read_chr, Reads, read_chr-Reads}
use smolcc.Compiler.Lexer.Numbers.{state, number_token, lex-AreDigits, lex-write_uint}
use smolcc.Compiler.Misc.Decimal.{value_of, AreDigits}

alloc-Gives_example : Gives (IsBlock 13 40) (alloc 13 40)
alloc-Gives_example = alloc-Gives 13 40 (omega arith) (omega arith)

-- A table of no strings, and of no types.
nothing-IsDistinct : IsDistinct {A = List ℕ} []
unfolding IsDistinct entry
nothing-IsDistinct p q a h k = absurd (cc)

abbrev main_name : List ℕ
main_name = b'm' ∷ b'a' ∷ b'i' ∷ b'n' ∷ []

abbrev other_name : List ℕ
other_name = b'i' ∷ []

intern_iff_example :
    let (p, strings') = intern main_name [] in
    let (q, strings'') = intern other_name strings' in
    ((p ≡ q) ↔ (main_name ≡ other_name))
    × (entry strings'' p ≡ some main_name)
    × (entry strings'' q ≡ some other_name)
    × IsDistinct strings''
intern_iff_example = intern_iff main_name other_name [] nothing-IsDistinct

void_only-IsDistinct : IsDistinct (void ∷ [])
unfolding IsDistinct entry
void_only-IsDistinct p q a h k =
    let before = entry-lt (void ∷ []) p a h in
    let before' = entry-lt (void ∷ []) q a k in omega arith

intern_ty-IsTree_example :
    let (p, tys') = intern_ty (ptr 0) (void ∷ []) in
    IsTree tys' p (Ty.ptr Ty.void)
    × ((q : ℕ) (u : Ty) → IsTree (void ∷ []) q u → IsTree tys' q u)
    × IsDistinct tys'
    × ((q : ℕ) (u : Ty) → IsTree (void ∷ []) q u → (p ≡ q) ↔ (Ty.ptr Ty.void ≡ u))
unfolding IsTree entry
intern_ty-IsTree_example =
    intern_ty-IsTree (void ∷ []) (ptr 0) (Ty.ptr Ty.void) void_only-IsDistinct refl

abbrev start : Pos
start = record { line = 1; col = 1 }

-- `42;`
abbrev number_text : List ℕ
number_text = b'4' ∷ b'2' ∷ b';' ∷ []

abbrev at_start : Lexer.Lex
at_start = Lexer.init_lex number_text

lex-Leaves_example : Leaves left_of 2 (Lexer.lex at_start)
unfolding Lexer.init_lex Lexer.until_eof
lex-Leaves_example = lex-Leaves at_start

lex-AreDigits_example :
    Lexer.lex (state ((b'4' ∷ b'2' ∷ []) ++ b';' ∷ []) start [])
    ≡ ok (number_token (b'4' ∷ b'2' ∷ []) (b';' ∷ []) start 42)
unfolding smolcc.Compiler.Misc.Decimal.value_from
lex-AreDigits_example =
    lex-AreDigits b'4' (b'2' ∷ []) (b';' ∷ []) start [] (omega arith) (omega arith) (omega arith)
      (refl, refl, refl, refl, refl)

-- The array as it is at the start, and a file that `read` gives in two pieces.
abbrev zeros_of : ℕ → List ℕ
zeros_of zero = []
zeros_of (suc n) = 0 ∷ zeros_of n

abbrev two_pieces : Reader
two_pieces = record {
  rdbuf = zeros_of rdbuf_cap;
  rdbuf_len = 0;
  rdbuf_pos = 0;
  pieces = (b'h' ∷ []) ∷ (b'i' ∷ []) ∷ [];
}

two_pieces-IsReader : IsReader two_pieces
two_pieces-IsReader = record {
  within = omega arith;
  filled = omega arith;
  whole = refl;
  pieces = omega arith;
}

read_chr-Reads_example : Reads (b'h' ∷ b'i' ∷ []) (read_chr two_pieces)
read_chr-Reads_example = read_chr-Reads two_pieces two_pieces-IsReader

lex-write_uint_example :
    Lexer.lex (state (write_uint max_digits 4096 ++ b';' ∷ []) start [])
    ≡ ok (number_token (write_uint max_digits 4096) (b';' ∷ []) start 4096)
lex-write_uint_example =
    lex-write_uint 4096 (b';' ∷ []) start [] (omega arith) (refl, refl, refl, refl, refl)
