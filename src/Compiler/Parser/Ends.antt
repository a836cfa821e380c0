-- ===== src/Compiler/Parser/Ends.antt =====
-- The compiler comes to the end of every input, with the fuel that its length asks for, and what it has
-- read then.
use smolcc.Base.{
  ℕ, zero, suc, ◌+◌, ◌*◌, ◌<◌, ◌≤◌, ◌≢◌, refl, Bool, true, false, List, [], ◌∷◌, none, length,
  arith, if◌then◌else◌, ◌==◌,
}
use smolcc.Compiler.Lexer.{until_eof}
use smolcc.Compiler.Parser.Monad.{Parse, Run, ended, out_of_fuel, Parser, pure}
use smolcc.Compiler.Parser.Grammar.Parts.{global_decl}
use smolcc.Compiler.Parser.Program.{is_eof, p_program, init_parse, parse_file}
use smolcc.Compiler.Parser.Budget.{
  ElabDies, size, Ends, Ends-after, Ends-more, Keeps, Keeps-pure, Eats-bind, Eats-Keeps, Keeps-bind,
}
use smolcc.Compiler.Parser.Budget.Steps.{next_tok-Ends, push_scope-Keeps}
use smolcc.Compiler.Parser.Fuel.{p_decl-Eats}
use smolcc.Compiler.Outcome.{ok, err_at, die}
use smolcc.Compiler.Parser.Frame.{Context, InContext, AreBodies, GivesIn, Any, Stays, Stays-bind}
use smolcc.Compiler.Parser.Frame.Steps.{Stays-pure, Stays-next_tok, Moves-push_scope, if_in}
use smolcc.Compiler.Parser.Frame.Grammar.{p_decl-Stays}

-- A step that ends is not out of fuel.
Ends-ne-out_of_fuel : {A : Type 0} {n : ℕ} (r : Run (A × Parse)) → Ends n r → r ≢ out_of_fuel
Ends-ne-out_of_fuel (Run.ended o) e h = absurd (cc)
Ends-ne-out_of_fuel Run.out_of_fuel e h = absurd e.holds

program_at :
    (b : Bool) {n : ℕ} {m : Parser (Unit {0})} (p : Parse)
    → size p ≤ n
    → Keeps n m
    → Ends (suc (size p)) (if b then pure tt p else m p)
program_at true p h k = (Keeps-pure tt).on p h
program_at false p h k = k.on p h

p_program-Keeps : (f n : ℕ) → 16 * n + 9 < f → Keeps n (p_program f)
unfolding p_program
p_program-Keeps zero n h = absurd (omega arith)
p_program-Keeps (suc f) n h = record {
  on = λ p l. program_at (is_eof p.tok.kind) p l (
      Eats-Keeps (
        Eats-bind (p_decl-Eats f n global_decl (omega arith))
          λ k lt _. p_program-Keeps f k (omega arith)));
}

length-cut :
    (b : Bool) (c : ℕ) {n : ℕ} (s : List ℕ)
    → length s ≤ n
    → length (if b then [] else c ∷ s) ≤ suc n
length-cut true c s h = omega arith
length-cut false c s h = omega arith

length-until_eof : (input : List ℕ) → length (until_eof input) ≤ length input
unfolding until_eof
length-until_eof [] = omega arith
length-until_eof (c ∷ input) = length-cut (c == 255) c _ (length-until_eof input)

init_parse-rest : (input : List ℕ) → length (init_parse input).lexer.rest ≤ length input
unfolding init_parse
init_parse-rest input = length-until_eof input

-- A file of `n` bytes is read to the end with sixteen units of fuel for each byte, and ten.
parse_file-Ends :
    (fuel : ℕ) (input : List ℕ)
    → 16 * length input + 9 < fuel
    → Ends (suc (length input)) (parse_file fuel input)
unfolding parse_file
parse_file-Ends fuel input h = Ends-after (next_tok-Ends (init_parse input)) λ _ p l.
    let most = init_parse-rest input in
    Ends-more (omega arith) (
      (Keeps-bind {n = length input} push_scope-Keeps
          λ _. p_program-Keeps fuel (length input) (omega arith)).on
        p (omega arith))

-- Reading a file does not run out of fuel if it has sixteen units for each byte of it, and ten.
pub parse_file-ne-out_of_fuel :
    (fuel : ℕ) (input : List ℕ) → 16 * length input + 9 < fuel → parse_file fuel input ≢ out_of_fuel
parse_file-ne-out_of_fuel fuel input h = Ends-ne-out_of_fuel _ (parse_file-Ends fuel input h)

-- The context of the file's declarations.
abbrev pub top : Context
top = record { depth = 1; loop = false; func = none }

abbrev IsReadAt : Run (Unit {0} × Parse) → Type 0
IsReadAt (ended (ok (u, p))) = InContext top p
IsReadAt (ended (err_at pos m)) = Unit
IsReadAt (ended (die m)) = ElabDies m
IsReadAt out_of_fuel = ⊥

-- The file has been read, with only its own scope left and no function or loop entered, and with every
-- break and continue of a function in a loop of it; or there is a diagnostic, or the `die` that the
-- elaboration of an expression comes to.
pub record IsRead (r : Run (Unit {0} × Parse)) : Type 0 where
  pub holds : IsReadAt r

both-IsRead : {n : ℕ} (r : Run (Unit {0} × Parse)) → Ends n r → GivesIn top Any r → IsRead r
both-IsRead (ended (ok (u, p))) e g = record { holds = g.holds.0 }
both-IsRead (ended (err_at pos m)) e g = record { holds = tt }
both-IsRead (ended (die m)) e g = record { holds = e.holds }
both-IsRead out_of_fuel e g = absurd e.holds

abbrev pub none_open : Context
none_open = record { depth = 0; loop = false; func = none }

p_program-Stays : (f : ℕ) → Stays top (p_program f)
unfolding p_program
p_program-Stays zero = record { on = λ p c. record { holds = tt } }
p_program-Stays (suc f) = record {
  on = λ p c. if_in (is_eof p.tok.kind) p c (Stays-pure tt) (
      Stays-bind (p_decl-Stays f top global_decl (λ e. record { loop = refl; func = refl }))
        λ _. p_program-Stays f);
}

-- Reading a file with sixteen units of fuel for each byte of it, and ten, ends. It gives a diagnostic of
-- err_at; or `die`, with the label with which the elaboration of some expression, or the evaluation of
-- some constant expression, gives it; or all scopes but that of the file are closed then, no function and
-- no loop is open, and each break and continue of the functions' bodies is in a loop.
pub parse_file-IsRead :
    (fuel : ℕ) (input : List ℕ) → 16 * length input + 9 < fuel → IsRead (parse_file fuel input)
unfolding parse_file AreBodies
parse_file-IsRead fuel input h =
    both-IsRead (parse_file fuel input) (parse_file-Ends fuel input h) (
      (Stays-bind {k = none_open} Stays-next_tok
          λ _. Stays-bind Moves-push_scope λ _. p_program-Stays fuel).on
        (init_parse input) (record { depth = refl; loop = refl; func = refl; bodies = tt }))
