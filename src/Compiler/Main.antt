-- ===== src/Compiler/Main.antt =====
-- main of compiler/smolcc1.c.
use smolcc.Base.{ℕ, List, []}
use smolcc.Compiler.Outcome.{Outcome, ok, err_at, die}
use smolcc.Compiler.Codegen.Instr.{Instr, Out}
use smolcc.Compiler.Codegen.Object.{emit_file}
use smolcc.Compiler.Parser.Monad.{Parse, Run, ended, out_of_fuel, curr_scope}
use smolcc.Compiler.Parser.Program.{parse_file}

-- The counters and labels before anything has been written.
abbrev pub no_code : Out
no_code = record { code = []; next_cond_id = 0; next_loop_id = 0; next_str_id = 0; str_labels = [] }

abbrev written : Outcome (Unit {0} × Out) → Outcome (List Instr)
written (ok (u, o)) = ok o.code
written (err_at pos m) = err_at pos m
written (die m) = die m

abbrev emit_read : List (List ℕ) → Run (Unit {0} × Parse) → Run (List Instr)
emit_read strings (ended (ok (u, p))) =
    ended (written (emit_file p.syms p.bodies (curr_scope p.scopes) strings no_code))
emit_read strings (ended (err_at pos m)) = ended (err_at pos m)
emit_read strings (ended (die m)) = ended (die m)
emit_read strings out_of_fuel = out_of_fuel

-- The code of a file, latest first. The table of strings, which gives the order of the literals, is an
-- argument.
unfoldable pub compile : ℕ → List ℕ → List (List ℕ) → Run (List Instr)
compile fuel input strings = emit_read strings (parse_file fuel input)
