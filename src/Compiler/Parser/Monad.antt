-- ===== src/Compiler/Parser/Monad.antt =====
-- The state of the parser of compiler/smolcc1.c, its steps, and the words of its grammar, `at` to
-- `p_ident`, with `push_scope` and `pop_scope`.
use Prim.Native.Char.{code}
use Prim.Native.String.{String}
use smolcc.Base.{ℕ, Bool, true, false, List, [], ◌∷◌, Option, if◌then◌else◌}
use smolcc.Compiler.Outcome.{Pos, Outcome, ok, err_at, die}
use smolcc.Compiler.Types.{Sym, Syms}
use smolcc.Compiler.Stmt.{Stmt}
use smolcc.Compiler.Symbols.{same_name, lookup}
use smolcc.Compiler.Symbols.Declare
use smolcc.Compiler.Symbols.Declare.{Table, Declaration, set_sym}
use smolcc.Compiler.Elab.Node.{Env}
use smolcc.Compiler.Lexer
use smolcc.Compiler.Lexer.{Token, Lex, TokKind}

-- `tok` and its kin, the lexer's state, the symbols and how many there are, the scopes from the
-- innermost outwards, `curr_func`, whether `curr_loop` is set, and `sym->body` of the functions.
pub record Parse : Type 0 where
  pub tok : Token
  pub lexer : Lex
  pub syms : Syms
  pub n_syms : ℕ
  pub scopes : List (List ℕ)
  pub curr_func : Option ℕ
  pub in_loop : Bool
  pub bodies : List (ℕ × Stmt)

-- How a step ends. `out_of_fuel` has no counterpart in the source.
pub data Run (A : Type 0) : Type 0 where
  ended : Outcome A → Run A
  out_of_fuel : Run A

abbrev pub Parser : Type 0 → Type 0
Parser A = Parse → Run (A × Parse)

abbrev pub after : {A B : Type 0} → Run (A × Parse) → (A → Parser B) → Run (B × Parse)
after (ended (ok (a, p))) f = f a p
after (ended (err_at pos m)) f = ended (err_at pos m)
after (ended (die m)) f = ended (die m)
after out_of_fuel f = out_of_fuel

infixl 5 ◌>>=◌ ◌>>◌
abbrev pub ◌>>=◌ : {A B : Type 0} → Parser A → (A → Parser B) → Parser B
(m >>= f) p = after (m p) f

abbrev pub ◌>>◌ : {A B : Type 0} → Parser A → Parser B → Parser B
m >> k = m >>= λ _. k

unfoldable pub pure : {A : Type 0} → A → Parser A
pure a p = ended (ok (a, p))

-- A step without fuel.
abbrev pub starved : {A : Type 0} → Parser A
starved p = out_of_fuel

-- The state as it is.
unfoldable pub get : Parser Parse
get p = ended (ok (p, p))

unfoldable pub modify : (Parse → Parse) → Parser (Unit {0})
modify f p = ended (ok (tt, f p))

abbrev keep : {A : Type 0} → Parse → Outcome A → Outcome (A × Parse)
keep p (ok a) = ok (a, p)
keep p (err_at pos m) = err_at pos m
keep p (die m) = die m

-- A step that does not read tokens.
unfoldable pub lift : {A : Type 0} → Outcome A → Parser A
lift m p = ended (keep p m)

unfoldable pub fail : {A : Type 0} → Pos → String → Parser A
fail pos m p = ended (err_at pos m)

-- `if (!condition) err_at(pos, message);`
unfoldable pub check : Bool → Pos → String → Parser (Unit {0})
check c pos m p = if c then ended (ok (tt, p)) else ended (err_at pos m)

-- The bytes of a word of the grammar, which are ASCII.
abbrev pub codes : String → List ℕ
codes String.[] = []
codes (String.◌∷◌ c s) = code c ∷ codes s

-- `str_eq(tok_str, t)`
unfoldable pub is : List ℕ → String → Bool
unfolding same_name
is text t = same_name text (codes t)

abbrev pub moved : Parse → Outcome (Token × Lex) → Outcome (Unit {0} × Parse)
moved p (ok (t, s)) = ok (tt, record p { tok = t; lexer = s })
moved p (err_at pos m) = err_at pos m
moved p (die m) = die m

-- `lex()`
unfoldable pub next_tok : Parser (Unit {0})
next_tok p = ended (moved p (Lexer.lex p.lexer))

unfoldable pub at : String → Parser Bool
at t p = ended (ok (is p.tok.text t, p))

unfoldable pub eat : String → Parser Bool
eat t p = if is p.tok.text t then (next_tok >> pure true) p else ended (ok (false, p))

unfoldable pub expect : String → Parser (Unit {0})
expect t p = (do found ← eat t; check found p.tok.pos "expected '%s'") p

abbrev pub is_wrd : TokKind → Bool
is_wrd TokKind.wrd = true
is_wrd _ = false

unfoldable pub p_ident : Parser (List ℕ)
p_ident p =
    if is_wrd p.tok.kind
    then (next_tok >> pure p.tok.text) p
    else ended (err_at p.tok.pos "expected identifier")

unfoldable pub tok_pos : Parser Pos
tok_pos p = ended (ok (p.tok.pos, p))

unfoldable pub push_scope : Parser (Unit {0})
push_scope = modify λ p. record p { scopes = [] ∷ p.scopes }

abbrev pub outer : List (List ℕ) → List (List ℕ)
outer [] = []
outer (scope ∷ scopes) = scopes

unfoldable pub pop_scope : Parser (Unit {0})
pop_scope = modify λ p. record p { scopes = outer p.scopes }

abbrev pub curr_scope : List (List ℕ) → List ℕ
curr_scope [] = []
curr_scope (scope ∷ scopes) = scope

abbrev pub set_curr_scope : List ℕ → List (List ℕ) → List (List ℕ)
set_curr_scope scope [] = []
set_curr_scope scope (s ∷ scopes) = scope ∷ scopes

abbrev pub set_table : Parse → Table → Parse
set_table p t = record p {
  syms = t.syms;
  n_syms = t.n_syms;
  scopes = set_curr_scope t.curr_scope p.scopes;
}

abbrev pub declared : Parse → Outcome (ℕ × Table) → Outcome (ℕ × Parse)
declared p (ok (s, t)) = ok (s, set_table p t)
declared p (err_at pos m) = err_at pos m
declared p (die m) = die m

unfoldable pub declare_sym : Declaration → Parser ℕ
declare_sym d p = ended (
    declared p (
      Declare.declare d
        (record { syms = p.syms; n_syms = p.n_syms; curr_scope = curr_scope p.scopes })))

unfoldable pub lookup_sym : Bool → Option (List ℕ) → Parser (Option ℕ)
lookup_sym is_struct name p = ended (ok (lookup p.syms p.scopes is_struct name, p))

-- A change of what a symbol holds.
unfoldable pub update : ℕ → (Sym → Sym) → Parser (Unit {0})
update s f = modify λ p. record p { syms = set_sym p.syms s (f (p.syms s)) }

-- What elaboration reads.
abbrev pub env_of : Parse → Env
env_of p = record { syms = p.syms; curr_func = p.curr_func }

-- Elaboration of an expression where the parser is.
unfoldable pub elab : {A : Type 0} → (Env → Outcome A) → Parser A
elab f p = lift (f (env_of p)) p
