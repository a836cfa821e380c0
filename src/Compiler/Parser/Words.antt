-- ===== src/Compiler/Parser/Words.antt =====
-- The end of the file begins no expression, no operator, no specifier and no statement but an expression.
use smolcc.Base.{ℕ, ◌≡◌, refl, Bool, true, false, List, [], ◌∷◌}
use smolcc.Compiler.Outcome.{Pos}
use smolcc.Compiler.Lexer.{TokKind, Token}
use smolcc.Compiler.Parser.Ops.{
  expr_start, infix_of, Specs, spec_of, StmtStart, expr_stmt, decl_stmt, stmt_start,
}
use smolcc.Compiler.Parser.Grammar.Parts.{is_some}
use smolcc.Compiler.Parser.Budget.{weight, weight_of}
use smolcc.Compiler.Parser.Budget.Steps.{weight_cases}

prefix_at :
    (k : TokKind) (pos : Pos) (text : List ℕ) (n : ℕ) (u l : Bool) (lit : List ℕ)
    → is_some
        (expr_start (record { kind = k; pos = pos; text = text; n = n; u = u; l = l; lit = lit }))
      ≡ true
    → weight_of k text ≡ 1
unfolding expr_start
prefix_at TokKind.eof pos [] n u l lit h = absurd (cc)
prefix_at TokKind.eof pos (c ∷ text) n u l lit h = refl
prefix_at TokKind.num pos text n u l lit h = refl
prefix_at TokKind.wrd pos text n u l lit h = refl
prefix_at TokKind.str pos text n u l lit h = refl
prefix_at TokKind.chr pos text n u l lit h = refl
prefix_at TokKind.sym pos text n u l lit h = refl

pub expr_start-weight : (t : Token) → is_some (expr_start t) ≡ true → weight t ≡ 1
expr_start-weight t h = prefix_at t.kind t.pos t.text t.n t.u t.l t.lit h

infix_at : (rbp : ℕ) (text : List ℕ) → text ≡ [] → is_some (infix_of rbp text) ≡ true → ⊥
unfolding infix_of
infix_at rbp [] e h = absurd (cc)
infix_at rbp (c ∷ text) e h = absurd (cc)

pub infix_of-weight : (rbp : ℕ) (t : Token) → is_some (infix_of rbp t.text) ≡ true → weight t ≡ 1
infix_of-weight rbp t h = weight_cases t.kind t.text λ e. infix_at rbp t.text e h

spec_at : (s : Specs) (text : List ℕ) → text ≡ [] → is_some (spec_of s text) ≡ true → ⊥
unfolding spec_of
spec_at s [] e h = absurd (cc)
spec_at s (c ∷ text) e h = absurd (cc)

pub spec_of-weight : (s : Specs) (t : Token) → is_some (spec_of s t.text) ≡ true → weight t ≡ 1
spec_of-weight s t h = weight_cases t.kind t.text λ e. spec_at s t.text e h

-- The statement begins with a word of its own.
abbrev pub has_word : StmtStart → Bool
has_word expr_stmt = false
has_word decl_stmt = false
has_word _ = true

start_at : (text : List ℕ) → text ≡ [] → has_word (stmt_start text) ≡ true → ⊥
unfolding stmt_start
start_at [] e h = absurd (cc)
start_at (c ∷ text) e h = absurd (cc)

pub stmt_start-weight : (t : Token) → has_word (stmt_start t.text) ≡ true → weight t ≡ 1
stmt_start-weight t h = weight_cases t.kind t.text λ e. start_at t.text e h
