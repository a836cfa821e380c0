-- ===== src/Compiler/Parser/Budget/Steps.antt =====
-- What the steps of the parser of compiler/smolcc1.c that its grammar is made of leave of their input.
use smolcc.Base.{
  ℕ, suc, ◌+◌, ◌-◌, ◌<◌, ◌≤◌, ◌≡◌, ◌≢◌, refl, Bool, true, false, List, [], ◌∷◌, Option, none, some,
  length, String, if◌then◌else◌, arith,
}
use smolcc.Compiler.Outcome.{Pos, Outcome, ok, err_at, die, NoAbort, ◌>>=◌ as bind}
use smolcc.Compiler.Symbols.Declare.{Declaration, Table, set_sym, redeclare, declare, add_sym}
use smolcc.Compiler.Types.{Sym}
use smolcc.Compiler.Elab.Node.{Env}
use smolcc.Compiler.Lexer
use smolcc.Compiler.Lexer.{TokKind, Token, Lex}
use smolcc.Compiler.Lexer.Consumed.{LeavesAt, left, left_of, lex-Leaves}
use smolcc.Compiler.Parser.Grammar.Parts.{is_some}
use smolcc.Compiler.Parser.Monad
use smolcc.Compiler.Parser.Monad.{
  Parse, Run, ended, Parser, after, ◌>>=◌, ◌>>◌, pure, get, modify, lift, fail, check, next_tok, at,
  eat, expect, is, p_ident, tok_pos, push_scope, pop_scope, elab, env_of, update, declare_sym,
  lookup_sym, codes, is_wrd,
}
use smolcc.Compiler.Parser.Budget.{
  ElabDies, weight_of, weight, size, Ends, Keeps, Eats, Ends-after, Ends-more, Keeps-pure,
  Keeps-lift, Eats-fail, Eats-Keeps, Keeps-bind, Eats-bind, Keeps-check,
}

-- A change of what is not input.
pub Keeps-modify :
    {n : ℕ} (f : Parse → Parse) → ((p : Parse) → size (f p) ≡ size p) → Keeps n (modify f)
unfolding modify
Keeps-modify f e = record { on = λ p h. record { holds = omega (arith, e p) } }

pub push_scope-Keeps : {n : ℕ} → Keeps n push_scope
unfolding push_scope modify
push_scope-Keeps = Keeps-modify (λ p. record p { scopes = [] ∷ p.scopes }) λ p. refl

pub pop_scope-Keeps : {n : ℕ} → Keeps n pop_scope
unfolding pop_scope modify
pop_scope-Keeps = Keeps-modify (λ p. record p { scopes = Monad.outer p.scopes }) λ p. refl

pub update-Keeps : {n : ℕ} (s : ℕ) (f : Sym → Sym) → Keeps n (update s f)
unfolding update
update-Keeps s f = Keeps-modify (λ p. record p { syms = set_sym p.syms s (f (p.syms s)) }) λ p. refl

pub Keeps-elab :
    {A : Type 0} {n : ℕ} (f : Env → Outcome A)
    → ((env : Env) (m : String) → f env ≡ die m → ElabDies m)
    → Keeps n (elab f)
unfolding elab
Keeps-elab f d = record { on = λ p h. (Keeps-lift (f (env_of p)) (d (env_of p))).on p h }

-- What reads the state but not the input.
pub Keeps-read : {A : Type 0} {n : ℕ} (f : Parse → A) → Keeps n (λ p. ended (ok (f p, p)))
Keeps-read f = record { on = λ p h. record { holds = omega arith } }

pub weight_cases : (k : TokKind) (text : List ℕ) → text ≢ [] → weight_of k text ≡ 1
weight_cases TokKind.eof [] h = absurd (h refl)
weight_cases TokKind.eof (c ∷ text) h = refl
weight_cases TokKind.num text h = refl
weight_cases TokKind.wrd text h = refl
weight_cases TokKind.str text h = refl
weight_cases TokKind.chr text h = refl
weight_cases TokKind.sym text h = refl

weight_most : (k : TokKind) (text : List ℕ) → weight_of k text ≤ 1
weight_most TokKind.eof [] = omega arith
weight_most TokKind.eof (c ∷ text) = omega arith
weight_most TokKind.num text = omega arith
weight_most TokKind.wrd text = omega arith
weight_most TokKind.str text = omega arith
weight_most TokKind.chr text = omega arith
weight_most TokKind.sym text = omega arith

-- A token that is the word `t` weighs something, unless the word is empty.
pub weight_word : (t : Token) (w : String) → is [] w ≡ false → is t.text w ≡ true → weight t ≡ 1
weight_word t w e h = weight_cases t.kind t.text (λ z. absurd (cc))

-- What `lex` gives weighs at most as much as it read.
abbrev lexed : Token × Lex → ℕ
lexed r = weight r.0 + length r.1.rest

weigh_in : (n k : ℕ) (o : Outcome (Token × Lex)) → n < k → LeavesAt left_of n o → LeavesAt lexed k o
weigh_in n k (ok (t, l)) h e = let w = weight_most t.kind t.text in omega arith
weigh_in n k (err_at pos m) h e = tt
weigh_in n k (die m) h e = e

lex_from : (l : Lex) (rest : List ℕ) → l.rest ≡ rest → LeavesAt lexed (length rest) (Lexer.lex l)
unfolding Lexer.lex Lexer.lex_rounds
lex_from l [] e = rw e (omega arith)
lex_from l (c ∷ rest) e =
    let some_left : left l ≡ suc (length rest) = rw e refl in
    weigh_in (left l - 1) (suc (length rest)) (Lexer.lex l) (omega arith) (lex-Leaves l).holds

moved_in :
    (p : Parse) (o : Outcome (Token × Lex)) (n : ℕ)
    → LeavesAt lexed n o
    → Ends (suc n) (ended (Monad.moved p o))
moved_in p (ok (t, l)) n h = record { holds = omega arith }
moved_in p (err_at pos m) n h = record { holds = tt }
moved_in p (die m) n h = absurd h

pub next_tok-Ends : (p : Parse) → Ends (suc (length p.lexer.rest)) (next_tok p)
unfolding next_tok
next_tok-Ends p = moved_in p (Lexer.lex p.lexer) _ (lex_from p.lexer p.lexer.rest refl)

-- The next token is read after one that weighs something.
pub next_tok-bind :
    {A : Type 0} {n : ℕ} (m : Parser A) (p : Parse)
    → size p ≤ n
    → weight p.tok ≡ 1
    → ((k : ℕ) → k < n → Keeps k m)
    → Ends (size p) ((next_tok >> m) p)
next_tok-bind m p h w km =
    Ends-after (next_tok-Ends p)
      λ a q l. Ends-more (omega arith) ((km (size q) (omega arith)).on q (omega arith))

after_pure :
    {A B C : Type 0} (b : B) (r : Run (C × Parse)) (f : B → Parser A)
    → after (after r (λ c q. ended (ok (b, q)))) f ≡ after r (λ c q. f b q)
after_pure b (ended (ok (c, q))) f = refl
after_pure b (ended (err_at pos m)) f = refl
after_pure b (ended (die m)) f = refl
after_pure b Run.out_of_fuel f = refl

-- The value that a step gives after it has read on.
read_on :
    {A B : Type 0} {n : ℕ} (b : B) (f : B → Parser A) (p : Parse)
    → size p ≤ n
    → weight p.tok ≡ 1
    → ((k : ℕ) → k < n → Keeps k (f b))
    → Ends (size p) (after ((next_tok >> pure b) p) f)
unfolding next_tok Lexer.lex Lexer.lex_rounds pure
read_on b f p h w km = rw (after_pure b (next_tok p) f) (next_tok-bind (f b) p h w km)

eat_at :
    {A : Type 0} {n k : ℕ} (b : Bool) (f : Bool → Parser A) (p : Parse)
    → size p ≤ k
    → size p ≤ n
    → (b ≡ true → weight p.tok ≡ 1)
    → ((j : ℕ) → j < k → Keeps j (f true))
    → Ends n (f false p)
    → Ends n (after (if b then (next_tok >> pure true) p else ended (ok (false, p))) f)
eat_at true f p h l w kt e = Ends-more l (read_on true f p h (w refl) kt)
eat_at false f p h l w kt e = e

module _ {A : Type 0} {n : ℕ} (w : String) (f : Bool → Parser A) (named : is [] w ≡ false) where
  -- A word that may be next.
  pub Keeps-eat : ((k : ℕ) → k < n → Keeps k (f true)) → Keeps n (f false) → Keeps n (eat w >>= f)
  unfolding eat is
  Keeps-eat kt kf = record {
    on = λ p h.
        eat_at (is p.tok.text w) f p h (omega arith) (weight_word p.tok w named) kt (kf.on p h);
  }

  pub Eats-eat : ((k : ℕ) → k < n → Keeps k (f true)) → Eats n (f false) → Eats n (eat w >>= f)
  unfolding eat is
  Eats-eat kt kf = record {
    on = λ p h.
        eat_at (is p.tok.text w) f p h (omega arith) (weight_word p.tok w named) kt (kf.on p h);
  }

eat_only_at :
    (b : Bool) (p : Parse)
    → (b ≡ true → weight p.tok ≡ 1)
    → Ends (suc (size p)) (if b then (next_tok >> pure true) p else ended (ok (false, p)))
eat_only_at true p w =
    Ends-more {n = size p} (omega arith)
      (next_tok-bind {n = size p} (pure true) p (omega arith) (w refl) λ k l. Keeps-pure _)
eat_only_at false p w = record { holds = omega arith }

pub eat-Keeps : {n : ℕ} (w : String) → is [] w ≡ false → Keeps n (eat w)
unfolding eat is
eat-Keeps w named = record {
  on = λ p h. eat_only_at (is p.tok.text w) p (weight_word p.tok w named);
}

pub expect-Eats : {n : ℕ} (w : String) → is [] w ≡ false → Eats n (expect w)
unfolding expect check fail
expect-Eats w named = record {
  on = λ p h.
      (Eats-eat w (λ b. check b p.tok.pos "expected '%s'") named
          (λ k l. Keeps-check true p.tok.pos "expected '%s'")
          (Eats-fail p.tok.pos "expected '%s'")).on
        p h;
}

pub expect-Keeps : {n : ℕ} (w : String) → is [] w ≡ false → Keeps n (expect w)
expect-Keeps w named = Eats-Keeps (expect-Eats w named)

-- The word that is expected, and then a step on less.
pub expect-bind :
    {A : Type 0} {n : ℕ} {m : Parser A} (w : String)
    → is [] w ≡ false
    → ((k : ℕ) → k < n → Keeps k m)
    → Eats n (expect w >> m)
expect-bind w named km = Eats-bind (expect-Eats w named) λ k l _. km k l

pub expect_then :
    {A : Type 0} {n : ℕ} {m : Parser A} (w : String)
    → is [] w ≡ false
    → Keeps n m
    → Keeps n (expect w >> m)
expect_then w named km = Keeps-bind (expect-Keeps w named) λ _. km

pub at-Keeps : {n : ℕ} (w : String) → Keeps n (at w)
unfolding at
at-Keeps w = Keeps-read (λ p. is p.tok.text w)

pub tok_pos-Keeps : {n : ℕ} → Keeps n tok_pos
unfolding tok_pos
tok_pos-Keeps = Keeps-read (λ p. p.tok.pos)

p_ident_at :
    {n : ℕ} (p : Parse) (b : Bool)
    → size p ≤ n
    → (b ≡ true → weight p.tok ≡ 1)
    → Ends (size p) (
        if b
        then (next_tok >> pure p.tok.text) p
        else ended (err_at p.tok.pos "expected identifier"))
p_ident_at p true h w = next_tok-bind (pure p.tok.text) p h (w refl) λ k l. Keeps-pure _
p_ident_at p false h w = record { holds = tt }

weight_wrd : (k : TokKind) (text : List ℕ) → is_wrd k ≡ true → weight_of k text ≡ 1
weight_wrd TokKind.wrd text h = refl
weight_wrd TokKind.eof text h = absurd (cc)
weight_wrd TokKind.num text h = absurd (cc)
weight_wrd TokKind.str text h = absurd (cc)
weight_wrd TokKind.chr text h = absurd (cc)
weight_wrd TokKind.sym text h = absurd (cc)

pub p_ident-Eats : {n : ℕ} → Eats n p_ident
unfolding p_ident
p_ident-Eats = record {
  on = λ p h. p_ident_at p (is_wrd p.tok.kind) h (weight_wrd p.tok.kind p.tok.text);
}

redeclare-NoAbort : (d : Declaration) (sym : Sym) → NoAbort (redeclare d sym)
unfolding redeclare
redeclare-NoAbort d sym = ground arith

redeclared :
    (s : ℕ) (t : Table) (o : Outcome Sym)
    → NoAbort o
    → NoAbort {A = ℕ × Table} (bind o (λ sym. ok (s, record t { syms = set_sym t.syms s sym })))
redeclared s t (ok sym) h = tt
redeclared s t (err_at pos m) h = tt
redeclared s t (die m) h = h

found-NoAbort :
    (d : Declaration) (t : Table) (found : Option ℕ)
    → NoAbort {A = ℕ × Table} (elim found [
      | some s ↦
          bind (redeclare d (t.syms s)) (λ sym. ok (s, record t { syms = set_sym t.syms s sym }))
      | none ↦ ok (add_sym d t)
    ])
found-NoAbort d t none = tt
found-NoAbort d t (some s) =
    redeclared s t (redeclare d (t.syms s)) (redeclare-NoAbort d (t.syms s))

declare-NoAbort : (d : Declaration) (t : Table) → NoAbort (declare d t)
unfolding declare
declare-NoAbort d t = found-NoAbort d t _

declared_in :
    (p : Parse) (o : Outcome (ℕ × Table))
    → NoAbort o
    → Ends (suc (size p)) (ended (Monad.declared p o))
declared_in p (ok r) h = record { holds = omega arith }
declared_in p (err_at pos m) h = record { holds = tt }
declared_in p (die m) h = absurd h

pub declare_sym-Keeps : {n : ℕ} (d : Declaration) → Keeps n (declare_sym d)
unfolding declare_sym
declare_sym-Keeps d = record { on = λ p h. declared_in p _ (declare-NoAbort d _) }

pub lookup_sym-Keeps : {n : ℕ} (b : Bool) (name : Option (List ℕ)) → Keeps n (lookup_sym b name)
unfolding lookup_sym
lookup_sym-Keeps b name = Keeps-read _

pub check-Ends :
    {A : Type 0} {n : ℕ} (b : Bool) (pos : Pos) (s : String) (m : Parser A) (p : Parse)
    → Ends n (m p)
    → Ends n ((check b pos s >> m) p)
unfolding check
check-Ends true pos s m p e = e
check-Ends false pos s m p e = record { holds = tt }

-- A branch on what the token may begin.
pub Ends-word :
    {X A : Type 0} {n : ℕ} (o : Option X) (m : Parser A) (f : X → Parser A) (p : Parse)
    → size p ≤ n
    → (is_some o ≡ true → weight p.tok ≡ 1)
    → ((x : X) (k : ℕ) → k < n → Keeps k (f x))
    → Keeps n m
    → Ends (suc (size p)) (elim o [ none ↦ m p | some x ↦ (next_tok >> f x) p ])
Ends-word none m f p h w kf km = km.on p h
Ends-word (some x) m f p h w kf km =
    Ends-more (omega arith) (next_tok-bind (f x) p h (w refl) (kf x))
