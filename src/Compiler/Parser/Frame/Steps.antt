-- ===== src/Compiler/Parser/Frame/Steps.antt =====
-- The steps that the grammar of compiler/smolcc1.c is made of, and the contexts that they lead to.
use smolcc.Base.{
  ℕ, suc, ◌≡◌, ◌∙◌, refl, ap, Bool, true, false, List, [], ◌∷◌, Option, length, String,
  if◌then◌else◌,
}
use smolcc.Compiler.Outcome.{Pos, Outcome, ok, err_at, die}
use smolcc.Compiler.Types.{Sym}
use smolcc.Compiler.Symbols.Declare.{Declaration, Table}
use smolcc.Compiler.Elab.Node.{Env}
use smolcc.Compiler.Lexer.{Token, Lex}
use smolcc.Compiler.Parser.Monad
use smolcc.Compiler.Parser.Monad.{
  Parse, Parser, ended, ◌>>=◌, ◌>>◌, pure, get, modify, lift, fail, check, next_tok, at, eat,
  expect, is, is_wrd, p_ident, tok_pos, push_scope, pop_scope, declare_sym, lookup_sym, update,
  env_of, elab, outer, set_curr_scope,
}
use smolcc.Compiler.Parser.Frame.{
  Context, InContext, GivesIn, Moves, Any, Stays, Stays-bind, Moves-Any,
}

abbrev pub deeper : Context → Context
deeper k = record k { depth = suc k.depth }

abbrev pub looped : Bool → Context → Context
looped b k = record k { loop = b }

abbrev pub in_func : Option ℕ → Context → Context
in_func f k = record k { func = f }

length-outer : (scopes : List (List ℕ)) (n : ℕ) → length scopes ≡ suc n → length (outer scopes) ≡ n
length-outer [] n e = absurd (cc)
length-outer (s ∷ scopes) n e = cc

length-set_curr_scope :
    (scope : List ℕ) (scopes : List (List ℕ)) → length (set_curr_scope scope scopes) ≡ length scopes
length-set_curr_scope scope [] = refl
length-set_curr_scope scope (s ∷ scopes) = refl

module _ {k : Context} where
  pub gives : {A : Type 0} {P : A → Type 0} (a : A) → P a → Moves k k P (pure a)
  unfolding pure
  gives a h = record { on = λ p c. record { holds = (c, h) } }

  pub Stays-pure : {A : Type 0} (a : A) → Stays k (pure a)
  Stays-pure a = gives a tt

  pub Moves-fail :
      {A : Type 0} {j : Context} {P : A → Type 0} (pos : Pos) (m : String)
      → Moves k j P (fail pos m)
  unfolding fail
  Moves-fail pos m = record { on = λ p c. record { holds = tt } }

  pub Stays-lift : {A : Type 0} (o : Outcome A) → Stays k (lift o)
  unfolding lift
  Stays-lift (ok a) = record { on = λ p c. record { holds = (c, tt) } }
  Stays-lift (err_at pos m) = record { on = λ p c. record { holds = tt } }
  Stays-lift (die m) = record { on = λ p c. record { holds = tt } }

  pub Stays-elab : {A : Type 0} (f : Env → Outcome A) → Stays k (elab f)
  unfolding elab
  Stays-elab f = record { on = λ p c. (Stays-lift (f (env_of p))).on p c }

  -- A check holds after it.
  pub Moves-check : (b : Bool) (pos : Pos) (m : String) → Moves k k (λ _. b ≡ true) (check b pos m)
  unfolding check
  Moves-check true pos m = record { on = λ p c. record { holds = (c, refl) } }
  Moves-check false pos m = record { on = λ p c. record { holds = tt } }

  pub Stays-check : (b : Bool) (pos : Pos) (m : String) → Stays k (check b pos m)
  Stays-check b pos m = Moves-Any (Moves-check b pos m)

  pub Moves-get : Moves k k (InContext k) get
  unfolding get
  Moves-get = record { on = λ p c. record { holds = (c, c) } }

  -- What reads the state and no token.
  Stays-read : {A : Type 0} (f : Parse → A) → Stays k (λ p. ended (ok (f p, p)))
  Stays-read f = record { on = λ p c. record { holds = (c, tt) } }

  pub Stays-at : (w : String) → Stays k (at w)
  unfolding at
  Stays-at w = Stays-read (λ p. is p.tok.text w)

  pub Stays-tok_pos : Stays k tok_pos
  unfolding tok_pos
  Stays-tok_pos = Stays-read (λ p. p.tok.pos)

  pub Stays-lookup_sym : (b : Bool) (name : Option (List ℕ)) → Stays k (lookup_sym b name)
  unfolding lookup_sym
  Stays-lookup_sym b name = Stays-read _

  pub Stays-get : Stays k get
  Stays-get = Moves-Any Moves-get

  pub Moves-modify :
      {j : Context} (f : Parse → Parse)
      → ((p : Parse) → InContext k p → InContext j (f p))
      → Moves k j Any (modify f)
  unfolding modify
  Moves-modify f h = record { on = λ p c. record { holds = (h p c, tt) } }

  pub Stays-update : (s : ℕ) (f : Sym → Sym) → Stays k (update s f)
  unfolding update modify
  Stays-update s f = record {
    on = λ p c. record {
      holds = (record { depth = c.depth; loop = c.loop; func = c.func; bodies = c.bodies }, tt);
    };
  }

  pub Moves-push_scope : Moves k (deeper k) Any push_scope
  unfolding push_scope
  Moves-push_scope =
      Moves-modify _
        λ p c. record { depth = ap suc c.depth; loop = c.loop; func = c.func; bodies = c.bodies }

  pub Moves-pop_scope : Moves (deeper k) k Any pop_scope
  unfolding pop_scope modify
  Moves-pop_scope = record {
    on = λ p c. record {
      holds = (
        record {
          depth = length-outer p.scopes k.depth c.depth;
          loop = c.loop;
          func = c.func;
          bodies = c.bodies;
        },
        tt,
      );
    };
  }

  declared_in :
      (p : Parse)
      → InContext k p
      → (o : Outcome (ℕ × Table)) → GivesIn k Any (ended (Monad.declared p o))
  declared_in p c (ok (s, t)) = record {
    holds = (
      record {
        depth = length-set_curr_scope t.curr_scope p.scopes ∙ c.depth;
        loop = c.loop;
        func = c.func;
        bodies = c.bodies;
      },
      tt,
    );
  }
  declared_in p c (err_at pos m) = record { holds = tt }
  declared_in p c (die m) = record { holds = tt }

  pub Stays-declare_sym : (d : Declaration) → Stays k (declare_sym d)
  unfolding declare_sym
  Stays-declare_sym d = record { on = λ p c. declared_in p c _ }

  moved_in :
      (p : Parse)
      → InContext k p
      → (o : Outcome (Token × Lex)) → GivesIn k Any (ended (Monad.moved p o))
  moved_in p c (ok (t, l)) = record {
    holds = (record { depth = c.depth; loop = c.loop; func = c.func; bodies = c.bodies }, tt);
  }
  moved_in p c (err_at pos m) = record { holds = tt }
  moved_in p c (die m) = record { holds = tt }

  pub Stays-next_tok : Stays k next_tok
  unfolding next_tok
  Stays-next_tok = record { on = λ p c. moved_in p c _ }

pub if_in :
    {A : Type 0} {k : Context} {P : A → Type 0} (b : Bool) {x y : Parser A} (p : Parse)
    → InContext k p
    → Moves k k P x
    → Moves k k P y
    → GivesIn k P (if b then x p else y p)
if_in true p c gx gy = gx.on p c
if_in false p c gx gy = gy.on p c

module _ {k : Context} where
  pub Stays-eat : (w : String) → Stays k (eat w)
  unfolding eat pure
  Stays-eat w = record {
    on = λ p c.
        if_in (is p.tok.text w) p c (Stays-bind Stays-next_tok λ _. Stays-pure true)
          (Stays-pure false);
  }

  pub Stays-expect : (w : String) → Stays k (expect w)
  unfolding expect
  Stays-expect w = record {
    on = λ p c. (Stays-bind (Stays-eat w) λ found. Stays-check found p.tok.pos _).on p c;
  }

  pub Stays-p_ident : Stays k p_ident
  unfolding p_ident pure fail
  Stays-p_ident = record {
    on = λ p c.
        if_in (is_wrd p.tok.kind) p c (Stays-bind Stays-next_tok λ _. Stays-pure p.tok.text)
          (Moves-fail p.tok.pos "expected identifier");
  }

  -- A word, and then a step.
  pub expect_next :
      {A : Type 0} {j : Context} {P : A → Type 0} {m : Parser A} (w : String)
      → Moves k j P m
      → Moves k j P (expect w >> m)
  expect_next w g = Stays-bind (Stays-expect w) λ _. g

-- A branch on the state.
pub Gives-get :
    {A : Type 0} {k j : Context} {P : A → Type 0} (f : Parse → Parser A)
    → ((p : Parse) → InContext k p → GivesIn j P (f p p))
    → Moves k j P (get >>= f)
unfolding get
Gives-get f g = record { on = g }

pub if_at :
    {A : Type 0} {k : Context} {P : A → Type 0} (b : Bool) (x : Parser A) {y : Parser A} (p : Parse)
    → InContext k p
    → (b ≡ true → GivesIn k P (x p))
    → Moves k k P y
    → GivesIn k P ((if b then x else y) p)
if_at true x p c gx gy = gx refl
if_at false x p c gx gy = gy.on p c
