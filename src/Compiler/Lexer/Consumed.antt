-- ===== src/Compiler/Lexer/Consumed.antt =====
-- Every step of the lexer reads on from where it was: what it leaves is the end of what it had.
use smolcc.Base.{
  ℕ, zero, suc, ◌-◌, ◌/◌, ◌<◌, ◌≤◌, ◌≡◌, refl, Bool, true, false, ◌&&◌, ◌||◌, not, String, List, [],
  ◌∷◌, ◌++◌, Option, none, some, length, ltb, ◌==◌, if◌then◌else◌, arith,
}
use smolcc.Compiler.Outcome.{Pos, Outcome, ok, err_at, die, require, ◌>>=◌, ◌>>◌}
use smolcc.Base.Word.{word64}
use smolcc.Compiler.Lexer

-- The step ends with a diagnostic, or leaves at most `n` characters; it does not abort, and with it
-- does not run out of fuel.
abbrev pub LeavesAt : {A : Type 0} → (A → ℕ) → ℕ → Outcome A → Type 0
LeavesAt size n (ok a) = size a ≤ n
LeavesAt size n (err_at p m) = Unit
LeavesAt size n (die m) = ⊥

pub record Leaves {A : Type 0} (size : A → ℕ) (n : ℕ) (m : Outcome A) : Type 0 where
  pub holds : LeavesAt size n m

abbrev pub left : Lexer.Lex → ℕ
left s = length s.rest

bind_at :
    {A B : Type 0} (f : A → ℕ) (g : B → ℕ) (n k : ℕ) (m : Outcome A) (h : A → Outcome B)
    → LeavesAt f n m
    → ((a : A) → f a ≤ n → Leaves g k (h a))
    → LeavesAt g k (m >>= h)
bind_at f g n k (ok a) h p q = (q a p).holds
bind_at f g n k (err_at e m) h p q = tt
bind_at f g n k (die m) h p q = absurd p

weaker_at :
    {A : Type 0} (f : A → ℕ) (n k : ℕ) (m : Outcome A) → n ≤ k → LeavesAt f n m → LeavesAt f k m
weaker_at f n k (ok a) h p = omega arith
weaker_at f n k (err_at e m) h p = tt
weaker_at f n k (die m) h p = p

module _ {A : Type 0} {f : A → ℕ} where
  Leaves-bind :
      {B : Type 0} {g : B → ℕ} {n k : ℕ} {m : Outcome A} {h : A → Outcome B}
      → Leaves f n m
      → ((a : A) → f a ≤ n → Leaves g k (h a))
      → Leaves g k (m >>= h)
  Leaves-bind {B} {g} {n} {k} {m} {h} p q = record { holds = bind_at f g n k m h p.holds q }

  Leaves-weaker : {n k : ℕ} {m : Outcome A} → n ≤ k → Leaves f n m → Leaves f k m
  Leaves-weaker {n} {k} {m} h p = record { holds = weaker_at f n k m h p.holds }

  Leaves-ok : {n : ℕ} (a : A) → f a ≤ n → Leaves f n (ok a)
  Leaves-ok a h = record { holds = h }

  Leaves-if :
      {n : ℕ} (b : Bool) {x y : Outcome A}
      → (b ≡ true → Leaves f n x)
      → (b ≡ false → Leaves f n y)
      → Leaves f n (if b then x else y)
  Leaves-if true p q = p refl
  Leaves-if false p q = q refl

  Leaves-require :
      {n : ℕ} (b : Bool) (p : Pos) (m : String) {x : Outcome A}
      → (b ≡ true → Leaves f n x)
      → Leaves f n (require b p m >> x)
  Leaves-require true p m h = h refl
  Leaves-require false p m h = record { holds = tt }

chr_is_left : (test : ℕ → Bool) (l : List ℕ) → Lexer.chr_is test l ≡ true → 0 < length l
chr_is_left test [] h = absurd (cc)
chr_is_left test (c ∷ l) h = omega arith

skip_from :
    (s : Lexer.Lex) (l : List ℕ) → s.rest ≡ l → length (Lexer.skip_chr_at l s).rest ≤ length l - 1
unfolding Lexer.skip_chr_at
skip_from s [] e = rw e (omega arith)
skip_from s (c ∷ l) e = omega arith

pub left-skip_chr : (s : Lexer.Lex) → left (Lexer.skip_chr s) ≤ left s - 1
left-skip_chr s = skip_from s s.rest refl

-- A step that gives a value beside the state.
abbrev pub left_of {ℓ} : {A : Type ℓ} → A × Lexer.Lex → ℕ
left_of r = left r.1

next_chr-Leaves : (s : Lexer.Lex) → Leaves left (left s - 1) (Lexer.next_chr s)
unfolding Lexer.next_chr
next_chr-Leaves s =
    Leaves-require (not (length s.text == Lexer.max_tok_len)) s.pos "token too long" (λ _.
      Leaves-ok (Lexer.skip_chr (record s { text = s.text ++ Lexer.head s.rest }))
        (left-skip_chr (record s { text = s.text ++ Lexer.head s.rest })))

eat_chr-Leaves : (c : ℕ) (s : Lexer.Lex) → Leaves left_of (left s) (Lexer.eat_chr c s)
unfolding Lexer.eat_chr
eat_chr-Leaves c s =
    Leaves-if _ (λ e. Leaves-bind (next_chr-Leaves s) (λ s' p. Leaves-ok (true, s') (omega arith)))
      (λ e. Leaves-ok (false, s) (omega arith))

eat_either-Leaves : (a b : ℕ) (s : Lexer.Lex) → Leaves left_of (left s) (Lexer.eat_either a b s)
unfolding Lexer.eat_either
eat_either-Leaves a b s = Leaves-bind (eat_chr-Leaves a s) λ r p.
    Leaves-if r.0 (λ e. Leaves-ok (true, r.1) p) (λ e. Leaves-weaker p (eat_chr-Leaves b r.1))

-- With enough fuel the loop of digits ends, and has read a character if there was a digit.
lex_digits-Leaves :
    (fuel n : ℕ) (s : Lexer.Lex)
    → left s < fuel
    → Leaves left_of (left s) (Lexer.lex_digits fuel n s)
unfolding Lexer.lex_digits
lex_digits-Leaves zero n s h = absurd (omega arith)
lex_digits-Leaves (suc fuel) n s h =
    Leaves-if _
      (λ e.
        let some_left = chr_is_left Lexer.is_digit s.rest e in
        Leaves-require (not (ltb ((word64 - 1 - Lexer.digit_of s.rest) / 10) n)) s.pos
          "integer literal overflow"
          λ _.
            Leaves-bind (next_chr-Leaves s)
              λ s' p. Leaves-weaker (omega arith) (lex_digits-Leaves fuel _ s' (omega arith)))
      (λ e. Leaves-ok (n, s) (omega arith))

digits_progress :
    (fuel n : ℕ) (s : Lexer.Lex)
    → left s < suc fuel
    → Lexer.chr_is Lexer.is_digit s.rest ≡ true
    → Leaves left_of (left s - 1) (Lexer.lex_digits (suc fuel) n s)
unfolding Lexer.lex_digits
digits_progress fuel n s h d =
    let some_left = chr_is_left Lexer.is_digit s.rest d in
    Leaves-if (Lexer.chr_is Lexer.is_digit s.rest)
      (λ e.
        Leaves-require (not (ltb ((word64 - 1 - Lexer.digit_of s.rest) / 10) n)) s.pos
          "integer literal overflow"
          λ _.
            Leaves-bind (next_chr-Leaves s)
              λ s' p. Leaves-weaker p (lex_digits-Leaves fuel _ s' (omega arith)))
      (λ e. absurd (cc))

number-Leaves :
    (s : Lexer.Lex)
    → Lexer.chr_is Lexer.is_digit s.rest ≡ true
    → Leaves left_of (left s - 1) (Lexer.lex_number s)
unfolding Lexer.lex_number
number-Leaves s d = Leaves-bind (digits_progress (length s.rest) 0 s (omega arith) d) λ r p.
    Leaves-bind (Leaves-weaker p (eat_either-Leaves b'u' b'U' r.1)) λ r' p'.
      Leaves-bind (Leaves-weaker p' (eat_either-Leaves b'l' b'L' r'.1)) (λ r'' p''. Leaves-ok _ p'')

word-Leaves :
    (fuel : ℕ) (s : Lexer.Lex) → left s < fuel → Leaves left (left s) (Lexer.lex_word fuel s)
unfolding Lexer.lex_word
word-Leaves zero s h = absurd (omega arith)
word-Leaves (suc fuel) s h =
    Leaves-if _
      (λ e.
        let some_left = chr_is_left Lexer.is_word s.rest e in
        Leaves-bind (next_chr-Leaves s)
          λ s' p. Leaves-weaker (omega arith) (word-Leaves fuel s' (omega arith)))
      (λ e. Leaves-ok s (omega arith))

word_progress :
    (fuel : ℕ) (s : Lexer.Lex)
    → left s < suc fuel
    → Lexer.chr_is Lexer.is_word s.rest ≡ true
    → Leaves left (left s - 1) (Lexer.lex_word (suc fuel) s)
unfolding Lexer.lex_word
word_progress fuel s h w =
    let some_left = chr_is_left Lexer.is_word s.rest w in
    Leaves-if (Lexer.chr_is Lexer.is_word s.rest)
      (λ e.
        Leaves-bind (next_chr-Leaves s) λ s' p. Leaves-weaker p (word-Leaves fuel s' (omega arith)))
      (λ e. absurd (cc))

skip_line-Leaves :
    (fuel : ℕ) (s : Lexer.Lex) → left s < fuel → Leaves left (left s) (Lexer.skip_line fuel s)
unfolding Lexer.skip_line
skip_line-Leaves zero s h = absurd (omega arith)
skip_line-Leaves (suc fuel) s h =
    Leaves-if (Lexer.chr_is (λ c. not (c == b'\n')) s.rest)
      (λ e.
        let some_left = chr_is_left (λ c. not (c == b'\n')) s.rest e in
        let moved = left-skip_chr s in
        Leaves-weaker (omega arith) (skip_line-Leaves fuel (Lexer.skip_chr s) (omega arith)))
      (λ e. Leaves-ok s (omega arith))

is_nil_left : (l : List ℕ) → not (Lexer.is_nil l) ≡ true → 0 < length l
is_nil_left [] h = absurd (cc)
is_nil_left (c ∷ l) h = omega arith

value-Leaves : (p : Pos) (o : Option ℕ) → Leaves (λ (d : ℕ). 0) 0 (Lexer.value_or_err p o)
value-Leaves p (some d) = record { holds = omega arith }
value-Leaves p none = record { holds = tt }

literal-Leaves :
    (fuel delim : ℕ) (lit : List ℕ) (s : Lexer.Lex)
    → left s < fuel
    → Leaves left_of (left s) (Lexer.lex_literal fuel delim lit s)
unfolding Lexer.lex_literal
literal-Leaves zero delim lit s h = absurd (omega arith)
literal-Leaves (suc fuel) delim lit s h =
    Leaves-if (Lexer.chr_is (λ c. c == delim) s.rest) (λ e. Leaves-ok (lit, s) (omega arith))
      (λ e.
        Leaves-require (not (Lexer.is_nil s.rest)) s.pos "unterminated string/char literal" λ more.
          Leaves-require (not (delim == b'\'' && not (Lexer.is_nil lit))) s.pos
            "too many characters in char literal"
            λ _.
              Leaves-require (not (length lit == Lexer.max_tok_len)) s.pos
                "string/char literal too long"
                λ _.
                  let some_left = is_nil_left s.rest more in
                  Leaves-bind (eat_chr-Leaves b'\\' s) λ r p.
                    let moved = left-skip_chr r.1 in
                    Leaves-bind
                      (Leaves-if r.0 (λ _. value-Leaves r.1.pos _) (λ _. Leaves-ok _ (omega arith)))
                      λ d _.
                        Leaves-weaker (omega arith)
                          (literal-Leaves fuel delim _ (Lexer.skip_chr r.1) (omega arith)))

quoted-Leaves :
    (delim : ℕ) (s : Lexer.Lex)
    → 0 < left s
    → Leaves left_of (left s - 1) (Lexer.lex_quoted delim s)
unfolding Lexer.lex_quoted
quoted-Leaves delim s some_left =
    let moved = left-skip_chr s in
    Leaves-bind (literal-Leaves (suc (length s.rest)) delim [] (Lexer.skip_chr s) (omega arith))
      λ r p.
        let after = left-skip_chr r.1 in
        Leaves-require (not (delim == b'\'' && Lexer.is_nil r.0)) r.1.pos "empty char literal"
          λ _. Leaves-ok _ (omega arith)

comment-Leaves : (prev : ℕ) (s : Lexer.Lex) → Leaves left_of (left s) (Lexer.eat_comment prev s)
unfolding Lexer.eat_comment
comment-Leaves prev s =
    Leaves-if (prev == b'#') (λ _. Leaves-ok (true, s) (omega arith))
      (λ _.
        Leaves-if (prev == b'/') (λ _. eat_chr-Leaves b'/' s)
          (λ _. Leaves-ok (false, s) (omega arith)))

symbol-Leaves : (prev : ℕ) (s : Lexer.Lex) → Leaves left (left s) (Lexer.lex_symbol prev s)
unfolding Lexer.lex_symbol
symbol-Leaves prev s =
    Leaves-if (Lexer.is_pair prev s.rest) (λ _. Leaves-weaker (omega arith) (next_chr-Leaves s))
      (λ _.
        Leaves-if (prev == b'.' && Lexer.two_dots s.rest)
          (λ _.
            Leaves-bind (next_chr-Leaves s)
              λ s' p. Leaves-weaker (omega arith) (next_chr-Leaves s'))
          (λ _. Leaves-ok s (omega arith)))

finish-Leaves :
    (b : Bool) (c : ℕ) (pos : Pos) (s : Lexer.Lex)
    → Leaves left_of (left s) (Lexer.finish_other b c pos s)
unfolding Lexer.finish_other
finish-Leaves true c pos s =
    Leaves-bind (skip_line-Leaves (suc (length s.rest)) s (omega arith))
      (λ s' p. Leaves-ok (none, s') p)
finish-Leaves false c pos s = Leaves-bind (symbol-Leaves c s) (λ s' p. Leaves-ok _ p)

other-Leaves :
    (c : ℕ) (s : Lexer.Lex) → 0 < left s → Leaves left_of (left s - 1) (Lexer.lex_other c s)
unfolding Lexer.lex_other
other-Leaves c s some_left = Leaves-bind (next_chr-Leaves s) λ s1 p.
    Leaves-bind (comment-Leaves c s1)
      λ r q. Leaves-weaker (omega arith) (finish-Leaves r.0 c s.pos r.1)

give-Leaves :
    (n : ℕ) (m : Outcome (Lexer.Token × Lexer.Lex))
    → Leaves left_of n m
    → Leaves left_of n (m >>= Lexer.give)
give-Leaves n m h = Leaves-bind h (λ r p. Leaves-ok _ p)

word_of : (c : ℕ) → Lexer.is_letter c ≡ true → Lexer.is_word c ≡ true
word_of c w = ground arith

-- A round that starts at a character reads it.
round-Leaves :
    (c : ℕ) (s : Lexer.Lex) (l : List ℕ)
    → s.rest ≡ c ∷ l
    → Leaves left_of (left s - 1) (Lexer.lex_round c s)
unfolding Lexer.lex_round
round-Leaves c s l at =
    let some_left : 0 < left s = rw at (omega arith) in
    Leaves-if (c == b' ' || (c == 9 || c == b'\n'))
      (λ _. Leaves-bind (next_chr-Leaves s) λ s' p. Leaves-ok (none, s') p)
      (λ _.
        Leaves-if (Lexer.is_digit c)
          (λ d. give-Leaves (left s - 1) (Lexer.lex_number s) (number-Leaves s (rw at d)))
          (λ _.
            Leaves-if (Lexer.is_letter c)
              (λ w.
                Leaves-bind (word_progress (length s.rest) s (omega arith) (rw at (word_of c w)))
                  (λ s' p. Leaves-ok _ p))
              (λ _.
                Leaves-if (c == b'\'' || c == b'"')
                  (λ _.
                    give-Leaves (left s - 1) (Lexer.lex_quoted c s) (quoted-Leaves c s some_left))
                  (λ _. other-Leaves c s some_left))))

at-Leaves :
    (s : Lexer.Lex) (l : List ℕ) → s.rest ≡ l → Leaves left_of (left s - 1) (Lexer.lex_at l s)
at-Leaves s [] at = let none_left : left s ≡ 0 = rw at refl in Leaves-ok _ (omega arith)
at-Leaves s (c ∷ l) at = round-Leaves c s l at

again-Leaves :
    (n : ℕ) (o : Option Lexer.Token) (s : Lexer.Lex) (m : Outcome (Lexer.Token × Lexer.Lex))
    → left s ≤ n
    → Leaves left_of n m
    → Leaves left_of n (Lexer.or_again o s m)
again-Leaves n (some t) s m h k = Leaves-ok (t, s) h
again-Leaves n none s m h k = k

rounds-Leaves :
    (fuel : ℕ) (s : Lexer.Lex) (l : List ℕ)
    → s.rest ≡ l
    → left s < fuel
    → Leaves left_of (left s - 1) (Lexer.lex_rounds fuel s)
unfolding Lexer.lex_rounds
rounds-Leaves zero s l at h = absurd (omega arith)
rounds-Leaves (suc fuel) s [] at h = rw at (Leaves-ok _ (omega arith))
rounds-Leaves (suc fuel) s (c ∷ l) at h =
    let some_left : 0 < left s = rw at (omega arith) in
    Leaves-bind (at-Leaves (record s { text = [] }) s.rest refl) λ r p.
      again-Leaves (left s - 1) r.0 r.1 (Lexer.lex_rounds fuel r.1) p
        (Leaves-weaker (omega arith) (rounds-Leaves fuel r.1 r.1.rest refl (omega arith)))

-- On every input lex ends, with a token or a diagnostic and without an abort, and what it leaves is less
-- than it had, unless it was at the end of the file.
pub lex-Leaves : (s : Lexer.Lex) → Leaves left_of (left s - 1) (Lexer.lex s)
unfolding Lexer.lex
lex-Leaves s = rounds-Leaves (suc (length s.rest)) s s.rest refl (omega arith)
