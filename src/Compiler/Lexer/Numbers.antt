-- ===== src/Compiler/Lexer/Numbers.antt =====
-- The lexer reads a number as the decimal output writes it.
use smolcc.Base.{
  ℕ, zero, suc, ◌+◌, ◌-◌, ◌*◌, ◌/◌, ◌%◌, ◌<◌, ◌≤◌, ◌≡◌, refl, sym, ap, ◌∙◌, true, false, ◌||◌, List,
  [], ◌∷◌, ◌++◌, length, length-append, ltb, ◌==◌, arith,
}
use mathlib.Core.List.{append_assoc, append-nil}
use smolcc.Base.Word.{word64}
use smolcc.Compiler.Outcome.{Pos, ok}
use smolcc.Compiler.Misc.{write_uint, max_digits}
use smolcc.Compiler.Misc.Decimal.{
  value_from, value_of, AreDigits, write_uint-value_of, length-write_uint, write_uint-nonempty,
}
use smolcc.Compiler.Lexer

abbrev pub state : List ℕ → Pos → List ℕ → Lexer.Lex
state rest pos text = record { rest = rest; pos = pos; text = text }

next_chr_step :
    (c : ℕ) (l : List ℕ) (pos : Pos) (text : List ℕ)
    → length text < 255
    → Lexer.next_chr (state (c ∷ l) pos text) ≡ ok (state l (Lexer.move c pos) (text ++ c ∷ []))
unfolding Lexer.next_chr Lexer.skip_chr_at
next_chr_step c l pos text h =
    let room : (length text == 255) ≡ false = ground arith in rw room refl

digit_step :
    (fuel n c : ℕ) (l : List ℕ) (pos : Pos) (text : List ℕ)
    → b'0' ≤ c
    → c ≤ b'9'
    → n * 10 + (c - b'0') < word64
    → length text < 255
    → Lexer.lex_digits (suc fuel) n (state (c ∷ l) pos text)
      ≡ Lexer.lex_digits fuel (n * 10 + (c - b'0')) (state l (Lexer.move c pos) (text ++ c ∷ []))
unfolding Lexer.lex_digits
digit_step fuel n c l pos text low high small room =
    let is : Lexer.is_digit c ≡ true = ground arith in
    let fits : ltb ((word64 - 1 - (c - b'0')) / 10) n ≡ false = not_over c n small in
    let whole : (n * 10 + (c - b'0')) % word64 ≡ n * 10 + (c - b'0') = omega arith in
    rw (is, fits, next_chr_step c l pos text room, whole) refl
  where
    not_over :
        (c n : ℕ) → n * 10 + (c - b'0') < word64 → ltb ((word64 - 1 - (c - b'0')) / 10) n ≡ false
    not_over c n small = at_most _ _ (omega arith)
      where
        at_most : (a b : ℕ) → b ≤ a → ltb a b ≡ false
        at_most a b h = ground arith

value_from_grows : (acc : ℕ) (s : List ℕ) → acc ≤ value_from acc s
unfolding value_from
value_from_grows acc [] = omega arith
value_from_grows acc (c ∷ s) = let rest = value_from_grows (acc * 10 + (c - b'0')) s in omega arith

-- The text does not go on with a character of a number.
abbrev pub EndsNumber : List ℕ → Type 0
EndsNumber t =
    (Lexer.chr_is Lexer.is_digit t ≡ false)
    × (Lexer.chr_is (λ c. b'u' == c) t ≡ false)
    × (Lexer.chr_is (λ c. b'U' == c) t ≡ false)
    × (Lexer.chr_is (λ c. b'l' == c) t ≡ false)
    × (Lexer.chr_is (λ c. b'L' == c) t ≡ false)

digits_end :
    (fuel n : ℕ) (t : List ℕ) (pos : Pos) (text : List ℕ)
    → Lexer.chr_is Lexer.is_digit t ≡ false
    → Lexer.lex_digits (suc fuel) n (state t pos text) ≡ ok (n, state t pos text)
unfolding Lexer.lex_digits
digits_end fuel n t pos text h = rw h refl

abbrev moves : List ℕ → Pos → Pos
moves [] pos = pos
moves (c ∷ s) pos = moves s (Lexer.move c pos)

all_digits :
    (s t : List ℕ) (fuel n : ℕ) (pos : Pos) (text : List ℕ)
    → AreDigits s
    → length s < fuel
    → length text + length s ≤ 255
    → value_from n s < word64
    → Lexer.chr_is Lexer.is_digit t ≡ false
    → Lexer.lex_digits fuel n (state (s ++ t) pos text)
      ≡ ok (value_from n s, state t (moves s pos) (text ++ s))
unfolding value_from
all_digits s t zero n pos text d enough room small e = absurd (omega arith)
all_digits [] t (suc fuel) n pos text d enough room small e =
    rw (append-nil text) (digits_end fuel n t pos text e)
all_digits (c ∷ s) t (suc fuel) n pos text d enough room small e =
    let grows = value_from_grows (n * 10 + (c - b'0')) s in
    let longer = length-append text (c ∷ []) in
    let rest =
      all_digits s t fuel (n * 10 + (c - b'0')) (Lexer.move c pos) (text ++ c ∷ []) d.2
        (omega arith) (omega arith) small e in
    digit_step fuel n c (s ++ t) pos text d.0 d.1 (omega arith) (omega arith)
    ∙ rest
    ∙ ap (λ u. ok (value_from (n * 10 + (c - b'0')) s, state t (moves s (Lexer.move c pos)) u))
        (append_assoc text (c ∷ []) s)

no_suffix :
    (c : ℕ) (t : List ℕ) (pos : Pos) (text : List ℕ)
    → Lexer.chr_is (λ d. c == d) t ≡ false
    → Lexer.eat_chr c (state t pos text) ≡ ok (false, state t pos text)
unfolding Lexer.eat_chr
no_suffix c t pos text h = rw h refl

no_suffixes :
    (a b : ℕ) (t : List ℕ) (pos : Pos) (text : List ℕ)
    → Lexer.chr_is (λ d. a == d) t ≡ false
    → Lexer.chr_is (λ d. b == d) t ≡ false
    → Lexer.eat_either a b (state t pos text) ≡ ok (false, state t pos text)
unfolding Lexer.eat_either
no_suffixes a b t pos text h k = rw (no_suffix a t pos text h, no_suffix b t pos text k) refl

-- The token of a number, and what is left.
abbrev pub number_token : List ℕ → List ℕ → Pos → ℕ → Lexer.Token × Lexer.Lex
number_token s t pos n = (
  record { kind = Lexer.num; pos = pos; text = s; n = n; u = false; l = false; lit = [] },
  state t (moves s pos) s,
)

number_of :
    (s t : List ℕ) (pos : Pos)
    → AreDigits s
    → length s ≤ 255
    → value_of s < word64
    → EndsNumber t
    → Lexer.lex_number (state (s ++ t) pos []) ≡ ok (number_token s t pos (value_of s))
unfolding Lexer.lex_number
number_of s t pos d room small ends =
    let long = length-append s t in
    rw
      (
        all_digits s t (suc (length (s ++ t))) 0 pos [] d (omega arith) (omega arith) small ends.0,
        no_suffixes b'u' b'U' t (moves s pos) s ends.1 ends.2,
        no_suffixes b'l' b'L' t (moves s pos) s ends.3 ends.4,
      )
      refl

not_blank : (c : ℕ) → b'0' ≤ c → c ≤ b'9' → (c == b' ' || (c == 9 || c == b'\n')) ≡ false
not_blank c low high = ground arith

is_a_digit : (c : ℕ) → b'0' ≤ c → c ≤ b'9' → Lexer.is_digit c ≡ true
is_a_digit c low high = ground arith

-- A string of at most 255 digits that denotes an `unsigned long`, and does not go on as a number, is lexed
-- as one number, which has its value.
pub lex-AreDigits :
    (c : ℕ) (s t : List ℕ) (pos : Pos) (text : List ℕ)
    → AreDigits (c ∷ s)
    → length (c ∷ s) ≤ 255
    → value_of (c ∷ s) < word64
    → EndsNumber t
    → Lexer.lex (state ((c ∷ s) ++ t) pos text) ≡ ok (number_token (c ∷ s) t pos (value_of (c ∷ s)))
unfolding Lexer.lex Lexer.lex_rounds Lexer.lex_round
lex-AreDigits c s t pos text d room small ends =
    rw (not_blank c d.0 d.1, is_a_digit c d.0 d.1, number_of (c ∷ s) t pos d room small ends) refl

read_back :
    (s t : List ℕ) (pos : Pos) (text : List ℕ) (n : ℕ)
    → value_of s ≡ n
    → AreDigits s
    → 0 < length s
    → length s ≤ 255
    → n < word64
    → EndsNumber t
    → Lexer.lex (state (s ++ t) pos text) ≡ ok (number_token s t pos n)
read_back [] t pos text n e d some_left room small ends = absurd (omega arith)
read_back (c ∷ s) t pos text n e d some_left room small ends =
    rw (sym e) (lex-AreDigits c s t pos text d room (omega arith) ends)

-- The lexer reads what write_uint sends as the number that it was, for every `unsigned long`, if the
-- text does not go on as a number.
pub lex-write_uint :
    (n : ℕ) (t : List ℕ) (pos : Pos) (text : List ℕ)
    → n < word64
    → EndsNumber t
    → Lexer.lex (state (write_uint max_digits n ++ t) pos text)
      ≡ ok (number_token (write_uint max_digits n) t pos n)
lex-write_uint n t pos text small ends =
    let (e, d) = write_uint-value_of n small in
    let short = length-write_uint max_digits n in
    read_back (write_uint max_digits n) t pos text n e d (write_uint-nonempty 19 n) (omega arith)
      small ends
