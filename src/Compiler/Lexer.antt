-- ===== src/Compiler/Lexer.antt =====
-- The lexer of compiler/smolcc1.c, `peek_char` to `lex`. `chr` and the unread input are one list
-- here, `chr` its head, so that the empty list is the end of the file; Lexer.Reader has the
-- buffer of peek_char. A `char` is signed, so that the byte 255 is EOF.
pub mod Reader
pub mod Consumed
pub mod Numbers
use smolcc.Base.{
  ℕ, zero, suc, ◌+◌, ◌-◌, ◌*◌, ◌/◌, ◌%◌, Bool, true, false, ◌&&◌, ◌||◌, not, List, [], ◌∷◌, ◌++◌,
  Option, none, some, length, ltb, leb, ◌==◌, if◌then◌else◌,
}
use smolcc.Base.Word.{word64}
use smolcc.Compiler.Outcome.{Pos, Outcome, ok, err_at, die, require, ◌>>=◌, ◌>>◌}

-- Tok_Num to Tok_Sym, and EOF
pub data TokKind : Type 0 where
  num wrd str chr sym eof : TokKind

-- `tok`, `tok_pos`, `tok_str` and `tok_val`.
pub record Token : Type 0 where
  pub kind : TokKind
  pub pos : Pos
  pub text : List ℕ
  pub n : ℕ
  pub u : Bool
  pub l : Bool
  pub lit : List ℕ

-- The input from `chr` on, `chr_pos`, and `tok_str`.
pub record Lex : Type 0 where
  pub rest : List ℕ
  pub pos : Pos
  pub text : List ℕ

abbrev pub max_tok_len : ℕ
max_tok_len = 255

-- The bytes up to the end of the file.
unfoldable pub until_eof : List ℕ → List ℕ
until_eof [] = []
until_eof (c ∷ s) = let rest = until_eof s in if c == 255 then [] else c ∷ rest

abbrev pub move : ℕ → Pos → Pos
move c p =
    if c == b'\n'
    then record { line = p.line + 1; col = 1 }
    else record { line = p.line; col = p.col + 1 }

-- At the end of the file `chr` stays EOF, and only the column moves.
unfoldable pub skip_chr_at : List ℕ → Lex → Lex
skip_chr_at [] s = record s { pos = record { line = s.pos.line; col = s.pos.col + 1 } }
skip_chr_at (c ∷ rest) s = record s { rest = rest; pos = move c s.pos }

abbrev pub skip_chr : Lex → Lex
skip_chr s = skip_chr_at s.rest s

-- Whether `chr` satisfies a test that EOF does not.
abbrev pub chr_is : (ℕ → Bool) → List ℕ → Bool
chr_is test [] = false
chr_is test (c ∷ rest) = test c

abbrev pub head : List ℕ → List ℕ
head [] = []
head (c ∷ rest) = c ∷ []

-- `tok_str[tok_len++] = chr`, never at the end of the file.
unfoldable pub next_chr : Lex → Outcome Lex
unfolding skip_chr_at
next_chr s = do
  require (not (length s.text == max_tok_len)) s.pos "token too long"
  ok (skip_chr (record s { text = s.text ++ head s.rest }))

unfoldable pub eat_chr : ℕ → Lex → Outcome (Bool × Lex)
eat_chr c s =
    if chr_is (λ d. c == d) s.rest then (do s' ← next_chr s; ok (true, s')) else ok (false, s)

abbrev pub is_digit : ℕ → Bool
is_digit c = leb b'0' c && leb c b'9'

abbrev pub is_letter : ℕ → Bool
is_letter c = leb b'a' c && leb c b'z' || (leb b'A' c && leb c b'Z' || c == b'_')

abbrev pub is_word : ℕ → Bool
is_word c = is_letter c || is_digit c

abbrev pub digit_of : List ℕ → ℕ
digit_of [] = 0
digit_of (c ∷ rest) = c - b'0'

-- The loops below run on fuel; the characters that are left are enough.
unfoldable pub lex_digits : ℕ → ℕ → Lex → Outcome (ℕ × Lex)
lex_digits zero n s = die "fuel"
lex_digits (suc fuel) n s =
    if chr_is is_digit s.rest
    then (do
      require (not (ltb ((word64 - 1 - digit_of s.rest) / 10) n)) s.pos "integer literal overflow"
      s' ← next_chr s
      lex_digits fuel ((n * 10 + digit_of s.rest) % word64) s')
    else ok (n, s)

unfoldable pub lex_word : ℕ → Lex → Outcome Lex
lex_word zero s = die "fuel"
lex_word (suc fuel) s =
    if chr_is is_word s.rest then (do s' ← next_chr s; lex_word fuel s') else ok s

-- Either of two characters, `eat_chr(a) || eat_chr(b)`.
unfoldable pub eat_either : ℕ → ℕ → Lex → Outcome (Bool × Lex)
eat_either a b s = do (found, s') ← eat_chr a s; if found then ok (true, s') else eat_chr b s'

-- The place of an escape in "abfnrtv\\'\"?0", as find_chr finds it: what it stands for. At the end of
-- the file `chr` is no character of the list.
abbrev pub escapes : List (ℕ × ℕ)
escapes =
    (b'a', 7)
    ∷ (b'b', 8)
    ∷ (b'f', 12)
    ∷ (b'n', 10)
    ∷ (b'r', 13)
    ∷ (b't', 9)
    ∷ (b'v', 11)
    ∷ (b'\\', b'\\')
    ∷ (b'\'', b'\'')
    ∷ (b'"', b'"')
    ∷ (b'?', b'?')
    ∷ (b'0', 0)
    ∷ []

unfoldable pub unescape : List (ℕ × ℕ) → List ℕ → Option ℕ
unescape table [] = none
unescape [] (c ∷ rest) = none
unescape ((e, d) ∷ table) (c ∷ rest) = if e == c then some d else unescape table (c ∷ rest)

abbrev pub value_or_err : Pos → Option ℕ → Outcome ℕ
value_or_err p (some d) = ok d
value_or_err p none = err_at p "unknown escape sequence"

abbrev pub chr_or_zero : List ℕ → ℕ
chr_or_zero [] = 0
chr_or_zero (c ∷ rest) = c

abbrev pub is_nil : List ℕ → Bool
is_nil [] = true
is_nil (c ∷ rest) = false

-- The characters of a literal up to its delimiter.
unfoldable pub lex_literal : ℕ → ℕ → List ℕ → Lex → Outcome (List ℕ × Lex)
lex_literal zero delim lit s = die "fuel"
lex_literal (suc fuel) delim lit s = if chr_is (λ c. c == delim) s.rest then ok (lit, s) else (do
  require (not (is_nil s.rest)) s.pos "unterminated string/char literal"
  require (not (delim == b'\'' && not (is_nil lit))) s.pos "too many characters in char literal"
  require (not (length lit == max_tok_len)) s.pos "string/char literal too long"
  (escaped, s') ← eat_chr b'\\' s
  decoded ←
      (if escaped then value_or_err s'.pos (unescape escapes s'.rest) else ok (chr_or_zero s.rest))
  lex_literal fuel delim (lit ++ decoded ∷ []) (skip_chr s'))

unfoldable pub skip_line : ℕ → Lex → Outcome Lex
skip_line zero s = die "fuel"
skip_line (suc fuel) s =
    if chr_is (λ c. not (c == b'\n')) s.rest then skip_line fuel (skip_chr s) else ok s

abbrev pub one_of : List ℕ → ℕ → Bool
one_of [] c = false
one_of (d ∷ set) c = d == c || one_of set c

-- `chr == '.' && peek_char() == '.'`
abbrev pub two_dots : List ℕ → Bool
two_dots (c ∷ d ∷ rest) = c == b'.' && d == b'.'
two_dots _ = false

-- The second character of a two-character symbol.
abbrev pub is_pair : ℕ → List ℕ → Bool
is_pair prev rest =
    one_of (b'<' ∷ b'>' ∷ b'!' ∷ b'=' ∷ []) prev && chr_is (λ c. c == b'=') rest
    || (one_of (b'&' ∷ b'|' ∷ b'<' ∷ b'>' ∷ b'+' ∷ b'-' ∷ []) prev && chr_is (λ c. c == prev) rest
        || (prev == b'-' && chr_is (λ c. c == b'>') rest))

unfoldable pub lex_symbol : ℕ → Lex → Outcome Lex
lex_symbol prev s =
    if is_pair prev s.rest
    then next_chr s
    else if prev == b'.' && two_dots s.rest
    then (do s' ← next_chr s; next_chr s')
    else ok s

abbrev pub token : TokKind → Pos → ℕ → Bool → Bool → List ℕ → Lex → Token × Lex
token kind pos n u l lit s =
    (record { kind = kind; pos = pos; text = s.text; n = n; u = u; l = l; lit = lit }, s)

unfoldable pub lex_number : Lex → Outcome (Token × Lex)
lex_number s = do
  (n, s1) ← lex_digits (suc (length s.rest)) 0 s
  (u, s2) ← eat_either b'u' b'U' s1
  (l, s3) ← eat_either b'l' b'L' s2
  ok (token num s.pos n u l [] s3)

unfoldable pub lex_quoted : ℕ → Lex → Outcome (Token × Lex)
lex_quoted delim s = do
  (lit, s') ← lex_literal (suc (length s.rest)) delim [] (skip_chr s)
  require (not (delim == b'\'' && is_nil lit)) s'.pos "empty char literal"
  ok (token (if delim == b'"' then str else chr) s.pos (length lit) false false lit (skip_chr s'))

-- Whether a comment or a line for the preprocessor starts, after its first character.
unfoldable pub eat_comment : ℕ → Lex → Outcome (Bool × Lex)
eat_comment prev s =
    if prev == b'#' then ok (true, s) else if prev == b'/' then eat_chr b'/' s else ok (false, s)

abbrev pub plain : TokKind → Pos → Lex → Token × Lex
plain kind pos s = token kind pos 0 false false [] s

abbrev pub give : Token × Lex → Outcome (Option Token × Lex)
give r = ok (some r.0, r.1)

-- A comment, which gives no token, or a symbol.
unfoldable pub finish_other : Bool → ℕ → Pos → Lex → Outcome (Option Token × Lex)
finish_other true c pos s = do s' ← skip_line (suc (length s.rest)) s; ok (none, s')
finish_other false c pos s = do s' ← lex_symbol c s; give (plain sym pos s')

unfoldable pub lex_other : ℕ → Lex → Outcome (Option Token × Lex)
lex_other c s = do
  s1 ← next_chr s
  (comment, s2) ← eat_comment c s1
  finish_other comment c s.pos s2

-- A round of `lex` from the character `c`: a token, or none where it goes on. `tok_val` keeps what
-- the token before had, unless it is set; here it is reset.
unfoldable pub lex_round : ℕ → Lex → Outcome (Option Token × Lex)
lex_round c s =
    if c == b' ' || (c == 9 || c == b'\n')
    then (do s' ← next_chr s; ok (none, s'))
    else if is_digit c
    then lex_number s >>= give
    else if is_letter c
    then (do s' ← lex_word (suc (length s.rest)) s; give (plain wrd s.pos s'))
    else if c == b'\'' || c == b'"'
    then lex_quoted c s >>= give
    else lex_other c s

abbrev pub lex_at : List ℕ → Lex → Outcome (Option Token × Lex)
lex_at [] s = give (plain eof s.pos s)
lex_at (c ∷ rest) s = lex_round c s

abbrev pub or_again : Option Token → Lex → Outcome (Token × Lex) → Outcome (Token × Lex)
or_again (some t) s again = ok (t, s)
or_again none s again = again

-- The rounds until there is a token.
unfoldable pub lex_rounds : ℕ → Lex → Outcome (Token × Lex)
lex_rounds zero s = die "fuel"
lex_rounds (suc fuel) s = do
  (o, s') ← lex_at s.rest (record s { text = [] })
  or_again o s' (lex_rounds fuel s')

unfoldable pub lex : Lex → Outcome (Token × Lex)
lex s = lex_rounds (suc (length s.rest)) s

-- The lexer as main starts it: `chr_pos.line = 1, chr_pos.col = 0; skip_chr();`
unfoldable pub init_lex : List ℕ → Lex
unfolding until_eof
init_lex input = record { rest = until_eof input; pos = record { line = 1; col = 1 }; text = [] }
