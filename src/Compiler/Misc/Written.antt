-- ===== src/Compiler/Misc/Written.antt =====
-- vwritef of compiler/smolcc1.c sends what its format describes.
use smolcc.Base.{
  ℕ, ◌%◌, ◌<◌, ◌≡◌, ◌≢◌, refl, ◌∙◌, false, List, [], ◌∷◌, ◌++◌, Option, none, some, arith, ◌==◌,
}
use smolcc.Compiler.Misc.{write_int}
use smolcc.Compiler.Misc.Writef.{
  Vararg, int_arg, long_arg, str_arg, write_str, long_of, vwritef, Place, ends, percent, plain,
  letter_place, converted, conv_s,
}

-- A part of a format, with what it is given.
pub data Piece : Type 0 where
  letter : ℕ → Piece
  int_piece : ℕ → Piece
  long_piece : ℕ → Piece
  char_piece : ℕ → Piece
  str_piece : List ℕ → Piece
  null_piece : Piece
  percent_piece : Piece

abbrev pub AreChars : List ℕ → Type 0
AreChars [] = Unit
AreChars (c ∷ s) = (c ≢ 0) × AreChars s

-- A letter is a byte but the terminator and the percent sign; a string has no terminator in it.
abbrev pub IsPiece : Piece → Type 0
IsPiece (letter c) = (c ≢ 0) × (c ≢ b'%') × (c < 256)
IsPiece (str_piece s) = AreChars s
IsPiece _ = Unit

abbrev pub ArePieces : List Piece → Type 0
ArePieces [] = Unit
ArePieces (p ∷ pieces) = IsPiece p × ArePieces pieces

abbrev pub format_of : Piece → List ℕ
format_of (letter c) = c ∷ []
format_of (int_piece v) = b'%' ∷ b'd' ∷ []
format_of (long_piece v) = b'%' ∷ b'l' ∷ b'd' ∷ []
format_of (char_piece v) = b'%' ∷ b'c' ∷ []
format_of (str_piece s) = b'%' ∷ b's' ∷ []
format_of null_piece = b'%' ∷ b's' ∷ []
format_of percent_piece = b'%' ∷ b'%' ∷ []

abbrev pub args_of : Piece → List Vararg
args_of (letter c) = []
args_of (int_piece v) = int_arg v ∷ []
args_of (long_piece v) = long_arg v ∷ []
args_of (char_piece v) = int_arg v ∷ []
args_of (str_piece s) = str_arg (some (s ++ 0 ∷ [])) ∷ []
args_of null_piece = str_arg none ∷ []
args_of percent_piece = []

abbrev pub text_of : Piece → List ℕ
text_of (letter c) = c ∷ []
text_of (int_piece v) = write_int (long_of v)
text_of (long_piece v) = write_int v
text_of (char_piece v) = v % 256 ∷ []
text_of (str_piece s) = s
text_of null_piece = b'(' ∷ b'n' ∷ b'u' ∷ b'l' ∷ b'l' ∷ b')' ∷ []
text_of percent_piece = b'%' ∷ []

abbrev pub format : List Piece → List ℕ
format [] = 0 ∷ []
format (p ∷ pieces) = format_of p ++ format pieces

abbrev pub args : List Piece → List Vararg
args [] = []
args (p ∷ pieces) = args_of p ++ args pieces

abbrev pub text : List Piece → List ℕ
text [] = []
text (p ∷ pieces) = text_of p ++ text pieces

write_str-AreChars : (s : List ℕ) → AreChars s → write_str (s ++ 0 ∷ []) ≡ some s
unfolding write_str
write_str-AreChars [] h = refl
write_str-AreChars (c ∷ s) h =
    let other : (c == 0) ≡ false = ground arith in rw (other, write_str-AreChars s h.1) refl

letter_place-plain : (c : ℕ) → c ≢ 0 → c ≢ b'%' → letter_place c ≡ plain
letter_place-plain c h k =
    let not_end : (c == 0) ≡ false = ground arith in
    let not_percent : (c == b'%') ≡ false = ground arith in rw (not_end, not_percent) refl

plain_step :
    {A : Type 0} (p : Place) (x y z : A)
    → p ≡ plain
    → elim p [ ends ↦ x | percent ↦ y | plain ↦ z ] ≡ z
plain_step ends x y z e = absurd (cc)
plain_step percent x y z e = absurd (cc)
plain_step plain x y z e = refl

converted-str :
    (s : List ℕ) (rest : List Vararg)
    → AreChars s
    → converted conv_s (str_arg (some (s ++ 0 ∷ [])) ∷ rest) ≡ some (s, rest)
unfolding converted
converted-str s rest h = rw (write_str-AreChars s h) refl

some_step :
    {A B : Type 0} (o : Option A) (a : A) (y : B) (f : A → B)
    → o ≡ some a
    → elim o [ none ↦ y | some x ↦ f x ] ≡ f a
some_step o a y f e = rw e refl

-- For a format of letters and conversions, with the arguments that these ask for, vwritef sends the letters
-- and the texts of the arguments in order.
pub vwritef-format :
    (pieces : List Piece)
    → ArePieces pieces
    → vwritef (format pieces) (args pieces) ≡ some (text pieces)
unfolding vwritef write_str
vwritef-format [] h = refl
vwritef-format (letter c ∷ pieces) h =
    let low : c % 256 ≡ c = omega arith in
    plain_step (letter_place c) _ _ _ (letter_place-plain c h.0.0 h.0.1)
    ∙ rw (low, vwritef-format pieces h.1) refl
vwritef-format (int_piece v ∷ pieces) h = rw (vwritef-format pieces h.1) refl
vwritef-format (long_piece v ∷ pieces) h = rw (vwritef-format pieces h.1) refl
vwritef-format (char_piece v ∷ pieces) h = rw (vwritef-format pieces h.1) refl
vwritef-format (str_piece s ∷ pieces) h =
    some_step _ (s, args pieces) _ _ (converted-str s (args pieces) h.0)
    ∙ rw (vwritef-format pieces h.1) refl
vwritef-format (null_piece ∷ pieces) h = rw (vwritef-format pieces h.1) refl
vwritef-format (percent_piece ∷ pieces) h = rw (vwritef-format pieces h.1) refl
