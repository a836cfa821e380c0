-- ===== src/Compiler/Misc/Writef.antt =====
-- `write_str`, `write_char` and `vwritef` of compiler/smolcc1.c: the bytes that they send. A read past the
-- memory of a string, and an argument of another type than the format asks for, are faults, `none`.
use smolcc.Base.{
  ℕ, ◌+◌, ◌-◌, ◌%◌, Bool, false, ◌&&◌, List, [], ◌∷◌, ◌++◌, Option, none, some, ltb, ◌==◌,
  if◌then◌else◌,
}
use smolcc.Base.Word.{word32, word64, half32}
use smolcc.Compiler.Misc.{write_int}

-- An argument: an `int` and a `long` by their bit patterns, a pointer to characters by the memory from
-- there on, none for a null pointer.
pub data Vararg : Type 0 where
  int_arg : ℕ → Vararg
  long_arg : ℕ → Vararg
  str_arg : Option (List ℕ) → Vararg

-- The characters up to the terminator.
unfoldable pub write_str : List ℕ → Option (List ℕ)
write_str [] = none
write_str (c ∷ s) =
    let rest = write_str s in
    if c == 0 then some [] else elim rest [ none ↦ none | some t ↦ some (c ∷ t) ]

abbrev pub write_char : ℕ → List ℕ
write_char c = c % 256 ∷ []

-- An `int` as a `long`.
abbrev pub long_of : ℕ → ℕ
long_of v = if ltb v half32 then v else v + (word64 - word32)

-- "(null)"
abbrev pub null_word : List ℕ
null_word = b'(' ∷ b'n' ∷ b'u' ∷ b'l' ∷ b'l' ∷ b')' ∷ 0 ∷ []

abbrev pub text_of : Option (List ℕ) → List ℕ
text_of none = null_word
text_of (some s) = s

-- What a character of the format is, outside a conversion.
pub data Place : Type 0 where
  ends percent plain : Place

abbrev pub letter_place : ℕ → Place
letter_place c = if c == 0 then ends else if c == b'%' then percent else plain

-- The conversion after a percent sign.
pub data Conversion : Type 0 where
  conv_d conv_ld conv_c conv_s conv_percent conv_other : Conversion

abbrev pub starts_d : List ℕ → Bool
starts_d [] = false
starts_d (c ∷ fmt) = c == b'd'

abbrev pub conversion_of : ℕ → List ℕ → Conversion
conversion_of d fmt =
    if d == b'd'
    then conv_d
    else if d == b'l' && starts_d fmt
    then conv_ld
    else if d == b'c'
    then conv_c
    else if d == b's'
    then conv_s
    else if d == b'%'
    then conv_percent
    else conv_other

abbrev pub sent : List ℕ → Option (List ℕ) → Option (List ℕ)
sent s none = none
sent s (some t) = some (s ++ t)

abbrev put_text : Option (List ℕ) → List Vararg → Option (List ℕ × List Vararg)
put_text none args = none
put_text (some s) args = some (s, args)

-- What a conversion sends, and the arguments after it.
unfoldable pub converted : Conversion → List Vararg → Option (List ℕ × List Vararg)
converted conv_d (int_arg v ∷ args) = some (write_int (long_of v), args)
converted conv_ld (long_arg v ∷ args) = some (write_int v, args)
converted conv_c (int_arg v ∷ args) = some (write_char v, args)
converted conv_s (str_arg s ∷ args) = put_text (write_str (text_of s)) args
converted conv_percent args = some (write_char b'%', args)
converted conv_other args = some ([], args)
converted _ args = none

-- Where the loop is: outside conversions, after a percent sign, or before the last character of `%ld`.
pub data Mode : Type 0 where
  outside after_percent before_d : Mode

abbrev pub mode_after : Conversion → Mode
mode_after conv_ld = before_d
mode_after _ = outside

unfoldable pub vwritef_from : Mode → List ℕ → List Vararg → Option (List ℕ)
unfolding converted
vwritef_from mode [] args = none
vwritef_from outside (c ∷ fmt) args = elim (letter_place c) [
  | ends ↦ some []
  | percent ↦ vwritef_from after_percent fmt args
  | plain ↦ sent (write_char c) (vwritef_from outside fmt args)
]
vwritef_from after_percent (d ∷ fmt) args = elim (converted (conversion_of d fmt) args) [
  | none ↦ none
  | some r ↦ sent r.0 (vwritef_from (mode_after (conversion_of d fmt)) fmt r.1)
]
vwritef_from before_d (d ∷ fmt) args = vwritef_from outside fmt args

unfoldable pub vwritef : List ℕ → List Vararg → Option (List ℕ)
unfolding vwritef_from
vwritef fmt args = vwritef_from outside fmt args
