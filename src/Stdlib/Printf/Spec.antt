-- ===== src/Stdlib/Printf/Spec.antt =====
-- p_fmt of stdlib/stdio_printf.c: one part of a format string, text or a conversion.
use smolcc.Base.{
  ℕ, ◌^◌, ◌-◌, ◌%◌, Bool, true, false, ◌&&◌, ◌||◌, List, [], ◌∷◌, Option, none, some, leb, ◌==◌,
  if◌then◌else◌,
}
use smolcc.Base.Word.{word32}
use mathlib.Core.Option.{bind as ◌>>=◌}
use smolcc.Stdlib.Ctype.{isdigit}
use smolcc.Stdlib.Strings.{strchr}
use smolcc.Stdlib.Printf.Digits.{sscan_int}

-- FMT_INT to FMT_RAW; 0 where the conversion is not known.
pub data FmtType : Type 0 where
  no_type int_type uint_type long_type ulong_type str_type chr_type ptr_type count_type raw_type :
      FmtType

-- The arguments: numbers as 64-bit patterns, a string or the null pointer, and a place for %n.
pub data Arg : Type 0 where
  number : ℕ → Arg
  string : Option (List ℕ) → Arg
  place : Arg

-- NO_PRECISION, -1
abbrev pub no_precision : ℕ
no_precision = word32 - 1

-- struct fmt_spec. The flags are FMT_FLAGS_UPPER_HEX to FMT_FLAGS_PAD_RIGHT; `raw` is what `raw.str` and
-- `raw.len` delimit.
pub record FmtSpec : Type 0 where
  pub type : FmtType
  pub upper_hex : Bool
  pub space_sign : Bool
  pub plus_sign : Bool
  pub alt_form : Bool
  pub zeropad : Bool
  pub pad_right : Bool
  pub base : ℕ
  pub min_width : ℕ
  pub precision : ℕ
  pub raw : List ℕ

abbrev pub clear_spec : FmtSpec
clear_spec = record {
  type = no_type;
  upper_hex = false;
  space_sign = false;
  plus_sign = false;
  alt_form = false;
  zeropad = false;
  pad_right = false;
  base = 0;
  min_width = 0;
  precision = no_precision;
  raw = [];
}

unfoldable pub parse_flags : List ℕ → FmtSpec → Option (List ℕ × FmtSpec)
parse_flags [] spec = none
parse_flags (c ∷ fmt) spec =
    let rest = λ (s : FmtSpec). parse_flags fmt s in
    if c == b'-'
    then rest (record spec { pad_right = true })
    else if c == b'0'
    then rest (record spec { zeropad = true })
    else if c == b' '
    then rest (record spec { space_sign = true })
    else if c == b'+'
    then rest (record spec { plus_sign = true })
    else if c == b'#'
    then rest (record spec { alt_form = true })
    else some (c ∷ fmt, spec)

-- A number at the start of the string, if there is a digit.
unfoldable pub parse_number : List ℕ → ℕ → Option (ℕ × List ℕ)
unfolding sscan_int
parse_number [] default = none
parse_number (c ∷ fmt) default =
    if isdigit c then sscan_int (c ∷ fmt) 0 else some (default, c ∷ fmt)

-- `va_arg(*ap, int)`, and -1 for a negative number.
abbrev pub star_precision : List Arg → Option (ℕ × List Arg)
star_precision (number n ∷ args) =
    some (if leb (2 ^ 31) (n % word32) then no_precision else n % word32, args)
star_precision _ = none

-- After a point: `*`, digits, or nothing.
unfoldable pub parse_after_point : List ℕ → List Arg → Option (ℕ × List ℕ × List Arg)
unfolding parse_number
parse_after_point [] args = none
parse_after_point (c ∷ fmt) args =
    if c == b'*'
    then (do (n, args') ← star_precision args; some (n, fmt, args'))
    else (do (n, fmt') ← parse_number (c ∷ fmt) 0; some (n, fmt', args))

unfoldable pub parse_precision : List ℕ → List Arg → Option (ℕ × List ℕ × List Arg)
unfolding parse_after_point
parse_precision [] args = none
parse_precision (c ∷ fmt) args =
    if c == b'.' then parse_after_point fmt args else some (no_precision, c ∷ fmt, args)

abbrev long_conversions : List ℕ
long_conversions = b'd' ∷ b'i' ∷ b'o' ∷ b'u' ∷ b'x' ∷ b'X' ∷ b'u' ∷ 0 ∷ []

abbrev pub takes_long : ℕ → Bool
takes_long c = elim (strchr long_conversions c) [
  | some (some s) ↦ true
  | some none ↦ false
  | none ↦ false
]

-- Whether there is an `l`, and what follows it.
unfoldable pub parse_long : List ℕ → Option (Bool × List ℕ)
parse_long [] = none
parse_long (c ∷ []) = if c == b'l' then none else some (false, c ∷ [])
parse_long (c ∷ d ∷ fmt) =
    if c == b'l' && takes_long d then some (true, d ∷ fmt) else some (false, c ∷ d ∷ fmt)

-- The conversion for the letter; the rest of the specification stays as it is.
unfoldable pub convert : Bool → ℕ → FmtSpec → FmtSpec
convert is_long c spec =
    let int_fmt : FmtType = if is_long then long_type else int_type in
    if c == b'd' || c == b'i'
    then record spec { type = int_fmt; base = 10 }
    else if c == b'u' || c == b'U'
    then record spec { type = if is_long then ulong_type else uint_type; base = 10 }
    else if c == b'o'
    then record spec { type = int_fmt; base = 8 }
    else if c == b'x'
    then record spec { type = int_fmt; base = 16 }
    else if c == b'X'
    then record spec { type = int_fmt; base = 16; upper_hex = true }
    else if c == b's'
    then record spec { type = str_type }
    else if c == b'c'
    then record spec { type = chr_type }
    else if c == b'p'
    then record spec { type = ptr_type }
    else if c == b'n'
    then record spec { type = count_type }
    else if c == b'%'
    then record spec { type = raw_type; raw = c ∷ [] }
    else spec

-- The letter is passed over, whatever it is.
unfoldable pub parse_letter : Bool → List ℕ → FmtSpec → Option (List ℕ × FmtSpec)
unfolding convert
parse_letter is_long [] spec = none
parse_letter is_long (c ∷ fmt) spec = some (fmt, convert is_long c spec)

-- After the `%`.
unfoldable pub parse_conversion : List ℕ → List Arg → Option (List ℕ × FmtSpec × List Arg)
unfolding parse_flags parse_number parse_precision parse_long parse_letter
parse_conversion fmt args = do
  (fmt1, spec) ← parse_flags fmt clear_spec
  (min_width, fmt2) ← parse_number fmt1 0
  (precision, fmt3, args') ← parse_precision fmt2 args
  (is_long, fmt4) ← parse_long fmt3
  (fmt5, spec') ←
      parse_letter is_long fmt4 (record spec { min_width = min_width; precision = precision })
  some (fmt5, spec', args')

-- The text up to a `%` or the end, and the rest.
unfoldable pub parse_text : List ℕ → Option (List ℕ × List ℕ)
parse_text [] = none
parse_text (c ∷ fmt) =
    let rest = parse_text fmt in
    if c == 0 || c == b'%'
    then some ([], c ∷ fmt)
    else elim rest [ some (text, fmt') ↦ some (c ∷ text, fmt') | none ↦ none ]

-- `some none` at the end of the format; the rest of it, the specification and the arguments.
unfoldable pub p_fmt : List ℕ → List Arg → Option (Option (List ℕ × FmtSpec × List Arg))
unfolding parse_conversion parse_text
p_fmt [] args = none
p_fmt (c ∷ fmt) args =
    if c == 0
    then some none
    else if c == b'%'
    then elim (parse_conversion fmt args) [ some r ↦ some (some r) | none ↦ none ]
    else elim (parse_text (c ∷ fmt)) [
      | some (text, fmt') ↦
          some (some (fmt', record clear_spec { type = raw_type; raw = text }, args))
      | none ↦ none
    ]
