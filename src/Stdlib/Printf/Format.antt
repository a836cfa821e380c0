-- ===== src/Stdlib/Printf/Format.antt =====
-- The functions of stdlib/stdio_printf.c that write to a stream, from `fill` to `_vfprintf`. An `int`
-- result is its bit pattern, and -1 the largest.
use smolcc.Base.{
  ℕ, zero, suc, ◌+◌, ◌-◌, ◌%◌, ◌^◌, Bool, true, false, ◌&&◌, not, List, [], ◌∷◌, ◌++◌, Option, none,
  some, length, take, ltb, leb, ◌==◌, if◌then◌else◌,
}
use smolcc.Base.Word.{word32, word64}
use smolcc.Stdlib.Strings.{strlen, strnlen}
use smolcc.Stdlib.File.{File}
use smolcc.Stdlib.File.Calls.{System, Io, fwrite, fputc}
use smolcc.Stdlib.Printf.Digits.{
  max_int_len, uint_to_dec, int_to_dec, int_to_hex, int_to_oct, trunc,
}
use smolcc.Stdlib.Printf.Spec.{
  FmtType, Arg, FmtSpec, no_type, int_type, uint_type, long_type, ulong_type, str_type, chr_type,
  ptr_type, count_type, raw_type, number, string, place, no_precision, p_fmt,
}

abbrev pub minus_one : ℕ
minus_one = word32 - 1

-- How much wider the field is than `len`.
abbrev pub pad_of : ℕ → ℕ → ℕ
pad_of min_width len = if ltb len min_width then min_width - len else 0

-- `0`, unless the field is padded on the right, else a space.
abbrev pub pad_chr : FmtSpec → ℕ
pad_chr spec = if not spec.pad_right && spec.zeropad then b'0' else b' '

abbrev pub is_unsigned : FmtType → Bool
is_unsigned uint_type = true
is_unsigned ulong_type = true
is_unsigned _ = false

-- `base == 10 && is_signed`
abbrev pub is_signed_dec : FmtSpec → Bool
is_signed_dec spec = spec.base == 10 && not (is_unsigned spec.type)

-- The sign, or what marks octal and hexadecimal numbers.
unfoldable pub prefix_of : FmtSpec → ℕ → List ℕ
prefix_of spec n =
    if is_signed_dec spec
    then (if leb (2 ^ 63) n
        then b'-' ∷ []
        else if spec.plus_sign
        then b'+' ∷ []
        else if spec.space_sign
        then b' ' ∷ []
        else [])
    else if spec.base == 8 && (not (n == 0) && spec.alt_form)
    then b'0' ∷ []
    else if spec.base == 16 && (not (n == 0) && spec.alt_form)
    then b'0' ∷ (if spec.upper_hex then b'X' else b'x') ∷ []
    else []

abbrev size_of_type : FmtType → ℕ
size_of_type int_type = 4
size_of_type _ = 8

-- `if (*num_str == '-') num_str++;`; the end of the buffer is not read as `-`.
abbrev pub drop_minus : List ℕ → List ℕ
drop_minus [] = []
drop_minus (c ∷ s) = if c == b'-' then s else c ∷ s

-- The digits of a number.
unfoldable pub digits_of : FmtSpec → ℕ → Option (List ℕ)
unfolding int_to_dec uint_to_dec int_to_hex int_to_oct
digits_of spec n =
    if is_signed_dec spec
    then int_to_dec n max_int_len
    else if spec.base == 10
    then uint_to_dec max_int_len n []
    else if spec.base == 16
    then some (int_to_hex max_int_len (trunc (size_of_type spec.type) n) spec.upper_hex [])
    else if spec.base == 8
    then some (int_to_oct max_int_len (trunc (size_of_type spec.type) n) [])
    else some []

module _ {W : Type 0} (sys : System W) where
  -- A step of output; its result is whether it has not failed.
  abbrev pub Step : Type 0
  Step = File → W → Option (Io W Bool)

  abbrev pub skip : Step
  skip f w = some (true, f, w)

  abbrev pub continue : Step → Option (Io W Bool) → Option (Io W Bool)
  continue next none = none
  continue next (some (ok, f, w)) = if ok then next f w else some (false, f, w)

  -- `if (first == -1) return -1; second`
  abbrev pub both : Step → Step → Step
  both first second f w = continue second (first f w)

  unfoldable pub fill_loop : ℕ → ℕ → Step
  fill_loop zero c f w = skip f w
  fill_loop (suc n) c f w = both (fputc sys c) (fill_loop n c) f w

  abbrev pub and_not : Bool → Option (Io W Bool) → Option (Io W Bool)
  and_not failed none = none
  and_not failed (some (ok, f, w)) = some (ok && not failed, f, w)

  -- `fill(stream, c, count) == -1` fails. A negative `count`, of which -1 is one, has no rounds.
  unfoldable pub fill : ℕ → ℕ → Step
  unfolding fill_loop
  fill c count f w =
      and_not (count == minus_one) (fill_loop (if ltb count (2 ^ 31) then count else 0) c f w)

  abbrev pub is_all : ℕ → Option (Io W ℕ) → Option (Io W Bool)
  is_all len none = none
  is_all len (some (n, f, w)) = some (not (ltb n len), f, w)

  -- `fwrite(s, 1, len, stream) < len` fails.
  unfoldable pub put : List ℕ → Step
  put s f w = is_all (length s) (fwrite sys s 1 f w)

  abbrev pub when : Bool → Step → Step
  when c step f w = if c then step f w else skip f w

  -- The result of a function whose steps have been taken.
  abbrev pub result : ℕ → Option (Io W Bool) → Option (Io W ℕ)
  result n none = none
  result n (some (ok, f, w)) = some (if ok then n % word32 else minus_one, f, w)

  -- `str` is the `len` bytes.
  unfoldable pub fmt_str_core : FmtSpec → List ℕ → File → W → Option (Io W ℕ)
  unfolding fill put
  fmt_str_core spec str f w =
      let pad_width = pad_of spec.min_width (length str) in
      result (length str + pad_width) (
        both (when (not spec.pad_right) (fill b' ' pad_width))
          (both (put str) (when spec.pad_right (fill b' ' pad_width))) f w)

  unfoldable pub fmt_num_core : List ℕ → List ℕ → FmtSpec → File → W → Option (Io W ℕ)
  unfolding fill put
  fmt_num_core prefix num_str spec f w =
      let width = length prefix + length num_str in
      let pad_width = pad_of spec.min_width width in
      let pad = pad_chr spec in
      result (width + pad_width) (
        both (when (not spec.pad_right && pad == b' ') (fill b' ' pad_width))
          (both (when (ltb 0 (length prefix)) (put prefix)) (
            both (when (not spec.pad_right && pad == b'0') (fill b'0' pad_width))
              (both (put num_str) (when (spec.pad_right && pad == b' ') (fill b' ' pad_width)))))
          f w)

  unfoldable pub fmt_int : FmtSpec → ℕ → File → W → Option (Io W ℕ)
  unfolding fmt_num_core digits_of prefix_of
  fmt_int spec n f w = elim (digits_of spec n) [
    | some s ↦ fmt_num_core (prefix_of spec n) (drop_minus s) spec f w
    | none ↦ none
  ]

  abbrev null_text : List ℕ
  null_text = b'(' ∷ b'n' ∷ b'u' ∷ b'l' ∷ b'l' ∷ b')' ∷ []

  abbrev nil_text : List ℕ
  nil_text = b'(' ∷ b'n' ∷ b'i' ∷ b'l' ∷ b')' ∷ []

  -- The length becomes an `unsigned int` on its way to fmt_str_core.
  unfoldable pub fmt_str : FmtSpec → Option (List ℕ) → File → W → Option (Io W ℕ)
  unfolding fmt_str_core
  fmt_str spec none f w = fmt_str_core spec null_text f w
  fmt_str spec (some str) f w =
      elim (if spec.precision == no_precision then strlen str else strnlen str spec.precision) [
        | some len ↦ fmt_str_core spec (take (len % word32) str) f w
        | none ↦ none
      ]

  unfoldable pub fmt_chr : FmtSpec → ℕ → File → W → Option (Io W ℕ)
  unfolding fmt_str_core
  fmt_chr spec c f w = fmt_str_core spec (c % 256 ∷ []) f w

  -- The buffer has room for `0x` and 16 digits.
  unfoldable pub fmt_ptr : FmtSpec → ℕ → File → W → Option (Io W ℕ)
  unfolding fmt_str_core int_to_hex
  fmt_ptr spec p f w =
      if p == 0
      then fmt_str_core spec nil_text f w
      else fmt_str_core spec (b'0' ∷ b'x' ∷ int_to_hex 18 p false []) f w

  unfoldable pub fmt_raw : List ℕ → File → W → Option (Io W ℕ)
  unfolding put
  fmt_raw s f w = result (length s) (put s f w)

  -- `(unsigned long)va_arg(*ap, int)`: the low half with its sign.
  abbrev pub sign_extend : ℕ → ℕ
  sign_extend n = if leb (2 ^ 31) (n % word32) then word64 - word32 + n % word32 else n % word32

  -- What a part leaves: its result, the other arguments, and whether the count is to be stored.
  abbrev pub Part : Type 0
  Part = Io W ℕ × List Arg × Bool

  abbrev pub with_args : List Arg → Option (Io W ℕ) → Option Part
  with_args args none = none
  with_args args (some r) = some (r, args, false)

  -- One part of the format with its argument; `none` too where there is no such argument.
  unfoldable pub fmt_part : FmtSpec → FmtType → List Arg → File → W → Option Part
  unfolding fmt_int fmt_str fmt_chr fmt_ptr fmt_raw
  fmt_part spec int_type (number n ∷ args) f w = with_args args (fmt_int spec (sign_extend n) f w)
  fmt_part spec long_type (number n ∷ args) f w = with_args args (fmt_int spec (n % word64) f w)
  fmt_part spec uint_type (number n ∷ args) f w = with_args args (fmt_int spec (n % word32) f w)
  fmt_part spec ulong_type (number n ∷ args) f w = with_args args (fmt_int spec (n % word64) f w)
  fmt_part spec str_type (string s ∷ args) f w = with_args args (fmt_str spec s f w)
  fmt_part spec chr_type (number c ∷ args) f w = with_args args (fmt_chr spec c f w)
  fmt_part spec ptr_type (number p ∷ args) f w = with_args args (fmt_ptr spec (p % word64) f w)
  fmt_part spec count_type (place ∷ args) f w = some ((0, f, w), args, true)
  fmt_part spec raw_type args f w = with_args args (fmt_raw spec.raw f w)
  fmt_part spec no_type args f w = some ((0, f, w), args, false)
  fmt_part _ _ _ f w = none

  -- The loop of _vfprintf: the result, and the counts that %n has stored. The format gets shorter at
  -- each part.
  unfoldable pub vfprintf_loop :
      ℕ → List ℕ → List Arg → ℕ → List ℕ → File → W → Option (ℕ × List ℕ × File × W)
  unfolding fmt_part
  vfprintf_loop zero fmt args nw stored f w = none
  vfprintf_loop (suc fuel) fmt args nw stored f w =
      let next =
        λ (fmt' : List ℕ) (args' : List Arg) (nw' : ℕ) (stored' : List ℕ) (f' : File) (w' : W).
          vfprintf_loop fuel fmt' args' nw' stored' f' w' in
      elim (p_fmt fmt args) [
        | none ↦ none
        | some none ↦ some (nw, stored, f, w)
        | some (some (fmt', spec, args')) ↦ elim (fmt_part spec spec.type args' f w) [
          | none ↦ none
          | some ((nwp, f', w'), args'', stores) ↦
              if leb (2 ^ 31) nwp
              then some (minus_one, stored, f', w')
              else next fmt' args'' ((nw + nwp) % word32)
                  (if stores then stored ++ nw ∷ [] else stored) f' w'
        ]
      ]

  -- fprintf is this on its arguments, and printf on `stdout`.
  unfoldable pub vfprintf : List ℕ → List Arg → File → W → Option (ℕ × List ℕ × File × W)
  unfolding vfprintf_loop
  vfprintf fmt args f w = vfprintf_loop (suc (length fmt)) fmt args 0 [] f w
