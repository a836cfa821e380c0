-- ===== src/Stdlib/Numbers/Laws.antt =====
-- Reading back decimal digits.
use smolcc.Base.{
  ℕ, ◌+◌, ◌-◌, ◌*◌, ◌/◌, ◌%◌, ◌<◌, ◌≤◌, ◌≡◌, refl, false, List, [], ◌∷◌, ◌++◌, some, none, ltb,
  arith, length, length-append, sym,
}
use smolcc.Base.Word.{word64}
use smolcc.Compiler.Misc.{write_uint, max_digits}
use smolcc.Compiler.Misc.Decimal.{
  value_from, value_of, AreDigits, write_uint-value_of, write_uint-nonempty,
}
use smolcc.Stdlib.Ctype.{isspace}
use smolcc.Stdlib.Numbers.{
  digit_to_int_in, skip_space, skip_sign, choose_base, accumulate, skip_digits, try_parse, strtoul,
  is_empty_between,
}

-- A digit is read as its value.
digit_to_int_in_ten : (c : ℕ) → b'0' ≤ c → c ≤ b'9' → digit_to_int_in 10 c ≡ some (c - b'0')
unfolding digit_to_int_in
digit_to_int_in_ten c low high = ground arith

terminator : digit_to_int_in 10 0 ≡ none
unfolding digit_to_int_in
terminator = refl

skip_digits_end : (t : List ℕ) → skip_digits 10 (0 ∷ t) ≡ some (0 ∷ t)
unfolding skip_digits
skip_digits_end t = rw (skip_digits, terminator) refl

-- The end of the digits is not where they start.
is_empty_between-shorter : (t u : List ℕ) → length t < length u → is_empty_between t u ≡ false
is_empty_between-shorter [] [] h = absurd (omega arith)
is_empty_between-shorter [] (b ∷ u) h = refl
is_empty_between-shorter (a ∷ t) [] h = refl
is_empty_between-shorter (a ∷ t) (b ∷ u) h = is_empty_between-shorter t u (omega arith)

read_all : (s t : List ℕ) → is_empty_between t (s ++ 0 ∷ t) ≡ false
read_all s t =
    let long = length-append s (0 ∷ t) in is_empty_between-shorter t (s ++ 0 ∷ t) (omega arith)

value_from_grows : (acc : ℕ) (s : List ℕ) → acc ≤ value_from acc s
unfolding value_from
value_from_grows acc [] = omega arith
value_from_grows acc (c ∷ s) = let rest = value_from_grows (acc * 10 + (c - b'0')) s in omega arith

at_most : (a b : ℕ) → b ≤ a → ltb a b ≡ false
at_most a b h = ground arith

not_space : (c : ℕ) (s : List ℕ) → b'0' ≤ c → c ≤ b'9' → skip_space (c ∷ s) ≡ some (c ∷ s)
unfolding skip_space isspace
not_space c s low high = ground arith

not_sign : (c : ℕ) (s : List ℕ) → b'0' ≤ c → c ≤ b'9' → skip_sign (c ∷ s) ≡ some (false, c ∷ s)
unfolding skip_sign
not_sign c s low high = ground arith

-- The first loop reads all the digits up to the terminator.
accumulate-AreDigits :
    (acc : ℕ) (s t : List ℕ)
    → AreDigits s
    → value_from acc s < word64
    → accumulate 10 acc (s ++ 0 ∷ t) ≡ some (value_from acc s, false, 0 ∷ t)
unfolding accumulate value_from
accumulate-AreDigits acc [] t d small = rw (accumulate, terminator) refl
accumulate-AreDigits acc (c ∷ s) t d small =
    let bound = value_from_grows (acc * 10 + (c - b'0')) s in
    let fits : ltb ((word64 - 1 - (c - b'0')) / 10) acc ≡ false = at_most _ _ (omega arith) in
    let no_wrap : (acc * 10 + (c - b'0')) % word64 ≡ acc * 10 + (c - b'0') = omega arith in
    rw (accumulate, digit_to_int_in_ten c d.0 d.1, fits, no_wrap)
      (accumulate-AreDigits (acc * 10 + (c - b'0')) s t d.2 small)

-- `strtoul` in base 10 of a string of digits that denotes an `unsigned long` is that number, errno is
-- left alone, and the end is the terminator.
pub strtoul-AreDigits :
    (c : ℕ) (s t : List ℕ)
    → AreDigits (c ∷ s)
    → value_of (c ∷ s) < word64
    → strtoul ((c ∷ s) ++ 0 ∷ t) 10
      ≡ some (record { value = value_of (c ∷ s); erange = false; rest = 0 ∷ t })
unfolding strtoul try_parse choose_base mathlib.Core.Option.bind value_from
strtoul-AreDigits c s t d small =
    rw
      (
        not_space c (s ++ 0 ∷ t) d.0 d.1,
        not_sign c (s ++ 0 ∷ t) d.0 d.1,
        accumulate-AreDigits 0 (c ∷ s) t d small,
        skip_digits_end t,
        read_all s t,
      )
      refl

read_back :
    (w t : List ℕ) (n : ℕ)
    → 0 < length w
    → value_of w ≡ n
    → AreDigits w
    → n < word64
    → strtoul (w ++ 0 ∷ t) 10 ≡ some (record { value = n; erange = false; rest = 0 ∷ t })
read_back [] t n h e d small = absurd (omega arith)
read_back (c ∷ s) t n h e d small = rw (sym e) (strtoul-AreDigits c s t d (omega arith))

-- What the compiler writes for an `unsigned long`, `strtoul` reads back in base 10: the number, with
-- errno left alone, and the end at the terminator.
pub strtoul-write_uint :
    (n : ℕ) (t : List ℕ)
    → n < word64
    → strtoul (write_uint max_digits n ++ 0 ∷ t) 10
      ≡ some (record { value = n; erange = false; rest = 0 ∷ t })
strtoul-write_uint n t small =
    let written = write_uint-value_of n small in
    read_back (write_uint max_digits n) t n (write_uint-nonempty 19 n) written.0 written.1 small
