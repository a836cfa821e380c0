-- ===== src/Stdlib/Tests.antt =====
-- The library functions on concrete arguments.
use smolcc.Base.{
  ℕ, ◌*◌, ◌+◌, ◌==◌, ◌||◌, ◌&&◌, ◌<◌, ◌≡◌, List, [], ◌∷◌, ◌++◌, some, arith, true, false,
}
use mathlib.Core.Logic.{◌↔◌}
use smolcc.Compiler.Misc.{write_uint, max_digits}
use smolcc.Compiler.Misc.Decimal.{value_of, AreDigits, write_uint-value_of}
use smolcc.Stdlib.Errno.{Error, signed, errlist_find}
use smolcc.Stdlib.Errno.Search.{IsSorted, errlist_find_iff}
use smolcc.Stdlib.Strings.{strcmp}
use smolcc.Stdlib.Strings.Laws.{strcmp_zero_iff}
use smolcc.Stdlib.Numbers.{strtoul}
use smolcc.Stdlib.Numbers.Laws.{strtoul-write_uint}
use smolcc.Stdlib.Ctype.{
  isprint, iscntrl, isalpha, isdigit, ispunct, isalnum, tolower, toupper, isupper, islower,
}
use smolcc.Stdlib.Ctype.Laws.{isprint_cases, toupper-tolower}

abbrev hello : List ℕ
hello = b'h' ∷ b'i' ∷ []

-- A table whose entry `i` has the number 2 * i + 1.
abbrev odd_errors : ℕ → Error
odd_errors i = record { dscr = "odd"; name = "EODD"; num = 2 * i + 1 }

odd_errors-IsSorted : IsSorted odd_errors 5
odd_errors-IsSorted i j h k = omega arith

errlist_find_iff_example :
    (errlist_find odd_errors 5 7 ≡ some 3) ↔ ((3 < 5) × (signed (odd_errors 3).num ≡ signed 7))
errlist_find_iff_example = errlist_find_iff odd_errors 5 7 3 odd_errors-IsSorted

strcmp_zero_iff_example : (strcmp (hello ++ 0 ∷ []) (hello ++ 0 ∷ []) ≡ some 0) ↔ (hello ≡ hello)
strcmp_zero_iff_example = strcmp_zero_iff hello hello [] [] (omega arith) (omega arith)

write_uint-value_of_example :
    (value_of (write_uint max_digits 4096) ≡ 4096) × AreDigits (write_uint max_digits 4096)
write_uint-value_of_example = write_uint-value_of 4096 (omega arith)

strtoul-write_uint_example :
    strtoul (write_uint max_digits 4096 ++ 0 ∷ []) 10
    ≡ some (record { value = 4096; erange = false; rest = 0 ∷ [] })
strtoul-write_uint_example = strtoul-write_uint 4096 [] (omega arith)

isprint_cases_example :
    (isprint b'q' ≡ ((b'q' == b' ') || (isalpha b'q' || (isdigit b'q' || ispunct b'q'))))
    × ((isalpha b'q' && isdigit b'q') ≡ false)
    × ((ispunct b'q' && isalnum b'q') ≡ false)
    × (((b'q' == b' ') && (isalnum b'q' || ispunct b'q')) ≡ false)
    × ((isprint b'q' && iscntrl b'q') ≡ false)
    × (b'q' < 128 → (isprint b'q' || iscntrl b'q') ≡ true)
isprint_cases_example = isprint_cases b'q'

toupper-tolower_example :
    (toupper (tolower b'Q') ≡ toupper b'Q')
    × (tolower (toupper b'Q') ≡ tolower b'Q')
    × (isupper (tolower b'Q') ≡ false)
    × (islower (toupper b'Q') ≡ false)
toupper-tolower_example = toupper-tolower b'Q'
