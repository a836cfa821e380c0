-- ===== src/Compiler/Misc.antt =====
-- `write_uint` to `find_chr` of compiler/smolcc1.c: decimal output, and comparisons of C strings.
-- A pointer to characters is the list of bytes from there to the end of the memory that may be read;
-- a read past it is a fault, `none`.
pub mod Decimal
pub mod Laws
pub mod Writef
pub mod Written
use smolcc.Base.{
  ℕ, zero, suc, ◌+◌, ◌-◌, ◌*◌, ◌/◌, ◌%◌, Bool, true, false, List, [], ◌∷◌, ◌++◌, Option, some, none,
  leb, ◌==◌, if◌then◌else◌,
}
use smolcc.Base.Word.{word64, word32, is_neg64}

-- The bytes that write_uint sends, with fuel for the digits.
unfoldable pub write_uint : ℕ → ℕ → List ℕ
write_uint zero n = []
write_uint (suc fuel) n =
    let front = write_uint fuel (n / 10) in
    (if leb 10 n then front else []) ++ ((n % 10 + b'0') ∷ [])

-- The digits of an `unsigned long`, 20 at most.
abbrev pub max_digits : ℕ
max_digits = 20

-- `(unsigned long)(-(n + 1)) + 1` of a negative `long`, by its bit pattern.
abbrev pub magnitude : ℕ → ℕ
magnitude n = (word64 - (n + 1) % word64) % word64 + 1

unfoldable pub write_int : ℕ → List ℕ
unfolding write_uint
write_int n =
    if is_neg64 n then b'-' ∷ write_uint max_digits (magnitude n) else write_uint max_digits n

-- `while (*a && *b) if (*a++ != *b++) return 0; return *a == *b;`
unfoldable pub str_eq : List ℕ → List ℕ → Option Bool
str_eq (zero ∷ as') (b ∷ bs) = some (0 == b)
str_eq (suc a ∷ as') (zero ∷ bs) = some false
str_eq (suc a ∷ as') (suc b ∷ bs) = let rest = str_eq as' bs in if a == b then rest else some false
str_eq _ _ = none

unfoldable pub mem_eq : List ℕ → List ℕ → ℕ → Option Bool
mem_eq as' bs zero = some true
mem_eq (a ∷ as') (b ∷ bs) (suc n) =
    let rest = mem_eq as' bs n in if a == b then rest else some false
mem_eq _ _ (suc n) = none

-- On an `int`; the sum does not reach INT_MAX where the compiler calls it.
unfoldable pub align_up : ℕ → ℕ → ℕ
align_up n align = (n + align - 1) / align * align % word32

-- The string from the first `c` on, if there is one before the terminator: `some none` is 0.
unfoldable pub find_chr : List ℕ → ℕ → Option (Option (List ℕ))
find_chr [] c = none
find_chr (zero ∷ s) c = some none
find_chr (suc a ∷ s) c = if c == suc a then some (some (suc a ∷ s)) else find_chr s c
