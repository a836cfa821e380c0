-- ===== src/Stdlib/Strings.antt =====
-- stdlib/string.c: lengths, comparison and search of C strings.
pub mod Laws
use smolcc.Base.{
  ℕ, zero, suc, ◌+◌, ◌-◌, ◌%◌, List, [], ◌∷◌, Option, some, none, ◌==◌, if◌then◌else◌,
}
use smolcc.Base.Word.{word32}
use mathlib.Core.Option.{map}

unfoldable pub strlen : List ℕ → Option ℕ
strlen [] = none
strlen (zero ∷ s) = some 0
strlen (suc c ∷ s) = map (λ n. n + 1) (strlen s)

unfoldable pub strnlen : List ℕ → ℕ → Option ℕ
strnlen s zero = some 0
strnlen [] (suc n) = none
strnlen (zero ∷ s) (suc n) = some 0
strnlen (suc c ∷ s) (suc n) = map (λ m. m + 1) (strnlen s n)

-- `c1 - c2` on an `int`
abbrev pub difference : ℕ → ℕ → ℕ
difference a b = (a + word32 - b) % word32

unfoldable pub strcmp : List ℕ → List ℕ → Option ℕ
strcmp [] t = none
strcmp (a ∷ s) [] = none
strcmp (a ∷ s) (b ∷ t) =
    let rest = strcmp s t in
    if a == b then (if a == 0 then some 0 else rest) else some (difference a b)

unfoldable pub strncmp : List ℕ → List ℕ → ℕ → Option ℕ
strncmp s t zero = some 0
strncmp (a ∷ s) (b ∷ t) (suc n) =
    let rest = strncmp s t n in
    if a == b then (if a == 0 then some 0 else rest) else some (difference a b)
strncmp _ _ (suc n) = none

-- The string from the first `c` on; `some none` is the null pointer. `char ch = c` keeps the low byte.
unfoldable pub strchr_from : List ℕ → ℕ → Option (Option (List ℕ))
strchr_from [] ch = none
strchr_from (zero ∷ s) ch = some none
strchr_from (suc a ∷ s) ch =
    let rest = strchr_from s ch in if suc a == ch then some (some (suc a ∷ s)) else rest

unfoldable pub strchr : List ℕ → ℕ → Option (Option (List ℕ))
unfolding strchr_from
strchr s c = strchr_from s (c % 256)

-- The memory after `n` bytes have been set.
unfoldable pub memset : List ℕ → ℕ → ℕ → Option (List ℕ)
memset s c zero = some s
memset [] c (suc n) = none
memset (a ∷ s) c (suc n) = map (λ t. c % 256 ∷ t) (memset s c n)
