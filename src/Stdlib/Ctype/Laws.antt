-- ===== src/Stdlib/Ctype/Laws.antt =====
-- How the classes of stdlib/ctype.c divide the characters, and the conversions of case.
use smolcc.Base.{ℕ, ◌<◌, ◌==◌, ◌≡◌, true, false, arith, ◌||◌, ◌&&◌}
use smolcc.Stdlib.Ctype.{
  iscntrl, isprint, isgraph, isalnum, isalpha, isdigit, ispunct, islower, isupper, tolower, toupper,
}

-- The characters that print are the space, the letters, the digits and the punctuation, and each is in
-- one of these four only; a control character does not print; and every 7-bit character does one or the
-- other.
pub isprint_cases :
    (c : ℕ)
    → (isprint c ≡ ((c == b' ') || (isalpha c || (isdigit c || ispunct c))))
      × ((isalpha c && isdigit c) ≡ false)
      × ((ispunct c && isalnum c) ≡ false)
      × (((c == b' ') && (isalnum c || ispunct c)) ≡ false)
      × ((isprint c && iscntrl c) ≡ false)
      × (c < 128 → (isprint c || iscntrl c) ≡ true)
unfolding isprint iscntrl ispunct isgraph isalnum isalpha isdigit
isprint_cases c =
    (ground arith, ground arith, ground arith, ground arith, ground arith, λ h. ground arith)

-- Changing to lower case and back gives the upper case of the character, and the other way round;
-- no upper-case letter is left by `tolower`, and no lower-case letter by `toupper`.
pub toupper-tolower :
    (c : ℕ)
    → (toupper (tolower c) ≡ toupper c)
      × (tolower (toupper c) ≡ tolower c)
      × (isupper (tolower c) ≡ false)
      × (islower (toupper c) ≡ false)
unfolding toupper tolower isupper islower
toupper-tolower c = (ground arith, ground arith, ground arith, ground arith)
