-- ===== src/Stdlib/Ctype.antt =====
-- stdlib/ctype.c: the classes of characters. The argument is a byte or EOF; the model takes the bit
-- pattern of the `int`, so that a negative number is 2 ^ 31 or more and is in no class.
pub mod Laws
use smolcc.Base.{ℕ, ◌+◌, ◌-◌, Bool, ◌&&◌, ◌||◌, not, leb, ltb, ◌==◌, if◌then◌else◌}

-- `c >= lo && c <= hi`
abbrev pub between : ℕ → ℕ → ℕ → Bool
between lo hi c = leb lo c && leb c hi

unfoldable pub iscntrl : ℕ → Bool
iscntrl c = between 0 31 c || c == 127

unfoldable pub isprint : ℕ → Bool
isprint c = leb 32 c && ltb c 127

unfoldable pub isgraph : ℕ → Bool
isgraph c = ltb 32 c && ltb c 127

unfoldable pub isblank : ℕ → Bool
isblank c = c == b' ' || c == 9

unfoldable pub isspace : ℕ → Bool
isspace c = c == b' ' || c == 9 || c == 10 || c == 13 || c == 12 || c == 11

unfoldable pub isalpha : ℕ → Bool
isalpha c = between b'a' b'z' c || between b'A' b'Z' c

unfoldable pub isdigit : ℕ → Bool
isdigit c = between b'0' b'9' c

unfoldable pub isalnum : ℕ → Bool
unfolding isalpha isdigit
isalnum c = isalpha c || isdigit c

unfoldable pub ispunct : ℕ → Bool
unfolding isgraph isalnum isalpha isdigit
ispunct c = isgraph c && not (isalnum c)

unfoldable pub islower : ℕ → Bool
islower c = between b'a' b'z' c

unfoldable pub isupper : ℕ → Bool
isupper c = between b'A' b'Z' c

unfoldable pub isxdigit : ℕ → Bool
unfolding isdigit
isxdigit c = isdigit c || between b'a' b'f' c || between b'A' b'F' c

-- `c | (1 << 5)` on a letter A to Z, whose bit 5 is clear, and `c & ~(1 << 5)` on a letter a to z,
-- whose bit 5 is set.
unfoldable pub tolower : ℕ → ℕ
unfolding isupper
tolower c = if isupper c then c + 32 else c

unfoldable pub toupper : ℕ → ℕ
unfolding islower
toupper c = if islower c then c - 32 else c
