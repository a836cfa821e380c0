-- ===== src/Stdlib/Strings/Laws.antt =====
-- The functions of stdlib/string.c on strings that end within the memory that may be read.
use smolcc.Base.{
  ℕ, zero, suc, ◌<◌, ◌≡◌, refl, ap, sym, List, [], ◌∷◌, ◌++◌, Option, some, ltb, ◌==◌,
  if◌then◌else◌, arith, length,
}
use mathlib.Core.Logic.{◌↔◌}
use smolcc.Stdlib.Strings.{strlen, strnlen, strcmp, difference}

-- The characters of a string, none of which is the terminator, and each a byte.
abbrev pub AreChars : List ℕ → Type 0
AreChars [] = Unit
AreChars (c ∷ s) = (0 < c) × (c < 256) × AreChars s

abbrev min : ℕ → ℕ → ℕ
min a b = if ltb b a then b else a

-- `strlen` is the number of the characters before the terminator, and `strnlen` the lesser of that
-- and its bound.
pub strnlen-strlen :
    (s t : List ℕ) (n : ℕ)
    → AreChars s
    → (strlen (s ++ 0 ∷ t) ≡ some (length s)) × (strnlen (s ++ 0 ∷ t) n ≡ some (min (length s) n))
unfolding strlen strnlen
strnlen-strlen [] t zero h = (refl, refl)
strnlen-strlen [] t (suc n) h = (refl, ap some (ground arith))
strnlen-strlen (zero ∷ s) t n h = absurd (omega arith)
strnlen-strlen (suc c ∷ s) t zero h =
    (rw (strnlen-strlen s t 0 h.2).0 (ap some (omega arith)), ap some (ground arith))
strnlen-strlen (suc c ∷ s) t (suc n) h =
    let rest = strnlen-strlen s t n h.2 in
    (rw rest.0 (ap some (omega arith)), rw rest.1 (ap some (ground arith)))

-- The differences of bytes are the same number only if the bytes are equal.
difference-zero : (a b : ℕ) → a < 256 → b < 256 → difference a b ≡ 0 → a ≡ b
difference-zero a b h k e = omega arith

-- One round of the comparison that ends with 0 after a character.
strcmp_round :
    (a b : ℕ) (o : Option ℕ)
    → 0 < a
    → a < 256
    → b < 256
    → (if a == b then (if a == 0 then some 0 else o) else some (difference a b)) ≡ some 0
    → (a ≡ b) × (o ≡ some 0)
strcmp_round a b o p q r e = (ground arith, ground arith)

strcmp_refl : (s u v : List ℕ) → AreChars s → strcmp (s ++ 0 ∷ u) (s ++ 0 ∷ v) ≡ some 0
unfolding strcmp
strcmp_refl [] u v h = refl
strcmp_refl (a ∷ s) u v h = let rest = strcmp_refl s u v h.2 in ground arith

strcmp-zero :
    (s t u v : List ℕ) → AreChars s → AreChars t → strcmp (s ++ 0 ∷ u) (t ++ 0 ∷ v) ≡ some 0 → s ≡ t
unfolding strcmp
strcmp-zero [] [] u v h k e = refl
strcmp-zero [] (b ∷ t) u v h k e = absurd (ground arith)
strcmp-zero (a ∷ s) [] u v h k e = absurd (ground arith)
strcmp-zero (a ∷ s) (b ∷ t) u v h k e =
    let both = strcmp_round a b (strcmp (s ++ 0 ∷ u) (t ++ 0 ∷ v)) h.0 h.1 k.1 e in
    let tail = strcmp-zero s t u v h.2 k.2 both.1 in rw (both.0, tail) refl

-- `strcmp` of two strings is 0 exactly when their characters are the same.
pub strcmp_zero_iff :
    (s t u v : List ℕ)
    → AreChars s
    → AreChars t
    → (strcmp (s ++ 0 ∷ u) (t ++ 0 ∷ v) ≡ some 0) ↔ (s ≡ t)
strcmp_zero_iff s t u v h k = (strcmp-zero s t u v h k, λ e. rw (sym e) (strcmp_refl s u v h))
