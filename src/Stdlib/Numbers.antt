-- ===== src/Stdlib/Numbers.antt =====
-- stdlib/stdlib.c: reading numbers. A pointer into the string is the rest of the string there.
use smolcc.Base.{
  ℕ, ◌+◌, ◌-◌, ◌*◌, ◌/◌, ◌%◌, Bool, true, false, ◌&&◌, ◌||◌, List, [], ◌∷◌, Option, some, none, ltb,
  leb, ◌==◌, if◌then◌else◌,
}
use smolcc.Base.Word.{word64, half64, neg64, word32}
use smolcc.Stdlib.Ctype.{isspace, isxdigit, between}
use mathlib.Core.Option.{map, bind as ◌>>=◌}
pub mod Laws

-- None is -1.
unfoldable pub digit_to_int_in : ℕ → ℕ → Option ℕ
digit_to_int_in base c =
    let digit =
      if between b'0' b'9' c
      then c - b'0'
      else if between b'a' b'z' c
      then c - b'a' + 10
      else if between b'A' b'Z' c
      then c - b'A' + 10
      else base in
    if leb base digit then none else some digit

-- `while (isspace(*s)) s++;`
unfoldable pub skip_space : List ℕ → Option (List ℕ)
skip_space [] = none
skip_space (c ∷ s) = let rest = skip_space s in if isspace c then rest else some (c ∷ s)

-- Whether there is a minus sign, and what follows the sign.
unfoldable pub skip_sign : List ℕ → Option (Bool × List ℕ)
skip_sign [] = none
skip_sign (c ∷ s) = if c == b'+' || c == b'-' then some (c == b'-', s) else some (false, c ∷ s)

-- Whether the string starts with 0x or 0X and a hexadecimal digit, read no further than needed.
unfoldable pub has_hex_prefix : List ℕ → Option Bool
has_hex_prefix [] = none
has_hex_prefix (a ∷ []) = if a == b'0' then none else some false
has_hex_prefix (a ∷ b ∷ []) = if a == b'0' && (b == b'x' || b == b'X') then none else some false
has_hex_prefix (a ∷ b ∷ c ∷ s) = some (a == b'0' && (b == b'x' || b == b'X') && isxdigit c)

abbrev pub starts_with_zero : List ℕ → Bool
starts_with_zero [] = false
starts_with_zero (c ∷ s) = c == b'0'

abbrev pub drop_two : List ℕ → List ℕ
drop_two (a ∷ b ∷ s) = s
drop_two s = s

-- The base and where the digits start.
unfoldable pub choose_base : ℕ → List ℕ → Option (ℕ × List ℕ)
choose_base base s =
    let plain = if base == 0 then if starts_with_zero s then (8, s) else (10, s) else (base, s) in
    if base == 0 || base == 16
    then map (λ is_hex. if is_hex then (16, drop_two s) else plain) (has_hex_prefix s)
    else some plain

-- The first loop: the value, whether it overflowed, and the rest of the string.
unfoldable pub accumulate : ℕ → ℕ → List ℕ → Option (ℕ × Bool × List ℕ)
accumulate base n [] = none
accumulate base n (c ∷ s) = elim (digit_to_int_in base c) [
  | none ↦ some (n, false, c ∷ s)
  | some digit ↦
      let rest = accumulate base ((n * base + digit) % word64) s in
      if ltb ((word64 - 1 - digit) / base) n then some (n, true, c ∷ s) else rest
]

-- The second loop.
unfoldable pub skip_digits : ℕ → List ℕ → Option (List ℕ)
skip_digits base [] = none
skip_digits base (c ∷ s) = elim (digit_to_int_in base c) [
  | none ↦ some (c ∷ s)
  | some digit ↦ skip_digits base s
]

-- What try_parse leaves: `*negp`, `*valp`, `*endp`, and whether it returns 0. The end is `none` if
-- there is no digit, so that `*endp` is the whole string.
pub record Parsed : Type 0 where
  pub neg : Bool
  pub val : ℕ
  pub rest : List ℕ
  pub overflow : Bool

-- `base` is the bit pattern of an `int`; `base < 0 || base == 1 || base > 36` makes it 36.
abbrev pub valid_base : ℕ → ℕ
valid_base base = if base == 1 || ltb 36 base then 36 else base

-- `s == before_digits`: no character was read after the sign.
abbrev pub is_empty_between : List ℕ → List ℕ → Bool
is_empty_between [] [] = true
is_empty_between (a ∷ s) (b ∷ t) = is_empty_between s t
is_empty_between _ _ = false

unfoldable pub try_parse : List ℕ → ℕ → Option Parsed
try_parse s base = do
  spaced ← skip_space s
  (neg, before_digits) ← skip_sign spaced
  (base', digits) ← choose_base (valid_base base) before_digits
  (n, overflow, t) ← accumulate base' 0 digits
  t' ← skip_digits base' t
  some (record {
    neg = neg;
    val = n;
    rest = if is_empty_between t' before_digits then s else t';
    overflow = overflow;
  })

-- A result, whether errno was set to ERANGE, and `*endp`.
pub record Number : Type 0 where
  pub value : ℕ
  pub erange : Bool
  pub rest : List ℕ

unfoldable pub strtoul : List ℕ → ℕ → Option Number
strtoul s base = do
  p ← try_parse s base
  some (
      if p.overflow
      then record { value = word64 - 1; erange = true; rest = p.rest }
      else record { value = if p.neg then neg64 p.val else p.val; erange = false; rest = p.rest })

-- LONG_MIN is the pattern 2 ^ 63, and LONG_MAX is 2 ^ 63 - 1.
unfoldable pub strtol : List ℕ → ℕ → Option Number
strtol s base = do
  p ← try_parse s base
  some (
      if p.overflow
      then record { value = if p.neg then half64 else half64 - 1; erange = true; rest = p.rest }
      else if p.neg
      then if ltb half64 p.val
        then record { value = half64; erange = true; rest = p.rest }
        else record { value = neg64 p.val; erange = false; rest = p.rest }
      else if ltb (half64 - 1) p.val
      then record { value = half64 - 1; erange = true; rest = p.rest }
      else record { value = p.val; erange = false; rest = p.rest })

unfoldable pub atol : List ℕ → Option ℕ
atol s = map (λ n. n.value) (strtol s 10)

unfoldable pub atoi : List ℕ → Option ℕ
atoi s = map (λ n. n % word32) (atol s)
