-- ===== src/Stdlib/Printf/Digits.antt =====
-- The conversions between numbers and digits of stdlib/stdio_printf.c. A text is written from the end of
-- a buffer to its start: a list grows at its head, and `room` is what is left of the buffer.
use smolcc.Base.{
  ℕ, zero, suc, ◌+◌, ◌-◌, ◌*◌, ◌/◌, ◌%◌, ◌^◌, Bool, List, [], ◌∷◌, Option, none, some, length, ltb,
  leb, ◌==◌, if◌then◌else◌,
}
use smolcc.Base.Word.{word32, word64}
use smolcc.Stdlib.Ctype.{isdigit}

-- MAX_INT_LEN
abbrev pub max_int_len : ℕ
max_int_len = 22

-- A digit without room would be stored before the buffer: a fault.
unfoldable pub uint_to_dec : ℕ → ℕ → List ℕ → Option (List ℕ)
uint_to_dec zero n p = none
uint_to_dec (suc room) n p =
    let p' = (b'0' + n % 10) ∷ p in
    let rest = uint_to_dec room (n / 10) p' in if n / 10 == 0 then some p' else rest

-- `prepend(&num_str, '-')`
abbrev pub prepend_minus : ℕ → Option (List ℕ) → Option (List ℕ)
prepend_minus buf_len none = none
prepend_minus buf_len (some s) = if ltb (length s) buf_len then some (b'-' ∷ s) else none

unfoldable pub int_to_dec : ℕ → ℕ → Option (List ℕ)
unfolding uint_to_dec
int_to_dec n buf_len =
    if leb (2 ^ 63) n
    then prepend_minus buf_len (uint_to_dec buf_len ((word64 - (n + 1) % word64) % word64 + 1) [])
    else uint_to_dec buf_len n []

-- The character at `d` in "0123456789ABCDEF", or in lower case.
abbrev pub hex_digit : Bool → ℕ → ℕ
hex_digit uppercase d = if ltb d 10 then b'0' + d else (if uppercase then b'A' else b'a') + (d - 10)

unfoldable pub int_to_hex : ℕ → ℕ → Bool → List ℕ → List ℕ
int_to_hex zero n uppercase p = p
int_to_hex (suc room) n uppercase p =
    let p' = hex_digit uppercase (n % 16) ∷ p in
    let rest = int_to_hex room (n / 16) uppercase p' in if n / 16 == 0 then p' else rest

unfoldable pub int_to_oct : ℕ → ℕ → List ℕ → List ℕ
int_to_oct zero n p = p
int_to_oct (suc room) n p =
    let p' = (b'0' + n % 8) ∷ p in
    let rest = int_to_oct room (n / 8) p' in if n / 8 == 0 then p' else rest

-- The number, an `unsigned int`, and what follows it.
unfoldable pub sscan_int : List ℕ → ℕ → Option (ℕ × List ℕ)
sscan_int [] n = none
sscan_int (c ∷ s) n =
    let rest = sscan_int s ((n * 10 + (c - b'0')) % word32) in
    if isdigit c then rest else some (n, c ∷ s)

-- `n & (~0UL >> (64 - size * 8))`
abbrev pub trunc : ℕ → ℕ → ℕ
trunc size n = n % 2 ^ (size * 8)
