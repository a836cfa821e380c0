-- ===== src/Stdlib/Printf/Numerals.antt =====
-- The digits that stdlib/stdio_printf.c makes of a number.
use smolcc.Base.{
  ℕ, zero, suc, ◌+◌, ◌-◌, ◌*◌, ◌/◌, ◌%◌, ◌^◌, ◌<◌, ◌≤◌, ◌≡◌, refl, ap, ◌∙◌, Bool, true, false, List,
  [], ◌∷◌, ◌++◌, some, leb, ◌==◌, if◌then◌else◌, arith, inl, inr, Bool-cases,
}
use mathlib.Core.List.{append_assoc, append-nil}
use native.Mathlib.Nat.{pow-suc}
use smolcc.Base.Word.{word64}
use smolcc.Compiler.Misc.{write_uint, max_digits}
use smolcc.Stdlib.Printf.Digits.{uint_to_dec, int_to_hex, int_to_oct, hex_digit, max_int_len}

over_zero : (a : ℕ) → (a == 0) ≡ false → 0 < a
over_zero a e = ground arith

is_zero : (a : ℕ) → (a == 0) ≡ true → a ≡ 0
is_zero a e = ground arith

digits_last :
    (fuel room n : ℕ) (p : List ℕ)
    → n / 10 ≡ 0
    → uint_to_dec (suc room) n p ≡ some (write_uint (suc fuel) n ++ p)
unfolding uint_to_dec write_uint
digits_last fuel room n p none_left =
    let short : leb 10 n ≡ false = below_ten n (omega arith) in
    let same : b'0' + n % 10 ≡ n % 10 + b'0' = omega arith in rw (none_left, short, same) refl
  where
    below_ten : (n : ℕ) → n < 10 → leb 10 n ≡ false
    below_ten n h = ground arith

-- With room for them, the digits are those that write_uint sends, which has a round for each.
digits_agree :
    (fuel room n : ℕ) (p : List ℕ)
    → fuel ≤ room
    → n < 10 ^ suc fuel
    → uint_to_dec (suc room) n p ≡ some (write_uint (suc fuel) n ++ p)
unfolding uint_to_dec write_uint
digits_agree zero room n p enough small = digits_last zero room n p (omega arith)
digits_agree (suc fuel) zero n p enough small = absurd (omega arith)
digits_agree (suc fuel) (suc room) n p enough small = elim (Bool-cases (n / 10 == 0)) [
  | inl last ↦ digits_last (suc fuel) (suc room) n p (is_zero (n / 10) last)
  | inr more ↦
      let left = over_zero (n / 10) more in
      let long : leb 10 n ≡ true = above_ten n (omega arith) in
      let same : b'0' + n % 10 ≡ n % 10 + b'0' = omega arith in
      rw (more, long, same, append_assoc (write_uint (suc fuel) (n / 10)) ((n % 10 + b'0') ∷ []) p)
        (digits_agree fuel room (n / 10) ((n % 10 + b'0') ∷ p) (omega arith)
          (omega (arith, pow-suc 10 (suc fuel))))
]
  where
    above_ten : (n : ℕ) → 10 ≤ n → leb 10 n ≡ true
    above_ten n h = ground arith

-- The decimal digits that printf makes of an `unsigned long` are those that the compiler writes, and they
-- fit their buffer.
pub uint_to_dec-write_uint :
    (n : ℕ) → n < word64 → uint_to_dec max_int_len n [] ≡ some (write_uint max_digits n)
uint_to_dec-write_uint n small =
    digits_agree 19 21 n [] (omega arith) (omega arith)
    ∙ ap some (append-nil (write_uint max_digits n))

-- The number that a digit denotes.
abbrev pub digit_value : ℕ → ℕ
digit_value c = if leb c b'9' then c - b'0' else if leb c b'F' then c - b'A' + 10 else c - b'a' + 10

-- The number that digits in a base denote, read after a number `acc`.
abbrev pub value_in : ℕ → ℕ → List ℕ → ℕ
value_in base acc [] = acc
value_in base acc (c ∷ s) = value_in base (acc * base + digit_value c) s

hex_digit_value : (uppercase : Bool) (d : ℕ) → d < 16 → digit_value (hex_digit uppercase d) ≡ d
hex_digit_value true d h = ground arith
hex_digit_value false d h = ground arith

hex_last :
    (room n : ℕ) (uppercase : Bool) (p : List ℕ)
    → n / 16 ≡ 0
    → value_in 16 0 (int_to_hex (suc room) n uppercase p) ≡ value_in 16 n p
unfolding int_to_hex
hex_last room n uppercase p none_left =
    let all : 0 * 16 + digit_value (hex_digit uppercase (n % 16)) ≡ n =
      omega (arith, hex_digit_value uppercase (n % 16) (omega arith)) in
    rw (none_left, all) refl

hex_value :
    (room n : ℕ) (uppercase : Bool) (p : List ℕ)
    → n < 16 ^ suc room
    → value_in 16 0 (int_to_hex (suc room) n uppercase p) ≡ value_in 16 n p
unfolding int_to_hex
hex_value zero n uppercase p small = hex_last zero n uppercase p (omega arith)
hex_value (suc room) n uppercase p small = elim (Bool-cases (n / 16 == 0)) [
  | inl last ↦ hex_last (suc room) n uppercase p (is_zero (n / 16) last)
  | inr more ↦
      let all : n / 16 * 16 + digit_value (hex_digit uppercase (n % 16)) ≡ n =
        omega (arith, hex_digit_value uppercase (n % 16) (omega arith)) in
      rw more (
        hex_value room (n / 16) uppercase ((hex_digit uppercase (n % 16)) ∷ p)
          (omega (arith, pow-suc 16 (suc room)))
        ∙ ap (λ m. value_in 16 m p) all)
]

oct_digit_value : (d : ℕ) → d < 8 → digit_value (b'0' + d) ≡ d
oct_digit_value d h = ground arith

oct_last :
    (room n : ℕ) (p : List ℕ)
    → n / 8 ≡ 0
    → value_in 8 0 (int_to_oct (suc room) n p) ≡ value_in 8 n p
unfolding int_to_oct
oct_last room n p none_left =
    let all : 0 * 8 + digit_value (b'0' + n % 8) ≡ n =
      omega (arith, oct_digit_value (n % 8) (omega arith)) in
    rw (none_left, all) refl

oct_value :
    (room n : ℕ) (p : List ℕ)
    → n < 8 ^ suc room
    → value_in 8 0 (int_to_oct (suc room) n p) ≡ value_in 8 n p
unfolding int_to_oct
oct_value zero n p small = oct_last zero n p (omega arith)
oct_value (suc room) n p small = elim (Bool-cases (n / 8 == 0)) [
  | inl last ↦ oct_last (suc room) n p (is_zero (n / 8) last)
  | inr more ↦
      let all : n / 8 * 8 + digit_value (b'0' + n % 8) ≡ n =
        omega (arith, oct_digit_value (n % 8) (omega arith)) in
      rw more (
        oct_value room (n / 8) ((b'0' + n % 8) ∷ p) (omega (arith, pow-suc 8 (suc room)))
        ∙ ap (λ m. value_in 8 m p) all)
]

-- The hexadecimal and octal digits that printf makes of an `unsigned long` denote it: none is missing for
-- want of room.
pub int_to_hex-int_to_oct :
    (n : ℕ) (uppercase : Bool)
    → n < word64
    → (value_in 16 0 (int_to_hex max_int_len n uppercase []) ≡ n)
      × (value_in 8 0 (int_to_oct max_int_len n []) ≡ n)
int_to_hex-int_to_oct n uppercase small =
    (hex_value 21 n uppercase [] (omega arith), oct_value 21 n [] (omega arith))
