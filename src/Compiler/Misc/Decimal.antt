-- ===== src/Compiler/Misc/Decimal.antt =====
-- The decimal output is the number.
use smolcc.Base.{
  if◌then◌else◌, length, length-append, ℕ, zero, suc, ◌+◌, ◌-◌, ◌*◌, ◌/◌, ◌%◌, ◌^◌, ◌<◌, ◌≤◌, ◌≡◌,
  refl, false, List, [], ◌∷◌, ◌++◌, arith, leb, Bool-cases, inl, inr,
}
use native.Mathlib.Nat.{pow-suc}
use smolcc.Base.Word.{word64}
use smolcc.Compiler.Misc.{write_uint, max_digits}

-- The number that a string of decimal digits denotes, read after a number `acc`.
unfoldable pub value_from : ℕ → List ℕ → ℕ
value_from acc [] = acc
value_from acc (c ∷ s) = value_from (acc * 10 + (c - b'0')) s

abbrev pub value_of : List ℕ → ℕ
value_of s = value_from 0 s

-- Every byte is a digit.
abbrev pub AreDigits : List ℕ → Type 0
AreDigits [] = Unit
AreDigits (c ∷ s) = (b'0' ≤ c) × (c ≤ b'9') × AreDigits s

pub value_from-append :
    (acc : ℕ) (s : List ℕ) (c : ℕ)
    → value_from acc (s ++ c ∷ []) ≡ value_from acc s * 10 + (c - b'0')
unfolding value_from
value_from-append acc [] c = refl
value_from-append acc (d ∷ s) c = value_from-append (acc * 10 + (d - b'0')) s c

pub AreDigits-append :
    (s : List ℕ) (c : ℕ) → AreDigits s → b'0' ≤ c → c ≤ b'9' → AreDigits (s ++ c ∷ [])
AreDigits-append [] c h p q = (p, q, tt)
AreDigits-append (d ∷ s) c h p q = (h.0, h.1, AreDigits-append s c h.2 p q)

leb-false : (a b : ℕ) → leb a b ≡ false → b < a
leb-false a b e = ground arith

-- Ten to the fuel bounds what the digits can hold.
write_uint_fuel :
    (fuel n : ℕ)
    → n < 10 ^ fuel
    → (value_of (write_uint fuel n) ≡ n) × AreDigits (write_uint fuel n)
unfolding write_uint value_from
write_uint_fuel zero n h = omega arith
write_uint_fuel (suc fuel) n h = elim (Bool-cases (leb 10 n)) [
  | inl e ↦
      let front = write_uint_fuel fuel (n / 10) (omega (arith, pow-suc 10 fuel)) in
      rw (e, value_from-append 0 (write_uint fuel (n / 10)) (n % 10 + b'0'), front.0)
        (
          omega arith,
          AreDigits-append (write_uint fuel (n / 10)) (n % 10 + b'0') front.1 (omega arith)
              (omega arith),
        )
  | inr e ↦ let small = leb-false 10 n e in rw e (omega arith)
]

-- There are no more digits than rounds.
pub length-write_uint : (fuel n : ℕ) → length (write_uint fuel n) ≤ fuel
unfolding write_uint
length-write_uint zero n = omega arith
length-write_uint (suc fuel) n =
    let front = length-write_uint fuel (n / 10) in
    let all = length-append (write_uint fuel (n / 10)) ((n % 10 + b'0') ∷ []) in
    elim (Bool-cases (leb 10 n)) [ inl e ↦ rw e (omega arith) | inr e ↦ rw e (omega arith) ]

pub write_uint-nonempty : (fuel n : ℕ) → 0 < length (write_uint (suc fuel) n)
unfolding write_uint
write_uint-nonempty fuel n =
    let long =
      length-append (if leb 10 n then write_uint fuel (n / 10) else []) ((n % 10 + b'0') ∷ []) in
    omega arith

-- What write_uint sends is a string of decimal digits, and denotes the number, for every
-- `unsigned long`.
pub write_uint-value_of :
    (n : ℕ)
    → n < word64
    → (value_of (write_uint max_digits n) ≡ n) × AreDigits (write_uint max_digits n)
write_uint-value_of n h = write_uint_fuel max_digits n (omega arith)
