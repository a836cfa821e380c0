-- ===== src/Stdlib/PrintfTests.antt =====
-- Formatted output on concrete arguments.
use smolcc.Base.{ℕ, ◌≡◌, refl, true, List, [], ◌∷◌, some, length, arith}
use smolcc.Compiler.Misc.{write_uint, max_digits}
use smolcc.Stdlib.TestTape.{tape, on_tape, tape-IsWriter, two_bytes}
use smolcc.Stdlib.Printf.Digits.{uint_to_dec, int_to_hex, int_to_oct, max_int_len}
use smolcc.Stdlib.Printf.Spec.{FmtSpec, clear_spec, ulong_type}
use smolcc.Stdlib.Printf.Format.{fmt_str_core, fmt_num_core, fmt_int}
use smolcc.Stdlib.Printf.Numerals.{uint_to_dec-write_uint, value_in, int_to_hex-int_to_oct}
use smolcc.Stdlib.Printf.Fields.{Prints, num_field, greater}
use smolcc.Stdlib.Printf.Fields.Strings.{fmt_str_core-Prints}
use smolcc.Stdlib.Printf.Fields.Numbers.{fmt_num_core-Prints, fmt_int-Prints}

uint_to_dec-write_uint_example : uint_to_dec max_int_len 4096 [] ≡ some (write_uint max_digits 4096)
uint_to_dec-write_uint_example = uint_to_dec-write_uint 4096 (omega arith)

int_to_hex-int_to_oct_example :
    (value_in 16 0 (int_to_hex max_int_len 48879 true []) ≡ 48879)
    × (value_in 8 0 (int_to_oct max_int_len 48879 []) ≡ 48879)
int_to_hex-int_to_oct_example = int_to_hex-int_to_oct 48879 true (omega arith)

-- `%-4d` and the rest of a format.
abbrev format : List ℕ
format = b'%' ∷ b'-' ∷ b'4' ∷ b'd' ∷ b'!' ∷ 0 ∷ []

-- A field of five characters, filled on the right.
abbrev wide : FmtSpec
wide = record clear_spec { type = ulong_type; base = 10; min_width = 5; pad_right = true }

fmt_str_core-Prints_example :
    Prints tape on_tape
      (b'h' ∷ b'i' ∷ b' ' ∷ b' ' ∷ b' ' ∷ [])
      5
      two_bytes
      []
      (fmt_str_core tape wide (b'h' ∷ b'i' ∷ []) two_bytes [])
fmt_str_core-Prints_example =
    fmt_str_core-Prints tape on_tape tape-IsWriter wide (b'h' ∷ b'i' ∷ []) two_bytes []
      (omega arith, omega arith) (omega arith) (omega arith)

abbrev zeros : FmtSpec
zeros = record clear_spec { type = ulong_type; base = 16; min_width = 6; zeropad = true }

fmt_num_core-Prints_example :
    Prints tape on_tape
      (b'0' ∷ b'x' ∷ b'0' ∷ b'0' ∷ b'0' ∷ b'f' ∷ [])
      6
      two_bytes
      []
      (fmt_num_core tape (b'0' ∷ b'x' ∷ []) (b'f' ∷ []) zeros two_bytes [])
fmt_num_core-Prints_example =
    fmt_num_core-Prints tape on_tape tape-IsWriter (b'0' ∷ b'x' ∷ []) (b'f' ∷ []) zeros two_bytes []
      (omega arith, omega arith) (omega arith) (omega arith)

fmt_int-Prints_example :
    Prints tape on_tape
      (num_field tape on_tape wide [] (write_uint max_digits 42))
      (greater tape on_tape (length (write_uint max_digits 42)) 5)
      two_bytes
      []
      (fmt_int tape wide 42 two_bytes [])
fmt_int-Prints_example =
    fmt_int-Prints tape on_tape tape-IsWriter wide 42 two_bytes [] (omega arith, omega arith) refl
      refl (omega arith) (omega arith)
