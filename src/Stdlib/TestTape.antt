-- ===== src/Stdlib/TestTape.antt =====
-- A concrete system for the tests of buffered files and printf.
use smolcc.Base.{ℕ, zero, suc, refl, sym, true, List, [], ◌∷◌, ◌++◌, Option, none, some, arith}
use mathlib.Core.List.{append-nil}
use smolcc.Stdlib.File.{File, zeroed}
use smolcc.Stdlib.File.Calls.{System, put_byte}
use smolcc.Stdlib.File.Writing.{IsWriter}
use smolcc.Stdlib.File.Reading.{IsReader}

-- A system with one file, which is read at its start and written at its end, a byte at each call.
abbrev pub write_one : List ℕ → List ℕ → Option ℕ × List ℕ
write_one [] w = (some 0, w)
write_one (c ∷ s) w = (some 1, w ++ c ∷ [])

abbrev pub read_one : ℕ → List ℕ → Option (List ℕ) × List ℕ
read_one zero w = (none, w)
read_one (suc n) [] = (some [], [])
read_one (suc n) (c ∷ w) = (some (c ∷ []), w)

abbrev pub tape : System (List ℕ)
tape = record {
  write = λ fd s w. write_one s w;
  read = λ fd n w. read_one n w;
  close = λ fd w. (true, w);
}

abbrev pub on_tape : ℕ → List ℕ → List ℕ
on_tape fd w = w

pub tape-IsWriter : IsWriter tape on_tape
unfolding IsWriter
tape-IsWriter fd [] w = (omega arith, λ h. absurd (omega arith), sym (append-nil w))
tape-IsWriter fd (c ∷ s) w = (omega arith, λ h. omega arith, refl)

pub tape-IsReader : IsReader tape on_tape
unfolding IsReader
tape-IsReader fd zero w = refl
tape-IsReader fd (suc n) [] = (refl, refl)
tape-IsReader fd (suc n) (c ∷ w) = (omega arith, refl)

-- A file with two bytes in its buffer.
abbrev pub two_bytes : File
two_bytes = put_byte tape (put_byte tape zeroed b'h') b'i'
