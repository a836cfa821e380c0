-- ===== src/Stdlib/FileTests.antt =====
-- Buffered files and getopt on a concrete system and command line.
use smolcc.Base.{
  ◌≡◌, ◌-◌, ◌^◌, ◌≤◌, ◌⊎◌, inl, ℕ, zero, suc, refl, true, List, [], ◌∷◌, Option, some, arith,
}
use smolcc.Stdlib.File.{File, zeroed, Streams, file_alloc, max_files}
use smolcc.Stdlib.File.Calls.{fflush, write_bytes, read_bytes}
use smolcc.Stdlib.File.Writing.{Emptied, fflush-Emptied, Took, write_bytes-Took}
use smolcc.Stdlib.File.Reading.{Got, read_bytes-Got}
use smolcc.Stdlib.File.Table.{IsTable, Allocated, file_alloc-Allocated}
use smolcc.Base.Word.{word64}
use mathlib.Core.Logic.{◌↔◌}
use smolcc.Stdlib.Syscall.{set_errno, answer_of, answer_of-set_errno}
use smolcc.Stdlib.TestTape.{tape, on_tape, tape-IsWriter, tape-IsReader, two_bytes}
use smolcc.Stdlib.Getopt.{init_getopt, getopt}
use smolcc.Stdlib.Getopt.Ends.{Goes, todo, getopt-Goes, HaveEnds, HasEnd, HasLetter}

fflush-Emptied_example :
    Emptied tape on_tape two_bytes (b'o' ∷ []) (fflush tape two_bytes (b'o' ∷ []))
fflush-Emptied_example =
    fflush-Emptied tape on_tape tape-IsWriter two_bytes (b'o' ∷ []) (omega arith, omega arith)

write_bytes-Took_example :
    Took tape on_tape
      (b'j' ∷ b'k' ∷ [])
      two_bytes
      []
      (write_bytes tape (b'j' ∷ b'k' ∷ []) two_bytes [])
write_bytes-Took_example =
    write_bytes-Took tape on_tape tape-IsWriter (b'j' ∷ b'k' ∷ []) two_bytes []
      (omega arith, omega arith)

read_bytes-Got_example :
    Got tape on_tape 3 two_bytes (b'j' ∷ b'k' ∷ []) (read_bytes tape 3 two_bytes (b'j' ∷ b'k' ∷ []))
read_bytes-Got_example =
    read_bytes-Got tape on_tape tape-IsReader 3 two_bytes (b'j' ∷ b'k' ∷ [])
      (omega arith, omega arith)

abbrev repeated : ℕ → List File
repeated zero = []
repeated (suc n) = zeroed ∷ repeated n

abbrev no_streams : Streams
no_streams = record { files = repeated max_files; n_streams = 0 }

no_streams-IsTable : IsTable no_streams
no_streams-IsTable = record { full_length = refl; counted = refl }

file_alloc-Allocated_example :
    IsTable (file_alloc no_streams true).1 × Allocated no_streams (file_alloc no_streams true)
file_alloc-Allocated_example = file_alloc-Allocated no_streams true no_streams-IsTable

abbrev writer : File
writer = record zeroed { fd = 1; w = true }

abbrev one_stream : Streams
one_stream = record { files = writer ∷ repeated 31; n_streams = 1 }

one_stream-IsTable : IsTable one_stream
one_stream-IsTable = record { full_length = refl; counted = refl }

-- `prog -ab x`, with the options "ab:".
abbrev words : List (Option (List ℕ))
words = some (b'p' ∷ 0 ∷ []) ∷ some (b'-' ∷ b'a' ∷ b'b' ∷ 0 ∷ []) ∷ some (b'x' ∷ 0 ∷ []) ∷ []

abbrev options : List ℕ
options = b'a' ∷ b'b' ∷ b':' ∷ 0 ∷ []

getopt-Goes_example : Goes words (todo words init_getopt) (getopt words options init_getopt)
unfolding HaveEnds HasEnd HasLetter
getopt-Goes_example = getopt-Goes words options init_getopt (tt, (tt, (tt, tt))) tt tt

-- The answer 0, as of `read` at the end of a file, and the error number 2.
answer_of-set_errno_example :
    (((set_errno 0 7).0 ≡ word64 - 1) ↔ (2 ^ 63 ≤ 0))
    × (answer_of (set_errno 0 7) ≡ 0)
    × (((set_errno 0 7).1 ≡ 7) ⊎ ((set_errno 0 7).0 ≡ word64 - 1))
answer_of-set_errno_example = answer_of-set_errno 0 7 (inl (omega arith))

set_errno_runs : set_errno (word64 - 2) 7 ≡ (word64 - 1, 2)
unfolding set_errno
set_errno_runs = refl
