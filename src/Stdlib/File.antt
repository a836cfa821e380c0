-- ===== src/Stdlib/File.antt =====
-- stdlib/stdio.c: buffered files. The system calls are outside the model: a section takes them as
-- functions on a state `W` of the system. A `struct file *` is an index into `streams`.
pub mod Calls
mod Slices
pub mod Writing
pub mod Reading
pub mod Table
pub mod Open
use smolcc.Base.{
  ℕ, zero, suc, ◌+◌, ◌-◌, ◌*◌, ◌/◌, ◌%◌, Bool, true, false, ◌&&◌, ◌||◌, not, List, [], ◌∷◌, ◌++◌,
  Option, none, some, length, ltb, leb, ◌==◌, if◌then◌else◌,
}

abbrev pub file_buf_cap : ℕ
file_buf_cap = 1024

abbrev pub max_files : ℕ
max_files = 32

-- struct file. The four bits of `flags` are FFLG_R, FFLG_W, FFLG_EOF and FFLG_ERR; `fd` is the bit
-- pattern of an `int`; `buf` is read and written below `file_buf_cap` only.
pub record File : Type 0 where
  pub fd : ℕ
  pub r : Bool
  pub w : Bool
  pub eof : Bool
  pub err : Bool
  pub buf : ℕ → ℕ
  pub buf_pos : ℕ
  pub buf_len : ℕ

-- `memset(stream, 0, sizeof(struct file))`
abbrev pub zeroed : File
zeroed = record {
  fd = 0;
  r = false;
  w = false;
  eof = false;
  err = false;
  buf = λ i. 0;
  buf_pos = 0;
  buf_len = 0;
}

-- `stream->flags != 0`
abbrev pub in_use : File → Bool
in_use f = f.r || (f.w || (f.eof || f.err))

-- `buf[i] = c`
abbrev pub store : (ℕ → ℕ) → ℕ → ℕ → ℕ → ℕ
store buf i c j = if j == i then c else buf j

-- `n` bytes from `buf + i` on.
unfoldable pub slice : (ℕ → ℕ) → ℕ → ℕ → List ℕ
slice buf i zero = []
slice buf i (suc n) = buf i ∷ slice buf (i + 1) n

-- `read` into the buffer.
unfoldable pub fill_buf : (ℕ → ℕ) → ℕ → List ℕ → ℕ → ℕ
fill_buf buf i [] = buf
fill_buf buf i (c ∷ s) = store (fill_buf buf (i + 1) s) i c

-- What the buffer holds that has not gone on: to the system, or to the reader.
abbrev pub pending : File → List ℕ
pending f = slice f.buf f.buf_pos (f.buf_len - f.buf_pos)

unfoldable pub clearerr : File → File
clearerr f = record f { eof = false; err = false }

abbrev pub feof : File → Bool
feof f = f.eof

abbrev pub ferror : File → Bool
ferror f = f.err

-- The streams and how many are in use.
pub record Streams : Type 0 where
  pub files : List File
  pub n_streams : ℕ

unfoldable pub set_file : List File → ℕ → File → List File
set_file [] i f = []
set_file (g ∷ files) zero f = f ∷ files
set_file (g ∷ files) (suc i) f = g ∷ set_file files i f

unfoldable pub file_free : Streams → ℕ → Streams
unfolding set_file
file_free s i = record { files = set_file s.files i zeroed; n_streams = s.n_streams - 1 }

-- The first file not in use.
unfoldable pub first_free : List File → Option ℕ
first_free [] = none
first_free (f ∷ files) =
    let rest = first_free files in
    if in_use f then elim rest [ some i ↦ some (suc i) | none ↦ none ] else some 0

-- The new file, with `fd = -1` and FFLG_R or FFLG_W.
abbrev pub fresh : List File → ℕ → Bool → File
fresh [] i is_write = record zeroed { fd = 0xffff_ffff; r = not is_write; w = is_write }
fresh (f ∷ files) zero is_write = record f {
  fd = 0xffff_ffff;
  r = not is_write;
  w = is_write;
  eof = false;
  err = false;
}
fresh (f ∷ files) (suc i) is_write = fresh files i is_write

unfoldable pub file_alloc : Streams → Bool → Option ℕ × Streams
unfolding first_free set_file
file_alloc s is_write = if s.n_streams == max_files then (none, s) else elim (first_free s.files) [
  | some i ↦ (
    some i,
    record { files = set_file s.files i (fresh s.files i is_write); n_streams = s.n_streams + 1 },
  )
  | none ↦ (none, s)
]
