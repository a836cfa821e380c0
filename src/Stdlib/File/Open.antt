-- ===== src/Stdlib/File/Open.antt =====
-- Opening and closing streams, `fopen`, `fclose`, `_init_stdio` and `_fini_stdio` of stdlib/stdio.c.
use smolcc.Base.{
  ℕ, zero, suc, ◌+◌, Bool, true, false, ◌&&◌, List, [], ◌∷◌, Option, none, some, get_elem?, ◌==◌,
  if◌then◌else◌,
}
use mathlib.Core.Option.{bind as ◌>>=◌}
use smolcc.Stdlib.Strings.{strcmp}
use smolcc.Stdlib.File.{File, Streams, zeroed, set_file, file_alloc, file_free, max_files}
use smolcc.Stdlib.File.Calls.{System, Io, fflush}

-- O_RDONLY; O_WRONLY | O_CREAT | O_TRUNC; O_WRONLY | O_CREAT | O_APPEND
abbrev pub open_read : ℕ
open_read = 0

abbrev pub open_write : ℕ
open_write = 577

abbrev pub open_append : ℕ
open_append = 1089

abbrev pub einval : ℕ
einval = 22

abbrev pub is_mode : List ℕ → List ℕ → Option Bool
is_mode mode name = elim (strcmp mode name) [ some d ↦ some (d == 0) | none ↦ none ]

-- `!strcmp(mode, a) || !strcmp(mode, b)`
abbrev pub is_either : List ℕ → List ℕ → List ℕ → Option Bool
is_either mode a b = elim (is_mode mode a) [
  | some found ↦ if found then some true else is_mode mode b
  | none ↦ none
]

-- The flags for open and whether the stream is for writing; `some none` if the mode is none of these.
unfoldable pub mode_flags : List ℕ → Option (Option (ℕ × Bool))
mode_flags mode = elim (is_either mode (b'r' ∷ 0 ∷ []) (b'r' ∷ b'b' ∷ 0 ∷ [])) [
  | none ↦ none
  | some r ↦
      if r
      then some (some (open_read, false))
      else elim (is_either mode (b'w' ∷ 0 ∷ []) (b'w' ∷ b'b' ∷ 0 ∷ [])) [
        | none ↦ none
        | some w ↦
            if w
            then some (some (open_write, true))
            else elim (is_either mode (b'a' ∷ 0 ∷ []) (b'a' ∷ b'b' ∷ 0 ∷ [])) [
              | none ↦ none
              | some a ↦ if a then some (some (open_append, true)) else some none
            ]
      ]
]

abbrev pub file_at : Streams → ℕ → File
file_at s i = elim (get_elem? s.files i) [ some f ↦ f | none ↦ zeroed ]

module _ {W : Type 0} (sys : System W) (open_file : List ℕ → ℕ → ℕ → W → Option ℕ × W) where
  -- After a stream has been allocated: open, or give the stream back.
  unfoldable pub open_stream : List ℕ → ℕ → Option ℕ × Streams → W → Option ℕ × Streams × W
  open_stream name flags (none, s) w = (none, s, w)
  open_stream name flags (some i, s) w =
      let called = open_file name flags 420 w in
      elim called.0 [
        | some fd ↦ (
          some i,
          record s { files = set_file s.files i (record (file_at s i) { fd = fd }) },
          called.1,
        )
        | none ↦ (none, file_free s i, called.1)
      ]

  -- The stream, `errno` where fopen sets it, the streams and the system.
  unfoldable pub fopen : List ℕ → List ℕ → Streams → W → Option (Option ℕ × Option ℕ × Streams × W)
  fopen name mode s w = elim (mode_flags mode) [
    | none ↦ none
    | some none ↦ some (none, some einval, s, w)
    | some (some (flags, is_write)) ↦
        let (i, s', w') = open_stream name flags (file_alloc s is_write) w in some (i, none, s', w')
  ]

  abbrev pub close_stream : ℕ → Bool → Streams → Io W Bool → Bool × Streams × W
  close_stream i ok s (flushed, f, w) =
      let (closed, w') = sys.close f.fd w in (ok && (flushed && closed), file_free s i, w')

  -- Whether all was written and close succeeded, false being EOF. The stream is given back anyway.
  unfoldable pub fclose : ℕ → Streams → W → Option (Bool × Streams × W)
  fclose i s w =
      let f = file_at s i in
      if f.w
      then elim (fflush sys f w) [ some r ↦ some (close_stream i true s r) | none ↦ none ]
      else some (close_stream i true s (true, f, w))

  -- _fini_stdio from the stream `i` on, `n` streams: each that is for writing is flushed.
  unfoldable pub flush_all : ℕ → ℕ → Streams → W → Option (Streams × W)
  flush_all zero i s w = some (s, w)
  flush_all (suc n) i s w =
      let f = file_at s i in
      let rest = λ (s' : Streams) (w' : W). flush_all n (i + 1) s' w' in
      if f.w
      then elim (fflush sys f w) [
        | some (ok, f', w') ↦ rest (record s { files = set_file s.files i f' }) w'
        | none ↦ none
      ]
      else rest s w

  unfoldable pub fini_stdio : Streams → W → Option (Streams × W)
  fini_stdio s w = flush_all max_files 0 s w

-- `stream = file_alloc(flags); stream->fd = fd;`, a fault where there is no stream.
unfoldable pub alloc_fd : Streams → Bool → ℕ → Option (ℕ × Streams)
alloc_fd s is_write fd =
    let (o, s') = file_alloc s is_write in
    elim o [
      | some i ↦
          some (i, record s' { files = set_file s'.files i (record (file_at s' i) { fd = fd }) })
      | none ↦ none
    ]

-- stdin, stdout and stderr, and the streams.
unfoldable pub init_stdio : Streams → Option ((ℕ × ℕ × ℕ) × Streams)
unfolding alloc_fd
init_stdio s = do
  (input, s1) ← alloc_fd s false 0
  (output, s2) ← alloc_fd s1 true 1
  (errors, s3) ← alloc_fd s2 true 2
  some ((input, output, errors), s3)
