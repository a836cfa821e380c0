-- ===== src/Stdlib/File/Calls.antt =====
-- The functions of stdlib/stdio.c that call the system, from `fflush` to `puts`.
use smolcc.Base.{
  ℕ, zero, suc, ◌+◌, ◌-◌, ◌*◌, ◌/◌, ◌%◌, Bool, true, false, not, List, [], ◌∷◌, Option, none, some,
  length, ltb, ◌==◌, if◌then◌else◌,
}
use smolcc.Base.Word.{word64}
use smolcc.Stdlib.File.{File, file_buf_cap, store, slice, fill_buf}

-- The system calls. None is -1; `read` gives the bytes.
pub record System (W : Type 0) : Type 0 where
  pub write : ℕ → List ℕ → W → Option ℕ × W
  pub read : ℕ → ℕ → W → Option (List ℕ) × W
  pub close : ℕ → W → Bool × W

-- A result, the file and the system.
abbrev pub Io : Type 0 → Type 0 → Type 0
Io W A = A × File × W

module _ {W : Type 0} (sys : System W) where
  -- The loop of fflush, at most `fuel` rounds; `none` if they are not enough. The result is whether
  -- all has been written; false is EOF.
  unfoldable pub flush_loop : ℕ → File → W → Option (Io W Bool)
  flush_loop zero f w = if ltb f.buf_pos f.buf_len then none else some (true, f, w)
  flush_loop (suc fuel) f w =
      let called = sys.write f.fd (slice f.buf f.buf_pos (f.buf_len - f.buf_pos)) w in
      let rest = λ (n : ℕ). flush_loop fuel (record f { buf_pos = f.buf_pos + n }) called.1 in
      if ltb f.buf_pos f.buf_len
      then elim called.0 [
        | some n ↦ rest n
        | none ↦ some (false, record f { err = true }, called.1)
      ]
      else some (true, f, w)

  -- After the loop the buffer is empty.
  abbrev pub reset : Io W Bool → Io W Bool
  reset (true, f, w) = (true, record f { buf_pos = 0; buf_len = 0 }, w)
  reset (false, f, w) = (false, f, w)

  abbrev pub then_reset : Option (Io W Bool) → Option (Io W Bool)
  then_reset (some r) = some (reset r)
  then_reset none = none

  -- Each round writes a byte at least, so that a round for each byte is enough.
  unfoldable pub fflush : File → W → Option (Io W Bool)
  unfolding flush_loop
  fflush f w = then_reset (flush_loop (f.buf_len - f.buf_pos) f w)

  -- `stream->buf[stream->buf_len++] = c`
  abbrev pub put_byte : File → ℕ → File
  put_byte f c = record f { buf = store f.buf f.buf_len c; buf_len = f.buf_len + 1 }

  -- Room for a byte: a full buffer is flushed.
  unfoldable pub make_room : File → W → Option (Io W Bool)
  unfolding fflush
  make_room f w = if f.buf_len == file_buf_cap then fflush f w else some (true, f, w)

  abbrev pub count_one : Option (Io W ℕ) → Option (Io W ℕ)
  count_one (some (n, f, w)) = some (n + 1, f, w)
  count_one none = none

  -- The loop of fwrite on the bytes that are left: how many it takes.
  unfoldable pub write_bytes : List ℕ → File → W → Option (Io W ℕ)
  unfolding make_room
  write_bytes [] f w = some (0, f, w)
  write_bytes (c ∷ s) f w = elim (make_room f w) [
    | some (ok, f', w') ↦ elim ok [
      | true ↦ count_one (write_bytes s (put_byte f' c) w')
      | false ↦ some (0, f', w')
    ]
    | none ↦ none
  ]

  -- fwrite of the bytes `s`, which are size * count; the number of objects written.
  unfoldable pub fwrite : List ℕ → ℕ → File → W → Option (Io W ℕ)
  unfolding write_bytes
  fwrite s size f w = elim s [
    | [] ↦ some (0, f, w)
    | c ∷ t ↦ elim (write_bytes (c ∷ t) f w) [
      | some (n, f', w') ↦ some (n / size, f', w')
      | none ↦ none
    ]
  ]

  -- ffill after the buffer has been emptied: whether there is something in it now.
  unfoldable pub ffill : File → W → Io W Bool
  unfolding fill_buf
  ffill f w =
      let called = sys.read f.fd file_buf_cap w in
      elim called.0 [
        | none ↦ (false, record f { err = true }, called.1)
        | some s ↦ elim s [
          | [] ↦ (false, record f { eof = true }, called.1)
          | c ∷ t ↦ (
            true,
            record f { buf = fill_buf f.buf 0 (c ∷ t); buf_len = length (c ∷ t) },
            called.1,
          )
        ]
      ]

  -- `if (buf_pos == buf_len) { buf_pos = buf_len = 0; if (ffill(stream) <= 0) break; }`
  unfoldable pub have_byte : File → W → Io W Bool
  unfolding ffill
  have_byte f w =
      if f.buf_pos == f.buf_len
      then ffill (record f { buf_pos = 0; buf_len = 0 }) w
      else (true, f, w)

  -- The loop of fread for `n` bytes: the bytes it gets.
  unfoldable pub read_bytes : ℕ → File → W → Io W (List ℕ)
  unfolding have_byte
  read_bytes zero f w = ([], f, w)
  read_bytes (suc n) f w =
      let (ok, f', w') = have_byte f w in
      let (s, f'', w'') = read_bytes n (record f' { buf_pos = f'.buf_pos + 1 }) w' in
      if ok then (f'.buf f'.buf_pos ∷ s, f'', w'') else ([], f', w')

  -- fread of `count` objects: their number, the bytes, and the file.
  unfoldable pub fread : ℕ → ℕ → File → W → Io W (ℕ × List ℕ)
  unfolding read_bytes
  fread size count f w =
      let (s, f', w') = read_bytes (size * count % word64) f w in
      if size * count % word64 == 0 then ((0, []), f, w) else ((length s / size, s), f', w')

  -- `none` is EOF; a byte is 0 to 255.
  unfoldable pub fgetc : File → W → Io W (Option ℕ)
  unfolding fread
  fgetc f w =
      let (r, f', w') = fread 1 1 f w in elim r.1 [ [] ↦ (none, f', w') | c ∷ t ↦ (some c, f', w') ]

  -- Whether the character has been written. `c` keeps its low byte.
  unfoldable pub fputc : ℕ → File → W → Option (Io W Bool)
  unfolding fwrite
  fputc c f w = elim (fwrite (c % 256 ∷ []) 1 f w) [
    | some (n, f', w') ↦ some (not (n == 0), f', w')
    | none ↦ none
  ]

  -- puts of a string's characters to the stream `stdout`.
  unfoldable pub puts : List ℕ → File → W → Option (Io W Bool)
  unfolding fwrite fputc
  puts s f w = elim (fwrite s 1 f w) [
    | some (n, f', w') ↦ if n == length s then fputc b'\n' f' w' else some (false, f', w')
    | none ↦ none
  ]
