-- ===== src/Stdlib/Syscall.antt =====
-- stdlib/syscall.c: the system calls with `errno`. `_do_syscall`, which is assembly, is a parameter: it
-- takes the number of the call and its arguments, and gives a `long` as a bit pattern.
use smolcc.Base.{
  ℕ, ◌-◌, ◌%◌, ◌^◌, ◌<◌, ◌≤◌, ◌≡◌, refl, ◌⊎◌, inl, inr, true, false, ◌==◌, List, [], ◌∷◌, leb,
  if◌then◌else◌, arith,
}
use mathlib.Core.Logic.{◌↔◌}
use smolcc.Base.Word.{word32, word64}

abbrev pub sys_read : ℕ
sys_read = 63

abbrev pub sys_write : ℕ
sys_write = 64

abbrev pub sys_openat : ℕ
sys_openat = 56

abbrev pub sys_close : ℕ
sys_close = 57

abbrev pub sys_exit : ℕ
sys_exit = 93

-- AT_FDCWD, -100 as an `int`
abbrev pub at_fdcwd : ℕ
at_fdcwd = word32 - 100

-- The result and `errno`.
unfoldable pub set_errno : ℕ → ℕ → ℕ × ℕ
set_errno res errno =
    if leb (2 ^ 63) res then (word64 - 1, (word64 - res) % word32) else (res, errno)

-- `(int)` of the result.
abbrev pub to_int : ℕ × ℕ → ℕ × ℕ
to_int (res, errno) = (res % word32, errno)

module _ {W : Type 0} (do_syscall : ℕ → List ℕ → W → ℕ × W) where
  -- A call, with `errno` before and after it.
  unfoldable pub call : ℕ → List ℕ → ℕ → W → (ℕ × ℕ) × W
  unfolding set_errno
  call num args errno w = let (res, w') = do_syscall num args w in (set_errno res errno, w')

  unfoldable pub openat : ℕ → ℕ → ℕ → ℕ → ℕ → W → (ℕ × ℕ) × W
  unfolding call
  openat dirfd pathname flags mode errno w =
      let (r, w') = call sys_openat (dirfd ∷ pathname ∷ flags ∷ mode ∷ []) errno w in (to_int r, w')

  unfoldable pub open_at_cwd : ℕ → ℕ → ℕ → ℕ → W → (ℕ × ℕ) × W
  unfolding openat
  open_at_cwd pathname flags mode errno w = openat at_fdcwd pathname flags mode errno w

  unfoldable pub close_fd : ℕ → ℕ → W → (ℕ × ℕ) × W
  unfolding call
  close_fd fd errno w = let (r, w') = call sys_close (fd ∷ []) errno w in (to_int r, w')

  unfoldable pub read_fd : ℕ → ℕ → ℕ → ℕ → W → (ℕ × ℕ) × W
  unfolding call
  read_fd fd buf nbyte errno w = call sys_read (fd ∷ buf ∷ nbyte ∷ []) errno w

  unfoldable pub write_fd : ℕ → ℕ → ℕ → ℕ → W → (ℕ × ℕ) × W
  unfolding call
  write_fd fd buf nbyte errno w = call sys_write (fd ∷ buf ∷ nbyte ∷ []) errno w

  -- The state in which `_exit` leaves the system.
  unfoldable pub exit_with : ℕ → W → W
  exit_with status w = (do_syscall sys_exit (status ∷ []) w).1

-- An answer of the system: a `long` from 0 on, or from -4095 to -1, which is an error number.
abbrev pub IsAnswer : ℕ → Type 0
IsAnswer res = (res < 2 ^ 63) ⊎ ((word64 - 4096 < res) × (res < word64))

-- The answer as a caller makes it out from the result and `errno`.
abbrev pub answer_of : ℕ × ℕ → ℕ
answer_of (res, errno) = if res == word64 - 1 then word64 - errno else res

-- For every answer of the system, 0 included, and every `errno` before it: the result is -1 exactly if
-- the answer is negative; a caller can tell the answer from the result and `errno`; and `errno` is as it
-- was unless the result is -1.
pub answer_of-set_errno :
    (res errno : ℕ)
    → IsAnswer res
    → (((set_errno res errno).0 ≡ word64 - 1) ↔ (2 ^ 63 ≤ res))
      × (answer_of (set_errno res errno) ≡ res)
      × (((set_errno res errno).1 ≡ errno) ⊎ ((set_errno res errno).0 ≡ word64 - 1))
unfolding set_errno
answer_of-set_errno res errno (inl h) =
    let succeeds : leb (2 ^ 63) res ≡ false = ground arith in
    let plain : (res == word64 - 1) ≡ false = ground arith in
    rw (succeeds, plain) ((λ e. omega arith, λ e. omega arith), refl, inl refl)
answer_of-set_errno res errno (inr h) =
    let fails : leb (2 ^ 63) res ≡ true = ground arith in
    rw fails ((λ e. omega arith, λ e. refl), omega arith, inr refl)
