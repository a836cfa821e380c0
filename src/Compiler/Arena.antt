-- ===== src/Compiler/Arena.antt =====
-- `alloc` of compiler/smolcc1.c. A pointer into the arena is its offset.
use smolcc.Base.{
  ℕ, ◌+◌, ◌-◌, ◌*◌, ◌%◌, ◌<◌, ◌≤◌, ◌≡◌, refl, arith, leb, ltb, ◌&&◌, true, Bool-cases, inl, inr,
  if◌then◌else◌,
}
use smolcc.Base.Word.{word32, half32}
use smolcc.Compiler.Outcome.{Outcome, ok, die, Gives}
use smolcc.Compiler.Misc.{align_up}
use smolcc.Compiler.Misc.Laws.{align_up_bounds}

abbrev pub arena_cap : ℕ
arena_cap = 8 * 1024 * 1024

-- The pointer and the new `arena_len`, which is an `int`: one that has wrapped is negative, and is not
-- taken for too large.
unfoldable pub alloc : ℕ → ℕ → Outcome (ℕ × ℕ)
alloc arena_len len =
    let arena_len' = (align_up arena_len 8 + len) % word32 in
    if leb arena_cap arena_len' && ltb arena_len' half32
    then die "alloc: out of memory"
    else ok ((arena_len' + word32 - len) % word32, arena_len')

-- The pointer is aligned and after what was in use, and the block is inside the arena, up to the new
-- `arena_len`.
abbrev pub IsBlock : ℕ → ℕ → ℕ × ℕ → Type 0
IsBlock arena_len len (p, arena_len') =
    (arena_len ≤ p) × ((k : ℕ) × (p ≡ k * 8)) × (p + len ≡ arena_len') × (arena_len' < arena_cap)

-- For a length below 2 ^ 30 and an arena that is not over its end, a block that alloc gives is aligned
-- to 8 bytes, lies after all blocks from before and inside the arena, and ends where the next may start.
pub alloc-Gives :
    (arena_len len : ℕ)
    → arena_len < arena_cap
    → len < 0x4000_0000
    → Gives (IsBlock arena_len len) (alloc arena_len len)
unfolding alloc
alloc-Gives arena_len len h small =
    let (above, near, at) = align_up_bounds arena_len 8 (omega arith) (omega arith) in
    let whole : (align_up arena_len 8 + len) % word32 ≡ align_up arena_len 8 + len = omega arith in
    let back : (align_up arena_len 8 + len + word32 - len) % word32 ≡ align_up arena_len 8 =
      omega arith in
    let positive : ltb (align_up arena_len 8 + len) half32 ≡ true = ground arith in
    elim (Bool-cases (leb arena_cap (align_up arena_len 8 + len))) [
      | inl e ↦ rw (whole, e, positive) tt
      | inr e ↦
          let low : align_up arena_len 8 + len < arena_cap = ground arith in
          rw (whole, e, back) (above, at, refl, low)
    ]
