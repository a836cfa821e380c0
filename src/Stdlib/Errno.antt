-- ===== src/Stdlib/Errno.antt =====
-- stdlib/errno.c: the search for the description of an error number. The table `_errlist`, which
-- the build generates, and its length are parameters.
pub mod Search
use smolcc.Base.{ℕ, zero, suc, ◌+◌, ◌-◌, ◌/◌, ◌%◌, String, Option, some, none, ltb, if◌then◌else◌}
use smolcc.Base.Word.{word32, half32}

-- struct error; `num` is the bit pattern of an `int`.
pub record Error : Type 0 where
  pub dscr : String
  pub name : String
  pub num : ℕ

-- The order of the `int`s, as an order of numbers.
abbrev pub signed : ℕ → ℕ
signed n = (n + half32) % word32

-- The loop of `_errlist_find`: the index of the entry in `lo .. hi`. Neither bound passes the
-- length, an `int`, so no sum wraps.
unfoldable pub errlist_search : (ℕ → Error) → ℕ → ℕ → ℕ → ℕ → Option ℕ
errlist_search errlist errnum zero lo hi = none
errlist_search errlist errnum (suc fuel) lo hi =
    let mid = (hi - lo) / 2 + lo in
    let above = errlist_search errlist errnum fuel (mid + 1) hi in
    let below = errlist_search errlist errnum fuel lo mid in
    if ltb lo hi
    then if ltb (signed (errlist mid).num) (signed errnum)
      then above
      else if ltb (signed errnum) (signed (errlist mid).num)
      then below
      else some mid
    else none

-- `len` rounds suffice: each makes the interval shorter.
unfoldable pub errlist_find : (ℕ → Error) → ℕ → ℕ → Option ℕ
unfolding errlist_search
errlist_find errlist len errnum = errlist_search errlist errnum len 0 len

unfoldable pub strerror : (ℕ → Error) → ℕ → ℕ → String
unfolding errlist_find errlist_search
strerror errlist len errnum = elim (errlist_find errlist len errnum) [
  | some i ↦ (errlist i).dscr
  | none ↦ "Unknown error"
]
