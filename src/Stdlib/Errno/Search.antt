-- ===== src/Stdlib/Errno/Search.antt =====
-- The binary search of stdlib/errno.c finds exactly the numbers that the table has.
use smolcc.Base.{
  ℕ, zero, suc, ◌+◌, ◌-◌, ◌/◌, ◌<◌, ◌≤◌, ◌≡◌, Option, some, none, ltb, arith, true, false, dec_lt,
  ap,
}
use mathlib.Core.Logic.{◌↔◌}
use mathlib.Core.Path.{subst}
use smolcc.Stdlib.Errno.{Error, signed, errlist_search, errlist_find}

-- The numbers of the first `len` entries increase.
abbrev pub IsSorted : (ℕ → Error) → ℕ → Type 0
IsSorted errlist len = (i j : ℕ) → i < j → j < len → signed (errlist i).num < signed (errlist j).num

module _ (errlist : ℕ → Error) (errnum : ℕ) where
  ltb-true : (a b : ℕ) → a < b → ltb a b ≡ true
  ltb-true a b h = ground arith

  ltb-false : (a b : ℕ) → b ≤ a → ltb a b ≡ false
  ltb-false a b h = ground arith

  at_most : (a b : ℕ) → ¬ (a < b) → ltb a b ≡ false
  at_most a b h = ground arith

  -- An entry in the interval is found.
  errlist_search_finds :
      (fuel lo hi i : ℕ)
      → IsSorted errlist hi
      → hi ≤ fuel + lo
      → lo ≤ i
      → i < hi
      → signed (errlist i).num ≡ signed errnum
      → errlist_search errlist errnum fuel lo hi ≡ some i
  unfolding errlist_search
  errlist_search_finds zero lo hi i sorted enough low high same = absurd (omega arith)
  errlist_search_finds (suc fuel) lo hi i sorted enough low high same =
      let mid : ℕ = (hi - lo) / 2 + lo in
      let open_interval : ltb lo hi ≡ true = ltb-true lo hi (omega arith) in
      elim (dec_lt i mid) [
        | yes before ↦
            let up = sorted i mid before (omega arith) in
            let not_less : ltb (signed (errlist mid).num) (signed errnum) ≡ false =
              ltb-false _ _ (omega arith) in
            let more : ltb (signed errnum) (signed (errlist mid).num) ≡ true =
              ltb-true _ _ (omega arith) in
            rw (open_interval, not_less, more)
              (errlist_search_finds fuel lo mid i (λ a b p q. sorted a b p (omega arith))
                (omega arith) low before same)
        | no not_before ↦ elim (dec_lt mid i) [
          | yes after ↦
              let up = sorted mid i after high in
              let less : ltb (signed (errlist mid).num) (signed errnum) ≡ true =
                ltb-true _ _ (omega arith) in
              rw (open_interval, less)
                (errlist_search_finds fuel (mid + 1) hi i sorted (omega arith) (omega arith) high
                  same)
          | no not_after ↦
              let here : mid ≡ i = omega arith in
              let at_mid : signed (errlist mid).num ≡ signed errnum = rw here same in
              let not_less : ltb (signed (errlist mid).num) (signed errnum) ≡ false =
                ltb-false _ _ (omega arith) in
              let not_more : ltb (signed errnum) (signed (errlist mid).num) ≡ false =
                ltb-false _ _ (omega arith) in
              rw (open_interval, not_less, not_more) (ap some here)
        ]
      ]

  -- A result, if any, is the index of such an entry.
  abbrev IsHit : ℕ → Option ℕ → Type 0
  IsHit hi none = Unit
  IsHit hi (some i) = (i < hi) × (signed (errlist i).num ≡ signed errnum)

  IsHit-wider : (a b : ℕ) (o : Option ℕ) → a ≤ b → IsHit a o → IsHit b o
  IsHit-wider a b none h p = tt
  IsHit-wider a b (some i) h p = (omega arith, p.1)

  errlist_search-IsHit : (fuel lo hi : ℕ) → IsHit hi (errlist_search errlist errnum fuel lo hi)
  unfolding errlist_search
  errlist_search-IsHit zero lo hi = tt
  errlist_search-IsHit (suc fuel) lo hi =
      let mid : ℕ = (hi - lo) / 2 + lo in
      elim (dec_lt lo hi) [
        | no empty ↦ rw (ltb-false lo hi (omega arith)) tt
        | yes open_interval ↦ elim (dec_lt (signed (errlist mid).num) (signed errnum)) [
          | yes less ↦
              rw (ltb-true _ _ open_interval, ltb-true _ _ less)
                (errlist_search-IsHit fuel (mid + 1) hi)
          | no not_less ↦ elim (dec_lt (signed errnum) (signed (errlist mid).num)) [
            | yes more ↦
                let below = errlist_search errlist errnum fuel lo mid in
                rw (ltb-true _ _ open_interval, at_most _ _ not_less, ltb-true _ _ more)
                  (IsHit-wider mid hi below (omega arith) (errlist_search-IsHit fuel lo mid))
            | no not_more ↦
                rw (ltb-true _ _ open_interval, at_most _ _ not_less, at_most _ _ not_more)
                  (omega arith, omega arith)
          ]
        ]
      ]

-- In a table whose numbers increase, the search for a number ends, with the index of the entry that
-- has it, and finds none exactly when no entry has it.
pub errlist_find_iff :
    (errlist : ℕ → Error) (len errnum i : ℕ)
    → IsSorted errlist len
    → (errlist_find errlist len errnum ≡ some i)
      ↔ ((i < len) × (signed (errlist i).num ≡ signed errnum))
unfolding errlist_find
errlist_find_iff errlist len errnum i sorted = (
  λ found. subst (IsHit errlist errnum len) found (errlist_search-IsHit errlist errnum len 0 len),
  λ hit.
      errlist_search_finds errlist errnum len 0 len i sorted (omega arith) (omega arith) hit.0
        hit.1,
)
