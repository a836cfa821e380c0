-- ===== src/Stdlib/File/Table.antt =====
-- The table of streams of stdlib/stdio.c counts the files that are in use.
use smolcc.Base.{
  ℕ, zero, suc, ◌+◌, ◌≤◌, ◌≡◌, ◌≢◌, refl, ap, ◌∙◌, Bool, true, false, List, [], ◌∷◌, Option, none,
  some, length, get_elem?, ◌==◌, if◌then◌else◌, arith, inl, inr, Bool-cases,
}
use smolcc.Stdlib.File.{
  File, zeroed, in_use, Streams, set_file, file_free, first_free, fresh, file_alloc, max_files,
}

abbrev used : File → ℕ
used f = if in_use f then 1 else 0

abbrev count_used : List File → ℕ
count_used [] = 0
count_used (f ∷ files) = used f + count_used files

-- There are MAX_FILES streams, and `n_streams` of them are in use.
pub record IsTable (s : Streams) : Type 0 where
  pub full_length : length s.files ≡ max_files
  pub counted : s.n_streams ≡ count_used s.files

length-set_file :
    (files : List File) (i : ℕ) (f : File) → length (set_file files i f) ≡ length files
unfolding set_file
length-set_file [] i f = refl
length-set_file (g ∷ files) zero f = refl
length-set_file (g ∷ files) (suc i) f = ap suc (length-set_file files i f)

count-set_file :
    (files : List File) (i : ℕ) (f g : File)
    → get_elem? files i ≡ some g
    → count_used (set_file files i f) + used g ≡ count_used files + used f
unfolding set_file
count-set_file [] i f g h = absurd (cc)
count-set_file (u ∷ files) zero f g h = let same : u ≡ g = cc in rw same (omega arith)
count-set_file (u ∷ files) (suc i) f g h = omega (arith, count-set_file files i f g h)

count_used-le : (files : List File) → count_used files ≤ length files
count_used-le [] = omega arith
count_used-le (f ∷ files) = let rest = count_used-le files in ground arith

-- What first_free has found.
abbrev FirstFree : List File → Option ℕ → Type 0
FirstFree files none = count_used files ≡ length files
FirstFree files (some i) = (g : File) × (get_elem? files i ≡ some g) × (in_use g ≡ false)

FirstFree-step :
    (f : File) (files : List File) (o : Option ℕ)
    → FirstFree files o
    → FirstFree
        (f ∷ files)
        (if in_use f then elim o [ some i ↦ some (suc i) | none ↦ none ] else some 0)
FirstFree-step f files o h = elim (Bool-cases (in_use f)) [
  | inr unused ↦ rw unused (f, refl, unused)
  | inl busy ↦ rw busy (later f files o h busy)
]
  where
    later :
        (f : File) (files : List File) (o : Option ℕ)
        → FirstFree files o
        → in_use f ≡ true
        → FirstFree (f ∷ files) (elim o [ some i ↦ some (suc i) | none ↦ none ])
    later f files (some i) (g, at, unused) busy = (g, at, unused)
    later f files none h busy = let one : used f ≡ 1 = rw busy refl in omega (arith, h, one)

first_free-FirstFree : (files : List File) → FirstFree files (first_free files)
unfolding first_free
first_free-FirstFree [] = refl
first_free-FirstFree (f ∷ files) =
    FirstFree-step f files (first_free files) (first_free-FirstFree files)

fresh-in_use :
    (files : List File) (i : ℕ) (is_write : Bool) → in_use (fresh files i is_write) ≡ true
fresh-in_use [] i true = refl
fresh-in_use [] i false = refl
fresh-in_use (f ∷ files) zero true = refl
fresh-in_use (f ∷ files) zero false = refl
fresh-in_use (f ∷ files) (suc i) is_write = fresh-in_use files i is_write

get_elem?-set_file :
    (files : List File) (i : ℕ) (f g : File)
    → get_elem? files i ≡ some g
    → get_elem? (set_file files i f) i ≡ some f
unfolding set_file
get_elem?-set_file [] i f g h = absurd (cc)
get_elem?-set_file (u ∷ files) zero f g h = refl
get_elem?-set_file (u ∷ files) (suc i) f g h = get_elem?-set_file files i f g h

-- What file_alloc gives: a stream that was not in use and now is, one more than before; or none, and all
-- the streams are in use.
abbrev pub Allocated : Streams → Option ℕ × Streams → Type 0
Allocated s (none, s') = (s' ≡ s) × (s.n_streams ≡ max_files)
Allocated s (some i, s') =
    (s'.n_streams ≡ s.n_streams + 1)
    × ((g : File) × (get_elem? s.files i ≡ some g) × (in_use g ≡ false))
    × ((g : File) × (get_elem? s'.files i ≡ some g) × (in_use g ≡ true))

alloc_found :
    (s : Streams) (is_write : Bool) (o : Option ℕ)
    → IsTable s
    → s.n_streams ≢ max_files
    → FirstFree s.files o
    → let r : Option ℕ × Streams = elim o [
      | some i ↦ (
        some i,
        record {
          files = set_file s.files i (fresh s.files i is_write);
          n_streams = s.n_streams + 1;
        },
      )
      | none ↦ (none, s)
    ] in
      IsTable r.1 × Allocated s r
alloc_found s is_write none t room found =
    absurd (room (omega (arith, t.counted, t.full_length, found)))
alloc_found s is_write (some i) t room (g, at, unused) =
    let f = fresh s.files i is_write in
    let on = fresh-in_use s.files i is_write in
    let total = count-set_file s.files i f g at in
    let zero_before : used g ≡ 0 = rw unused refl in
    let one_now : used f ≡ 1 = rw on refl in
    (
      record {
        full_length = length-set_file s.files i f ∙ t.full_length;
        counted = omega (arith, total, zero_before, one_now, t.counted);
      },
      (refl, (g, at, unused), (f, get_elem?-set_file s.files i f g at, on)),
    )

-- In a table whose count is right, file_alloc gives a stream that was not in use, unless all are, and the
-- count stays right.
pub file_alloc-Allocated :
    (s : Streams) (is_write : Bool)
    → IsTable s
    → IsTable (file_alloc s is_write).1 × Allocated s (file_alloc s is_write)
unfolding file_alloc
file_alloc-Allocated s is_write t = elim (Bool-cases (s.n_streams == max_files)) [
  | inl full ↦ rw full (t, (refl, ground arith))
  | inr room ↦
      rw room (
        alloc_found s is_write (first_free s.files) t (ground arith) (first_free-FirstFree s.files))
]

-- Giving back a stream that is in use keeps the count right.
pub file_free-IsTable :
    (s : Streams) (i : ℕ) (g : File)
    → IsTable s
    → get_elem? s.files i ≡ some g
    → in_use g ≡ true
    → IsTable (file_free s i)
unfolding file_free
file_free-IsTable s i g t at on =
    let total = count-set_file s.files i zeroed g at in
    let one_before : used g ≡ 1 = rw on refl in
    record {
      full_length = length-set_file s.files i zeroed ∙ t.full_length;
      counted = omega (arith, total, one_before, t.counted);
    }
