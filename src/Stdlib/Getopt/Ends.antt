-- ===== src/Stdlib/Getopt/Ends.antt =====
-- getopt of stdlib/getopt.c gets through the words of a command line.
use smolcc.Base.{
  ℕ, zero, suc, ◌+◌, ◌%◌, ◌≤◌, ◌<◌, ◌≡◌, refl, sym, Bool, true, false, ◌&&◌, not, List, [], ◌∷◌,
  Option, none, some, length, get_elem?, ltb, ◌==◌, if◌then◌else◌, arith, inl, inr, ap, Bool-cases,
}
use mathlib.Core.Path.{subst}
use smolcc.Stdlib.Strings.{strchr, strchr_from}
use smolcc.Stdlib.Getopt.{
  Getopt, Message, Answer, answer, finish, leave_empty, take_argument, on_option, next_letter,
  on_word, start_word, getopt, starts_with_colon, illegal_option, requires_argument,
}

-- A string with its terminator.
unfoldable pub HasEnd : List ℕ → Type 0
HasEnd [] = ⊥
HasEnd (zero ∷ s) = Unit
HasEnd (suc c ∷ s) = HasEnd s

unfoldable pub HaveEnds : List (Option (List ℕ)) → Type 0
HaveEnds [] = Unit
HaveEnds (none ∷ words) = HaveEnds words
HaveEnds (some w ∷ words) = HasEnd w × HaveEnds words

-- `curr_arg` is null or has a letter left.
unfoldable pub HasLetter : Option (List ℕ) → Type 0
HasLetter none = Unit
HasLetter (some []) = ⊥
HasLetter (some (zero ∷ s)) = ⊥
HasLetter (some (suc c ∷ s)) = HasEnd s

abbrev pub size : Option (List ℕ) → ℕ
size none = 0
size (some w) = length w

-- The words of `argv` from the index on, with their letters.
abbrev pub words_left : List (Option (List ℕ)) → ℕ → ℕ
words_left [] i = 0
words_left (w ∷ words) zero = 1 + size w + words_left words 0
words_left (w ∷ words) (suc i) = words_left words i

abbrev pub todo : List (Option (List ℕ)) → Getopt → ℕ
todo argv g = size g.curr_arg + words_left argv g.optind

-- No fault, and a call that does not return -1 leaves less to do.
pub Goes : List (Option (List ℕ)) → ℕ → Option Answer → Type 0
Goes argv bound none = ⊥
Goes argv bound (some r) =
    HasLetter r.globals.curr_arg
    × elim r.value [ none ↦ todo argv r.globals ≤ bound | some v ↦ todo argv r.globals < bound ]

-- Below `argc` there is a word.
in_bounds :
    (argv : List (Option (List ℕ))) (i : ℕ) (f : Option (List ℕ) → Option Answer)
    (a : Option Answer)
    → (if ltb i (length argv) then elim (get_elem? argv i) [ some w ↦ f w | none ↦ none ] else a)
      ≡ (elim (get_elem? argv i) [ some w ↦ f w | none ↦ a ])
in_bounds [] i f a = let over : ltb i 0 ≡ false = ground arith in rw over refl
in_bounds (w ∷ argv) zero f a =
    let below : ltb 0 (suc (length argv)) ≡ true = ground arith in rw below refl
in_bounds (w ∷ argv) (suc i) f a =
    let next : ltb (suc i) (suc (length argv)) ≡ ltb i (length argv) = ground arith in
    rw next (in_bounds argv i f a)

suc-is_not_zero : (c : ℕ) → (suc c == 0) ≡ false
suc-is_not_zero c = ground arith

words_left-suc :
    (argv : List (Option (List ℕ))) (i : ℕ) → words_left argv (i + 1) ≡ words_left argv (suc i)
words_left-suc argv i = ap (words_left argv) (omega arith)

module _ (argv : List (Option (List ℕ))) (bound : ℕ) where
  Goes-if :
      (b : Bool) (x y : Option Answer)
      → Goes argv bound x
      → Goes argv bound y
      → Goes argv bound (if b then x else y)
  unfolding Goes
  Goes-if true x y gx gy = gx
  Goes-if false x y gx gy = gy

  finish-Goes :
      (v : ℕ) (m : List Message) (g : Getopt) (rest : List ℕ)
      → HasEnd rest
      → length rest + words_left argv g.optind < bound
      → Goes argv bound (finish (some v) m (record g { curr_arg = some rest }))
  unfolding Goes finish leave_empty HasEnd HasLetter
  finish-Goes v m g [] e l = absurd e
  finish-Goes v m g (zero ∷ s) e l = (tt, omega arith)
  finish-Goes v m g (suc c ∷ s) e l = rw (finish, leave_empty, suc-is_not_zero c) (e, l)

  none-Goes :
      (v : ℕ) (m : List Message) (g : Getopt) (arg : Option (List ℕ)) (i : ℕ)
      → words_left argv i < bound
      → Goes argv bound (finish (some v) m (record g { optarg = arg; curr_arg = none; optind = i }))
  unfolding Goes finish leave_empty HasLetter
  none-Goes v m g arg i l = (tt, omega arith)

words_left_next :
    (argv : List (Option (List ℕ))) (i : ℕ) (w : Option (List ℕ))
    → get_elem? argv i ≡ some w
    → words_left argv i ≡ 1 + size w + words_left argv (i + 1)
words_left_next [] i w h = absurd (cc)
words_left_next (u ∷ words) zero w h =
    let same : u ≡ w = cc in rw (words_left-suc (u ∷ words) 0, same) refl
words_left_next (u ∷ words) (suc i) w h =
    rw (words_left-suc (u ∷ words) (suc i), sym (words_left-suc words i))
      (words_left_next words i w h)

HasEnd-at :
    (argv : List (Option (List ℕ))) (i : ℕ) (w : List ℕ)
    → HaveEnds argv
    → get_elem? argv i ≡ some (some w)
    → HasEnd w
unfolding HaveEnds
HasEnd-at [] i w e h = absurd (cc)
HasEnd-at (none ∷ words) zero w e h = absurd (cc)
HasEnd-at (some u ∷ words) zero w e h = let same : u ≡ w = cc in rw (sym same) e.0
HasEnd-at (none ∷ words) (suc i) w e h = HasEnd-at words i w e h
HasEnd-at (some u ∷ words) (suc i) w e h = HasEnd-at words i w e.1 h

HasEnd-tail : (c : ℕ) (s : List ℕ) → (c == 0) ≡ false → HasEnd (c ∷ s) → HasEnd s
unfolding HasEnd
HasEnd-tail zero s h e = absurd (ground arith)
HasEnd-tail (suc c) s h e = e

-- What strchr finds starts with a character, and has its end.
Found : Option (Option (List ℕ)) → Type 0
Found none = ⊥
Found (some none) = Unit
Found (some (some [])) = ⊥
Found (some (some (o ∷ t))) = HasEnd t

strchr_from-Found : (s : List ℕ) (ch : ℕ) → HasEnd s → Found (strchr_from s ch)
unfolding strchr_from HasEnd Found
strchr_from-Found [] ch e = e
strchr_from-Found (zero ∷ s) ch e = tt
strchr_from-Found (suc c ∷ s) ch e = elim (Bool-cases (suc c == ch)) [
  | inl same ↦ rw same e
  | inr other ↦ rw other (strchr_from-Found s ch e)
]

module _ (argv : List (Option (List ℕ))) (spec : List ℕ) (bound : ℕ) where
  take_argument-Goes :
      (g : Getopt) (rest : List ℕ)
      → HasEnd rest
      → length rest + words_left argv g.optind < bound
      → Goes argv bound (take_argument argv spec g rest)
  unfolding take_argument HasEnd
  take_argument-Goes g [] e l = absurd e
  take_argument-Goes g (suc c ∷ s) e l =
      rw (suc-is_not_zero c)
        (none-Goes argv bound g.optopt [] g (some (suc c ∷ s)) g.optind (omega arith))
  take_argument-Goes g (zero ∷ s) e l =
      subst (Goes argv bound) (sym (in_bounds argv g.optind _ _))
        (at (get_elem? argv g.optind) refl)
    where
      stays :
          (v : ℕ) (m : List Message)
          → Goes argv bound (finish (some v) m (record g { curr_arg = some (0 ∷ s) }))
      stays v m = finish-Goes argv bound v m g (0 ∷ s) tt l

      at :
          (o : Option (Option (List ℕ)))
          → get_elem? argv g.optind ≡ o
          → Goes argv bound (elim o [
            | some word ↦
                finish
                  (some g.optopt)
                  []
                  (record g { optarg = word; curr_arg = none; optind = g.optind + 1 })
            | none ↦
                if starts_with_colon spec
                then finish (some b':') [] (record g { curr_arg = some (0 ∷ s) })
                else finish
                    (some b'?')
                    (if g.opterr then requires_argument g.optopt ∷ [] else [])
                    (record g { curr_arg = some (0 ∷ s) })
          ])
      at (some w) h =
          none-Goes argv bound g.optopt [] g w (g.optind + 1)
            (omega (arith, words_left_next argv g.optind w h))
      at none h = Goes-if argv bound (starts_with_colon spec) _ _ (stays _ _) (stays _ _)

  on_option-Goes :
      (g : Getopt) (rest : List ℕ)
      → HasEnd spec
      → HasEnd rest
      → length rest + words_left argv g.optind < bound
      → Goes argv bound (on_option argv spec g rest)
  unfolding on_option strchr Found HasEnd Goes
  on_option-Goes g rest es e l =
      chosen (strchr_from spec (g.optopt % 256)) (strchr_from-Found spec (g.optopt % 256) es)
    where
      ends :
          (v : ℕ) (m : List Message)
          → Goes argv bound (finish (some v) m (record g { curr_arg = some rest }))
      ends v m = finish-Goes argv bound v m g rest e l

      chosen :
          (o : Option (Option (List ℕ)))
          → Found o
          → Goes argv bound (elim o [
            | none ↦ none
            | some none ↦
                finish
                  (some b'?')
                  (if starts_with_colon spec
                    then []
                    else if g.opterr
                    then illegal_option g.optopt ∷ []
                    else [])
                  (record g { curr_arg = some rest })
            | some (some (o ∷ [])) ↦ none
            | some (some (o ∷ c ∷ opt_spec)) ↦
                if c == b':'
                then take_argument argv spec g rest
                else finish (some g.optopt) [] (record g { curr_arg = some rest })
            | some (some []) ↦ none
          ])
      chosen none f = f
      chosen (some none) f = ends _ _
      chosen (some (some [])) f = absurd f
      chosen (some (some (o ∷ []))) f = absurd f
      chosen (some (some (o ∷ c ∷ opt_spec))) f =
          Goes-if argv bound (c == b':') _ _ (take_argument-Goes g rest e l) (ends _ _)

  next_letter-Goes :
      (g : Getopt) (c : ℕ) (rest : List ℕ)
      → HasEnd spec
      → HasEnd rest
      → length rest + words_left argv g.optind < bound
      → Goes argv bound (next_letter argv spec g (c ∷ rest))
  unfolding next_letter
  next_letter-Goes g c rest es e l =
      on_option-Goes (record g { optopt = c; optarg = none }) rest es e l

  on_word-Goes :
      (g : Getopt) (w : List ℕ)
      → HasEnd spec
      → HasEnd w
      → HasLetter g.curr_arg
      → todo argv g ≤ bound
      → size g.curr_arg + (length w + words_left argv (g.optind + 1)) ≤ bound
      → Goes argv bound (on_word argv spec g w)
  unfolding on_word Goes HasEnd
  on_word-Goes g [] es e hl t l = absurd e
  on_word-Goes g (a ∷ []) es e hl t l = elim (Bool-cases (a == b'-')) [
    | inl dash ↦ absurd (HasEnd-tail a [] (ground arith) e)
    | inr other ↦ rw other (hl, t)
  ]
  on_word-Goes g (a ∷ b ∷ s) es e hl t l = elim (Bool-cases (a == b'-' && not (b == 0))) [
    | inr other ↦ rw other (hl, t)
    | inl opens ↦
        let not_end : (a == 0) ≡ false = ground arith in
        let more : (b == 0) ≡ false = ground arith in
        let tail : HasEnd s = HasEnd-tail b s more (HasEnd-tail a (b ∷ s) not_end e) in
        rw opens (
          Goes-if argv bound (b == b'-') _ _ (dashes s tail (omega arith))
            (letter b s tail (omega arith)))
  ]
    where
      next : Getopt
      next = record g { optind = g.optind + 1 }

      letter :
          (c : ℕ) (u : List ℕ)
          → HasEnd u
          → size g.curr_arg + (2 + length u + words_left argv (g.optind + 1)) ≤ bound
          → Goes argv bound (next_letter argv spec next (c ∷ u))
      letter c u eu l = next_letter-Goes next c u es eu (omega arith)

      dashes :
          (u : List ℕ)
          → HasEnd u
          → size g.curr_arg + (2 + length u + words_left argv (g.optind + 1)) ≤ bound
          → Goes argv bound (elim u [
            | [] ↦ none
            | c ∷ v ↦ if c == 0 then answer none [] next else next_letter argv spec next (b ∷ c ∷ v)
          ])
      dashes [] eu l = absurd eu
      dashes (c ∷ v) eu l =
          Goes-if argv bound (c == 0) _ _ (hl, omega arith) (letter b (c ∷ v) eu l)

  in_word-Goes :
      (g : Getopt) (s : List ℕ)
      → HasEnd spec
      → HasLetter (some s)
      → length s + words_left argv g.optind ≤ bound
      → Goes argv bound (next_letter argv spec g s)
  unfolding HasLetter
  in_word-Goes g [] es hl l = absurd hl
  in_word-Goes g (zero ∷ s) es hl l = absurd hl
  in_word-Goes g (suc c ∷ s) es hl l = next_letter-Goes g (suc c) s es hl (omega arith)

-- From globals whose `curr_arg` is null or at a letter, with an `argv` and options that have their
-- terminators, getopt does not read out of bounds and leaves such globals; and a call that does not
-- return -1 leaves fewer letters and words to do, so that calls until -1 come to an end.
pub getopt-Goes :
    (argv : List (Option (List ℕ))) (spec : List ℕ) (g : Getopt)
    → HaveEnds argv
    → HasEnd spec
    → HasLetter g.curr_arg
    → Goes argv (todo argv g) (getopt argv spec g)
unfolding getopt start_word Goes HasLetter
getopt-Goes argv spec g ea es hl = from g.curr_arg refl
  where
    word :
        g.curr_arg ≡ none
        → (o : Option (Option (List ℕ))) → get_elem? argv g.optind ≡ o
        → Goes argv (todo argv g) (elim o [
          | none ↦ answer none [] g
          | some none ↦ answer none [] g
          | some (some word) ↦ on_word argv spec g word
        ])
    word c none h = (hl, omega arith)
    word c (some none) h = (hl, omega arith)
    word c (some (some w)) h =
        let left = words_left_next argv g.optind (some w) h in
        on_word-Goes argv spec (todo argv g) g w es (HasEnd-at argv g.optind w ea h) hl
          (omega arith) (rw c (omega (arith, left)))

    from :
        (o : Option (List ℕ))
        → g.curr_arg ≡ o
        → Goes argv
            (todo argv g)
            (elim o [ none ↦ start_word argv spec g | some s ↦ next_letter argv spec g s ])
    from none h =
        subst (Goes argv (todo argv g))
          (sym (
            in_bounds argv g.optind
              (λ w. elim w [ none ↦ answer none [] g | some word ↦ on_word argv spec g word ]) _))
          (word h (get_elem? argv g.optind) refl)
    from (some s) h =
        let left : size g.curr_arg ≡ length s = rw h refl in
        in_word-Goes argv spec (todo argv g) g s es (subst HasLetter h hl) (omega (arith, left))
