-- ===== src/Stdlib/Getopt.antt =====
-- stdlib/getopt.c: the options of a command line, one at each call. Messages to standard error are
-- listed; `argc` is the length of `argv`, which holds a null pointer as none, and a read out of bounds is
-- a fault.
-- An option letter is its byte; the source keeps it as an `int`, which is negative above 127.
pub mod Ends
use smolcc.Base.{
  ℕ, zero, suc, ◌+◌, Bool, true, false, ◌&&◌, not, List, [], ◌∷◌, Option, none, some, length,
  get_elem?, ltb, ◌==◌, if◌then◌else◌,
}
use smolcc.Stdlib.Strings.{strchr}

-- The globals of getopt.c.
pub record Getopt : Type 0 where
  pub optind : ℕ
  pub opterr : Bool
  pub optopt : ℕ
  pub optarg : Option (List ℕ)
  pub curr_arg : Option (List ℕ)

pub data Message : Type 0 where
  illegal_option requires_argument : ℕ → Message

-- What a call returns, none being -1; what it prints; the globals.
pub record Answer : Type 0 where
  pub value : Option ℕ
  pub messages : List Message
  pub globals : Getopt

abbrev pub answer : Option ℕ → List Message → Getopt → Option Answer
answer v m g = some (record { value = v; messages = m; globals = g })

abbrev pub init_getopt : Getopt
init_getopt = record { optind = 1; opterr = true; optopt = 0; optarg = none; curr_arg = none }

-- `if (curr_arg && !*curr_arg) curr_arg = 0;`
unfoldable pub leave_empty : Option (List ℕ) → Option (Option (List ℕ))
leave_empty none = some none
leave_empty (some []) = none
leave_empty (some (c ∷ s)) = if c == 0 then some none else some (some (c ∷ s))

unfoldable pub finish : Option ℕ → List Message → Getopt → Option Answer
finish v m g = elim (leave_empty g.curr_arg) [
  | some a ↦ answer v m (record g { curr_arg = a })
  | none ↦ none
]

abbrev pub starts_with_colon : List ℕ → Bool
starts_with_colon [] = false
starts_with_colon (c ∷ s) = c == b':'

-- An option that takes an argument, after its letter: the rest of the word, or the next word.
unfoldable pub take_argument : List (Option (List ℕ)) → List ℕ → Getopt → List ℕ → Option Answer
take_argument argv spec g [] = none
take_argument argv spec g (c ∷ rest) =
    if not (c == 0)
    then finish (some g.optopt) [] (record g { optarg = some (c ∷ rest); curr_arg = none })
    else if ltb g.optind (length argv)
    then elim (get_elem? argv g.optind) [
      | some word ↦
          finish (some g.optopt) []
            (record g { optarg = word; curr_arg = none; optind = g.optind + 1 })
      | none ↦ none
    ]
    else if starts_with_colon spec
    then finish (some b':') [] (record g { curr_arg = some (c ∷ rest) })
    else finish (some b'?') (if g.opterr then requires_argument g.optopt ∷ [] else [])
        (record g { curr_arg = some (c ∷ rest) })

-- The letter has been read and `rest` is what follows it.
unfoldable pub on_option : List (Option (List ℕ)) → List ℕ → Getopt → List ℕ → Option Answer
on_option argv spec g rest = elim (strchr spec g.optopt) [
  | none ↦ none
  | some none ↦
      finish (some b'?')
        (if starts_with_colon spec
          then []
          else if g.opterr
          then illegal_option g.optopt ∷ []
          else [])
        (record g { curr_arg = some rest })
  | some (some (o ∷ [])) ↦ none
  | some (some (o ∷ c ∷ opt_spec)) ↦
      if c == b':'
      then take_argument argv spec g rest
      else finish (some g.optopt) [] (record g { curr_arg = some rest })
  | some (some []) ↦ none
]

-- `optopt = *curr_arg++; optarg = 0;` and the rest of the call.
unfoldable pub next_letter : List (Option (List ℕ)) → List ℕ → Getopt → List ℕ → Option Answer
next_letter argv spec g [] = none
next_letter argv spec g (c ∷ rest) =
    on_option argv spec (record g { optopt = c; optarg = none }) rest

-- At the word `argv[optind]`: -1 unless it is a dash and more; `--` is passed over.
unfoldable pub on_word : List (Option (List ℕ)) → List ℕ → Getopt → List ℕ → Option Answer
on_word argv spec g [] = none
on_word argv spec g (a ∷ []) = if a == b'-' then none else answer none [] g
on_word argv spec g (a ∷ b ∷ s) =
    let next = record g { optind = g.optind + 1 } in
    if a == b'-' && not (b == 0)
    then (if b == b'-'
        then elim s [
          | [] ↦ none
          | c ∷ t ↦ if c == 0 then answer none [] next else next_letter argv spec next (b ∷ c ∷ t)
        ]
        else next_letter argv spec next (b ∷ s))
    else answer none [] g

unfoldable pub start_word : List (Option (List ℕ)) → List ℕ → Getopt → Option Answer
start_word argv spec g =
    if ltb g.optind (length argv)
    then elim (get_elem? argv g.optind) [
      | none ↦ none
      | some none ↦ answer none [] g
      | some (some word) ↦ on_word argv spec g word
    ]
    else answer none [] g

unfoldable pub getopt : List (Option (List ℕ)) → List ℕ → Getopt → Option Answer
getopt argv spec g = elim g.curr_arg [
  | none ↦ start_word argv spec g
  | some s ↦ next_letter argv spec g s
]
