-- ===== src/Stdlib/Printf/Ends.antt =====
-- The loop of _vfprintf in stdlib/stdio_printf.c comes to an end.
use smolcc.Base.{
  ℕ, ◌+◌, ◌%◌, ◌^◌, ◌<◌, ◌≡◌, Bool, List, [], ◌∷◌, ◌++◌, Option, none, some, length, leb,
  if◌then◌else◌,
}
use smolcc.Base.Word.{word32}
use smolcc.Stdlib.File.{File}
use smolcc.Stdlib.File.Calls.{System}
use smolcc.Stdlib.Printf.Spec.{FmtSpec, Arg, p_fmt}
use smolcc.Stdlib.Printf.Format.{Part, fmt_part, vfprintf_loop, minus_one}

module _ {W : Type 0} (sys : System W) where
  -- Sooner or later, after so many parts before it, a part of the format reads past the end of the format
  -- or of the arguments in p_fmt, or faults itself: it has no argument of its kind, or a string that does
  -- not end, or `write` takes nothing of its output.
  pub data Faults : List ℕ → List Arg → File → W → Type 0 where
    at_format :
        {fmt : List ℕ} {args : List Arg} {f : File} {w : W}
        → p_fmt fmt args ≡ none
        → Faults fmt args f w
    at_part :
        {fmt : List ℕ} {args : List Arg} {f : File} {w : W} (fmt' : List ℕ) (spec : FmtSpec)
        (args' : List Arg)
        → p_fmt fmt args ≡ some (some (fmt', spec, args'))
        → fmt_part sys spec spec.type args' f w ≡ none
        → Faults fmt args f w
    later :
        {fmt : List ℕ} {args : List Arg} {f : File} {w : W} (fmt' : List ℕ) (spec : FmtSpec)
        (args' args'' : List Arg) (n : ℕ) (f' : File) (w' : W) (stores : Bool)
        → p_fmt fmt args ≡ some (some (fmt', spec, args'))
        → fmt_part sys spec spec.type args' f w ≡ some ((n, f', w'), args'', stores)
        → Faults fmt' args'' f' w'
        → Faults fmt args f w

  -- There is a result, or a fault.
  abbrev pub EndsOrFaults : List ℕ → List Arg → File → W → Option (ℕ × List ℕ × File × W) → Type 0
  EndsOrFaults fmt args f w (some r) = Unit
  EndsOrFaults fmt args f w none = Faults fmt args f w

  -- The rounds that are left end, on shorter formats.
  abbrev RestEnds : ℕ → ℕ → Type 0
  RestEnds n fuel =
      (fmt : List ℕ) (args : List Arg) (nw : ℕ) (stored : List ℕ) (f : File) (w : W)
      → length fmt < n
      → EndsOrFaults fmt args f w (vfprintf_loop sys fuel fmt args nw stored f w)

  module _ (fuel : ℕ) (fmt : List ℕ) (args : List Arg) (nw : ℕ) (stored : List ℕ) (f : File) (w : W)
      (rest : RestEnds (length fmt) fuel) where
    abbrev Rounds : Type 0
    Rounds = Option (ℕ × List ℕ × File × W)

    -- What a round does with the part that p_fmt has read.
    abbrev part_round : List ℕ → Option (Part sys) → Rounds
    part_round fmt' q = elim q [
      | none ↦ none
      | some ((nwp, f', w'), args'', stores) ↦
          if leb (2 ^ 31) nwp
          then some (minus_one, stored, f', w')
          else vfprintf_loop sys fuel fmt' args'' ((nw + nwp) % word32)
              (if stores then stored ++ nw ∷ [] else stored) f' w'
    ]
