-- ===== src/Stdlib/Printf/Consumed.antt =====
-- Every part of a format string that p_fmt of stdlib/stdio_printf.c reads makes it shorter.
use smolcc.Base.{
  ℕ, ◌+◌, ◌*◌, ◌-◌, ◌%◌, ◌<◌, ◌≤◌, Bool, true, false, ◌&&◌, ◌||◌, List, [], ◌∷◌, Option, none, some,
  length, ◌==◌, if◌then◌else◌, arith, Bool-cases, inl, inr,
}
use smolcc.Base.Word.{word32}
use mathlib.Core.Option.{bind as ◌>>=◌}
use smolcc.Stdlib.Ctype.{isdigit}
use smolcc.Stdlib.Printf.Digits.{sscan_int}
use smolcc.Stdlib.Printf.Spec.{
  FmtSpec, Arg, clear_spec, parse_flags, parse_number, star_precision, parse_after_point,
  parse_precision, parse_long, parse_letter, parse_conversion, parse_text, p_fmt, takes_long,
  raw_type,
}

-- The result, if any, has at most `n` characters left.
abbrev Within : {A : Type 0} → (A → ℕ) → ℕ → Option A → Type 0
Within size n none = Unit
Within size n (some a) = size a ≤ n

Within-if :
    {A : Type 0} (size : A → ℕ) (n : ℕ) (b : Bool) (x y : Option A)
    → Within size n x
    → Within size n y
    → Within size n (if b then x else y)
Within-if size n true x y p q = p
Within-if size n false x y p q = q

Within-bind :
    {A B : Type 0} (f : A → ℕ) (g : B → ℕ) (n k : ℕ) (o : Option A) (h : A → Option B)
    → Within f n o
    → ((a : A) → f a ≤ n → Within g k (h a))
    → Within g k (◌>>=◌ o h)
unfolding ◌>>=◌
Within-bind f g n k none h p q = tt
Within-bind f g n k (some a) h p q = q a p

Within-weaker :
    {A : Type 0} (size : A → ℕ) (n k : ℕ) (o : Option A) → n ≤ k → Within size n o → Within size k o
Within-weaker size n k none h p = tt
Within-weaker size n k (some a) h p = omega arith

abbrev first_length {ℓ} : {A : Type ℓ} → List ℕ × A → ℕ
first_length r = length r.0

abbrev conv_length : List ℕ × FmtSpec × List Arg → ℕ
conv_length r = length r.0

abbrev second_length {ℓ} : {A : Type ℓ} → A × List ℕ → ℕ
second_length r = length r.1

abbrev middle_length : ℕ × List ℕ × List Arg → ℕ
middle_length r = length r.1

parse_flags-Within :
    (fmt : List ℕ) (spec : FmtSpec) → Within first_length (length fmt) (parse_flags fmt spec)
unfolding parse_flags
parse_flags-Within [] spec = tt
parse_flags-Within (c ∷ fmt) spec =
    let rest = λ (s : FmtSpec).
      Within-weaker first_length (length fmt) (length (c ∷ fmt)) (parse_flags fmt s) (omega arith)
        (parse_flags-Within fmt s) in
    Within-if _ _ (c == b'-') _ _ (rest _) (
      Within-if _ _ (c == b'0') _ _ (rest _) (
        Within-if _ _ (c == b' ') _ _ (rest _) (
          Within-if _ _ (c == b'+') _ _ (rest _)
            (Within-if _ _ (c == b'#') _ _ (rest _) (omega arith)))))

sscan_int-Within : (s : List ℕ) (n : ℕ) → Within second_length (length s) (sscan_int s n)
unfolding sscan_int
sscan_int-Within [] n = tt
sscan_int-Within (c ∷ s) n =
    Within-if _ _ (isdigit c) _ _
      (Within-weaker second_length _ _ _ (omega arith)
        (sscan_int-Within s ((n * 10 + (c - b'0')) % word32)))
      (omega arith)

parse_number-Within :
    (fmt : List ℕ) (n : ℕ) → Within second_length (length fmt) (parse_number fmt n)
unfolding parse_number
parse_number-Within [] n = tt
parse_number-Within (c ∷ fmt) n =
    Within-if _ _ (isdigit c) _ _ (sscan_int-Within (c ∷ fmt) 0) (omega arith)

parse_after_point-Within :
    (fmt : List ℕ) (args : List Arg)
    → Within middle_length (length fmt) (parse_after_point fmt args)
unfolding parse_after_point ◌>>=◌
parse_after_point-Within [] args = tt
parse_after_point-Within (c ∷ fmt) args =
    Within-if _ _ (c == b'*') _ _ (star (star_precision args)) (
      Within-bind second_length middle_length _ _ (parse_number (c ∷ fmt) 0) _
        (parse_number-Within (c ∷ fmt) 0) λ r h. h)
  where
    star :
        (o : Option (ℕ × List Arg))
        → Within middle_length (length (c ∷ fmt)) (◌>>=◌ o (λ r. some (r.0, fmt, r.1)))
    star none = tt
    star (some r) = omega arith

parse_precision-Within :
    (fmt : List ℕ) (args : List Arg) → Within middle_length (length fmt) (parse_precision fmt args)
unfolding parse_precision
parse_precision-Within [] args = tt
parse_precision-Within (c ∷ fmt) args =
    Within-if _ _ (c == b'.') _ _
      (Within-weaker middle_length _ _ _ (omega arith) (parse_after_point-Within fmt args))
      (omega arith)

parse_long-Within : (fmt : List ℕ) → Within second_length (length fmt) (parse_long fmt)
unfolding parse_long
parse_long-Within [] = tt
parse_long-Within (c ∷ []) = Within-if _ _ (c == b'l') _ _ tt (omega arith)
parse_long-Within (c ∷ d ∷ fmt) =
    Within-if _ _ (c == b'l' && takes_long d) _ _ (omega arith) (omega arith)

parse_letter-Within :
    (is_long : Bool) (fmt : List ℕ) (spec : FmtSpec)
    → Within first_length (length fmt) (parse_letter is_long fmt spec)
unfolding parse_letter
parse_letter-Within is_long [] spec = tt
parse_letter-Within is_long (c ∷ fmt) spec = omega arith

parse_conversion-Within :
    (fmt : List ℕ) (args : List Arg) → Within conv_length (length fmt) (parse_conversion fmt args)
unfolding parse_conversion
parse_conversion-Within fmt args =
    Within-bind first_length conv_length _ _ (parse_flags fmt clear_spec) _
      (parse_flags-Within fmt clear_spec)
      λ r1 h1.
        Within-bind second_length conv_length _ _ (parse_number r1.0 0) _
          (parse_number-Within r1.0 0)
          λ r2 h2.
            Within-bind middle_length conv_length _ _ (parse_precision r2.1 args) _
              (parse_precision-Within r2.1 args)
              λ r3 h3.
                Within-bind second_length conv_length _ _ (parse_long r3.1) _
                  (parse_long-Within r3.1)
                  λ r4 h4.
                    Within-bind first_length conv_length _ _ (parse_letter r4.0 r4.1 _) _
                      (parse_letter-Within r4.0 r4.1 _) λ r5 h5. omega arith

-- The text goes on after its first character.
longer-Within :
    (c n : ℕ) (o : Option (List ℕ × List ℕ))
    → Within second_length n o
    → Within second_length n (elim o [ some (text, fmt') ↦ some (c ∷ text, fmt') | none ↦ none ])
longer-Within c n none h = tt
longer-Within c n (some r) h = h

parse_text-Within : (fmt : List ℕ) → Within second_length (length fmt) (parse_text fmt)
unfolding parse_text
parse_text-Within [] = tt
parse_text-Within (c ∷ fmt) = Within-if _ _ (c == 0 || c == b'%') _ _ (omega arith) (
    longer-Within c (length (c ∷ fmt)) (parse_text fmt)
      (Within-weaker second_length _ _ (parse_text fmt) (omega arith) (parse_text-Within fmt)))

-- The outcome of p_fmt on `n` characters: a shorter format, or its end.
abbrev pub Shorter : ℕ → Option (Option (List ℕ × FmtSpec × List Arg)) → Type 0
Shorter n none = Unit
Shorter n (some none) = Unit
Shorter n (some (some r)) = length r.0 < n

-- Unless it reads past the end of the format or of the arguments, p_fmt is at the end of the format or
-- leaves less of it.
pub p_fmt-Shorter : (fmt : List ℕ) (args : List Arg) → Shorter (length fmt) (p_fmt fmt args)
unfolding p_fmt
p_fmt-Shorter [] args = tt
p_fmt-Shorter (c ∷ fmt) args = elim (Bool-cases (c == 0)) [
  | inl e ↦ rw e tt
  | inr more ↦ elim (Bool-cases (c == b'%')) [
    | inl e ↦
        rw (more, e) (conversion (parse_conversion fmt args) (parse_conversion-Within fmt args))
    | inr e ↦
        rw (more, e)
          (part _ (longer-Within c (length fmt) (parse_text fmt) (parse_text-Within fmt)))
  ]
]
  where
    conversion :
        (o : Option (List ℕ × FmtSpec × List Arg))
        → Within conv_length (length fmt) o
        → Shorter (length (c ∷ fmt)) (elim o [ some r ↦ some (some r) | none ↦ none ])
    conversion none h = tt
    conversion (some r) h = omega arith

    part :
        (o : Option (List ℕ × List ℕ))
        → Within second_length (length fmt) o
        → Shorter (length (c ∷ fmt)) (elim o [
          | some (text, fmt') ↦
              some (some (fmt', record clear_spec { type = raw_type; raw = text }, args))
          | none ↦ none
        ])
    part none h = tt
    part (some r) h = omega arith
