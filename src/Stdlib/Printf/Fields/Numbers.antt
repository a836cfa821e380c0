-- ===== src/Stdlib/Printf/Fields/Numbers.antt =====
-- The field of a number in stdlib/stdio_printf.c: prefix, digits and padding.
use smolcc.Base.{
  ℕ, ◌+◌, ◌-◌, ◌^◌, ◌<◌, ◌≤◌, ◌≡◌, refl, Bool, true, false, ◌&&◌, not, List, [], ◌∷◌, ◌++◌, some,
  length, ltb, ◌==◌, if◌then◌else◌, arith,
}
use mathlib.Core.List.{append-nil}
use mathlib.Core.Path.{subst}
use smolcc.Base.Word.{word64}
use smolcc.Compiler.Misc.{write_uint, max_digits}
use smolcc.Compiler.Misc.Decimal.{AreDigits, length-write_uint, write_uint-value_of}
use smolcc.Stdlib.File.{File}
use smolcc.Stdlib.File.Calls.{System}
use smolcc.Stdlib.File.Writing.{IsWriter, IsOpen}
use smolcc.Stdlib.Printf.Spec.{FmtSpec}
use smolcc.Stdlib.Printf.Numerals.{uint_to_dec-write_uint}
use smolcc.Stdlib.Printf.Format.{
  Step, both, fill, put, when, pad_chr, fmt_num_core, fmt_int, digits_of, prefix_of, drop_minus,
  is_unsigned,
}
use smolcc.Stdlib.Printf.Fields.{
  repeat, Sent, Sends, put-Sends, both-Sends, when-Sends, fill-Sends, Prints, result-Prints,
  num_field, greater, pad_of_sub, add_pad,
}

-- The condition that the prefix is not empty makes no difference.
prefix_if : (prefix : List ℕ) → (if ltb 0 (length prefix) then prefix else []) ≡ prefix
prefix_if [] = refl
prefix_if (c ∷ s) =
    let some_left : ltb 0 (length (c ∷ s)) ≡ true = ground arith in rw some_left refl

module _ {W : Type 0} (sys : System W) (out : ℕ → W → List ℕ) where
  -- For widths and lengths that fit an `int`, where `write` takes some of its bytes or fails: a number
  -- is written with its prefix in its field, padded with spaces on the right, zeros after the prefix or
  -- spaces on the left, as the flags say, and the result is the width of the field; or it is -1 with the
  -- error flag set.
  pub fmt_num_core-Prints :
      IsWriter sys out
      → (prefix num_str : List ℕ) (spec : FmtSpec) (f : File) (w : W) → IsOpen sys out f
      → spec.min_width < 2 ^ 31
      → length prefix + length num_str < 2 ^ 31
      → Prints sys out
          (num_field sys out spec prefix num_str)
          (greater sys out (length prefix + length num_str) spec.min_width)
          f
          w
          (fmt_num_core sys prefix num_str spec f w)
  unfolding fmt_num_core
  fmt_num_core-Prints ok prefix num_str spec f w h small short =
      rw (pad_of_sub sys out spec.min_width width) (
        result-Prints sys out (num_field sys out spec prefix num_str) (width + pad)
          (greater sys out width spec.min_width) f w _ (add_pad sys out spec.min_width width)
          (ground arith)
          (subst (λ text. Sent sys out text f w (steps f w)) (layout spec.pad_right spec.zeropad)
            (sends f w h)))
    where
      width : ℕ
      width = length prefix + length num_str

      pad : ℕ
      pad = spec.min_width - width

      left_spaces : Bool
      left_spaces = not spec.pad_right && pad_chr spec == b' '

      left_zeros : Bool
      left_zeros = not spec.pad_right && pad_chr spec == b'0'

      right_spaces : Bool
      right_spaces = spec.pad_right && pad_chr spec == b' '

      steps : Step sys
      steps = both sys (when sys left_spaces (fill sys b' ' pad)) (
          both sys (when sys (ltb 0 (length prefix)) (put sys prefix)) (
            both sys (when sys left_zeros (fill sys b'0' pad))
              (both sys (put sys num_str) (when sys right_spaces (fill sys b' ' pad)))))

      fills : Sends sys out (repeat pad b' ') (fill sys b' ' pad)
      fills = fill-Sends sys out ok b' ' pad (omega arith)

      sends :
          Sends sys out
            ((if left_spaces then repeat pad b' ' else [])
              ++ ((if ltb 0 (length prefix) then prefix else [])
                  ++ ((if left_zeros then repeat pad b'0' else [])
                      ++ (num_str ++ (if right_spaces then repeat pad b' ' else [])))))
            steps
      sends =
          both-Sends sys out _ _ _ _ (when-Sends sys out left_spaces _ (fill sys b' ' pad) fills) (
            both-Sends sys out _ _ _ _
              (when-Sends sys out (ltb 0 (length prefix)) prefix (put sys prefix)
                (put-Sends sys out ok prefix))
              (both-Sends sys out _ _ _ _
                (when-Sends sys out left_zeros _ (fill sys b'0' pad)
                  (fill-Sends sys out ok b'0' pad (omega arith)))
                (both-Sends sys out _ _ _ _ (put-Sends sys out ok num_str)
                  (when-Sends sys out right_spaces _ (fill sys b' ' pad) fills))))

      layout :
          (b z : Bool)
          → (if not b && (if not b && z then b'0' else b' ') == b' ' then repeat pad b' ' else [])
              ++ ((if ltb 0 (length prefix) then prefix else [])
                  ++ ((if not b && (if not b && z then b'0' else b' ') == b'0'
                        then repeat pad b'0'
                        else [])
                      ++ (num_str
                          ++ (if b && (if not b && z then b'0' else b' ') == b' '
                              then repeat pad b' '
                              else []))))
            ≡ (if b
                then prefix ++ (num_str ++ repeat pad b' ')
                else if z
                then prefix ++ (repeat pad b'0' ++ num_str)
                else repeat pad b' ' ++ (prefix ++ num_str))
      layout true z = rw (prefix_if prefix) refl
      layout false true = rw (prefix_if prefix, append-nil num_str) refl
      layout false false = rw (prefix_if prefix, append-nil num_str) refl

drop_minus-AreDigits : (s : List ℕ) → AreDigits s → drop_minus s ≡ s
drop_minus-AreDigits [] d = refl
drop_minus-AreDigits (c ∷ s) d =
    let low : b'0' ≤ c = d.0 in let other : (c == b'-') ≡ false = ground arith in rw other refl

unsigned_digits :
    (spec : FmtSpec) (n : ℕ)
    → spec.base ≡ 10
    → is_unsigned spec.type ≡ true
    → n < word64
    → digits_of spec n ≡ some (write_uint max_digits n)
unfolding digits_of
unsigned_digits spec n ten plain small = rw (ten, plain) (uint_to_dec-write_uint n small)

unsigned_prefix :
    (spec : FmtSpec) (n : ℕ) → spec.base ≡ 10 → is_unsigned spec.type ≡ true → prefix_of spec n ≡ []
unfolding prefix_of
unsigned_prefix spec n ten plain = rw (ten, plain) refl

module _ {W : Type 0} (sys : System W) (out : ℕ → W → List ℕ) where
  fmt_int-fmt_num_core :
      (spec : FmtSpec) (n : ℕ) (f : File) (w : W)
      → spec.base ≡ 10
      → is_unsigned spec.type ≡ true
      → n < word64
      → fmt_int sys spec n f w ≡ fmt_num_core sys [] (write_uint max_digits n) spec f w
  unfolding fmt_int
  fmt_int-fmt_num_core spec n f w ten plain small =
      let digits = (write_uint-value_of n small).1 in
      rw
        (
          fmt_int,
          unsigned_digits spec n ten plain small,
          unsigned_prefix spec n ten plain,
          drop_minus-AreDigits (write_uint max_digits n) digits,
        )
        refl

  -- Where `write` takes some of its bytes or fails, and the least width fits an `int`: a decimal
  -- conversion of an unsigned number writes the digits that the compiler's write_uint sends, in their
  -- field, and the result is the width of the field; or it is -1 with the error flag set.
  pub fmt_int-Prints :
      IsWriter sys out
      → (spec : FmtSpec) (n : ℕ) (f : File) (w : W) → IsOpen sys out f
      → spec.base ≡ 10
      → is_unsigned spec.type ≡ true
      → spec.min_width < 2 ^ 31
      → n < word64
      → Prints sys out
          (num_field sys out spec [] (write_uint max_digits n))
          (greater sys out (length (write_uint max_digits n)) spec.min_width)
          f
          w
          (fmt_int sys spec n f w)
  fmt_int-Prints ok spec n f w h ten plain narrow small =
      let short = length-write_uint max_digits n in
      let no_prefix : 0 + length (write_uint max_digits n) ≡ length (write_uint max_digits n) =
        omega arith in
      let text = num_field sys out spec [] (write_uint max_digits n) in
      rw (fmt_int-fmt_num_core spec n f w ten plain small) (
        subst
          (λ m.
            Prints sys out text (greater sys out m spec.min_width) f w
              (fmt_num_core sys [] (write_uint max_digits n) spec f w))
          no_prefix
          (fmt_num_core-Prints sys out ok [] (write_uint max_digits n) spec f w h narrow
            (omega arith)))
