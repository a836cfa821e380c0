-- ===== src/Stdlib/Printf/Fields/Strings.antt =====
-- The field of a string in stdlib/stdio_printf.c.
use smolcc.Base.{
  ℕ, ◌+◌, ◌-◌, ◌^◌, ◌<◌, ◌≡◌, refl, ap, Bool, true, false, not, List, [], ◌++◌, length,
  if◌then◌else◌, arith,
}
use mathlib.Core.List.{append-nil}
use mathlib.Core.Path.{subst}
use smolcc.Stdlib.File.{File}
use smolcc.Stdlib.File.Calls.{System}
use smolcc.Stdlib.File.Writing.{IsWriter, IsOpen}
use smolcc.Stdlib.Printf.Spec.{FmtSpec}
use smolcc.Stdlib.Printf.Format.{Step, both, fill, put, when, fmt_str_core}
use smolcc.Stdlib.Printf.Fields.{
  repeat, Sent, Sends, put-Sends, both-Sends, when-Sends, fill-Sends, Prints, result-Prints,
  str_field, greater, pad_of_sub, add_pad,
}

module _ {W : Type 0} (sys : System W) (out : ℕ → W → List ℕ) where
  -- For widths and lengths that fit an `int`, where `write` takes some of its bytes or fails: a string
  -- is written in its field, padded with spaces on the side that the flags say, and the result is the
  -- width of the field, which is the length or the least width; or it is -1 with the error flag set.
  pub fmt_str_core-Prints :
      IsWriter sys out
      → (spec : FmtSpec) (str : List ℕ) (f : File) (w : W) → IsOpen sys out f
      → spec.min_width < 2 ^ 31
      → length str < 2 ^ 31
      → Prints sys out
          (str_field sys out spec str)
          (greater sys out (length str) spec.min_width)
          f
          w
          (fmt_str_core sys spec str f w)
  unfolding fmt_str_core
  fmt_str_core-Prints ok spec str f w h small short =
      rw (pad_of_sub sys out spec.min_width (length str)) (
        result-Prints sys out (str_field sys out spec str) (length str + pad)
          (greater sys out (length str) spec.min_width) f w _
          (add_pad sys out spec.min_width (length str)) (ground arith)
          (subst (λ text. Sent sys out text f w (steps f w)) (layout spec.pad_right) (sends f w h)))
    where
      pad : ℕ
      pad = spec.min_width - length str

      spaces : List ℕ
      spaces = repeat pad b' '

      steps : Step sys
      steps =
          both sys (when sys (not spec.pad_right) (fill sys b' ' pad))
            (both sys (put sys str) (when sys spec.pad_right (fill sys b' ' pad)))

      fills : Sends sys out spaces (fill sys b' ' pad)
      fills = fill-Sends sys out ok b' ' pad (omega arith)

      sends :
          Sends sys out
            ((if not spec.pad_right then spaces else [])
              ++ (str ++ (if spec.pad_right then spaces else [])))
            steps
      sends =
          both-Sends sys out _ _ _ _
            (when-Sends sys out (not spec.pad_right) spaces (fill sys b' ' pad) fills)
            (both-Sends sys out _ _ _ _ (put-Sends sys out ok str)
              (when-Sends sys out spec.pad_right spaces (fill sys b' ' pad) fills))

      layout :
          (b : Bool)
          → (if not b then spaces else []) ++ (str ++ (if b then spaces else []))
            ≡ (if b then str ++ spaces else spaces ++ str)
      layout true = refl
      layout false = ap (λ l. spaces ++ l) (append-nil str)
