-- ===== src/Stdlib/Printf/Fields.antt =====
-- A field that stdlib/stdio_printf.c writes: the text and its padding, as the buffered files promise.
pub mod Strings
pub mod Numbers
use smolcc.Base.{
  ℕ, zero, suc, ◌+◌, ◌-◌, ◌*◌, ◌/◌, ◌%◌, ◌^◌, ◌<◌, ◌≤◌, ◌≡◌, ◌⊎◌, refl, sym, ap, ◌∙◌, Bool, true,
  false, ◌&&◌, not, List, [], ◌∷◌, ◌++◌, Option, none, some, length, take, ltb, leb, ◌==◌,
  if◌then◌else◌, arith, inl, inr, Bool-cases,
}
use mathlib.Core.List.{append_assoc, append-nil}
use mathlib.Core.Path.{subst}
use smolcc.Base.Word.{word32}
use smolcc.Stdlib.File.{File}
use smolcc.Stdlib.File.Calls.{System, Io, fwrite, fputc, write_bytes}
use smolcc.Stdlib.File.Writing.{IsWriter, IsOpen, contents, Took, write_bytes-Took}
use smolcc.Stdlib.Printf.Spec.{FmtSpec}
use smolcc.Stdlib.Printf.Format.{
  Step, skip, continue, both, fill_loop, fill, and_not, put, is_all, when, result, pad_of, pad_chr,
  minus_one, fmt_str_core, fmt_num_core,
}

abbrev pub repeat : ℕ → ℕ → List ℕ
repeat zero c = []
repeat (suc n) c = c ∷ repeat n c

take-length : (s : List ℕ) → take (length s) s ≡ s
take-length [] = refl
take-length (c ∷ s) = ap (λ l. c ∷ l) (take-length s)

div_one : (n : ℕ) → n / 1 ≡ n
div_one n = omega arith

module _ {W : Type 0} (sys : System W) (out : ℕ → W → List ℕ) where
  -- A step that has sent the text, or has failed with the error flag set.
  abbrev Sent : List ℕ → File → W → Option (Io W Bool) → Type 0
  Sent text f w none = ⊥
  Sent text f w (some (ok, f', w')) =
      (f'.fd ≡ f.fd)
      × IsOpen sys out f'
      × (ok ≡ true → contents sys out f' w' ≡ contents sys out f w ++ text)
      × (ok ≡ false → f'.err ≡ true)

  abbrev Sends : List ℕ → Step sys → Type 0
  Sends text step = (f : File) (w : W) → IsOpen sys out f → Sent text f w (step f w)

  -- What fwrite with objects of one byte has done.
  fwrite-Took :
      IsWriter sys out
      → (s : List ℕ) (f : File) (w : W) → IsOpen sys out f
      → Took sys out s f w (fwrite sys s 1 f w)
  unfolding fwrite write_bytes
  fwrite-Took ok [] f w h = write_bytes-Took sys out ok [] f w h
  fwrite-Took ok (c ∷ t) f w h =
      counted (write_bytes sys (c ∷ t) f w) (write_bytes-Took sys out ok (c ∷ t) f w h)
    where
      counted :
          (o : Option (Io W ℕ))
          → Took sys out (c ∷ t) f w o
          → Took sys out
              (c ∷ t)
              f
              w
              (elim o [ some (n, f', w') ↦ some (n / 1, f', w') | none ↦ none ])
      counted none k = k
      counted (some (n, f', w')) k = rw (div_one n) k

  put-Sent :
      (s : List ℕ) (f : File) (w : W) (o : Option (Io W ℕ))
      → Took sys out s f w o
      → Sent s f w (is_all sys (length s) o)
  put-Sent s f w none k = k
  put-Sent s f w (some (n, f', w')) k = (k.0, k.1, all, λ less. k.4 (ground arith))
    where
      all : not (ltb n (length s)) ≡ true → contents sys out f' w' ≡ contents sys out f w ++ s
      all e =
          let whole : n ≡ length s = let bound = k.2 in ground arith in
          let same : take n s ≡ s = rw whole (take-length s) in
          k.3 ∙ ap (λ l. contents sys out f w ++ l) same

  put-Sends : IsWriter sys out → (s : List ℕ) → Sends s (put sys s)
  unfolding put
  put-Sends ok s f w h = put-Sent s f w (fwrite sys s 1 f w) (fwrite-Took ok s f w h)

  fputc-Sends : IsWriter sys out → (c : ℕ) → Sends (c % 256 ∷ []) (fputc sys c)
  unfolding fputc
  fputc-Sends ok c f w h =
      byte (fwrite sys (c % 256 ∷ []) 1 f w) (fwrite-Took ok (c % 256 ∷ []) f w h)
    where
      byte :
          (o : Option (Io W ℕ))
          → Took sys out (c % 256 ∷ []) f w o
          → Sent
              (c % 256 ∷ [])
              f
              w
              (elim o [ some (n, f', w') ↦ some (not (n == 0), f', w') | none ↦ none ])
      byte none k = k
      byte (some (zero, f', w')) k = (k.0, k.1, λ e. absurd (cc), λ e. k.4 (omega arith))
      byte (some (suc n, f', w')) k =
          let bound : suc n ≤ 1 = k.2 in
          let last : n ≡ 0 = omega arith in
          let taken = k.3 in
          let is : (suc n == 0) ≡ false = ground arith in
          let sent : take (suc n) (c % 256 ∷ []) ≡ c % 256 ∷ [] = rw last refl in
          rw is (k.0, k.1, λ e. taken ∙ ap (λ l. contents sys out f w ++ l) sent, λ e. absurd (cc))

  Sent-continue :
      (a b : List ℕ) (next : Step sys) (f : File) (w : W) (o : Option (Io W Bool))
      → Sends b next
      → Sent a f w o
      → Sent (a ++ b) f w (continue sys next o)
  Sent-continue a b next f w none q k = k
  Sent-continue a b next f w (some (false, f', w')) q k =
      (k.0, k.1, λ e. absurd (cc), λ e. k.3 refl)
  Sent-continue a b next f w (some (true, f', w')) q k = after (next f' w') (q f' w' k.1)
    where
      after : (o : Option (Io W Bool)) → Sent b f' w' o → Sent (a ++ b) f w o
      after none j = j
      after (some (ok, f'', w'')) j = (
        j.0 ∙ k.0,
        j.1,
        λ e. j.2 e ∙ ap (λ l. l ++ b) (k.2 refl) ∙ append_assoc (contents sys out f w) a b,
        j.3,
      )

  both-Sends :
      (a b : List ℕ) (p q : Step sys) → Sends a p → Sends b q → Sends (a ++ b) (both sys p q)
  both-Sends a b p q sp sq f w h = Sent-continue a b q f w (p f w) sq (sp f w h)

  skip-Sends : Sends [] (skip sys)
  skip-Sends f w h = (refl, h, λ e. sym (append-nil (contents sys out f w)), λ e. absurd (cc))

  when-Sends :
      (c : Bool) (text : List ℕ) (step : Step sys)
      → Sends text step
      → Sends (if c then text else []) (when sys c step)
  when-Sends true text step s = s
  when-Sends false text step s = skip-Sends

  fill_loop-Sends : IsWriter sys out → (n c : ℕ) → Sends (repeat n (c % 256)) (fill_loop sys n c)
  unfolding fill_loop
  fill_loop-Sends ok zero c = skip-Sends
  fill_loop-Sends ok (suc n) c =
      both-Sends (c % 256 ∷ []) (repeat n (c % 256)) (fputc sys c) (fill_loop sys n c)
        (fputc-Sends ok c) (fill_loop-Sends ok n c)

  fill-Sends : IsWriter sys out → (c n : ℕ) → n < 2 ^ 31 → Sends (repeat n (c % 256)) (fill sys c n)
  unfolding fill
  fill-Sends ok c n small f w h =
      let within : ltb n (2 ^ 31) ≡ true = ground arith in
      let counts : (n == minus_one) ≡ false = ground arith in
      rw (within, counts) (kept (fill_loop sys n c f w) (fill_loop-Sends ok n c f w h))
    where
      kept :
          (o : Option (Io W Bool))
          → Sent (repeat n (c % 256)) f w o
          → Sent (repeat n (c % 256)) f w (and_not sys false o)
      kept none k = k
      kept (some (true, f', w')) k = k
      kept (some (false, f', w')) k = k

  -- What a function for a conversion has done: it has ended, and either it has given the text to the
  -- stream and returns the number, or it returns -1 and the error flag is set.
  pub Prints : List ℕ → ℕ → File → W → Option (Io W ℕ) → Type 0
  Prints text n f w none = ⊥
  Prints text n f w (some (r, f', w')) =
      (f'.fd ≡ f.fd)
      × IsOpen sys out f'
      × (((r ≡ n) × (contents sys out f' w' ≡ contents sys out f w ++ text))
          ⊎ ((r ≡ minus_one) × (f'.err ≡ true)))

  result-Prints :
      (text : List ℕ) (n m : ℕ) (f : File) (w : W) (o : Option (Io W Bool))
      → n ≡ m
      → m < word32
      → Sent text f w o
      → Prints text m f w (result sys n o)
  unfolding Prints
  result-Prints text n m f w none e small k = k
  result-Prints text n m f w (some (true, f', w')) e small k =
      (k.0, k.1, inl (omega arith, k.2 refl))
  result-Prints text n m f w (some (false, f', w')) e small k = (k.0, k.1, inr (refl, k.3 refl))

  -- A string in its field.
  abbrev pub str_field : FmtSpec → List ℕ → List ℕ
  str_field spec str =
      let spaces = repeat (spec.min_width - length str) b' ' in
      if spec.pad_right then str ++ spaces else spaces ++ str

  -- A number in its field.
  abbrev pub num_field : FmtSpec → List ℕ → List ℕ → List ℕ
  num_field spec prefix num_str =
      let pad = spec.min_width - (length prefix + length num_str) in
      if spec.pad_right
      then prefix ++ (num_str ++ repeat pad b' ')
      else if spec.zeropad
      then prefix ++ (repeat pad b'0' ++ num_str)
      else repeat pad b' ' ++ (prefix ++ num_str)

  abbrev pub greater : ℕ → ℕ → ℕ
  greater a b = if ltb a b then b else a

  pad_of_sub : (m len : ℕ) → pad_of m len ≡ m - len
  pad_of_sub m len = ground arith

  add_pad : (m len : ℕ) → len + (m - len) ≡ greater len m
  add_pad m len = ground arith
