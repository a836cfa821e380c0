-- ===== src/Stdlib/File/Slices.antt =====
-- The bytes that a buffer of stdlib/stdio.c holds from one place to another.
use smolcc.Base.{
  ℕ, zero, suc, ◌+◌, ◌-◌, ◌<◌, ◌≤◌, ◌≡◌, refl, ap, ◌∙◌, true, false, List, [], ◌∷◌, ◌++◌, length,
  take, ◌==◌, arith,
}
use smolcc.Stdlib.File.{store, slice, fill_buf}

pub slice-split :
    (buf : ℕ → ℕ) (i n m : ℕ)
    → n ≤ m
    → take n (slice buf i m) ++ slice buf (i + n) (m - n) ≡ slice buf i m
unfolding slice
slice-split buf i zero m h =
    let same : i + 0 ≡ i = omega arith in let all : m - 0 ≡ m = omega arith in rw (same, all) refl
slice-split buf i (suc n) zero h = absurd (omega arith)
slice-split buf i (suc n) (suc m) h =
    let moved : i + suc n ≡ i + 1 + n = omega arith in
    let fewer : suc m - suc n ≡ m - n = omega arith in
    rw (moved, fewer) (ap (λ l. buf i ∷ l) (slice-split buf (i + 1) n m (omega arith)))

pub slice-length : (buf : ℕ → ℕ) (i n : ℕ) → length (slice buf i n) ≡ n
unfolding slice
slice-length buf i zero = refl
slice-length buf i (suc n) = omega (arith, slice-length buf (i + 1) n)

-- A byte stored after a slice does not change it.
pub slice-store :
    (buf : ℕ → ℕ) (k c i n : ℕ) → i + n ≤ k → slice (store buf k c) i n ≡ slice buf i n
unfolding slice
slice-store buf k c i zero h = refl
slice-store buf k c i (suc n) h =
    let apart : (i == k) ≡ false = ground arith in
    rw apart (ap (λ l. buf i ∷ l) (slice-store buf k c (i + 1) n (omega arith)))

pub slice-snoc :
    (buf : ℕ → ℕ) (c k i n : ℕ)
    → k ≡ i + n
    → slice (store buf k c) i (suc n) ≡ slice buf i n ++ c ∷ []
unfolding slice
slice-snoc buf c k i zero e = let here : (i == k) ≡ true = ground arith in rw here refl
slice-snoc buf c k i (suc n) e =
    let apart : (i == k) ≡ false = ground arith in
    rw apart (ap (λ l. buf i ∷ l) (slice-snoc buf c k (i + 1) n (omega arith)))

slice-fill_below :
    (buf : ℕ → ℕ) (k i n : ℕ) (c : ℕ) → k < i → slice (store buf k c) i n ≡ slice buf i n
unfolding slice
slice-fill_below buf k i zero c h = refl
slice-fill_below buf k i (suc n) c h =
    let apart : (i == k) ≡ false = ground arith in
    rw apart (ap (λ l. buf i ∷ l) (slice-fill_below buf k (i + 1) n c (omega arith)))

pub slice-fill_buf : (buf : ℕ → ℕ) (i : ℕ) (s : List ℕ) → slice (fill_buf buf i s) i (length s) ≡ s
unfolding slice fill_buf
slice-fill_buf buf i [] = refl
slice-fill_buf buf i (c ∷ s) =
    let here : (i == i) ≡ true = ground arith in
    rw here (
      ap (λ l. c ∷ l)
        (slice-fill_below (fill_buf buf (i + 1) s) i (i + 1) (length s) c (omega arith)
          ∙ slice-fill_buf buf (i + 1) s))
