-- ===== src/Compiler/Lexer/Reader.antt =====
-- The read buffer of compiler/smolcc1.c, `peek_char` and the part of `skip_chr` that moves in it.
-- `read` is outside the program: it gives the input in pieces of 1 to RDBUF_CAP bytes, and then 0. A
-- negative result, which is an error, is the end of the input too, and stands as 0 here.
use smolcc.Base.{
  ℕ, zero, suc, ◌+◌, ◌<◌, ◌≤◌, ◌≡◌, refl, sym, ap, Bool, true, false, List, [], ◌∷◌, ◌++◌, Option,
  none, some, length, take, get_elem?, arith, ltb, ◌==◌, if◌then◌else◌,
}
use mathlib.Core.Path.{subst}
use smolcc.Compiler.Lexer.{until_eof}

-- RDBUF_CAP
abbrev pub rdbuf_cap : ℕ
rdbuf_cap = 256

-- The array `rdbuf`, with the indices into it, and the pieces that `read` is yet to give.
pub record Reader : Type 0 where
  pub rdbuf : List ℕ
  pub rdbuf_len : ℕ
  pub rdbuf_pos : ℕ
  pub pieces : List (List ℕ)

abbrev drop : ℕ → List ℕ → List ℕ
drop zero s = s
drop (suc n) [] = []
drop (suc n) (c ∷ s) = drop n s

-- The piece is stored at the start of the array.
abbrev store : List ℕ → List ℕ → List ℕ
store piece rdbuf = piece ++ drop (length piece) rdbuf

-- `rdbuf_pos = 0, rdbuf_len = read(stdin, rdbuf, RDBUF_CAP)`
unfoldable pub refill : List ℕ → List (List ℕ) → Reader
refill rdbuf [] = record { rdbuf = rdbuf; rdbuf_len = 0; rdbuf_pos = 0; pieces = [] }
refill rdbuf (piece ∷ pieces) = record {
  rdbuf = store piece rdbuf;
  rdbuf_len = length piece;
  rdbuf_pos = 0;
  pieces = pieces;
}

-- A character as an `int`, or EOF. A `char` is signed, so that the byte 255 is EOF.
abbrev as_chr : ℕ → Option ℕ
as_chr c = if c == 255 then none else some c

-- `rdbuf[rdbuf_pos]`; none past the end of the array.
unfoldable pub chr_at : Reader → Option (Option ℕ × Reader)
chr_at r = elim (get_elem? r.rdbuf r.rdbuf_pos) [ some c ↦ some (as_chr c, r) | none ↦ none ]

abbrev chr_if_any : Reader → Option (Option ℕ × Reader)
chr_if_any r = if r.rdbuf_len == 0 then some (none, r) else chr_at r

-- The next character, or none for EOF, and the buffer.
unfoldable pub peek_char : Reader → Option (Option ℕ × Reader)
unfolding chr_at refill
peek_char r = if ltb r.rdbuf_pos r.rdbuf_len then chr_at r else chr_if_any (refill r.rdbuf r.pieces)

-- `if (chr == EOF) return; rdbuf_pos++;`
unfoldable pub advance : Option ℕ → Reader → Reader
advance none r = r
advance (some c) r = record r { rdbuf_pos = r.rdbuf_pos + 1 }

-- `chr = peek_char()`, and `rdbuf_pos++` unless it is EOF.
unfoldable pub read_chr : Reader → Option (Option ℕ × Reader)
unfolding peek_char advance
read_chr r = elim (peek_char r) [ some (c, r') ↦ some (c, advance c r') | none ↦ none ]

abbrev concat : List (List ℕ) → List ℕ
concat [] = []
concat (p ∷ pieces) = p ++ concat pieces

-- The part of the buffer from the one index to the other.
abbrev between : List ℕ → ℕ → ℕ → List ℕ
between [] pos len = []
between (c ∷ s) zero len = take len (c ∷ s)
between (c ∷ s) (suc pos) zero = []
between (c ∷ s) (suc pos) (suc len) = between s pos len

-- What is yet to be read.
abbrev pub unread : Reader → List ℕ
unread r = between r.rdbuf r.rdbuf_pos r.rdbuf_len ++ concat r.pieces

abbrev pub ArePieces : List (List ℕ) → Type 0
ArePieces [] = Unit
ArePieces (p ∷ pieces) = (0 < length p) × (length p ≤ rdbuf_cap) × ArePieces pieces

-- The indices are in order and inside the array, and no piece is empty or too long for it.
pub record IsReader (r : Reader) : Type 0 where
  pub within : r.rdbuf_pos ≤ r.rdbuf_len
  pub filled : r.rdbuf_len ≤ length r.rdbuf
  pub whole : length r.rdbuf ≡ rdbuf_cap
  pub pieces : ArePieces r.pieces

abbrev first : List ℕ → Option ℕ
first [] = none
first (c ∷ s) = some c

abbrev drop_one : List ℕ → List ℕ
drop_one [] = []
drop_one (c ∷ s) = s

-- The outcome of reading a character, of the bytes that were yet to be read.
abbrev pub Reads : List ℕ → Option (Option ℕ × Reader) → Type 0
Reads s none = ⊥
Reads s (some (c, r)) =
    (c ≡ first (until_eof s)) × (until_eof (unread r) ≡ drop_one (until_eof s)) × IsReader r

-- The character at an index, before the rest of the part.
record Split (rdbuf : List ℕ) (pos len : ℕ) : Type 0 where
  c : ℕ
  at_pos : get_elem? rdbuf pos ≡ some c
  parts : between rdbuf pos len ≡ c ∷ between rdbuf (suc pos) len

between-zero : (s : List ℕ) (len : ℕ) → between s zero len ≡ take len s
between-zero [] zero = refl
between-zero [] (suc len) = refl
between-zero (c ∷ s) len = refl

cut_at : (rdbuf : List ℕ) (pos len : ℕ) → pos < len → len ≤ length rdbuf → Split rdbuf pos len
cut_at [] pos len h k = absurd (omega arith)
cut_at (c ∷ s) pos zero h k = absurd (omega arith)
cut_at (c ∷ s) zero (suc len) h k = record {
  c = c;
  at_pos = refl;
  parts = rw (between-zero s len) refl;
}
cut_at (c ∷ s) (suc pos) (suc len) h k =
    let rest = cut_at s pos len (omega arith) (omega arith) in
    record { c = rest.c; at_pos = rest.at_pos; parts = rest.parts }

take-append : (p s : List ℕ) → take (length p) (p ++ s) ≡ p
take-append [] s = refl
take-append (c ∷ p) s = ap (λ (q : List ℕ). c ∷ q) (take-append p s)

length-store : (p s : List ℕ) → length p ≤ length s → length (store p s) ≡ length s
length-store [] s h = refl
length-store (c ∷ p) [] h = absurd (omega arith)
length-store (c ∷ p) (d ∷ s) h = ap (λ (n : ℕ). suc n) (length-store p s (omega arith))

abbrev moved : Option (Option ℕ × Reader) → Option (Option ℕ × Reader)
moved o = elim o [ some (c, r) ↦ some (c, advance c r) | none ↦ none ]

chr_at_lem :
    (r : Reader) (c : ℕ) → get_elem? r.rdbuf r.rdbuf_pos ≡ some c → chr_at r ≡ some (as_chr c, r)
unfolding chr_at
chr_at_lem r c e = rw (e, chr_at) refl

-- The character `c`, before the bytes of `after`.
chr-Reads :
    (r : Reader) (c : ℕ) (after : List ℕ)
    → IsReader r
    → r.rdbuf_pos < r.rdbuf_len
    → unread r ≡ c ∷ after
    → unread (record r { rdbuf_pos = r.rdbuf_pos + 1 }) ≡ after
    → (b : Bool) → (c == 255) ≡ b
    → Reads (unread r) (moved (some (if b then none else some c, r)))
unfolding advance until_eof
chr-Reads r c after i h e e' true q =
    let nothing : until_eof (unread r) ≡ [] = rw (e, q) refl in rw nothing (refl, refl, i)
chr-Reads r c after i h e e' false q =
    let some_left : until_eof (unread r) ≡ c ∷ until_eof after = rw (e, q) refl in
    let next : IsReader (record r { rdbuf_pos = r.rdbuf_pos + 1 }) = record {
      within = omega arith;
      filled = i.filled;
      whole = i.whole;
      pieces = i.pieces;
    } in
    rw some_left (refl, ap until_eof e', next)

-- A character inside the buffer.
at-Reads :
    (r : Reader) → IsReader r → r.rdbuf_pos < r.rdbuf_len → Reads (unread r) (moved (chr_at r))
at-Reads r i h =
    let s = cut_at r.rdbuf r.rdbuf_pos r.rdbuf_len h i.filled in
    let next : r.rdbuf_pos + 1 ≡ suc r.rdbuf_pos = omega arith in
    subst (λ o. Reads (unread r) (moved o)) (sym (chr_at_lem r s.c s.at_pos))
      (chr-Reads r s.c (between r.rdbuf (suc r.rdbuf_pos) r.rdbuf_len ++ concat r.pieces) i h
        (ap (λ (t : List ℕ). t ++ concat r.pieces) s.parts) (rw next refl) (s.c == 255) refl)

-- After a refill the piece is what the buffer holds.
refill-IsReader :
    (rdbuf : List ℕ) (pieces : List (List ℕ))
    → length rdbuf ≡ rdbuf_cap
    → ArePieces pieces
    → IsReader (refill rdbuf pieces)
unfolding refill
refill-IsReader rdbuf [] e h = record {
  within = omega arith;
  filled = omega arith;
  whole = e;
  pieces = tt;
}
refill-IsReader rdbuf (p ∷ pieces) e h =
    let kept = length-store p rdbuf (omega arith) in
    record {
      within = omega arith;
      filled = omega (arith, kept);
      whole = omega (arith, kept);
      pieces = h.2;
    }

unread-refill :
    (rdbuf : List ℕ) (pieces : List (List ℕ)) → unread (refill rdbuf pieces) ≡ concat pieces
unfolding refill
unread-refill rdbuf [] = rw (between-zero rdbuf 0) refl
unread-refill rdbuf (p ∷ pieces) =
    rw (between-zero (store p rdbuf) (length p), take-append p (drop (length p) rdbuf)) refl

not_empty : (r : Reader) → 0 < r.rdbuf_len → chr_if_any r ≡ chr_at r
not_empty r h = let some_left : (r.rdbuf_len == 0) ≡ false = ground arith in rw some_left refl

-- The end of the buffer: a piece, or the end of the input.
refilled-Reads :
    (rdbuf : List ℕ) (pieces : List (List ℕ))
    → length rdbuf ≡ rdbuf_cap
    → ArePieces pieces
    → Reads (concat pieces) (moved (chr_if_any (refill rdbuf pieces)))
unfolding refill advance until_eof
refilled-Reads rdbuf [] e h = (refl, rw (between-zero rdbuf 0) refl, refill-IsReader rdbuf [] e h)
refilled-Reads rdbuf ([] ∷ pieces) e h = absurd (omega arith)
refilled-Reads rdbuf ((c ∷ p) ∷ pieces) e h =
    let r = refill rdbuf ((c ∷ p) ∷ pieces) in
    subst (λ o. Reads (concat ((c ∷ p) ∷ pieces)) (moved o)) (sym (not_empty r (omega arith)))
      (subst (λ s. Reads s (moved (chr_at r))) (unread-refill rdbuf ((c ∷ p) ∷ pieces))
        (at-Reads r (refill-IsReader rdbuf ((c ∷ p) ∷ pieces) e h) (omega arith)))

nothing_left : (s : List ℕ) (pos len : ℕ) → len ≤ pos → between s pos len ≡ []
nothing_left [] pos len h = refl
nothing_left (c ∷ s) zero zero h = refl
nothing_left (c ∷ s) zero (suc len) h = absurd (omega arith)
nothing_left (c ∷ s) (suc pos) zero h = refl
nothing_left (c ∷ s) (suc pos) (suc len) h = nothing_left s pos len (omega arith)

-- The test of peek_char.
either-Reads :
    (r : Reader)
    → IsReader r
    → (b : Bool) → ltb r.rdbuf_pos r.rdbuf_len ≡ b
    → Reads (unread r) (moved (if b then chr_at r else chr_if_any (refill r.rdbuf r.pieces)))
either-Reads r i true e = at-Reads r i (ground arith)
either-Reads r i false e =
    let over : r.rdbuf_len ≤ r.rdbuf_pos = ground arith in
    let rest : concat r.pieces ≡ unread r =
      rw (nothing_left r.rdbuf r.rdbuf_pos r.rdbuf_len over) refl in
    subst (λ s. Reads s (moved (chr_if_any (refill r.rdbuf r.pieces)))) rest
      (refilled-Reads r.rdbuf r.pieces i.whole i.pieces)

-- Where `read` gives pieces of 1 to RDBUF_CAP bytes, reading a character stays inside the array, and gives
-- the first of the characters that are yet to be read, or EOF if there is none; it leaves the others to
-- be read, wherever the pieces end, and the buffer such that the next character can be read.
pub read_chr-Reads : (r : Reader) → IsReader r → Reads (unread r) (read_chr r)
unfolding read_chr peek_char
read_chr-Reads r i = either-Reads r i (ltb r.rdbuf_pos r.rdbuf_len) refl
