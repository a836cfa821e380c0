-- ===== src/Compiler/Parser/Levels.antt =====
-- The precedence of C's operators, against the loop of p_expr in compiler/smolcc1.c.
use smolcc.Base.{
  ℕ, ◌≤◌, ◌≡◌, ◌⊎◌, inl, inr, refl, false, String, List, [], ◌∷◌, none, some, ltb, if◌then◌else◌,
  arith, Bool-cases,
}
use mathlib.Core.Logic.{◌↔◌}
use smolcc.Compiler.Intern.Laws.{same_name_eq}
use smolcc.Compiler.Parser.Monad.{is, codes}
use smolcc.Compiler.Parser.Ops.{Infix, infix_of}

-- C's grammar: the operators that stand after an operand, with the level of their production, from the
-- comma up to the postfix operators. 14 is the level of the unary operators.
abbrev c_levels : List (String × ℕ)
c_levels =
    (",", 1)
    ∷ ("=", 2)
    ∷ ("?", 3)
    ∷ ("||", 4)
    ∷ ("&&", 5)
    ∷ ("|", 6)
    ∷ ("^", 7)
    ∷ ("&", 8)
    ∷ ("==", 9)
    ∷ ("!=", 9)
    ∷ ("<", 10)
    ∷ (">", 10)
    ∷ ("<=", 10)
    ∷ (">=", 10)
    ∷ ("<<", 11)
    ∷ (">>", 11)
    ∷ ("+", 12)
    ∷ ("-", 12)
    ∷ ("*", 13)
    ∷ ("/", 13)
    ∷ ("%", 13)
    ∷ ("[", 15)
    ∷ ("(", 15)
    ∷ (".", 15)
    ∷ ("->", 15)
    ∷ ("++", 15)
    ∷ ("--", 15)
    ∷ []

unfoldable level_in : List (String × ℕ) → List ℕ → ℕ
level_in [] text = 0
level_in ((w, n) ∷ rows) text = let rest = level_in rows text in if is text w then n else rest

-- How tightly a word binds what stands before it; 0 if it is no operator.
unfoldable pub c_level : List ℕ → ℕ
unfolding level_in
c_level text = level_in c_levels text

-- The parser agrees with the table at each of its operators.
abbrev Agree : ℕ → List (String × ℕ) → Type 0
Agree rbp [] = Unit
Agree rbp ((w, n) ∷ rows) = ((infix_of rbp (codes w) ≡ none) ↔ (n ≤ rbp)) × Agree rbp rows

-- The text is none of the operators.
abbrev AreOther : List ℕ → List (String × ℕ) → Type 0
AreOther text [] = Unit
AreOther text ((w, n) ∷ rows) = (is text w ≡ false) × AreOther text rows

stop_at : (rbp n : ℕ) (x : Infix) → ((if ltb rbp n then some x else none) ≡ none) ↔ (n ≤ rbp)
stop_at rbp n x = (λ h. ground arith, λ h. ground arith)

agrees : (rbp : ℕ) → Agree rbp c_levels
unfolding infix_of
agrees rbp = (
  stop_at rbp 1 _,
  (
    stop_at rbp 2 _,
    (
      stop_at rbp 3 _,
      (
        stop_at rbp 4 _,
        (
          stop_at rbp 5 _,
          (
            stop_at rbp 6 _,
            (
              stop_at rbp 7 _,
              (
                stop_at rbp 8 _,
                (
                  stop_at rbp 9 _,
                  (
                    stop_at rbp 9 _,
                    (
                      stop_at rbp 10 _,
                      (
                        stop_at rbp 10 _,
                        (
                          stop_at rbp 10 _,
                          (
                            stop_at rbp 10 _,
                            (
                              stop_at rbp 11 _,
                              (
                                stop_at rbp 11 _,
                                (
                                  stop_at rbp 12 _,
                                  (
                                    stop_at rbp 12 _,
                                    (
                                      stop_at rbp 13 _,
                                      (
                                        stop_at rbp 13 _,
                                        (
                                          stop_at rbp 13 _,
                                          (
                                            stop_at rbp 15 _,
                                            (
                                              stop_at rbp 15 _,
                                              (
                                                stop_at rbp 15 _,
                                                (
                                                  stop_at rbp 15 _,
                                                  (stop_at rbp 15 _, (stop_at rbp 15 _, tt)),
                                                ),
                                              ),
                                            ),
                                          ),
                                        ),
                                      ),
                                    ),
                                  ),
                                ),
                              ),
                            ),
                          ),
                        ),
                      ),
                    ),
                  ),
                ),
              ),
            ),
          ),
        ),
      ),
    ),
  ),
)

other_stops : (rbp : ℕ) (text : List ℕ) → AreOther text c_levels → infix_of rbp text ≡ none
unfolding infix_of
other_stops rbp text h =
    rw
      (
        h.0, h.1.0, h.1.1.0, h.1.1.1.0, h.1.1.1.1.0, h.1.1.1.1.1.0, h.1.1.1.1.1.1.0,
        h.1.1.1.1.1.1.1.0, h.1.1.1.1.1.1.1.1.0, h.1.1.1.1.1.1.1.1.1.0, h.1.1.1.1.1.1.1.1.1.1.0,
        h.1.1.1.1.1.1.1.1.1.1.1.0, h.1.1.1.1.1.1.1.1.1.1.1.1.0, h.1.1.1.1.1.1.1.1.1.1.1.1.1.0,
        h.1.1.1.1.1.1.1.1.1.1.1.1.1.1.0, h.1.1.1.1.1.1.1.1.1.1.1.1.1.1.1.0,
        h.1.1.1.1.1.1.1.1.1.1.1.1.1.1.1.1.0, h.1.1.1.1.1.1.1.1.1.1.1.1.1.1.1.1.1.0,
        h.1.1.1.1.1.1.1.1.1.1.1.1.1.1.1.1.1.1.0, h.1.1.1.1.1.1.1.1.1.1.1.1.1.1.1.1.1.1.1.0,
        h.1.1.1.1.1.1.1.1.1.1.1.1.1.1.1.1.1.1.1.1.0, h.1.1.1.1.1.1.1.1.1.1.1.1.1.1.1.1.1.1.1.1.1.0,
        h.1.1.1.1.1.1.1.1.1.1.1.1.1.1.1.1.1.1.1.1.1.1.0,
        h.1.1.1.1.1.1.1.1.1.1.1.1.1.1.1.1.1.1.1.1.1.1.1.0,
        h.1.1.1.1.1.1.1.1.1.1.1.1.1.1.1.1.1.1.1.1.1.1.1.1.0,
        h.1.1.1.1.1.1.1.1.1.1.1.1.1.1.1.1.1.1.1.1.1.1.1.1.1.0,
        h.1.1.1.1.1.1.1.1.1.1.1.1.1.1.1.1.1.1.1.1.1.1.1.1.1.1.0,
      )
      refl

level_cases :
    (rbp : ℕ) (text : List ℕ) (rows : List (String × ℕ))
    → Agree rbp rows
    → ((infix_of rbp text ≡ none) ↔ (level_in rows text ≤ rbp))
      ⊎ (AreOther text rows × (level_in rows text ≡ 0))
unfolding level_in is
level_cases rbp text [] a = inr (tt, refl)
level_cases rbp text ((w, n) ∷ rows) a = elim (Bool-cases (is text w)) [
  | inl found ↦ inl (rw found (rw (same_name_eq text (codes w) found) a.0))
  | inr other ↦ elim (level_cases rbp text rows a.1) [
    | inl e ↦ inl (rw other e)
    | inr e ↦ inr ((other, e.0), rw other e.1)
  ]
]

-- The loop of p_expr goes on at a token exactly if it is an operator that binds tighter, by the grammar
-- of C, than the precedence that the loop was called with: for every text and every precedence.
pub infix_of_iff : (rbp : ℕ) (text : List ℕ) → (infix_of rbp text ≡ none) ↔ (c_level text ≤ rbp)
unfolding c_level
infix_of_iff rbp text = elim (level_cases rbp text c_levels (agrees rbp)) [
  | inl e ↦ e
  | inr e ↦ (λ h. omega (arith, e.1), λ h. other_stops rbp text e.0)
]
