-- ===== src/Compiler/Parser/Frame/Decls.antt =====
-- A statement that begins as a declaration is one.
use smolcc.Base.{ℕ, ◌≡◌, refl, Bool, true, ◌||◌, List, inl, inr, String, Bool-cases}
use smolcc.Compiler.Intern.Laws.{same_name_eq}
use smolcc.Compiler.Parser.Monad.{is, codes}
use smolcc.Compiler.Parser.Ops.{at_ty, at_decl, decl_stmt, stmt_start}

module _ (text : List ℕ) where
  -- One of two words, or a later one.
  word_case :
      {G : Type 0} (w : String) (b : Bool)
      → (text ≡ codes w → G)
      → (b ≡ true → G)
      → is text w || b ≡ true
      → G
  unfolding is
  word_case w b gw gb h = elim (Bool-cases (is text w)) [
    | inl found ↦ gw (same_name_eq text (codes w) found)
    | inr other ↦ gb (rw other at h)
  ]

  at_ty-stmt_start : at_ty text ≡ true → stmt_start text ≡ decl_stmt
  unfolding at_ty stmt_start
  at_ty-stmt_start h =
      word_case "void" _ (λ e. rw e refl)
        (word_case "char" _ (λ e. rw e refl)
          (word_case "int" _ (λ e. rw e refl)
            (word_case "long" _ (λ e. rw e refl)
              (word_case "va_list" _ (λ e. rw e refl)
                (word_case "struct" _ (λ e. rw e refl)
                  (word_case "enum" _ (λ e. rw e refl)
                    (word_case "unsigned" _ (λ e. rw e refl)
                      (λ last. rw (same_name_eq text (codes "const") last) refl))))))))
        h

  pub at_decl-stmt_start : at_decl text ≡ true → stmt_start text ≡ decl_stmt
  unfolding at_decl stmt_start
  at_decl-stmt_start h =
      word_case "static" _ (λ e. rw e refl) (word_case "extern" _ (λ e. rw e refl) at_ty-stmt_start)
        h
