-- ===== src/Compiler/Intern/Laws.antt =====
-- A table that is filled by interning holds no value twice, and pointers stay valid.
use smolcc.Base.{
  ℕ, ◌<◌, ◌≡◌, refl, sym, ap, ◌∙◌, ◌≢◌, inl, inr, Bool, true, false, List, [], ◌∷◌, none, some,
  length, ◌==◌, ==_iff, Bool-cases, arith,
}
use mathlib.Core.Logic.{◌↔◌, ◌⊎◌}
use smolcc.Compiler.Symbols.{same_name}
use smolcc.Compiler.Intern.{find, intern_in, entry, intern}

pub entry-lt {ℓ} :
    {A : Type ℓ} (table : List A) (p : ℕ) (a : A) → entry table p ≡ some a → p < length table
unfolding entry
entry-lt [] p a h = absurd (cc)
entry-lt (u ∷ table) p a h = elim (Bool-cases (p == length table)) [
  | inl e ↦ let q : p ≡ length table = (==_iff p (length table)).0 e in omega (arith, q)
  | inr e ↦
      let h' : entry table p ≡ some a = rw e at h in let q = entry-lt table p a h' in omega arith
]

-- Adding an entry leaves the others where they are.
pub entry-cons {ℓ} :
    {A : Type ℓ} (u : A) (table : List A) (p : ℕ) (a : A)
    → entry table p ≡ some a
    → entry (u ∷ table) p ≡ some a
unfolding entry
entry-cons u table p a h =
    let q = entry-lt table p a h in
    let e : (p == length table) ≡ false = ground arith in rw (e, h) refl

-- What the table with a new entry holds is the entry, or was there.
pub entry_cases :
    {A : Type 0} (u : A) (table : List A) (p : ℕ) (a : A)
    → entry (u ∷ table) p ≡ some a
    → ((p ≡ length table) × (u ≡ a)) ⊎ (entry table p ≡ some a)
unfolding entry
entry_cases u table p a h = elim (Bool-cases (p == length table)) [
  | inl e ↦ let k = rw e at h in inl ((==_iff p (length table)).0 e, cc)
  | inr e ↦ inr (rw e at h)
]

-- The newest entry.
pub entry-length : {A : Type 0} (u : A) (table : List A) → entry (u ∷ table) (length table) ≡ some u
unfolding entry
entry-length u table = rw ((==_iff (length table) (length table)).1 refl) refl

-- No value has two entries.
unfoldable pub IsDistinct : {A : Type 0} → List A → Type 0
IsDistinct {A} table = (p q : ℕ) (a : A) → entry table p ≡ some a → entry table q ≡ some a → p ≡ q

module _ {A : Type 0} (same : A → A → Bool) (exact : (a b : A) → (same a b ≡ true) ↔ (a ≡ b)) where
  -- What find returns points to the value.
  pub find-entry :
      (a : A) (table : List A) (p : ℕ) → find same a table ≡ some p → entry table p ≡ some a
  unfolding find entry
  find-entry a [] p h = absurd (cc)
  find-entry a (u ∷ table) p h = elim (Bool-cases (same u a)) [
    | inl e ↦
        let k = rw e at h in
        let here : p ≡ length table = cc in
        let at_end : (p == length table) ≡ true = (==_iff p (length table)).1 here in
        rw at_end (ap some ((exact u a).0 e))
    | inr e ↦ entry-cons u table p a (find-entry a table p (rw e at h))
  ]

  -- A value that is there is found.
  pub find_complete :
      (a : A) (table : List A) (p : ℕ) → find same a table ≡ none → entry table p ≢ some a
  unfolding find entry
  find_complete a [] p h e = absurd (cc)
  find_complete a (u ∷ table) p h e = elim (Bool-cases (same u a)) [
    | inl y ↦ cc
    | inr n ↦ elim (entry_cases u table p a e) [
      | inl (here, is_u) ↦ let yes' = (exact u a).1 is_u in cc
      | inr older ↦ find_complete a table p (rw n at h) older
    ]
  ]

  find_cases :
      (a : A) (table : List A)
      → ((p : ℕ) × (find same a table ≡ some p)) ⊎ (find same a table ≡ none)
  find_cases a table = elim (find same a table) as (λ o. ((p : ℕ) × (o ≡ some p)) ⊎ (o ≡ none)) [
    | some p ↦ inl (p, refl)
    | none ↦ inr refl
  ]

  -- After interning, the pointer points to the value, the pointers from before point to what they
  -- did, and still no value has two entries.
  pub intern_in-laws :
      (a : A) (table : List A)
      → IsDistinct table
      → (entry (intern_in same a table).1 (intern_in same a table).0 ≡ some a)
        × ((p : ℕ) (b : A) → entry table p ≡ some b → entry (intern_in same a table).1 p ≡ some b)
        × IsDistinct (intern_in same a table).1
  unfolding intern_in IsDistinct
  intern_in-laws a table h = elim (find_cases a table) [
    | inl (p, e) ↦ rw (intern_in, e) (find-entry a table p e, λ q b k. k, h)
    | inr e ↦
        rw (intern_in, e)
          (
            entry-length a table,
            λ q b k. entry-cons a table q b k,
            λ p q b k l. elim (entry_cases a table p b k) [
              | inl (pe, pa) ↦ elim (entry_cases a table q b l) [
                | inl (qe, qa) ↦ pe ∙ sym qe
                | inr older ↦ absurd (find_complete a table q e (older ∙ ap some (sym pa)))
              ]
              | inr older ↦ elim (entry_cases a table q b l) [
                | inl (qe, qa) ↦ absurd (find_complete a table p e (older ∙ ap some (sym qa)))
                | inr older' ↦ h p q b older older'
              ]
            ],
          )
  ]

  -- Two values have the same pointer exactly when they are equal.
  pub intern_in_iff :
      (a b : A) (table : List A)
      → IsDistinct table
      → ((intern_in same a table).0 ≡ (intern_in same b (intern_in same a table).1).0) ↔ (a ≡ b)
  unfolding IsDistinct
  intern_in_iff a b table h =
      let first = intern_in-laws a table h in
      let second = intern_in-laws b (intern_in same a table).1 first.2 in
      let kept = second.1 (intern_in same a table).0 a first.0 in
      let at_b = second.0 in
      (λ e. let k = rw e at kept in cc, λ e. second.2 _ _ b (kept ∙ ap some e) at_b)

pub same_name_refl : (a : List ℕ) → same_name a a ≡ true
unfolding same_name
same_name_refl [] = refl
same_name_refl (a ∷ as') = let rest = same_name_refl as' in ground arith

pub same_name_eq : (a b : List ℕ) → same_name a b ≡ true → a ≡ b
unfolding same_name
same_name_eq [] [] e = refl
same_name_eq [] (b ∷ bs) e = absurd (cc)
same_name_eq (a ∷ as') [] e = absurd (cc)
same_name_eq (a ∷ as') (b ∷ bs) e =
    let both : (a ≡ b) × (same_name as' bs ≡ true) = ground arith in
    let rest = same_name_eq as' bs both.1 in cc

pub same_name_iff : (a b : List ℕ) → (same_name a b ≡ true) ↔ (a ≡ b)
same_name_iff a b = (same_name_eq a b, λ e. rw e (same_name_refl b))

-- In a table where no string has two entries, as in the empty one: intern gives two strings the same
-- pointer exactly when they are equal, and pointers given before still point to their strings.
pub intern_iff :
    (s u : List ℕ) (strings : List (List ℕ))
    → IsDistinct strings
    → let (p, strings') = intern s strings in
      let (q, strings'') = intern u strings' in
      ((p ≡ q) ↔ (s ≡ u))
      × (entry strings'' p ≡ some s)
      × (entry strings'' q ≡ some u)
      × IsDistinct strings''
unfolding intern
intern_iff s u strings h =
    let first = intern_in-laws same_name same_name_iff s strings h in
    let second = intern_in-laws same_name same_name_iff u (intern s strings).1 first.2 in
    (
      intern_in_iff same_name same_name_iff s u strings h,
      second.1 (intern s strings).0 s first.0,
      second.0,
      second.2,
    )
