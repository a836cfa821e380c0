-- ===== src/Compiler/Intern.antt =====
-- The two tables of compiler/smolcc1.c that keep one copy of each value: `intern` for strings, with
-- `mem_eq`, and `intern_ty` with the functions that make types.
-- A table is a linked list, latest first, to which entries are only added; a pointer to an entry is
-- the number of the entries that were there before it, which never changes.
pub mod Laws
pub mod Types
use smolcc.Base.{
  ℕ, zero, suc, ◌+◌, Bool, true, false, ◌&&◌, List, [], ◌∷◌, Option, none, some, length, ◌==◌,
  if◌then◌else◌,
}
use smolcc.Compiler.Types.{SymKind}
use smolcc.Compiler.Symbols.{same_name, same_bool}

module _ {A : Type 0} (same : A → A → Bool) where
  -- `for (u = table; u; u = u->next) if (same(u, a)) return u;`
  unfoldable pub find : A → List A → Option ℕ
  find a [] = none
  find a (u ∷ table) = let rest = find a table in if same u a then some (length table) else rest

  -- The entry found, or a new one at the head.
  unfoldable pub intern_in : A → List A → ℕ × List A
  unfolding find
  intern_in a table = elim (find a table) [ some p ↦ (p, table) | none ↦ (length table, a ∷ table) ]

-- What a pointer points to.
unfoldable pub entry {ℓ} : {A : Type ℓ} → List A → ℕ → Option A
entry [] p = none
entry (u ∷ table) p = let rest = entry table p in if p == length table then some u else rest

-- `len == str->len && mem_eq(str->chars, s, len)` on the bytes of two strings, and `intern`.
unfoldable pub intern : List ℕ → List (List ℕ) → ℕ × List (List ℕ)
unfolding intern_in
intern s strings = intern_in same_name s strings

-- struct ty, with pointers to other types.
pub data Node : Type 0 where
  void : Node
  integer : Bool → ℕ → Node
  ptr : ℕ → Node
  arr : ℕ → ℕ → Node
  func : ℕ → List ℕ → Bool → Node
  struct : ℕ → Node
  va_list : Node

-- ty_eq of two types that are not the same pointer. The lengths of the parameter lists are
-- `n_params`, and same_name compares lists of numbers.
unfoldable pub ty_eq : Node → Node → Bool
unfolding same_name
ty_eq (integer s w) (integer t v) = same_bool s t && w == v
ty_eq (ptr b) (ptr c) = b == c
ty_eq (arr b m) (arr c n) = m == n && b == c
ty_eq (func r ps va) (func q qs vb) = r == q && (same_bool va vb && same_name ps qs)
ty_eq (struct s) (struct t) = s == t
ty_eq void void = true
ty_eq va_list va_list = true
ty_eq _ _ = false

unfoldable pub intern_ty : Node → List Node → ℕ × List Node
unfolding intern_in ty_eq
intern_ty node tys = intern_in ty_eq node tys

abbrev pub mk_ptr_ty : ℕ → List Node → ℕ × List Node
mk_ptr_ty base = intern_ty (ptr base)

abbrev pub mk_arr_ty : ℕ → ℕ → List Node → ℕ × List Node
mk_arr_ty base len = intern_ty (arr base len)

abbrev pub mk_struct_ty : ℕ → List Node → ℕ × List Node
mk_struct_ty sym = intern_ty (struct sym)

abbrev pub mk_func_ty : ℕ → List ℕ → Bool → List Node → ℕ × List Node
mk_func_ty ret_ty param_tys is_va = intern_ty (func ret_ty param_tys is_va)

abbrev pub mk_integer_ty : Bool → ℕ → List Node → ℕ × List Node
mk_integer_ty is_signed width = intern_ty (integer is_signed width)

-- The table that init_tys leaves: void, va_list and the six integer types, in this order.
unfoldable pub init_tys : List Node
unfolding intern_ty intern_in find ty_eq
init_tys =
    let t1 = (intern_ty void []).1 in
    let t2 = (intern_ty va_list t1).1 in
    let t3 = (mk_integer_ty true 1 t2).1 in
    let t4 = (mk_integer_ty false 1 t3).1 in
    let t5 = (mk_integer_ty true 4 t4).1 in
    let t6 = (mk_integer_ty false 4 t5).1 in
    let t7 = (mk_integer_ty true 8 t6).1 in (mk_integer_ty false 8 t7).1
