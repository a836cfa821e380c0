-- ===== src/Compiler/Intern/Types.antt =====
-- Interned types stand for trees: two pointers to types are equal exactly when the types are.
use smolcc.Base.{ℕ, ◌≡◌, refl, sym, ap, Bool, true, false, List, [], ◌∷◌, some, arith}
use mathlib.Core.Logic.{◌↔◌}
use mathlib.Core.Path.{subst}
use smolcc.Compiler.Types.{Ty, Params}
use smolcc.Compiler.Symbols.{same_name, same_bool}
use smolcc.Compiler.Intern.{
  Node, void, integer, ptr, arr, func, struct, va_list, ty_eq, intern_ty, entry, intern_in,
}
use smolcc.Compiler.Intern.Laws.{IsDistinct, intern_in-laws, same_name_refl, same_name_eq}

same_bool_eq : (a b : Bool) → same_bool a b ≡ true → a ≡ b
same_bool_eq true true e = refl
same_bool_eq true false e = sym e
same_bool_eq false true e = e
same_bool_eq false false e = refl

same_bool_refl : (a : Bool) → same_bool a a ≡ true
same_bool_refl true = refl
same_bool_refl false = refl

ty_eq_refl : (a : Node) → ty_eq a a ≡ true
unfolding ty_eq
ty_eq_refl void = refl
ty_eq_refl va_list = refl
ty_eq_refl (integer s w) = let h = same_bool_refl s in ground arith
ty_eq_refl (ptr b) = ground arith
ty_eq_refl (arr b n) = ground arith
ty_eq_refl (func r ps va) = let h = same_bool_refl va in let k = same_name_refl ps in ground arith
ty_eq_refl (struct s) = ground arith

ty_eq_eq : (a b : Node) → ty_eq a b ≡ true → a ≡ b
unfolding ty_eq
ty_eq_eq void void e = refl
ty_eq_eq va_list va_list e = refl
ty_eq_eq (integer s w) (integer t v) e =
    let both : (same_bool s t ≡ true) × (w ≡ v) = ground arith in
    let h = same_bool_eq s t both.0 in cc
ty_eq_eq (ptr b) (ptr c) e = let h : b ≡ c = ground arith in cc
ty_eq_eq (arr b m) (arr c n) e = let h : (b ≡ c) × (m ≡ n) = ground arith in cc
ty_eq_eq (func r ps va) (func q qs vb) e =
    let all : (r ≡ q) × (same_bool va vb ≡ true) × (same_name ps qs ≡ true) = ground arith in
    let h = same_bool_eq va vb all.1 in let k = same_name_eq ps qs all.2 in cc
ty_eq_eq (struct s) (struct t) e = let h : s ≡ t = ground arith in cc
ty_eq_eq _ _ e = absurd (cc)

ty_eq_iff : (a b : Node) → (ty_eq a b ≡ true) ↔ (a ≡ b)
ty_eq_iff a b = (ty_eq_eq a b, λ e. rw e (ty_eq_refl b))

-- The pointer is to a type that stands for the tree.
unfoldable mutual
  pub IsTree : List Node → ℕ → Ty → Type 0
  IsTree tys p Ty.void = entry tys p ≡ some void
  IsTree tys p (Ty.integer s w) = entry tys p ≡ some (integer s w)
  IsTree tys p (Ty.ptr t) = (b : ℕ) × (entry tys p ≡ some (ptr b)) × IsTree tys b t
  IsTree tys p (Ty.arr t n) = (b : ℕ) × (entry tys p ≡ some (arr b n)) × IsTree tys b t
  IsTree tys p (Ty.func t ts va) =
      (r : ℕ) × (ps : List ℕ) × (entry tys p ≡ some (func r ps va))
      × IsTree tys r t
      × AreTrees tys ps ts
  IsTree tys p (Ty.struct s) = entry tys p ≡ some (struct s)
  IsTree tys p Ty.va_list = entry tys p ≡ some va_list

  pub AreTrees : List Node → List ℕ → Params → Type 0
  AreTrees tys [] Params.nil = Unit
  AreTrees tys (p ∷ ps) (Params.cons t ts) = IsTree tys p t × AreTrees tys ps ts
  AreTrees tys _ _ = ⊥

-- The node, as the functions that make types fill it in, stands for the tree.
abbrev pub IsNode : List Node → Node → Ty → Type 0
IsNode tys void Ty.void = Unit
IsNode tys (integer s w) (Ty.integer s' w') = (s ≡ s') × (w ≡ w')
IsNode tys (ptr b) (Ty.ptr t) = IsTree tys b t
IsNode tys (arr b n) (Ty.arr t n') = IsTree tys b t × (n ≡ n')
IsNode tys (func r ps va) (Ty.func t ts va') = IsTree tys r t × AreTrees tys ps ts × (va ≡ va')
IsNode tys (struct s) (Ty.struct s') = s ≡ s'
IsNode tys va_list Ty.va_list = Unit
IsNode tys _ _ = ⊥

-- Every type of one table is in the other.
abbrev pub Keeps : List Node → List Node → Type 0
Keeps tys tys' = (p : ℕ) (n : Node) → entry tys p ≡ some n → entry tys' p ≡ some n

module _ (tys tys' : List Node) (keeps : Keeps tys tys') where
  mutual
    unfolding IsTree

    kept-IsTree : (t : Ty) (p : ℕ) → IsTree tys p t → IsTree tys' p t
    kept-IsTree Ty.void p h = keeps p _ h
    kept-IsTree (Ty.integer s w) p h = keeps p _ h
    kept-IsTree (Ty.ptr t) p (b, e, h) = (b, keeps p _ e, kept-IsTree t b h)
    kept-IsTree (Ty.arr t n) p (b, e, h) = (b, keeps p _ e, kept-IsTree t b h)
    kept-IsTree (Ty.func t ts va) p (r, ps, e, h, hs) =
        (r, ps, keeps p _ e, kept-IsTree t r h, kept_trees ts ps hs)
    kept-IsTree (Ty.struct s) p h = keeps p _ h
    kept-IsTree Ty.va_list p h = keeps p _ h

    kept_trees : (ts : Params) (ps : List ℕ) → AreTrees tys ps ts → AreTrees tys' ps ts
    kept_trees Params.nil [] h = tt
    kept_trees Params.nil (p ∷ ps) h = absurd h
    kept_trees (Params.cons t ts) [] h = absurd h
    kept_trees (Params.cons t ts) (p ∷ ps) h = (kept-IsTree t p h.0, kept_trees ts ps h.1)

-- The pointers of one tree are one pointer.
module _ (tys : List Node) (distinct : IsDistinct tys) where
  same_entry : (p q : ℕ) (n : Node) → entry tys p ≡ some n → entry tys q ≡ some n → p ≡ q
  unfolding IsDistinct
  same_entry p q n h k = distinct p q n h k

  mutual
    unfolding IsTree

    tree_pointer : (t : Ty) (p q : ℕ) → IsTree tys p t → IsTree tys q t → p ≡ q
    tree_pointer Ty.void p q h k = same_entry p q _ h k
    tree_pointer (Ty.integer s w) p q h k = same_entry p q _ h k
    tree_pointer (Ty.ptr t) p q (b, e, h) (c, f, k) =
        let same = tree_pointer t b c h k in same_entry p q (ptr b) e (rw same f)
    tree_pointer (Ty.arr t n) p q (b, e, h) (c, f, k) =
        let same = tree_pointer t b c h k in same_entry p q (arr b n) e (rw same f)
    tree_pointer (Ty.func t ts va) p q (r, ps, e, h, hs) (r', ps', f, k, ks) =
        let same = tree_pointer t r r' h k in
        let all = tree_pointers ts ps ps' hs ks in
        same_entry p q (func r ps va) e (rw (same, all) f)
    tree_pointer (Ty.struct s) p q h k = same_entry p q _ h k
    tree_pointer Ty.va_list p q h k = same_entry p q _ h k

    tree_pointers :
        (ts : Params) (ps qs : List ℕ) → AreTrees tys ps ts → AreTrees tys qs ts → ps ≡ qs
    tree_pointers Params.nil [] [] h k = refl
    tree_pointers Params.nil [] (q ∷ qs) h k = absurd k
    tree_pointers Params.nil (p ∷ ps) qs h k = absurd h
    tree_pointers (Params.cons t ts) [] qs h k = absurd h
    tree_pointers (Params.cons t ts) (p ∷ ps) [] h k = absurd k
    tree_pointers (Params.cons t ts) (p ∷ ps) (q ∷ qs) h k =
        let first = tree_pointer t p q h.0 k.0 in let rest = tree_pointers ts ps qs h.1 k.1 in cc

-- What a tree's pointer points to.
tree_node :
    (tys : List Node) (t : Ty) (p : ℕ)
    → IsTree tys p t
    → (n : Node) × (entry tys p ≡ some n) × IsNode tys n t
unfolding IsTree
tree_node tys Ty.void p h = (void, h, tt)
tree_node tys (Ty.integer s w) p h = (integer s w, h, (refl, refl))
tree_node tys (Ty.ptr t) p (b, e, h) = (ptr b, e, h)
tree_node tys (Ty.arr t n) p (b, e, h) = (arr b n, e, (h, refl))
tree_node tys (Ty.func t ts va) p (r, ps, e, h, hs) = (func r ps va, e, (h, hs, refl))
tree_node tys (Ty.struct s) p h = (struct s, h, refl)
tree_node tys Ty.va_list p h = (va_list, h, tt)

-- A pointer has one tree.
module _ (tys : List Node) where
  -- Another tree of the pointer fits the same node.
  other_node :
      (t u : Ty) (p : ℕ) (h : IsTree tys p t)
      → IsTree tys p u
      → IsNode tys (tree_node tys t p h).0 u
  other_node t u p h k =
      let at_t = tree_node tys t p h in
      let at_u = tree_node tys u p k in
      let same : at_u.0 ≡ at_t.0 = cc in subst (λ n. IsNode tys n u) same at_u.2

  mutual
    unfolding IsTree

    node_unique : (t u : Ty) (n : Node) → IsNode tys n t → IsNode tys n u → t ≡ u
    node_unique Ty.void Ty.void void h k = refl
    node_unique Ty.void _ void h k = absurd k
    node_unique (Ty.integer s w) (Ty.integer s' w') (integer r v) h k = cc
    node_unique (Ty.integer s w) _ (integer r v) h k = absurd k
    node_unique (Ty.ptr t) (Ty.ptr u) (ptr b) h k =
        ap Ty.ptr
          (node_unique t u (tree_node tys t b h).0 (tree_node tys t b h).2 (other_node t u b h k))
    node_unique (Ty.ptr t) _ (ptr b) h k = absurd k
    node_unique (Ty.arr t n) (Ty.arr u n') (arr b m) h k =
        let same =
          node_unique t u (tree_node tys t b h.0).0 (tree_node tys t b h.0).2
            (other_node t u b h.0 k.0) in
        cc
    node_unique (Ty.arr t n) _ (arr b m) h k = absurd k
    node_unique (Ty.func t ts va) (Ty.func u us vb) (func r ps vc) h k =
        let same =
          node_unique t u (tree_node tys t r h.0).0 (tree_node tys t r h.0).2
            (other_node t u r h.0 k.0) in
        let all = trees_unique ts us ps h.1 k.1 in cc
    node_unique (Ty.func t ts va) _ (func r ps vc) h k = absurd k
    node_unique (Ty.struct s) (Ty.struct s') (struct r) h k = cc
    node_unique (Ty.struct s) _ (struct r) h k = absurd k
    node_unique Ty.va_list Ty.va_list va_list h k = refl
    node_unique Ty.va_list _ va_list h k = absurd k
    node_unique _ _ _ h k = absurd h

    trees_unique :
        (ts us : Params) (ps : List ℕ) → AreTrees tys ps ts → AreTrees tys ps us → ts ≡ us
    trees_unique Params.nil Params.nil [] h k = refl
    trees_unique (Params.cons t ts) (Params.cons u us) (p ∷ ps) h k =
        let first =
          node_unique t u (tree_node tys t p h.0).0 (tree_node tys t p h.0).2
            (other_node t u p h.0 k.0) in
        let rest = trees_unique ts us ps h.1 k.1 in cc
    trees_unique (Params.cons t ts) _ (p ∷ ps) h k = absurd k
    trees_unique Params.nil _ [] h k = absurd k
    trees_unique _ _ _ h k = absurd h

pub tree_unique : (tys : List Node) (t u : Ty) (p : ℕ) → IsTree tys p t → IsTree tys p u → t ≡ u
tree_unique tys t u p h k =
    node_unique tys t u (tree_node tys t p h).0 (tree_node tys t p h).2 (other_node tys t u p h k)

node-IsTree :
    (tys tys' : List Node)
    → Keeps tys tys'
    → (n : Node) (t : Ty) (p : ℕ) → IsNode tys n t
    → entry tys' p ≡ some n
    → IsTree tys' p t
unfolding IsTree
node-IsTree tys tys' keeps void Ty.void p h e = e
node-IsTree tys tys' keeps (integer s w) (Ty.integer s' w') p h e = rw (sym h.0, sym h.1) e
node-IsTree tys tys' keeps (ptr b) (Ty.ptr t) p h e = (b, e, kept-IsTree tys tys' keeps t b h)
node-IsTree tys tys' keeps (arr b n) (Ty.arr t n') p h e =
    (b, rw (sym h.1) e, kept-IsTree tys tys' keeps t b h.0)
node-IsTree tys tys' keeps (func r ps va) (Ty.func t ts va') p h e =
    (r, ps, rw (sym h.2) e, kept-IsTree tys tys' keeps t r h.0, kept_trees tys tys' keeps ts ps h.1)
node-IsTree tys tys' keeps (struct s) (Ty.struct s') p h e = rw (sym h) e
node-IsTree tys tys' keeps va_list Ty.va_list p h e = e
node-IsTree tys tys' keeps _ _ p h e = absurd h

-- In a table without two entries for one type, and for a node that stands for a tree, its pointers
-- having trees: intern_ty gives a pointer to that tree, keeps the trees of the pointers from before, and
-- keeps types distinct; and the pointer is equal to one from before exactly if the trees are.
pub intern_ty-IsTree :
    (tys : List Node) (n : Node) (t : Ty)
    → IsDistinct tys
    → IsNode tys n t
    → let (p, tys') = intern_ty n tys in
      IsTree tys' p t
      × ((q : ℕ) (u : Ty) → IsTree tys q u → IsTree tys' q u)
      × IsDistinct tys'
      × ((q : ℕ) (u : Ty) → IsTree tys q u → (p ≡ q) ↔ (t ≡ u))
unfolding intern_ty
intern_ty-IsTree tys n t distinct fits =
    let all = intern_in-laws ty_eq ty_eq_iff n tys distinct in
    let p = (intern_in ty_eq n tys).0 in
    let tys' = (intern_in ty_eq n tys).1 in
    let made = node-IsTree tys tys' all.1 n t p fits all.0 in
    let keep = λ (q : ℕ) (u : Ty) (h : IsTree tys q u). kept-IsTree tys tys' all.1 u q h in
    (
      made,
      keep,
      all.2,
      λ q u h. (
        λ e. tree_unique tys' t u q (subst (λ r. IsTree tys' r t) e made) (keep q u h),
        λ e. tree_pointer tys' all.2 u p q (subst (λ v. IsTree tys' p v) e made) (keep q u h),
      ),
    )
