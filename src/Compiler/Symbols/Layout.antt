-- ===== src/Compiler/Symbols/Layout.antt =====
-- Where `declare` places a field in its struct, or a local in its function's frame.
use smolcc.Base.{
  ℕ, ◌+◌, ◌*◌, ◌<◌, ◌≤◌, ◌≢◌, ◌≡◌, refl, ◌∙◌, true, false, List, [], ◌∷◌, ◌++◌, Option, none, some,
  ◌==◌, arith,
}
use smolcc.Base.Word.{half32}
use smolcc.Compiler.Outcome.{Succeeds, Pos}
use smolcc.Compiler.Misc.{align_up}
use smolcc.Compiler.Misc.Laws.{align_up_bounds}
use smolcc.Compiler.Types.{Ty, Sym, Syms, SymKind, Storage, ty_size, ty_align}
use smolcc.Compiler.Symbols.{is_struct_sym, lookup_in}
use smolcc.Compiler.Symbols.Declare.{
  Table, Declaration, set_sym, struct_parent, scope_of, fresh, grow, place_in, append_to, place_if,
  add_sym, declare,
}

-- A declared field: where it is, and what becomes of its struct and the other symbols.
pub record IsPlaced (t t' : Table) (p s size align : ℕ) : Type 0 where
  -- a multiple of the alignment, not before the end of the struct so far, and less than one
  -- alignment after it
  pub aligned : (k : ℕ) × ((t'.syms s).offs ≡ k * align)
  pub after : (t.syms p).size ≤ (t'.syms s).offs
  pub tight : (t'.syms s).offs < (t.syms p).size + align
  -- the struct now ends with the field, and is aligned at least as its fields are
  pub ends : (t'.syms p).size ≡ (t'.syms s).offs + size
  pub covers : align ≤ (t'.syms p).align
  pub keeps : (t.syms p).align ≤ (t'.syms p).align
  pub others : (i : ℕ) → i ≢ s → i ≢ p → t'.syms i ≡ t.syms i

same : (a : ℕ) → (a == a) ≡ true
same a = ground arith

differ : (a b : ℕ) → a ≢ b → (a == b) ≡ false
differ a b h = ground arith

at_parent : (syms : Syms) (p : ℕ) (sym : Sym) → set_sym syms p sym p ≡ sym
at_parent syms p sym = rw (same p) refl

at_other : (syms : Syms) (p i : ℕ) (sym : Sym) → i ≢ p → set_sym syms p sym i ≡ syms i
at_other syms p i sym h = rw (differ i p h) refl

module _ (syms : Syms) (p : ℕ) (sym : Sym) (s size align : ℕ) where
  abbrev placed : Sym
  placed = record sym { offs = align_up (syms p).size align }

  abbrev with_new : Syms
  with_new = set_sym syms s placed

  abbrev grown : Sym
  grown = grow (syms p) (align_up (syms p).size align) size align

  at_new :
      s ≢ p
      → place_in syms p sym s size align s ≡ record sym { offs = align_up (syms p).size align }
  unfolding place_in
  at_new h = at_other with_new p s grown h ∙ at_parent syms s placed

  placed_parent :
      place_in syms p sym s size align p ≡ grow (syms p) (align_up (syms p).size align) size align
  unfolding place_in
  placed_parent = at_parent with_new p grown

  placed_other : (i : ℕ) → i ≢ s → i ≢ p → place_in syms p sym s size align i ≡ syms i
  unfolding place_in
  placed_other i h h' = at_other with_new p i grown h' ∙ at_other syms s i placed h

-- The declaration of a field, as p_decl makes it.
abbrev pub field_in : Pos → ℕ → Option (List ℕ) → Ty → Declaration
field_in pos p name ty = record {
  pos = pos;
  parent = some p;
  kind = SymKind.field;
  storage = Storage.unspecified;
  name = name;
  ty = ty;
  is_def = true;
}

-- A field whose name is new in its struct is declared, and placed at the first multiple of its type's
-- alignment after the fields before it; no other symbol changes. The alignment is not 0, and the size
-- of the struct so far with the alignment, and that of the field, fit an `int`.
pub declare-IsPlaced :
    (pos : Pos) (name : Option (List ℕ)) (ty : Ty) (t : Table) (p : ℕ)
    → is_struct_sym (t.syms p).kind ≡ true
    → lookup_in t.syms (t.syms p).scope false name ≡ none
    → p < t.n_syms
    → 0 < ty_align t.syms ty
    → (t.syms p).size + ty_align t.syms ty < half32
    → ty_size t.syms ty < half32
    → Succeeds
        (λ r. IsPlaced t r.1 p r.0 (ty_size t.syms ty) (ty_align t.syms ty))
        (declare (field_in pos p name ty) t)
unfolding declare struct_parent scope_of append_to place_if add_sym
declare-IsPlaced pos name ty t p hs new old positive fits small =
    let bounds = align_up_bounds (t.syms p).size (ty_align t.syms ty) positive fits in
    let fresh_is_new : t.n_syms ≢ p = omega arith in
    let size = ty_size t.syms ty in
    let align = ty_align t.syms ty in
    let sym = fresh (field_in pos p name ty) t.n_syms in
    let parent = record (t.syms p) { scope = (t.syms p).scope ++ t.n_syms ∷ [] } in
    let with_parent = set_sym t.syms p parent in
    let at = at_parent t.syms p parent in
    rw (declare, struct_parent, hs, scope_of, new, add_sym, hs)
      (record {
        aligned = rw (at_new with_parent p sym t.n_syms size align fresh_is_new, at) bounds.2;
        after = rw (at_new with_parent p sym t.n_syms size align fresh_is_new, at) bounds.0;
        tight = rw (at_new with_parent p sym t.n_syms size align fresh_is_new, at) bounds.1;
        ends =
            rw
              (
                at_new with_parent p sym t.n_syms size align fresh_is_new,
                placed_parent with_parent p sym t.n_syms size align,
                at,
              )
              (omega arith);
        covers = rw (placed_parent with_parent p sym t.n_syms size align, at) (ground arith);
        keeps = rw (placed_parent with_parent p sym t.n_syms size align, at) (ground arith);
        others = λ i h h'.
            placed_other with_parent p sym t.n_syms size align i h h'
            ∙ at_other t.syms p i parent h';
      })
