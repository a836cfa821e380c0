-- ===== src/Compiler/Codegen/Assembled.antt =====
-- The bytes that an assembler makes of the directives for data, and what emit_obj and emit_str_literals of
-- compiler/smolcc1.c have it make.
use smolcc.Base.{
  ℕ, zero, suc, ◌/◌, ◌%◌, ◌<◌, ◌≡◌, refl, ap, ◌∙◌, sym, ◌⊎◌, inl, inr, Bool, true, false, ◌&&◌,
  List, [], ◌∷◌, ◌++◌, Option, none, some, arith, if◌then◌else◌,
}
use mathlib.Core.List.{append_assoc, append-nil}
use mathlib.Core.Path.{subst}
use smolcc.Base.Word.{word32}
use smolcc.Compiler.Outcome.{Outcome, ok, err_at, die}
use smolcc.Compiler.Types.{
  Sym, Syms, Storage, static, extern, unspecified, ty_size, ty_align, is_scalar,
}
use smolcc.Compiler.Codegen.Instr.{Instr, Out, Emit, ◌>>◌, write, nothing, label_in}
use smolcc.Compiler.Codegen.Stmt.{emit_globl}
use smolcc.Compiler.Codegen.Object.{
  emit_scalar, emit_obj, char_val, emit_bytes, emit_labelled, emit_strings, emit_str_literals,
}

-- The bytes of a number, the least first.
abbrev pub bytes_of : ℕ → ℕ → List ℕ
bytes_of zero v = []
bytes_of (suc n) v = v % 256 ∷ bytes_of n (v / 256)

abbrev pub zeros : ℕ → List ℕ
zeros zero = []
zeros (suc n) = 0 ∷ zeros n

-- The data of an instruction.
abbrev pub data_of : Instr → List ℕ
data_of (Instr.byte v) = bytes_of 1 v
data_of (Instr.long v) = bytes_of 4 v
data_of (Instr.quad v) = bytes_of 8 v
data_of (Instr.space n) = zeros n
data_of _ = []

-- The data of what has been written, latest first.
unfoldable pub assembled : List Instr → List ℕ
assembled [] = []
assembled (i ∷ code) = assembled code ++ data_of i

char_byte : (c : ℕ) → c < 256 → char_val c % 256 ≡ c
char_byte c h = ground arith

abbrev LaysAt : List ℕ → Out → Outcome (Unit {0} × Out) → Type 0
LaysAt bytes o (ok (u, q)) =
    (assembled q.code ≡ assembled o.code ++ bytes) × (q.str_labels ≡ o.str_labels)
LaysAt bytes o (err_at p m) = ⊥
LaysAt bytes o (die m) = ⊥

-- Where the literals have these labels, the step ends, and the data grows by the bytes.
pub record Lays (labels : List (List ℕ × ℕ)) (bytes : List ℕ) (m : Emit) : Type 0 where
  pub on : (o : Out) → o.str_labels ≡ labels → LaysAt bytes o (m o)

abbrev pub AreBytes : List ℕ → Type 0
AreBytes [] = Unit
AreBytes (c ∷ s) = (c < 256) × AreBytes s

abbrev pub AreTexts : List (List ℕ) → Type 0
AreTexts [] = Unit
AreTexts (s ∷ strings) = AreBytes s × AreTexts strings

-- What a literal takes, if it has a label.
abbrev pub literal : Option ℕ → List ℕ → List ℕ
literal none s = []
literal (some l) s = s ++ 0 ∷ []

abbrev pub literals : List (List ℕ × ℕ) → List (List ℕ) → List ℕ
literals labels [] = []
literals labels (s ∷ strings) = literal (label_in labels s) s ++ literals labels strings

byte_of_word : (v : ℕ) → (v % word32) % 256 ≡ v % 256
byte_of_word v = omega arith

bytes_of_word : (v : ℕ) → bytes_of 4 (v % word32) ≡ bytes_of 4 v
bytes_of_word v =
    let e0 : v % word32 % 256 ≡ v % 256 = omega arith in
    let e1 : v % word32 / 256 % 256 ≡ v / 256 % 256 = omega arith in
    let e2 : v % word32 / 256 / 256 % 256 ≡ v / 256 / 256 % 256 = omega arith in
    let e3 : v % word32 / 256 / 256 / 256 % 256 ≡ v / 256 / 256 / 256 % 256 = omega arith in
    rw (e0, e1, e2, e3) refl

shift_at :
    (bs cs : List ℕ) (o q : Out) (r : Outcome (Unit {0} × Out))
    → assembled q.code ≡ assembled o.code ++ bs
    → q.str_labels ≡ o.str_labels
    → LaysAt cs q r
    → LaysAt (bs ++ cs) o r
shift_at bs cs o q (ok (u, r)) e s l =
    ((l.0 ∙ ap (λ x. x ++ cs) e) ∙ append_assoc (assembled o.code) bs cs, l.1 ∙ s)
shift_at bs cs o q (err_at p m) e s l = absurd l
shift_at bs cs o q (die m) e s l = absurd l

then_at :
    (labels : List (List ℕ × ℕ)) (bs cs : List ℕ) (o : Out) (r : Outcome (Unit {0} × Out))
    (k : Emit)
    → o.str_labels ≡ labels
    → LaysAt bs o r
    → Lays labels cs k
    → LaysAt (bs ++ cs) o (elim r [ ok (a, q) ↦ k q | err_at p s ↦ err_at p s | die s ↦ die s ])
then_at labels bs cs o (ok (u, q)) k s l h = shift_at bs cs o q (k q) l.0 l.1 (h.on q (l.1 ∙ s))
then_at labels bs cs o (err_at p m) k s l h = absurd l
then_at labels bs cs o (die m) k s l h = absurd l

module _ {labels : List (List ℕ × ℕ)} where
  Lays-write : (i : Instr) → Lays labels (data_of i) (write i)
  unfolding assembled
  Lays-write i = record { on = λ o e. (refl, refl) }

  Lays-nothing : Lays labels [] nothing
  Lays-nothing = record { on = λ o e. (sym (append-nil (assembled o.code)), refl) }

  -- One step after another.
  Lays-then :
      {bs cs : List ℕ} (m k : Emit)
      → Lays labels bs m
      → Lays labels cs k
      → Lays labels (bs ++ cs) (m >> k)
  Lays-then {bs} {cs} m k l h = record { on = λ o e. then_at labels bs cs o (m o) k e (l.on o e) h }

  emit_globl-Lays : (storage : Storage) (name : List ℕ) → Lays labels [] (emit_globl storage name)
  emit_globl-Lays static name = Lays-nothing
  emit_globl-Lays extern name = Lays-write _
  emit_globl-Lays unspecified name = Lays-write _

  emit_scalar-Lays :
      (size val : ℕ)
      → (size ≡ 1) ⊎ ((size ≡ 4) ⊎ (size ≡ 8))
      → Lays labels (bytes_of size val) (emit_scalar size val)
  unfolding emit_scalar
  emit_scalar-Lays size val (inl e) = rw e (
      subst (λ v. Lays labels (v ∷ []) (write (Instr.byte (val % word32)))) (byte_of_word val)
        (Lays-write _))
  emit_scalar-Lays size val (inr (inl e)) = rw e (
      subst (λ l. Lays labels l (write (Instr.long (val % word32)))) (bytes_of_word val)
        (Lays-write _))
  emit_scalar-Lays size val (inr (inr e)) = rw e (Lays-write _)

  value_at :
      (b : Bool) (size val : ℕ)
      → (b ≡ true → (size ≡ 1) ⊎ ((size ≡ 4) ⊎ (size ≡ 8)))
      → Lays labels
          (if b then bytes_of size val else zeros size)
          (if b then emit_scalar size val else write (Instr.space size))
  value_at true size val h = emit_scalar-Lays size val (h refl)
  value_at false size val h = Lays-write _

  section_at :
      (b : Bool) → Lays labels [] (write (if b then Instr.section_data else Instr.section_bss))
  section_at true = Lays-write _
  section_at false = Lays-write _

  -- An object that is a scalar is given the bytes of its value, and another one zeros, as many as its
  -- type has, if the size of a scalar is 1, 4 or 8.
  pub emit_obj-Lays :
      (syms : Syms) (s : Sym)
      → (is_scalar s.ty ≡ true
          → (ty_size syms s.ty ≡ 1) ⊎ ((ty_size syms s.ty ≡ 4) ⊎ (ty_size syms s.ty ≡ 8)))
      → Lays labels
          (if is_scalar s.ty then bytes_of (ty_size syms s.ty) s.val else zeros (ty_size syms s.ty))
          (emit_obj syms s)
  unfolding emit_obj
  emit_obj-Lays syms s h = Lays-then _ _ (section_at (is_scalar s.ty && s.is_defined)) (
      Lays-then _ _ (emit_globl-Lays s.storage s.name) (
        Lays-then _ _ (Lays-write (Instr.balign (ty_align syms s.ty))) (
          Lays-then _ _ (Lays-write (Instr.label_obj s.name))
            (value_at (is_scalar s.ty) (ty_size syms s.ty) s.val h))))

  emit_bytes-Lays : (s : List ℕ) → AreBytes s → Lays labels (s ++ 0 ∷ []) (emit_bytes s)
  unfolding emit_bytes
  emit_bytes-Lays [] h = Lays-write _
  emit_bytes-Lays (c ∷ s) h =
      Lays-then {bs = c ∷ []} _ _
        (subst (λ b. Lays labels (b ∷ []) (write (Instr.byte (char_val c)))) (char_byte c h.0)
          (Lays-write _))
        (emit_bytes-Lays s h.1)

  emit_labelled-Lays :
      (l : Option ℕ) (s : List ℕ) → AreBytes s → Lays labels (literal l s) (emit_labelled l s)
  unfolding emit_labelled
  emit_labelled-Lays none s h = Lays-nothing
  emit_labelled-Lays (some l) s h =
      Lays-then _ _ (Lays-write (Instr.label_str l)) (emit_bytes-Lays s h)

  emit_strings-Lays :
      (strings : List (List ℕ))
      → AreTexts strings
      → Lays labels (literals labels strings) (emit_strings strings)
  unfolding emit_strings
  emit_strings-Lays [] h = Lays-nothing
  emit_strings-Lays (s ∷ strings) h =
      Lays-then _ _
        (record {
          on = λ o e.
              subst
                (λ l.
                  LaysAt (literal (label_in l s) s) o (emit_labelled (label_in o.str_labels s) s o))
                e ((emit_labelled-Lays (label_in o.str_labels s) s h.0).on o e);
        })
        (emit_strings-Lays strings h.1)

  -- The literals that have a label are laid one after the other, each with a zero after it, if they
  -- consist of bytes.
  pub emit_str_literals-Lays :
      (strings : List (List ℕ))
      → AreTexts strings
      → Lays labels (literals labels strings) (emit_str_literals strings)
  unfolding emit_str_literals
  emit_str_literals-Lays strings h =
      Lays-then _ _ (Lays-write Instr.section_rodata) (emit_strings-Lays strings h)
