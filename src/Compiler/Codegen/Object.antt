-- ===== src/Compiler/Codegen/Object.antt =====
-- The data that compiler/smolcc1.c writes, emit_obj and emit_str_literals, its helpers for the run, and the
-- loop of main over the symbols of a file.
use smolcc.Base.{
  ℕ, ◌+◌, ◌-◌, ◌%◌, Bool, true, false, ◌&&◌, not, List, [], ◌∷◌, Option, none, some, String, ltb,
  ◌==◌, if◌then◌else◌,
}
use smolcc.Base.Word.{word32}
use smolcc.Compiler.Types.{Sym, Syms, SymKind, Storage, extern, ty_size, ty_align, is_scalar}
use smolcc.Compiler.Stmt.{Stmt}
use smolcc.Compiler.Codegen.Instr.{Instr, Emit, ◌>>◌, write, abort, nothing, label_in}
use smolcc.Compiler.Codegen.Stmt.{emit_globl, emit_func}

-- The value of a scalar, in a directive of its size.
unfoldable pub emit_scalar : ℕ → ℕ → Emit
emit_scalar size val =
    if size == 1
    then write (Instr.byte (val % word32))
    else if size == 4
    then write (Instr.long (val % word32))
    else if size == 8
    then write (Instr.quad val)
    else abort "emit_obj: unreachable: %d"

unfoldable pub emit_obj : Syms → Sym → Emit
unfolding emit_scalar
emit_obj syms sym = do
  write (if is_scalar sym.ty && sym.is_defined then Instr.section_data else Instr.section_bss)
  emit_globl sym.storage sym.name
  write (Instr.balign (ty_align syms sym.ty))
  write (Instr.label_obj sym.name)
  if is_scalar sym.ty
      then emit_scalar (ty_size syms sym.ty) sym.val
      else write (Instr.space (ty_size syms sym.ty))

-- A `char` as an `int`.
abbrev pub char_val : ℕ → ℕ
char_val c = if ltb c 128 then c else word32 - 256 + c

-- The bytes of a literal, and the zero after them.
unfoldable pub emit_bytes : List ℕ → Emit
emit_bytes [] = write (Instr.byte 0)
emit_bytes (c ∷ s) = do write (Instr.byte (char_val c)); emit_bytes s

unfoldable pub emit_labelled : Option ℕ → List ℕ → Emit
unfolding emit_bytes
emit_labelled none s = nothing
emit_labelled (some l) s = do write (Instr.label_str l); emit_bytes s

-- The loop over `strings`, in the order of that list.
unfoldable pub emit_strings : List (List ℕ) → Emit
unfolding emit_labelled label_in
emit_strings [] = nothing
emit_strings (s ∷ strings) = do
  (λ o. emit_labelled (label_in o.str_labels s) s o)
  emit_strings strings

unfoldable pub emit_str_literals : List (List ℕ) → Emit
unfolding emit_strings
emit_str_literals strings = do write Instr.section_rodata; emit_strings strings

abbrev pub rt_helpers : List String
rt_helpers =
    "_memcpy:" ∷ "mov x3, x0" ∷ "cbz x2, .L.memcpy.end" ∷ ".L.memcpy.body:" ∷ "ldrb w4, [x1], #1"
    ∷ "strb w4, [x3], #1" ∷ "subs x2, x2, #1" ∷ "cbnz x2, .L.memcpy.body" ∷ ".L.memcpy.end:" ∷ "ret"
    ∷ "_va_arg:" ∷ "ldrsw x1, [x0, #24]  // gr_offs" ∷ "ldr x2, [x0, #8]  // gr_top"
    ∷ "add x3, x2, x1" ∷ "add w1, w1, #8" ∷ "str w1, [x0, #24]" ∷ "mov x0, x3" ∷ "ret" ∷ []

abbrev pub emit_lines : List String → Emit
emit_lines [] = nothing
emit_lines (line ∷ lines) = write (Instr.text line) >> emit_lines lines

unfoldable pub emit_rt_helpers : Emit
emit_rt_helpers = do write Instr.section_text; emit_lines rt_helpers

abbrev pub is_extern : Storage → Bool
is_extern extern = true
is_extern _ = false

-- `sym->body`
unfoldable pub body_of : List (ℕ × Stmt) → ℕ → Option Stmt
body_of [] s = none
body_of ((r, body) ∷ bodies) s = if r == s then some body else body_of bodies s

-- A symbol of the file: the functions that are defined and the objects that are not only declared.
unfoldable pub emit_sym : Syms → List (ℕ × Stmt) → ℕ → SymKind → Emit
unfolding body_of
emit_sym syms bodies s SymKind.func_sym =
    if not (syms s).is_defined then nothing else elim (body_of bodies s) [
      | none ↦ abort "main: no body"
      | some body ↦ emit_func syms s body
    ]
emit_sym syms bodies s SymKind.global =
    if is_extern (syms s).storage && not (syms s).is_defined
    then nothing
    else emit_obj syms (syms s)
emit_sym syms bodies s _ = nothing

-- The loop of main.
unfoldable pub emit_syms : Syms → List (ℕ × Stmt) → List ℕ → Emit
unfolding emit_sym
emit_syms syms bodies [] = nothing
emit_syms syms bodies (s ∷ scope) = do
  emit_sym syms bodies s (syms s).kind
  emit_syms syms bodies scope

-- main after the end of the input.
unfoldable pub emit_file : Syms → List (ℕ × Stmt) → List ℕ → List (List ℕ) → Emit
emit_file syms bodies scope strings = do
  emit_syms syms bodies scope
  emit_rt_helpers
  emit_str_literals strings
