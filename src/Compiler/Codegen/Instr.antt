-- ===== src/Compiler/Codegen/Instr.antt =====
-- The assembly that compiler/smolcc1.c writes, an instruction for each `writef`, and the state that
-- code generation carries. A constructor is one format string with its operands; comments in the
-- output are left out.
use smolcc.Base.{ℕ, ◌+◌, List, [], ◌∷◌, Option, none, some, String, if◌then◌else◌}
use smolcc.Compiler.Outcome.{Outcome, ok, err_at, die}
use smolcc.Compiler.Symbols.{same_name}

-- `X(ty)`: the names x0, x1, ... or w0, w1, ... of the registers.
pub data RegClass : Type 0 where
  x_reg w_reg : RegClass

pub data LoadOp : Type 0 where
  ldrsb ldrb ldr : LoadOp

pub data StoreOp : Type 0 where
  strb str : StoreOp

pub data AluOp : Type 0 where
  sdiv udiv mul sub add asr lsr lsl and eor orr : AluOp

pub data ExtOp : Type 0 where
  sxtb uxtb sxtw uxtw : ExtOp

pub data Cond : Type 0 where
  le ls lt lo ne eq : Cond

pub data Label : Type 0 where
  cond_short cond_else cond_end if_else if_end : ℕ → Label
  loop_cond loop_body loop_step loop_end : ℕ → Label
  return_of : List ℕ → Label

pub data Instr : Type 0 where
  -- "mov %c%d, #%d": the immediate is an `int`; "movk %c%d, #%d, lsl #%ld"
  mov_imm : RegClass → ℕ → ℕ → Instr
  movk : RegClass → ℕ → ℕ → ℕ → Instr
  mov : RegClass → ℕ → ℕ → Instr
  -- "str x%d, [sp, #-16]!" and "ldr x%d, [sp], #16"
  push : ℕ → Instr
  pop : ℕ → Instr
  load : LoadOp → RegClass → ℕ → ℕ → Instr
  store : StoreOp → RegClass → ℕ → ℕ → Instr
  alu : AluOp → RegClass → ℕ → ℕ → ℕ → Instr
  mvn : RegClass → ℕ → ℕ → Instr
  neg : RegClass → ℕ → ℕ → Instr
  -- "msub d, a, b, c" is c - a * b
  msub : RegClass → ℕ → ℕ → ℕ → ℕ → Instr
  ext : ExtOp → RegClass → RegClass → Instr
  cmp : RegClass → ℕ → ℕ → Instr
  cmp_zero : RegClass → ℕ → Instr
  cset : RegClass → ℕ → Cond → Instr
  cbz : RegClass → Label → Instr
  cbnz : RegClass → Label → Instr
  b : Label → Instr
  label : Label → Instr
  bl : List ℕ → Instr
  bl_memcpy : Instr
  bl_va_arg : Instr
  -- "add x%d, x29, x%d"
  add_frame : ℕ → Instr
  -- the address of a symbol through the global offset table, of a symbol, and of a string literal
  adrp_got : List ℕ → Instr
  ldr_got : List ℕ → Instr
  adrp : List ℕ → Instr
  add_lo12 : List ℕ → Instr
  adrp_str : ℕ → Instr
  add_lo12_str : ℕ → Instr
  -- "add x1, x29, #16", "str x1, [x0]", "stp x1, xzr, [x0, #8]", "mov x1, #-%d" and
  -- "stp w1, wzr, [x0, #24]", which fill in a va_list
  va_stack : Instr
  va_str_stack : Instr
  va_stp_tops : Instr
  va_mov_offs : ℕ → Instr
  va_stp_offs : Instr
  -- ".section .text", ".globl %s", "%s:" and the instructions of a function's frame
  section_text : Instr
  globl : List ℕ → Instr
  label_func : List ℕ → Instr
  sub_sp : Instr
  stp_frame : Instr
  mov_frame : Instr
  ldp_frame : Instr
  add_sp : Instr
  ret : Instr
  -- the sections, labels and directives of data; "%s" of a helper's line as it stands
  section_data : Instr
  section_bss : Instr
  section_rodata : Instr
  balign : ℕ → Instr
  label_obj : List ℕ → Instr
  label_str : ℕ → Instr
  byte : ℕ → Instr
  long : ℕ → Instr
  quad : ℕ → Instr
  space : ℕ → Instr
  text : String → Instr

-- What has been written so far, latest first; the counters `next_cond_id`, `next_loop_id` and
-- `next_str_id`; and the labels of the string literals that have one, by their bytes.
pub record Out : Type 0 where
  pub code : List Instr
  pub next_cond_id : ℕ
  pub next_loop_id : ℕ
  pub next_str_id : ℕ
  pub str_labels : List (List ℕ × ℕ)

-- A step of code generation.
abbrev pub M : Type 0 → Type 0
M A = Out → Outcome (A × Out)

abbrev pub Emit : Type 0
Emit = M (Unit {0})

infixl 5 ◌>>=◌ ◌>>◌
abbrev pub ◌>>=◌ : {A B : Type 0} → M A → (A → M B) → M B
◌>>=◌ m f o = elim (m o) [ ok (a, o') ↦ f a o' | err_at p s ↦ err_at p s | die s ↦ die s ]

abbrev pub ◌>>◌ : {A B : Type 0} → M A → M B → M B
m >> k = m >>= λ _. k

-- `writef(stdout, ...)`
abbrev pub write : Instr → Emit
write i o = ok (tt, record o { code = i ∷ o.code })

abbrev pub abort : String → Emit
abort s o = die s

abbrev pub nothing : Emit
nothing o = ok (tt, o)

-- `next_cond_id++` and `next_loop_id++`
abbrev pub new_cond_id : M ℕ
new_cond_id o = ok (o.next_cond_id, record o { next_cond_id = o.next_cond_id + 1 })

abbrev pub new_loop_id : M ℕ
new_loop_id o = ok (o.next_loop_id, record o { next_loop_id = o.next_loop_id + 1 })

-- `str->label`, 0 if the literal has none yet.
unfoldable pub label_in : List (List ℕ × ℕ) → List ℕ → Option ℕ
unfolding same_name
label_in [] s = none
label_in ((t, l) ∷ labels) s = if same_name t s then some l else label_in labels s

-- The label of a literal, a new one from 1 on at its first use.
unfoldable pub str_label : List ℕ → M ℕ
unfolding label_in
str_label s o = elim (label_in o.str_labels s) [
  | some l ↦ ok (l, o)
  | none ↦ ok (
    o.next_str_id + 1,
    record o {
      next_str_id = o.next_str_id + 1;
      str_labels = (s, o.next_str_id + 1) ∷ o.str_labels;
    },
  )
]
