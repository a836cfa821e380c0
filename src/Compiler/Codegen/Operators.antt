-- ===== src/Compiler/Codegen/Operators.antt =====
-- The emitters of single operators, `emit_bin_subs` to `emit_assign_to_addr` and the cases of
-- `emit_expr` of compiler/smolcc1.c, from the emitters of the operands.
use smolcc.Base.{
  ℕ, zero, suc, ◌+◌, Bool, true, false, ◌&&◌, List, Option, none, some, ltb, ◌==◌, if◌then◌else◌,
}
use smolcc.Compiler.Types.{
  Ty, Sym, Syms, SymKind, Storage, integer, ty_size, char_ty, int_ty, long_ty, same_ty, is_scalar,
  is_ptr_ty, is_obj_ty, base_of,
}
use smolcc.Compiler.Typed.{BinKind}
use smolcc.Compiler.Elab.Node.{Env}
use smolcc.Compiler.Codegen.Instr.{
  x_reg, Cond, AluOp, ExtOp, Label, Instr, Emit, ◌>>=◌, ◌>>◌, write, abort, nothing, new_cond_id,
}
use smolcc.Compiler.Codegen.Leaf.{
  reg_class, emit_int_load, emit_push, emit_pop, emit_load, emit_store, emit_frame_addr,
}

-- emit_bin_subs, from the emitters of the two operands and the type of the first.
unfoldable pub emit_bin_subs : Syms → Emit → Emit → Ty → Emit
emit_bin_subs syms e1 e2 t1 = do
  e1
  emit_push 0
  e2
  write (Instr.mov (reg_class syms t1) 1 0)
  emit_pop 0

-- `ty->is_signed`. mk_ptr_ty leaves it uninitialised in a pointer type; here it is false then, which makes
-- the comparison of pointers unsigned.
abbrev pub is_signed_of : Ty → Bool
is_signed_of (integer is_signed width) = is_signed
is_signed_of _ = false

-- emit_cmp_expr and emit_arith_expr; `subs` is emit_bin_subs of the operands, `t` the type of the first.
unfoldable pub emit_cmp_expr : Syms → Emit → Ty → Cond → Cond → Emit
emit_cmp_expr syms subs t c u = do
  subs
  write (Instr.cmp (reg_class syms t) 0 1)
  write (Instr.cset (reg_class syms t) 0 (if is_signed_of t then c else u))

unfoldable pub emit_arith_expr : Syms → Emit → Ty → AluOp → Emit
emit_arith_expr syms subs t op = do subs; write (Instr.alu op (reg_class syms t) 0 0 1)

-- The address of a global or function: through the global offset table if it is declared `extern`
-- and not defined here.
unfoldable pub emit_global_place : List ℕ → Storage → Bool → Emit
emit_global_place name Storage.extern false =
    write (Instr.adrp_got name) >> write (Instr.ldr_got name)
emit_global_place name _ is_defined = write (Instr.adrp name) >> write (Instr.add_lo12 name)

-- The place of a variable or function, by the kind of its symbol.
unfoldable pub emit_place_of : Syms → Sym → SymKind → Emit
unfolding emit_frame_addr emit_global_place
emit_place_of syms sym SymKind.global = emit_global_place sym.name sym.storage sym.is_defined
emit_place_of syms sym SymKind.func_sym = emit_global_place sym.name sym.storage sym.is_defined
emit_place_of syms sym SymKind.local = emit_frame_addr syms sym.offs 0
emit_place_of syms sym _ = abort "emit_place_expr: unreachable: %d (ident)"

unfoldable pub emit_sym_place : Env → ℕ → Emit
unfolding emit_place_of
emit_sym_place env s = emit_place_of env.syms (env.syms s) (env.syms s).kind

-- A value of a scalar type is loaded; that of a larger type is its place.
abbrev pub load_scalar : Syms → Ty → Emit
load_scalar syms t = if is_scalar t then emit_load syms t 0 0 else nothing

unfoldable pub emit_member_place : Env → Emit → ℕ → Emit
unfolding emit_int_load
emit_member_place env place f = do
  place
  emit_int_load env.syms long_ty (env.syms f).offs 1
  write (Instr.alu AluOp.add x_reg 0 0 1)

unfoldable pub emit_assign_to_addr : Env → Ty → Emit → Emit → Emit
unfolding emit_int_load
emit_assign_to_addr env t value source =
    if is_obj_ty env.syms t
    then (if is_scalar t
        then (do emit_push 0; value; emit_pop 1; emit_store env.syms t 0 1)
        else (do
          emit_push 0
          source
          write (Instr.mov x_reg 1 0)
          emit_pop 0
          emit_int_load env.syms long_ty (ty_size env.syms t) 2
          write Instr.bl_memcpy))
    else abort "emit_assign_to_addr"

unfoldable pub emit_post : Env → AluOp → Ty → Emit → Emit
unfolding emit_int_load
emit_post env op t place = do
  place
  write (Instr.mov x_reg 2 0)
  emit_load env.syms t 0 0
  emit_int_load env.syms t (if is_ptr_ty t then ty_size env.syms (base_of t) else 1) 1
  write (Instr.alu op (reg_class env.syms t) 1 0 1)
  emit_store env.syms t 1 2

-- The conversion of a register from type `from` to type `to`.
unfoldable pub emit_conversion : Syms → Ty → Ty → Emit
emit_conversion syms to from =
    let new = ty_size syms to in
    let old = ty_size syms from in
    if ltb new old && new == 1
    then write (
        Instr.ext (if same_ty to char_ty then ExtOp.sxtb else ExtOp.uxtb) (reg_class syms to)
          (reg_class syms to))
    else if ltb new old && new == 4
    then write (Instr.mov (reg_class syms to) 0 0)
    else if ltb old new && old == 1
    then write (
        Instr.ext (if same_ty from char_ty then ExtOp.sxtb else ExtOp.uxtb) (reg_class syms to)
          (reg_class syms from))
    else if ltb old new && old == 4
    then write (
        Instr.ext (if same_ty from int_ty then ExtOp.sxtw else ExtOp.uxtw) (reg_class syms to)
          (reg_class syms from))
    else nothing

-- Expr_And and Expr_Or, from the emitters of the operands and their types.
unfoldable pub emit_logic : Syms → Bool → Emit → Emit → Ty → Ty → Emit
emit_logic syms is_and e1 e2 t1 t2 = do
  id ← new_cond_id
  e1
  write (
      if is_and
      then Instr.cbz (reg_class syms t1) (Label.cond_short id)
      else Instr.cbnz (reg_class syms t1) (Label.cond_short id))
  e2
  write (Instr.label (Label.cond_short id))
  write (Instr.cmp_zero (reg_class syms t2) 0)
  write (Instr.cset (reg_class syms t2) 0 Cond.ne)

unfoldable pub emit_cond : Syms → Emit → Emit → Emit → Ty → Emit
emit_cond syms c e1 e2 t = do
  id ← new_cond_id
  c
  write (Instr.cbz (reg_class syms t) (Label.cond_else id))
  e1
  write (Instr.b (Label.cond_end id))
  write (Instr.label (Label.cond_else id))
  e2
  write (Instr.label (Label.cond_end id))

unfoldable pub emit_scale : Syms → ℕ → Emit
unfolding emit_int_load
emit_scale syms size =
    if size == 1
    then nothing
    else (emit_int_load syms long_ty size 2 >> write (Instr.alu AluOp.mul x_reg 1 1 2))

unfoldable pub emit_unscale : Syms → ℕ → Emit
unfolding emit_int_load
emit_unscale syms size =
    if size == 1
    then nothing
    else (emit_int_load syms long_ty size 1 >> write (Instr.alu AluOp.sdiv x_reg 0 0 1))

-- Expr_PtrAdd, Expr_PtrSub and Expr_PtrDiff; `size` is that of what the pointer points to.
unfoldable pub emit_ptr_arith : Syms → AluOp → Emit → ℕ → Emit
unfolding emit_scale
emit_ptr_arith syms op subs size = do subs; emit_scale syms size; write (Instr.alu op x_reg 0 0 1)

unfoldable pub emit_ptr_diff : Syms → Emit → ℕ → Emit
unfolding emit_unscale
emit_ptr_diff syms subs size = do
  subs
  write (Instr.alu AluOp.sub x_reg 0 0 1)
  emit_unscale syms size

unfoldable pub emit_modulo : Syms → Emit → Ty → Emit
emit_modulo syms subs t = do
  subs
  write (Instr.alu (if is_signed_of t then AluOp.sdiv else AluOp.udiv) (reg_class syms t) 2 0 1)
  write (Instr.msub (reg_class syms t) 0 2 1 0)

-- `-curr_func->va_size` is written as an immediate of its own.
unfoldable pub emit_va_start : Env → Option ℕ → Emit → Emit
unfolding emit_frame_addr
emit_va_start env none place = abort "va_start: no function"
emit_va_start env (some f) place = do
  place
  write Instr.va_stack
  write Instr.va_str_stack
  emit_frame_addr env.syms ((env.syms f).va_offs + (env.syms f).va_size) 1
  write Instr.va_stp_tops
  write (Instr.va_mov_offs (env.syms f).va_size)
  write Instr.va_stp_offs

-- The pops of a call's arguments, from the last register down to x0.
unfoldable pub emit_pops : ℕ → Emit
emit_pops zero = nothing
emit_pops (suc n) = do emit_pop n; emit_pops n

-- Expr_Call, from the emitter that pushes the arguments.
unfoldable pub emit_call : Env → Option ℕ → Emit → ℕ → Emit
unfolding emit_pops
emit_call env none pushes n = abort "emit_scalar_expr: func"
emit_call env (some f) pushes n = do pushes; emit_pops n; write (Instr.bl (env.syms f).name)

-- An operand and one instruction on its register, and Expr_Not.
unfoldable pub emit_un : Emit → Instr → Emit
emit_un e i = do e; write i

unfoldable pub emit_not : Syms → Emit → Ty → Emit
emit_not syms e t = do
  e
  write (Instr.cmp_zero (reg_class syms t) 0)
  write (Instr.cset (reg_class syms t) 0 Cond.eq)

-- The emitters of the two operands of a node and their types: each as a value, the first as a place,
-- the second as the source of a copy.
pub record Subs : Type 0 where
  pub value1 : Emit
  pub value2 : Emit
  pub place1 : Emit
  pub source2 : Emit
  pub ty1 : Ty
  pub ty2 : Ty

-- The kinds with two operands; `t` is the type of the node.
unfoldable pub emit_binary : Env → BinKind → Ty → Subs → Emit
unfolding emit_bin_subs emit_cmp_expr emit_arith_expr emit_assign_to_addr emit_logic emit_ptr_arith
    emit_ptr_diff emit_modulo emit_va_start
emit_binary env k t s =
    let subs = emit_bin_subs env.syms s.value1 s.value2 s.ty1 in
    let arith = emit_arith_expr env.syms subs s.ty1 in
    let size = ty_size env.syms (base_of s.ty1) in
    elim k [
      | BinKind.comma ↦ s.value1 >> s.value2
      | BinKind.assign ↦ s.place1 >> emit_assign_to_addr env t s.value2 s.source2
      | BinKind.and ↦ emit_logic env.syms true s.value1 s.value2 s.ty1 s.ty2
      | BinKind.or ↦ emit_logic env.syms false s.value1 s.value2 s.ty1 s.ty2
      | BinKind.eq ↦ emit_cmp_expr env.syms subs s.ty1 Cond.eq Cond.eq
      | BinKind.ne ↦ emit_cmp_expr env.syms subs s.ty1 Cond.ne Cond.ne
      | BinKind.lt ↦ emit_cmp_expr env.syms subs s.ty1 Cond.lt Cond.lo
      | BinKind.le ↦ emit_cmp_expr env.syms subs s.ty1 Cond.le Cond.ls
      | BinKind.bit_and ↦ arith AluOp.and
      | BinKind.bit_xor ↦ arith AluOp.eor
      | BinKind.bit_or ↦ arith AluOp.orr
      | BinKind.shl ↦ arith AluOp.lsl
      | BinKind.shr ↦ arith (if is_signed_of t then AluOp.asr else AluOp.lsr)
      | BinKind.add ↦ arith AluOp.add
      | BinKind.sub ↦ arith AluOp.sub
      | BinKind.mul ↦ arith AluOp.mul
      | BinKind.div ↦ arith (if is_signed_of t then AluOp.sdiv else AluOp.udiv)
      | BinKind.modulo ↦ emit_modulo env.syms subs t
      | BinKind.ptr_add ↦ emit_ptr_arith env.syms AluOp.add subs size
      | BinKind.ptr_sub ↦ emit_ptr_arith env.syms AluOp.sub subs size
      | BinKind.ptr_diff ↦ emit_ptr_diff env.syms subs size
      | BinKind.va_start ↦ emit_va_start env env.curr_func s.place1
    ]
