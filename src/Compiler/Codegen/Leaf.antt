-- ===== src/Compiler/Codegen/Leaf.antt =====
-- The emitters of one or a few instructions, `X` to `emit_frame_store` of compiler/smolcc1.c.
use smolcc.Base.{ℕ, zero, suc, ◌+◌, ◌-◌, ◌*◌, ◌/◌, ◌%◌, List, ◌==◌, if◌then◌else◌}
use smolcc.Base.Word.{is_neg64, asr64}
use smolcc.Compiler.Types.{Ty, Syms, ty_size, char_ty, uchar_ty, long_ty, same_ty}
use smolcc.Compiler.Codegen.Instr.{
  RegClass, x_reg, w_reg, Emit, ◌>>=◌, ◌>>◌, write, nothing, str_label, mov_imm, movk, push, pop,
  load, store, ldrsb, ldrb, ldr, strb, StoreOp, LoadOp, add_frame, adrp_str, add_lo12_str,
}

-- `X`
abbrev pub reg_class : Syms → Ty → RegClass
reg_class syms t = if ty_size syms t == 8 then x_reg else w_reg

unfoldable pub emit_str_load : List ℕ → Emit
unfolding str_label
emit_str_load s = do l ← str_label s; write (adrp_str l); write (add_lo12_str l)

-- `long default_chunk`, from the sign of the value to load.
abbrev pub default_chunk : ℕ → ℕ
default_chunk val = if is_neg64 val then 0xffff else 0

-- The first round of the loop: a `mov` of the low 16 bits, with the sign of the value above them.
-- `%d` prints the low 32 bits of the chunk.
abbrev pub first_chunk : ℕ → ℕ
first_chunk val = if is_neg64 val then 0xffff_0000 + val % 0x1_0000 else val % 0x1_0000

abbrev pub emit_chunk : RegClass → ℕ → ℕ → ℕ → ℕ → Emit
emit_chunk class reg default i chunk =
    if chunk == default then nothing else write (movk class reg chunk (i * 16))

-- The later rounds, `rounds` of them from round `i` on: a `movk` for a chunk that the `mov` has not
-- set already. `val` has been shifted right by 16 * i bits.
unfoldable pub emit_chunks : RegClass → ℕ → ℕ → ℕ → ℕ → ℕ → Emit
unfolding asr64
emit_chunks class reg default zero i val = nothing
emit_chunks class reg default (suc rounds) i val = do
  emit_chunk class reg default i (val % 0x1_0000)
  emit_chunks class reg default rounds (i + 1) (asr64 val 16)

-- The loop runs while i * 2 < ty_size(ty), at least once for a type with a size.
unfoldable pub emit_int_load : Syms → Ty → ℕ → ℕ → Emit
unfolding emit_chunks asr64
emit_int_load syms t val reg =
    let rounds = (ty_size syms t + 1) / 2 in
    let class = reg_class syms t in
    if rounds == 0 then nothing else (do
      write (mov_imm class reg (first_chunk val))
      emit_chunks class reg (default_chunk val) (rounds - 1) 1 (asr64 val 16))

abbrev pub emit_push : ℕ → Emit
emit_push reg = write (push reg)

abbrev pub emit_pop : ℕ → Emit
emit_pop reg = write (pop reg)

abbrev pub load_op : Ty → LoadOp
load_op t = if same_ty t char_ty then ldrsb else if same_ty t uchar_ty then ldrb else ldr

abbrev pub emit_load : Syms → Ty → ℕ → ℕ → Emit
emit_load syms t dst src = write (load (load_op t) (reg_class syms t) dst src)

abbrev pub store_op : Ty → StoreOp
store_op t = if same_ty t char_ty then strb else if same_ty t uchar_ty then strb else StoreOp.str

abbrev pub emit_store : Syms → Ty → ℕ → ℕ → Emit
emit_store syms t src dst = write (store (store_op t) (reg_class syms t) src dst)

-- The address x29 + offs. `offs` is an `int` passed as a `long`.
unfoldable pub emit_frame_addr : Syms → ℕ → ℕ → Emit
unfolding emit_int_load
emit_frame_addr syms offs reg = do emit_int_load syms long_ty offs reg; write (add_frame reg)

unfoldable pub emit_frame_store : Syms → Ty → ℕ → ℕ → Emit
unfolding emit_frame_addr
emit_frame_store syms t offs reg = do emit_frame_addr syms offs 9; emit_store syms t reg 9
