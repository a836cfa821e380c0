-- ===== src/Compiler/Codegen/IntLoad.antt =====
-- What the instructions of emit_int_load leave in the register.
use smolcc.Base.{
  ℕ, suc, ◌+◌, ◌-◌, ◌*◌, ◌/◌, ◌%◌, ◌^◌, ◌<◌, ◌≡◌, Bool, true, false, List, ◌∷◌, arith, ltb, ◌==◌,
  ◌&&◌, if◌then◌else◌, Option, some, none, Bool-cases, inl, inr,
}
use smolcc.Base.Word.{word32, word64, half32, is_neg64, asr64}
use smolcc.Compiler.Outcome.{Succeeds}
use smolcc.Compiler.Types.{Ty, Syms, ty_size}
use smolcc.Compiler.Codegen.Instr.{RegClass, x_reg, w_reg, Instr, mov_imm, movk, Out}
use smolcc.Compiler.Codegen.Leaf.{emit_int_load, emit_chunks, first_chunk, default_chunk}

-- 2 to the width of the register.
abbrev pub range_of : RegClass → ℕ
range_of x_reg = word64
range_of w_reg = word32

abbrev pub same_class : RegClass → RegClass → Bool
same_class x_reg x_reg = true
same_class w_reg w_reg = true
same_class _ _ = false

-- The value that a sequence of `mov` and `movk` instructions, latest first, leaves in the register:
-- the immediate of a `mov` is an `int`, extended by its sign, and a `movk` replaces 16 bits.
-- Other instructions, and those on another register, are not of this form.
unfoldable pub loaded : RegClass → ℕ → List Instr → Option ℕ
loaded class reg (mov_imm c r imm ∷ code) =
    if same_class c class && r == reg
    then some (if ltb imm half32 then imm else range_of class - (word32 - imm))
    else none
loaded class reg (movk c r imm shift ∷ code) =
    let before = loaded class reg code in
    if same_class c class && r == reg
    then elim before [
      | some v ↦ some (v - v / 2 ^ shift % 0x1_0000 * 2 ^ shift + imm * 2 ^ shift)
      | none ↦ none
    ]
    else none
loaded class reg _ = none

-- One `movk`, unless the chunk is the default.
put_chunk : ℕ → ℕ → ℕ → ℕ → ℕ
put_chunk default v i c =
    if c == default then v else v - v / 2 ^ (i * 16) % 0x1_0000 * 2 ^ (i * 16) + c * 2 ^ (i * 16)

emit_chunks-zero :
    (class : RegClass) (reg default i val v : ℕ) (o : Out)
    → loaded class reg o.code ≡ some v
    → Succeeds (λ r. loaded class reg r.1.code ≡ some v) (emit_chunks class reg default 0 i val o)
unfolding emit_chunks
emit_chunks-zero class reg default i val v o h = h

same_register : (class : RegClass) (reg : ℕ) → (same_class class class && reg == reg) ≡ true
same_register x_reg reg = ground arith
same_register w_reg reg = ground arith

emit_chunks-suc :
    (class : RegClass) (reg default n i val v w : ℕ) (o : Out)
    → loaded class reg o.code ≡ some v
    → ((o' : Out)
        → loaded class reg o'.code ≡ some (put_chunk default v i (val % 0x1_0000))
        → Succeeds
            (λ r. loaded class reg r.1.code ≡ some w)
            (emit_chunks class reg default n (i + 1) (asr64 val 16) o'))
    → Succeeds
        (λ r. loaded class reg r.1.code ≡ some w)
        (emit_chunks class reg default (suc n) i val o)
unfolding emit_chunks put_chunk loaded
emit_chunks-suc class reg default n i val v w o h k =
    elim (Bool-cases (val % 0x1_0000 == default)) [
      | inl e ↦ rw e (k o (rw e h))
      | inr e ↦ rw e (
          k (record o { code = movk class reg (val % 0x1_0000) (i * 16) ∷ o.code })
            (rw (e, same_register class reg, h)))
    ]

-- The chunks of the value, as the shifts of the loop find them.
asr64_chunk1 : (val : ℕ) → val < word64 → asr64 val 16 % 0x1_0000 ≡ val / 0x1_0000 % 0x1_0000
unfolding asr64
asr64_chunk1 val h = ground arith

asr64_chunk2 :
    (val : ℕ) → val < word64 → asr64 (asr64 val 16) 16 % 0x1_0000 ≡ val / 0x1_0000_0000 % 0x1_0000
unfolding asr64
asr64_chunk2 val h = ground arith

asr64_chunk3 :
    (val : ℕ)
    → val < word64
    → asr64 (asr64 (asr64 val 16) 16) 16 % 0x1_0000 ≡ val / 0x1_0000_0000_0000 % 0x1_0000
unfolding asr64
asr64_chunk3 val h = ground arith

-- What the first `mov` leaves.
first_value : RegClass → ℕ → ℕ
first_value class val =
    if is_neg64 val then range_of class - 0x1_0000 + val % 0x1_0000 else val % 0x1_0000

loaded_first :
    (class : RegClass) (reg val : ℕ) (code : List Instr)
    → loaded class reg (mov_imm class reg (first_chunk val) ∷ code) ≡ some (first_value class val)
unfolding loaded first_value
loaded_first x_reg reg val code = ground arith
loaded_first w_reg reg val code = ground arith

put_chunks_x :
    (val : ℕ)
    → val < word64
    → put_chunk
        (default_chunk val)
        (put_chunk
          (default_chunk val)
          (put_chunk (default_chunk val) (first_value x_reg val) 1 (val / 0x1_0000 % 0x1_0000))
          2
          (val / 0x1_0000_0000 % 0x1_0000))
        3
        (val / 0x1_0000_0000_0000 % 0x1_0000)
      ≡ val
unfolding put_chunk first_value
put_chunks_x val h = ground arith

put_chunks_w :
    (val : ℕ)
    → val < word64
    → put_chunk (default_chunk val) (first_value w_reg val) 1 (val / 0x1_0000 % 0x1_0000)
      ≡ val % word32
unfolding put_chunk first_value
put_chunks_w val h = ground arith

load_x :
    (reg val : ℕ) (o : Out)
    → val < word64
    → loaded x_reg reg o.code ≡ some (first_value x_reg val)
    → Succeeds
        (λ r. loaded x_reg reg r.1.code ≡ some val)
        (emit_chunks x_reg reg (default_chunk val) 3 1 (asr64 val 16) o)
load_x reg val o h e₀ =
    emit_chunks-suc x_reg reg (default_chunk val) 2 1 (asr64 val 16) _ val o e₀ λ o₁ e₁.
      emit_chunks-suc x_reg reg (default_chunk val) 1 2 (asr64 (asr64 val 16) 16) _ val o₁ e₁
        λ o₂ e₂. emit_chunks-suc x_reg reg (default_chunk val) 0 3 _ _ val o₂ e₂ λ o₃ e₃.
          emit_chunks-zero x_reg reg (default_chunk val) 4 _ val o₃ (
            rw (asr64_chunk1 val h, asr64_chunk2 val h, asr64_chunk3 val h, put_chunks_x val h) at
              e₃)

load_w :
    (reg val : ℕ) (o : Out)
    → val < word64
    → loaded w_reg reg o.code ≡ some (first_value w_reg val)
    → Succeeds
        (λ r. loaded w_reg reg r.1.code ≡ some (val % word32))
        (emit_chunks w_reg reg (default_chunk val) 1 1 (asr64 val 16) o)
load_w reg val o h e₀ =
    emit_chunks-suc w_reg reg (default_chunk val) 0 1 (asr64 val 16) _ (val % word32) o e₀ λ o₁ e₁.
      emit_chunks-zero w_reg reg (default_chunk val) 2 _ (val % word32) o₁
        (rw (asr64_chunk1 val h, put_chunks_w val h) at e₁)

-- For a type of 8 bytes and a constant of 64 bits, the instructions that emit_int_load writes leave
-- exactly the constant in the x register.
pub emit_int_load-loaded64 :
    (syms : Syms) (t : Ty) (val reg : ℕ) (o : Out)
    → ty_size syms t ≡ 8
    → val < word64
    → Succeeds (λ r. loaded x_reg reg r.1.code ≡ some val) (emit_int_load syms t val reg o)
unfolding emit_int_load
emit_int_load-loaded64 syms t val reg o e h =
    rw e (load_x reg val _ h (loaded_first x_reg reg val o.code))

-- For a type of 4 bytes and a constant of 64 bits, the instructions that emit_int_load writes leave
-- the low 32 bits of the constant in the w register.
pub emit_int_load-loaded32 :
    (syms : Syms) (t : Ty) (val reg : ℕ) (o : Out)
    → ty_size syms t ≡ 4
    → val < word64
    → Succeeds
        (λ r. loaded w_reg reg r.1.code ≡ some (val % word32))
        (emit_int_load syms t val reg o)
unfolding emit_int_load
emit_int_load-loaded32 syms t val reg o e h =
    rw e (load_w reg val _ h (loaded_first w_reg reg val o.code))
