-- ===== src/Compiler/Codegen/Runs.antt =====
-- Emission that succeeds and keeps the machine stack balanced: rules for sequences of emitters, and
-- the emitters of one instruction.
use smolcc.Base.{
  ℕ, zero, suc, ◌+◌, ◌%◌, ◌<◌, ◌≡◌, refl, Bool, true, false, List, [], ◌∷◌, Option, some, none,
  if◌then◌else◌, arith, ◌==◌,
}
use smolcc.Base.Word.{asr64, word64}
use smolcc.Compiler.Outcome.{Outcome, ok, err_at, die, Succeeds}
use smolcc.Compiler.Types.{Ty, Syms, long_ty, ty_size}
use smolcc.Compiler.Codegen.Instr.{
  Instr, RegClass, x_reg, sub_sp, stp_frame, ldp_frame, add_sp, Out, M, Emit, ◌>>=◌, ◌>>◌, write,
  nothing, new_cond_id, new_loop_id, push, pop, str_label,
}
use smolcc.Compiler.Codegen.IntLoad.{loaded, emit_int_load-loaded64}
use smolcc.Compiler.Codegen.Leaf.{
  emit_push, emit_pop, emit_int_load, emit_chunks, emit_str_load, emit_load, emit_store,
  emit_frame_addr,
}

-- What the machine stack holds: a register of 16 bytes that was pushed, the frame record, or an area of
-- so many bytes.
pub data Block : Type 0 where
  pushed saved : Block
  area : ℕ → Block

abbrev pub Stack : Type 0
Stack = List Block

abbrev then_push : Option Stack → Block → Option Stack
then_push (some d) b = some (b ∷ d)
then_push none b = none

abbrev then_pop : Option Stack → Option Stack
then_pop (some (pushed ∷ d)) = some d
then_pop _ = none

abbrev then_restore : Option Stack → Option Stack
then_restore (some (saved ∷ d)) = some d
then_restore _ = none

-- "sub sp, sp, x9" and "add sp, sp, x9", by the value of x9.
abbrev then_reserve : Option Stack → Option ℕ → Option Stack
then_reserve d (some n) = then_push d (area n)
then_reserve d none = none

abbrev then_release : Option Stack → Option ℕ → Option Stack
then_release (some (area n ∷ d)) (some m) = if n == m then some d else none
then_release _ _ = none

-- The value of x9, if it has just been loaded; "ldp x29, x30" leaves it.
abbrev x9_of : List Instr → Option ℕ
x9_of (ldp_frame ∷ code) = loaded x_reg 9 code
x9_of code = loaded x_reg 9 code

-- What the instructions, latest first, have put on the stack and not taken off again; none if they take
-- off what is not on the top: a block of another kind, or an area of another size.
unfoldable pub stack_of : List Instr → Option Stack
stack_of [] = some []
stack_of (push r ∷ code) = then_push (stack_of code) pushed
stack_of (pop r ∷ code) = then_pop (stack_of code)
stack_of (sub_sp ∷ code) = then_reserve (stack_of code) (loaded x_reg 9 code)
stack_of (stp_frame ∷ code) = then_push (stack_of code) saved
stack_of (ldp_frame ∷ code) = then_restore (stack_of code)
stack_of (add_sp ∷ code) = then_release (stack_of code) (x9_of code)
stack_of (i ∷ code) = stack_of code

-- From a stack `d` the emitter succeeds, and leaves the stack `e`.
pub record Runs (d e : Stack) (m : Emit) : Type 0 where
  pub run : (o : Out) → stack_of o.code ≡ some d → Succeeds (λ r. stack_of r.1.code ≡ some e) (m o)

-- The instruction leaves the stack as it is.
abbrev pub IsQuiet : Instr → Type 0
IsQuiet i = (code : List Instr) → stack_of (i ∷ code) ≡ stack_of code

Succeeds-bind :
    {A B : Type 0} (P : A × Out → Type 0) (Q : B × Out → Type 0) (m : Outcome (A × Out))
    (f : A → M B)
    → Succeeds P m
    → ((r : A × Out) → P r → Succeeds Q (f r.0 r.1))
    → Succeeds Q (elim m [ ok (a, o) ↦ f a o | err_at p s ↦ err_at p s | die s ↦ die s ])
Succeeds-bind P Q (ok (a, o)) f h k = k (a, o) h
Succeeds-bind P Q (err_at p s) f h k = absurd h
Succeeds-bind P Q (die s) f h k = absurd h

infixr 4 ◌⨾◌
pub ◌⨾◌ : {d e f : Stack} {m k : Emit} → Runs d e m → Runs e f k → Runs d f (m >> k)
◌⨾◌ {d} {e} {f} {m} {k} h h' = record {
  run = λ o p.
      Succeeds-bind (λ r. stack_of r.1.code ≡ some e) (λ r. stack_of r.1.code ≡ some f) (m o)
        (λ _. k) (h.run o p) (λ r q. h'.run r.1 q);
}

pub Runs-write : (d : Stack) (i : Instr) → IsQuiet i → Runs d d (write i)
Runs-write d i q = record { run = λ o p. rw (q o.code) p }

pub Runs-push : (d : Stack) (r : ℕ) → Runs d (pushed ∷ d) (emit_push r)
unfolding stack_of
Runs-push d r = record { run = λ o p. rw p }

pub Runs-pop : (d : Stack) (r : ℕ) → Runs (pushed ∷ d) d (emit_pop r)
unfolding stack_of
Runs-pop d r = record { run = λ o p. rw p }

pub Runs-nothing : (d : Stack) → Runs d d nothing
Runs-nothing d = record { run = λ o p. p }

pub Runs-if :
    {d e : Stack} {m k : Emit} (t : Bool) → Runs d e m → Runs d e k → Runs d e (if t then m else k)
Runs-if true h h' = h
Runs-if false h h' = h'

pub Runs-new_cond_id :
    {d e : Stack} {k : ℕ → Emit} → ((id : ℕ) → Runs d e (k id)) → Runs d e (new_cond_id >>= k)
Runs-new_cond_id h = record { run = λ o p. (h o.next_cond_id).run _ p }

pub Runs-new_loop_id :
    {d e : Stack} {k : ℕ → Emit} → ((id : ℕ) → Runs d e (k id)) → Runs d e (new_loop_id >>= k)
Runs-new_loop_id h = record { run = λ o p. (h o.next_loop_id).run _ p }

Runs-emit_chunks :
    (d : Stack) (class : RegClass) (reg default n i val : ℕ)
    → Runs d d (emit_chunks class reg default n i val)
unfolding emit_chunks stack_of
Runs-emit_chunks d class reg default zero i val = Runs-nothing d
Runs-emit_chunks d class reg default (suc n) i val =
    Runs-if (val % 0x1_0000 == default) (Runs-nothing d) (Runs-write d _ (λ c. refl))
    ⨾ Runs-emit_chunks d class reg default n (i + 1) (asr64 val 16)

pub Runs-emit_int_load :
    (d : Stack) (syms : Syms) (t : Ty) (val reg : ℕ) → Runs d d (emit_int_load syms t val reg)
unfolding emit_int_load stack_of
Runs-emit_int_load d syms t val reg =
    Runs-if _ (Runs-nothing d)
      (Runs-write d _ (λ c. refl) ⨾ Runs-emit_chunks d _ reg _ _ 1 (asr64 val 16))

pub Runs-emit_frame_addr :
    (d : Stack) (syms : Syms) (offs reg : ℕ) → Runs d d (emit_frame_addr syms offs reg)
unfolding emit_frame_addr stack_of
Runs-emit_frame_addr d syms offs reg =
    Runs-emit_int_load d syms _ offs reg ⨾ Runs-write d _ (λ c. refl)

pub Runs-emit_load :
    (d : Stack) (syms : Syms) (t : Ty) (dst src : ℕ) → Runs d d (emit_load syms t dst src)
unfolding stack_of
Runs-emit_load d syms t dst src = Runs-write d _ (λ c. refl)

pub Runs-emit_store :
    (d : Stack) (syms : Syms) (t : Ty) (src dst : ℕ) → Runs d d (emit_store syms t src dst)
unfolding stack_of
Runs-emit_store d syms t src dst = Runs-write d _ (λ c. refl)

str_label-code :
    (s : List ℕ) (o : Out) (d : Stack)
    → stack_of o.code ≡ some d
    → Succeeds (λ r. stack_of r.1.code ≡ some d) (str_label s o)
unfolding str_label
str_label-code s o d p = ground arith

pub Runs-emit_str_load : (d : Stack) (s : List ℕ) → Runs d d (emit_str_load s)
unfolding emit_str_load stack_of
Runs-emit_str_load d s = record {
  run = λ o p.
      Succeeds-bind (λ r. stack_of r.1.code ≡ some d) (λ r. stack_of r.1.code ≡ some d)
        (str_label s o) _ (str_label-code s o d p) (λ r q. q);
}

Succeeds-both :
    {A : Type 0} (P Q : A → Type 0) (m : Outcome A)
    → Succeeds P m
    → Succeeds Q m
    → Succeeds (λ a. P a × Q a) m
Succeeds-both P Q (ok a) h k = (h, k)
Succeeds-both P Q (err_at p s) h k = absurd h
Succeeds-both P Q (die s) h k = absurd h

-- After a constant has been loaded to x9 the stack is as before, and x9 is the constant.
load_x9 :
    (d : Stack) (syms : Syms) (n : ℕ) (o : Out)
    → n < word64
    → stack_of o.code ≡ some d
    → Succeeds
        (λ r. (stack_of r.1.code ≡ some d) × (loaded x_reg 9 r.1.code ≡ some n))
        (emit_int_load syms long_ty n 9 o)
unfolding ty_size
load_x9 d syms n o h p =
    Succeeds-both _ _ (emit_int_load syms long_ty n 9 o)
      ((Runs-emit_int_load d syms long_ty n 9).run o p)
      (emit_int_load-loaded64 syms long_ty n 9 o refl h)

same : (n : ℕ) → (n == n) ≡ true
same n = ground arith

-- The prologue: an area of `n` bytes, and the frame record below it.
pub Runs-open_frame :
    {d e : Stack} {k : Emit} (syms : Syms) (n : ℕ)
    → n < word64
    → Runs (saved ∷ (area n ∷ d)) e k
    → Runs d e (emit_int_load syms long_ty n 9 >> (write sub_sp >> (write stp_frame >> k)))
unfolding stack_of
Runs-open_frame {d} {e} {k} syms n h then_k = record {
  run = λ o p.
      Succeeds-bind _ (λ r. stack_of r.1.code ≡ some e) (emit_int_load syms long_ty n 9 o) _
        (load_x9 d syms n o h p) λ r q. then_k.run _ (rw (q.0, q.1) refl);
}

-- The epilogue takes both off again.
pub Runs-close_frame :
    {d e : Stack} {k : Emit} (syms : Syms) (n : ℕ)
    → n < word64
    → Runs d e k
    → Runs
        (saved ∷ (area n ∷ d))
        e
        (emit_int_load syms long_ty n 9 >> (write ldp_frame >> (write add_sp >> k)))
unfolding stack_of
Runs-close_frame {d} {e} {k} syms n h then_k = record {
  run = λ o p.
      Succeeds-bind _ (λ r. stack_of r.1.code ≡ some e) (emit_int_load syms long_ty n 9 o) _
        (load_x9 (saved ∷ (area n ∷ d)) syms n o h p)
        λ r q. then_k.run _ (rw (q.0, q.1, same n) refl);
}
