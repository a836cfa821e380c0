-- ===== src/Compiler/Types.antt =====
-- The types and symbols of the compiled language, `struct ty` and `struct sym` of
-- compiler/smolcc1.c, with `ty_size`, `ty_align` and the predicates on types.
-- The source interns types, so that two pointers are equal exactly when the types are; here a type
-- is a tree and `==` on pointers is equality of trees.
-- A `struct sym *` is the symbol's number, and what the symbol holds is read from `Syms`.
use smolcc.Base.{
  ◌≡◌, truth→, ℕ, ◌*◌, ◌%◌, Bool, true, false, ◌&&◌, ◌||◌, List, Option, some, none, ltb,
  if◌then◌else◌, truth, ℕ_discrete,
}
use smolcc.Base.Word.{word32, half32}
use smolcc.Compiler.Outcome.{Pos, Outcome, ok, assert, ◌>>◌}

-- Ty_Void .. Ty_VaList. `nil` and `cons` are `param_tys`, whose length is `n_params`.
mutual
  pub data Ty : Type 0 where
    void : Ty
    integer : Bool → ℕ → Ty
    ptr : Ty → Ty
    arr : Ty → ℕ → Ty
    func : Ty → Params → Bool → Ty
    struct : ℕ → Ty
    va_list : Ty

  pub data Params : Type 0 where
    nil : Params
    cons : Ty → Params → Params

-- `a == b` on two `struct ty *`.
pub Ty-discrete : Discrete Ty
Ty-discrete = hlevel ℕ_discrete

unfoldable pub same_ty : Ty → Ty → Bool
unfolding Ty-discrete
same_ty a b = truth (Ty-discrete a b)

pub same_ty→eq : (a b : Ty) → same_ty a b ≡ true → a ≡ b
unfolding same_ty
same_ty→eq a b h = truth→ (Ty-discrete a b) h

-- Sym_Global .. Sym_Field
pub data SymKind : Type 0 where
  global func_sym struct_sym const local field : SymKind

-- 0, Extern and Static
pub data Storage : Type 0 where
  unspecified extern static : Storage

-- struct sym. A name is its bytes; `scope` lists the symbols of the scope in order of declaration.
-- The body of a function is kept beside the symbols.
pub record Sym : Type 0 where
  pub kind : SymKind
  pub last_pos : Pos
  pub storage : Storage
  pub name : List ℕ
  pub ty : Ty
  pub is_defined : Bool
  pub val : ℕ
  pub last_param : Option ℕ
  pub va_offs : ℕ
  pub va_size : ℕ
  pub scope : List ℕ
  pub size : ℕ
  pub align : ℕ
  pub offs : ℕ

abbrev pub Syms : Type 0
Syms = ℕ → Sym

abbrev pub char_ty : Ty
char_ty = integer true 1

abbrev pub uchar_ty : Ty
uchar_ty = integer false 1

abbrev pub int_ty : Ty
int_ty = integer true 4

abbrev pub uint_ty : Ty
uint_ty = integer false 4

abbrev pub long_ty : Ty
long_ty = integer true 8

abbrev pub ulong_ty : Ty
ulong_ty = integer false 8

-- An `int`, as a bit pattern: the product wraps as in code that the compiler itself generates.
unfoldable pub ty_size : Syms → Ty → ℕ
ty_size syms (integer is_signed width) = width
ty_size syms (ptr base) = 8
ty_size syms (arr base len) = ty_size syms base * len % word32
ty_size syms (struct s) = if (syms s).is_defined then (syms s).size else 0
ty_size syms va_list = 32
ty_size syms void = 0
ty_size syms (func ret params is_va) = 0

unfoldable pub ty_align : Syms → Ty → ℕ
ty_align syms (arr base len) = ty_align syms base
ty_align syms (struct s) = if (syms s).is_defined then (syms s).align else 0
ty_align syms va_list = 8
ty_align syms (integer is_signed width) = width
ty_align syms (ptr base) = 8
ty_align syms void = 0
ty_align syms (func ret params is_va) = 0

abbrev pub is_integer_ty : Ty → Bool
is_integer_ty (integer is_signed width) = true
is_integer_ty _ = false

abbrev pub is_void_ty : Ty → Bool
is_void_ty void = true
is_void_ty _ = false

abbrev pub is_ptr_ty : Ty → Bool
is_ptr_ty (ptr base) = true
is_ptr_ty _ = false

abbrev pub is_scalar : Ty → Bool
is_scalar t = is_integer_ty t || is_ptr_ty t

abbrev pub is_func_ty : Ty → Bool
is_func_ty (func ret params is_va) = true
is_func_ty _ = false

abbrev pub is_void_ptr : Ty → Bool
is_void_ptr (ptr base) = is_void_ty base
is_void_ptr _ = false

abbrev pub is_arr_ty : Ty → Bool
is_arr_ty (arr base len) = true
is_arr_ty _ = false

-- `ty_size(t) > 0` on an `int`.
abbrev pub is_positive : ℕ → Bool
is_positive n = ltb 0 n && ltb n half32

abbrev pub is_obj_ty : Syms → Ty → Bool
is_obj_ty syms t = is_positive (ty_size syms t)

-- `t->base`, which the source reads of pointers and arrays only.
abbrev pub base_of : Ty → Ty
base_of (ptr base) = base
base_of (arr base len) = base
base_of _ = void

-- The common type of two pointers, or none if their bases differ and neither is `void *`.
unfoldable pub get_common_ptr_ty : Ty → Ty → Outcome (Option Ty)
get_common_ptr_ty t1 t2 = do
  assert "get_common_ptr_ty" (is_ptr_ty t1 && is_ptr_ty t2)
  ok (
      if is_void_ptr t1 || is_void_ptr t2
      then some (ptr void)
      else if same_ty (base_of t1) (base_of t2)
      then some t1
      else none)
