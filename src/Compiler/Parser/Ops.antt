-- ===== src/Compiler/Parser/Ops.antt =====
-- The tests by which the functions of the parser of compiler/smolcc1.c choose a branch. Each is the chain
-- of `at` and `eat` of its function, on the token that the parser is at; `eat` goes on from it in the
-- branch. No two words of a chain are equal, so that a precedence that is too low ends the expression.
use smolcc.Base.{
  ℕ, ◌+◌, ◌-◌, Bool, true, false, ◌&&◌, ◌||◌, String, List, [], ◌∷◌, Option, none, some, ltb,
  if◌then◌else◌,
}
use smolcc.Base.Word.{word32, word64}
use smolcc.Compiler.Types.{
  Ty, void, va_list, char_ty, uchar_ty, int_ty, uint_ty, long_ty, ulong_ty, Storage, unspecified,
  extern, static,
}
use smolcc.Compiler.Typed.{UnKind, BinKind}
use smolcc.Compiler.Lexer.{Token, TokKind}
use smolcc.Compiler.Parser.Monad.{is, is_wrd}

unfoldable pub at_ty : List ℕ → Bool
unfolding is
at_ty text =
    is text "void"
    || (is text "char"
        || (is text "int"
            || (is text "long"
                || (is text "va_list"
                    || (is text "struct"
                        || (is text "enum" || (is text "unsigned" || is text "const")))))))

unfoldable pub at_decl : List ℕ → Bool
unfolding at_ty
at_decl text = is text "static" || (is text "extern" || at_ty text)

-- Prec_Comma to Prec_Postfix
abbrev pub prec_comma : ℕ
prec_comma = 1

abbrev pub prec_assign : ℕ
prec_assign = 2

abbrev pub prec_cond : ℕ
prec_cond = 3

abbrev pub prec_unary : ℕ
prec_unary = 14

abbrev pub prec_postfix : ℕ
prec_postfix = 15

-- How an expression starts.
pub data Prefix : Type 0 where
  paren number string character sizeof va_start va_arg va_end identifier : Prefix
  prefix_op : UnKind → Prefix

abbrev pub is_num_kind : TokKind → Bool
is_num_kind TokKind.num = true
is_num_kind _ = false

abbrev pub is_str_kind : TokKind → Bool
is_str_kind TokKind.str = true
is_str_kind _ = false

abbrev pub is_chr_kind : TokKind → Bool
is_chr_kind TokKind.chr = true
is_chr_kind _ = false

unfoldable pub expr_start : Token → Option Prefix
unfolding is
expr_start t =
    if is t.text "("
    then some paren
    else if is t.text "-"
    then some (prefix_op UnKind.neg)
    else if is t.text "~"
    then some (prefix_op UnKind.bit_not)
    else if is t.text "!"
    then some (prefix_op UnKind.log_not)
    else if is_num_kind t.kind
    then some number
    else if is_str_kind t.kind
    then some string
    else if is_chr_kind t.kind
    then some character
    else if is t.text "&"
    then some (prefix_op UnKind.addr)
    else if is t.text "*"
    then some (prefix_op UnKind.deref)
    else if is t.text "sizeof"
    then some sizeof
    else if is t.text "va_start"
    then some va_start
    else if is t.text "va_arg"
    then some va_arg
    else if is t.text "va_end"
    then some va_end
    else if is_wrd t.kind
    then some identifier
    else none

-- The type of a number, from its suffixes and its size.
unfoldable pub num_ty : Token → Ty
num_ty t =
    if t.u
    then (if t.l || ltb (word32 - 1) t.n then ulong_ty else uint_ty)
    else (if t.l || ltb 0x7fff_ffff t.n then long_ty else int_ty)

-- `tok_val.str[0]`, a signed character, as a `long`.
abbrev pub first_chr : List ℕ → ℕ
first_chr [] = 0
first_chr (c ∷ s) = if ltb c 128 then c else word64 - 256 + c

-- A binary operator: its precedence, its kind, the least precedence on its right, and whether its
-- operands are exchanged, as those of `>`.
pub record BinOp : Type 0 where
  pub word : String
  pub prec : ℕ
  pub kind : BinKind
  pub right : ℕ
  pub exchanged : Bool

abbrev op : String → ℕ → BinKind → BinOp
op word prec kind = record {
  word = word;
  prec = prec;
  kind = kind;
  right = prec;
  exchanged = false;
}

-- The operators of the loop of p_expr but those of Infix, in order.
abbrev pub binary_ops : List BinOp
binary_ops =
    record { word = ","; prec = 1; kind = BinKind.comma; right = 0; exchanged = false }
    ∷ record { word = "="; prec = 2; kind = BinKind.assign; right = 1; exchanged = false }
    ∷ op "||" 4 BinKind.or
    ∷ op "&&" 5 BinKind.and
    ∷ op "|" 6 BinKind.bit_or
    ∷ op "^" 7 BinKind.bit_xor
    ∷ op "&" 8 BinKind.bit_and
    ∷ op "==" 9 BinKind.eq
    ∷ op "!=" 9 BinKind.ne
    ∷ op "<" 10 BinKind.lt
    ∷ record { word = ">"; prec = 10; kind = BinKind.lt; right = 10; exchanged = true }
    ∷ op "<=" 10 BinKind.le
    ∷ record { word = ">="; prec = 10; kind = BinKind.le; right = 10; exchanged = true }
    ∷ op "<<" 11 BinKind.shl
    ∷ op ">>" 11 BinKind.shr
    ∷ op "+" 12 BinKind.add
    ∷ op "-" 12 BinKind.sub
    ∷ op "*" 13 BinKind.mul
    ∷ op "/" 13 BinKind.div
    ∷ op "%" 13 BinKind.modulo
    ∷ []

-- How an expression goes on.
pub data Infix : Type 0 where
  binary : BinOp → Infix
  cond index call dot arrow post_inc post_dec : Infix

-- `rbp < prec && eat(word)`
unfoldable pub find_op : ℕ → List ℕ → List BinOp → Option Infix
unfolding is
find_op rbp text [] = none
find_op rbp text (o ∷ ops) =
    let rest = find_op rbp text ops in
    if is text o.word && ltb rbp o.prec then some (binary o) else rest

unfoldable pub infix_of : ℕ → List ℕ → Option Infix
unfolding is find_op
infix_of rbp text =
    if is text "?" && ltb rbp prec_cond
    then some cond
    else if is text "[" && ltb rbp prec_postfix
    then some index
    else if is text "(" && ltb rbp prec_postfix
    then some call
    else if is text "." && ltb rbp prec_postfix
    then some dot
    else if is text "->" && ltb rbp prec_postfix
    then some arrow
    else if is text "++" && ltb rbp prec_postfix
    then some post_inc
    else if is text "--" && ltb rbp prec_postfix
    then some post_dec
    else find_op rbp text binary_ops

-- How a statement starts.
pub data StmtStart : Type 0 where
  block_stmt return_stmt if_stmt for_stmt while_stmt break_stmt continue_stmt : StmtStart
  empty_stmt decl_stmt expr_stmt : StmtStart

unfoldable pub stmt_start : List ℕ → StmtStart
unfolding is at_decl
stmt_start text =
    if is text "{"
    then block_stmt
    else if is text "return"
    then return_stmt
    else if is text "if"
    then if_stmt
    else if is text "for"
    then for_stmt
    else if is text "while"
    then while_stmt
    else if is text "break"
    then break_stmt
    else if is text "continue"
    then continue_stmt
    else if is text ";"
    then empty_stmt
    else if at_decl text
    then decl_stmt
    else expr_stmt

-- The specifiers that p_decl has read.
pub record Specs : Type 0 where
  pub storage : Storage
  pub base_ty : Option Ty
  pub is_unsigned : Bool

abbrev pub no_specs : Specs
no_specs = record { storage = unspecified; base_ty = none; is_unsigned = false }

abbrev pub no_base : Specs → Bool
no_base s = elim s.base_ty [ none ↦ true | some t ↦ false ]

abbrev pub no_storage : Specs → Bool
no_storage s = elim s.storage [ unspecified ↦ true | extern ↦ false | static ↦ false ]

abbrev pub with_base : Specs → Ty → Specs
with_base s t = record s { base_ty = some t }

-- A specifier: the specifiers with it, or a struct or an enum that is to be read.
pub data Spec : Type 0 where
  next : Specs → Spec
  struct_spec enum_spec : Spec

unfoldable pub spec_of : Specs → List ℕ → Option Spec
unfolding is
spec_of s text =
    if is text "const"
    then some (next s)
    else if is text "unsigned" && no_base s
    then some (next (record s { is_unsigned = true }))
    else if is text "static" && no_storage s
    then some (next (record s { storage = static }))
    else if is text "extern" && no_storage s
    then some (next (record s { storage = extern }))
    else if is text "void" && no_base s
    then some (next (with_base s void))
    else if is text "int" && no_base s
    then some (next (with_base s (if s.is_unsigned then uint_ty else int_ty)))
    else if is text "long" && no_base s
    then some (next (with_base s (if s.is_unsigned then ulong_ty else long_ty)))
    else if is text "char" && no_base s
    then some (next (with_base s (if s.is_unsigned then uchar_ty else char_ty)))
    else if is text "va_list" && no_base s
    then some (next (with_base s va_list))
    else if is text "struct" && no_base s
    then some struct_spec
    else if is text "enum" && no_base s
    then some enum_spec
    else none
