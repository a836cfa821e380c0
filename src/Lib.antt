-- ===== src/Lib.antt =====
-- smolcc is a small C compiler for AArch64, written in the C that it compiles, with a small C
-- library. This library models the compiler's lexer, parser, checking and code generation and most of
-- the C library, and proves what they promise.
--
-- The compiler, compiler/smolcc1.c, reads a program, and its parser builds trees of expressions, which
-- elaboration checks and gives types and conversions; constant expressions are evaluated at once; code
-- generation then writes assembly, an instruction for each `writef`. The symbol table is what the
-- parts share. The library under stdlib/ is linked with the programs.
--
--   Base               numbers, lists, Boolean tests, and C integers as bit patterns
--   Compiler.Outcome   how a step ends: a result, err_at (a diagnostic) or die (an abort)
--   Compiler.Misc      write_uint, write_int, str_eq, mem_eq, align_up, find_chr; in Misc.Writef write_str,
--                      write_char and vwritef
--   Compiler.Arena     alloc
--   Compiler.Intern    the tables of strings and types: intern, intern_ty, ty_eq, the mk_ functions
--   Compiler.Lexer     lex and all it calls; in Lexer.Reader peek_char and skip_chr on the read buffer
--   Compiler.Types     struct ty and struct sym, ty_size, ty_align and the predicates on types
--   Compiler.Symbols   lookup, and in Symbols.Declare add_sym and declare
--   Compiler.Ast       expressions as parsed; Compiler.Typed: expressions with types, is_lvalue and
--                      the like; Compiler.Stmt: statements
--   Compiler.Eval      const_cast and eval
--   Compiler.Elab      the conversions (Elab.Convert), elab_expr at one node (Elab.Node) and on trees,
--                      elab_rvalue_expr and elab_init (Elab.Tree)
--   Compiler.Codegen   the instructions and the state (Codegen.Instr), the emitters of one instruction
--                      or a few (Codegen.Leaf), of operators (Codegen.Operators), of expressions,
--                      emit_expr and emit_place_expr (Codegen.Expr), and of statements and functions,
--                      emit_stmt and emit_func (Codegen.Stmt), and of data, with the loop of main over the
--                      symbols (Codegen.Object)
--   Compiler.Parser    the parser's state and at to p_ident (Parser.Monad), the tests by which its
--                      functions branch (Parser.Ops), p_expr, p_stmt, p_struct, p_enum and p_decl with
--                      what they do between their calls (Parser.Grammar, Grammar.Parts), and main up to
--                      the end of the input (Parser.Program)
--   Compiler.Main      main
--   Stdlib.Strings     stdlib/string.c
--   Stdlib.Ctype       stdlib/ctype.c
--   Stdlib.Numbers     try_parse, strtoul, strtol, atol and atoi of stdlib/stdlib.c
--   Stdlib.Errno       _errlist_find and strerror of stdlib/errno.c
--   Stdlib.File        the streams of stdlib/stdio.c; in File.Calls fflush, fwrite, fread and what is
--                      built of them, in File.Open fopen, fclose, _init_stdio and _fini_stdio
--   Stdlib.Getopt      stdlib/getopt.c
--   Stdlib.Printf      stdlib/stdio_printf.c: the digits of numbers (Printf.Digits), p_fmt
--                      (Printf.Spec), and what writes to a stream, up to _vfprintf (Printf.Format)
--   Stdlib.Syscall     stdlib/syscall.c
--
-- Elab.Sound and its children, Codegen.IntLoad, Runs, RunsOperators, Emittable, StmtRuns and
-- Assembled, Eval.Range, Misc.Decimal, Misc.Written, Symbols.Layout, Intern.Types, Lexer.Consumed and
-- Lexer.Numbers, Parser.Budget, Words, Fuel, Frame, Levels, Ends and Stops, File.Writing, File.Reading and
-- File.Table, Getopt.Ends, Printf.Numerals, Printf.Consumed, Ends and Fields, and the modules called
-- Laws and Search hold the proofs; the modules called Tests,
-- ProgramTests, ParserTests, TableTests, FileTests and PrintfTests run the definitions on examples.
--
-- Pointers to types are trees, and pointers to symbols numbers: the source interns types, so that
-- comparing pointers compares types; Intern.Types relates its table to the trees. Elaboration changes
-- trees in place in the source and returns new ones here.
-- Memory is the list of bytes from a pointer to the end of what may be read, and a read past it is a
-- fault. State that the compiler keeps in globals (the counters of labels, the labels of string
-- literals, the current function and scope) is passed along. The system calls are a parameter of the
-- buffered files: functions on a state of the system, which are documented to take or give some of the
-- bytes in order, or to fail.
--
-- The lexer reads a list of characters, the head of which is `chr`; Lexer.Reader has the array of the
-- read buffer, with its indices.
--
-- Fuel: write_uint has 20 digits, which hold every number below 2 ^ 64; errlist_search has as many
-- rounds as the table has entries, and each round makes the interval shorter. The loops of the lexer
-- have a round for each character that is left, and one more, and fflush one for each byte in the
-- buffer, of which `write` takes one at least. _vfprintf has one for each character of the
-- format, of which a part takes one at least. Each call of the parser takes a unit of its fuel, and the
-- calls between two tokens are fewer than sixteen, so that sixteen for each byte and ten are enough.
--
-- Not modelled: the contents of the arena; the order of the table of strings, which is an argument of
-- main; perror; the assembly files, samples, scripts and build files. The table of errors, which the
-- build generates, is a parameter.
pub mod Base
pub mod Compiler
pub mod Stdlib
