-- ===== src/Lib.antt =====
-- A model of the core of the Sunder compiler: the arithmetic of util.c on integers of any size
-- and on arrays of bits; the lexer of lex.c, which reads its integers with that arithmetic; the
-- concrete syntax tree, which the parser of parse.c makes of the tokens, and the ordering of its
-- declarations in order.c; and the operators of the evaluator of constants in eval.c, which compute
-- with the integers and the arrays of bits.
--
-- The modules and the code that they follow:
--
-- - Prelude: shared names, numbers, lists, integers, and binary digits.
-- - Bigint: `struct bigint` of util.c. `Repr` has the record and the operations on limbs, `Cmp`
--   `bigint_cmp`, `Sum` `bigint_add` and `bigint_sub`, `Product` `bigint_mul`, `Magnitude` the
--   operations on binary digits, `Division` `bigint_divrem`. `Value` says which integer a bigint
--   stands for and what its normal form is. `Text` has `bigint_new_text` and
--   `bigint_to_new_cstr`; its child `Numeral` says which texts write an
--   integer. `Machine` has `bigint_to_umax` and `bigint_to_uz`. The children of each
--   module prove its laws.
-- - Bitarr: `struct bitarr` of util.c, with `bigint_to_bitarr` and `bitarr_to_bigint`. `Access`
--   is about `bitarr_set` and `bitarr_get`, `Number` about the number that the bits write,
--   `Complement` about `bitarr_compl` and `bitarr_twos_complement_neg`, `Convert`, `Back` and
--   `RoundTrip` about the two conversions, and `Low` about the low bits of an array.
-- - Chars: the classes of characters of util.c, `safe_isalnum` up to `safe_toupper`. `Case`
--   is about the last two.
-- - Lexer: lex.c. `Kind` has `enum token_kind` of sunder.h and the table of texts, `Scan` the state
--   of the lexer and the routines that move through the source, `Lexer` itself the tokens.
--   `Munch` is about `lex_sigil`, `Skip` about white space and comments, `Escape` says what the
--   characters of a bytes literal are, and `Bytes` is about `lex_bytes`.
-- - Cst: the nodes of `struct cst_expr` up to `struct cst_module` in sunder.h; the functions of
--   cst.c that allocate them are the constructors.
-- - Parser: parse.c. `Tokens` has `struct parser` with its access to the tokens and its loops,
--   `Symbols`, `Types`, `Exprs`, `Operators`, `Decls` and `Stmts` the functions that make these nodes, and
--   `Module` `parse_module` and `parse`. `Progress` is about the tokens that each function takes, and
--   `Precedence` about how operators and operands are grouped, `Ending` about where
--   `parse_module` ends.
-- - Order: order.c. `State` has the orderer and the states of declarations, `Walk` the walk over
--   expressions, types and declarations, and `Order` itself `order_tldecl` and `order`. `Graph`,
--   `States`, `Advances`, `Search`, `Whole` and `Failure` are about a depth first visit of a
--   graph, `Before` about the order of its result, and `Events`, `Refines` and `Correct` lead the
--   code back to it. `Mentions` says by the syntax which names a declaration mentions, `Named` and
--   `Behind` that these are needed and stand in front, and `Names` and `Outcome` say what `order`
--   returns.
-- - Eval: eval.c, with what it uses of ast.c and sunder.c. `Types` has `struct type` with the sizes
--   and the bounds of the integer types, `Values` `struct value` and its comparisons, `Range`
--   `integer_is_out_of_range` and the assertions of `value_new_integer`, and `Operators`
--   and `Unary` the cases of `eval_rvalue_binary` and `eval_rvalue_unary` on values.
--   `Arithmetic` is about `+`, `-` and `*`, `Wrapping` about `+%`, `-%` and `*%`, `Divide` about `/` and `%`, `Negate` about
--   the two negations, and `Compare` about the comparisons.
--
-- Conventions. A C function that writes its result through a pointer returns it here, and a
-- function that may stop the process (a failed assertion, or `fatal`) returns an `Option`, whose
-- `none` is the stopped process. Those on bigints that combine operands first compute the
-- result in locals and then assign it, so a result that aliases an operand makes no difference;
-- those on bit arrays write in place and read no bit or word that an earlier round has written,
-- but for the shifts, which work on a copy. Limbs are numbers
-- below 256; the casts to `uint8_t` and the wrap-around of `unsigned` are written out. A failed
-- allocation ends the process and is not modelled, nor is an array of limbs so long that `size_t`
-- overflows.
--
-- Strings of the C library and the source are lists of characters, a character being the value of
-- its `int` converted to `unsigned`. A pointer into the source is the list of what is left, and
-- reading behind it gives NUL. `strtod` of the C library is a parameter of the lexer; `strtol` is
-- only called on one digit and is written out there. `intern` gives equal texts equal pointers,
-- so a text stands for its pointer. The double of a floating point token is any type.
--
-- The parser reads the list of the tokens in front of the end of the file, behind which it finds the
-- token of the end again and again; its functions take that list and return what is left of it, or
-- the error with which `fatal` stops the process. Those that call one another in a circle take the
-- record `Calls` of the recursive calls, and `calls` closes the circle at some fuel. Functions
-- of parse.c that differ only in a keyword and in the node that they make share a definition that
-- takes both. The warning on `:::`, which changes nothing of the tree, is left out.
-- The program lexes as it parses; here the lexer has given all tokens, so that none of its errors
-- comes between.
--
-- A top-level declaration of order.c is its index in the module; the array of declarations is its
-- list of declarations and a list of their states. A type is its kind, with an address where it is
-- not primitive. The arithmetic of the machine's floating point numbers, and the values of pointers
-- and of compound types, are parameters of the evaluator, and so is `strtoumax` of the C library.
-- An evaluation gives a value, a message and the end of the process, or a failed assertion. The
-- size of an integer type is what `type_new_u8` up to `type_new_ssize` give it.
--
-- Fuel. `Sum.add` and `Sum.sub` call one another at most once, so two units are enough. The loop
-- that counts the digits of the top limb has eight rounds, one for each digit of a byte. The loop
-- of `bigint_to_new_cstr` has a round more than the number has binary digits, and every round but
-- the last divides by ten. The loops over white space and over the characters of a bytes literal
-- have a round for each character of the source, and a round takes one at least. `order_tldecl`
-- has a unit more than there are declarations: a visit marks one before it goes on. `parse` has three
-- units for each token and three more: a
-- statement, its expression and the type that begins it are the only calls inside one another
-- before a token is taken; each loop of the parser has a round for each token that is left
-- and one more. All other loops
-- are recursions on the rounds that are left, or on the list.
--
-- Not modelled: the other conversions of bigints to and from machine integers; the resolver
-- and the code generator; of the evaluator the casts, the accesses and the operators on
-- pointers and slices; the text of messages, input and output, and memory.
pub mod Prelude
pub mod Chars
pub mod Lexer
pub mod Cst
pub mod Order
pub mod Eval
pub mod Parser
pub mod Bigint
pub mod Bitarr
