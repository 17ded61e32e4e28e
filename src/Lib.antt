-- ===== src/Lib.antt =====
-- libecoli: parsing command lines by a graph of grammar nodes.
--
-- A line is lexed into a vector of strings (src/strvec.c), the vector is parsed by a node of the
-- grammar (src/node_*.c), each node's method calls ec_parse_child (src/parse.c) on the nodes
-- that it refers to, and the result is a tree of the nodes that matched, with the strings that
-- each consumed. Completion (src/complete.c) walks the grammar in the same way and collects what may
-- follow. Helpers on C strings are in src/string.c. The attributes of trees, nodes and
-- strings are dictionaries (src/dict.c), which are hash tables (src/htable.c).
--
-- Which file models which part:
--   Base          lists over the native numbers, Boolean tests, C strings as lists of bytes
--   Htable        src/htable.c: the operations (Ops), its masks (Bits); the others are theorems,
--                 from the chains to the view as a list of entries (Refines, Copy)
--   Dict          src/dict.c: dictionaries, and what they give after a change (Laws)
--   Strvec        src/strvec.c: a vector as the list of its elements; ec_strvec_ndup is `ndup`
--   Strvec/Heap   src/strvec.c: the operations on shared elements with counts of references;
--                 Views, Sharing and Copies are theorems on them
--   Strvec/Lex    src/strvec.c: ec_strvec_sh_lex_str, a function for each state of the lexer
--   Str           src/string.c: ec_strcmp_count, ec_str_startswith, ec_str_is_space, ec_str_quote
--   Parse         src/parse.c: the parse tree (Tree), one call of ec_parse_child (Step), and the
--                 iteration (Iter), which Preorder compares with a walk of the tree
--   Node          src/node_*.c: the node types (Types), the parse methods (Leaf, Lists, Wrap,
--                 Subset), the children of a node (Children), and ec_parse_strvec (Dispatch)
--   Complete      src/complete.c and the complete methods of src/node_*.c: items and groups (Items),
--                 ec_complete_child (Child), the methods (Lists, Wrap), and ec_complete (Dispatch)
--   Config        src/config.c: values (Values), schemas (Fields), ec_config_validate (Validate)
--   Vec           src/vec.c: vectors over their memory, and as lists of elements (Views)
--   Int           src/node_int.c over Config, and the number parsers of src/string.c; Int/Bounds
--                 says which strings a node int matches
--   Expr          src/node_expr.c: the grammar that ec_node_expr_build makes (Build), and
--                 ec_node_expr_eval (Eval)
--   Expression    theorems on Expr: what a tree says (Tree), the grammar built is one of
--                 expressions (Built), and its trees have values (Merge to Answer)
--   Graph         src/node.c: ec_node_free and its walks until a node is freed (Free), what
--                 count_references counts (Sums, Marked, Count), and the nodes that are kept
--                 (Spread, Shared)
--   ReLex         src/node_re_lex.c: tokenize, and the parse method; Relexing says how tokenize
--                 splits a string
--   Configuration theorems on Config: schemas and validation read no NULL (Schemas, Safe), what it
--                 accepts (Fits, Accepts), keys are told apart (Keys, Nested, Changes), comparison and
--                 copies (Compare, Copies)
--   Lexing, Sound, Total, Completion   theorems on the lexer, on the strings and children of parse
--                 trees, on termination, and on completions
--   Tests         runs on concrete inputs, and the theorems at such inputs
--
-- State. A grammar is a memory of nodes, so sharing and cycles are as in the code. A parse method
-- takes the path of tree nodes above its own, which is what the `parent` pointers reach, and
-- returns an outcome with the children that it leaves; an error frees the whole tree, so it
-- carries none. EC_PARSE_NOMATCH and -1 are outcomes of their own, where the code has INT_MAX.
--
-- Bounds and fuel. The recursion of the methods takes fuel, where the code takes stack: more than
-- the rank of the node is enough in a grammar without cycles; more than the number of nodes is
-- enough for the walks of ec_node_free on a node that is kept. The loop of `many` runs on rounds,
-- one more than the strings or the bound. The lengths that the methods add up never exceed the
-- vector's, since every child's length is checked by ec_strvec_ndup, so the subtractions on
-- size_t do not wrap and are those of ℕ. Memory allocation is taken to succeed.
--
-- Completion. The tree that is parsed on the way is passed along, with a marker for the assert of
-- ec_complete_child; an item's address is the number of items added before it. Node types of an
-- application are taken to have no complete method.
--
-- Configurations. A schema is a finite tree, which is what ec_config_schema_validate returns for;
-- a dictionary is its entries in the order of iteration. A read through NULL is a result of its
-- own, and so is a NULL key for a log; other logs are left out.
--
-- Hash tables. A table has a list and chains of references, told apart by their addresses, which
-- the allocator's caller passes on. Sizes grow by 8 modulo 2^64; below 2^60 elements, growth does
-- not overflow. The counts of references to shared elements are left out.
--
-- Parameters. The hash function, a copy of MurmurHash3 in the repository, is one. `Grammar.stack`
-- is what the lexer's array holds before it is written. `re` and the patterns of re_lex hold what
-- regexec(3) reports. `ext` stands for types that an application registers. strtoll and strtoull
-- return a value, a rest and an errno. isspace and isprint are those of the "C" locale, and
-- BUFSIZ is 8192.
--
-- Not modelled: the configuration of node types other than int and uint, ec_node_free from where
-- it frees a node, ec_node_clone, what expressions free and their userctx, commands and
-- conditions; the expansion mode of sh_lex, the attributes of
-- completions, the dumps, and src/editline.c, src/yaml.c, src/log.c and src/init.c, which are
-- input and output or glue over other libraries.
pub mod Base
pub mod Htable
pub mod Dict
pub mod Strvec
pub mod Str
pub mod Parse
pub mod Preorder
pub mod Node
pub mod Complete
pub mod Completion
pub mod Config
pub mod Configuration
pub mod Int
pub mod Vec
pub mod Expr
pub mod Expression
pub mod Graph
pub mod ReLex
pub mod Relexing
pub mod Lexing
pub mod Sound
pub mod Total
mod Tests
