-- ===== src/Lib.antt =====
-- A model of the core of javascript-database, a JavaScript interpreter in C that stores its
-- objects in a versioned document store.
--
-- - js_vector.c, js_vector.h: growable vectors, which hold arrays, the pairs of objects,
--   arguments and frames. Vector.antt has the record Vector and `vec_grow`, `vec_push`, `vec_pop`
--   and `vec_sliceqty`; Vector/Bounds.antt their theorems.
-- - js_object.c: objects. An object's pairs stand in a vector with an open hash table behind
--   them. Props/Hash.antt has `hashStr`, `hashBytes`, `hashEntry` and `hashStore`;
--   Props/Table.antt has `lookupValue`, `setAttribute`, `lookup` and `deleteField` on the record
--   Table, which owns the capacity, the pairs and the hash table. Trail, Probe, Valid, Rehash and
--   Insert are about well-formed tables, Refine about a table as a finite map, Delete about
--   `deleteField`, Layout about the block that js_vector.c allocates for the pairs. Attribute has
--   `lookupAttribute`, and Places the places where it looks.
-- - js_marshal.c: the layout of a document in the store. Marshal/Values.antt has the documents,
--   Marshal/Walk.antt the loops of `calcSize` and `marshalDoc` with their stacks,
--   Marshal/Size.antt the size by recursion, Marshal/Agree.antt the agreement of the three.
--   Props/Marshaled.antt has the hash table that `marshalDoc` writes behind the pairs of an
--   object.
-- - js_string.c: the methods of strings, in Strings.antt and its modules: Search, Find and Ends
--   (`indexOf`, `includes`, `lastIndexOf`, `startsWith`, `endsWith`), Replace, Replaced and First
--   (`replaceAll`, `replace`), Split and Joined (`split`, `trim`), Slice, Cut and Offsets
--   (`substring`, `substr`, `slice`, `charAt`, `charCodeAt`, `concat`, `repeat` and the cases).
-- - js_object.c, js_dbdoc.c: the methods of arrays `concat`, `slice` and `join` and `cloneArray`,
--   in Arrays.antt, with Arrays/Concat.antt and Arrays/Join.antt; `cloneObject` in
--   Props/Cloned.antt.
-- - js_jsonparse.c: the JSON parser, in Json/Parse.antt on the values of Json/Values.antt.
--   Json/Print.antt has a printer, and Json/Printed.antt reads back what it prints.
-- - js_parse.c: the nodes of a parse tree. Nodes/Table.antt has `newNode`, Nodes/Modules.antt
--   `findFirstNode`, Nodes/Literals.antt `convLit` and `newStrNode`, with Nodes/Decode.antt.
-- - js_symbols.c: the symbol tables of functions and blocks. Symbols/Tree.antt has the parse
--   trees, Symbols/Tables.antt the tables with `findSymbol`, `insertSymbol` and `lookupSymbol`,
--   Symbols/Hoist.antt `hoistSymbols`, Symbols/Assign.antt `assignSlots` and `compileScripts`.
--   Slots and Declared are about hoisting, Scopes and Bound about the names that are found,
--   Resolve and Apart about the slots that they get.
-- - js_dbindex.c: the keys of an index. Keys/Options.antt has `key_options`, with
--   Keys/Fields.antt; Keys/Encode.antt has `keyFld`, with Keys/Order.antt; Keys/Text.antt has
--   `fcnKeyToString`. Keys/Layout.antt has `compileKey`, with Laid, Compiled and Room, and
--   Keys/Build.antt `idxBldKeyHelper`, with OneKey and Endless.
-- - js_math.c, js_values.c: the operators. Math/Values.antt has the values that are no
--   references, Math/Convert.antt `conv2Bool`, `conv2Int`, `conv2Dbl` and `conv`,
--   Math/Arith.antt `op_add` to `op_mod` and the bit operations, Math/Compare.antt `op_compare`
--   and `op_lt` to `op_gt`, Math/Dispatch.antt `eval_math` and `eval_neg` on the values of their
--   operands. Math/Order.antt and Math/Words.antt are about the comparisons and the quotients.
--   Math/Elements.antt has the elements of typed arrays, with Math/Stored.antt.
-- - js_values.c: the reference counts, in Counts.antt; Counts/Release.antt has `deleteValue` and
--   `replaceValue`, on a heap of cells by their addresses. Sums, Held and Steps have the lemmas of
--   Counts/Replaced.antt.
-- - js_eval.c, with `eval_assign`, `eval_opassign`, `eval_incr` and `eval_return`: statements and
--   expressions. Eval/Nodes.antt has the nodes, Eval/Env.antt the environment, Eval/Store.antt
--   the changes of variables, Eval/Dispatch.antt `dispatch` with the loops. Flag is about
--   all nodes, Loops, Jumps and Counting about `while`; Outcomes, Fuel, Changes, Results, Parsed
--   and Kept have the lemmas of these.
--
-- The parser makes nodes, the symbols of a program are entered in tables and looked up, and the
-- evaluator finds the variables by the slots. A symbol table keeps its entries in a property
-- table; here they are the association list of its pairs. Objects and documents both build on
-- vectors; a document that is marshaled has its tables read by the same `lookupValue` that reads
-- the objects of the interpreter. Tests.antt runs the theorems at concrete inputs.
--
-- Conventions. A uint32_t is a natural number, with its wrap-around written out where the code
-- adds, doubles or subtracts; an int64_t is an integer. Reads outside a block, `exit` and a loop
-- out of fuel are values of their own. Strings are lists of bytes, and `memcmp` and `memcpy` may
-- read the terminator behind the bytes, and no further. A symbol table and a node have numbers in
-- place of addresses. The conversions of arguments (`conv2Int`, `conv2Str`), which may call
-- methods of the program, stand before a method: an argument is what they return. `isspace`,
-- `toupper` and `tolower`, the allocator and `store64` are parameters. So are, for the evaluator,
-- the type double with its arithmetic, `js_strtod`, `conv2Str`, and the field ctl of the value of
-- `makeError`, which the code does not set. There an int64_t is its 64 bits.
--
-- Fuel. The probe of a hash table takes one round for each entry at most, and gets as many;
-- the walk of a document gets the rounds that its containers and elements need; a search gets
-- one round for each offset that is left; the keys of a document get one round for each field
-- and one more. A deletion gets one unit for each value that the cells hold, and one
-- more. An evaluation takes one unit for each call of a function of the evaluator. A theorem about
-- a result has no fuel as a condition, but for the walk, whose fuel is its rounds and any number
-- more.
--
-- Not modelled: the document store under database/, which is another repository; the grammar;
-- objects, closures, calls and exceptions in the evaluator; `strtod`, which is a copy of another
-- library's; dates; files and sockets.
mod Common
pub mod Vector
pub mod Props
pub mod Marshal
pub mod Strings
pub mod Json
pub mod Arrays
pub mod Nodes
pub mod Keys
pub mod Symbols
pub mod Counts
pub mod Math
pub mod Eval
mod Tests
