-- ===== src/Eval.antt =====
-- js_eval.c, with `eval_assign` of js_values.c, `eval_opassign` and `eval_incr` of js_math.c and
-- `eval_return` of js_fcns.c: the evaluation of the nodes that make no objects and call no functions.
-- `Nodes` has the nodes, `Env` the environment, `Store` the changes of variables, `Dispatch` the
-- evaluation. `Outcomes`, `Changes`, `Results`, `Parsed` and `Kept` have the lemmas of the others,
-- which are about all nodes, or about `while` (`Loops`, `Jumps` and `Counting`).
pub mod Nodes
pub mod Env
pub mod Store
pub mod Dispatch
pub mod Outcomes
pub mod Fuel
pub mod Changes
pub mod Flag
pub mod Loops
pub mod Results
pub mod Parsed
pub mod Kept
pub mod Jumps
pub mod Counting
