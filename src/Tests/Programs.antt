-- ===== src/Tests/Programs.antt =====
-- Programs for the evaluator.
use javascript_database.Common.{ℕ, ◌≡◌, ◌↔◌, refl, true, false, arith, ◌==◌}
use javascript_database.Math.Values.{Value, undef, int, ctl_none}
use javascript_database.Math.Arith.{op_add}
use javascript_database.Math.Compare.{math_lt, op_lt}
use javascript_database.Math.Dispatch.{
  compare_op, math_values, arith_values, compare_values, arith_right, arith_left,
}
use javascript_database.Eval.Nodes.{
  Node, first, num, var, assign, incr, math, while, list, last, item, return, incr_after,
}
use javascript_database.Eval.Env.{Env, Outcome, gives, put}
use javascript_database.Eval.Dispatch.{dispatch, eval_var}
use javascript_database.Eval.Store.{op_store, incr_store}
use javascript_database.Eval.Results.{IsPlain, choice_plain}
use javascript_database.Math.Convert.{conv, conv2_bool}
use javascript_database.Eval.Flag.{dispatch-flag}
use javascript_database.Eval.Loops.{Evaluates, by_fuel, Rounds, eval_while-Rounds}
use javascript_database.Eval.Parsed.{IsParsed, clean}
use javascript_database.Eval.Jumps.{CondFails, eval_while-IsParsed}
use javascript_database.Eval.Counting.{below, add_one, eval_while-counts}
use javascript_database.Tests.Numbers.{machine}

abbrev start : Env ℕ
start = record { frame_values = λ i. undef; scope_values = λ i. undef; lval = false }

-- x = 1
abbrev set_one : Node ℕ
set_one = assign (var 1 false true) (num (int 1))

-- while (x < 2) { x++; break }
abbrev cond : Node ℕ
cond = math (compare_op math_lt) (var 1 false false) (num (int 2))

abbrev body : Node ℕ
body = list (item (incr incr_after (var 1 false true)) (last (return ctl_none first)))

abbrev x_is : ℕ → Env ℕ
x_is n = record start { frame_values = put start.frame_values 1 (int n) }

abbrev env_of : Outcome ℕ → Env ℕ
env_of (gives v env) = env
env_of _ = start

-- What the programs below compute with.
programs : Unit {0}
unfolding dispatch IsParsed math_values arith_values compare_values op_add op_lt eval_var incr_store
    op_store arith_right arith_left conv conv2_bool
programs = tt

ended : Env ℕ
unfolding programs
ended = env_of (dispatch machine 12 (while cond body) (x_is 0))

-- The loop takes two rounds, although there is a `break` in it.
loop_ends :
    (dispatch machine 12 (while cond body) (x_is 0) ≡ gives undef ended)
    × (ended.frame_values 1 ≡ int 2)
unfolding programs ended
loop_ends = (refl, refl)

dispatch-flag_example : ended.lval ≡ false
dispatch-flag_example = dispatch-flag machine 12 (while cond body) (x_is 0) ended undef loop_ends.0

eval_while-Rounds_example :
    Evaluates machine (while cond body) (x_is 0) undef ended
    ↔ Rounds machine cond body (x_is 0) undef ended
eval_while-Rounds_example = eval_while-Rounds machine cond body (x_is 0) ended undef refl

loop_IsParsed : IsParsed cond × IsParsed body
unfolding programs
loop_IsParsed = ((tt, refl), (tt, (refl, tt)))

x_plain : (n i : ℕ) → IsPlain ((x_is n).frame_values i)
x_plain n i = choice_plain (i == 1) (int n) undef refl refl

abbrev no_value : Value ℕ
no_value = undef

eval_while-IsParsed_example : (no_value ≡ undef) × CondFails machine refl cond ended
eval_while-IsParsed_example =
    eval_while-IsParsed machine refl cond body (x_is 0) ended undef loop_IsParsed.0 loop_IsParsed.1
      refl (clean (x_plain 0) (λ i. refl)) (by_fuel 12 loop_ends.0)

eval_while-counts_example :
    (env' : Env ℕ) × Evaluates machine
      (while (below machine 2 (omega arith)) (add_one machine 2 (omega arith)))
      (x_is 0)
      undef
      env'
    × (env'.frame_values 1 ≡ int 2)
eval_while-counts_example =
    eval_while-counts machine 2 (omega arith) 0 (x_is 0) (omega arith) refl refl
