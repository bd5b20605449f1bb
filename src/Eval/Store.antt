-- ===== src/Eval/Store.antt =====
-- The last steps of `eval_opassign` and `eval_incr`, when the operands are known.
use javascript_database.Common.{
  ℕ, ◌+◌, ◌-◌, ◌%◌, Bool, true, false, ◌&&◌, ◌||◌, Option, none, some, ◌++◌, ltb, if◌then◌else◌,
}
use javascript_database.Math.Values.{
  long_mod, Value, nan, int, dbl, string, vt_number, type_of, Slot,
}
use javascript_database.Math.Convert.{conv2_int}
use javascript_database.Math.Arith.{
  op_add, op_sub, op_mpy, op_div, op_mod, BitOp, math_and, math_or, math_xor, math_lshift,
  math_rshift, bit_link,
}
use javascript_database.Math.Dispatch.{
  Machine, is_string, arith_right, arith_left, string_of, conv_nval,
}
use javascript_database.Eval.Nodes.{
  PlusMinus, pm_assign, pm_add, pm_sub, pm_mpy, pm_div, pm_mod, pm_and, pm_xor, pm_or, pm_lshift,
  pm_rshift, IncrDecr, incr_before, incr_after, decr_before,
}
use javascript_database.Eval.Env.{Env, Outcome, gives, stuck, read_slot, write_slot}

module _ {F : Type 0} (m : Machine F) where
  -- The operands of a bit operation have been converted to integers before.
  abbrev pub bit_assign : BitOp → Value F → Value F → Option (Value F)
  bit_assign op val right = elim (conv_nval m val) [
    | none ↦ none
    | some n ↦ elim (conv_nval m right) [
      | none ↦ none
      | some k ↦ elim (bit_link op n k) [ none ↦ none | some result ↦ some (int result) ]
    ]
  ]

  -- The switch, on operands of one type.
  unfoldable pub op_switch : PlusMinus → Value F → Value F → Option (Value F)
  unfolding op_add op_sub op_mpy op_div op_mod conv_nval bit_link
  op_switch pm_assign val right = some right
  op_switch pm_add val right = op_add m.doubles val right
  op_switch pm_sub val right = op_sub m.doubles val right
  op_switch pm_mpy val right = op_mpy m.doubles val right
  op_switch pm_div val right = op_div m.doubles val right
  op_switch pm_mod val right = op_mod m.doubles val right
  op_switch pm_and val right = bit_assign math_and val right
  op_switch pm_xor val right = bit_assign math_xor val right
  op_switch pm_or val right = bit_assign math_or val right
  op_switch pm_lshift val right = bit_assign math_lshift val right
  op_switch pm_rshift val right = bit_assign math_rshift val right

  -- aux > pm_math
  abbrev pub is_bit : PlusMinus → Bool
  is_bit pm_and = true
  is_bit pm_xor = true
  is_bit pm_or = true
  is_bit pm_lshift = true
  is_bit pm_rshift = true
  is_bit _ = false

  abbrev pub is_pm_add : PlusMinus → Bool
  is_pm_add pm_add = true
  is_pm_add _ = false

  abbrev pub is_pm_assign : PlusMinus → Bool
  is_pm_assign pm_assign = true
  is_pm_assign _ = false

  abbrev pub to_int : PlusMinus → Value F → Value F
  to_int op val = if is_bit op then conv2_int m.doubles m.strtod val else val

  abbrev pub store : Slot → Env F → Option (Value F) → Outcome F
  store slot env none = stuck
  store slot env (some v) = gives v (write_slot slot v env)

  -- `val` is the value of the slot. Where an operand is no number the slot keeps its value.
  unfoldable pub op_store : PlusMinus → Slot → Value F → Value F → Env F → Outcome F
  unfolding op_switch arith_right arith_left
  op_store op slot val right env =
      if is_pm_assign op
      then store slot env (some right)
      else if is_pm_add op && (is_string val || is_string right)
      then store slot env (some (string (string_of m val ++ string_of m right)))
      else if ltb vt_number (type_of val) || ltb vt_number (type_of right)
      then gives nan env
      else (let right1 = to_int op right in
          let val1 = to_int op val in
          let right2 = arith_right m val1 right1 in
          let val2 = arith_left m val1 right2 in store slot env (op_switch op val2 right2))

  abbrev pub step_long : Bool → ℕ → ℕ
  step_long up n = if up then (n + 1) % long_mod else (n + (long_mod - 1)) % long_mod

  abbrev pub step_dbl : Bool → F → F
  step_dbl true f = m.doubles.add f (m.doubles.of_int 1)
  step_dbl false f = m.doubles.sub f (m.doubles.of_int 1)

  -- Up or down, and whether the new value is given.
  abbrev pub is_up : IncrDecr → Bool
  is_up incr_before = true
  is_up incr_after = true
  is_up _ = false

  abbrev pub is_before : IncrDecr → Bool
  is_before incr_before = true
  is_before decr_before = true
  is_before _ = false

  -- The switch on the type of the value of the slot.
  abbrev pub step_value : IncrDecr → Slot → Env F → Value F → Outcome F
  step_value op slot env (int n) =
      let next = step_long (is_up op) n in
      gives (int (if is_before op then next else n)) (write_slot slot (int next) env)
  step_value op slot env (dbl f) =
      let next = step_dbl (is_up op) f in
      gives (dbl (if is_before op then next else f)) (write_slot slot (dbl next) env)
  step_value op slot env _ = gives nan env

  unfoldable pub incr_store : IncrDecr → Slot → Env F → Outcome F
  incr_store op slot env = step_value op slot env (read_slot env slot)
