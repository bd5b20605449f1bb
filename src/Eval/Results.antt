-- ===== src/Eval/Results.antt =====
-- The results of arithmetic are never the control values `break` and `return`.
use javascript_database.Common.{
  ℕ, Bool, true, false, not, ◌&&◌, ◌||◌, ltb, Option, none, some, ◌≡◌, refl, if◌then◌else◌, ◌==◌,
  ◌>>=◌,
}
use javascript_database.Math.Values.{
  Doubles, Value, undef, nan, bool, int, dbl, date, infinite, control, vt_number, type_of, nval_of,
  dbl_of,
}
use javascript_database.Math.Arith.{
  xor, is_zero, sign_of, traps, div_long, div_dbl, rem_long, rem_dbl, op_add, op_sub, op_mpy,
  op_div, op_mod, ArithOp, math_add, math_sub, math_mpy, math_div, math_mod, math_link, BitOp,
  math_and, math_or, math_xor, math_lshift, math_rshift, bit_link,
}
use javascript_database.Math.Dispatch.{
  Machine, MathOp, arith_op, bit_op, compare_op, NegOp, neg_uminus, neg_bitnot, neg_not,
  arith_values, bit_values, compare_values, math_values, uminus, neg_value, arith_left, arith_right,
  is_add, is_string, conv_nval, is_int,
}
use javascript_database.Eval.Nodes.{
  PlusMinus, pm_assign, pm_add, pm_sub, pm_mpy, pm_div, pm_mod, pm_and, pm_xor, pm_or, pm_lshift,
  pm_rshift,
}
use javascript_database.Eval.Store.{bit_assign, op_switch, is_pm_assign}
use javascript_database.Eval.Dispatch.{Leaves, goes_on, breaks, returns, leaves}

-- A value that leaves no loop.
abbrev pub IsPlain : {F : Type 0} → Value F → Type 0
IsPlain v = leaves v ≡ goes_on

-- A result that leaves no loop, if there is one.
pub data YieldsPlain {F : Type 0} : Option (Value F) → Type 0 where
  no_result : YieldsPlain none
  plain : {v : Value F} → IsPlain v → YieldsPlain (some v)

abbrev yields_plain : {F : Type 0} → Option (Value F) → Bool
yields_plain none = true
yields_plain (some v) = elim (leaves v) [ goes_on ↦ true | _ ↦ false ]

by_leaves : (l : Leaves) → elim l [ goes_on ↦ true | _ ↦ false ] ≡ true → l ≡ goes_on
by_leaves goes_on h = refl
by_leaves breaks h = cc
by_leaves returns h = cc

by_test : {F : Type 0} → (o : Option (Value F)) → yields_plain o ≡ true → YieldsPlain o
by_test none h = no_result
by_test (some v) h = plain (by_leaves (leaves v) h)

-- An option of what a computation on numbers gives.
option_plain :
    {F : Type 0} {A : Type 0}
    → (f : A → Option (Value F)) (o : Option A) → ((a : A) → YieldsPlain (f a))
    → YieldsPlain (elim o [ none ↦ none | some a ↦ f a ])
option_plain f none h = no_result
option_plain f (some a) h = h a

bind_plain :
    {F : Type 0} {A : Type 0}
    → (o : Option A) (f : A → Option (Value F)) → ((a : A) → YieldsPlain (f a))
    → YieldsPlain (o >>= f)
bind_plain none f h = no_result
bind_plain (some a) f h = h a

pub choice_plain :
    {F : Type 0} → (b : Bool) (v w : Value F) → IsPlain v → IsPlain w → IsPlain (if b then v else w)
choice_plain true v w h k = h
choice_plain false v w h k = k

module _ {F : Type 0} (doubles : Doubles F) where
  if_plain :
      (b : Bool) {o p : Option (Value F)}
      → YieldsPlain o
      → YieldsPlain p
      → YieldsPlain (if b then o else p)
  if_plain true h k = h
  if_plain false h k = k

  nan_or_plain : (b c : Bool) → YieldsPlain {F = F} (some (if b then nan else infinite c))
  nan_or_plain true c = plain refl
  nan_or_plain false c = plain refl

  op_add_plain : (left right : Value F) → YieldsPlain (op_add doubles left right)
  unfolding op_add
  op_add_plain (infinite l) (infinite r) = nan_or_plain (xor r l) r
  op_add_plain left (infinite r) = plain refl
  op_add_plain (date n) right = by_test _ refl
  op_add_plain (int n) right = by_test _ refl
  op_add_plain (dbl f) right = by_test _ refl
  op_add_plain (infinite l) right = plain refl
  op_add_plain left right = plain refl

  op_sub_plain : (left right : Value F) → YieldsPlain (op_sub doubles left right)
  unfolding op_sub
  op_sub_plain (infinite l) (infinite r) = nan_or_plain (xor (not r) l) r
  op_sub_plain left (infinite r) = plain refl
  op_sub_plain (date n) (date m) = plain refl
  op_sub_plain (date n) right = by_test _ refl
  op_sub_plain (int n) right = by_test _ refl
  op_sub_plain (dbl f) right = by_test _ refl
  op_sub_plain (infinite l) right = plain refl
  op_sub_plain left right = plain refl

  op_mpy_plain : (left right : Value F) → YieldsPlain (op_mpy doubles left right)
  unfolding op_mpy
  op_mpy_plain left (infinite r) =
      nan_or_plain (is_zero doubles left) (xor r (sign_of doubles left))
  op_mpy_plain (int n) right = by_test _ refl
  op_mpy_plain (dbl f) right = by_test _ refl
  op_mpy_plain (infinite l) right = nan_or_plain (is_zero doubles right) (xor l l)
  op_mpy_plain left right = plain refl

  div_long_plain : (n m : ℕ) → YieldsPlain (div_long doubles n m)
  div_long_plain n m =
      if_plain (not (m == 0)) (if_plain (traps n m) no_result (plain refl))
        (if_plain (not (n == 0)) (plain refl) (plain refl))

  div_dbl_plain : (f g : F) → IsPlain (div_dbl doubles f g)
  div_dbl_plain f g =
      choice_plain (not (doubles.eq g doubles.zero)) _ _ refl
        (choice_plain (not (doubles.eq f doubles.zero)) _ _ refl refl)

  op_div_plain : (left right : Value F) → YieldsPlain (op_div doubles left right)
  unfolding op_div
  op_div_plain (infinite l) (infinite r) = plain refl
  op_div_plain left (infinite r) = plain refl
  op_div_plain (int n) right =
      option_plain (div_long doubles n) (nval_of doubles right) (div_long_plain n)
  op_div_plain (dbl f) right =
      option_plain (λ g. some (div_dbl doubles f g)) (dbl_of doubles right)
        λ g. plain (div_dbl_plain f g)
  op_div_plain (infinite l) right = plain refl
  op_div_plain left right = plain refl

  rem_long_plain : (n m : ℕ) → YieldsPlain (rem_long doubles n m)
  rem_long_plain n m = if_plain (m == 0) (plain refl) (if_plain (traps n m) no_result (plain refl))

  rem_dbl_plain : (f g : F) → YieldsPlain (rem_dbl doubles f g)
  rem_dbl_plain f g = if_plain (doubles.eq g doubles.zero) (plain refl) (
      if_plain (doubles.to_int g == 0) no_result (
        if_plain (traps (doubles.to_int f) (doubles.to_int g)) no_result (
          if_plain (doubles.eq (doubles.sub f (doubles.floor f)) doubles.zero) (plain refl)
            (plain refl))))

  op_mod_plain : (left right : Value F) → YieldsPlain (op_mod doubles left right)
  unfolding op_mod
  op_mod_plain (int n) right =
      option_plain (rem_long doubles n) (nval_of doubles right) (rem_long_plain n)
  op_mod_plain (dbl f) right =
      option_plain (rem_dbl doubles f) (dbl_of doubles right) (rem_dbl_plain f)
  op_mod_plain left right = plain refl

  math_link_plain :
      (op : ArithOp) (left right : Value F) → YieldsPlain (math_link doubles op left right)
  math_link_plain math_add left right = op_add_plain left right
  math_link_plain math_sub left right = op_sub_plain left right
  math_link_plain math_mpy left right = op_mpy_plain left right
  math_link_plain math_div left right = op_div_plain left right
  math_link_plain math_mod left right = op_mod_plain left right

module _ {F : Type 0} (m : Machine F) where
  arith_values_plain :
      (op : ArithOp) (left right : Value F) → YieldsPlain (arith_values m op left right)
  unfolding arith_values
  arith_values_plain op left right =
      let right' = arith_right m left right in
      let left' = arith_left m left right' in
      if_plain m.doubles (is_add op && (is_string left || is_string right)) (plain refl) (
        if_plain m.doubles (ltb vt_number (type_of left') || ltb vt_number (type_of right'))
          (plain refl) (math_link_plain m.doubles op left' right'))

  bit_values_plain : (op : BitOp) (left right : Value F) → YieldsPlain (bit_values m op left right)
  unfolding bit_values
  bit_values_plain op left right =
      bind_plain (if is_int m right then nval_of m.doubles right else conv_nval m right) _ λ k.
        bind_plain
          (if is_int m right && not (is_int m left)
            then conv_nval m left
            else nval_of m.doubles left)
          _ λ n. bind_plain (bit_link op n k) _ λ result. plain {v = int result} refl

  pub math_values_plain :
      (op : MathOp) (left right : Value F) → YieldsPlain (math_values m op left right)
  unfolding math_values compare_values
  math_values_plain (arith_op op) left right = arith_values_plain op left right
  math_values_plain (bit_op op) left right = bit_values_plain op left right
  math_values_plain (compare_op op) left right = bind_plain _ _ λ b. plain refl

  uminus_plain : IsPlain {F = F} (control m.stray) → (v : Value F) → IsPlain (uminus m v)
  uminus_plain h (dbl f) = refl
  uminus_plain h (int n) = refl
  uminus_plain h (bool b) = refl
  uminus_plain h undef = refl
  uminus_plain h (infinite negative) = refl
  uminus_plain h nan = refl
  uminus_plain h _ = h

  pub neg_value_plain :
      (op : NegOp) (v : Value F)
      → IsPlain {F = F} (control m.stray)
      → YieldsPlain (neg_value m op v)
  unfolding neg_value
  neg_value_plain neg_uminus v h = plain (uminus_plain h v)
  neg_value_plain neg_bitnot v h = bind_plain (conv_nval m v) _ λ n. plain refl
  neg_value_plain neg_not v h = plain refl

  bit_assign_plain : (op : BitOp) (val right : Value F) → YieldsPlain (bit_assign m op val right)
  bit_assign_plain op val right =
      option_plain
        (λ n. elim (conv_nval m right) [
          | none ↦ none
          | some k ↦ elim (bit_link op n k) [ none ↦ none | some result ↦ some (int result) ]
        ])
        (conv_nval m val)
        λ n.
          option_plain
            (λ k. elim (bit_link op n k) [ none ↦ none | some result ↦ some (int result) ])
            (conv_nval m right)
            λ k. option_plain (λ result. some (int result)) (bit_link op n k) λ result. plain refl

  pub op_switch_plain :
      (op : PlusMinus) (val right : Value F)
      → is_pm_assign m op ≡ false
      → YieldsPlain (op_switch m op val right)
  unfolding op_switch
  op_switch_plain pm_assign val right h = cc
  op_switch_plain pm_add val right h = op_add_plain m.doubles val right
  op_switch_plain pm_sub val right h = op_sub_plain m.doubles val right
  op_switch_plain pm_mpy val right h = op_mpy_plain m.doubles val right
  op_switch_plain pm_div val right h = op_div_plain m.doubles val right
  op_switch_plain pm_mod val right h = op_mod_plain m.doubles val right
  op_switch_plain pm_and val right h = bit_assign_plain math_and val right
  op_switch_plain pm_xor val right h = bit_assign_plain math_xor val right
  op_switch_plain pm_or val right h = bit_assign_plain math_or val right
  op_switch_plain pm_lshift val right h = bit_assign_plain math_lshift val right
  op_switch_plain pm_rshift val right h = bit_assign_plain math_rshift val right
