-- ===== src/Eval/Env.antt =====
-- environment_t: the values of the top frame and of the block scope, and the flag lval. Slot 0 of the
-- frame is the value that is returned.
use javascript_database.Common.{ℕ, Bool, Option, none, some, ltb, ◌==◌, if◌then◌else◌}
use javascript_database.Math.Values.{Value, undef, Slot, frame, scope}

pub record Env (F : Type 0) : Type 0 where
  pub frame_values : ℕ → Value F
  pub scope_values : ℕ → Value F
  pub lval : Bool

-- What an evaluation comes to: a value, exit(1), something that C does not define, or no end within
-- the fuel.
pub data Outcome (F : Type 0) : Type 0 where
  gives : Value F → Env F → Outcome F
  exits stuck running : Outcome F

infixl 5 ◌>>=◌
abbrev pub ◌>>=◌ : {F : Type 0} → Outcome F → (Value F × Env F → Outcome F) → Outcome F
gives v env >>= f = f (v, env)
exits >>= f = exits
stuck >>= f = stuck
running >>= f = running

abbrev pub or_stuck : {F : Type 0} → Env F → Option (Value F) → Outcome F
or_stuck env none = stuck
or_stuck env (some v) = gives v env

abbrev pub read_slot : {F : Type 0} → Env F → Slot → Value F
read_slot env (frame idx) = env.frame_values idx
read_slot env (scope idx) = env.scope_values idx

abbrev pub put : {F : Type 0} → (ℕ → Value F) → ℕ → Value F → ℕ → Value F
put values idx v i = if i == idx then v else values i

-- `replaceValue` and `replaceSlot`, without the counts.
abbrev pub write_slot : {F : Type 0} → Slot → Value F → Env F → Env F
write_slot (frame idx) v env = record env { frame_values = put env.frame_values idx v }
write_slot (scope idx) v env = record env { scope_values = put env.scope_values idx v }

-- The block scope variables at the end of a block: the loop resets the first slots of the scope.
abbrev pub reset_scope : {F : Type 0} → ℕ → Env F → Env F
reset_scope cnt env = record env {
  scope_values = λ idx. if ltb idx cnt then undef else env.scope_values idx;
}
