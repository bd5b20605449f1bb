-- ===== src/Eval/Outcomes.antt =====
-- Relations on the outcomes of evaluation, and how the sequence of two evaluations carries them.
use javascript_database.Common.{
  ℕ, zero, suc, ◌+◌, ◌-◌, ◌≤◌, arith, ◌∙◌, Bool, true, false, not, Option, none, some, ◌≡◌, ◌≢◌,
  refl, subst, if◌then◌else◌,
}
use javascript_database.Math.Values.{Value}
use javascript_database.Eval.Env.{Env, Outcome, gives, exits, stuck, running, ◌>>=◌, or_stuck}
use javascript_database.Eval.Dispatch.{Leaves, goes_on, breaks, returns}

-- The second outcome is the first one, unless that ran out of fuel.
infix 4 ◌≼◌
pub data ◌≼◌ {F : Type 0} : Outcome F → Outcome F → Type 0 where
  same : {o : Outcome F} → o ≼ o
  ran_out : {o : Outcome F} → running ≼ o

-- `P` holds of what is given.
pub data Gives {F : Type 0} (P : Value F → Env F → Type 0) : Outcome F → Type 0 where
  gave : {v : Value F} {env : Env F} → P v env → Gives P (gives v env)
  exited : Gives P exits
  got_stuck : Gives P stuck
  timeout : Gives P running

-- The fuel was enough.
pub data IsDone {F : Type 0} : Outcome F → Type 0 where
  gives_value : {v : Value F} {env : Env F} → IsDone (gives v env)
  does_exit : IsDone exits
  is_undefined : IsDone stuck

module _ {F : Type 0} where
  pub bind_grows :
      {o o' : Outcome F} (f g : Value F × Env F → Outcome F)
      → o ≼ o'
      → ((v : Value F) (env : Env F) → f (v, env) ≼ g (v, env))
      → o >>= f ≼ o' >>= g
  bind_grows {o = gives v env} f g same h = h v env
  bind_grows {o = exits} f g same h = same
  bind_grows {o = stuck} f g same h = same
  bind_grows {o = running} f g same h = same
  bind_grows f g ran_out h = ran_out

  pub if_grows :
      (b : Bool) {o o' p p' : Outcome F}
      → o ≼ o'
      → p ≼ p'
      → (if b then o else p) ≼ (if b then o' else p')
  if_grows true h k = h
  if_grows false h k = k

  pub leaves_grows :
      (l : Leaves) {o o' : Outcome F} (p q : Outcome F)
      → o ≼ o'
      → elim l [ goes_on ↦ o | breaks ↦ p | returns ↦ q ]
        ≼ elim l [ goes_on ↦ o' | breaks ↦ p | returns ↦ q ]
  leaves_grows goes_on p q h = h
  leaves_grows breaks p q h = same
  leaves_grows returns p q h = same

  pub trans_grows : {o p q : Outcome F} → o ≼ p → p ≼ q → o ≼ q
  trans_grows same h = h
  trans_grows ran_out h = ran_out

  pub done_grows : {o o' : Outcome F} → o ≼ o' → o ≢ running → o' ≡ o
  done_grows same h = refl
  done_grows ran_out h = absurd (h refl)

  -- An evaluation by fuel that grows with it.
  module _ (g : ℕ → Outcome F) (step : (k : ℕ) → g k ≼ g (suc k)) where
    more_grows : (d k : ℕ) → g k ≼ g (d + k)
    more_grows zero k = subst (λ x. g k ≼ g x) (omega arith) same
    more_grows (suc d) k =
        subst (λ x. g k ≼ g x) (omega arith) (trans_grows (more_grows d k) (step (d + k)))

    pub more_fuel : (k k' : ℕ) → k ≤ k' → g k ≢ running → g k' ≡ g k
    more_fuel k k' h done =
        done_grows (subst (λ x. g k ≼ g x) (omega arith) (more_grows (k' - k) k)) done

    pub more_fuel_gives :
        (k k' : ℕ) {v : Value F} {env : Env F} → k ≤ k' → g k ≡ gives v env → g k' ≡ gives v env
    more_fuel_gives k k' h p = more_fuel k k' h (λ q. cc) ∙ p

  pub bind-Gives :
      {P Q : Value F → Env F → Type 0} {o : Outcome F} (f : Value F × Env F → Outcome F)
      → Gives P o
      → ((v : Value F) (env : Env F) → P v env → Gives Q (f (v, env)))
      → Gives Q (o >>= f)
  bind-Gives f (gave {v} {env} p) h = h v env p
  bind-Gives f exited h = exited
  bind-Gives f got_stuck h = got_stuck
  bind-Gives f timeout h = timeout

  pub if_Gives :
      {P : Value F → Env F → Type 0} (b : Bool) {o p : Outcome F}
      → Gives P o
      → Gives P p
      → Gives P (if b then o else p)
  if_Gives true h k = h
  if_Gives false h k = k

  pub or_stuck-Gives :
      {P : Value F → Env F → Type 0} (env : Env F) (v : Option (Value F))
      → ((w : Value F) → P w env)
      → Gives P (or_stuck env v)
  or_stuck-Gives env none h = got_stuck
  or_stuck-Gives env (some v) h = gave (h v)

  pub bind-IsDone :
      {o : Outcome F} (f : Value F × Env F → Outcome F)
      → IsDone o
      → ((v : Value F) (env : Env F) → IsDone (f (v, env)))
      → IsDone (o >>= f)
  bind-IsDone f (gives_value {v} {env}) h = h v env
  bind-IsDone f does_exit h = does_exit
  bind-IsDone f is_undefined h = is_undefined

  pub if_IsDone : (b : Bool) {o p : Outcome F} → IsDone o → IsDone p → IsDone (if b then o else p)
  if_IsDone true h k = h
  if_IsDone false h k = k

  pub or_stuck-IsDone : (env : Env F) (v : Option (Value F)) → IsDone (or_stuck env v)
  or_stuck-IsDone env none = is_undefined
  or_stuck-IsDone env (some v) = gives_value

  pub leaves-Gives :
      {P : Value F → Env F → Type 0} (l : Leaves) {o p q : Outcome F}
      → Gives P o
      → Gives P p
      → Gives P q
      → Gives P (elim l [ goes_on ↦ o | breaks ↦ p | returns ↦ q ])
  leaves-Gives goes_on h h1 h2 = h
  leaves-Gives breaks h h1 h2 = h1
  leaves-Gives returns h h1 h2 = h2

  pub gives_holds :
      {P : Value F → Env F → Type 0} {o : Outcome F} {v : Value F} {env : Env F}
      → Gives P o
      → o ≡ gives v env
      → P v env
  gives_holds {P} {o} {v} {env} h p = by_gives (subst (Gives P) p h)
    where
      by_gives : Gives P (gives v env) → P v env
      by_gives (gave h) = h

  -- The same, with what the test has come to.
  pub test-Gives :
      {P : Value F → Env F → Type 0} (b : Bool) {o p : Outcome F}
      → (b ≡ false → Gives P o)
      → (b ≡ true → Gives P p)
      → Gives P (if not b then o else p)
  test-Gives true h k = k refl
  test-Gives false h k = h refl

  pub case-Gives :
      {P : Value F → Env F → Type 0} (b : Bool) {o p : Outcome F}
      → (b ≡ true → Gives P o)
      → (b ≡ false → Gives P p)
      → Gives P (if b then o else p)
  case-Gives true h k = h refl
  case-Gives false h k = k refl

  pub round-Gives :
      {P : Value F → Env F → Type 0} (l : Leaves) {o p q : Outcome F}
      → (l ≡ goes_on → Gives P o)
      → (l ≡ breaks → Gives P p)
      → (l ≡ returns → Gives P q)
      → Gives P (elim l [ goes_on ↦ o | breaks ↦ p | returns ↦ q ])
  round-Gives goes_on h h1 h2 = h refl
  round-Gives breaks h h1 h2 = h1 refl
  round-Gives returns h h1 h2 = h2 refl

  pub map-Gives :
      {P Q : Value F → Env F → Type 0} {o : Outcome F}
      → Gives P o
      → ((v : Value F) (env : Env F) → P v env → Q v env)
      → Gives Q o
  map-Gives (gave {v} {env} p) h = gave (h v env p)
  map-Gives exited h = exited
  map-Gives got_stuck h = got_stuck
  map-Gives timeout h = timeout

  pub done_ends : {o : Outcome F} → IsDone o → o ≢ running
  done_ends gives_value p = cc
  done_ends does_exit p = cc
  done_ends is_undefined p = cc
