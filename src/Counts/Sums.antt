-- ===== src/Counts/Sums.antt =====
-- Sums over the calls that a heap holds: the calls that are to be made, and those in its cells.
use javascript_database.Common.{
  ℕ, zero, suc, ◌+◌, ◌≡◌, ap, List, [], ◌∷◌, ◌++◌, some, get_elem?, set, length, arith,
}
use mathlib.Core.Option.{some-injective}
use javascript_database.Counts.{Reference}
use javascript_database.Counts.Release.{Cell, freed, Task, drop, drops, contents, calls}

module _ (f : Task → ℕ) where
  unfoldable pub sum : List Task → ℕ
  sum [] = 0
  sum (task ∷ tasks) = f task + sum tasks

  unfoldable pub sum_cells : List Cell → ℕ
  unfolding sum contents
  sum_cells [] = 0
  sum_cells (cell ∷ cells) = sum (contents cell) + sum_cells cells

  pub sum-append : (ts us : List Task) → sum (ts ++ us) ≡ sum ts + sum us
  unfolding sum
  sum-append [] us = omega arith
  sum-append (t ∷ ts) us = omega (arith, sum-append ts us)

  pub sum_cells-free :
      (cells : List Cell) (i : ℕ) (cell : Cell)
      → get_elem? cells i ≡ some cell
      → sum_cells (set cells i freed) + sum (contents cell) ≡ sum_cells cells
  unfolding sum_cells
  sum_cells-free [] i cell h = absurd (ground (arith, h))
  sum_cells-free (c ∷ cells) zero cell h =
      let e = ap (λ c. sum (contents c)) (some-injective _ _ h) in omega (arith, e)
  sum_cells-free (c ∷ cells) (suc i) cell h = omega (arith, sum_cells-free cells i cell h)

  pub sum-set :
      (vals : List Reference) (i : ℕ) (old value : Reference)
      → get_elem? vals i ≡ some old
      → sum (drops (set vals i value)) + f (drop old) ≡ sum (drops vals) + f (drop value)
  unfolding sum
  sum-set [] i old value h = absurd (ground (arith, h))
  sum-set (v ∷ vals) zero old value h =
      let e = ap (λ v. f (drop v)) (some-injective _ _ h) in omega (arith, e)
  sum-set (v ∷ vals) (suc i) old value h = omega (arith, sum-set vals i old value h)

pub calls-free :
    (cells : List Cell) (i : ℕ) (cell : Cell)
    → get_elem? cells i ≡ some cell
    → calls (set cells i freed) + length (contents cell) ≡ calls cells
unfolding calls
calls-free [] i cell h = absurd (ground (arith, h))
calls-free (c ∷ cells) zero cell h =
    let e = ap (λ c. length (contents c)) (some-injective _ _ h) in omega (arith, e)
calls-free (c ∷ cells) (suc i) cell h = omega (arith, calls-free cells i cell h)
