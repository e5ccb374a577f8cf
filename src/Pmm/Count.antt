-- ===== src/Pmm/Count.antt =====
-- How many pages of a set lie below a bound.
use cnos.Prelude.{
  ℕ, zero, suc, ◌+◌, ◌≤◌, ◌<◌, ◌≡◌, ap, inl, inr, Bool, true, false, arith, ◌==◌, if◌then◌else◌,
  Bool-cases,
}

unfoldable pub count : (ℕ → Bool) → ℕ → ℕ
count f zero = 0
count f (suc n) = (if f n then 1 else 0) + count f n

pub count-eq : (f g : ℕ → Bool) (n : ℕ) → ((j : ℕ) → j < n → f j ≡ g j) → count f n ≡ count g n
unfolding count
count-eq f g zero h = omega arith
count-eq f g (suc n) h =
    ground (arith, h n (omega arith), count-eq f g n (λ j p. h j (omega arith)))

-- One page more is in the set.
pub count_add :
    (f g : ℕ → Bool) (i n : ℕ)
    → f i ≡ false
    → ((j : ℕ) → g j ≡ (if i == j then true else f j))
    → i < n
    → count g n ≡ count f n + 1
unfolding count
count_add f g i zero hi h lt = absurd (omega arith)
count_add f g i (suc n) hi h lt = elim (Bool-cases (i == n)) [
  | inl e ↦
      let below : count f n ≡ count g n = count-eq f g n (λ j p. ground (arith, h j)) in
      ground (arith, h n, ap f {x = i} {y = n}, below)
  | inr e ↦ ground (arith, h n, count_add f g i n hi h)
]

-- One page less.
pub count_drop :
    (f g : ℕ → Bool) (i n : ℕ)
    → f i ≡ true
    → ((j : ℕ) → g j ≡ (if i == j then false else f j))
    → i < n
    → count g n + 1 ≡ count f n
unfolding count
count_drop f g i zero hi h lt = absurd (omega arith)
count_drop f g i (suc n) hi h lt = elim (Bool-cases (i == n)) [
  | inl e ↦
      let below : count f n ≡ count g n = count-eq f g n (λ j p. ground (arith, h j)) in
      ground (arith, h n, ap f {x = i} {y = n}, below)
  | inr e ↦ ground (arith, h n, count_drop f g i n hi h)
]

pub count-le : (f : ℕ → Bool) (n : ℕ) → count f n ≤ n
unfolding count
count-le f zero = omega arith
count-le f (suc n) = ground (arith, count-le f n)

-- The count is full exactly when every page below the bound is in the set.
pub count_full : (f : ℕ → Bool) (n j : ℕ) → count f n ≡ n → j < n → f j ≡ true
unfolding count
count_full f zero j e lt = absurd (omega arith)
count_full f (suc n) j e lt = ground (arith, count-le f n, count_full f n j, ap f {x = j} {y = n})

pub count_all : (f : ℕ → Bool) (n : ℕ) → ((j : ℕ) → j < n → f j ≡ true) → count f n ≡ n
unfolding count
count_all f zero h = omega arith
count_all f (suc n) h = ground (arith, h n (omega arith), count_all f n (λ j p. h j (omega arith)))
