-- ===== src/Graph/Sums.antt =====
-- Sums over the nodes below a bound.
use libecoli.Base.{
  ℕ, zero, suc, ◌+◌, ◌≤◌, ◌<◌, ◌≡◌, ◌==◌, refl, sym, arith, Bool-cases, inl, inr, false, ==_iff,
}

unfoldable pub sum : ℕ → (ℕ → ℕ) → ℕ
sum zero f = 0
sum (suc n) f = f n + sum n f

pub sum-same : (n : ℕ) (f h : ℕ → ℕ) → ((i : ℕ) → i < n → f i ≡ h i) → sum n f ≡ sum n h
unfolding sum
sum-same zero f h same = refl
sum-same (suc n) f h same =
    omega (arith, same n (omega arith), sum-same n f h (λ i lt. same i (omega (arith, lt))))

pub sum-le : (n : ℕ) (f h : ℕ → ℕ) → ((i : ℕ) → f i ≤ h i) → sum n f ≤ sum n h
unfolding sum
sum-le zero f h le = omega arith
sum-le (suc n) f h le = omega (arith, le n, sum-le n f h le)

-- Two functions that differ at one place at most.
pub sum-change :
    (n k : ℕ) (f h : ℕ → ℕ)
    → k < n
    → ((i : ℕ) → (i ≡ k → ⊥) → f i ≡ h i)
    → sum n f + h k ≡ sum n h + f k
unfolding sum
sum-change zero k f h lt same = omega (arith, lt)
sum-change (suc n) k f h lt same = elim (Bool-cases (n == k)) [
  | inl e ↦ top ((==_iff n k).0 e)
  | inr e ↦ omega (arith, same n (λ x. other e x), sum-change n k f h (below e) same)
]
  where
    other : (n == k) ≡ false → n ≡ k → ⊥
    other e x = ground (arith, e, x)

    below : (n == k) ≡ false → k < n
    below e = ground (arith, e, lt)

    top : n ≡ k → f n + sum n f + h k ≡ h n + sum n h + f k
    top e =
        let same' = sum-same n f h (λ i lt'. same i (λ x. omega (arith, lt', x, e))) in
        rw (sym e) (omega (arith, same'))

pub sum-bound : (n : ℕ) (f : ℕ → ℕ) → ((i : ℕ) → f i ≤ 1) → sum n f ≤ n
unfolding sum
sum-bound zero f le = omega arith
sum-bound (suc n) f le = omega (arith, le n, sum-bound n f le)

pub sum-zero : (n : ℕ) (f : ℕ → ℕ) → ((i : ℕ) → f i ≡ 0) → sum n f ≡ 0
unfolding sum
sum-zero zero f none_left = refl
sum-zero (suc n) f none_left = omega (arith, none_left n, sum-zero n f none_left)
