-- ===== src/Htable/Bits.antt =====
-- src/htable.c: the masks `hash & (size - 1)` and `size & (size - 1)`.
use libecoli.Base.{ℕ, zero, suc, ◌+◌, ◌-◌, ◌*◌, ◌/◌, ◌%◌, ◌≤◌, ◌<◌, ◌≡◌, refl, arith}

-- The bitwise and of the `w` lowest bits.
unfoldable pub band : ℕ → ℕ → ℕ → ℕ
band zero a b = 0
band (suc w) a b = (a % 2) * (b % 2) + 2 * band w (a / 2) (b / 2)

-- `hash & (size - 1)` for a hash of 32 bits. No reference stands in a table of size 0, where the
-- code's mask wraps around.
unfoldable pub index : ℕ → ℕ → ℕ
index hash size = band 32 hash (size - 1)

pub band-le : (w a b : ℕ) → band w a b ≤ b
unfolding band
band-le zero a b = omega arith
band-le (suc w) a b = ground (arith, band-le w (a / 2) (b / 2), bit-le (a % 2) (b % 2) (mod_lt a))
  where
    mod_lt : (n : ℕ) → n % 2 < 2
    mod_lt n = omega arith

    bit-le : (x y : ℕ) → x < 2 → x * y ≤ y
    bit-le zero y h = omega arith
    bit-le (suc zero) y h = omega arith
    bit-le (suc (suc x)) y h = omega arith

pub index-lt : (hash size : ℕ) → 0 < size → index hash size < size
unfolding index
index-lt hash size h = omega (arith, band-le 32 hash (size - 1))

-- A power of two, by the code's test: no bit is left of `size & (size - 1)`.
abbrev pub IsMaskable : ℕ → Type 0
IsMaskable size = (w : ℕ) → band w size (size - 1) ≡ 0

double : (n : ℕ) → 0 < n → IsMaskable n → IsMaskable (2 * n)
unfolding band
double n pos h zero = refl
double n pos h (suc w) = rw (even n, half n, half_pred n pos, h w) (clear ((2 * n - 1) % 2))
  where
    even : (k : ℕ) → (2 * k) % 2 ≡ 0
    even k = omega arith

    half : (k : ℕ) → (2 * k) / 2 ≡ k
    half k = omega arith

    half_pred : (k : ℕ) → 0 < k → (2 * k - 1) / 2 ≡ k - 1
    half_pred k lt = omega arith

    clear : (k : ℕ) → 0 * k + 2 * 0 ≡ 0
    clear k = omega arith

one : IsMaskable 1
unfolding band
one zero = refl
one (suc w) = ground (arith, band-le w 0 0)

-- The code's growth, a shift by FACTOR, while it does not overflow.
pub grow : (n m : ℕ) → 0 < n → m ≡ 8 * n → IsMaskable n → IsMaskable m
grow n m pos e h =
    rw (e, eight n)
      (double (2 * (2 * n)) (omega arith) (double (2 * n) (omega arith) (double n pos h)))
  where
    eight : (k : ℕ) → 8 * k ≡ 2 * (2 * (2 * k))
    eight k = omega arith

pub IsMaskable-8 : IsMaskable 8
IsMaskable-8 = grow 1 8 (omega arith) refl one
