-- ===== src/Prelude/Powers.antt =====
-- Powers of ten, by which decimals change their scale.
use Prim.Native.Nat.{ℕ, suc, ◌+◌, ◌*◌, ◌^◌, ◌<◌}
use mathlib.Core.Path.{◌≡◌, ap}
use native.Mathlib.Nat.{pow-suc, pow-zero, add-suc, add-zero}
use native.Mathlib.Omega.{arith}

pub pow_pos : (k : ℕ) → 0 < 10 ^ k
pow_pos ℕ.zero = omega arith
pow_pos (suc k) = rw (pow-suc 10 k) (omega (arith, pow_pos k))

pub pow-add : (j k : ℕ) → 10 ^ (j + k) ≡ 10 ^ j * 10 ^ k
pow-add j ℕ.zero = omega (arith, pow-zero 10, ap (λ (n : ℕ). 10 ^ n) (add-zero j))
pow-add j (suc k) = rw (add-suc j k, pow-suc 10 (j + k), pow-suc 10 k, pow-add j k) (omega arith)
