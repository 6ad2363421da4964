-- ===== src/Prelude/Words.antt =====
-- Remainders by products: how an integer is cut into bytes and bits.
use Prim.Native.Nat.{ℕ, ◌+◌, ◌*◌, ◌/◌, ◌%◌, ◌<◌}
use mathlib.Core.Path.{◌≡◌, ◌∙◌, ap}
use native.Mathlib.Nat.{add-mul-mod_self_left, mod-eq_of_lt, div-add-mod, mod-lt, mul-le-mul_left}
use native.Mathlib.Omega.{arith}

-- The lowest digit in base `b`, and the digits above it.
pub mod-mul_split : (b p v : ℕ) → 0 < b → 0 < p → v % (b * p) ≡ v % b + b * (v / b % p)
mod-mul_split b p v hb hp =
    ap (λ t. t % (b * p)) whole ∙ add-mul-mod_self_left _ _ _ ∙ mod-eq_of_lt small
  where
    whole : v ≡ (v % b + b * (v / b % p)) + b * p * (v / b / p)
    whole = omega (arith, div-add-mod v b, ap (λ (t : ℕ). b * t) (div-add-mod (v / b) p))

    small : v % b + b * (v / b % p) < b * p
    small = omega (arith, mod-lt v hb, mul-le-mul_left b (mod-lt (v / b) hp))
