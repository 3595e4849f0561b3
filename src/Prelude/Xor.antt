-- ===== src/Prelude/Xor.antt =====
-- A bound of the exclusive or of machine words.
use Prim.Native.Nat.{
  ℕ, zero, suc, ◌/◌, ◌%◌, ◌^◌, ◌≤◌, ◌<◌, bit_xor, digits, differ, bit_xor-bitwise,
}
use native.Mathlib.Omega.{arith}

module _ (f : ℕ → ℕ → ℕ) (digit : (x y : ℕ) → x ≤ 1 → y ≤ 1 → f x y ≤ 1) where
  -- An operation on digits has no more digits than its operands.
  digits_lt : (w n a b : ℕ) → a < 2 ^ w → b < 2 ^ w → digits (λ b. b) f n a b < 2 ^ w
  digits_lt w zero a b ha hb = hb
  digits_lt w (suc n) zero b ha hb = hb
  digits_lt zero (suc n) (suc a) b ha hb = absurd (omega arith)
  digits_lt (suc w) (suc n) (suc a) b ha hb = omega (
    arith,
    digits_lt w n (suc a / 2) (b / 2) (omega arith) (omega arith),
    digit (suc a % 2) (b % 2) (omega arith) (omega arith),
  )

differ-le-one : (x y : ℕ) → x ≤ 1 → y ≤ 1 → differ x y ≤ 1
differ-le-one zero y hx hy = hy
differ-le-one (suc x) zero hx hy = hx
differ-le-one (suc x) (suc y) hx hy = differ-le-one x y (omega arith) (omega arith)

pub bit_xor_lt : (w a b : ℕ) → a < 2 ^ w → b < 2 ^ w → bit_xor a b < 2 ^ w
bit_xor_lt w a b ha hb =
    omega (arith, bit_xor-bitwise a b, digits_lt differ differ-le-one w a a b ha hb)
