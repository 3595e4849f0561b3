-- ===== src/Prelude/Words.antt =====
-- Machine words. A value is a number below `2 ^ w`; each operation wraps as C++ defines it.
use Prim.Native.Nat.{ℕ, ◌+◌, ◌-◌, ◌%◌, ◌^◌}
use miniraft_cpp.Prelude.Tests.{ltb, if◌then◌else◌}

-- uint64_t
abbrev pub add64 : ℕ → ℕ → ℕ
add64 a b = (a + b) % 2 ^ 64

abbrev pub sub64 : ℕ → ℕ → ℕ
sub64 a b = (a + 2 ^ 64 - b) % 2 ^ 64

-- uint32_t
abbrev pub u32 : ℕ → ℕ
u32 a = a % 2 ^ 32

-- A signed integer: `negsuc n` is -(n + 1).
pub data ℤ : Type 0 where
  pos : ℕ → ℤ
  negsuc : ℕ → ℤ

-- The conversion of a uint64_t to int64_t.
abbrev pub int64 : ℕ → ℤ
int64 a = if ltb a (2 ^ 63) then pos a else negsuc (2 ^ 64 - 1 - a)

-- A uint64_t that is passed as an int and stored in a uint64_t again: the low 32 bits, sign extended.
abbrev pub through_int : ℕ → ℕ
through_int a = if ltb (a % 2 ^ 32) (2 ^ 31) then a % 2 ^ 32 else a % 2 ^ 32 + 2 ^ 64 - 2 ^ 32
