-- ===== src/Prelude/Int.antt =====
-- Signed integers: what the C parameters of type `int` and `int64_t` stand for.
use llvm_tracer.Prelude.Tests.{ltb, if◌then◌else◌, ◌==◌}
use Prim.Native.Nat.{ℕ, ◌-◌, ◌^◌}
use mathlib.Core.Bool.{Bool, false}

-- `negsuc n` is -(n + 1).
pub data ℤ : Type 0 where
  pos : ℕ → ℤ
  negsuc : ℕ → ℤ

-- The integer that a bit pattern of 64 bits stands for.
unfoldable pub to_int64 : ℕ → ℤ
to_int64 n = if ltb n (2 ^ 63) then pos n else negsuc (2 ^ 64 - n - 1)

abbrev pub is_pos : ℕ → ℤ → Bool
is_pos k (pos n) = n == k
is_pos k (negsuc n) = false
