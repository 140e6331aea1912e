-- ===== src/Prelude/Decimal.antt =====
-- The conversions of `printf` that the tracer uses, and the digits that they produce.
use llvm_tracer.Prelude.Tests.{ltb, if◌then◌else◌, ◌==◌}
use llvm_tracer.Prelude.Int.{ℤ, pos, negsuc}
use llvm_tracer.Prelude.Bytes.{Text, codes}
use Prim.Native.Nat.{ℕ, zero, suc, ◌+◌, ◌-◌, ◌/◌, ◌%◌}
use mathlib.Core.Path.{◌≡◌, refl}
use mathlib.Core.List.{[], ◌∷◌}

-- The digit of a value below sixteen, in lower case.
abbrev pub digit : ℕ → ℕ
digit d = if ltb d 10 then b'0' + d else b'a' + d - 10

module _ (base : ℕ) where
  -- The digits in front of `out`; the fuel bounds their number.
  unfoldable pub show_digits : ℕ → ℕ → Text → Text
  show_digits zero n out = out
  show_digits (suc fuel) n out =
      let rest = show_digits fuel (n / base) (digit (n % base) ∷ out) in
      if ltb n base then digit n ∷ out else rest

-- `%u` and `%lu`.
unfoldable pub show_ℕ : ℕ → Text
unfolding show_digits
show_ℕ n = show_digits 10 (suc n) n []

-- `%d` and `%ld`.
unfoldable pub show_int : ℤ → Text
unfolding show_ℕ
show_int (pos n) = show_ℕ n
show_int (negsuc n) = b'-' ∷ show_ℕ (suc n)

-- `%#llx`: the prefix is left off at zero.
unfoldable pub show_hex : ℕ → Text
unfolding show_digits
show_hex n = if n == 0 then b'0' ∷ [] else b'0' ∷ b'x' ∷ show_digits 16 (suc n) n []

-- `%02x` of a byte.
unfoldable pub show_byte : ℕ → Text
show_byte b = digit (b / 16) ∷ digit (b % 16) ∷ []

tests : (show_int (negsuc 119) ≡ codes "-120") × (show_hex 48879 ≡ codes "0xbeef")
unfolding show_int show_hex
tests = (refl, refl)
