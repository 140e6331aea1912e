-- ===== src/Prelude/Digits.antt =====
-- Decimal numbers read back, and the characters that they consist of.
use llvm_tracer.Prelude.Tests.{ltb, if◌then◌else◌, ◌==◌, Bool-cases}
use llvm_tracer.Prelude.Lists.{All}
use llvm_tracer.Prelude.Int.{ℤ, pos, negsuc}
use llvm_tracer.Prelude.Bytes.{Text}
use llvm_tracer.Prelude.Decimal.{digit, show_digits, show_ℕ, show_int}
use Prim.Native.Nat.{ℕ, zero, suc, ◌+◌, ◌-◌, ◌*◌, ◌/◌, ◌%◌, ◌≤◌, ◌<◌}
use mathlib.Core.Path.{◌≡◌, refl, ap, ◌∙◌}
use mathlib.Core.Logic.{inl, inr, ◌≢◌}
use mathlib.Core.List.{[], ◌∷◌}
use native.Mathlib.Omega.{arith}

-- The digits of `s` continue the number `acc`.
read_digits : ℕ → Text → ℕ
read_digits acc [] = acc
read_digits acc (c ∷ s) = read_digits (acc * 10 + (c - b'0')) s

read_digits-show_digits :
    (fuel n : ℕ) (out : Text)
    → n < fuel
    → read_digits 0 (show_digits 10 fuel n out) ≡ read_digits n out
unfolding read_digits show_digits
read_digits-show_digits zero n out h = elim h [ ]
read_digits-show_digits (suc fuel) n out h = elim (Bool-cases (ltb n 10)) [
  | inl small ↦ rw small (ap (λ k. read_digits k out) (ground arith))
  | inr large ↦ rw large (
      read_digits-show_digits fuel (n / 10) (digit (n % 10) ∷ out) (ground arith)
      ∙ ap (λ k. read_digits k out) (ground arith))
]

-- Neither a comma nor a minus sign.
abbrev pub IsPlain : ℕ → Type 0
IsPlain c = (c ≢ b',') × (c ≢ b'-') × (c ≤ b'9')

show_digits-IsPlain :
    (fuel n : ℕ) (out : Text) → All IsPlain out → All IsPlain (show_digits 10 fuel n out)
unfolding show_digits
show_digits-IsPlain zero n out h = h
show_digits-IsPlain (suc fuel) n out h = elim (Bool-cases (ltb n 10)) [
  | inl small ↦ rw small ((ground arith, ground arith, ground arith), h)
  | inr large ↦ rw large (
      show_digits-IsPlain fuel (n / 10) (digit (n % 10) ∷ out)
        ((ground arith, ground arith, ground arith), h))
]

pub show_ℕ-IsPlain : (n : ℕ) → All IsPlain (show_ℕ n)
unfolding show_ℕ
show_ℕ-IsPlain n = show_digits-IsPlain (suc n) n [] tt

-- The number that a text written by `%d` stands for.
pub read_int : Text → ℤ
read_int [] = pos 0
read_int (c ∷ s) = if c == b'-' then negsuc (read_digits 0 s - 1) else pos (read_digits 0 (c ∷ s))

read_digits-show_ℕ : (n : ℕ) → read_digits 0 (show_ℕ n) ≡ n
unfolding show_ℕ read_digits
read_digits-show_ℕ n = read_digits-show_digits (suc n) n [] (omega arith)

read_plain : (s : Text) → All IsPlain s → read_int s ≡ pos (read_digits 0 s)
unfolding read_int read_digits
read_plain [] h = refl
read_plain (c ∷ s) h = ground (arith, h.0)

pub read_int-show_int : (n : ℤ) → read_int (show_int n) ≡ n
unfolding show_int read_int
read_int-show_int (pos n) = read_plain (show_ℕ n) (show_ℕ-IsPlain n) ∙ ap pos (read_digits-show_ℕ n)
read_int-show_int (negsuc n) = ground (arith, read_digits-show_ℕ (suc n))

-- No comma among the characters.
abbrev pub NotComma : ℕ → Type 0
NotComma c = c ≢ b','

plain-NotComma : (s : Text) → All IsPlain s → All NotComma s
plain-NotComma [] h = tt
plain-NotComma (c ∷ s) h = (h.0.0, plain-NotComma s h.1)

pub show_int-NotComma : (n : ℤ) → All NotComma (show_int n)
unfolding show_int
show_int-NotComma (pos n) = plain-NotComma (show_ℕ n) (show_ℕ-IsPlain n)
show_int-NotComma (negsuc n) =
    (omega arith, plain-NotComma (show_ℕ (suc n)) (show_ℕ-IsPlain (suc n)))

-- No decimal number begins with a letter.
pub show_int_head : (n : ℤ) (c : ℕ) (s : Text) → show_int n ≡ c ∷ s → c ≤ b'9'
unfolding show_int
show_int_head (pos n) c s e = head_le (show_ℕ n) (show_ℕ-IsPlain n) e
  where
    head_le : (r : Text) → All IsPlain r → r ≡ c ∷ s → c ≤ b'9'
    head_le [] h e = cc
    head_le (d ∷ r) h e = ground (arith, h.0)
show_int_head (negsuc n) c s e = ground arith
