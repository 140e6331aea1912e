-- ===== src/Pass/ArraySizes.antt =====
-- Sizes of arrays (full-trace/full_trace.cpp): `getMemSize` multiplies LLVM's primitive size.
use llvm_tracer.Prelude.{
  ℕ, Bool-cases, inl, inr, zero, suc, ◌+◌, ◌*◌, ◌/◌, ◌%◌, ◌^◌, ◌<◌, Bool, true, false, ◌≡◌, refl,
  sym, ap, ◌∙◌, if◌then◌else◌, arith,
}
use native.Mathlib.Nat.{
  suc-mul, zero-mul, mul-zero, add-mul, mul_assoc, div-add-mod, mul-add-mod_self_left,
}
use llvm_tracer.Prelude.Result.{Result, ok}
use llvm_tracer.Pass.Sizes.{
  FloatingPoint, IrType, pointer, function, label_type, struct, floating_point, integer, vector,
  array, unknown, IrTypes, nil, cons, floating_point_size, get_mem_size, add_elements,
}

-- LLVM documents the primitive size: only numbers and vectors of them have one, other types have 0.
pub record IsPrimitiveSize (p : IrType → ℕ) : Type 0 where
  pub of_pointer : p pointer ≡ 0
  pub of_function : p function ≡ 0
  pub of_label : p label_type ≡ 0
  pub of_struct : (elements : IrTypes) → p (struct elements) ≡ 0
  pub of_array : (n : ℕ) (element : IrType) → p (array n element) ≡ 0
  pub of_floating_point :
      (kind : FloatingPoint) → p (floating_point kind) ≡ floating_point_size kind
  pub of_integer : (bits : ℕ) → p (integer bits) ≡ bits
  pub of_vector : (n : ℕ) (element : IrType) → p (vector n element) ≡ n * p element

-- A number or a vector.
abbrev pub is_scalar : IrType → Bool
is_scalar (floating_point kind) = true
is_scalar (integer bits) = true
is_scalar (vector n element) = true
is_scalar _ = false

abbrev pub is_known : IrType → Bool
is_known (unknown bits) = false
is_known _ = true

abbrev pub repeat : ℕ → IrType → IrTypes
repeat zero t = nil
repeat (suc n) t = cons t (repeat n t)

module _ (p : IrType → ℕ) (laws : IsPrimitiveSize p) where
  scalar_size : (t : IrType) → is_scalar t ≡ true → get_mem_size p t ≡ ok (p t % 2 ^ 32)
  unfolding get_mem_size
  scalar_size (floating_point kind) h = go kind (laws.of_floating_point kind)
    where
      go :
          (kind : FloatingPoint)
          → p (floating_point kind) ≡ floating_point_size kind
          → Result.ok (floating_point_size kind) ≡ ok (p (floating_point kind) % 2 ^ 32)
      go FloatingPoint.half e = rw e refl
      go FloatingPoint.float e = rw e refl
      go FloatingPoint.double e = rw e refl
      go FloatingPoint.x86_fp80 e = rw e refl
      go FloatingPoint.fp128 e = rw e refl
      go FloatingPoint.ppc_fp128 e = rw e refl
  scalar_size (integer bits) h = ap (λ n. ok (n % 2 ^ 32)) (sym (laws.of_integer bits))
  scalar_size (vector n element) h = refl
  scalar_size pointer h = ground arith
  scalar_size function h = ground arith
  scalar_size label_type h = ground arith
  scalar_size (struct elements) h = ground arith
  scalar_size (array n element) h = ground arith
  scalar_size (unknown bits) h = ground arith

  other_size : (t : IrType) → is_scalar t ≡ false → is_known t ≡ true → p t ≡ 0
  other_size pointer h k = laws.of_pointer
  other_size function h k = laws.of_function
  other_size label_type h k = laws.of_label
  other_size (struct elements) h k = laws.of_struct elements
  other_size (array n element) h k = laws.of_array n element
  other_size (floating_point kind) h k = ground arith
  other_size (integer bits) h k = ground arith
  other_size (vector n element) h k = ground arith
  other_size (unknown bits) h k = ground arith

  sum_step :
      (acc b rest : ℕ) → ((acc + b % 2 ^ 32) % 2 ^ 32 + rest) % 2 ^ 32 ≡ (acc + (b + rest)) % 2 ^ 32
  sum_step acc b rest = omega arith

  add_elements-repeat :
      (t : IrType) (n acc : ℕ)
      → get_mem_size p t ≡ ok (p t % 2 ^ 32)
      → acc < 2 ^ 32
      → add_elements p acc (repeat n t) ≡ ok ((acc + n * p t) % 2 ^ 32)
  unfolding get_mem_size
  add_elements-repeat t zero acc e h = ap ok (rw zero-mul (omega arith))
  add_elements-repeat t (suc n) acc e h = rw e (
      add_elements-repeat t n ((acc + p t % 2 ^ 32) % 2 ^ 32) e (omega arith)
      ∙ ap ok (sum_step acc (p t) (n * p t) ∙ ap (λ k. (acc + k) % 2 ^ 32) (again n (p t))))
    where
      again : (n k : ℕ) → k + n * k ≡ suc n * k
      again n k = rw suc-mul (omega arith)

  mod_times : (n k : ℕ) → n % 2 ^ 32 * k % 2 ^ 32 ≡ n * k % 2 ^ 32
  mod_times n k = sym (
      ap (λ x. x % 2 ^ 32)
        (sym (ap (λ x. x * k) (div-add-mod n (2 ^ 32)))
          ∙ add-mul (2 ^ 32 * (n / 2 ^ 32)) (n % 2 ^ 32) k
          ∙ ap (λ x. x + n % 2 ^ 32 * k) (mul_assoc (2 ^ 32) (n / 2 ^ 32) k))
      ∙ mul-add-mod_self_left (2 ^ 32) (n / 2 ^ 32 * k) (n % 2 ^ 32 * k))

  from_zero : (k : ℕ) → k % 2 ^ 32 ≡ (0 + k) % 2 ^ 32
  from_zero k = omega arith

  times_zero : (n : ℕ) → n * 0 % 2 ^ 32 ≡ 0
  times_zero n = rw mul-zero refl

  -- With LLVM's primitive sizes, and for an element type that `getMemSize` knows, an array of
  -- numbers or vectors has the size of a structure with the same elements; an array of any other
  -- elements, such as pointers, has the size 0.
  pub array-size :
      (n : ℕ) (t : IrType)
      → is_known t ≡ true
      → get_mem_size p (array n t)
        ≡ (if is_scalar t then get_mem_size p (struct (repeat n t)) else ok 0)
  unfolding get_mem_size
  array-size n t k = elim (Bool-cases (is_scalar t)) [
    | inl s ↦ rw s (
        ap ok (mod_times n (p t) ∙ from_zero (n * p t))
        ∙ sym (add_elements-repeat t n 0 (scalar_size t s) (omega arith)))
    | inr o ↦ rw (o, other_size t o k) (ap ok (times_zero (n % 2 ^ 32)))
  ]
