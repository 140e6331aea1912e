-- ===== src/Pass/Sizes.antt =====
-- `getMemSize` (full-trace/full_trace.cpp): the size of a type in bits. An `int` is its bit pattern
-- of 32 bits.
use llvm_tracer.Prelude.{ℕ, ◌+◌, ◌*◌, ◌%◌, ◌^◌}
use llvm_tracer.Prelude.Result.{Result, err, ok, assertion_failed, ◌>>=◌}

pub data FloatingPoint : Type 0 where
  half float double x86_fp80 fp128 ppc_fp128 : FloatingPoint

-- LLVM's types; `unknown` are those that no test of `getMemSize` accepts, with their primitive size.
mutual
  pub data IrType : Type 0 where
    pointer function label_type : IrType
    struct : IrTypes → IrType
    floating_point : FloatingPoint → IrType
    integer : ℕ → IrType
    vector : ℕ → IrType → IrType
    array : ℕ → IrType → IrType
    unknown : ℕ → IrType

  pub data IrTypes : Type 0 where
    nil : IrTypes
    cons : IrType → IrTypes → IrTypes

unfoldable pub floating_point_size : FloatingPoint → ℕ
floating_point_size half = 16
floating_point_size float = 4 * 8
floating_point_size double = 8 * 8
floating_point_size x86_fp80 = 10 * 8
floating_point_size fp128 = 16 * 8
floating_point_size ppc_fp128 = 16 * 8

module _ (get_primitive_size_in_bits : IrType → ℕ) where
  unfoldable mutual
    unfolding floating_point_size

    pub get_mem_size : IrType → Result ℕ
    get_mem_size pointer = ok (8 * 8)
    get_mem_size function = ok 0
    get_mem_size label_type = ok 0
    get_mem_size (struct elements) = add_elements 0 elements
    get_mem_size (floating_point kind) = ok (floating_point_size kind)
    get_mem_size (integer bits) = ok (bits % 2 ^ 32)
    get_mem_size (vector n element) = ok (get_primitive_size_in_bits (vector n element) % 2 ^ 32)
    get_mem_size (array n element) = ok (n % 2 ^ 32 * get_primitive_size_in_bits element % 2 ^ 32)
    get_mem_size (unknown bits) = err assertion_failed

    -- The loop over the elements of a structure.
    pub add_elements : ℕ → IrTypes → Result ℕ
    add_elements size nil = ok size
    add_elements size (cons t elements) =
        get_mem_size t >>= λ element_size. add_elements ((size + element_size) % 2 ^ 32) elements
