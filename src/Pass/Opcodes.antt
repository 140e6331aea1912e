-- ===== src/Pass/Opcodes.antt =====
-- The opcodes that the trace has (full-trace/full_trace.cpp). LLVM's numbers are parameters.
use llvm_tracer.Prelude.{ℕ, ◌||◌, not, ◌≡◌, ◌<◌, codes, text_eq, if◌then◌else◌, ◌==◌, arith}
use llvm_tracer.Pass.Names.{
  is_special_math_op, is_dma_function, is_host_mem_function, is_set_sampling_factor,
}
use llvm_tracer.Pass.Setup.{CalledFunction}

-- The members of `Instruction` that `opcodeToFixedPoint` names.
pub record Opcodes : Type 0 where
  pub f_add : ℕ
  pub f_sub : ℕ
  pub f_mul : ℕ
  pub f_div : ℕ
  pub f_rem : ℕ
  pub fp_trunc : ℕ
  pub fp_ext : ℕ
  pub f_cmp : ℕ
  pub add : ℕ
  pub sub : ℕ
  pub mul : ℕ
  pub s_div : ℕ
  pub s_rem : ℕ
  pub trunc : ℕ
  pub s_ext : ℕ
  pub i_cmp : ℕ

unfoldable pub opcode_to_fixed_point : Opcodes → ℕ → ℕ
opcode_to_fixed_point o opcode =
    if opcode == o.f_add
    then o.add
    else if opcode == o.f_sub
    then o.sub
    else if opcode == o.f_mul
    then o.mul
    else if opcode == o.f_div
    then o.s_div
    else if opcode == o.f_rem
    then o.s_rem
    else if opcode == o.fp_trunc
    then o.trunc
    else if opcode == o.fp_ext
    then o.s_ext
    else if opcode == o.f_cmp
    then o.i_cmp
    else opcode

abbrev pub set_ready_bits : ℕ
set_ready_bits = 95

abbrev pub dma_fence : ℕ
dma_fence = 97

abbrev pub dma_store : ℕ
dma_store = 98

abbrev pub dma_load : ℕ
dma_load = 99

abbrev pub special_math_op : ℕ
special_math_op = 102

abbrev pub intrinsic : ℕ
intrinsic = 104

abbrev pub set_sampling_factor : ℕ
set_sampling_factor = 105

abbrev pub host_store : ℕ
host_store = 106

abbrev pub host_load : ℕ
host_load = 107

-- The opcode of a call: that of the instruction if the function is no special one.
unfoldable pub call_opcode : CalledFunction → ℕ → ℕ
call_opcode called inst_opcode =
    if text_eq called.name (codes "dmaLoad")
    then dma_load
    else if text_eq called.name (codes "dmaStore")
    then dma_store
    else if text_eq called.name (codes "dmaFence")
    then dma_fence
    else if text_eq called.name (codes "setReadyBits")
    then set_ready_bits
    else if is_special_math_op called.name
    then special_math_op
    else if text_eq called.name (codes "setSamplingFactor")
    then set_sampling_factor
    else if text_eq called.name (codes "hostLoad")
    then host_load
    else if text_eq called.name (codes "hostStore")
    then host_store
    else if called.is_intrinsic
    then intrinsic
    else inst_opcode

-- A call has the opcode of its instruction, which is below 95, exactly if the function is none of
-- the special ones, no mathematical function and no intrinsic.
pub call_opcode-plain :
    (called : CalledFunction) (inst_opcode : ℕ)
    → inst_opcode < 95
    → (call_opcode called inst_opcode == inst_opcode)
      ≡ not (
          is_dma_function called.name
          || (is_host_mem_function called.name
              || (is_set_sampling_factor called.name
                  || (is_special_math_op called.name || called.is_intrinsic))))
unfolding call_opcode is_dma_function is_host_mem_function is_set_sampling_factor
call_opcode-plain called inst_opcode below = ground arith
