-- ===== src/Pass/Success.antt =====
-- The pass instruments every block whose names and numbers fit its buffers
-- (full-trace/full_trace.cpp).
use llvm_tracer.Prelude.{ℕ, suc, ◌+◌, ◌≤◌, length, All, List}
use llvm_tracer.Pass.Succeeds.{Succeeds}
use llvm_tracer.Pass.Fitting.{max_number, IsFitting, IsFittingValue}
use llvm_tracer.Pass.Stores.{AreStorable}
use llvm_tracer.Pass.FittingCode.{AreCalls, IsFittingInstruction, IsFittingPhi}
use llvm_tracer.Pass.Setup.{Tracer}
use llvm_tracer.Pass.Sizes.{IrType}
use llvm_tracer.Pass.Opcodes.{Opcodes}
use llvm_tracer.Pass.Inserted.{Inserted}
use llvm_tracer.Pass.Blocks.{BasicBlock, BlockItem, BlockState}

-- The tables fit, and the count has grown by at most one.
abbrev Grows : BlockState → BlockState → Type 0
Grows s s' = IsFitting s'.tables × (s'.env.instc ≤ suc s.env.instc)

module _ (p : IrType → ℕ) (opcodes : Opcodes) (tracer : Tracer) where
  -- The names, sizes and operands of a block fit, and so do the numbers of its instructions.
  pub record IsFittingBlock (block : BasicBlock) : Type 0 where
    pub value_fits : IsFittingValue block.value
    pub phis_fit : All (IsFittingPhi p) block.phis
    pub insts_fit : All (IsFittingInstruction p) block.insts
    pub few : length block.phis + length block.insts ≤ max_number

  -- What one round of the loop gives.
  abbrev Round : BlockState → List Inserted × List Inserted × BlockState → Type 0
  Round s r = AreCalls p r.0 × AreCalls p r.1 × Grows s r.2

  -- The vectors of the calls of a block can be stored.
  abbrev Stores : List BlockItem × BlockState → Type 0
  Stores r = AreStorable p r.0 × IsFitting r.1.tables
