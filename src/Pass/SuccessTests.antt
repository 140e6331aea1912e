-- ===== src/Pass/SuccessTests.antt =====
-- The blocks of the small function fit the buffers of the pass (full-trace/full_trace.cpp).
use llvm_tracer.Prelude.{List, [], ◌∷◌}
use llvm_tracer.Pass.Blocks.{BasicBlock}
use llvm_tracer.Pass.BlockTests.{first_block, last_block}

abbrev f_blocks : List BasicBlock
f_blocks = first_block ∷ last_block ∷ []
