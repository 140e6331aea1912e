-- ===== src/Pass.antt =====
-- The instrumentation pass (full-trace/full_trace.cpp).
pub mod Names
pub mod Setup
pub mod Workload
pub mod Classes
pub mod Tracked
pub mod Ids
pub mod Bitcasts
pub mod BlockIds
pub mod Opcodes
pub mod LabelMap
pub mod Registered
pub mod Inserted
pub mod Ensures
pub mod Stores
pub mod Succeeds
pub mod Fitting
pub mod FittingCode
pub mod Success
pub mod Shape
pub mod Handlers
pub mod Blocks
pub mod BlockShape
pub mod FunctionShape
pub mod Execution
pub mod Returns
pub mod Running
pub mod Sessions
pub mod CallSession
pub mod VectorBuffers
pub mod Entry
pub mod Tests
pub mod BlockTests
pub mod SuccessTests
pub mod Sizes
pub mod ArraySizes
