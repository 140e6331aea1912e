-- ===== src/Runtime.antt =====
-- The library that an instrumented program is linked with (profile-func/trace_logger.cpp and
-- trace_logger.h). Each child models or proves about one part of it.
pub mod Gz
pub mod State
pub mod Files
pub mod Status
pub mod Hex
pub mod Lines
pub mod Memory
pub mod Table
pub mod Phase
pub mod Opening
pub mod Printing
pub mod Log
pub mod Session
pub mod Calls
pub mod Threads
pub mod ThreadMoves
pub mod ThreadOpening
pub mod ThreadPrinting
pub mod ThreadSteps
pub mod ThreadSafety
pub mod Misuse
pub mod Unopened
pub mod Fields
pub mod Closing
mod Tests
mod ThreadTests
