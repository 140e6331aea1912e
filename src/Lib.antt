-- ===== src/Lib.antt =====
-- LLVM-Tracer, an LLVM pass that instruments a program so that it writes a trace of the IR
-- instructions that it executes.
--
-- The program has three parts. ast-pass/GetLabeledStmts.cpp writes the labels of a source file to
-- a label map. full-trace/full_trace.cpp inserts calls of the trace logger into the program, and
-- the label map with them. profile-func/trace_logger.cpp is that logger: the inserted calls start
-- and stop the logging of a thread and print lines to compressed files.
--
-- The files here, and what they model:
--   Prelude: lists, texts as bytes, maps with text keys, results with faults, numbers in text.
--   Runtime: profile-func/trace_logger.cpp and trace_logger.h.
--     State has the globals, Files `create_trace`, `open_trace_file` and the like, Status
--     `log_or_not` and `trace_logger_update_status`, Hex `convert_bytes_to_hex`, Lines the
--     functions that print. Gz is the interface of zlib, and Memory an instance of it.
--     The others prove: Opening (files), Phase and Calls (the states of a thread), Log and
--     Session (what is printed), Misuse and Unopened (calls in an order that fails), Printing
--     and Fields (the text of a line), Closing (the exit), Table (the comment of `log_or_not`).
--     Threads has threads that log at once, as steps in any order; ThreadMoves says what a step
--     does, ThreadOpening, ThreadPrinting and ThreadSteps prove it, and ThreadSafety what holds
--     in all orders.
--   AstPass: ast-pass/GetLabeledStmts.cpp.
--     Tree has clang's statements and the label map, Visitor the visit of a function, Callers
--     `findAllNoninlinedCallers`, Output the label map file. Labels, Calls, Search and
--     Endless prove.
--   Pass: full-trace/full_trace.cpp.
--     Names has the tests on names, Setup `doInitialization` and the choice of functions and
--     calls, Sizes `getMemSize`, Ids the names of values and instructions, Opcodes the printed
--     opcodes, Inserted the calls for a line and for the start of a function, Handlers the
--     functions for one instruction, Blocks `runOnBasicBlock` and `runOnFunction`, LabelMap
--     `LabelMapHandler`. Execution has what the inserted calls do when the program runs, and
--     Sessions a call of an instrumented function along the blocks that it visits; VectorBuffers
--     has `createVectorArg`, and proves what its buffers are. Workload, Classes, Tracked,
--     ArraySizes, Bitcasts, BlockIds, Entry and Registered prove; Ensures, Shape, BlockShape and
--     FunctionShape prove what is inserted where, Succeeds, Stores,
--     Fitting, FittingCode and Success when nothing fails, Returns, Running and CallSession what the
--     inserted calls do.
--
-- A function of the source is the definition of its name, in lower case with underscores. State
-- is passed explicitly; a failed assertion, `exit(-1)` and a use of memory that C++ leaves
-- undefined are faults of the result type. Texts are lists of bytes without a zero. A C `int` is
-- an integer; `int64_t inst_count` is a bit pattern of 64 bits that wraps around. Numbers are
-- printed on fuel that exceeds their number of digits.
--
-- The search for callers runs on fuel that bounds the depth of its recursion. LLVM's IR and
-- clang's AST are data with what the code reads of them; LLVM's opcode numbers and primitive
-- sizes are parameters.
--
-- An instrumented block is its original instructions with the inserted calls between them. When
-- it runs, the values of the program and what the called functions log are parameters of each
-- visit of a block.
--
-- The stores to the vector buffers follow the calls of a block or of a function's start, which
-- changes which fault comes first, but not whether there is one. Type IDs and pointee types are
-- numbers.
--
-- Names and ids are in buffers of 256 bytes; Fitting has bounds (names of 200 bytes, numbers of ten
-- digits) under which none overflows.
--
-- Threads are endlessly many, of which a run moves finitely many. What a thread does while it
-- holds the lock is one step, and so is a printed line, since the others touch none of it then.
--
-- Not modelled: the command line and the start of ast-pass/GetLabeledStmts.cpp, `deleteLabelMap`
-- (nothing calls it), the map of `createStringArgIfNotExists` (a call has the text itself),
-- full-trace/SlotTracker.h (a copy of an LLVM file that nothing includes), the
-- CMake scripts and the playground programs. A stream of zlib never fails to write.
pub mod Prelude
pub mod Runtime
pub mod AstPass
pub mod Pass
