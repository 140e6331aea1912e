-- ===== src/Pass/Sessions.antt =====
-- A call of an instrumented top-level function is a session of the runtime
-- (full-trace/full_trace.cpp and profile-func/trace_logger.cpp together).
use llvm_tracer.Prelude.{
  zip, ℕ, length, ◌≡◌, true, false, not, All, Option, none, some, List, [], ◌∷◌, ◌++◌, Text,
  text_eq, codes, if◌then◌else◌,
}
use mathlib.Core.List.{Memᴰ}
use llvm_tracer.Prelude.Result.{Result, ok, ◌>>=◌}
use llvm_tracer.Runtime.Gz.{Gz}
use llvm_tracer.Runtime.State.{World, ret_op}
use llvm_tracer.Runtime.Session.{Event}
use llvm_tracer.Pass.Ensures.{Ensures, after, after_with, either}
use llvm_tracer.Pass.Names.{to_fxpt}
use llvm_tracer.Pass.Setup.{Tracer, is_tracked_function, runs_on_function, runs_on_basic_block}
use llvm_tracer.Pass.Sizes.{IrType}
use llvm_tracer.Pass.VectorBuffers.{no_buffers}
use llvm_tracer.Pass.Ids.{NameTables}
use llvm_tracer.Pass.Opcodes.{Opcodes, opcode_to_fixed_point}
use llvm_tracer.Pass.Handlers.{return_inst, Instruction}
use llvm_tracer.Pass.Blocks.{
  BasicBlock, BlockItem, run_on_basic_blocks, collect_debug_infos, Function, Instrumented,
  entry_calls_of, run_on_function,
}
use llvm_tracer.Pass.FunctionShape.{
  BeginsTopLevel, run_on_function_entry-BeginsTopLevel, ShapedBlocks,
  run_on_basic_blocks-ShapedBlocks,
}
use llvm_tracer.Pass.Execution.{Values, lines_events, items_events, run_all_inserted, run_items}
use llvm_tracer.Pass.Returns.{NoReturn}

-- The function is a top-level function of the workload, and the pass instruments its blocks.
abbrev pub IsTopLevel : Tracer → Text → Type 0
IsTopLevel tracer f =
    (text_eq f (codes "main") ≡ false)
    × (is_tracked_function tracer f ≡ true)
    × (tracer.is_toplevel_mode ≡ true)
    × (runs_on_basic_block tracer f ≡ true)

module _ (p : IrType → ℕ) (opcodes : Opcodes) (tracer : Tracer) where
  abbrev pub ShapedFunction : Function → Option Instrumented → Type 0
  ShapedFunction f none = Unit {0}
  ShapedFunction f (some instrumented) =
      BeginsTopLevel p opcodes tracer f.name (length f.args) instrumented.entry_calls
      × ShapedBlocks p opcodes tracer f.name f.blocks instrumented.blocks

  entry_calls_of-BeginsTopLevel :
      (f : Function) (tables : NameTables)
      → IsTopLevel tracer f.name
      → Ensures
          (BeginsTopLevel p opcodes tracer f.name (length f.args))
          (entry_calls_of p opcodes tracer f tables)
  entry_calls_of-BeginsTopLevel f tables (not_main, tracked, toplevel, runs) =
      rw not_main (
        run_on_function_entry-BeginsTopLevel p opcodes tracer tables f.name f.args tracked toplevel)

  pub run_on_function-ShapedFunction :
      (f : Function) (tables : NameTables)
      → IsTopLevel tracer f.name
      → Ensures (ShapedFunction f) (run_on_function p opcodes tracer f tables)
  unfolding run_on_function
  run_on_function-ShapedFunction f tables top =
      let Goal = ShapedFunction f in
      let Blocks : List (List BlockItem) × NameTables → Type 0 =
        λ r. ShapedBlocks p opcodes tracer f.name f.blocks r.0 in
      either Goal (not (runs_on_function tracer f.name)) _ _ tt (
        after Goal
          (collect_debug_infos f.debug_infos
            (record tables { slot_to_var_name = []; vector_buffers = no_buffers }))
          _
          λ collected.
            let start = record collected {
              preheader_line_num = f.preheaders ++ collected.preheader_line_num;
            } in
            after_with Goal Blocks (run_on_basic_blocks p opcodes tracer f.name f.blocks start) _
              (run_on_basic_blocks-ShapedBlocks p opcodes tracer f.name f.blocks start top.3)
              λ (blocks, tables') shaped.
                after_with Goal (BeginsTopLevel p opcodes tracer f.name (length f.args))
                  (entry_calls_of p opcodes tracer f tables') _
                  (entry_calls_of-BeginsTopLevel f tables' top) λ entry h. (h, shaped))

-- A visit of a block when the program runs: the block, what it has become, the values of the
-- program there, and what the functions that its instructions call log.
pub record Visit (Double : Type 0) : Type 0 where
  pub block : BasicBlock
  pub items : List BlockItem
  pub values : Values Double
  pub inside : Instruction → List (Event Double)

module _ {Double : Type 0} where
  -- What the visits print.
  abbrev pub visits_events : List (Visit Double) → List (Event Double)
  visits_events [] = []
  visits_events (v ∷ visits) = items_events v.values v.inside v.items ++ visits_events visits

  -- What a call of the function prints behind its entry line: the lines of the arguments, and
  -- those of the blocks that it visits.
  abbrev pub call_body :
      Values Double → Instrumented → List (Visit Double) → Visit Double → List (Event Double)
  call_body values instrumented visits last_visit =
      lines_events values instrumented.entry_calls
      ++ (visits_events visits ++ items_events last_visit.values last_visit.inside last_visit.items)

  -- The visited block is a block of the function.
  abbrev pub IsVisit : Function → Instrumented → Visit Double → Type 0
  IsVisit f instrumented v = Memᴰ (v.block, v.items) (zip f.blocks instrumented.blocks)

  -- A visit of a block without a return.
  abbrev pub IsPassing : Function → Instrumented → Visit Double → Type 0
  IsPassing f instrumented v = IsVisit f instrumented v × All NoReturn v.block.insts

  -- A visit of a block that ends in its only return. The opcode of a return is the one that the
  -- runtime tests for.
  abbrev pub IsReturning : Opcodes → Function → Instrumented → Visit Double → Type 0
  IsReturning opcodes f instrumented v =
      (front : List Instruction) × (ret : Instruction) × IsVisit f instrumented v
      × (v.block.insts ≡ front ++ (ret ∷ []))
      × All NoReturn front
      × (ret.kind ≡ return_inst)
      × (ret.has_result ≡ false)
      × (v.inside ret ≡ [])
      × ((if to_fxpt f.name then opcode_to_fixed_point opcodes ret.opcode else ret.opcode) ≡ ret_op)

  unfoldable pub run_visits :
      (Double → Text) → {z : Gz} → List (Visit Double) → World z → Result (World z)
  unfolding run_items
  run_visits show_double [] w = ok w
  run_visits show_double (v ∷ visits) w =
      run_items show_double v.values v.inside v.items w >>= run_visits show_double visits

  -- A call of the instrumented function: the calls at its start, and the blocks that it visits.
  unfoldable pub run_call :
      (Double → Text)
      → {z : Gz} → Values Double
      → Instrumented
      → List (Visit Double)
      → Visit Double
      → World z
      → Result (World z)
  unfolding run_all_inserted run_visits
  run_call show_double values instrumented visits last_visit w = do
    entered ← run_all_inserted show_double values instrumented.entry_calls w
    ran ← run_visits show_double visits entered
    run_items show_double last_visit.values last_visit.inside last_visit.items ran
