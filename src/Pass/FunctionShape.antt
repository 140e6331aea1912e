-- ===== src/Pass/FunctionShape.antt =====
-- The shape of an instrumented function (full-trace/full_trace.cpp).
use llvm_tracer.Prelude.{
  zip, ℕ, suc, length, ltb, ◌≡◌, refl, sym, subst, Bool, true, false, ◌&&◌, All-append, List, [],
  ◌∷◌, Text, if◌then◌else◌, arith,
}
use mathlib.Core.List.{Memᴰ}
use mathlib.Core.List.Memᴰ.{head, tail}
use llvm_tracer.Prelude.Result.{err, ok, buffer_overflow}
use llvm_tracer.Runtime.State.{forward_line}
use llvm_tracer.Pass.Ensures.{Ensures, after, after_with, either, either_by, ensures}
use llvm_tracer.Pass.Setup.{Tracer, is_tracked_function, runs_on_basic_block}
use llvm_tracer.Pass.Sizes.{IrType, get_mem_size}
use llvm_tracer.Pass.Ids.{NameTables, copy_to_buffer}
use llvm_tracer.Pass.Opcodes.{Opcodes}
use llvm_tracer.Pass.Inserted.{
  TypedValue, Inserted, log_entry, update_status, argument_name, print_argument, print_arguments,
  print_all_arguments, store_vectors, run_on_function_entry,
}
use llvm_tracer.Pass.Blocks.{BasicBlock, BlockItem, run_on_basic_block, run_on_basic_blocks}
use llvm_tracer.Pass.Shape.{IsLine, AreLines, print_param_line-AreLines}
use llvm_tracer.Pass.BlockShape.{ShapedBlock, run_on_basic_block-ShapedBlock}

module _ (p : IrType → ℕ) (opcodes : Opcodes) (tracer : Tracer) where
  print_arguments-AreLines :
      (tables : NameTables) (entry : Bool) (k : ℕ) (args : List TypedValue)
      → Ensures AreLines (print_arguments p tables entry k args)
  unfolding print_arguments print_argument
  print_arguments-AreLines tables entry k [] = tt
  print_arguments-AreLines tables entry k (o ∷ args) =
      after_with AreLines AreLines (print_argument p tables (if entry then k else forward_line) o) _
        (after AreLines (get_mem_size p o.type_of) _ λ size.
          after AreLines (argument_name tables o) _
            λ (reg_id, is_reg, value). print_param_line-AreLines _ o.type_of _ false)
        λ line h.
          after_with AreLines AreLines (print_arguments p tables entry (suc k) args) _
            (print_arguments-AreLines tables entry (suc k) args)
            λ lines h'. All-append IsLine line lines h h'

  print_all_arguments-AreLines :
      (tables : NameTables) (entry : Bool) (args : List TypedValue)
      → Ensures AreLines (print_all_arguments p tables entry args)
  unfolding print_all_arguments
  print_all_arguments-AreLines tables entry args =
      after_with AreLines AreLines (print_arguments p tables entry 1 args) _
        (print_arguments-AreLines tables entry 1 args)
        λ lines h. after AreLines (store_vectors p lines tables.vector_buffers) _ λ buffers. h

  -- The calls at the start of a tracked function in top-level mode.
  abbrev pub BeginsTopLevel : Text → ℕ → List Inserted → Type 0
  BeginsTopLevel f n calls =
      (lines : List Inserted) × AreLines lines
      × (calls ≡ update_status f 0 true true ∷ log_entry f n ∷ lines)

  pub run_on_function_entry-BeginsTopLevel :
      (tables : NameTables) (f : Text) (args : List TypedValue)
      → is_tracked_function tracer f ≡ true
      → tracer.is_toplevel_mode ≡ true
      → Ensures
          (BeginsTopLevel f (length args))
          (run_on_function_entry p tables opcodes tracer f args)
  unfolding run_on_function_entry copy_to_buffer
  run_on_function_entry-BeginsTopLevel tables f args tracked toplevel =
      let Goal = BeginsTopLevel f (length args) in
      either_by Goal (is_tracked_function tracer f && tracer.is_toplevel_mode) _ _
        (λ _.
          after_with Goal (λ b. b ≡ f) (copy_to_buffer f) _
            (either (λ b. b ≡ f) (ltb (length f) 256) (ok f) (err buffer_overflow) refl tt)
            λ b same.
              after_with Goal AreLines (print_all_arguments p tables true args) _
                (print_all_arguments-AreLines tables true args)
                λ lines h. (lines, h, simp (same, tracked, toplevel) refl))
        (λ other. absurd (ground (arith, tracked, toplevel, other)))

  -- The blocks of a function, each with what it has become.
  abbrev pub ShapedBlocks : Text → List BasicBlock → List (List BlockItem) → Type 0
  ShapedBlocks f blocks results =
      (block : BasicBlock) (items : List BlockItem)
      → Memᴰ (block, items) (zip blocks results)
      → ShapedBlock opcodes tracer f block items

  pub run_on_basic_blocks-ShapedBlocks :
      (f : Text) (blocks : List BasicBlock) (tables : NameTables)
      → runs_on_basic_block tracer f ≡ true
      → Ensures
          (λ (r : List (List BlockItem) × NameTables). ShapedBlocks f blocks r.0)
          (run_on_basic_blocks p opcodes tracer f blocks tables)
  unfolding run_on_basic_blocks
  run_on_basic_blocks-ShapedBlocks f [] tables runs = λ block items h. elim h [ ]
  run_on_basic_blocks-ShapedBlocks f (b ∷ blocks) tables runs =
      let Goal : List (List BlockItem) × NameTables → Type 0 =
        λ r. ShapedBlocks f (b ∷ blocks) r.0 in
      after_with Goal (λ (r : List BlockItem × NameTables). ShapedBlock opcodes tracer f b r.0)
        (run_on_basic_block p opcodes tracer f b tables) _
        (ensures (λ (r : List BlockItem × NameTables). ShapedBlock opcodes tracer f b r.0)
          (run_on_basic_block p opcodes tracer f b tables)
          λ (items, tables') e.
            run_on_basic_block-ShapedBlock p opcodes tracer f b tables tables' items runs e)
        λ (items, tables') first.
          after_with Goal (λ (r : List (List BlockItem) × NameTables). ShapedBlocks f blocks r.0)
            (run_on_basic_blocks p opcodes tracer f blocks tables') _
            (run_on_basic_blocks-ShapedBlocks f blocks tables' runs)
            λ (rest, tables'') more. with_first b items blocks rest first more
    where
      with_first :
          (b : BasicBlock) (items : List BlockItem) (blocks : List BasicBlock)
          (rest : List (List BlockItem))
          → ShapedBlock opcodes tracer f b items
          → ShapedBlocks f blocks rest
          → ShapedBlocks f (b ∷ blocks) (items ∷ rest)
      with_first b items blocks rest first more block is' (head e) =
          subst (λ (r : BasicBlock × List BlockItem). ShapedBlock opcodes tracer f r.0 r.1) (sym e)
            first
      with_first b items blocks rest first more block is' (tail h) = more block is' h
