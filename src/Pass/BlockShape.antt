-- ===== src/Pass/BlockShape.antt =====
-- The shape of an instrumented block (full-trace/full_trace.cpp).
use llvm_tracer.Prelude.{
  ℕ, ℤ, negsuc, length, ltb, ◌≡◌, refl, sym, subst, ap, ◌∙◌, Bool, true, false, ◌||◌, not, ◌⊎◌, inl,
  inr, All-append, map, none, some, List, [], ◌∷◌, ◌++◌, append-nil, Text, if◌then◌else◌, arith,
}
use llvm_tracer.Prelude.Result.{err, ok, buffer_overflow}
use llvm_tracer.Pass.Ensures.{Ensures, after, after_with, either, either_by, weaken, ensured}
use llvm_tracer.Pass.Names.{to_fxpt}
use llvm_tracer.Pass.Setup.{Tracer, is_tracked_function, runs_on_basic_block}
use llvm_tracer.Pass.Sizes.{IrType}
use llvm_tracer.Pass.Ids.{
  NameTables, make_value_id, get_inst_id, copy_to_buffer, process_alloca_instruction,
}
use llvm_tracer.Pass.Opcodes.{Opcodes, opcode_to_fixed_point, call_opcode}
use llvm_tracer.Pass.Inserted.{
  Inserted, log0, update_status, InstEnv, update_tracer_status, print_first_line,
}
use llvm_tracer.Pass.Handlers.{
  InstKind, invoke_inst, alloca_inst, return_inst, other_inst, call_inst, is_return, Instruction,
  PhiNode, or_before, print_phi_operands, print_result_line, handle_call_instruction,
  handle_instruction_result,
}
use llvm_tracer.Pass.Blocks.{
  BasicBlock, BlockItem, original, inserted, is_traced, is_invoke, is_alloca, declarations,
  BlockState, identify, handle_phi_nodes, handle_kind, handle_result, instrument_instruction,
  instrument_instructions, leading, run_on_basic_block, store_block,
}
use llvm_tracer.Pass.Shape.{
  IsLine, AreLines, IsHeaded, AreLinesFor, all_printed, line_numbers, up_from, line_opcode,
  IsResult, print_phi_operands-AreLines, print_result_line-IsResult,
  handle_instruction_result-IsResult, handle_call_instruction-IsHeaded, IsHandled,
  handle_non_phi_non_call_instruction-IsHandled,
}

-- What a block's status calls depend on.
abbrev SameFunction : InstEnv → InstEnv → Type 0
SameFunction e e' = (e'.func_name ≡ e.func_name) × (e'.to_fxpt ≡ e.to_fxpt)

module _ (opcodes : Opcodes) (tracer : Tracer) where
  -- The status call in front of a return of the function.
  abbrev pub return_status : Text → Bool → Instruction → List Inserted
  return_status func_name fxpt inst =
      if is_return inst.kind
      then update_status func_name
          (if fxpt then opcode_to_fixed_point opcodes inst.opcode else inst.opcode)
          (is_tracked_function tracer func_name) tracer.is_toplevel_mode
        ∷ []
      else []

  -- Is the instruction left alone?
  abbrev pub is_idle : InstKind → Bool
  is_idle kind = is_invoke kind || not (is_traced tracer kind)

  -- The first line of an instruction, with the function's name, the opcode and the modes, and the
  -- lines of its operands.
  abbrev pub IsLed : Text → Bool → Instruction → List Inserted → Type 0
  IsLed f fxpt inst before =
      (line_number : ℤ) × (bbid : Text) × (instid : Text) × (rest : List Inserted) × (before
        ≡ log0 line_number f bbid instid
            (if fxpt
              then opcode_to_fixed_point opcodes (line_opcode inst.kind inst.opcode)
              else line_opcode inst.kind inst.opcode)
            (is_tracked_function tracer f) tracer.is_toplevel_mode
          ∷ rest)
      × AreLinesFor (all_printed inst.operands) (line_numbers inst.kind inst.operands) rest

  -- The lines behind an instruction: none without a result, and one for a type that is printed.
  abbrev pub HasResultLine : Instruction → List Inserted → Type 0
  HasResultLine inst behind =
      ((inst.has_result ≡ false) × (behind ≡ []))
      ⊎ ((inst.has_result ≡ true) × IsResult inst.typed.type_of behind)

  -- The lines around an instruction.
  abbrev pub IsAround : Text → Bool → Instruction → List Inserted → List Inserted → Type 0
  IsAround f fxpt inst before behind =
      ((is_idle inst.kind ≡ true) × (before ≡ []) × (behind ≡ []))
      ⊎ ((is_idle inst.kind ≡ false) × IsLed f fxpt inst before × HasResultLine inst behind)

  -- The instructions in their order, each with its lines, and a return with its status call right
  -- in front.
  abbrev pub Shaped : Text → Bool → List Instruction → List BlockItem → Type 0
  Shaped f fxpt [] items = items ≡ []
  Shaped f fxpt (inst ∷ insts) items =
      (before : List Inserted) × (behind : List Inserted) × (rest : List BlockItem) × AreLines
        before
      × AreLines behind
      × IsAround f fxpt inst before behind
      × Shaped f fxpt insts rest
      × (items
          ≡ map inserted (before ++ return_status f fxpt inst)
            ++ (original inst ∷ map inserted behind ++ rest))

  -- What `runOnBasicBlock` leaves of a block.
  abbrev pub ShapedBlock : Text → BasicBlock → List BlockItem → Type 0
  ShapedBlock f block items =
      (phi_calls : List Inserted) × (rest : List BlockItem) × AreLines phi_calls
      × Shaped f (to_fxpt f) block.insts rest
      × (items ≡ map original (leading block) ++ (map inserted phi_calls ++ rest))

  pub IsAround-none_behind :
      (f : Text) (fxpt : Bool) (inst : Instruction) (before behind : List Inserted)
      → inst.has_result ≡ false
      → IsAround f fxpt inst before behind
      → behind ≡ []
  IsAround-none_behind f fxpt inst before behind none_left (inl (idle, first, e)) = e
  IsAround-none_behind f fxpt inst before behind none_left (inr (busy, led, inl (no_result, e))) = e
  IsAround-none_behind f fxpt inst before behind none_left (inr (busy, led, inr (has, h))) =
      absurd (ground (arith, none_left, has))

identify-SameFunction :
    (block : BasicBlock) (inst : Instruction) (s : BlockState)
    → Ensures (SameFunction s.env) (identify block inst s)
unfolding identify
identify-SameFunction block inst s =
    after (SameFunction s.env) (make_value_id s.tables block.value (some block.loop_depth)) _ λ id.
      after (SameFunction s.env)
        (get_inst_id s.tables inst.typed.value (some (or_before id s.env.bbid)) (some s.env.instc))
        _ λ r. (refl, refl)

module _ (p : IrType → ℕ) (opcodes : Opcodes) (tracer : Tracer) where
  -- What the phi nodes give: lines, in the environment of the same function.
  abbrev PhiCalls : BlockState → List Inserted × BlockState → Type 0
  PhiCalls s r = AreLines r.0 × SameFunction s.env r.1.env

  handle_phi_nodes-AreLines :
      (block : BasicBlock) (phis : List PhiNode) (prev buffer : Text) (s : BlockState)
      → Ensures (PhiCalls s) (handle_phi_nodes p opcodes tracer block phis prev buffer s)
  unfolding handle_phi_nodes print_first_line
  handle_phi_nodes-AreLines block [] prev buffer s = (tt, (refl, refl))
  handle_phi_nodes-AreLines block (phi ∷ phis) prev buffer s =
      after_with (PhiCalls s) (SameFunction s.env) (identify block phi.inst s) _
        (identify-SameFunction block phi.inst s)
        λ env same.
          after_with (PhiCalls s) (λ (r : List Inserted × Text × Text). AreLines r.0)
            (print_phi_operands p s.tables 1 phi.incoming prev buffer) _
            (print_phi_operands-AreLines p s.tables 1 phi.incoming prev buffer)
            λ (lines, prev', buffer') h.
              after_with (PhiCalls s) AreLines
                (if phi.inst.has_result
                  then print_result_line p env.instid prev' phi.inst
                  else ok [])
                _
                (either AreLines phi.inst.has_result _ (ok [])
                  (weaken (IsResult phi.inst.typed.type_of) AreLines
                    (print_result_line p env.instid prev' phi.inst)
                    (print_result_line-IsResult p env.instid prev' phi.inst) λ calls h. h.0)
                  tt)
                λ result h'.
                  after_with (PhiCalls s) (PhiCalls (record s { env = env }))
                    (handle_phi_nodes p opcodes tracer block phis prev' buffer'
                      (record s { env = env }))
                    _ (handle_phi_nodes-AreLines block phis prev' buffer' (record s { env = env }))
                    λ (rest, s') (more, same'). (
                      (
                        tt,
                        All-append IsLine lines (result ++ rest) h
                            (All-append IsLine result rest h' more),
                      ),
                      (same'.0 ∙ same.0, same'.1 ∙ same.1),
                    )

  handle_kind-IsHandled :
      (k : InstKind) (tables : NameTables) (inst : Instruction) (env : InstEnv)
      → inst.kind ≡ k
      → Ensures (IsHandled opcodes tracer inst env) (handle_kind p opcodes tracer k tables inst env)
  unfolding handle_kind
  handle_kind-IsHandled (call_inst (some fun) n) tables inst env e =
      weaken
        (IsHeaded opcodes tracer env (call_opcode fun inst.opcode) (all_printed inst.operands)
          (length inst.operands ∷ up_from 1 n))
        (IsHandled opcodes tracer inst env)
        (handle_call_instruction p opcodes tracer tables inst fun n env)
        (handle_call_instruction-IsHeaded p opcodes tracer tables inst fun n env)
        λ calls (rest, h, same). (rest, rw e h, rw e (same ∙ sym (append-nil _)))
  handle_kind-IsHandled (call_inst none n) tables inst env e =
      handle_non_phi_non_call_instruction-IsHandled p opcodes tracer tables inst env (rw e refl)
        (rw e refl)
  handle_kind-IsHandled invoke_inst tables inst env e =
      handle_non_phi_non_call_instruction-IsHandled p opcodes tracer tables inst env (rw e refl)
        (rw e refl)
  handle_kind-IsHandled alloca_inst tables inst env e =
      handle_non_phi_non_call_instruction-IsHandled p opcodes tracer tables inst env (rw e refl)
        (rw e refl)
  handle_kind-IsHandled return_inst tables inst env e =
      handle_non_phi_non_call_instruction-IsHandled p opcodes tracer tables inst env (rw e refl)
        (rw e refl)
  handle_kind-IsHandled other_inst tables inst env e =
      handle_non_phi_non_call_instruction-IsHandled p opcodes tracer tables inst env (rw e refl)
        (rw e refl)

  -- What has no calls of its own is no return.
  idle_no_return : (k : InstKind) → is_idle opcodes tracer k ≡ true → is_return k ≡ false
  idle_no_return (call_inst called n) e = refl
  idle_no_return invoke_inst e = refl
  idle_no_return alloca_inst e = refl
  idle_no_return return_inst e = cc
  idle_no_return other_inst e = refl

  handle_result-HasResultLine :
      (tables : NameTables) (inst : Instruction) (instid : Text)
      → Ensures
          (λ (r : List Inserted × Text × NameTables). HasResultLine opcodes tracer inst r.0)
          (handle_result p opcodes tracer tables inst instid)
  unfolding handle_result
  handle_result-HasResultLine tables inst instid =
      let Goal : List Inserted × Text × NameTables → Type 0 =
        λ r. HasResultLine opcodes tracer inst r.0 in
      either_by Goal inst.has_result _ _
        (λ has.
          weaken (λ (r : List Inserted × Text × NameTables). IsResult inst.typed.type_of r.0) Goal
            (handle_instruction_result p tables inst instid)
            (handle_instruction_result-IsResult p tables inst instid) λ r h. inr (has, h))
        (λ no_result. inl (no_result, refl))

  HasResultLine-AreLines :
      (inst : Instruction) (behind : List Inserted)
      → HasResultLine opcodes tracer inst behind
      → AreLines behind
  HasResultLine-AreLines inst behind (inl (no_result, e)) = subst AreLines (sym e) tt
  HasResultLine-AreLines inst behind (inr (has, h)) = h.0

  -- One round of the loop.
  abbrev Round : Instruction → BlockState → List Inserted × List Inserted × BlockState → Type 0
  Round inst s r =
      (lines : List Inserted) × AreLines lines
      × (r.0 ≡ lines ++ return_status opcodes tracer s.env.func_name s.env.to_fxpt inst)
      × AreLines r.1
      × IsAround opcodes tracer s.env.func_name s.env.to_fxpt inst lines r.1
      × SameFunction s.env r.2.env

  module _ (inst : Instruction) (s : BlockState) where
    idle-Round :
        (env : InstEnv)
        → SameFunction s.env env
        → is_idle opcodes tracer inst.kind ≡ true
        → Round inst s ([], [], record s { env = env })
    idle-Round env same idle =
        ([], tt, rw (idle_no_return inst.kind idle) refl, tt, inl (idle, refl, refl), same)

    same_status :
        (env : InstEnv)
        → SameFunction s.env env
        → (if is_return inst.kind
            then update_tracer_status opcodes tracer env inst.opcode ∷ []
            else [])
          ≡ return_status opcodes tracer s.env.func_name s.env.to_fxpt inst
    unfolding update_tracer_status
    same_status env same = rw (sym same.0, sym same.1) refl

    first-IsLed :
        (env : InstEnv) (rest : List Inserted)
        → SameFunction s.env env
        → AreLinesFor (all_printed inst.operands) (line_numbers inst.kind inst.operands) rest
        → IsLed opcodes tracer s.env.func_name s.env.to_fxpt inst
            (print_first_line opcodes tracer env (line_opcode inst.kind inst.opcode) ∷ rest)
    unfolding print_first_line
    first-IsLed env rest same h =
        (env.line_number, env.bbid, env.instid, rest, rw (sym same.0, sym same.1) refl, h)

  instrument_instruction-Round :
      (block : BasicBlock) (inst : Instruction) (following : List Instruction) (s : BlockState)
      → Ensures (Round inst s) (instrument_instruction p opcodes tracer block inst following s)
  unfolding instrument_instruction print_first_line
  instrument_instruction-Round block inst following s =
      either_by (Round inst s) (is_invoke inst.kind) _ _
        (λ invoke. idle-Round inst s s.env (refl, refl) (ground (arith, invoke)))
        (λ no_invoke.
          after_with (Round inst s) (SameFunction s.env) (identify block inst s) _
            (identify-SameFunction block inst s)
            λ env same.
              either_by (Round inst s) (not (is_traced tracer inst.kind)) _ _
                (λ untraced. idle-Round inst s env same (ground (arith, no_invoke, untraced)))
                (λ traced.
                  after_with (Round inst s) (IsHandled opcodes tracer inst env)
                    (handle_kind p opcodes tracer inst.kind s.tables inst env) _
                    (handle_kind-IsHandled inst.kind s.tables inst env refl)
                    λ before (rest, h, e).
                      after_with (Round inst s)
                        (λ (r : List Inserted × Text × NameTables).
                          HasResultLine opcodes tracer inst r.0)
                        (handle_result p opcodes tracer s.tables inst env.instid) _
                        (handle_result-HasResultLine s.tables inst env.instid)
                        λ (behind, instid, tables) h'.
                          let first =
                            print_first_line opcodes tracer env
                              (line_opcode inst.kind inst.opcode) in
                          after (Round inst s)
                            (if is_alloca inst.kind
                              then process_alloca_instruction inst.typed.value
                                  (declarations following) tables
                              else ok tables)
                            _
                            λ tables'. (
                              first ∷ rest,
                              (tt, h.0),
                              e
                                  ∙ ap (λ status. (first ∷ rest) ++ status)
                                      (same_status inst s env same),
                              HasResultLine-AreLines inst behind h',
                              inr (
                                ground (arith, no_invoke, traced),
                                first-IsLed inst s env rest same h,
                                h',
                              ),
                              same,
                            )))

  instrument_instructions-Shaped :
      (block : BasicBlock) (insts : List Instruction) (s : BlockState)
      → Ensures
          (λ (r : List BlockItem × BlockState).
            Shaped opcodes tracer s.env.func_name s.env.to_fxpt insts r.0)
          (instrument_instructions p opcodes tracer block insts s)
  unfolding instrument_instructions
  instrument_instructions-Shaped block [] s = refl
  instrument_instructions-Shaped block (inst ∷ insts) s =
      let Goal : List BlockItem × BlockState → Type 0 =
        λ r. Shaped opcodes tracer s.env.func_name s.env.to_fxpt (inst ∷ insts) r.0 in
      after_with Goal (Round inst s) (instrument_instruction p opcodes tracer block inst insts s) _
        (instrument_instruction-Round block inst insts s)
        λ (before, behind, s') (lines, h, e, h', around, same).
          after_with Goal
            (λ (r : List BlockItem × BlockState).
              Shaped opcodes tracer s'.env.func_name s'.env.to_fxpt insts r.0)
            (instrument_instructions p opcodes tracer block insts s') _
            (instrument_instructions-Shaped block insts s')
            λ (items, s'') shaped. (
              lines,
              behind,
              items,
              h,
              h',
              around,
              subst (λ name. Shaped opcodes tracer name s.env.to_fxpt insts items) same.0
                  (subst (λ b. Shaped opcodes tracer s'.env.func_name b insts items) same.1 shaped),
              ap (λ calls. map inserted calls ++ (original inst ∷ map inserted behind ++ items)) e,
            )

  pub run_on_basic_block-ShapedBlock :
      (f : Text) (block : BasicBlock) (tables tables' : NameTables) (items : List BlockItem)
      → runs_on_basic_block tracer f ≡ true
      → run_on_basic_block p opcodes tracer f block tables ≡ ok (items, tables')
      → ShapedBlock opcodes tracer f block items
  unfolding run_on_basic_block copy_to_buffer
  run_on_basic_block-ShapedBlock f block tables tables' items runs e =
      ensured Goal (run_on_basic_block p opcodes tracer f block tables) (items, tables') holds e
    where
      Goal : List BlockItem × NameTables → Type 0
      Goal r = ShapedBlock opcodes tracer f block r.0

      buffered : Ensures (λ b. b ≡ f) (copy_to_buffer f)
      buffered = either (λ b. b ≡ f) (ltb (length f) 256) (ok f) (err buffer_overflow) refl tt

      holds : Ensures Goal (run_on_basic_block p opcodes tracer f block tables)
      holds =
          either_by Goal (not (runs_on_basic_block tracer f)) _ _
            (λ no_run. absurd (ground (arith, runs, no_run)))
            (λ _.
              after_with Goal (λ b. b ≡ f) (copy_to_buffer f) _ buffered
                λ b same.
                  let env : InstEnv = record {
                    func_name = b;
                    bbid = [];
                    instid = [];
                    line_number = negsuc 0;
                    instc = 0;
                    to_fxpt = to_fxpt f;
                  } in
                  let start : BlockState = record { env = env; tables = tables } in
                  after_with Goal (PhiCalls start)
                    (handle_phi_nodes p opcodes tracer block block.phis [] [] start) _
                    (handle_phi_nodes-AreLines block block.phis [] [] start)
                    λ (phi_calls, s) (h, kept).
                      after_with Goal
                        (λ (r : List BlockItem × BlockState).
                          Shaped opcodes tracer s.env.func_name s.env.to_fxpt block.insts r.0)
                        (instrument_instructions p opcodes tracer block block.insts s) _
                        (instrument_instructions-Shaped block block.insts s)
                        λ (rest, s') shaped.
                          after Goal
                            (store_block p opcodes tracer (map inserted phi_calls ++ rest)
                              s'.tables)
                            _
                            λ tables''. (
                              phi_calls,
                              rest,
                              h,
                              subst
                                  (λ name. Shaped opcodes tracer name (to_fxpt f) block.insts rest)
                                  (kept.0 ∙ same)
                                  (subst
                                    (λ fxpt.
                                      Shaped opcodes tracer s.env.func_name fxpt block.insts rest)
                                    kept.1 shaped),
                              refl,
                            ))
