-- ===== src/Pass/CallSession.antt =====
-- The calls that an instrumented top-level function makes are a session of the runtime
-- (full-trace/full_trace.cpp and profile-func/trace_logger.cpp together).
use llvm_tracer.Prelude.{
  ℕ, pos, length, ◌≡◌, refl, sym, subst, ap, ◌∙◌, true, false, ◌⊎◌, All, All-append, map, some,
  List, [], ◌∷◌, ◌++◌, append_assoc, append-nil, Text,
}
use llvm_tracer.Prelude.Result.{Result, ok, err, exit_failure, ◌>>=◌, >>=_congr, >>=_assoc}
use llvm_tracer.Runtime.Gz.{Gz, View, IsLawful}
use llvm_tracer.Runtime.State.{World, ret_op}
use llvm_tracer.Runtime.Status.{trace_logger_update_status, is_empty}
use llvm_tracer.Runtime.Lines.{trace_logger_log_entry}
use llvm_tracer.Runtime.Session.{
  Event, IsBackedEvent, run_events, session, enter, IsIdle, beginning,
}
use llvm_tracer.Runtime.Session.Content.{Traced, printed, session-Traced}
use llvm_tracer.Runtime.Opening.{CannotOpen}
use llvm_tracer.Pass.Ensures.{ensured}
use llvm_tracer.Pass.Names.{to_fxpt}
use llvm_tracer.Pass.Setup.{Tracer}
use llvm_tracer.Pass.Sizes.{IrType}
use llvm_tracer.Pass.Ids.{NameTables}
use llvm_tracer.Pass.Opcodes.{Opcodes}
use llvm_tracer.Pass.Inserted.{Inserted}
use llvm_tracer.Pass.Handlers.{return_inst, Instruction}
use llvm_tracer.Pass.Blocks.{
  BasicBlock, BlockItem, original, inserted, leading, Function, Instrumented, run_on_function,
}
use llvm_tracer.Pass.BlockShape.{Shaped, ShapedBlock}
use llvm_tracer.Pass.FunctionShape.{BeginsTopLevel, ShapedBlocks}
use llvm_tracer.Pass.Execution.{
  Values, lines_events, items_events, run_inserted, run_all_inserted, run_items,
}
use llvm_tracer.Pass.Returns.{
  IsLineItem, NoReturn, Shaped-AreLineItems, last_status, EndsInReturn, Shaped-EndsInReturn,
  originals-AreLineItems, inserted-AreLineItems,
}
use llvm_tracer.Pass.Running.{run_events-append, joined, lines_run, items_run}
use llvm_tracer.Pass.Sessions.{
  IsTopLevel, run_on_function-ShapedFunction, ShapedFunction, Visit, visits_events, call_body,
  IsPassing, IsReturning, run_visits, run_call,
}

regrouped {ℓ} :
    {A : Type ℓ} (as' bs cs ds : List A) → as' ++ (bs ++ (cs ++ ds)) ≡ (as' ++ (bs ++ cs)) ++ ds
regrouped as' bs cs ds = simp append_assoc

module _ (opcodes : Opcodes) (tracer : Tracer) (f : Text) where
  block-AreLineItems :
      (block : BasicBlock) (items : List BlockItem)
      → All NoReturn block.insts
      → ShapedBlock opcodes tracer f block items
      → All IsLineItem items
  block-AreLineItems block items none_returns (phi_calls, rest, h, shaped, e) =
      subst (All IsLineItem) (sym e) (
        All-append IsLineItem _ _ (originals-AreLineItems (leading block)) (
          All-append IsLineItem _ rest (inserted-AreLineItems phi_calls h) (
            Shaped-AreLineItems opcodes tracer f (to_fxpt f) block.insts rest none_returns shaped)))

  block-EndsInReturn :
      (block : BasicBlock) (items : List BlockItem) (front : List Instruction) (ret : Instruction)
      → block.insts ≡ front ++ (ret ∷ [])
      → All NoReturn front
      → ret.kind ≡ return_inst
      → ret.has_result ≡ false
      → ShapedBlock opcodes tracer f block items
      → EndsInReturn opcodes tracer f (to_fxpt f) ret items
  block-EndsInReturn block items front ret ends none_returns returns no_result
        (phi_calls, rest, h, shaped, e) =
      let (lines, l, e') =
        Shaped-EndsInReturn opcodes tracer f (to_fxpt f) front ret rest none_returns returns
          no_result (subst (λ insts. Shaped opcodes tracer f (to_fxpt f) insts rest) ends shaped) in
      (
        map original (leading block) ++ (map inserted phi_calls ++ lines),
        All-append IsLineItem _ _ (originals-AreLineItems (leading block))
            (All-append IsLineItem _ lines (inserted-AreLineItems phi_calls h) l),
        e
            ∙ ap (λ r. map original (leading block) ++ (map inserted phi_calls ++ r)) e'
            ∙ regrouped (map original (leading block)) (map inserted phi_calls) lines _,
      )

>>=_ok {ℓ} : {A : Type ℓ} (r : Result A) → (r >>= ok) ≡ r
>>=_ok (ok a) = refl
>>=_ok (err fault) = refl

items_events_append :
    {Double : Type 0} (values : Values Double) (inside : Instruction → List (Event Double))
    (items rest : List BlockItem)
    → items_events values inside (items ++ rest)
      ≡ items_events values inside items ++ items_events values inside rest
items_events_append values inside [] rest = refl
items_events_append values inside (original inst ∷ items) rest =
    rw (items_events_append values inside items rest) (simp append_assoc)
items_events_append values inside (inserted c ∷ items) rest =
    rw (items_events_append values inside items rest) (simp append_assoc)

module _ {Double : Type 0} (show_double : Double → Text) {z : Gz} where
  line_items_run :
      (values : Values Double) (inside : Instruction → List (Event Double)) (items : List BlockItem)
      (w : World z)
      → All IsLineItem items
      → run_items show_double values inside items w
        ≡ run_events show_double (items_events values inside items) w
  unfolding run_items
  line_items_run values inside items w h =
      ap (λ is. run_items show_double values inside is w) (sym (append-nil items))
      ∙ items_run show_double values inside items [] w h
      ∙ >>=_ok (run_events show_double (items_events values inside items) w)

  returning_items_run :
      (opcodes : Opcodes) (tracer : Tracer) (f : Text) (ret : Instruction) (values : Values Double)
      (inside : Instruction → List (Event Double)) (items : List BlockItem) (w : World z)
      → EndsInReturn opcodes tracer f (to_fxpt f) ret items
      → inside ret ≡ []
      → run_items show_double values inside items w ≡ (
          run_events show_double (items_events values inside items) w
          >>= run_inserted show_double values (last_status opcodes tracer f (to_fxpt f) ret))
  unfolding run_items run_events
  returning_items_run opcodes tracer f ret values inside items w (lines, h, e) silent =
      ap (λ is. run_items show_double values inside is w) e
      ∙ items_run show_double values inside lines (inserted status ∷ original ret ∷ []) w h
      ∙ >>=_congr (run_events show_double (items_events values inside lines) w) _ _
          (λ v. rw silent (>>=_ok _))
      ∙ ap (λ es. run_events show_double es w >>= run_inserted show_double values status)
          same_events
    where
      status : Inserted
      status = last_status opcodes tracer f (to_fxpt f) ret

      same_events : items_events values inside lines ≡ items_events values inside items
      same_events = sym (
          ap (items_events values inside) e
          ∙ items_events_append values inside lines (inserted status ∷ original ret ∷ [])
          ∙ rw silent (append-nil (items_events values inside lines)))

  visits_run :
      (opcodes : Opcodes) (tracer : Tracer) (f : Function) (instrumented : Instrumented)
      (visits : List (Visit Double)) (w : World z)
      → (p : IrType → ℕ) → ShapedBlocks p opcodes tracer f.name f.blocks instrumented.blocks
      → All (IsPassing f instrumented) visits
      → run_visits show_double visits w ≡ run_events show_double (visits_events visits) w
  unfolding run_visits run_events
  visits_run opcodes tracer f instrumented [] w p shaped h = refl
  visits_run opcodes tracer f instrumented (v ∷ visits) w p shaped ((visited, none_returns), h) =
      ap (λ r. r >>= run_visits show_double visits)
        (line_items_run v.values v.inside v.items w (
          block-AreLineItems opcodes tracer f.name v.block v.items none_returns
            (shaped v.block v.items visited)))
      ∙ >>=_congr (run_events show_double (items_events v.values v.inside v.items) w) _ _
          (λ w'. visits_run opcodes tracer f instrumented visits w' p shaped h)
      ∙ sym (
          run_events-append show_double (items_events v.values v.inside v.items)
            (visits_events visits) w)

  last_visit_run :
      (opcodes : Opcodes) (tracer : Tracer) (f : Function) (instrumented : Instrumented)
      (v : Visit Double) (w : World z)
      → (p : IrType → ℕ) → IsTopLevel tracer f.name
      → ShapedBlocks p opcodes tracer f.name f.blocks instrumented.blocks
      → IsReturning opcodes f instrumented v
      → run_items show_double v.values v.inside v.items w ≡ (
          run_events show_double (items_events v.values v.inside v.items) w
          >>= trace_logger_update_status f.name (pos ret_op) true true)
  unfolding run_inserted
  last_visit_run opcodes tracer f instrumented v w p top shaped
        (front, ret, visited, ends, none_returns, returns, no_result, silent, op) =
      returning_items_run opcodes tracer f.name ret v.values v.inside v.items w
        (block-EndsInReturn opcodes tracer f.name v.block v.items front ret ends none_returns
          returns no_result (shaped v.block v.items visited))
        silent
      ∙ >>=_congr (run_events show_double (items_events v.values v.inside v.items) w) _ _
          (λ w'. simp (op, top.1, top.2) refl)

  -- The calls at the start of the function.
  entry_run :
      (p : IrType → ℕ) (opcodes : Opcodes) (tracer : Tracer) (f : Text) (n : ℕ)
      (values : Values Double) (calls : List Inserted) (w : World z)
      → BeginsTopLevel p opcodes tracer f n calls
      → run_all_inserted show_double values calls w
        ≡ (enter f (pos n) w >>= run_events show_double (lines_events values calls))
  unfolding run_all_inserted run_inserted enter
  entry_run p opcodes tracer f n values calls w (lines, h, e) =
      ap (λ cs. run_all_inserted show_double values cs w) e
      ∙ >>=_congr (trace_logger_update_status f (pos 0) true true w) _ _ (λ v.
        >>=_congr (trace_logger_log_entry f (pos n) v) _ _
          (λ v'. lines_run show_double values lines v' h))
      ∙ sym (
          >>=_assoc (trace_logger_update_status f (pos 0) true true w)
            (trace_logger_log_entry f (pos n)) _)
      ∙ ap (λ cs. enter f (pos n) w >>= run_events show_double (lines_events values cs)) (sym e)

  module _ (p : IrType → ℕ) (opcodes : Opcodes) (tracer : Tracer) (f : Function)
      (tables : NameTables) (instrumented : Instrumented) (values : Values Double)
      (visits : List (Visit Double)) (last_visit : Visit Double) (w : World z) where
    -- If the pass instruments a top-level function, then a call of it that visits blocks without a
    -- return and at last a block that ends in its only return, with the opcode RET_OP, is a
    -- session of the runtime. What happens in the session is what the calls of the visited blocks
    -- print and what the called functions log, in their order.
    pub run_call-session :
        IsTopLevel tracer f.name
        → run_on_function p opcodes tracer f tables ≡ ok (some instrumented)
        → All (IsPassing f instrumented) visits
        → IsReturning opcodes f instrumented last_visit
        → run_call show_double values instrumented visits last_visit w
          ≡ session show_double f.name
              (pos (length f.args))
              (call_body values instrumented visits last_visit)
              w
    unfolding run_call session
    run_call-session top e passing returning =
        let (entry, shaped) =
          ensured (ShapedFunction p opcodes tracer f) (run_on_function p opcodes tracer f tables)
            (some instrumented) (run_on_function-ShapedFunction p opcodes tracer f tables top) e in
        ap
          (λ r. r >>= λ v.
            (run_visits show_double visits v
              >>= run_items show_double last_visit.values last_visit.inside last_visit.items))
          (entry_run p opcodes tracer f.name (length f.args) values instrumented.entry_calls w
            entry)
        ∙ >>=_assoc (enter f.name (pos (length f.args)) w) _ _
        ∙ >>=_congr (enter f.name (pos (length f.args)) w) _ _ (λ v. body v shaped)
      where
        args : List (Event Double)
        args = lines_events values instrumented.entry_calls

        last : List (Event Double)
        last = items_events last_visit.values last_visit.inside last_visit.items

        leave : World z → Result (World z)
        leave = trace_logger_update_status f.name (pos ret_op) true true

        blocks :
            (v : World z)
            → ShapedBlocks p opcodes tracer f.name f.blocks instrumented.blocks
            → (run_visits show_double visits v
                >>= run_items show_double last_visit.values last_visit.inside last_visit.items)
              ≡ (run_events show_double (visits_events visits ++ last) v >>= leave)
        blocks v shaped =
            ap
              (λ r.
                r >>= run_items show_double last_visit.values last_visit.inside last_visit.items)
              (visits_run opcodes tracer f instrumented visits v p shaped passing)
            ∙ >>=_congr (run_events show_double (visits_events visits) v) _ _ (λ v'.
              last_visit_run opcodes tracer f instrumented last_visit v' p top shaped returning)
            ∙ joined show_double (visits_events visits) last v leave

        body :
            (v : World z)
            → ShapedBlocks p opcodes tracer f.name f.blocks instrumented.blocks
            → (run_events show_double args v >>= λ v'.
                (run_visits show_double visits v'
                  >>= run_items show_double last_visit.values last_visit.inside last_visit.items))
              ≡ (run_events show_double (call_body values instrumented visits last_visit) v
                  >>= leave)
        body v shaped =
            >>=_congr (run_events show_double args v) _ _ (λ v'. blocks v' shaped)
            ∙ joined show_double args (visits_events visits ++ last) v leave

    -- If the pass instruments a top-level function with a name, and a call of it, begun while
    -- nothing is traced, visits blocks without a return and at last a block that ends in its only
    -- return, with the opcode RET_OP and with the bytes of the printed vectors in memory, then the
    -- call runs to its end. Its trace file then holds what it held (a new file: the label map),
    -- the entry line and what the visited blocks and the called functions print; the files of
    -- other names are untouched. Only a new name whose file cannot be opened stops the program.
    pub run_call-Traced :
        {v : View z}
        → IsLawful z v
        → IsTopLevel tracer f.name
        → run_on_function p opcodes tracer f tables ≡ ok (some instrumented)
        → All (IsPassing f instrumented) visits
        → IsReturning opcodes f instrumented last_visit
        → is_empty f.name ≡ false
        → All IsBackedEvent (call_body values instrumented visits last_visit)
        → IsIdle v w
        → ((run_call show_double values instrumented visits last_visit w ≡ err exit_failure)
            × CannotOpen (beginning w).trace_name w)
          ⊎ ((w' : World z) × (run_call show_double values instrumented visits last_visit w ≡ ok w')
              × Traced v
                  (beginning w).trace_name
                  (printed show_double f.name
                    (pos (length f.args))
                    (call_body values instrumented visits last_visit)
                    w)
                  w
                  w')
    run_call-Traced L top e passing returning named backed idle =
        let is_session = run_call-session top e passing returning in
        rw is_session (
          session-Traced show_double L f.name (pos (length f.args))
            (call_body values instrumented visits last_visit) w named backed idle)
