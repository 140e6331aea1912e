-- ===== src/Pass/Running.antt =====
-- Inserted lines run as the events of a session (full-trace/full_trace.cpp with
-- profile-func/trace_logger.cpp).
use llvm_tracer.Prelude.{◌≡◌, refl, sym, ap, ◌∙◌, All, List, [], ◌∷◌, ◌++◌, Text}
use llvm_tracer.Prelude.Result.{Result, ◌>>=◌, >>=_congr, >>=_assoc}
use llvm_tracer.Runtime.Gz.{Gz}
use llvm_tracer.Runtime.State.{World}
use llvm_tracer.Runtime.Session.{Event, run_event, run_events}
use llvm_tracer.Pass.Inserted.{
  Inserted, log_entry, update_status, log0, log_int, log_double, log_ptr, log_string, log_vector,
}
use llvm_tracer.Pass.Handlers.{Instruction}
use llvm_tracer.Pass.Blocks.{BlockItem, original, inserted}
use llvm_tracer.Pass.Shape.{IsLine, AreLines}
use llvm_tracer.Pass.Execution.{
  Values, line_events, lines_events, items_events, run_inserted, run_all_inserted, run_items,
}
use llvm_tracer.Pass.Returns.{IsLineItem}

module _ {Double : Type 0} (show_double : Double → Text) {z : Gz} where
  pub run_events-append :
      (es ds : List (Event Double)) (w : World z)
      → run_events show_double (es ++ ds) w
        ≡ (run_events show_double es w >>= run_events show_double ds)
  unfolding run_events
  run_events-append [] ds w = refl
  run_events-append (e ∷ es) ds w =
      >>=_congr (run_event show_double e w) _ _ (λ v. run_events-append es ds v)
      ∙ sym (
          >>=_assoc (run_event show_double e w) (run_events show_double es)
            (run_events show_double ds))

  pub joined :
      (es ds : List (Event Double)) (w : World z) (rest : World z → Result (World z))
      → (run_events show_double es w >>= λ v. (run_events show_double ds v >>= rest))
        ≡ (run_events show_double (es ++ ds) w >>= rest)
  joined es ds w rest =
      sym (>>=_assoc (run_events show_double es w) (run_events show_double ds) rest)
      ∙ ap (λ r. r >>= rest) (sym (run_events-append es ds w))

  line_runs :
      (values : Values Double) (c : Inserted) (w : World z)
      → IsLine c
      → run_inserted show_double values c w ≡ run_events show_double (line_events values c) w
  unfolding run_inserted
  line_runs values (log_entry name n) w h = elim h [ ]
  line_runs values (update_status name opcode tracked toplevel) w h = elim h [ ]
  line_runs values (log0 line name bbid instid opcode tracked toplevel) w h = refl
  line_runs values (log_int line v) w h = refl
  line_runs values (log_double line v) w h = refl
  line_runs values (log_ptr line v) w h = refl
  line_runs values (log_string line v) w h = refl
  line_runs values (log_vector line v) w h = refl

  -- Lines run as the events that they print.
  pub lines_run :
      (values : Values Double) (cs : List Inserted) (w : World z)
      → AreLines cs
      → run_all_inserted show_double values cs w ≡ run_events show_double (lines_events values cs) w
  unfolding run_all_inserted run_events
  lines_run values [] w h = refl
  lines_run values (c ∷ cs) w h =
      ap (λ r. r >>= run_all_inserted show_double values cs) (line_runs values c w h.0)
      ∙ >>=_congr (run_events show_double (line_events values c) w) _ _
          (λ v. lines_run values cs v h.1)
      ∙ sym (run_events-append (line_events values c) (lines_events values cs) w)

  pub items_run :
      (values : Values Double) (inside : Instruction → List (Event Double))
      (items rest : List BlockItem) (w : World z)
      → All IsLineItem items
      → run_items show_double values inside (items ++ rest) w ≡ (
          run_events show_double (items_events values inside items) w
          >>= run_items show_double values inside rest)
  unfolding run_items run_events
  items_run values inside [] rest w h = refl
  items_run values inside (original inst ∷ items) rest w h =
      >>=_congr (run_events show_double (inside inst) w) _ _
        (λ v. items_run values inside items rest v h.1)
      ∙ joined (inside inst) (items_events values inside items) w
          (run_items show_double values inside rest)
  items_run values inside (inserted c ∷ items) rest w h =
      ap (λ r. r >>= run_items show_double values inside (items ++ rest)) (line_runs values c w h.0)
      ∙ >>=_congr (run_events show_double (line_events values c) w) _ _
          (λ v. items_run values inside items rest v h.1)
      ∙ joined (line_events values c) (items_events values inside items) w
          (run_items show_double values inside rest)
