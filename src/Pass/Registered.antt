-- ===== src/Pass/Registered.antt =====
-- The label map file reaches the runtime: `LabelMapHandler` (full-trace/full_trace.cpp) and
-- the calls of profile-func/trace_logger.cpp that it inserts.
use llvm_tracer.Prelude.{
  zero, suc, length, Bool, true, false, ◌≡◌, ◌≢◌, refl, ap, some, List, [], ◌∷◌, Text, All, take,
  take_all, if◌then◌else◌, arith,
}
use llvm_tracer.Prelude.Result.{Result, ok, ◌>>=◌}
use llvm_tracer.Runtime.Gz.{Gz}
use llvm_tracer.Runtime.State.{World, start}
use llvm_tracer.Runtime.Files.{trace_logger_register_labelmap, trace_logger_init, create_trace}
use llvm_tracer.Runtime.Hex.{c_string}
use llvm_tracer.Pass.Setup.{is_empty}
use llvm_tracer.Pass.LabelMap.{
  read_label_map, ModuleCall, trace_logger_init_call, trace_logger_register_labelmap_call,
  run_on_module,
}

module _ {z : Gz} where
  -- An inserted call, in a program where the mutex can be made.
  pub run_module_call : ModuleCall → World z → Result (World z)
  run_module_call trace_logger_init_call w = trace_logger_init true w
  run_module_call (trace_logger_register_labelmap_call buf size) w =
      ok (trace_logger_register_labelmap (take size buf) w)

  pub run_module_calls : List ModuleCall → World z → Result (World z)
  run_module_calls [] w = ok w
  run_module_calls (call ∷ calls) w = run_module_call call w >>= run_module_calls calls

abbrev pub IsText : Text → Type 0
IsText = All (λ c. c ≢ 0)

c_string-IsText : (s : Text) → IsText s → c_string s ≡ s
c_string-IsText [] h = refl
c_string-IsText (zero ∷ s) h = absurd (h.0 refl)
c_string-IsText (suc c ∷ s) h = ap (◌∷◌ (suc c)) (c_string-IsText s h.1)

read_label_map-IsText :
    (content : Text)
    → IsText content
    → read_label_map (some content) [] ≡ (content, if is_empty content then false else true)
unfolding read_label_map
read_label_map-IsText [] h = refl
read_label_map-IsText (c ∷ content) h = rw (c_string-IsText (c ∷ content) h) refl

-- If the label map file has text without zero bytes, then the start of an instrumented `main`
-- registers exactly this text; an empty file leaves the runtime without a label map.
pub registers_label_map :
    (z : Gz) (d : z.Disk) (content : Text)
    → IsText content
    → (w : World z) × (run_module_calls (run_on_module true (some content) []).1 (start z d) ≡ ok w)
      × (w.labelmap_str ≡ content)
unfolding run_on_module run_module_calls run_module_call trace_logger_init create_trace
    trace_logger_register_labelmap
registers_label_map z d [] h = (_, refl, refl)
registers_label_map z d (c ∷ content) h =
    let text : Text = c ∷ content in
    let calls : Text × Bool → List ModuleCall = λ (read, contains).
      trace_logger_init_call
      ∷ (if contains then trace_logger_register_labelmap_call read (length read) ∷ [] else []) in
    (
      _,
      ap (λ read. run_module_calls {z = z} (calls read) (start z d)) (read_label_map-IsText text h),
      take_all (length text) text (omega arith),
    )
