-- ===== src/Pass/LabelMap.antt =====
-- The label map pass: `LabelMapHandler` (full-trace/full_trace.cpp).
use llvm_tracer.Prelude.{
  ℕ, length, Bool, true, false, Option, none, some, List, [], ◌∷◌, Text, if◌then◌else◌,
}
use llvm_tracer.Runtime.Hex.{c_string}
use llvm_tracer.Pass.Setup.{is_empty}

-- The content of the label map file, if it can be read, is assigned to `labelmap_str`.
unfoldable pub read_label_map : Option Text → Text → Text × Bool
read_label_map none labelmap_str = (labelmap_str, if is_empty labelmap_str then false else true)
read_label_map (some []) labelmap_str =
    (labelmap_str, if is_empty labelmap_str then false else true)
read_label_map (some (c ∷ content)) labelmap_str =
    let read = c_string (c ∷ content) in (read, if is_empty read then false else true)

-- The calls that are put at the start of `main`.
pub data ModuleCall : Type 0 where
  trace_logger_init_call : ModuleCall
  trace_logger_register_labelmap_call : Text → ℕ → ModuleCall

-- Only a module with `main` is changed.
unfoldable pub run_on_module : Bool → Option Text → Text → Bool × List ModuleCall × Text
unfolding read_label_map
run_on_module false file labelmap_str = (false, [], labelmap_str)
run_on_module true file labelmap_str =
    let (read, contains_labelmap) = read_label_map file labelmap_str in
    (
      true,
      trace_logger_init_call
          ∷ (if contains_labelmap
              then trace_logger_register_labelmap_call read (length read) ∷ []
              else []),
      read,
    )
