-- ===== src/Pass/Setup.antt =====
-- What the pass sets up for a module, and what it then instruments (full-trace/full_trace.cpp).
use llvm_tracer.Prelude.{
  length, Bool, true, false, ◌&&◌, ◌||◌, not, Option, none, some, List, [], ◌∷◌, Text, text_eq,
  if◌then◌else◌, ◌==◌,
}
use llvm_tracer.Prelude.Dict.{Dict, lookup, insert}
use llvm_tracer.Prelude.Result.{Result, err, ok, assertion_failed, ◌>>=◌}
use llvm_tracer.Pass.Names.{
  StringSet, contains, get_user_workload_functions, is_llvm_intrinsic, is_dma_function,
  is_host_mem_function, is_set_sampling_factor,
}

-- What the debug information says of a function; the linkage name is empty without mangling.
pub record Subprogram : Type 0 where
  pub name : Text
  pub linkage_name : Text

pub record Tracer : Type 0 where
  pub is_toplevel_mode : Bool
  pub tracked_functions : StringSet
  pub mangled_name_map : Dict Text

abbrev pub is_empty {ℓ} : {A : Type ℓ} → List A → Bool
is_empty [] = true
is_empty (a ∷ as') = false

-- The name under which the module has the function.
abbrev pub symbol_name : Subprogram → Text
symbol_name s = if is_empty s.linkage_name then s.name else s.linkage_name

abbrev pub is_listed : StringSet → Subprogram → Bool
is_listed user_workloads s =
    contains user_workloads s.linkage_name || contains user_workloads s.name

-- The body of the loop over the subprograms.
unfoldable pub add_subprogram : StringSet → Subprogram → Tracer → Result Tracer
add_subprogram user_workloads s tracer =
    if is_empty s.name && is_empty s.linkage_name
    then err assertion_failed
    else ok (record tracer {
      mangled_name_map = insert (symbol_name s) s.name tracer.mangled_name_map;
      tracked_functions =
          (if is_listed user_workloads s
            then insert (symbol_name s) tt tracer.tracked_functions
            else tracer.tracked_functions);
    })

unfoldable pub add_subprograms : StringSet → List Subprogram → Tracer → Result Tracer
unfolding add_subprogram
add_subprograms user_workloads [] tracer = ok tracer
add_subprograms user_workloads (s ∷ subprograms) tracer =
    add_subprogram user_workloads s tracer >>= add_subprograms user_workloads subprograms

-- The tracer is left as it is if WORKLOAD is not set.
unfoldable pub do_initialization : Option Text → Bool → List Subprogram → Tracer → Result Tracer
unfolding add_subprograms
do_initialization workload trace_all_callees subprograms tracer =
    let user_workloads = get_user_workload_functions workload in
    if is_empty user_workloads
    then ok tracer
    else add_subprograms user_workloads subprograms
        (record tracer { is_toplevel_mode = length user_workloads == 1 || trace_all_callees })

unfoldable pub is_tracked_function : Tracer → Text → Bool
is_tracked_function tracer func = contains tracer.tracked_functions func

unfoldable pub trace_or_not : Tracer → Text → Bool
unfolding is_tracked_function
trace_or_not tracer func = if is_tracked_function tracer func then true else is_llvm_intrinsic func

-- The first guard of `runOnFunction`: only functions whose name is not mangled.
unfoldable pub runs_on_function : Tracer → Text → Bool
runs_on_function tracer mangled_name = elim (lookup mangled_name tracer.mangled_name_map) [
  | none ↦ false
  | some name ↦ text_eq name mangled_name
]

-- The guards of `runOnBasicBlock`.
unfoldable pub runs_on_basic_block : Tracer → Text → Bool
unfolding is_tracked_function
runs_on_basic_block tracer func_name =
    if not tracer.is_toplevel_mode && not (is_tracked_function tracer func_name)
    then false
    else if is_dma_function func_name
        || (is_host_mem_function func_name || is_set_sampling_factor func_name)
    then false
    else true

pub record CalledFunction : Type 0 where
  pub name : Text
  pub is_intrinsic : Bool

-- Whether `runOnBasicBlock` instruments a call; an indirect call has no called function.
unfoldable pub trace_call : Tracer → Option CalledFunction → Bool
unfolding trace_or_not
trace_call tracer none = false
trace_call tracer (some called) =
    if is_llvm_intrinsic called.name
      || (is_dma_function called.name
          || (is_host_mem_function called.name || is_set_sampling_factor called.name))
    then true
    else if not tracer.is_toplevel_mode
    then trace_or_not tracer called.name
    else if called.is_intrinsic
    then false
    else true
