-- ===== src/Runtime/Files.antt =====
-- Traces and their files: `create_trace`, `write_labelmap`, `open_trace_file`, the registration
-- calls and the clean-up (profile-func/trace_logger.cpp).
use llvm_tracer.Prelude.{Bool, true, false, none, some, [], ◌∷◌, Text, codes}
use llvm_tracer.Prelude.{if◌then◌else◌}
use llvm_tracer.Prelude.Dict.{Dict, lookup, insert}
use llvm_tracer.Prelude.Result.{Result, ok, err, ◌>>=◌, assertion_failed, exit_failure, deadlock}
use llvm_tracer.Runtime.Gz.{Gz}
use llvm_tracer.Runtime.State.{
  TraceInfo, trace_info, World, the_trace, the_file, default_trace_name,
}

unfoldable pub section_header : Text
section_header = codes "%%%% LABEL MAP START %%%%\n"

unfoldable pub section_footer : Text
section_footer = codes "%%%% LABEL MAP END %%%%\n\n"

-- The loop of `fin_main`.
unfoldable pub close_all : (z : Gz) → Dict z.File → z.Disk → z.Disk
close_all z [] d = d
close_all z ((name, gz_file) ∷ files) d = close_all z files (z.gzclose gz_file d)

module _ {z : Gz} where
  unfoldable pub create_trace : Text → World z → Result (World z)
  create_trace trace_name w = elim w.trace [
    | none ↦ ok (record w { trace = some (trace_info trace_name) })
    | some t ↦ err assertion_failed
  ]

  unfoldable pub write_labelmap : World z → Result (World z)
  write_labelmap w = do
    t ← the_trace w
    gz_file ← the_file t
    let d₁ = z.gzwrite gz_file section_header w.disk
    let d₂ = z.gzwrite gz_file w.labelmap_str d₁
    ok (record w { disk = z.gzwrite gz_file section_footer d₂ })

  -- A second lock by the holder blocks for ever.
  unfoldable pub pthread_mutex_lock : World z → Result (World z)
  pthread_mutex_lock w = if w.locked then err deadlock else ok (record w { locked = true })

  unfoldable pub pthread_mutex_unlock : World z → World z
  pthread_mutex_unlock w = record w { locked = false }

  unfoldable pub open_new_file : TraceInfo z.File → World z → Result (World z)
  unfolding write_labelmap
  open_new_file t w =
      let (opened, d) = z.gzopen t.trace_name w.disk in
      elim opened [
        | none ↦ err exit_failure
        | some gz_file ↦ write_labelmap (record w {
          disk = d;
          gz_files = insert t.trace_name gz_file w.gz_files;
          trace = some (record t { trace_file = some gz_file });
        })
      ]

  unfoldable pub find_or_open : TraceInfo z.File → World z → Result (World z)
  unfolding open_new_file
  find_or_open t w = elim (lookup t.trace_name w.gz_files) [
    | none ↦ open_new_file t w
    | some gz_file ↦ ok (record w { trace = some (record t { trace_file = some gz_file }) })
  ]

  unfoldable pub open_trace_file : World z → Result (World z)
  unfolding pthread_mutex_lock pthread_mutex_unlock find_or_open
  open_trace_file w = do
    held ← pthread_mutex_lock w
    t ← the_trace held
    opened ← find_or_open t held
    ok (pthread_mutex_unlock opened)

  unfoldable pub trace_logger_register_labelmap : Text → World z → World z
  trace_logger_register_labelmap labelmap_buf w = record w { labelmap_str = labelmap_buf }

  -- The argument says whether `pthread_mutex_init` succeeds.
  unfoldable pub trace_logger_init : Bool → World z → Result (World z)
  unfolding create_trace
  trace_logger_init mutex_ready w = elim mutex_ready [
    | false ↦ err exit_failure
    | true ↦ do
      created ← create_trace default_trace_name (record w { locked = false })
      ok (record created { at_exit = true })
  ]

  unfoldable pub fin_toplevel : World z → World z
  fin_toplevel w = record w { trace = none }

  -- Deleting a trace that is not there changes nothing, so the test needs no branch of its own.
  unfoldable pub fin_main : World z → World z
  unfolding fin_toplevel
  fin_main w =
      let v : World z = elim w.trace [ none ↦ w | some t ↦ fin_toplevel w ] in
      record v { disk = close_all z v.gz_files v.disk }

  unfoldable pub llvmtracer_set_trace_name : Text → World z → Result (World z)
  unfolding create_trace
  llvmtracer_set_trace_name trace_name w = elim w.trace [
    | none ↦ create_trace trace_name w
    | some t ↦ ok (record w { trace = some (record t { trace_name = trace_name }) })
  ]
