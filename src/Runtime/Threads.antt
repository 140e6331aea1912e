-- ===== src/Runtime/Threads.antt =====
-- Several threads that log at once (profile-func/trace_logger.cpp): each has its own `trace`, and
-- they share the map of streams, its lock and the streams. Between two calls of a thread, and inside
-- `open_trace_file` at its calls of the lock, others may run.
use llvm_tracer.Prelude.{
  ℕ, ◌≡◌, ℤ, Option, none, some, List, [], ◌∷◌, ◌++◌, Text, if◌then◌else◌, ◌==◌,
}
use llvm_tracer.Prelude.Result.{Result, ok, ◌>>=◌}
use llvm_tracer.Runtime.Gz.{Gz}
use llvm_tracer.Runtime.State.{World, TraceInfo, the_trace, the_file}
use llvm_tracer.Runtime.Files.{pthread_mutex_lock, pthread_mutex_unlock, find_or_open}
use llvm_tracer.Runtime.Lines.{entry_line}
use llvm_tracer.Runtime.Log.{Line, log_line, lines_text}

-- The end of `trace_logger_log_entry`.
unfoldable pub print_entry_line : {z : Gz} → Text → ℤ → World z → Result (World z)
print_entry_line {z} func_name num_parameters w = do
  t ← the_trace w
  gz_file ← the_file t
  ok (record w { disk = z.gzprintf gz_file (entry_line func_name num_parameters) w.disk })

-- Where a thread stands in its call of a top-level function: in `open_trace_file` before the lock,
-- before the search for the stream and before the unlock; before the entry line; in the body.
pub data Pc : Type 0 where
  at_lock at_open at_unlock at_entry printing : Pc

-- A thread that has entered a top-level function, with the lines that it has yet to print.
pub record Thread (Double : Type 0) (z : Gz) : Type 0 where
  pub trace : Option (TraceInfo z.File)
  pub pc : Pc
  pub func_name : Text
  pub num_parameters : ℤ
  pub todo : List (Line Double)

-- What is shared; the `trace` there means nothing.
pub record System (Double : Type 0) (z : Gz) : Type 0 where
  pub shared : World z
  pub threads : ℕ → Thread Double z

module _ {Double : Type 0} {z : Gz} where
  abbrev pub seen : System Double z → Thread Double z → World z
  seen s t = record s.shared { trace = t.trace }

  abbrev pub update : ℕ → Thread Double z → (ℕ → Thread Double z) → ℕ → Thread Double z
  update i t threads j = if i == j then t else threads j

  abbrev pub moved : Thread Double z → Pc → Result (World z) → Result (Thread Double z × World z)
  moved t pc r = r >>= λ w. ok (record t { pc = pc; trace = w.trace }, w)

-- The next step of a thread in the world that it sees: none if the thread waits for the lock or is
-- done.
unfoldable pub advance :
    {Double : Type 0}
    → (Double → Text)
    → {z : Gz} → Thread Double z
    → World z
    → Option (Result (Thread Double z × World z))
unfolding pthread_mutex_lock pthread_mutex_unlock find_or_open print_entry_line log_line
advance show_double t w = elim t.pc [
  | at_lock ↦ if w.locked then none else some (moved t at_open (pthread_mutex_lock w))
  | at_open ↦ some (moved t at_unlock (the_trace w >>= λ info. find_or_open info w))
  | at_unlock ↦ some (moved t at_entry (ok (pthread_mutex_unlock w)))
  | at_entry ↦ some (moved t printing (print_entry_line t.func_name t.num_parameters w))
  | printing ↦ elim t.todo [
    | [] ↦ none
    | l ∷ ls ↦ some (moved (record t { todo = ls }) printing (log_line show_double l w))
  ]
]

module _ {Double : Type 0} (show_double : Double → Text) {z : Gz} where
  pub data Step (s : System Double z) : System Double z → Type 0 where
    moves :
        (i : ℕ) (t : Thread Double z) (w : World z)
        → advance show_double (s.threads i) (seen s (s.threads i)) ≡ some (ok (t, w))
        → Step s (record { shared = w; threads = update i t s.threads })

  pub data Reach (s : System Double z) : System Double z → Type 0 where
    unmoved : Reach s s
    later : {t u : System Double z} → Reach s t → Step t u → Reach s u

  -- What the thread has yet to print.
  abbrev pub lines_left : Thread Double z → Text
  lines_left t = elim t.trace [
    | none ↦ []
    | some info ↦ lines_text show_double t.todo info.inst_count
  ]

  abbrev pub text_left : Thread Double z → Text
  text_left t = elim t.pc [
    | printing ↦ lines_left t
    | _ ↦ entry_line t.func_name t.num_parameters ++ lines_left t
  ]
