-- ===== src/Runtime/Misuse.antt =====
-- Sequences of calls that profile-func/trace_logger.cpp does not survive, or in which it loses
-- what it was told.
use llvm_tracer.Prelude.{Bool-cases, inl, inr, ℤ, pos, true, false, ◌≡◌, refl, Text, arith, text_eq}
use llvm_tracer.Prelude.{none, List, [], ◌∷◌, ◌++◌, All, All-append, append-nil}
use llvm_tracer.Prelude.Result.{Result, Fault, ok, err, assertion_failed, ◌>>=◌}
use llvm_tracer.Runtime.Gz.{Gz}
use llvm_tracer.Runtime.State.{World, trace_info, ret_op, default_trace_name, do_not_log}
use llvm_tracer.Runtime.Files.{llvmtracer_set_trace_name}
use llvm_tracer.Runtime.Status.{trace_logger_update_status, is_empty}
use llvm_tracer.Runtime.Phase.{Phase, idle, tracing, phase, IsCoherent}
use llvm_tracer.Runtime.Session.{beginning}
use llvm_tracer.Runtime.Calls.{
  Call, updates, enters, prints, names, run_calls, call_steps, IsNamed, run_calls-phase,
}

-- Calls that no phase reacts to: all but the status calls of tracked functions.
abbrev pub IsQuiet : {Double : Type 0} → Call Double → Type 0
IsQuiet (updates name opcode tracked) = (tracked ≡ false) × (is_empty name ≡ false)
IsQuiet (enters name n) = Unit {0}
IsQuiet (prints l) = Unit {0}
IsQuiet (names name) = Unit {0}

module _ {Double : Type 0} where
  quiet-IsNamed : (cs : List (Call Double)) → All IsQuiet cs → All IsNamed cs
  quiet-IsNamed [] q = tt
  quiet-IsNamed (updates name opcode tracked ∷ cs) q = (q.0.1, quiet-IsNamed cs q.1)
  quiet-IsNamed (enters name n ∷ cs) q = (tt, quiet-IsNamed cs q.1)
  quiet-IsNamed (prints l ∷ cs) q = (tt, quiet-IsNamed cs q.1)
  quiet-IsNamed (names name ∷ cs) q = (tt, quiet-IsNamed cs q.1)

  call_steps-quiet :
      (cs ds : List (Call Double)) (p : Phase)
      → All IsQuiet cs
      → call_steps (cs ++ ds) p ≡ call_steps ds p
  call_steps-quiet [] ds p q = refl
  call_steps-quiet (updates name opcode tracked ∷ cs) ds p q =
      rw q.0.0 (call_steps-quiet cs ds p q.1)
  call_steps-quiet (enters name n ∷ cs) ds p q = call_steps-quiet cs ds p q.1
  call_steps-quiet (prints l ∷ cs) ds p q = call_steps-quiet cs ds p q.1
  call_steps-quiet (names name ∷ cs) ds p q = call_steps-quiet cs ds p q.1

  abbrev pub starts : Text → Call Double
  starts f = updates f (pos 0) true

  abbrev pub ends : Text → Call Double
  ends f = updates f (pos ret_op) true

  -- The top-level function `f` calls the function `g`, which calls others, and both return.
  abbrev pub nested_calls :
      Text
      → Text
      → List (Call Double)
      → List (Call Double)
      → List (Call Double)
      → List (Call Double)
  nested_calls f g before inner after =
      starts f ∷ (before ++ (starts g ∷ (inner ++ (ends g ∷ (after ++ (ends f ∷ []))))))

  nested_calls-IsNamed :
      (f g : Text) (before inner after : List (Call Double))
      → is_empty f ≡ false
      → is_empty g ≡ false
      → All IsQuiet before
      → All IsQuiet inner
      → All IsQuiet after
      → All IsNamed (nested_calls f g before inner after)
  nested_calls-IsNamed f g before inner after m n b i a = (
    m,
    All-append IsNamed before _ (quiet-IsNamed before b) (
      n,
      All-append IsNamed inner _ (quiet-IsNamed inner i)
          (n, All-append IsNamed after _ (quiet-IsNamed after a) (m, tt)),
    ),
  )

  nested_calls-fails :
      (f g : Text) (before inner after : List (Call Double))
      → All IsQuiet before
      → All IsQuiet inner
      → All IsQuiet after
      → call_steps (nested_calls f g before inner after) idle ≡ err assertion_failed
  nested_calls-fails f g before inner after b i a =
      rw
        (
          call_steps-quiet before (starts g ∷ (inner ++ (ends g ∷ (after ++ (ends f ∷ [])))))
              (tracing f) b,
          call_steps-quiet inner (ends g ∷ (after ++ (ends f ∷ []))) (tracing f) i,
        )
        (elim (Bool-cases (text_eq g f)) [
          | inl same ↦ rw same (call_steps-quiet after (ends f ∷ []) idle a)
          | inr other ↦ rw other
        ])

module _ {Double : Type 0} (show_double : Double → Text) {z : Gz} where
  -- In top-level mode a run from a coherent, idle state fails if a named tracked function calls a
  -- named tracked function (itself, if it is recursive) and both return, where all other status
  -- calls of the run are of named functions that are not tracked.
  pub nested_calls_fail :
      (f g : Text) (before inner after : List (Call Double)) (w : World z)
      → is_empty f ≡ false
      → is_empty g ≡ false
      → All IsQuiet before
      → All IsQuiet inner
      → All IsQuiet after
      → IsCoherent w
      → phase w ≡ idle
      → (e : Fault) × (run_calls show_double true (nested_calls f g before inner after) w ≡ err e)
  nested_calls_fail f g before inner after w m n b i a c waits =
      fails (run_calls show_double true cs w) refl
    where
      cs : List (Call Double)
      cs = nested_calls f g before inner after

      named : All IsNamed cs
      named = nested_calls-IsNamed f g before inner after m n b i a

      fails :
          (r : Result (World z))
          → run_calls show_double true cs w ≡ r
          → (e : Fault) × (run_calls show_double true cs w ≡ err e)
      fails (err e) ran = (e, ran)
      fails (ok w') ran =
          let (steps, _) = run_calls-phase show_double cs w w' named c ran in
          cc (nested_calls-fails f g before inner after b i a, steps, waits)

-- In top-level mode a return of a function that is not tracked, while nothing is traced, forgets
-- the name given to `llvmtracer_set_trace_name` before: the next top-level call writes to the
-- default file.
pub untracked_return_forgets_name :
    {z : Gz} (name helper : Text) (opcode : ℤ) (w : World z)
    → (beginning w).current_logging_status ≡ do_not_log
    → (w' : World z) × ((do
      named ← llvmtracer_set_trace_name name w
      trace_logger_update_status helper opcode false true named)
        ≡ ok w')
      × (beginning w' ≡ trace_info default_trace_name)
unfolding llvmtracer_set_trace_name trace_logger_update_status
untracked_return_forgets_name name helper opcode w waits =
    (record w { trace = none }, ground (arith, append-nil w.stdout), refl)
