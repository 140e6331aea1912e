-- ===== src/Runtime/ThreadMoves.antt =====
-- One step of a thread (profile-func/trace_logger.cpp): what it does to the files and the lock.
use llvm_tracer.Prelude.{
  ℕ, suc, length, ◌≡◌, ap, ◌≢◌, ◌⊎◌, ℤ, Bool, true, false, Option, none, some, List, ◌++◌, All,
  Text,
}
use llvm_tracer.Prelude.Dict.{lookup}
use llvm_tracer.Prelude.Result.{ok, err, exit_failure}
use llvm_tracer.Runtime.Gz.{Gz, View}
use llvm_tracer.Runtime.State.{World, TraceInfo, log_and_continue}
use llvm_tracer.Runtime.Opening.{IsRegistered, label_section}
use llvm_tracer.Runtime.Log.{Line, IsBacked}
use llvm_tracer.Runtime.Session.Content.{old_content}
use llvm_tracer.Runtime.Threads.{
  Pc, at_lock, at_open, at_unlock, at_entry, printing, Thread, advance, text_left,
}

module _ {z : Gz} (v : View z) where
  pub old_content_absent :
      (n : Text) (w : World z)
      → lookup n w.gz_files ≡ none
      → old_content v n w ≡ label_section w.labelmap_str
  old_content_absent n w e =
      ap
        (λ (r : Option z.File). elim r [
          | none ↦ label_section w.labelmap_str
          | some f ↦ v.content f w.disk
        ])
        e

  pub old_content_known :
      (n : Text) (f : z.File) (w : World z)
      → lookup n w.gz_files ≡ some f
      → old_content v n w ≡ v.content f w.disk
  old_content_known n f w e =
      ap
        (λ (r : Option z.File). elim r [
          | none ↦ label_section w.labelmap_str
          | some f ↦ v.content f w.disk
        ])
        e

abbrev pub is_holding : Pc → Bool
is_holding at_open = true
is_holding at_unlock = true
is_holding _ = false

abbrev pub has_file : Pc → Bool
has_file at_lock = false
has_file at_open = false
has_file _ = true

abbrev pub next_pc : Pc → Pc
next_pc at_lock = at_open
next_pc at_open = at_unlock
next_pc at_unlock = at_entry
next_pc _ = printing

-- The steps that a thread has yet to make.
abbrev pub steps_left : {Double : Type 0} {z : Gz} → Thread Double z → ℕ
steps_left t = elim t.pc [
  | at_lock ↦ suc (suc (suc (suc (length t.todo))))
  | at_open ↦ suc (suc (suc (length t.todo)))
  | at_unlock ↦ suc (suc (length t.todo))
  | at_entry ↦ suc (length t.todo)
  | printing ↦ length t.todo
]

abbrev pub next_locked : Pc → Bool → Bool
next_locked at_lock b = true
next_locked at_unlock b = false
next_locked _ b = b

-- A logging thread with the trace `info`.
abbrev pub thread_at :
    {Double : Type 0} {z : Gz}
    → Text
    → ℤ
    → TraceInfo z.File
    → Pc
    → List (Line Double)
    → Thread Double z
thread_at func num info pc todo = record {
  trace = some info;
  pc = pc;
  func_name = func;
  num_parameters = num;
  todo = todo;
}

module _ {Double : Type 0} (show_double : Double → Text) {z : Gz} (v : View z) where
  -- A thread whose trace is named `n`, with the shared world `w`: it logs, its vectors have their
  -- bytes in memory, and once it has a stream that is the registered one.
  pub record IsThread (n : Text) (t : Thread Double z) (w : World z) : Type 0 where
    pub info : TraceInfo z.File
    pub trace_lem : t.trace ≡ some info
    pub named : info.trace_name ≡ n
    pub status : info.current_logging_status ≡ log_and_continue
    pub backed : All IsBacked t.todo
    pub opened :
        has_file t.pc ≡ true
        → (f : z.File) × (info.trace_file ≡ some f) × (lookup n w.gz_files ≡ some f)

  -- What a step of the thread leaves: of what it has yet to print, some stands in its file now, and
  -- the files of other names are untouched.
  pub record Moved (n : Text) (t t' : Thread Double z) (w w' : World z) : Type 0 where
    pub pc_lem : t'.pc ≡ next_pc t.pc
    pub locked_lem : w'.locked ≡ next_locked t.pc w.locked
    pub free : t.pc ≡ at_lock → w.locked ≡ false
    pub steps_lem : suc (steps_left t') ≡ steps_left t
    pub is_thread : IsThread n t' w'
    pub own :
        old_content v n w' ++ text_left show_double t'
        ≡ old_content v n w ++ text_left show_double t
    pub other_content : (m : Text) → m ≢ n → old_content v m w' ≡ old_content v m w
    pub other_files :
        (m : Text) (g : z.File)
        → m ≢ n
        → lookup m w.gz_files ≡ some g
        → lookup m w'.gz_files ≡ some g
    pub keeps : IsRegistered v w'.gz_files w'.disk

  -- The file of the thread cannot be opened.
  abbrev pub Refused : Text → World z → Type 0
  Refused n w = (lookup n w.gz_files ≡ none) × ((z.gzopen n w.disk).0 ≡ none)

  -- The step of a thread that neither waits nor is done.
  abbrev pub Moves : Text → Thread Double z → World z → Type 0
  Moves n t w =
      ((advance show_double t (record w { trace = t.trace }) ≡ some (err exit_failure))
        × Refused n w)
      ⊎ ((t' : Thread Double z) × (w' : World z) × (advance show_double t
              (record w { trace = t.trace })
            ≡ some (ok (t', w')))
          × Moved n t t' w w')
