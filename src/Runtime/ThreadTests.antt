-- ===== src/Runtime/ThreadTests.antt =====
-- Threads over streams in memory (profile-func/trace_logger.cpp).
use llvm_tracer.Prelude.{
  ℕ, suc, ◌≡◌, refl, ap, ◌⊎◌, ◌↔◌, true, some, none, [], ◌∷◌, Text, codes, replicate, length,
  length-replicate, pos, arith,
}
use llvm_tracer.Prelude.Dict.{lookup}
use llvm_tracer.Runtime.State.{start, log_and_continue}
use llvm_tracer.Runtime.Memory.{memory, memory_view, memory-IsLawful, no_files}
use llvm_tracer.Runtime.Log.{first}
use llvm_tracer.Runtime.Threads.{
  at_lock, at_open, Thread, System, update, advance, moves, Reach, unmoved, later,
}
use llvm_tracer.Runtime.ThreadMoves.{is_holding, steps_left, Moves}
use llvm_tracer.Runtime.ThreadSafety.{
  IsStarted, final_text, one_holder, files_keep_apart, no_deadlock,
}

abbrev show_none : Unit {0} → Text
show_none d = []

-- The thread `i` logs to a file whose name has `i + 1` letters.
abbrev names : ℕ → Text
names i = replicate (suc i) 97

names_inj : (i j : ℕ) → names i ≡ names j → i ≡ j
names_inj i j e =
    omega
      (arith, ap length e, length-replicate {A = ℕ} (suc i) 97, length-replicate {A = ℕ} (suc j) 97)

abbrev thread : ℕ → Thread (Unit {0}) memory
thread i = record {
  trace = some (record {
    trace_name = names i;
    trace_file = none;
    inst_count = 0;
    current_toplevel_function = codes "f";
    current_logging_status = log_and_continue;
  });
  pc = at_lock;
  func_name = codes "f";
  num_parameters = pos 0;
  todo = first (pos 3) (codes "f") (codes "0:0") (codes "x") (pos 11) ∷ [];
}

abbrev begun : System (Unit {0}) memory
begun = record { shared = start memory no_files; threads = thread }

begun-IsStarted : IsStarted show_none memory-IsLawful names begun
unfolding lookup
begun-IsStarted = record {
  unlocked = refl;
  registered = record { opened = λ n f e. cc; distinct = λ n m f e h. cc };
  is_thread = λ i. record {
    info = _;
    trace_lem = refl;
    named = refl;
    status = refl;
    backed = (tt, tt);
    opened = λ e. cc;
  };
  outside = λ i. refl;
}

abbrev after_lock : System (Unit {0}) memory
after_lock = record {
  shared = record (start memory no_files) { trace = (thread 0).trace; locked = true };
  threads = update 0 (record (thread 0) { pc = at_open }) thread;
}

-- Thread 0 has the lock.
locked : Reach show_none begun after_lock
unfolding advance
locked = later unmoved (moves 0 _ _ refl)

one_holder_example :
    ((i j : ℕ)
      → is_holding (after_lock.threads i).pc ≡ true
      → is_holding (after_lock.threads j).pc ≡ true
      → i ≡ j)
    × ((true ≡ true) ↔ ((i : ℕ) × (is_holding (after_lock.threads i).pc ≡ true)))
one_holder_example =
    one_holder show_none memory-IsLawful names names_inj begun begun-IsStarted after_lock locked

files_keep_apart_example :
    final_text show_none memory_view names after_lock 1
    ≡ final_text show_none memory_view names begun 1
files_keep_apart_example =
    files_keep_apart show_none memory-IsLawful names names_inj begun begun-IsStarted after_lock
      locked 1

no_deadlock_example :
    (steps_left (after_lock.threads 1) ≡ 0)
    ⊎ ((j : ℕ) × Moves show_none memory_view (names j) (after_lock.threads j) after_lock.shared)
no_deadlock_example =
    no_deadlock show_none memory-IsLawful names names_inj begun begun-IsStarted after_lock locked 1
