-- ===== src/Runtime/ThreadOpening.antt =====
-- A thread in `open_trace_file` (profile-func/trace_logger.cpp): its steps with the lock.
use llvm_tracer.Prelude.{
  ◌≡◌, refl, sym, ap, ◌∙◌, ◌≢◌, ◌⊎◌, inl, inr, ℤ, true, false, Option, none, some, Option-cases,
  List, ◌++◌, All, Text, text_eq_iff, arith,
}
use llvm_tracer.Prelude.Dict.{lookup, lookup-insert}
use llvm_tracer.Prelude.Result.{ok, err, exit_failure}
use llvm_tracer.Runtime.Gz.{Gz, View, IsLawful}
use llvm_tracer.Runtime.State.{World, TraceInfo, log_and_continue}
use llvm_tracer.Runtime.Files.{find_or_open}
use llvm_tracer.Runtime.Opening.{
  IsRegistered, Opens, new-Opens, known-Opens, label_section, with_new_file,
}
use llvm_tracer.Runtime.Log.{Line, IsBacked}
use llvm_tracer.Runtime.Session.Content.{old_content}
use llvm_tracer.Runtime.Threads.{at_lock, at_open, at_unlock, at_entry, Thread, advance, text_left}
use llvm_tracer.Runtime.ThreadMoves.{old_content_absent, old_content_known, Moves, thread_at}

find_or_open_known :
    {z : Gz} (t : TraceInfo z.File) (w : World z) (f : z.File)
    → lookup t.trace_name w.gz_files ≡ some f
    → find_or_open t w ≡ ok (record w { trace = some (record t { trace_file = some f }) })
unfolding find_or_open
find_or_open_known t w f known = ground arith

find_or_open_new :
    {z : Gz} (t : TraceInfo z.File) (w : World z) (f : z.File) (d : z.Disk)
    → lookup t.trace_name w.gz_files ≡ none
    → z.gzopen t.trace_name w.disk ≡ (some f, d)
    → find_or_open t w ≡ ok (record (with_new_file t f d w) { locked = w.locked })
unfolding find_or_open
find_or_open_new t w f d absent o = ground arith

find_or_open_fails :
    {z : Gz} (t : TraceInfo z.File) (w : World z)
    → lookup t.trace_name w.gz_files ≡ none
    → (z.gzopen t.trace_name w.disk).0 ≡ none
    → find_or_open t w ≡ err exit_failure
unfolding find_or_open
find_or_open_fails t w absent failed = ground arith

module _ {Double : Type 0} (show_double : Double → Text) {z : Gz} (v : View z) where
  module _ (L : IsLawful z v) (func : Text) (num : ℤ) (w : World z) (info : TraceInfo z.File)
      (status : info.current_logging_status ≡ log_and_continue)
      (r : IsRegistered v w.gz_files w.disk) where
    pub lock-Moves :
        (todo : List (Line Double))
        → All IsBacked todo
        → w.locked ≡ false
        → Moves show_double v info.trace_name (thread_at {z = z} func num info at_lock todo) w
    unfolding advance
    lock-Moves todo backed free = inr (
      thread_at {z = z} func num info at_open todo,
      record w { trace = some info; locked = true },
      rw free refl,
      record {
        pc_lem = refl;
        locked_lem = refl;
        free = λ e. free;
        steps_lem = refl;
        is_thread = record {
          info = info;
          trace_lem = refl;
          named = refl;
          status = status;
          backed = backed;
          opened = λ e. cc;
        };
        own = refl;
        other_content = λ m ne. refl;
        other_files = λ m g ne e. e;
        keeps = r;
      },
    )

    pub unlock-Moves :
        (todo : List (Line Double)) (f : z.File)
        → All IsBacked todo
        → info.trace_file ≡ some f
        → lookup info.trace_name w.gz_files ≡ some f
        → Moves show_double v info.trace_name (thread_at {z = z} func num info at_unlock todo) w
    unfolding advance
    unlock-Moves todo f backed stream here = inr (
      thread_at {z = z} func num info at_entry todo,
      record w { trace = some info; locked = false },
      refl,
      record {
        pc_lem = refl;
        locked_lem = refl;
        free = λ e. cc;
        steps_lem = refl;
        is_thread = record {
          info = info;
          trace_lem = refl;
          named = refl;
          status = status;
          backed = backed;
          opened = λ e. (f, stream, here);
        };
        own = refl;
        other_content = λ m ne. refl;
        other_files = λ m g ne e. e;
        keeps = r;
      },
    )

    abbrev at_found : List (Line Double) → Option (TraceInfo z.File) → Thread Double z
    at_found todo trace = record {
      trace = trace;
      pc = at_unlock;
      func_name = func;
      num_parameters = num;
      todo = todo;
    }

    -- The search for the stream, from what it promises.
    found-Moves :
        (todo : List (Line Double)) (o : World z)
        → All IsBacked todo
        → (p : Opens v info (record w { trace = some info }) o)
        → ((m : Text)
            → m ≢ info.trace_name
            → lookup m w.gz_files ≡ none
            → lookup m o.gz_files ≡ none)
        → o.labelmap_str ≡ w.labelmap_str
        → advance show_double
            (thread_at {z = z} func num info at_open todo)
            (record w { trace = some info })
          ≡ some (ok (at_found todo o.trace, record o { locked = w.locked }))
        → Moves show_double v info.trace_name (thread_at {z = z} func num info at_open todo) w
    found-Moves todo o backed p absent same_map e = inr (
      at_found todo o.trace,
      record o { locked = w.locked },
      e,
      record {
        pc_lem = refl;
        locked_lem = refl;
        free = λ e. cc;
        steps_lem = refl;
        is_thread = record {
          info = record info { trace_file = some p.file };
          trace_lem = p.trace_lem;
          named = refl;
          status = status;
          backed = backed;
          opened = λ h. (p.file, refl, p.registered);
        };
        own =
            ap (λ (c : Text). c ++ text_left show_double (at_found todo o.trace))
              (old_content_known v info.trace_name p.file (record o { locked = w.locked })
                  p.registered
                ∙ p.content_lem)
            ∙ ap
                (λ trace.
                  old_content v info.trace_name w ++ text_left show_double (at_found todo trace))
                p.trace_lem;
        other_content = others;
        other_files = λ m g ne h. (p.others m g ne h).0;
        keeps = p.keeps;
      },
    )
      where
        others :
            (m : Text)
            → m ≢ info.trace_name
            → old_content v m (record o { locked = w.locked }) ≡ old_content v m w
        others m ne = elim (Option-cases (lookup m w.gz_files)) [
          | inl none_there ↦
              old_content_absent v m (record o { locked = w.locked }) (absent m ne none_there)
              ∙ ap label_section same_map
              ∙ sym (old_content_absent v m w none_there)
          | inr (g, there) ↦
              (let (still, same) = p.others m g ne there in
                old_content_known v m g (record o { locked = w.locked }) still
                ∙ same
                ∙ sym (old_content_known v m g w there))
        ]

    pub open-Moves :
        (todo : List (Line Double))
        → All IsBacked todo
        → Moves show_double v info.trace_name (thread_at {z = z} func num info at_open todo) w
    unfolding advance find_or_open
    open-Moves todo backed = elim (Option-cases (lookup info.trace_name w.gz_files)) [
      | inr (f, known) ↦
          found-Moves todo _ backed (known-Opens L (record w { trace = some info }) info f r known)
            (λ m ne h. h) refl
            (rw (find_or_open_known info (record w { trace = some info }) f known) refl)
      | inl absent ↦ elim (opening (z.gzopen info.trace_name w.disk)) [
        | inl failed ↦ inl (
          rw (find_or_open_fails info (record w { trace = some info }) absent failed) refl,
          (absent, failed),
        )
        | inr (f, d, o) ↦
            found-Moves todo _ backed
              (new-Opens L (record w { trace = some info }) info f d r absent o)
              (λ m ne h. ground (
                arith,
                lookup-insert info.trace_name m f w.gz_files,
                text_eq_iff info.trace_name m,
              ))
              refl (rw (find_or_open_new info (record w { trace = some info }) f d absent o) refl)
      ]
    ]
      where
        opening :
            (p : Option z.File × z.Disk)
            → (p.0 ≡ none) ⊎ ((f : z.File) × (d : z.Disk) × (p ≡ (some f, d)))
        opening (none, d) = inl refl
        opening (some f, d) = inr (f, d, refl)
