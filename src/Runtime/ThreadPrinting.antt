-- ===== src/Runtime/ThreadPrinting.antt =====
-- A thread that prints its entry line or a line of its body (profile-func/trace_logger.cpp).
use llvm_tracer.Prelude.{
  ℕ, suc, length, ◌≡◌, refl, sym, ap, ◌∙◌, ◌≢◌, inl, inr, ℤ, Bool, Option, some, Option-cases, List,
  ◌∷◌, ◌++◌, append_assoc, All, Text,
}
use llvm_tracer.Prelude.Dict.{lookup}
use llvm_tracer.Prelude.Result.{ok}
use llvm_tracer.Runtime.Gz.{Gz, View, IsLawful}
use llvm_tracer.Runtime.State.{World, TraceInfo, log_and_continue}
use llvm_tracer.Runtime.Lines.{entry_line}
use llvm_tracer.Runtime.Opening.{IsRegistered, label_section}
use llvm_tracer.Runtime.Log.{
  Line, IsBacked, line_text, lines_text, count_after, Adds, log_line-Adds,
}
use llvm_tracer.Runtime.Session.Content.{old_content, IsRegistered-same_open}
use llvm_tracer.Runtime.Threads.{
  Pc, at_lock, at_open, at_unlock, at_entry, printing, Thread, print_entry_line, advance, text_left,
}
use llvm_tracer.Runtime.ThreadMoves.{
  next_pc, next_locked, steps_left, old_content_absent, old_content_known, Moves, thread_at,
}

no_lock : {A : Type 0} (pc : Pc) → pc ≡ at_lock → printing ≡ next_pc pc → A
no_lock at_lock e next = cc
no_lock at_open e next = cc
no_lock at_unlock e next = cc
no_lock at_entry e next = cc
no_lock printing e next = cc

module _ {Double : Type 0} (show_double : Double → Text) {z : Gz} (v : View z) where
  module _ (L : IsLawful z v) (func : Text) (num : ℤ) (w : World z) (info : TraceInfo z.File)
      (status : info.current_logging_status ≡ log_and_continue)
      (r : IsRegistered v w.gz_files w.disk) where
    abbrev at_printed : List (Line Double) → Option (TraceInfo z.File) → Thread Double z
    at_printed todo trace = record {
      trace = trace;
      pc = printing;
      func_name = func;
      num_parameters = num;
      todo = todo;
    }

    -- A call that prints `s` to the stream.
    added-Moves :
        (pc : Pc) (todo todo' : List (Line Double)) (s : Text) (k : ℕ) (f : z.File) (w' : World z)
        → All IsBacked todo'
        → info.trace_file ≡ some f
        → lookup info.trace_name w.gz_files ≡ some f
        → Adds v f info s k (record w { trace = some info }) w'
        → printing ≡ next_pc pc
        → suc (length todo') ≡ steps_left (thread_at {z = z} func num info pc todo)
        → ((b : Bool) → b ≡ next_locked pc b)
        → text_left show_double (thread_at {z = z} func num info pc todo)
          ≡ s ++ lines_text show_double todo' k
        → advance show_double
            (thread_at {z = z} func num info pc todo)
            (record w { trace = some info })
          ≡ some (ok (at_printed todo' w'.trace, w'))
        → Moves show_double v info.trace_name (thread_at {z = z} func num info pc todo) w
    added-Moves pc todo todo' s k f w' backed stream here a next steps keeps_lock text e = inr (
      at_printed todo' w'.trace,
      w',
      e,
      record {
        pc_lem = next;
        free = λ e. no_lock pc e next;
        steps_lem = steps;
        locked_lem = ap (λ (x : World z). x.locked) a.rest ∙ keeps_lock w.locked;
        is_thread = record {
          info = record info { inst_count = k };
          trace_lem = a.logs.has_trace;
          named = refl;
          status = status;
          backed = backed;
          opened = λ h. (f, stream, kept info.trace_name f here);
        };
        own =
            ap (λ (c : Text). c ++ text_left show_double (at_printed todo' w'.trace))
              (old_content_known v info.trace_name f w' (kept info.trace_name f here)
                ∙ a.adds
                ∙ ap (λ (c : Text). c ++ s) (sym (old_content_known v info.trace_name f w here)))
            ∙ ap
                (λ trace.
                  (old_content v info.trace_name w ++ s)
                  ++ text_left show_double (at_printed todo' trace))
                a.logs.has_trace
            ∙ append_assoc (old_content v info.trace_name w) s (lines_text show_double todo' k)
            ∙ ap (λ (rest : Text). old_content v info.trace_name w ++ rest) (sym text);
        other_content = others;
        other_files = λ m g ne h. kept m g h;
        keeps = rw same_files (IsRegistered-same_open w.disk w'.disk a.opens r);
      },
    )
      where
        same_files : w'.gz_files ≡ w.gz_files
        same_files = ap (λ (x : World z). x.gz_files) a.rest

        kept :
            (m : Text) (g : z.File) → lookup m w.gz_files ≡ some g → lookup m w'.gz_files ≡ some g
        kept m g h = ap (lookup m) same_files ∙ h

        others : (m : Text) → m ≢ info.trace_name → old_content v m w' ≡ old_content v m w
        others m ne = elim (Option-cases (lookup m w.gz_files)) [
          | inl none_there ↦
              old_content_absent v m w' (ap (lookup m) same_files ∙ none_there)
              ∙ ap (λ (x : World z). label_section x.labelmap_str) a.rest
              ∙ sym (old_content_absent v m w none_there)
          | inr (g, there) ↦
              old_content_known v m g w' (kept m g there)
              ∙ a.others g (λ same. ne (r.distinct m info.trace_name g there (here ∙ ap some same)))
              ∙ sym (old_content_known v m g w there)
        ]

    pub entry-Moves :
        (todo : List (Line Double)) (f : z.File)
        → All IsBacked todo
        → info.trace_file ≡ some f
        → lookup info.trace_name w.gz_files ≡ some f
        → Moves show_double v info.trace_name (thread_at {z = z} func num info at_entry todo) w
    unfolding advance print_entry_line
    entry-Moves todo f backed stream here =
        added-Moves at_entry todo todo (entry_line func num) info.inst_count f printed backed stream
          here
          (record {
            logs = record {
              has_trace = refl;
              status = status;
              stream = stream;
              live =
                  L.gzprintf-is_open f f (entry_line func num) w.disk
                  ∙ r.opened info.trace_name f here;
            };
            adds =
                L.gzprintf-content f (entry_line func num) w.disk (r.opened info.trace_name f here);
            others = λ g ne. L.gzprintf-content_other f g (entry_line func num) w.disk ne;
            opens = λ g. L.gzprintf-is_open f g (entry_line func num) w.disk;
            rest = refl;
          })
          refl refl (λ b. refl) refl (rw stream refl)
      where
        printed : World z
        printed = record w { trace = some info; disk = z.gzprintf f (entry_line func num) w.disk }

    pub print-Moves :
        (l : Line Double) (ls : List (Line Double)) (f : z.File)
        → All IsBacked (l ∷ ls)
        → info.trace_file ≡ some f
        → lookup info.trace_name w.gz_files ≡ some f
        → Moves show_double v info.trace_name (thread_at {z = z} func num info printing (l ∷ ls)) w
    unfolding advance lines_text
    print-Moves l ls f backed stream here =
        let (w', done, a) =
          log_line-Adds show_double L f l info (record w { trace = some info }) backed.0
            (record {
              has_trace = refl;
              status = status;
              stream = stream;
              live = r.opened info.trace_name f here;
            }) in
        added-Moves printing (l ∷ ls) ls (line_text show_double l info.inst_count)
          (count_after l info.inst_count) f w' backed.1 stream here a refl refl (λ b. refl) refl
          (rw done refl)
