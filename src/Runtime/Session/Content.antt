-- ===== src/Runtime/Session/Content.antt =====
-- What a call of a top-level function leaves in its trace file.
use llvm_tracer.Prelude.{ℕ, ◌≡◌, refl, ap, ◌∙◌, ◌≢◌, ◌⊎◌, inl, inr, ℤ, false}
use llvm_tracer.Prelude.{
  none, some, List, [], ◌∷◌, ◌++◌, append_assoc, append-nil, Text, All, arith,
}
use llvm_tracer.Prelude.Dict.{Dict, lookup}
use llvm_tracer.Prelude.Result.{Fault, ok, err, exit_failure}
use llvm_tracer.Runtime.Gz.{Gz, View, IsLawful}
use llvm_tracer.Runtime.State.{World, TraceInfo, log_and_continue}
use llvm_tracer.Runtime.Status.{is_empty}
use llvm_tracer.Runtime.Lines.{entry_line, trace_logger_log_entry}
use llvm_tracer.Runtime.Files.{open_trace_file}
use llvm_tracer.Runtime.Opening.{
  CannotOpen, IsRegistered, Opens, open_trace_file_cases, label_section,
}
use llvm_tracer.Runtime.Log.{log_line-Adds, count_after, IsLogging, Adds, Adds-trans}
use llvm_tracer.Runtime.Session.{
  Event, prints, returns, IsBackedEvent, run_event, run_events, events_text, enter, session,
  beginning, IsIdle, entered_trace, entered_world, left_world, update_enters, update_leaves,
  update_ignores,
}

pub IsRegistered-same_open :
    {z : Gz} {v : View z} {files : Dict z.File} (d e : z.Disk)
    → ((g : z.File) → v.is_open g e ≡ v.is_open g d)
    → IsRegistered v files d
    → IsRegistered v files e
IsRegistered-same_open d e h r = record {
  opened = λ n f k. h f ∙ r.opened n f k;
  distinct = r.distinct;
}

-- The entry line, once the file is open.
log_entry_prints :
    {z : Gz} {v : View z} (func_name : Text) (n : ℤ) (t : TraceInfo z.File) (w w' : World z)
    → w.trace ≡ some t
    → t.current_logging_status ≡ log_and_continue
    → open_trace_file w ≡ ok w'
    → (o : Opens v t w w')
    → trace_logger_log_entry func_name n w
      ≡ ok (record w' { disk = z.gzprintf o.file (entry_line func_name n) w'.disk })
unfolding trace_logger_log_entry
log_entry_prints func_name n t w w' e s opened o = ground (arith, o.trace_lem)

log_entry_fails :
    {z : Gz} (func_name : Text) (n : ℤ) (t : TraceInfo z.File) (w : World z) (e : Fault)
    → w.trace ≡ some t
    → t.current_logging_status ≡ log_and_continue
    → open_trace_file w ≡ err e
    → trace_logger_log_entry func_name n w ≡ err e
unfolding trace_logger_log_entry
log_entry_fails func_name n t w e h s failed = ground arith

-- The text of a trace's file when a call begins: the label map, if the file is new.
abbrev pub old_content : {z : Gz} → View z → Text → World z → Text
old_content v name w = elim (lookup name w.gz_files) [
  | none ↦ label_section w.labelmap_str
  | some f ↦ v.content f w.disk
]

-- What a finished call leaves: `name` is the name of its trace and `s` what it printed.
pub record Traced {z : Gz} (v : View z) (name s : Text) (w w' : World z) : Type 0 where
  pub file : z.File
  pub registered : lookup name w'.gz_files ≡ some file
  pub ended : w'.trace ≡ none
  pub content_lem : v.content file w'.disk ≡ old_content v name w ++ s
  pub others :
      (n : Text) (g : z.File)
      → n ≢ name
      → lookup n w.gz_files ≡ some g
      → (lookup n w'.gz_files ≡ some g) × (v.content g w'.disk ≡ v.content g w.disk)
  pub idle : IsIdle v w'

module _ {Double : Type 0} (show_double : Double → Text) {z : Gz} {v : View z}
    (L : IsLawful z v) where
  run_events-Adds :
      (f : z.File) (es : List (Event Double)) (t : TraceInfo z.File) (w : World z)
      → All IsBackedEvent es
      → is_empty t.current_toplevel_function ≡ false
      → IsLogging v f t w
      → (w' : World z) × (n : ℕ) × (run_events show_double es w ≡ ok w')
        × Adds v f t (events_text show_double es t.inst_count) n w w'
  unfolding run_events run_event events_text
  run_events-Adds f [] t w b named h = (
    w,
    t.inst_count,
    refl,
    record {
      logs = h;
      adds = rw append-nil;
      others = λ g ne. refl;
      opens = λ g. refl;
      rest = refl;
    },
  )
  run_events-Adds f (prints l ∷ es) t w b named h =
      let (w₁, done, a) = log_line-Adds show_double L f l t w b.0 h in
      let (w₂, n, run, c) =
        run_events-Adds f es (record t { inst_count = count_after l t.inst_count }) w₁ b.1 named
          a.logs in
      (w₂, n, rw done run, Adds-trans a c)
  run_events-Adds f (returns name ∷ es) t w b named h =
      rw (update_ignores name w t named h.has_trace h.status) (run_events-Adds f es t w b.1 named h)

-- The state between the entry line and the body.
record Entered {z : Gz} (v : View z) (func_name : Text) (n : ℤ) (w w' : World z) : Type 0 where
  file : z.File
  logs :
      IsLogging v file
        (record (entered_trace func_name (beginning w)) { trace_file = some file })
        w'
  registered : lookup (beginning w).trace_name w'.gz_files ≡ some file
  unlocked : w'.locked ≡ false
  content_lem :
      v.content file w'.disk ≡ old_content v (beginning w).trace_name w ++ entry_line func_name n
  others :
      (m : Text) (g : z.File)
      → m ≢ (beginning w).trace_name
      → lookup m w.gz_files ≡ some g
      → (lookup m w'.gz_files ≡ some g) × (v.content g w'.disk ≡ v.content g w.disk)
  keeps : IsRegistered v w'.gz_files w'.disk

module _ {z : Gz} {v : View z} (L : IsLawful z v) (func_name : Text) (n : ℤ) (w : World z) where
  opened_ne :
      (w' : World z) (f : z.File) (m : Text) (g : z.File)
      → IsRegistered v w'.gz_files w'.disk
      → lookup (beginning w).trace_name w'.gz_files ≡ some f
      → m ≢ (beginning w).trace_name
      → lookup m w'.gz_files ≡ some g
      → f ≢ g
  opened_ne w' f m g r e ne h same =
      ne (r.distinct m (beginning w).trace_name g h (e ∙ ap some same))

  Opens-Entered :
      (o : World z)
      → (p : Opens v (entered_trace func_name (beginning w)) (entered_world func_name w) o)
      → Entered v func_name n w
          (record o { disk = z.gzprintf p.file (entry_line func_name n) o.disk })
  Opens-Entered o p = record {
    file = p.file;
    logs = record {
      has_trace = p.trace_lem;
      status = refl;
      stream = refl;
      live = rw L.gzprintf-is_open p.is_live;
    };
    registered = p.registered;
    unlocked = p.unlocked;
    content_lem =
        L.gzprintf-content p.file (entry_line func_name n) o.disk p.is_live
        ∙ ap (λ c. c ++ entry_line func_name n) p.content_lem;
    others = λ m g ne e.
        let (still, same) = p.others m g ne e in
        (
          still,
          L.gzprintf-content_other p.file g (entry_line func_name n) o.disk
                (opened_ne o p.file m g p.keeps p.registered ne still)
              ∙ same,
        );
    keeps = IsRegistered-same_open o.disk _ (λ g. L.gzprintf-is_open p.file g _ o.disk) p.keeps;
  }

  enter_cases :
      IsIdle v w
      → ((enter func_name n w ≡ err exit_failure) × CannotOpen (beginning w).trace_name w)
        ⊎ ((w' : World z) × (enter func_name n w ≡ ok w') × Entered v func_name n w w')
  unfolding enter
  enter_cases i =
      elim (open_trace_file_cases L (entered_world func_name w)
        (entered_trace func_name (beginning w)) i.unlocked refl i.registered) [
          | inl (failed, absent, refused) ↦ inl (
            rw (update_enters func_name w i.waits i.nameless) (
                log_entry_fails func_name n (entered_trace func_name (beginning w))
                  (entered_world func_name w) exit_failure refl refl failed),
            (absent, refused),
          )
          | inr (o, opened, p) ↦ inr (
            record o { disk = z.gzprintf p.file (entry_line func_name n) o.disk },
            rw (update_enters func_name w i.waits i.nameless) (
                log_entry_prints func_name n (entered_trace func_name (beginning w))
                  (entered_world func_name w) o refl refl opened p),
            Opens-Entered o p,
          )
        ]

-- What a whole call prints.
abbrev pub printed :
    {Double : Type 0} (show_double : Double → Text) {z : Gz}
    → Text
    → ℤ
    → List (Event Double)
    → World z
    → Text
printed show_double func_name n body w =
    entry_line func_name n ++ events_text show_double body (beginning w).inst_count

module _ {Double : Type 0} (show_double : Double → Text) {z : Gz} {v : View z} (L : IsLawful z v)
    (func_name : Text) (n : ℤ) (body : List (Event Double)) (w : World z) where
  Entered-Traced :
      (w₁ w₂ w₃ : World z) (m : ℕ)
      → (p : Entered v func_name n w w₁)
      → Adds v p.file
          (record (entered_trace func_name (beginning w)) { trace_file = some p.file })
          (events_text show_double body (beginning w).inst_count)
          m
          w₁
          w₂
      → w₃.trace ≡ none
      → w₃.disk ≡ w₂.disk
      → w₃.gz_files ≡ w₂.gz_files
      → w₃.locked ≡ w₂.locked
      → Traced v (beginning w).trace_name (printed show_double func_name n body w) w w₃
  Entered-Traced w₁ w₂ w₃ m p a ended disk files locked = record {
    file = p.file;
    registered = rw files_lem p.registered;
    ended = ended;
    content_lem = rw disk (a.adds ∙ rw p.content_lem (simp append_assoc));
    others = λ k g ne e.
        let (still, same) = p.others k g ne e in
        (
          rw files_lem still,
          rw disk (
              a.others g (opened_ne L func_name n w w₁ p.file k g p.keeps p.registered ne still)
              ∙ same),
        );
    idle = record {
      unlocked = locked ∙ (ap (λ (x : World z). x.locked) a.rest ∙ p.unlocked);
      waits = ground (arith, ended);
      nameless = ground (arith, ended);
      registered = rw (files_lem, disk) (IsRegistered-same_open w₁.disk w₂.disk a.opens p.keeps);
    };
  }
    where
      files_lem : w₃.gz_files ≡ w₁.gz_files
      files_lem = files ∙ ap (λ (x : World z). x.gz_files) a.rest

  -- From an idle state a call of a top-level function with a name, whose vectors have their bytes
  -- in memory, runs to its end and leaves an idle state. Its trace file then holds what it held (a
  -- new file: the label map), the entry line and the lines of the body; the files of other names
  -- are untouched. Only a new name whose file cannot be opened stops the program.
  pub session-Traced :
      is_empty func_name ≡ false
      → All IsBackedEvent body
      → IsIdle v w
      → ((session show_double func_name n body w ≡ err exit_failure)
          × CannotOpen (beginning w).trace_name w)
        ⊎ ((w' : World z) × (session show_double func_name n body w ≡ ok w')
            × Traced v (beginning w).trace_name (printed show_double func_name n body w) w w')
  unfolding session
  session-Traced named b i = elim (enter_cases L func_name n w i) [
    | inl (failed, why) ↦ inl (rw failed, why)
    | inr (w₁, entered, p) ↦ inr (finish w₁ entered p)
  ]
    where
      finish :
          (w₁ : World z)
          → enter func_name n w ≡ ok w₁
          → Entered v func_name n w w₁
          → (w' : World z) × (session show_double func_name n body w ≡ ok w')
            × Traced v (beginning w).trace_name (printed show_double func_name n body w) w w'
      finish w₁ entered p =
          let t = record (entered_trace func_name (beginning w)) { trace_file = some p.file } in
          let (w₂, m, ran, a) = run_events-Adds show_double L p.file body t w₁ b named p.logs in
          let t' = record t { inst_count = m } in
          (
            left_world t' w₂,
            rw (entered, ran) (update_leaves func_name w₂ t' named a.logs.has_trace refl refl),
            Entered-Traced w₁ w₂ (left_world t' w₂) m p a refl refl refl refl,
          )
