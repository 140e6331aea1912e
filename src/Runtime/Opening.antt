-- ===== src/Runtime/Opening.antt =====
-- What `open_trace_file` leaves (profile-func/trace_logger.cpp): one stream for each name, with the
-- label map at its start.
use llvm_tracer.Prelude.{◌≡◌, refl, ◌≢◌, ◌⊎◌, ◌↔◌, inl, inr, true, false, Option, none, some, ◌++◌}
use llvm_tracer.Prelude.{ap, sym, ◌∙◌, append_assoc, Text, text_eq_iff, Option-cases, arith}
use llvm_tracer.Prelude.Dict.{Dict, lookup, insert, lookup-insert, lookup-insert_cases}
use llvm_tracer.Prelude.Result.{ok, err, exit_failure}
use llvm_tracer.Runtime.Gz.{Gz, View, IsLawful}
use llvm_tracer.Runtime.State.{TraceInfo, World}
use llvm_tracer.Runtime.Files.{section_header, section_footer, open_trace_file}

-- The registered streams are open, and each belongs to one name.
pub record IsRegistered {z : Gz} (v : View z) (files : Dict z.File) (d : z.Disk) : Type 0 where
  pub opened : (n : Text) (f : z.File) → lookup n files ≡ some f → v.is_open f d ≡ true
  pub distinct :
      (n m : Text) (f : z.File) → lookup n files ≡ some f → lookup m files ≡ some f → n ≡ m

abbrev pub label_section : Text → Text
label_section labelmap = section_header ++ (labelmap ++ section_footer)

abbrev pub write_section : (z : Gz) → z.File → Text → z.Disk → z.Disk
write_section z f labelmap d =
    z.gzwrite f section_footer (z.gzwrite f labelmap (z.gzwrite f section_header d))

module _ {z : Gz} where
  -- The world once the stream `f` of `t` is known.
  abbrev pub with_file : TraceInfo z.File → z.File → World z → World z
  with_file t f w = record w { trace = some (record t { trace_file = some f }); locked = false }

  abbrev pub with_new_file : TraceInfo z.File → z.File → z.Disk → World z → World z
  with_new_file t f d w = with_file t f (record w {
    gz_files = insert t.trace_name f w.gz_files;
    disk = write_section z f w.labelmap_str d;
  })

  pub open_trace_file_known :
      (w : World z) (t : TraceInfo z.File) (f : z.File)
      → w.locked ≡ false
      → w.trace ≡ some t
      → lookup t.trace_name w.gz_files ≡ some f
      → open_trace_file w ≡ ok (with_file t f w)
  unfolding open_trace_file
  open_trace_file_known w t f l e h = ground arith

  pub open_trace_file_new :
      (w : World z) (t : TraceInfo z.File) (f : z.File) (d : z.Disk)
      → w.locked ≡ false
      → w.trace ≡ some t
      → lookup t.trace_name w.gz_files ≡ none
      → z.gzopen t.trace_name w.disk ≡ (some f, d)
      → open_trace_file w ≡ ok (with_new_file t f d w)
  unfolding open_trace_file
  open_trace_file_new w t f d l e h o = ground arith

  pub open_trace_file_fails :
      (w : World z) (t : TraceInfo z.File)
      → w.locked ≡ false
      → w.trace ≡ some t
      → lookup t.trace_name w.gz_files ≡ none
      → (z.gzopen t.trace_name w.disk).0 ≡ none
      → open_trace_file w ≡ err exit_failure
  unfolding open_trace_file
  open_trace_file_fails w t l e h o = ground arith

module _ {z : Gz} {v : View z} (L : IsLawful z v) where
  pub write_section-content :
      (f : z.File) (labelmap : Text) (d : z.Disk)
      → v.is_open f d ≡ true
      → v.content f (write_section z f labelmap d) ≡ v.content f d ++ label_section labelmap
  write_section-content f labelmap d o =
      rw
        (
          L.gzwrite-content f section_footer (z.gzwrite f labelmap (z.gzwrite f section_header d))
              (rw (L.gzwrite-is_open, L.gzwrite-is_open) o),
          L.gzwrite-content f labelmap (z.gzwrite f section_header d) (rw L.gzwrite-is_open o),
          L.gzwrite-content f section_header d o,
        )
        (simp append_assoc)

  pub write_section-is_open :
      (f g : z.File) (labelmap : Text) (d : z.Disk)
      → v.is_open g (write_section z f labelmap d) ≡ v.is_open g d
  write_section-is_open f g labelmap d =
      rw (L.gzwrite-is_open, L.gzwrite-is_open, L.gzwrite-is_open)

  pub write_section-content_other :
      (f g : z.File) (labelmap : Text) (d : z.Disk)
      → f ≢ g
      → v.content g (write_section z f labelmap d) ≡ v.content g d
  write_section-content_other f g labelmap d ne = ground (
    arith,
    L.gzwrite-content_other f g section_header d ne,
    L.gzwrite-content_other f g labelmap (z.gzwrite f section_header d) ne,
    L.gzwrite-content_other f g section_footer (z.gzwrite f labelmap (z.gzwrite f section_header d))
        ne,
  )

-- The name is new, and zlib cannot open it.
abbrev pub CannotOpen : {z : Gz} → Text → World z → Type 0
CannotOpen {z} name w = (lookup name w.gz_files ≡ none) × ((z.gzopen name w.disk).0 ≡ none)

-- What `open_trace_file` promises of the trace `t`, which has the stream `f` after it.
pub record Opens {z : Gz} (v : View z) (t : TraceInfo z.File) (w w' : World z) : Type 0 where
  pub file : z.File
  pub trace_lem : w'.trace ≡ some (record t { trace_file = some file })
  pub registered : lookup t.trace_name w'.gz_files ≡ some file
  pub unlocked : w'.locked ≡ false
  pub is_live : v.is_open file w'.disk ≡ true
  pub content_lem : v.content file w'.disk ≡ (elim (lookup t.trace_name w.gz_files) [
    | none ↦ label_section w.labelmap_str
    | some f ↦ v.content f w.disk
  ])
  pub others :
      (n : Text) (g : z.File)
      → n ≢ t.trace_name
      → lookup n w.gz_files ≡ some g
      → (lookup n w'.gz_files ≡ some g) × (v.content g w'.disk ≡ v.content g w.disk)
  pub keeps : IsRegistered v w'.gz_files w'.disk

module _ {z : Gz} {v : View z} (L : IsLawful z v) (w : World z) (t : TraceInfo z.File) where
  -- A stream that was just opened is none of the registered ones.
  fresh_ne :
      (n : Text) (f g : z.File) (d : z.Disk)
      → IsRegistered v w.gz_files w.disk
      → z.gzopen t.trace_name w.disk ≡ (some f, d)
      → lookup n w.gz_files ≡ some g
      → f ≢ g
  fresh_ne n f g d r o e same = cc (L.gzopen-fresh _ _ _ f o, r.opened n g e, same)

  opened_before :
      (n : Text) (f g : z.File) (d : z.Disk)
      → IsRegistered v w.gz_files w.disk
      → z.gzopen t.trace_name w.disk ≡ (some f, d)
      → lookup n w.gz_files ≡ some g
      → v.is_open g (write_section z f w.labelmap_str d) ≡ true
  opened_before n f g d r o e =
      rw (write_section-is_open L)
        (L.gzopen-is_open_other _ _ _ f g o (fresh_ne n f g d r o e) ∙ r.opened n g e)

  insert-IsRegistered :
      (f : z.File) (d : z.Disk)
      → IsRegistered v w.gz_files w.disk
      → z.gzopen t.trace_name w.disk ≡ (some f, d)
      → IsRegistered v (insert t.trace_name f w.gz_files) (write_section z f w.labelmap_str d)
  insert-IsRegistered f d r o = record {
    opened = λ n g e. elim (lookup-insert_cases t.trace_name n f g w.gz_files e) [
      | inl (_, same) ↦ rw (← same, write_section-is_open L) (L.gzopen-is_open _ _ _ f o)
      | inr (_, old) ↦ opened_before n f g d r o old
    ];
    distinct = λ n m g e h.
        distinct_lem n m g (lookup-insert_cases t.trace_name n f g w.gz_files e)
          (lookup-insert_cases t.trace_name m f g w.gz_files h);
  }
    where
      Origin : Text → z.File → Type 0
      Origin n g =
          ((t.trace_name ≡ n) × (f ≡ g)) ⊎ ((t.trace_name ≢ n) × (lookup n w.gz_files ≡ some g))

      distinct_lem : (n m : Text) (g : z.File) → Origin n g → Origin m g → n ≡ m
      distinct_lem n m g (inl (a, _)) (inl (b, _)) = sym a ∙ b
      distinct_lem n m g (inl (_, a)) (inr (_, b)) = absurd (fresh_ne m f g d r o b a)
      distinct_lem n m g (inr (_, a)) (inl (_, b)) = absurd (fresh_ne n f g d r o a b)
      distinct_lem n m g (inr (_, a)) (inr (_, b)) = r.distinct n m g a b

  pub new-Opens :
      (f : z.File) (d : z.Disk)
      → IsRegistered v w.gz_files w.disk
      → lookup t.trace_name w.gz_files ≡ none
      → z.gzopen t.trace_name w.disk ≡ (some f, d)
      → Opens v t w (with_new_file t f d w)
  new-Opens f d r absent o = record {
    file = f;
    trace_lem = refl;
    registered = ground (
      arith,
      lookup-insert t.trace_name t.trace_name f w.gz_files,
      text_eq_iff t.trace_name t.trace_name,
    );
    unlocked = refl;
    is_live = rw (write_section-is_open L) (L.gzopen-is_open _ _ _ f o);
    content_lem = rw absent (
        write_section-content L f w.labelmap_str d (L.gzopen-is_open _ _ _ f o)
        ∙ ap (λ c. c ++ label_section w.labelmap_str) (L.gzopen-content _ _ _ f o));
    others = λ n g ne e. (
      ground (arith, lookup-insert t.trace_name n f w.gz_files, text_eq_iff t.trace_name n),
      write_section-content_other L f g w.labelmap_str d (fresh_ne n f g d r o e)
          ∙ L.gzopen-content_other _ _ _ f g o (fresh_ne n f g d r o e),
    );
    keeps = insert-IsRegistered f d r o;
  }

  pub known-Opens :
      (f : z.File)
      → IsRegistered v w.gz_files w.disk
      → lookup t.trace_name w.gz_files ≡ some f
      → Opens v t w (with_file t f w)
  known-Opens f r here = record {
    file = f;
    trace_lem = refl;
    registered = here;
    unlocked = refl;
    is_live = r.opened _ f here;
    content_lem = rw here;
    others = λ n g ne e. (e, refl);
    keeps = r;
  }

  pub open_trace_file_cases :
      w.locked ≡ false
      → w.trace ≡ some t
      → IsRegistered v w.gz_files w.disk
      → ((open_trace_file w ≡ err exit_failure)
          × (lookup t.trace_name w.gz_files ≡ none)
          × ((z.gzopen t.trace_name w.disk).0 ≡ none))
        ⊎ ((w' : World z) × (open_trace_file w ≡ ok w') × Opens v t w w')
  open_trace_file_cases l e r = elim (Option-cases (lookup t.trace_name w.gz_files)) [
    | inr (f, known) ↦
        inr (with_file t f w, open_trace_file_known w t f l e known, known-Opens f r known)
    | inl absent ↦ elim (opening (z.gzopen t.trace_name w.disk)) [
      | inl failed ↦ inl (open_trace_file_fails w t l e absent failed, absent, failed)
      | inr (f, d, o) ↦ inr (
        with_new_file t f d w,
        open_trace_file_new w t f d l e absent o,
        new-Opens f d r absent o,
      )
    ]
  ]
    where
      opening :
          (p : Option z.File × z.Disk)
          → (p.0 ≡ none) ⊎ ((f : z.File) × (d : z.Disk) × (p ≡ (some f, d)))
      opening (none, d) = inl refl
      opening (some f, d) = inr (f, d, refl)

  ok_no_err : {w' : World z} → ok w' ≡ err exit_failure → ⊥
  ok_no_err e = cc

  -- With the lock free, a trace at hand and open, distinct streams registered, `open_trace_file`
  -- stops the program exactly if the name is new and zlib cannot open it, and otherwise it succeeds
  -- with what `Opens` says.
  pub open_trace_file-Opens :
      w.locked ≡ false
      → w.trace ≡ some t
      → IsRegistered v w.gz_files w.disk
      → ((open_trace_file w ≡ err exit_failure) ↔ CannotOpen t.trace_name w)
        × ((open_trace_file w ≡ err exit_failure)
            ⊎ ((w' : World z) × (open_trace_file w ≡ ok w') × Opens v t w w'))
  open_trace_file-Opens l e r = elim (open_trace_file_cases l e r) [
    | inl (failed, absent, refused) ↦ (((λ _. (absent, refused)), (λ _. failed)), inl failed)
    | inr (w', opened, p) ↦ (
      (
        (λ failed. absurd (ok_no_err (sym opened ∙ failed))),
        λ why. open_trace_file_fails w t l e why.0 why.1,
      ),
      inr (w', opened, p),
    )
  ]
