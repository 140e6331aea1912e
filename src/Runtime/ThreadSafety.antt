-- ===== src/Runtime/ThreadSafety.antt =====
-- Threads that log at once (profile-func/trace_logger.cpp), in any order of their steps: the lock
-- has one holder, each trace file gets what its thread prints, and the threads end.
use llvm_tracer.Prelude.{
  ℕ, ◌≡◌, refl, sym, subst, ap, ◌∙◌, ◌≢◌, ◌⊎◌, ◌↔◌, inl, inr, Bool, true, false, Bool-cases, Option,
  some, [], ◌++◌, Text, if◌then◌else◌, ◌==◌, ==_iff, arith,
}
use llvm_tracer.Prelude.Result.{Result, ok}
use llvm_tracer.Runtime.Gz.{Gz, View, IsLawful}
use llvm_tracer.Runtime.State.{World}
use llvm_tracer.Runtime.Opening.{IsRegistered}
use llvm_tracer.Runtime.Session.Content.{old_content}
use llvm_tracer.Runtime.Threads.{
  Pc, at_lock, at_open, at_unlock, at_entry, printing, Thread, System, seen, update, advance, moves,
  Reach, unmoved, later, text_left,
}
use llvm_tracer.Runtime.ThreadSteps.{advance-Moves}
use llvm_tracer.Runtime.ThreadMoves.{
  is_holding, next_pc, next_locked, steps_left, IsThread, Moved, Moves,
}

some_ok_inj {ℓ} :
    {A : Type ℓ} (a b : A) → ◌≡◌ {A = Option (Result A)} (some (ok a)) (some (ok b)) → a ≡ b
some_ok_inj a b e = cc

-- A family on updated threads.
at_updated :
    {Double : Type 0} {z : Gz} (P : ℕ → Thread Double z → Type 0) (i : ℕ) (t : Thread Double z)
    (threads : ℕ → Thread Double z)
    → P i t
    → ((j : ℕ) → i ≢ j → P j (threads j))
    → (j : ℕ) → P j (update i t threads j)
at_updated P i t threads p h j = elim (Bool-cases (i == j)) [
  | inl same ↦
      subst (λ b. P j (if b then t else threads j)) (sym same)
        (subst (λ k. P k t) ((==_iff i j).0 same) p)
  | inr other ↦
      subst (λ b. P j (if b then t else threads j)) (sym other)
        (h j λ e. ground (arith, other, (==_iff i j).1 e))
]

next_holds : (pc : Pc) → is_holding (next_pc pc) ≡ true → (pc ≡ at_lock) ⊎ (is_holding pc ≡ true)
next_holds at_lock e = inl refl
next_holds at_open e = inr refl
next_holds at_unlock e = cc
next_holds at_entry e = cc
next_holds printing e = cc

-- The lock after a step of a thread that had it or does not touch it.
keeps_lock : (pc : Pc) (b : Bool) → (b ≡ true) → is_holding pc ≡ false → next_locked pc b ≡ true
keeps_lock at_lock b e h = refl
keeps_lock at_open b e h = e
keeps_lock at_unlock b e h = cc
keeps_lock at_entry b e h = e
keeps_lock printing b e h = e

has_lock :
    (pc : Pc) (b : Bool)
    → (is_holding pc ≡ true → b ≡ true)
    → is_holding (next_pc pc) ≡ true
    → next_locked pc b ≡ true
has_lock at_lock b held h = refl
has_lock at_open b held h = held refl
has_lock at_unlock b held h = cc
has_lock at_entry b held h = cc
has_lock printing b held h = cc

-- Whose lock it is after a step.
lock_of :
    (pc : Pc) (b : Bool)
    → next_locked pc b ≡ true
    → (is_holding (next_pc pc) ≡ true) ⊎ ((b ≡ true) × (is_holding pc ≡ false))
lock_of at_lock b e = inl refl
lock_of at_open b e = inl refl
lock_of at_unlock b e = cc
lock_of at_entry b e = inr (e, refl)
lock_of printing b e = inr (e, refl)

module _ {Double : Type 0} (show_double : Double → Text) {z : Gz} (v : View z)
    (names : ℕ → Text) where
  -- The text of the trace files in the end: what stands there now and what is yet to be printed.
  abbrev pub final_text : System Double z → ℕ → Text
  final_text s i = old_content v (names i) s.shared ++ text_left show_double (s.threads i)

module _ {Double : Type 0} (show_double : Double → Text) {z : Gz} {v : View z} (L : IsLawful z v)
    (names : ℕ → Text) where
  -- Each thread logs under its name, the registered streams are open and distinct, and exactly one
  -- thread holds the lock while it is taken.
  pub record Inv (s : System Double z) : Type 0 where
    pub registered : IsRegistered v s.shared.gz_files s.shared.disk
    pub is_thread : (i : ℕ) → IsThread show_double v (names i) (s.threads i) s.shared
    pub exclusive :
        (i j : ℕ) → is_holding (s.threads i).pc ≡ true → is_holding (s.threads j).pc ≡ true → i ≡ j
    pub held : (i : ℕ) → is_holding (s.threads i).pc ≡ true → s.shared.locked ≡ true
    pub holder : s.shared.locked ≡ true → (i : ℕ) × (is_holding (s.threads i).pc ≡ true)

  -- What a step of a thread does, in such a state.
  step-Moved :
      (s : System Double z) (i : ℕ) (t : Thread Double z) (w : World z)
      → Inv s
      → advance show_double (s.threads i) (seen s (s.threads i)) ≡ some (ok (t, w))
      → Moved show_double v (names i) (s.threads i) t s.shared w
  step-Moved s i t w h e =
      elim (advance-Moves show_double v L (names i) (s.threads i) s.shared h.registered
        (h.is_thread i)) [
          | inl (waits, _) ↦ cc
          | inr (inl (fails, _)) ↦ cc
          | inr (inr (t', w', e', m)) ↦
              subst
                (λ (r : Thread Double z × World z).
                  Moved show_double v (names i) (s.threads i) r.0 s.shared r.1)
                (some_ok_inj (t', w') (t, w) (sym e' ∙ e)) m
        ]

  module _ (distinct : (i j : ℕ) → names i ≡ names j → i ≡ j) (s : System Double z) (i : ℕ)
      (t : Thread Double z) (w : World z) (h : Inv s)
      (m : Moved show_double v (names i) (s.threads i) t s.shared w) where
    abbrev threads' : ℕ → Thread Double z
    threads' = update i t s.threads

    other_IsThread : (j : ℕ) → i ≢ j → IsThread show_double v (names j) (s.threads j) w
    other_IsThread j ne = record {
      info = (h.is_thread j).info;
      trace_lem = (h.is_thread j).trace_lem;
      named = (h.is_thread j).named;
      status = (h.is_thread j).status;
      backed = (h.is_thread j).backed;
      opened = λ e.
          let (f, stream, here) = (h.is_thread j).opened e in
          (f, stream, m.other_files (names j) f (λ same. ne (sym (distinct j i same))) here);
    }

    -- A thread that has the lock after its step had it, or it was free.
    alone : is_holding t.pc ≡ true → (j : ℕ) → i ≢ j → is_holding (s.threads j).pc ≡ true → ⊥
    alone e j ne e' = elim (next_holds (s.threads i).pc (ap is_holding (sym m.pc_lem) ∙ e)) [
      | inl locking ↦ cc (m.free locking, h.held j e')
      | inr had ↦ ne (h.exclusive i j had e')
    ]

    abbrev Held : ℕ → Thread Double z → Type 0
    Held j t' =
        is_holding t'.pc ≡ true
        → (((i ≡ j) × (is_holding t.pc ≡ true)) ⊎ ((i ≢ j) × (is_holding (s.threads j).pc ≡ true)))

    whose : (j : ℕ) → Held j (threads' j)
    whose = at_updated Held i t s.threads (λ e. inl (refl, e)) (λ j ne e. inr (ne, e))

    not_mover :
        (j : ℕ) → i ≢ j → is_holding (s.threads j).pc ≡ true → is_holding (s.threads i).pc ≡ false
    not_mover j ne old = elim (Bool-cases (is_holding (s.threads i).pc)) [
      | inl had ↦ absurd (ne (h.exclusive i j had old))
      | inr free ↦ free
    ]

    holder_after :
        (j : ℕ)
        → is_holding (s.threads j).pc ≡ true
        → is_holding (s.threads i).pc ≡ false
        → is_holding (threads' j).pc ≡ true
    holder_after =
        at_updated
          (λ j t'.
            is_holding (s.threads j).pc ≡ true
            → is_holding (s.threads i).pc ≡ false
            → is_holding t'.pc ≡ true)
          i t s.threads (λ e free. cc) (λ j ne e free. e)

    moved_holds : is_holding (next_pc (s.threads i).pc) ≡ true → is_holding (threads' i).pc ≡ true
    moved_holds e =
        subst (λ b. is_holding (if b then t else s.threads i).pc ≡ true) (sym ((==_iff i i).1 refl))
          (ap is_holding m.pc_lem ∙ e)

    Moved-Inv : Inv (record { shared = w; threads = threads' })
    Moved-Inv = record {
      registered = m.keeps;
      is_thread =
          at_updated (λ j t'. IsThread show_double v (names j) t' w) i t s.threads m.is_thread
            other_IsThread;
      exclusive = λ j k e e'. elim (whose j e) [
        | inl (ij, has) ↦ elim (whose k e') [
          | inl (ik, _) ↦ sym ij ∙ ik
          | inr (ne, old) ↦ absurd (alone has k ne old)
        ]
        | inr (ne, old) ↦ elim (whose k e') [
          | inl (ik, has) ↦ absurd (alone has j ne old)
          | inr (_, old') ↦ h.exclusive j k old old'
        ]
      ];
      held = λ j e. elim (whose j e) [
        | inl (ij, has) ↦
            m.locked_lem
            ∙ has_lock (s.threads i).pc s.shared.locked (h.held i)
                (ap is_holding (sym m.pc_lem) ∙ has)
        | inr (ne, old) ↦
            m.locked_lem
            ∙ keeps_lock (s.threads i).pc s.shared.locked (h.held j old) (not_mover j ne old)
      ];
      holder = λ e. elim (lock_of (s.threads i).pc s.shared.locked (sym m.locked_lem ∙ e)) [
        | inl mine ↦ (i, moved_holds mine)
        | inr (old, not_mine) ↦
            (let (j, theirs) = h.holder old in (j, holder_after j theirs not_mine))
      ];
    }

    final_text-kept :
        (j : ℕ)
        → final_text show_double v names (record { shared = w; threads = threads' }) j
          ≡ final_text show_double v names s j
    final_text-kept =
        at_updated
          (λ j t'.
            old_content v (names j) w ++ text_left show_double t'
            ≡ final_text show_double v names s j)
          i t s.threads m.own
          (λ j ne.
            ap (λ (c : Text). c ++ text_left show_double (s.threads j))
              (m.other_content (names j) (λ same. ne (sym (distinct j i same)))))

  -- The threads at the start: nobody holds the lock, the registered streams are open and distinct,
  -- and each thread has entered a function and is about to open its file.
  pub record IsStarted (s : System Double z) : Type 0 where
    pub unlocked : s.shared.locked ≡ false
    pub registered : IsRegistered v s.shared.gz_files s.shared.disk
    pub is_thread : (i : ℕ) → IsThread show_double v (names i) (s.threads i) s.shared
    pub outside : (i : ℕ) → is_holding (s.threads i).pc ≡ false

  IsStarted-Inv : (s : System Double z) → IsStarted s → Inv s
  IsStarted-Inv s h = record {
    registered = h.registered;
    is_thread = h.is_thread;
    exclusive = λ i j e e'. absurd (ground (arith, h.outside i, e));
    held = λ i e. absurd (ground (arith, h.outside i, e));
    holder = λ e. absurd (ground (arith, h.unlocked, e));
  }

  module _ (distinct : (i j : ℕ) → names i ≡ names j → i ≡ j) (s : System Double z)
      (begun : IsStarted s) where
    Reach-Inv : (u : System Double z) → Reach show_double s u → Inv u
    Reach-Inv u unmoved = IsStarted-Inv s begun
    Reach-Inv u (later r (moves i t w e)) =
        let h = Reach-Inv _ r in Moved-Inv distinct _ i t w h (step-Moved _ i t w h e)

    -- From threads with different trace names that log, with the lock free and open, distinct
    -- streams registered, in any order of their steps: at most one thread is between locking and
    -- unlocking, and there is one exactly while the lock is taken.
    pub one_holder :
        (u : System Double z)
        → Reach show_double s u
        → ((i j : ℕ)
            → is_holding (u.threads i).pc ≡ true
            → is_holding (u.threads j).pc ≡ true
            → i ≡ j)
          × ((u.shared.locked ≡ true) ↔ ((i : ℕ) × (is_holding (u.threads i).pc ≡ true)))
    one_holder u r = let h = Reach-Inv u r in (h.exclusive, (h.holder, λ (i, e). h.held i e))

    -- From threads with different trace names that log, with the lock free and open, distinct
    -- streams registered, in any order of their steps: what stands in the file of a thread's name
    -- (before it is opened: the label map that it will get) and what the thread has yet to print
    -- are together the same text at all times, whatever the other threads do.
    pub files_keep_apart :
        (u : System Double z)
        → Reach show_double s u
        → (i : ℕ) → final_text show_double v names u i ≡ final_text show_double v names s i
    files_keep_apart u unmoved i = refl
    files_keep_apart u (later r (moves k t w e)) i =
        let h = Reach-Inv _ r in
        final_text-kept distinct _ k t w h (step-Moved _ k t w h e) i ∙ files_keep_apart _ r i

    -- From threads with different trace names that log, with the lock free and open, distinct
    -- streams registered, in any order of their steps: while a thread has a step yet to make, some
    -- thread can make its step, or stops the program because its name is new and zlib cannot open
    -- the file.
    pub no_deadlock :
        (u : System Double z)
        → Reach show_double s u
        → (i : ℕ)
        → (steps_left (u.threads i) ≡ 0)
          ⊎ ((j : ℕ) × Moves show_double v (names j) (u.threads j) u.shared)
    no_deadlock u r i =
        elim (advance-Moves show_double v L (names i) (u.threads i) u.shared h.registered
          (h.is_thread i)) [
            | inr m ↦ inr (i, m)
            | inl (_, inr (printed, empty)) ↦ inl (none_left (u.threads i) printed empty)
            | inl (_, inl (waits, taken)) ↦
                (let (j, has) = h.holder taken in
                  elim (advance-Moves show_double v L (names j) (u.threads j) u.shared h.registered
                    (h.is_thread j)) [
                      | inr m ↦ inr (j, m)
                      | inl (_, inr (printed, _)) ↦
                          absurd (ground (arith, ap is_holding printed, has))
                      | inl (_, inl (waits', _)) ↦
                          absurd (ground (arith, ap is_holding waits', has))
                    ])
          ]
      where
        h : Inv u
        h = Reach-Inv u r

        none_left : (t : Thread Double z) → t.pc ≡ printing → t.todo ≡ [] → steps_left t ≡ 0
        none_left t e e' = rw (e, e') refl
