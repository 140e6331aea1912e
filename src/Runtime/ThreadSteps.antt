-- ===== src/Runtime/ThreadSteps.antt =====
-- Every step of a thread (profile-func/trace_logger.cpp).
use llvm_tracer.Prelude.{
  ◌≡◌, refl, sym, ap, ◌∙◌, ◌⊎◌, inl, inr, true, none, some, List, [], ◌∷◌, All, Text, Bool-cases,
  subst,
}
use llvm_tracer.Prelude.Dict.{lookup}
use llvm_tracer.Runtime.Gz.{Gz, View, IsLawful}
use llvm_tracer.Runtime.State.{World}
use llvm_tracer.Runtime.Opening.{IsRegistered}
use llvm_tracer.Runtime.Log.{Line, IsBacked}
use llvm_tracer.Runtime.Threads.{
  Pc, at_lock, at_open, at_unlock, at_entry, printing, Thread, advance,
}
use llvm_tracer.Runtime.ThreadMoves.{has_file, IsThread, Moves}
use llvm_tracer.Runtime.ThreadOpening.{lock-Moves, unlock-Moves, open-Moves}
use llvm_tracer.Runtime.ThreadPrinting.{entry-Moves, print-Moves}

module _ {Double : Type 0} (show_double : Double → Text) {z : Gz} (v : View z) where
  -- A thread that waits for the lock or is done.
  abbrev pub Rests : Thread Double z → World z → Type 0
  Rests t w =
      (advance show_double t (record w { trace = t.trace }) ≡ none)
      × (((t.pc ≡ at_lock) × (w.locked ≡ true)) ⊎ ((t.pc ≡ printing) × (t.todo ≡ [])))

  -- A thread waits for the lock, is done, or makes its step.
  pub advance-Moves :
      IsLawful z v
      → (n : Text) (t : Thread Double z) (w : World z) → IsRegistered v w.gz_files w.disk
      → IsThread show_double v n t w
      → Rests t w ⊎ Moves show_double v n t w
  unfolding advance
  advance-Moves L n t w r h =
      subst (λ m. Rests t w ⊎ Moves show_double v m t w) h.named
        (subst
          (λ trace.
            Rests (record t { trace = trace }) w
            ⊎ Moves show_double v h.info.trace_name (record t { trace = trace }) w)
          (sym h.trace_lem)
          (go t.pc t.todo h.backed (λ e.
            let (f, stream, here) = h.opened e in
            (f, stream, ap (λ m. lookup m w.gz_files) h.named ∙ here))))
    where
      P : Pc → List (Line Double) → Type 0
      P pc todo =
          let here : Thread Double z = record {
            trace = some h.info;
            pc = pc;
            func_name = t.func_name;
            num_parameters = t.num_parameters;
            todo = todo;
          } in
          Rests here w ⊎ Moves show_double v h.info.trace_name here w

      HasFile : Pc → Type 0
      HasFile pc =
          has_file pc ≡ true
          → (f : z.File) × (h.info.trace_file ≡ some f)
            × (lookup h.info.trace_name w.gz_files ≡ some f)

      go : (pc : Pc) (todo : List (Line Double)) → All IsBacked todo → HasFile pc → P pc todo
      go at_lock todo backed opened = elim (Bool-cases w.locked) [
        | inl busy ↦ inl (rw busy refl, inl (refl, busy))
        | inr free ↦ inr (
            lock-Moves show_double v L t.func_name t.num_parameters w h.info h.status r todo backed
              free)
      ]
      go at_open todo backed opened =
          inr (
            open-Moves show_double v L t.func_name t.num_parameters w h.info h.status r todo backed)
      go at_unlock todo backed opened =
          let (f, stream, here) = opened refl in
          inr (
            unlock-Moves show_double v L t.func_name t.num_parameters w h.info h.status r todo f
              backed stream here)
      go at_entry todo backed opened =
          let (f, stream, here) = opened refl in
          inr (
            entry-Moves show_double v L t.func_name t.num_parameters w h.info h.status r todo f
              backed stream here)
      go printing [] backed opened = inl (refl, inr (refl, refl))
      go printing (l ∷ ls) backed opened =
          let (f, stream, here) = opened refl in
          inr (
            print-Moves show_double v L t.func_name t.num_parameters w h.info h.status r l ls f
              backed stream here)
