-- ===== src/Runtime/Closing.antt =====
-- What `fin_main` leaves at the exit of the program (profile-func/trace_logger.cpp).
use llvm_tracer.Prelude.{
  true, false, ◌≡◌, ◌≢◌, refl, sym, ap, All, ◌∙◌, Text, text_eq, arith, none, some, [], ◌∷◌,
  Bool-cases, inl, inr,
}
use llvm_tracer.Prelude.Dict.{Dict, lookup}
use llvm_tracer.Runtime.Gz.{Gz, View, IsLawful}
use llvm_tracer.Runtime.State.{World}
use llvm_tracer.Runtime.Files.{close_all, fin_main}

fin_main_lem :
    {z : Gz} (w : World z)
    → fin_main w ≡ record w { trace = none; disk = close_all z w.gz_files w.disk }
unfolding fin_main
fin_main_lem w = ground arith

-- The streams are open, and no two of them are the same.
abbrev pub AreOpen : {z : Gz} → View z → Dict z.File → z.Disk → Type 0
AreOpen v [] d = Unit {0}
AreOpen {z} v ((name, f) ∷ files) d =
    (v.is_open f d ≡ true) × All (λ (e : Text × z.File). f ≢ e.1) files × AreOpen v files d

-- Each stream is open when its turn to be closed comes.
abbrev pub ClosesOpen : {z : Gz} → View z → Dict z.File → z.Disk → Type 0
ClosesOpen v [] d = Unit {0}
ClosesOpen {z} v ((name, f) ∷ files) d = (v.is_open f d ≡ true) × ClosesOpen v files (z.gzclose f d)

module _ {z : Gz} {v : View z} (L : IsLawful z v) where
  gzclose-AreOpen :
      (g : z.File) (files : Dict z.File) (d : z.Disk)
      → v.is_open g d ≡ true
      → All (λ (e : Text × z.File). g ≢ e.1) files
      → AreOpen v files d
      → AreOpen v files (z.gzclose g d)
  gzclose-AreOpen g [] d o ne h = tt
  gzclose-AreOpen g ((name, f) ∷ files) d o (ne, nes) (here, distinct, h) =
      (L.gzclose-is_open_other g f d o ne ∙ here, distinct, gzclose-AreOpen g files d o nes h)

  close_all-ClosesOpen :
      (files : Dict z.File) (d : z.Disk) → AreOpen v files d → ClosesOpen v files d
  close_all-ClosesOpen [] d h = tt
  close_all-ClosesOpen ((name, f) ∷ files) d (here, distinct, h) =
      (here, close_all-ClosesOpen files (z.gzclose f d) (gzclose-AreOpen f files d here distinct h))

  close_all-is_open_other :
      (files : Dict z.File) (f : z.File) (d : z.Disk)
      → AreOpen v files d
      → All (λ (e : Text × z.File). f ≢ e.1) files
      → v.is_open f (close_all z files d) ≡ v.is_open f d
  unfolding close_all
  close_all-is_open_other [] f d h nes = refl
  close_all-is_open_other ((name, g) ∷ files) f d (here, distinct, h) (ne, nes) =
      close_all-is_open_other files f (z.gzclose g d) (gzclose-AreOpen g files d here distinct h)
        nes
      ∙ L.gzclose-is_open_other g f d here (λ same. ne (sym same))

  close_all-closed :
      (files : Dict z.File) (name : Text) (f : z.File) (d : z.Disk)
      → AreOpen v files d
      → lookup name files ≡ some f
      → v.is_open f (close_all z files d) ≡ false
  unfolding close_all lookup
  close_all-closed [] name f d h e = cc
  close_all-closed ((key, g) ∷ files) name f d (here, distinct, h) e =
      let h' = gzclose-AreOpen g files d here distinct h in
      elim (Bool-cases (text_eq key name)) [
        | inl hit ↦
            let same : g ≡ f = ground (arith, hit, e) in
            ap (λ x. v.is_open x (close_all z files (z.gzclose g d))) (sym same)
            ∙ (close_all-is_open_other files g (z.gzclose g d) h' distinct
                ∙ L.gzclose-is_open g d here)
        | inr miss ↦ close_all-closed files name f (z.gzclose g d) h' (ground (arith, miss, e))
      ]

  close_all-content :
      (files : Dict z.File) (f : z.File) (d : z.Disk)
      → AreOpen v files d
      → v.content f (close_all z files d) ≡ v.content f d
  unfolding close_all
  close_all-content [] f d h = refl
  close_all-content ((name, g) ∷ files) f d (here, distinct, h) =
      close_all-content files f (z.gzclose g d) (gzclose-AreOpen g files d here distinct h)
      ∙ L.gzclose-content g f d here

  -- If the registered files are open and distinct, then at exit each is open when it is closed, and
  -- afterwards no trace is left, every registered file is closed, and no file's text has changed.
  pub fin_main-closes :
      (w : World z)
      → AreOpen v w.gz_files w.disk
      → ClosesOpen v w.gz_files w.disk
        × ((fin_main w).trace ≡ none)
        × ((name : Text) (f : z.File)
            → lookup name w.gz_files ≡ some f
            → v.is_open f (fin_main w).disk ≡ false)
        × ((f : z.File) → v.content f (fin_main w).disk ≡ v.content f w.disk)
  fin_main-closes w h = rw fin_main_lem (
    close_all-ClosesOpen w.gz_files w.disk h,
    refl,
    (λ name f e. close_all-closed w.gz_files name f w.disk h e),
    λ f. close_all-content w.gz_files f w.disk h,
  )
