-- ===== src/Runtime/Gz.antt =====
-- zlib's gzip streams, which profile-func/trace_logger.cpp calls and does not implement: an open
-- stream, what zlib and the file system keep, and the four calls. A text given to `gzprintf` is
-- already formatted.
use llvm_tracer.Prelude.{◌≡◌, ◌≢◌, ◌++◌, Bool, true, false, Option, some, [], Text}

pub record Gz : Type 1 where
  pub File : Type 0
  pub Disk : Type 0
  pub gzopen : Text → Disk → Option File × Disk
  pub gzwrite : File → Text → Disk → Disk
  pub gzprintf : File → Text → Disk → Disk
  pub gzclose : File → Disk → Disk

-- What can be seen of a stream: the text written to it, uncompressed, and whether it is open.
pub record View (z : Gz) : Type 0 where
  pub content : z.File → z.Disk → Text
  pub is_open : z.File → z.Disk → Bool

-- What zlib documents of the calls. The limit of one `gzprintf` (8191 bytes) and a full disk are
-- left out.
pub record IsLawful (z : Gz) (v : View z) : Type 0 where
  pub gzopen-content :
      (n : Text) (d e : z.Disk) (f : z.File) → z.gzopen n d ≡ (some f, e) → v.content f e ≡ []
  pub gzopen-is_open :
      (n : Text) (d e : z.Disk) (f : z.File) → z.gzopen n d ≡ (some f, e) → v.is_open f e ≡ true
  pub gzopen-fresh :
      (n : Text) (d e : z.Disk) (f : z.File) → z.gzopen n d ≡ (some f, e) → v.is_open f d ≡ false
  pub gzopen-content_other :
      (n : Text) (d e : z.Disk) (f g : z.File)
      → z.gzopen n d ≡ (some f, e)
      → f ≢ g
      → v.content g e ≡ v.content g d
  pub gzopen-is_open_other :
      (n : Text) (d e : z.Disk) (f g : z.File)
      → z.gzopen n d ≡ (some f, e)
      → f ≢ g
      → v.is_open g e ≡ v.is_open g d
  pub gzwrite-content :
      (f : z.File) (s : Text) (d : z.Disk)
      → v.is_open f d ≡ true
      → v.content f (z.gzwrite f s d) ≡ v.content f d ++ s
  pub gzwrite-content_other :
      (f g : z.File) (s : Text) (d : z.Disk) → f ≢ g → v.content g (z.gzwrite f s d) ≡ v.content g d
  pub gzwrite-is_open :
      (f g : z.File) (s : Text) (d : z.Disk) → v.is_open g (z.gzwrite f s d) ≡ v.is_open g d
  pub gzprintf-content :
      (f : z.File) (s : Text) (d : z.Disk)
      → v.is_open f d ≡ true
      → v.content f (z.gzprintf f s d) ≡ v.content f d ++ s
  pub gzprintf-content_other :
      (f g : z.File) (s : Text) (d : z.Disk)
      → f ≢ g
      → v.content g (z.gzprintf f s d) ≡ v.content g d
  pub gzprintf-is_open :
      (f g : z.File) (s : Text) (d : z.Disk) → v.is_open g (z.gzprintf f s d) ≡ v.is_open g d
  pub gzclose-is_open :
      (f : z.File) (d : z.Disk) → v.is_open f d ≡ true → v.is_open f (z.gzclose f d) ≡ false
  pub gzclose-is_open_other :
      (f g : z.File) (d : z.Disk)
      → v.is_open f d ≡ true
      → f ≢ g
      → v.is_open g (z.gzclose f d) ≡ v.is_open g d
  pub gzclose-content :
      (f g : z.File) (d : z.Disk)
      → v.is_open f d ≡ true
      → v.content g (z.gzclose f d) ≡ v.content g d
