-- ===== src/Runtime/Memory.antt =====
-- Streams in memory: an instance of the zlib calls, which meets what is assumed of them.
use llvm_tracer.Prelude.{ℕ, ◌+◌, ◌++◌, ◌&&◌, Bool, true, false, some, [], Text}
use llvm_tracer.Prelude.{ltb, ◌==◌, if◌then◌else◌, arith}
use llvm_tracer.Runtime.Gz.{Gz, View, IsLawful}

-- Streams are numbered in the order in which they are opened.
pub record MemoryDisk : Type 0 where
  pub next : ℕ
  pub text : ℕ → Text
  pub live : ℕ → Bool

abbrev pub no_files : MemoryDisk
no_files = record { next = 0; text = λ f. []; live = λ f. false }

abbrev append_to : ℕ → Text → MemoryDisk → MemoryDisk
append_to f s d = record d { text = λ g. if g == f then d.text g ++ s else d.text g }

abbrev pub memory : Gz
memory = record {
  File = ℕ;
  Disk = MemoryDisk;
  gzopen = λ n d. (
    some d.next,
    record {
      next = d.next + 1;
      text = λ g. if g == d.next then [] else d.text g;
      live = λ g. if g == d.next then true else d.live g;
    },
  );
  gzwrite = append_to;
  gzprintf = append_to;
  gzclose = λ f d. record d { live = λ g. if g == f then false else d.live g };
}

abbrev pub memory_view : View memory
memory_view = record { content = λ f d. d.text f; is_open = λ f d. ltb f d.next && d.live f }

pub memory-IsLawful : IsLawful memory memory_view
memory-IsLawful = record {
  gzopen-content = λ n d e f h. ground arith;
  gzopen-is_open = λ n d e f h. ground arith;
  gzopen-fresh = λ n d e f h. ground arith;
  gzopen-content_other = λ n d e f g h ne. ground arith;
  gzopen-is_open_other = λ n d e f g h ne. ground arith;
  gzwrite-content = λ f s d h. ground arith;
  gzwrite-content_other = λ f g s d ne. ground arith;
  gzwrite-is_open = λ f g s d. ground arith;
  gzprintf-content = λ f s d h. ground arith;
  gzprintf-content_other = λ f g s d ne. ground arith;
  gzprintf-is_open = λ f g s d. ground arith;
  gzclose-is_open = λ f d h. ground arith;
  gzclose-is_open_other = λ f g d h ne. ground arith;
  gzclose-content = λ f g d h. ground arith;
}
