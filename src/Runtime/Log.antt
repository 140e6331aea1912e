-- ===== src/Runtime/Log.antt =====
-- A run of the printing calls of profile-func/trace_logger.cpp, and the text that it adds to the
-- trace.
use llvm_tracer.Prelude.{ℕ, ◌+◌, ◌/◌, ◌%◌, ◌^◌, ◌≤◌, ◌≡◌, refl, ap, ◌∙◌, ◌≢◌, ℤ, pos, true, false}
use llvm_tracer.Prelude.{
  some, List, [], ◌∷◌, ◌++◌, append_assoc, append-nil, Text, codes, length, take, replicate,
  length-replicate, All, arith,
}
use llvm_tracer.Prelude.Decimal.{show_int, show_hex}
use llvm_tracer.Prelude.Result.{Result, ok, ◌>>=◌}
use llvm_tracer.Runtime.Gz.{Gz, View, IsLawful}
use llvm_tracer.Runtime.State.{World, TraceInfo, log_and_continue}
use llvm_tracer.Runtime.Status.{does_not_log}
use llvm_tracer.Runtime.Printing.{hex_text, convert_bytes_to_hex_fits}
use llvm_tracer.Runtime.Lines.{
  Operand, first_line, print_first_line, print_vector, operand_head, operand_label, operand_tail,
  print_operand, trace_logger_log0, trace_logger_log_int, trace_logger_log_ptr,
  trace_logger_log_string, trace_logger_log_double, trace_logger_log_vector,
}

-- A call of one of the printing functions, with its arguments.
pub data Line (Double : Type 0) : Type 0 where
  first : ℤ → Text → Text → Text → ℤ → Line Double
  int_value : ℤ → Operand → Line Double
  ptr_value : ℕ → Operand → Line Double
  string_value : Text → Operand → Line Double
  double_value : Double → Operand → Line Double
  vector_value : ℕ → Text → Operand → Line Double

-- One operand with its converted value.
unfoldable pub operand_line : Operand → Text → Text
operand_line o value = operand_head o value ++ (operand_label o ++ operand_tail o)

-- A vector's memory holds its bytes.
abbrev pub IsBacked : {Double : Type 0} → Line Double → Type 0
IsBacked (vector_value size memory o) = size / 8 ≤ length memory
IsBacked (first line name bbid instid opcode) = Unit {0}
IsBacked (int_value value o) = Unit {0}
IsBacked (ptr_value value o) = Unit {0}
IsBacked (string_value value o) = Unit {0}
IsBacked (double_value value o) = Unit {0}

-- The instruction count after a call.
abbrev pub count_after : {Double : Type 0} → Line Double → ℕ → ℕ
count_after (first line name bbid instid opcode) n = (n + 1) % 2 ^ 64
count_after _ n = n

module _ {Double : Type 0} (show_double : Double → Text) where
  module _ {z : Gz} where
    unfoldable pub log_line : Line Double → World z → Result (World z)
    log_line (first line name bbid instid opcode) w =
        trace_logger_log0 line name bbid instid opcode w
    log_line (int_value value o) w = trace_logger_log_int value o w
    log_line (ptr_value value o) w = trace_logger_log_ptr value o w
    log_line (string_value value o) w = trace_logger_log_string value o w
    log_line (double_value value o) w = trace_logger_log_double show_double value o w
    log_line (vector_value size memory o) w = trace_logger_log_vector size memory o w

    unfoldable pub log_lines : List (Line Double) → World z → Result (World z)
    log_lines [] w = ok w
    log_lines (l ∷ ls) w = log_line l w >>= log_lines ls

  -- The text of a call when the instruction count is `n`.
  unfoldable pub line_text : Line Double → ℕ → Text
  unfolding operand_line
  line_text (first line name bbid instid opcode) n = first_line line name bbid instid opcode n
  line_text (int_value value o) n = operand_line o (show_int value)
  line_text (ptr_value value o) n = operand_line o (show_hex value)
  line_text (string_value value o) n = operand_line o value
  line_text (double_value value o) n = operand_line o (show_double value)
  line_text (vector_value size memory o) n =
      operand_line (record o { size = pos size }) (codes "0x" ++ hex_text (take (size / 8) memory))

  unfoldable pub lines_text : List (Line Double) → ℕ → Text
  lines_text [] n = []
  lines_text (l ∷ ls) n = line_text l n ++ lines_text ls (count_after l n)

-- The thread logs to the open stream `f`, and `t` is its trace.
pub record IsLogging {z : Gz} (v : View z) (f : z.File) (t : TraceInfo z.File) (w : World z)
    : Type 0 where
  pub has_trace : w.trace ≡ some t
  pub status : t.current_logging_status ≡ log_and_continue
  pub stream : t.trace_file ≡ some f
  pub live : v.is_open f w.disk ≡ true

-- What a call that adds `s` to the stream `f` does: the count of the trace becomes `n`.
pub record Adds {z : Gz} (v : View z) (f : z.File) (t : TraceInfo z.File) (s : Text) (n : ℕ)
    (w w' : World z) : Type 0 where
  pub logs : IsLogging v f (record t { inst_count = n }) w'
  pub adds : v.content f w'.disk ≡ v.content f w.disk ++ s
  pub others : (g : z.File) → f ≢ g → v.content g w'.disk ≡ v.content g w.disk
  pub opens : (g : z.File) → v.is_open g w'.disk ≡ v.is_open g w.disk
  pub rest : w' ≡ record w { trace = w'.trace; disk = w'.disk }

pub Adds-trans :
    {z : Gz} {v : View z} {f : z.File} {t : TraceInfo z.File} {r s : Text} {m n : ℕ}
    {u w w' : World z}
    → Adds v f t r m u w
    → Adds v f (record t { inst_count = m }) s n w w'
    → Adds v f t (r ++ s) n u w'
Adds-trans {z} {w'} a c = record {
  logs = c.logs;
  adds = c.adds ∙ rw a.adds (simp append_assoc);
  others = λ g ne. c.others g ne ∙ a.others g ne;
  opens = λ g. c.opens g ∙ a.opens g;
  rest = c.rest ∙ ap {A = World z} (λ x. record x { trace = w'.trace; disk = w'.disk }) a.rest;
}

module _ {z : Gz} {v : View z} (L : IsLawful z v) (f : z.File) where
  three_writes :
      (a b c : Text) (d : z.Disk)
      → v.is_open f d ≡ true
      → v.content f (z.gzprintf f c (z.gzprintf f b (z.gzprintf f a d)))
        ≡ v.content f d ++ (a ++ (b ++ c))
  three_writes a b c d o =
      rw
        (
          L.gzprintf-content f c (z.gzprintf f b (z.gzprintf f a d))
              (rw (L.gzprintf-is_open, L.gzprintf-is_open) o),
          L.gzprintf-content f b (z.gzprintf f a d) (rw L.gzprintf-is_open o),
          L.gzprintf-content f a d o,
        )
        (simp append_assoc)

  print_operand-Adds :
      (o : Operand) (value : Text) (t : TraceInfo z.File) (w : World z)
      → IsLogging v f t w
      → (w' : World z) × (print_operand o value w ≡ ok w')
        × Adds v f t (operand_line o value) t.inst_count w w'
  unfolding print_operand operand_line
  print_operand-Adds o value t w h = (
    record w { disk = d₃ },
    ground arith,
    record {
      logs = record {
        has_trace = h.has_trace;
        status = h.status;
        stream = h.stream;
        live = rw (L.gzprintf-is_open, L.gzprintf-is_open, L.gzprintf-is_open) h.live;
      };
      adds = three_writes (operand_head o value) (operand_label o) (operand_tail o) w.disk h.live;
      others = λ g ne.
          L.gzprintf-content_other f g _ d₂ ne
          ∙ (L.gzprintf-content_other f g _ d₁ ne ∙ L.gzprintf-content_other f g _ w.disk ne);
      opens = λ g. rw (L.gzprintf-is_open, L.gzprintf-is_open, L.gzprintf-is_open);
      rest = refl;
    },
  )
    where
      d₁ : z.Disk
      d₁ = z.gzprintf f (operand_head o value) w.disk

      d₂ : z.Disk
      d₂ = z.gzprintf f (operand_label o) d₁

      d₃ : z.Disk
      d₃ = z.gzprintf f (operand_tail o) d₂

  print_first_line-Adds :
      (line : ℤ) (name bbid instid : Text) (opcode : ℤ) (t : TraceInfo z.File) (w : World z)
      → IsLogging v f t w
      → (w' : World z) × (print_first_line line name bbid instid opcode w ≡ ok w')
        × Adds v f t
            (first_line line name bbid instid opcode t.inst_count)
            ((t.inst_count + 1) % 2 ^ 64)
            w
            w'
  unfolding print_first_line
  print_first_line-Adds line name bbid instid opcode t w h =
      let text = first_line line name bbid instid opcode t.inst_count in
      (
        record w {
          disk = z.gzprintf f text w.disk;
          trace = some (record t { inst_count = (t.inst_count + 1) % 2 ^ 64 });
        },
        ground arith,
        record {
          logs = record {
            has_trace = refl;
            status = h.status;
            stream = h.stream;
            live = rw L.gzprintf-is_open h.live;
          };
          adds = L.gzprintf-content f text w.disk h.live;
          others = λ g ne. L.gzprintf-content_other f g text w.disk ne;
          opens = λ g. rw L.gzprintf-is_open;
          rest = refl;
        },
      )

  print_vector-Adds :
      (size : ℕ) (memory : Text) (o : Operand) (t : TraceInfo z.File) (w : World z)
      → size / 8 ≤ length memory
      → IsLogging v f t w
      → (w' : World z) × (print_vector size memory o w ≡ ok w')
        × Adds v f t
            (operand_line
              (record o { size = pos size })
              (codes "0x" ++ hex_text (take (size / 8) memory)))
            t.inst_count
            w
            w'
  unfolding print_vector
  print_vector-Adds size memory o t w b h =
      let (buf, converted, text, _) =
        convert_bytes_to_hex_fits (replicate (size / 4 + 3) 0) memory (size / 8) b
          (omega (arith, length-replicate {A = ℕ} (size / 4 + 3) 0)) in
      rw (converted, text) (print_operand-Adds (record o { size = pos size }) _ t w h)

  logs_now : (t : TraceInfo z.File) (w : World z) → IsLogging v f t w → does_not_log w ≡ false
  unfolding does_not_log
  logs_now t w h = ground (arith, h.has_trace, h.status)

module _ {Double : Type 0} (show_double : Double → Text) {z : Gz} {v : View z} (L : IsLawful z v)
    (f : z.File) where
  -- While a thread logs, each printing call (of a vector: with its bytes in memory) succeeds and
  -- adds its line to the trace's stream, and nothing to any other.
  pub log_line-Adds :
      (l : Line Double) (t : TraceInfo z.File) (w : World z)
      → IsBacked l
      → IsLogging v f t w
      → (w' : World z) × (log_line show_double l w ≡ ok w')
        × Adds v f t (line_text show_double l t.inst_count) (count_after l t.inst_count) w w'
  unfolding log_line line_text trace_logger_log0 trace_logger_log_int trace_logger_log_ptr
      trace_logger_log_string trace_logger_log_double trace_logger_log_vector
  log_line-Adds (first line name bbid instid opcode) t w b h =
      rw (logs_now L f t w h) (print_first_line-Adds L f line name bbid instid opcode t w h)
  log_line-Adds (int_value value o) t w b h =
      rw (logs_now L f t w h) (print_operand-Adds L f o (show_int value) t w h)
  log_line-Adds (ptr_value value o) t w b h =
      rw (logs_now L f t w h) (print_operand-Adds L f o (show_hex value) t w h)
  log_line-Adds (string_value value o) t w b h =
      rw (logs_now L f t w h) (print_operand-Adds L f o value t w h)
  log_line-Adds (double_value value o) t w b h =
      rw (logs_now L f t w h) (print_operand-Adds L f o (show_double value) t w h)
  log_line-Adds (vector_value size memory o) t w b h =
      rw (logs_now L f t w h) (print_vector-Adds L f size memory o t w b h)

  pub log_lines-Adds :
      (ls : List (Line Double)) (t : TraceInfo z.File) (w : World z)
      → All IsBacked ls
      → IsLogging v f t w
      → (w' : World z) × (n : ℕ) × (log_lines show_double ls w ≡ ok w')
        × Adds v f t (lines_text show_double ls t.inst_count) n w w'
  unfolding log_lines lines_text
  log_lines-Adds [] t w b h = (
    w,
    t.inst_count,
    refl,
    record {
      logs = h;
      adds = rw append-nil;
      others = λ g ne. refl;
      opens = λ g. refl;
      rest = refl;
    },
  )
  log_lines-Adds (l ∷ ls) t w b h =
      let (w₁, done, a) = log_line-Adds l t w b.0 h in
      let (w₂, n, run, c) =
        log_lines-Adds ls (record t { inst_count = count_after l t.inst_count }) w₁ b.1 a.logs in
      (w₂, n, rw done run, Adds-trans a c)
