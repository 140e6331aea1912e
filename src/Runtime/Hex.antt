-- ===== src/Runtime/Hex.antt =====
-- `convert_bytes_to_hex` (profile-func/trace_logger.cpp), on a buffer of the caller's size.
use llvm_tracer.Prelude.{ℕ, zero, suc, ◌+◌, [], ◌∷◌, ◌++◌, Text, codes}
use llvm_tracer.Prelude.{leb, if◌then◌else◌, length, take, drop, get_elem?}
use llvm_tracer.Prelude.Decimal.{show_byte}
use llvm_tracer.Prelude.Result.{Result, ok, err, ◌>>=◌, or_fault, bad_pointer, buffer_overflow}

-- Bytes are stored from a position on, inside the buffer.
unfoldable pub write_at : Text → ℕ → Text → Result Text
write_at buf p s =
    if leb (p + length s) (length buf)
    then ok (take p buf ++ (s ++ drop (p + length s) buf))
    else err buffer_overflow

-- `sprintf` ends what it writes with a zero.
unfoldable pub sprintf_at : Text → ℕ → Text → Result Text
unfolding write_at
sprintf_at buf p s = write_at buf p (s ++ (0 ∷ []))

-- The loop, with `rounds` left and `buf` at position `p`.
unfoldable pub hex_loop : ℕ → ℕ → Text → ℕ → Text → Result Text
unfolding sprintf_at show_byte
hex_loop zero i value p buf = write_at buf p (0 ∷ [])
hex_loop (suc rounds) i value p buf = do
  byte ← or_fault (get_elem? value i) bad_pointer
  buf' ← sprintf_at buf p (show_byte byte)
  hex_loop rounds (suc i) value (p + 2) buf'

unfoldable pub convert_bytes_to_hex : Text → Text → ℕ → Result Text
unfolding hex_loop
convert_bytes_to_hex buf value size = do
  buf' ← sprintf_at buf 0 (codes "0x")
  hex_loop size 0 value 2 buf'

-- The text that a `char *` stands for: the bytes in front of the first zero.
abbrev pub c_string : Text → Text
c_string [] = []
c_string (zero ∷ s) = []
c_string (suc c ∷ s) = suc c ∷ c_string s
