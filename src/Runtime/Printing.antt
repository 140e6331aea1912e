-- ===== src/Runtime/Printing.antt =====
-- What `convert_bytes_to_hex` writes, and the room that it needs (profile-func/trace_logger.cpp).
use llvm_tracer.Prelude.{ℕ, zero, suc, ◌+◌, ◌*◌, ◌≤◌, ◌<◌, ◌≡◌, refl, ◌≢◌, some, [], ◌∷◌, ◌++◌}
use llvm_tracer.Prelude.{
  Text, codes, length, take, drop, length-append, take-append_length, drop-append_length,
  drop-get_elem?, get_elem?, length-drop, length-take, append_assoc, arith, All, ap, ◌∙◌,
}
use native.Mathlib.Decide.{dec_le}
use llvm_tracer.Prelude.Decimal.{show_byte}
use llvm_tracer.Prelude.Result.{ok, err, buffer_overflow}
use llvm_tracer.Runtime.Hex.{write_at, sprintf_at, hex_loop, convert_bytes_to_hex, c_string}

-- Two digits for each byte.
unfoldable pub hex_text : Text → Text
hex_text [] = []
hex_text (b ∷ bs) = show_byte b ++ hex_text bs

write_at_fits :
    (done rest s : Text) (p : ℕ)
    → p ≡ length done
    → length s ≤ length rest
    → write_at (done ++ rest) p s ≡ ok (done ++ (s ++ drop (length s) rest))
unfolding write_at
write_at_fits done rest s p e h =
    rw (e, take-append_length done rest, drop-append_length done rest)
      (ground (arith, length-append done rest))

write_at_overflows :
    (buf s : Text) (p : ℕ) → length buf < p + length s → write_at buf p s ≡ err buffer_overflow
unfolding write_at
write_at_overflows buf s p h = ground arith

sprintf_byte :
    (x : ℕ) (done rest : Text) (p : ℕ)
    → p ≡ length done
    → 3 ≤ length rest
    → sprintf_at (done ++ rest) p (show_byte x) ≡ ok ((done ++ show_byte x) ++ (0 ∷ drop 3 rest))
unfolding sprintf_at show_byte
sprintf_byte x done rest p e h =
    write_at_fits done rest (show_byte x ++ (0 ∷ [])) p e h ∙ simp append_assoc

sprintf_short :
    (x : ℕ) (done rest : Text) (p : ℕ)
    → p ≡ length done
    → length rest < 3
    → sprintf_at (done ++ rest) p (show_byte x) ≡ err buffer_overflow
unfolding sprintf_at show_byte
sprintf_short x done rest p e h =
    write_at_overflows (done ++ rest) (show_byte x ++ (0 ∷ [])) p
      (omega (arith, length-append done rest))

-- The loop fills the room behind `done` and keeps the length of the buffer.
abbrev Fills : ℕ → ℕ → Text → ℕ → Text → Text → Type 0
Fills rounds i value p done rest =
    (end : Text) × (hex_loop rounds i value p (done ++ rest)
      ≡ ok (done ++ (hex_text (take rounds (drop i value)) ++ (0 ∷ end))))
    × (length end + 2 * rounds + 1 ≡ length rest)

length-append-show_byte : (done : Text) (x : ℕ) → length (done ++ show_byte x) ≡ length done + 2
unfolding show_byte
length-append-show_byte done x = length-append done (show_byte x)

hex_loop_next :
    (x rounds i : ℕ) (value done rest : Text) (p : ℕ)
    → get_elem? value i ≡ some x
    → drop i value ≡ x ∷ drop (suc i) value
    → p ≡ length done
    → 2 * suc rounds + 1 ≤ length rest
    → Fills rounds (suc i) value (p + 2) (done ++ show_byte x) (0 ∷ drop 3 rest)
    → Fills (suc rounds) i value p done rest
unfolding hex_loop hex_text
hex_loop_next x rounds i value done rest p found split e h (end, loop, size) = (
  end,
  rw (found, split, sprintf_byte x done rest p e (omega arith)) (loop ∙ simp append_assoc),
  omega (arith, length-drop 3 rest),
)

hex_loop_fits :
    (rounds i : ℕ) (value done rest : Text) (p : ℕ)
    → p ≡ length done
    → 2 * rounds + 1 ≤ length rest
    → i + rounds ≤ length value
    → Fills rounds i value p done rest
unfolding hex_loop hex_text
hex_loop_fits zero i value done rest p e h k = (
  drop 1 rest,
  write_at_fits done rest (0 ∷ []) p e (omega arith),
  omega (arith, length-drop 1 rest),
)
hex_loop_fits (suc rounds) i value done rest p e h k =
    let (x, found, split) = drop-get_elem? value i (omega arith) in
    hex_loop_next x rounds i value done rest p found split e h (
      hex_loop_fits rounds (suc i) value (done ++ show_byte x) (0 ∷ drop 3 rest) (p + 2)
        (omega (arith, length-append-show_byte done x)) (omega (arith, length-drop 3 rest))
        (omega arith))

hex_loop_overflows :
    (rounds i : ℕ) (value done rest : Text) (p : ℕ)
    → p ≡ length done
    → length rest ≤ 2 * rounds
    → i + rounds ≤ length value
    → hex_loop rounds i value p (done ++ rest) ≡ err buffer_overflow
unfolding hex_loop
hex_loop_overflows zero i value done rest p e h k =
    write_at_overflows (done ++ rest) (0 ∷ []) p (omega (arith, length-append done rest))
hex_loop_overflows (suc rounds) i value done rest p e h k =
    let (x, found, split) = drop-get_elem? value i (omega arith) in
    elim (dec_le 3 (length rest)) [
      | yes room ↦
          rw (found, sprintf_byte x done rest p e room)
            (hex_loop_overflows rounds (suc i) value (done ++ show_byte x) (0 ∷ drop 3 rest) (p + 2)
              (omega (arith, length-append-show_byte done x)) (omega (arith, length-drop 3 rest))
              (omega arith))
      | no short ↦ rw (found, sprintf_short x done rest p e (omega arith))
    ]

-- Every character of a converted text is one that a C string can hold.
abbrev NonZero : ℕ → Type 0
NonZero c = c ≢ 0

c_string-append : (s end : Text) → All NonZero s → c_string (s ++ (0 ∷ end)) ≡ s
c_string-append [] end h = refl
c_string-append (zero ∷ s) end h = absurd (h.0 refl)
c_string-append (suc c ∷ s) end h = ap (◌∷◌ (suc c)) (c_string-append s end h.1)

hex_text-NonZero : (bs : Text) → All NonZero (hex_text bs)
unfolding hex_text show_byte
hex_text-NonZero [] = tt
hex_text-NonZero (b ∷ bs) = (ground arith, (ground arith, hex_text-NonZero bs))

prefix_fits :
    (buf : Text)
    → 3 ≤ length buf
    → sprintf_at buf 0 (codes "0x") ≡ ok (codes "0x" ++ (0 ∷ drop 3 buf))
unfolding sprintf_at
prefix_fits buf h = write_at_fits [] buf (codes "0x" ++ (0 ∷ [])) 0 refl h

length-hex_text : (bs : Text) → length (hex_text bs) ≡ 2 * length bs
unfolding hex_text show_byte
length-hex_text [] = refl
length-hex_text (b ∷ bs) = omega (arith, length-hex_text bs)

module _ (buf value : Text) (size : ℕ) (given : size ≤ length value) where
  -- If the value has at least `size` bytes, then a buffer with room for the prefix, two digits a
  -- byte and the final zero holds exactly the text `0x` and the digits of the first `size` bytes,
  -- and keeps its length.
  pub convert_bytes_to_hex_fits :
      2 * size + 3 ≤ length buf
      → (buf' : Text) × (convert_bytes_to_hex buf value size ≡ ok buf')
        × (c_string buf' ≡ codes "0x" ++ hex_text (take size value))
        × (length buf' ≡ length buf)
  unfolding convert_bytes_to_hex
  convert_bytes_to_hex_fits h =
      let (end, loop, kept) =
        hex_loop_fits size 0 value (codes "0x") (0 ∷ drop 3 buf) 2 refl
          (omega (arith, length-drop 3 buf)) (omega arith) in
      (
        codes "0x" ++ (hex_text (take size value) ++ (0 ∷ end)),
        rw (prefix_fits buf (omega arith)) loop,
        c_string-append (codes "0x" ++ hex_text (take size value)) end
            (omega arith, (omega arith, hex_text-NonZero (take size value))),
        omega (
          arith,
          length-append (hex_text (take size value)) (0 ∷ end),
          length-hex_text (take size value),
          length-take size value given,
          length-drop 3 buf,
        ),
      )

  -- If the value has at least `size` bytes, then in any buffer that is smaller than the prefix,
  -- two digits a byte and the final zero the conversion writes past the end.
  pub convert_bytes_to_hex_overflows :
      length buf < 2 * size + 3 → convert_bytes_to_hex buf value size ≡ err buffer_overflow
  unfolding convert_bytes_to_hex
  convert_bytes_to_hex_overflows h = elim (dec_le 3 (length buf)) [
    | yes room ↦ rw (prefix_fits buf room) (
        hex_loop_overflows size 0 value (codes "0x") (0 ∷ drop 3 buf) 2 refl
          (omega (arith, length-drop 3 buf)) (omega arith))
    | no short ↦ rw (write_at_overflows buf (codes "0x" ++ (0 ∷ [])) 0 (omega arith))
  ]

tests :
    convert_bytes_to_hex (1 ∷ 1 ∷ 1 ∷ 1 ∷ 1 ∷ 1 ∷ 1 ∷ []) (250 ∷ 7 ∷ []) 2
    ≡ ok (codes "0xfa07" ++ (0 ∷ []))
unfolding convert_bytes_to_hex
tests = refl
