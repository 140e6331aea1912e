-- ===== src/Runtime/Fields.antt =====
-- An operand's line as comma-separated fields, the way a reader of the trace takes it apart
-- (the formats of profile-func/trace_logger.cpp).
use llvm_tracer.Prelude.{
  ℤ, ◌≡◌, ap, ◌∙◌, sym, Text, codes, arith, List, [], ◌∷◌, ◌++◌, append_assoc, append-nil, All,
  if◌then◌else◌, ◌==◌, is_pos, Bool-cases, inl, inr,
}
use llvm_tracer.Prelude.Decimal.{show_int}
use llvm_tracer.Prelude.Digits.{
  NotComma, show_int-NotComma, read_int, read_int-show_int, show_int_head,
}
use llvm_tracer.Runtime.State.{result_line, forward_line}
use llvm_tracer.Runtime.Lines.{
  Operand, line_tag, operand_head, operand_label, operand_tail, nonzero,
}
use llvm_tracer.Runtime.Log.{operand_line}

-- A field ends at a comma.
split_on_comma : Text → Text → List Text
split_on_comma field [] = field ∷ []
split_on_comma field (c ∷ s) =
    let rest = split_on_comma [] s in
    let longer = split_on_comma (field ++ (c ∷ [])) s in if c == b',' then field ∷ rest else longer

pub fields : Text → List Text
unfolding split_on_comma
fields s = split_on_comma [] s

split_on_comma-append :
    (field s rest : Text)
    → All NotComma s
    → split_on_comma field (s ++ (b',' ∷ rest)) ≡ (field ++ s) ∷ split_on_comma [] rest
unfolding split_on_comma
split_on_comma-append field [] rest h = rw append-nil
split_on_comma-append field (c ∷ s) rest h = elim (Bool-cases (c == b',')) [
  | inl comma ↦ absurd (ground (arith, h.0))
  | inr other ↦ rw other (split_on_comma-append (field ++ (c ∷ [])) s rest h.1 ∙ simp append_assoc)
]

fields-append : (s rest : Text) → All NotComma s → fields (s ++ (b',' ∷ rest)) ≡ s ∷ fields rest
unfolding fields
fields-append s rest h = split_on_comma-append [] s rest h

line_tag-NotComma : (line : ℤ) → All NotComma (line_tag line)
unfolding line_tag
line_tag-NotComma line = elim (Bool-cases (is_pos result_line line)) [
  | inl r ↦ rw r (omega arith)
  | inr other ↦ elim (Bool-cases (is_pos forward_line line)) [
    | inl f ↦ rw (other, f) (omega arith)
    | inr number ↦ rw (other, number) (show_int-NotComma line)
  ]
]

-- The texts that an operand's line holds apart from its numbers have no comma.
pub record HasPlainTexts (o : Operand) (value : Text) : Type 0 where
  pub value_lem : All NotComma value
  pub label_lem : All NotComma o.label
  pub prev_lem : All NotComma o.prev_bbid

abbrev pub label_field : Operand → Text
label_field o = if nonzero o.is_reg then o.label else codes " "

abbrev pub last_fields : Operand → List Text
last_fields o = if nonzero o.is_phi then o.prev_bbid ∷ codes "\n" ∷ [] else codes "\n" ∷ []

abbrev tail_text : Operand → Text
tail_text o = if nonzero o.is_phi then o.prev_bbid ++ (b',' ∷ codes "\n") else codes "\n"

operand_line_form :
    (o : Operand) (value : Text)
    → operand_line o value
      ≡ line_tag o.line
        ++ (b','
            ∷ (show_int o.size
                ++ (b','
                    ∷ (value
                        ++ (b','
                            ∷ (show_int o.is_reg
                                ++ (b',' ∷ (label_field o ++ (b',' ∷ tail_text o)))))))))
unfolding operand_line operand_head operand_label operand_tail
operand_line_form o value = elim (Bool-cases (nonzero o.is_reg)) [
  | inl reg ↦ elim (Bool-cases (nonzero o.is_phi)) [
    | inl phi ↦ rw (reg, phi) (simp append_assoc)
    | inr phi ↦ rw (reg, phi) (simp append_assoc)
  ]
  | inr reg ↦ elim (Bool-cases (nonzero o.is_phi)) [
    | inl phi ↦ rw (reg, phi) (simp append_assoc)
    | inr phi ↦ rw (reg, phi) (simp append_assoc)
  ]
]

label_field-NotComma : (o : Operand) → All NotComma o.label → All NotComma (label_field o)
label_field-NotComma o h = elim (Bool-cases (nonzero o.is_reg)) [
  | inl reg ↦ rw reg h
  | inr reg ↦ rw reg (omega arith)
]

fields-tail_text : (o : Operand) → All NotComma o.prev_bbid → fields (tail_text o) ≡ last_fields o
unfolding fields
fields-tail_text o h = elim (Bool-cases (nonzero o.is_phi)) [
  | inl phi ↦ rw phi (split_on_comma-append [] o.prev_bbid (codes "\n") h)
  | inr phi ↦ rw phi
]

-- The line of an operand whose value, label and previous block have no comma splits at its commas
-- into its tag, size, value and register flag, the label (a blank without a register), the
-- previous block if it is a phi, and the newline.
pub fields-operand_line :
    (o : Operand) (value : Text)
    → HasPlainTexts o value
    → fields (operand_line o value)
      ≡ line_tag o.line
        ∷ show_int o.size
        ∷ value
        ∷ show_int o.is_reg
        ∷ label_field o
        ∷ last_fields o
fields-operand_line o value h = rw (
  operand_line_form o value,
  fields-append (line_tag o.line) _ (line_tag-NotComma o.line),
  fields-append (show_int o.size) _ (show_int-NotComma o.size),
  fields-append value _ h.value_lem,
  fields-append (show_int o.is_reg) _ (show_int-NotComma o.is_reg),
  fields-append (label_field o) _ (label_field-NotComma o h.label_lem),
  fields-tail_text o h.prev_lem,
)

show_int_inj : (m n : ℤ) → show_int m ≡ show_int n → m ≡ n
show_int_inj m n e = sym (read_int-show_int m) ∙ (ap read_int e ∙ read_int-show_int n)

line_tag_inj : (l m : ℤ) → line_tag l ≡ line_tag m → l ≡ m
unfolding line_tag
line_tag_inj l m e = ground (
  arith,
  show_int_head l b'r' [],
  show_int_head l b'f' [],
  show_int_head m b'r' [],
  show_int_head m b'f' [],
  show_int_inj l m,
)

-- What a line tells of an operand: all but the label of an operand without a register, and the
-- previous block of one that is no phi.
abbrev pub SameOperand : Operand → Operand → Type 0
SameOperand o p =
    (o.line ≡ p.line)
    × (o.size ≡ p.size)
    × (o.is_reg ≡ p.is_reg)
    × (label_field o ≡ label_field p)
    × (last_fields o ≡ last_fields p)

-- If the values, labels and previous blocks of two operands have no comma and the operands have
-- the same line in the trace, then they have the same value, line number, size, register flag,
-- printed label (a blank without a register) and printed previous block (none without a phi).
pub operand_line_inj :
    (o p : Operand) (value value' : Text)
    → HasPlainTexts o value
    → HasPlainTexts p value'
    → operand_line o value ≡ operand_line p value'
    → SameOperand o p × (value ≡ value')
operand_line_inj o p value value' h k e =
    let same =
      sym (fields-operand_line o value h) ∙ (ap fields e ∙ fields-operand_line p value' k) in
    (
      (
        line_tag_inj o.line p.line (cc same),
        show_int_inj o.size p.size (cc same),
        show_int_inj o.is_reg p.is_reg (cc same),
        cc same,
        cc same,
      ),
      cc same,
    )
