-- ===== src/Asm/Translate/Code.antt =====
-- asm/src/Assembler.c: the instruction of an accepted statement.
use native.Mathlib.Nat.{mod-lt}
use zlvm.Prelude.{
  ℕ, ◌+◌, ◌-◌, ◌^◌, ◌<◌, ◌≡◌, refl, ◌∙◌, inl, inr, List, Option, none, some, ltb, ◌==◌,
  if◌then◌else◌, arith, length, replicate, IsByte, Bool-cases, Option-cases, word_max,
}
use zlvm.Outcome.{Outcome, refused, accepted, and_then, and_then-accepted}
use zlvm.Prelude.{length-replicate, All-get_or, All-replicate}
use zlvm.Condition.{condition_total}
use zlvm.Asm.Parser.{stmt}
use zlvm.Asm.Translate.{translate_content}
use zlvm.Asm.{range_of, value_out_of_range}
use zlvm.Asm.{Token, Failure, asm_fail, asm_token_fail}
use zlvm.Asm.Parser.{Statement}
use zlvm.Asm.Literals.{token_get_char_value, token_get_int_value}
use zlvm.Asm.Sections.Labels.{LabelInfo}
use zlvm.Asm.Operands.{register_total, parse_condition, parse_register, validate_operands}
use zlvm.Asm.Operands.Bounds.{parse_condition-lt, parse_register-lt}
use zlvm.Asm.Translate.{
  statement_opcode, parse_optional, char_to_word, plain_immediate, label_immediate, immediate_of,
  encode, statement_instruction,
}
use zlvm.Prelude.{get_elem?-lt}
use zlvm.Opcode.{Opcode, opcode_total, opcode_of, opcodes}
use zlvm.Instruction.{Instruction, instruction_size, instruction_decode}
use zlvm.Instruction.RoundTrip.{IsEncodable, instruction_decode-encode}

parse_optional-lt :
    (parse : Token → Outcome Failure ℕ) (o : Option Token) (bound value : ℕ)
    → ((t : Token) (v : ℕ) → parse t ≡ accepted v → v < bound)
    → 0 < bound
    → parse_optional parse o ≡ accepted value
    → value < bound
unfolding parse_optional
parse_optional-lt parse none bound value each pos h = ground arith
parse_optional-lt parse (some t) bound value each pos h = each t value h

-- The range of an operation's accepted results.
abbrev Below : ℕ → Outcome Failure ℕ → Type 0
Below bound r = (v : ℕ) → r ≡ accepted v → v < bound

char_word : (r : Outcome Failure ℕ) → Below (2 ^ 32) (and_then r (λ c. accepted (char_to_word c)))
char_word r v h =
    let (c, e, last) = and_then-accepted r _ h in
    let same : v ≡ char_to_word c = cc in
    rw same (ground (arith, mod-lt (2 ^ 32 - 2 ^ 8 + c) {m = 2 ^ 32}))

int_word :
    (t : Token) (r : Outcome Failure ℕ) (f : Failure)
    → Below (2 ^ 32) (and_then r (λ v. if ltb word_max v then refused f else accepted v))
int_word t r f v h = let (c, e, last) = and_then-accepted r _ h in ground arith

label_word : (labels : List LabelInfo) (t : Token) → Below (2 ^ 32) (label_immediate labels t)
unfolding label_immediate asm_token_fail
label_word labels t v h = ground arith

plain_word : (t : Token) → Below (2 ^ 32) (plain_immediate t)
unfolding plain_immediate asm_token_fail
plain_word t v h = ground (
  arith,
  char_word (token_get_char_value t) v,
  int_word t (token_get_int_value t)
      (record { code = value_out_of_range; range = some (range_of t) }) v,
)

opcode_of-lt : (n : ℕ) (op : Opcode) → opcode_of n ≡ some op → n < opcode_total
unfolding opcode_of
opcode_of-lt n op e = get_elem?-lt opcodes n op e

known :
    (opcode : ℕ) (s u : Statement) → validate_operands opcode s ≡ accepted u → opcode < opcode_total
unfolding validate_operands asm_token_fail
known opcode s u h = elim (Option-cases (opcode_of opcode)) [
  | inl e ↦ let bad = rw (e, validate_operands) at h in absurd cc
  | inr (op, e) ↦ opcode_of-lt opcode op e
]

immediate_of-lt :
    (labels : List LabelInfo) (o : Option Token) → Below (2 ^ 32) (immediate_of labels o)
unfolding immediate_of
immediate_of-lt labels none v h = ground arith
immediate_of-lt labels (some t) v h = ground (arith, label_word labels t v, plain_word t v)

-- The instruction of an accepted statement has its opcode, and every field is in range.
pub statement_instruction-IsEncodable :
    (labels : List LabelInfo) (s : Statement) (i : Instruction)
    → statement_instruction labels s ≡ accepted i
    → IsEncodable i
      × (i.opcode ≡ statement_opcode s)
      × (i.register1 < register_total)
      × (i.register2 < register_total)
unfolding statement_instruction asm_token_fail
statement_instruction-IsEncodable labels s i h =
    elim (Bool-cases (statement_opcode s == opcode_total)) [
      | inl e ↦ let bad = rw (e, statement_instruction) at h in absurd cc
      | inr e ↦
          let found = rw (e, statement_instruction) at h in
          let (u, valid, h1) = and_then-accepted _ _ found in
          let (condition, e1, h2) = and_then-accepted _ _ h1 in
          let (register1, e2, h3) = and_then-accepted _ _ h2 in
          let (register2, e3, h4) = and_then-accepted _ _ h3 in
          let (immediate, e4, h5) = and_then-accepted _ _ h4 in
          let whole : i ≡ record {
            opcode = statement_opcode s;
            condition = condition;
            register1 = register1;
            register2 = register2;
            immediate = immediate;
          } =
            cc in
          let r1 =
            parse_optional-lt parse_register s.reg1 register_total register1 parse_register-lt
              (omega arith) e2 in
          let r2 =
            parse_optional-lt parse_register s.reg2 register_total register2 parse_register-lt
              (omega arith) e3 in
          rw whole (
            record {
              opcode = known (statement_opcode s) s u valid;
              condition =
                  parse_optional-lt parse_condition s.cond 17 condition parse_condition-lt
                    (omega arith) e1;
              register1 = omega (arith, r1);
              register2 = omega (arith, r2);
              immediate = immediate_of-lt labels s.imm immediate e4;
            },
            refl,
            r1,
            r2,
          )
    ]

-- What encoding gives: eight bytes, which are decoded to the instruction.
pub encode_decode :
    (i : Instruction) (bytes : List ℕ)
    → IsEncodable i
    → encode i ≡ accepted bytes
    → (length bytes ≡ instruction_size)
      × (instruction_decode (some bytes) instruction_size ≡ some i)
unfolding encode asm_fail
encode_decode i bytes w h =
    let blank = replicate instruction_size 0 in
    let room : length blank ≡ instruction_size = length-replicate instruction_size 0 in
    let (code, e, back, size, _) =
      instruction_decode-encode blank instruction_size i w (omega arith) (omega (arith, room)) (λ j.
        All-get_or IsByte blank j 0 (All-replicate IsByte instruction_size 0 (omega arith))
          (omega arith)) in
    let found = rw (e, encode) at h in let same : bytes ≡ code = cc in rw same (size ∙ room, back)

-- The bytes of an accepted statement are one instruction of the machine: the decoder reads back the
-- statement's opcode, and a condition and registers that exist.
pub translate_statement_decoded :
    (labels : List LabelInfo) (s : Statement) (bytes : List ℕ)
    → translate_content labels (stmt s) ≡ accepted bytes
    → (length bytes ≡ instruction_size)
      × (i : Instruction) × (instruction_decode (some bytes) instruction_size ≡ some i)
      × (i.opcode ≡ statement_opcode s)
      × (i.opcode < opcode_total)
      × (i.condition < condition_total)
      × (i.register1 < register_total)
      × (i.register2 < register_total)
unfolding translate_content
translate_statement_decoded labels s bytes h =
    let (i, made, coded) = and_then-accepted _ _ h in
    let (w, opcode, r1, r2) = statement_instruction-IsEncodable labels s i made in
    let (size, back) = encode_decode i bytes w coded in
    (size, i, back, opcode, w.opcode, w.condition, r1, r2)
