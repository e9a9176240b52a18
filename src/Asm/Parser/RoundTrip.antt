-- ===== src/Asm/Parser/RoundTrip.antt =====
-- asm/src/Parser.c: a program that is written out as tokens is read back.
use zlvm.Prelude.{
  option_list, ◌≡◌, refl, sym, ap, ◌∙◌, Bool, true, false, List, [], ◌∷◌, ◌++◌, Option, none, some,
  arith,
}
use zlvm.Outcome.{accepted}
use mathlib.Core.List.{append-nil}
use zlvm.Asm.{TokenType, tok_id, Token}
use zlvm.Asm.Parser.{
  Statement, is_id, is_register, is_immediate, take_token, take_second, parser_read_statement,
}

-- The tokens of a statement after its opcode, and of a directive after its name.
abbrev pub operand_tokens : Statement → List Token
operand_tokens s =
    option_list s.cond ++ (option_list s.reg1 ++ (option_list s.reg2 ++ option_list s.imm))

abbrev pub OfType : (TokenType → Bool) → Option Token → Type 0
OfType test none = Unit {0}
OfType test (some t) = test t.type ≡ true

-- The tokens have the types of their places, and a second register stands after a first one.
pub record IsStatement (s : Statement) : Type 0 where
  pub opcode_type : s.opcode.type ≡ tok_id
  pub cond_type : OfType is_id s.cond
  pub reg1_type : OfType is_register s.reg1
  pub reg2_type : OfType is_register s.reg2
  pub imm_type : OfType is_immediate s.imm
  pub in_order : s.reg1 ≡ none → s.reg2 ≡ none

-- A stream that does not start with a token of a type.
abbrev NotFirst : (TokenType → Bool) → List Token → Type 0
NotFirst test [] = Unit {0}
NotFirst test (t ∷ stream) = test t.type ≡ false

skipped_by :
    (test other : TokenType → Bool) (o : Option Token) (stream : List Token)
    → ((type : TokenType) → other type ≡ true → test type ≡ false)
    → OfType other o
    → NotFirst test stream
    → NotFirst test (option_list o ++ stream)
skipped_by test other none stream apart h f = f
skipped_by test other (some t) stream apart h f = apart t.type h

taken_by :
    (test : TokenType → Bool) (o : Option Token) (stream : List Token)
    → OfType test o
    → NotFirst test stream
    → take_token test (option_list o ++ stream) ≡ (o, stream)
unfolding take_token
taken_by test none [] h f = refl
taken_by test none (t ∷ stream) h f = rw f refl
taken_by test (some t) stream h f = rw h refl

id_register : (type : TokenType) → is_register type ≡ true → is_id type ≡ false
id_register type h = ground arith

id_immediate : (type : TokenType) → is_immediate type ≡ true → is_id type ≡ false
id_immediate type h = ground arith

register_immediate : (type : TokenType) → is_immediate type ≡ true → is_register type ≡ false
register_immediate type h = ground arith

first_by :
    (reg1 reg2 : Option Token) (stream : List Token)
    → OfType is_register reg1
    → (reg1 ≡ none → reg2 ≡ none)
    → NotFirst is_register stream
    → take_token is_register (option_list reg1 ++ (option_list reg2 ++ stream))
      ≡ (reg1, option_list reg2 ++ stream)
unfolding take_token
first_by none reg2 stream h order f = rw (order refl) (taken_by is_register none stream tt f)
first_by (some t) reg2 stream h order f = rw h refl

second_by :
    (reg1 reg2 : Option Token) (stream : List Token)
    → OfType is_register reg2
    → (reg1 ≡ none → reg2 ≡ none)
    → NotFirst is_register stream
    → take_second reg1 (option_list reg2 ++ stream) ≡ (reg2, stream)
unfolding take_second
second_by none reg2 stream h order f = rw (order refl) refl
second_by (some t) reg2 stream h order f = taken_by is_register reg2 stream h f

-- A statement that is written out as tokens of the right types, a second register after a first one
-- only, is read back.
pub parser_read_statement_lem :
    (s : Statement) → IsStatement s → parser_read_statement (operand_tokens s) s.opcode ≡ accepted s
unfolding parser_read_statement
parser_read_statement_lem s w =
    let last = option_list s.imm ++ [] in
    let flat : option_list s.imm ≡ last = sym (append-nil (option_list s.imm)) in
    let no_register : NotFirst is_register last =
      skipped_by is_register is_immediate s.imm [] register_immediate w.imm_type tt in
    let no_id : NotFirst is_id (option_list s.reg1 ++ (option_list s.reg2 ++ last)) =
      skipped_by is_id is_register s.reg1 _ id_register w.reg1_type (
        skipped_by is_id is_register s.reg2 _ id_register w.reg2_type
          (skipped_by is_id is_immediate s.imm [] id_immediate w.imm_type tt)) in
    let whole : operand_tokens s
        ≡ option_list s.cond ++ (option_list s.reg1 ++ (option_list s.reg2 ++ last)) =
      ap
        (λ (xs : List Token).
          option_list s.cond ++ (option_list s.reg1 ++ (option_list s.reg2 ++ xs)))
        flat in
    let cond = ap (take_token is_id) whole ∙ taken_by is_id s.cond _ w.cond_type no_id in
    let reg1 = first_by s.reg1 s.reg2 last w.reg1_type w.in_order no_register in
    let reg2 = second_by s.reg1 s.reg2 last w.reg2_type w.in_order no_register in
    let imm = taken_by is_immediate s.imm [] w.imm_type tt in ground (arith, cond, reg1, reg2, imm)
