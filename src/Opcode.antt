-- ===== src/Opcode.antt =====
-- The opcodes and their mnemonics: include/Opcode.h and emulator/src/Opcode.c.
-- The enumeration and the table of names come from one X-macro; here from two lists in its order.
pub mod Names
use Prim.Native.String.{String}
use text.Mathlib.Text.{◌==◌ as str_eq}
use zlvm.Prelude.{ℕ, ◌+◌, List, [], ◌∷◌, Option, none, leb, get_elem?, if◌then◌else◌}

pub data Opcode : Type 0 where
  nop pop popr pushr pushi dup movr movi : Opcode
  addr subr mulr divr modr addi subi muli divi modi : Opcode
  int syscall jmp : Opcode
  not andr orr xorr nandr norr andi ori xori nandi nori inc dec : Opcode
  loadb storeb loadh storeh loadw storew : Opcode
  jmpal ret cmpr cmpi cmpsr cmpsi : Opcode
  addsr subsr mulsr divsr modsr addsi subsi mulsi divsi modsi : Opcode

-- FOREACH_OPCODE(GENERATE_ENUM): the opcode at an index is the one with that value.
abbrev pub opcodes : List Opcode
opcodes =
    nop ∷ pop ∷ popr ∷ pushr ∷ pushi ∷ dup ∷ movr ∷ movi ∷ addr ∷ subr ∷ mulr ∷ divr ∷ modr ∷ addi
    ∷ subi ∷ muli ∷ divi ∷ modi ∷ int ∷ syscall ∷ jmp ∷ not ∷ andr ∷ orr ∷ xorr ∷ nandr ∷ norr
    ∷ andi ∷ ori ∷ xori ∷ nandi ∷ nori ∷ inc ∷ dec ∷ loadb ∷ storeb ∷ loadh ∷ storeh ∷ loadw
    ∷ storew ∷ jmpal ∷ ret ∷ cmpr ∷ cmpi ∷ cmpsr ∷ cmpsi ∷ addsr ∷ subsr ∷ mulsr ∷ divsr ∷ modsr
    ∷ addsi ∷ subsi ∷ mulsi ∷ divsi ∷ modsi ∷ []

abbrev pub opcode_total : ℕ
opcode_total = 56

-- The named opcode with a value, for a `switch`; `none` is the default case.
unfoldable pub opcode_of : ℕ → Option Opcode
unfolding get_elem?
opcode_of n = get_elem? opcodes n

-- FOREACH_OPCODE(GENERATE_STRING)
abbrev pub opcode_strings : List String
opcode_strings =
    "NOP" ∷ "POP" ∷ "POPR" ∷ "PUSHR" ∷ "PUSHI" ∷ "DUP" ∷ "MOVR" ∷ "MOVI" ∷ "ADDR" ∷ "SUBR" ∷ "MULR"
    ∷ "DIVR" ∷ "MODR" ∷ "ADDI" ∷ "SUBI" ∷ "MULI" ∷ "DIVI" ∷ "MODI" ∷ "INT" ∷ "SYSCALL" ∷ "JMP"
    ∷ "NOT" ∷ "ANDR" ∷ "ORR" ∷ "XORR" ∷ "NANDR" ∷ "NORR" ∷ "ANDI" ∷ "ORI" ∷ "XORI" ∷ "NANDI"
    ∷ "NORI" ∷ "INC" ∷ "DEC" ∷ "LOADB" ∷ "STOREB" ∷ "LOADH" ∷ "STOREH" ∷ "LOADW" ∷ "STOREW"
    ∷ "JMPAL" ∷ "RET" ∷ "CMPR" ∷ "CMPI" ∷ "CMPSR" ∷ "CMPSI" ∷ "ADDSR" ∷ "SUBSR" ∷ "MULSR" ∷ "DIVSR"
    ∷ "MODSR" ∷ "ADDSI" ∷ "SUBSI" ∷ "MULSI" ∷ "DIVSI" ∷ "MODSI" ∷ []

-- `none` is NULL.
unfoldable pub opcode_to_string : ℕ → Option String
unfolding get_elem?
opcode_to_string op = if leb opcode_total op then none else get_elem? opcode_strings op

-- The loop from `index` on, over the names that are left.
unfoldable pub find_opcode : String → ℕ → List String → ℕ
find_opcode s index [] = opcode_total
find_opcode s index (name ∷ names) =
    let rest = find_opcode s (index + 1) names in if str_eq s name then index else rest

unfoldable pub string_to_opcode : String → ℕ
unfolding find_opcode
string_to_opcode s = find_opcode s 0 opcode_strings
