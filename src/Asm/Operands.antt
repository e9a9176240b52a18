-- ===== src/Asm/Operands.antt =====
-- The operands of a statement: validate_operands, parse_condition and parse_register of
-- asm/src/Assembler.c, with include/Registers.h.
pub mod Bounds
use zlvm.Prelude.{
  ℕ, ◌+◌, ◌-◌, ◌*◌, ◌/◌, Bool, true, false, not, ◌||◌, List, [], ◌∷◌, Option, none, some, ltb, leb,
  ◌==◌, if◌then◌else◌,
}
use zlvm.Outcome.{Outcome, accepted}
use zlvm.Prelude.Names.{same_name}
use zlvm.Asm.{
  Token, Failure, asm_token_fail, unknown_opcode, invalid_operands, unknown_condition,
  unknown_register,
}
use zlvm.Asm.Text.{codes}
use zlvm.Asm.Parser.{Statement}
use zlvm.Opcode.{Opcode, opcode_of}

-- R_TOTAL
abbrev pub register_total : ℕ
register_total = 32

-- The names of parse_condition, in the order of its tests, with the conditions' values.
abbrev pub condition_names : List (List ℕ × ℕ)
condition_names =
    (codes "un", 0)
    ∷ (codes "zs", 1)
    ∷ (codes "eq", 1)
    ∷ (codes "zc", 2)
    ∷ (codes "ne", 2)
    ∷ (codes "cs", 7)
    ∷ (codes "hs", 7)
    ∷ (codes "cc", 8)
    ∷ (codes "lo", 8)
    ∷ (codes "ns", 3)
    ∷ (codes "mi", 3)
    ∷ (codes "nc", 4)
    ∷ (codes "pl", 4)
    ∷ (codes "vs", 5)
    ∷ (codes "vc", 6)
    ∷ (codes "ss", 9)
    ∷ (codes "sc", 10)
    ∷ (codes "uh", 11)
    ∷ (codes "ul", 12)
    ∷ (codes "gt", 15)
    ∷ (codes "ge", 16)
    ∷ (codes "lt", 13)
    ∷ (codes "le", 14)
    ∷ []

-- The named registers, from R_ZERO on.
abbrev pub register_names : List (List ℕ × ℕ)
register_names =
    (codes "zero", 0)
    ∷ (codes "at", 1)
    ∷ (codes "v0", 2)
    ∷ (codes "v1", 3)
    ∷ (codes "v2", 4)
    ∷ (codes "v3", 5)
    ∷ (codes "a0", 6)
    ∷ (codes "a1", 7)
    ∷ (codes "a2", 8)
    ∷ (codes "a3", 9)
    ∷ (codes "t0", 10)
    ∷ (codes "t1", 11)
    ∷ (codes "t2", 12)
    ∷ (codes "t3", 13)
    ∷ (codes "t4", 14)
    ∷ (codes "t5", 15)
    ∷ (codes "t6", 16)
    ∷ (codes "t7", 17)
    ∷ (codes "s0", 18)
    ∷ (codes "s1", 19)
    ∷ (codes "s2", 20)
    ∷ (codes "s3", 21)
    ∷ (codes "s4", 22)
    ∷ (codes "s5", 23)
    ∷ (codes "s6", 24)
    ∷ (codes "s7", 25)
    ∷ (codes "k0", 26)
    ∷ (codes "sc", 27)
    ∷ (codes "lp", 28)
    ∷ (codes "sp", 29)
    ∷ (codes "bp", 30)
    ∷ (codes "pc", 31)
    ∷ []

-- A chain of CHECKs: the value of the first name that is the text.
unfoldable pub check_names : List (List ℕ × ℕ) → List ℕ → Option ℕ
check_names [] text = none
check_names ((name, value) ∷ names) text =
    let rest = check_names names text in if same_name text name then some value else rest

unfoldable pub parse_condition : Token → Outcome Failure ℕ
unfolding check_names
parse_condition t = elim (check_names condition_names t.value) [
  | none ↦ asm_token_fail unknown_condition t
  | some value ↦ accepted value
]

-- The loop over the digits after `r`.
unfoldable pub register_index : Token → ℕ → List ℕ → Outcome Failure ℕ
register_index t index [] = accepted index
register_index t index (c ∷ cs) =
    let rest = register_index t (index * 10 + (c - b'0')) cs in
    if ltb c b'0' || ltb b'9' c
    then asm_token_fail unknown_register t
    else if ltb ((register_total - 1) / 10) index || leb register_total (index * 10 + (c - b'0'))
    then asm_token_fail unknown_register t
    else rest

unfoldable pub named_register : Token → Outcome Failure ℕ
unfolding check_names
named_register t = elim (check_names register_names t.value) [
  | none ↦ asm_token_fail unknown_register t
  | some value ↦ accepted value
]

unfoldable pub parse_register : Token → Outcome Failure ℕ
unfolding register_index named_register
parse_register t = elim t.value [
  | [] ↦ named_register t
  | c ∷ cs ↦
      if c == b'r'
      then elim cs [
        | [] ↦ asm_token_fail unknown_register t
        | d ∷ digits ↦ register_index t 0 (d ∷ digits)
      ]
      else named_register t
]

-- How many registers an opcode takes, and whether it takes an immediate; `none` is -1, either.
unfoldable pub expected_operands : Opcode → ℕ × Option Bool
expected_operands op = elim op [
  | Opcode.nop ↦ (0, some false)
  | Opcode.pop ↦ (0, some false)
  | Opcode.dup ↦ (0, some false)
  | Opcode.syscall ↦ (0, some false)
  | Opcode.ret ↦ (0, some false)
  | Opcode.popr ↦ (1, some false)
  | Opcode.pushr ↦ (1, some false)
  | Opcode.not ↦ (1, some false)
  | Opcode.inc ↦ (1, some false)
  | Opcode.dec ↦ (1, some false)
  | Opcode.pushi ↦ (0, some true)
  | Opcode.int ↦ (0, some true)
  | Opcode.jmp ↦ (0, some true)
  | Opcode.jmpal ↦ (0, some true)
  | Opcode.movr ↦ (2, some false)
  | Opcode.addr ↦ (2, some false)
  | Opcode.subr ↦ (2, some false)
  | Opcode.mulr ↦ (2, some false)
  | Opcode.divr ↦ (2, some false)
  | Opcode.modr ↦ (2, some false)
  | Opcode.andr ↦ (2, some false)
  | Opcode.orr ↦ (2, some false)
  | Opcode.xorr ↦ (2, some false)
  | Opcode.nandr ↦ (2, some false)
  | Opcode.norr ↦ (2, some false)
  | Opcode.cmpr ↦ (2, some false)
  | Opcode.cmpsr ↦ (2, some false)
  | Opcode.addsr ↦ (2, some false)
  | Opcode.subsr ↦ (2, some false)
  | Opcode.mulsr ↦ (2, some false)
  | Opcode.divsr ↦ (2, some false)
  | Opcode.modsr ↦ (2, some false)
  | Opcode.movi ↦ (1, some true)
  | Opcode.addi ↦ (1, some true)
  | Opcode.subi ↦ (1, some true)
  | Opcode.muli ↦ (1, some true)
  | Opcode.divi ↦ (1, some true)
  | Opcode.modi ↦ (1, some true)
  | Opcode.andi ↦ (1, some true)
  | Opcode.ori ↦ (1, some true)
  | Opcode.xori ↦ (1, some true)
  | Opcode.nandi ↦ (1, some true)
  | Opcode.nori ↦ (1, some true)
  | Opcode.cmpi ↦ (1, some true)
  | Opcode.cmpsi ↦ (1, some true)
  | Opcode.addsi ↦ (1, some true)
  | Opcode.subsi ↦ (1, some true)
  | Opcode.mulsi ↦ (1, some true)
  | Opcode.divsi ↦ (1, some true)
  | Opcode.modsi ↦ (1, some true)
  | Opcode.loadb ↦ (2, none)
  | Opcode.storeb ↦ (2, none)
  | Opcode.loadh ↦ (2, none)
  | Opcode.storeh ↦ (2, none)
  | Opcode.loadw ↦ (2, none)
  | Opcode.storew ↦ (2, none)
]

abbrev pub is_given {ℓ} : {A : Type ℓ} → Option A → Bool
is_given none = false
is_given (some a) = true

abbrev same_bool : Bool → Bool → Bool
same_bool true b = b
same_bool false b = not b

abbrev given_registers : Statement → ℕ
given_registers s = if is_given s.reg1 then (if is_given s.reg2 then 2 else 1) else 0

abbrev immediate_fits : Option Bool → Bool → Bool
immediate_fits none given = true
immediate_fits (some expected) given = same_bool expected given

unfoldable pub validate_operands : ℕ → Statement → Outcome Failure Statement
unfolding expected_operands
validate_operands opcode s = elim (opcode_of opcode) [
  | none ↦ asm_token_fail unknown_opcode s.opcode
  | some op ↦
      let (registers, immediate) = expected_operands op in
      if not (given_registers s == registers) || not (immediate_fits immediate (is_given s.imm))
      then asm_token_fail invalid_operands s.opcode
      else accepted s
]
