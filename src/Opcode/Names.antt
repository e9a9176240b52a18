-- ===== src/Opcode/Names.antt =====
-- emulator/src/Opcode.c: the names of the opcodes are read back.
use Prim.Native.String.{String}
use zlvm.Prelude.{
  ℕ, zero, suc, ◌<◌, ◌≡◌, refl, arith, Bool, true, false, ◌&&◌, Option, none, some, ◌==◌, inl, inr,
  Bool-cases, Option-cases, get_elem?,
}
use zlvm.Opcode.{opcode_total, opcode_to_string, find_opcode, string_to_opcode}

abbrev reads_back : ℕ → Option String → Bool
reads_back n none = false
reads_back n (some name) = string_to_opcode name == n

-- The test for every opcode below a bound.
all_read_back : ℕ → Bool
all_read_back zero = true
all_read_back (suc n) = let rest = all_read_back n in reads_back n (opcode_to_string n) && rest

tested : all_read_back opcode_total ≡ true
unfolding all_read_back opcode_to_string string_to_opcode find_opcode get_elem?
tested = refl

below : (k n : ℕ) → all_read_back k ≡ true → n < k → reads_back n (opcode_to_string n) ≡ true
unfolding all_read_back
below zero n e h = absurd (omega arith)
below (suc k) n e h = elim (Bool-cases (n == k)) [
  | inl here ↦ let same : n ≡ k = ground arith in rw same (ground arith)
  | inr other ↦ below k n (ground arith) (ground arith)
]

-- Every opcode below OPCODE_TOTAL has a name, and the parser finds this opcode under it.
pub string_to_opcode-opcode_to_string :
    (n : ℕ)
    → n < opcode_total
    → (name : String) × (opcode_to_string n ≡ some name) × (string_to_opcode name ≡ n)
string_to_opcode-opcode_to_string n h =
    let fine = below opcode_total n tested h in
    elim (Option-cases (opcode_to_string n)) [
      | inl e ↦ absurd (ground arith)
      | inr (name, e) ↦
          let found : (string_to_opcode name == n) ≡ true = rw e at fine in (name, e, ground arith)
    ]
