-- ===== src/Asm/Sections/Labels.antt =====
-- The label table (asm/src/LabelTable.c) and asm_processLabels (asm/src/Assembler.c).
-- The table is an association list; LabelInfo's labelLength is its name's length, which nothing
-- reads.
use zlvm.Prelude.{
  ℕ, ◌+◌, ◌≡◌, inl, inr, List, [], ◌∷◌, Option, none, some, if◌then◌else◌, arith, Bool-cases,
}
use zlvm.Outcome.{Outcome, accepted}
use zlvm.Prelude.Names.{same_name, same_name_refl, same_name_eq}
use zlvm.Asm.{Failure, asm_fail, section_error}
use zlvm.Asm.Parser.{Line}
use zlvm.Asm.Sections.{content_size}

pub record LabelInfo : Type 0 where
  pub name : List ℕ
  pub address : ℕ

-- An entry of the name takes the address; else a new entry is the last one.
unfoldable pub label_table_set_or_create : List LabelInfo → List ℕ → ℕ → List LabelInfo
label_table_set_or_create [] name address = record { name = name; address = address } ∷ []
label_table_set_or_create (label ∷ table) name address =
    let rest = label_table_set_or_create table name address in
    if same_name label.name name then record label { address = address } ∷ table else label ∷ rest

unfoldable pub label_info_get_if_exist : List LabelInfo → List ℕ → Option LabelInfo
label_info_get_if_exist [] name = none
label_info_get_if_exist (label ∷ table) name =
    let rest = label_info_get_if_exist table name in
    if same_name label.name name then some label else rest

-- The address of a label, if it is there.
unfoldable pub label_address : List LabelInfo → List ℕ → Option ℕ
unfolding label_info_get_if_exist
label_address table name = elim (label_info_get_if_exist table name) [
  | none ↦ none
  | some label ↦ some label.address
]

-- The loop over the lines from `address` on.
unfoldable pub process_labels : List LabelInfo → ℕ → List Line → Outcome Failure (List LabelInfo)
unfolding label_table_set_or_create label_info_get_if_exist asm_fail
process_labels table address [] = accepted table
process_labels table address (line ∷ lines) = elim line.label [
  | none ↦ process_labels table (address + content_size line.content) lines
  | some name ↦ elim (label_info_get_if_exist table name) [
    | some label ↦ asm_fail section_error
    | none ↦
        process_labels (label_table_set_or_create table name address)
          (address + content_size line.content) lines
  ]
]

unfoldable pub asm_process_labels : List Line → Outcome Failure (List LabelInfo)
unfolding process_labels
asm_process_labels lines = process_labels [] 0 lines

-- A name that is set has its new address, and every other name keeps its own.
pub label_address-set_or_create :
    (table : List LabelInfo) (name other : List ℕ) (address : ℕ)
    → label_address (label_table_set_or_create table name address) other
      ≡ (if same_name name other then some address else label_address table other)
unfolding label_address label_table_set_or_create
label_address-set_or_create [] name other address = ground arith
label_address-set_or_create (label ∷ table) name other address =
    elim (Bool-cases (same_name label.name name)) [
      | inl e ↦ let same = same_name_eq label.name name e in ground (arith, same)
      | inr e ↦ elim (Bool-cases (same_name label.name other)) [
        | inl f ↦
            let same = same_name_eq label.name other f in
            elim (Bool-cases (same_name name other)) [
              | inl g ↦
                  let bad = same_name_eq name other g in
                  ground (arith, same, bad, same_name_refl name, same_name_refl other)
              | inr g ↦ ground arith
            ]
        | inr f ↦ ground (arith, label_address-set_or_create table name other address)
      ]
    ]
