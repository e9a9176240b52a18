-- ===== src/Asm/Translate/Program.antt =====
-- asm_processLabels and asm_translate of asm/src/Assembler.c: the address of a label is the offset
-- of its line's bytes in the output.
use native.Mathlib.Nat.{add-zero}
use zlvm.Prelude.{
  length-append, ℕ, ◌+◌, ◌≡◌, refl, sym, ap, ◌∙◌, inl, inr, List, [], ◌∷◌, ◌++◌, none, some, arith,
  length, Bool-cases, Option-cases,
}
use zlvm.Outcome.{accepted, and_then-accepted}
use mathlib.Core.List.{append_assoc, append-nil}
use zlvm.Prelude.Names.{same_name, same_name_refl, same_name_eq}
use zlvm.Asm.{asm_fail}
use zlvm.Asm.Parser.{Line, Content, stmt, dir, raw}
use zlvm.Asm.Sections.{content_size}
use zlvm.Asm.Sections.Labels.{
  LabelInfo, label_table_set_or_create, label_info_get_if_exist, label_address,
  label_address-set_or_create, process_labels, asm_process_labels,
}
use zlvm.Asm.Translate.{translate_content, translate_lines, asm_translate}
use zlvm.Asm.Translate.Code.{translate_statement_decoded}

unfoldable pub total_size : List Line → ℕ
total_size [] = 0
total_size (line ∷ lines) = content_size line.content + total_size lines

translate_content-length :
    (labels : List LabelInfo) (content : Content) (bytes : List ℕ)
    → translate_content labels content ≡ accepted bytes
    → length bytes ≡ content_size content
unfolding translate_content asm_fail
translate_content-length labels (stmt s) bytes h =
    let decoded = translate_statement_decoded labels s bytes h in decoded.0
translate_content-length labels (raw data_bytes) bytes h =
    let same : bytes ≡ data_bytes = cc in ap (length {A = ℕ}) same
translate_content-length labels (dir d) bytes h = absurd cc

-- One round of the loop.
translate_step :
    (labels : List LabelInfo) (result : List ℕ) (line : Line) (lines : List Line) (out : List ℕ)
    → translate_lines labels result (line ∷ lines) ≡ accepted out
    → (code : List ℕ) × (translate_content labels line.content ≡ accepted code)
      × (translate_lines labels (result ++ code) lines ≡ accepted out)
unfolding translate_lines asm_fail
translate_step labels result line lines out h =
    let (code, e, rest) = and_then-accepted _ _ h in (code, e, ground arith)

-- The output starts with what was there, and has the size of the lines.
translate_lines_prefix :
    (labels : List LabelInfo) (result : List ℕ) (lines : List Line) (out : List ℕ)
    → translate_lines labels result lines ≡ accepted out
    → (more : List ℕ) × (out ≡ result ++ more) × (length more ≡ total_size lines)
unfolding translate_lines total_size
translate_lines_prefix labels result [] out h =
    let same : out ≡ result = cc in ([], same ∙ sym (append-nil result), omega arith)
translate_lines_prefix labels result (line ∷ lines) out h =
    let (code, e, rest) = translate_step labels result line lines out h in
    let (more, whole, size) = translate_lines_prefix labels (result ++ code) lines out rest in
    let first = translate_content-length labels line.content code e in
    (
      code ++ more,
      whole ∙ append_assoc result code more,
      omega (arith, length-append code more, first, size),
    )

-- The lines before a line give the bytes before its bytes.
translate_lines_split :
    (labels : List LabelInfo) (result : List ℕ) (before : List Line) (line : Line)
    (after : List Line) (out : List ℕ)
    → translate_lines labels result (before ++ (line ∷ after)) ≡ accepted out
    → (pre code post : List ℕ) × (out ≡ result ++ (pre ++ (code ++ post)))
      × (translate_content labels line.content ≡ accepted code)
      × (length pre ≡ total_size before)
unfolding total_size
translate_lines_split labels result [] line after out h =
    let (code, e, rest) = translate_step labels result line after out h in
    let (more, whole, size) = translate_lines_prefix labels (result ++ code) after out rest in
    ([], code, more, whole ∙ append_assoc result code more, e, omega arith)
translate_lines_split labels result (first ∷ before) line after out h =
    let (code, e, rest) = translate_step labels result first (before ++ (line ∷ after)) out h in
    let (pre, here, post, whole, found, size) =
      translate_lines_split labels (result ++ code) before line after out rest in
    (
      code ++ pre,
      here,
      post,
      whole
          ∙ append_assoc result code _
          ∙ ap (λ xs. result ++ xs) (sym (append_assoc code pre (here ++ post))),
      found,
      omega (
        arith,
        length-append code pre,
        translate_content-length labels first.content code e,
        size,
      ),
    )

missing :
    (table : List LabelInfo) (name : List ℕ)
    → label_info_get_if_exist table name ≡ none
    → label_address table name ≡ none
unfolding label_address
missing table name h = ground arith

-- A label that is set keeps its address, since a second definition is refused.
process_labels_keeps :
    (table : List LabelInfo) (address : ℕ) (lines : List Line) (labels : List LabelInfo)
    (name : List ℕ) (a : ℕ)
    → process_labels table address lines ≡ accepted labels
    → label_address table name ≡ some a
    → label_address labels name ≡ some a
unfolding process_labels asm_fail
process_labels_keeps table address [] labels name a h e =
    let same : labels ≡ table = cc in rw same e
process_labels_keeps table address (line ∷ lines) labels name a h e =
    let next = address + content_size line.content in
    elim (Option-cases line.label) [
      | inl n ↦ process_labels_keeps table next lines labels name a (rw (n, process_labels) at h) e
      | inr (own, n) ↦ elim (Option-cases (label_info_get_if_exist table own)) [
        | inr (other, d) ↦ let bad = rw (n, process_labels, d) at h in absurd cc
        | inl d ↦
            let set_it = label_table_set_or_create table own address in
            let kept : label_address set_it name ≡ some a = elim (Bool-cases (same_name own name)) [
              | inl s ↦
                  let one : own ≡ name = same_name_eq own name s in
                  let gone : label_address table name ≡ none = rw (sym one) (missing table own d) in
                  absurd cc
              | inr s ↦ rw (label_address-set_or_create table own name address, s) e
            ] in
            process_labels_keeps set_it next lines labels name a (rw (n, process_labels, d) at h)
              kept
      ]
    ]

process_labels_split :
    (table : List LabelInfo) (address : ℕ) (before : List Line) (line : Line) (after : List Line)
    (labels : List LabelInfo) (name : List ℕ)
    → process_labels table address (before ++ (line ∷ after)) ≡ accepted labels
    → line.label ≡ some name
    → label_address labels name ≡ some (address + total_size before)
unfolding process_labels total_size asm_fail
process_labels_split table address [] line after labels name h e =
    let next = address + content_size line.content in
    elim (Option-cases (label_info_get_if_exist table name)) [
      | inr (other, d) ↦ let bad = rw (e, process_labels, d) at h in absurd cc
      | inl d ↦
          let set_it = label_table_set_or_create table name address in
          let here : label_address set_it name ≡ some (address + 0) =
            rw (label_address-set_or_create table name name address, same_name_refl name, add-zero)
              refl in
          process_labels_keeps set_it next after labels name (address + 0)
            (rw (e, process_labels, d) at h) here
    ]
process_labels_split table address (first ∷ before) line after labels name h e =
    let next = address + content_size first.content in
    let sum : address + (content_size first.content + total_size before)
        ≡ next + total_size before =
      omega arith in
    rw sum (elim (Option-cases first.label) [
      | inl n ↦
          process_labels_split table next before line after labels name
            (rw (n, process_labels) at h) e
      | inr (own, n) ↦ elim (Option-cases (label_info_get_if_exist table own)) [
        | inr (other, d) ↦ let bad = rw (n, process_labels, d) at h in absurd cc
        | inl d ↦
            process_labels_split (label_table_set_or_create table own address) next before line
              after labels name (rw (n, process_labels, d) at h) e
      ]
    ])

-- The output of an accepted program has the size of its lines.
pub length-asm_translate :
    (labels : List LabelInfo) (lines : List Line) (out : List ℕ)
    → asm_translate labels lines ≡ accepted out
    → length out ≡ total_size lines
unfolding asm_translate
length-asm_translate labels lines out h =
    let (more, whole, size) = translate_lines_prefix labels [] lines out h in
    ap (length {A = ℕ}) whole ∙ size

-- Both passes agree: where the labels and the code of a program are accepted, the address of every
-- label is the offset of its line's bytes in the output.
pub label_address-asm_translate :
    (before : List Line) (line : Line) (after : List Line) (name : List ℕ) (labels : List LabelInfo)
    (out : List ℕ)
    → line.label ≡ some name
    → asm_process_labels (before ++ (line ∷ after)) ≡ accepted labels
    → asm_translate labels (before ++ (line ∷ after)) ≡ accepted out
    → (pre code post : List ℕ) × (out ≡ pre ++ (code ++ post))
      × (translate_content labels line.content ≡ accepted code)
      × (label_address labels name ≡ some (length pre))
unfolding asm_process_labels asm_translate
label_address-asm_translate before line after name labels out e h g =
    let (pre, code, post, whole, found, size) =
      translate_lines_split labels [] before line after out g in
    (
      pre,
      code,
      post,
      whole,
      found,
      process_labels_split [] 0 before line after labels name h e ∙ ap some (omega (arith, size)),
    )
