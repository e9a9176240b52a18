-- ===== src/Linker/Symbols.antt =====
-- The symbol table of zl_link_objects (emulator/src/Linker.c).
use zlvm.Prelude.{
  ℕ, ◌+◌, Bool, false, ◌&&◌, ◌||◌, not, List, [], ◌∷◌, ◌++◌, none, some, ◌==◌, if◌then◌else◌,
  to_word,
}
use zlvm.Prelude.Names.{same_name}
use zlvm.Outcome.{Outcome, refused, accepted, refuse_if}
use zlvm.Image.{Image, ImageSymbol, undefined_section}
use zlvm.Linker.{
  LinkError, link_incompatible_object, link_duplicate_symbol, LinkSection, find_section,
}

abbrev pub symbol_global : ℕ
symbol_global = 1

abbrev pub is_defined : ImageSymbol → Bool
is_defined s = not (s.section_index == undefined_section)

-- A defined symbol takes its final address and the index of its section in the output.
unfoldable pub resolve_symbol : List LinkSection → ℕ → ImageSymbol → Outcome LinkError ImageSymbol
resolve_symbol sections object s =
    if is_defined s
    then elim (find_section sections object s.section_index) [
      | none ↦ refused link_incompatible_object
      | some (index, section) ↦ accepted (record s {
        value = to_word (s.value + section.image.address);
        section_index = to_word index;
      })
    ]
    else accepted s

-- A global definition of the same name stands among the collected symbols.
unfoldable pub is_duplicate : List ImageSymbol → ImageSymbol → Bool
is_duplicate [] s = false
is_duplicate (t ∷ collected) s =
    let rest = is_duplicate collected s in
    (t.binding == symbol_global && same_name t.name s.name && is_defined t && is_defined s) || rest

-- The symbols of all objects, in the order of the two loops.
unfoldable pub number_symbols : ℕ → List ImageSymbol → List (ℕ × ImageSymbol)
number_symbols object [] = []
number_symbols object (s ∷ symbols) = (object, s) ∷ number_symbols object symbols

unfoldable pub link_symbols : ℕ → List Image → List (ℕ × ImageSymbol)
link_symbols object [] = []
link_symbols object (image ∷ images) =
    number_symbols object image.symbols ++ link_symbols (object + 1) images

unfoldable pub collect_symbols :
    List LinkSection
    → List ImageSymbol
    → List (ℕ × ImageSymbol)
    → Outcome LinkError (List ImageSymbol)
collect_symbols sections collected [] = accepted collected
collect_symbols sections collected ((object, s) ∷ symbols) =
    elim (resolve_symbol sections object s) [
      | refused e ↦ refused e
      | accepted r ↦
          refuse_if (r.binding == symbol_global && is_duplicate collected r) link_duplicate_symbol
            (collect_symbols sections (collected ++ (r ∷ [])) symbols)
    ]
