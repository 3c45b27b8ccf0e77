-- ===== src/Decode/Scan.antt =====
-- src/decode/scan.rs: pointer-sized values of the data sections that name code. `none` where a
-- slice out of range panics in the source.
pub mod Words
use trim.Prelude.{
  ℕ, zero, suc, Bool, true, false, List, [], ◌∷◌, Option, none, some, String, leb, ltb, ◌&&◌,
  if◌then◌else◌, wrapping_add, length, min, string_eq, nat_eq,
}
use trim.Prelude.Sets.{contains}
use trim.Types.{Endian, Section}
use trim.Types.Pointer.{ptr_size, read_ptr}

abbrev pub data_names : List String
data_names =
    ".rodata" ∷ ".data" ∷ ".data.rel.ro" ∷ ".init_array" ∷ ".fini_array" ∷ ".got" ∷ ".got.plt"
    ∷ ".rdata" ∷ ".ctors" ∷ ".dtors" ∷ []

abbrev pub scan_names : List String
scan_names =
    ".data" ∷ ".data.rel.ro" ∷ ".got" ∷ ".got.plt" ∷ ".init_array" ∷ ".fini_array" ∷ ".ctors"
    ∷ ".dtors" ∷ ".rdata" ∷ []

-- `refs.insert(val)`
abbrev pub insert_val : List ℕ → ℕ → List ℕ
insert_val refs val = if contains refs val then refs else val ∷ refs

abbrev pub section_end : Section → List ℕ → ℕ
section_end sec bytes = min (wrapping_add sec.offset sec.size) (length bytes)

module _ (bytes : List ℕ) (is64 : Bool) (endian : Endian) (wanted : ℕ → Bool) where
  -- The loop over a section, on fuel: `i` is the place, `stop` the section's end in the file.
  unfoldable pub scan_from : ℕ → ℕ → ℕ → List ℕ → Option (List ℕ)
  scan_from zero i stop refs = some refs
  scan_from (suc fuel) i stop refs = elim (leb (wrapping_add i (ptr_size is64)) stop) [
    | false ↦ some refs
    | true ↦ elim (read_ptr bytes i is64 endian) [
      | none ↦ none
      | some val ↦
          scan_from fuel (wrapping_add i (ptr_size is64)) stop
            (if wanted val then insert_val refs val else refs)
    ]
  ]

  abbrev pub scan_section : Section → List ℕ → Option (List ℕ)
  scan_section sec refs = scan_from (length bytes) sec.offset (section_end sec bytes) refs

  -- The loop over the sections with one of the names.
  unfoldable pub scan_sections : List String → List Section → List ℕ → Option (List ℕ)
  scan_sections names [] refs = some refs
  scan_sections names (sec ∷ sections) refs = elim (contains names sec.name) [
    | false ↦ scan_sections names sections refs
    | true ↦ elim (scan_section sec refs) [
      | none ↦ none
      | some refs' ↦ scan_sections names sections refs'
    ]
  ]

unfoldable pub scan_data_for_func_addrs :
    List ℕ → List ℕ → List Section → Bool → Endian → Option (List ℕ)
scan_data_for_func_addrs bytes func_addrs sections is64 endian =
    scan_sections bytes is64 endian (contains func_addrs) data_names sections []

unfoldable pub scan_data_code_refs : List ℕ → List Section → ℕ → ℕ → Bool → Endian → Option (List ℕ)
scan_data_code_refs bytes sections text_start text_end is64 endian =
    scan_sections bytes is64 endian (λ val. leb text_start val && ltb val text_end) scan_names
      sections []
