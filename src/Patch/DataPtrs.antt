-- ===== src/Patch/DataPtrs.antt =====
-- src/patch/data_ptrs.rs: pointers into .text that data sections hold are moved with the code.
-- `none` where a slice out of range panics in the source.
use trim.Prelude.{
  ℕ, zero, suc, Bool, true, false, List, [], ◌∷◌, Option, none, some, String, leb, ltb, ◌&&◌, ◌||◌,
  if◌then◌else◌, wrapping_add, wrapping_sub, length, string_eq,
}
use trim.Prelude.Sets.{contains}
use trim.Types.{Endian, Section}
use trim.Types.Pointer.{ptr_size, read_ptr, write_ptr}
use trim.Patch.Relocs.{Intervals, shift_at, total_shift}
use trim.Decode.Scan.{section_end}

abbrev pub ptr_sections : List String
ptr_sections = ".got" ∷ ".got.plt" ∷ ".init_array" ∷ ".fini_array" ∷ ".ctors" ∷ ".dtors" ∷ []

abbrev pub mixed_sections : List String
mixed_sections = ".rodata" ∷ ".data" ∷ ".data.rel.ro" ∷ []

module _ (intervals : Intervals) (ts te : ℕ) (is64 : Bool) (endian : Endian) where
  -- How far a pointer moves: past .text only in the sections that hold nothing but pointers.
  unfoldable pub ptr_shift : Bool → ℕ → ℕ
  ptr_shift use_total val =
      if use_total
      then total_shift val intervals ts te
      else if leb ts val && ltb val te
      then shift_at val intervals
      else 0

  -- One round of the loop.
  unfoldable pub patch_one_ptr : Bool → List ℕ → ℕ → Option (List ℕ)
  patch_one_ptr use_total bytes i = elim (read_ptr bytes i is64 endian) [
    | none ↦ none
    | some val ↦ elim (ltb 0 (ptr_shift use_total val)) [
      | true ↦ write_ptr bytes i (wrapping_sub val (ptr_shift use_total val)) is64 endian
      | false ↦ some bytes
    ]
  ]

  -- The loop over a section, on fuel.
  unfoldable pub patch_from : Bool → ℕ → ℕ → ℕ → List ℕ → Option (List ℕ)
  patch_from use_total zero i stop bytes = some bytes
  patch_from use_total (suc fuel) i stop bytes = elim (leb (wrapping_add i (ptr_size is64)) stop) [
    | false ↦ some bytes
    | true ↦ elim (patch_one_ptr use_total bytes i) [
      | none ↦ none
      | some patched ↦ patch_from use_total fuel (wrapping_add i (ptr_size is64)) stop patched
    ]
  ]

  unfoldable pub patch_one_data_sec : Bool → Section → List ℕ → Option (List ℕ)
  patch_one_data_sec use_total sec bytes =
      patch_from use_total (length bytes) sec.offset (section_end sec bytes) bytes

  unfoldable pub patch_data_ptrs : List Section → List ℕ → Option (List ℕ)
  patch_data_ptrs [] bytes = some bytes
  patch_data_ptrs (sec ∷ sections) bytes =
      let use_total = contains ptr_sections sec.name in
      let use_text = contains mixed_sections sec.name in
      elim (use_total || use_text) [
        | false ↦ patch_data_ptrs sections bytes
        | true ↦ elim (patch_one_data_sec use_total sec bytes) [
          | none ↦ none
          | some patched ↦ patch_data_ptrs sections patched
        ]
      ]
