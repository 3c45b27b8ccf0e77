-- ===== src/Tests/Scans.antt =====
-- src/decode/scan.rs on a file of twelve bytes: a section of three words, the middle one wanted.
use trim.Prelude.{
  ℕ, ◌+◌, ◌≤◌, ◌==◌, Bool, true, false, List, [], ◌∷◌, some, ◌≡◌, refl, arith, ◌⊎◌, nat_eq,
}
use trim.Prelude.Sets.{contains}
use trim.Types.{Endian, Section}
use trim.Types.Pointer.{read_ptr, from_le_bytes}
use trim.Decode.Scan.{scan_section, scan_from, scan_data_for_func_addrs, scan_sections}
use trim.Decode.Scan.Words.{word_at, place, scan_section_lem}

abbrev file : List ℕ
file = 1 ∷ 0 ∷ 0 ∷ 0 ∷ 100 ∷ 0 ∷ 0 ∷ 0 ∷ 3 ∷ 0 ∷ 0 ∷ 0 ∷ []

abbrev got : Section
got = record { name = ".got"; size = 12; vaddr = 500; offset = 0; align = 4 }

abbrev at_100 : ℕ → Bool
at_100 v = v == 100

scan_run : scan_data_for_func_addrs file (100 ∷ []) (got ∷ []) false Endian.little ≡ some (100 ∷ [])
unfolding scan_data_for_func_addrs scan_sections scan_from read_ptr from_le_bytes
scan_run = refl

scan_section_lem_example :
    (out : List ℕ) × (scan_section file false Endian.little at_100 got [] ≡ some out)
    × ((v : ℕ) → contains {A = ℕ} [] v ≡ true → contains out v ≡ true)
    × ((v k : ℕ)
        → place file false Endian.little at_100 0 k + 4 ≤ 12
        → word_at file false Endian.little at_100 v (place file false Endian.little at_100 0 k)
          ≡ true
        → contains out v ≡ true)
    × ((v : ℕ)
        → contains out v ≡ true
        → (contains {A = ℕ} [] v ≡ true)
          ⊎ ((k : ℕ) × (place file false Endian.little at_100 0 k + 4 ≤ 12)
              × (word_at file false Endian.little at_100 v
                    (place file false Endian.little at_100 0 k)
                  ≡ true)))
scan_section_lem_example =
    scan_section_lem file false Endian.little at_100 got [] (omega arith) (omega arith)
      (omega arith)
