-- ===== src/Format/Elf/Relr/Split.antt =====
-- src/format/elf/relr.rs: which relocations RELR can encode, and the checks on them.
use trim.Prelude.{
  ℕ, zero, suc, ◌+◌, ◌/◌, ◌%◌, ◌^◌, Bool, true, false, not, List, [], ◌∷◌, ◌++◌, map, Option, none,
  some, leb, ltb, ◌==◌, ◌&&◌, ◌||◌, if◌then◌else◌, wrapping_add, saturating_add, length, take, drop,
}
use trim.Format.Elf.Relr.Header.{Result, and_then, Elf, Table, Packed, Split, rd, span, load_range}
use trim.Format.Elf.Relr.{word}

-- `RELA_SIZE`, `REL_SIZE` and `DYN_SIZE`.
abbrev pub rela_size : ℕ
rela_size = 24

abbrev pub rel_size : ℕ
rel_size = 16

abbrev pub dyn_size : ℕ
dyn_size = 16

unfoldable pub packable : Elf → ℕ → ℕ → ℕ → Option ℕ
packable elf r_off info rel =
    if (not (info % 2 ^ 32 == rel) || not (info / 2 ^ 32 == 0)) || not (r_off % word == 0)
    then none
    else (elim (load_range elf r_off word) [ none ↦ none | some (_, off) ↦ some off ])

abbrev pub add_packed : Packed → Split → Split
add_packed p s = record { packed = p ∷ s.packed; keep = s.keep; lead = s.lead }

abbrev pub add_kept : List ℕ → Bool → Split → Split
add_kept raw leading s = record {
  packed = s.packed;
  keep = raw ++ s.keep;
  lead = (if leading then 1 else 0) + s.lead;
}

-- The loop over the entries: `n` are left, the next at `at`.
unfoldable pub split_from : ℕ → List ℕ → Elf → ℕ → ℕ → Bool → Result Split
split_from zero d elf rel at leading = Result.ok (record { packed = []; keep = []; lead = 0 })
split_from (suc n) d elf rel at leading = and_then (span d at rela_size) (λ raw.
    and_then (rd raw 0 8) (λ r_off. and_then (rd raw 8 8) (λ info.
      elim (packable elf r_off info rel) [
        | some file_off ↦ and_then (rd raw 16 8) (λ addend.
            and_then (split_from n d elf rel (wrapping_add at rela_size) leading) (λ rest.
              Result.ok
                (add_packed (record { addr = r_off; addend = addend; file_off = file_off }) rest)))
        | none ↦
            let leading' = leading && info % 2 ^ 32 == rel in
            and_then (split_from n d elf rel (wrapping_add at rela_size) leading')
              (λ rest. Result.ok (add_kept raw leading' rest))
      ])))

-- Refuses a split with nothing to pack.
unfoldable pub nonempty : List Packed → Split → Result Split
nonempty [] split = Result.err "no RELATIVE relocations RELR can encode"
nonempty (_ ∷ _) split = Result.ok split

unfoldable pub split_relocs : List ℕ → Elf → Table → ℕ → Result Split
split_relocs d elf t rel =
    and_then (split_from (t.size / rela_size) d elf rel t.off true)
      (λ split. nonempty split.packed split)

-- `sort_by_key`, which is stable.
unfoldable pub insert_packed : Packed → List Packed → List Packed
insert_packed p [] = p ∷ []
insert_packed p (q ∷ rest) = if leb p.addr q.addr then p ∷ q ∷ rest else q ∷ insert_packed p rest

unfoldable pub sort_packed : List Packed → List Packed
sort_packed [] = []
sort_packed (p ∷ rest) = insert_packed p (sort_packed rest)

-- Two neighbours with one address and different addends.
unfoldable pub disagree : List Packed → Bool
disagree [] = false
disagree (p ∷ []) = false
disagree (p ∷ q ∷ rest) = (p.addr == q.addr && not (p.addend == q.addend)) || disagree (q ∷ rest)

-- `dedup_by_key`, after an element with the key `addr`.
unfoldable pub dedup_after : ℕ → List Packed → List Packed
dedup_after addr [] = []
dedup_after addr (p ∷ rest) =
    if p.addr == addr then dedup_after addr rest else p ∷ dedup_after p.addr rest

unfoldable pub dedup : List Packed → List Packed
dedup [] = []
dedup (p ∷ rest) = p ∷ dedup_after p.addr rest

-- The list that is left, and its addresses.
unfoldable pub sorted_offsets : List Packed → Result (List Packed × List ℕ)
sorted_offsets packed =
    let sorted = sort_packed packed in
    if disagree sorted
    then Result.err "two RELATIVE relocations of one word disagree"
    else Result.ok (dedup sorted, map (λ p. p.addr) (dedup sorted))

-- The first offset that ends past `lo`, for the offsets are sorted.
unfoldable pub overlaps : List ℕ → ℕ → ℕ → Bool
overlaps [] lo len = false
overlaps (a ∷ offsets) lo len =
    if leb (saturating_add a word) lo
    then overlaps offsets lo len
    else ltb a (saturating_add lo len)

-- `chunks`: the last may be short. The length is fuel enough, for every chunk has a byte.
unfoldable pub offsets_from : ℕ → List ℕ → ℕ → Result (List ℕ)
offsets_from zero raw entsize = Result.ok []
offsets_from (suc fuel) [] entsize = Result.ok []
offsets_from (suc fuel) (b ∷ raw) entsize = and_then (rd (take entsize (b ∷ raw)) 0 8) (λ r_off.
    and_then (offsets_from fuel (drop entsize (b ∷ raw)) entsize)
      (λ rest. Result.ok (r_off ∷ rest)))

unfoldable pub rela_offsets : List ℕ → ℕ → Result (List ℕ)
rela_offsets raw entsize = offsets_from (length raw) raw entsize
