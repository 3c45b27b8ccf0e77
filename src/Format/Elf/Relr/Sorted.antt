-- ===== src/Format/Elf/Relr/Sorted.antt =====
-- src/format/elf/relr.rs: the addresses that are handed to the encoder.
use trim.Prelude.{
  ℕ, zero, suc, ◌+◌, ◌/◌, ◌%◌, ◌^◌, ◌≤◌, ◌<◌, Bool, true, List, [], ◌∷◌, map, some, ◌≡◌, sym, ◌∙◌,
  ap, arith, leb, ◌==◌, ◌&&◌, Bool-cases, inl, inr, All, u64_mod, subst, Option-cases, wrapping_add,
  wrapping_add,
}
use trim.Format.Elf.Relr.Header.{Result, Table, Packed, Split, Elf, load_range}
use trim.Format.Elf.Relr.Split.{
  insert_packed, sort_packed, disagree, dedup_after, dedup, sorted_offsets, packable, split_from,
  nonempty, split_relocs,
}
use trim.Format.Elf.Relr.Results.{OnOk, OnOk-and_then, OnOk-and_then_both, OnOk-ok, OnOk-elim}
use trim.Format.Elf.Relr.RoundTrip.{IsAscending, decode_relr-encode_relr}
use trim.Format.Elf.Relr.{encode_relr, decode_relr}

-- An aligned word below 2^64.
abbrev pub IsWord : Packed → Type 0
IsWord p = (p.addr % 8 ≡ 0) × (p.addr < u64_mod)

abbrev IsSortedFrom : ℕ → List Packed → Type 0
IsSortedFrom lo [] = Unit
IsSortedFrom lo (p ∷ rest) = (lo ≤ p.addr) × IsSortedFrom p.addr rest

insert_packed-IsSortedFrom :
    (lo : ℕ) (p : Packed) (r : List Packed)
    → lo ≤ p.addr
    → IsSortedFrom lo r
    → IsSortedFrom lo (insert_packed p r)
unfolding insert_packed
insert_packed-IsSortedFrom lo p [] h k = (h, tt)
insert_packed-IsSortedFrom lo p (q ∷ r) h k = elim (Bool-cases (leb p.addr q.addr)) [
  | inl first ↦ rw (insert_packed, first) (h, (ground arith, k.1))
  | inr later ↦
      rw (insert_packed, later) (k.0, insert_packed-IsSortedFrom q.addr p r (ground arith) k.1)
]

sort_packed-IsSortedFrom : (r : List Packed) → IsSortedFrom 0 (sort_packed r)
unfolding sort_packed
sort_packed-IsSortedFrom [] = tt
sort_packed-IsSortedFrom (p ∷ r) =
    insert_packed-IsSortedFrom 0 p (sort_packed r) (omega arith) (sort_packed-IsSortedFrom r)

insert_packed-All :
    (p : Packed) (r : List Packed) → IsWord p → All IsWord r → All IsWord (insert_packed p r)
unfolding insert_packed
insert_packed-All p [] h k = (h, tt)
insert_packed-All p (q ∷ r) h k = elim (Bool-cases (leb p.addr q.addr)) [
  | inl first ↦ rw (insert_packed, first) (h, k)
  | inr later ↦ rw (insert_packed, later) (k.0, insert_packed-All p r h k.1)
]

sort_packed-All : (r : List Packed) → All IsWord r → All IsWord (sort_packed r)
unfolding sort_packed
sort_packed-All [] h = tt
sort_packed-All (p ∷ r) h = insert_packed-All p (sort_packed r) h.0 (sort_packed-All r h.1)

abbrev addrs : List Packed → List ℕ
addrs r = map (λ p. p.addr) r

dedup_after-IsAscending :
    (k : ℕ) (r : List Packed)
    → k % 8 ≡ 0
    → IsSortedFrom k r
    → All IsWord r
    → IsAscending (k + 8) (addrs (dedup_after k r))
unfolding dedup_after
dedup_after-IsAscending k [] h s words = tt
dedup_after-IsAscending k (p ∷ r) h s words = elim (Bool-cases (p.addr == k)) [
  | inl again ↦
      let e : p.addr ≡ k = ground arith in
      rw (dedup_after, again)
        (dedup_after-IsAscending k r h (subst (λ (x : ℕ). IsSortedFrom x r) e s.1) words.1)
  | inr other ↦
      rw (dedup_after, other)
        (ground arith, words.0.0, words.0.1, dedup_after-IsAscending p.addr r words.0.0 s.1 words.1)
]

dedup-IsAscending :
    (r : List Packed) → IsSortedFrom 0 r → All IsWord r → IsAscending 0 (addrs (dedup r))
unfolding dedup
dedup-IsAscending [] s words = tt
dedup-IsAscending (p ∷ r) s words =
    (s.0, words.0.0, words.0.1, dedup_after-IsAscending p.addr r words.0.0 s.1 words.1)

sorted_offsets-IsAscending :
    (packed packed' : List Packed) (offsets : List ℕ)
    → All IsWord packed
    → sorted_offsets packed ≡ Result.ok (packed', offsets)
    → (offsets ≡ addrs packed') × IsAscending 0 offsets
unfolding sorted_offsets
sorted_offsets-IsAscending packed packed' offsets words h =
    elim (Bool-cases (disagree (sort_packed packed))) [
      | inl two ↦ absurd (
          let refused : Result.err "two RELATIVE relocations of one word disagree"
              ≡ Result.ok (packed', offsets) =
            rw two at h in
          cc)
      | inr agreed ↦
          let h' : Result.ok (dedup (sort_packed packed), addrs (dedup (sort_packed packed)))
              ≡ Result.ok (packed', offsets) =
            rw agreed at h in
          let e : dedup (sort_packed packed) ≡ packed' = cc in
          let e' : addrs (dedup (sort_packed packed)) ≡ offsets = cc in
          (
            sym e' ∙ ap addrs e,
            subst (λ (x : List ℕ). IsAscending 0 x) e'
                (dedup-IsAscending (sort_packed packed) (sort_packed-IsSortedFrom packed)
                  (sort_packed-All packed words)),
          )
    ]

load_range-bound :
    (elf : Elf) (addr len : ℕ) (found : ℕ × ℕ)
    → load_range elf addr len ≡ some found
    → addr + len < u64_mod
unfolding load_range
load_range-bound elf addr len found h = ground arith

packable-IsWord :
    (elf : Elf) (r_off info rel file_off : ℕ)
    → packable elf r_off info rel ≡ some file_off
    → (r_off % 8 ≡ 0) × (r_off < u64_mod)
unfolding packable
packable-IsWord elf r_off info rel file_off h = elim (Option-cases (load_range elf r_off 8)) [
  | inl none_found ↦ absurd (ground arith)
  | inr (found, e) ↦ let bound = load_range-bound elf r_off 8 found e in (ground arith, omega arith)
]

abbrev HasWords : Split → Type 0
HasWords s = All IsWord s.packed

split_from-HasWords :
    (n : ℕ) (d : List ℕ) (elf : Elf) (rel at : ℕ) (leading : Bool)
    → OnOk HasWords (split_from n d elf rel at leading)
unfolding split_from
split_from-HasWords zero d elf rel at leading = OnOk-ok HasWords _ tt
split_from-HasWords (suc n) d elf rel at leading = OnOk-and_then HasWords _ _ (λ raw.
    OnOk-and_then HasWords _ _ (λ r_off. OnOk-and_then HasWords _ _ (λ info.
      elim (Option-cases (packable elf r_off info rel)) [
        | inl kept ↦ rw kept (
            OnOk-and_then_both HasWords HasWords _ _
              (split_from-HasWords n d elf rel (wrapping_add at 24)
                (leading && info % 2 ^ 32 == rel))
              (λ s words. OnOk-ok HasWords _ words))
        | inr (file_off, found) ↦ rw found (
            OnOk-and_then HasWords _ _ (λ addend.
              OnOk-and_then_both HasWords HasWords _ _
                (split_from-HasWords n d elf rel (wrapping_add at 24) leading)
                (λ s words.
                  OnOk-ok HasWords _ (packable-IsWord elf r_off info rel file_off found, words))))
      ])))

nonempty-HasWords :
    (packed : List Packed) (s : Split) → HasWords s → OnOk HasWords (nonempty packed s)
unfolding nonempty OnOk
nonempty-HasWords [] s words = tt
nonempty-HasWords (p ∷ rest) s words = words

split_relocs-HasWords :
    (d : List ℕ) (elf : Elf) (t : Table) (rel : ℕ) → OnOk HasWords (split_relocs d elf t rel)
unfolding split_relocs
split_relocs-HasWords d elf t rel =
    OnOk-and_then_both HasWords HasWords _ _
      (split_from-HasWords (t.size / 24) d elf rel t.off true)
      (λ s words. nonempty-HasWords s.packed s words)

-- The addresses that `split_relocs` picks and `sorted_offsets` sorts survive the coding: RELR words
-- made of them are decoded as the addresses of the relocations that are left, ascending and with
-- no two the same.
pub sorted_offsets-encode_relr :
    (d : List ℕ) (elf : Elf) (t : Table) (rel : ℕ) (split : Split) (packed : List Packed)
    (offsets : List ℕ)
    → split_relocs d elf t rel ≡ Result.ok split
    → sorted_offsets split.packed ≡ Result.ok (packed, offsets)
    → (decode_relr (encode_relr offsets) ≡ map (λ p. p.addr) packed) × IsAscending 0 offsets
sorted_offsets-encode_relr d elf t rel split packed offsets h h' =
    let words =
      OnOk-elim HasWords (split_relocs d elf t rel) split h (split_relocs-HasWords d elf t rel) in
    let (same, ascending) = sorted_offsets-IsAscending split.packed packed offsets words h' in
    ((decode_relr-encode_relr offsets ascending).0 ∙ same, ascending)
