-- ===== src/Decode/Scan/Words.antt =====
-- src/decode/scan.rs: which values a scan of a section collects.
use trim.Prelude.{
  ℕ, zero, suc, ◌+◌, ◌-◌, ◌*◌, ◌^◌, ◌≤◌, ◌<◌, Bool, true, false, List, none, some, ◌≡◌, refl, ◌⊎◌,
  ap, ◌∙◌, arith, leb, ◌==◌, subst, ◌&&◌, ◌||◌, if◌then◌else◌, wrapping_add, length, nat_eq, min,
  Bool-cases, inl, inr, ==_iff, take, drop,
}
use trim.Prelude.Sets.{contains}
use trim.Types.{Endian, Section}
use trim.Types.Pointer.{ptr_size, read_ptr, decode_bytes}
use trim.Decode.Scan.{insert_val, section_end, scan_from, scan_section}

contains-insert_val :
    (refs : List ℕ) (val v : ℕ) → contains (insert_val refs val) v ≡ (contains refs v || val == v)
contains-insert_val refs val v = elim (Bool-cases (contains refs val)) [
  | inl old ↦ rw old (elim (Bool-cases (val == v)) [
    | inl same ↦ let e = (==_iff val v).0 same in ground (arith, ap (contains refs) e)
    | inr other ↦ ground arith
  ])
  | inr new ↦ rw new (ground arith)
]

words_wide : (is64 : Bool) (k : ℕ) → k ≤ k * ptr_size is64
words_wide true k = omega arith
words_wide false k = omega arith

ptr_size_pos : (is64 : Bool) → 4 ≤ ptr_size is64
ptr_size_pos true = omega arith
ptr_size_pos false = omega arith

module _ (bytes : List ℕ) (is64 : Bool) (endian : Endian) (wanted : ℕ → Bool) where
  -- The word at a place is wanted and has the value `v`.
  abbrev pub word_at : ℕ → ℕ → Bool
  word_at v i = elim (read_ptr bytes i is64 endian) [
    | none ↦ false
    | some val ↦ wanted val && val == v
  ]

  -- One of the first `k` words from `i` on that end at or below `stop`.
  abbrev pub word_among : ℕ → ℕ → ℕ → ℕ → Bool
  word_among v zero i stop = false
  word_among v (suc k) i stop =
      (leb (i + ptr_size is64) stop && word_at v i) || word_among v k (i + ptr_size is64) stop

  read_ptr-some :
      (i : ℕ)
      → i + ptr_size is64 ≤ length bytes
      → (val : ℕ) × (read_ptr bytes i is64 endian ≡ some val)
  unfolding read_ptr
  read_ptr-some i h =
      let b = take (i + ptr_size is64 - i) (drop i bytes) in (decode_bytes endian b, ground arith)

  word_among_past : (v k i stop : ℕ) → stop < i + ptr_size is64 → word_among v k i stop ≡ false
  word_among_past v zero i stop h = refl
  word_among_past v (suc k) i stop h =
      ground (arith, word_among_past v k (i + ptr_size is64) stop (omega arith))

  scan_from_stop :
      (fuel i stop : ℕ) (refs : List ℕ)
      → leb (wrapping_add i (ptr_size is64)) stop ≡ false
      → scan_from bytes is64 endian wanted (suc fuel) i stop refs ≡ some refs
  unfolding scan_from
  scan_from_stop fuel i stop refs h = ground arith

  scan_from_step :
      (fuel i stop val : ℕ) (refs : List ℕ)
      → leb (wrapping_add i (ptr_size is64)) stop ≡ true
      → read_ptr bytes i is64 endian ≡ some val
      → scan_from bytes is64 endian wanted (suc fuel) i stop refs
        ≡ scan_from bytes is64 endian wanted fuel
            (wrapping_add i (ptr_size is64))
            stop
            (if wanted val then insert_val refs val else refs)
  unfolding scan_from
  scan_from_step fuel i stop val refs h read = ground arith

  scan_from_lem :
      (fuel i stop : ℕ) (refs : List ℕ)
      → stop ≤ length bytes
      → i + 16 < 2 ^ 64
      → length bytes + 16 < 2 ^ 64
      → (out : List ℕ) × (scan_from bytes is64 endian wanted fuel i stop refs ≡ some out)
        × ((v : ℕ) → contains out v ≡ (contains refs v || word_among v fuel i stop))
  unfolding scan_from
  scan_from_lem zero i stop refs h low top = (refs, refl, λ v. ground arith)
  scan_from_lem (suc fuel) i stop refs h low top =
      let size : (ptr_size is64 ≤ 8) × (4 ≤ ptr_size is64) = (ground arith, ground arith) in
      let e : wrapping_add i (ptr_size is64) ≡ i + ptr_size is64 = omega arith in
      elim (Bool-cases (leb (i + ptr_size is64) stop)) [
        | inr past ↦ (
          refs,
          scan_from_stop fuel i stop refs (rw e past),
          λ v. let no = word_among_past v (suc fuel) i stop (ground arith) in rw no (ground arith),
        )
        | inl inside ↦
            let (val, read) = read_ptr-some i (ground arith) in
            let next = if wanted val then insert_val refs val else refs in
            let (out, ends, has) =
              scan_from_lem fuel (i + ptr_size is64) stop next h (ground arith) top in
            (
              out,
              scan_from_step fuel i stop val refs (rw e inside) read ∙ rw e ends,
              λ v. has v ∙ ground (arith, contains-insert_val refs val v),
            )
      ]

  -- The place of the word with number `k` from `i` on.
  abbrev pub place : ℕ → ℕ → ℕ
  place i k = i + k * ptr_size is64

  word_among-finds :
      (v fuel i stop : ℕ)
      → word_among v fuel i stop ≡ true
      → (k : ℕ) × (place i k + ptr_size is64 ≤ stop) × (word_at v (place i k) ≡ true)
  word_among-finds v zero i stop h = ground arith
  word_among-finds v (suc fuel) i stop h =
      elim (Bool-cases (leb (i + ptr_size is64) stop && word_at v i)) [
        | inl here ↦
            let at_i : i ≡ place i 0 = omega arith in
            (0, ground arith, subst (λ (p : ℕ). word_at v p ≡ true) at_i (ground arith))
        | inr later ↦
            let (k, fits, found) =
              word_among-finds v fuel (i + ptr_size is64) stop (ground arith) in
            let at_k : place (i + ptr_size is64) k ≡ place i (suc k) = omega arith in
            (suc k, omega arith, subst (λ (p : ℕ). word_at v p ≡ true) at_k found)
      ]

  word_among-holds :
      (v fuel i stop k : ℕ)
      → k < fuel
      → place i k + ptr_size is64 ≤ stop
      → word_at v (place i k) ≡ true
      → word_among v fuel i stop ≡ true
  word_among-holds v zero i stop k lt fits found = elim lt [ ]
  word_among-holds v (suc fuel) i stop zero lt fits found =
      let at_i : place i 0 ≡ i = omega arith in
      let here = subst (λ (p : ℕ). word_at v p ≡ true) at_i found in ground arith
  word_among-holds v (suc fuel) i stop (suc k) lt fits found =
      let at_k : place i (suc k) ≡ place (i + ptr_size is64) k = omega arith in
      let rest =
        word_among-holds v fuel (i + ptr_size is64) stop k (omega arith) (omega arith)
          (subst (λ (p : ℕ). word_at v p ≡ true) at_k found) in
      ground arith

  -- The fuel is enough: a section has fewer words than the file has bytes.
  few : (k i stop : ℕ) → stop ≤ length bytes → place i k + ptr_size is64 ≤ stop → k < length bytes
  few k i stop h fits = omega (arith, words_wide is64 k, ptr_size_pos is64)

  -- For a section whose end has an address of 64 bits, and a section's start and a file's end that
  -- are 16 bytes below the 64-bit limit or earlier: the scan of the section ends; it keeps what was
  -- collected before, and adds exactly the wanted values of the words that end at or before the end
  -- of the section, offset + size, and of the file, counted from the section's start on.
  pub scan_section_lem :
      (sec : Section) (refs : List ℕ)
      → sec.offset + 16 < 2 ^ 64
      → sec.offset + sec.size < 2 ^ 64
      → length bytes + 16 < 2 ^ 64
      → (out : List ℕ) × (scan_section bytes is64 endian wanted sec refs ≡ some out)
        × ((v : ℕ) → contains refs v ≡ true → contains out v ≡ true)
        × ((v k : ℕ)
            → place sec.offset k + ptr_size is64 ≤ min (sec.offset + sec.size) (length bytes)
            → word_at v (place sec.offset k) ≡ true
            → contains out v ≡ true)
        × ((v : ℕ)
            → contains out v ≡ true
            → (contains refs v ≡ true)
              ⊎ ((k : ℕ) × (place sec.offset k + ptr_size is64
                    ≤ min (sec.offset + sec.size) (length bytes))
                  × (word_at v (place sec.offset k) ≡ true)))
  scan_section_lem sec refs low whole top =
      let stop = section_end sec bytes in
      let fuel = length bytes in
      let (out, ends, has) = scan_from_lem fuel sec.offset stop refs (omega arith) low top in
      (
        out,
        ends,
        λ v old. has v ∙ rw old refl,
        λ v k fits found.
            has v
            ∙ ground (
              arith,
              word_among-holds v fuel sec.offset stop k
                  (few k sec.offset stop (omega arith) (omega arith)) (omega arith) found,
            ),
        λ v inside. elim (Bool-cases (contains refs v)) [
          | inl old ↦ inl old
          | inr new ↦
              let (k, fits, found) =
                word_among-finds v fuel sec.offset stop (ground (arith, has v)) in
              inr (k, omega arith, found)
        ],
      )
