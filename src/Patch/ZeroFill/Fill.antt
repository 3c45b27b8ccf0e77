-- ===== src/Patch/ZeroFill/Fill.antt =====
-- src/patch/zerofill.rs: which bytes are overwritten.
use trim.Prelude.{
  ℕ, zero, suc, ◌+◌, ◌-◌, ◌^◌, ◌<◌, Bool, true, false, List, [], ◌∷◌, ◌++◌, Option, none, some,
  String, ◌≡◌, refl, sym, ap, ap₂, ◌∙◌, arith, leb, ltb, ◌&&◌, ◌||◌, if◌then◌else◌, wrapping_add,
  length, replicate, get_elem?, any, map, All, Bool-cases, Option-cases, inl, inr, length-replicate,
  take, drop,
}
use trim.Types.{Arch, Section, vaddr_to_offset}
use trim.Types.Pointer.RoundTrip.{
  IsSplice, length-splice, get_elem?-splice_left, get_elem?-splice_right, get_elem?-splice_inside,
}
use trim.Analysis.Cfg.{DeadBlock}
use trim.Patch.ZeroFill.{
  Filled, fill_byte, fill_region, fill_regions, unfilled, zero_fill, zero_fill_blocks,
}

-- The region at this place of the file does not reach past the 64-bit range.
abbrev pub NoWrap : List Section → ℕ × ℕ → Type 0
NoWrap sections (addr, size) =
    (off : ℕ) → vaddr_to_offset addr sections ≡ some off → off + size < 2 ^ 64

-- The byte at offset `i` of a file with `len` bytes lies in the region, which the file holds.
abbrev pub covers : List Section → ℕ → ℕ → ℕ × ℕ → Bool
covers sections len i (addr, size) = elim (vaddr_to_offset addr sections) [
  | none ↦ false
  | some off ↦ leb (off + size) len && (leb off i && ltb i (off + size))
]

get_elem?-replicate : (n i a : ℕ) → i < n → get_elem? (replicate n a) i ≡ some a
get_elem?-replicate zero i a h = elim h [ ]
get_elem?-replicate (suc n) zero a h = refl
get_elem?-replicate (suc n) (suc i) a h = get_elem?-replicate n i a (omega arith)

module _ (fill : ℕ) (bytes filled : List ℕ) (off size : ℕ) where
  -- Inside the region the fill byte, elsewhere the old one.
  get_elem?-filled :
      (i : ℕ)
      → IsSplice bytes (replicate size fill) filled off (off + size)
      → get_elem? filled i
        ≡ (if leb off i && ltb i (off + size) then some fill else get_elem? bytes i)
  get_elem?-filled i spliced = elim (Bool-cases (leb off i)) [
    | inr before ↦ rw before (
        get_elem?-splice_left bytes (replicate size fill) filled off (off + size) i spliced
          (ground arith))
    | inl from ↦ elim (Bool-cases (ltb i (off + size))) [
      | inr behind ↦
          rw (from, behind)
            (get_elem?-splice_right bytes (replicate size fill) filled off (off + size) i spliced
              (ground arith))
      | inl inside ↦
          let j = i - off in
          let at_i : off + j ≡ i = ground arith in
          rw (from, inside)
            (ap (get_elem? filled) (sym at_i)
              ∙ get_elem?-splice_inside bytes (replicate size fill) filled off (off + size) j
                  spliced (ground arith)
              ∙ get_elem?-replicate size j fill (ground arith))
    ]
  ]

-- One region.
abbrev RegionFilled : ℕ → List Section → Filled → ℕ × ℕ → Filled → Type 0
RegionFilled fill sections state region next =
    (length next.bytes ≡ length state.bytes)
    × ((i : ℕ)
        → get_elem? next.bytes i ≡ (
            if covers sections (length state.bytes) i region
            then some fill
            else get_elem? state.bytes i))

fill_region_lem :
    (fill : ℕ) (sections : List Section) (state : Filled) (addr size : ℕ)
    → NoWrap sections (addr, size)
    → (next : Filled) × (fill_region fill sections state addr size ≡ some next)
      × RegionFilled fill sections state (addr, size) next
unfolding fill_region
fill_region_lem fill sections state addr size fits =
    elim (Option-cases (vaddr_to_offset addr sections)) [
      | inl missing ↦ (state, ground arith, (refl, λ i. ground arith))
      | inr (off, found) ↦
          let e : wrapping_add off size ≡ off + size = (let k = fits off found in omega arith) in
          elim (Bool-cases (leb (off + size) (length state.bytes))) [
            | inr past ↦ (state, ground arith, (refl, λ i. ground arith))
            | inl held ↦
                let new = replicate size fill in
                let filled = take off state.bytes ++ (new ++ drop (off + size) state.bytes) in
                let next : Filled = record {
                  bytes = filled;
                  count = suc state.count;
                  total_bytes = wrapping_add state.total_bytes size;
                } in
                let spliced : IsSplice state.bytes new filled off (off + size) =
                  (omega (arith, length-replicate size fill), ground arith, refl) in
                (
                  next,
                  ground arith,
                  (
                    length-splice state.bytes new filled off (off + size) spliced,
                    λ i.
                        ground (arith, get_elem?-filled fill state.bytes filled off size i spliced),
                  ),
                )
          ]
    ]

-- All the regions: a byte in any of them is overwritten, and every other byte stays.
abbrev pub RegionsFilled : ℕ → List Section → List ℕ → List (ℕ × ℕ) → List ℕ → Type 0
RegionsFilled fill sections bytes regions filled =
    (length filled ≡ length bytes)
    × ((i : ℕ)
        → get_elem? filled i ≡ (
            if any (covers sections (length bytes) i) regions
            then some fill
            else get_elem? bytes i))

if_either :
    (b c : Bool) (x y : Option ℕ)
    → (if c then x else (if b then x else y)) ≡ (if b || c then x else y)
if_either true true x y = refl
if_either true false x y = refl
if_either false true x y = refl
if_either false false x y = refl

fill_regions_lem :
    (fill : ℕ) (sections : List Section) (regions : List (ℕ × ℕ)) (state : Filled)
    → All (NoWrap sections) regions
    → (out : Filled) × (fill_regions fill sections regions state ≡ some out)
      × RegionsFilled fill sections state.bytes regions out.bytes
unfolding fill_regions
fill_regions_lem fill sections [] state fits = (state, refl, (refl, λ i. refl))
fill_regions_lem fill sections ((addr, size) ∷ regions) state (fit, fits) =
    let (next, done, (same, at_one)) = fill_region_lem fill sections state addr size fit in
    let (out, ends, (same', at_rest)) = fill_regions_lem fill sections regions next fits in
    let pick = λ (i n : ℕ) (old : Option ℕ).
      (if any (covers sections n i) regions then some fill else old) in
    (
      out,
      rw (fill_regions, done) ends,
      (
        same' ∙ same,
        λ i.
            at_rest i
            ∙ ap₂ (pick i) same (at_one i)
            ∙ if_either (covers sections (length state.bytes) i (addr, size))
                (any (covers sections (length state.bytes) i) regions) (some fill)
                (get_elem? state.bytes i),
      ),
    )

-- The places of the dead blocks.
abbrev pub block_regions : List DeadBlock → List (ℕ × ℕ)
block_regions blocks = map (λ b. (b.addr, b.size)) blocks

-- When no block's place in the file reaches past the 64-bit range, `zero_fill_blocks` returns a
-- file of the same length in which each byte of a block that the file holds is the fill byte of the
-- architecture, and every other byte is as it was.
pub zero_fill_blocks_lem :
    (bytes : List ℕ) (blocks : List DeadBlock) (sections : List Section) (arch : Arch)
    → All (NoWrap sections) (block_regions blocks)
    → (out : Filled) × (zero_fill_blocks bytes blocks sections arch ≡ some out)
      × RegionsFilled (fill_byte arch) sections bytes (block_regions blocks) out.bytes
unfolding zero_fill_blocks
zero_fill_blocks_lem bytes blocks sections arch fits =
    fill_regions_lem (fill_byte arch) sections (block_regions blocks) (unfilled bytes) fits

abbrev pub func_regions : List (String × ℕ × ℕ) → List (ℕ × ℕ)
func_regions dead = map (λ d. (d.1, d.2)) dead

-- When no function's place in the file reaches past the 64-bit range, `zero_fill` returns a file of
-- the same length in which each byte of a dead function that the file holds is zero, and every
-- other byte is as it was.
pub zero_fill_lem :
    (bytes : List ℕ) (dead : List (String × ℕ × ℕ)) (sections : List Section)
    → All (NoWrap sections) (func_regions dead)
    → (out : Filled) × (zero_fill bytes dead sections ≡ some out)
      × RegionsFilled 0 sections bytes (func_regions dead) out.bytes
unfolding zero_fill
zero_fill_lem bytes dead sections fits =
    fill_regions_lem 0 sections (func_regions dead) (unfilled bytes) fits
