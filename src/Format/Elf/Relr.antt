-- ===== src/Format/Elf/Relr.antt =====
-- src/format/elf/relr.rs: relative relocations as RELR words.
pub mod Header
pub mod Results
pub mod Split
pub mod Drain
pub mod DrainBounds
pub mod Undescribed
pub mod Sorted
pub mod Bits
pub mod RoundTrip
use trim.Prelude.{
  ℕ, zero, suc, ◌+◌, ◌-◌, ◌*◌, ◌/◌, ◌%◌, ◌^◌, Bool, true, false, List, [], ◌∷◌, ◌++◌, leb, ltb,
  ◌==◌, ◌&&◌, if◌then◌else◌, wrapping_add, u64_mod, length,
}

-- `WORD` and `BITMAP_BITS`.
abbrev pub word : ℕ
word = 8

abbrev pub bitmap_bits : ℕ
bitmap_bits = 63

abbrev pub bit : ℕ → ℕ → ℕ
bit w n = w / 2 ^ n % 2

-- `bitmap | 1 << k`
unfoldable pub set_bit : ℕ → ℕ → ℕ
set_bit bitmap k = if bit bitmap k == 1 then bitmap else bitmap + 2 ^ k

-- The loop that fills one bitmap: the bitmap, and the addresses that are left.
unfoldable pub fill_bitmap : ℕ → ℕ → List ℕ → ℕ × List ℕ
fill_bitmap base bitmap [] = (bitmap, [])
fill_bitmap base bitmap (a ∷ rest) = elim (leb base a && ltb (a - base) (bitmap_bits * word)) [
  | false ↦ (bitmap, a ∷ rest)
  | true ↦ fill_bitmap base (set_bit bitmap ((a - base) / word)) rest
]

-- Both outer loops: an empty bitmap ends the inner one, and the next address starts a new one.
-- Each round but the last takes an address, so the number of addresses is fuel enough.
unfoldable pub encode_from : ℕ → ℕ → List ℕ → List ℕ
encode_from zero base offsets = []
encode_from (suc fuel) base offsets =
    let (bitmap, rest) = fill_bitmap base 0 offsets in
    elim (bitmap == 0) [
      | true ↦ elim offsets [ [] ↦ [] | a ∷ more ↦ a ∷ encode_from fuel (wrapping_add a word) more ]
      | false ↦
          (bitmap * 2 % u64_mod + 1)
          ∷ encode_from fuel (wrapping_add base (bitmap_bits * word)) rest
    ]

unfoldable pub encode_relr : List ℕ → List ℕ
encode_relr [] = []
encode_relr (a ∷ rest) = a ∷ encode_from (length rest) (wrapping_add a word) rest

-- What the loop over the bits of a bitmap word has pushed after `n` rounds.
unfoldable pub pushed : ℕ → ℕ → ℕ → List ℕ
pushed zero next w = []
pushed (suc n) next w =
    pushed n next w ++ (if bit w (suc n) == 1 then wrapping_add next (n * word) ∷ [] else [])

unfoldable pub decode_from : ℕ → List ℕ → List ℕ
decode_from next [] = []
decode_from next (w ∷ words) =
    let round = pushed bitmap_bits next w in
    elim (w % 2 == 0) [
      | true ↦ w ∷ decode_from (wrapping_add w word) words
      | false ↦ round ++ decode_from (wrapping_add next (bitmap_bits * word)) words
    ]

unfoldable pub decode_relr : List ℕ → List ℕ
decode_relr words = decode_from 0 words
