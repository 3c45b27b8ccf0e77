-- ===== src/Format/Elf/Relr/RoundTrip.antt =====
-- src/format/elf/relr.rs: what is decoded of an encoded list of addresses.
use trim.Prelude.{
  ℕ, zero, suc, ◌+◌, ◌-◌, ◌*◌, ◌/◌, ◌%◌, ◌^◌, ◌≤◌, ◌<◌, true, false, List, [], ◌∷◌, ◌++◌, ◌≡◌, refl,
  ◌∙◌, ap, arith, leb, ltb, ◌==◌, ◌&&◌, Bool-cases, inl, inr, ◌⊎◌, wrapping_add, u64_mod, length,
}
use mathlib.Core.List.{append_assoc}
use trim.Format.Elf.Relr.{
  word, bitmap_bits, set_bit, fill_bitmap, encode_from, encode_relr, pushed, decode_from,
  decode_relr,
}
use trim.Format.Elf.Relr.Bits.{pow_mono, pushed-set_bit, pushed-empty}

-- Multiples of 8 below 2^64, the first at least `lo`, each at least 8 past the one before.
abbrev pub IsAscending : ℕ → List ℕ → Type 0
IsAscending lo [] = Unit
IsAscending lo (a ∷ rest) = (lo ≤ a) × (a % 8 ≡ 0) × (a < u64_mod) × IsAscending (a + 8) rest

IsAscending-weaken : (lo hi : ℕ) (r : List ℕ) → lo ≤ hi → IsAscending hi r → IsAscending lo r
IsAscending-weaken lo hi [] h s = tt
IsAscending-weaken lo hi (a ∷ r) h s = (omega arith, s.1, s.2, s.3)

-- Nothing is taken, or the bitmap grows and fewer are left.
abbrev Taken : ℕ → List ℕ → ℕ → List ℕ → Type 0
Taken bitmap offsets bitmap' rest =
    ((bitmap' ≡ bitmap) × (rest ≡ offsets)) ⊎ ((bitmap < bitmap') × (length rest < length offsets))

-- A bitmap stands for the addresses that are taken into it.
record Bitmapped (base bitmap : ℕ) (offsets : List ℕ) (bitmap' : ℕ) (rest : List ℕ) : Type 0 where
  same : pushed 63 base (bitmap' * 2 + 1) ++ rest ≡ pushed 63 base (bitmap * 2 + 1) ++ offsets
  further : IsAscending (base + 504) rest
  bound : bitmap' < 2 ^ 63
  taken : Taken bitmap offsets bitmap' rest

Taken-le :
    (bitmap : ℕ) (offsets : List ℕ) (bitmap' : ℕ) (rest : List ℕ)
    → Taken bitmap offsets bitmap' rest
    → (bitmap ≤ bitmap') × (length rest ≤ length offsets)
Taken-le bitmap offsets bitmap' rest (inl (e, e')) = (omega (arith, e), rw e' (omega arith))
Taken-le bitmap offsets bitmap' rest (inr h) = (omega (arith, h), omega (arith, h))

fill_bitmap-Bitmapped :
    (base k bitmap : ℕ) (offsets : List ℕ)
    → base % 8 ≡ 0
    → k ≤ 63
    → bitmap < 2 ^ k
    → IsAscending (base + k * 8) offsets
    → (let (bitmap', rest) = fill_bitmap base bitmap offsets in
        Bitmapped base bitmap offsets bitmap' rest)
unfolding fill_bitmap
fill_bitmap-Bitmapped base k bitmap [] at h small ascending = record {
  same = refl;
  further = tt;
  bound = omega (arith, pow_mono k 63 h);
  taken = inl (refl, refl);
}
fill_bitmap-Bitmapped base k bitmap (a ∷ rest) at h small ascending =
    elim (Bool-cases (leb base a && ltb (a - base) (bitmap_bits * word))) [
      | inr beyond ↦
          rw (fill_bitmap, beyond)
            (record {
              same = refl;
              further = (ground arith, ascending.1, ascending.2, ascending.3);
              bound = omega (arith, pow_mono k 63 h);
              taken = inl (refl, refl);
            })
      | inl inside ↦
          let j = (a - base) / word in
          let low : k ≤ j = ground arith in
          let high : j < 63 = ground arith in
          let (round, bound, grows) =
            pushed-set_bit j 63 base bitmap (omega (arith, pow_mono k j low)) high in
          let there : wrapping_add base (j * 8) ≡ a = ground arith in
          let filled =
            fill_bitmap-Bitmapped base (suc j) (set_bit bitmap j) rest at high bound
              (IsAscending-weaken (base + suc j * 8) (a + 8) rest (ground arith) ascending.3) in
          rw (fill_bitmap, inside)
            (record {
              same =
                  filled.same
                  ∙ ap (λ x. x ++ rest)
                      (round ∙ ap (λ x. pushed 63 base (bitmap * 2 + 1) ++ (x ∷ [])) there)
                  ∙ append_assoc (pushed 63 base (bitmap * 2 + 1)) (a ∷ []) rest;
              further = filled.further;
              bound = filled.bound;
              taken = inr (omega (arith, Taken-le (set_bit bitmap j) rest _ _ filled.taken));
            })
    ]

filled_first :
    (base : ℕ) (offsets : List ℕ)
    → base % 8 ≡ 0
    → IsAscending base offsets
    → (let (bitmap, rest) = fill_bitmap base 0 offsets in Bitmapped base 0 offsets bitmap rest)
filled_first base offsets at ascending =
    fill_bitmap-Bitmapped base 0 0 offsets at (omega arith) (omega arith)
      (IsAscending-weaken (base + 0 * 8) base offsets (omega arith) ascending)

decode_from-address :
    (next a : ℕ) (words : List ℕ)
    → a % 8 ≡ 0
    → decode_from next (a ∷ words) ≡ a ∷ decode_from (wrapping_add a 8) words
unfolding decode_from
decode_from-address next a words h =
    let e : (a % 2 == 0) ≡ true = ground arith in rw (decode_from, e) refl

decode_from-bitmap :
    (next b : ℕ) (words : List ℕ)
    → b < 2 ^ 63
    → decode_from next ((b * 2 % u64_mod + 1) ∷ words)
      ≡ pushed 63 next (b * 2 + 1) ++ decode_from (wrapping_add next 504) words
unfolding decode_from
decode_from-bitmap next b words h =
    let w : b * 2 % u64_mod ≡ b * 2 = omega arith in
    let e : ((b * 2 + 1) % 2 == 0) ≡ false = ground arith in rw w (rw (decode_from, e) refl)

decode_from-nil : (next : ℕ) → decode_from next [] ≡ []
unfolding decode_from
decode_from-nil next = refl

-- The addresses that are left fit the fuel, and are what is decoded.
decode_from-encode_from :
    (fuel base : ℕ) (offsets : List ℕ)
    → length offsets ≤ fuel
    → base % 8 ≡ 0
    → IsAscending base offsets
    → decode_from base (encode_from fuel base offsets) ≡ offsets
unfolding encode_from fill_bitmap
decode_from-encode_from zero base [] h at ascending = decode_from-nil base
decode_from-encode_from zero base (a ∷ rest) h at ascending = absurd (omega arith)
decode_from-encode_from (suc fuel) base [] h at ascending = decode_from-nil base
decode_from-encode_from (suc fuel) base (a ∷ more) h at ascending =
    let bitmap = (fill_bitmap base 0 (a ∷ more)).0 in
    let rest = (fill_bitmap base 0 (a ∷ more)).1 in
    let filled = filled_first base (a ∷ more) at ascending in
    elim (Bool-cases (bitmap == 0)) [
      | inl empty ↦
          rw (encode_from, empty)
            (decode_from-address base a (encode_from fuel (wrapping_add a 8) more) ascending.1
              ∙ ap (λ x. a ∷ x)
                  (decode_from-encode_from fuel (wrapping_add a 8) more (omega arith) (omega arith)
                    (IsAscending-weaken (wrapping_add a 8) (a + 8) more (omega arith) ascending.3)))
      | inr found ↦
          let fewer : length rest ≤ fuel = ground (arith, filled.taken) in
          rw (encode_from, found)
            (decode_from-bitmap base bitmap (encode_from fuel (wrapping_add base 504) rest)
                filled.bound
              ∙ ap (λ x. pushed 63 base (bitmap * 2 + 1) ++ x)
                  (decode_from-encode_from fuel (wrapping_add base 504) rest fewer (omega arith) (
                    IsAscending-weaken (wrapping_add base 504) (base + 504) rest (omega arith)
                      filled.further))
              ∙ filled.same
              ∙ ap (λ x. x ++ (a ∷ more)) (pushed-empty base))
    ]

length-encode_from :
    (fuel base : ℕ) (offsets : List ℕ)
    → base % 8 ≡ 0
    → IsAscending base offsets
    → length (encode_from fuel base offsets) ≤ length offsets
unfolding encode_from fill_bitmap
length-encode_from zero base offsets at ascending = omega arith
length-encode_from (suc fuel) base [] at ascending = omega arith
length-encode_from (suc fuel) base (a ∷ more) at ascending =
    let bitmap = (fill_bitmap base 0 (a ∷ more)).0 in
    let rest = (fill_bitmap base 0 (a ∷ more)).1 in
    let filled = filled_first base (a ∷ more) at ascending in
    elim (Bool-cases (bitmap == 0)) [
      | inl empty ↦
          rw (encode_from, empty)
            (omega (
              arith,
              length-encode_from fuel (wrapping_add a 8) more (omega arith)
                  (IsAscending-weaken (wrapping_add a 8) (a + 8) more (omega arith) ascending.3),
            ))
      | inr found ↦
          let fewer : length rest ≤ length more = ground (arith, filled.taken) in
          rw (encode_from, found)
            (omega (
              arith,
              fewer,
              length-encode_from fuel (wrapping_add base 504) rest (omega arith) (
                  IsAscending-weaken (wrapping_add base 504) (base + 504) rest (omega arith)
                    filled.further),
            ))
    ]

-- Encoded as RELR words, ascending multiples of 8 below 2^64 are decoded as they were, and there
-- are no more words than addresses.
pub decode_relr-encode_relr :
    (offsets : List ℕ)
    → IsAscending 0 offsets
    → (decode_relr (encode_relr offsets) ≡ offsets)
      × (length (encode_relr offsets) ≤ length offsets)
unfolding decode_relr encode_relr
decode_relr-encode_relr [] ascending = (decode_from-nil 0, omega arith)
decode_relr-encode_relr (a ∷ rest) ascending =
    let next = IsAscending-weaken (wrapping_add a 8) (a + 8) rest (omega arith) ascending.3 in
    (
      decode_from-address 0 a (encode_from (length rest) (wrapping_add a 8) rest) ascending.1
          ∙ ap (λ x. a ∷ x)
              (decode_from-encode_from (length rest) (wrapping_add a 8) rest (omega arith)
                (omega arith) next),
      omega (arith, length-encode_from (length rest) (wrapping_add a 8) rest (omega arith) next),
    )
