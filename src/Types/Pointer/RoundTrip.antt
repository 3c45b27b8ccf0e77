-- ===== src/Types/Pointer/RoundTrip.antt =====
-- src/types.rs: what `read_ptr` sees of what `write_ptr` wrote.
use mathlib.Core.List.{reverse-cons, reverse-reverse}
use trim.Prelude.{
  ℕ, zero, suc, ◌+◌, ◌-◌, ◌/◌, ◌%◌, ◌^◌, ◌≤◌, ◌<◌, Bool, true, false, List, [], ◌∷◌, ◌++◌, some,
  length, take, drop, if◌then◌else◌, reverse, ◌≡◌, refl, ap, arith, length-append, length-take,
  length-drop, get_elem?, get_elem?-append_left, get_elem?-append_right, ◌∙◌, sym, le→leb,
  drop-append, take-append, get_elem?-drop, get_elem?-take, subst,
}
use trim.Types.{Endian}
use trim.Types.Pointer.{
  from_le_bytes, to_le_bytes, slice, splice, ptr_size, decode_bytes, encode_bytes, read_ptr,
  write_ptr,
}

pub length-to_le_bytes : (n v : ℕ) → length (to_le_bytes n v) ≡ n
unfolding to_le_bytes
length-to_le_bytes zero v = refl
length-to_le_bytes (suc n) v = ap suc (length-to_le_bytes n (v / 256))

pub from_le_bytes-to_le_bytes_4 : (v : ℕ) → from_le_bytes (to_le_bytes 4 v) ≡ v % 2 ^ 32
unfolding from_le_bytes to_le_bytes
from_le_bytes-to_le_bytes_4 v = omega arith

pub from_le_bytes-to_le_bytes_8 : (v : ℕ) → from_le_bytes (to_le_bytes 8 v) ≡ v % 2 ^ 64
unfolding from_le_bytes to_le_bytes
from_le_bytes-to_le_bytes_8 v = omega arith

pub length-reverse {ℓ} : {A : Type ℓ} (xs : List A) → length (reverse xs) ≡ length xs
length-reverse [] = refl
length-reverse (x ∷ xs) =
    rw reverse-cons (omega (arith, length-append (reverse xs) (x ∷ []), length-reverse xs))

-- A splice that keeps the length: what it reads back, and what it leaves alone.
module _ {ℓ} {A : Type ℓ} (xs ys zs : List A) (a b : ℕ) where
  abbrev pub IsSplice : Type ℓ
  IsSplice = (a + length ys ≡ b) × (b ≤ length xs) × (zs ≡ take a xs ++ (ys ++ drop b xs))

  pub splice-IsSplice : a + length ys ≡ b → splice xs a b ys ≡ some zs → IsSplice
  splice-IsSplice e h = ground arith

  pub length-splice : IsSplice → length zs ≡ length xs
  length-splice (e, h, d) = rw d (
      omega (
        arith,
        length-append (take a xs) (ys ++ drop b xs),
        length-append ys (drop b xs),
        length-take a xs,
        length-drop b xs,
      ))

  take-drop-splice : IsSplice → take (b - a) (drop a zs) ≡ ys
  take-drop-splice (e, h, d) = rw d (
      rw (drop-append a (take a xs) (ys ++ drop b xs) (omega (arith, length-take a xs)))
        (take-append (b - a) ys (drop b xs) (omega arith)))

  pub slice-splice : IsSplice → slice zs a b ≡ some ys
  slice-splice (e, h, d) =
      rw (le→leb a b (omega arith), le→leb b (length zs) (omega (arith, length-splice (e, h, d))))
        (ap some (take-drop-splice (e, h, d)))

  pub get_elem?-splice_inside :
      (j : ℕ) → IsSplice → a + j < b → get_elem? zs (a + j) ≡ get_elem? ys j
  get_elem?-splice_inside j spliced lt =
      sym (get_elem?-drop a zs j)
      ∙ sym (get_elem?-take (b - a) (drop a zs) j (omega arith))
      ∙ ap (λ (l : List A). get_elem? l j) (take-drop-splice spliced)

  pub get_elem?-splice_left : (i : ℕ) → IsSplice → i < a → get_elem? zs i ≡ get_elem? xs i
  get_elem?-splice_left i (e, h, d) lt = rw d (
      rw (get_elem?-append_left (take a xs) (ys ++ drop b xs) i (omega (arith, length-take a xs)))
        (get_elem?-take a xs i lt))

  pub get_elem?-splice_right : (i : ℕ) → IsSplice → b ≤ i → get_elem? zs i ≡ get_elem? xs i
  get_elem?-splice_right i (e, h, d) le =
      let j = i - b in
      let at_zs : i ≡ length (take a xs) + (length ys + j) = omega (arith, length-take a xs) in
      let at_xs : b + j ≡ i = omega arith in
      rw d (
        subst (λ (k : ℕ). get_elem? (take a xs ++ (ys ++ drop b xs)) k ≡ get_elem? xs i) (sym at_zs)
          (get_elem?-append_right (take a xs) (ys ++ drop b xs) (length ys + j)
            ∙ get_elem?-append_right ys (drop b xs) j
            ∙ get_elem?-drop b xs j
            ∙ ap (get_elem? xs) at_xs))

abbrev pub ptr_mod : Bool → ℕ
ptr_mod is64 = if is64 then 2 ^ 64 else 2 ^ 32

pub length-encode_bytes : (endian : Endian) (n v : ℕ) → length (encode_bytes endian n v) ≡ n
length-encode_bytes Endian.little n v = length-to_le_bytes n v
length-encode_bytes Endian.big n v = length-reverse (to_le_bytes n v) ∙ length-to_le_bytes n v

from_le_bytes-to_le_bytes :
    (is64 : Bool) (v : ℕ) → from_le_bytes (to_le_bytes (ptr_size is64) v) ≡ v % ptr_mod is64
from_le_bytes-to_le_bytes true v = from_le_bytes-to_le_bytes_8 v
from_le_bytes-to_le_bytes false v = from_le_bytes-to_le_bytes_4 v

decode_bytes-encode_bytes :
    (endian : Endian) (is64 : Bool) (v : ℕ)
    → decode_bytes endian (encode_bytes endian (ptr_size is64) v) ≡ v % ptr_mod is64
decode_bytes-encode_bytes Endian.little is64 v = from_le_bytes-to_le_bytes is64 v
decode_bytes-encode_bytes Endian.big is64 v =
    ap from_le_bytes (reverse-reverse (to_le_bytes (ptr_size is64) v))
    ∙ from_le_bytes-to_le_bytes is64 v

-- Where a pointer fits, `write_ptr` succeeds; the result has the same length, `read_ptr` at the
-- same offset then gives the value modulo the pointer width, and every byte before the pointer
-- and every byte after it is as it was.
pub read_ptr-write_ptr :
    (bytes : List ℕ) (off val : ℕ) (is64 : Bool) (endian : Endian)
    → off + ptr_size is64 ≤ length bytes
    → (written : List ℕ) × (write_ptr bytes off val is64 endian ≡ some written)
      × (length written ≡ length bytes)
      × (read_ptr written off is64 endian ≡ some (val % ptr_mod is64))
      × ((i : ℕ) → i < off → get_elem? written i ≡ get_elem? bytes i)
      × ((i : ℕ) → off + ptr_size is64 ≤ i → get_elem? written i ≡ get_elem? bytes i)
unfolding read_ptr write_ptr
read_ptr-write_ptr bytes off val is64 endian fits =
    let new = encode_bytes endian (ptr_size is64) val in
    let stop = off + ptr_size is64 in
    let written = take off bytes ++ (new ++ drop stop bytes) in
    let done : IsSplice bytes new written off stop =
      (ap (λ (n : ℕ). off + n) (length-encode_bytes endian (ptr_size is64) val), fits, refl) in
    (
      written,
      rw (le→leb off stop (omega arith), le→leb stop (length bytes) fits) refl,
      length-splice bytes new written off stop done,
      rw (slice-splice bytes new written off stop done, read_ptr)
          (ap some (decode_bytes-encode_bytes endian is64 val)),
      λ i h. get_elem?-splice_left bytes new written off stop i done h,
      λ i h. get_elem?-splice_right bytes new written off stop i done h,
    )
