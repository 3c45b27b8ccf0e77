-- ===== src/Types/Pointer.antt =====
-- src/types.rs: `read_ptr` and `write_ptr`. A slice out of range panics in the source: `none` here.
pub mod RoundTrip
use trim.Prelude.{
  ℕ, zero, suc, ◌+◌, ◌-◌, ◌*◌, ◌/◌, ◌%◌, Bool, List, [], ◌∷◌, ◌++◌, Option, none, some, length,
  take, drop, leb, ◌&&◌, if◌then◌else◌, reverse,
}
use trim.Types.{Endian}

-- The value of a byte list, lowest byte first: `from_le_bytes`.
unfoldable pub from_le_bytes : List ℕ → ℕ
from_le_bytes [] = 0
from_le_bytes (b ∷ bs) = b + 256 * from_le_bytes bs

-- The low `n` bytes of a value, lowest first: `to_le_bytes`, after the `as u32` where n is 4.
unfoldable pub to_le_bytes : ℕ → ℕ → List ℕ
to_le_bytes zero v = []
to_le_bytes (suc n) v = v % 256 ∷ to_le_bytes n (v / 256)

-- `data[a..b]`.
abbrev pub slice {ℓ} : {A : Type ℓ} → List A → ℕ → ℕ → Option (List A)
slice xs a b = if leb a b && leb b (length xs) then some (take (b - a) (drop a xs)) else none

-- `data[a..b].copy_from_slice(bytes)`, for as many bytes as the slice has.
abbrev pub splice {ℓ} : {A : Type ℓ} → List A → ℕ → ℕ → List A → Option (List A)
splice xs a b bytes =
    if leb a b && leb b (length xs) then some (take a xs ++ (bytes ++ drop b xs)) else none

abbrev pub ptr_size : Bool → ℕ
ptr_size is64 = if is64 then 8 else 4

abbrev pub decode_bytes : Endian → List ℕ → ℕ
decode_bytes Endian.little b = from_le_bytes b
decode_bytes Endian.big b = from_le_bytes (reverse b)

abbrev pub encode_bytes : Endian → ℕ → ℕ → List ℕ
encode_bytes Endian.little n v = to_le_bytes n v
encode_bytes Endian.big n v = reverse (to_le_bytes n v)

unfoldable pub read_ptr : List ℕ → ℕ → Bool → Endian → Option ℕ
read_ptr bytes off is64 endian = elim (slice bytes off (off + ptr_size is64)) [
  | none ↦ none
  | some b ↦ some (decode_bytes endian b)
]

unfoldable pub write_ptr : List ℕ → ℕ → ℕ → Bool → Endian → Option (List ℕ)
write_ptr bytes off val is64 endian =
    splice bytes off (off + ptr_size is64) (encode_bytes endian (ptr_size is64) val)
