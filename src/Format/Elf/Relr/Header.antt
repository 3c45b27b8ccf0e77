-- ===== src/Format/Elf/Relr/Header.antt =====
-- src/format/elf/relr.rs: the parsed headers and tables, and how bytes are read and written.
use trim.Prelude.{
  ℕ, Bool, ◌+◌, ◌-◌, List, [], ◌∷◌, Option, none, some, leb, ◌==◌, ◌&&◌, if◌then◌else◌, checked_add,
  saturating_add, length, take, drop, String,
}
use trim.Types.Pointer.{splice, from_le_bytes, to_le_bytes}

-- An error is its message, without the numbers in it.
pub data Result {ℓ} (A : Type ℓ) : Type ℓ where
  ok : A → Result A
  err : String → Result A

unfoldable pub and_then {ℓ ℓ'} : {A : Type ℓ} {B : Type ℓ'} → Result A → (A → Result B) → Result B
and_then (Result.ok x) f = f x
and_then (Result.err e) f = Result.err e

abbrev pub ok_or {ℓ} : {A : Type ℓ} → Option A → String → Result A
ok_or (some x) e = Result.ok x
ok_or none e = Result.err e

-- `if refused { return Err(..) }`
unfoldable pub refuse_if {ℓ} : {A : Type ℓ} → Bool → String → Result A → Result A
refuse_if refused e rest = if refused then Result.err e else rest

pub record Ehdr : Type 0 where
  pub etype : ℕ
  pub entry : ℕ
  pub phoff : ℕ
  pub shoff : ℕ
  pub phnum : ℕ
  pub shnum : ℕ
  pub shstrndx : ℕ

pub record Phdr : Type 0 where
  pub at : ℕ
  pub ptype : ℕ
  pub offset : ℕ
  pub vaddr : ℕ
  pub filesz : ℕ
  pub memsz : ℕ
  pub align : ℕ

pub record Shdr : Type 0 where
  pub at : ℕ
  pub name : ℕ
  pub stype : ℕ
  pub offset : ℕ
  pub size : ℕ

pub record Elf : Type 0 where
  pub eh : Ehdr
  pub phdrs : List Phdr
  pub shdrs : List Shdr

pub record Dynamic : Type 0 where
  pub off : ℕ
  pub addr : ℕ
  pub slots : ℕ
  pub tags : List (ℕ × ℕ)

pub record Table : Type 0 where
  pub off : ℕ
  pub addr : ℕ
  pub size : ℕ
  pub seg : ℕ
  pub sec : Option ℕ

pub record Packed : Type 0 where
  pub addr : ℕ
  pub addend : ℕ
  pub file_off : ℕ

pub record Split : Type 0 where
  pub packed : List Packed
  pub keep : List ℕ
  pub lead : ℕ

-- `d.get(off..off + n)`, `none` also where the end overflows.
abbrev pub get_range : List ℕ → ℕ → ℕ → Option (List ℕ)
get_range d off n = elim (checked_add off n) [
  | none ↦ none
  | some end ↦ if leb end (length d) then some (take n (drop off d)) else none
]

unfoldable pub rd : List ℕ → ℕ → ℕ → Result ℕ
rd d off n = and_then (ok_or (get_range d off n) "truncated ELF") (λ b. Result.ok (from_le_bytes b))

unfoldable pub wr : List ℕ → ℕ → ℕ → ℕ → Result (List ℕ)
wr d off n v = elim (checked_add off n) [
  | none ↦ Result.err "write outside the file"
  | some end ↦ ok_or (splice d off end (to_le_bytes n v)) "write outside the file"
]

unfoldable pub span : List ℕ → ℕ → ℕ → Result (List ℕ)
span d off len = ok_or (get_range d off len) "range outside the file"

-- The first segment that is loaded with the whole range, from the `i`th on.
unfoldable pub load_range_from : ℕ → List Phdr → ℕ → ℕ → Option (ℕ × ℕ)
load_range_from i [] addr end = none
load_range_from i (p ∷ phdrs) addr end =
    if (p.ptype == 1 && leb p.vaddr addr) && leb end (saturating_add p.vaddr p.filesz)
    then (elim (checked_add p.offset (addr - p.vaddr)) [ none ↦ none | some off ↦ some (i, off) ])
    else load_range_from (i + 1) phdrs addr end

unfoldable pub load_range : Elf → ℕ → ℕ → Option (ℕ × ℕ)
load_range elf addr len = elim (checked_add addr len) [
  | none ↦ none
  | some end ↦ load_range_from 0 elf.phdrs addr end
]

unfoldable pub tag_in : List (ℕ × ℕ) → ℕ → Option ℕ
tag_in [] t = none
tag_in ((k, v) ∷ tags) t = if k == t then some v else tag_in tags t

unfoldable pub tag : Dynamic → ℕ → Option ℕ
tag dy t = tag_in dy.tags t
