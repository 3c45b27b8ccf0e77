-- ===== src/Types.antt =====
-- src/types.rs: architectures, flow types, functions, instructions, sections.
pub mod Pointer
use trim.Prelude.{
  ℕ, ◌+◌, ◌-◌, Bool, true, false, List, [], ◌∷◌, Option, none, some, String, leb, ltb, ◌&&◌,
  if◌then◌else◌, wrapping_add,
}

pub data Arch : Type 0 where
  x86_64 x86_32 aarch64 arm32 risc_v64 risc_v32 mips32 mips64 s390x loong_arch64 : Arch

pub data Endian : Type 0 where
  little big : Endian

pub record FuncInfo : Type 0 where
  pub addr : ℕ
  pub size : ℕ
  pub is_global : Bool

pub data FlowType : Type 0 where
  normal call unconditional_branch conditional_branch return halt : FlowType
  indirect_branch indirect_call : FlowType

-- True if execution can continue past an instruction of this flow.
unfoldable pub falls_through : FlowType → Bool
falls_through FlowType.return = false
falls_through FlowType.unconditional_branch = false
falls_through FlowType.indirect_branch = false
falls_through FlowType.halt = false
falls_through _ = true

pub record DecodedInstr : Type 0 where
  pub addr : ℕ
  pub raw : List ℕ
  pub len : ℕ
  pub targets : List ℕ
  pub pc_rel_target : Option ℕ
  pub is_call : Bool
  pub flow : FlowType

pub record Section : Type 0 where
  pub name : String
  pub size : ℕ
  pub vaddr : ℕ
  pub offset : ℕ
  pub align : ℕ

-- `HashMap<String, FuncInfo>`: the entries in the order in which the map is walked.
abbrev pub FuncMap : Type 0
FuncMap = List (String × FuncInfo)

-- `HashMap<String, HashSet<String>>`.
abbrev pub RefGraph : Type 0
RefGraph = List (String × List String)

abbrev pub holds_vaddr : ℕ → Section → Bool
holds_vaddr vaddr s = leb s.vaddr vaddr && ltb vaddr (wrapping_add s.vaddr s.size)

-- The file offset of a virtual address, from the first section that holds it.
unfoldable pub vaddr_to_offset : ℕ → List Section → Option ℕ
vaddr_to_offset vaddr [] = none
vaddr_to_offset vaddr (s ∷ rest) =
    if holds_vaddr vaddr s
    then some (wrapping_add s.offset (vaddr - s.vaddr))
    else vaddr_to_offset vaddr rest
