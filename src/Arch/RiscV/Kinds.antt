-- ===== src/Arch/RiscV/Kinds.antt =====
-- src/arch/riscv.rs: the words and half words that the decoder takes for branches.
use trim.Prelude.{ℕ, true, ◌≡◌, ◌≢◌, arith, ◌==◌, ◌&&◌, ◌||◌, Bool-cases, inl, inr}
use trim.Types.{FlowType}
use trim.Arch.{field}
use trim.Arch.RiscV.{
  jal_target, branch_target, c_j_target, c_branch_target, branch_to, jal_flow, decode_jalr,
  decode_auipc, decode_system, decode_rv_word, decode_c_jr_jalr, decode_compressed,
}

-- JAL, and the conditional branches.
pub data Kind (a w : ℕ) (flow : FlowType) (b : ℕ) : Type 0 where
  jal : field 0 7 w ≡ 0x6f → flow ≡ jal_flow w → b ≡ jal_target a w → Kind a w flow b
  branch :
      field 0 7 w ≡ 0x63
      → flow ≡ FlowType.conditional_branch
      → b ≡ branch_target a w
      → Kind a w flow b

pub Kind-decode :
    (a w : ℕ) (flow : FlowType) (b : ℕ) → Kind a w flow b → decode_rv_word a w ≡ branch_to flow b
unfolding decode_rv_word
Kind-decode a w flow b (Kind.jal h f e) = ground arith
Kind-decode a w flow b (Kind.branch h f e) = ground arith

jalr-no_branch : (w : ℕ) (flow : FlowType) (b : ℕ) → decode_jalr w ≢ branch_to flow b
unfolding decode_jalr
jalr-no_branch w flow b = ground arith

auipc-no_branch : (a w : ℕ) (flow : FlowType) (b : ℕ) → decode_auipc a w ≢ branch_to flow b
unfolding decode_auipc
auipc-no_branch a w flow b = ground arith

system-no_branch : (w : ℕ) (flow : FlowType) (b : ℕ) → decode_system w ≢ branch_to flow b
unfolding decode_system
system-no_branch w flow b = ground arith

pub decode-Kind :
    (a w : ℕ) (flow : FlowType) (b : ℕ) → decode_rv_word a w ≡ branch_to flow b → Kind a w flow b
unfolding decode_rv_word
decode-Kind a w flow b h =
    let no = jalr-no_branch w flow b in
    let no' = auipc-no_branch a w flow b in
    let no'' = system-no_branch w flow b in
    elim (Bool-cases (field 0 7 w == 0x6f)) [
      | inl y ↦ Kind.jal (ground arith) (ground arith) (ground arith)
      | inr n ↦ Kind.branch (ground arith) (ground arith) (ground arith)
    ]

-- C.J, C.JAL, and the compressed conditional branches.
pub data HalfKind (a hw : ℕ) (flow : FlowType) (b : ℕ) : Type 0 where
  jump :
      (field 0 2 hw == 1 && field 13 3 hw == 5) ≡ true
      → flow ≡ FlowType.unconditional_branch
      → b ≡ c_j_target a hw
      → HalfKind a hw flow b
  link :
      (field 0 2 hw == 1 && field 13 3 hw == 1) ≡ true
      → flow ≡ FlowType.call
      → b ≡ c_j_target a hw
      → HalfKind a hw flow b
  branch :
      (field 0 2 hw == 1 && (field 13 3 hw == 6 || field 13 3 hw == 7)) ≡ true
      → flow ≡ FlowType.conditional_branch
      → b ≡ c_branch_target a hw
      → HalfKind a hw flow b

pub HalfKind-decode :
    (a hw : ℕ) (flow : FlowType) (b : ℕ)
    → HalfKind a hw flow b
    → decode_compressed a hw ≡ branch_to flow b
unfolding decode_compressed
HalfKind-decode a hw flow b (HalfKind.jump h f e) = ground arith
HalfKind-decode a hw flow b (HalfKind.link h f e) = ground arith
HalfKind-decode a hw flow b (HalfKind.branch h f e) = ground arith

jr-no_branch : (hw : ℕ) (flow : FlowType) (b : ℕ) → decode_c_jr_jalr hw ≢ branch_to flow b
unfolding decode_c_jr_jalr
jr-no_branch hw flow b = ground arith

pub decode-HalfKind :
    (a hw : ℕ) (flow : FlowType) (b : ℕ)
    → decode_compressed a hw ≡ branch_to flow b
    → HalfKind a hw flow b
unfolding decode_compressed
decode-HalfKind a hw flow b h =
    let no = jr-no_branch hw flow b in
    elim (Bool-cases (field 0 2 hw == 1 && field 13 3 hw == 5)) [
      | inl y ↦ HalfKind.jump y (ground arith) (ground arith)
      | inr n ↦ elim (Bool-cases (field 0 2 hw == 1 && field 13 3 hw == 1)) [
        | inl y ↦ HalfKind.link y (ground arith) (ground arith)
        | inr n' ↦ HalfKind.branch (ground arith) (ground arith) (ground arith)
      ]
    ]
