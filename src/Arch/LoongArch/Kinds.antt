-- ===== src/Arch/LoongArch/Kinds.antt =====
-- src/arch/loongarch.rs: which words the decoder takes for branches.
use trim.Prelude.{ℕ, true, ◌≡◌, ◌≢◌, arith, ◌==◌, Bool-cases, inl, inr}
use trim.Types.{FlowType}
use trim.Arch.{field}
use trim.Arch.LoongArch.{
  i26_target, i16_target, i21_target, is_i16, is_i21, branch_to, decode_la_word, decode_la_other,
  decode_jirl,
}

-- B and BL, the branches with 16 bits, and those with 21.
pub data Kind (a w : ℕ) (flow : FlowType) (b : ℕ) : Type 0 where
  jump :
      field 26 6 w ≡ 0x14
      → flow ≡ FlowType.unconditional_branch
      → b ≡ i26_target a w
      → Kind a w flow b
  call : field 26 6 w ≡ 0x15 → flow ≡ FlowType.call → b ≡ i26_target a w → Kind a w flow b
  conditional16 :
      is_i16 (field 26 6 w) ≡ true
      → flow ≡ FlowType.conditional_branch
      → b ≡ i16_target a w
      → Kind a w flow b
  conditional21 :
      is_i21 (field 26 6 w) ≡ true
      → flow ≡ FlowType.conditional_branch
      → b ≡ i21_target a w
      → Kind a w flow b

pub Kind-decode :
    (a w : ℕ) (flow : FlowType) (b : ℕ) → Kind a w flow b → decode_la_word a w ≡ branch_to flow b
unfolding decode_la_word
Kind-decode a w flow b (Kind.jump h f e) = ground arith
Kind-decode a w flow b (Kind.call h f e) = ground arith
Kind-decode a w flow b (Kind.conditional16 h f e) = ground arith
Kind-decode a w flow b (Kind.conditional21 h f e) = ground arith

other-no_branch : (a w : ℕ) (flow : FlowType) (b : ℕ) → decode_la_other a w ≢ branch_to flow b
unfolding decode_la_other
other-no_branch a w flow b = ground arith

jirl-no_branch : (w : ℕ) (flow : FlowType) (b : ℕ) → decode_jirl w ≢ branch_to flow b
unfolding decode_jirl
jirl-no_branch w flow b = ground arith

pub decode-Kind :
    (a w : ℕ) (flow : FlowType) (b : ℕ) → decode_la_word a w ≡ branch_to flow b → Kind a w flow b
unfolding decode_la_word
decode-Kind a w flow b h =
    let no = other-no_branch a w flow b in
    let no' = jirl-no_branch w flow b in
    elim (Bool-cases (field 26 6 w == 0x14)) [
      | inl y ↦ Kind.jump (ground arith) (ground arith) (ground arith)
      | inr n ↦ elim (Bool-cases (field 26 6 w == 0x15)) [
        | inl y ↦ Kind.call (ground arith) (ground arith) (ground arith)
        | inr n' ↦ elim (Bool-cases (is_i16 (field 26 6 w))) [
          | inl y ↦ Kind.conditional16 y (ground arith) (ground arith)
          | inr n'' ↦ Kind.conditional21 (ground arith) (ground arith) (ground arith)
        ]
      ]
    ]
